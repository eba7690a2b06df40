-- ===== src/Attribution/Gaps.antt =====
-- How internal/attribution/changes_measurements.go counts the gaps of a rate.
use assaio.Prelude.{
  ℕ, ◌+◌, String, ◌≡◌, refl, ◌∙◌, Bool, Bool-cases, inl, inr, List, [], ◌∷◌, str_eq, str_ltb, arith,
  sort_by, insert_by,
}
use assaio.Attribution.Delivery.{PopulationGap, add_gap, has_gap, count_gap}

-- The pull requests that the gaps count.
abbrev pub gap_total : List PopulationGap → ℕ
gap_total [] = 0
gap_total (g ∷ gs) = g.pull_requests + gap_total gs

gap_total-insert_by :
    (less : PopulationGap → PopulationGap → Bool) (g : PopulationGap) (gs : List PopulationGap)
    → gap_total (insert_by less g gs) ≡ g.pull_requests + gap_total gs
unfolding insert_by
gap_total-insert_by less g [] = refl
gap_total-insert_by less g (h ∷ gs) = elim (Bool-cases (less h g)) [
  | inl e ↦ rw e (omega (arith, gap_total-insert_by less g gs))
  | inr e ↦ rw e refl
]

gap_total-sort_by :
    (less : PopulationGap → PopulationGap → Bool) (gs : List PopulationGap)
    → gap_total (sort_by less gs) ≡ gap_total gs
unfolding sort_by
gap_total-sort_by less [] = refl
gap_total-sort_by less (g ∷ gs) =
    gap_total-insert_by less g (sort_by less gs) ∙ omega (arith, gap_total-sort_by less gs)

gap_total-add :
    (reason : String) (gs : List PopulationGap) → gap_total (add_gap reason gs) ≡ gap_total gs + 1
unfolding add_gap
gap_total-add reason [] = omega arith
gap_total-add reason (g ∷ gs) = elim (Bool-cases (str_eq g.reason reason)) [
  | inl e ↦ rw e (omega arith)
  | inr e ↦ rw e (omega (arith, gap_total-add reason gs))
]

pub gap_total-count :
    (reason : String) (gs : List PopulationGap) → gap_total (count_gap reason gs) ≡ gap_total gs + 1
unfolding count_gap
gap_total-count reason gs = elim (Bool-cases (has_gap reason gs)) [
  | inl e ↦ rw e (gap_total-add reason gs)
  | inr e ↦ rw e (
      gap_total-sort_by (λ a b. str_ltb a.reason b.reason) (add_gap reason gs)
      ∙ gap_total-add reason gs)
]
