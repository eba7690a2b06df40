-- ===== src/Ingest/History.antt =====
-- The history of each source that internal/store/ingest_source.go keeps.
use assaio.Prelude.{
  ℕ, zero, suc, ◌-◌, ◌≡◌, refl, ap, ◌∙◌, sym, String, Bool, true, false, not, ◌&&◌, Bool-cases, inl,
  inr, List, [], ◌∷◌, ◌++◌, filter_if, length, ltb, str_eq, eq_iff, arith, if◌then◌else◌,
}
use mathlib.Core.List.{append-nil}
use assaio.Store.IngestState.{
  SourceRun, is_run_of, runs_of, max_source_runs, prune_runs, record_run, source_history,
}

abbrev pub drop {ℓ} : {A : Type ℓ} → ℕ → List A → List A
drop zero xs = xs
drop (suc n) [] = []
drop (suc n) (x ∷ xs) = drop n xs

-- The last entries of a list, at most as many as a source's history keeps.
abbrev pub newest {ℓ} : {A : Type ℓ} → List A → List A
newest xs = drop (length xs - max_source_runs) xs

runs_of-length :
    (tool : String) (rs : List SourceRun) → runs_of tool rs ≡ length (source_history rs tool)
unfolding runs_of source_history
runs_of-length tool [] = refl
runs_of-length tool (r ∷ rs) = elim (Bool-cases (is_run_of tool r)) [
  | inl e ↦ rw e (omega (arith, runs_of-length tool rs))
  | inr e ↦ rw e (omega (arith, runs_of-length tool rs))
]

newest_room {ℓ} :
    {A : Type ℓ} (x : A) (xs : List A)
    → ltb (length xs) max_source_runs ≡ true
    → newest (x ∷ xs) ≡ x ∷ newest xs
newest_room x xs h =
    let none_over : length xs - max_source_runs ≡ 0 = ground (arith, h) in
    let none_more : length (x ∷ xs) - max_source_runs ≡ 0 = ground (arith, h) in
    rw (none_over, none_more) refl

newest_full {ℓ} :
    {A : Type ℓ} (x : A) (xs : List A)
    → ltb (length xs) max_source_runs ≡ false
    → newest (x ∷ xs) ≡ newest xs
newest_full x xs h =
    let one_more : length (x ∷ xs) - max_source_runs ≡ suc (length xs - max_source_runs) =
      ground (arith, h) in
    rw one_more refl

-- Pruning keeps the newest runs of the tool.
pruned_own :
    (tool : String) (rs : List SourceRun)
    → source_history (prune_runs tool rs) tool ≡ newest (source_history rs tool)
unfolding source_history prune_runs
pruned_own tool [] = refl
pruned_own tool (r ∷ rs) = elim (Bool-cases (is_run_of tool r)) [
  | inl e ↦ elim (Bool-cases (ltb (runs_of tool rs) max_source_runs)) [
    | inl f ↦
        let room = ap (λ n. ltb n max_source_runs) (sym (runs_of-length tool rs)) ∙ f in
        rw (e, f, e) (ap (λ l. r ∷ l) (pruned_own tool rs) ∙ sym (newest_room r _ room))
    | inr f ↦
        let full = ap (λ n. ltb n max_source_runs) (sym (runs_of-length tool rs)) ∙ f in
        rw (e, f) (pruned_own tool rs ∙ sym (newest_full r _ full))
  ]
  | inr e ↦ rw (e, e) (pruned_own tool rs)
]

-- Pruning leaves the runs of the other tools.
pruned_other :
    (tool other : String) (rs : List SourceRun)
    → str_eq tool other ≡ false
    → source_history (prune_runs tool rs) other ≡ source_history rs other
unfolding source_history prune_runs
pruned_other tool other [] h = refl
pruned_other tool other (r ∷ rs) h =
    elim (Bool-cases (is_run_of tool r && not (ltb (runs_of tool rs) max_source_runs))) [
      | inl e ↦
          let foreign : is_run_of other r ≡ false = apart r.tool tool other _ e h in
          rw (e, foreign) (pruned_other tool other rs h)
      | inr e ↦
          rw e (ap (λ l. if is_run_of other r then r ∷ l else l) (pruned_other tool other rs h))
    ]
  where
    apart :
        (a b c : String) (d : Bool)
        → (str_eq a b && d) ≡ true
        → str_eq b c ≡ false
        → str_eq a c ≡ false
    apart a b c d h k = ground (arith, eq_iff a b, eq_iff a c, eq_iff b c)

history-append :
    (rs qs : List SourceRun) (tool : String)
    → source_history (rs ++ qs) tool ≡ source_history rs tool ++ source_history qs tool
unfolding source_history
history-append [] qs tool = refl
history-append (r ∷ rs) qs tool = elim (Bool-cases (is_run_of tool r)) [
  | inl e ↦ rw e (ap (λ l. r ∷ l) (history-append rs qs tool))
  | inr e ↦ rw e (history-append rs qs tool)
]

-- The runs of a tool among some runs, in their order.
abbrev pub own_runs : String → List SourceRun → List SourceRun
own_runs tool rs = filter_if (is_run_of tool) rs

-- Recording a run makes the history of its tool the newest ten of the history before and the run,
-- oldest first, and leaves the history of every other tool as it was.
pub record_run_history :
    (r : SourceRun) (table : List SourceRun) (tool : String)
    → source_history (record_run r table) tool ≡ (
        if str_eq r.tool tool
        then newest (source_history table tool ++ (r ∷ []))
        else source_history table tool)
unfolding record_run source_history
record_run_history r table tool = elim (Bool-cases (str_eq r.tool tool)) [
  | inl e ↦
      let same : r.tool ≡ tool = (eq_iff r.tool tool).0 e in
      let own : source_history (r ∷ []) tool ≡ r ∷ [] = alone e in
      rw e (
        ap (λ t. source_history (prune_runs t (table ++ (r ∷ []))) tool) same
        ∙ pruned_own tool (table ++ (r ∷ []))
        ∙ ap newest
            (history-append table (r ∷ []) tool ∙ ap (λ l. source_history table tool ++ l) own))
  | inr e ↦
      rw e (
        pruned_other r.tool tool (table ++ (r ∷ [])) e
        ∙ history-append table (r ∷ []) tool
        ∙ gone e)
]
  where
    alone : str_eq r.tool tool ≡ true → own_runs tool (r ∷ []) ≡ r ∷ []
    alone e = rw e refl

    gone :
        str_eq r.tool tool ≡ false
        → own_runs tool table ++ own_runs tool (r ∷ []) ≡ own_runs tool table
    gone e = rw e (append-nil (own_runs tool table))
