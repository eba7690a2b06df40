-- ===== src/Attribution/Verdict.antt =====
-- What a result's status says of its candidates, on every path of matchSession.
use assaio.Prelude.{
  ℕ, ◌≤◌, String, ◌≡◌, ◌≢◌, refl, inl, inr, true, false, Option, none, some, List, [], ◌∷◌, ◌||◌,
  str_eq, arith, ltb, ◌==◌, length, Bool-cases,
}
use assaio.Event.{Event}
use assaio.Attribution.{
  Session, Candidate, Result, Status, matched, ambiguous, unmatched, insufficient, no_reason,
}
use assaio.Attribution.Match.{
  decide_match, match_valid, match_session, StringMap, empty_result, split_candidates, string_at,
  unmatched_reason, apply_confirmation, confirm, candidates_for,
}

-- The shape that each status stands for.
abbrev pub ShapeOf : Status → Result → Type 0
ShapeOf matched r =
    (r.ambiguous ≡ false)
    × (1 ≤ length r.candidates)
    × (r.confidence ≢ insufficient)
    × (r.reason ≡ no_reason)
ShapeOf ambiguous r =
    (r.ambiguous ≡ true)
    × (2 ≤ length r.candidates)
    × (r.confidence ≡ insufficient)
    × (r.alternatives ≡ [])
ShapeOf unmatched r =
    (r.ambiguous ≡ false)
    × (r.candidates ≡ [])
    × (r.alternatives ≡ [])
    × (r.confidence ≡ insufficient)
    × (r.reason ≢ no_reason)

abbrev pub HasShape : Result → Type 0
HasShape r = ShapeOf r.status r

decide_match-HasShape :
    (s : Session) (commits : List Event) (now : ℕ) (overlaps followers : List Candidate)
    → HasShape (decide_match s commits now overlaps followers)
unfolding decide_match empty_result unmatched_reason
decide_match-HasShape s commits now [] [] = (refl, refl, refl, refl, λ h. ground arith)
decide_match-HasShape s commits now [] (c ∷ []) = (refl, omega arith, (λ h. cc), refl)
decide_match-HasShape s commits now [] (c ∷ d ∷ rest) = (refl, omega arith, refl, refl)
decide_match-HasShape s commits now (c ∷ overlaps) followers = (refl, omega arith, (λ h. cc), refl)

confirm-HasShape :
    (s : Session) (plausible : List Candidate) (id : String) (o : Option Event)
    → HasShape (confirm (empty_result s) plausible id o)
unfolding confirm empty_result
confirm-HasShape s plausible id none = (refl, refl, refl, refl, λ h. cc)
confirm-HasShape s plausible id (some e) = (refl, omega arith, (λ h. cc), refl)

match_valid-HasShape :
    (s : Session) (commits : List Event) (m : StringMap) (now : ℕ)
    → HasShape (match_valid s commits m now)
unfolding match_valid split_candidates apply_confirmation
match_valid-HasShape s commits m now = elim (Bool-cases (str_eq (string_at s.id m) "")) [
  | inl p ↦ rw p (decide_match-HasShape s commits now _ _)
  | inr p ↦ rw p (confirm-HasShape s (candidates_for s commits) _ _)
]

-- A result is marked ambiguous exactly when its status says so, and then keeps at least two
-- candidates and hides none among the alternatives; a matched one has a candidate, a confidence and
-- no reason; an unmatched one has no candidate, no alternative and a reason.
pub match_session-HasShape :
    (s : Session) (commits : List Event) (m : StringMap) (now : ℕ)
    → HasShape (match_session s commits m now)
unfolding match_session empty_result
match_session-HasShape s commits m now = elim (Bool-cases (str_eq s.id "" || str_eq s.project "")) [
  | inl p ↦ rw p (refl, refl, refl, refl, λ h. cc)
  | inr p ↦ elim (Bool-cases (s.started_at == 0 || ltb s.ended_at s.started_at)) [
    | inl q ↦ rw (p, q) (refl, refl, refl, refl, λ h. cc)
    | inr q ↦ rw (p, q) (match_valid-HasShape s commits m now)
  ]
]
