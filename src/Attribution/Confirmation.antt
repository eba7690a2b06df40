-- ===== src/Attribution/Confirmation.antt =====
-- A person's confirmation outranks every inference.
use assaio.Prelude.{
  String, ◌≡◌, ◌≢◌, refl, ◌≤◌, inl, inr, true, false, some, List, [], ◌∷◌, ◌||◌, not, str_eq,
  eq_iff, arith, ltb, ◌==◌, All, Memᴰ, filter_if, Bool-cases, ℕ,
}
use assaio.Event.{Event}
use assaio.Attribution.{Session, Candidate, Result, matched, confirmed, high}
use assaio.Attribution.Match.{
  match_valid, match_session, StringMap, empty_result, string_at, apply_confirmation, confirm,
  find_commit, candidates_for, candidate_from,
}

-- A session that matchSession does not turn away, with a confirmation.
pub record IsConfirmed (s : Session) (m : StringMap) : Type 0 where
  pub named : (str_eq s.id "" || str_eq s.project "") ≡ false
  pub started : s.started_at ≢ 0
  pub ordered : s.started_at ≤ s.ended_at
  pub stated : string_at s.id m ≢ ""

match_session_to_confirmation :
    (s : Session) (commits : List Event) (m : StringMap) (now : ℕ)
    → IsConfirmed s m
    → match_session s commits m now
      ≡ confirm
          (empty_result s)
          (candidates_for s commits)
          (string_at s.id m)
          (find_commit (string_at s.id m) commits)
unfolding match_session match_valid apply_confirmation
match_session_to_confirmation s commits m now h = rw (h.named, window s m h, given s m h) refl
  where
    window :
        (s : Session) (m : StringMap)
        → IsConfirmed s m
        → (s.started_at == 0 || ltb s.ended_at s.started_at) ≡ false
    window s m h = ground (arith, h.started, h.ordered)

    given : (s : Session) (m : StringMap) → IsConfirmed s m → str_eq (string_at s.id m) "" ≡ false
    given s m h = ground (arith, h.stated, eq_iff (string_at s.id m) "")

find_commit_id :
    (id : String) (es : List Event) (e : Event) → find_commit id es ≡ some e → e.id ≡ id
unfolding find_commit
find_commit_id id [] e h = cc
find_commit_id id (x ∷ es) e h = elim (Bool-cases (str_eq x.id id)) [
  | inl q ↦ let same : some x ≡ some e = rw q at h in cc (same, (eq_iff x.id id).0 q)
  | inr q ↦ find_commit_id id es e (rw q at h)
]

find_commit_complete :
    (id : String) (es : List Event) (e : Event)
    → Memᴰ e es
    → e.id ≡ id
    → (x : Event) × (find_commit id es ≡ some x)
unfolding find_commit
find_commit_complete id [] e m h = elim m [ ]
find_commit_complete id (x ∷ es) e (Memᴰ.head q) h =
    let same : str_eq x.id id ≡ true = (eq_iff x.id id).1 (cc (q, h)) in (x, rw same refl)
find_commit_complete id (x ∷ es) e (Memᴰ.tail m) h = elim (Bool-cases (str_eq x.id id)) [
  | inl q ↦ (x, rw q refl)
  | inr q ↦ rw q (find_commit_complete id es e m h)
]

others_only :
    (id : String) (cs : List Candidate)
    → All (λ c. c.commit_id ≢ id) (filter_if (λ c. not (str_eq c.commit_id id)) cs)
others_only id [] = tt
others_only id (c ∷ cs) = elim (Bool-cases (str_eq c.commit_id id)) [
  | inl q ↦ rw q (others_only id cs)
  | inr q ↦ rw q ((λ h. ground (arith, eq_iff c.commit_id id)), others_only id cs)
]

-- The result that a confirmation by `id` stands for.
abbrev pub WonBy : String → Result → Type 0
WonBy id r =
    (r.status ≡ matched)
    × (r.method ≡ confirmed)
    × (r.confidence ≡ high)
    × (r.provenance ≡ "manual")
    × ((c : Candidate) × (r.candidates ≡ c ∷ []) × (c.commit_id ≡ id))
    × All (λ c. c.commit_id ≢ id) r.alternatives

confirm-WonBy :
    (s : Session) (plausible : List Candidate) (id : String) (e : Event)
    → e.id ≡ id
    → WonBy id (confirm (empty_result s) plausible id (some e))
unfolding confirm empty_result candidate_from
confirm-WonBy s plausible id e h = (refl, refl, refl, refl, (_, refl, h), others_only id plausible)

-- When a person confirmed a commit that was observed, whatever its project and times are, the
-- session is matched to that commit alone with high confidence, and the commit is not repeated among
-- the alternatives.
pub match_session-WonBy :
    (s : Session) (commits : List Event) (m : StringMap) (now : ℕ) (e : Event)
    → IsConfirmed s m
    → Memᴰ e commits
    → e.id ≡ string_at s.id m
    → WonBy (string_at s.id m) (match_session s commits m now)
match_session-WonBy s commits m now e ready mem id =
    let (x, found) = find_commit_complete (string_at s.id m) commits e mem id in
    rw (match_session_to_confirmation s commits m now ready, found)
      (confirm-WonBy s (candidates_for s commits) _ x (find_commit_id _ commits x found))
