-- ===== src/Attribution/Window.antt =====
-- Every candidate of an unconfirmed session is a commit of the session's project whose evidence lies
-- in the session or its following window.
use mathlib.Core.List.{append-nil}
use assaio.Prelude.{
  ℕ, ◌+◌, ◌≤◌, ◌≡◌, refl, ◌⊎◌, inl, inr, true, false, Option, none, some, List, [], ◌∷◌, ◌++◌, Memᴰ,
  ltb, ◌==◌, ◌||◌, not, str_eq, eq_iff, arith, All, All-append, All-filter_if, All-imp, Bool-cases,
  Option-cases, All-at, if◌then◌else◌,
}
use assaio.Event.{Event}
use assaio.Attribution.{Session, Candidate, Relation, Result, overlaps_session, default_max_gap}
use assaio.Attribution.Landing.{
  Evidence, evidence_of, relate, relate_times, relate_following, first_inside, earlier,
  earliest_following,
}
use assaio.Attribution.Match.{
  candidate_from, candidate_of, candidates_for, append_some, split_candidates, is_overlap,
  decide_match, match_valid, match_session, string_at, StringMap, empty_result,
}
use assaio.Attribution.Times.{relate_mem, OwnTime, evidence_own}

-- A time from the session's start to the end of its following window.
abbrev pub InReach : Session → ℕ → Type 0
InReach s t = (s.started_at ≤ t) × (t ≤ s.ended_at + default_max_gap)

pub first_inside-bounds :
    (s : Session) (ts : List ℕ) (t : ℕ)
    → first_inside s ts ≡ some t
    → (s.started_at ≤ t) × (t ≤ s.ended_at)
unfolding first_inside
first_inside-bounds s [] t h = cc
first_inside-bounds s (x ∷ ts) t h = ground (arith, first_inside-bounds s ts t)

earlier-InReach :
    (s : Session) (j t : ℕ)
    → (j ≡ 0) ⊎ InReach s j
    → (earlier s j t ≡ 0) ⊎ InReach s (earlier s j t)
earlier-InReach s j t h = ground arith

earliest_following-InReach :
    (s : Session) (j : ℕ) (ts : List ℕ)
    → (j ≡ 0) ⊎ InReach s j
    → (earliest_following s j ts ≡ 0) ⊎ InReach s (earliest_following s j ts)
unfolding earliest_following
earliest_following-InReach s j [] h = h
earliest_following-InReach s j (t ∷ ts) h =
    earliest_following-InReach s (earlier s j t) ts (earlier-InReach s j t h)

-- What relate promises of the time that it judged by.
abbrev pub Judged : Evidence → Session → Relation × ℕ → Type 0
Judged ev s r = InReach s r.1 × (r.0 ≡ overlaps_session → (r.1 ≤ s.ended_at) × (ev.landed ≡ false))

relate_following-Judged :
    (ev : Evidence) (s : Session) (j : ℕ) (r : Relation × ℕ)
    → (j ≡ 0) ⊎ InReach s j
    → relate_following ev j ≡ some r
    → Judged ev s r
unfolding relate_following
relate_following-Judged ev s j r h e = ground arith

inside_only :
    (ev : Evidence) (s : Session) (t : ℕ)
    → (if ev.landed then none else first_inside s ev.times) ≡ some t
    → (s.started_at ≤ t) × (t ≤ s.ended_at) × (ev.landed ≡ false)
inside_only ev s t h = ground (arith, first_inside-bounds s ev.times t)

relate_times-Judged :
    (ev : Evidence) (s : Session) (o : Option ℕ) (r : Relation × ℕ)
    → ((t : ℕ) → o ≡ some t → (s.started_at ≤ t) × (t ≤ s.ended_at) × (ev.landed ≡ false))
    → relate_times ev s o ≡ some r
    → Judged ev s r
unfolding relate_times
relate_times-Judged ev s none r h e =
    relate_following-Judged ev s _ r (earliest_following-InReach s 0 ev.times (inl refl)) e
relate_times-Judged ev s (some t) r h e = ground (arith, h t refl)

pub relate-Judged :
    (ev : Evidence) (s : Session) (r : Relation × ℕ) → relate ev s ≡ some r → Judged ev s r
unfolding relate
relate-Judged ev s r e = relate_times-Judged ev s _ r (inside_only ev s) e

-- Where a candidate's commit and time lie.
abbrev pub Within : Session → Candidate → Event → Type 0
Within s c e =
    (c.commit_id ≡ e.id)
    × (e.subject.project ≡ s.project)
    × InReach s c.evidence_at
    × ((evidence_of e).excluded ≡ false)
    × (is_overlap c ≡ true → (c.evidence_at ≤ s.ended_at) × ((evidence_of e).landed ≡ false))

-- What a candidate tells of the commit that it stands for.
abbrev pub Sound : Session → Candidate → Event → Type 0
Sound s c e = Within s c e × (Memᴰ c.evidence_at (evidence_of e).times × OwnTime e c.evidence_at)

candidate_of-Within :
    (s : Session) (e : Event) (c : Candidate) → candidate_of s e ≡ some c → Within s c e
unfolding candidate_of candidate_from
candidate_of-Within s e c h = elim (Option-cases (relate (evidence_of e) s)) [
  | inl q ↦ ground arith
  | inr (r, q) ↦
      ground (arith, relate-Judged (evidence_of e) s r q, eq_iff e.subject.project s.project)
]

candidate_of_judged :
    (s : Session) (e : Event) (c : Candidate)
    → candidate_of s e ≡ some c
    → (r : Relation × ℕ) × ((relate (evidence_of e) s ≡ some r) × (c.evidence_at ≡ r.1))
unfolding candidate_of candidate_from
candidate_of_judged s e c h = elim (Option-cases (relate (evidence_of e) s)) [
  | inl q ↦ ground arith
  | inr (r, q) ↦ (r, (q, ground arith))
]

candidate_of-Sound :
    (s : Session) (e : Event) (c : Candidate) → candidate_of s e ≡ some c → Sound s c e
candidate_of-Sound s e c h =
    let (r, (q, same)) = candidate_of_judged s e c h in
    let m : Memᴰ c.evidence_at (evidence_of e).times = rw same (relate_mem (evidence_of e) s r q) in
    (candidate_of-Within s e c h, (m, All-at (OwnTime e) _ c.evidence_at m (evidence_own e)))

abbrev pub Grounded : Session → List Event → Candidate → Type 0
Grounded s commits c = (e : Event) × Memᴰ e commits × Sound s c e

candidates_for-Grounded :
    (s : Session) (commits : List Event) → All (Grounded s commits) (candidates_for s commits)
unfolding candidates_for
candidates_for-Grounded s [] = tt
candidates_for-Grounded s (e ∷ es) = appended (candidate_of s e) (candidate_of-Sound s e) (
    All-imp {Q = Grounded s (e ∷ es)} (λ c g. (g.0, Memᴰ.tail g.1, g.2)) (candidates_for s es)
      (candidates_for-Grounded s es))
  where
    appended :
        (o : Option Candidate)
        → ((c : Candidate) → o ≡ some c → Sound s c e)
        → All (Grounded s (e ∷ es)) (candidates_for s es)
        → All (Grounded s (e ∷ es)) (append_some o (candidates_for s es))
    appended none h rest = rest
    appended (some c) h rest = ((e, Memᴰ.head refl, h c refl), rest)

-- The candidates of a result, and then its alternatives.
abbrev pub offered : Result → List Candidate
offered r = r.candidates ++ r.alternatives

module _ {κ} (P : Candidate → Type κ) where
  decide_match-All :
      (s : Session) (commits : List Event) (now : ℕ) (overlaps followers : List Candidate)
      → All P overlaps
      → All P followers
      → All P (offered (decide_match s commits now overlaps followers))
  unfolding decide_match empty_result
  decide_match-All s commits now [] [] ho hf = tt
  decide_match-All s commits now [] (c ∷ []) ho hf = hf
  decide_match-All s commits now [] (c ∷ d ∷ rest) ho hf = rw append-nil hf
  decide_match-All s commits now (c ∷ overlaps) followers ho hf =
      All-append P (c ∷ overlaps) followers ho hf

match_valid-Grounded :
    (s : Session) (commits : List Event) (m : StringMap) (now : ℕ)
    → string_at s.id m ≡ ""
    → All (Grounded s commits) (offered (match_valid s commits m now))
unfolding match_valid split_candidates
match_valid-Grounded s commits m now e =
    let all = candidates_for-Grounded s commits in
    rw e (
      decide_match-All (Grounded s commits) s commits now _ _
        (All-filter_if (Grounded s commits) is_overlap _ all)
        (All-filter_if (Grounded s commits) (λ c. not (is_overlap c)) _ all))

-- A session that nobody confirmed is only ever offered commits of its own project that carry work
-- of their own: each candidate and alternative stands for an observed commit and is judged by one of
-- the times of its evidence, its committer time or the author time that it states, which lies
-- between the session's start and 48 hours after its end; an overlap lies inside the session and was
-- not landed by the forge.
pub match_session-Grounded :
    (s : Session) (commits : List Event) (m : StringMap) (now : ℕ)
    → string_at s.id m ≡ ""
    → All (Grounded s commits) (offered (match_session s commits m now))
unfolding match_session empty_result
match_session-Grounded s commits m now e =
    elim (Bool-cases (str_eq s.id "" || str_eq s.project "")) [
      | inl p ↦ rw p tt
      | inr p ↦ elim (Bool-cases (s.started_at == 0 || ltb s.ended_at s.started_at)) [
        | inl q ↦ rw (p, q) tt
        | inr q ↦ rw (p, q) (match_valid-Grounded s commits m now e)
      ]
    ]
