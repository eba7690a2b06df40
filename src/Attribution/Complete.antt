-- ===== src/Attribution/Complete.antt =====
-- No evidence is overlooked: what an unconfirmed session with a valid window is matched to.
use assaio.Prelude.{
  ℕ, ◌+◌, ◌≤◌, ◌<◌, ◌≡◌, ◌≢◌, ◌⊎◌, refl, inl, inr, true, false, Option, none, some, List, [], ◌∷◌,
  ◌||◌, ◌&&◌, not, str_eq, eq_iff, arith, ltb, ◌==◌, All, Memᴰ, filter_if, mem-filter_if,
  filter_if-nil, Bool-cases,
}
use assaio.Event.{Event}
use assaio.Attribution.{
  Session, Candidate, Relation, Result, matched, overlap, overlaps_session, default_max_gap,
  no_candidate,
}
use assaio.Attribution.Landing.{
  Evidence, evidence_of, relate, relate_times, relate_following, first_inside, earlier,
  earliest_following, landed_later,
}
use assaio.Attribution.Match.{
  decide_match, match_valid, match_session, StringMap, empty_result, split_candidates, string_at,
  is_overlap, append_some, unmatched_reason, candidate_of, candidates_for, candidate_from,
}

-- A session that matchSession does not turn away, with no confirmation.
pub record IsOpen (s : Session) (m : StringMap) : Type 0 where
  pub named : (str_eq s.id "" || str_eq s.project "") ≡ false
  pub started : s.started_at ≢ 0
  pub ordered : s.started_at ≤ s.ended_at
  pub unconfirmed : string_at s.id m ≡ ""

abbrev decided : Session → List Event → ℕ → Result
decided s commits now =
    decide_match s commits now (filter_if is_overlap (candidates_for s commits))
      (filter_if (λ c. not (is_overlap c)) (candidates_for s commits))

match_session_open :
    (s : Session) (commits : List Event) (m : StringMap) (now : ℕ)
    → IsOpen s m
    → match_session s commits m now ≡ decided s commits now
unfolding match_session match_valid split_candidates
match_session_open s commits m now h = rw (h.named, window s m h, h.unconfirmed) refl
  where
    window :
        (s : Session) (m : StringMap)
        → IsOpen s m
        → (s.started_at == 0 || ltb s.ended_at s.started_at) ≡ false
    window s m h = ground (arith, h.started, h.ordered)

first_inside_complete :
    (s : Session) (ts : List ℕ) (t : ℕ)
    → Memᴰ t ts
    → s.started_at ≤ t
    → t ≤ s.ended_at
    → (u : ℕ) × (first_inside s ts ≡ some u)
unfolding first_inside
first_inside_complete s [] t m lo hi = elim m [ ]
first_inside_complete s (x ∷ ts) t (Memᴰ.head e) lo hi = (x, ground arith)
first_inside_complete s (x ∷ ts) t (Memᴰ.tail m) lo hi =
    elim (Bool-cases (not (ltb x s.started_at) && not (ltb s.ended_at x))) [
      | inl p ↦ (x, rw p refl)
      | inr p ↦ rw p (first_inside_complete s ts t m lo hi)
    ]

-- A commit that is the session's own work by the program's rules: of its project, not a forge's, and
-- with one of its times inside the session.
pub record WrittenInside (s : Session) (e : Event) (t : ℕ) : Type 0 where
  pub project : e.subject.project ≡ s.project
  pub included : (evidence_of e).excluded ≡ false
  pub local : (evidence_of e).landed ≡ false
  pub stated : Memᴰ t (evidence_of e).times
  pub after : s.started_at ≤ t
  pub before : t ≤ s.ended_at

candidate_of_inside :
    (s : Session) (e : Event) (t : ℕ)
    → WrittenInside s e t
    → (c : Candidate) × (candidate_of s e ≡ some c) × (is_overlap c ≡ true) × (c.commit_id ≡ e.id)
unfolding candidate_of relate relate_times candidate_from
candidate_of_inside s e t h =
    let (u, q) = first_inside_complete s (evidence_of e).times t h.stated h.after h.before in
    (
      candidate_from e s overlaps_session u,
      rw ((eq_iff e.subject.project s.project).1 h.project, h.included, h.local, q) refl,
      refl,
      refl,
    )

mem-candidates_for :
    (s : Session) (commits : List Event) (e : Event) (c : Candidate)
    → Memᴰ e commits
    → candidate_of s e ≡ some c
    → Memᴰ c (candidates_for s commits)
unfolding candidates_for
mem-candidates_for s [] e c m h = elim m [ ]
mem-candidates_for s (x ∷ es) e c (Memᴰ.head q) h = rw (← q, h) (Memᴰ.head refl)
mem-candidates_for s (x ∷ es) e c (Memᴰ.tail m) h =
    mem-append_some (candidate_of s x) (candidates_for s es) c (mem-candidates_for s es e c m h)
  where
    mem-append_some :
        (o : Option Candidate) (cs : List Candidate) (c : Candidate)
        → Memᴰ c cs
        → Memᴰ c (append_some o cs)
    mem-append_some none cs c m = m
    mem-append_some (some d) cs c m = Memᴰ.tail m

decide_match_overlap :
    (s : Session) (commits : List Event) (now : ℕ) (overlaps followers : List Candidate)
    (c : Candidate)
    → Memᴰ c overlaps
    → let r : Result = decide_match s commits now overlaps followers in
      (r.status ≡ matched) × ((r.method ≡ overlap) × Memᴰ c r.candidates)
unfolding decide_match
decide_match_overlap s commits now [] followers c m = elim m [ ]
decide_match_overlap s commits now (d ∷ overlaps) followers c m = (refl, (refl, m))

-- When an observed commit of the project was written inside an open session, the session's
-- status is matched, its method overlap, and that commit is among its candidates.
pub match_session_overlap :
    (s : Session) (commits : List Event) (m : StringMap) (now t : ℕ) (e : Event)
    → IsOpen s m
    → Memᴰ e commits
    → WrittenInside s e t
    → let r : Result = match_session s commits m now in
      (r.status ≡ matched)
      × ((r.method ≡ overlap) × ((c : Candidate) × (c.commit_id ≡ e.id) × Memᴰ c r.candidates))
match_session_overlap s commits m now t e ready mem w =
    let (c, q, o, id) = candidate_of_inside s e t w in
    let inside = mem-filter_if is_overlap _ c (mem-candidates_for s commits e c mem q) o in
    let (status, (method, kept)) = decide_match_overlap s commits now _ _ c inside in
    rw (match_session_open s commits m now ready) (status, (method, (c, id, kept)))

-- A time before the session or after its following window.
abbrev pub OutOfReach : Session → ℕ → Type 0
OutOfReach s t = (t < s.started_at) ⊎ (s.ended_at + default_max_gap < t)

earlier_zero :
    (s : Session) (j t : ℕ) → s.started_at ≢ 0 → earlier s j t ≡ 0 → (j ≡ 0) × OutOfReach s t
earlier_zero s j t n h = ground arith

earliest_following_zero :
    (s : Session) (j : ℕ) (ts : List ℕ)
    → s.started_at ≢ 0
    → earliest_following s j ts ≡ 0
    → (j ≡ 0) × All (OutOfReach s) ts
unfolding earliest_following
earliest_following_zero s j [] n h = (h, tt)
earliest_following_zero s j (t ∷ ts) n h =
    let (z, out) = earliest_following_zero s (earlier s j t) ts n h in
    let (z', far) = earlier_zero s j t n z in (z', (far, out))

relate_times-none :
    (ev : Evidence) (s : Session) (o : Option ℕ)
    → s.started_at ≢ 0
    → relate_times ev s o ≡ none
    → All (OutOfReach s) ev.times
unfolding relate_times relate_following
relate_times-none ev s none n h = (earliest_following_zero s 0 ev.times n (ground arith)).1
relate_times-none ev s (some t) n h = cc

-- A commit whose work cannot be the session's: of another project, carrying no work of its own, or
-- with every time out of reach.
abbrev pub Unrelated : Session → Event → Type 0
Unrelated s e =
    (e.subject.project ≢ s.project)
    ⊎ ((evidence_of e).excluded ≡ true)
    ⊎ All (OutOfReach s) (evidence_of e).times

candidate_of-none :
    (s : Session) (e : Event) → s.started_at ≢ 0 → candidate_of s e ≡ none → Unrelated s e
unfolding candidate_of relate
candidate_of-none s e n h = elim (Bool-cases (str_eq e.subject.project s.project)) [
  | inr p ↦ inl (λ q. ground (arith, eq_iff e.subject.project s.project))
  | inl p ↦ elim (Bool-cases (evidence_of e).excluded) [
    | inl x ↦ inr (inl x)
    | inr x ↦ inr (
        inr (
          relate_times-none (evidence_of e) s _ n
            (unrelated (relate (evidence_of e) s) (rw (p, x) at h))))
  ]
]
  where
    unrelated :
        (o : Option (Relation × ℕ))
        → elim o as (λ _. Option Candidate) [
          | none ↦ none
          | some (relation, judged) ↦ some (candidate_from e s relation judged)
        ]
          ≡ none
        → o ≡ none
    unrelated none q = refl
    unrelated (some (a, b)) q = cc

candidates_for_nil :
    (s : Session) (commits : List Event)
    → s.started_at ≢ 0
    → candidates_for s commits ≡ []
    → All (Unrelated s) commits
unfolding candidates_for
candidates_for_nil s [] n h = tt
candidates_for_nil s (e ∷ es) n h =
    let (first, rest) = appended_nil (candidate_of s e) (candidates_for s es) h in
    (candidate_of-none s e n first, candidates_for_nil s es n rest)
  where
    appended_nil :
        (o : Option Candidate) (cs : List Candidate)
        → append_some o cs ≡ []
        → (o ≡ none) × (cs ≡ [])
    appended_nil none cs q = (refl, q)
    appended_nil (some c) cs q = cc

decide_match_no_candidate :
    (s : Session) (commits : List Event) (now : ℕ) (overlaps followers : List Candidate)
    → (decide_match s commits now overlaps followers).reason ≡ no_candidate
    → (overlaps ≡ [])
      × (followers ≡ [])
      × (s.ended_at + default_max_gap ≤ now)
      × (landed_later s commits ≡ false)
unfolding decide_match empty_result unmatched_reason
decide_match_no_candidate s commits now [] [] h = (refl, refl, ground arith, ground arith)
decide_match_no_candidate s commits now [] (c ∷ []) h = cc
decide_match_no_candidate s commits now [] (c ∷ d ∷ rest) h = cc
decide_match_no_candidate s commits now (c ∷ overlaps) followers h = cc

-- An open session is said to have no commit candidate only once its following window has closed, no
-- later forge landing could hold its work, and every observed commit is unrelated to it.
pub match_session_no_candidate :
    (s : Session) (commits : List Event) (m : StringMap) (now : ℕ)
    → IsOpen s m
    → (match_session s commits m now).reason ≡ no_candidate
    → (s.ended_at + default_max_gap ≤ now)
      × (landed_later s commits ≡ false)
      × All (Unrelated s) commits
match_session_no_candidate s commits m now ready h =
    let (o, f, late, alone) =
      decide_match_no_candidate s commits now _ _
        (rw (match_session_open s commits m now ready) at h) in
    (late, alone, candidates_for_nil s commits ready.started (filter_if-nil is_overlap _ o f))
