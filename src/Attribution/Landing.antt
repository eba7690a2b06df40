-- ===== src/Attribution/Landing.antt =====
-- internal/attribution/landing.go: what a commit's times say, and how they relate to a session.
use assaio.Prelude.{
  ℕ, ◌+◌, Bool, true, false, ◌&&◌, ◌||◌, not, Option, none, some, List, [], ◌∷◌, ltb, ◌==◌, str_eq,
  if◌then◌else◌,
}
use assaio.Prelude.Int.{pos, ltb_ℤ}
use assaio.Event.{Event}
use assaio.Event.Payloads.{Commit, FileCategories, Payload, commit}
use assaio.Attribution.{
  Session, Relation, Reason, Result, overlaps_session, follows_session, landed_by_forge,
  later_landing, default_max_gap,
}

-- attribution.evidence
pub record Evidence : Type 0 where
  pub times : List ℕ
  pub landed : Bool
  pub excluded : Bool
  pub rebased : Bool

abbrev zero_files : FileCategories
zero_files = record {
  test = pos 0;
  source = pos 0;
  docs = pos 0;
  config = pos 0;
  generated = pos 0;
  other = pos 0;
}

-- Go's zero `event.Commit{}`.
abbrev pub zero_commit : Commit
zero_commit = record {
  parents = pos 0;
  files_changed = pos 0;
  lines_added = pos 0;
  lines_removed = pos 0;
  files = zero_files;
  revert = false;
  authored_at = 0;
  committed_by_forge = false;
}

-- commitPayload: `none` where its second result is false.
abbrev pub commit_payload : Option Payload → Option Commit
commit_payload (some (commit c)) = some c
commit_payload _ = none

-- The first result of commitPayload, on either branch.
abbrev pub payload_of : Event → Commit
payload_of e = elim (commit_payload e.payload) [ none ↦ zero_commit | some c ↦ c ]

-- The author time, or the committer time where there is none.
abbrev pub authored : Event → ℕ
authored e = if (payload_of e).authored_at == 0 then e.occurred_at else (payload_of e).authored_at

-- evidenceOf
unfoldable pub evidence_of : Event → Evidence
evidence_of e =
    if (payload_of e).committed_by_forge && ltb_ℤ (pos 1) (payload_of e).parents
    then record { times = []; landed = false; excluded = true; rebased = false }
    else if (payload_of e).committed_by_forge && not (ltb (authored e) e.occurred_at)
    then record { times = e.occurred_at ∷ []; landed = true; excluded = false; rebased = false }
    else if (payload_of e).committed_by_forge
    then record { times = authored e ∷ []; landed = false; excluded = false; rebased = true }
    else if authored e == e.occurred_at
    then record { times = e.occurred_at ∷ []; landed = false; excluded = false; rebased = false }
    else record {
      times = authored e ∷ e.occurred_at ∷ [];
      landed = false;
      excluded = false;
      rebased = false;
    }

-- The first loop of relate: the first time inside the session.
unfoldable pub first_inside : Session → List ℕ → Option ℕ
first_inside s [] = none
first_inside s (t ∷ ts) =
    if not (ltb t s.started_at) && not (ltb s.ended_at t) then some t else first_inside s ts

-- The body of relate's second loop.
abbrev pub earlier : Session → ℕ → ℕ → ℕ
earlier s judged t =
    if ltb t s.started_at || ltb (s.ended_at + default_max_gap) t
    then judged
    else if judged == 0 || ltb t judged
    then t
    else judged

-- The second loop of relate: the earliest time in the following window, 0 while there is none.
unfoldable pub earliest_following : Session → ℕ → List ℕ → ℕ
earliest_following s judged [] = judged
earliest_following s judged (t ∷ ts) = earliest_following s (earlier s judged t) ts

-- The switch at the end of relate.
unfoldable pub relate_following : Evidence → ℕ → Option (Relation × ℕ)
relate_following ev judged =
    if judged == 0
    then none
    else if ev.landed
    then some (landed_by_forge, judged)
    else some (follows_session, judged)

-- The first loop of relate, where it runs, and what follows it.
unfoldable pub relate_times : Evidence → Session → Option ℕ → Option (Relation × ℕ)
relate_times ev s (some t) = some (overlaps_session, t)
relate_times ev s none = relate_following ev (earliest_following s 0 ev.times)

-- relate: `none` where its third result is false.
unfoldable pub relate : Evidence → Session → Option (Relation × ℕ)
unfolding relate_times
relate ev s = relate_times ev s (if ev.landed then none else first_inside s ev.times)

-- landsLater; a landed evidence has one time, so the empty list is not reached.
unfoldable pub lands_later : Evidence → Session → Bool
lands_later ev s =
    ev.landed && elim ev.times [ [] ↦ false | t ∷ ts ↦ ltb (s.ended_at + default_max_gap) t ]

-- landedLater
unfoldable pub landed_later : Session → List Event → Bool
landed_later s [] = false
landed_later s (e ∷ es) =
    str_eq e.subject.project s.project && lands_later (evidence_of e) s || landed_later s es

-- relationConfirmed
unfoldable pub relation_confirmed : Event → Session → Relation × ℕ
relation_confirmed e s =
    (if ltb s.ended_at e.occurred_at then follows_session else overlaps_session, e.occurred_at)

-- attribution.Forge; the detection's name is a constant.
pub record Forge : Type 0 where
  pub landed_commits : ℕ
  pub rebased_commits : ℕ
  pub merge_commits : ℕ
  pub later_landings : ℕ

abbrev pub is_later_landing : Reason → Bool
is_later_landing later_landing = true
is_later_landing _ = false

-- The switch of ForgeOf's first loop.
unfoldable pub count_forge : Event → Forge → Forge
count_forge e f =
    if (evidence_of e).excluded
    then record f { merge_commits = f.merge_commits + 1 }
    else if (evidence_of e).landed
    then record f { landed_commits = f.landed_commits + 1 }
    else if (evidence_of e).rebased
    then record f { rebased_commits = f.rebased_commits + 1 }
    else f

unfoldable pub count_commits : Forge → List Event → Forge
count_commits f [] = f
count_commits f (e ∷ es) = count_commits (count_forge e f) es

unfoldable pub count_later : Forge → List Result → Forge
count_later f [] = f
count_later f (r ∷ rs) =
    count_later
      (if is_later_landing r.reason then record f { later_landings = f.later_landings + 1 } else f)
      rs

-- ForgeOf
unfoldable pub forge_of : List Event → List Result → Forge
unfolding count_forge count_commits count_later
forge_of commits results =
    count_later
      (count_commits
        (record { landed_commits = 0; rebased_commits = 0; merge_commits = 0; later_landings = 0 })
        commits)
      results

-- Forge.Recognised
unfoldable pub recognised : Forge → Bool
recognised f = ltb 0 (f.landed_commits + f.rebased_commits + f.merge_commits)
