-- ===== src/Examples/Sessions.antt =====
-- internal/attribution: the matching theorems at one session and one commit.
use assaio.Prelude.{◌≡◌, ◌≤◌, ◌+◌, refl, false, All, Memᴰ, [], ◌∷◌, arith}
use assaio.Attribution.{Candidate, Result, overlap, matched, no_candidate, default_max_gap}
use assaio.Attribution.Landing.{
  evidence_of, landed_later, relate, relate_times, relate_following, first_inside,
  earliest_following, lands_later,
}
use assaio.Attribution.Match.{
  match_session, match_valid, string_at, split_candidates, candidates_for, candidate_of,
  decide_match, unmatched_reason,
}
use assaio.Attribution.Window.{match_session-Grounded, Grounded, offered}
use assaio.Attribution.Verdict.{match_session-HasShape, HasShape}
use assaio.Attribution.Complete.{
  match_session_overlap, match_session_no_candidate, IsOpen, WrittenInside, Unrelated,
}
use assaio.Attribution.Confirmation.{match_session-WonBy, IsConfirmed, WonBy}
use assaio.Attribution.Summary.{summarize, summarize-Partitions, Partitions}
use assaio.Examples.Data.{session, work_event, early_event, no_confirmation, confirmation}

match_session-Grounded_example :
    All
      (Grounded session (work_event ∷ []))
      (offered (match_session session (work_event ∷ []) no_confirmation 999999))
unfolding string_at
match_session-Grounded_example =
    match_session-Grounded session (work_event ∷ []) no_confirmation 999999 refl

match_session-HasShape_example :
    HasShape (match_session session (work_event ∷ []) no_confirmation 999999)
match_session-HasShape_example =
    match_session-HasShape session (work_event ∷ []) no_confirmation 999999

session-IsOpen : IsOpen session no_confirmation
unfolding string_at
session-IsOpen = record {
  named = refl;
  started = omega arith;
  ordered = omega arith;
  unconfirmed = refl;
}

work-WrittenInside : WrittenInside session work_event 1500
unfolding evidence_of
work-WrittenInside = record {
  project = refl;
  included = refl;
  local = refl;
  stated = Memᴰ.head refl;
  after = omega arith;
  before = omega arith;
}

match_session_overlap_example :
    let r : Result = match_session session (work_event ∷ []) no_confirmation 999999 in
    (r.status ≡ matched)
    × ((r.method ≡ overlap) × ((c : Candidate) × (c.commit_id ≡ "c1") × Memᴰ c r.candidates))
match_session_overlap_example =
    match_session_overlap session (work_event ∷ []) no_confirmation 999999 1500 work_event
      session-IsOpen (Memᴰ.head refl) work-WrittenInside

early-unmatched :
    (match_session session (early_event ∷ []) no_confirmation 999999).reason ≡ no_candidate
unfolding match_session match_valid string_at split_candidates candidates_for candidate_of
    decide_match unmatched_reason landed_later lands_later evidence_of relate relate_times
    relate_following first_inside earliest_following
early-unmatched = refl

match_session_no_candidate_example :
    (session.ended_at + default_max_gap ≤ 999999)
    × (landed_later session (early_event ∷ []) ≡ false)
    × All (Unrelated session) (early_event ∷ [])
match_session_no_candidate_example =
    match_session_no_candidate session (early_event ∷ []) no_confirmation 999999 session-IsOpen
      early-unmatched

session-IsConfirmed : IsConfirmed session confirmation
unfolding string_at
session-IsConfirmed = record {
  named = refl;
  started = omega arith;
  ordered = omega arith;
  stated = λ e. cc;
}

match_session-WonBy_example :
    WonBy
      (string_at "s1" confirmation)
      (match_session session (work_event ∷ []) confirmation 999999)
unfolding string_at
match_session-WonBy_example =
    match_session-WonBy session (work_event ∷ []) confirmation 999999 work_event session-IsConfirmed
      (Memᴰ.head refl) refl

summarize-Partitions_example :
    Partitions
      (summarize (match_session session (work_event ∷ []) no_confirmation 999999 ∷ []))
      (match_session session (work_event ∷ []) no_confirmation 999999 ∷ [])
summarize-Partitions_example =
    summarize-Partitions (match_session session (work_event ∷ []) no_confirmation 999999 ∷ [])
