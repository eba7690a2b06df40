-- ===== src/Attribution/Match.antt =====
-- internal/attribution/match.go: sessions to commits.
use Prim.Native.Nat.{◌-◌, min}
use assaio.Prelude.{
  ℕ, ◌+◌, String, Bool, true, false, ◌&&◌, ◌||◌, not, Option, none, some, List, [], ◌∷◌, ◌++◌, ltb,
  ◌==◌, str_eq, str_ltb, sort_by, filter_if, if◌then◌else◌,
}
use assaio.Prelude.Int.{pos}
use assaio.Event.{Event}
use assaio.Event.Envelope.{type_commit}
use assaio.Attribution.{
  Session, Candidate, Relation, Result, matched, ambiguous, unmatched, confirmed, overlap,
  following, landed, none_method, high, medium, low, insufficient, overlaps_session,
  landed_by_forge, Reason, no_reason, project_or_session_unavailable, invalid_session_window,
  competing_following_candidates, window_still_open, later_landing, no_candidate,
  confirmed_commit_unobserved, default_max_gap, Method,
}
use assaio.Attribution.Landing.{
  commit_payload, payload_of, evidence_of, relate, landed_later, relation_confirmed,
}

-- A Go map from string to string; a missing key reads as the empty string.
abbrev pub StringMap : Type 0
StringMap = List (String × String)

unfoldable pub string_at : String → StringMap → String
string_at k [] = ""
string_at k ((j, v) ∷ m) = if str_eq j k then v else string_at k m

-- The largest whole number of seconds in a time.Duration, at which Sub saturates.
abbrev pub max_duration : ℕ
max_duration = 9223372036

-- candidateFrom; `-` stops at 0, as max does.
unfoldable pub candidate_from : Event → Session → Relation → ℕ → Candidate
candidate_from e s relation judged = record {
  commit_id = e.id;
  occurred_at = e.occurred_at;
  evidence_at = judged;
  relation = relation;
  gap_seconds = min (judged - s.ended_at) max_duration;
  source = e.source;
  time_source = e.time_source;
  privacy = e.privacy;
  provenance = e.provenance;
  files_changed = (payload_of e).files_changed;
  files = (payload_of e).files;
  changes = none;
}

-- The body of candidatesFor's loop: what one commit appends.
unfoldable pub candidate_of : Session → Event → Option Candidate
candidate_of s e =
    if not (str_eq e.subject.project s.project) || (evidence_of e).excluded
    then none
    else elim (relate (evidence_of e) s) [
      | none ↦ none
      | some (relation, judged) ↦ some (candidate_from e s relation judged)
    ]

abbrev pub append_some {ℓ} : {A : Type ℓ} → Option A → List A → List A
append_some none xs = xs
append_some (some x) xs = x ∷ xs

-- candidatesFor
unfoldable pub candidates_for : Session → List Event → List Candidate
candidates_for s [] = []
candidates_for s (e ∷ es) = append_some (candidate_of s e) (candidates_for s es)

abbrev pub is_overlap : Candidate → Bool
is_overlap c = elim c.relation [ overlaps_session ↦ true | _ ↦ false ]

-- splitCandidates; Go's nil and empty slices are both the empty list.
unfoldable pub split_candidates : List Candidate → List Candidate × List Candidate
split_candidates cs = (filter_if is_overlap cs, filter_if (λ c. not (is_overlap c)) cs)

-- emptyResult
unfoldable pub empty_result : Session → Result
empty_result s = record {
  session = s;
  status = unmatched;
  method = none_method;
  confidence = insufficient;
  ambiguous = false;
  provenance = "derived";
  reason = no_reason;
  candidates = [];
  alternatives = [];
  change = pos 0;
}

-- The commit that a confirmation names: the first with its id.
unfoldable pub find_commit : String → List Event → Option Event
find_commit id [] = none
find_commit id (e ∷ es) = if str_eq e.id id then some e else find_commit id es

-- What applyConfirmation does with the commit that it found.
unfoldable pub confirm : Result → List Candidate → String → Option Event → Result
confirm r plausible id none = record r { reason = confirmed_commit_unobserved }
confirm r plausible id (some e) =
    let (relation, judged) = relation_confirmed e r.session in
    record r {
      status = matched;
      method = confirmed;
      confidence = high;
      provenance = "manual";
      candidates = candidate_from e r.session relation judged ∷ [];
      alternatives = r.alternatives ++ filter_if (λ c. not (str_eq c.commit_id id)) plausible;
    }

-- applyConfirmation
unfoldable pub apply_confirmation : Result → List Event → List Candidate → String → Result
apply_confirmation r commits plausible id = confirm r plausible id (find_commit id commits)

-- The reason of a session that has no candidate.
unfoldable pub unmatched_reason : Session → List Event → ℕ → Reason
unmatched_reason s commits observed_at =
    if ltb observed_at (s.ended_at + default_max_gap)
    then window_still_open
    else if landed_later s commits
    then later_landing
    else no_candidate

-- The method of a single following candidate.
abbrev pub following_method : Candidate → Method
following_method c = elim c.relation [ landed_by_forge ↦ landed | _ ↦ following ]

-- The switch of matchSession.
unfoldable pub decide_match : Session → List Event → ℕ → List Candidate → List Candidate → Result
decide_match s commits observed_at [] [] = record (empty_result s) {
  reason = unmatched_reason s commits observed_at;
}
decide_match s commits observed_at [] (c ∷ []) = record (empty_result s) {
  status = matched;
  method = following_method c;
  confidence = low;
  candidates = c ∷ [];
}
decide_match s commits observed_at [] (c ∷ d ∷ rest) = record (empty_result s) {
  status = ambiguous;
  method = following;
  ambiguous = true;
  reason = competing_following_candidates;
  candidates = c ∷ d ∷ rest;
}
decide_match s commits observed_at (c ∷ overlaps) followers = record (empty_result s) {
  status = matched;
  method = overlap;
  confidence = medium;
  candidates = c ∷ overlaps;
  alternatives = followers;
}

-- matchSession from the confirmation on.
unfoldable pub match_valid : Session → List Event → StringMap → ℕ → Result
match_valid s commits confirmations observed_at =
    let plausible = candidates_for s commits in
    let id = string_at s.id confirmations in
    if not (str_eq id "")
    then apply_confirmation (empty_result s) commits plausible id
    else let (overlaps, followers) = split_candidates plausible in
      decide_match s commits observed_at overlaps followers

-- matchSession
unfoldable pub match_session : Session → List Event → StringMap → ℕ → Result
match_session s commits confirmations observed_at =
    if str_eq s.id "" || str_eq s.project ""
    then record (empty_result s) { reason = project_or_session_unavailable }
    else if s.started_at == 0 || ltb s.ended_at s.started_at
    then record (empty_result s) { reason = invalid_session_window }
    else match_valid s commits confirmations observed_at

abbrev pub by_occurrence : Event → Event → Bool
by_occurrence a b =
    if a.occurred_at == b.occurred_at then str_ltb a.id b.id else ltb a.occurred_at b.occurred_at

abbrev pub is_commit_event : Event → Bool
is_commit_event e =
    str_eq e.type type_commit && elim (commit_payload e.payload) [ none ↦ false | some _ ↦ true ]

-- commitObservations
unfoldable pub commit_observations : List Event → List Event
commit_observations events = sort_by by_occurrence (filter_if is_commit_event events)

abbrev pub by_session : Session → Session → Bool
by_session a b = if str_eq a.id b.id then ltb a.started_at b.started_at else str_ltb a.id b.id

unfoldable pub match_all : List Session → List Event → StringMap → ℕ → List Result
match_all [] commits confirmations observed_at = []
match_all (s ∷ ss) commits confirmations observed_at =
    match_session s commits confirmations observed_at
    ∷ match_all ss commits confirmations observed_at

-- Match
unfoldable pub match_sessions : List Session → List Event → StringMap → ℕ → List Result
match_sessions sessions commits confirmations observed_at =
    match_all (sort_by by_session sessions) (commit_observations commits) confirmations observed_at
