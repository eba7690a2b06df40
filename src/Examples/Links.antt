-- ===== src/Examples/Links.antt =====
-- internal/attribution: the theorems on pull requests at one request that lists one commit.
use assaio.Prelude.{◌≡◌, refl, true, some, none, [], ◌∷◌, any_of, all_of}
use assaio.Prelude.Int.{ℤ, pos}
use assaio.Event.{Event}
use assaio.Event.Payloads.{PullRequest, pull_request_commit}
use assaio.Attribution.{Candidate, ChangeLink, high, listed, overlaps_session}
use assaio.Attribution.Changes.{
  shared_from, change_numbers, PullRequests, links_of, index, one_change,
}
use assaio.Attribution.Links.{links_of_listed, is_listing_of, lists}
use assaio.Attribution.Shared.{one_change_shared, held_by}
use assaio.Attribution.Delivery.{
  revisions_of, state_gap, states_gap, identity_gap, review_population_gap, ReviewObservation,
  LinkedPullRequest, requested_changes_revisions,
}
use assaio.Attribution.Reviews.{stated-IsComplete, IsComplete}
use assaio.Examples.Data.{work_event, git, event_of, two_source_files}

abbrev listing : Event
listing =
    event_of "scm.pull_request.commit.observed" "p7c1" 1600
      (pull_request_commit (record { number = pos 7; commit = "c1"; suites = none }))

abbrev requests : PullRequests
requests = record {
  requests = [];
  listings = listing ∷ [];
  lines = [];
  not_local = [];
  unreadable = [];
}

links_of_listed_example :
    any_of (is_listing_of (pos 7)) (links_of "c1" (index requests (work_event ∷ [])))
    ≡ any_of (lists "c1" (pos 7)) (listing ∷ [])
links_of_listed_example = links_of_listed "c1" (pos 7) (work_event ∷ []) requests

abbrev link : ChangeLink
link = record {
  number = pos 7;
  via = listed;
  source = git;
  time_source = "source-stated";
  provenance = "parsed";
  privacy = "local-only";
}

abbrev candidate : Candidate
candidate = record {
  commit_id = "c1";
  occurred_at = 1500;
  evidence_at = 1500;
  relation = overlaps_session;
  gap_seconds = 0;
  source = git;
  time_source = "source-stated";
  privacy = "local-only";
  provenance = "parsed";
  files_changed = pos 2;
  files = two_source_files;
  changes = some (link ∷ []);
}

one-seven : one_change (candidate ∷ []) ≡ pos 7
unfolding one_change change_numbers shared_from
one-seven = refl

one_change_shared_example :
    (all_of (held_by (pos 7)) (candidate ∷ []) ≡ true)
    × ((m : ℤ) → all_of (held_by m) (candidate ∷ []) ≡ true → m ≡ pos 7)
one_change_shared_example = one_change_shared (candidate ∷ []) (pos 7) one-seven (λ e. cc)

abbrev merged_request : LinkedPullRequest
merged_request = record {
  number = pos 7;
  state = "merged";
  reviews = some (record { total = pos 1; listed = pos 1; state = ""; states = [] });
  requested_changes_revisions = some (record { value = some 1; confidence = high; reason = "" });
}

abbrev reviewed_request : PullRequest
reviewed_request = record {
  number = pos 7;
  state = "merged";
  merged_at = 3000;
  merge_commit = "";
  merge_parents = none;
  history_state = "";
  commits = pos 1;
  listed = pos 1;
  reviews = pos 1;
  reviews_listed = pos 1;
  reviews_available = true;
  checks = pos 0;
  checks_listed = pos 0;
  check_state = "";
  review_dismissals = none;
}

abbrev rejecting_review : ReviewObservation
rejecting_review = record {
  id = "r1";
  payload = record {
    number = pos 7;
    state = "changes_requested";
    commit = "c1";
    submitted_at = 2500;
  };
}

one-revision : (requested_changes_revisions reviewed_request (rejecting_review ∷ [])).value ≡ some 1
unfolding requested_changes_revisions review_population_gap identity_gap states_gap state_gap
    revisions_of
one-revision = refl

stated-IsComplete_example : IsComplete reviewed_request (rejecting_review ∷ [])
stated-IsComplete_example =
    stated-IsComplete reviewed_request (rejecting_review ∷ []) 1 one-revision
