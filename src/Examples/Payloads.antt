-- ===== src/Examples/Payloads.antt =====
-- internal/event: the validators at accepted payloads.
use assaio.Prelude.{◌≡◌, refl, true, false, none}
use assaio.Prelude.Int.{◌+ℤ◌, wrap64, pos}
use assaio.Event.Payloads.{Payload, PullRequest, TimelinePopulation, Check}
use assaio.Event.Checks.{non_negative, valid}
use assaio.Event.Validate.{
  total, validate_check_kind, validate_merge, validate_pull_request_states, counts_check,
  then_check, fail_if, validate_pull_request, validate_timeline, validate_check, validate_commit,
}
use assaio.Event.Envelope.{
  validate_payload, validate_clocks, validate_vocabularies, event_type, validate_with, validate,
}
use assaio.Event.Consistency.{validate_envelope, Accepted}
use assaio.Examples.Data.{work, work_event}

abbrev open_request : PullRequest
open_request = record {
  number = pos 7;
  state = "open";
  merged_at = 0;
  merge_commit = "";
  merge_parents = none;
  history_state = "";
  commits = pos 2;
  listed = pos 1;
  reviews = pos 0;
  reviews_listed = pos 0;
  reviews_available = false;
  checks = pos 0;
  checks_listed = pos 0;
  check_state = "";
  review_dismissals = none;
}

open-accepted : validate_pull_request open_request ≡ none
unfolding validate_pull_request fail_if valid then_check counts_check non_negative
    validate_pull_request_states validate_merge
open-accepted = refl

abbrev long_timeline : TimelinePopulation
long_timeline = record {
  total_count = pos 400;
  filtered_count = pos 150;
  page_count = pos 100;
  listed = pos 100;
  has_previous_page = true;
}

timeline-accepted : validate_timeline long_timeline ≡ none
unfolding validate_timeline then_check counts_check non_negative fail_if
timeline-accepted = refl

abbrev running_check : Check
running_check = record {
  number = pos 7;
  kind = "run";
  state = "in_progress";
  conclusion = "";
  commit = "";
  suite = "";
  started_at = 1500;
  completed_at = 0;
}

check-accepted : validate_check running_check ≡ none
unfolding validate_check fail_if then_check validate_check_kind valid
check-accepted = refl

work-accepted : validate_commit work ≡ none
unfolding validate_commit then_check counts_check non_negative fail_if total wrap64 ◌+ℤ◌
work-accepted = refl

event-accepted : validate work_event ≡ none
unfolding validate fail_if valid validate_with event_type then_check validate_vocabularies
    validate_clocks validate_payload validate_commit counts_check non_negative total wrap64 ◌+ℤ◌
event-accepted = refl

validate_envelope_example : (p : Payload) × Accepted work_event p
validate_envelope_example = validate_envelope work_event event-accepted
