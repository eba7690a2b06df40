-- ===== src/Event/Envelope.antt =====
-- internal/event/event.go: the validator of an observation's envelope.
use assaio.Prelude.{String, ◌==◌, not, Option, none, some, List, [], ◌∷◌, str_eq}
use assaio.Event.{Event}
use assaio.Event.Payloads.{
  Payload, commit, pull_request, pull_request_commit, review, review_dismissal, check, check_suite,
}
use assaio.Event.Checks.{valid}
use assaio.Event.Validate.{
  Problem, unknown_spec_version, unknown_type, no_payload, type_mismatch, no_id, no_source,
  unknown_grain, unknown_privacy, unknown_provenance, unknown_time_source, no_occurrence_time,
  no_observation_time, fail_if, then_check, validate_commit, validate_pull_request,
  validate_pull_request_commit, validate_review, validate_review_dismissal, validate_check,
  validate_check_suite,
}

abbrev pub type_commit : String
type_commit = "vcs.commit.observed"

abbrev pub types : List String
types =
    type_commit ∷ "scm.pull_request.observed" ∷ "scm.pull_request.commit.observed"
    ∷ "scm.review.observed" ∷ "scm.review.dismissed" ∷ "ci.check.observed" ∷ "ci.suite.observed"
    ∷ []

-- The eventType methods.
unfoldable pub event_type : Payload → String
event_type (commit _) = type_commit
event_type (pull_request _) = "scm.pull_request.observed"
event_type (pull_request_commit _) = "scm.pull_request.commit.observed"
event_type (review _) = "scm.review.observed"
event_type (review_dismissal _) = "scm.review.dismissed"
event_type (check _) = "ci.check.observed"
event_type (check_suite _) = "ci.suite.observed"

-- The validate methods of the payloads.
unfoldable pub validate_payload : Payload → Option Problem
validate_payload (commit c) = validate_commit c
validate_payload (pull_request p) = validate_pull_request p
validate_payload (pull_request_commit p) = validate_pull_request_commit p
validate_payload (review p) = validate_review p
validate_payload (review_dismissal p) = validate_review_dismissal p
validate_payload (check p) = validate_check p
validate_payload (check_suite p) = validate_check_suite p

abbrev pub grains : List String
grains = "commit" ∷ "change" ∷ "review" ∷ "check" ∷ "suite" ∷ []

abbrev pub privacies : List String
privacies = "local-only" ∷ "pseudonymous" ∷ "public-metadata" ∷ []

abbrev pub provenances : List String
provenances = "parsed" ∷ "derived" ∷ "manual" ∷ []

abbrev pub time_sources : List String
time_sources = "source-stated" ∷ "file-mtime" ∷ "ingest-time" ∷ []

-- Event.validateVocabularies
unfoldable pub validate_vocabularies : Event → Option Problem
validate_vocabularies e = fail_if (not (valid grains e.grain)) unknown_grain (
    fail_if (not (valid privacies e.privacy)) unknown_privacy (
      fail_if (not (valid provenances e.provenance)) unknown_provenance
        (fail_if (not (valid time_sources e.time_source)) unknown_time_source none)))

-- Event.validateClocks
unfoldable pub validate_clocks : Event → Option Problem
validate_clocks e =
    fail_if (e.occurred_at == 0) no_occurrence_time
      (fail_if (e.observed_at == 0) no_observation_time none)

-- Event.Validate after the payload has been found.
unfoldable pub validate_with : Event → Option Payload → Option Problem
validate_with e none = some no_payload
validate_with e (some p) = fail_if (not (str_eq (event_type p) e.type)) type_mismatch (
    fail_if (str_eq e.id "") no_id (
      fail_if (str_eq e.source.name "") no_source (
        then_check (validate_vocabularies e)
          (then_check (validate_clocks e) (validate_payload p)))))

-- Event.Validate
unfoldable pub validate : Event → Option Problem
validate e =
    fail_if (not (e.spec_version == 1)) unknown_spec_version
      (fail_if (not (valid types e.type)) unknown_type (validate_with e e.payload))
