-- ===== src/Event/Validate.antt =====
-- internal/event: the validators of the payloads and of the envelope. `none` is Go's nil error.
use assaio.Prelude.{
  String, ◌≡◌, refl, Bool, true, false, ◌&&◌, ◌||◌, not, Option, none, some, List, [], ◌∷◌, ◌==◌,
  str_eq, eq_bool, if◌then◌else◌,
}
use native.Mathlib.Omega.{arith}
use assaio.Prelude.Int.{ℤ, pos, ltb_ℤ, leb_ℤ, eq_ℤ, min_ℤ, ◌+ℤ◌, wrap64}
use assaio.Event.Payloads.{
  FileCategories, Commit, TimelinePopulation, PullRequest, Population, PullRequestCommit, Review,
  ReviewDismissal, Check, CheckSuite,
}
use assaio.Event.Checks.{valid, non_negative, is_object_id, is_forge_id}

-- The errors of the validators, one for each message.
pub data Problem : Type 0 where
  negative_count : String → Problem
  categories_disagree not_positive bad_pull_state over_listed reviews_unavailable bad_rollup :
      Problem
  checks_without_rollup merge_on_unmerged bad_merge_commit bad_merge_parents bad_history : Problem
  dismissal_counts dismissal_bound bad_listed_commit bad_population bad_review_state : Problem
  bad_reviewed_commit no_dismissal_time metadata_without_review bad_review_id : Problem
  bad_run_state bad_run_conclusion unfinished_conclusion bad_status bad_check_kind : Problem
  bad_historical_check bad_suite_commit unknown_spec_version unknown_type no_payload : Problem
  type_mismatch no_id no_source unknown_grain unknown_privacy unknown_provenance : Problem
  unknown_time_source no_occurrence_time no_observation_time : Problem

-- `if test { return err }`, and the code after it.
unfoldable pub fail_if : Bool → Problem → Option Problem → Option Problem
fail_if test e rest = if test then some e else rest

-- `if err := first; err != nil { return err }`, and the code after it.
unfoldable pub then_check : Option Problem → Option Problem → Option Problem
then_check none rest = rest
then_check (some e) rest = some e

unfoldable pub counts_check : List (String × ℤ) → Option Problem
counts_check fields = elim (non_negative fields) [
  | none ↦ none
  | some name ↦ some (negative_count name)
]

abbrev zero_ℤ : ℤ
zero_ℤ = pos 0

abbrev pub review_states : List String
review_states = "pending" ∷ "commented" ∷ "approved" ∷ "changes_requested" ∷ "dismissed" ∷ []

abbrev pub check_run_statuses : List String
check_run_statuses =
    "queued" ∷ "in_progress" ∷ "completed" ∷ "waiting" ∷ "requested" ∷ "pending" ∷ []

abbrev pub check_conclusions : List String
check_conclusions =
    "action_required" ∷ "timed_out" ∷ "cancelled" ∷ "failure" ∷ "success" ∷ "neutral" ∷ "skipped"
    ∷ "startup_failure" ∷ "stale" ∷ []

abbrev pub check_rollup_states : List String
check_rollup_states = "error" ∷ "failure" ∷ "pending" ∷ "success" ∷ "expected" ∷ []

abbrev pub change_states : List String
change_states = "open" ∷ "closed" ∷ "merged" ∷ []

abbrev pub history_states : List String
history_states = "read" ∷ "outside-history-read" ∷ "commit-list-changed" ∷ "unavailable" ∷ []

-- FileCategories.Total, in int64 arithmetic.
unfoldable pub total : FileCategories → ℤ
total f = wrap64 (
    wrap64 (wrap64 (wrap64 (wrap64 (f.test +ℤ f.source) +ℤ f.docs) +ℤ f.config) +ℤ f.generated)
    +ℤ f.other)

abbrev pub commit_counts : Commit → List (String × ℤ)
commit_counts c =
    ("parents", c.parents)
    ∷ ("filesChanged", c.files_changed)
    ∷ ("linesAdded", c.lines_added)
    ∷ ("linesRemoved", c.lines_removed)
    ∷ ("files.test", c.files.test)
    ∷ ("files.source", c.files.source)
    ∷ ("files.docs", c.files.docs)
    ∷ ("files.config", c.files.config)
    ∷ ("files.generated", c.files.generated)
    ∷ ("files.other", c.files.other)
    ∷ []

-- Commit.validate
unfoldable pub validate_commit : Commit → Option Problem
validate_commit c =
    then_check (counts_check (commit_counts c))
      (fail_if (not (eq_ℤ (total c.files) c.files_changed)) categories_disagree none)

-- TimelinePopulation.validate
unfoldable pub validate_timeline : TimelinePopulation → Option Problem
validate_timeline p =
    then_check
      (counts_check (
        ("totalCount", p.total_count)
        ∷ ("filteredCount", p.filtered_count)
        ∷ ("pageCount", p.page_count)
        ∷ ("listed", p.listed)
        ∷ []))
      (fail_if
        (not (eq_ℤ p.listed p.page_count)
          || ltb_ℤ p.filtered_count p.page_count
          || ltb_ℤ p.total_count p.filtered_count)
        dismissal_counts
        (fail_if
          (not (eq_ℤ p.page_count (min_ℤ p.filtered_count (pos 100)))
            || not (eq_bool p.has_previous_page (ltb_ℤ p.page_count p.filtered_count)))
          dismissal_bound none))

abbrev pub stated : String → Bool
stated s = not (str_eq s "")

abbrev pub differs : ℤ → Bool
differs n = not (eq_ℤ n zero_ℤ)

-- Whether a merge parent count has no usable merge commit.
abbrev pub bad_parents : Option ℤ → String → Bool
bad_parents none merge = false
bad_parents (some n) merge = str_eq merge "" || ltb_ℤ n zero_ℤ

-- The `!= nil` test of a nested population, and its validator.
abbrev pub nested {ℓ} : {A : Type ℓ} → (A → Option Problem) → Option A → Option Problem
nested test none = none
nested test (some p) = test p

-- The tests of PullRequest.validate from the merge on.
unfoldable pub validate_merge : PullRequest → Option Problem
validate_merge p =
    fail_if (not (str_eq p.state "merged") && (stated p.merge_commit || not (p.merged_at == 0)))
      merge_on_unmerged
      (fail_if (stated p.merge_commit && not (is_object_id p.merge_commit)) bad_merge_commit (
        fail_if (bad_parents p.merge_parents p.merge_commit) bad_merge_parents (
          fail_if (stated p.history_state && not (valid history_states p.history_state)) bad_history
            (nested validate_timeline p.review_dismissals))))

-- The tests of PullRequest.validate from the listed counts on.
unfoldable pub validate_pull_request_states : PullRequest → Option Problem
validate_pull_request_states p = fail_if (ltb_ℤ p.commits p.listed) over_listed (
    fail_if (ltb_ℤ p.reviews p.reviews_listed) over_listed (
      fail_if (not p.reviews_available && (differs p.reviews || differs p.reviews_listed))
        reviews_unavailable
        (fail_if (ltb_ℤ p.checks p.checks_listed) over_listed (
          fail_if (stated p.check_state && not (valid check_rollup_states p.check_state)) bad_rollup
            (fail_if (str_eq p.check_state "" && (differs p.checks || differs p.checks_listed))
              checks_without_rollup (validate_merge p))))))

abbrev pub pull_request_counts : PullRequest → List (String × ℤ)
pull_request_counts p =
    ("commits", p.commits)
    ∷ ("listed", p.listed)
    ∷ ("reviews", p.reviews)
    ∷ ("reviewsListed", p.reviews_listed)
    ∷ ("checks", p.checks)
    ∷ ("checksListed", p.checks_listed)
    ∷ []

-- PullRequest.validate
unfoldable pub validate_pull_request : PullRequest → Option Problem
validate_pull_request p = fail_if (leb_ℤ p.number zero_ℤ) not_positive (
    fail_if (not (valid change_states p.state)) bad_pull_state
      (then_check (counts_check (pull_request_counts p)) (validate_pull_request_states p)))

-- Population.validate
unfoldable pub validate_population : Population → Option Problem
validate_population p =
    fail_if (ltb_ℤ p.total zero_ℤ || ltb_ℤ p.listed zero_ℤ || ltb_ℤ p.total p.listed) bad_population
      none

-- PullRequestCommit.validate
unfoldable pub validate_pull_request_commit : PullRequestCommit → Option Problem
validate_pull_request_commit p =
    fail_if (leb_ℤ p.number zero_ℤ) not_positive (
      fail_if (not (is_object_id p.commit)) bad_listed_commit (nested validate_population p.suites))

-- Review.validate
unfoldable pub validate_review : Review → Option Problem
validate_review p = fail_if (leb_ℤ p.number zero_ℤ) not_positive (
    fail_if (not (valid review_states p.state)) bad_review_state
      (fail_if (stated p.commit && not (is_object_id p.commit)) bad_reviewed_commit none))

-- ReviewDismissal.validate
unfoldable pub validate_review_dismissal : ReviewDismissal → Option Problem
validate_review_dismissal p = fail_if (leb_ℤ p.number zero_ℤ) not_positive (
    fail_if (not (valid review_states p.previous_state)) bad_review_state (
      fail_if (p.dismissed_at == 0) no_dismissal_time (
        fail_if (str_eq p.review_id "" && (stated p.commit || not (p.submitted_at == 0)))
          metadata_without_review
          (fail_if (stated p.review_id && not (is_forge_id p.review_id)) bad_review_id
            (fail_if (stated p.commit && not (is_object_id p.commit)) bad_reviewed_commit none)))))

-- The `switch p.Kind` of Check.validate.
unfoldable pub validate_check_kind : Check → Option Problem
validate_check_kind p =
    if str_eq p.kind "run"
    then fail_if (not (valid check_run_statuses p.state)) bad_run_state (
        fail_if (stated p.conclusion && not (valid check_conclusions p.conclusion))
          bad_run_conclusion
          (fail_if (not (str_eq p.state "completed") && stated p.conclusion) unfinished_conclusion
            none))
    else if str_eq p.kind "status"
    then fail_if (not (valid check_rollup_states p.state) || stated p.conclusion) bad_status none
    else some bad_check_kind

-- Check.validate
unfoldable pub validate_check : Check → Option Problem
validate_check p = fail_if (leb_ℤ p.number zero_ℤ) not_positive (
    then_check (validate_check_kind p) (
      fail_if
        ((stated p.commit || stated p.suite)
          && (not (str_eq p.kind "run")
              || not (is_object_id p.commit)
              || not (is_forge_id p.suite)))
        bad_historical_check none))

-- The `Check` that CheckSuite.validate asks about.
abbrev pub suite_check : CheckSuite → Check
suite_check p = record {
  number = p.number;
  kind = "run";
  state = p.state;
  conclusion = p.conclusion;
  commit = "";
  suite = "";
  started_at = 0;
  completed_at = 0;
}

-- CheckSuite.validate
unfoldable pub validate_check_suite : CheckSuite → Option Problem
validate_check_suite p =
    fail_if (not (is_object_id p.commit)) bad_suite_commit
      (then_check (validate_check (suite_check p)) (nested validate_population p.runs))

-- What a validator that passed has tested.
pub fail_if-none :
    (test : Bool) (e : Problem) {rest : Option Problem}
    → fail_if test e rest ≡ none
    → (test ≡ false) × (rest ≡ none)
unfolding fail_if
fail_if-none true e h = cc
fail_if-none false e h = (refl, h)

pub then_check-none :
    (first : Option Problem) {rest : Option Problem}
    → then_check first rest ≡ none
    → (first ≡ none) × (rest ≡ none)
unfolding then_check
then_check-none none h = (refl, h)
then_check-none (some e) h = cc

pub counts_check-none :
    (fields : List (String × ℤ)) → counts_check fields ≡ none → non_negative fields ≡ none
unfolding counts_check
counts_check-none fields h = ground arith
