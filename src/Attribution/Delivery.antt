-- ===== src/Attribution/Delivery.antt =====
-- internal/attribution/changes_measurements.go: what a document states of the linked pull requests.
-- The fields that every value states alike (layer, scope, provenance, source) are left out, and a
-- float64 rate is kept as its two counts. The empty reason is the empty string.
use assaio.Prelude.{
  ℕ, ◌+◌, String, Bool, true, false, ◌&&◌, not, Option, some, none, List, [], ◌∷◌, ltb, ◌==◌,
  str_eq, str_ltb, if◌then◌else◌, any_of, length, sort_by,
}
use assaio.Prelude.Int.{ℤ, pos, ltb_ℤ, eq_ℤ}
use assaio.Event.Payloads.{PullRequest, Review}
use assaio.Attribution.{Confidence, high, insufficient}

-- ReviewObservation: the id of its envelope, and the payload.
pub record ReviewObservation : Type 0 where
  pub id : String
  pub payload : Review

-- DerivedCount
pub record DerivedCount : Type 0 where
  pub value : Option ℕ
  pub confidence : Confidence
  pub reason : String

-- ObservedMethod
pub record ObservedMethod : Type 0 where
  pub value : Option String
  pub confidence : Confidence
  pub reason : String

-- StateCount
pub record StateCount : Type 0 where
  pub state : String
  pub count : ℕ

-- ObservedStates
pub record ObservedStates : Type 0 where
  pub total : ℤ
  pub listed : ℤ
  pub state : String
  pub states : List StateCount

-- What the rates read of a LinkedPullRequest.
pub record LinkedPullRequest : Type 0 where
  pub number : ℤ
  pub state : String
  pub reviews : Option ObservedStates
  pub requested_changes_revisions : Option DerivedCount

-- PopulationGap
pub record PopulationGap : Type 0 where
  pub reason : String
  pub pull_requests : ℕ

-- PRRate
pub record PullRequestRate : Type 0 where
  pub id : String
  pub population : ℕ
  pub eligible : ℕ
  pub numerator : Option ℕ
  pub denominator : ℕ
  pub value : Option (ℕ × ℕ)
  pub confidence : Confidence
  pub reason : String
  pub gaps : List PopulationGap

-- withheldCount
unfoldable pub withheld_count : String → DerivedCount
withheld_count reason = record { value = none; confidence = insufficient; reason = reason }

abbrev contains : String → List String → Bool
contains s seen = any_of (λ t. str_eq t s) seen

-- The first loop of reviewPopulationGap; the list is the map `seen`.
unfoldable pub identity_gap : List ReviewObservation → List String → String
identity_gap [] seen = ""
identity_gap (r ∷ rs) seen =
    if str_eq r.id ""
    then "review-id-unavailable"
    else if contains r.id seen
    then "duplicate-review-observations"
    else identity_gap rs (r.id ∷ seen)

-- The body of the second loop.
unfoldable pub state_gap : Review → String
state_gap r =
    if str_eq r.state "dismissed"
    then "dismissed-review-state-history-unavailable"
    else if str_eq r.state "pending"
    then "pending-review-not-submitted"
    else if not (contains r.state ("commented" ∷ "approved" ∷ "changes_requested" ∷ []))
    then "review-state-unusable"
    else if r.submitted_at == 0
    then "review-submission-time-unavailable"
    else if str_eq r.commit ""
    then "reviewed-commit-unavailable"
    else ""

unfoldable pub states_gap : List ReviewObservation → String
states_gap [] = ""
states_gap (r ∷ rs) =
    let rest = states_gap rs in
    if str_eq (state_gap r.payload) "" then rest else state_gap r.payload

-- reviewPopulationGap
unfoldable pub review_population_gap : PullRequest → List ReviewObservation → String
review_population_gap pr reviews =
    if not pr.reviews_available
    then "reviews-unavailable"
    else if not (eq_ℤ pr.reviews_listed pr.reviews)
    then "reviews-incomplete"
    else if not (eq_ℤ (pos (length reviews)) pr.reviews_listed)
    then "review-observation-count-mismatch"
    else if not (str_eq (identity_gap reviews []) "")
    then identity_gap reviews []
    else states_gap reviews

-- The keys of the map `revisions`.
unfoldable pub revisions_of : List ReviewObservation → List String → List String
revisions_of [] seen = seen
revisions_of (r ∷ rs) seen =
    if str_eq r.payload.state "changes_requested" && not (contains r.payload.commit seen)
    then revisions_of rs (r.payload.commit ∷ seen)
    else revisions_of rs seen

-- requestedChangesRevisions
unfoldable pub requested_changes_revisions : PullRequest → List ReviewObservation → DerivedCount
requested_changes_revisions pr reviews =
    if str_eq (review_population_gap pr reviews) ""
    then record { value = some (length (revisions_of reviews [])); confidence = high; reason = "" }
    else withheld_count (review_population_gap pr reviews)

-- The cases of mergeMethod on the parent count.
unfoldable pub method_of : Option ℤ → ObservedMethod
method_of none = record {
  value = none;
  confidence = insufficient;
  reason = "merge-parent-count-unavailable";
}
method_of (some n) =
    if ltb_ℤ (pos 1) n
    then record { value = some "merge"; confidence = high; reason = "" }
    else if eq_ℤ n (pos 1)
    then record {
      value = none;
      confidence = insufficient;
      reason = "squash-versus-rebase-undetermined";
    }
    else record { value = none; confidence = insufficient; reason = "merge-parent-count-unusable" }

-- mergeMethod
unfoldable pub merge_method : PullRequest → ObservedMethod
merge_method pr =
    if not (str_eq pr.state "merged")
    then record { value = none; confidence = insufficient; reason = "pull-request-not-merged" }
    else if str_eq pr.merge_commit ""
    then record { value = none; confidence = insufficient; reason = "merge-commit-unavailable" }
    else method_of pr.merge_parents

abbrev pub no_reviews : Option ObservedStates → Bool
no_reviews none = true
no_reviews (some s) = eq_ℤ s.total (pos 0)

-- reviewRateGap, and the value it leaves when there is no gap.
unfoldable pub rate_gap : Option DerivedCount → Option ObservedStates → String
rate_gap none reviews = "reviews-unavailable"
rate_gap (some d) reviews = elim d.value [
  | none ↦ d.reason
  | some n ↦ if no_reviews reviews then "no-submitted-review-observations" else ""
]

unfoldable pub review_rate_gap : LinkedPullRequest → String
review_rate_gap pr = rate_gap pr.requested_changes_revisions pr.reviews

-- *pr.RequestedChangesRevisions.Value > 0, which is read only where there is no gap.
unfoldable pub has_revisions : Option DerivedCount → Bool
has_revisions none = false
has_revisions (some d) = elim d.value [ none ↦ false | some n ↦ ltb 0 n ]

unfoldable pub add_gap : String → List PopulationGap → List PopulationGap
add_gap reason [] = record { reason = reason; pull_requests = 1 } ∷ []
add_gap reason (g ∷ gs) =
    let rest = add_gap reason gs in
    if str_eq g.reason reason
    then record g { pull_requests = g.pull_requests + 1 } ∷ gs
    else g ∷ rest

unfoldable pub has_gap : String → List PopulationGap → Bool
has_gap reason gs = any_of (λ g. str_eq g.reason reason) gs

-- countGap
unfoldable pub count_gap : String → List PopulationGap → List PopulationGap
count_gap reason gs =
    if has_gap reason gs
    then add_gap reason gs
    else sort_by (λ a b. str_ltb a.reason b.reason) (add_gap reason gs)

-- What the loop of deliveryRates counts.
pub record RateCounts : Type 0 where
  pub population : ℕ
  pub eligible : ℕ
  pub numerator : ℕ
  pub gaps : List PopulationGap

-- One turn of that loop.
unfoldable pub count_pull_request : LinkedPullRequest → RateCounts → RateCounts
count_pull_request pr c =
    if not (str_eq pr.state "merged")
    then c
    else if not (str_eq (review_rate_gap pr) "")
    then record c { population = c.population + 1; gaps = count_gap (review_rate_gap pr) c.gaps }
    else record c {
      population = c.population + 1;
      eligible = c.eligible + 1;
      numerator =
          if has_revisions pr.requested_changes_revisions then c.numerator + 1 else c.numerator;
    }

unfoldable pub count_linked : List LinkedPullRequest → RateCounts → RateCounts
count_linked [] c = c
count_linked (pr ∷ prs) c = count_linked prs (count_pull_request pr c)

abbrev pub no_counts : RateCounts
no_counts = record { population = 0; eligible = 0; numerator = 0; gaps = [] }

-- The reason of a review rate with an ineligible part.
abbrev pub gap_reason : List PopulationGap → String
gap_reason (g ∷ []) = g.reason
gap_reason _ = "ineligible-review-populations"

-- The review rate of deliveryRates, from the counts.
unfoldable pub review_rate : RateCounts → PullRequestRate
review_rate c =
    let whole = c.population == 0 in
    let stated = not whole && c.eligible == c.population in
    record {
      id = "requested-changes-presence";
      population = c.population;
      eligible = c.eligible;
      numerator = if stated then some c.numerator else none;
      denominator = c.population;
      value = if stated then some (c.numerator, c.population) else none;
      confidence = if stated then high else insufficient;
      reason =
          if whole
          then "no-named-merged-pull-requests"
          else if stated
          then ""
          else gap_reason c.gaps;
      gaps = c.gaps;
    }

-- The check rate of deliveryRates, which is always withheld.
unfoldable pub check_rate : RateCounts → PullRequestRate
check_rate c = record {
  id = "failed-check-run-presence";
  population = c.population;
  eligible = 0;
  numerator = none;
  denominator = c.population;
  value = none;
  confidence = insufficient;
  reason =
      if c.population == 0
      then "no-named-merged-pull-requests"
      else "comparable-pr-pipeline-history-unavailable";
  gaps = [];
}

-- deliveryRates
unfoldable pub delivery_rates : List LinkedPullRequest → List PullRequestRate
delivery_rates linked = let c = count_linked linked no_counts in review_rate c ∷ check_rate c ∷ []
