-- ===== src/Attribution/Rates.antt =====
-- What internal/attribution/changes_measurements.go withholds and what it states.
use assaio.Prelude.{ℕ, ◌+◌, ◌≤◌, ◌≢◌, ◌≡◌, Bool, false, ◌&&◌, not, Option, some, none, str_eq, ltb}
use assaio.Prelude.Int.{pos, eq_ℤ}
use assaio.Attribution.Delivery.{
  LinkedPullRequest, PullRequestRate, RateCounts, DerivedCount, ObservedStates,
}
use assaio.Attribution.Gaps.{gap_total}

abbrev pub is_merged : LinkedPullRequest → Bool
is_merged pr = str_eq pr.state "merged"

abbrev pub has_reviews : Option ObservedStates → Bool
has_reviews none = false
has_reviews (some s) = not (eq_ℤ s.total (pos 0))

-- Whether a pull request's revisions are a known number over reviews that were observed; an unknown
-- number without a reason is no gap.
abbrev pub is_measured : Option DerivedCount → Option ObservedStates → Bool
is_measured none reviews = false
is_measured (some d) reviews = elim d.value [
  | none ↦ str_eq d.reason ""
  | some n ↦ has_reviews reviews
]

abbrev pub is_eligible : LinkedPullRequest → Bool
is_eligible pr = is_merged pr && is_measured pr.requested_changes_revisions pr.reviews

abbrev pub is_revised : LinkedPullRequest → Bool
is_revised pr = is_eligible pr && elim pr.requested_changes_revisions [
  | none ↦ false
  | some d ↦ elim d.value [ none ↦ false | some n ↦ ltb 0 n ]
]

-- The counts so far of n merged pull requests, k of them eligible and m of those revised.
pub record Balanced (c : RateCounts) (n k m : ℕ) : Type 0 where
  pub population : c.population ≡ n
  pub eligible : c.eligible ≡ k
  pub numerator : c.numerator ≡ m
  pub split : c.eligible + gap_total c.gaps ≡ n
  pub within : c.numerator ≤ c.eligible

-- A review rate over n merged pull requests, k of them eligible and m of those revised: every one is
-- eligible or is counted in one gap, and the revised are stated, as a share of all, exactly when
-- there is one and all are eligible.
pub record IsHonest (n k m : ℕ) (r : PullRequestRate) : Type 0 where
  pub population : r.population ≡ n
  pub eligible : r.eligible ≡ k
  pub whole : r.denominator ≡ n
  pub split : r.eligible + gap_total r.gaps ≡ n
  pub stated : k ≡ n → n ≢ 0 → (r.value ≡ some (m, n)) × (m ≤ n)
  pub withheld : k ≢ n → r.value ≡ none
