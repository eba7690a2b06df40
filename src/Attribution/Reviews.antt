-- ===== src/Attribution/Reviews.antt =====
-- What a number of requested-changes revisions rests on:
-- internal/attribution/changes_measurements.go.
use assaio.Prelude.{
  ℕ, ◌==◌, ◌≢◌, ◌⊎◌, ◌||◌, All-imp, any_of, String, ◌≡◌, refl, All, Bool, true, false, Bool-cases,
  not, inl, inr, some, none≢some, List, [], ◌∷◌, str_eq, eq_iff, arith, if◌then◌else◌, length,
}
use assaio.Prelude.Int.{pos, eq_ℤ, eq_ℤ→eq}
use assaio.Event.Payloads.{PullRequest, Review}
use assaio.Attribution.Delivery.{
  ReviewObservation, withheld_count, identity_gap, state_gap, states_gap, review_population_gap,
  requested_changes_revisions,
}

-- A review that was submitted, is not dismissed, and names the commit it was made of.
pub record IsUsable (r : Review) : Type 0 where
  pub submitted :
      (r.state ≡ "commented") ⊎ ((r.state ≡ "approved") ⊎ (r.state ≡ "changes_requested"))
  pub dated : r.submitted_at ≢ 0
  pub located : r.commit ≢ ""

-- Observations of which no two have one id.
abbrev pub AreDistinct : List ReviewObservation → Type 0
AreDistinct [] = Unit
AreDistinct (r ∷ rs) = All (λ (x : ReviewObservation). r.id ≢ x.id) rs × AreDistinct rs

-- What a stated number of revisions rests on: a complete read, one observation of each review under
-- an id of its own, and every review submitted, undismissed and of a known commit.
pub record IsComplete (pr : PullRequest) (reviews : List ReviewObservation) : Type 0 where
  pub available : pr.reviews_available ≡ true
  pub listed : pr.reviews_listed ≡ pr.reviews
  pub observed : pos (length reviews) ≡ pr.reviews_listed
  pub identified : All (λ (r : ReviewObservation). r.id ≢ "") reviews
  pub distinct : AreDistinct reviews
  pub usable : All (λ (r : ReviewObservation). IsUsable r.payload) reviews

-- A test whose reason is not given has not failed.
passed :
    (b : Bool) (reason rest : String)
    → str_eq reason "" ≡ false
    → (if b then reason else rest) ≡ ""
    → (b ≡ false) × (rest ≡ "")
passed true reason rest h e = ground (arith, eq_iff reason "")
passed false reason rest h e = (refl, e)

state_gap-IsUsable : (r : Review) → state_gap r ≡ "" → IsUsable r
unfolding state_gap
state_gap-IsUsable r h =
    let (a, h1) =
      passed (str_eq r.state "dismissed") "dismissed-review-state-history-unavailable" _ refl h in
    let (b, h2) = passed (str_eq r.state "pending") "pending-review-not-submitted" _ refl h1 in
    let (c, h3) =
      passed
        (not (any_of (λ t. str_eq t r.state) ("commented" ∷ "approved" ∷ "changes_requested" ∷ [])))
        "review-state-unusable" _ refl h2 in
    let (d, h4) = passed (r.submitted_at == 0) "review-submission-time-unavailable" _ refl h3 in
    let (e, _) = passed (str_eq r.commit "") "reviewed-commit-unavailable" "" refl h4 in
    record {
      submitted = ground (
        arith,
        c,
        eq_iff "commented" r.state,
        eq_iff "approved" r.state,
        eq_iff "changes_requested" r.state,
      );
      dated = ground (arith, d);
      located = λ z. ground (arith, e, z, eq_iff r.commit "");
    }

states_gap-IsUsable :
    (rs : List ReviewObservation)
    → states_gap rs ≡ ""
    → All (λ (r : ReviewObservation). IsUsable r.payload) rs
unfolding states_gap
states_gap-IsUsable [] h = tt
states_gap-IsUsable (r ∷ rs) h = (
  state_gap-IsUsable r.payload (ground (arith, eq_iff (state_gap r.payload) "")),
  states_gap-IsUsable rs (ground (arith, eq_iff (state_gap r.payload) "")),
)

-- Of observations that pass the first loop: ids that are stated and not yet seen.
abbrev IsNew : List String → ReviewObservation → Type 0
IsNew seen r = (r.id ≢ "") × (any_of (λ t. str_eq t r.id) seen ≡ false)

identity_gap-distinct :
    (rs : List ReviewObservation) (seen : List String)
    → identity_gap rs seen ≡ ""
    → All (IsNew seen) rs × AreDistinct rs
unfolding identity_gap
identity_gap-distinct [] seen h = (tt, tt)
identity_gap-distinct (r ∷ rs) seen h =
    let (a, h1) = passed (str_eq r.id "") "review-id-unavailable" _ refl h in
    let (b, h2) =
      passed (any_of (λ t. str_eq t r.id) seen) "duplicate-review-observations" _ refl h1 in
    let (new, apart) = identity_gap-distinct rs (r.id ∷ seen) h2 in
    (
      (
        ((λ z. ground (arith, a, z, eq_iff r.id "")), b),
        All-imp (λ x k. (k.0, no_right (str_eq r.id x.id) _ k.1)) rs new,
      ),
      (All-imp (λ x k z. ground (arith, k.1, z, eq_iff r.id x.id)) rs new, apart),
    )
  where
    no_right : (p q : Bool) → (p || q) ≡ false → q ≡ false
    no_right p q k = ground (arith, k)

identified_gap : (s rest : String) → (if not (str_eq s "") then s else rest) ≡ "" → s ≡ ""
identified_gap s rest h = ground (arith, eq_iff s "")

own_reason : (s rest : String) → (if not (str_eq s "") then s else rest) ≡ "" → rest ≡ ""
own_reason s rest h = ground (arith, eq_iff s "")

no_gap-IsComplete :
    (pr : PullRequest) (rs : List ReviewObservation)
    → review_population_gap pr rs ≡ ""
    → IsComplete pr rs
unfolding review_population_gap
no_gap-IsComplete pr rs h =
    let (a, h1) = passed (not pr.reviews_available) "reviews-unavailable" _ refl h in
    let (b, h2) = passed (not (eq_ℤ pr.reviews_listed pr.reviews)) "reviews-incomplete" _ refl h1 in
    let (c, h3) =
      passed (not (eq_ℤ (pos (length rs)) pr.reviews_listed)) "review-observation-count-mismatch" _
        refl h2 in
    record {
      available = ground arith;
      listed = eq_ℤ→eq pr.reviews_listed pr.reviews (ground arith);
      observed = eq_ℤ→eq (pos (length rs)) pr.reviews_listed (ground arith);
      identified =
          All-imp (λ r k. k.0) rs
            (identity_gap-distinct rs []
              (identified_gap (identity_gap rs []) (states_gap rs) h3)).0;
      distinct =
          (identity_gap-distinct rs [] (identified_gap (identity_gap rs []) (states_gap rs) h3)).1;
      usable = states_gap-IsUsable rs (own_reason (identity_gap rs []) (states_gap rs) h3);
    }

-- A number of requested-changes revisions is stated only when the review population was read whole,
-- each review observed once under a stated id of its own, and every review was submitted, is not
-- dismissed, and has a stated time and commit.
pub stated-IsComplete :
    (pr : PullRequest) (rs : List ReviewObservation) (k : ℕ)
    → (requested_changes_revisions pr rs).value ≡ some k
    → IsComplete pr rs
unfolding requested_changes_revisions withheld_count
stated-IsComplete pr rs k h = elim (Bool-cases (str_eq (review_population_gap pr rs) "")) [
  | inl e ↦ no_gap-IsComplete pr rs (ground (arith, eq_iff (review_population_gap pr rs) ""))
  | inr e ↦ absurd (none≢some (rw e at h))
]
