-- ===== src/Attribution/Summary.antt =====
-- internal/attribution/summary.go: how much of a population is accounted for.
use assaio.Prelude.{
  ℕ, zero, suc, ap, ◌+◌, ◌≤◌, ◌≡◌, refl, ◌∙◌, inl, inr, Bool, true, false, Bool-cases, ltb, List,
  [], ◌∷◌, length, count_if, arith, if◌then◌else◌,
}
use assaio.Attribution.{Result, Status, matched, ambiguous, unmatched}

-- A float64 quotient of two counts, kept as the counts; 0/1 is the zero value.
pub record Ratio : Type 0 where
  pub part : ℕ
  pub whole : ℕ

-- attribution.Summary
pub record Summary : Type 0 where
  pub population : ℕ
  pub matched_count : ℕ
  pub ambiguous_count : ℕ
  pub unmatched_count : ℕ
  pub candidate_covered : ℕ
  pub candidate_coverage : Ratio
  pub resolved_coverage : Ratio

-- The switch of Summarize's loop.
unfoldable pub count_status : Status → Summary → Summary
count_status matched s = record s { matched_count = s.matched_count + 1 }
count_status ambiguous s = record s { ambiguous_count = s.ambiguous_count + 1 }
count_status unmatched s = record s { unmatched_count = s.unmatched_count + 1 }

unfoldable pub count_results : Summary → List Result → Summary
count_results s [] = s
count_results s (r ∷ rs) = count_results (count_status r.status s) rs

-- The statements of Summarize after its loop.
unfoldable pub finish : Summary → Summary
finish s =
    let covered = s.matched_count + s.ambiguous_count in
    if ltb 0 s.population
    then record s {
      candidate_covered = covered;
      candidate_coverage = record { part = covered; whole = s.population };
      resolved_coverage = record { part = s.matched_count; whole = s.population };
    }
    else record s { candidate_covered = covered }

abbrev no_ratio : Ratio
no_ratio = record { part = 0; whole = 1 }

abbrev of_population : ℕ → Summary
of_population n = record {
  population = n;
  matched_count = 0;
  ambiguous_count = 0;
  unmatched_count = 0;
  candidate_covered = 0;
  candidate_coverage = no_ratio;
  resolved_coverage = no_ratio;
}

-- Summarize
unfoldable pub summarize : List Result → Summary
unfolding count_status count_results finish
summarize results = finish (count_results (of_population (length results)) results)

abbrev pub is_matched : Result → Bool
is_matched r = elim r.status [ matched ↦ true | _ ↦ false ]

abbrev pub is_ambiguous : Result → Bool
is_ambiguous r = elim r.status [ ambiguous ↦ true | _ ↦ false ]

-- What the counts of a summary say of the results that it sums up.
record Counts (before after : Summary) (rs : List Result) : Type 0 where
  matches : after.matched_count ≡ before.matched_count + count_if is_matched rs
  ambiguities : after.ambiguous_count ≡ before.ambiguous_count + count_if is_ambiguous rs
  total :
      after.matched_count + after.ambiguous_count + after.unmatched_count
      ≡ before.matched_count + before.ambiguous_count + before.unmatched_count + length rs
  kept : after.population ≡ before.population

count_status-Counts : (s : Summary) (r : Result) → Counts s (count_status r.status s) (r ∷ [])
unfolding count_status
count_status-Counts s r = go r.status refl
  where
    go : (t : Status) → r.status ≡ t → Counts s (count_status t s) (r ∷ [])
    go matched q = ground arith
    go ambiguous q = ground arith
    go unmatched q = ground arith

count_results-Counts : (s : Summary) (rs : List Result) → Counts s (count_results s rs) rs
unfolding count_results
count_results-Counts s [] = record {
  matches = omega arith;
  ambiguities = omega arith;
  total = omega arith;
  kept = refl;
}
count_results-Counts s (r ∷ rs) =
    joined (count_status-Counts s r) (count_results-Counts (count_status r.status s) rs)
  where
    joined :
        Counts s (count_status r.status s) (r ∷ [])
        → Counts (count_status r.status s) (count_results (count_status r.status s) rs) rs
        → Counts s (count_results (count_status r.status s) rs) (r ∷ rs)
    joined a b = record {
      matches = omega (arith, a.matches, b.matches);
      ambiguities = omega (arith, a.ambiguities, b.ambiguities);
      total = omega (arith, a.total, b.total);
      kept = omega (arith, a.kept, b.kept);
    }

-- A part of a population as a ratio, the zero value where there is none.
abbrev pub share : ℕ → ℕ → Ratio
share part zero = record { part = 0; whole = 1 }
share part (suc n) = record { part = part; whole = suc n }

share_stated :
    (part n k : ℕ) → n ≡ k → ltb 0 n ≡ true → record { part = part; whole = n } ≡ share part k
share_stated part n zero q h = ground (arith, q, h)
share_stated part n (suc k) q h = ap (λ m. record { part = part; whole = m }) q

share_none : (part n k : ℕ) → n ≡ k → ltb 0 n ≡ false → no_ratio ≡ share part k
share_none part n zero q h = refl
share_none part n (suc k) q h = ground (arith, q, h)

-- The counts of a summary are those of its results and split its population without remainder; the
-- covered ones are the matched and the ambiguous, and the resolved share never exceeds the covered.
pub record Partitions (s : Summary) (rs : List Result) : Type 0 where
  pub population : s.population ≡ length rs
  pub matches : s.matched_count ≡ count_if is_matched rs
  pub ambiguities : s.ambiguous_count ≡ count_if is_ambiguous rs
  pub split : s.matched_count + s.ambiguous_count + s.unmatched_count ≡ s.population
  pub covered : s.candidate_covered ≡ s.matched_count + s.ambiguous_count
  pub resolved_within : s.resolved_coverage.part ≤ s.candidate_coverage.part
  pub covered_within : s.candidate_coverage.part ≤ s.candidate_coverage.whole
  pub candidate_share :
      s.candidate_coverage ≡ share (s.matched_count + s.ambiguous_count) (length rs)
  pub resolved_share : s.resolved_coverage ≡ share s.matched_count (length rs)
  pub same_whole : s.resolved_coverage.whole ≡ s.candidate_coverage.whole

finish-Partitions :
    (n : ℕ) (s : Summary) (rs : List Result)
    → n ≡ length rs
    → Counts (of_population n) s rs
    → s.candidate_coverage ≡ no_ratio
    → s.resolved_coverage ≡ no_ratio
    → Partitions (finish s) rs
unfolding finish
finish-Partitions n s rs q c a b = elim (Bool-cases (ltb 0 s.population)) [
  | inl p ↦ rw p (record {
    population = omega (arith, c.kept);
    matches = omega (arith, c.matches);
    ambiguities = omega (arith, c.ambiguities);
    split = omega (arith, c.total, c.kept);
    covered = refl;
    resolved_within = omega arith;
    covered_within = omega (arith, c.total, c.kept);
    candidate_share = share_stated _ s.population (length rs) (c.kept ∙ q) p;
    resolved_share = share_stated _ s.population (length rs) (c.kept ∙ q) p;
    same_whole = refl;
  })
  | inr p ↦ rw p (record {
    population = omega (arith, c.kept);
    matches = omega (arith, c.matches);
    ambiguities = omega (arith, c.ambiguities);
    split = omega (arith, c.total, c.kept);
    covered = refl;
    resolved_within = ground arith;
    covered_within = ground arith;
    candidate_share = a ∙ share_none _ s.population (length rs) (c.kept ∙ q) p;
    resolved_share = b ∙ share_none _ s.population (length rs) (c.kept ∙ q) p;
    same_whole = ground arith;
  })
]

count_results_ratios :
    (s : Summary) (rs : List Result)
    → ((count_results s rs).candidate_coverage ≡ s.candidate_coverage)
      × ((count_results s rs).resolved_coverage ≡ s.resolved_coverage)
unfolding count_results count_status
count_results_ratios s [] = (refl, refl)
count_results_ratios s (r ∷ rs) =
    let (a, b) = count_results_ratios (count_status r.status s) rs in
    let (x, y) = kept r.status in (a ∙ x, b ∙ y)
  where
    kept :
        (t : Status)
        → ((count_status t s).candidate_coverage ≡ s.candidate_coverage)
          × ((count_status t s).resolved_coverage ≡ s.resolved_coverage)
    kept matched = (refl, refl)
    kept ambiguous = (refl, refl)
    kept unmatched = (refl, refl)

-- Of any results, the matched, the ambiguous and the unmatched are counted exactly and add up to the
-- population; the candidate coverage is the matched and the ambiguous as a share of that population
-- and the resolved coverage the matched, both zero where there are no results.
pub summarize-Partitions : (rs : List Result) → Partitions (summarize rs) rs
unfolding summarize
summarize-Partitions rs =
    let (a, b) = count_results_ratios (of_population (length rs)) rs in
    finish-Partitions (length rs) _ rs refl (count_results-Counts (of_population (length rs)) rs) a
      b
