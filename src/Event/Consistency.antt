-- ===== src/Event/Consistency.antt =====
-- What an accepted observation guarantees.
use assaio.Prelude.{
  ℕ, ◌+◌, ◌<◌, ◌^◌, String, ◌≡◌, ◌≢◌, refl, sym, ◌∙◌, Bool, true, false, Option, none, some, ◌⊎◌,
  ◌&&◌, ◌||◌, not, ◌==◌, str_eq, arith, eq_iff, All,
}
use assaio.Prelude.Int.{
  ℤ, pos, ◌≤ℤ◌, min_ℤ, ltb_ℤ, pos_part, wrap64, wrap64_in_range, ◌+ℤ◌, eq_ℤ→eq,
}
use assaio.Event.{Event}
use assaio.Event.Payloads.{Payload, PullRequest, TimelinePopulation, Check, Commit}
use assaio.Event.Checks.{non_negative-none, IsCount}
use assaio.Event.Validate.{
  fail_if, then_check, fail_if-none, then_check-none, counts_check-none, stated, differs,
  validate_pull_request, validate_pull_request_states, validate_merge, validate_timeline,
  validate_check, validate_check_kind, validate_commit, total, commit_counts,
}
use assaio.Event.Envelope.{validate, validate_with, validate_clocks, event_type, validate_payload}

within : (a b : ℤ) → ltb_ℤ a b ≡ false → b ≤ℤ a
within a b h = ground arith

unmerged :
    (p : PullRequest)
    → (not (str_eq p.state "merged") && (stated p.merge_commit || not (p.merged_at == 0))) ≡ false
    → p.state ≢ "merged"
    → (p.merge_commit ≡ "") × (p.merged_at ≡ 0)
unmerged p h n = (
  ground (arith, eq_iff p.state "merged", eq_iff p.merge_commit ""),
  ground (arith, eq_iff p.state "merged"),
)

unavailable :
    (p : PullRequest)
    → (not p.reviews_available && (differs p.reviews || differs p.reviews_listed)) ≡ false
    → p.reviews_available ≡ false
    → p.reviews ≡ pos 0
unavailable p h n = ground arith

unchecked :
    (p : PullRequest)
    → (str_eq p.check_state "" && (differs p.checks || differs p.checks_listed)) ≡ false
    → p.check_state ≡ ""
    → p.checks ≡ pos 0
unchecked p h n = ground (arith, eq_iff p.check_state "")

-- An accepted pull request lists no more commits, reviews or checks than it counts, carries no
-- trace of a merge unless its state is "merged", counts no review without a review connection, and
-- no check without a rollup state.
pub validate_pull_request_consistent :
    (p : PullRequest)
    → validate_pull_request p ≡ none
    → (p.listed ≤ℤ p.commits)
      × (p.reviews_listed ≤ℤ p.reviews)
      × (p.checks_listed ≤ℤ p.checks)
      × (p.state ≢ "merged" → (p.merge_commit ≡ "") × (p.merged_at ≡ 0))
      × (p.reviews_available ≡ false → p.reviews ≡ pos 0)
      × (p.check_state ≡ "" → p.checks ≡ pos 0)
unfolding validate_pull_request validate_pull_request_states validate_merge
validate_pull_request_consistent p h =
    let (_, h) = fail_if-none _ _ h in
    let (_, h) = fail_if-none _ _ h in
    let (_, h) = then_check-none _ h in
    let (commits, h) = fail_if-none _ _ h in
    let (reviews, h) = fail_if-none _ _ h in
    let (available, h) = fail_if-none _ _ h in
    let (checks, h) = fail_if-none _ _ h in
    let (_, h) = fail_if-none _ _ h in
    let (rollup, h) = fail_if-none _ _ h in
    let (merge, _) = fail_if-none _ _ h in
    (
      within p.commits p.listed commits,
      within p.reviews p.reviews_listed reviews,
      within p.checks p.checks_listed checks,
      unmerged p merge,
      unavailable p available,
      unchecked p rollup,
    )

-- The pages of an accepted dismissal timeline are exactly those of a bounded read of 100: as many
-- are listed as the smaller of the filtered population and 100, and an earlier page exists exactly
-- when the filtered population is larger than 100.
pub validate_timeline_bounded :
    (p : TimelinePopulation)
    → validate_timeline p ≡ none
    → (p.listed ≡ min_ℤ p.filtered_count (pos 100))
      × (p.has_previous_page ≡ ltb_ℤ (pos 100) p.filtered_count)
unfolding validate_timeline fail_if then_check
validate_timeline_bounded p h = (ground arith, ground arith)

-- An accepted check that is not a completed run carries no conclusion.
pub validate_check_unfinished :
    (p : Check)
    → validate_check p ≡ none
    → (p.kind ≢ "run") ⊎ (p.state ≢ "completed")
    → p.conclusion ≡ ""
unfolding validate_check validate_check_kind fail_if then_check
validate_check_unfinished p h n =
    ground (arith, eq_iff p.kind "run", eq_iff p.state "completed", eq_iff p.conclusion "")

natural : (a : ℤ) → ltb_ℤ a (pos 0) ≡ false → a ≡ pos (pos_part a)
natural a h = ground arith

pos-+ℤ : (a b : ℕ) → pos a +ℤ pos b ≡ pos (a + b)
unfolding ◌+ℤ◌
pos-+ℤ a b = ground arith

add_in_range : (a b : ℕ) → a + b < 2 ^ 63 → wrap64 (pos a +ℤ pos b) ≡ pos (a + b)
add_in_range a b h = rw (pos-+ℤ a b) (wrap64_in_range (a + b) h)

-- The number of files that the categories account for, as a sum that does not wrap.
abbrev pub file_sum : Commit → ℕ
file_sum c =
    pos_part c.files.test
    + pos_part c.files.source
    + pos_part c.files.docs
    + pos_part c.files.config
    + pos_part c.files.generated
    + pos_part c.files.other

total_of :
    (a b c d e g : ℕ)
    → a + b + c + d + e + g < 2 ^ 63
    → total (record {
      test = pos a;
      source = pos b;
      docs = pos c;
      config = pos d;
      generated = pos e;
      other = pos g;
    })
      ≡ pos (a + b + c + d + e + g)
unfolding total
total_of a b c d e g h = rw (add_in_range a b (omega arith)) (
    rw (add_in_range (a + b) c (omega arith)) (
      rw (add_in_range (a + b + c) d (omega arith))
        (rw (add_in_range (a + b + c + d) e (omega arith)) (add_in_range (a + b + c + d + e) g h))))

total_natural :
    (c : Commit)
    → All IsCount (commit_counts c)
    → file_sum c < 2 ^ 63
    → total c.files ≡ pos (file_sum c)
unfolding total
total_natural c h r = cc (
  natural c.files.test h.1.1.1.1.0,
  natural c.files.source h.1.1.1.1.1.0,
  natural c.files.docs h.1.1.1.1.1.1.0,
  natural c.files.config h.1.1.1.1.1.1.1.0,
  natural c.files.generated h.1.1.1.1.1.1.1.1.0,
  natural c.files.other h.1.1.1.1.1.1.1.1.1.0,
  total_of _ _ _ _ _ _ r,
)

agrees : (b : Bool) → not b ≡ false → b ≡ true
agrees true h = refl
agrees false h = cc

-- An accepted commit's categories, when their sum fits an int64, account for exactly the files that
-- the commit changed, and none of its counts is negative.
pub validate_commit_accounts :
    (c : Commit)
    → validate_commit c ≡ none
    → file_sum c < 2 ^ 63
    → (c.files_changed ≡ pos (file_sum c)) × All IsCount (commit_counts c)
unfolding validate_commit
validate_commit_accounts c h r =
    let (counts, h) = then_check-none _ h in
    let (agree, _) = fail_if-none _ _ h in
    let natural_counts = non_negative-none (commit_counts c) (counts_check-none _ counts) in
    (sym (eq_ℤ→eq _ _ (agrees _ agree)) ∙ total_natural c natural_counts r, natural_counts)

abbrev pub Accepted : Event → Payload → Type 0
Accepted e p =
    (e.payload ≡ some p)
    × (event_type p ≡ e.type)
    × (validate_payload p ≡ none)
    × (e.id ≢ "")
    × (e.source.name ≢ "")
    × (e.occurred_at ≢ 0)
    × (e.observed_at ≢ 0)

clocks_set : (e : Event) → validate_clocks e ≡ none → (e.occurred_at ≢ 0) × (e.observed_at ≢ 0)
unfolding validate_clocks fail_if
clocks_set e h = (λ z. ground arith, λ z. ground arith)

stated_text : (s : String) → str_eq s "" ≡ false → s ≢ ""
stated_text s h e = ground (arith, eq_iff s "")

found :
    (e : Event) (o : Option Payload)
    → e.payload ≡ o
    → validate_with e o ≡ none
    → (p : Payload) × Accepted e p
unfolding validate_with
found e none q h = cc
found e (some p) q h =
    let (type, h) = fail_if-none _ _ h in
    let (id, h) = fail_if-none _ _ h in
    let (name, h) = fail_if-none _ _ h in
    let (_, h) = then_check-none _ h in
    let (clocks, body) = then_check-none _ h in
    let (occurred, observed) = clocks_set e clocks in
    (
      p,
      (
        q,
        (eq_iff _ _).0 (agrees _ type),
        body,
        stated_text _ id,
        stated_text _ name,
        occurred,
        observed,
      ),
    )

-- An accepted envelope holds a payload of the type that it names, which its own validator accepts;
-- it has an id, a source, and both of its clocks.
pub validate_envelope : (e : Event) → validate e ≡ none → (p : Payload) × Accepted e p
unfolding validate
validate_envelope e h =
    let (_, h) = fail_if-none _ _ h in let (_, h) = fail_if-none _ _ h in found e e.payload refl h
