-- ===== src/Parser/Deltas.antt =====
-- What differencing of internal/parser/codex/tokencount.go promises.
use assaio.Prelude.{
  ℕ, ◌+◌, ◌-◌, ◌^◌, ◌≤◌, ◌<◌, ◌≡◌, refl, ap, Bool-cases, ◌&&◌, inl, inr, Option, some, none,
  some_injective, none≢some, List, [], ◌∷◌, min, map, arith,
}
use assaio.Prelude.Int.{ℤ, pos, pos_part, leb_ℤ, ◌≤ℤ◌, ◌+ℤ◌, ◌-ℤ◌, wrap64, wrap64_in_range}
use assaio.Usage.{Tokens}
use assaio.Parser.{
  non_neg, subset, Totals, delta, turn_tokens, token_count_record, apply_token_counts, also,
}
use assaio.Parser.Clamps.{subset-bounds}

-- The cumulative totals of one line, as a log that only grows states them.
pub record Counts : Type 0 where
  pub input : ℕ
  pub cached : ℕ
  pub output : ℕ
  pub reasoning : ℕ

abbrev pub totals_of : Counts → Totals
totals_of c = record {
  input = pos c.input;
  cached = pos c.cached;
  output = pos c.output;
  reasoning = pos c.reasoning;
}

-- No total of the later line is below the earlier one, and all are int64 values.
pub record Grows (a b : Counts) : Type 0 where
  pub input : a.input ≤ b.input
  pub cached : a.cached ≤ b.cached
  pub output : a.output ≤ b.output
  pub bound_input : b.input < 2 ^ 63
  pub bound_cached : b.cached < 2 ^ 63
  pub bound_output : b.output < 2 ^ 63

wrapped : (a b : ℕ) → a ≤ b → b < 2 ^ 63 → wrap64 (pos b -ℤ pos a) ≡ pos (b - a)
unfolding ◌-ℤ◌
wrapped a b h k = ground (arith, wrap64_in_range (b - a))

-- The prompt tokens of a record, those read from the cache and the others; none where there is no record.
abbrev pub prompt_of : Option Tokens → ℤ
prompt_of none = pos 0
prompt_of (some t) = t.input +ℤ t.cache_read

cached_part : (c i : ℕ) → subset (pos c) (non_neg (pos i)) ≡ pos (min c i)
unfolding subset non_neg
cached_part c i = ground arith

whole_again : (i m : ℕ) → m ≤ i → pos (i - m) +ℤ pos m ≡ pos i
unfolding ◌+ℤ◌
whole_again i m h = ground arith

own_part : (i : ℕ) → non_neg (pos i) ≡ pos i
unfolding non_neg
own_part i = ground arith

turn_prompt :
    (i c o : ℕ) (r : ℤ)
    → i < 2 ^ 63
    → prompt_of
        (turn_tokens (record { input = pos i; cached = pos c; output = pos o; reasoning = r }))
      ≡ pos i
unfolding turn_tokens
turn_prompt i c o r h =
    elim (Bool-cases (leb_ℤ (pos i) (pos 0) && (leb_ℤ (pos o) (pos 0) && leb_ℤ (pos c) (pos 0)))) [
      | inl e ↦ rw e (ap pos (ground arith))
      | inr e ↦
          let part : min c i ≤ i = ground arith in
          let below : wrap64 (pos i -ℤ pos (min c i)) ≡ pos (i - min c i) =
            wrapped (min c i) i part h in
          rw (e, cached_part c i, own_part i, below) (whole_again i (min c i) part)
    ]

-- The prompt tokens of some records.
abbrev pub prompt_total : List Tokens → ℕ
prompt_total [] = 0
prompt_total (t ∷ ts) = pos_part (prompt_of (some t)) + prompt_total ts

prompt_total-also :
    (o : Option Tokens) (ts : List Tokens)
    → prompt_total (also o ts) ≡ pos_part (prompt_of o) + prompt_total ts
prompt_total-also none ts = omega arith
prompt_total-also (some t) ts = refl

-- The last totals of a file.
abbrev pub last_of : Counts → List Counts → Counts
last_of a [] = a
last_of a (b ∷ bs) = last_of b bs

-- Each line's totals grow from the line before.
unfoldable pub AllGrow : Counts → List Counts → Type 0
AllGrow a [] = Unit
AllGrow a (b ∷ bs) = Grows a b × AllGrow b bs

turn_step :
    (a b : Counts)
    → Grows a b
    → prompt_of (turn_tokens (delta (totals_of a) (totals_of b))) ≡ pos (b.input - a.input)
turn_step a b g =
    let i = wrapped a.input b.input g.input g.bound_input in
    let c = wrapped a.cached b.cached g.cached g.bound_cached in
    let o = wrapped a.output b.output g.output g.bound_output in
    let small : b.input - a.input < 2 ^ 63 = omega (arith, g.bound_input) in
    rw (i, c, o)
      (turn_prompt (b.input - a.input) (b.cached - a.cached) (b.output - a.output)
        (wrap64 (pos b.reasoning -ℤ pos a.reasoning)) small)

-- When a log's cumulative totals are int64 counts that only grow, the prompt tokens of the records
-- read from it add up to what the vendor's own input total gained, however the cached part compares.
pub prompt_telescopes :
    (a : Counts) (bs : List Counts)
    → AllGrow a bs
    → prompt_total (apply_token_counts (totals_of a) (map totals_of bs)) + a.input
      ≡ (last_of a bs).input
unfolding apply_token_counts AllGrow token_count_record
prompt_telescopes a [] h = omega arith
prompt_telescopes a (b ∷ bs) (g, h) =
    let rest = prompt_telescopes b bs h in
    let also_step =
      prompt_total-also (turn_tokens (delta (totals_of a) (totals_of b)))
        (apply_token_counts (totals_of b) (map totals_of bs)) in
    let now : pos_part (prompt_of (turn_tokens (delta (totals_of a) (totals_of b))))
        ≡ b.input - a.input =
      ap pos_part (turn_step a b g) in
    omega (arith, rest, also_step, now, g.input)

below_whole : (n w : ℤ) → subset n (non_neg w) ≤ℤ non_neg w
unfolding subset non_neg
below_whole n w = ground arith

-- A record's reasoning tokens are a part of its output, and its cache reads of what the input gained.
pub turn_tokens-nested :
    (d : Totals) (t : Tokens)
    → turn_tokens d ≡ some t
    → (t.reasoning ≤ℤ t.output)
      × (t.cache_read ≤ℤ non_neg d.input)
      × (pos 0 ≤ℤ t.cache_read)
      × (pos 0 ≤ℤ t.reasoning)
unfolding turn_tokens
turn_tokens-nested d t h =
    elim (Bool-cases
      (leb_ℤ d.input (pos 0) && (leb_ℤ d.output (pos 0) && leb_ℤ d.cached (pos 0)))) [
        | inl e ↦ absurd (none≢some (rw e at h))
        | inr e ↦ rw (← some_injective (rw e at h)) (
          (below_whole d.reasoning d.output),
          (below_whole d.cached d.input),
          (subset-bounds d.cached (non_neg d.input)).0,
          (subset-bounds d.reasoning (non_neg d.output)).0,
        )
      ]
