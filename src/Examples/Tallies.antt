-- ===== src/Examples/Tallies.antt =====
-- internal/parser and internal/survival: the theorems at a few counts.
use assaio.Prelude.{ℕ, ◌+◌, ◌<◌, ◌^◌, ◌≡◌, refl, true, false, some, [], ◌∷◌, map, All, arith}
use assaio.Prelude.Int.{◌-ℤ◌, wrap64, pos, negsuc, pos_part, ◌≤ℤ◌}
use assaio.Usage.{Tokens}
use assaio.Parser.{subset, Totals, turn_tokens, apply_token_counts, non_neg}
use assaio.Parser.Deltas.{
  Counts, AllGrow, totals_of, prompt_total, prompt_telescopes, turn_tokens-nested,
}
use assaio.Survival.{is_merge_in, InWindow, BlameTally, surviving_lines}
use assaio.Survival.Window.{surviving_lines-tagged}

counts-small : All (λ n. pos_part n < 2 ^ 63) (pos 3 ∷ negsuc 4 ∷ pos 9 ∷ [])
counts-small = (omega arith, (omega arith, (omega arith, tt)))

abbrev counts : ℕ → ℕ → Counts
counts input cached = record { input = input; cached = cached; output = 5; reasoning = 1 }

counts-AllGrow : AllGrow (counts 0 0) (counts 100 20 ∷ counts 130 70 ∷ [])
unfolding AllGrow
counts-AllGrow = (
  record {
    input = omega arith;
    cached = omega arith;
    output = omega arith;
    bound_input = omega arith;
    bound_cached = omega arith;
    bound_output = omega arith;
  },
  (
    record {
      input = omega arith;
      cached = omega arith;
      output = omega arith;
      bound_input = omega arith;
      bound_cached = omega arith;
      bound_output = omega arith;
    },
    tt,
  ),
)

prompt_telescopes_example :
    prompt_total (
        apply_token_counts
          (totals_of (counts 0 0))
          (map totals_of (counts 100 20 ∷ counts 130 70 ∷ [])))
      + 0
    ≡ 130
prompt_telescopes_example =
    prompt_telescopes (counts 0 0) (counts 100 20 ∷ counts 130 70 ∷ []) counts-AllGrow

abbrev turn : Totals
turn = record { input = pos 30; cached = pos 50; output = pos 4; reasoning = pos 9 }

abbrev turn_record : Tokens
turn_record = record {
  input = pos 0;
  output = pos 4;
  cache_read = pos 30;
  cache_write = pos 0;
  reasoning = pos 4;
  cache_write_1h = pos 0;
}

turn-read : turn_tokens turn ≡ some turn_record
unfolding turn_tokens wrap64 non_neg subset ◌-ℤ◌
turn-read = refl

turn_tokens-nested_example :
    (pos 4 ≤ℤ pos 4) × (pos 30 ≤ℤ non_neg (pos 30)) × (pos 0 ≤ℤ pos 30) × (pos 0 ≤ℤ pos 4)
turn_tokens-nested_example = turn_tokens-nested turn turn_record turn-read

abbrev window : InWindow
window = ("c1", false) ∷ ("m1", true) ∷ []

abbrev no_lines : BlameTally
no_lines = record { surviving = 0; merged = 0; files = 0; unreadable = 0 }

surviving_lines-tagged_example :
    let t : BlameTally =
      surviving_lines window (λ f. some ("c1" ∷ "m1" ∷ "old" ∷ [])) ("a.go" ∷ []) no_lines in
    (t.surviving ≡ 0 + 1) × (t.merged ≡ 0 + 1) × (t.files + t.unreadable ≡ 0 + 0 + 1)
unfolding is_merge_in
surviving_lines-tagged_example =
    surviving_lines-tagged window (λ f. some ("c1" ∷ "m1" ∷ "old" ∷ [])) ("a.go" ∷ []) no_lines
