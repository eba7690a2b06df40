-- ===== src/Parser/Purposes.antt =====
-- The tool-call total of a usage.Record and its split by purpose, in int64 arithmetic.
use assaio.Prelude.{ℕ, ◌+◌, ◌≡◌, ap, ◌∙◌}
use assaio.Prelude.Int.{ℤ, pos, ◌+ℤ◌, wrap64}
use assaio.Prelude.Wrap.{◌≈◌, wrapped_is, add_congr, add_interchange, pos_add}
use assaio.Usage.{Activity, Record}
use assaio.Parser.Tools.{plus}

-- The purposes of a record's tool calls, summed.
abbrev pub by_purpose : Activity → ℤ
by_purpose a = a.reads +ℤ (a.searches +ℤ (a.commands +ℤ (a.writes +ℤ a.other)))

-- The tool-call total is the int64 sum of the purposes.
abbrev pub IsSplit : Record → Type 0
IsSplit r = r.activity.tool_calls ≈ by_purpose r.activity

pub plus_is : (x : ℤ) (n : ℕ) → plus x n ≈ (x +ℤ pos n)
unfolding plus
plus_is x n = wrapped_is (x +ℤ pos n)

abbrev pub five : (a b c d e : ℕ) → ℤ
five a b c d e = pos a +ℤ (pos b +ℤ (pos c +ℤ (pos d +ℤ pos e)))

pub five_pos : (a b c d e : ℕ) → five a b c d e ≡ pos (a + (b + (c + (d + e))))
five_pos a b c d e = rw (pos_add d e, pos_add c (d + e), pos_add b (c + (d + e))) (pos_add a _)

-- Counters advanced by their shares sum to the sum advanced.
pub advanced :
    (x y z u v : ℤ) (a b c d e : ℕ)
    → (plus x a +ℤ (plus y b +ℤ (plus z c +ℤ (plus u d +ℤ plus v e))))
      ≈ ((x +ℤ (y +ℤ (z +ℤ (u +ℤ v)))) +ℤ five a b c d e)
advanced x y z u v a b c d e =
    add_congr _ _ _ _ (plus_is x a) (
      add_congr _ _ _ _ (plus_is y b)
        (add_congr _ _ _ _ (plus_is z c) (add_congr _ _ _ _ (plus_is u d) (plus_is v e))))
    ∙ ap wrap64 (
        ap (λ t. (x +ℤ pos a) +ℤ ((y +ℤ pos b) +ℤ ((z +ℤ pos c) +ℤ t)))
          (add_interchange u (pos d) v (pos e))
        ∙ ap (λ t. (x +ℤ pos a) +ℤ ((y +ℤ pos b) +ℤ t)) (add_interchange z (pos c) _ _)
        ∙ ap (λ t. (x +ℤ pos a) +ℤ t) (add_interchange y (pos b) _ _)
        ∙ add_interchange x (pos a) _ _)
