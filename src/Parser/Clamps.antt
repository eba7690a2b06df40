-- ===== src/Parser/Clamps.antt =====
-- What the clamps of internal/parser/scan.go promise.
use assaio.Prelude.{
  ℕ, ◌+◌, ◌-◌, ◌^◌, ◌<◌, ◌≡◌, ◌∙◌, ap, Bool-cases, inl, inr, List, [], ◌∷◌, ltb, All, arith,
  if◌then◌else◌,
}
use assaio.Prelude.Int.{ℤ, pos, negsuc, pos_part, ◌≤ℤ◌, ◌+ℤ◌, ◌-ℤ◌, wrap64, wrap64_in_range}
use assaio.Parser.{non_neg, subset, max_int64, sum_from, sum_non_neg}

-- A part that a log reports of a whole lies between zero and the whole, the whole clamped too.
pub subset-bounds : (n total : ℤ) → (pos 0 ≤ℤ subset n total) × (subset n total ≤ℤ non_neg total)
unfolding subset non_neg
subset-bounds n total = (ground arith, ground arith)

non_neg-pos : (n : ℤ) → non_neg n ≡ pos (pos_part n)
unfolding non_neg
non_neg-pos (pos k) = ground arith
non_neg-pos (negsuc k) = ground arith

-- The sum of some counts, those below zero left out.
abbrev pub exact_sum : List ℤ → ℕ
exact_sum [] = 0
exact_sum (n ∷ ns) = pos_part n + exact_sum ns

-- What stays below the largest int64, and that one otherwise.
abbrev pub saturated : ℕ → ℤ
saturated n = if ltb (2 ^ 63 - 1) n then max_int64 else pos n

room : (k : ℕ) → k < 2 ^ 63 → wrap64 (max_int64 -ℤ pos k) ≡ pos (2 ^ 63 - 1 - k)
unfolding ◌-ℤ◌
room k h = ground (arith, wrap64_in_range (2 ^ 63 - 1 - k))

added : (t k : ℕ) → t + k < 2 ^ 63 → wrap64 (pos t +ℤ pos k) ≡ pos (t + k)
unfolding ◌+ℤ◌
added t k h = ground (arith, wrap64_in_range (t + k))

sum_from-saturated :
    (ns : List ℤ) (t : ℕ)
    → t < 2 ^ 63
    → All (λ n. pos_part n < 2 ^ 63) ns
    → sum_from (pos t) ns ≡ saturated (t + exact_sum ns)
unfolding sum_from
sum_from-saturated [] t h a = ground arith
sum_from-saturated (n ∷ ns) t h (k, a) =
    rw (non_neg-pos n, room (pos_part n) k)
      (elim (Bool-cases (ltb (2 ^ 63 - 1 - pos_part n) t)) [
        | inl e ↦ ground arith
        | inr e ↦
            let fits : t + pos_part n < 2 ^ 63 = ground arith in
            rw (added t (pos_part n) fits, sum_from-saturated ns (t + pos_part n) fits a)
              (ground arith)
      ])

-- SumNonNeg of int64 counts is their sum, those below zero left out, and never wraps: past the
-- largest int64 it stays there.
pub sum_non_neg-saturated :
    (ns : List ℤ) → All (λ n. pos_part n < 2 ^ 63) ns → sum_non_neg ns ≡ saturated (exact_sum ns)
unfolding sum_non_neg
sum_non_neg-saturated ns a = sum_from-saturated ns 0 (ground arith) a ∙ ap saturated (omega arith)
