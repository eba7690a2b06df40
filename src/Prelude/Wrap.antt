-- ===== src/Prelude/Wrap.antt =====
-- Sums of Go's int64 counters: arithmetic modulo 2^64 forgets where it was wrapped.
use Prim.Native.Nat.{ℕ, ◌+◌}
use assaio.Prelude.Int.{ℤ, pos, negsuc, ◌+ℤ◌, wrap64}
use native.Mathlib.Omega.{arith}
use mathlib.Core.Path.{◌≡◌, ◌∙◌, ap, sym}

pub wrap64_add : (a b : ℤ) → wrap64 (wrap64 a +ℤ b) ≡ wrap64 (a +ℤ b)
unfolding wrap64 ◌+ℤ◌
wrap64_add (pos m) (pos n) = ground arith
wrap64_add (pos m) (negsuc n) = ground arith
wrap64_add (negsuc m) (pos n) = ground arith
wrap64_add (negsuc m) (negsuc n) = ground arith

pub add_comm : (a b : ℤ) → a +ℤ b ≡ b +ℤ a
unfolding ◌+ℤ◌
add_comm a b = ground arith

pub add_assoc : (a b c : ℤ) → (a +ℤ b) +ℤ c ≡ a +ℤ (b +ℤ c)
unfolding ◌+ℤ◌
add_assoc a b c = ground arith

pub add_zero : (a : ℤ) → a +ℤ pos 0 ≡ a
unfolding ◌+ℤ◌
add_zero a = ground arith

pub pos_add : (m n : ℕ) → pos m +ℤ pos n ≡ pos (m + n)
unfolding ◌+ℤ◌
pos_add m n = ground arith

pub add_interchange : (a b c d : ℤ) → (a +ℤ b) +ℤ (c +ℤ d) ≡ (a +ℤ c) +ℤ (b +ℤ d)
add_interchange a b c d =
    add_assoc a b (c +ℤ d)
    ∙ ap (λ x. a +ℤ x) (sym (add_assoc b c d) ∙ ap (λ x. x +ℤ d) (add_comm b c) ∙ add_assoc c b d)
    ∙ sym (add_assoc a c (b +ℤ d))

-- Equal modulo 2^64.
infix 50 ◌≈◌
abbrev pub ◌≈◌ : ℤ → ℤ → Type 0
a ≈ b = wrap64 a ≡ wrap64 b

pub wrapped_is : (a : ℤ) → wrap64 a ≈ a
wrapped_is a = ap wrap64 (sym (add_zero (wrap64 a))) ∙ wrap64_add a (pos 0) ∙ ap wrap64 (add_zero a)

pub add_congr : (a a' b b' : ℤ) → a ≈ a' → b ≈ b' → (a +ℤ b) ≈ (a' +ℤ b')
add_congr a a' b b' p q =
    sym (wrap64_add a b)
    ∙ ap (λ x. wrap64 (x +ℤ b)) p
    ∙ wrap64_add a' b
    ∙ ap wrap64 (add_comm a' b)
    ∙ sym (wrap64_add b a')
    ∙ ap (λ x. wrap64 (x +ℤ a')) q
    ∙ wrap64_add b' a'
    ∙ ap wrap64 (add_comm b' a')
