-- ===== src/Prelude/Lists.antt =====
-- Lists measured by native numbers, and predicates on lists by recursion.
use Prim.Native.Nat.{ℕ, zero, suc, ◌+◌}
use mathlib.Core.Path.{◌≡◌, refl, ap}
use mathlib.Core.Logic.{inl, inr}
use mathlib.Core.Bool.{Bool, true, false, not, ◌||◌, ◌&&◌}
use mathlib.Core.List.{List, [], ◌∷◌, ◌++◌, map, Memᴰ, cons-ne-nil}
use mathlib.Core.Option.{Option, none, some}
use native.Mathlib.Omega.{arith}
use assaio.Prelude.Tests.{if◌then◌else◌, Bool-cases}

module _ {ℓ} {A : Type ℓ} where
  abbrev pub length : List A → ℕ
  length [] = 0
  length (x ∷ xs) = suc (length xs)

  abbrev pub filter_if : (A → Bool) → List A → List A
  filter_if p [] = []
  filter_if p (x ∷ xs) = if p x then x ∷ filter_if p xs else filter_if p xs

  abbrev pub count_if : (A → Bool) → List A → ℕ
  count_if p [] = 0
  count_if p (x ∷ xs) = (if p x then 1 else 0) + count_if p xs

  abbrev pub any_of : (A → Bool) → List A → Bool
  any_of p [] = false
  any_of p (x ∷ xs) = p x || any_of p xs

  abbrev pub all_of : (A → Bool) → List A → Bool
  all_of p [] = true
  all_of p (x ∷ xs) = p x && all_of p xs

  pub length-append : (xs ys : List A) → length (xs ++ ys) ≡ length xs + length ys
  length-append [] ys = omega arith
  length-append (x ∷ xs) ys = omega (arith, length-append xs ys)

abbrev pub All {ℓ κ} : {A : Type ℓ} → (A → Type κ) → List A → Type κ
All P [] = Unit
All P (x ∷ xs) = P x × All P xs

module _ {ℓ κ} {A : Type ℓ} (P : A → Type κ) where
  pub All-append : (xs ys : List A) → All P xs → All P ys → All P (xs ++ ys)
  All-append [] ys hx hy = hy
  All-append (x ∷ xs) ys hx hy = (hx.0, All-append xs ys hx.1 hy)

  pub All-intro : (xs : List A) → ((x : A) → P x) → All P xs
  All-intro [] f = tt
  All-intro (x ∷ xs) f = (f x, All-intro xs f)

  All-if : (b : Bool) (x : A) (xs : List A) → P x → All P xs → All P (if b then x ∷ xs else xs)
  All-if true x xs h hs = (h, hs)
  All-if false x xs h hs = hs

  pub All-filter_if : (p : A → Bool) (xs : List A) → All P xs → All P (filter_if p xs)
  All-filter_if p [] h = tt
  All-filter_if p (x ∷ xs) h = All-if (p x) x (filter_if p xs) h.0 (All-filter_if p xs h.1)

module _ {ℓ κ} {A : Type ℓ} {P Q : A → Type κ} (f : (x : A) → P x → Q x) where
  pub All-imp : (xs : List A) → All P xs → All Q xs
  All-imp [] h = tt
  All-imp (x ∷ xs) h = (f x h.0, All-imp xs h.1)

module _ {ℓ} {A : Type ℓ} where
  pub mem-filter_if :
      (p : A → Bool) (xs : List A) (a : A) → Memᴰ a xs → p a ≡ true → Memᴰ a (filter_if p xs)
  mem-filter_if p [] a m h = elim m [ ]
  mem-filter_if p (x ∷ xs) a (Memᴰ.head q) h = let k : p x ≡ true = rw (← q) h in rw k (Memᴰ.head q)
  mem-filter_if p (x ∷ xs) a (Memᴰ.tail m) h = elim (Bool-cases (p x)) [
    | inl k ↦ rw k (Memᴰ.tail (mem-filter_if p xs a m h))
    | inr k ↦ rw k (mem-filter_if p xs a m h)
  ]

  -- What is neither kept by a test nor by its negation is not there.
  pub filter_if-nil :
      (p : A → Bool) (xs : List A)
      → filter_if p xs ≡ []
      → filter_if (λ x. not (p x)) xs ≡ []
      → xs ≡ []
  filter_if-nil p [] h k = refl
  filter_if-nil p (x ∷ xs) h k = elim (Bool-cases (p x)) [
    | inl e ↦ absurd (cons-ne-nil _ _ (rw e at h))
    | inr e ↦ absurd (cons-ne-nil _ _ (rw e at k))
  ]

module _ {ℓ} {A : Type ℓ} (p : A → Bool) where
  pub any_of-append : (xs ys : List A) → any_of p (xs ++ ys) ≡ (any_of p xs || any_of p ys)
  any_of-append [] ys = refl
  any_of-append (x ∷ xs) ys = ground (arith, any_of-append xs ys)

  pub any_of-filter_if :
      (q : A → Bool) (xs : List A) → any_of p (filter_if q xs) ≡ any_of (λ x. q x && p x) xs
  any_of-filter_if q [] = refl
  any_of-filter_if q (x ∷ xs) = ground (arith, any_of-filter_if q xs)

  pub any_of-map {κ} :
      {B : Type κ} (f : B → A) (xs : List B) → any_of p (map f xs) ≡ any_of (λ x. p (f x)) xs
  any_of-map f [] = refl
  any_of-map f (x ∷ xs) = ap (λ b. p (f x) || b) (any_of-map f xs)

  pub any_of-congr :
      (q : A → Bool) (xs : List A) → ((x : A) → p x ≡ q x) → any_of p xs ≡ any_of q xs
  any_of-congr q [] h = refl
  any_of-congr q (x ∷ xs) h = cc (h x, any_of-congr q xs h)

abbrev pub get_elem? {ℓ} : {A : Type ℓ} → List A → ℕ → Option A
get_elem? [] n = none
get_elem? (x ∷ xs) zero = some x
get_elem? (x ∷ xs) (suc n) = get_elem? xs n

-- A list with the element at a position changed; the same list out of range.
abbrev pub update_at {ℓ} : {A : Type ℓ} → (A → A) → ℕ → List A → List A
update_at f n [] = []
update_at f zero (x ∷ xs) = f x ∷ xs
update_at f (suc n) (x ∷ xs) = x ∷ update_at f n xs

pub All-update_at {ℓ κ} :
    {A : Type ℓ} (P : A → Type κ) (f : A → A)
    → ((x : A) → P x → P (f x))
    → (n : ℕ) (xs : List A) → All P xs
    → All P (update_at f n xs)
All-update_at P f h n [] a = tt
All-update_at P f h zero (x ∷ xs) a = (h x a.0, a.1)
All-update_at P f h (suc n) (x ∷ xs) a = (a.0, All-update_at P f h n xs a.1)

pub update_at-middle {ℓ} :
    {A : Type ℓ} (f : A → A) (xs : List A) (x : A) (ys : List A)
    → update_at f (length xs) (xs ++ (x ∷ ys)) ≡ xs ++ (f x ∷ ys)
update_at-middle f [] x ys = refl
update_at-middle f (z ∷ xs) x ys = ap (λ zs. z ∷ zs) (update_at-middle f xs x ys)

pub count_if-append {ℓ} :
    {A : Type ℓ} (p : A → Bool) (xs ys : List A)
    → count_if p (xs ++ ys) ≡ count_if p xs + count_if p ys
count_if-append p [] ys = omega arith
count_if-append p (x ∷ xs) ys = omega (arith, count_if-append p xs ys)

pub length-map {ℓ κ} :
    {A : Type ℓ} {B : Type κ} (f : A → B) (xs : List A) → length (map f xs) ≡ length xs
length-map f [] = refl
length-map f (x ∷ xs) = ap suc (length-map f xs)

pub All-at {ℓ κ} : {A : Type ℓ} (P : A → Type κ) (xs : List A) (a : A) → Memᴰ a xs → All P xs → P a
All-at P [] a m h = elim m [ ]
All-at P (x ∷ xs) a (Memᴰ.head q) h = rw q h.0
All-at P (x ∷ xs) a (Memᴰ.tail m) h = All-at P xs a m h.1

-- Every element is one of the list.
pub All-own {ℓ} : {A : Type ℓ} (xs : List A) → All (λ x. Memᴰ x xs) xs
All-own [] = tt
All-own (x ∷ xs) = (Memᴰ.head refl, All-imp (λ a m. Memᴰ.tail m) xs (All-own xs))
