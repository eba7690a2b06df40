-- ===== src/Prelude/Sort.antt =====
-- `sort.Slice` and `slices.SortFunc`: an insertion sort by the caller's order.
use mathlib.Core.Bool.{Bool, ◌||◌}
use mathlib.Core.List.{List, [], ◌∷◌, Perm}
use mathlib.Core.List.Perm
use mathlib.Core.Logic.{inl, inr}
use assaio.Prelude.Tests.{if◌then◌else◌, Bool-cases}
use mathlib.Core.Path.{◌≡◌, refl, ap, ◌∙◌}
use native.Mathlib.Omega.{arith}
use Prim.Native.Nat.{suc}
use assaio.Prelude.Lists.{All, any_of, length}

module _ {ℓ} {A : Type ℓ} (less : A → A → Bool) where
  unfoldable pub insert_by : A → List A → List A
  insert_by x [] = x ∷ []
  insert_by x (y ∷ ys) = if less y x then y ∷ insert_by x ys else x ∷ y ∷ ys

  unfoldable pub sort_by : List A → List A
  unfolding insert_by
  sort_by [] = []
  sort_by (x ∷ xs) = insert_by x (sort_by xs)

  insert_by-perm : (x : A) (ys : List A) → Perm (insert_by x ys) (x ∷ ys)
  unfolding insert_by
  insert_by-perm x [] = Perm.refl (x ∷ [])
  insert_by-perm x (y ∷ ys) = elim (Bool-cases (less y x)) [
    | inl e ↦ rw e (Perm.trans (Perm.cons y (insert_by-perm x ys)) (Perm.swap x y ys))
    | inr e ↦ rw e (Perm.refl (x ∷ y ∷ ys))
  ]

  length-insert_by : (x : A) (ys : List A) → length (insert_by x ys) ≡ suc (length ys)
  unfolding insert_by
  length-insert_by x [] = refl
  length-insert_by x (y ∷ ys) = elim (Bool-cases (less y x)) [
    | inl e ↦ rw e (ap suc (length-insert_by x ys))
    | inr e ↦ rw e refl
  ]

  pub length-sort_by : (xs : List A) → length (sort_by xs) ≡ length xs
  unfolding sort_by
  length-sort_by [] = refl
  length-sort_by (x ∷ xs) = length-insert_by x (sort_by xs) ∙ ap suc (length-sort_by xs)

  -- Sorting only reorders.
  pub sort_by-perm : (xs : List A) → Perm (sort_by xs) xs
  unfolding sort_by
  sort_by-perm [] = Perm.refl []
  sort_by-perm (x ∷ xs) = Perm.trans (insert_by-perm x (sort_by xs)) (Perm.cons x (sort_by-perm xs))

module _ {ℓ κ} {A : Type ℓ} (less : A → A → Bool) (P : A → Type κ) where
  pub insert_by-All : (x : A) (ys : List A) → P x → All P ys → All P (insert_by less x ys)
  unfolding insert_by
  insert_by-All x [] h hs = (h, tt)
  insert_by-All x (y ∷ ys) h hs = elim (Bool-cases (less y x)) [
    | inl e ↦ rw e (hs.0, insert_by-All x ys h hs.1)
    | inr e ↦ rw e (h, hs)
  ]

  pub sort_by-All : (xs : List A) → All P xs → All P (sort_by less xs)
  unfolding sort_by
  sort_by-All [] h = tt
  sort_by-All (x ∷ xs) h = insert_by-All x (sort_by less xs) h.0 (sort_by-All xs h.1)

  All-of_insert_by : (x : A) (ys : List A) → All P (insert_by less x ys) → P x × All P ys
  unfolding insert_by
  All-of_insert_by x [] h = h
  All-of_insert_by x (y ∷ ys) h = elim (Bool-cases (less y x)) [
    | inl e ↦
        let h' : All P (y ∷ insert_by less x ys) = rw e at h in
        let (hx, hs) = All-of_insert_by x ys h'.1 in (hx, (h'.0, hs))
    | inr e ↦ let h' : All P (x ∷ y ∷ ys) = rw e at h in h'
  ]

  pub All-of_sort_by : (xs : List A) → All P (sort_by less xs) → All P xs
  unfolding sort_by
  All-of_sort_by [] h = tt
  All-of_sort_by (x ∷ xs) h =
      let (hx, hs) = All-of_insert_by x (sort_by less xs) h in (hx, All-of_sort_by xs hs)

module _ {ℓ} {A : Type ℓ} (less : A → A → Bool) (p : A → Bool) where
  any_of-insert_by : (x : A) (ys : List A) → any_of p (insert_by less x ys) ≡ (p x || any_of p ys)
  unfolding insert_by
  any_of-insert_by x [] = refl
  any_of-insert_by x (y ∷ ys) = ground (arith, any_of-insert_by x ys)

  pub any_of-sort_by : (xs : List A) → any_of p (sort_by less xs) ≡ any_of p xs
  unfolding sort_by
  any_of-sort_by [] = refl
  any_of-sort_by (x ∷ xs) =
      any_of-insert_by x (sort_by less xs) ∙ ap (λ b. p x || b) (any_of-sort_by xs)
