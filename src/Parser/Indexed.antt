-- ===== src/Parser/Indexed.antt =====
-- Maps from a key to a position in a list, as the parsers of internal/parser keep them beside what
-- they append to and change in place.
use assaio.Prelude.{
  ℕ, zero, suc, ◌≡◌, ◌⊎◌, refl, ap, ◌∙◌, sym, String, Bool, true, false, Bool-cases, inl, inr, List,
  [], ◌∷◌, ◌++◌, none, some, some_injective, none≢some, length, get_elem?, update_at, str_eq,
  eq_iff, eq_refl, arith,
}
use assaio.Parser.Tools.{lookup}

module _ {ℓ} {A : Type ℓ} where
  pub get-update_own :
      (f : A → A) (i : ℕ) (xs : List A) (x : A)
      → get_elem? xs i ≡ some x
      → get_elem? (update_at f i xs) i ≡ some (f x)
  get-update_own f i [] x h = absurd (none≢some h)
  get-update_own f zero (y ∷ ys) x h = ap (λ z. some (f z)) (some_injective h)
  get-update_own f (suc i) (y ∷ ys) x h = get-update_own f i ys x h

  pub get-update_other :
      (f : A → A) (i j : ℕ) (xs : List A)
      → (i ≡ j → ⊥)
      → get_elem? (update_at f i xs) j ≡ get_elem? xs j
  get-update_other f i j [] h = refl
  get-update_other f zero zero (x ∷ xs) h = absurd (h refl)
  get-update_other f zero (suc j) (x ∷ xs) h = refl
  get-update_other f (suc i) zero (x ∷ xs) h = refl
  get-update_other f (suc i) (suc j) (x ∷ xs) h = get-update_other f i j xs (λ e. h (ap suc e))

  pub get-append_old :
      (xs ys : List A) (i : ℕ) (x : A) → get_elem? xs i ≡ some x → get_elem? (xs ++ ys) i ≡ some x
  get-append_old [] ys i x h = absurd (none≢some h)
  get-append_old (z ∷ xs) ys zero x h = h
  get-append_old (z ∷ xs) ys (suc i) x h = get-append_old xs ys i x h

  pub get-append_last : (xs : List A) (x : A) → get_elem? (xs ++ (x ∷ [])) (length xs) ≡ some x
  get-append_last [] x = refl
  get-append_last (z ∷ xs) x = get-append_last xs x

  get-append_cases :
      (xs : List A) (x : A) (i : ℕ) (y : A)
      → get_elem? (xs ++ (x ∷ [])) i ≡ some y
      → (get_elem? xs i ≡ some y) ⊎ ((i ≡ length xs) × (x ≡ y))
  get-append_cases [] x zero y h = inr (refl, some_injective h)
  get-append_cases [] x (suc i) y h = absurd (none≢some h)
  get-append_cases (z ∷ xs) x zero y h = inl h
  get-append_cases (z ∷ xs) x (suc i) y h = elim (get-append_cases xs x i y h) [
    | inl e ↦ inl e
    | inr (e, q) ↦ inr (ap suc e, q)
  ]

  pub get-update_cases :
      (f : A → A) (i j : ℕ) (xs : List A) (y : A)
      → get_elem? (update_at f i xs) j ≡ some y
      → (get_elem? xs j ≡ some y) ⊎ ((x : A) × ((get_elem? xs j ≡ some x) × (y ≡ f x)))
  get-update_cases f i j [] y h = absurd (none≢some h)
  get-update_cases f zero zero (x ∷ xs) y h = inr (x, (refl, sym (some_injective h)))
  get-update_cases f zero (suc j) (x ∷ xs) y h = inl h
  get-update_cases f (suc i) zero (x ∷ xs) y h = inl h
  get-update_cases f (suc i) (suc j) (x ∷ xs) y h = get-update_cases f i j xs y h

module _ {ℓ} {A : Type ℓ} (key : A → String) (p : A → Bool) where
  -- The map holds the position of each element that passes the test, at its key, and no other.
  pub record IsIndexed (m : List (String × ℕ)) (xs : List A) : Type ℓ where
    pub found :
        (k : String) (i : ℕ)
        → lookup k m ≡ some i
        → (x : A) × ((get_elem? xs i ≡ some x) × ((p x ≡ true) × (key x ≡ k)))
    pub listed : (i : ℕ) (x : A) → get_elem? xs i ≡ some x → p x ≡ true → lookup (key x) m ≡ some i

  pub IsIndexed-nil : IsIndexed [] []
  unfolding lookup
  IsIndexed-nil = record {
    found = λ k i h. absurd (none≢some h);
    listed = λ i x h q. absurd (none≢some h);
  }

  -- Two elements with one key are one.
  pub indexed_own :
      (m : List (String × ℕ)) (xs : List A) (i j : ℕ) (x y : A)
      → IsIndexed m xs
      → get_elem? xs i ≡ some x
      → get_elem? xs j ≡ some y
      → p x ≡ true
      → p y ≡ true
      → key x ≡ key y
      → i ≡ j
  indexed_own m xs i j x y h a b q r e =
      some_injective (sym (h.listed i x a q) ∙ ap (λ k. lookup k m) e ∙ h.listed j y b r)

  pub IsIndexed-update :
      (f : A → A) (i : ℕ) (m : List (String × ℕ)) (xs : List A)
      → ((x : A) → key (f x) ≡ key x)
      → ((x : A) → p (f x) ≡ p x)
      → IsIndexed m xs
      → IsIndexed m (update_at f i xs)
  IsIndexed-update f i m xs ek ep h = record {
    found = λ k j e.
        let (x, (g, (q, w))) = h.found k j e in
        elim (decide i j) [
          | inl s ↦
              let here : get_elem? xs i ≡ some x = ap (λ n. get_elem? xs n) s ∙ g in
              (
                f x,
                (
                  ap (λ n. get_elem? (update_at f i xs) n) (sym s) ∙ get-update_own f i xs x here,
                  (ep x ∙ q, ek x ∙ w),
                ),
              )
          | inr s ↦ (x, (get-update_other f i j xs s ∙ g, (q, w)))
        ];
    listed = λ j y g q. elim (get-update_cases f i j xs y g) [
      | inl e ↦ h.listed j y e q
      | inr (x, (e, s)) ↦
          ap (λ z. lookup (key z) m) s
          ∙ ap (λ k. lookup k m) (ek x)
          ∙ h.listed j x e (sym (ep x) ∙ ap p (sym s) ∙ q)
    ];
  }
    where
      decide : (a b : ℕ) → (a ≡ b) ⊎ (a ≡ b → ⊥)
      decide a b = ground arith

  pub IsIndexed-append :
      (x : A) (m : List (String × ℕ)) (xs : List A)
      → p x ≡ false
      → IsIndexed m xs
      → IsIndexed m (xs ++ (x ∷ []))
  IsIndexed-append x m xs q h = record {
    found = λ k i e. let (y, (g, w)) = h.found k i e in (y, (get-append_old xs (x ∷ []) i y g, w));
    listed = λ i y g r. elim (get-append_cases xs x i y g) [
      | inl e ↦ h.listed i y e r
      | inr (e, s) ↦ absurd (true≢false (sym r ∙ ap p (sym s) ∙ q))
    ];
  }
    where
      true≢false : true ≡ false → ⊥
      true≢false e = cc

  pub IsIndexed-new :
      (x : A) (m : List (String × ℕ)) (xs : List A)
      → p x ≡ true
      → lookup (key x) m ≡ none
      → IsIndexed m xs
      → IsIndexed ((key x, length xs) ∷ m) (xs ++ (x ∷ []))
  unfolding lookup
  IsIndexed-new x m xs q fresh h = record {
    found = λ k i e. elim (Bool-cases (str_eq (key x) k)) [
      | inl s ↦
          let at : length xs ≡ i = some_injective (rw s at e) in
          (
            x,
            (
              ap (λ n. get_elem? (xs ++ (x ∷ [])) n) (sym at) ∙ get-append_last xs x,
              (q, (eq_iff (key x) k).0 s),
            ),
          )
      | inr s ↦
          let (y, (g, w)) = h.found k i (rw s at e) in (y, (get-append_old xs (x ∷ []) i y g, w))
    ];
    listed = λ i y g r. elim (get-append_cases xs x i y g) [
      | inl e ↦
          let old = h.listed i y e r in
          elim (Bool-cases (str_eq (key x) (key y))) [
            | inl s ↦
                absurd (
                  none≢some (sym fresh ∙ ap (λ k. lookup k m) ((eq_iff (key x) (key y)).0 s) ∙ old))
            | inr s ↦ rw s old
          ]
      | inr (e, s) ↦
          let same : str_eq (key x) (key y) ≡ true =
            ap (λ z. str_eq (key x) (key z)) (sym s) ∙ eq_refl (key x) in
          rw same (ap some (sym e))
    ];
  }
