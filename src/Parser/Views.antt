-- ===== src/Parser/Views.antt =====
-- What a map to positions says of a list: the value at a key of internal/parser's maps.
use assaio.Prelude.{
  ℕ, ◌≡◌, refl, ap, ◌∙◌, sym, String, Bool, true, false, Bool-cases, Option-cases, inl, inr, List,
  [], ◌∷◌, ◌++◌, Option, none, some, some_injective, length, get_elem?, update_at, str_eq, eq_iff,
  eq_refl, if◌then◌else◌,
}
use assaio.Parser.Tools.{lookup}
use assaio.Parser.Indexed.{
  IsIndexed, get-update_own, get-update_other, get-append_old, get-append_last,
}

module _ {ℓ κ} {A : Type ℓ} {B : Type κ} (g : A → B) where
  abbrev pub value_of : Option A → Option B
  value_of none = none
  value_of (some x) = some (g x)

  abbrev pub value_at : Option ℕ → List A → Option B
  value_at none xs = none
  value_at (some i) xs = value_of (get_elem? xs i)

  -- The value of the element that a key stands for.
  abbrev pub view : List (String × ℕ) → List A → String → Option B
  view m xs k = value_at (lookup k m) xs

  value-update :
      (f : A → A) (i j : ℕ) (xs : List A)
      → ((x : A) → g (f x) ≡ g x)
      → value_of (get_elem? (update_at f i xs) j) ≡ value_of (get_elem? xs j)
  value-update f i j [] h = refl
  value-update f ℕ.zero ℕ.zero (x ∷ xs) h = ap some (h x)
  value-update f ℕ.zero (ℕ.suc j) (x ∷ xs) h = refl
  value-update f (ℕ.suc i) ℕ.zero (x ∷ xs) h = refl
  value-update f (ℕ.suc i) (ℕ.suc j) (x ∷ xs) h = value-update f i j xs h

  pub view-update :
      (f : A → A) (i : ℕ) (m : List (String × ℕ)) (xs : List A) (k : String)
      → ((x : A) → g (f x) ≡ g x)
      → view m (update_at f i xs) k ≡ view m xs k
  view-update f i m xs k h = elim (Option-cases (lookup k m)) [
    | inl e ↦ rw e refl
    | inr (j, e) ↦ rw e (value-update f i j xs h)
  ]

  module _ (key : A → String) (p : A → Bool) (m : List (String × ℕ)) (xs : List A) where
    pub view-append :
        (ys : List A) (k : String) → IsIndexed key p m xs → view m (xs ++ ys) k ≡ view m xs k
    view-append ys k h = elim (Option-cases (lookup k m)) [
      | inl e ↦ rw e refl
      | inr (i, e) ↦
          let (x, (at, w)) = h.found k i e in rw (e, at, get-append_old xs ys i x at) refl
    ]

    pub view-new :
        (x : A) (k : String)
        → IsIndexed key p m xs
        → view ((key x, length xs) ∷ m) (xs ++ (x ∷ [])) k
          ≡ (if str_eq (key x) k then some (g x) else view m xs k)
    unfolding lookup
    view-new x k h = elim (Bool-cases (str_eq (key x) k)) [
      | inl e ↦ rw (e, get-append_last xs x) refl
      | inr e ↦ rw e (view-append (x ∷ []) k h)
    ]

    pub view-set :
        (f : A → A) (i : ℕ) (x : A) (own k : String)
        → IsIndexed key p m xs
        → lookup own m ≡ some i
        → get_elem? xs i ≡ some x
        → view m (update_at f i xs) k ≡ (if str_eq own k then some (g (f x)) else view m xs k)
    view-set f i x own k h e at = elim (Bool-cases (str_eq own k)) [
      | inl s ↦
          let same : lookup k m ≡ some i = ap (λ z. lookup z m) (sym ((eq_iff own k).0 s)) ∙ e in
          rw (s, same, get-update_own f i xs x at) refl
      | inr s ↦ elim (Option-cases (lookup k m)) [
        | inl q ↦ rw (s, q) refl
        | inr (j, q) ↦
            let (y, (there, (w, n))) = h.found k j q in
            let (z, (here, (v, o))) = h.found own i e in
            let apart : i ≡ j → ⊥ = λ c.
              let one : some z ≡ some y = sym here ∙ ap (λ n. get_elem? xs n) c ∙ there in
              false≢true (
                sym s
                ∙ ap (λ t. str_eq own t) (sym n ∙ ap key (sym (some_injective one)) ∙ o)
                ∙ eq_refl own) in
            rw (s, q, get-update_other f i j xs apart) refl
      ]
    ]
      where
        false≢true : false ≡ true → ⊥
        false≢true e = cc
