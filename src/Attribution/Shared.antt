-- ===== src/Attribution/Shared.antt =====
-- When a result is placed in one pull request.
use assaio.Prelude.{
  ◌≡◌, ◌≢◌, ap, ◌∙◌, sym, inl, inr, Bool, true, false, refl, ◌||◌, ◌++◌, any_of, any_of-append,
  ◌&&◌, Option, none, some, List, [], ◌∷◌, all_of, filter_if, arith, Bool-cases, some_injective,
  none≢some, Option-cases,
}
use assaio.Prelude.Int.{ℤ, pos, eq_ℤ, eq_ℤ→eq}
use assaio.Attribution.{Candidate, ChangeLink}
use assaio.Attribution.Changes.{
  contains, numbers_from, change_numbers, narrow, first_round, shared_from, the_one, one_change,
}

abbrev pub named_in : ℤ → Option (List ChangeLink) → Bool
named_in n none = false
named_in n (some links) = any_of (λ l. eq_ℤ l.number n) links

-- Whether one of a candidate's links is to the pull request with the number.
abbrev pub held_by : ℤ → Candidate → Bool
held_by n c = named_in n c.changes

abbrev listed_by : ℤ → Candidate → Bool
listed_by n c = contains (change_numbers c.changes) n

and_true : (a : Bool) → a ≡ (a && true)
and_true a = ground arith

and_swap : (a b c : Bool) → ((a && b) && c) ≡ (b && (a && c))
and_swap a b c = ground arith

contains_same : (ns : List ℤ) (a b : ℤ) → eq_ℤ a b ≡ true → contains ns a ≡ contains ns b
contains_same ns a b h = ap (contains ns) (eq_ℤ→eq a b h)

numbers_from-contains :
    (out : List ℤ) (ls : List ChangeLink) (n : ℤ)
    → contains (numbers_from out ls) n ≡ (contains out n || any_of (λ l. eq_ℤ l.number n) ls)
unfolding numbers_from
numbers_from-contains out [] n = ground arith
numbers_from-contains out (l ∷ ls) n = elim (Bool-cases (contains out l.number)) [
  | inl e ↦ rw e (
      numbers_from-contains out ls n
      ∙ known (eq_ℤ l.number n) (λ q. sym (contains_same out l.number n q) ∙ e))
  | inr e ↦ rw e (
      numbers_from-contains (out ++ (l.number ∷ [])) ls n
      ∙ added (any_of-append (λ m. eq_ℤ m n) out (l.number ∷ [])))
]
  where
    known :
        (b : Bool)
        → (b ≡ true → contains out n ≡ true)
        → (contains out n || any_of (λ x. eq_ℤ x.number n) ls)
          ≡ (contains out n || (b || any_of (λ x. eq_ℤ x.number n) ls))
    known true h = rw (h refl) refl
    known false h = refl

    added :
        contains (out ++ (l.number ∷ [])) n ≡ (contains out n || (eq_ℤ l.number n || false))
        → (contains (out ++ (l.number ∷ [])) n || any_of (λ x. eq_ℤ x.number n) ls)
          ≡ (contains out n || (eq_ℤ l.number n || any_of (λ x. eq_ℤ x.number n) ls))
    added h = ground (arith, h)

change_numbers-contains :
    (o : Option (List ChangeLink)) (n : ℤ) → contains (change_numbers o) n ≡ named_in n o
unfolding change_numbers
change_numbers-contains none n = refl
change_numbers-contains (some links) n = numbers_from-contains [] links n

all_listed : (n : ℤ) (cs : List Candidate) → all_of (listed_by n) cs ≡ all_of (held_by n) cs
all_listed n [] = refl
all_listed n (c ∷ cs) = cc (change_numbers-contains c.changes n, all_listed n cs)

-- Keeping the numbers that another list holds too.
contains-filter_if :
    (other ns : List ℤ) (n : ℤ)
    → contains (filter_if (contains other) ns) n ≡ (contains other n && contains ns n)
contains-filter_if other [] n = ground arith
contains-filter_if other (m ∷ ns) n = elim (Bool-cases (eq_ℤ m n)) [
  | inl q ↦ ground (arith, contains_same other m n q, contains-filter_if other ns n)
  | inr q ↦ ground (arith, contains-filter_if other ns n)
]

narrow-contains :
    (ns shared kept : List ℤ) (n : ℤ)
    → narrow ns shared ≡ some kept
    → contains kept n ≡ (contains ns n && contains shared n)
unfolding narrow
narrow-contains [] shared kept n h = cc
narrow-contains (m ∷ ns) shared kept n h =
    ap (λ k. contains k n) (sym (some_injective h)) ∙ contains-filter_if (m ∷ ns) shared n

shared_from-contains :
    (shared : List ℤ) (cs : List Candidate) (out : List ℤ) (n : ℤ)
    → shared_from shared cs ≡ some out
    → contains out n ≡ (contains shared n && all_of (listed_by n) cs)
unfolding shared_from
shared_from-contains shared [] out n h =
    ap (λ k. contains k n) (sym (some_injective h)) ∙ and_true (contains shared n)
shared_from-contains shared (c ∷ cs) out n h =
    elim (Option-cases (narrow (change_numbers c.changes) shared)) [
      | inl q ↦ absurd (none≢some (rw (q, shared_from) at h))
      | inr (kept, q) ↦
          shared_from-contains kept cs out n (rw (q, shared_from) at h)
          ∙ ap (λ b. b && all_of (listed_by n) cs)
              (narrow-contains (change_numbers c.changes) shared kept n q)
          ∙ and_swap (contains (change_numbers c.changes) n) (contains shared n)
              (all_of (listed_by n) cs)
    ]

first_round-contains :
    (ns : List ℤ) (cs : List Candidate) (out : List ℤ) (n : ℤ)
    → first_round ns cs ≡ some out
    → contains out n ≡ (contains ns n && all_of (listed_by n) cs)
first_round-contains [] cs out n h = cc
first_round-contains (m ∷ ns) cs out n h = shared_from-contains (m ∷ ns) cs out n h

-- The number that is left, if it is one.
the_one_out : (o : Option (List ℤ)) (n : ℤ) → the_one o ≡ n → n ≢ pos 0 → o ≡ some (n ∷ [])
the_one_out none n h z = absurd (z (sym h))
the_one_out (some []) n h z = absurd (z (sym h))
the_one_out (some (m ∷ [])) n h z = ap (λ k. some (k ∷ [])) h
the_one_out (some (m ∷ k ∷ ms)) n h z = absurd (z (sym h))

contains_single : (n m : ℤ) → contains (n ∷ []) m ≡ true → m ≡ n
contains_single n m h = sym (eq_ℤ→eq n m (ground arith))

contains_self : (n : ℤ) → contains (n ∷ []) n ≡ true
contains_self n = ground arith

-- When a result is placed in a pull request, each of its candidates has a link to it, and it is the
-- only pull request to which all of them have one.
pub one_change_shared :
    (cs : List Candidate) (n : ℤ)
    → one_change cs ≡ n
    → n ≢ pos 0
    → (all_of (held_by n) cs ≡ true) × ((m : ℤ) → all_of (held_by m) cs ≡ true → m ≡ n)
unfolding one_change
one_change_shared [] n h z = absurd (z (sym h))
one_change_shared (c ∷ cs) n h z =
    let left = the_one_out (first_round (change_numbers c.changes) cs) n h z in
    let kept = λ (m : ℤ). first_round-contains (change_numbers c.changes) cs (n ∷ []) m left in
    (
      sym (all_listed n (c ∷ cs)) ∙ sym (kept n) ∙ contains_self n,
      λ m q. contains_single n m (kept m ∙ all_listed m (c ∷ cs) ∙ q),
    )
