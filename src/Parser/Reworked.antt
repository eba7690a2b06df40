-- ===== src/Parser/Reworked.antt =====
-- The rework budget of internal/parser/rework.go over one transcript.
use assaio.Prelude.{
  ℕ, ◌+◌, ◌-◌, ◌≤◌, ◌<◌, ◌^◌, ◌≡◌, refl, ap, ◌∙◌, sym, String, true, false, Bool-cases, inl, inr,
  List, [], ◌∷◌, str_eq, eq_iff, min, arith, if◌then◌else◌,
}
use assaio.Prelude.Int.{pos, pos_part, min_ℤ, ◌+ℤ◌, ◌-ℤ◌, wrap64}
use assaio.Parser.{Unreworked, budget_of, rework}

-- One change of a file: the lines it adds and those it removes.
pub record Change : Type 0 where
  pub file : String
  pub added : ℕ
  pub removed : ℕ

-- The rework that the changes of a transcript are given, summed over one file.
unfoldable pub rework_of : String → List Change → Unreworked → ℕ
rework_of file [] m = 0
rework_of file (c ∷ cs) m =
    let r = rework m c.file (pos c.added) (pos c.removed) in
    (if str_eq c.file file then pos_part r.0 else 0) + rework_of file cs r.1

-- The lines that the changes add to a file.
abbrev pub added_to : String → List Change → ℕ
added_to file [] = 0
added_to file (c ∷ cs) = (if str_eq c.file file then c.added else 0) + added_to file cs

-- The lines that the changes add, whatever the file.
abbrev pub added_all : List Change → ℕ
added_all [] = 0
added_all (c ∷ cs) = c.added + added_all cs

abbrev pub Holds : Unreworked → ℕ → Type 0
Holds m total = (f : String) → (n : ℕ) × ((budget_of f m ≡ pos n) × (n ≤ total))

min_pos : (a b : ℕ) → min_ℤ (pos a) (pos b) ≡ pos (min a b)
min_pos a b = ground arith

budget_step :
    (n added removed : ℕ)
    → n + added < 2 ^ 63
    → wrap64 (pos n +ℤ wrap64 (pos added -ℤ pos (min removed n))) ≡ pos (n + added - min removed n)
unfolding ◌+ℤ◌ ◌-ℤ◌ wrap64
budget_step n added removed h = ground arith

-- The map after one call, at the file of the call and at another.
after_own :
    (m : Unreworked) (file f : String) (n a r : ℕ)
    → str_eq file f ≡ true
    → budget_of file m ≡ pos n
    → n + a < 2 ^ 63
    → budget_of f (rework m file (pos a) (pos r)).1 ≡ pos (n + a - min r n)
unfolding rework budget_of
after_own m file f n a r e h k = rw e (rw (h, min_pos r n) (budget_step n a r k))

after_other :
    (m : Unreworked) (file f : String) (n a r : ℕ)
    → str_eq file f ≡ false
    → budget_of f m ≡ pos n
    → budget_of f (rework m file (pos a) (pos r)).1 ≡ pos n
unfolding rework budget_of
after_other m file f n a r e h = rw e h

rework-Holds :
    (m : Unreworked) (total : ℕ) (c : Change)
    → total + c.added < 2 ^ 63
    → Holds m total
    → Holds (rework m c.file (pos c.added) (pos c.removed)).1 (total + c.added)
rework-Holds m total c k h f = elim (Bool-cases (str_eq c.file f)) [
  | inl e ↦
      let (n, (b, q)) = h c.file in
      let fits : n + c.added < 2 ^ 63 = omega (arith, k, q) in
      (
        n + c.added - min c.removed n,
        (after_own m c.file f n c.added c.removed e b fits, ground (arith, q)),
      )
  | inr e ↦
      let (n, (b, q)) = h f in
      (n, (after_other m c.file f n c.added c.removed e b, omega (arith, q)))
]

rework_own :
    (m : Unreworked) (file : String) (n a r : ℕ)
    → budget_of file m ≡ pos n
    → pos_part (rework m file (pos a) (pos r)).0 ≡ min r n
unfolding rework
rework_own m file n a r h = rw (h, min_pos r n) refl

rework_within :
    (f : String) (cs : List Change) (m : Unreworked) (total n : ℕ)
    → Holds m total
    → total + added_all cs < 2 ^ 63
    → budget_of f m ≡ pos n
    → rework_of f cs m ≤ n + added_to f cs
unfolding rework_of
rework_within f [] m total n h k b = omega arith
rework_within f (c ∷ cs) m total n h k b =
    let once : total + c.added < 2 ^ 63 = omega (arith, k) in
    let rest : total + c.added + added_all cs < 2 ^ 63 = omega (arith, k) in
    let held = rework-Holds m total c once h in
    elim (Bool-cases (str_eq c.file f)) [
      | inl e ↦
          let own : budget_of c.file m ≡ pos n =
            ap (λ g. budget_of g m) ((eq_iff c.file f).0 e) ∙ b in
          let (o, (p, q)) = h c.file in
          let same : o ≡ n = ap pos_part (sym p ∙ own) in
          let fits : n + c.added < 2 ^ 63 = omega (arith, once, q, same) in
          let after = after_own m c.file f n c.added c.removed e own fits in
          let more = rework_within f cs _ (total + c.added) _ held rest after in
          rw e (ground (arith, more, rework_own m c.file n c.added c.removed own))
      | inr e ↦
          let after = after_other m c.file f n c.added c.removed e b in
          let more = rework_within f cs _ (total + c.added) n held rest after in
          rw e (omega (arith, more))
    ]

-- Over a transcript whose changes add fewer than 2^63 lines, the rework counted for a file is at
-- most the lines the transcript added to that file.
pub rework_of_bounded :
    (f : String) (cs : List Change) → added_all cs < 2 ^ 63 → rework_of f cs [] ≤ added_to f cs
unfolding budget_of
rework_of_bounded f cs k =
    let start : Holds [] 0 = λ g. (0, (refl, omega arith)) in
    omega (arith, rework_within f cs [] 0 0 start (omega (arith, k)) refl)
