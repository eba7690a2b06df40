-- ===== src/Parser/ClineTasks.antt =====
-- Which model internal/parser/cline/cline.go gives a request.
use assaio.Prelude.{
  ◌≡◌, refl, Bool, true, false, Bool-cases, inl, inr, ◌⊎◌, List, [], ◌∷◌, Memᴰ, All, All-imp,
  sort_by, insert_by, insert_by-All, All-at, All-own, length, length-sort_by, ℕ, suc, sort_by-All,
  All-of_sort_by, arith, ◌&&◌,
}
use assaio.Prelude.Int.{ℤ, ltb_ℤ, leb_ℤ}
use assaio.Parser.Cline.{ModelUsageEntry, carry_model, model_at, sorted_model_usage}

abbrev is_after : ℤ → ModelUsageEntry → Bool
is_after ts e = ltb_ℤ ts e.ts

abbrev earlier : ModelUsageEntry → ModelUsageEntry → Bool
earlier a b = ltb_ℤ a.ts b.ts

abbrev IsFirst : ModelUsageEntry → List ModelUsageEntry → Type 0
IsFirst a es = All (λ (e : ModelUsageEntry). ltb_ℤ e.ts a.ts ≡ false) es

abbrev AreOrdered : List ModelUsageEntry → Type 0
AreOrdered [] = Unit
AreOrdered (e ∷ es) = IsFirst e es × AreOrdered es

-- The entry that a request at ts is read under: none at or before ts is later than it, and it is at
-- or before ts itself or the first of all, which are all after ts.
pub record IsCurrent (ts : ℤ) (es : List ModelUsageEntry) (c : ModelUsageEntry) : Type 0 where
  pub latest : All (λ (e : ModelUsageEntry). ltb_ℤ c.ts e.ts && leb_ℤ e.ts ts ≡ false) es
  pub due :
      (leb_ℤ c.ts ts ≡ true)
      ⊎ All (λ (e : ModelUsageEntry). (ltb_ℤ ts e.ts ≡ true) × (ltb_ℤ e.ts c.ts ≡ false)) es

IsFirst-before :
    (a b : ModelUsageEntry) (es : List ModelUsageEntry)
    → ltb_ℤ b.ts a.ts ≡ false
    → IsFirst b es
    → IsFirst a es
IsFirst-before a b es h k = All-imp (λ e f. ground (arith, h, f)) es k

insert_by-Ordered :
    (x : ModelUsageEntry) (es : List ModelUsageEntry)
    → AreOrdered es
    → AreOrdered (insert_by earlier x es)
unfolding insert_by
insert_by-Ordered x [] h = (tt, tt)
insert_by-Ordered x (e ∷ es) (f, o) = elim (Bool-cases (earlier e x)) [
  | inl l ↦ rw l (
    insert_by-All earlier (λ y. ltb_ℤ y.ts e.ts ≡ false) x es (ground (arith, l)) f,
    insert_by-Ordered x es o,
  )
  | inr l ↦ rw l ((l, IsFirst-before x e es l f), (f, o))
]

sort_by-Ordered : (es : List ModelUsageEntry) → AreOrdered (sort_by earlier es)
unfolding sort_by
sort_by-Ordered [] = tt
sort_by-Ordered (e ∷ es) = insert_by-Ordered e (sort_by earlier es) (sort_by-Ordered es)

-- What carry_model returns of a model that is due.
abbrev Carried : ℤ → ModelUsageEntry → List ModelUsageEntry → Type 0
Carried ts c es =
    (b : ModelUsageEntry) × (Memᴰ b (c ∷ es)
      × ((b.model_id ≡ carry_model ts c.model_id es)
          × ((leb_ℤ b.ts ts ≡ true)
              × All (λ (e : ModelUsageEntry). ltb_ℤ b.ts e.ts && leb_ℤ e.ts ts ≡ false) (c ∷ es))))

later_not_due :
    (ts : ℤ) (c e : ModelUsageEntry) (es : List ModelUsageEntry)
    → ltb_ℤ ts e.ts ≡ true
    → IsFirst e es
    → All (λ (x : ModelUsageEntry). ltb_ℤ c.ts x.ts && leb_ℤ x.ts ts ≡ false) es
later_not_due ts c e es h f = All-imp (λ x k. ground (arith, h, k)) es f

carried :
    (ts : ℤ) (c : ModelUsageEntry) (es : List ModelUsageEntry)
    → leb_ℤ c.ts ts ≡ true
    → AreOrdered (c ∷ es)
    → Carried ts c es
unfolding carry_model
carried ts c [] due o = (c, (Memᴰ.head refl, (refl, (due, (ground arith, tt)))))
carried ts c (e ∷ es) due (f, o) = elim (Bool-cases (ltb_ℤ ts e.ts)) [
  | inl l ↦ (
    c,
    (
      Memᴰ.head refl,
      (rw l refl, (due, (ground arith, (ground (arith, l), later_not_due ts c e es l o.0)))),
    ),
  )
  | inr l ↦
      let (b, (m, (same, (d, all)))) = carried ts e es (ground (arith, l)) o in
      (b, (Memᴰ.tail m, (rw l same, (d, (ground (arith, f.0, all.0, l), all)))))
]

-- The entry that model_at reads.
abbrev pub Reads : ℤ → List ModelUsageEntry → List ModelUsageEntry → Type 0
Reads ts es sorted =
    (c : ModelUsageEntry) × (Memᴰ c es × ((c.model_id ≡ model_at sorted ts) × IsCurrent ts es c))

all_after :
    (ts : ℤ) (e : ModelUsageEntry) (es : List ModelUsageEntry)
    → ltb_ℤ ts e.ts ≡ true
    → IsFirst e es
    → IsCurrent ts (e ∷ es) e
all_after ts e es l f = record {
  latest = (ground arith, later_not_due ts e e es l f);
  due = inr ((l, ground arith), All-imp (λ x k. (ground (arith, l, k), k)) es f);
}

read_sorted :
    (ts : ℤ) (e : ModelUsageEntry) (es : List ModelUsageEntry)
    → AreOrdered (e ∷ es)
    → Reads ts (e ∷ es) (e ∷ es)
unfolding model_at carry_model
read_sorted ts e es (f, o) = elim (Bool-cases (ltb_ℤ ts e.ts)) [
  | inl l ↦ (e, (Memᴰ.head refl, (rw l refl, all_after ts e es l f)))
  | inr l ↦
      let (b, (m, (same, (d, all)))) = carried ts e es (ground (arith, l)) (f, o) in
      (b, (m, (rw l same, record { latest = all; due = inl d })))
]

-- From the sorted entries back to the given ones.
moved :
    (ts : ℤ) (es : List ModelUsageEntry) (c : ModelUsageEntry)
    → IsCurrent ts (sort_by earlier es) c
    → IsCurrent ts es c
moved ts es c r = record {
  latest = All-of_sort_by earlier _ es r.latest;
  due = elim r.due [ inl d ↦ inl d | inr a ↦ inr (All-of_sort_by earlier _ es a) ];
}

no_entry : (es : List ModelUsageEntry) (n : ℕ) → es ≡ [] → length es ≡ suc n → ⊥
no_entry es n e h = let k : length {A = ModelUsageEntry} [] ≡ suc n = rw e at h in omega (arith, k)

read_of :
    (ts : ℤ) (es sorted : List ModelUsageEntry) (n : ℕ)
    → sort_by earlier es ≡ sorted
    → length sorted ≡ suc n
    → AreOrdered sorted
    → Reads ts es sorted
read_of ts es [] n e h o = absurd (no_entry [] n refl h)
read_of ts es (x ∷ xs) n e h o =
    let (c, (m, (same, r))) = read_sorted ts x xs o in
    let r' : IsCurrent ts (sort_by earlier es) c = rw e r in
    let m' : Memᴰ c (sort_by earlier es) = rw e m in
    (
      c,
      (
        All-at (λ (a : ModelUsageEntry). Memᴰ a es) (sort_by earlier es) c m'
            (sort_by-All earlier (λ (a : ModelUsageEntry). Memᴰ a es) es (All-own es)),
        (same, moved ts es c r'),
      ),
    )

-- Where a task has entries, a request is given the model of one of them, in whatever order they
-- stand: no entry at or before the request is later than it, and it is itself at or before the
-- request, or all are after the request and none is earlier.
pub model_at_current :
    (ts : ℤ) (e : ModelUsageEntry) (es : List ModelUsageEntry)
    → Reads ts (e ∷ es) (sorted_model_usage (e ∷ es))
unfolding sorted_model_usage
model_at_current ts e es =
    read_of ts (e ∷ es) _ (length es) refl (length-sort_by earlier (e ∷ es))
      (sort_by-Ordered (e ∷ es))
