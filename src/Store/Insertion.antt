-- ===== src/Store/Insertion.antt =====
-- What insertWith of internal/store/insert.go leaves in usage_record.
use assaio.Prelude.{
  ◌+◌, suc, All, ◌≡◌, refl, ap, ◌∙◌, Bool, true, false, Bool-cases, ◌&&◌, inl, inr, List, [], ◌∷◌,
  length, str_eq, eq_iff, arith, if◌then◌else◌, any_of,
}
use assaio.Prelude.Int.{ℤ}
use assaio.Usage.{Record}
use assaio.Store.Restate.{Row, row_of}
use assaio.Store.Registry.{Ids, repo_id}
use assaio.Store.Table.{
  has_key, restate_where, watch_where, insert_row, insert_rows, count_row, RestateRule, Written,
}

-- What insertWith needs of the statement that restates a row: the key stays, a second run with the
-- same record changes nothing, and neither does a run on the row the record itself inserts.
pub record IsRestateRule (f : RestateRule) : Type 0 where
  pub tool : (r : Record) (repo : ℤ) (row : Row) → (f r repo row).tool ≡ row.tool
  pub dedupe_key : (r : Record) (repo : ℤ) (row : Row) → (f r repo row).dedupe_key ≡ row.dedupe_key
  pub idem : (r : Record) (repo : ℤ) (row : Row) → f r repo (f r repo row) ≡ f r repo row
  pub fresh : (r : Record) (repo : ℤ) → f r repo (row_of r repo) ≡ row_of r repo

unfoldable pub same_key : Record → Record → Bool
same_key a b = str_eq a.tool b.tool && str_eq a.dedupe_key b.dedupe_key

-- No two records of the batch share a key.
unfoldable pub IsDistinct : List Record → Type 0
IsDistinct [] = Unit
IsDistinct (r ∷ rs) = All (λ o. same_key r o ≡ false) rs × IsDistinct rs

-- A record that is in the table, and that another run with it does not change.
abbrev pub IsStored : RestateRule → Record → ℤ → List Row → Type 0
IsStored f r repo rows = (any_of (has_key r) rows ≡ true) × (restate_where (f r repo) r rows ≡ rows)

length-restate_where :
    (f : Row → Row) (r : Record) (rows : List Row) → length (restate_where f r rows) ≡ length rows
unfolding restate_where
length-restate_where f r [] = refl
length-restate_where f r (row ∷ rows) = ap suc (length-restate_where f r rows)

one_row :
    (f : RestateRule) (watched : Bool) (r : Record) (repo : ℤ) (rows : List Row) (w : Written)
    → (count_row watched r repo rows w).inserted + length rows
      ≡ w.inserted + length (insert_row f r repo rows)
unfolding insert_row count_row
one_row f watched r repo rows w = elim (Bool-cases (any_of (has_key r) rows)) [
  | inl t ↦ rw (t, length-restate_where (f r repo) r rows) (same watched)
  | inr n ↦ rw n (omega arith)
]
  where
    same :
        (b : Bool)
        → (if b then record w { restated = watch_where r repo rows w.restated } else w).inserted
            + length rows
          ≡ w.inserted + length rows
    same true = refl
    same false = refl

-- A batch inserts as many rows as it counts, and no row is lost.
pub inserted_counts_growth :
    (f : RestateRule) (watched : Bool) (ids : Ids) (rs : List Record) (rows : List Row)
    (w : Written)
    → (insert_rows f watched ids rs rows w).1.inserted + length rows
      ≡ w.inserted + length (insert_rows f watched ids rs rows w).0
unfolding insert_rows
inserted_counts_growth f watched ids [] rows w = refl
inserted_counts_growth f watched ids (r ∷ rs) rows w =
    let repo = repo_id ids r in
    let rest =
      inserted_counts_growth f watched ids rs (insert_row f r repo rows)
        (count_row watched r repo rows w) in
    let now = one_row f watched r repo rows w in omega arith

restate_where-absent :
    (g : Row → Row) (r : Record) (rows : List Row)
    → any_of (has_key r) rows ≡ false
    → restate_where g r rows ≡ rows
unfolding restate_where
restate_where-absent g r [] h = refl
restate_where-absent g r (row ∷ rows) h = elim (Bool-cases (has_key r row)) [
  | inl t ↦ ground arith
  | inr n ↦ rw (n, restate_where-absent g r rows (ground arith)) refl
]

own_key : (r : Record) (repo : ℤ) → has_key r (row_of r repo) ≡ true
unfolding has_key row_of
own_key r repo = ground (arith, eq_iff r.tool r.tool, eq_iff r.dedupe_key r.dedupe_key)

not_own : (r o : Record) (repo : ℤ) → same_key r o ≡ false → has_key r (row_of o repo) ≡ false
unfolding has_key row_of same_key
not_own r o repo h = ground (
  arith,
  eq_iff r.tool o.tool,
  eq_iff r.dedupe_key o.dedupe_key,
  eq_iff o.tool r.tool,
  eq_iff o.dedupe_key r.dedupe_key,
)

other_key :
    (r o : Record) (row : Row) → same_key r o ≡ false → has_key r row ≡ true → has_key o row ≡ false
unfolding has_key same_key
other_key r o row h t = ground (
  arith,
  eq_iff r.tool o.tool,
  eq_iff r.dedupe_key o.dedupe_key,
  eq_iff row.tool r.tool,
  eq_iff row.tool o.tool,
  eq_iff row.dedupe_key r.dedupe_key,
  eq_iff row.dedupe_key o.dedupe_key,
)

module _ (f : RestateRule) (rule : IsRestateRule f) where
  has_key-kept : (o r : Record) (repo : ℤ) (row : Row) → has_key o (f r repo row) ≡ has_key o row
  unfolding has_key
  has_key-kept o r repo row = rw (rule.tool r repo row, rule.dedupe_key r repo row) refl

  any_of-restate_where :
      (o r : Record) (repo : ℤ) (rows : List Row)
      → any_of (has_key o) (restate_where (f r repo) r rows) ≡ any_of (has_key o) rows
  unfolding restate_where
  any_of-restate_where o r repo [] = refl
  any_of-restate_where o r repo (row ∷ rows) =
      let rest = any_of-restate_where o r repo rows in
      elim (Bool-cases (has_key r row)) [
        | inl t ↦ rw (t, has_key-kept o r repo row, rest) refl
        | inr n ↦ rw (n, rest) refl
      ]

  restate_where_idem :
      (r : Record) (repo : ℤ) (rows : List Row)
      → restate_where (f r repo) r (restate_where (f r repo) r rows)
        ≡ restate_where (f r repo) r rows
  unfolding restate_where
  restate_where_idem r repo [] = refl
  restate_where_idem r repo (row ∷ rows) =
      let rest = restate_where_idem r repo rows in
      elim (Bool-cases (has_key r row)) [
        | inl t ↦ rw (t, has_key-kept r r repo row, t, rule.idem r repo row, rest) refl
        | inr n ↦ rw (n, n, rest) refl
      ]

  -- Statements for different keys commute.
  restate_where_comm :
      (r o : Record) (p q : ℤ) (rows : List Row)
      → same_key r o ≡ false
      → restate_where (f r p) r (restate_where (f o q) o rows)
        ≡ restate_where (f o q) o (restate_where (f r p) r rows)
  unfolding restate_where
  restate_where_comm r o p q [] h = refl
  restate_where_comm r o p q (row ∷ rows) h =
      let rest = restate_where_comm r o p q rows h in
      elim (Bool-cases (has_key r row)) [
        | inl t ↦
            let n = other_key r o row h t in rw (t, n, t, has_key-kept o r p row, n, rest) refl
        | inr n ↦ elim (Bool-cases (has_key o row)) [
          | inl t ↦ rw (t, n, has_key-kept r o q row, n, t, rest) refl
          | inr m ↦ rw (n, m, n, rest) refl
        ]
      ]

  pub inserted-IsStored :
      (r : Record) (repo : ℤ) (rows : List Row) → IsStored f r repo (insert_row f r repo rows)
  unfolding insert_row restate_where
  inserted-IsStored r repo rows = elim (Bool-cases (any_of (has_key r) rows)) [
    | inl t ↦ rw t (any_of-restate_where r r repo rows ∙ t, restate_where_idem r repo rows)
    | inr n ↦ rw n (row_of-stored n)
  ]
    where
      row_of-stored : any_of (has_key r) rows ≡ false → IsStored f r repo (row_of r repo ∷ rows)
      row_of-stored n =
          rw (own_key r repo, rule.fresh r repo, restate_where-absent (f r repo) r rows n)
            (refl, refl)

  pub other-IsStored :
      (r o : Record) (p q : ℤ) (rows : List Row)
      → same_key r o ≡ false
      → IsStored f r p rows
      → IsStored f r p (insert_row f o q rows)
  unfolding insert_row restate_where
  other-IsStored r o p q rows h (a, b) = elim (Bool-cases (any_of (has_key o) rows)) [
    | inl t ↦ rw t (
      any_of-restate_where r o q rows ∙ a,
      restate_where_comm r o p q rows h ∙ ap (restate_where (f o q) o) b,
    )
    | inr n ↦ rw n (beside)
  ]
    where
      beside : IsStored f r p (row_of o q ∷ rows)
      beside = rw (not_own r o q h, b) (a, refl)
