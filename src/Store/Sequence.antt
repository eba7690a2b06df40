-- ===== src/Store/Sequence.antt =====
-- What InsertSteps and PruneSteps of internal/store/step.go leave in session_step.
use assaio.Prelude.{
  ℕ, ◌+◌, suc, ◌≤◌, All, ◌≡◌, refl, ap, ◌∙◌, Bool, true, false, Bool-cases, List, [], ◌∷◌, ltb,
  eq_iff, arith, inl, inr, if◌then◌else◌, any_of, filter_if, length, Memᴰ, mem-filter_if,
}
use assaio.Prelude.Int.{eq_ℤ→eq}
use assaio.Usage.{Step}
use assaio.Store.Restate.{name_or, restated_ts}
use assaio.Store.Steps.{
  StepRow, StepWrite, has_step_key, restate_step_set, is_watched_change, is_rest_change,
  restate_step, restate_step_rows, changes_step, valid_step, insert_step, count_step, insert_steps,
  is_kept, prune_steps,
}

unwatched :
    (st : Step) (row : StepRow)
    → is_watched_change st row ≡ false
    → (restated_ts row.tool row.timestamp st.timestamp ≡ row.timestamp)
      × (st.kind ≡ row.kind)
      × (st.ordinal ≡ row.ordinal)
      × (st.target_ref ≡ row.target_ref)
unfolding is_watched_change restated_ts
unwatched st row h = (
  ground arith,
  ground (arith, eq_iff row.kind st.kind),
  ground (arith, eq_ℤ→eq row.ordinal st.ordinal),
  ground (arith, eq_ℤ→eq row.target_ref st.target_ref),
)

unmoved :
    (st : Step) (row : StepRow)
    → is_watched_change st row ≡ false
    → is_rest_change st row ≡ false
    → (st.outcome ≡ row.outcome)
      × (st.tokens ≡ row.tokens)
      × (name_or st.model row.model ≡ row.model)
unfolding is_watched_change is_rest_change name_or
unmoved st row h k = (
  ground (arith, eq_iff row.outcome st.outcome),
  ground (arith, eq_ℤ→eq row.tokens st.tokens),
  ground (arith, eq_iff row.model st.model, eq_iff row.model "", eq_iff st.model ""),
)

unchanged :
    (st : Step) (row : StepRow)
    → is_watched_change st row ≡ false
    → is_rest_change st row ≡ false
    → restate_step_set st row ≡ row
unfolding restate_step_set
unchanged st row h k =
    let (ts, kind, ordinal, target) = unwatched st row h in
    let (outcome, tokens, model) = unmoved st row h k in cc

-- The two guarded statements leave what one unguarded UPDATE would, and report the watched columns.
pub restate_step-set :
    (st : Step) (row : StepRow)
    → restate_step st row ≡ (restate_step_set st row, is_watched_change st row)
unfolding restate_step
restate_step-set st row = elim (Bool-cases (is_watched_change st row)) [
  | inl t ↦ rw t refl
  | inr n ↦ elim (Bool-cases (is_rest_change st row)) [
    | inl t ↦ rw (n, t) refl
    | inr m ↦ rw (n, m, unchanged st row n m) refl
  ]
]

set-quiet : (st : Step) (row : StepRow) → is_watched_change st (restate_step_set st row) ≡ false
unfolding is_watched_change restate_step_set restated_ts name_or
set-quiet st row = ground (
  arith,
  eq_iff st.kind st.kind,
  eq_iff st.model st.model,
  eq_iff row.model row.model,
  eq_iff st.model "",
)

set_idem :
    (st : Step) (row : StepRow)
    → restate_step_set st (restate_step_set st row) ≡ restate_step_set st row
unfolding restate_step_set restated_ts name_or
set_idem st row = ground (arith, eq_iff st.model "")

-- A step restated twice from one step is restated once, and the second time reports no change.
pub restate_step-again :
    (st : Step) (row : StepRow)
    → restate_step st (restate_step_set st row) ≡ (restate_step_set st row, false)
restate_step-again st row =
    restate_step-set st (restate_step_set st row) ∙ (rw (set_idem st row, set-quiet st row) refl)

set-valid :
    (st : Step) (row : StepRow) → valid_step st ≡ true → valid_step (restate_step_set st row) ≡ true
unfolding restate_step_set valid_step
set-valid st row h = h

restate_step_rows-valid :
    (st : Step) (rows : List StepRow)
    → valid_step st ≡ true
    → All (λ row. valid_step row ≡ true) rows
    → All (λ row. valid_step row ≡ true) (restate_step_rows st rows)
unfolding restate_step_rows
restate_step_rows-valid st [] v h = tt
restate_step_rows-valid st (row ∷ rows) v h =
    (here (has_step_key st row), restate_step_rows-valid st rows v h.1)
  where
    here : (b : Bool) → valid_step (if b then (restate_step st row).0 else row) ≡ true
    here true = rw (restate_step-set st row) (set-valid st row v)
    here false = h.0

insert_step-valid :
    (st : Step) (rows : List StepRow)
    → All (λ row. valid_step row ≡ true) rows
    → All (λ row. valid_step row ≡ true) (insert_step st rows)
unfolding insert_step
insert_step-valid st rows h = elim (Bool-cases (valid_step st)) [
  | inr n ↦ rw n h
  | inl v ↦ elim (Bool-cases (any_of (has_step_key st) rows)) [
    | inl t ↦ rw (v, t) (restate_step_rows-valid st rows v h)
    | inr n ↦ rw (v, n) (v, h)
  ]
]

-- Every step the table holds after a write has a kind and an outcome of the vocabulary, when every
-- one did before.
pub insert_steps-valid :
    (sts : List Step) (rows : List StepRow) (w : StepWrite)
    → All (λ row. valid_step row ≡ true) rows
    → All (λ row. valid_step row ≡ true) (insert_steps sts rows w).0
unfolding insert_steps
insert_steps-valid [] rows w h = h
insert_steps-valid (st ∷ sts) rows w h =
    insert_steps-valid sts (insert_step st rows) (count_step st rows w)
      (insert_step-valid st rows h)

length-restate_step_rows :
    (st : Step) (rows : List StepRow) → length (restate_step_rows st rows) ≡ length rows
unfolding restate_step_rows
length-restate_step_rows st [] = refl
length-restate_step_rows st (row ∷ rows) = ap suc (length-restate_step_rows st rows)

one_step :
    (st : Step) (rows : List StepRow) (w : StepWrite)
    → ((count_step st rows w).inserted + length rows ≡ w.inserted + length (insert_step st rows))
      × ((count_step st rows w).inserted
            + (count_step st rows w).rejected
            + (count_step st rows w).changed
          ≤ w.inserted + w.rejected + w.changed + 1)
unfolding insert_step count_step
one_step st rows w = elim (Bool-cases (valid_step st)) [
  | inr n ↦ rw n (refl, omega arith)
  | inl v ↦ elim (Bool-cases (any_of (has_step_key st) rows)) [
    | inr n ↦ rw (v, n) (omega arith, omega arith)
    | inl t ↦ rw (v, t, length-restate_step_rows st rows) (counted (changes_step st rows))
  ]
]
  where
    counted :
        (b : Bool)
        → ((if b then record w { changed = w.changed + 1 } else w).inserted + length rows
            ≡ w.inserted + length rows)
          × ((if b then record w { changed = w.changed + 1 } else w).inserted
                + (if b then record w { changed = w.changed + 1 } else w).rejected
                + (if b then record w { changed = w.changed + 1 } else w).changed
              ≤ w.inserted + w.rejected + w.changed + 1)
    counted true = (refl, omega arith)
    counted false = (refl, omega arith)

-- A write counts as inserted exactly the rows the table gained, and counts no step twice.
pub insert_steps-accounts :
    (sts : List Step) (rows : List StepRow) (w : StepWrite)
    → ((insert_steps sts rows w).1.inserted + length rows
        ≡ w.inserted + length (insert_steps sts rows w).0)
      × ((insert_steps sts rows w).1.inserted
            + (insert_steps sts rows w).1.rejected
            + (insert_steps sts rows w).1.changed
          ≤ w.inserted + w.rejected + w.changed + length sts)
unfolding insert_steps
insert_steps-accounts [] rows w = (refl, omega arith)
insert_steps-accounts (st ∷ sts) rows w =
    let (a, b) = insert_steps-accounts sts (insert_step st rows) (count_step st rows w) in
    let (c, d) = one_step st rows w in (omega (arith, a, c), omega (arith, b, d))

recent :
    (before : ℕ) (rows : List StepRow)
    → All (λ row. before ≤ row.timestamp) (filter_if (is_kept before) rows)
recent before [] = tt
recent before (row ∷ rows) = elim (Bool-cases (ltb row.timestamp before)) [
  | inl t ↦ rw t (recent before rows)
  | inr n ↦ rw n (ground arith, recent before rows)
]

parted :
    (before : ℕ) (rows : List StepRow)
    → length (filter_if (is_kept before) rows)
        + length (filter_if (λ row. ltb row.timestamp before) rows)
      ≡ length rows
parted before [] = refl
parted before (row ∷ rows) = elim (Bool-cases (ltb row.timestamp before)) [
  | inl t ↦ rw t (omega (arith, parted before rows))
  | inr n ↦ rw n (omega (arith, parted before rows))
]

-- What pruning promises of the rows it leaves.
pub record Pruned (before : ℕ) (rows : List StepRow) (out : List StepRow × ℕ) : Type 0 where
  pub recent : All (λ row. before ≤ row.timestamp) out.0
  pub kept : (row : StepRow) → Memᴰ row rows → before ≤ row.timestamp → Memᴰ row out.0
  pub counted : length out.0 + out.1 ≡ length rows

-- Pruning leaves no row before the horizon, keeps every row at it or after it, and counts the others.
pub prune_steps-Pruned :
    (before : ℕ) (rows : List StepRow) → Pruned before rows (prune_steps before rows)
unfolding prune_steps
prune_steps-Pruned before rows = record {
  recent = recent before rows;
  kept = λ row m h. mem-filter_if (is_kept before) rows row m (ground arith);
  counted = parted before rows;
}
