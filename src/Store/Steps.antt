-- ===== src/Store/Steps.antt =====
-- internal/store/step.go, step_restate.go: the table session_step, whose unique index is on
-- (tool, timeline, dedupe_key). What the database refuses is left out.
use assaio.Prelude.{
  ℕ, ◌+◌, Bool, true, false, ◌&&◌, ◌||◌, not, List, [], ◌∷◌, ltb, ◌==◌, str_eq, if◌then◌else◌,
  any_of, filter_if, length,
}
use assaio.Prelude.Int.{eq_ℤ}
use assaio.Usage.{Step, valid_step_kind, valid_step_outcome}
use assaio.Store.Restate.{name_or, restated_ts}

-- A row of session_step has the fields of a step.
abbrev pub StepRow : Type 0
StepRow = Step

-- StepWrite
pub record StepWrite : Type 0 where
  pub inserted : ℕ
  pub rejected : ℕ
  pub changed : ℕ

unfoldable pub has_step_key : Step → StepRow → Bool
has_step_key st row =
    str_eq row.tool st.tool
    && (str_eq row.timeline st.timeline && str_eq row.dedupe_key st.dedupe_key)

-- restateStepSet
unfoldable pub restate_step_set : Step → StepRow → StepRow
restate_step_set st row = record row {
  timestamp = restated_ts row.tool row.timestamp st.timestamp;
  kind = st.kind;
  outcome = st.outcome;
  target_ref = st.target_ref;
  tokens = st.tokens;
  ordinal = st.ordinal;
  model = name_or st.model row.model;
}

-- The guard of restateStepWatchedSQL.
unfoldable pub is_watched_change : Step → StepRow → Bool
is_watched_change st row =
    str_eq row.tool "claude-code" && ltb st.timestamp row.timestamp
    || not (str_eq row.tool "claude-code") && not (row.timestamp == st.timestamp)
    || not (str_eq row.kind st.kind)
    || not (eq_ℤ row.ordinal st.ordinal)
    || not (eq_ℤ row.target_ref st.target_ref)
    || not (str_eq row.model "") && (not (str_eq st.model "") && not (str_eq row.model st.model))

-- The guard of restateStepRestSQL.
unfoldable pub is_rest_change : Step → StepRow → Bool
is_rest_change st row =
    not (str_eq row.outcome st.outcome)
    || not (eq_ℤ row.tokens st.tokens)
    || str_eq row.model "" && not (str_eq st.model "")

-- restateStep, on the row of the key: the row it leaves, and whether it reports a change.
unfoldable pub restate_step : Step → StepRow → StepRow × Bool
restate_step st row =
    if is_watched_change st row
    then (restate_step_set st row, true)
    else if is_rest_change st row
    then (restate_step_set st row, false)
    else (row, false)

unfoldable pub restate_step_rows : Step → List StepRow → List StepRow
restate_step_rows st [] = []
restate_step_rows st (row ∷ rows) =
    let rest = restate_step_rows st rows in
    (if has_step_key st row then (restate_step st row).0 else row) ∷ rest

-- Whether restateStep changed a watched column of a stored row.
unfoldable pub changes_step : Step → List StepRow → Bool
changes_step st [] = false
changes_step st (row ∷ rows) =
    let rest = changes_step st rows in if has_step_key st row then (restate_step st row).1 else rest

unfoldable pub valid_step : Step → Bool
valid_step st = valid_step_kind st.kind && valid_step_outcome st.outcome

-- The table after one turn of InsertSteps's loop.
unfoldable pub insert_step : Step → List StepRow → List StepRow
insert_step st rows =
    if not (valid_step st)
    then rows
    else if any_of (has_step_key st) rows
    then restate_step_rows st rows
    else st ∷ rows

-- The counters after it.
unfoldable pub count_step : Step → List StepRow → StepWrite → StepWrite
count_step st rows w =
    if not (valid_step st)
    then record w { rejected = w.rejected + 1 }
    else if any_of (has_step_key st) rows
    then (if changes_step st rows then record w { changed = w.changed + 1 } else w)
    else record w { inserted = w.inserted + 1 }

-- InsertSteps, from the counters so far.
unfoldable pub insert_steps : List Step → List StepRow → StepWrite → List StepRow × StepWrite
insert_steps [] rows w = (rows, w)
insert_steps (st ∷ sts) rows w = insert_steps sts (insert_step st rows) (count_step st rows w)

abbrev pub is_kept : ℕ → StepRow → Bool
is_kept before row = not (ltb row.timestamp before)

-- PruneSteps: the rows it leaves, and how many it deleted.
unfoldable pub prune_steps : ℕ → List StepRow → List StepRow × ℕ
prune_steps before rows =
    (filter_if (is_kept before) rows, length (filter_if (λ row. ltb row.timestamp before) rows))
