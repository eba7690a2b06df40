-- ===== src/Store/Watch.antt =====
-- internal/store/restate_watch.go: what a re-read is about to change on a stored row, read before
-- the restating UPDATE runs.
use assaio.Prelude.{
  ℕ, ◌+◌, String, Bool, true, false, ◌&&◌, ◌||◌, not, ltb, ◌==◌, str_eq, if◌then◌else◌,
}
use assaio.Prelude.Int.{ℤ, pos, ltb_ℤ, eq_ℤ}
use assaio.Usage.{Activity, Record}
use assaio.Store.Restate.{Row, is_agent_aggregate}

-- IdentityChanges
pub record IdentityChanges : Type 0 where
  pub rows : ℕ
  pub model : ℕ
  pub ts : ℕ
  pub project : ℕ
  pub entrypoint : ℕ
  pub branch : ℕ
  pub label : ℕ
  pub kept : ℕ

-- Restated
pub record Restated : Type 0 where
  pub lowered : ℕ
  pub identity : IdentityChanges

abbrev pub no_changes : IdentityChanges
no_changes = record {
  rows = 0;
  model = 0;
  ts = 0;
  project = 0;
  entrypoint = 0;
  branch = 0;
  label = 0;
  kept = 0;
}

-- IdentityChanges.Add
unfoldable pub add_changes : IdentityChanges → IdentityChanges → IdentityChanges
add_changes c o = record {
  rows = c.rows + o.rows;
  model = c.model + o.model;
  ts = c.ts + o.ts;
  project = c.project + o.project;
  entrypoint = c.entrypoint + o.entrypoint;
  branch = c.branch + o.branch;
  label = c.label + o.label;
  kept = c.kept + o.kept;
}

-- The Boolean that watchSQL selects.
unfoldable pub is_lowering : Activity → Activity → Bool
is_lowering s o =
    ltb_ℤ o.lines_added s.lines_added
    || ltb_ℤ o.lines_removed s.lines_removed
    || ltb_ℤ o.rework_lines s.rework_lines
    || ltb_ℤ o.edits s.edits
    || ltb_ℤ o.tool_calls s.tool_calls
    || ltb_ℤ o.rejected s.rejected
    || ltb_ℤ o.compactions s.compactions
    || ltb_ℤ o.reads s.reads
    || ltb_ℤ o.searches s.searches
    || ltb_ℤ o.commands s.commands
    || ltb_ℤ o.writes s.writes
    || ltb_ℤ o.other s.other
    || ltb_ℤ o.errors s.errors

-- The cases of the closure `named`: which of its counters moves.
unfoldable pub names_another : String → String → Bool
names_another stored offered =
    if str_eq stored ""
    then false
    else if str_eq offered ""
    then false
    else not (str_eq stored offered)

unfoldable pub keeps_name : String → String → Bool
keeps_name stored offered = if str_eq stored "" then false else str_eq offered ""

abbrev pub count : Bool → ℕ
count true = 1
count false = 0

-- movesTime
unfoldable pub moves_time : ℕ → Record → Bool
moves_time stored r =
    if str_eq r.tool "claude-code" then ltb r.timestamp stored else not (r.timestamp == stored)

-- The project tests of identityChanges, for a record that names a project of its own.
unfoldable pub changes_project : Row → Record → ℤ → Bool
changes_project s r repo =
    names_another s.project r.project
    || not (str_eq r.project "") && (str_eq s.project r.project && not (str_eq s.subpath r.subpath))
    || ltb_ℤ (pos 0) s.repo_id && (ltb_ℤ (pos 0) repo && not (eq_ℤ s.repo_id repo))

abbrev pub changes_label : Row → Record → Bool
changes_label s r =
    names_another s.skill r.skill
    || names_another s.agent r.agent
    || names_another s.cache_miss_reason r.cache_miss_reason

abbrev pub keeps_any : Row → Record → Bool → Bool → Bool
keeps_any s r own placed =
    keeps_name s.model r.model
    || keeps_name s.skill r.skill
    || keeps_name s.agent r.agent
    || keeps_name s.cache_miss_reason r.cache_miss_reason
    || own && (keeps_name s.entrypoint r.entrypoint || keeps_name s.git_branch r.git_branch)
    || placed && keeps_name s.project r.project

-- identityChanges
unfoldable pub identity_changes : Row → Record → ℤ → IdentityChanges
identity_changes s r repo =
    let own = not (is_agent_aggregate r.tool r.dedupe_key) in
    let placed = own && not r.project_guessed in
    let model = names_another s.model r.model in
    let label = changes_label s r in
    let ts = moves_time s.ts r in
    let entrypoint = own && names_another s.entrypoint r.entrypoint in
    let branch = own && names_another s.git_branch r.git_branch in
    let project = placed && changes_project s r repo in
    record {
      rows = count (model || ts || project || entrypoint || branch || label);
      model = count model;
      ts = count ts;
      project = count project;
      entrypoint = count entrypoint;
      branch = count branch;
      label = count label;
      kept = count (keeps_any s r own placed);
    }

-- watch, and what insertWith adds up from it.
unfoldable pub watch : Row → Record → ℤ → Restated → Restated
watch s r repo w = record {
  lowered = w.lowered + count (is_lowering s.activity r.activity);
  identity = add_changes w.identity (identity_changes s r repo);
}
