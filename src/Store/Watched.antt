-- ===== src/Store/Watched.antt =====
-- What the watch of internal/store/restate_watch.go says of the UPDATE that follows it.
use assaio.Prelude.{
  ℕ, String, ◌≡◌, ◌≢◌, refl, sym, Bool, true, false, ◌||◌, not, ◌==◌, eq_iff, arith,
}
use assaio.Prelude.Int.{ℤ, pos, ltb_ℤ, eq_ℤ→eq}
use assaio.Usage.{Record}
use assaio.Store.Restate.{
  Row, is_agent_aggregate, is_aggregate_row, restate_activity, name_or, restated_ts,
  restated_project, restated_subpath, restated_repo, offer_of, projects_compete, repos_compete,
}
use assaio.Store.Watch.{count, names_another, moves_time, changes_project, identity_changes}

count-or-left : (a b : Bool) → count (a || b) ≡ 0 → a ≡ false
count-or-left a b h = ground arith

name-unchanged : (s o : String) → s ≢ "" → names_another s o ≡ false → name_or o s ≡ s
unfolding names_another name_or
name-unchanged s o h k = ground (arith, eq_iff s "", eq_iff o "", eq_iff s o)

time-unchanged :
    (tool : String) (stored : ℕ) (r : Record)
    → r.tool ≡ tool
    → moves_time stored r ≡ false
    → restated_ts tool stored r.timestamp ≡ stored
unfolding moves_time restated_ts
time-unchanged tool stored r e h = rw (sym e) (ground arith)

-- What a re-read that counts no row leaves alone.
pub record Unchanged (before after : Row) : Type 0 where
  pub ts : after.ts ≡ before.ts
  pub model : before.model ≢ "" → after.model ≡ before.model
  pub skill : before.skill ≢ "" → after.skill ≡ before.skill
  pub agent : before.agent ≢ "" → after.agent ≡ before.agent
  pub reason : before.cache_miss_reason ≢ "" → after.cache_miss_reason ≡ before.cache_miss_reason

quiet :
    (a b c d e f : Bool)
    → count (a || b || c || d || e || f) ≡ 0
    → (a ≡ false) × (b ≡ false) × (c ≡ false) × (d ≡ false) × (e ≡ false) × (f ≡ false)
quiet true b c d e f h = ground arith
quiet false true c d e f h = ground arith
quiet false false true d e f h = ground arith
quiet false false false true e f h = ground arith
quiet false false false false true f h = ground arith
quiet false false false false false true h = ground arith
quiet false false false false false false h = (refl, refl, refl, refl, refl, refl)

split_or : (a b c : Bool) → (a || b || c) ≡ false → (a ≡ false) × (b ≡ false) × (c ≡ false)
split_or a b c h = (ground arith, ground arith, ground arith)

-- When a re-read of a row of its own tool counts it in no column, the row keeps its time, and every
-- stated model, skill, agent and cache-miss reason.
pub uncounted-Unchanged :
    (r : Record) (repo : ℤ) (row : Row)
    → row.tool ≡ r.tool
    → (identity_changes row r repo).rows ≡ 0
    → Unchanged row (restate_activity r repo row)
unfolding identity_changes restate_activity
uncounted-Unchanged r repo row e h =
    let (model, ts, _, _, _, label) = quiet _ _ _ _ _ _ h in
    let (skill, agent, reason) = split_or _ _ _ label in
    record {
      ts = time-unchanged row.tool row.ts r (sym e) ts;
      model = λ s. name-unchanged row.model r.model s model;
      skill = λ s. name-unchanged row.skill r.skill s skill;
      agent = λ s. name-unchanged row.agent r.agent s agent;
      reason = λ s. name-unchanged row.cache_miss_reason r.cache_miss_reason s reason;
    }

-- On a row of the record's tool, the time column is counted exactly when the re-read moves the stored
-- time.
pub moves_time-moved :
    (r : Record) (repo : ℤ) (row : Row)
    → row.tool ≡ r.tool
    → (identity_changes row r repo).ts ≡ count (not ((restate_activity r repo row).ts == row.ts))
unfolding identity_changes restate_activity moves_time restated_ts
moves_time-moved r repo row e = rw e (ground arith)

-- On a row that is no sub-agent aggregate, whose project is stated and undisputed, a re-read that
-- names its own project and counts no project change leaves the project, the subpath and a known
-- repository as they were.
pub uncounted_project :
    (r : Record) (repo : ℤ) (row : Row)
    → is_aggregate_row row.tool row.dedupe_key ≡ false
    → is_agent_aggregate r.tool r.dedupe_key ≡ false
    → r.project_guessed ≡ false
    → row.project_conflict ≡ false
    → row.project ≢ ""
    → r.project ≢ ""
    → (identity_changes row r repo).project ≡ 0
    → ((restate_activity r repo row).project ≡ row.project)
      × ((restate_activity r repo row).subpath ≡ row.subpath)
      × (ltb_ℤ (pos 0) row.repo_id ≡ true → (restate_activity r repo row).repo_id ≡ row.repo_id)
unfolding identity_changes restate_activity changes_project names_another restated_project
    restated_subpath restated_repo offer_of projects_compete repos_compete
uncounted_project r repo row a b c d s t h = (
  ground (
    arith,
    eq_iff row.project "",
    eq_iff r.project "",
    eq_iff row.project r.project,
    eq_iff r.project row.project,
    eq_iff row.subpath r.subpath,
  ),
  ground (
    arith,
    eq_iff row.project "",
    eq_iff r.project "",
    eq_iff row.project r.project,
    eq_iff r.project row.project,
    eq_iff row.subpath r.subpath,
  ),
  λ k. ground (
    arith,
    eq_ℤ→eq row.repo_id repo,
    eq_iff row.project "",
    eq_iff r.project "",
    eq_iff row.project r.project,
    eq_iff r.project row.project,
  ),
)
