-- ===== src/Store/Reread.antt =====
-- What re-reading a record does to the row that it restates.
use assaio.Prelude.{ℕ, String, ◌≡◌, ◌≢◌, refl, true, ◌||◌, eq_iff, arith}
use assaio.Prelude.Int.{ℤ, negsuc, ◌≤ℤ◌}
use assaio.Usage.{Tokens, Record}
use assaio.Store.Restate.{
  Row, Offer, max_ℤ, name_or, offer_of, projects_compete, repos_compete, restated_project,
  restated_subpath, restated_repo, restated_tokens, restated_ts, restate_activity, is_aggregate_row,
  like_prefix,
}

max_ℤ_idem : (a b : ℤ) → max_ℤ (max_ℤ a b) b ≡ max_ℤ a b
unfolding max_ℤ
max_ℤ_idem a b = ground arith

le-max_ℤ : (a b : ℤ) → a ≤ℤ max_ℤ a b
unfolding max_ℤ
le-max_ℤ a b = ground arith

max_ℤ-mono : (a b c d : ℤ) → a ≤ℤ b → c ≤ℤ d → max_ℤ a c ≤ℤ max_ℤ b d
unfolding max_ℤ
max_ℤ-mono a b c d h k = ground arith

name_or_idem : (o s : String) → name_or o (name_or o s) ≡ name_or o s
unfolding name_or
name_or_idem o s = ground arith

restated_ts_idem :
    (tool : String) (s o : ℕ) → restated_ts tool (restated_ts tool s o) o ≡ restated_ts tool s o
unfolding restated_ts
restated_ts_idem tool s o = ground arith

restated_tokens_idem :
    (s o : Tokens) → restated_tokens (restated_tokens s o) o ≡ restated_tokens s o
unfolding restated_tokens
restated_tokens_idem s o = cc (
  max_ℤ_idem s.input o.input,
  max_ℤ_idem s.output o.output,
  max_ℤ_idem s.cache_read o.cache_read,
  max_ℤ_idem s.cache_write o.cache_write,
  max_ℤ_idem s.reasoning o.reasoning,
  max_ℤ_idem s.cache_write_1h o.cache_write_1h,
)

-- The project columns of a restated row.
placed : Row → Offer → Row
placed row o = record row {
  project_conflict = row.project_conflict || projects_compete row o;
  project = restated_project row o;
  subpath = restated_subpath row o;
  repo_id = restated_repo row o;
}

module _ (row : Row) (o : Offer) where
  conflict-placed :
      ((placed row o).project_conflict || projects_compete (placed row o) o)
      ≡ (placed row o).project_conflict
  unfolding placed projects_compete restated_project
  conflict-placed =
      ground (arith, eq_iff row.project o.project, eq_iff o.project o.project, eq_iff o.project "")

  project-placed : restated_project (placed row o) o ≡ restated_project row o
  unfolding placed projects_compete restated_project
  project-placed =
      ground (arith, eq_iff row.project o.project, eq_iff o.project o.project, eq_iff o.project "")

  subpath-placed : restated_subpath (placed row o) o ≡ restated_subpath row o
  unfolding placed projects_compete restated_project restated_subpath
  subpath-placed =
      ground (arith, eq_iff row.project o.project, eq_iff o.project o.project, eq_iff o.project "")

  repo-placed : restated_repo (placed row o) o ≡ restated_repo row o
  unfolding placed projects_compete restated_project restated_repo repos_compete
  repo-placed = ground (
    arith,
    eq_iff row.project o.project,
    eq_iff o.project row.project,
    eq_iff o.project o.project,
    eq_iff o.project "",
  )

-- Restating a row twice from one record is restating it once.
pub restate_activity_idem :
    (r : Record) (repo : ℤ) (row : Row)
    → restate_activity r repo (restate_activity r repo row) ≡ restate_activity r repo row
unfolding restate_activity placed restated_ts name_or restated_tokens restated_project
    restated_subpath max_ℤ projects_compete restated_repo is_aggregate_row like_prefix offer_of
    repos_compete
restate_activity_idem r repo row = cc (
  restated_ts_idem row.tool row.ts r.timestamp,
  name_or_idem r.model row.model,
  conflict-placed row (offer_of r repo),
  project-placed row (offer_of r repo),
  subpath-placed row (offer_of r repo),
  repo-placed row (offer_of r repo),
  name_or_idem r.entrypoint row.entrypoint,
  name_or_idem r.git_branch row.git_branch,
  restated_tokens_idem row.tokens r.tokens,
  max_ℤ_idem row.sidechain r.sidechain,
  name_or_idem r.skill row.skill,
  name_or_idem r.agent row.agent,
  name_or_idem r.cache_miss_reason row.cache_miss_reason,
)

-- What a re-read keeps of a stored row; the activity is the record's, and a stated subpath may go with
-- its project.
pub record Keeps (before after : Row) : Type 0 where
  pub input : before.tokens.input ≤ℤ after.tokens.input
  pub output : before.tokens.output ≤ℤ after.tokens.output
  pub cache_read : before.tokens.cache_read ≤ℤ after.tokens.cache_read
  pub cache_write : before.tokens.cache_write ≤ℤ after.tokens.cache_write
  pub reasoning : before.tokens.reasoning ≤ℤ after.tokens.reasoning
  pub cache_write_1h : before.tokens.cache_write_1h ≤ℤ after.tokens.cache_write_1h
  pub sidechain : before.sidechain ≤ℤ after.sidechain
  pub model : before.model ≢ "" → after.model ≢ ""
  pub skill : before.skill ≢ "" → after.skill ≢ ""
  pub agent : before.agent ≢ "" → after.agent ≢ ""
  pub entrypoint : before.entrypoint ≢ "" → after.entrypoint ≢ ""
  pub git_branch : before.git_branch ≢ "" → after.git_branch ≢ ""
  pub reason : before.cache_miss_reason ≢ "" → after.cache_miss_reason ≢ ""
  pub project : before.project ≢ "" → after.project ≡ "" → after.project_conflict ≡ true
  pub conflict : before.project_conflict ≡ true → after.project_conflict ≡ true
  pub tool : after.tool ≡ before.tool
  pub dedupe_key : after.dedupe_key ≡ before.dedupe_key

name_or_stated : (o s : String) → s ≢ "" → name_or o s ≢ ""
unfolding name_or
name_or_stated o s h e = ground (arith, eq_iff o "")

project_blanked :
    (row : Row) (o : Offer)
    → row.project ≢ ""
    → restated_project row o ≡ ""
    → (row.project_conflict || projects_compete row o) ≡ true
unfolding restated_project
project_blanked row o h e = ground (arith, eq_iff row.project "", eq_iff o.project "")

-- Restating a row from a record lowers no token counter and no side-chain mark; it blanks no stated
-- model, skill, agent, entrypoint, branch or cache-miss reason; a stated project is blanked only
-- where a project conflict is marked, and a conflict that is marked stays; the tool and the key are
-- the same.
pub restate_activity-Keeps :
    (r : Record) (repo : ℤ) (row : Row) → Keeps row (restate_activity r repo row)
unfolding restate_activity restated_tokens
restate_activity-Keeps r repo row = record {
  input = le-max_ℤ _ _;
  output = le-max_ℤ _ _;
  cache_read = le-max_ℤ _ _;
  cache_write = le-max_ℤ _ _;
  reasoning = le-max_ℤ _ _;
  cache_write_1h = le-max_ℤ _ _;
  sidechain = le-max_ℤ _ _;
  model = name_or_stated r.model row.model;
  skill = name_or_stated r.skill row.skill;
  agent = name_or_stated r.agent row.agent;
  entrypoint = name_or_stated r.entrypoint row.entrypoint;
  git_branch = name_or_stated r.git_branch row.git_branch;
  reason = name_or_stated r.cache_miss_reason row.cache_miss_reason;
  project = project_blanked row (offer_of r repo);
  conflict = λ h. ground arith;
  tool = refl;
  dedupe_key = refl;
}

-- The subset invariants that the readers divide by.
pub record IsNested (t : Tokens) : Type 0 where
  pub tier : t.cache_write_1h ≤ℤ t.cache_write
  pub thinking : t.reasoning ≤ℤ t.output

-- The 1-hour cache writes stay a part of the cache writes, and the reasoning tokens a part of the
-- output, when both the row and the record that restates it hold them so.
pub restate_activity-IsNested :
    (r : Record) (repo : ℤ) (row : Row)
    → IsNested row.tokens
    → IsNested r.tokens
    → IsNested (restate_activity r repo row).tokens
unfolding restate_activity restated_tokens
restate_activity-IsNested r repo row h k = record {
  tier =
      max_ℤ-mono row.tokens.cache_write_1h row.tokens.cache_write r.tokens.cache_write_1h
        r.tokens.cache_write h.tier k.tier;
  thinking =
      max_ℤ-mono row.tokens.reasoning row.tokens.output r.tokens.reasoning r.tokens.output
        h.thinking k.thinking;
}

-- Once two projects have claimed one row, no re-read gives it a project, a subpath or a repository.
pub conflict_sticks :
    (r : Record) (repo : ℤ) (row : Row)
    → row.project_conflict ≡ true
    → ((restate_activity r repo row).project ≡ "")
      × ((restate_activity r repo row).subpath ≡ "")
      × ((restate_activity r repo row).repo_id ≡ negsuc 0)
unfolding restate_activity restated_project restated_subpath restated_repo
conflict_sticks r repo row h = (rw h refl, rw h refl, rw h refl)
