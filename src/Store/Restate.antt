-- ===== src/Store/Restate.antt =====
-- internal/store/insert.go, insert_local.go: the row of usage_record, and the two restating UPDATEs.
-- Each expression of an UPDATE reads the row as it was before. A stored time is an RFC 3339 text in
-- UTC with whole seconds, whose order as a text is the order of the seconds.
use Prim.Native.Nat.{min}
use Prim.Native.String as Text
use Prim.Native.Char.{code}
use assaio.Prelude.{
  ℕ, ◌+◌, String, Bool, true, false, ◌&&◌, ◌||◌, not, List, [], ◌∷◌, leb, ◌==◌, str_eq,
  if◌then◌else◌,
}
use assaio.Prelude.Int.{ℤ, pos, negsuc, ltb_ℤ, leb_ℤ, eq_ℤ}
use assaio.Usage.{Tokens, Activity, Record}

-- A row of usage_record.
pub record Row : Type 0 where
  pub tool : String
  pub session_id : String
  pub ts : ℕ
  pub model : String
  pub tokens : Tokens
  pub dedupe_key : String
  pub project : String
  pub subpath : String
  pub git_branch : String
  pub entrypoint : String
  pub granularity : String
  pub activity : Activity
  pub member : String
  pub sidechain : ℤ
  pub skill : String
  pub agent : String
  pub cache_miss_reason : String
  pub project_conflict : Bool
  pub repo_id : ℤ

-- The values of the INSERT; project_conflict takes its default.
unfoldable pub row_of : Record → ℤ → Row
row_of r repo = record {
  tool = r.tool;
  session_id = r.session_id;
  ts = r.timestamp;
  model = r.model;
  tokens = r.tokens;
  dedupe_key = r.dedupe_key;
  project = r.project;
  subpath = r.subpath;
  git_branch = r.git_branch;
  entrypoint = r.entrypoint;
  granularity = r.granularity;
  activity = r.activity;
  member = r.member;
  sidechain = r.sidechain;
  skill = r.skill;
  agent = r.agent;
  cache_miss_reason = r.cache_miss_reason;
  project_conflict = false;
  repo_id = repo;
}

-- SQL's two-argument MAX.
unfoldable pub max_ℤ : ℤ → ℤ → ℤ
max_ℤ a b = if leb_ℤ a b then b else a

-- CASE WHEN ? <> '' THEN ? ELSE column END
unfoldable pub name_or : String → String → String
name_or offered stored = if str_eq offered "" then stored else offered

abbrev agent_prefix : List ℕ
agent_prefix = b'a' ∷ b'g' ∷ b'e' ∷ b'n' ∷ b't' ∷ b':' ∷ []

-- SQLite's LIKE folds the case of ASCII letters.
unfoldable pub fold_case : ℕ → ℕ
fold_case c = if leb b'A' c && leb c b'Z' then c + 32 else c

unfoldable pub like_prefix : List ℕ → String → Bool
like_prefix [] s = true
like_prefix (p ∷ ps) Text.[] = false
like_prefix (p ∷ ps) (Text.◌∷◌ c s) = fold_case (code c) == p && like_prefix ps s

-- tool = 'claude-code' AND dedupe_key LIKE 'agent:%'
unfoldable pub is_aggregate_row : String → String → Bool
is_aggregate_row tool key = str_eq tool "claude-code" && like_prefix agent_prefix key

unfoldable pub has_prefix : List ℕ → String → Bool
has_prefix [] s = true
has_prefix (p ∷ ps) Text.[] = false
has_prefix (p ∷ ps) (Text.◌∷◌ c s) = code c == p && has_prefix ps s

-- isAgentAggregate
unfoldable pub is_agent_aggregate : String → String → Bool
is_agent_aggregate tool key = str_eq tool "claude-code" && has_prefix agent_prefix key

-- What activityRestateArgs offers for the project, the subpath and the repository.
pub record Offer : Type 0 where
  pub project : String
  pub subpath : String
  pub repo : ℤ

unfoldable pub offer_of : Record → ℤ → Offer
offer_of r repo =
    if r.project_guessed
    then record { project = ""; subpath = ""; repo = pos 0 }
    else record { project = r.project; subpath = r.subpath; repo = repo }

abbrev stated : String → Bool
stated s = not (str_eq s "")

-- The WHEN that finds two competing projects on one sub-agent aggregate.
unfoldable pub projects_compete : Row → Offer → Bool
projects_compete row o =
    is_aggregate_row row.tool row.dedupe_key
    && (stated o.project && (stated row.project && not (str_eq row.project o.project)))

-- The WHEN that finds two competing repositories.
unfoldable pub repos_compete : Row → Offer → Bool
repos_compete row o =
    is_aggregate_row row.tool row.dedupe_key
    && (ltb_ℤ (pos 0) o.repo && (ltb_ℤ (pos 0) row.repo_id && not (eq_ℤ row.repo_id o.repo)))

unfoldable pub restated_project : Row → Offer → String
restated_project row o =
    if row.project_conflict
    then ""
    else if projects_compete row o
    then ""
    else if stated o.project
    then o.project
    else row.project

unfoldable pub restated_subpath : Row → Offer → String
restated_subpath row o =
    if row.project_conflict
    then ""
    else if projects_compete row o
    then ""
    else if stated o.project
    then o.subpath
    else row.subpath

unfoldable pub restated_repo : Row → Offer → ℤ
restated_repo row o =
    if row.project_conflict || eq_ℤ row.repo_id (negsuc 0)
    then negsuc 0
    else if projects_compete row o || repos_compete row o
    then negsuc 0
    else if ltb_ℤ (pos 0) o.repo
    then o.repo
    else if stated o.project && not (str_eq o.project row.project)
    then pos 0
    else row.repo_id

unfoldable pub restated_tokens : Tokens → Tokens → Tokens
restated_tokens s o = record {
  input = max_ℤ s.input o.input;
  output = max_ℤ s.output o.output;
  cache_read = max_ℤ s.cache_read o.cache_read;
  cache_write = max_ℤ s.cache_write o.cache_write;
  reasoning = max_ℤ s.reasoning o.reasoning;
  cache_write_1h = max_ℤ s.cache_write_1h o.cache_write_1h;
}

unfoldable pub restated_ts : String → ℕ → ℕ → ℕ
restated_ts tool stored offered = if str_eq tool "claude-code" then min stored offered else offered

-- restateActivitySQL on the row that its WHERE finds.
unfoldable pub restate_activity : Record → ℤ → Row → Row
restate_activity r repo row =
    let o = offer_of r repo in
    record row {
      granularity = r.granularity;
      ts = restated_ts row.tool row.ts r.timestamp;
      model = name_or r.model row.model;
      project_conflict = row.project_conflict || projects_compete row o;
      project = restated_project row o;
      subpath = restated_subpath row o;
      repo_id = restated_repo row o;
      entrypoint = name_or r.entrypoint row.entrypoint;
      git_branch = name_or r.git_branch row.git_branch;
      tokens = restated_tokens row.tokens r.tokens;
      activity = r.activity;
      sidechain = max_ℤ row.sidechain r.sidechain;
      skill = name_or r.skill row.skill;
      agent = name_or r.agent row.agent;
      cache_miss_reason = name_or r.cache_miss_reason row.cache_miss_reason;
    }

-- The WHERE of restateSignalsSQL, beside the key.
unfoldable pub carries_no_signals : Row → Bool
carries_no_signals row =
    eq_ℤ row.activity.reads (pos 0)
    && (eq_ℤ row.activity.searches (pos 0)
        && (eq_ℤ row.activity.commands (pos 0)
            && (eq_ℤ row.activity.writes (pos 0)
                && (eq_ℤ row.activity.other (pos 0)
                    && (eq_ℤ row.activity.errors (pos 0)
                        && (eq_ℤ row.sidechain (pos 0)
                            && (str_eq row.skill "" && str_eq row.agent "")))))))

unfoldable pub filled_signals : Activity → Activity → Activity
filled_signals s o = record s {
  reads = o.reads;
  searches = o.searches;
  commands = o.commands;
  writes = o.writes;
  other = o.other;
  errors = o.errors;
}

-- restateSignalsSQL
unfoldable pub restate_signals : Record → ℤ → Row → Row
restate_signals r repo row =
    if carries_no_signals row
    then record row {
      activity = filled_signals row.activity r.activity;
      sidechain = r.sidechain;
      skill = r.skill;
      agent = r.agent;
    }
    else row
