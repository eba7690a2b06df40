-- ===== src/Examples/Data.antt =====
-- Test data that several examples share.
use assaio.Prelude.{ℕ, String, false, some, [], ◌∷◌}
use assaio.Prelude.Int.{ℤ, pos}
use assaio.Event.{Event, Source}
use assaio.Event.Payloads.{Payload, Commit, commit, FileCategories}
use assaio.Attribution.{Session}
use assaio.Attribution.Match.{StringMap}
use assaio.Usage.{Tokens, Activity, Record}
use assaio.Store.Restate.{Row}

abbrev pub git : Source
git = record { name = "git"; version = "2"; build = "dev" }

abbrev pub two_source_files : FileCategories
two_source_files = record {
  test = pos 0;
  source = pos 2;
  docs = pos 0;
  config = pos 0;
  generated = pos 0;
  other = pos 0;
}

abbrev pub work : Commit
work = record {
  parents = pos 1;
  files_changed = pos 2;
  lines_added = pos 10;
  lines_removed = pos 3;
  files = two_source_files;
  revert = false;
  authored_at = 1500;
  committed_by_forge = false;
}

abbrev pub event_of : String → String → ℕ → Payload → Event
event_of type id at p = record {
  spec_version = 1;
  type = type;
  id = id;
  source = git;
  occurred_at = at;
  observed_at = 9000;
  time_source = "source-stated";
  grain = "commit";
  privacy = "local-only";
  provenance = "parsed";
  subject = record { project = "app"; session = ""; member = "" };
  payload = some p;
}

abbrev pub work_event : Event
work_event = event_of "vcs.commit.observed" "c1" 1500 (commit work)

abbrev pub session : Session
session = record { id = "s1"; project = "app"; tool = "codex"; started_at = 1000; ended_at = 2000 }

abbrev pub no_confirmation : StringMap
no_confirmation = []

abbrev pub confirmation : StringMap
confirmation = ("s1", "c1") ∷ []

abbrev pub some_tokens : ℤ → ℤ → Tokens
some_tokens input output = record {
  input = input;
  output = output;
  cache_read = pos 0;
  cache_write = pos 8;
  reasoning = pos 1;
  cache_write_1h = pos 5;
}

abbrev pub some_activity : ℤ → Activity
some_activity edits = record {
  lines_added = pos 12;
  lines_removed = pos 4;
  rework_lines = pos 1;
  edits = edits;
  tool_calls = pos 3;
  rejected = pos 0;
  compactions = pos 0;
  reads = pos 1;
  searches = pos 0;
  commands = pos 1;
  writes = pos 1;
  other = pos 0;
  errors = pos 0;
}

abbrev pub usage_of : String → String → String → Tokens → Record
usage_of key model project tokens = record {
  tool = "codex";
  session_id = "s1";
  timestamp = 1600;
  model = model;
  tokens = tokens;
  cache_miss_reason = "";
  dedupe_key = key;
  member = "";
  project = project;
  subpath = "";
  repo_key = "k1";
  project_guessed = false;
  git_branch = "main";
  entrypoint = "cli";
  granularity = "turn";
  activity = some_activity (pos 2);
  sidechain = pos 0;
  skill = "";
  agent = "";
}

-- A turn read while it was still being written, and the same turn read in full.
abbrev pub partial_turn : Record
partial_turn = usage_of "t1" "gpt" "app" (some_tokens (pos 100) (pos 5))

abbrev pub full_turn : Record
full_turn = usage_of "t1" "gpt" "app" (some_tokens (pos 100) (pos 50))

abbrev pub next_turn : Record
next_turn = usage_of "t2" "gpt" "app" (some_tokens (pos 20) (pos 7))

-- A commit made before the session.
abbrev pub early_event : Event
early_event = event_of "vcs.commit.observed" "c0" 500 (commit (record work { authored_at = 500 }))

-- The row that InsertLocal stores for the turn read too early.
abbrev pub partial_row : Row
partial_row = record {
  tool = "codex";
  session_id = "s1";
  ts = 1600;
  model = "gpt";
  tokens = some_tokens (pos 100) (pos 5);
  dedupe_key = "t1";
  project = "app";
  subpath = "";
  git_branch = "main";
  entrypoint = "cli";
  granularity = "turn";
  activity = some_activity (pos 2);
  member = "";
  sidechain = pos 0;
  skill = "";
  agent = "";
  cache_miss_reason = "";
  project_conflict = false;
  repo_id = pos 1;
}
