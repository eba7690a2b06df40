-- ===== src/Parser/Claude/Records.antt =====
-- internal/parser/claude/turn.go and content.go: what a line adds to a usage record.
use assaio.Prelude.{◌+◌, String, false, List, [], ◌∷◌, Option, none, some, str_eq, if◌then◌else◌}
use assaio.Prelude.Int.{ℤ, pos, max_ℤ}
use assaio.Usage.{Tokens, Activity, Record}
use assaio.Parser.{non_neg, subset}
use assaio.Parser.Tools.{no_calls, add_call, total_calls, plus, vocabulary_token, is_one_of}
use assaio.Parser.Claude.{Library, TokenUsage, ContentBlock, Line, CarryForward, BlockActivity}

-- tokenUsage.cacheWrite1h
unfoldable pub cache_write_1h : TokenUsage → ℤ
cache_write_1h u = elim u.creation_1h [ none ↦ pos 0 | some n ↦ subset n (non_neg u.cache_write) ]

-- The counters that a record takes from a usage.
unfoldable pub tokens_of : TokenUsage → Tokens
tokens_of u = record {
  input = non_neg u.input;
  output = non_neg u.output;
  cache_read = non_neg u.cache_read;
  cache_write = non_neg u.cache_write;
  reasoning = pos 0;
  cache_write_1h = cache_write_1h u;
}

-- countBlocks
unfoldable pub count_blocks : List ContentBlock → BlockActivity → BlockActivity
count_blocks [] a = a
count_blocks (b ∷ bs) a =
    let called : BlockActivity = record a {
      by_purpose = add_call b.name a.by_purpose;
      edits =
          if is_one_of ("Edit" ∷ "Write" ∷ "NotebookEdit" ∷ "MultiEdit" ∷ []) b.name
          then a.edits + 1
          else a.edits;
    } in
    let answered : BlockActivity = if b.is_error then record a { errors = a.errors + 1 } else a in
    count_blocks bs (
      if str_eq b.kind "tool_use"
      then called
      else if str_eq b.kind "tool_result"
      then answered
      else a)

abbrev pub no_block_activity : BlockActivity
no_block_activity = record { edits = 0; errors = 0; by_purpose = no_calls }

abbrev pub blocks_or_nil : Option (List ContentBlock) → List ContentBlock
blocks_or_nil none = []
blocks_or_nil (some bs) = bs

-- decodeBlocks
unfoldable pub decode_blocks : Library → String → List ContentBlock
decode_blocks lib raw = blocks_or_nil (lib.blocks raw)

abbrev pub no_activity : Activity
no_activity = record {
  lines_added = pos 0;
  lines_removed = pos 0;
  rework_lines = pos 0;
  edits = pos 0;
  tool_calls = pos 0;
  rejected = pos 0;
  compactions = pos 0;
  reads = pos 0;
  searches = pos 0;
  commands = pos 0;
  writes = pos 0;
  other = pos 0;
  errors = pos 0;
}

-- The tool calls of some blocks added to a record's activity.
unfoldable pub add_calls : BlockActivity → Activity → Activity
add_calls act a = record a {
  tool_calls = plus a.tool_calls (total_calls act.by_purpose);
  edits = plus a.edits act.edits;
  reads = plus a.reads act.by_purpose.reads;
  searches = plus a.searches act.by_purpose.searches;
  commands = plus a.commands act.by_purpose.commands;
  writes = plus a.writes act.by_purpose.writes;
  other = plus a.other act.by_purpose.other;
}

abbrev pub max_tokens : Tokens → Tokens → Tokens
max_tokens r u = record r {
  input = max_ℤ r.input u.input;
  output = max_ℤ r.output u.output;
  cache_read = max_ℤ r.cache_read u.cache_read;
  cache_write = max_ℤ r.cache_write u.cache_write;
  cache_write_1h = max_ℤ r.cache_write_1h u.cache_write_1h;
}

abbrev pub or_else : String → String → String
or_else a b = if str_eq a "" then b else a

-- mergeResponse
unfoldable pub merge_response : Line → BlockActivity → Record → Record
merge_response l act r = record r {
  tokens = max_tokens r.tokens (tokens_of l.message_usage);
  activity = add_calls act r.activity;
  skill = or_else r.skill l.attribution_skill;
  agent = or_else r.agent l.attribution_agent;
  cache_miss_reason = or_else r.cache_miss_reason (vocabulary_token l.message_cache_miss);
}

-- carryForward.project
unfoldable pub project_of : Library → CarryForward → String
project_of lib cf = if str_eq cf.cwd "" then "" else lib.base cf.cwd

-- recordFromLine; the counters of a new record are the blocks' own.
unfoldable pub record_from_line : Library → Line → CarryForward → BlockActivity → String → Record
record_from_line lib l cf act key = record {
  tool = "claude-code";
  session_id = l.session_id;
  timestamp = l.timestamp;
  model = l.message_model;
  tokens = tokens_of l.message_usage;
  cache_miss_reason = vocabulary_token l.message_cache_miss;
  dedupe_key = key;
  member = "";
  project = project_of lib cf;
  subpath = "";
  repo_key = "";
  project_guessed = false;
  git_branch = cf.git_branch;
  entrypoint = cf.entrypoint;
  granularity = "turn";
  activity = record no_activity {
    tool_calls = pos (total_calls act.by_purpose);
    edits = pos act.edits;
    reads = pos act.by_purpose.reads;
    searches = pos act.by_purpose.searches;
    commands = pos act.by_purpose.commands;
    writes = pos act.by_purpose.writes;
    other = pos act.by_purpose.other;
  };
  sidechain = if l.is_sidechain then pos 1 else pos 0;
  skill = l.attribution_skill;
  agent = l.attribution_agent;
}
