-- ===== src/Parser/Claude.antt =====
-- internal/parser/claude: the state of one pass over a Claude Code transcript. The lines are
-- decoded by encoding/json; paths and numbers are cleaned and printed by the standard library. Both
-- are the operations of `Library`. Counters that advance by one or by the lines of the log are
-- unbounded, and a raw message is the text of it, empty where the field is absent.
use assaio.Prelude.{ℕ, String, Bool, false, List, [], Option, none}
use assaio.Prelude.Int.{ℤ}
use assaio.Usage.{Record, Step}
use assaio.Parser.{Unreworked}
use assaio.Parser.Tools.{ToolCounts}
pub mod Target
pub mod Results
pub mod Records
pub mod Moves
pub mod Priced
pub mod Recorder
pub mod Responses
pub mod Retry
pub mod Skips
pub mod Sequence
pub mod Totals
pub mod Reader

-- tokenUsage; `creation_1h` is Creation.Ephemeral1h, none where Creation is nil.
pub record TokenUsage : Type 0 where
  pub input : ℤ
  pub output : ℤ
  pub cache_write : ℤ
  pub cache_read : ℤ
  pub creation_1h : Option ℤ

-- contentBlock
pub record ContentBlock : Type 0 where
  pub kind : String
  pub name : String
  pub is_error : Bool
  pub id : String
  pub tool_use_id : String
  pub input : String

-- toolTarget
pub record ToolTarget : Type 0 where
  pub file_path : String
  pub notebook_path : String

-- toolStats
pub record ToolStats : Type 0 where
  pub lines_added : ℤ
  pub lines_removed : ℤ

-- toolResult; a patch is its hunks, each the lines of a patchHunk, and none where it is nil.
pub record ToolResult : Type 0 where
  pub agent_id : String
  pub agent_type : String
  pub resolved_model : String
  pub usage : Option TokenUsage
  pub tool_stats : Option ToolStats
  pub file_path : String
  pub kind : String
  pub content : String
  pub structured_patch : Option (List (List String))

-- line; the fields of Message are named after it.
pub record Line : Type 0 where
  pub kind : String
  pub uuid : String
  pub timestamp : ℕ
  pub session_id : String
  pub cwd : String
  pub git_branch : String
  pub entrypoint : String
  pub tool_use_result : String
  pub tool_denial_kind : String
  pub is_sidechain : Bool
  pub agent_id : String
  pub attribution_skill : String
  pub attribution_agent : String
  pub is_compact_summary : Bool
  pub subtype : String
  pub message_model : String
  pub message_id : String
  pub message_content : String
  pub message_usage : TokenUsage
  pub message_stop_reason : String
  pub message_cache_miss : String

-- carryForward
pub record CarryForward : Type 0 where
  pub cwd : String
  pub git_branch : String
  pub entrypoint : String

-- What the reader calls: json.Unmarshal at each type, none for its error; path/filepath.Base,
-- path.Clean and strconv.Itoa.
pub record Library : Type 0 where
  pub line : String → Option Line
  pub blocks : String → Option (List ContentBlock)
  pub tool_target : String → Option ToolTarget
  pub tool_result : String → Option ToolResult
  pub text : String → Option String
  pub base : String → String
  pub clean : String → String
  pub itoa : ℕ → String

-- blockActivity
pub record BlockActivity : Type 0 where
  pub edits : ℕ
  pub errors : ℕ
  pub by_purpose : ToolCounts

-- stepRecorder; the maps are lists of what was put, the last first.
pub record StepRecorder : Type 0 where
  pub steps : List Step
  pub targets : List (String × ℤ)
  pub by_tool_use : List (String × ℕ)
  pub by_response : List (String × ℕ)
  pub calls_per_response : List (String × ℕ)
  pub ordinal : ℕ

abbrev pub new_step_recorder : StepRecorder
new_step_recorder = record {
  steps = [];
  targets = [];
  by_tool_use = [];
  by_response = [];
  calls_per_response = [];
  ordinal = 0;
}

-- parseState, with the carryForward of ParseAll; `last` is none where the source has -1.
pub record ParseState : Type 0 where
  pub out : List Record
  pub seen_line : List String
  pub in_compaction : Bool
  pub by_message : List (String × ℕ)
  pub last : Option ℕ
  pub rework : Unreworked
  pub skipped : ℕ
  pub steps : StepRecorder
  pub session_id : String
  pub timeline : String
  pub carry : CarryForward

-- newParseState
abbrev pub new_parse_state : ParseState
new_parse_state = record {
  out = [];
  seen_line = [];
  in_compaction = false;
  by_message = [];
  last = none;
  rework = [];
  skipped = 0;
  steps = new_step_recorder;
  session_id = "";
  timeline = "";
  carry = record { cwd = ""; git_branch = ""; entrypoint = "" };
}
