-- ===== src/Parser/Codex.antt =====
-- internal/parser/codex: the state of one pass over a rollout. The lines are decoded by
-- encoding/json; paths, digests and numbers are printed by the standard library. Both are the
-- operations of `Library`. Counters that advance by one or by the lines of the log are unbounded.
use assaio.Prelude.{ℕ, String, Bool, false, List, [], Option, none}
use assaio.Prelude.Int.{ℤ, pos}
use assaio.Usage.{Record, Step}
use assaio.Parser.{Totals, Unreworked}
use assaio.Parser.Tools.{ToolCounts, no_calls}
pub mod Billed
pub mod Records
pub mod Calls
pub mod Compactions
pub mod Moves
pub mod Recorder
pub mod Sequence
pub mod Skips
pub mod Targets
pub mod Edits
pub mod Turns
pub mod Reader

-- envelope; the time is 0 where Go's IsZero holds, and the payload is raw.
pub record Envelope : Type 0 where
  pub kind : String
  pub timestamp : ℕ
  pub payload : String

-- sessionMeta; `source` is the word that `entrypoint` unmarshals, none for the object form.
pub record SessionMeta : Type 0 where
  pub id : String
  pub timestamp : ℕ
  pub model : String
  pub cwd : String
  pub source : Option String

-- patchApplyEnd; the changes in the order that Go ranges over the map.
pub record PatchApplyEnd : Type 0 where
  pub success : Bool
  pub changes : List (String × String)

-- patchFileChange
pub record PatchFileChange : Type 0 where
  pub kind : String
  pub unified_diff : String
  pub content : String

-- responseItem
pub record ResponseItem : Type 0 where
  pub kind : String
  pub name : String
  pub status : String
  pub role : String
  pub call_id : String

-- What the reader calls: json.Unmarshal at each type, none for its error; the token totals are none
-- inside where info is null; filepath.Base, parser.FileFingerprint and fmt's %d.
pub record Library : Type 0 where
  pub envelope : String → Option Envelope
  pub session_meta : String → Option SessionMeta
  pub turn_context : String → Option String
  pub payload_kind : String → Option String
  pub token_count : String → Option (Option Totals)
  pub patch_apply_end : String → Option PatchApplyEnd
  pub patch_file_change : String → Option PatchFileChange
  pub response_item : String → Option ResponseItem
  pub base : String → String
  pub fingerprint : String → String
  pub decimal : ℕ → String

-- activity
pub record Pending : Type 0 where
  pub lines_added : ℕ
  pub lines_removed : ℕ
  pub edits : ℕ
  pub compactions : ℕ
  pub rework_lines : ℤ
  pub tool_errors : ℕ
  pub by_purpose : ToolCounts
  pub patch_writes : ℕ

abbrev pub no_activity : Pending
no_activity = record {
  lines_added = 0;
  lines_removed = 0;
  edits = 0;
  compactions = 0;
  rework_lines = pos 0;
  tool_errors = 0;
  by_purpose = no_calls;
  patch_writes = 0;
}

-- A step of the recorder, with its mark in the map `dropped`.
pub record Slot : Type 0 where
  pub step : Step
  pub is_dropped : Bool

-- stepRecorder; turn_at is none where the source has -1, and the maps are lists.
pub record StepRecorder : Type 0 where
  pub slots : List Slot
  pub targets : List (String × ℤ)
  pub turn_at : Option ℕ
  pub patches : ℕ
  pub named_write : Bool
  pub compactions : ℕ
  pub call_ids : List String

abbrev pub new_step_recorder : StepRecorder
new_step_recorder = record {
  slots = [];
  targets = [];
  turn_at = none;
  patches = 0;
  named_write = false;
  compactions = 0;
  call_ids = [];
}

-- parseState; the working directory goes only to Record.Cwd, which is left out.
pub record ParseState : Type 0 where
  pub session : String
  pub ts : ℕ
  pub model : String
  pub project : String
  pub entrypoint : String
  pub file_fp : String
  pub prev : Totals
  pub turn : ℕ
  pub out : List Record
  pub skipped : ℕ
  pub pending : Pending
  pub added_so_far : Unreworked
  pub steps : StepRecorder

abbrev pub new_parse_state : ParseState
new_parse_state = record {
  session = "";
  ts = 0;
  model = "";
  project = "";
  entrypoint = "";
  file_fp = "";
  prev = record { input = pos 0; cached = pos 0; output = pos 0; reasoning = pos 0 };
  turn = 0;
  out = [];
  skipped = 0;
  pending = no_activity;
  added_so_far = [];
  steps = new_step_recorder;
}
