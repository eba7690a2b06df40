-- ===== src/Parser/Depth.antt =====
-- internal/parser/depth.go, depth_query.go and signals.go: what each source declares it can answer.
-- The gaps, which are prose, are left out.
use assaio.Prelude.{
  String, Bool, true, false, List, [], ◌∷◌, ◌++◌, Option, none, some, any_of, all_of, filter_if,
  map, sort_by, str_ltb, str_eq, starts_with, if◌then◌else◌,
}

-- Depth
pub record Depth : Type 0 where
  pub tool : String
  pub tier : String
  pub tokens : Bool
  pub activity : Bool
  pub attribution : Bool
  pub answers : List String
  pub lines_per_session : Bool

abbrev pub cost_signals : List String
cost_signals =
    "ai.tokens.total" ∷ "ai.tokens.input" ∷ "ai.tokens.output" ∷ "ai.tokens.cache_read"
    ∷ "ai.cost.estimated" ∷ "ai.sessions.count" ∷ []

abbrev pub cache_write_signals : List String
cache_write_signals = "ai.tokens.cache_write" ∷ []

abbrev pub reasoning_signals : List String
reasoning_signals = "ai.tokens.reasoning" ∷ []

abbrev pub cache_detail_signals : List String
cache_detail_signals = "ai.tokens.cache_write_1h" ∷ "ai.cache.miss_reason" ∷ []

abbrev pub per_turn_signals : List String
per_turn_signals = "ai.turns.count" ∷ "ai.session.active_minutes" ∷ []

abbrev pub line_signals : List String
line_signals = "ai.lines.added" ∷ "ai.lines.removed" ∷ []

abbrev pub edit_signals : List String
edit_signals = "ai.edits.count" ∷ "ai.tool_calls.count" ∷ "ai.rework.lines" ∷ []

abbrev pub compaction_signals : List String
compaction_signals = "ai.compactions.count" ∷ []

abbrev pub sequence_signals : List String
sequence_signals = "ai.steps.count" ∷ "ai.step.outcome" ∷ "ai.step.target" ∷ []

abbrev pub ordered_signals : List String
ordered_signals = "ai.steps.count" ∷ "ai.step.target" ∷ []

-- The rows of depths, deepest first.
abbrev pub claude_code : Depth
claude_code = record {
  tool = "claude-code";
  tier = "deep";
  tokens = true;
  activity = true;
  attribution = true;
  answers =
      cost_signals
      ++ cache_write_signals
      ++ per_turn_signals
      ++ line_signals
      ++ edit_signals
      ++ compaction_signals
      ++ cache_detail_signals
      ++ sequence_signals
      ++ ("ai.tool_errors.count" ∷ "ai.rejected.count" ∷ "ai.skill.tokens" ∷ "ai.agent.tokens"
          ∷ []);
  lines_per_session = false;
}

abbrev pub codex : Depth
codex = record {
  tool = "codex";
  tier = "standard";
  tokens = true;
  activity = true;
  attribution = false;
  answers =
      cost_signals ++ reasoning_signals ++ per_turn_signals ++ line_signals ++ edit_signals
      ++ compaction_signals ++ ordered_signals;
  lines_per_session = false;
}

abbrev pub gemini_cli : Depth
gemini_cli = record {
  tool = "gemini-cli";
  tier = "standard";
  tokens = true;
  activity = false;
  attribution = false;
  answers = cost_signals ++ reasoning_signals ++ per_turn_signals;
  lines_per_session = false;
}

abbrev pub copilot_cli : Depth
copilot_cli = record {
  tool = "copilot-cli";
  tier = "standard";
  tokens = true;
  activity = true;
  attribution = false;
  answers = cost_signals ++ cache_write_signals ++ reasoning_signals ++ line_signals;
  lines_per_session = true;
}

abbrev pub cline : Depth
cline = record {
  tool = "cline";
  tier = "standard";
  tokens = true;
  activity = false;
  attribution = false;
  answers = cost_signals ++ cache_write_signals ++ per_turn_signals;
  lines_per_session = false;
}

abbrev pub agy : Depth
agy = record {
  tool = "agy";
  tier = "activity-only";
  tokens = false;
  activity = true;
  attribution = false;
  answers =
      per_turn_signals ++ ("ai.sessions.count" ∷ "ai.tool_calls.count" ∷ "ai.edits.count" ∷ []);
  lines_per_session = false;
}

-- depths
abbrev pub depths : List Depth
depths = claude_code ∷ codex ∷ gemini_cli ∷ copilot_cli ∷ cline ∷ agy ∷ []

abbrev pub plugin_depth : Depth
plugin_depth = record {
  tool = "";
  tier = "standard";
  tokens = true;
  activity = false;
  attribution = false;
  answers = cost_signals ++ reasoning_signals;
  lines_per_session = false;
}

-- Tools
abbrev pub tools : List String
tools = map (λ (d : Depth). d.tool) depths

unfoldable pub depth_in : List Depth → String → Option Depth
depth_in [] tool = none
depth_in (d ∷ ds) tool = let rest = depth_in ds tool in if str_eq d.tool tool then some d else rest

-- DepthOf
unfoldable pub depth_of : String → Option Depth
depth_of tool = depth_in depths tool

abbrev pub depth_or_plugin : Option Depth → Bool → Option Depth
depth_or_plugin (some d) plugin = some d
depth_or_plugin none plugin = if plugin then some plugin_depth else none

-- The switch of Answers and of SignalsAnsweredBy.
unfoldable pub capability : String → Option Depth
capability tool = depth_or_plugin (depth_of tool) (starts_with tool "plugin:")

abbrev pub contains : List String → String → Bool
contains ids id = any_of (λ a. str_eq a id) ids

abbrev pub answers_with : Option Depth → String → Bool
answers_with none id = false
answers_with (some d) id = contains d.answers id

-- Answers
unfoldable pub answers : String → String → Bool
answers tool id = answers_with (capability tool) id

abbrev pub signals_with : Option Depth → List String
signals_with none = []
signals_with (some d) = sort_by str_ltb d.answers

-- SignalsAnsweredBy
unfoldable pub signals_answered_by : String → List String
signals_answered_by tool = signals_with (capability tool)

-- answersAny
unfoldable pub answers_any : String → List String → Bool
answers_any tool ids = any_of (answers tool) ids

-- answersAll
unfoldable pub answers_all : String → List String → Bool
answers_all tool ids = all_of (answers tool) ids

-- SourcesAnswering
unfoldable pub sources_answering : List String → List String
sources_answering ids = sort_by str_ltb (filter_if (λ t. answers_any t ids) tools)

-- HasFullActivity
unfoldable pub has_full_activity : String → Bool
has_full_activity tool = answers_all tool (line_signals ++ edit_signals)

-- HasLineOutput
unfoldable pub has_line_output : String → Bool
has_line_output tool = answers_all tool line_signals

-- RecordsLines
unfoldable pub records_lines : String → Bool
records_lines tool = answers tool "ai.lines.added"

abbrev pub credits_with : Option Depth → Bool
credits_with none = false
credits_with (some d) = d.lines_per_session

-- CreditsLinesPerSession
unfoldable pub credits_lines_per_session : String → Bool
credits_lines_per_session tool = credits_with (depth_of tool)
