-- ===== src/Parser/Claude/Recorder.antt =====
-- internal/parser/claude/steps.go and target.go: the step sequence recorded beside the records.
use assaio.Prelude.{
  ℕ, ◌+◌, String, str_append, Bool, ◌||◌, not, List, [], ◌∷◌, ◌++◌, Option, none, some, length,
  update_at, str_eq, if◌then◌else◌,
}
use assaio.Prelude.Int.{ℤ, pos}
use assaio.Usage.{Step}
use assaio.Parser.Tools.{step_kind, lookup}
use assaio.Parser.Claude.{Library, Line, ContentBlock, ToolTarget, StepRecorder}
use assaio.Parser.Claude.Target.{target_key}

abbrev pub assign : String → Option ℤ → List (String × ℤ) → ℤ × List (String × ℤ)
assign key (some r) targets = (r, targets)
assign key none targets = (pos (length targets + 1), (key, pos (length targets + 1)) ∷ targets)

-- stepRecorder.ref: the integer of a path, and the map after.
unfoldable pub ref : Library → String → String → List (String × ℤ) → ℤ × List (String × ℤ)
ref lib path cwd targets =
    let key = target_key lib path cwd in
    if str_eq key "" then (pos 0, targets) else assign key (lookup key targets) targets

-- stopOutcome
unfoldable pub stop_outcome : String → String
stop_outcome stop =
    if str_eq stop "end_turn" || str_eq stop "stop_sequence"
    then "ok"
    else if str_eq stop "max_tokens"
    then "truncated"
    else ""

-- stepRecorder.append
unfoldable pub append_step : Step → StepRecorder → StepRecorder
append_step st s =
    let n = s.ordinal + 1 in
    let stamped : Step = record st { ordinal = pos n; tool = "claude-code" } in
    record s { ordinal = n; steps = s.steps ++ (stamped ∷ []) }

-- A step before `append` numbers it and `stamp` fills in its session and timeline.
abbrev pub unstamped : Line → String → String → String → Step
unstamped l key kind model = record {
  tool = "";
  session_id = "";
  timeline = "";
  dedupe_key = key;
  timestamp = l.timestamp;
  ordinal = pos 0;
  kind = kind;
  outcome = "";
  model = model;
  tokens = pos 0;
  target_ref = pos 0;
}

-- What another line of a response changes of its step.
unfoldable pub refine : Line → ℤ → Step → Step
refine l tokens s = record s {
  tokens = tokens;
  outcome = if str_eq s.outcome "" then stop_outcome l.message_stop_reason else s.outcome;
}

abbrev pub assistant_at : Option ℕ → Line → String → ℤ → StepRecorder → StepRecorder
assistant_at (some at) l key tokens s = record s { steps = update_at (refine l tokens) at s.steps }
assistant_at none l key tokens s =
    let step : Step = record (unstamped l key "assistant" l.message_model) {
      outcome = stop_outcome l.message_stop_reason;
      tokens = tokens;
    } in
    record (append_step step s) { by_response = (key, length s.steps) ∷ s.by_response }

-- stepRecorder.assistant
unfoldable pub assistant : Line → String → ℤ → StepRecorder → StepRecorder
assistant l key tokens s = assistant_at (lookup key s.by_response) l key tokens s

abbrev pub named_target : Option ToolTarget → String
named_target none = ""
named_target (some t) = if str_eq t.file_path "" then t.notebook_path else t.file_path

-- contentBlock.targetPath
unfoldable pub target_path : Library → ContentBlock → String
target_path lib b = if str_eq b.input "" then "" else named_target (lib.tool_target b.input)

abbrev pub count_of : Option ℕ → ℕ
count_of none = 0
count_of (some n) = n

-- The key of a call's step, and the counts after.
abbrev pub call_key :
    Library → String → ContentBlock → List (String × ℕ) → String × List (String × ℕ)
call_key lib key b calls =
    let n = count_of (lookup key calls) in
    if str_eq b.id ""
    then (str_append key (str_append ":" (lib.itoa n)), (key, n + 1) ∷ calls)
    else (b.id, calls)

-- One turn of the loop of toolCalls.
unfoldable pub call_step :
    Library → Line → String → String → ContentBlock → StepRecorder → StepRecorder
call_step lib l key cwd b s =
    let k = call_key lib key b s.calls_per_response in
    let r = ref lib (target_path lib b) cwd s.targets in
    let step : Step = record (unstamped l k.0 (step_kind b.name) l.message_model) {
      target_ref = r.0;
    } in
    record (append_step step s) {
      calls_per_response = k.1;
      targets = r.1;
      by_tool_use =
          if str_eq b.id "" then s.by_tool_use else (b.id, length s.steps) ∷ s.by_tool_use;
    }

-- stepRecorder.toolCalls
unfoldable pub tool_calls :
    Library → Line → String → String → List ContentBlock → StepRecorder → StepRecorder
tool_calls lib l key cwd [] s = s
tool_calls lib l key cwd (b ∷ bs) s =
    let called = call_step lib l key cwd b s in
    tool_calls lib l key cwd bs (if str_eq b.kind "tool_use" then called else s)

abbrev pub set_outcome : String → Step → Step
set_outcome o s = record s { outcome = o }

abbrev pub resolve_at : Option ℕ → Bool → StepRecorder → StepRecorder
resolve_at none is_error s = s
resolve_at (some i) is_error s = record s {
  steps = update_at (set_outcome (if is_error then "error" else "ok")) i s.steps;
}

-- stepRecorder.resolveResults
unfoldable pub resolve_results : List ContentBlock → StepRecorder → StepRecorder
resolve_results [] s = s
resolve_results (b ∷ bs) s =
    let settled = resolve_at (lookup b.tool_use_id s.by_tool_use) b.is_error s in
    resolve_results bs (if str_eq b.kind "tool_result" then settled else s)

abbrev pub deny_at : Option ℕ → StepRecorder → StepRecorder → StepRecorder
deny_at none rest s = rest
deny_at (some i) rest s = record s { steps = update_at (set_outcome "denied") i s.steps }

-- stepRecorder.denial
unfoldable pub denial : List ContentBlock → StepRecorder → StepRecorder
denial [] s = s
denial (b ∷ bs) s =
    let rest = denial bs s in
    if not (str_eq b.kind "tool_result") || str_eq b.tool_use_id ""
    then rest
    else deny_at (lookup b.tool_use_id s.by_tool_use) rest s

-- stepRecorder.compaction
unfoldable pub compaction : Line → StepRecorder → StepRecorder
compaction l s =
    if str_eq l.uuid ""
    then s
    else append_step (unstamped l (str_append l.uuid ":compaction") "compaction" "") s

-- stepRecorder.stamp
unfoldable pub stamp : String → String → List Step → List Step
stamp session_id timeline [] = []
stamp session_id timeline (s ∷ ss) =
    record s { session_id = session_id; timeline = timeline } ∷ stamp session_id timeline ss
