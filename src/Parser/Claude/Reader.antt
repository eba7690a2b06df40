-- ===== src/Parser/Claude/Reader.antt =====
-- internal/parser/claude/claude.go, turn.go, toolresult.go, content.go, compaction.go, dedupe.go,
-- rework.go and line.go: one pass over the lines of a transcript.
use assaio.Prelude.{
  ℕ, ◌+◌, String, Bool, true, false, ◌&&◌, ◌||◌, not, List, [], ◌∷◌, ◌++◌, Option, none, some,
  any_of, length, get_elem?, update_at, str_eq, if◌then◌else◌,
}
use assaio.Prelude.Int.{ℤ, pos, ◌+ℤ◌, wrap64}
use assaio.Usage.{Tokens, Activity, Record, Step}
use assaio.Parser.{rework, sum_non_neg}
use assaio.Parser.Tools.{plus, lookup}
use assaio.Parser.Claude.{
  Library, TokenUsage, ContentBlock, ToolResult, Line, BlockActivity, StepRecorder, ParseState,
  new_parse_state,
}
use assaio.Parser.Claude.Recorder.{
  assistant, tool_calls, resolve_results, denial, compaction, stamp,
}
use assaio.Parser.Claude.Records.{
  count_blocks, no_block_activity, decode_blocks, or_else, merge_response, record_from_line,
}
use assaio.Parser.Claude.Results.{sub_agent_record, line_counts}

-- Some counters of the record at the cursor changed; nothing where there is none.
abbrev pub at_last : (Activity → Activity) → Option ℕ → List Record → List Record
at_last f none out = out
at_last f (some i) out = update_at (λ (r : Record). record r { activity = f r.activity }) i out

abbrev pub bill : Tokens → ℤ
bill t = sum_non_neg (t.input ∷ t.output ∷ t.cache_read ∷ t.cache_write ∷ [])

abbrev pub bill_of : Option Record → ℤ
bill_of none = pos 0
bill_of (some r) = bill r.tokens

-- parseState.recordStep, of the record at an index.
unfoldable pub record_step :
    Library → Line → String → List ContentBlock → ℕ → ParseState → ParseState
record_step lib l key blocks at st =
    let said = assistant l key (bill_of (get_elem? st.out at)) st.steps in
    record st { steps = tool_calls lib l key st.carry.cwd blocks said }

-- What appendAssistant keys a response by.
abbrev pub response_key : Line → String
response_key l = or_else l.message_id l.uuid

abbrev pub append_keyed :
    Library → Line → BlockActivity → List ContentBlock → String → Option ℕ → ParseState → ParseState
append_keyed lib l act blocks key (some at) st =
    record_step lib l key blocks at
      (record st { out = update_at (merge_response l act) at st.out; last = some at })
append_keyed lib l act blocks key none st =
    let at = length st.out in
    record_step lib l key blocks at (record st {
      out = st.out ++ (record_from_line lib l st.carry act key ∷ []);
      last = some at;
      by_message = (key, at) ∷ st.by_message;
    })

-- parseState.appendAssistant
unfoldable pub append_assistant :
    Library → Line → BlockActivity → List ContentBlock → ParseState → ParseState
append_assistant lib l act blocks st =
    let key = response_key l in
    if not (str_eq l.kind "assistant") || str_eq l.message_model ""
    then st
    else if str_eq key ""
    then record st { skipped = st.skipped + 1 }
    else append_keyed lib l act blocks key (lookup key st.by_message) st

abbrev pub attribute_at : Option ℕ → String → ℕ × ℕ → ParseState → ParseState
attribute_at none file n st = st
attribute_at (some i) file n st =
    let r = rework st.rework file (pos n.0) (pos n.1) in
    let counted = λ (a : Activity). record a {
      lines_added = plus a.lines_added n.0;
      lines_removed = plus a.lines_removed n.1;
      rework_lines = wrap64 (a.rework_lines +ℤ r.0);
    } in
    record st { out = at_last counted st.last st.out; rework = r.1 }

-- reworkTracker.attribute
unfoldable pub attribute : String → ℕ × ℕ → ParseState → ParseState
attribute file n st = attribute_at st.last file n st

-- resultAction, with what each action needs.
pub data ResultAction : Type 0 where
  action_none action_stub : ResultAction
  action_sub_agent : ToolResult → TokenUsage → ResultAction
  action_edit : ToolResult → ResultAction

abbrev pub classify_parsed : Option ToolResult → ResultAction
classify_parsed none = ResultAction.action_none
classify_parsed (some t) =
    if not (str_eq t.agent_id "")
    then elim t.usage [
      | none ↦ ResultAction.action_stub
      | some u ↦ ResultAction.action_sub_agent t u
    ]
    else elim t.structured_patch [
      | none ↦ ResultAction.action_none
      | some hs ↦ ResultAction.action_edit t
    ]

-- parseToolResult and classifyToolResult
unfoldable pub classify_tool_result : Library → String → ResultAction
classify_tool_result lib raw = classify_parsed (if str_eq raw "" then none else lib.tool_result raw)

-- applyToolResult: none where the line matched neither shape.
abbrev pub apply_action : Library → Line → ResultAction → ParseState → Option ParseState
apply_action lib l ResultAction.action_none st = none
apply_action lib l ResultAction.action_stub st = some st
apply_action lib l (ResultAction.action_sub_agent t u) st =
    some (record st { out = st.out ++ (sub_agent_record lib l t u st.carry ∷ []) })
apply_action lib l (ResultAction.action_edit t) st =
    some (attribute t.file_path (line_counts lib t) st)

-- markToolErrors
unfoldable pub mark_tool_errors : ℕ → ParseState → ParseState
mark_tool_errors n st = record st {
  out = at_last (λ (a : Activity). record a { errors = plus a.errors n }) st.last st.out;
}

-- markDenial of a stated kind
unfoldable pub mark_denial : ParseState → ParseState
mark_denial st = record st {
  out = at_last (λ (a : Activity). record a { rejected = plus a.rejected 1 }) st.last st.out;
}

abbrev pub marks_compaction : Line → Bool
marks_compaction l = l.is_compact_summary || str_eq l.subtype "compact_boundary"

-- markCompaction of a marker, and the step that applyLine records with it.
unfoldable pub mark_compaction : Line → ParseState → ParseState
mark_compaction l st =
    let counted = λ (a : Activity). record a { compactions = plus a.compactions 1 } in
    let steps : StepRecorder = elim st.last [ none ↦ st.steps | some i ↦ compaction l st.steps ] in
    if st.in_compaction
    then st
    else record st { in_compaction = true; out = at_last counted st.last st.out; steps = steps }

abbrev pub after_result :
    Library → Line → BlockActivity → List ContentBlock → Option ParseState → ParseState → ParseState
after_result lib l act blocks (some done) st = done
after_result lib l act blocks none st = append_assistant lib l act blocks st

-- applyLine of a line that is no denial, after its errors are marked.
unfoldable pub apply_marked :
    Library → Line → BlockActivity → List ContentBlock → ParseState → ParseState
apply_marked lib l act blocks st =
    let left : ParseState = record st {
      in_compaction = false;
      steps = resolve_results blocks st.steps;
    } in
    let action = apply_action lib l (classify_tool_result lib l.tool_use_result) left in
    if marks_compaction l then mark_compaction l st else after_result lib l act blocks action left

-- applyLine of a line not seen before
unfoldable pub apply_fresh : Library → Line → ParseState → ParseState
apply_fresh lib l st =
    let blocks = decode_blocks lib l.message_content in
    let act = count_blocks blocks no_block_activity in
    let denied = mark_denial st in
    if not (str_eq l.tool_denial_kind "")
    then record denied { steps = denial blocks st.steps }
    else apply_marked lib l act blocks (mark_tool_errors act.errors st)

-- parseState.seen
abbrev pub is_seen : String → ParseState → Bool
is_seen uuid st = not (str_eq uuid "") && any_of (λ u. str_eq u uuid) st.seen_line

abbrev pub see : String → ParseState → ParseState
see uuid st = if str_eq uuid "" then st else record st { seen_line = uuid ∷ st.seen_line }

-- parseState.applyLine
unfoldable pub apply_line : Library → Line → ParseState → ParseState
apply_line lib l st = if is_seen l.uuid st then st else apply_fresh lib l (see l.uuid st)

-- carryForward.observe and parseState.observeIdentity
unfoldable pub observe : Line → ParseState → ParseState
observe l st = record st {
  carry = record {
    cwd = or_else l.cwd st.carry.cwd;
    git_branch = or_else l.git_branch st.carry.git_branch;
    entrypoint = or_else l.entrypoint st.carry.entrypoint;
  };
  session_id = or_else l.session_id st.session_id;
  timeline = or_else l.agent_id st.timeline;
}

abbrev pub apply_decoded : Library → Option Line → ParseState → ParseState
apply_decoded lib none st = record st { skipped = st.skipped + 1 }
apply_decoded lib (some l) st = apply_line lib l (observe l st)

-- One turn of the loop of ParseAll.
unfoldable pub apply_raw : Library → String → ParseState → ParseState
apply_raw lib raw st = if str_eq raw "" then st else apply_decoded lib (lib.line raw) st

unfoldable pub apply_raws : Library → List String → ParseState → ParseState
apply_raws lib [] st = st
apply_raws lib (raw ∷ raws) st = apply_raws lib raws (apply_raw lib raw st)

-- What ParseAll returns but for the scanner's error, which the caller adds to it.
pub record Reading : Type 0 where
  pub records : List Record
  pub steps : List Step
  pub skipped : ℕ

-- ParseAll, over the lines that the scanner gave.
unfoldable pub parse_all : Library → List String → Reading
parse_all lib raws =
    let st = apply_raws lib raws new_parse_state in
    record {
      records = st.out;
      steps = stamp st.session_id st.timeline st.steps.steps;
      skipped = st.skipped;
    }
