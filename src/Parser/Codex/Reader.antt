-- ===== src/Parser/Codex/Reader.antt =====
-- internal/parser/codex/codex.go, activity.go, change.go, toolcall.go, sessionmeta.go and
-- tokencount.go: one pass over the lines of a rollout.
use assaio.Prelude.{
  ℕ, ◌+◌, String, str_append, Bool, false, ◌&&◌, ◌||◌, not, List, [], ◌∷◌, ◌++◌, Option, none, some,
  map, ◌==◌, str_eq, if◌then◌else◌,
}
use assaio.Prelude.Int.{pos, ◌+ℤ◌, wrap64}
use assaio.Usage.{Tokens, Record, Step}
use assaio.Parser.{rework, Totals, token_count_record}
use assaio.Parser.Tools.{add_call}
use assaio.Parser.Codex.{
  Library, Envelope, SessionMeta, PatchApplyEnd, ResponseItem, Pending, no_activity, ParseState,
  new_parse_state,
}
use assaio.Parser.Codex.Recorder.{
  open_turn, close_turn, failed_status, tool_call, edits, compaction, stamp,
}
use assaio.Parser.Codex.Records.{flush_into, change_line_counts}

abbrev pub skip : ParseState → ParseState
skip st = record st { skipped = st.skipped + 1 }

-- The record of a turn, before its activity; `turn_tokens` are its counters.
abbrev pub turn_record : Library → ParseState → Tokens → Record
turn_record lib st t = record {
  tool = "codex";
  session_id = st.session;
  timestamp = st.ts;
  model = st.model;
  tokens = t;
  cache_miss_reason = "";
  dedupe_key =
      str_append st.file_fp
        (str_append ":" (str_append st.session (str_append ":" (lib.decimal st.turn))));
  member = "";
  project = st.project;
  subpath = "";
  repo_key = "";
  project_guessed = false;
  git_branch = "";
  entrypoint = st.entrypoint;
  granularity = "turn";
  activity = record {
    lines_added = pos 0;
    lines_removed = pos 0;
    rework_lines = pos 0;
    edits = pos 0;
    tool_calls = pos 0;
    rejected = pos 0;
    compactions = pos 0;
    reads = pos 0;
    searches = pos 0;
    commands = pos 0;
    writes = pos 0;
    other = pos 0;
    errors = pos 0;
  };
  sidechain = pos 0;
  skill = "";
  agent = "";
}

-- applyTokenCount once the totals are differenced and the turn is closed.
abbrev pub emit : Library → Option Tokens → ParseState → ParseState
emit lib none st = st
emit lib (some t) st = record st {
  pending = no_activity;
  out = st.out ++ (flush_into st.pending (turn_record lib st t) ∷ []);
  turn = st.turn + 1;
}

abbrev pub close_and_emit : Library → Option Tokens → ParseState → ParseState
close_and_emit lib produced st =
    emit lib produced (record st { steps = close_turn produced st.steps })

abbrev pub count_tokens : Library → Option (Option Totals) → ParseState → ParseState
count_tokens lib none st = skip st
count_tokens lib (some none) st = st
count_tokens lib (some (some cur)) st =
    close_and_emit lib (token_count_record st.prev cur).0 (record st { prev = cur })

-- applyTokenCount
unfoldable pub apply_token_count : Library → String → ParseState → ParseState
apply_token_count lib payload st = count_tokens lib (lib.token_count payload) st

-- The loop of applyPatchApplyEnd.
unfoldable pub apply_changes : Library → List (String × String) → ParseState → ParseState
apply_changes lib [] st = st
apply_changes lib (c ∷ cs) st =
    let n = change_line_counts lib c.1 in
    let r = rework st.added_so_far c.0 (pos n.0) (pos n.1) in
    let p : Pending = record st.pending {
      lines_added = st.pending.lines_added + n.0;
      lines_removed = st.pending.lines_removed + n.1;
      rework_lines = wrap64 (st.pending.rework_lines +ℤ r.0);
    } in
    apply_changes lib cs (record st { pending = p; added_so_far = r.1 })

abbrev pub changed_paths : List (String × String) → List String
changed_paths cs = map (λ (c : String × String). c.0) cs

abbrev pub apply_patch : Library → Option PatchApplyEnd → ParseState → ParseState
apply_patch lib none st = skip st
apply_patch lib (some p) st =
    let attempted : Pending = record st.pending { patch_writes = st.pending.patch_writes + 1 } in
    let steps = edits lib st (changed_paths p.changes) p.success st.steps in
    let failed : Pending = record attempted { tool_errors = attempted.tool_errors + 1 } in
    let applied : Pending = record attempted { edits = attempted.edits + 1 } in
    if not p.success
    then record st { steps = steps; pending = failed }
    else apply_changes lib p.changes (record st { steps = steps; pending = applied })

-- applyPatchApplyEnd
unfoldable pub apply_patch_apply_end : Library → String → ParseState → ParseState
apply_patch_apply_end lib payload st = apply_patch lib (lib.patch_apply_end payload) st

abbrev pub apply_event : Library → String → Option String → ParseState → ParseState
apply_event lib payload none st = skip st
apply_event lib payload (some kind) st =
    if str_eq kind "token_count"
    then apply_token_count lib payload st
    else if str_eq kind "patch_apply_end"
    then apply_patch_apply_end lib payload st
    else st

-- applyEventMsg
unfoldable pub apply_event_msg : Library → String → ParseState → ParseState
apply_event_msg lib payload st = apply_event lib payload (lib.payload_kind payload) st

-- responseItem.modelOutput
unfoldable pub model_output : ResponseItem → Bool
model_output it =
    str_eq it.kind "reasoning"
    || str_eq it.kind "function_call"
    || str_eq it.kind "custom_tool_call"
    || str_eq it.kind "message" && str_eq it.role "assistant"

abbrev pub is_call : ResponseItem → Bool
is_call it = str_eq it.kind "function_call" || str_eq it.kind "custom_tool_call"

abbrev pub open_for : Library → ResponseItem → ParseState → ParseState
open_for lib it st = if model_output it then record st { steps = open_turn lib st st.steps } else st

abbrev pub call_for : Library → ResponseItem → ParseState → ParseState
call_for lib it st =
    let p : Pending = record st.pending {
      by_purpose = add_call it.name st.pending.by_purpose;
      tool_errors = st.pending.tool_errors + (if failed_status it.status then 1 else 0);
    } in
    record st { pending = p; steps = tool_call lib st it.call_id it.name it.status st.steps }

abbrev pub apply_item : Library → Option ResponseItem → ParseState → ParseState
apply_item lib none st = skip st
apply_item lib (some it) st =
    let opened = open_for lib it st in if is_call it then call_for lib it opened else opened

-- applyResponseItem
unfoldable pub apply_response_item : Library → String → ParseState → ParseState
apply_response_item lib payload st = apply_item lib (lib.response_item payload) st

-- sessionMeta.entrypoint
unfoldable pub entrypoint_of : SessionMeta → String
entrypoint_of m = elim m.source [ none ↦ "" | some word ↦ word ]

abbrev pub apply_meta : Library → Option SessionMeta → ParseState → ParseState
apply_meta lib none st = skip st
apply_meta lib (some m) st = record st {
  session = m.id;
  ts = if m.timestamp == 0 then st.ts else m.timestamp;
  model = if str_eq st.model "" then m.model else st.model;
  project = if str_eq m.cwd "" then st.project else lib.base m.cwd;
  entrypoint = if str_eq (entrypoint_of m) "" then st.entrypoint else entrypoint_of m;
}

-- applySessionMeta
unfoldable pub apply_session_meta : Library → String → ParseState → ParseState
apply_session_meta lib payload st = apply_meta lib (lib.session_meta payload) st

abbrev pub apply_context : Option String → ParseState → ParseState
apply_context none st = skip st
apply_context (some model) st = record st { model = if str_eq model "" then st.model else model }

-- applyTurnContext
unfoldable pub apply_turn_context : Library → String → ParseState → ParseState
apply_turn_context lib payload st = apply_context (lib.turn_context payload) st

-- The case "compacted" of ParseAll.
unfoldable pub apply_compacted : Library → ParseState → ParseState
apply_compacted lib st =
    let p : Pending = record st.pending { compactions = st.pending.compactions + 1 } in
    record st { pending = p; steps = compaction lib st st.steps }

-- The switch of ParseAll.
unfoldable pub apply_kind : Library → Envelope → ParseState → ParseState
apply_kind lib env st =
    if str_eq env.kind "session_meta"
    then apply_session_meta lib env.payload st
    else if str_eq env.kind "turn_context"
    then apply_turn_context lib env.payload st
    else if str_eq env.kind "event_msg"
    then apply_event_msg lib env.payload st
    else if str_eq env.kind "response_item"
    then apply_response_item lib env.payload st
    else if str_eq env.kind "compacted"
    then apply_compacted lib st
    else st

abbrev pub apply_envelope : Library → Option Envelope → ParseState → ParseState
apply_envelope lib none st = skip st
apply_envelope lib (some env) st =
    apply_kind lib env (record st { ts = if env.timestamp == 0 then st.ts else env.timestamp })

abbrev pub fingerprinted : Library → String → ParseState → ParseState
fingerprinted lib raw st =
    if str_eq st.file_fp "" then record st { file_fp = lib.fingerprint raw } else st

-- One turn of the loop of ParseAll.
unfoldable pub apply_line : Library → String → ParseState → ParseState
apply_line lib raw st =
    if str_eq raw "" then st else apply_envelope lib (lib.envelope raw) (fingerprinted lib raw st)

unfoldable pub apply_lines : Library → List String → ParseState → ParseState
apply_lines lib [] st = st
apply_lines lib (raw ∷ raws) st = apply_lines lib raws (apply_line lib raw st)

abbrev pub flush_last : Pending → List Record → List Record
flush_last a [] = []
flush_last a (r ∷ []) = flush_into a r ∷ []
flush_last a (r ∷ q ∷ rs) = r ∷ flush_last a (q ∷ rs)

-- flushTrailingActivity, the records it leaves.
unfoldable pub flush_trailing_activity : ParseState → List Record
flush_trailing_activity st = flush_last st.pending st.out

-- What ParseAll returns; `failed` stands for the error of the scanner.
pub record Reading : Type 0 where
  pub records : List Record
  pub steps : List Step
  pub skipped : ℕ
  pub failed : Bool

-- ParseAll; the lines are those the scanner gave, and `failed` says whether it stopped with an error.
unfoldable pub parse_all : Library → List String → Bool → Reading
parse_all lib raws failed =
    let st = apply_lines lib raws new_parse_state in
    record {
      records = if failed then st.out else flush_trailing_activity st;
      steps = stamp st.session st.steps;
      skipped = st.skipped;
      failed = failed;
    }
