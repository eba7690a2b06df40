-- ===== src/Parser/Codex/Recorder.antt =====
-- internal/parser/codex/steps.go: the step sequence recorded beside the usage records.
use assaio.Prelude.{
  ℕ, ◌+◌, String, str_append, Bool, true, false, ◌||◌, List, [], ◌∷◌, ◌++◌, Option, none, some,
  any_of, length, update_at, sort_by, str_ltb, str_eq, if◌then◌else◌,
}
use assaio.Prelude.Int.{ℤ, pos}
use assaio.Usage.{Tokens, Step}
use assaio.Parser.{sum_non_neg}
use assaio.Parser.Tools.{step_kind}
use assaio.Parser.Codex.{Library, Slot, StepRecorder, ParseState}

abbrev pub push : Step → StepRecorder → StepRecorder
push st s = record s { slots = s.slots ++ (record { step = st; is_dropped = false } ∷ []) }

-- A step before `stamp` fills in its session and its ordinal.
abbrev pub unstamped : ParseState → String → String → Step
unstamped st key kind = record {
  tool = "";
  session_id = "";
  timeline = "";
  dedupe_key = key;
  timestamp = st.ts;
  ordinal = pos 0;
  kind = kind;
  outcome = "";
  model = st.model;
  tokens = pos 0;
  target_ref = pos 0;
}

-- The parts of a key, as fmt.Sprintf joins them.
abbrev pub key_of : String → String → String → String
key_of fp word rest = str_append fp (str_append word rest)

-- stepRecorder.openTurn
unfoldable pub open_turn : Library → ParseState → StepRecorder → StepRecorder
open_turn lib st s = elim s.turn_at [
  | some i ↦ s
  | none ↦
      record (push (unstamped st (key_of st.file_fp ":turn:" (lib.decimal st.turn)) "assistant")
        s) { turn_at = some (length s.slots) }
]

abbrev pub drop_slot : Slot → Slot
drop_slot x = record x { is_dropped = true }

abbrev pub price_slot : Tokens → Slot → Slot
price_slot t x = record x {
  step = record x.step { tokens = sum_non_neg (t.input ∷ t.cache_read ∷ t.output ∷ []) };
}

-- stepRecorder.closeTurn; none where no record was produced.
unfoldable pub close_turn : Option Tokens → StepRecorder → StepRecorder
close_turn produced s = elim s.turn_at [
  | none ↦ s
  | some i ↦
      let closed : StepRecorder = record s { named_write = false; turn_at = none } in
      elim produced [
        | none ↦ record closed { slots = update_at drop_slot i s.slots }
        | some t ↦ record closed { slots = update_at (price_slot t) i s.slots }
      ]
]

-- failedStatus
unfoldable pub failed_status : String → Bool
failed_status status = str_eq status "failed" || str_eq status "incomplete"

abbrev pub is_seen_call : String → StepRecorder → Bool
is_seen_call call_id s = str_eq call_id "" || any_of (λ c. str_eq c call_id) s.call_ids

-- stepRecorder.toolCall
unfoldable pub tool_call :
    Library → ParseState → String → String → String → StepRecorder → StepRecorder
tool_call lib st call_id name status s =
    let seen = is_seen_call call_id s in
    let key = if seen then str_append "call:" (lib.decimal (length s.slots)) else call_id in
    let step : Step = record (unstamped st (key_of st.file_fp ":" key) (step_kind name)) {
      outcome = if failed_status status then "error" else "";
    } in
    record (push step s) {
      call_ids = if seen then s.call_ids else call_id ∷ s.call_ids;
      named_write = if str_eq (step_kind name) "edit" then true else s.named_write;
    }

-- The map `targets` at a path.
unfoldable pub target_of : String → List (String × ℤ) → Option ℤ
target_of path [] = none
target_of path (t ∷ ts) = let rest = target_of path ts in if str_eq t.0 path then some t.1 else rest

abbrev pub assign : String → Option ℤ → List (String × ℤ) → ℤ × List (String × ℤ)
assign path (some r) targets = (r, targets)
assign path none targets = (pos (length targets + 1), (path, pos (length targets + 1)) ∷ targets)

-- stepRecorder.ref: the integer of a path, and the map after.
unfoldable pub ref : String → List (String × ℤ) → ℤ × List (String × ℤ)
ref path targets =
    if str_eq path "" then (pos 0, targets) else assign path (target_of path targets) targets

-- The loop of edits, from its index i.
unfoldable pub edit_files :
    Library → ParseState → String → ℕ → List String → StepRecorder → StepRecorder
edit_files lib st outcome i [] s = s
edit_files lib st outcome i (path ∷ paths) s =
    let r = ref path s.targets in
    let word = key_of (lib.decimal s.patches) ":" (lib.decimal i) in
    let step : Step = record (unstamped st (key_of st.file_fp ":patch:" word) "edit") {
      outcome = outcome;
      target_ref = r.0;
    } in
    edit_files lib st outcome (i + 1) paths (record (push step s) { targets = r.1 })

-- stepRecorder.edits
unfoldable pub edits : Library → ParseState → List String → Bool → StepRecorder → StepRecorder
edits lib st paths ok s =
    let counted : StepRecorder = record s { patches = s.patches + 1 } in
    if s.named_write
    then counted
    else edit_files lib st (if ok then "ok" else "error") 0 (sort_by str_ltb paths) counted

-- stepRecorder.compaction
unfoldable pub compaction : Library → ParseState → StepRecorder → StepRecorder
compaction lib st s =
    let n = s.compactions + 1 in
    record (push (unstamped st (key_of st.file_fp ":compaction:" (lib.decimal n)) "compaction") s) {
      compactions = n;
    }

-- The slots once the turn still open at the end is dropped too.
unfoldable pub settled : StepRecorder → List Slot
settled s = elim s.turn_at [ none ↦ s.slots | some i ↦ update_at drop_slot i s.slots ]

-- The loop of stamp, after `ordinal` steps.
unfoldable pub stamp_from : String → ℕ → List Slot → List Step
stamp_from session_id ordinal [] = []
stamp_from session_id ordinal (x ∷ xs) =
    let next = stamp_from session_id (ordinal + 1) xs in
    let rest = stamp_from session_id ordinal xs in
    if x.is_dropped
    then rest
    else record x.step { ordinal = pos (ordinal + 1); tool = "codex"; session_id = session_id }
      ∷ next

-- stepRecorder.stamp
unfoldable pub stamp : String → StepRecorder → List Step
stamp session_id s = stamp_from session_id 0 (settled s)
