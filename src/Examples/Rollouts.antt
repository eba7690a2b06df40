-- ===== src/Examples/Rollouts.antt =====
-- internal/parser/codex at one concrete rollout, whose lines name what they decode to.
use assaio.Parser.Codex.Reader.{entrypoint_of, apply_turn_context, flush_trailing_activity}
use assaio.Parser.Codex.Records.{
  patches_of, flush_into, diff_line, diff_lines, diff_line_counts, change_line_counts,
}
use assaio.Parser.Codex.Recorder.{
  open_turn, close_turn, failed_status, tool_call, target_of, edit_files, edits, compaction,
  settled, stamp_from, stamp,
}
use assaio.Parser.Tools.{
  plus, is_one_of, tool_class, add_class, add_call, total_calls, kind_of_class, step_kind, newlines,
  ends_in_newline, content_lines, split_lines, lookup, is_vocabulary, vocabulary_token,
}
use assaio.Parser.{non_neg, subset, sum_from, sum_non_neg, budget_of, rework, apply_token_counts}
use assaio.Prelude.{insert_by, sort_by, str_ltb}
use assaio.Prelude.Int.{◌+ℤ◌}
use assaio.Prelude.{
  ◌≡◌, ◌≢◌, refl, true, false, ◌||◌, List, [], ◌∷◌, none, some, String, str_eq, All, count_if,
  if◌then◌else◌,
}
use mathlib.Core.List.{Sublistᴰ, cons-ne-nil}
use assaio.Prelude.Int.{◌-ℤ◌, wrap64, pos}
use assaio.Prelude.Wrap.{◌≈◌}
use assaio.Parser.{turn_tokens, token_count_record, Totals}
use assaio.Parser.Codex.{ParseState, Library, ResponseItem, new_parse_state}
use assaio.Parser.Codex.Recorder.{ref}
use assaio.Parser.Codex.Reader.{
  apply_session_meta, apply_changes, apply_patch_apply_end, apply_compacted, apply_token_count,
  apply_event_msg, model_output, apply_response_item, apply_kind, apply_line, apply_lines,
  parse_all,
}
use assaio.Parser.Codex.Sequence.{parse_all_sequence, IsNumbered, IsKnown}
use assaio.Parser.Codex.Turns.{costs, bills}
use assaio.Parser.Codex.Billed.{parse_all-Billed}
use assaio.Parser.Codex.Compactions.{parse_all-compactions, compactions_of, is_compaction}
use assaio.Parser.Codex.Skips.{parse_all-skipped, is_unreadable}

abbrev line_kind : String → String
line_kind raw =
    if str_eq raw "meta"
    then "session_meta"
    else if str_eq raw "talk" || str_eq raw "call"
    then "response_item"
    else if str_eq raw "compact"
    then "compacted"
    else "event_msg"

abbrev totals_at : String → Totals
totals_at raw =
    if str_eq raw "count"
    then record { input = pos 100; cached = pos 40; output = pos 10; reasoning = pos 2 }
    else record { input = pos 250; cached = pos 90; output = pos 30; reasoning = pos 2 }

abbrev item_at : String → ResponseItem
item_at raw =
    if str_eq raw "call"
    then record {
      kind = "function_call";
      name = "shell";
      status = "completed";
      role = "";
      call_id = "c1";
    }
    else record { kind = "message"; name = ""; status = ""; role = "assistant"; call_id = "" }

abbrev rollout_library : Library
rollout_library = record {
  envelope = λ raw.
      if str_eq raw "junk"
      then none
      else some (record { kind = line_kind raw; timestamp = 7; payload = raw });
  session_meta = λ raw.
      some (record { id = "s"; timestamp = 5; model = "m"; cwd = "/w/app"; source = some "cli" });
  turn_context = λ raw. some "m";
  payload_kind = λ raw. some (if str_eq raw "patch" then "patch_apply_end" else "token_count");
  token_count = λ raw. some (some (totals_at raw));
  patch_apply_end =
      λ raw. some (record { success = true; changes = ("/w/b", "x") ∷ ("/w/a", "x") ∷ [] });
  patch_file_change =
      λ raw. some (record { kind = "add"; unified_diff = ""; content = "one\ntwo" });
  response_item = λ raw. some (item_at raw);
  base = λ path. "app";
  fingerprint = λ raw. "0badcafe";
  decimal = λ n. "0";
}

-- Two priced turns, a failed line between them, and a turn still open at the end.
abbrev rollout : List String
rollout =
    "meta" ∷ "talk" ∷ "call" ∷ "patch" ∷ "count" ∷ "junk" ∷ "talk" ∷ "compact" ∷ "count_2" ∷ "talk"
    ∷ []

parse_all_sequence_example :
    IsNumbered
      (apply_lines rollout_library rollout new_parse_state).session
      0
      (parse_all rollout_library rollout false).steps
    × All IsKnown (parse_all rollout_library rollout false).steps
parse_all_sequence_example = parse_all_sequence rollout_library rollout false

parse_all-Billed_example :
    Sublistᴰ
      (costs (parse_all rollout_library rollout false).steps)
      (bills (parse_all rollout_library rollout false).records)
parse_all-Billed_example = parse_all-Billed rollout_library rollout false

rollout_records : (parse_all rollout_library rollout false).records ≢ []
unfolding ◌+ℤ◌ ◌-ℤ◌ wrap64 insert_by sort_by str_ltb non_neg subset sum_from sum_non_neg budget_of
    rework turn_tokens token_count_record apply_token_counts plus is_one_of tool_class add_class
    add_call total_calls kind_of_class step_kind newlines ends_in_newline content_lines split_lines
    lookup is_vocabulary vocabulary_token open_turn close_turn failed_status tool_call target_of ref
    edit_files edits compaction settled stamp_from stamp patches_of flush_into diff_line diff_lines
    diff_line_counts change_line_counts apply_token_count apply_changes apply_patch_apply_end
    apply_event_msg model_output apply_response_item entrypoint_of apply_session_meta
    apply_turn_context apply_compacted apply_kind apply_line apply_lines flush_trailing_activity
    parse_all
rollout_records e = cons-ne-nil _ _ e

parse_all-compactions_example :
    compactions_of (parse_all rollout_library rollout false).records
    ≈ pos (count_if is_compaction (parse_all rollout_library rollout false).steps)
parse_all-compactions_example = parse_all-compactions rollout_library rollout rollout_records

parse_all-skipped_example :
    (parse_all rollout_library rollout false).skipped
    ≡ count_if (is_unreadable rollout_library) rollout
parse_all-skipped_example = parse_all-skipped rollout_library rollout false

-- The rollout has one unreadable line and two priced turns.
skipped_one : (parse_all rollout_library rollout false).skipped ≡ 1
unfolding ◌+ℤ◌ ◌-ℤ◌ wrap64 insert_by sort_by str_ltb non_neg subset sum_from sum_non_neg budget_of
    rework turn_tokens token_count_record apply_token_counts plus is_one_of tool_class add_class
    add_call total_calls kind_of_class step_kind newlines ends_in_newline content_lines split_lines
    lookup is_vocabulary vocabulary_token open_turn close_turn failed_status tool_call target_of ref
    edit_files edits compaction settled stamp_from stamp patches_of flush_into diff_line diff_lines
    diff_line_counts change_line_counts apply_token_count apply_changes apply_patch_apply_end
    apply_event_msg model_output apply_response_item entrypoint_of apply_session_meta
    apply_turn_context apply_compacted apply_kind apply_line apply_lines flush_trailing_activity
    parse_all
skipped_one = refl

rollout_costs : costs (parse_all rollout_library rollout false).steps ≡ pos 110 ∷ pos 170 ∷ []
unfolding ◌+ℤ◌ ◌-ℤ◌ wrap64 insert_by sort_by str_ltb non_neg subset sum_from sum_non_neg budget_of
    rework turn_tokens token_count_record apply_token_counts plus is_one_of tool_class add_class
    add_call total_calls kind_of_class step_kind newlines ends_in_newline content_lines split_lines
    lookup is_vocabulary vocabulary_token open_turn close_turn failed_status tool_call target_of ref
    edit_files edits compaction settled stamp_from stamp patches_of flush_into diff_line diff_lines
    diff_line_counts change_line_counts apply_token_count apply_changes apply_patch_apply_end
    apply_event_msg model_output apply_response_item entrypoint_of apply_session_meta
    apply_turn_context apply_compacted apply_kind apply_line apply_lines flush_trailing_activity
    parse_all
rollout_costs = refl

abbrev file_a : String
file_a = "/w/a"

abbrev file_c : String
file_c = "/w/c"

-- The rollout, a patch of two files, and the rollout once more.
abbrev patched_state : ParseState
patched_state = apply_lines rollout_library rollout new_parse_state
