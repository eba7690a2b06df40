-- ===== src/Examples/Transcripts.antt =====
-- internal/parser/claude at one concrete transcript, whose lines name what they decode to.
use assaio.Parser.Claude.Reader.{
  record_step, append_assistant, attribute, classify_tool_result, mark_tool_errors, mark_denial,
  mark_compaction, apply_marked, apply_fresh, apply_line, observe,
}
use assaio.Parser.Claude.Results.{
  sub_agent_record, hunk_lines, count_patch_lines, created_body, line_counts,
}
use assaio.Parser.Claude.Records.{
  cache_write_1h, tokens_of, count_blocks, decode_blocks, add_calls, merge_response, project_of,
  record_from_line,
}
use assaio.Parser.Claude.Recorder.{
  ref, stop_outcome, append_step, refine, assistant, target_path, call_step, tool_calls,
  resolve_results, denial, compaction, stamp,
}
use assaio.Parser.Claude.Target.{slashed, rooted, cleaned, target_key}
use assaio.Parser.Tools.{
  plus, is_one_of, tool_class, add_class, add_call, total_calls, kind_of_class, step_kind, newlines,
  ends_in_newline, content_lines, split_lines, lookup, is_vocabulary, vocabulary_token,
}
use assaio.Parser.{
  non_neg, subset, sum_from, sum_non_neg, budget_of, rework, turn_tokens, token_count_record,
  apply_token_counts,
}
use assaio.Prelude.Int.{◌+ℤ◌, ◌-ℤ◌, wrap64}
use assaio.Prelude.{
  ℕ, ◌≡◌, refl, false, List, [], ◌∷◌, none, some, String, str_eq, All, count_if, get_elem?,
  if◌then◌else◌,
}
use assaio.Prelude.Int.{pos}
use assaio.Usage.{Record, Step}
use assaio.Parser.Claude.{Library, Line, TokenUsage, ContentBlock, new_parse_state}
use assaio.Parser.Claude.Reader.{apply_raw, apply_raws, parse_all}
use assaio.Parser.Claude.Records.{no_activity}
use assaio.Parser.Claude.Totals.{parse_all-Sound, IsSound}
use assaio.Parser.Claude.Retry.{apply_raw_again}
use assaio.Parser.Claude.Skips.{parse_all_skipped, is_unreadable}
use assaio.Parser.Claude.Sequence.{parse_all_orderly, IsPlaced, IsOf, IsKnown}
use assaio.Parser.Claude.Priced.{parse_all_own, parse_all_priced, HasTurn}

abbrev usage_of : String → TokenUsage
usage_of uuid = record {
  input = pos 10;
  output = if str_eq uuid "u1" then pos 1 else pos 9;
  cache_write = pos 5;
  cache_read = pos 3;
  creation_1h = some (pos 8);
}

-- A line of one response, whose first part names the blocks it holds.
abbrev response_line : String → String → Line
response_line uuid content = record {
  kind = "assistant";
  uuid = uuid;
  timestamp = 7;
  session_id = "s";
  cwd = "/w/app";
  git_branch = "main";
  entrypoint = "cli";
  tool_use_result = "";
  tool_denial_kind = "";
  is_sidechain = false;
  agent_id = "";
  attribution_skill = "";
  attribution_agent = "";
  is_compact_summary = false;
  subtype = "";
  message_model = "opus";
  message_id = "m1";
  message_content = content;
  message_usage = usage_of uuid;
  message_stop_reason = "tool_use";
  message_cache_miss = "";
}

abbrev user_line : Line
user_line = record (response_line "u3" "answer") {
  kind = "user";
  message_model = "";
  message_id = "";
}

abbrev read_block : ContentBlock
read_block = record {
  kind = "tool_use";
  name = "Read";
  is_error = false;
  id = "t1";
  tool_use_id = "";
  input = "a";
}

abbrev answer_block : ContentBlock
answer_block = record read_block { kind = "tool_result"; name = ""; id = ""; tool_use_id = "t1" }

abbrev transcript_library : Library
transcript_library = record {
  line = λ raw.
      if str_eq raw "first"
      then some (response_line "u1" "text")
      else if str_eq raw "second"
      then some (response_line "u2" "call")
      else if str_eq raw "answer"
      then some user_line
      else none;
  blocks = λ raw.
      if str_eq raw "call"
      then some (read_block ∷ [])
      else if str_eq raw "answer"
      then some (answer_block ∷ [])
      else none;
  tool_target = λ raw. some (record { file_path = "/w/app/a"; notebook_path = "" });
  tool_result = λ raw. none;
  text = λ raw. none;
  base = λ path. "app";
  clean = λ path. path;
  itoa = λ n. "0";
}

-- One response written as two lines, the second of them twice, its result, and a broken line.
abbrev transcript : List String
transcript = "first" ∷ "second" ∷ "second" ∷ "answer" ∷ "broken" ∷ []

parse_all-Sound_example : All IsSound (parse_all transcript_library transcript).records
parse_all-Sound_example = parse_all-Sound transcript_library transcript

apply_raw_again_example :
    apply_raw transcript_library "second" (apply_raw transcript_library "second" new_parse_state)
    ≡ apply_raw transcript_library "second" new_parse_state
apply_raw_again_example =
    apply_raw_again transcript_library "second" (response_line "u2" "call") new_parse_state refl
      refl refl

parse_all_skipped_example :
    (parse_all transcript_library transcript).skipped
    ≡ count_if (is_unreadable transcript_library) transcript
parse_all_skipped_example = parse_all_skipped transcript_library transcript

parse_all_orderly_example :
    let st = apply_raws transcript_library transcript new_parse_state in
    IsPlaced 0 (parse_all transcript_library transcript).steps
    × (IsOf st.session_id st.timeline (parse_all transcript_library transcript).steps
        × All IsKnown (parse_all transcript_library transcript).steps)
parse_all_orderly_example = parse_all_orderly transcript_library transcript

-- What the two lines of the response leave: the largest counters, and the one call.
abbrev folded : Record
folded = record {
  tool = "claude-code";
  session_id = "s";
  timestamp = 7;
  model = "opus";
  tokens = record {
    input = pos 10;
    output = pos 9;
    cache_read = pos 3;
    cache_write = pos 5;
    reasoning = pos 0;
    cache_write_1h = pos 5;
  };
  cache_miss_reason = "";
  dedupe_key = "m1";
  member = "";
  project = "app";
  subpath = "";
  repo_key = "";
  project_guessed = false;
  git_branch = "main";
  entrypoint = "cli";
  granularity = "turn";
  activity = record no_activity { tool_calls = pos 1; reads = pos 1 };
  sidechain = pos 0;
  skill = "";
  agent = "";
}

abbrev told : Step
told = record {
  tool = "claude-code";
  session_id = "s";
  timeline = "";
  dedupe_key = "m1";
  timestamp = 7;
  ordinal = pos 1;
  kind = "assistant";
  outcome = "";
  model = "opus";
  tokens = pos 27;
  target_ref = pos 0;
}

folded_there : get_elem? (parse_all transcript_library transcript).records 0 ≡ some folded
unfolding ◌+ℤ◌ ◌-ℤ◌ wrap64 non_neg subset sum_from sum_non_neg budget_of rework turn_tokens
    token_count_record apply_token_counts plus is_one_of tool_class add_class add_call total_calls
    kind_of_class step_kind newlines ends_in_newline content_lines split_lines lookup is_vocabulary
    vocabulary_token slashed rooted cleaned target_key ref stop_outcome append_step refine assistant
    target_path call_step tool_calls resolve_results denial compaction stamp cache_write_1h
    tokens_of count_blocks decode_blocks add_calls merge_response project_of record_from_line
    sub_agent_record hunk_lines count_patch_lines created_body line_counts record_step
    append_assistant attribute classify_tool_result mark_tool_errors mark_denial mark_compaction
    apply_marked apply_fresh apply_line observe apply_raw apply_raws parse_all
folded_there = refl

told_there : get_elem? (parse_all transcript_library transcript).steps 0 ≡ some told
unfolding ◌+ℤ◌ ◌-ℤ◌ wrap64 non_neg subset sum_from sum_non_neg budget_of rework turn_tokens
    token_count_record apply_token_counts plus is_one_of tool_class add_class add_call total_calls
    kind_of_class step_kind newlines ends_in_newline content_lines split_lines lookup is_vocabulary
    vocabulary_token slashed rooted cleaned target_key ref stop_outcome append_step refine assistant
    target_path call_step tool_calls resolve_results denial compaction stamp cache_write_1h
    tokens_of count_blocks decode_blocks add_calls merge_response project_of record_from_line
    sub_agent_record hunk_lines count_patch_lines created_body line_counts record_step
    append_assistant attribute classify_tool_result mark_tool_errors mark_denial mark_compaction
    apply_marked apply_fresh apply_line observe apply_raw apply_raws parse_all
told_there = refl

abbrev opening : ℕ
opening = 0

parse_all_own_example : opening ≡ opening
parse_all_own_example =
    parse_all_own transcript_library transcript opening opening folded folded folded_there
      folded_there refl refl refl

parse_all_priced_example : HasTurn (parse_all transcript_library transcript).records "m1" (pos 27)
parse_all_priced_example = parse_all_priced transcript_library transcript 0 told told_there refl
