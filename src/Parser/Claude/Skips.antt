-- ===== src/Parser/Claude/Skips.antt =====
-- The lines that internal/parser/claude leaves out and counts.
use assaio.Prelude.{
  ℕ, ◌+◌, ◌≡◌, refl, ap, ◌∙◌, String, Bool, true, false, not, ◌&&◌, ◌||◌, Bool-cases, inl, inr,
  List, [], ◌∷◌, Option, none, some, count_if, str_eq, arith, if◌then◌else◌,
}
use assaio.Parser.Tools.{lookup}
use assaio.Parser.Claude.{Library, Line, ContentBlock, BlockActivity, ParseState, new_parse_state}
use assaio.Parser.Claude.Reader.{
  ResultAction, append_keyed, append_assistant, response_key, record_step, attribute, attribute_at,
  classify_tool_result, apply_action, mark_tool_errors, mark_denial, marks_compaction,
  mark_compaction, after_result, apply_marked, apply_fresh, is_seen, see, apply_line, observe,
  apply_decoded, apply_raw, apply_raws, parse_all,
}
use assaio.Parser.Claude.Results.{line_counts}
use assaio.Parser.Claude.Records.{decode_blocks, count_blocks, no_block_activity}

-- A response that nothing identifies: an assistant line with a model, without a message id or a uuid,
-- that is no denial, no compaction marker and no result.
abbrev pub is_other_result : ResultAction → Bool
is_other_result ResultAction.action_none = true
is_other_result ResultAction.action_stub = false
is_other_result (ResultAction.action_sub_agent t u) = false
is_other_result (ResultAction.action_edit t) = false

abbrev pub is_keyless : Library → Line → Bool
is_keyless lib l =
    not (not (str_eq l.tool_denial_kind ""))
    && (not (marks_compaction l)
        && (is_other_result (classify_tool_result lib l.tool_use_result)
            && (not (not (str_eq l.kind "assistant") || str_eq l.message_model "")
                && str_eq (response_key l) "")))

abbrev pub is_line_refused : Library → Option Line → Bool
is_line_refused lib none = true
is_line_refused lib (some l) = is_keyless lib l

-- A line that is not empty and that encoding/json refuses, or a response that nothing identifies.
abbrev pub is_unreadable : Library → String → Bool
is_unreadable lib raw = not (str_eq raw "") && is_line_refused lib (lib.line raw)

abbrev pub one_if : Bool → ℕ
one_if b = if b then 1 else 0

module _ (lib : Library) (l : Line) where
  keyed_skipped :
      (act : BlockActivity) (bs : List ContentBlock) (key : String) (o : Option ℕ) (st : ParseState)
      → (append_keyed lib l act bs key o st).skipped ≡ st.skipped
  unfolding record_step
  keyed_skipped act bs key (some i) st = refl
  keyed_skipped act bs key none st = refl

  assistant_skipped :
      (act : BlockActivity) (bs : List ContentBlock) (st : ParseState)
      → (append_assistant lib l act bs st).skipped
        ≡ st.skipped
          + one_if (
              not (not (str_eq l.kind "assistant") || str_eq l.message_model "")
              && str_eq (response_key l) "")
  unfolding append_assistant
  assistant_skipped act bs st =
      elim (Bool-cases (not (str_eq l.kind "assistant") || str_eq l.message_model "")) [
        | inl e ↦ rw e (omega arith)
        | inr e ↦ elim (Bool-cases (str_eq (response_key l) "")) [
          | inl f ↦ rw (e, f) refl
          | inr f ↦
              rw (e, f)
                (keyed_skipped act bs (response_key l) (lookup (response_key l) st.by_message) st
                  ∙ omega arith)
        ]
      ]

  attribute_skipped :
      (o : Option ℕ) (file : String) (n : ℕ × ℕ) (st : ParseState)
      → (attribute_at o file n st).skipped ≡ st.skipped
  attribute_skipped none file n st = refl
  attribute_skipped (some i) file n st = refl

  result_skipped :
      (act : BlockActivity) (bs : List ContentBlock) (a : ResultAction) (st : ParseState)
      → (after_result lib l act bs (apply_action lib l a st) st).skipped
        ≡ st.skipped
          + one_if (
              is_other_result a
              && (not (not (str_eq l.kind "assistant") || str_eq l.message_model "")
                  && str_eq (response_key l) ""))
  unfolding attribute
  result_skipped act bs ResultAction.action_none st = assistant_skipped act bs st
  result_skipped act bs ResultAction.action_stub st = omega arith
  result_skipped act bs (ResultAction.action_sub_agent t u) st = omega arith
  result_skipped act bs (ResultAction.action_edit t) st =
      attribute_skipped st.last t.file_path (line_counts lib t) st ∙ omega arith

  compaction_skipped : (st : ParseState) → (mark_compaction l st).skipped ≡ st.skipped
  unfolding mark_compaction
  compaction_skipped st = elim (Bool-cases st.in_compaction) [
    | inl e ↦ rw e refl
    | inr e ↦ rw e refl
  ]

  fresh_skipped :
      (st : ParseState) → (apply_fresh lib l st).skipped ≡ st.skipped + one_if (is_keyless lib l)
  unfolding apply_fresh mark_denial mark_tool_errors apply_marked
  fresh_skipped st =
      let bs = decode_blocks lib l.message_content in
      let act = count_blocks bs no_block_activity in
      elim (Bool-cases (str_eq l.tool_denial_kind "")) [
        | inl e ↦ elim (Bool-cases (marks_compaction l)) [
          | inl f ↦ rw (e, f) (compaction_skipped (mark_tool_errors act.errors st) ∙ omega arith)
          | inr f ↦ rw (e, f) (result_skipped act bs (classify_tool_result lib l.tool_use_result) _)
        ]
        | inr e ↦ rw e (omega arith)
      ]

-- A line with no uuid is never taken for one seen before.
keyless_fresh :
    (lib : Library) (l : Line) (st : ParseState)
    → is_seen l.uuid st ≡ true
    → is_keyless lib l ≡ false
keyless_fresh lib l st h = ground (arith, h)

line_skipped :
    (lib : Library) (l : Line) (st : ParseState)
    → (apply_line lib l st).skipped ≡ st.skipped + one_if (is_keyless lib l)
unfolding apply_line
line_skipped lib l st = elim (Bool-cases (is_seen l.uuid st)) [
  | inl e ↦ rw (e, keyless_fresh lib l st e) (omega arith)
  | inr e ↦
      let told =
        elim (Bool-cases (str_eq l.uuid "")) as (λ b. (see l.uuid st).skipped ≡ st.skipped) [
          | inl f ↦ rw f refl
          | inr f ↦ rw f refl
        ] in
      rw e (fresh_skipped lib l (see l.uuid st) ∙ ap (λ n. n + one_if (is_keyless lib l)) told)
]

decoded_skipped :
    (lib : Library) (o : Option Line) (st : ParseState)
    → (apply_decoded lib o st).skipped ≡ st.skipped + one_if (is_line_refused lib o)
unfolding observe
decoded_skipped lib none st = refl
decoded_skipped lib (some l) st = line_skipped lib l (observe l st)

raw_skipped :
    (lib : Library) (raw : String) (st : ParseState)
    → (apply_raw lib raw st).skipped ≡ st.skipped + one_if (is_unreadable lib raw)
unfolding apply_raw
raw_skipped lib raw st = elim (Bool-cases (str_eq raw "")) [
  | inl e ↦ rw e (omega arith)
  | inr e ↦ rw e (decoded_skipped lib (lib.line raw) st)
]

raws_skipped :
    (lib : Library) (raws : List String) (st : ParseState)
    → (apply_raws lib raws st).skipped ≡ st.skipped + count_if (is_unreadable lib) raws
unfolding apply_raws
raws_skipped lib [] st = omega arith
raws_skipped lib (raw ∷ raws) st =
    raws_skipped lib raws (apply_raw lib raw st) ∙ omega (arith, raw_skipped lib raw st)

-- The count of skipped lines that ParseAll returns is the number of lines that are not empty and
-- that either do not unmarshal or are an assistant response with neither a message id nor a uuid.
pub parse_all_skipped :
    (lib : Library) (raws : List String)
    → (parse_all lib raws).skipped ≡ count_if (is_unreadable lib) raws
unfolding parse_all
parse_all_skipped lib raws = raws_skipped lib raws new_parse_state ∙ omega arith
