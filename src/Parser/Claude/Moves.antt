-- ===== src/Parser/Claude/Moves.antt =====
-- How the reader of internal/parser/claude moves from one state to the next: whatever its handlers
-- keep holds of every state of a pass.
use assaio.Prelude.{
  ℕ, ◌≡◌, refl, inl, inr, String, Bool, false, not, ◌||◌, List, [], ◌∷◌, ◌++◌, Option, none, some,
  Bool-cases, Option-cases, str_eq,
}
use assaio.Usage.{Activity}
use assaio.Parser.{Unreworked, rework}
use assaio.Parser.Tools.{lookup, plus}
use assaio.Prelude.Int.{ℤ, pos}
use assaio.Parser.Claude.{
  Library, Line, TokenUsage, ToolResult, ContentBlock, BlockActivity, CarryForward, ParseState,
}
use assaio.Parser.Claude.Recorder.{denial, resolve_results, compaction}
use assaio.Parser.Claude.Reader.{
  ResultAction, append_keyed, append_assistant, response_key, attribute, attribute_at,
  classify_tool_result, apply_action, mark_tool_errors, mark_denial, marks_compaction,
  mark_compaction, after_result, apply_marked, apply_fresh, is_seen, see, apply_line, observe,
  apply_decoded, apply_raw, apply_raws, at_last,
}
use assaio.Parser.Claude.Results.{sub_agent_record, line_counts}
use assaio.Parser.Claude.Records.{decode_blocks, count_blocks, no_block_activity}

-- The tool calls that some counters hold: the total and the purposes.
abbrev pub calls : Activity → ℤ × (ℤ × (ℤ × (ℤ × (ℤ × ℤ))))
calls a = (a.tool_calls, (a.reads, (a.searches, (a.commands, (a.writes, a.other)))))

-- A change of a record's counters that counts no tool call.
abbrev pub IsHarmless : (Activity → Activity) → Type 0
IsHarmless f = (a : Activity) → calls (f a) ≡ calls a

-- The handlers keep a property of the state.
pub record Keeps (lib : Library) (Inv : ParseState → Type 0) : Type 0 where
  pub stated :
      (st : ParseState) (seen : List String) (in_compaction : Bool) (budget : Unreworked)
      (skipped : ℕ) (session timeline : String) (carry : CarryForward)
      → Inv st
      → Inv (record st {
        seen_line = seen;
        in_compaction = in_compaction;
        rework = budget;
        skipped = skipped;
        session_id = session;
        timeline = timeline;
        carry = carry;
      })
  pub counted :
      (f : Activity → Activity) (st : ParseState)
      → IsHarmless f
      → Inv st
      → Inv (record st { out = at_last f st.last st.out })
  pub delegated :
      (l : Line) (t : ToolResult) (u : TokenUsage) (st : ParseState)
      → Inv st
      → Inv (record st { out = st.out ++ (sub_agent_record lib l t u st.carry ∷ []) })
  pub resolved :
      (bs : List ContentBlock) (st : ParseState)
      → Inv st
      → Inv (record st { steps = resolve_results bs st.steps })
  pub denied :
      (bs : List ContentBlock) (st : ParseState)
      → Inv st
      → Inv (record st { steps = denial bs st.steps })
  pub compacted :
      (l : Line) (st : ParseState) → Inv st → Inv (record st { steps = compaction l st.steps })
  pub responded :
      (l : Line) (act : BlockActivity) (bs : List ContentBlock) (key : String) (st : ParseState)
      → str_eq key "" ≡ false
      → Inv st
      → Inv (append_keyed lib l act bs key (lookup key st.by_message) st)

module _ (lib : Library) (Inv : ParseState → Type 0) (k : Keeps lib Inv) where
  skipped_line : (n : ℕ) (st : ParseState) → Inv st → Inv (record st { skipped = n })
  skipped_line n st h =
      k.stated st st.seen_line st.in_compaction st.rework n st.session_id st.timeline st.carry h

  see_line : (uuid : String) (st : ParseState) → Inv st → Inv (see uuid st)
  see_line uuid st h = elim (Bool-cases (str_eq uuid "")) [
    | inl e ↦ rw e h
    | inr e ↦ rw e (
        k.stated st (uuid ∷ st.seen_line) st.in_compaction st.rework st.skipped st.session_id
          st.timeline st.carry h)
  ]

  assistant_line :
      (l : Line) (act : BlockActivity) (bs : List ContentBlock) (st : ParseState)
      → Inv st
      → Inv (append_assistant lib l act bs st)
  unfolding append_assistant
  assistant_line l act bs st h =
      elim (Bool-cases (not (str_eq l.kind "assistant") || str_eq l.message_model "")) [
        | inl e ↦ rw e h
        | inr e ↦ elim (Bool-cases (str_eq (response_key l) "")) [
          | inl f ↦ rw (e, f) (skipped_line _ st h)
          | inr f ↦ rw (e, f) (k.responded l act bs (response_key l) st f h)
        ]
      ]

  attribute_line :
      (o : Option ℕ) (file : String) (n : ℕ × ℕ) (st : ParseState)
      → Inv st
      → Inv (attribute_at o file n st)
  attribute_line none file n st h = h
  attribute_line (some i) file n st h =
      let r = rework st.rework file (pos n.0) (pos n.1) in
      let spent : ParseState = record st { rework = r.1 } in
      let kept : Inv spent =
        k.stated st st.seen_line st.in_compaction r.1 st.skipped st.session_id st.timeline st.carry
          h in
      k.counted _ spent (λ a. refl) kept

  result_line :
      (l : Line) (act : BlockActivity) (bs : List ContentBlock) (a : ResultAction) (st : ParseState)
      → Inv st
      → Inv (after_result lib l act bs (apply_action lib l a st) st)
  unfolding attribute
  result_line l act bs ResultAction.action_none st h = assistant_line l act bs st h
  result_line l act bs ResultAction.action_stub st h = h
  result_line l act bs (ResultAction.action_sub_agent t u) st h = k.delegated l t u st h
  result_line l act bs (ResultAction.action_edit t) st h =
      attribute_line st.last t.file_path (line_counts lib t) st h

  errors_line : (n : ℕ) (st : ParseState) → Inv st → Inv (mark_tool_errors n st)
  unfolding mark_tool_errors
  errors_line n st h = k.counted _ st (λ a. refl) h

  denial_line :
      (bs : List ContentBlock) (st : ParseState)
      → Inv st
      → Inv (record (mark_denial st) { steps = denial bs st.steps })
  unfolding mark_denial
  denial_line bs st h = k.denied bs _ (k.counted _ st (λ a. refl) h)

  compaction_line : (l : Line) (st : ParseState) → Inv st → Inv (mark_compaction l st)
  unfolding mark_compaction
  compaction_line l st h =
      let began =
        k.stated st st.seen_line Bool.true st.rework st.skipped st.session_id st.timeline st.carry
          h in
      elim (Bool-cases st.in_compaction) [
        | inl e ↦ rw e (rw e at h)
        | inr e ↦ rw e (elim (Option-cases st.last) [
          | inl f ↦ rw f (rw f at began)
          | inr (i, f) ↦
              let told = k.compacted l _ (
                k.counted (λ (a : Activity). record a { compactions = plus a.compactions 1 }) _
                  (λ a. refl) began) in
              rw f (rw f at told)
        ])
      ]

  marked_line :
      (l : Line) (act : BlockActivity) (bs : List ContentBlock) (st : ParseState)
      → Inv st
      → Inv (apply_marked lib l act bs st)
  unfolding apply_marked
  marked_line l act bs st h = elim (Bool-cases (marks_compaction l)) [
    | inl e ↦ rw e (compaction_line l st h)
    | inr e ↦
        let ended =
          k.stated st st.seen_line false st.rework st.skipped st.session_id st.timeline st.carry
            h in
        rw e (
          result_line l act bs (classify_tool_result lib l.tool_use_result) _
            (k.resolved bs _ ended))
  ]

  fresh_line : (l : Line) (st : ParseState) → Inv st → Inv (apply_fresh lib l st)
  unfolding apply_fresh
  fresh_line l st h =
      let bs = decode_blocks lib l.message_content in
      let act = count_blocks bs no_block_activity in
      elim (Bool-cases (str_eq l.tool_denial_kind "")) [
        | inl e ↦ rw e (marked_line l act bs _ (errors_line act.errors st h))
        | inr e ↦ rw e (denial_line bs st h)
      ]

  line_line : (l : Line) (st : ParseState) → Inv st → Inv (apply_line lib l st)
  unfolding apply_line
  line_line l st h = elim (Bool-cases (is_seen l.uuid st)) [
    | inl e ↦ rw e h
    | inr e ↦ rw e (fresh_line l (see l.uuid st) (see_line l.uuid st h))
  ]

  observed_line : (l : Line) (st : ParseState) → Inv st → Inv (observe l st)
  unfolding observe
  observed_line l st h =
      let after = observe l st in
      k.stated st st.seen_line st.in_compaction st.rework st.skipped after.session_id after.timeline
        after.carry h

  decoded_line : (o : Option Line) (st : ParseState) → Inv st → Inv (apply_decoded lib o st)
  decoded_line none st h = skipped_line _ st h
  decoded_line (some l) st h = line_line l (observe l st) (observed_line l st h)

  raw_line : (raw : String) (st : ParseState) → Inv st → Inv (apply_raw lib raw st)
  unfolding apply_raw
  raw_line raw st h = elim (Bool-cases (str_eq raw "")) [
    | inl e ↦ rw e h
    | inr e ↦ rw e (decoded_line (lib.line raw) st h)
  ]

  -- What the handlers keep holds after any lines.
  pub apply_raws-Inv :
      (raws : List String) (st : ParseState) → Inv st → Inv (apply_raws lib raws st)
  unfolding apply_raws
  apply_raws-Inv [] st h = h
  apply_raws-Inv (raw ∷ raws) st h = apply_raws-Inv raws (apply_raw lib raw st) (raw_line raw st h)
