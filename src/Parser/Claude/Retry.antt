-- ===== src/Parser/Claude/Retry.antt =====
-- Lines that a Claude Code transcript repeats: internal/parser/claude/dedupe.go.
use assaio.Prelude.{
  ◌∙◌, true, ◌∷◌, false, any_of, eq_refl, ℕ, ◌≡◌, refl, ap, String, not, ◌||◌, Bool-cases, inl, inr,
  List, Option, none, some, str_eq,
}
use assaio.Parser.Tools.{lookup}
use assaio.Parser.Claude.{Library, Line, ContentBlock, BlockActivity, CarryForward, ParseState}
use assaio.Parser.Claude.Reader.{
  apply_line, apply_raw, apply_decoded, is_seen, ResultAction, append_keyed, append_assistant,
  response_key, record_step, attribute, attribute_at, classify_tool_result, apply_action,
  mark_tool_errors, mark_denial, marks_compaction, mark_compaction, after_result, apply_marked,
  apply_fresh, observe,
}
use assaio.Parser.Claude.Results.{line_counts}
use assaio.Parser.Claude.Records.{or_else, decode_blocks, count_blocks, no_block_activity}

-- What a line of its own changes only before it is applied.
abbrev pub frame : ParseState → List String × (String × (String × CarryForward))
frame st = (st.seen_line, (st.session_id, (st.timeline, st.carry)))

module _ (lib : Library) (l : Line) where
  keyed_frame :
      (act : BlockActivity) (bs : List ContentBlock) (key : String) (o : Option ℕ) (st : ParseState)
      → frame (append_keyed lib l act bs key o st) ≡ frame st
  unfolding record_step
  keyed_frame act bs key (some i) st = refl
  keyed_frame act bs key none st = refl

  assistant_frame :
      (act : BlockActivity) (bs : List ContentBlock) (st : ParseState)
      → frame (append_assistant lib l act bs st) ≡ frame st
  unfolding append_assistant
  assistant_frame act bs st =
      elim (Bool-cases (not (str_eq l.kind "assistant") || str_eq l.message_model "")) [
        | inl e ↦ rw e refl
        | inr e ↦ elim (Bool-cases (str_eq (response_key l) "")) [
          | inl f ↦ rw (e, f) refl
          | inr f ↦
              rw (e, f)
                (keyed_frame act bs (response_key l) (lookup (response_key l) st.by_message) st)
        ]
      ]

  attribute_frame :
      (o : Option ℕ) (file : String) (n : ℕ × ℕ) (st : ParseState)
      → frame (attribute_at o file n st) ≡ frame st
  attribute_frame none file n st = refl
  attribute_frame (some i) file n st = refl

  result_frame :
      (act : BlockActivity) (bs : List ContentBlock) (a : ResultAction) (st : ParseState)
      → frame (after_result lib l act bs (apply_action lib l a st) st) ≡ frame st
  unfolding attribute
  result_frame act bs ResultAction.action_none st = assistant_frame act bs st
  result_frame act bs ResultAction.action_stub st = refl
  result_frame act bs (ResultAction.action_sub_agent t u) st = refl
  result_frame act bs (ResultAction.action_edit t) st =
      attribute_frame st.last t.file_path (line_counts lib t) st

  compaction_frame : (st : ParseState) → frame (mark_compaction l st) ≡ frame st
  unfolding mark_compaction
  compaction_frame st = elim (Bool-cases st.in_compaction) [ inl e ↦ rw e refl | inr e ↦ rw e refl ]

  marked_frame :
      (act : BlockActivity) (bs : List ContentBlock) (st : ParseState)
      → frame (apply_marked lib l act bs st) ≡ frame st
  unfolding apply_marked
  marked_frame act bs st = elim (Bool-cases (marks_compaction l)) [
    | inl e ↦ rw e (compaction_frame st)
    | inr e ↦ rw e (result_frame act bs (classify_tool_result lib l.tool_use_result) _)
  ]

  fresh_frame : (st : ParseState) → frame (apply_fresh lib l st) ≡ frame st
  unfolding apply_fresh mark_denial mark_tool_errors
  fresh_frame st =
      let bs = decode_blocks lib l.message_content in
      let act = count_blocks bs no_block_activity in
      elim (Bool-cases (str_eq l.tool_denial_kind "")) [
        | inl e ↦ rw e (marked_frame act bs (mark_tool_errors act.errors st))
        | inr e ↦ rw e refl
      ]

or_else_idem : (a b : String) → or_else a (or_else a b) ≡ or_else a b
or_else_idem a b = elim (Bool-cases (str_eq a "")) [ inl e ↦ rw e refl | inr e ↦ rw e refl ]

-- The state already has what a line says of its session.
abbrev pub IsObserved : Line → ParseState → Type 0
IsObserved l st =
    (or_else l.session_id st.session_id ≡ st.session_id)
    × ((or_else l.agent_id st.timeline ≡ st.timeline)
        × ((or_else l.cwd st.carry.cwd ≡ st.carry.cwd)
            × ((or_else l.git_branch st.carry.git_branch ≡ st.carry.git_branch)
                × (or_else l.entrypoint st.carry.entrypoint ≡ st.carry.entrypoint))))

observe-Observed : (l : Line) (st : ParseState) → IsObserved l (observe l st)
unfolding observe
observe-Observed l st = (
  or_else_idem l.session_id _,
  (
    or_else_idem l.agent_id _,
    (or_else_idem l.cwd _, (or_else_idem l.git_branch _, or_else_idem l.entrypoint _)),
  ),
)

observed_same : (l : Line) (st : ParseState) → IsObserved l st → observe l st ≡ st
unfolding observe
observed_same l st (a, (b, (c, (d, e)))) = rw (a, b, c, d, e) refl

same_frame : (l : Line) (s t : ParseState) → frame s ≡ frame t → IsObserved l t → IsObserved l s
same_frame l s t h o =
    let sid = ap (λ f. f.1.0) h in
    let timeline = ap (λ f. f.1.1.0) h in
    let cwd = ap (λ f. f.1.1.1.cwd) h in
    let branch = ap (λ f. f.1.1.1.git_branch) h in
    let entry = ap (λ f. f.1.1.1.entrypoint) h in rw (sid, timeline, cwd, branch, entry) o

any_own : (uuid : String) (us : List String) → any_of (λ u. str_eq u uuid) (uuid ∷ us) ≡ true
any_own uuid us = rw (eq_refl uuid) refl

-- After a line is applied its uuid has been seen, and nothing else of the frame is changed.
line_seen :
    (lib : Library) (l : Line) (st : ParseState)
    → str_eq l.uuid "" ≡ false
    → (is_seen l.uuid (apply_line lib l st) ≡ true)
      × (IsObserved l st → IsObserved l (apply_line lib l st))
unfolding apply_line
line_seen lib l st e = elim (Bool-cases (is_seen l.uuid st)) [
  | inl k ↦ rw k ((rw k refl), λ o. o)
  | inr k ↦
      let told : ParseState = record st { seen_line = l.uuid ∷ st.seen_line } in
      let kept = fresh_frame lib l told in
      let has : any_of (λ u. str_eq u l.uuid) (apply_fresh lib l told).seen_line ≡ true =
        ap (λ f. any_of (λ u. str_eq u l.uuid) f.0) kept ∙ any_own l.uuid st.seen_line in
      rw (k, e) ((rw has refl), λ o. same_frame l (apply_fresh lib l told) told kept o)
]

decoded_again :
    (lib : Library) (l : Line) (st : ParseState)
    → str_eq l.uuid "" ≡ false
    → apply_decoded lib (some l) (apply_decoded lib (some l) st) ≡ apply_decoded lib (some l) st
unfolding apply_line
decoded_again lib l st e =
    let (seen, kept) = line_seen lib l (observe l st) e in
    let once = apply_line lib l (observe l st) in
    let same = observed_same l once (kept (observe-Observed l st)) in rw same (rw seen refl)

-- A line that decodes, with a uuid, and that a transcript repeats at once is read as if it were written
-- once, whatever else it holds.
pub apply_raw_again :
    (lib : Library) (raw : String) (l : Line) (st : ParseState)
    → str_eq raw "" ≡ false
    → lib.line raw ≡ some l
    → str_eq l.uuid "" ≡ false
    → apply_raw lib raw (apply_raw lib raw st) ≡ apply_raw lib raw st
unfolding apply_raw
apply_raw_again lib raw l st h e k = rw (h, e) (decoded_again lib l st k)
