-- ===== src/Parser/Codex/Skips.antt =====
-- The lines that internal/parser/codex leaves out and counts.
use assaio.Prelude.{
  ℕ, ◌+◌, ◌≡◌, refl, ap, ◌∙◌, String, Bool, true, false, not, ◌&&◌, Bool-cases, inl, inr, List, [],
  ◌∷◌, Option, none, some, count_if, str_eq, arith, if◌then◌else◌, ◌==◌,
}
use assaio.Usage.{Tokens}
use assaio.Parser.{Totals, turn_tokens, token_count_record, delta}
use assaio.Parser.Codex.{
  Library, Envelope, SessionMeta, PatchApplyEnd, ResponseItem, ParseState, new_parse_state,
}
use assaio.Parser.Codex.Reader.{
  apply_line, apply_lines, apply_envelope, apply_kind, apply_event_msg, apply_event, apply_item,
  apply_patch, apply_changes, count_tokens, apply_meta, apply_context, apply_compacted,
  apply_session_meta, apply_turn_context, apply_response_item, apply_token_count,
  apply_patch_apply_end, is_call, model_output, fingerprinted, open_for, emit, parse_all,
}

abbrev pub is_refused {ℓ} : {A : Type ℓ} → Option A → Bool
is_refused none = true
is_refused (some a) = false

abbrev pub is_event_refused : Library → String → Option String → Bool
is_event_refused lib payload none = true
is_event_refused lib payload (some kind) =
    if str_eq kind "token_count"
    then is_refused (lib.token_count payload)
    else str_eq kind "patch_apply_end" && is_refused (lib.patch_apply_end payload)

-- A line's payload is of a kind that is read, and does not unmarshal.
abbrev pub is_payload_refused : Library → Envelope → Bool
is_payload_refused lib env =
    if str_eq env.kind "session_meta"
    then is_refused (lib.session_meta env.payload)
    else if str_eq env.kind "turn_context"
    then is_refused (lib.turn_context env.payload)
    else if str_eq env.kind "event_msg"
    then is_event_refused lib env.payload (lib.payload_kind env.payload)
    else str_eq env.kind "response_item" && is_refused (lib.response_item env.payload)

abbrev pub is_envelope_refused : Library → Option Envelope → Bool
is_envelope_refused lib none = true
is_envelope_refused lib (some env) = is_payload_refused lib env

-- A line that is not empty and that encoding/json refuses, itself or its payload.
abbrev pub is_unreadable : Library → String → Bool
is_unreadable lib raw = not (str_eq raw "") && is_envelope_refused lib (lib.envelope raw)

abbrev pub one_if : Bool → ℕ
one_if b = if b then 1 else 0

apply_changes_skipped :
    (lib : Library) (cs : List (String × String)) (st : ParseState)
    → (apply_changes lib cs st).skipped ≡ st.skipped
unfolding apply_changes
apply_changes_skipped lib [] st = refl
apply_changes_skipped lib (c ∷ cs) st = apply_changes_skipped lib cs _

emit_skipped :
    (lib : Library) (o : Option Tokens) (st : ParseState) → (emit lib o st).skipped ≡ st.skipped
emit_skipped lib none st = refl
emit_skipped lib (some t) st = refl

module _ (lib : Library) where
  tokens_skipped :
      (o : Option (Option Totals)) (st : ParseState)
      → (count_tokens lib o st).skipped ≡ st.skipped + one_if (is_refused o)
  unfolding token_count_record
  tokens_skipped none st = refl
  tokens_skipped (some none) st = omega arith
  tokens_skipped (some (some cur)) st =
      emit_skipped lib (turn_tokens (delta st.prev cur)) _ ∙ omega arith

  patch_skipped :
      (o : Option PatchApplyEnd) (st : ParseState)
      → (apply_patch lib o st).skipped ≡ st.skipped + one_if (is_refused o)
  patch_skipped none st = refl
  patch_skipped (some p) st = elim (Bool-cases p.success) [
    | inl e ↦ rw (e, apply_changes_skipped lib p.changes _) (omega arith)
    | inr e ↦ rw e (omega arith)
  ]

  event_skipped :
      (payload : String) (o : Option String) (st : ParseState)
      → (apply_event lib payload o st).skipped
        ≡ st.skipped + one_if (is_event_refused lib payload o)
  unfolding apply_token_count apply_patch_apply_end
  event_skipped payload none st = refl
  event_skipped payload (some kind) st = elim (Bool-cases (str_eq kind "token_count")) [
    | inl e ↦ rw e (tokens_skipped (lib.token_count payload) st)
    | inr e ↦ elim (Bool-cases (str_eq kind "patch_apply_end")) [
      | inl f ↦ rw (e, f) (patch_skipped (lib.patch_apply_end payload) st)
      | inr f ↦ rw (e, f) (omega arith)
    ]
  ]

  open_skipped : (it : ResponseItem) (st : ParseState) → (open_for lib it st).skipped ≡ st.skipped
  open_skipped it st = elim (Bool-cases (model_output it)) [ inl e ↦ rw e refl | inr e ↦ rw e refl ]

  item_skipped :
      (o : Option ResponseItem) (st : ParseState)
      → (apply_item lib o st).skipped ≡ st.skipped + one_if (is_refused o)
  item_skipped none st = refl
  item_skipped (some it) st = elim (Bool-cases (is_call it)) [
    | inl e ↦ rw e (open_skipped it st ∙ omega arith)
    | inr e ↦ rw e (open_skipped it st ∙ omega arith)
  ]

  meta_skipped :
      (o : Option SessionMeta) (st : ParseState)
      → (apply_meta lib o st).skipped ≡ st.skipped + one_if (is_refused o)
  meta_skipped none st = refl
  meta_skipped (some m) st = omega arith

  context_skipped :
      (o : Option String) (st : ParseState)
      → (apply_context o st).skipped ≡ st.skipped + one_if (is_refused o)
  context_skipped none st = refl
  context_skipped (some m) st = omega arith

  kind_skipped :
      (env : Envelope) (st : ParseState)
      → (apply_kind lib env st).skipped ≡ st.skipped + one_if (is_payload_refused lib env)
  unfolding apply_kind apply_session_meta apply_turn_context apply_event_msg apply_response_item
      apply_compacted
  kind_skipped env st = elim (Bool-cases (str_eq env.kind "session_meta")) [
    | inl a ↦ rw a (meta_skipped (lib.session_meta env.payload) st)
    | inr a ↦ elim (Bool-cases (str_eq env.kind "turn_context")) [
      | inl b ↦ rw (a, b) (context_skipped (lib.turn_context env.payload) st)
      | inr b ↦ elim (Bool-cases (str_eq env.kind "event_msg")) [
        | inl c ↦ rw (a, b, c) (event_skipped env.payload (lib.payload_kind env.payload) st)
        | inr c ↦ elim (Bool-cases (str_eq env.kind "response_item")) [
          | inl d ↦ rw (a, b, c, d) (item_skipped (lib.response_item env.payload) st)
          | inr d ↦ elim (Bool-cases (str_eq env.kind "compacted")) [
            | inl e ↦ rw (a, b, c, d, e) (omega arith)
            | inr e ↦ rw (a, b, c, d, e) (omega arith)
          ]
        ]
      ]
    ]
  ]

  envelope_skipped :
      (o : Option Envelope) (st : ParseState)
      → (apply_envelope lib o st).skipped ≡ st.skipped + one_if (is_envelope_refused lib o)
  envelope_skipped none st = refl
  envelope_skipped (some env) st =
      kind_skipped env (record st { ts = if env.timestamp == 0 then st.ts else env.timestamp })

  fingerprint_skipped :
      (raw : String) (st : ParseState) → (fingerprinted lib raw st).skipped ≡ st.skipped
  fingerprint_skipped raw st = elim (Bool-cases (str_eq st.file_fp "")) [
    | inl e ↦ rw e refl
    | inr e ↦ rw e refl
  ]

  line_skipped :
      (raw : String) (st : ParseState)
      → (apply_line lib raw st).skipped ≡ st.skipped + one_if (is_unreadable lib raw)
  unfolding apply_line
  line_skipped raw st = elim (Bool-cases (str_eq raw "")) [
    | inl e ↦ rw e (omega arith)
    | inr e ↦ rw e (
        envelope_skipped (lib.envelope raw) (fingerprinted lib raw st)
        ∙ ap (λ n. n + one_if (is_envelope_refused lib (lib.envelope raw)))
            (fingerprint_skipped raw st))
  ]

  lines_skipped :
      (raws : List String) (st : ParseState)
      → (apply_lines lib raws st).skipped ≡ st.skipped + count_if (is_unreadable lib) raws
  unfolding apply_lines
  lines_skipped [] st = omega arith
  lines_skipped (raw ∷ raws) st =
      lines_skipped raws (apply_line lib raw st) ∙ omega (arith, line_skipped raw st)

-- The count of skipped lines that a reading returns is the number of lines that are not empty and
-- that encoding/json refuses, as a line or as the payload of a kind that is read, and no other.
pub parse_all-skipped :
    (lib : Library) (raws : List String) (failed : Bool)
    → (parse_all lib raws failed).skipped ≡ count_if (is_unreadable lib) raws
unfolding parse_all
parse_all-skipped lib raws failed = lines_skipped lib raws new_parse_state ∙ omega arith
