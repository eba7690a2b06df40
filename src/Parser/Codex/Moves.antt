-- ===== src/Parser/Codex/Moves.antt =====
-- How the reader of internal/parser/codex moves from one state to the next: whatever its handlers
-- keep holds of every state of a pass.
use assaio.Prelude.{
  ℕ, String, inl, inr, List, [], ◌∷◌, Option, none, some, Bool-cases, ◌==◌, str_eq, if◌then◌else◌,
}
use assaio.Parser.{Totals}
use assaio.Parser.Codex.{Library, Envelope, PatchApplyEnd, ResponseItem, SessionMeta, ParseState}
use assaio.Parser.Codex.Recorder.{open_turn}
use assaio.Parser.Codex.Reader.{
  apply_line, apply_lines, apply_envelope, apply_kind, apply_event_msg, apply_event, apply_item,
  apply_patch, count_tokens, apply_meta, apply_context, apply_compacted, apply_session_meta,
  apply_turn_context, apply_response_item, apply_token_count, apply_patch_apply_end, call_for,
  is_call, model_output, fingerprinted, skip, open_for,
}

-- The handlers keep a property of the state: what a line says of the session, an opened turn, a
-- call, a compaction, a patch, and new totals.
pub record Keeps (lib : Library) (Inv : ParseState → Type 0) : Type 0 where
  pub stated :
      (st : ParseState) (session : String) (ts : ℕ) (model project entrypoint fp : String)
      (skipped : ℕ)
      → Inv st
      → Inv (record st {
        session = session;
        ts = ts;
        model = model;
        project = project;
        entrypoint = entrypoint;
        file_fp = fp;
        skipped = skipped;
      })
  pub opened : (st : ParseState) → Inv st → Inv (record st { steps = open_turn lib st st.steps })
  pub called : (it : ResponseItem) (st : ParseState) → Inv st → Inv (call_for lib it st)
  pub compacted : (st : ParseState) → Inv st → Inv (apply_compacted lib st)
  pub patched : (p : PatchApplyEnd) (st : ParseState) → Inv st → Inv (apply_patch lib (some p) st)
  pub counted :
      (cur : Totals) (st : ParseState) → Inv st → Inv (count_tokens lib (some (some cur)) st)

module _ (lib : Library) (Inv : ParseState → Type 0) (k : Keeps lib Inv) where
  skipped_line : (st : ParseState) → Inv st → Inv (skip st)
  skipped_line st h =
      k.stated st st.session st.ts st.model st.project st.entrypoint st.file_fp (skip st).skipped h

  meta_line : (m : Option SessionMeta) (st : ParseState) → Inv st → Inv (apply_meta lib m st)
  meta_line none st h = skipped_line st h
  meta_line (some m) st h =
      let after = apply_meta lib (some m) st in
      k.stated st after.session after.ts after.model after.project after.entrypoint st.file_fp
        st.skipped h

  context_line : (m : Option String) (st : ParseState) → Inv st → Inv (apply_context m st)
  context_line none st h = skipped_line st h
  context_line (some m) st h =
      let after = apply_context (some m) st in
      k.stated st st.session st.ts after.model st.project st.entrypoint st.file_fp st.skipped h

  tokens_line :
      (o : Option (Option Totals)) (st : ParseState) → Inv st → Inv (count_tokens lib o st)
  tokens_line none st h = skipped_line st h
  tokens_line (some none) st h = h
  tokens_line (some (some cur)) st h = k.counted cur st h

  patch_line : (p : Option PatchApplyEnd) (st : ParseState) → Inv st → Inv (apply_patch lib p st)
  patch_line none st h = skipped_line st h
  patch_line (some p) st h = k.patched p st h

  event_line :
      (payload : String) (o : Option String) (st : ParseState)
      → Inv st
      → Inv (apply_event lib payload o st)
  unfolding apply_token_count apply_patch_apply_end
  event_line payload none st h = skipped_line st h
  event_line payload (some kind) st h = elim (Bool-cases (str_eq kind "token_count")) [
    | inl e ↦ rw e (tokens_line (lib.token_count payload) st h)
    | inr e ↦ elim (Bool-cases (str_eq kind "patch_apply_end")) [
      | inl f ↦ rw (e, f) (patch_line (lib.patch_apply_end payload) st h)
      | inr f ↦ rw (e, f) h
    ]
  ]

  open_line : (it : ResponseItem) (st : ParseState) → Inv st → Inv (open_for lib it st)
  open_line it st h = elim (Bool-cases (model_output it)) [
    | inl e ↦ rw e (k.opened st h)
    | inr e ↦ rw e h
  ]

  item_line : (o : Option ResponseItem) (st : ParseState) → Inv st → Inv (apply_item lib o st)
  item_line none st h = skipped_line st h
  item_line (some it) st h = elim (Bool-cases (is_call it)) [
    | inl e ↦ rw e (k.called it (open_for lib it st) (open_line it st h))
    | inr e ↦ rw e (open_line it st h)
  ]

  kind_line : (env : Envelope) (st : ParseState) → Inv st → Inv (apply_kind lib env st)
  unfolding apply_kind apply_session_meta apply_turn_context apply_event_msg apply_response_item
  kind_line env st h = elim (Bool-cases (str_eq env.kind "session_meta")) [
    | inl a ↦ rw a (meta_line (lib.session_meta env.payload) st h)
    | inr a ↦ elim (Bool-cases (str_eq env.kind "turn_context")) [
      | inl b ↦ rw (a, b) (context_line (lib.turn_context env.payload) st h)
      | inr b ↦ elim (Bool-cases (str_eq env.kind "event_msg")) [
        | inl c ↦ rw (a, b, c) (event_line env.payload (lib.payload_kind env.payload) st h)
        | inr c ↦ elim (Bool-cases (str_eq env.kind "response_item")) [
          | inl d ↦ rw (a, b, c, d) (item_line (lib.response_item env.payload) st h)
          | inr d ↦ elim (Bool-cases (str_eq env.kind "compacted")) [
            | inl e ↦ rw (a, b, c, d, e) (k.compacted st h)
            | inr e ↦ rw (a, b, c, d, e) h
          ]
        ]
      ]
    ]
  ]

  envelope_line : (o : Option Envelope) (st : ParseState) → Inv st → Inv (apply_envelope lib o st)
  envelope_line none st h = skipped_line st h
  envelope_line (some env) st h =
      kind_line env (record st { ts = if env.timestamp == 0 then st.ts else env.timestamp })
        (k.stated st st.session (if env.timestamp == 0 then st.ts else env.timestamp) st.model
          st.project st.entrypoint st.file_fp st.skipped h)

  fingerprint_line : (raw : String) (st : ParseState) → Inv st → Inv (fingerprinted lib raw st)
  fingerprint_line raw st h = elim (Bool-cases (str_eq st.file_fp "")) [
    | inl e ↦ rw e (
        k.stated st st.session st.ts st.model st.project st.entrypoint (lib.fingerprint raw)
          st.skipped h)
    | inr e ↦ rw e h
  ]

  apply_line-Inv : (raw : String) (st : ParseState) → Inv st → Inv (apply_line lib raw st)
  unfolding apply_line
  apply_line-Inv raw st h = elim (Bool-cases (str_eq raw "")) [
    | inl e ↦ rw e h
    | inr e ↦
        rw e
          (envelope_line (lib.envelope raw) (fingerprinted lib raw st) (fingerprint_line raw st h))
  ]

  -- What the handlers keep holds after any lines.
  pub apply_lines-Inv :
      (raws : List String) (st : ParseState) → Inv st → Inv (apply_lines lib raws st)
  unfolding apply_lines
  apply_lines-Inv [] st h = h
  apply_lines-Inv (raw ∷ raws) st h =
      apply_lines-Inv raws (apply_line lib raw st) (apply_line-Inv raw st h)
