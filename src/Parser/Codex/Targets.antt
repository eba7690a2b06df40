-- ===== src/Parser/Codex/Targets.antt =====
-- The integers that stand for files in internal/parser/codex/steps.go.
use assaio.Prelude.{
  ℕ, true, ◌≢◌, ◌+◌, ◌<◌, ◌≡◌, refl, ap, ◌∙◌, sym, String, Bool, false, Bool-cases, Option-cases,
  inl, inr, List, [], ◌∷◌, Option, none, some, none≢some, some_injective, length, sort_by, str_ltb,
  str_eq, eq_iff, eq_refl, arith, if◌then◌else◌,
}
use assaio.Prelude.Int.{ℤ, pos, pos_part}
use assaio.Usage.{Tokens}
use assaio.Parser.{turn_tokens, token_count_record, delta}
use assaio.Parser.Codex.{Library, StepRecorder, ParseState}
use assaio.Parser.Codex.Recorder.{
  open_turn, close_turn, tool_call, target_of, assign, ref, edit_files, edits, compaction,
}
use assaio.Parser.Codex.Reader.{apply_compacted, changed_paths}
use assaio.Parser.Codex.Sequence.{apply_changes_steps, emit_steps}
use assaio.Parser.Codex.Moves.{Keeps}

-- The targets are numbered from 1 in the order in which they came, the last one first.
abbrev pub IsRanked : List (String × ℤ) → Type 0
IsRanked [] = Unit
IsRanked (t ∷ ts) = (t.1 ≡ pos (length ts + 1)) × IsRanked ts

assign-Ranked :
    (path : String) (o : Option ℤ) (ts : List (String × ℤ))
    → IsRanked ts
    → IsRanked (assign path o ts).1
assign-Ranked path (some r) ts h = h
assign-Ranked path none ts h = (refl, h)

pub ref-Ranked : (path : String) (ts : List (String × ℤ)) → IsRanked ts → IsRanked (ref path ts).1
unfolding ref
ref-Ranked path ts h = elim (Bool-cases (str_eq path "")) [
  | inl e ↦ rw e h
  | inr e ↦ rw e (assign-Ranked path (target_of path ts) ts h)
]

-- A target's integer is that of an entry.
target_bound :
    (path : String) (ts : List (String × ℤ)) (r : ℤ)
    → IsRanked ts
    → target_of path ts ≡ some r
    → (n : ℕ) × ((r ≡ pos n) × (n < length ts + 1))
unfolding target_of
target_bound path [] r h e = absurd (none≢some e)
target_bound path (t ∷ ts) r h e = elim (Bool-cases (str_eq t.0 path)) [
  | inl f ↦ (length ts + 1, (sym (some_injective (rw f at e)) ∙ h.0, omega arith))
  | inr f ↦ let (n, (q, b)) = target_bound path ts r h.1 (rw f at e) in (n, (q, omega (arith, b)))
]

pub target_positive :
    (path : String) (ts : List (String × ℤ)) (r : ℤ)
    → IsRanked ts
    → target_of path ts ≡ some r
    → r ≢ pos 0
unfolding target_of
target_positive path [] r h e z = absurd (none≢some e)
target_positive path (t ∷ ts) r h e z = elim (Bool-cases (str_eq t.0 path)) [
  | inl f ↦ absurd (suc_zero (length ts) (sym h.0 ∙ some_injective (rw f at e) ∙ z))
  | inr f ↦ absurd (target_positive path ts r h.1 (rw f at e) z)
]
  where
    suc_zero : (n : ℕ) → pos (n + 1) ≡ pos 0 → ⊥
    suc_zero n q = let k : n + 1 ≡ 0 = ap pos_part q in omega (arith, k)

pos_same : (m n : ℕ) → pos m ≡ pos n → m ≡ n
pos_same m n h = ap pos_part h

-- Two paths with one integer are one path.
pub target_own :
    (p q : String) (ts : List (String × ℤ)) (r : ℤ)
    → IsRanked ts
    → target_of p ts ≡ some r
    → target_of q ts ≡ some r
    → p ≡ q
unfolding target_of
target_own p q [] r h e f = absurd (none≢some e)
target_own p q (t ∷ ts) r h e f = elim (Bool-cases (str_eq t.0 p)) [
  | inl a ↦ elim (Bool-cases (str_eq t.0 q)) [
    | inl b ↦ sym ((eq_iff t.0 p).0 a) ∙ (eq_iff t.0 q).0 b
    | inr b ↦
        let (n, (s, k)) = target_bound q ts r h.1 (rw b at f) in
        let same = pos_same n (length ts + 1) (sym s ∙ sym (some_injective (rw a at e)) ∙ h.0) in
        absurd (omega (arith, same, k))
  ]
  | inr a ↦ elim (Bool-cases (str_eq t.0 q)) [
    | inl b ↦
        let (n, (s, k)) = target_bound p ts r h.1 (rw a at e) in
        let same = pos_same n (length ts + 1) (sym s ∙ sym (some_injective (rw b at f)) ∙ h.0) in
        absurd (omega (arith, same, k))
    | inr b ↦ target_own p q ts r h.1 (rw a at e) (rw b at f)
  ]
]

close_turn_targets : (o : Option Tokens) (s : StepRecorder) → (close_turn o s).targets ≡ s.targets
unfolding close_turn
close_turn_targets none s = elim (Option-cases s.turn_at) [
  | inl e ↦ rw e refl
  | inr (i, e) ↦ rw e refl
]
close_turn_targets (some t) s = elim (Option-cases s.turn_at) [
  | inl e ↦ rw e refl
  | inr (i, e) ↦ rw e refl
]

-- A property of the table of targets that naming a file keeps.
module _ (lib : Library) (P : List (String × ℤ) → Type 0)
    (kept : (path : String) (ts : List (String × ℤ)) → P ts → P (ref path ts).1) where
  module _ (st : ParseState) where
    open_turn_targets : (s : StepRecorder) → (open_turn lib st s).targets ≡ s.targets
    unfolding open_turn
    open_turn_targets s = elim (Option-cases s.turn_at) [
      | inl e ↦ rw e refl
      | inr (i, e) ↦ rw e refl
    ]

    pub edit_files_kept :
        (o : String) (i : ℕ) (ps : List String) (s : StepRecorder)
        → P s.targets
        → P (edit_files lib st o i ps s).targets
    unfolding edit_files
    edit_files_kept o i [] s h = h
    edit_files_kept o i (p ∷ ps) s h = edit_files_kept o (i + 1) ps _ (kept p s.targets h)

    pub edits_kept :
        (ps : List String) (ok : Bool) (s : StepRecorder)
        → P s.targets
        → P (edits lib st ps ok s).targets
    unfolding edits
    edits_kept ps ok s h = elim (Bool-cases s.named_write) [
      | inl e ↦ rw e h
      | inr e ↦ rw e (edit_files_kept (if ok then "ok" else "error") 0 (sort_by str_ltb ps) _ h)
    ]

  -- Every line keeps it.
  pub keeps_targets : Keeps lib (λ st. P st.steps.targets)
  unfolding apply_compacted token_count_record tool_call compaction
  keeps_targets = record {
    stated = λ st session ts model project entrypoint fp skipped h. h;
    opened = λ st h. rw (open_turn_targets st st.steps) h;
    called = λ it st h. h;
    compacted = λ st h. h;
    patched = λ p st h.
        let after = edits_kept st (changed_paths p.changes) p.success st.steps h in
        elim (Bool-cases p.success) [
          | inl e ↦ rw (e, apply_changes_steps lib p.changes _) (rw e at after)
          | inr e ↦ rw e (rw e at after)
        ];
    counted = λ cur st h.
        let produced = turn_tokens (delta st.prev cur) in
        rw (emit_steps lib produced _, close_turn_targets produced st.steps) h;
  }

-- What `ref` answers is the entry of the path after.
assign_found :
    (p : String) (o : Option ℤ) (ts : List (String × ℤ))
    → target_of p ts ≡ o
    → target_of p (assign p o ts).1 ≡ some (assign p o ts).0
unfolding target_of
assign_found p (some r) ts h = h
assign_found p none ts h = rw (eq_refl p) refl

pub ref_found :
    (p : String) (ts : List (String × ℤ))
    → str_eq p "" ≡ false
    → target_of p (ref p ts).1 ≡ some (ref p ts).0
unfolding ref
ref_found p ts h = rw h (assign_found p (target_of p ts) ts refl)

pub ref_empty : (p : String) (ts : List (String × ℤ)) → str_eq p "" ≡ true → (ref p ts).0 ≡ pos 0
unfolding ref
ref_empty p ts h = rw h refl

assign_stable :
    (p q : String) (o : Option ℤ) (ts : List (String × ℤ)) (r : ℤ)
    → target_of q ts ≡ o
    → target_of p ts ≡ some r
    → target_of p (assign q o ts).1 ≡ some r
unfolding target_of
assign_stable p q (some x) ts r h e = e
assign_stable p q none ts r h e = elim (Bool-cases (str_eq q p)) [
  | inl f ↦ absurd (none≢some (sym h ∙ ap (λ s. target_of s ts) ((eq_iff q p).0 f) ∙ e))
  | inr f ↦ rw f e
]

-- A path that has an integer keeps it.
pub ref_stable :
    (p q : String) (ts : List (String × ℤ)) (r : ℤ)
    → target_of p ts ≡ some r
    → target_of p (ref q ts).1 ≡ some r
unfolding ref
ref_stable p q ts r e = elim (Bool-cases (str_eq q "")) [
  | inl f ↦ rw f e
  | inr f ↦ rw f (assign_stable p q (target_of q ts) ts r refl e)
]
