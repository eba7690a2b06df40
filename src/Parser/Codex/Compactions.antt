-- ===== src/Parser/Codex/Compactions.antt =====
-- The context overflows that the two readings of internal/parser/codex count.
use assaio.Prelude.{
  ℕ, ◌+◌, ◌≡◌, ◌≢◌, refl, ap, ◌∙◌, sym, String, Bool, true, false, not, ◌&&◌, Bool-cases,
  Option-cases, inl, inr, List, [], ◌∷◌, ◌++◌, Option, none, some, count_if, count_if-append,
  update_at, update_at-middle, str_eq, eq_iff, sort_by, str_ltb, arith, if◌then◌else◌,
}
use mathlib.Core.List.{Sublistᴰ}
use assaio.Prelude.Int.{ℤ, pos, ◌+ℤ◌, wrap64}
use assaio.Prelude.Wrap.{◌≈◌, wrapped_is, add_congr, add_assoc, add_comm, add_zero, pos_add}
use assaio.Usage.{Tokens, Record, Step}
use assaio.Parser.{turn_tokens, token_count_record, delta}
use assaio.Parser.Tools.{plus, ToolClass, tool_class, kind_of_class, step_kind}
use assaio.Parser.Codex.{Library, Slot, StepRecorder, ParseState, Pending, new_parse_state}
use assaio.Parser.Codex.Recorder.{
  drop_slot, price_slot, push, open_turn, close_turn, tool_call, edit_files, edits, compaction,
  settled, stamp_from, stamp,
}
use assaio.Parser.Codex.Reader.{
  flush_last, flush_trailing_activity, apply_changes, apply_compacted, emit, apply_lines, parse_all,
  changed_paths,
}
use assaio.Parser.Codex.Records.{flush_into}
use assaio.Parser.Codex.Sequence.{apply_changes_steps}
use assaio.Parser.Codex.Turns.{IsOpen, is_response, bills}
use assaio.Parser.Codex.Billed.{AreBilled, keeps_billed, apply_changes_out}
use assaio.Parser.Codex.Moves.{Keeps, apply_lines-Inv}

abbrev pub is_compaction : Step → Bool
is_compaction s = str_eq s.kind "compaction"

abbrev pub is_kept_compaction : Slot → Bool
is_kept_compaction x = not x.is_dropped && is_compaction x.step

abbrev pub kept_compactions : List Slot → ℕ
kept_compactions xs = count_if is_kept_compaction xs

-- The compactions that some records count, summed.
abbrev pub compactions_of : List Record → ℤ
compactions_of [] = pos 0
compactions_of (r ∷ rs) = r.activity.compactions +ℤ compactions_of rs

no_compaction : (s : Step) → is_response s ≡ true → is_compaction s ≡ false
no_compaction s h =
    let same : s.kind ≡ "assistant" = (eq_iff s.kind "assistant").0 h in
    ap (λ k. str_eq k "compaction") same

other_class : (c : ToolClass) → str_eq (kind_of_class c) "compaction" ≡ false
unfolding kind_of_class
other_class ToolClass.class_read = refl
other_class ToolClass.class_search = refl
other_class ToolClass.class_command = refl
other_class ToolClass.class_write = refl
other_class ToolClass.class_other = refl

-- Changing an open response in place changes no count of compactions.
count-middle :
    (f : Slot → Slot) (i : ℕ) (xs : List Slot) (paid : List ℤ)
    → ((x : Slot) → is_response x.step ≡ true → is_kept_compaction (f x) ≡ false)
    → IsOpen i xs paid
    → kept_compactions (update_at f i xs) ≡ kept_compactions xs
count-middle f i xs paid q h =
    let moved : update_at f i xs ≡ h.before ++ (f h.opened ∷ h.after) =
      rw (h.index, h.split) (update_at-middle f h.before h.opened h.after) in
    rw
      (
        moved,
        h.split,
        count_if-append is_kept_compaction h.before (f h.opened ∷ h.after),
        count_if-append is_kept_compaction h.before (h.opened ∷ h.after),
        q h.opened h.response,
        no_compaction h.opened.step h.response,
        h.live,
      )
      refl

push-count :
    (st : Step) (s : StepRecorder)
    → is_compaction st ≡ false
    → kept_compactions (push st s).slots ≡ kept_compactions s.slots
push-count st s h = count_if-append is_kept_compaction s.slots _ ∙ rw h (omega arith)

module _ (lib : Library) (st : ParseState) where
  open_turn-count :
      (s : StepRecorder)
      → (kept_compactions (open_turn lib st s).slots ≡ kept_compactions s.slots)
        × ((open_turn lib st s).compactions ≡ s.compactions)
  unfolding open_turn
  open_turn-count s = elim (Option-cases s.turn_at) [
    | inl e ↦ rw e ((push-count _ s refl), refl)
    | inr (i, e) ↦ rw e (refl, refl)
  ]

  tool_call-count :
      (id name status : String) (s : StepRecorder)
      → kept_compactions (tool_call lib st id name status s).slots ≡ kept_compactions s.slots
  unfolding tool_call step_kind
  tool_call-count id name status s = push-count _ s (other_class (tool_class name))

  edit_files-count :
      (o : String) (i : ℕ) (ps : List String) (s : StepRecorder)
      → (kept_compactions (edit_files lib st o i ps s).slots ≡ kept_compactions s.slots)
        × ((edit_files lib st o i ps s).compactions ≡ s.compactions)
  unfolding edit_files
  edit_files-count o i [] s = (refl, refl)
  edit_files-count o i (p ∷ ps) s =
      let rest = edit_files-count o (i + 1) ps _ in (rest.0 ∙ push-count _ s refl, rest.1)

  edits-count :
      (ps : List String) (ok : Bool) (s : StepRecorder)
      → (kept_compactions (edits lib st ps ok s).slots ≡ kept_compactions s.slots)
        × ((edits lib st ps ok s).compactions ≡ s.compactions)
  unfolding edits
  edits-count ps ok s = elim (Bool-cases s.named_write) [
    | inl e ↦ rw e (refl, refl)
    | inr e ↦ rw e (edit_files-count (if ok then "ok" else "error") 0 (sort_by str_ltb ps) _)
  ]

  compaction-count :
      (s : StepRecorder)
      → kept_compactions (compaction lib st s).slots ≡ kept_compactions s.slots + 1
  unfolding compaction
  compaction-count s = count_if-append is_kept_compaction s.slots _

close_turn-count :
    (o : Option Tokens) (s : StepRecorder) (st : ParseState)
    → AreBilled (record st { steps = s })
    → (kept_compactions (close_turn o s).slots ≡ kept_compactions s.slots)
      × ((close_turn o s).compactions ≡ s.compactions)
unfolding close_turn
close_turn-count none s st h = elim (Option-cases s.turn_at) [
  | inl e ↦ rw e (refl, refl)
  | inr (i, e) ↦
      rw e (count-middle drop_slot i s.slots (bills st.out) (λ x r. refl) (rw e at h), refl)
]
close_turn-count (some t) s st h = elim (Option-cases s.turn_at) [
  | inl e ↦ rw e (refl, refl)
  | inr (i, e) ↦ rw e (
    count-middle (price_slot t) i s.slots (bills st.out)
        (λ x r. rw (no_compaction x.step r) (ground arith)) (rw e at h),
    refl,
  )
]

-- The sequence keeps every compaction, and the records with what is pending count as many.
pub record AreCounted (st : ParseState) : Type 0 where
  pub billed : AreBilled st
  pub kept : kept_compactions st.steps.slots ≡ st.steps.compactions
  pub counted : (compactions_of st.out +ℤ pos st.pending.compactions) ≈ pos st.steps.compactions

compactions_of-append :
    (rs qs : List Record) → compactions_of (rs ++ qs) ≡ compactions_of rs +ℤ compactions_of qs
compactions_of-append [] qs = sym (add_comm (pos 0) _ ∙ add_zero _)
compactions_of-append (r ∷ rs) qs =
    ap (λ x. r.activity.compactions +ℤ x) (compactions_of-append rs qs)
    ∙ sym (add_assoc r.activity.compactions (compactions_of rs) (compactions_of qs))

plus_zero : (n : ℕ) → plus (pos 0) n ≈ pos n
unfolding plus
plus_zero n = wrapped_is (pos 0 +ℤ pos n) ∙ ap wrap64 (add_comm (pos 0) (pos n) ∙ add_zero (pos n))

flushed : (x y : ℤ) (n : ℕ) → y ≈ pos n → (x +ℤ (y +ℤ pos 0)) ≈ (x +ℤ pos n)
flushed x y n h = add_congr x x _ _ refl (ap wrap64 (add_zero y) ∙ h)

emit-Counted :
    (lib : Library) (o : Option Tokens) (st : ParseState)
    → AreBilled (emit lib o st)
    → kept_compactions st.steps.slots ≡ st.steps.compactions
    → (compactions_of st.out +ℤ pos st.pending.compactions) ≈ pos st.steps.compactions
    → AreCounted (emit lib o st)
unfolding flush_into
emit-Counted lib none st b k h = record { billed = b; kept = k; counted = h }
emit-Counted lib (some t) st b k h = record {
  billed = b;
  kept = k;
  counted =
      ap wrap64 (add_zero _)
      ∙ ap wrap64 (compactions_of-append st.out (_ ∷ []))
      ∙ flushed (compactions_of st.out) (plus (pos 0) st.pending.compactions) st.pending.compactions
          (plus_zero st.pending.compactions)
      ∙ h;
}

apply_changes_compactions :
    (lib : Library) (cs : List (String × String)) (st : ParseState)
    → (apply_changes lib cs st).pending.compactions ≡ st.pending.compactions
unfolding apply_changes
apply_changes_compactions lib [] st = refl
apply_changes_compactions lib (c ∷ cs) st = apply_changes_compactions lib cs _

keeps_counted : (lib : Library) → Keeps lib AreCounted
unfolding apply_compacted token_count_record compaction tool_call
keeps_counted lib =
    let k = keeps_billed lib in
    record {
      stated = λ st session ts model project entrypoint fp skipped h. record {
        billed = h.billed;
        kept = h.kept;
        counted = h.counted;
      };
      opened = λ st h.
          let (same, n) = open_turn-count lib st st.steps in
          record {
            billed = k.opened st h.billed;
            kept = same ∙ h.kept ∙ sym n;
            counted = h.counted ∙ ap (λ m. wrap64 (pos m)) (sym n);
          };
      called = λ it st h. record {
        billed = k.called it st h.billed;
        kept = tool_call-count lib st it.call_id it.name it.status st.steps ∙ h.kept;
        counted = h.counted;
      };
      compacted = λ st h. record {
        billed = k.compacted st h.billed;
        kept = compaction-count lib st st.steps ∙ ap (λ n. n + 1) h.kept;
        counted =
            ap (λ x. wrap64 (compactions_of st.out +ℤ x)) (sym (pos_add st.pending.compactions 1))
            ∙ ap wrap64 (sym (add_assoc (compactions_of st.out) _ (pos 1)))
            ∙ add_congr _ _ _ _ h.counted refl
            ∙ ap wrap64 (pos_add st.steps.compactions 1);
      };
      patched = λ p st h.
          let (same, n) = edits-count lib st (changed_paths p.changes) p.success st.steps in
          let kept = same ∙ h.kept ∙ sym n in
          let counted = h.counted ∙ ap (λ m. wrap64 (pos m)) (sym n) in
          let billed = k.patched p st h.billed in
          elim (Bool-cases p.success) [
            | inl e ↦ record {
              billed = billed;
              kept = rw (e, apply_changes_steps lib p.changes _) (rw e at kept);
              counted =
                  rw
                    (
                      e,
                      apply_changes_steps lib p.changes _,
                      apply_changes_out lib p.changes _,
                      apply_changes_compactions lib p.changes _,
                    )
                    (rw e at counted);
            }
            | inr e ↦ record {
              billed = billed;
              kept = rw e (rw e at kept);
              counted = rw e (rw e at counted);
            }
          ];
      counted = λ cur st h.
          let produced = turn_tokens (delta st.prev cur) in
          let (same, n) = close_turn-count produced st.steps st h.billed in
          emit-Counted lib produced _ (k.counted cur st h.billed) (same ∙ h.kept ∙ sym n)
            (h.counted ∙ ap (λ m. wrap64 (pos m)) (sym n));
    }

settled-count :
    (st : ParseState)
    → AreBilled st
    → kept_compactions (settled st.steps) ≡ kept_compactions st.steps.slots
unfolding settled
settled-count st h = elim (Option-cases st.steps.turn_at) [
  | inl e ↦ rw e refl
  | inr (i, e) ↦
      rw e (count-middle drop_slot i st.steps.slots (bills st.out) (λ x r. refl) (rw e at h))
]

stamp_from-count :
    (session : String) (k : ℕ) (xs : List Slot)
    → count_if is_compaction (stamp_from session k xs) ≡ kept_compactions xs
unfolding stamp_from
stamp_from-count session k [] = refl
stamp_from-count session k (x ∷ xs) = elim (Bool-cases x.is_dropped) [
  | inl e ↦ rw e (stamp_from-count session k xs ∙ omega arith)
  | inr e ↦
      rw e (
        ap (λ n. (if is_compaction x.step then 1 else 0) + n) (stamp_from-count session (k + 1) xs))
]

flush_last-compactions :
    (a : Pending) (r : Record) (rs : List Record)
    → compactions_of (flush_last a (r ∷ rs)) ≈ (compactions_of (r ∷ rs) +ℤ pos a.compactions)
unfolding flush_into plus
flush_last-compactions a r [] =
    add_congr _ _ _ _ (wrapped_is _) refl
    ∙ ap wrap64 (add_zero _ ∙ ap (λ x. x +ℤ pos a.compactions) (sym (add_zero _)))
flush_last-compactions a r (q ∷ rs) =
    add_congr _ _ _ _ refl (flush_last-compactions a q rs)
    ∙ ap wrap64 (sym (add_assoc r.activity.compactions _ (pos a.compactions)))

flushed_records :
    (a : Pending) (rs : List Record)
    → flush_last a rs ≢ []
    → compactions_of (flush_last a rs) ≈ (compactions_of rs +ℤ pos a.compactions)
flushed_records a [] h = absurd (h refl)
flushed_records a (r ∷ rs) h = flush_last-compactions a r rs

-- When a rollout was scanned to its end and yields a record, its records count, as int64 values,
-- as many compactions as its step sequence has compaction steps.
pub parse_all-compactions :
    (lib : Library) (raws : List String)
    → (parse_all lib raws false).records ≢ []
    → compactions_of (parse_all lib raws false).records
      ≈ pos (count_if is_compaction (parse_all lib raws false).steps)
unfolding parse_all flush_trailing_activity stamp
parse_all-compactions lib raws h =
    let st = apply_lines lib raws new_parse_state in
    let start : AreCounted new_parse_state = record {
      billed = Sublistᴰ.slnil;
      kept = refl;
      counted = ap wrap64 (pos_add 0 0);
    } in
    let inv = apply_lines-Inv lib AreCounted (keeps_counted lib) raws new_parse_state start in
    let steps = stamp_from-count st.session 0 (settled st.steps) ∙ settled-count st inv.billed in
    flushed_records st.pending st.out h
    ∙ inv.counted
    ∙ ap (λ n. wrap64 (pos n)) (sym (steps ∙ inv.kept))
