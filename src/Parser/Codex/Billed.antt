-- ===== src/Parser/Codex/Billed.antt =====
-- The turns of internal/parser/codex are billed by its records: every handler of the reader keeps it.
use assaio.Parser.Codex.Turns.{
  bill, bills, is_response, costs, NoResponse, IsOpen, kept_costs, IsBilled, add_quiet,
  dropped_costs, priced_costs,
}
use assaio.Prelude.{
  ℕ, ◌+◌, ◌≡◌, refl, sym, ap, ◌∙◌, String, Bool, true, false, Bool-cases, Option-cases, inl, inr,
  List, [], ◌∷◌, ◌++◌, Option, none, some, str_eq, sort_by, str_ltb, if◌then◌else◌,
}
use mathlib.Core.List.{Sublistᴰ, append_assoc, append-nil}
use mathlib.Core.List.Sublistᴰ
use assaio.Prelude.Int.{ℤ}
use assaio.Usage.{Tokens, Record}
use assaio.Parser.{turn_tokens, token_count_record, delta}
use assaio.Parser.Tools.{ToolClass, tool_class, kind_of_class, step_kind}
use assaio.Parser.Codex.{Library, Slot, StepRecorder, ParseState, Pending, new_parse_state}
use assaio.Parser.Codex.Recorder.{
  open_turn, close_turn, tool_call, edit_files, edits, compaction, settled, stamp_from, stamp,
}
use assaio.Parser.Codex.Reader.{
  apply_changes, apply_compacted, emit, apply_lines, parse_all, changed_paths, flush_last,
  flush_trailing_activity,
}
use assaio.Parser.Codex.Records.{flush_into}
use assaio.Parser.Codex.Sequence.{apply_changes_steps}
use assaio.Parser.Codex.Moves.{Keeps, apply_lines-Inv}

quiet_class : (c : ToolClass) → str_eq (kind_of_class c) "assistant" ≡ false
unfolding kind_of_class
quiet_class ToolClass.class_read = refl
quiet_class ToolClass.class_search = refl
quiet_class ToolClass.class_command = refl
quiet_class ToolClass.class_write = refl
quiet_class ToolClass.class_other = refl

-- Steps were added behind the others, none of them a response, and the open turn is the same.
pub record Adds (s s' : StepRecorder) : Type 0 where
  pub added : List Slot
  pub slots : s'.slots ≡ s.slots ++ added
  pub turn : s'.turn_at ≡ s.turn_at
  pub quiet : NoResponse added

Adds-Billed :
    (s s' : StepRecorder) (paid : List ℤ)
    → Adds s s'
    → IsBilled s.turn_at s.slots paid
    → IsBilled s'.turn_at s'.slots paid
Adds-Billed s s' paid a h =
    rw (a.turn, a.slots) (add_quiet s.turn_at s.slots a.added paid a.quiet h)

module _ (lib : Library) (st : ParseState) where
  tool_call-Adds :
      (id name status : String) (s : StepRecorder) → Adds s (tool_call lib st id name status s)
  unfolding tool_call step_kind
  tool_call-Adds id name status s = record {
    added = _;
    slots = refl;
    turn = refl;
    quiet = (quiet_class (tool_class name), tt);
  }

  compaction-Adds : (s : StepRecorder) → Adds s (compaction lib st s)
  unfolding compaction
  compaction-Adds s = record { added = _; slots = refl; turn = refl; quiet = (refl, tt) }

  edit_files-Adds :
      (o : String) (i : ℕ) (ps : List String) (s : StepRecorder)
      → Adds s (edit_files lib st o i ps s)
  unfolding edit_files
  edit_files-Adds o i [] s = record {
    added = [];
    slots = sym (append-nil s.slots);
    turn = refl;
    quiet = tt;
  }
  edit_files-Adds o i (p ∷ ps) s =
      let rest = edit_files-Adds o (i + 1) ps _ in
      record {
        added = _ ∷ rest.added;
        slots = rest.slots ∙ append_assoc s.slots (_ ∷ []) rest.added;
        turn = rest.turn;
        quiet = (refl, rest.quiet);
      }

  edits-Adds : (ps : List String) (ok : Bool) (s : StepRecorder) → Adds s (edits lib st ps ok s)
  unfolding edits
  edits-Adds ps ok s = elim (Bool-cases s.named_write) [
    | inl e ↦
        rw e (record { added = []; slots = sym (append-nil s.slots); turn = refl; quiet = tt })
    | inr e ↦
        let files = edit_files-Adds (if ok then "ok" else "error") 0 (sort_by str_ltb ps) _ in
        rw e (record {
          added = files.added;
          slots = files.slots;
          turn = files.turn;
          quiet = files.quiet;
        })
  ]

  open_turn-Billed :
      (s : StepRecorder) (paid : List ℤ)
      → IsBilled s.turn_at s.slots paid
      → IsBilled (open_turn lib st s).turn_at (open_turn lib st s).slots paid
  unfolding open_turn
  open_turn-Billed s paid h = elim (Option-cases s.turn_at) [
    | inl e ↦ rw e (record {
      before = s.slots;
      opened = _;
      after = [];
      split = refl;
      index = refl;
      response = refl;
      live = refl;
      others = tt;
      billed = rw e at h;
    })
    | inr (i, e) ↦ rw e (rw e at h)
  ]

-- What is paid once a turn has ended.
abbrev pub with_turn : Option Tokens → List ℤ → List ℤ
with_turn none paid = paid
with_turn (some t) paid = paid ++ (bill t ∷ [])

close_turn-Billed :
    (o : Option Tokens) (s : StepRecorder) (paid : List ℤ)
    → IsBilled s.turn_at s.slots paid
    → IsBilled (close_turn o s).turn_at (close_turn o s).slots (with_turn o paid)
unfolding close_turn
close_turn-Billed none s paid h = elim (Option-cases s.turn_at) [
  | inl e ↦ rw e (rw e at h)
  | inr (i, e) ↦
      let still : IsOpen i s.slots paid = rw e at h in
      rw e (rw (dropped_costs i s.slots paid still) still.billed)
]
close_turn-Billed (some t) s paid h = elim (Option-cases s.turn_at) [
  | inl e ↦
      let closed : Sublistᴰ (kept_costs s.slots) paid = rw e at h in
      rw e (
        rw (← append-nil (kept_costs s.slots))
          (Sublistᴰ.append closed (Sublistᴰ.nil-sublist (bill t ∷ []))))
  | inr (i, e) ↦
      let still : IsOpen i s.slots paid = rw e at h in
      rw e (
        rw (priced_costs t i s.slots paid still)
          (Sublistᴰ.append still.billed (Sublistᴰ.refl (bill t ∷ []))))
]

-- The responses kept are billed by the records so far.
abbrev pub AreBilled : ParseState → Type 0
AreBilled st = IsBilled st.steps.turn_at st.steps.slots (bills st.out)

bills-append : (rs qs : List Record) → bills (rs ++ qs) ≡ bills rs ++ bills qs
bills-append [] qs = refl
bills-append (r ∷ rs) qs = ap (λ l. bill r.tokens ∷ l) (bills-append rs qs)

emit-bills :
    (lib : Library) (o : Option Tokens) (st : ParseState)
    → IsBilled st.steps.turn_at st.steps.slots (with_turn o (bills st.out))
    → AreBilled (emit lib o st)
unfolding flush_into
emit-bills lib none st h = h
emit-bills lib (some t) st h = rw (bills-append st.out (_ ∷ [])) h

-- Applying the changes of a patch emits no record.
pub apply_changes_out :
    (lib : Library) (cs : List (String × String)) (st : ParseState)
    → (apply_changes lib cs st).out ≡ st.out
unfolding apply_changes
apply_changes_out lib [] st = refl
apply_changes_out lib (c ∷ cs) st = apply_changes_out lib cs _

pub keeps_billed : (lib : Library) → Keeps lib AreBilled
unfolding apply_compacted token_count_record
keeps_billed lib = record {
  stated = λ st session ts model project entrypoint fp skipped h. h;
  opened = λ st h. open_turn-Billed lib st st.steps (bills st.out) h;
  called = λ it st h.
      Adds-Billed st.steps _ (bills st.out)
        (tool_call-Adds lib st it.call_id it.name it.status st.steps) h;
  compacted = λ st h. Adds-Billed st.steps _ (bills st.out) (compaction-Adds lib st st.steps) h;
  patched = λ p st h.
      let kept =
        Adds-Billed st.steps _ (bills st.out)
          (edits-Adds lib st (changed_paths p.changes) p.success st.steps) h in
      elim (Bool-cases p.success) [
        | inl e ↦
            rw (e, apply_changes_steps lib p.changes _, apply_changes_out lib p.changes _)
              (rw e at kept)
        | inr e ↦ rw e (rw e at kept)
      ];
  counted = λ cur st h.
      let produced = turn_tokens (delta st.prev cur) in
      emit-bills lib produced _ (close_turn-Billed produced st.steps (bills st.out) h);
}

stamp_from-costs :
    (session : String) (k : ℕ) (xs : List Slot) → costs (stamp_from session k xs) ≡ kept_costs xs
unfolding stamp_from
stamp_from-costs session k [] = refl
stamp_from-costs session k (x ∷ xs) = elim (Bool-cases x.is_dropped) [
  | inl e ↦ rw e (stamp_from-costs session k xs)
  | inr e ↦ rw e (elim (Bool-cases (is_response x.step)) [
    | inl f ↦ rw f (ap (λ l. x.step.tokens ∷ l) (stamp_from-costs session (k + 1) xs))
    | inr f ↦ rw f (stamp_from-costs session (k + 1) xs)
  ])
]

settled-Billed :
    (s : StepRecorder) (paid : List ℤ)
    → IsBilled s.turn_at s.slots paid
    → Sublistᴰ (kept_costs (settled s)) paid
unfolding settled
settled-Billed s paid h = elim (Option-cases s.turn_at) [
  | inl e ↦ rw e (rw e at h)
  | inr (i, e) ↦
      let still : IsOpen i s.slots paid = rw e at h in
      rw e (rw (dropped_costs i s.slots paid still) still.billed)
]

flush_last-bills : (a : Pending) (rs : List Record) → bills (flush_last a rs) ≡ bills rs
unfolding flush_into
flush_last-bills a [] = refl
flush_last-bills a (r ∷ []) = refl
flush_last-bills a (r ∷ q ∷ rs) = ap (λ l. bill r.tokens ∷ l) (flush_last-bills a (q ∷ rs))

parse_all-bills :
    (lib : Library) (raws : List String) (failed : Bool)
    → bills (parse_all lib raws failed).records ≡ bills (apply_lines lib raws new_parse_state).out
unfolding parse_all flush_trailing_activity
parse_all-bills lib raws true = refl
parse_all-bills lib raws false = flush_last-bills _ (apply_lines lib raws new_parse_state).out

-- Whatever a rollout holds, the token totals of the assistant steps are, in their order, those of
-- some of its records: no response is priced without a record, at another total, or twice.
pub parse_all-Billed :
    (lib : Library) (raws : List String) (failed : Bool)
    → Sublistᴰ (costs (parse_all lib raws failed).steps) (bills (parse_all lib raws failed).records)
unfolding parse_all stamp
parse_all-Billed lib raws failed =
    let st = apply_lines lib raws new_parse_state in
    rw (parse_all-bills lib raws failed, stamp_from-costs st.session 0 (settled st.steps))
      (settled-Billed st.steps (bills st.out)
        (apply_lines-Inv lib AreBilled (keeps_billed lib) raws new_parse_state Sublistᴰ.slnil))
