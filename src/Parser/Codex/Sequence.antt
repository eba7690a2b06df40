-- ===== src/Parser/Codex/Sequence.antt =====
-- What the step sequence of internal/parser/codex/steps.go looks like, whatever the rollout.
use assaio.Prelude.{
  ℕ, ◌+◌, ◌<◌, ◌^◌, ◌≡◌, refl, String, Bool, true, Bool-cases, Option-cases, inl, inr, List, [],
  ◌∷◌, ◌&&◌, Option, none, some, All, All-append, All-update_at, sort_by, str_ltb, arith,
  if◌then◌else◌,
}
use assaio.Prelude.Int.{ℤ, pos, pos_part, ◌≤ℤ◌, leb_ℤ, wrap64}
use assaio.Usage.{Tokens, Step, valid_step_kind, valid_step_outcome}
use assaio.Parser.{Totals, non_neg, subset, turn_tokens, token_count_record, delta}
use assaio.Parser.Clamps.{sum_non_neg-saturated, saturated}
use assaio.Parser.Tools.{ToolClass, tool_class, kind_of_class, step_kind}
use assaio.Parser.Codex.{Library, Slot, StepRecorder, ParseState, new_parse_state}
use assaio.Parser.Codex.Recorder.{
  drop_slot, price_slot, push, open_turn, close_turn, tool_call, failed_status, edit_files, edits,
  compaction, settled, stamp_from, stamp, unstamped,
}
use assaio.Parser.Codex.Reader.{
  apply_changes, apply_compacted, emit, apply_lines, parse_all, changed_paths,
}
use assaio.Parser.Codex.Moves.{Keeps, apply_lines-Inv}

-- A step of the closed vocabulary, in the one timeline of its session, with a token count.
pub record IsKnown (s : Step) : Type 0 where
  pub kind : valid_step_kind s.kind ≡ true
  pub outcome : valid_step_outcome s.outcome ≡ true
  pub timeline : s.timeline ≡ ""
  pub tokens : pos 0 ≤ℤ s.tokens

abbrev pub AllKnown : List Slot → Type 0
AllKnown xs = All (λ (x : Slot). IsKnown x.step) xs

known_class : (c : ToolClass) → valid_step_kind (kind_of_class c) ≡ true
unfolding valid_step_kind kind_of_class
known_class ToolClass.class_read = refl
known_class ToolClass.class_search = refl
known_class ToolClass.class_command = refl
known_class ToolClass.class_write = refl
known_class ToolClass.class_other = refl

push-Known :
    (st : Step) (s : StepRecorder) → IsKnown st → AllKnown s.slots → AllKnown (push st s).slots
push-Known st s h a = All-append _ s.slots _ a (h, tt)

unstamped-Known :
    (st : ParseState) (key kind : String)
    → valid_step_kind kind ≡ true
    → IsKnown (unstamped st key kind)
unfolding valid_step_outcome
unstamped-Known st key kind h = record {
  kind = h;
  outcome = refl;
  timeline = refl;
  tokens = omega arith;
}

module _ (lib : Library) (st : ParseState) where
  open_turn-Known : (s : StepRecorder) → AllKnown s.slots → AllKnown (open_turn lib st s).slots
  unfolding open_turn valid_step_kind
  open_turn-Known s a = elim (Option-cases s.turn_at) [
    | inl e ↦ rw e (push-Known _ s (unstamped-Known st _ "assistant" refl) a)
    | inr (i, e) ↦ rw e a
  ]

  tool_call-Known :
      (id name status : String) (s : StepRecorder)
      → AllKnown s.slots
      → AllKnown (tool_call lib st id name status s).slots
  unfolding tool_call step_kind valid_step_outcome
  tool_call-Known id name status s a =
      push-Known _ s
        (record {
          kind = known_class (tool_class name);
          outcome = elim (Bool-cases (failed_status status)) [
            | inl e ↦ rw e refl
            | inr e ↦ rw e refl
          ];
          timeline = refl;
          tokens = omega arith;
        })
        a

  edit_files-Known :
      (o : String) (i : ℕ) (ps : List String) (s : StepRecorder)
      → valid_step_outcome o ≡ true
      → AllKnown s.slots
      → AllKnown (edit_files lib st o i ps s).slots
  unfolding edit_files valid_step_kind
  edit_files-Known o i [] s h a = a
  edit_files-Known o i (p ∷ ps) s h a = edit_files-Known o (i + 1) ps _ h (
      push-Known _ s (record { kind = refl; outcome = h; timeline = refl; tokens = omega arith }) a)

  edits-Known :
      (ps : List String) (ok : Bool) (s : StepRecorder)
      → AllKnown s.slots
      → AllKnown (edits lib st ps ok s).slots
  unfolding edits valid_step_outcome
  edits-Known ps ok s a = elim (Bool-cases s.named_write) [
    | inl e ↦ rw e a
    | inr e ↦
        let stated : valid_step_outcome (if ok then "ok" else "error") ≡ true =
          elim (Bool-cases ok) [ inl f ↦ rw f refl | inr f ↦ rw f refl ] in
        rw e (edit_files-Known _ 0 (sort_by str_ltb ps) _ stated a)
  ]

  compaction-Known : (s : StepRecorder) → AllKnown s.slots → AllKnown (compaction lib st s).slots
  unfolding compaction valid_step_kind
  compaction-Known s a = push-Known _ s (unstamped-Known st _ "compaction" refl) a

wrap64_bound : (x : ℤ) → pos_part (wrap64 x) < 2 ^ 63
unfolding wrap64
wrap64_bound (pos n) = ground arith
wrap64_bound (ℤ.negsuc n) = ground arith

non_neg_bound : (x : ℤ) → pos_part x < 2 ^ 63 → pos_part (non_neg x) < 2 ^ 63
unfolding non_neg
non_neg_bound x h = ground arith

subset_bound : (n x : ℤ) → pos_part x < 2 ^ 63 → pos_part (subset n x) < 2 ^ 63
unfolding subset non_neg
subset_bound n x h = ground arith

saturated_pos : (n : ℕ) → pos 0 ≤ℤ saturated n
saturated_pos n = ground arith

-- The counters of a turn that its step sums are int64 counts.
abbrev pub IsSummable : Tokens → Type 0
IsSummable t = All (λ n. pos_part n < 2 ^ 63) (t.input ∷ t.cache_read ∷ t.output ∷ [])

-- Whether a turn produced nothing, or counters that can be summed.
abbrev pub SummableTurn : Option Tokens → Type 0
SummableTurn none = Unit
SummableTurn (some t) = IsSummable t

turn_tokens-Summable : (prev cur : Totals) → SummableTurn (turn_tokens (delta prev cur))
unfolding turn_tokens
turn_tokens-Summable prev cur =
    let d = delta prev cur in
    let whole = non_neg_bound d.input (wrap64_bound _) in
    elim (Bool-cases
      (leb_ℤ d.input (pos 0) && (leb_ℤ d.output (pos 0) && leb_ℤ d.cached (pos 0)))) [
        | inl e ↦ rw e tt
        | inr e ↦ rw e (
          wrap64_bound _,
          (
            subset_bound d.cached (non_neg d.input) whole,
            (non_neg_bound d.output (wrap64_bound _), tt),
          ),
        )
      ]

priced-Known :
    (t : Tokens) → IsSummable t → (x : Slot) → IsKnown x.step → IsKnown (price_slot t x).step
priced-Known t b x h = record {
  kind = h.kind;
  outcome = h.outcome;
  timeline = h.timeline;
  tokens = rw (sum_non_neg-saturated (t.input ∷ t.cache_read ∷ t.output ∷ []) b) (saturated_pos _);
}

close_turn-Known :
    (o : Option Tokens) (s : StepRecorder)
    → SummableTurn o
    → AllKnown s.slots
    → AllKnown (close_turn o s).slots
unfolding close_turn
close_turn-Known none s b a = elim (Option-cases s.turn_at) [
  | inl e ↦ rw e a
  | inr (i, e) ↦ rw e (All-update_at _ drop_slot (λ x h. h) i s.slots a)
]
close_turn-Known (some t) s b a = elim (Option-cases s.turn_at) [
  | inl e ↦ rw e a
  | inr (i, e) ↦ rw e (All-update_at _ (price_slot t) (priced-Known t b) i s.slots a)
]

abbrev pub HasKnown : ParseState → Type 0
HasKnown st = AllKnown st.steps.slots

-- Applying the changes of a patch leaves the sequence as it is.
pub apply_changes_steps :
    (lib : Library) (cs : List (String × String)) (st : ParseState)
    → (apply_changes lib cs st).steps ≡ st.steps
unfolding apply_changes
apply_changes_steps lib [] st = refl
apply_changes_steps lib (c ∷ cs) st = apply_changes_steps lib cs _

pub emit_steps :
    (lib : Library) (o : Option Tokens) (st : ParseState) → (emit lib o st).steps ≡ st.steps
emit_steps lib none st = refl
emit_steps lib (some t) st = refl

keeps_known : (lib : Library) → Keeps lib HasKnown
unfolding apply_compacted token_count_record
keeps_known lib = record {
  stated = λ st session ts model project entrypoint fp skipped h. h;
  opened = λ st h. open_turn-Known lib st st.steps h;
  called = λ it st h. tool_call-Known lib st it.call_id it.name it.status st.steps h;
  compacted = λ st h. compaction-Known lib st st.steps h;
  patched = λ p st h.
      let kept = edits-Known lib st (changed_paths p.changes) p.success st.steps h in
      elim (Bool-cases p.success) [
        | inl e ↦ rw (e, apply_changes_steps lib p.changes _) (rw e at kept)
        | inr e ↦ rw e (rw e at kept)
      ];
  counted = λ cur st h.
      let produced = turn_tokens (delta st.prev cur) in
      rw (emit_steps lib produced _)
        (close_turn-Known produced st.steps (turn_tokens-Summable st.prev cur) h);
}

-- The steps follow k others in a sequence of Codex without a gap.
abbrev pub IsNumbered : String → ℕ → List Step → Type 0
IsNumbered session k [] = Unit
IsNumbered session k (s ∷ ss) =
    (s.ordinal ≡ pos (k + 1))
    × (s.tool ≡ "codex")
    × (s.session_id ≡ session)
    × IsNumbered session (k + 1) ss

stamp_from-Numbered :
    (session : String) (k : ℕ) (xs : List Slot) → IsNumbered session k (stamp_from session k xs)
unfolding stamp_from
stamp_from-Numbered session k [] = tt
stamp_from-Numbered session k (x ∷ xs) = elim (Bool-cases x.is_dropped) [
  | inl e ↦ rw e (stamp_from-Numbered session k xs)
  | inr e ↦ rw e (refl, refl, refl, stamp_from-Numbered session (k + 1) xs)
]

stamp_from-Known :
    (session : String) (k : ℕ) (xs : List Slot)
    → AllKnown xs
    → All IsKnown (stamp_from session k xs)
unfolding stamp_from
stamp_from-Known session k [] a = tt
stamp_from-Known session k (x ∷ xs) a = elim (Bool-cases x.is_dropped) [
  | inl e ↦ rw e (stamp_from-Known session k xs a.1)
  | inr e ↦
      let same : IsKnown x.step = a.0 in
      rw e (
        (record {
          kind = same.kind;
          outcome = same.outcome;
          timeline = same.timeline;
          tokens = same.tokens;
        }),
        stamp_from-Known session (k + 1) xs a.1,
      )
]

settled-Known : (s : StepRecorder) → AllKnown s.slots → AllKnown (settled s)
unfolding settled
settled-Known s a = elim (Option-cases s.turn_at) [
  | inl e ↦ rw e a
  | inr (i, e) ↦ rw e (All-update_at _ drop_slot (λ x h. h) i s.slots a)
]

-- Whatever a rollout holds, the steps read from it are numbered from 1 without a gap, are of Codex
-- and of the rollout's last stated session, belong to the main timeline, and each has a kind and an
-- outcome of the closed vocabulary and a token count that is not negative.
pub parse_all_sequence :
    (lib : Library) (raws : List String) (failed : Bool)
    → IsNumbered (apply_lines lib raws new_parse_state).session 0 (parse_all lib raws failed).steps
      × All IsKnown (parse_all lib raws failed).steps
unfolding parse_all stamp
parse_all_sequence lib raws failed =
    let st = apply_lines lib raws new_parse_state in
    (
      stamp_from-Numbered st.session 0 (settled st.steps),
      stamp_from-Known st.session 0 (settled st.steps) (
          settled-Known st.steps
            (apply_lines-Inv lib HasKnown (keeps_known lib) raws new_parse_state tt)),
    )
