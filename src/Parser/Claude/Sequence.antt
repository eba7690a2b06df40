-- ===== src/Parser/Claude/Sequence.antt =====
-- What the step sequence of internal/parser/claude/steps.go looks like, whatever the transcript.
use assaio.Prelude.{
  ℕ, zero, suc, ◌+◌, ◌≡◌, refl, ap, ◌∙◌, sym, String, Bool, true, not, ◌||◌, Bool-cases, inl, inr,
  List, [], ◌∷◌, ◌++◌, Option, none, some, length, length-append, update_at, All, All-append,
  All-update_at, str_eq, arith, if◌then◌else◌,
}
use assaio.Prelude.Int.{ℤ, pos}
use assaio.Usage.{Step, valid_step_kind, valid_step_outcome}
use assaio.Parser.Tools.{ToolClass, tool_class, kind_of_class, step_kind, lookup}
use assaio.Parser.Claude.{
  Library, Line, ContentBlock, BlockActivity, StepRecorder, ParseState, new_parse_state,
}
use assaio.Parser.Claude.Recorder.{
  append_step, stop_outcome, refine, assistant, assistant_at, call_step, tool_calls, resolve_at,
  resolve_results, set_outcome, call_key, ref, target_path, deny_at, denial, compaction, stamp,
  unstamped,
}
use assaio.Parser.Claude.Reader.{append_keyed, record_step, apply_raws, parse_all}
use assaio.Parser.Claude.Moves.{Keeps, apply_raws-Inv}

-- A step of the closed vocabulary.
pub record IsKnown (s : Step) : Type 0 where
  pub kind : valid_step_kind s.kind ≡ true
  pub outcome : valid_step_outcome s.outcome ≡ true

-- The steps follow k others in a sequence of Claude Code without a gap.
abbrev pub IsPlaced : ℕ → List Step → Type 0
IsPlaced k [] = Unit
IsPlaced k (s ∷ ss) = (s.ordinal ≡ pos (k + 1)) × ((s.tool ≡ "claude-code") × IsPlaced (k + 1) ss)

pub record IsOrderly (s : StepRecorder) : Type 0 where
  pub known : All IsKnown s.steps
  pub placed : IsPlaced 0 s.steps
  pub counted : s.ordinal ≡ length s.steps

known_class : (c : ToolClass) → valid_step_kind (kind_of_class c) ≡ true
unfolding valid_step_kind kind_of_class
known_class ToolClass.class_read = refl
known_class ToolClass.class_search = refl
known_class ToolClass.class_command = refl
known_class ToolClass.class_write = refl
known_class ToolClass.class_other = refl

stop_known : (stop : String) → valid_step_outcome (stop_outcome stop) ≡ true
unfolding valid_step_outcome stop_outcome
stop_known stop = elim (Bool-cases (str_eq stop "end_turn" || str_eq stop "stop_sequence")) [
  | inl e ↦ rw e refl
  | inr e ↦ elim (Bool-cases (str_eq stop "max_tokens")) [
    | inl f ↦ rw (e, f) refl
    | inr f ↦ rw (e, f) refl
  ]
]

placed-append :
    (k : ℕ) (ss : List Step) (s : Step)
    → IsPlaced k ss
    → s.ordinal ≡ pos (k + length ss + 1)
    → s.tool ≡ "claude-code"
    → IsPlaced k (ss ++ (s ∷ []))
placed-append k [] s h e t = (e ∙ ap pos (omega arith), (t, tt))
placed-append k (x ∷ xs) s h e t =
    (h.0, (h.1.0, placed-append (k + 1) xs s h.1.1 (e ∙ ap pos (omega arith)) t))

append_step-Orderly :
    (st : Step) (s : StepRecorder) → IsKnown st → IsOrderly s → IsOrderly (append_step st s)
unfolding append_step
append_step-Orderly st s k h = record {
  known =
      All-append IsKnown s.steps _ h.known ((record { kind = k.kind; outcome = k.outcome }), tt);
  placed =
      placed-append 0 s.steps _ h.placed (ap (λ n. pos (n + 1)) h.counted ∙ ap pos (omega arith))
        refl;
  counted =
      omega (arith, h.counted, length-append s.steps (st ∷ []), length-append s.steps (_ ∷ []));
}

-- A change of a step that leaves its place.
abbrev pub StaysPut : (Step → Step) → Type 0
StaysPut f = (s : Step) → ((f s).ordinal ≡ s.ordinal) × ((f s).tool ≡ s.tool)

placed-update :
    (f : Step → Step) (q : StaysPut f) (k i : ℕ) (ss : List Step)
    → IsPlaced k ss
    → IsPlaced k (update_at f i ss)
placed-update f q k i [] h = tt
placed-update f q k zero (s ∷ ss) h = ((q s).0 ∙ h.0, ((q s).1 ∙ h.1.0, h.1.1))
placed-update f q k (suc i) (s ∷ ss) h = (h.0, (h.1.0, placed-update f q (k + 1) i ss h.1.1))

length-update_at {ℓ} :
    {A : Type ℓ} (f : A → A) (i : ℕ) (xs : List A) → length (update_at f i xs) ≡ length xs
length-update_at f i [] = refl
length-update_at f zero (x ∷ xs) = refl
length-update_at f (suc i) (x ∷ xs) = ap suc (length-update_at f i xs)

update-Orderly :
    (f : Step → Step) (i : ℕ) (s : StepRecorder)
    → StaysPut f
    → ((x : Step) → IsKnown x → IsKnown (f x))
    → IsOrderly s
    → IsOrderly (record s { steps = update_at f i s.steps })
update-Orderly f i s q k h = record {
  known = All-update_at IsKnown f k i s.steps h.known;
  placed = placed-update f q 0 i s.steps h.placed;
  counted = h.counted ∙ sym (length-update_at f i s.steps);
}

outcome-Orderly :
    (o : String) (i : ℕ) (s : StepRecorder)
    → valid_step_outcome o ≡ true
    → IsOrderly s
    → IsOrderly (record s { steps = update_at (set_outcome o) i s.steps })
outcome-Orderly o i s v h =
    update-Orderly (set_outcome o) i s (λ x. (refl, refl))
      (λ x k. record { kind = k.kind; outcome = v }) h

refine-Known : (l : Line) (t : ℤ) (x : Step) → IsKnown x → IsKnown (refine l t x)
unfolding refine
refine-Known l t x k = record {
  kind = k.kind;
  outcome = elim (Bool-cases (str_eq x.outcome "")) [
    | inl e ↦ rw e (stop_known l.message_stop_reason)
    | inr e ↦ rw e k.outcome
  ];
}

assistant-Orderly :
    (l : Line) (key : String) (t : ℤ) (o : Option ℕ) (s : StepRecorder)
    → IsOrderly s
    → IsOrderly (assistant_at o l key t s)
unfolding valid_step_kind refine append_step
assistant-Orderly l key t (some i) s h =
    update-Orderly (refine l t) i s (λ x. (refl, refl)) (refine-Known l t) h
assistant-Orderly l key t none s h =
    let step : Step = record (unstamped l key "assistant" l.message_model) {
      outcome = stop_outcome l.message_stop_reason;
      tokens = t;
    } in
    let kept =
      append_step-Orderly step s
        (record { kind = refl; outcome = stop_known l.message_stop_reason }) h in
    record { known = kept.known; placed = kept.placed; counted = kept.counted }

module _ (lib : Library) (l : Line) (key cwd : String) where
  call_step-Orderly :
      (b : ContentBlock) (s : StepRecorder) → IsOrderly s → IsOrderly (call_step lib l key cwd b s)
  unfolding call_step step_kind append_step valid_step_outcome
  call_step-Orderly b s h =
      let k = call_key lib key b s.calls_per_response in
      let step : Step = record (unstamped l k.0 (step_kind b.name) l.message_model) {
        target_ref = (ref lib (target_path lib b) cwd s.targets).0;
      } in
      let kept =
        append_step-Orderly step s
          (record { kind = known_class (tool_class b.name); outcome = refl }) h in
      record { known = kept.known; placed = kept.placed; counted = kept.counted }

  tool_calls-Orderly :
      (bs : List ContentBlock) (s : StepRecorder)
      → IsOrderly s
      → IsOrderly (tool_calls lib l key cwd bs s)
  unfolding tool_calls
  tool_calls-Orderly [] s h = h
  tool_calls-Orderly (b ∷ bs) s h = elim (Bool-cases (str_eq b.kind "tool_use")) [
    | inl e ↦ rw e (tool_calls-Orderly bs _ (call_step-Orderly b s h))
    | inr e ↦ rw e (tool_calls-Orderly bs s h)
  ]

resolve_at-Orderly :
    (o : Option ℕ) (err : Bool) (s : StepRecorder) → IsOrderly s → IsOrderly (resolve_at o err s)
unfolding valid_step_outcome
resolve_at-Orderly none err s h = h
resolve_at-Orderly (some i) err s h =
    let stated : valid_step_outcome (if err then "error" else "ok") ≡ true = elim (Bool-cases err) [
      | inl f ↦ rw f refl
      | inr f ↦ rw f refl
    ] in
    outcome-Orderly (if err then "error" else "ok") i s stated h

resolve_results-Orderly :
    (bs : List ContentBlock) (s : StepRecorder) → IsOrderly s → IsOrderly (resolve_results bs s)
unfolding resolve_results
resolve_results-Orderly [] s h = h
resolve_results-Orderly (b ∷ bs) s h = elim (Bool-cases (str_eq b.kind "tool_result")) [
  | inl e ↦ rw e (
      resolve_results-Orderly bs _
        (resolve_at-Orderly (lookup b.tool_use_id s.by_tool_use) b.is_error s h))
  | inr e ↦ rw e (resolve_results-Orderly bs s h)
]

deny_at-Orderly :
    (o : Option ℕ) (rest s : StepRecorder)
    → IsOrderly rest
    → IsOrderly s
    → IsOrderly (deny_at o rest s)
unfolding valid_step_outcome
deny_at-Orderly none rest s r h = r
deny_at-Orderly (some i) rest s r h = outcome-Orderly "denied" i s refl h

denial-Orderly : (bs : List ContentBlock) (s : StepRecorder) → IsOrderly s → IsOrderly (denial bs s)
unfolding denial
denial-Orderly [] s h = h
denial-Orderly (b ∷ bs) s h =
    let rest = denial-Orderly bs s h in
    elim (Bool-cases (not (str_eq b.kind "tool_result") || str_eq b.tool_use_id "")) [
      | inl e ↦ rw e rest
      | inr e ↦ rw e (deny_at-Orderly (lookup b.tool_use_id s.by_tool_use) _ s rest h)
    ]

compaction-Orderly : (l : Line) (s : StepRecorder) → IsOrderly s → IsOrderly (compaction l s)
unfolding compaction valid_step_kind valid_step_outcome
compaction-Orderly l s h = elim (Bool-cases (str_eq l.uuid "")) [
  | inl e ↦ rw e h
  | inr e ↦ rw e (append_step-Orderly _ s (record { kind = refl; outcome = refl }) h)
]

keyed-Orderly :
    (lib : Library) (l : Line) (act : BlockActivity) (bs : List ContentBlock) (key : String)
    (o : Option ℕ) (st : ParseState)
    → IsOrderly st.steps
    → IsOrderly (append_keyed lib l act bs key o st).steps
unfolding record_step assistant
keyed-Orderly lib l act bs key (some i) st h =
    tool_calls-Orderly lib l key st.carry.cwd bs _
      (assistant-Orderly l key _ (lookup key st.steps.by_response) st.steps h)
keyed-Orderly lib l act bs key none st h =
    tool_calls-Orderly lib l key st.carry.cwd bs _
      (assistant-Orderly l key _ (lookup key st.steps.by_response) st.steps h)

abbrev pub HasOrder : ParseState → Type 0
HasOrder st = IsOrderly st.steps

keeps_order : (lib : Library) → Keeps lib HasOrder
keeps_order lib = record {
  stated = λ st seen compacting budget skipped session timeline carry h. h;
  counted = λ f st q h. h;
  delegated = λ l t u st h. h;
  resolved = λ bs st h. resolve_results-Orderly bs st.steps h;
  denied = λ bs st h. denial-Orderly bs st.steps h;
  compacted = λ l st h. compaction-Orderly l st.steps h;
  responded = λ l act bs key st e h. keyed-Orderly lib l act bs key (lookup key st.by_message) st h;
}

-- Every step is of one session and one timeline.
abbrev pub IsOf : String → String → List Step → Type 0
IsOf session timeline ss = All (λ (s : Step). (s.session_id ≡ session) × (s.timeline ≡ timeline)) ss

stamp-IsOf :
    (session timeline : String) (ss : List Step) → IsOf session timeline (stamp session timeline ss)
unfolding stamp
stamp-IsOf session timeline [] = tt
stamp-IsOf session timeline (s ∷ ss) = ((refl, refl), stamp-IsOf session timeline ss)

stamp-Placed :
    (session timeline : String) (k : ℕ) (ss : List Step)
    → IsPlaced k ss
    → IsPlaced k (stamp session timeline ss)
unfolding stamp
stamp-Placed session timeline k [] h = tt
stamp-Placed session timeline k (s ∷ ss) h =
    (h.0, (h.1.0, stamp-Placed session timeline (k + 1) ss h.1.1))

stamp-Known :
    (session timeline : String) (ss : List Step)
    → All IsKnown ss
    → All IsKnown (stamp session timeline ss)
unfolding stamp
stamp-Known session timeline [] h = tt
stamp-Known session timeline (s ∷ ss) h =
    ((record { kind = h.0.kind; outcome = h.0.outcome }), stamp-Known session timeline ss h.1)

-- Whatever a transcript holds, the steps read from it are numbered from 1 without a gap, are of
-- Claude Code and of the session and the timeline that the transcript stated last, and each has a
-- kind and an outcome of the closed vocabulary.
pub parse_all_orderly :
    (lib : Library) (raws : List String)
    → let st = apply_raws lib raws new_parse_state in
      IsPlaced 0 (parse_all lib raws).steps
      × (IsOf st.session_id st.timeline (parse_all lib raws).steps
          × All IsKnown (parse_all lib raws).steps)
unfolding parse_all
parse_all_orderly lib raws =
    let st = apply_raws lib raws new_parse_state in
    let start : HasOrder new_parse_state = record { known = tt; placed = tt; counted = refl } in
    let h = apply_raws-Inv lib HasOrder (keeps_order lib) raws new_parse_state start in
    (
      (stamp-Placed st.session_id st.timeline 0 st.steps.steps h.placed),
      (
        (stamp-IsOf st.session_id st.timeline st.steps.steps),
        stamp-Known st.session_id st.timeline st.steps.steps h.known,
      ),
    )
