-- ===== src/Parser/Claude/Responses.antt =====
-- How internal/parser/claude/turn.go and steps.go keep one record and one step for each response.
use assaio.Prelude.{
  ℕ, ◌≡◌, refl, ◌∙◌, String, Bool, false, not, ◌||◌, Bool-cases, Option-cases, inl, inr, List, [],
  ◌∷◌, Option, none, some, update_at, str_eq, if◌then◌else◌,
}
use assaio.Prelude.Int.{ℤ}
use assaio.Usage.{Record, Step}
use assaio.Parser.Tools.{ToolClass, tool_class, kind_of_class, step_kind, lookup}
use assaio.Parser.Indexed.{IsIndexed, IsIndexed-update, IsIndexed-append, IsIndexed-new}
use assaio.Parser.Views.{view, view-update, view-append, view-new, view-set}
use assaio.Parser.Claude.{Library, Line, ContentBlock, StepRecorder, ParseState}
use assaio.Parser.Claude.Recorder.{
  append_step, refine, assistant, call_step, call_key, tool_calls, resolve_at, resolve_results,
  set_outcome, deny_at, denial, compaction, unstamped, ref, target_path,
}
use assaio.Parser.Claude.Reader.{bill}

abbrev pub is_turn : Record → Bool
is_turn r = str_eq r.granularity "turn"

abbrev pub is_response : Step → Bool
is_response s = str_eq s.kind "assistant"

abbrev pub record_key : Record → String
record_key r = r.dedupe_key

abbrev pub step_key : Step → String
step_key s = s.dedupe_key

-- The token total of the step of a response, by its key.
abbrev pub cost_of : StepRecorder → String → Option ℤ
cost_of s k = view (λ (x : Step). x.tokens) s.by_response s.steps k

-- The token total of the record of a response, by its key.
abbrev pub billed_for : ParseState → String → Option ℤ
billed_for st k = view (λ (r : Record). bill r.tokens) st.by_message st.out k

abbrev pub HasResponses : StepRecorder → Type 0
HasResponses s = IsIndexed step_key is_response s.by_response s.steps

abbrev pub HasTurns : ParseState → Type 0
HasTurns st = IsIndexed record_key is_turn st.by_message st.out

-- The response steps are still there, at their costs.
pub record IsQuiet (s s' : StepRecorder) : Type 0 where
  pub responses : HasResponses s → HasResponses s'
  pub costs : HasResponses s → (k : String) → cost_of s' k ≡ cost_of s k

IsQuiet-refl : (s : StepRecorder) → IsQuiet s s
IsQuiet-refl s = record { responses = λ h. h; costs = λ h k. refl }

IsQuiet-trans : (a b c : StepRecorder) → IsQuiet a b → IsQuiet b c → IsQuiet a c
IsQuiet-trans a b c p q = record {
  responses = λ h. q.responses (p.responses h);
  costs = λ h k. q.costs (p.responses h) k ∙ p.costs h k;
}

outcome-Quiet :
    (o : String) (i : ℕ) (s : StepRecorder)
    → IsQuiet s (record s { steps = update_at (set_outcome o) i s.steps })
outcome-Quiet o i s = record {
  responses = λ h.
      IsIndexed-update step_key is_response (set_outcome o) i s.by_response s.steps (λ x. refl)
        (λ x. refl) h;
  costs = λ h k.
      view-update (λ (x : Step). x.tokens) (set_outcome o) i s.by_response s.steps k (λ x. refl);
}

append_step-Quiet :
    (st : Step) (s : StepRecorder) → is_response st ≡ false → IsQuiet s (append_step st s)
unfolding append_step
append_step-Quiet st s e = record {
  responses = λ h. IsIndexed-append step_key is_response _ s.by_response s.steps e h;
  costs =
      λ h k. view-append (λ (x : Step). x.tokens) step_key is_response s.by_response s.steps _ k h;
}

quiet_class : (c : ToolClass) → str_eq (kind_of_class c) "assistant" ≡ false
unfolding kind_of_class
quiet_class ToolClass.class_read = refl
quiet_class ToolClass.class_search = refl
quiet_class ToolClass.class_command = refl
quiet_class ToolClass.class_write = refl
quiet_class ToolClass.class_other = refl

module _ (lib : Library) (l : Line) (key cwd : String) where
  call_step-Quiet : (b : ContentBlock) (s : StepRecorder) → IsQuiet s (call_step lib l key cwd b s)
  unfolding call_step step_kind append_step
  call_step-Quiet b s =
      let k = call_key lib key b s.calls_per_response in
      let step : Step = record (unstamped l k.0 (step_kind b.name) l.message_model) {
        target_ref = (ref lib (target_path lib b) cwd s.targets).0;
      } in
      let q = append_step-Quiet step s (quiet_class (tool_class b.name)) in
      record { responses = q.responses; costs = q.costs }

  pub tool_calls-Quiet :
      (bs : List ContentBlock) (s : StepRecorder) → IsQuiet s (tool_calls lib l key cwd bs s)
  unfolding tool_calls
  tool_calls-Quiet [] s = IsQuiet-refl s
  tool_calls-Quiet (b ∷ bs) s = elim (Bool-cases (str_eq b.kind "tool_use")) [
    | inl e ↦ rw e (
        IsQuiet-trans s (call_step lib l key cwd b s) _ (call_step-Quiet b s)
          (tool_calls-Quiet bs _))
    | inr e ↦ rw e (tool_calls-Quiet bs s)
  ]

resolve_at-Quiet : (o : Option ℕ) (err : Bool) (s : StepRecorder) → IsQuiet s (resolve_at o err s)
resolve_at-Quiet none err s = IsQuiet-refl s
resolve_at-Quiet (some i) err s = outcome-Quiet _ i s

pub resolve_results-Quiet :
    (bs : List ContentBlock) (s : StepRecorder) → IsQuiet s (resolve_results bs s)
unfolding resolve_results
resolve_results-Quiet [] s = IsQuiet-refl s
resolve_results-Quiet (b ∷ bs) s = elim (Bool-cases (str_eq b.kind "tool_result")) [
  | inl e ↦ rw e (
      IsQuiet-trans s (resolve_at (lookup b.tool_use_id s.by_tool_use) b.is_error s) _
        (resolve_at-Quiet (lookup b.tool_use_id s.by_tool_use) b.is_error s)
        (resolve_results-Quiet bs _))
  | inr e ↦ rw e (resolve_results-Quiet bs s)
]

deny_at-Quiet :
    (o : Option ℕ) (rest s : StepRecorder) → IsQuiet s rest → IsQuiet s (deny_at o rest s)
deny_at-Quiet none rest s q = q
deny_at-Quiet (some i) rest s q = outcome-Quiet "denied" i s

pub denial-Quiet : (bs : List ContentBlock) (s : StepRecorder) → IsQuiet s (denial bs s)
unfolding denial
denial-Quiet [] s = IsQuiet-refl s
denial-Quiet (b ∷ bs) s =
    elim (Bool-cases (not (str_eq b.kind "tool_result") || str_eq b.tool_use_id "")) [
      | inl e ↦ rw e (denial-Quiet bs s)
      | inr e ↦ rw e (deny_at-Quiet (lookup b.tool_use_id s.by_tool_use) _ s (denial-Quiet bs s))
    ]

pub compaction-Quiet : (l : Line) (s : StepRecorder) → IsQuiet s (compaction l s)
unfolding compaction
compaction-Quiet l s = elim (Bool-cases (str_eq l.uuid "")) [
  | inl e ↦ rw e (IsQuiet-refl s)
  | inr e ↦ rw e (append_step-Quiet _ s refl)
]

-- The costs of the responses once the one of a key is told at a total.
pub record IsTold (key : String) (total : ℤ) (s s' : StepRecorder) : Type 0 where
  pub responses : HasResponses s'
  pub costs : (k : String) → cost_of s' k ≡ (if str_eq key k then some total else cost_of s k)

pub assistant-Told :
    (l : Line) (key : String) (total : ℤ) (s : StepRecorder)
    → HasResponses s
    → IsTold key total s (assistant l key total s)
unfolding assistant append_step refine
assistant-Told l key total s h = elim (Option-cases (lookup key s.by_response)) [
  | inl e ↦ rw e (record {
    responses = IsIndexed-new step_key is_response _ s.by_response s.steps refl e h;
    costs = λ k. view-new (λ (x : Step). x.tokens) step_key is_response s.by_response s.steps _ k h;
  })
  | inr (i, e) ↦
      let (x, (at, w)) = h.found key i e in
      rw e (record {
        responses =
            IsIndexed-update step_key is_response (refine l total) i s.by_response s.steps
              (λ x. refl) (λ x. refl) h;
        costs = λ k.
            view-set (λ (x : Step). x.tokens) step_key is_response s.by_response s.steps
              (refine l total) i x key k h e at;
      })
]
