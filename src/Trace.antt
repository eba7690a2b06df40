-- ===== src/Trace.antt =====
-- internal/trace: the sequences of one declared scope, and the share that scope leaves out. A float64
-- share is kept as its two counts. The map of ForSessions is its list of sessions, and a time is 0
-- where Go's IsZero holds.
use assaio.Prelude.{
  ℕ, ◌+◌, ◌-◌, String, Bool, true, false, ◌&&◌, ◌||◌, not, List, [], ◌∷◌, ◌++◌, ltb, ◌==◌, str_eq,
  if◌then◌else◌, any_of, filter_if, length,
}
use assaio.Prelude.Int.{ℤ}
pub mod Scoped
pub mod Sets

-- store.TimelineStep
pub record TimelineStep : Type 0 where
  pub ordinal : ℤ
  pub timestamp : ℕ
  pub kind : String
  pub outcome : String
  pub model : String
  pub tokens : ℤ
  pub target_ref : ℤ

-- store.Timeline
pub record Timeline : Type 0 where
  pub tool : String
  pub session_id : String
  pub member : String
  pub timeline : String
  pub entrypoint : String
  pub project : String
  pub steps : List TimelineStep

-- What ForSessions reads of a store.SessionRow.
pub record SessionRow : Type 0 where
  pub session_id : String
  pub member : String

-- trace.Set
pub record StepSet : Type 0 where
  pub sequences : List Timeline
  pub steps : ℕ
  pub oldest : ℕ
  pub newest : ℕ

-- One turn of the inner loop of New.
unfoldable pub see_step : TimelineStep → StepSet → StepSet
see_step st s = if st.timestamp == 0 then s else record s {
  oldest = if s.oldest == 0 || ltb st.timestamp s.oldest then st.timestamp else s.oldest;
  newest = if ltb s.newest st.timestamp then st.timestamp else s.newest;
}

unfoldable pub see_steps : List TimelineStep → StepSet → StepSet
see_steps [] s = s
see_steps (st ∷ sts) s = see_steps sts (see_step st s)

-- The outer loop of New.
unfoldable pub see_sequences : List Timeline → StepSet → StepSet
see_sequences [] s = s
see_sequences (t ∷ ts) s =
    see_sequences ts (see_steps t.steps (record s { steps = s.steps + length t.steps }))

-- New
unfoldable pub new_set : List Timeline → StepSet
new_set ts = see_sequences ts (record { sequences = ts; steps = 0; oldest = 0; newest = 0 })

unfoldable pub is_of_session : Timeline → SessionRow → Bool
is_of_session t row = str_eq row.session_id t.session_id && str_eq row.member t.member

unfoldable pub is_named : List SessionRow → Timeline → Bool
is_named sessions t = any_of (is_of_session t) sessions

-- Set.ForSessions
unfoldable pub for_sessions : StepSet → List SessionRow → StepSet
for_sessions s sessions =
    let kept = filter_if (is_named sessions) s.sequences in
    if length kept == length s.sequences
    then s
    else record (new_set kept) { oldest = s.oldest; newest = s.newest }

-- Timeline.SubAgent
unfoldable pub is_sub_agent : Timeline → Bool
is_sub_agent t = not (str_eq t.timeline "")

-- Scope
unfoldable pub scope_of : Timeline → String
scope_of t =
    if is_sub_agent t
    then "sub-agent"
    else if str_eq t.entrypoint "cli"
    then "interactive"
    else if str_eq t.entrypoint "sdk-py"
        || str_eq t.entrypoint "sdk-cli"
        || str_eq t.entrypoint "exec"
    then "programmatic"
    else "unstated"

-- trace.View
pub record View : Type 0 where
  pub scope : String
  pub sequences : List Timeline
  pub steps : ℕ
  pub oldest : ℕ
  pub excluded_sequences : ℕ
  pub excluded_steps : ℕ
  pub silent_sequences : ℕ
  pub silent_steps : ℕ
  pub silent_reading : String

-- The earliest stated time of some steps and of the time so far.
unfoldable pub oldest_of : List TimelineStep → ℕ → ℕ
oldest_of [] best = best
oldest_of (st ∷ sts) best =
    if not (st.timestamp == 0) && (best == 0 || ltb st.timestamp best)
    then oldest_of sts st.timestamp
    else oldest_of sts best

-- One turn of the loop of Set.Scope.
unfoldable pub scope_one : String → Timeline → View → View
scope_one name t v =
    if str_eq (scope_of t) name
    then record v {
      sequences = v.sequences ++ (t ∷ []);
      steps = v.steps + length t.steps;
      oldest = oldest_of t.steps v.oldest;
    }
    else record v {
      excluded_sequences = v.excluded_sequences + 1;
      excluded_steps = v.excluded_steps + length t.steps;
    }

unfoldable pub scope_all : String → List Timeline → View → View
scope_all name [] v = v
scope_all name (t ∷ ts) v = scope_all name ts (scope_one name t v)

abbrev pub empty_view : String → View
empty_view name = record {
  scope = name;
  sequences = [];
  steps = 0;
  oldest = 0;
  excluded_sequences = 0;
  excluded_steps = 0;
  silent_sequences = 0;
  silent_steps = 0;
  silent_reading = "";
}

-- Set.Scope
unfoldable pub scope_view : StepSet → String → View
scope_view s name = scope_all name s.sequences (empty_view name)

-- The loop of View.Answering over the sequences left, with those kept so far in the view. The steps of
-- a view are those of its sequences, so the subtraction does not stop at 0.
unfoldable pub answer_all : (String → Bool) → List Timeline → View → View
answer_all states [] v = v
answer_all states (t ∷ ts) v =
    if states t.tool
    then answer_all states ts (record v { sequences = v.sequences ++ (t ∷ []) })
    else answer_all states ts (record v {
      silent_sequences = v.silent_sequences + 1;
      silent_steps = v.silent_steps + length t.steps;
      steps = v.steps - length t.steps;
      excluded_sequences = v.excluded_sequences + 1;
      excluded_steps = v.excluded_steps + length t.steps;
    })

-- View.Answering
unfoldable pub answering : (String → Bool) → String → View → View
answering states reading v =
    let seen = answer_all states v.sequences (record v { sequences = [] }) in
    if ltb 0 seen.silent_sequences then record seen { silent_reading = reading } else seen

-- The counts that ExcludedStepShare and ExcludedSequenceShare divide; the second is the whole.
unfoldable pub excluded_step_share : View → ℕ × ℕ
excluded_step_share v = (v.excluded_steps, v.excluded_steps + v.steps)

unfoldable pub excluded_sequence_share : View → ℕ × ℕ
excluded_sequence_share v = (v.excluded_sequences, v.excluded_sequences + length v.sequences)
