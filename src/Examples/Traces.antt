-- ===== src/Examples/Traces.antt =====
-- internal/trace: the theorems at a set of two sequences.
use assaio.Prelude.{ℕ, String, List, [], ◌∷◌}
use assaio.Prelude.Int.{pos}
use assaio.Trace.{TimelineStep, Timeline, StepSet, new_set, scope_view, for_sessions}
use assaio.Trace.Scoped.{Accounts, scope_view-Accounts}
use assaio.Trace.Sets.{Narrowed, for_sessions-Narrowed}

abbrev step_at : ℕ → TimelineStep
step_at at = record {
  ordinal = pos 1;
  timestamp = at;
  kind = "edit";
  outcome = "ok";
  model = "opus";
  tokens = pos 40;
  target_ref = pos 0;
}

abbrev timeline_of : String → String → List TimelineStep → Timeline
timeline_of tool entrypoint steps = record {
  tool = tool;
  session_id = "s1";
  member = "";
  timeline = "";
  entrypoint = entrypoint;
  project = "app";
  steps = steps;
}

abbrev two_sequences : List Timeline
two_sequences =
    timeline_of "claude-code" "cli" (step_at 1500 ∷ step_at 1700 ∷ [])
    ∷ timeline_of "codex" "exec" (step_at 0 ∷ [])
    ∷ []

abbrev set_of_two : StepSet
set_of_two = record { sequences = two_sequences; steps = 3; oldest = 1500; newest = 1700 }

scope_view-Accounts_example : Accounts (scope_view set_of_two "interactive") 2 3
scope_view-Accounts_example = scope_view-Accounts set_of_two "interactive"

for_sessions-Narrowed_example :
    Narrowed
      (new_set two_sequences)
      (record { session_id = "s1"; member = "" } ∷ [])
      (for_sessions (new_set two_sequences) (record { session_id = "s1"; member = "" } ∷ []))
for_sessions-Narrowed_example =
    for_sessions-Narrowed two_sequences (record { session_id = "s1"; member = "" } ∷ [])
