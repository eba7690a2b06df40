-- ===== src/Examples/Writes.antt =====
-- internal/store: the writing theorems at one batch of turns and one sequence of steps.
use assaio.Prelude.{ℕ, String, ◌≡◌, refl, true, some, [], ◌∷◌, All}
use assaio.Prelude.Int.{pos}
use assaio.Usage.{Step, valid_step_kind, valid_step_outcome}
use assaio.Store.Table.{Tables, Written, insert_local}
use assaio.Store.Insertion.{IsDistinct, same_key}
use assaio.Store.Reingest.{insert_local-again}
use assaio.Store.Steps.{StepWrite, restate_step, restate_step_set, is_watched_change, valid_step}
use assaio.Store.Sequence.{restate_step-set}
use assaio.Examples.Data.{full_turn, next_turn, partial_row}

abbrev empty_tables : Tables
empty_tables = record { usage_record = []; repository = [] }

abbrev one_row : Tables
one_row = record { usage_record = partial_row ∷ []; repository = [] }

turns-IsDistinct : IsDistinct (full_turn ∷ next_turn ∷ [])
unfolding IsDistinct same_key
turns-IsDistinct = ((refl, tt), (tt, tt))

insert_local-again_example :
    (after : Tables) × ((first : Written) × ((second : Written) × ((insert_local
              (full_turn ∷ next_turn ∷ [])
              one_row
            ≡ some (after, first))
          × ((insert_local (full_turn ∷ next_turn ∷ []) after ≡ some (after, second))
              × (second.inserted ≡ 0)))))
insert_local-again_example =
    insert_local-again (full_turn ∷ next_turn ∷ []) one_row turns-IsDistinct

abbrev step_of : String → String → ℕ → Step
step_of key kind at = record {
  tool = "claude-code";
  session_id = "s1";
  timeline = "";
  dedupe_key = key;
  timestamp = at;
  ordinal = pos 1;
  kind = kind;
  outcome = "ok";
  model = "opus";
  tokens = pos 40;
  target_ref = pos 0;
}

restate_step-set_example : restate_step (step_of "a" "edit" 1500) (step_of "a" "other" 1600) ≡ (
  restate_step_set (step_of "a" "edit" 1500) (step_of "a" "other" 1600),
  is_watched_change (step_of "a" "edit" 1500) (step_of "a" "other" 1600),
)
restate_step-set_example = restate_step-set (step_of "a" "edit" 1500) (step_of "a" "other" 1600)

abbrev no_steps : StepWrite
no_steps = record { inserted = 0; rejected = 0; changed = 0 }

one-valid : All (λ row. valid_step row ≡ true) (step_of "a" "other" 1600 ∷ [])
unfolding valid_step valid_step_kind valid_step_outcome
one-valid = (refl, tt)
