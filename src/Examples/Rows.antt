-- ===== src/Examples/Rows.antt =====
-- internal/store: the restating UPDATEs and the watch at one stored turn.
use assaio.Prelude.{◌≡◌, refl, true, arith}
use assaio.Prelude.Int.{pos, negsuc}
use assaio.Store.Restate.{Row, restate_activity, is_agent_aggregate}
use assaio.Store.Reread.{restate_activity_idem, restate_activity-Keeps, Keeps, IsNested}
use assaio.Store.Watch.{identity_changes, names_another, moves_time, changes_project}
use assaio.Store.Watched.{uncounted-Unchanged, Unchanged}
use assaio.Examples.Data.{full_turn, partial_row}

restate_activity_idem_example :
    restate_activity full_turn (pos 1) (restate_activity full_turn (pos 1) partial_row)
    ≡ restate_activity full_turn (pos 1) partial_row
restate_activity_idem_example = restate_activity_idem full_turn (pos 1) partial_row

restate_activity-Keeps_example : Keeps partial_row (restate_activity full_turn (pos 1) partial_row)
restate_activity-Keeps_example = restate_activity-Keeps full_turn (pos 1) partial_row

row-IsNested : IsNested partial_row.tokens
row-IsNested = record { tier = omega arith; thinking = omega arith }

turn-IsNested : IsNested full_turn.tokens
turn-IsNested = record { tier = omega arith; thinking = omega arith }

abbrev disputed_row : Row
disputed_row = record partial_row { project_conflict = true; project = ""; repo_id = negsuc 0 }

uncounted-Unchanged_example : Unchanged partial_row (restate_activity full_turn (pos 1) partial_row)
unfolding identity_changes names_another moves_time changes_project is_agent_aggregate
uncounted-Unchanged_example = uncounted-Unchanged full_turn (pos 1) partial_row refl refl
