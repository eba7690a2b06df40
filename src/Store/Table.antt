-- ===== src/Store/Table.antt =====
-- internal/store/insert.go, insert_local.go: insertWith and the three paths through it. The unique
-- index on (tool, dedupe_key) is the test before the insertion; what the database refuses is left
-- out, and a batch whose repositories do not register changes nothing.
use assaio.Prelude.{
  ℕ, ◌+◌, Bool, true, false, ◌&&◌, Option, some, none, List, [], ◌∷◌, str_eq, if◌then◌else◌, any_of,
}
use assaio.Prelude.Int.{ℤ}
use assaio.Usage.{Record}
use assaio.Store.Restate.{Row, row_of, restate_activity, restate_signals}
use assaio.Store.Watch.{Restated, watch, no_changes}
use assaio.Store.Registry.{Repository, Ids, register_repositories, repo_id}

-- The two tables that insertWith writes.
pub record Tables : Type 0 where
  pub usage_record : List Row
  pub repository : List Repository

-- What a call returns beside the tables.
pub record Written : Type 0 where
  pub inserted : ℕ
  pub restated : Restated

abbrev pub nothing_written : Written
nothing_written = record { inserted = 0; restated = record { lowered = 0; identity = no_changes } }

-- tool = ? AND dedupe_key = ?
unfoldable pub has_key : Record → Row → Bool
has_key r row = str_eq row.tool r.tool && str_eq row.dedupe_key r.dedupe_key

-- The restating statement: a rule for a row, on the row of the record's key.
unfoldable pub restate_where : (Row → Row) → Record → List Row → List Row
restate_where f r [] = []
restate_where f r (row ∷ rows) =
    let rest = restate_where f r rows in (if has_key r row then f row else row) ∷ rest

-- watchSQL's point lookup, on the one row of the key.
unfoldable pub watch_where : Record → ℤ → List Row → Restated → Restated
watch_where r repo [] w = w
watch_where r repo (row ∷ rows) w =
    let rest = watch_where r repo rows w in if has_key r row then watch row r repo w else rest

abbrev pub RestateRule : Type 0
RestateRule = Record → ℤ → Row → Row

-- The rows after one turn of insertWith's loop.
unfoldable pub insert_row : RestateRule → Record → ℤ → List Row → List Row
insert_row f r repo rows =
    if any_of (has_key r) rows then restate_where (f r repo) r rows else row_of r repo ∷ rows

-- The counters after it.
unfoldable pub count_row : Bool → Record → ℤ → List Row → Written → Written
count_row watched r repo rows w =
    if any_of (has_key r) rows
    then (if watched then record w { restated = watch_where r repo rows w.restated } else w)
    else record w { inserted = w.inserted + 1 }

-- The loop of insertWith.
unfoldable pub insert_rows :
    RestateRule → Bool → Ids → List Record → List Row → Written → List Row × Written
insert_rows f watched ids [] rows w = (rows, w)
insert_rows f watched ids (r ∷ rs) rows w =
    let repo = repo_id ids r in
    insert_rows f watched ids rs (insert_row f r repo rows) (count_row watched r repo rows w)

-- What the transaction commits.
abbrev pub commit :
    RestateRule
    → Bool
    → List Record
    → Tables
    → List Repository × Option Ids
    → Option (Tables × Written)
commit f watched rs t (ps, none) = none
commit f watched rs t (ps, some ids) =
    let done = insert_rows f watched ids rs t.usage_record nothing_written in
    some (record { usage_record = done.0; repository = ps }, done.1)

-- insertWith; none is the error of the registration, which rolls back.
unfoldable pub insert_with : RestateRule → Bool → List Record → Tables → Option (Tables × Written)
insert_with f watched rs t = commit f watched rs t (register_repositories rs t.repository [])

-- Insert
unfoldable pub insert : List Record → Tables → Option (Tables × Written)
insert = insert_with restate_signals false

-- InsertLocal
unfoldable pub insert_local : List Record → Tables → Option (Tables × Written)
insert_local = insert_with restate_activity true

-- InsertSynced
unfoldable pub insert_synced : List Record → Tables → Option (Tables × Written)
insert_synced = insert_with restate_activity false
