-- ===== src/Store/IngestState.antt =====
-- internal/store/ingest_state.go and ingest_source.go: the tables ingest_file, whose key is the path,
-- and ingest_source, in the order of its ids. Errors of the database are left out. A stamp is whole
-- seconds, which RFC3339 in UTC orders as its texts.
use assaio.Prelude.{
  ℕ, ◌+◌, String, str_append, Bool, not, ◌&&◌, List, [], ◌∷◌, ◌++◌, Option, none, some, filter_if,
  length, any_of, ltb, str_eq, starts_with, if◌then◌else◌,
}
use assaio.Prelude.Int.{ℤ}

-- IngestEntry
pub record IngestEntry : Type 0 where
  pub path : String
  pub tool : String
  pub size : ℤ
  pub mtime_ns : ℤ

-- A row of ingest_file.
pub record IngestFile : Type 0 where
  pub entry : IngestEntry
  pub version : String
  pub ingested_at : ℕ

-- The statement that RecordIngest executes for one entry.
unfoldable pub upsert_file : IngestFile → List IngestFile → List IngestFile
upsert_file new [] = new ∷ []
upsert_file new (row ∷ rows) =
    let rest = upsert_file new rows in
    if str_eq row.entry.path new.entry.path then new ∷ rows else row ∷ rest

-- RecordIngest
unfoldable pub record_ingest : String → ℕ → List IngestEntry → List IngestFile → List IngestFile
record_ingest version at [] table = table
record_ingest version at (e ∷ es) table =
    record_ingest version at es
      (upsert_file (record { entry = e; version = version; ingested_at = at }) table)

-- IngestState, the map at a path.
unfoldable pub ingest_state : String → List IngestFile → String → Option IngestEntry
ingest_state version [] path = none
ingest_state version (row ∷ rows) path =
    let rest = ingest_state version rows path in
    if str_eq row.version version && str_eq row.entry.path path then some row.entry else rest

-- The versions of the table, one for each group of Provenance's query.
unfoldable pub builds_of : List IngestFile → List String
builds_of [] = []
builds_of (row ∷ rows) =
    let rest = builds_of rows in
    if any_of (λ v. str_eq v row.version) rest then rest else row.version ∷ rest

-- Provenance, its newest read; 0 where no row is stored.
unfoldable pub newest_read : List IngestFile → ℕ
newest_read [] = 0
newest_read (row ∷ rows) =
    let rest = newest_read rows in if ltb rest row.ingested_at then row.ingested_at else rest

-- Provenance, its build; `decimal` prints a count.
unfoldable pub build_name : (ℕ → String) → List String → String
build_name decimal [] = ""
build_name decimal (v ∷ []) = v
build_name decimal (v ∷ w ∷ vs) =
    str_append "mixed" (str_append " (" (str_append (decimal (length (v ∷ w ∷ vs))) " builds)"))

unfoldable pub provenance : (ℕ → String) → List IngestFile → ℕ × String
provenance decimal table = (newest_read table, build_name decimal (builds_of table))

-- ReadByOneBuild
unfoldable pub read_by_one_build : String → Bool
read_by_one_build build = not (str_eq build "") && not (starts_with build "mixed (")

-- SourceRun, a row of ingest_source.
pub record SourceRun : Type 0 where
  pub tool : String
  pub ran_at : ℕ
  pub discovered : ℕ
  pub parsed : ℕ
  pub records : ℕ
  pub skipped : ℕ
  pub zero_token : ℕ

-- maxSourceRuns
abbrev pub max_source_runs : ℕ
max_source_runs = 10

abbrev pub is_run_of : String → SourceRun → Bool
is_run_of tool r = str_eq r.tool tool

unfoldable pub runs_of : String → List SourceRun → ℕ
runs_of tool [] = 0
runs_of tool (r ∷ rs) = (if is_run_of tool r then 1 else 0) + runs_of tool rs

-- The pruning statement of RecordSourceRun: of a tool's rows, those with the highest ids stay.
unfoldable pub prune_runs : String → List SourceRun → List SourceRun
prune_runs tool [] = []
prune_runs tool (r ∷ rs) =
    let rest = prune_runs tool rs in
    if is_run_of tool r && not (ltb (runs_of tool rs) max_source_runs) then rest else r ∷ rest

-- One turn of the loop of RecordSourceRun.
unfoldable pub record_run : SourceRun → List SourceRun → List SourceRun
record_run r table = prune_runs r.tool (table ++ (r ∷ []))

-- RecordSourceRun
unfoldable pub record_source_run : List SourceRun → List SourceRun → List SourceRun
record_source_run [] table = table
record_source_run (r ∷ rs) table = record_source_run rs (record_run r table)

-- SourceHistory at a tool, oldest first.
unfoldable pub source_history : List SourceRun → String → List SourceRun
source_history table tool = filter_if (is_run_of tool) table
