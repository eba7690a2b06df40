-- ===== src/Ingest.antt =====
-- internal/ingest/state.go and drift.go: which inputs a run reads again, and the history it keeps of
-- each source. os.Stat and the build's identity are given; an error of os.Stat is a flag.
use assaio.Prelude.{
  ℕ, ◌-◌, ◌+◌, String, Bool, true, false, not, ◌&&◌, ◌||◌, List, [], ◌∷◌, ◌++◌, Option, none, some,
  map, str_eq, if◌then◌else◌,
}
use assaio.Prelude.Int.{ℤ, pos, eq_ℤ, ◌+ℤ◌, wrap64}
use assaio.Usage.{Record}
use assaio.Store.IngestState.{
  IngestEntry, IngestFile, ingest_state, record_ingest, SourceRun, record_source_run,
}
pub mod Builds
pub mod Skipped
pub mod History

-- input
pub record Input : Type 0 where
  pub path : String
  pub tool : String
  pub size : ℤ
  pub mtime_ns : ℤ
  pub stat_failed : Bool

-- skipper; `known` is the map of newSkipper, at each path.
pub record Skipper : Type 0 where
  pub known : String → Option IngestEntry
  pub full : Bool
  pub ingested : List IngestEntry

-- newSkipper
unfoldable pub new_skipper : String → Bool → List IngestFile → Skipper
new_skipper build full table = record {
  known = λ path. if full then none else ingest_state build table path;
  full = full;
  ingested = [];
}

abbrev pub is_same_entry : Option IngestEntry → Input → Bool
is_same_entry none in_ = false
is_same_entry (some e) in_ = eq_ℤ e.size in_.size && eq_ℤ e.mtime_ns in_.mtime_ns

-- skipper.skip
unfoldable pub skip : Skipper → Input → Bool
skip s in_ = if s.full || in_.stat_failed then false else is_same_entry (s.known in_.path) in_

abbrev pub entry_of : Input → IngestEntry
entry_of in_ = record { path = in_.path; tool = in_.tool; size = in_.size; mtime_ns = in_.mtime_ns }

-- skipper.record
unfoldable pub record_input : Input → Skipper → Skipper
record_input in_ s = record s { ingested = s.ingested ++ (entry_of in_ ∷ []) }

-- skipper.flush, the table it leaves.
unfoldable pub flush : String → ℕ → Skipper → List IngestFile → List IngestFile
flush build at s table = record_ingest build at s.ingested table

-- Of Result, what the source history reads.
pub record Result : Type 0 where
  pub tool : String
  pub files : ℕ
  pub unchanged : ℕ
  pub records : ℕ
  pub skipped : ℕ
  pub zero_token : ℕ

-- fileRun; a pass leaves no more inputs unchanged than it found.
unfoldable pub file_run : Result → ℕ → SourceRun
file_run r at = record {
  tool = r.tool;
  ran_at = at;
  discovered = r.files;
  parsed = r.files - r.unchanged;
  records = r.records;
  skipped = r.skipped;
  zero_token = r.zero_token;
}

-- pluginRun
unfoldable pub plugin_run : Result → ℕ → SourceRun
plugin_run r at = record {
  tool = r.tool;
  ran_at = at;
  discovered = 0;
  parsed = 0;
  records = r.records;
  skipped = r.skipped;
  zero_token = r.zero_token;
}

-- sourceRuns
unfoldable pub source_runs : List Result → List Result → ℕ → List SourceRun
source_runs files plugins at = map (λ r. file_run r at) files ++ map (λ r. plugin_run r at) plugins

-- zeroTokenCount
unfoldable pub zero_token_count : List Record → ℕ
zero_token_count [] = 0
zero_token_count (r ∷ rs) =
    let rest = zero_token_count rs in
    let t = r.tokens in
    let total = wrap64 (wrap64 (wrap64 (t.input +ℤ t.output) +ℤ t.cache_read) +ℤ t.cache_write) in
    if eq_ℤ total (pos 0) then rest + 1 else rest
