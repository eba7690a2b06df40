-- ===== src/Lib.antt =====
-- A verification library for assaio, the local analyser of AI coding sessions: the rules by which it
-- joins sessions to commits, stores what it reads, and counts what it leaves out.
--
-- The program reads the logs of AI tools into records and steps (internal/parser, internal/usage),
-- writes them to a SQLite store (internal/store), and answers from the store. Beside that, git and
-- forge observations arrive as events (internal/event), and attribution joins them to the stored
-- sessions (internal/attribution); survival and trace read the same observations and steps.
--
-- The files and the code they model:
--   Event, Event/*        internal/event: the envelope, the payloads and every Validate.
--   Attribution, /Landing, /Match, /Summary
--                         internal/attribution/match.go, landing.go, result.go, summary.go: Match,
--                         ForgeOf and Summarize.
--   Attribution/Changes   internal/attribution/changes.go: LinkChanges and its index.
--   Attribution/Delivery  internal/attribution/changes_measurements.go: the review gaps and the rates.
--   Usage                 internal/usage: the record, the step and the bounds.
--   Store/Restate         internal/store/insert.go, insert_local.go: the row and the two UPDATEs.
--   Store/Watch           internal/store/restate_watch.go: the watch before an UPDATE.
--   Store/Registry        internal/store/repository_register.go.
--   Store/Table           internal/store/insert.go: insertWith, Insert, InsertLocal, InsertSynced.
--   Store/Steps           internal/store/step.go, step_restate.go: InsertSteps and PruneSteps.
--   Trace                 internal/trace: the set of sequences, its narrowing and its scopes.
--   Parser, Parser/Tools  internal/parser/scan.go, rework.go, toolclass.go, contentlines.go, and the
--                         differencing of codex/tokencount.go.
--   Parser/Codex, /Recorder, /Records, /Reader
--                         internal/parser/codex: ParseAll over the lines of a rollout, the records
--                         and the step sequence, with the decoders as parameters.
--   Parser/Claude, /Target, /Recorder, /Records, /Results, /Reader
--                         internal/parser/claude: ParseAll over the lines of a transcript.
--   Parser/Depth          internal/parser/depth.go, depth_query.go: the matrix of the sources.
--   Parser/Gemini         internal/parser/gemini/gemini.go: Parse over the lines of a chat log.
--   Parser/Copilot        internal/parser/copilot/copilot.go: Parse over the lines of a session.
--   Parser/Cline          internal/parser/cline/cline.go: ParseTask over the decoded elements.
--   Parser/Agy            internal/parser/agy/agy.go: ParseTranscript over the lines.
--   Store/IngestState     internal/store/ingest_state.go, ingest_source.go: the two tables.
--   Ingest                internal/ingest/state.go, drift.go: the skipper and the recorded runs.
--   Label                 internal/label: the vocabularies and the rules that derive labels.
--   Survival              internal/survival/survival.go: the two tallies.
--   The other files of a folder hold theorems; Examples holds the theorems at concrete values, and
--   Prelude the shared helpers.
--
-- How the code is read. An instant is a whole number of seconds since Go's zero time, so 0 is the
-- zero time, and the text order of stored RFC 3339 times is the order of these numbers. An int64 is
-- an integer ℤ, its wrap-around written out as wrap64 where the code adds or subtracts; the counters of
-- loops are natural numbers. A Go map is an association list whose first entry counts. A sort is an
-- insertion sort by the code's order. A closed vocabulary of strings is a data type where the code
-- only writes its constants, and a string where it reads them. A validator's error text is a
-- constructor. A float64 quotient is kept as its two counts. An SQL statement is a function on the
-- rows, and the loop around it a function on the list of rows; every expression of an UPDATE reads
-- the row as it was before. Every function is structural recursion on its input, so none needs fuel.
--
-- Not modelled: the database engine and its errors, migrations and queries; file discovery; the scanner of lines; git and HTTP; prices and other
-- floating-point figures; rendering. git blame is a
-- parameter of Survival, the pattern engine one of Label, and what the parsers call of encoding/json,
-- path and fmt one record of each. The sub-agent test differs between
-- the UPDATE, whose LIKE folds the case of letters, and the watch, whose prefix test does not:
-- both are modelled as they stand.
pub mod Prelude
pub mod Event
pub mod Attribution
pub mod Usage
pub mod Store
pub mod Trace
pub mod Parser
pub mod Survival
pub mod Examples
pub mod Ingest
pub mod Label
