-- ===== src/Parser/Agy.antt =====
-- internal/parser/agy/agy.go: the records of an Antigravity CLI conversation. encoding/json, time.Parse
-- and number printing are given.
use assaio.Prelude.{
  ℕ, ◌+◌, String, str_append, false, not, ◌||◌, List, [], ◌∷◌, Option, none, some, ◌==◌, str_eq,
  any_of, if◌then◌else◌,
}
use assaio.Prelude.Int.{ℤ, pos, eq_ℤ}
use assaio.Usage.{Tokens, Activity, Record}
use assaio.Parser.Tools.{ToolCounts, no_calls, add_call, total_calls, plus}
use assaio.Parser.Claude.Records.{no_activity}

-- line; a tool call by its name.
pub record Line : Type 0 where
  pub step_index : ℤ
  pub source : String
  pub created_at : String
  pub tool_calls : List String

-- What the reader calls of the standard library.
pub record Decoder : Type 0 where
  pub line : String → Option Line
  pub time : String → Option ℕ
  pub decimal : ℤ → String

abbrev pub no_tokens : Tokens
no_tokens = record {
  input = pos 0;
  output = pos 0;
  cache_read = pos 0;
  cache_write = pos 0;
  reasoning = pos 0;
  cache_write_1h = pos 0;
}

-- record
unfoldable pub open_record : Decoder → String → ℕ → ℤ → Record
open_record d conversation at step = record {
  tool = "agy";
  session_id = conversation;
  timestamp = at;
  model = "";
  tokens = no_tokens;
  cache_miss_reason = "";
  dedupe_key = str_append conversation (str_append ":" (d.decimal step));
  member = "";
  project = "";
  subpath = "";
  repo_key = "";
  project_guessed = false;
  git_branch = "";
  entrypoint = "";
  granularity = "turn";
  activity = no_activity;
  sidechain = pos 0;
  skill = "";
  agent = "";
}

unfoldable pub count_calls : List String → ToolCounts → ToolCounts
count_calls [] c = c
count_calls (name ∷ names) c = count_calls names (add_call name c)

abbrev pub add_counts : ToolCounts → Activity → Activity
add_counts c a = record a {
  tool_calls = plus a.tool_calls (total_calls c);
  edits = plus a.edits c.writes;
  reads = plus a.reads c.reads;
  searches = plus a.searches c.searches;
  commands = plus a.commands c.commands;
  writes = plus a.writes c.writes;
  other = plus a.other c.other;
}

-- addToolCalls
unfoldable pub add_tool_calls : Line → Record → Record
add_tool_calls l r = record r {
  activity = add_counts (count_calls l.tool_calls no_calls) r.activity;
}

-- The entry of a line, folded into the last record r where that is of its second.
unfoldable pub fold_last : Line → Record → Record → List Record → List Record
fold_last l new r [] =
    if r.timestamp == new.timestamp then add_tool_calls l r ∷ [] else r ∷ add_tool_calls l new ∷ []
fold_last l new r (x ∷ xs) = r ∷ fold_last l new x xs

abbrev pub fold_entry : Line → Record → List Record → List Record
fold_entry l new [] = add_tool_calls l new ∷ []
fold_entry l new (r ∷ rs) = fold_last l new r rs

-- The variables of ParseTranscript.
pub record Pass : Type 0 where
  pub recs : List Record
  pub skipped : ℕ
  pub seen : List ℤ

abbrev pub skip_line : Pass → Pass
skip_line st = record st { skipped = st.skipped + 1 }

abbrev pub take_dated : Decoder → String → Line → ℕ → Pass → Pass
take_dated d conversation l at st =
    if any_of (λ s. eq_ℤ s l.step_index) st.seen then skip_line st else record st {
      recs = fold_entry l (open_record d conversation at l.step_index) st.recs;
      seen = l.step_index ∷ st.seen;
    }

abbrev pub take_turn : Decoder → String → Line → Option ℕ → Pass → Pass
take_turn d conversation l none st = skip_line st
take_turn d conversation l (some at) st =
    if at == 0 then skip_line st else take_dated d conversation l at st

abbrev pub take_line : Decoder → String → Option Line → Pass → Pass
take_line d conversation none st = skip_line st
take_line d conversation (some l) st =
    if not (str_eq l.source "MODEL") || str_eq conversation ""
    then st
    else take_turn d conversation l (d.time l.created_at) st

-- One turn of the loop of ParseTranscript.
unfoldable pub read_line : Decoder → String → String → Pass → Pass
read_line d conversation raw st =
    if str_eq raw "" then st else take_line d conversation (d.line raw) st

unfoldable pub read_lines : Decoder → String → List String → Pass → Pass
read_lines d conversation [] st = st
read_lines d conversation (raw ∷ raws) st =
    read_lines d conversation raws (read_line d conversation raw st)

abbrev pub new_pass : Pass
new_pass = record { recs = []; skipped = 0; seen = [] }

-- ParseTranscript, over the lines that the scanner gave.
unfoldable pub parse_transcript : Decoder → String → List String → List Record × ℕ
parse_transcript d conversation raws =
    let st = read_lines d conversation raws new_pass in (st.recs, st.skipped)
