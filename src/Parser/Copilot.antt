-- ===== src/Parser/Copilot.antt =====
-- internal/parser/copilot/copilot.go: the records of a Copilot CLI session. encoding/json is given; a
-- session's working directory, which a record keeps until it is stored, is left out.
use assaio.Prelude.{
  ℕ, ◌+◌, String, str_append, Bool, true, false, ◌||◌, List, [], ◌∷◌, Option, none, some, ◌==◌,
  str_eq, str_ltb, map, sort_by, if◌then◌else◌,
}
use assaio.Prelude.Int.{ℤ, pos, negsuc, ltb_ℤ}
use assaio.Usage.{Tokens, Activity, Record}
use assaio.Parser.{non_neg, subset}
use assaio.Parser.Claude.Records.{no_activity}

-- modelMetrics
pub record ModelMetrics : Type 0 where
  pub requests : ℤ
  pub reasoning : ℤ
  pub input : ℤ
  pub cache_read : ℤ
  pub cache_write : ℤ
  pub output : ℤ

-- event; a model's name stands beside its metrics, and the first entry of a name counts.
pub record Event : Type 0 where
  pub kind : String
  pub timestamp : ℕ
  pub session_id : String
  pub lines_added : ℤ
  pub lines_removed : ℤ
  pub model_metrics : List (String × ModelMetrics)

abbrev pub no_event : Event
no_event = record {
  kind = "";
  timestamp = 0;
  session_id = "";
  lines_added = pos 0;
  lines_removed = pos 0;
  model_metrics = [];
}

abbrev pub no_metrics : ModelMetrics
no_metrics = record {
  requests = pos 0;
  reasoning = pos 0;
  input = pos 0;
  cache_read = pos 0;
  cache_write = pos 0;
  output = pos 0;
}

unfoldable pub metrics_of : List (String × ModelMetrics) → String → ModelMetrics
metrics_of [] name = no_metrics
metrics_of (e ∷ es) name = let rest = metrics_of es name in if str_eq e.0 name then e.1 else rest

-- sortedModels
unfoldable pub sorted_models : List (String × ModelMetrics) → List String
sorted_models m = sort_by str_ltb (map (λ (e : String × ModelMetrics). e.0) m)

-- best and bestCount of dominantModel.
pub record Best : Type 0 where
  pub name : String
  pub count : ℤ

-- One turn of the loop of dominantModel.
abbrev pub take_model : (String → ℤ) → String → Best → Best
take_model requests name b =
    if str_eq name ""
    then b
    else if ltb_ℤ b.count (requests name)
    then record { name = name; count = requests name }
    else b

unfoldable pub best_of : (String → ℤ) → List String → Best → Best
best_of requests [] b = b
best_of requests (name ∷ names) b = best_of requests names (take_model requests name b)

abbrev pub no_best : Best
no_best = record { name = ""; count = negsuc 0 }

-- dominantModel
unfoldable pub dominant_model : List (String × ModelMetrics) → String
dominant_model m = (best_of (λ name. (metrics_of m name).requests) (sorted_models m) no_best).name

unfoldable pub model_tokens : ModelMetrics → Tokens
model_tokens m = record {
  input = non_neg m.input;
  output = non_neg m.output;
  cache_read = non_neg m.cache_read;
  cache_write = non_neg m.cache_write;
  reasoning = subset m.reasoning (non_neg m.output);
  cache_write_1h = pos 0;
}

unfoldable pub model_activity : Bool → Event → Activity
model_activity false shutdown = no_activity
model_activity true shutdown = record no_activity {
  lines_added = non_neg shutdown.lines_added;
  lines_removed = non_neg shutdown.lines_removed;
}

-- The record of one named model.
unfoldable pub model_record : Event → String → ℕ → String → String → Record
model_record shutdown session_id at credited model = record {
  tool = "copilot-cli";
  session_id = session_id;
  timestamp = at;
  model = model;
  tokens = model_tokens (metrics_of shutdown.model_metrics model);
  cache_miss_reason = "";
  dedupe_key = str_append session_id (str_append ":" model);
  member = "";
  project = "";
  subpath = "";
  repo_key = "";
  project_guessed = false;
  git_branch = "";
  entrypoint = "";
  granularity = "session";
  activity = model_activity (str_eq model credited) shutdown;
  sidechain = pos 0;
  skill = "";
  agent = "";
}

abbrev pub put_model : (String → Record) → String → List Record × ℕ → List Record × ℕ
put_model of model w = if str_eq model "" then (w.0, w.1 + 1) else ((of model ∷ w.0), w.1)

-- The loop of records over the sorted models.
unfoldable pub model_records : (String → Record) → List String → List Record × ℕ
model_records of [] = ([], 0)
model_records of (model ∷ models) = put_model of model (model_records of models)

unfoldable pub identified_records : Event → String → ℕ → List Record × ℕ
identified_records shutdown session_id at =
    let credited = dominant_model shutdown.model_metrics in
    if str_eq session_id "" || at == 0
    then ([], 1)
    else model_records (model_record shutdown session_id at credited)
        (sorted_models shutdown.model_metrics)

abbrev pub session_of : Event → Event → String
session_of start shutdown =
    if str_eq start.session_id "" then shutdown.session_id else start.session_id

abbrev pub time_of : Event → Event → ℕ
time_of start shutdown = if start.timestamp == 0 then shutdown.timestamp else start.timestamp

abbrev pub records_with : Event → Event → List (String × ModelMetrics) → List Record × ℕ
records_with start shutdown [] = ([], 0)
records_with start shutdown (m ∷ ms) =
    identified_records shutdown (session_of start shutdown) (time_of start shutdown)

-- records
unfoldable pub records : Event → Event → List Record × ℕ
records start shutdown = records_with start shutdown shutdown.model_metrics

-- The variables of Parse.
pub record Pass : Type 0 where
  pub skipped : ℕ
  pub start : Event
  pub shutdown : Event

abbrev pub see_event : Option Event → Pass → Pass
see_event none st = record st { skipped = st.skipped + 1 }
see_event (some e) st =
    if str_eq e.kind "session.start"
    then record st { start = e }
    else if str_eq e.kind "session.shutdown"
    then record st { shutdown = e }
    else st

-- One turn of the loop of Parse.
unfoldable pub read_event : (String → Option Event) → String → Pass → Pass
read_event decode raw st = if str_eq raw "" then st else see_event (decode raw) st

unfoldable pub read_events : (String → Option Event) → List String → Pass → Pass
read_events decode [] st = st
read_events decode (raw ∷ raws) st = read_events decode raws (read_event decode raw st)

-- Parse, over the lines that the scanner gave.
unfoldable pub parse : (String → Option Event) → List String → List Record × ℕ
parse decode raws =
    let st =
      read_events decode raws (record { skipped = 0; start = no_event; shutdown = no_event }) in
    let w = records st.start st.shutdown in (w.0, st.skipped + w.1)
