-- ===== src/Examples/Inputs.antt =====
-- internal/ingest, and internal/parser/depth_query.go, gemini, copilot, cline and agy, at concrete inputs.
use assaio.Prelude.{
  any_of, ◌≡◌, refl, true, false, List, [], ◌∷◌, ◌++◌, String, arith, All, some, none, Option, Bool,
  some_injective, none≢some, sym, str_eq, if◌then◌else◌,
}
use assaio.Prelude.Int.{ℤ, pos, negsuc, ◌≤ℤ◌}
use assaio.Store.IngestState.{IngestFile, SourceRun, record_run, source_history}
use assaio.Ingest.{Input, new_skipper, skip, flush, entry_of}
use assaio.Ingest.Skipped.{record_inputs, settled, skip_recorded}
use assaio.Ingest.History.{record_run_history, newest}
use assaio.Parser.Depth.{
  codex, depth_of, depth_in, answers, sources_answering, signals_answered_by, contains,
}
use assaio.Parser.Depths.{answers_agree, Agrees}
use assaio.Parser.Gemini.{Message, Decoder, parse}
use assaio.Parser.GeminiTokens.{parse-IsOrdered, IsOrdered, IsInt64}
use assaio.Parser.Copilot.{ModelMetrics, no_metrics, no_event, dominant_model, records}
use assaio.Parser.Copilot as Copilot
use assaio.Parser.CopilotSessions.{dominant_model-IsMost, requests_in}
use assaio.Parser.Cline.{ModelUsageEntry, sorted_model_usage}
use assaio.Parser.ClineTasks.{model_at_current, Reads}
use assaio.Parser.Agy.{Line, parse_transcript}
use assaio.Parser.Agy as Agy
use assaio.Parser.AgyTurns.{IsConversation, parse_transcript-IsConversation}
use assaio.Usage.{Record}

abbrev session_file : Input
session_file = record {
  path = "/logs/a.jsonl";
  tool = "codex";
  size = pos 100;
  mtime_ns = pos 5;
  stat_failed = false;
}

-- The same file, grown since.
abbrev grown_file : Input
grown_file = record session_file { size = pos 120; mtime_ns = pos 9 }

abbrev stored_files : List IngestFile
stored_files = record { entry = entry_of grown_file; version = "v1"; ingested_at = 3 } ∷ []

-- A run that reads the file twice, grown in between, and then another one.
abbrev read_files : List Input
read_files = session_file ∷ grown_file ∷ record session_file { path = "/logs/b.jsonl" } ∷ []

skip_recorded_example :
    skip
      (new_skipper "v2" false
        (flush "v2" 7 (record_inputs read_files (new_skipper "v2" true stored_files)) stored_files))
      session_file
    ≡ settled session_file read_files (skip (new_skipper "v2" false stored_files) session_file)
skip_recorded_example = skip_recorded "v2" 7 true read_files session_file stored_files

abbrev run_of : String → SourceRun
run_of tool = record {
  tool = tool;
  ran_at = 1;
  discovered = 4;
  parsed = 4;
  records = 9;
  skipped = 0;
  zero_token = 0;
}

abbrev stored_runs : List SourceRun
stored_runs = run_of "codex" ∷ run_of "cline" ∷ []

record_run_history_example :
    source_history (record_run (run_of "codex") stored_runs) "codex"
    ≡ newest (source_history stored_runs "codex" ++ (run_of "codex" ∷ []))
record_run_history_example = record_run_history (run_of "codex") stored_runs "codex"

answers_agree_example :
    Agrees "codex" codex
    × ((contains (signals_answered_by "codex") "ai.lines.added" ≡ answers "codex" "ai.lines.added")
        × (contains (sources_answering ("ai.lines.added" ∷ [])) "codex"
            ≡ any_of (answers "codex") ("ai.lines.added" ∷ [])))
unfolding depth_of depth_in
answers_agree_example = answers_agree "codex" "ai.lines.added" ("ai.lines.added" ∷ []) codex refl

-- Thoughts above the output and a cache above the input.
abbrev chat_message : Message
chat_message = record {
  session_id = "s";
  timestamp = 4;
  model = "gemini-2.5-pro";
  input = pos 10;
  output = pos 3;
  cached = pos 40;
  thoughts = pos 7;
  tool = negsuc 1;
  total = pos 20;
}

abbrev chat_decoder : Decoder
chat_decoder = record {
  message = λ raw. if str_eq raw "{" then none else some chat_message;
  fingerprint = λ raw. raw;
  decimal = λ n. "0";
}

chat_message-Int64 : IsInt64 chat_message
chat_message-Int64 = (omega arith, (omega arith, (omega arith, (omega arith, tt))))

choice-Int64 :
    (b : Bool) (m : Message) → (if b then none else some chat_message) ≡ some m → IsInt64 m
choice-Int64 true m e = absurd (none≢some e)
choice-Int64 false m e = rw (sym (some_injective e)) chat_message-Int64

chat_decoder-Int64 : (raw : String) (m : Message) → chat_decoder.message raw ≡ some m → IsInt64 m
chat_decoder-Int64 raw m e = choice-Int64 (str_eq raw "{") m e

parse-IsOrdered_example :
    All (λ (r : Record). IsOrdered r.tokens) (parse chat_decoder ("m" ∷ "{" ∷ "m" ∷ [])).0
parse-IsOrdered_example = parse-IsOrdered chat_decoder ("m" ∷ "{" ∷ "m" ∷ []) chat_decoder-Int64

abbrev session_models : List (String × ModelMetrics)
session_models =
    ("gpt-5", record no_metrics { requests = pos 2 })
    ∷ ("claude", record no_metrics { requests = pos 6 })
    ∷ ("", record no_metrics { requests = pos 9 })
    ∷ []

dominant_model-IsMost_example :
    (str_eq (dominant_model session_models) "" ≡ false)
    × (requests_in session_models "gpt-5"
        ≤ℤ requests_in session_models (dominant_model session_models))
unfolding Copilot.metrics_of
dominant_model-IsMost_example = dominant_model-IsMost session_models "gpt-5" refl refl (omega arith)

abbrev session_end : Copilot.Event
session_end = record no_event { session_id = "s"; timestamp = 8; model_metrics = session_models }

abbrev used_at : ℤ → String → ModelUsageEntry
used_at ts model = record { ts = ts; model_id = model }

abbrev switches : List ModelUsageEntry
switches = used_at (pos 2) "first" ∷ []

model_at_current_example :
    Reads
      (pos 5)
      (used_at (pos 7) "later" ∷ switches)
      (sorted_model_usage (used_at (pos 7) "later" ∷ switches))
model_at_current_example = model_at_current (pos 5) (used_at (pos 7) "later") switches

-- Two entries of one second, and a later one.
abbrev entry_line : String → Option Line
entry_line raw =
    if str_eq raw "1"
    then some (record { step_index = pos 1; source = "MODEL"; created_at = "a"; tool_calls = [] })
    else some (record {
      step_index = pos 2;
      source = "MODEL";
      created_at = raw;
      tool_calls = "view_file" ∷ [];
    })

abbrev agy_decoder : Agy.Decoder
agy_decoder = record {
  line = entry_line;
  time = λ raw. if str_eq raw "a" then some 50 else some 60;
  decimal = λ n. "n";
}

parse_transcript-IsConversation_example :
    IsConversation "c" (parse_transcript agy_decoder "c" ("1" ∷ "a" ∷ "b" ∷ [])).0
parse_transcript-IsConversation_example =
    parse_transcript-IsConversation agy_decoder "c" ("1" ∷ "a" ∷ "b" ∷ [])
