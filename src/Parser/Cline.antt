-- ===== src/Parser/Cline.antt =====
-- internal/parser/cline/cline.go: the records of a Cline task. encoding/json, the conversion of
-- milliseconds and number printing are given; the files of a task are opened elsewhere.
use assaio.Prelude.{
  ℕ, ◌+◌, String, str_append, Bool, false, not, ◌||◌, ◌&&◌, List, [], ◌∷◌, ◌++◌, Option, none, some,
  str_eq, sort_by, if◌then◌else◌,
}
use assaio.Prelude.Int.{ℤ, pos, eq_ℤ, ltb_ℤ}
use assaio.Usage.{Tokens, Record}
use assaio.Parser.{non_neg}
use assaio.Parser.Claude.Records.{no_activity}

-- uiMessage
pub record UiMessage : Type 0 where
  pub kind : String
  pub say : String
  pub text : String
  pub ts : ℤ

-- apiReqInfo; its cost is not read.
pub record ApiReqInfo : Type 0 where
  pub tokens_in : ℤ
  pub tokens_out : ℤ
  pub cache_writes : ℤ
  pub cache_reads : ℤ

-- modelUsageEntry
pub record ModelUsageEntry : Type 0 where
  pub ts : ℤ
  pub model_id : String

-- What json.Decoder gives for the next element of the array: a message, an error of a type, which
-- consumes the element, or another error.
pub data Element : Type 0 where
  decoded : UiMessage → Element
  type_error broken : Element

-- What json.Decoder gives for the first token.
pub data Opening : Type 0 where
  unreadable array_open other_token : Opening

pub data TaskError : Type 0 where
  no_token not_an_array : TaskError

-- What the reader calls of the standard library.
pub record Decoder : Type 0 where
  pub info : String → Option ApiReqInfo
  pub millis_to_time : ℤ → ℕ
  pub decimal : ℕ → String

-- sortedModelUsage
unfoldable pub sorted_model_usage : List ModelUsageEntry → List ModelUsageEntry
sorted_model_usage entries =
    sort_by (λ (a : ModelUsageEntry) (b : ModelUsageEntry). ltb_ℤ a.ts b.ts) entries

-- The loop of modelAt, which stops at the first later entry.
unfoldable pub carry_model : ℤ → String → List ModelUsageEntry → String
carry_model ts model [] = model
carry_model ts model (e ∷ es) =
    let rest = carry_model ts e.model_id es in if ltb_ℤ ts e.ts then model else rest

-- modelAt
unfoldable pub model_at : List ModelUsageEntry → ℤ → String
model_at [] ts = ""
model_at (e ∷ es) ts = carry_model ts e.model_id (e ∷ es)

-- The variables of ParseTask.
pub record Pass : Type 0 where
  pub out : List Record
  pub skipped : ℕ
  pub index : ℕ

abbrev pub request_tokens : ApiReqInfo → Tokens
request_tokens info = record {
  input = non_neg info.tokens_in;
  output = non_neg info.tokens_out;
  cache_read = non_neg info.cache_reads;
  cache_write = non_neg info.cache_writes;
  reasoning = pos 0;
  cache_write_1h = pos 0;
}

unfoldable pub request_record :
    Decoder → String → List ModelUsageEntry → ℕ → ℤ → ApiReqInfo → Record
request_record d task_id models index ts info = record {
  tool = "cline";
  session_id = task_id;
  timestamp = d.millis_to_time ts;
  model = model_at models ts;
  tokens = request_tokens info;
  cache_miss_reason = "";
  dedupe_key = str_append task_id (str_append ":" (d.decimal index));
  member = "";
  project = "";
  subpath = "";
  repo_key = "";
  project_guessed = false;
  git_branch = "";
  entrypoint = "";
  granularity = "turn";
  activity = no_activity;
  sidechain = pos 0;
  skill = "";
  agent = "";
}

abbrev pub is_unbilled : ApiReqInfo → Bool
is_unbilled info = eq_ℤ info.tokens_in (pos 0) && eq_ℤ info.tokens_out (pos 0)

abbrev pub bill_request :
    Decoder → String → List ModelUsageEntry → ℤ → Option ApiReqInfo → Pass → Pass
bill_request d task_id models ts none st = record st { skipped = st.skipped + 1 }
bill_request d task_id models ts (some info) st = if is_unbilled info then st else record st {
  out = st.out ++ (request_record d task_id models st.index ts info ∷ []);
  index = st.index + 1;
}

abbrev pub is_request : UiMessage → Bool
is_request m =
    not (not (str_eq m.kind "say") || not (str_eq m.say "api_req_started") || str_eq m.text "")

-- One turn of the loop of ParseTask that decoded a message.
unfoldable pub take_message : Decoder → String → List ModelUsageEntry → UiMessage → Pass → Pass
take_message d task_id models m st =
    if is_request m then bill_request d task_id models m.ts (d.info m.text) st else st

-- The loop of ParseTask, which an error that is not of a type ends.
unfoldable pub take_elements : Decoder → String → List ModelUsageEntry → List Element → Pass → Pass
take_elements d task_id models [] st = st
take_elements d task_id models (decoded m ∷ es) st =
    take_elements d task_id models es (take_message d task_id models m st)
take_elements d task_id models (type_error ∷ es) st =
    take_elements d task_id models es (record st { skipped = st.skipped + 1 })
take_elements d task_id models (broken ∷ es) st = record st { skipped = st.skipped + 1 }

abbrev pub new_pass : Pass
new_pass = record { out = []; skipped = 0; index = 0 }

-- The result of ParseTask.
pub data Parsed : Type 0 where
  parsed : List Record → ℕ → Parsed
  failed : TaskError → Parsed

-- ParseTask
unfoldable pub parse_task :
    Decoder → Opening → List Element → String → List ModelUsageEntry → Parsed
parse_task d unreadable es task_id usage = failed no_token
parse_task d other_token es task_id usage = failed not_an_array
parse_task d array_open es task_id usage =
    let st = take_elements d task_id (sorted_model_usage usage) es new_pass in
    parsed st.out st.skipped
