-- ===== src/Parser/Gemini.antt =====
-- internal/parser/gemini/gemini.go: the records of a Gemini CLI chat log. encoding/json, the digest of
-- the first line and number printing are given.
use assaio.Prelude.{
  ℕ, ◌+◌, String, str_append, Bool, false, ◌&&◌, List, [], ◌∷◌, ◌++◌, Option, none, some, str_eq,
  if◌then◌else◌,
}
use assaio.Prelude.Int.{ℤ, pos, eq_ℤ, ◌-ℤ◌, wrap64}
use assaio.Usage.{Tokens, Record}
use assaio.Parser.{non_neg, subset, sum_non_neg}
use assaio.Parser.Claude.Records.{no_activity}

-- message; the tokens by their names.
pub record Message : Type 0 where
  pub session_id : String
  pub timestamp : ℕ
  pub model : String
  pub input : ℤ
  pub output : ℤ
  pub cached : ℤ
  pub thoughts : ℤ
  pub tool : ℤ
  pub total : ℤ

-- What the reader calls of the standard library.
pub record Decoder : Type 0 where
  pub message : String → Option Message
  pub fingerprint : String → String
  pub decimal : ℕ → String

-- The variables of Parse.
pub record Pass : Type 0 where
  pub out : List Record
  pub skipped : ℕ
  pub index : ℕ
  pub file_fp : String
  pub session_id : String

-- The counters of a message's record.
unfoldable pub message_tokens : Message → Tokens
message_tokens m =
    let output = sum_non_neg (m.output ∷ m.tool ∷ m.thoughts ∷ []) in
    let cache_read = subset m.cached (non_neg m.input) in
    record {
      input = wrap64 (non_neg m.input -ℤ cache_read);
      output = output;
      cache_read = cache_read;
      cache_write = pos 0;
      reasoning = subset m.thoughts output;
      cache_write_1h = pos 0;
    }

abbrev pub is_unpriced : Message → Bool
is_unpriced m = eq_ℤ m.total (pos 0) && (eq_ℤ m.input (pos 0) && eq_ℤ m.output (pos 0))

unfoldable pub message_record : Decoder → Pass → Message → Record
message_record d st m = record {
  tool = "gemini-cli";
  session_id = st.session_id;
  timestamp = m.timestamp;
  model = m.model;
  tokens = message_tokens m;
  cache_miss_reason = "";
  dedupe_key =
      str_append st.file_fp
        (str_append ":" (str_append st.session_id (str_append ":" (d.decimal st.index))));
  member = "";
  project = "";
  subpath = "";
  repo_key = "";
  project_guessed = false;
  git_branch = "";
  entrypoint = "";
  granularity = "turn";
  activity = no_activity;
  sidechain = pos 0;
  skill = "";
  agent = "";
}

abbrev pub emit_message : Decoder → Message → Pass → Pass
emit_message d m st =
    if is_unpriced m
    then st
    else record st { out = st.out ++ (message_record d st m ∷ []); index = st.index + 1 }

abbrev pub read_message : Decoder → Option Message → Pass → Pass
read_message d none st = record st { skipped = st.skipped + 1 }
read_message d (some m) st =
    emit_message d m
      (record st { session_id = if str_eq m.session_id "" then st.session_id else m.session_id })

-- One turn of the loop of Parse.
unfoldable pub read_line : Decoder → String → Pass → Pass
read_line d raw st =
    let fp = if str_eq st.file_fp "" then d.fingerprint raw else st.file_fp in
    if str_eq raw "" then st else read_message d (d.message raw) (record st { file_fp = fp })

unfoldable pub read_lines : Decoder → List String → Pass → Pass
read_lines d [] st = st
read_lines d (raw ∷ raws) st = read_lines d raws (read_line d raw st)

abbrev pub new_pass : Pass
new_pass = record { out = []; skipped = 0; index = 0; file_fp = ""; session_id = "" }

-- Parse, over the lines that the scanner gave.
unfoldable pub parse : Decoder → List String → List Record × ℕ
parse d raws = let st = read_lines d raws new_pass in (st.out, st.skipped)
