-- ===== src/Usage.antt =====
-- internal/usage: the normalized records and steps, and the bounds at the process's edges. The
-- counters are grouped into two records; instants are whole seconds since Go's zero time.
use assaio.Prelude.{
  ℕ, ◌+◌, String, Bool, ◌||◌, List, [], ◌∷◌, Option, none, some, ltb, any_of, str_eq, if◌then◌else◌,
}
use assaio.Prelude.Int.{ℤ, pos, ltb_ℤ}

-- The token counters of usage.Record.
pub record Tokens : Type 0 where
  pub input : ℤ
  pub output : ℤ
  pub cache_read : ℤ
  pub cache_write : ℤ
  pub reasoning : ℤ
  pub cache_write_1h : ℤ

-- The activity counters of usage.Record.
pub record Activity : Type 0 where
  pub lines_added : ℤ
  pub lines_removed : ℤ
  pub rework_lines : ℤ
  pub edits : ℤ
  pub tool_calls : ℤ
  pub rejected : ℤ
  pub compactions : ℤ
  pub reads : ℤ
  pub searches : ℤ
  pub commands : ℤ
  pub writes : ℤ
  pub other : ℤ
  pub errors : ℤ

-- usage.Record; Cwd, which is resolved before a record is stored, is left out.
pub record Record : Type 0 where
  pub tool : String
  pub session_id : String
  pub timestamp : ℕ
  pub model : String
  pub tokens : Tokens
  pub cache_miss_reason : String
  pub dedupe_key : String
  pub member : String
  pub project : String
  pub subpath : String
  pub repo_key : String
  pub project_guessed : Bool
  pub git_branch : String
  pub entrypoint : String
  pub granularity : String
  pub activity : Activity
  pub sidechain : ℤ
  pub skill : String
  pub agent : String

-- usage.Step
pub record Step : Type 0 where
  pub tool : String
  pub session_id : String
  pub timeline : String
  pub dedupe_key : String
  pub timestamp : ℕ
  pub ordinal : ℤ
  pub kind : String
  pub outcome : String
  pub model : String
  pub tokens : ℤ
  pub target_ref : ℤ

-- ValidStepKind
unfoldable pub valid_step_kind : String → Bool
valid_step_kind k =
    any_of (λ v. str_eq v k)
      ("assistant" ∷ "read" ∷ "search" ∷ "command" ∷ "edit" ∷ "other" ∷ "compaction" ∷ [])

-- ValidStepOutcome
unfoldable pub valid_step_outcome : String → Bool
valid_step_outcome o = any_of (λ v. str_eq v o) ("" ∷ "ok" ∷ "error" ∷ "denied" ∷ "truncated" ∷ [])

-- The errors of CheckTimestamp and CheckCounts.
pub data BoundError : Type 0 where
  out_of_range negative_count too_large write_1h_exceeds reasoning_exceeds : BoundError

-- 2020-01-01 in seconds since Go's zero time.
abbrev pub timestamp_floor : ℕ
timestamp_floor = 63713433600

abbrev pub future_skew : ℕ
future_skew = 172800

abbrev pub max_count : ℤ
max_count = pos 1000000000

-- CheckTimestamp; the second argument is now.
unfoldable pub check_timestamp : ℕ → ℕ → Option BoundError
check_timestamp ts now =
    if ltb ts timestamp_floor || ltb (now + future_skew) ts then some out_of_range else none

abbrev pub counters : Record → List ℤ
counters r =
    r.tokens.input ∷ r.tokens.output ∷ r.tokens.cache_read ∷ r.tokens.cache_write
    ∷ r.tokens.reasoning ∷ r.tokens.cache_write_1h ∷ r.activity.lines_added
    ∷ r.activity.lines_removed ∷ r.activity.edits ∷ r.activity.tool_calls ∷ r.activity.rejected
    ∷ r.activity.compactions ∷ r.activity.rework_lines ∷ r.activity.reads ∷ r.activity.searches
    ∷ r.activity.commands ∷ r.activity.writes ∷ r.activity.other ∷ r.activity.errors ∷ r.sidechain
    ∷ []

-- The loop of CheckCounts.
unfoldable pub check_fields : List ℤ → Option BoundError
check_fields [] = none
check_fields (v ∷ vs) =
    if ltb_ℤ v (pos 0)
    then some negative_count
    else if ltb_ℤ max_count v
    then some too_large
    else check_fields vs

-- CheckCounts after its loop.
unfoldable pub check_subsets : Tokens → Option BoundError
check_subsets t =
    if ltb_ℤ t.cache_write t.cache_write_1h
    then some write_1h_exceeds
    else if ltb_ℤ t.output t.reasoning
    then some reasoning_exceeds
    else none

-- CheckCounts
unfoldable pub check_counts : Record → Option BoundError
check_counts r = elim (check_fields (counters r)) [
  | some e ↦ some e
  | none ↦ check_subsets r.tokens
]
