-- ===== src/Attribution.antt =====
-- internal/attribution/result.go: the data of an attribution pass. The string constants of each
-- closed vocabulary are the constructors of a type.
pub mod Times
pub mod Gaps
pub mod Landing
pub mod Match
pub mod Window
pub mod Verdict
pub mod Complete
pub mod Confirmation
pub mod Summary
pub mod Changes
pub mod Links
pub mod Shared
pub mod Delivery
pub mod Rates
pub mod Reviews
use assaio.Prelude.{ℕ, String, Bool, Option, List}
use assaio.Prelude.Int.{ℤ}
use assaio.Event.{Source}
use assaio.Event.Payloads.{FileCategories}

pub data Status : Type 0 where
  matched ambiguous unmatched : Status

pub data Method : Type 0 where
  confirmed overlap following landed none_method : Method

pub data Confidence : Type 0 where
  high medium low insufficient : Confidence

pub data Relation : Type 0 where
  overlaps_session follows_session landed_by_forge : Relation

-- `no_reason` is the empty string.
pub data Reason : Type 0 where
  no_reason project_or_session_unavailable invalid_session_window : Reason
  competing_following_candidates window_still_open later_landing no_candidate : Reason
  confirmed_commit_unobserved listed_unreadable : Reason

-- attribution.Session; instants are seconds since Go's zero time.
pub record Session : Type 0 where
  pub id : String
  pub project : String
  pub tool : String
  pub started_at : ℕ
  pub ended_at : ℕ

-- How a pull request holds a commit.
pub data Via : Type 0 where
  listed merged_as : Via

-- attribution.ChangeLink
pub record ChangeLink : Type 0 where
  pub number : ℤ
  pub via : Via
  pub source : Source
  pub time_source : String
  pub provenance : String
  pub privacy : String

-- attribution.Candidate; `changes` is `none` where the field is absent.
pub record Candidate : Type 0 where
  pub commit_id : String
  pub occurred_at : ℕ
  pub evidence_at : ℕ
  pub relation : Relation
  pub gap_seconds : ℕ
  pub source : Source
  pub time_source : String
  pub privacy : String
  pub provenance : String
  pub files_changed : ℤ
  pub files : FileCategories
  pub changes : Option (List ChangeLink)

-- attribution.Result
pub record Result : Type 0 where
  pub session : Session
  pub status : Status
  pub method : Method
  pub confidence : Confidence
  pub ambiguous : Bool
  pub provenance : String
  pub reason : Reason
  pub candidates : List Candidate
  pub alternatives : List Candidate
  pub change : ℤ

-- DefaultMaxGap: 48 hours, in seconds.
abbrev pub default_max_gap : ℕ
default_max_gap = 172800
