-- ===== src/Event/Payloads.antt =====
-- internal/event/payload_*.go: the closed set of observation bodies. An instant is the number of
-- seconds since Go's zero time, so 0 is the zero time; an int64 is a ℤ.
use assaio.Prelude.{ℕ, String, Bool, Option}
use assaio.Prelude.Int.{ℤ}

-- event.FileCategories
pub record FileCategories : Type 0 where
  pub test : ℤ
  pub source : ℤ
  pub docs : ℤ
  pub config : ℤ
  pub generated : ℤ
  pub other : ℤ

-- event.Commit
pub record Commit : Type 0 where
  pub parents : ℤ
  pub files_changed : ℤ
  pub lines_added : ℤ
  pub lines_removed : ℤ
  pub files : FileCategories
  pub revert : Bool
  pub authored_at : ℕ
  pub committed_by_forge : Bool

-- event.TimelinePopulation
pub record TimelinePopulation : Type 0 where
  pub total_count : ℤ
  pub filtered_count : ℤ
  pub page_count : ℤ
  pub listed : ℤ
  pub has_previous_page : Bool

-- event.PullRequest
pub record PullRequest : Type 0 where
  pub number : ℤ
  pub state : String
  pub merged_at : ℕ
  pub merge_commit : String
  pub merge_parents : Option ℤ
  pub history_state : String
  pub commits : ℤ
  pub listed : ℤ
  pub reviews : ℤ
  pub reviews_listed : ℤ
  pub reviews_available : Bool
  pub checks : ℤ
  pub checks_listed : ℤ
  pub check_state : String
  pub review_dismissals : Option TimelinePopulation

-- event.Population
pub record Population : Type 0 where
  pub total : ℤ
  pub listed : ℤ

-- event.PullRequestCommit
pub record PullRequestCommit : Type 0 where
  pub number : ℤ
  pub commit : String
  pub suites : Option Population

-- event.Review
pub record Review : Type 0 where
  pub number : ℤ
  pub state : String
  pub commit : String
  pub submitted_at : ℕ

-- event.ReviewDismissal
pub record ReviewDismissal : Type 0 where
  pub number : ℤ
  pub previous_state : String
  pub review_id : String
  pub commit : String
  pub submitted_at : ℕ
  pub dismissed_at : ℕ

-- event.Check
pub record Check : Type 0 where
  pub number : ℤ
  pub kind : String
  pub state : String
  pub conclusion : String
  pub commit : String
  pub suite : String
  pub started_at : ℕ
  pub completed_at : ℕ

-- event.CheckSuite
pub record CheckSuite : Type 0 where
  pub number : ℤ
  pub commit : String
  pub state : String
  pub conclusion : String
  pub created_at : ℕ
  pub updated_at : ℕ
  pub runs : Option Population

-- event.Payload: the interface is closed, so its implementations are the constructors.
pub data Payload : Type 0 where
  commit : Commit → Payload
  pull_request : PullRequest → Payload
  pull_request_commit : PullRequestCommit → Payload
  review : Review → Payload
  review_dismissal : ReviewDismissal → Payload
  check : Check → Payload
  check_suite : CheckSuite → Payload
