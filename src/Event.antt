-- ===== src/Event.antt =====
-- internal/event: the canonical observation contract.
pub mod Payloads
pub mod Checks
pub mod Validate
pub mod Envelope
pub mod Consistency
use assaio.Prelude.{ℕ, String, Option}
use Payloads.{Payload}

-- event.Source
pub record Source : Type 0 where
  pub name : String
  pub version : String
  pub build : String

-- event.Subject
pub record Subject : Type 0 where
  pub project : String
  pub session : String
  pub member : String

-- event.Event; `payload` is `none` for Go's nil interface.
pub record Event : Type 0 where
  pub spec_version : ℕ
  pub type : String
  pub id : String
  pub source : Source
  pub occurred_at : ℕ
  pub observed_at : ℕ
  pub time_source : String
  pub grain : String
  pub privacy : String
  pub provenance : String
  pub subject : Subject
  pub payload : Option Payload
