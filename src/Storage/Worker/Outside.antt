-- ===== src/Storage/Worker/Outside.antt =====
-- What the hand-off relies on outside the repository: serde_json, SHA-256 and the crate `uuid`.
use ascension_watchdog.Prelude.{ℕ, Bool, String, Option}
use ascension_watchdog.Error.{Result}
use ascension_watchdog.Storage.Jobs.{Codec}
use ascension_watchdog.Storage.Worker.Types.{WorkerTerminalStatus, WorkerTerminalReceipt}

-- The fields of the `Material` that `terminal_digest` hashes, in their order.
pub record Material : Type 0 where
  pub handoff_id : String
  pub deployment_id : String
  pub job_id : String
  pub attempt_id : String
  pub attempt_number : ℕ
  pub worker_owner_id : String
  pub worker_profile_digest : String
  pub run_id : String
  pub episode_id : String
  pub trajectory_id : String
  pub payload_digest : String
  pub status : WorkerTerminalStatus
  pub checkpoint_sequence : ℕ
  pub terminal_ref : String
  pub result_digest : String

pub record Outside (Value Uuid : Type 0) : Type 0 where
  -- serde_json's text and parser of a `Value`, and `hex_digest`
  pub codec : Codec Value
  -- `==` on `Value`, and `Value::Object(Map::new())`
  pub same_value : Value → Value → Bool
  pub empty_object : Value
  -- serde_json's text of a `Material`, and `json!` of the four fields of a receipt
  pub material_text : Material → Result String
  pub receipt_json : WorkerTerminalReceipt → Value
  -- `Uuid::parse_str`, `get_version_num`, `get_variant() == RFC4122`, `to_string`
  pub parse_uuid : String → Option Uuid
  pub version_num : Uuid → ℕ
  pub is_rfc4122 : Uuid → Bool
  pub uuid_text : Uuid → String
