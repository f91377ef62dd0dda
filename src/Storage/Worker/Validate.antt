-- ===== src/Storage/Worker/Validate.antt =====
-- crates/watchdog/src/storage_worker_claims_validation.rs: which identities, digests, controls,
-- claims and tuples are valid.
use Prim.Native.Nat.{ℕ}
use ascension_watchdog.Prelude.{
  Bool, true, false, ◌&&◌, ◌||◌, not, String, Option, none, some, List, [], ◌∷◌, str_eq,
}
use ascension_watchdog.Prelude.Tests.{ltb, leb, ◌==◌, if◌then◌else◌}
use ascension_watchdog.Prelude.Lists.{all_where}
use ascension_watchdog.Prelude.Text.{byte_len, as_bytes}
use ascension_watchdog.Error.{Result, ok, err, ensure, conflict, invalid_input, ◌>>=◌, ◌>>◌}
use ascension_watchdog.Storage.Db.{Db}
use ascension_watchdog.Storage.Metadata.{metadata_from_conn, validate_name}
use ascension_watchdog.Storage.Launch.{is_digest}
use ascension_watchdog.Storage.Worker.Types.{
  max_worker_wire_integer, worker_handoff_schema_digest, worker_handoff_payload_digest,
  WorkerBinding, WorkerControlWitness, WorkerClaimWitness, WorkerHandoffTuple,
}
use ascension_watchdog.Storage.Worker.Outside.{Outside}

-- `for check in checks { check?; }`
abbrev pub each : List (Result (Unit {0})) → Result (Unit {0})
each [] = ok tt
each (check ∷ checks) = check >> each checks

unfoldable pub validate_digest_value : String → Result (Unit {0})
validate_digest_value value = ensure (is_digest value) invalid_input

abbrev is_identity_byte : ℕ → Bool
is_identity_byte b =
    leb 48 b && leb b 57
    || leb 65 b && leb b 90
    || leb 97 b && leb b 122
    || b == 46
    || b == 95
    || b == 45

unfoldable pub validate_worker_identity : String → Result (Unit {0})
validate_worker_identity value =
    if byte_len value == 0
      || ltb 128 (byte_len value)
      || not (all_where is_identity_byte (as_bytes value))
    then err invalid_input
    else ok tt

abbrev pub required {ℓ} : {A : Type ℓ} → Option A → Result A
required none = err conflict
required (some value) = ok value

unfoldable pub validate_binding : Db → WorkerBinding → Result (Unit {0})
unfolding validate_worker_identity validate_digest_value
validate_binding db binding = do
  deployment_id ← required (metadata_from_conn db "deployment_id")
  validate_worker_identity binding.deployment_id
  ensure (str_eq binding.deployment_id deployment_id) conflict
  validate_worker_identity binding.worker_owner_id
  each (
      validate_digest_value binding.worker_profile_digest
      ∷ validate_digest_value binding.release_digest
      ∷ validate_digest_value binding.config_digest
      ∷ validate_digest_value binding.schema_digest
      ∷ [])
  ensure (str_eq binding.schema_digest worker_handoff_schema_digest) conflict

-- A sequence is positive and fits the wire.
abbrev is_wire_sequence : ℕ → Bool
is_wire_sequence n = not (n == 0 || ltb max_worker_wire_integer n)

abbrev pub contains : List String → String → Bool
contains [] id = false
contains (x ∷ xs) id = str_eq x id || contains xs id

abbrev pub pairwise_distinct : List String → Bool
pairwise_distinct [] = true
pairwise_distinct (id ∷ ids) = not (contains ids id) && pairwise_distinct ids

unfoldable pub validate_control_against_binding :
    WorkerControlWitness → WorkerBinding → Result (Unit {0})
validate_control_against_binding control binding =
    ensure
      (str_eq control.deployment_id binding.deployment_id
        && str_eq control.worker_owner_id binding.worker_owner_id
        && str_eq control.worker_profile_digest binding.worker_profile_digest)
      conflict

module _ {Value Uuid : Type 0} (out : Outside Value Uuid) where
  abbrev is_uuid4_text : Option Uuid → String → Bool
  is_uuid4_text none value = false
  is_uuid4_text (some parsed) value =
      out.version_num parsed == 4 && out.is_rfc4122 parsed && str_eq (out.uuid_text parsed) value

  unfoldable pub validate_uuid4 : String → Result (Unit {0})
  validate_uuid4 value = ensure (is_uuid4_text (out.parse_uuid value) value) invalid_input

  unfoldable pub validate_control : WorkerControlWitness → Result (Unit {0})
  unfolding validate_worker_identity validate_digest_value validate_uuid4
  validate_control control = do
    validate_worker_identity control.deployment_id
    validate_worker_identity control.worker_owner_id
    validate_digest_value control.worker_profile_digest
    validate_uuid4 control.watchdog_boot_id
    validate_uuid4 control.worker_boot_id
    ensure (not (str_eq control.watchdog_boot_id control.worker_boot_id)) invalid_input
    ensure (is_wire_sequence control.mode_sequence) invalid_input

  unfoldable pub validate_claim_witness : WorkerClaimWitness → Result (Unit {0})
  unfolding validate_worker_identity validate_digest_value validate_uuid4
  validate_claim_witness witness = do
    validate_worker_identity witness.deployment_id
    validate_worker_identity witness.worker_owner_id
    each (
        validate_digest_value witness.worker_profile_digest
        ∷ validate_digest_value witness.release_digest
        ∷ validate_digest_value witness.config_digest
        ∷ validate_digest_value witness.schema_digest
        ∷ [])
    validate_uuid4 witness.watchdog_boot_id
    validate_uuid4 witness.worker_boot_id
    ensure (not (str_eq witness.watchdog_boot_id witness.worker_boot_id)) invalid_input
    ensure (is_wire_sequence witness.mode_sequence) invalid_input

  -- The UUIDs of a tuple, in the order in which they are drawn.
  abbrev pub ids_of : WorkerHandoffTuple → List String
  ids_of tuple =
      tuple.handoff_id ∷ tuple.attempt_id ∷ tuple.run_id ∷ tuple.episode_id ∷ tuple.trajectory_id
      ∷ []

  unfoldable pub validate_tuple : WorkerHandoffTuple → Result (Unit {0})
  unfolding validate_worker_identity validate_digest_value validate_uuid4
  validate_tuple tuple = do
    each (
        validate_uuid4 tuple.handoff_id
        ∷ validate_uuid4 tuple.attempt_id
        ∷ validate_uuid4 tuple.run_id
        ∷ validate_uuid4 tuple.episode_id
        ∷ validate_uuid4 tuple.trajectory_id
        ∷ [])
    validate_worker_identity tuple.deployment_id
    validate_name tuple.job_id 128
    ensure (not (tuple.attempt_number == 0)) invalid_input
    validate_worker_identity tuple.worker_owner_id
    validate_digest_value tuple.worker_profile_digest
    validate_digest_value tuple.payload_digest
    ensure (str_eq tuple.payload_digest worker_handoff_payload_digest) invalid_input
    ensure (pairwise_distinct (ids_of tuple)) invalid_input
