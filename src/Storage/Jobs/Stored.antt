-- ===== src/Storage/Jobs/Stored.antt =====
-- What a submission stores, what it answers, and the statuses' text form.
use ascension_watchdog.Prelude.{ℕ, ◌≡◌, ◌↔◌, String, none, some, arith, eq_iff}
use ascension_watchdog.Error.{ok, ◌>>=◌}
use ascension_watchdog.Storage.Db.{JobStatus, Db}
use ascension_watchdog.Storage.Jobs.{Codec, JobRecord, as_str, parse}

status_parses :
    (status : JobStatus) (value : String) → value ≡ as_str status → parse value ≡ ok status
unfolding parse as_str
status_parses JobStatus.queued value e = rw e
status_parses JobStatus.running value e = rw e
status_parses JobStatus.completed value e = rw e
status_parses JobStatus.failed value e = rw e
status_parses JobStatus.quarantined value e = rw e

-- The text of a status parses back to it, and no other text parses to it.
pub parse_iff :
    (value : String) (status : JobStatus) → (parse value ≡ ok status) ↔ (value ≡ as_str status)
unfolding parse as_str
parse_iff value status = (
  λ e. ground (
    arith,
    eq_iff value "queued",
    eq_iff value "running",
    eq_iff value "completed",
    eq_iff value "failed",
    eq_iff value "quarantined",
  ),
  λ e. status_parses status value e,
)

module _ {Value : Type 0} (codec : Codec Value) where
  -- The record of a submitted row whose text parses to `v`.
  abbrev pub fresh_record : String → String → Value → String → ℕ → JobRecord Value
  fresh_record id kind v encoded now_ms = record {
    id = id;
    kind = kind;
    payload = v;
    payload_digest = codec.hex_digest encoded;
    status = JobStatus.queued;
    created_at_ms = now_ms;
    claimed_at_ms = none;
    completed_at_ms = none;
    attempt_count = 0;
    next_retry_at_ms = some now_ms;
    last_error = none;
    result = none;
    worker_id = none;
  }
