-- ===== src/Storage/Jobs/Select.antt =====
-- The queries of the job queue: which rows a WHERE clause selects, and in which order.
use Prim.Native.Nat.{Ordering}
use Prim.Native.String.{compare}
use ascension_watchdog.Prelude.{
  ℕ, Bool, true, false, ◌&&◌, ◌||◌, String, Option, none, some, List, [], ◌∷◌, str_eq,
}
use ascension_watchdog.Prelude.Tests.{ltb, leb, ◌==◌, if◌then◌else◌}
use ascension_watchdog.Prelude.Earliest.{earliest_by}
use ascension_watchdog.Prelude.Lists.{keep_where, count_where, find_where}
use ascension_watchdog.Storage.Db.{JobStatus, AttemptStatus, JobRow, AttemptRow, Db}

abbrev pub is_queued : JobStatus → Bool
is_queued JobStatus.queued = true
is_queued _ = false

abbrev pub is_running : JobStatus → Bool
is_running JobStatus.running = true
is_running _ = false

abbrev pub is_completed : JobStatus → Bool
is_completed JobStatus.completed = true
is_completed _ = false

abbrev pub attempt_is_running : AttemptStatus → Bool
attempt_is_running AttemptStatus.running = true
attempt_is_running _ = false

abbrev pub attempt_is_completed : AttemptStatus → Bool
attempt_is_completed AttemptStatus.completed = true
attempt_is_completed _ = false

-- `status IN ('running','unknown')`
abbrev pub is_unresolved : AttemptStatus → Bool
is_unresolved AttemptStatus.running = true
is_unresolved AttemptStatus.unknown = true
is_unresolved _ = false

-- `next_retry_at_ms <= ?`, false at NULL
abbrev pub is_due : Option ℕ → ℕ → Bool
is_due none now_ms = false
is_due (some at) now_ms = leb at now_ms

-- `status = 'queued' AND next_retry_at_ms <= ?1`
abbrev pub is_ready : ℕ → JobRow → Bool
is_ready now_ms row = is_queued row.status && is_due row.next_retry_at_ms now_ms

abbrev pub text_before : String → String → Bool
text_before a b = elim (compare a b) [ Ordering.lt ↦ true | _ ↦ false ]

-- `ORDER BY created_at_ms, id`; TEXT is ordered by its bytes.
abbrev pub row_before : JobRow → JobRow → Bool
row_before a b =
    ltb a.created_at_ms b.created_at_ms
    || a.created_at_ms == b.created_at_ms && text_before a.id b.id

-- The first of some rows in that order.
unfoldable pub oldest : List JobRow → Option JobRow
oldest rows = earliest_by row_before rows

abbrev later : AttemptRow → Option AttemptRow → AttemptRow
later row none = row
later row (some other) = if ltb row.sequence other.sequence then other else row

-- `ORDER BY sequence DESC LIMIT 1`
unfoldable pub latest : List AttemptRow → Option AttemptRow
latest [] = none
latest (row ∷ rows) = some (later row (latest rows))

-- The row of a job, by its primary key.
unfoldable pub job_row : Db → String → Option JobRow
job_row db id = find_where (λ row. str_eq row.id id) db.jobs

-- `WHERE id=? AND job_id=?`
unfoldable pub attempt_row : Db → String → String → Option AttemptRow
attempt_row db id job_id =
    find_where (λ row. str_eq row.id id && str_eq row.job_id job_id) db.attempts

unfoldable pub completed_attempt : Db → String → Option AttemptRow
unfolding latest
completed_attempt db job_id =
    latest
      (keep_where (λ row. str_eq row.job_id job_id && attempt_is_completed row.status) db.attempts)

-- The jobs and the attempts that run, and the attempts that hold the deployment.
abbrev pub running_jobs : Db → ℕ
running_jobs db = count_where (λ row. is_running row.status) db.jobs

abbrev pub running_attempts : Db → ℕ
running_attempts db = count_where (λ row. attempt_is_running row.status) db.attempts

abbrev pub unresolved_attempts : Db → ℕ
unresolved_attempts db = count_where (λ row. is_unresolved row.status) db.attempts
