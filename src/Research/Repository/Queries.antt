-- ===== src/Research/Repository/Queries.antt =====
-- backend/internal/research/postgres_repository.go: the statements that the transactions share. The
-- reading of the clock is an argument; the row locks order the transactions and have no other effect.
use open_music_player.Prelude.{
  ℕ, suc, ◌+◌, ◌-◌, ◌*◌, ◌/◌, ◌^◌, Bool, true, false, not, ◌&&◌, Option, none, some, [], ◌∷◌, ◌++◌,
  if◌then◌else◌, ltb, leb, ◌==◌, Text, text_eq,
}
use open_music_player.Research.Types.{
  JobStatus, job_running, job_cancel_requested, RunStatus, run_running, DegradationCode,
  model_unavailable, transient, timeout, validation_rejected, safety_rejected, enhancement_rejected,
  lease_expired,
}
use open_music_player.Research.Repository.Sql.{select_where, update_where}
use open_music_player.Research.Repository.Tables.{
  FailureKind, failure_transient, failure_terminal, failure_safety, failure_validation,
  failure_timeout, EventKind, EventPayload, EventRow, JobRow, RunRow, Db, Repository, no_rows,
  Answer, returned, ◌>>=◌, or_fail,
}

abbrev pub is_running : RunStatus → Bool
is_running run_running = true
is_running _ = false

-- `job.status IN ('running','cancel_requested')`
abbrev pub is_active : JobStatus → Bool
is_active job_running = true
is_active job_cancel_requested = true
is_active _ = false

abbrev pub set_jobs : (JobRow → Bool) → (JobRow → JobRow) → Db → Db
set_jobs p f db = record db { jobs = update_where p f db.jobs }

abbrev pub set_job : Text → (JobRow → JobRow) → Db → Db
set_job id f db = set_jobs (λ j. text_eq j.id id) f db

abbrev pub set_runs : (RunRow → Bool) → (RunRow → RunRow) → Db → Db
set_runs p f db = record db { runs = update_where p f db.runs }

abbrev pub set_run : Text → (RunRow → RunRow) → Db → Db
set_run id f db = set_runs (λ r. text_eq r.id id) f db

abbrev pub no_payload : EventPayload
no_payload = record {
  run_id = none;
  revision_id = none;
  revision = none;
  degradation = none;
  telemetry = none;
}

abbrev pub run_payload : Text → EventPayload
run_payload id = record no_payload { run_id = some id }

abbrev pub next_event : JobRow → JobRow
next_event j = record j { event_sequence = suc j.event_sequence }

unfoldable pub append_event : Text → EventKind → EventPayload → Db → Answer Db
append_event job_id kind payload db = do
  job ← or_fail (select_where (λ j. text_eq j.id job_id) db.jobs) no_rows
  let counted = set_job job_id next_event db
  let event : EventRow = record {
    job_id = job_id;
    sequence = suc job.event_sequence;
    kind = kind;
    payload = payload;
  }
  returned (record counted { events = counted.events ++ (event ∷ []) })

-- `now.UTC().Format("2006-01-02")`, as the number of the day.
abbrev pub budget_day : ℕ → ℕ
budget_day now = now / (86400 * 10 ^ 9)

abbrev pub reserved : Option ℕ → ℕ
reserved none = 0
reserved (some units) = units

-- The row is there, and has the units added where they fit.
unfoldable pub reserve_budget : Repository → Text → ℕ → Db → Bool × Db
reserve_budget r owner_id now db =
    let units = reserved (db.budgets owner_id (budget_day now)) in
    let fits = leb (units + r.daily_units_per_attempt) r.daily_limit in
    let after = if fits then units + r.daily_units_per_attempt else units in
    (
      fits,
      record db {
        budgets = λ user day.
            if text_eq user owner_id && day == budget_day now
            then some after
            else db.budgets user day;
      },
    )

abbrev pub active_runs : Option ℕ → ℕ
active_runs none = 0
active_runs (some n) = n

abbrev pub set_slot : Text → ℕ → Db → Db
set_slot owner_id n db = record db {
  slots = λ user. if text_eq user owner_id then some n else db.slots user;
}

-- ErrNoJobAvailable is `none`. The first row is inserted whatever the limit is.
unfoldable pub acquire_slot : Repository → Text → Db → Option Db
acquire_slot r owner_id db = elim (db.slots owner_id) [
  | none ↦ some (set_slot owner_id 1 db)
  | some n ↦
      if ltb n r.max_concurrent_runs_per_user then some (set_slot owner_id (suc n) db) else none
]

-- `GREATEST(active_run_count-1,0)` is subtraction on ℕ.
abbrev pub minus_slot : Text → Db → Db
minus_slot owner_id db = elim (db.slots owner_id) [
  | none ↦ db
  | some n ↦ set_slot owner_id (n - 1) db
]

abbrev pub unreleased : Text → RunRow → Bool
unreleased run_id run = text_eq run.id run_id && not run.slot_released

abbrev pub release : RunRow → RunRow
release run = record run { slot_released = true }

unfoldable pub release_slot : Text → Text → Db → Db
release_slot run_id owner_id db = elim (select_where (unreleased run_id) db.runs) [
  | none ↦ db
  | some run ↦
      minus_slot owner_id (record db { runs = update_where (unreleased run_id) release db.runs })
]

unfoldable pub failure_class : DegradationCode → FailureKind
failure_class transient = failure_transient
failure_class model_unavailable = failure_transient
failure_class lease_expired = failure_transient
failure_class timeout = failure_timeout
failure_class safety_rejected = failure_safety
failure_class validation_rejected = failure_validation
failure_class enhancement_rejected = failure_validation
failure_class _ = failure_terminal
