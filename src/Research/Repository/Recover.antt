-- ===== src/Research/Repository/Recover.antt =====
-- backend/internal/research/postgres_repository.go: RecoverExpiredLeases.
use open_music_player.Prelude.{
  ℕ, Bool, true, false, not, ◌&&◌, ◌||◌, some, List, [], ◌∷◌, if◌then◌else◌, ltb, ◌==◌, length,
  take, keep, Text, text_eq,
}
use open_music_player.Research.Types.{
  JobStatus, job_queued, job_running, job_cancel_requested, job_degraded, job_cancelled,
  run_cancelled, run_timed_out, DegradationCode, budget_exhausted, lease_expired, Degradation,
}
use open_music_player.Research.State.{public_degradation}
use open_music_player.Research.Repository.Tables.{
  FailureKind, failure_terminal, failure_timeout, event_lease_recovered, event_degraded,
  event_cancelled, event_retried, JobRow, RunRow, Db, Repository, Answer, returned, ◌>>=◌,
}
use open_music_player.Research.Repository.Queries.{
  is_running, set_jobs, set_run, run_payload, append_event, reserve_budget, release_slot,
}
use open_music_player.Research.Repository.Loads.{load_job}
use open_music_player.Research.Repository.Lease.{text_before, order_by}

abbrev pub with_status : JobStatus → Text → JobRow → Bool
with_status job_running id j = text_eq j.id id && elim j.status [ job_running ↦ true | _ ↦ false ]
with_status job_cancel_requested id j =
    text_eq j.id id && elim j.status [ job_cancel_requested ↦ true | _ ↦ false ]
with_status _ id j = false

abbrev pub cancelled_run : RunRow → RunRow
cancelled_run run = record run { status = run_cancelled }

abbrev pub cancelled_job : JobRow → JobRow
cancelled_job j = record j { status = job_cancelled }

abbrev pub timed_out_run : Bool → RunRow → RunRow
timed_out_run retryable run = record run {
  status = run_timed_out;
  failure_class = some failure_timeout;
  failure_code = some lease_expired;
  retryable = retryable;
}

abbrev pub requeued_job : ℕ → JobRow → JobRow
requeued_job now j = record j { status = job_queued; next_attempt_at = some now }

abbrev pub degraded_job : DegradationCode → FailureKind → JobRow → JobRow
degraded_job code kind j = record j {
  status = job_degraded;
  degradation_code = some code;
  failure_class = some kind;
}

-- The run is over for good, and so is the job.
unfoldable pub recover_degraded : Degradation → FailureKind → RunRow → Db → Answer Db
unfolding append_event
recover_degraded d kind run db = do
  recovered ← append_event run.job_id event_lease_recovered (run_payload run.id) (
      set_jobs (with_status job_running run.job_id) (degraded_job d.code kind)
        (set_run run.id (timed_out_run false) db))
  append_event run.job_id event_degraded (record (run_payload run.id) { degradation = some d })
      recovered

unfoldable pub recover_requeued : ℕ → RunRow → Db → Answer Db
unfolding append_event
recover_requeued now run db = do
  recovered ← append_event run.job_id event_lease_recovered (run_payload run.id) (
      set_jobs (with_status job_running run.job_id) (requeued_job now)
        (set_run run.id (timed_out_run true) db))
  append_event run.job_id event_retried (run_payload run.id) recovered

unfoldable pub recover_cancelled : RunRow → Db → Answer Db
unfolding append_event
recover_cancelled run db = append_event run.job_id event_cancelled (run_payload run.id) (
    set_jobs (with_status job_cancel_requested run.job_id) cancelled_job
      (set_run run.id cancelled_run db))

-- Whether the next attempt is paid for.
unfoldable pub recover_retried : Bool → ℕ → RunRow → Db → Answer Db
unfolding recover_requeued recover_degraded
recover_retried true now run db = recover_requeued now run db
recover_retried false now run db =
    recover_degraded (public_degradation budget_exhausted) failure_terminal run db

abbrev pub is_cancel_requested : JobStatus → Bool
is_cancel_requested job_cancel_requested = true
is_cancel_requested _ = false

-- One round of the loop; the database is that after the rounds before.
unfoldable pub recover_run : Repository → ℕ → RunRow → Db → Answer Db
unfolding load_job release_slot recover_cancelled recover_retried recover_degraded reserve_budget
recover_run r now run db = do
  (job, degradation) ← load_job db run.job_id run.user_id
  let released = release_slot run.id run.user_id db
  let (granted, budgeted) = reserve_budget r run.user_id now released
  if is_cancel_requested job.status
      then recover_cancelled run released
      else if job.retry_safe && ltb job.attempts job.max_attempts
      then recover_retried granted now run budgeted
      else recover_degraded (record (public_degradation lease_expired) { retryable = false })
          failure_timeout run released

unfoldable pub recover_runs : Repository → ℕ → List RunRow → Db → Answer Db
unfolding recover_run
recover_runs r now [] db = returned db
recover_runs r now (run ∷ runs) db = do
  after ← recover_run r now run db
  recover_runs r now runs after

unfoldable pub expires_before : RunRow → RunRow → Bool
unfolding text_before
expires_before a b =
    ltb a.lease_until b.lease_until || (a.lease_until == b.lease_until && text_before a.id b.id)

abbrev pub has_expired : ℕ → RunRow → Bool
has_expired now run = is_running run.status && ltb run.lease_until now

-- `locked` are the rows that other transactions hold, which `SKIP LOCKED` leaves out.
unfoldable pub expired_runs : (Text → Bool) → ℕ → Db → List RunRow
unfolding expires_before
expired_runs locked now db =
    take 100
      (keep (λ run. not (locked run.id)) (order_by expires_before (keep (has_expired now) db.runs)))

unfoldable pub recover_expired_leases : Repository → (Text → Bool) → ℕ → Db → Answer (Db × ℕ)
unfolding recover_runs expired_runs
recover_expired_leases r locked now db = do
  let expired = expired_runs locked now db
  after ← recover_runs r now expired db
  returned (after, length expired)
