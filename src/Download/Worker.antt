-- ===== src/Download/Worker.antt =====
-- backend/internal/download/worker.go: the processing of one job by a worker. The processor and the
-- durable lifecycle are parameters; the lifecycle keeps a state of its own beside Redis. Logging and
-- the sleep before a retry have no effect on the state, and the job's timeout is the processor's.
use open_music_player.Prelude.{
  ℕ, suc, Bool, true, ◌&&◌, Option, none, some, List, [], ◌∷◌, ◌++◌, if◌then◌else◌, ltb, Text,
  codes, ℤ, pos,
}
use open_music_player.Redis.Queueing.{Queueing}
use open_music_player.Download.Job.{
  DownloadJob, ok, err, JobError, status_queued, status_downloading, status_complete, status_failed,
}
use open_music_player.Download.Update.{Times}
use open_music_player.Download.Queue.{Server, update_status, update_track_id}
use open_music_player.Download.Retry.{prepare_retry, publish_queued_retry}

-- An error and, if it or one that it wraps classifies itself, its Retryable().
pub record Failure : Type 0 where
  pub message : Text
  pub class : Option Bool

unfoldable pub is_retryable : Failure → Bool
is_retryable failure = elim failure.class [ none ↦ true | some retryable ↦ retryable ]

-- What a processor does to the job while it works, in order.
pub data Act : Type 0 where
  sets_status : Text → Act
  sets_track : ℤ → Act
  reports : ℤ → Act

pub record Lifecycle (D : Type 0) : Type 0 where
  pub sync : D → DownloadJob → D × Option Failure
  pub complete : D → DownloadJob → D × Option Failure
  pub fail : D → DownloadJob → Failure → D × Option Failure
  pub requeue : D → DownloadJob → ℕ → D × Option Failure

-- The clock readings of one job: of the start, the n-th report, the track, the retry and the end.
pub record JobTimes : Type 0 where
  pub start : Times
  pub report : ℕ → Times
  pub track : ℕ
  pub retry : ℕ
  pub settle : Times

-- `describe` is Error() of the queue's errors.
pub record WorkerPool (D : Type 0) : Type 0 where
  pub max_retries : ℕ
  pub lifecycle : Option (Lifecycle D)
  pub processor : DownloadJob → List Act × Option Failure
  pub describe : JobError → Text

module _ {D : Type 0} where
  -- The calls of a lifecycle that may be nil.
  unfoldable pub sync_job : Option (Lifecycle D) → D → DownloadJob → D × Option Failure
  sync_job none d job = (d, none)
  sync_job (some lifecycle) d job = lifecycle.sync d job

  unfoldable pub complete_job : Option (Lifecycle D) → D → DownloadJob → D × Option Failure
  complete_job none d job = (d, none)
  complete_job (some lifecycle) d job = lifecycle.complete d job

  unfoldable pub fail_job : Option (Lifecycle D) → D → DownloadJob → Failure → D
  fail_job none d job failure = d
  fail_job (some lifecycle) d job failure = (lifecycle.fail d job failure).0

  unfoldable pub requeue_job : Option (Lifecycle D) → D → DownloadJob → D × Option Failure
  requeue_job none d job = (d, none)
  requeue_job (some lifecycle) d job = lifecycle.requeue d job job.retry_count

module _ {D : Type 0} (redis : Queueing DownloadJob) (pool : WorkerPool D) (times : JobTimes) where
  -- Redis and the durable state.
  abbrev pub World : Type 0
  World = Server redis × D

  abbrev pub failed_job : DownloadJob → Text → DownloadJob
  failed_job job message = record job { status = status_failed; error = message }

  unfoldable pub fail_retry_preparation : DownloadJob → Failure → World → World
  fail_retry_preparation job cause (s, d) =
      let message = codes "retry preparation failed: " ++ cause.message in
      let (s', updated) =
        update_status redis times.settle job.id status_failed job.progress message s in
      (s', fail_job pool.lifecycle d (failed_job job message) (record cause { message = message }))

  unfoldable pub fail_finally : DownloadJob → Failure → World → World
  fail_finally job failure (s, d) =
      let (s', updated) =
        update_status redis times.settle job.id status_failed job.progress failure.message s in
      elim updated [
        | err e ↦ (s', d)
        | ok u ↦ (s', fail_job pool.lifecycle d (failed_job job failure.message) failure)
      ]

  -- A retry whose durable requeue has succeeded.
  unfoldable pub retry_in_queue : DownloadJob → World → World
  unfolding fail_retry_preparation
  retry_in_queue job (s, d) =
      let (s', prepared) = prepare_retry redis times.retry job.id s in
      elim prepared [
        | err e ↦
            fail_retry_preparation job
              (record { message = codes "prepare retry: " ++ pool.describe e; class = none })
              (s', d)
        | ok ready ↦ ((publish_queued_retry redis job.id s').0, d)
      ]

  unfoldable pub retry_job : DownloadJob → World → World
  unfolding fail_retry_preparation retry_in_queue
  retry_job job (s, d) =
      let retrying = record job {
        status = status_queued;
        progress = pos 0;
        error = [];
        retry_count = suc job.retry_count;
      } in
      let (d', refused) = requeue_job pool.lifecycle d retrying in
      elim refused [
        | some failure ↦
            fail_retry_preparation job
              (record failure { message = codes "persist retry: " ++ failure.message }) (s, d')
        | none ↦ retry_in_queue job (s, d')
      ]

  unfoldable pub handle_job_failure : DownloadJob → Failure → World → World
  unfolding retry_job fail_finally
  handle_job_failure job failure w =
      if is_retryable failure && ltb job.retry_count pool.max_retries
      then retry_job job w
      else fail_finally job failure w

  -- The n-th call of progressFn.
  unfoldable pub report_progress : ℕ → ℤ → DownloadJob → World → World
  report_progress n progress job (s, d) = (
    (update_status redis (times.report n) job.id job.status progress [] s).0,
    (sync_job pool.lifecycle d job).0,
  )

  unfoldable pub run_acts : ℕ → List Act → DownloadJob → World → DownloadJob × World
  unfolding report_progress
  run_acts n [] job w = (job, w)
  run_acts n (sets_status status ∷ acts) job w = run_acts n acts (record job { status = status }) w
  run_acts n (sets_track track ∷ acts) job w =
      run_acts n acts (record job { track_id = some track }) w
  run_acts n (reports progress ∷ acts) job w =
      let reported = record job { progress = progress } in
      run_acts (suc n) acts reported (report_progress n progress reported w)

  unfoldable pub store_track : DownloadJob → Server redis → Server redis
  store_track job s = elim job.track_id [
    | none ↦ s
    | some track ↦ (update_track_id redis times.track job.id track s).0
  ]

  -- After the processor.
  unfoldable pub finish_job : DownloadJob → Option Failure → World → World
  unfolding handle_job_failure store_track
  finish_job job (some failure) w = handle_job_failure job failure w
  finish_job job none (s, d) =
      let (d', refused) = complete_job pool.lifecycle d job in
      elim refused [
        | some failure ↦ handle_job_failure job failure (s, d')
        | none ↦
            let s' = store_track job s in
            ((update_status redis times.settle job.id status_complete (pos 100) [] s').0, d')
      ]

  unfoldable pub run_processor : DownloadJob → World → World
  unfolding run_acts finish_job
  run_processor job w =
      let (acts, outcome) = pool.processor job in
      let (job', w') = run_acts 0 acts job w in finish_job job' outcome w'

  unfoldable pub process_job : DownloadJob → World → World
  unfolding run_processor handle_job_failure
  process_job job (s, d) =
      let (s', updated) = update_status redis times.start job.id status_downloading (pos 0) [] s in
      let job' = record job { status = status_downloading; progress = pos 0; error = [] } in
      let (d', refused) = sync_job pool.lifecycle d job' in
      elim updated [
        | err e ↦ (s', d)
        | ok u ↦ elim refused [
          | some failure ↦ handle_job_failure job' failure (s', d')
          | none ↦ run_processor job' (s', d')
        ]
      ]
