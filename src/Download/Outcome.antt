-- ===== src/Download/Outcome.antt =====
-- backend/internal/download/worker.go: how processJob ends while Redis reports no errors.
use open_music_player.Prelude.{
  ℕ, suc, ◌≤◌, ◌≡◌, refl, ap, sym, subst, ◌⊎◌, inl, inr, true, Option, none, some, List, [], ◌∷◌,
  ◌++◌, Text, codes, ℤ, Bool-cases, Option-cases, arith, pos, ltb, ltb→lt, ◌&&◌, ◌<◌,
}
use open_music_player.Redis.Queueing.{Queueing, QueueingLaws, IsReliable, listed}
use open_music_player.Download.Job.{
  DownloadJob, JobError, ok, err, job_not_retryable, is_terminal, status_queued, status_downloading,
  status_complete, status_failed,
}
use open_music_player.Download.Update.{Times, key_job_queue, with_status, retried}
use open_music_player.Download.Queue.{Server, update_status}
use open_music_player.Download.Retry.{prepare_retry, publish_queued_retry}
use open_music_player.Download.Worker.{
  Failure, is_retryable, Act, sets_status, sets_track, reports, JobTimes, WorkerPool, sync_job,
  complete_job, requeue_job, World, fail_retry_preparation, fail_finally, retry_in_queue, retry_job,
  handle_job_failure, report_progress, run_acts, store_track, finish_job, run_processor,
  process_job,
}
use open_music_player.Download.Reliable.{
  HasJob, update_status-runs, update_track_id-runs, prepare_retry-refuses, prepare_retry-runs,
  publish_queued_retry-runs,
}

module _ {D : Type 0} {redis : Queueing DownloadJob} {laws : QueueingLaws redis}
    (reliable : IsReliable laws) (pool : WorkerPool D) (times : JobTimes) where
  open laws use {items}

  -- Redis holds a job under the ID that has been retried n times.
  abbrev pub HasCount : Server redis → Text → ℕ → Type 0
  HasCount s id n = (job : DownloadJob) × HasJob reliable s id job × (job.retry_count ≡ n)

  -- How the job ends: complete, failed, or one retry further and in the work list.
  abbrev pub Ended : Server redis → ℕ → Text → DownloadJob → Type 0
  Ended s n id job =
      ((job.status ≡ status_complete) × (job.retry_count ≡ n))
      ⊎ (((job.status ≡ status_failed) × (job.retry_count ≡ n))
          ⊎ ((job.status ≡ status_queued)
              × (job.retry_count ≡ suc n)
              × (suc n ≤ pool.max_retries)
              × (listed id (items s key_job_queue) ≡ true)))

  abbrev pub Outcome : World redis pool times → Text → ℕ → Type 0
  Outcome (s, d) id n = (job : DownloadJob) × HasJob reliable s id job × Ended s n id job

  update-HasCount :
      (t : Times) (id status : Text) (progress : ℤ) (message : Text) (s : Server redis) (n : ℕ)
      → HasCount s id n
      → (job : DownloadJob) × HasJob reliable
          (update_status redis t id status progress message s).0
          id
          job
        × (job.retry_count ≡ n)
        × (job.status ≡ status)
        × ((update_status redis t id status progress message s).1 ≡ ok tt)
  update-HasCount t id status progress message s n (job, held, count) =
      let (s', run, held', kept) =
        update_status-runs reliable t id status progress message s job held in
      (
        with_status t status progress message job,
        rw run held',
        unfold with_status in count,
        unfold with_status in refl,
        ap (λ r. r.1) run,
      )

  fail_retry_preparation-Outcome :
      (job : DownloadJob) (cause : Failure) (s : Server redis) (d : D) (n : ℕ)
      → HasCount s job.id n
      → Outcome (fail_retry_preparation redis pool times job cause (s, d)) job.id n
  unfolding fail_retry_preparation
  fail_retry_preparation-Outcome job cause s d n h =
      let (after, held, count, status, done) =
        update-HasCount times.settle job.id status_failed job.progress
          (codes "retry preparation failed: " ++ cause.message) s n h in
      (after, held, inr (inl (status, count)))

  fail_finally-Outcome :
      (job : DownloadJob) (failure : Failure) (s : Server redis) (d : D) (n : ℕ)
      → HasCount s job.id n
      → Outcome (fail_finally redis pool times job failure (s, d)) job.id n
  unfolding fail_finally
  fail_finally-Outcome job failure s d n h =
      let (after, held, count, status, done) =
        update-HasCount times.settle job.id status_failed job.progress failure.message s n h in
      rw (done, fail_finally) (after, held, inr (inl (status, count)))

  retry_refused :
      (job : DownloadJob) (s s' : Server redis) (d : D) (e : JobError)
      → prepare_retry redis times.retry job.id s ≡ (s', err e)
      → retry_in_queue redis pool times job (s, d)
        ≡ fail_retry_preparation redis pool times job
            (record { message = codes "prepare retry: " ++ pool.describe e; class = none })
            (s', d)
  unfolding retry_in_queue
  retry_refused job s s' d e run = ground (arith, run)

  retry_ready :
      (job ready : DownloadJob) (s s' s'' : Server redis) (d : D)
      → prepare_retry redis times.retry job.id s ≡ (s', ok ready)
      → publish_queued_retry redis job.id s' ≡ (s'', ok tt)
      → retry_in_queue redis pool times job (s, d) ≡ (s'', d)
  unfolding retry_in_queue
  retry_ready job ready s s' s'' d run published = ground (arith, run, published)

  retry_in_queue-Outcome :
      (job : DownloadJob) (s : Server redis) (d : D) (n : ℕ)
      → HasCount s job.id n
      → n < pool.max_retries
      → Outcome (retry_in_queue redis pool times job (s, d)) job.id n
  unfolding retry_in_queue
  retry_in_queue-Outcome job s d n (stored, held, count) left =
      elim (Bool-cases (is_terminal stored)) [
        | inl terminal ↦
            let (s', run, held') =
              prepare_retry-refuses reliable times.retry job.id s stored held terminal in
            rw (retry_refused job s s' d _ run) (
              fail_retry_preparation-Outcome job
                (record {
                  message = codes "prepare retry: " ++ pool.describe job_not_retryable;
                  class = none;
                })
                s' d n (stored, held', count))
        | inr running ↦
            let prepared = record (retried times.retry stored) { progress = pos 0 } in
            let (s', run, held') =
              prepare_retry-runs reliable times.retry job.id s stored held running in
            let (s'', published, held'', there) =
              publish_queued_retry-runs reliable job.id s' prepared held'
                (unfold retried in refl) in
            rw (retry_ready job prepared s s' s'' d run published) (
              prepared,
              held'',
              inr (
                  inr (
                    unfold retried in refl,
                    unfold retried in ap suc count,
                    omega (arith, left),
                    there,
                  )),
            )
      ]

  retry_job-Outcome :
      (job : DownloadJob) (s : Server redis) (d : D) (n : ℕ)
      → HasCount s job.id n
      → n < pool.max_retries
      → Outcome (retry_job redis pool times job (s, d)) job.id n
  unfolding retry_job
  retry_job-Outcome job s d n h left =
      let retrying = record job {
        status = status_queued;
        progress = pos 0;
        error = [];
        retry_count = suc job.retry_count;
      } in
      let (d', refused) = requeue_job pool.lifecycle d retrying in
      elim (Option-cases (requeue_job pool.lifecycle d retrying).1) [
        | inl accepted ↦ rw (accepted, retry_job) (retry_in_queue-Outcome job s d' n h left)
        | inr (failure, e) ↦
            rw (e, retry_job)
              (fail_retry_preparation-Outcome job
                (record failure { message = codes "persist retry: " ++ failure.message }) s d' n h)
      ]

  handle_job_failure-Outcome :
      (job : DownloadJob) (failure : Failure) (s : Server redis) (d : D)
      → HasCount s job.id job.retry_count
      → Outcome (handle_job_failure redis pool times job failure (s, d)) job.id job.retry_count
  unfolding handle_job_failure
  handle_job_failure-Outcome job failure s d h =
      elim (Bool-cases (is_retryable failure && ltb job.retry_count pool.max_retries)) [
        | inl again ↦
            rw (again, handle_job_failure)
              (retry_job-Outcome job s d job.retry_count h
                (ltb→lt job.retry_count pool.max_retries (ground (arith, again))))
        | inr last ↦
            rw (last, handle_job_failure) (fail_finally-Outcome job failure s d job.retry_count h)
      ]

  -- The processor's acts change neither the ID nor the count, in memory and in Redis.
  run_acts-HasCount :
      (acts : List Act) (k : ℕ) (job : DownloadJob) (s : Server redis) (d : D) (id : Text) (n : ℕ)
      → (job.id ≡ id) × (job.retry_count ≡ n) × HasCount s id n
      → let (job', (s', d')) = run_acts redis pool times k acts job (s, d) in
        (job'.id ≡ id) × (job'.retry_count ≡ n) × HasCount s' id n
  unfolding run_acts report_progress
  run_acts-HasCount [] k job s d id n h = h
  run_acts-HasCount (sets_status status ∷ acts) k job s d id n h =
      run_acts-HasCount acts k _ s d id n h
  run_acts-HasCount (sets_track track ∷ acts) k job s d id n h =
      run_acts-HasCount acts k _ s d id n h
  run_acts-HasCount (reports progress ∷ acts) k job s d id n (same, count, h) =
      let (after, held, count', status, done) =
        update-HasCount (times.report k) job.id job.status progress [] s n
          (subst (λ x. HasCount s x n) (sym same) h) in
      run_acts-HasCount acts (suc k) _ _ _ id n (
        same,
        count,
        subst
            (λ x.
              HasCount (update_status redis (times.report k) job.id job.status progress [] s).0 x n)
            same (after, held, count'),
      )

  store_track-HasCount :
      (job : DownloadJob) (s : Server redis) (n : ℕ)
      → HasCount s job.id n
      → HasCount (store_track redis pool times job s) job.id n
  unfolding store_track
  store_track-HasCount job s n (stored, held, count) = elim (Option-cases job.track_id) [
    | inl nothing ↦ rw (nothing, store_track) (stored, held, count)
    | inr (track, e) ↦
        let (s', run, held', kept) =
          update_track_id-runs reliable times.track job.id track s stored held in
        let stored' = record stored { track_id = some track; updated_at = times.track } in
        rw (e, store_track)
          (stored', subst (λ r. HasJob reliable r.0 job.id stored') (sym run) held', count)
  ]

  finish_job-Outcome :
      (job : DownloadJob) (outcome : Option Failure) (s : Server redis) (d : D)
      → HasCount s job.id job.retry_count
      → Outcome (finish_job redis pool times job outcome (s, d)) job.id job.retry_count
  unfolding finish_job
  finish_job-Outcome job (some failure) s d h = handle_job_failure-Outcome job failure s d h
  finish_job-Outcome job none s d h =
      let (d', refused) = complete_job pool.lifecycle d job in
      elim (Option-cases (complete_job pool.lifecycle d job).1) [
        | inr (failure, e) ↦ rw (e, finish_job) (handle_job_failure-Outcome job failure s d' h)
        | inl accepted ↦
            let (after, held, count, status, done) =
              update-HasCount times.settle job.id status_complete (pos 100) []
                (store_track redis pool times job s) job.retry_count
                (store_track-HasCount job s job.retry_count h) in
            rw (accepted, finish_job) (after, held, inl (status, count))
      ]

  run_processor-Outcome :
      (job : DownloadJob) (s : Server redis) (d : D) (id : Text) (n : ℕ)
      → job.id ≡ id
      → job.retry_count ≡ n
      → HasCount s id n
      → Outcome (run_processor redis pool times job (s, d)) id n
  unfolding run_processor
  run_processor-Outcome job s d id n same count h =
      let (acts, outcome) = pool.processor job in
      let (job', (s', d')) = run_acts redis pool times 0 acts job (s, d) in
      let (same', count', h') = run_acts-HasCount acts 0 job s d id n (same, count, h) in
      subst (λ x. Outcome (finish_job redis pool times job' outcome (s', d')) x n) same'
        (subst (λ m. Outcome (finish_job redis pool times job' outcome (s', d')) job'.id m) count'
          (finish_job-Outcome job' outcome s' d' (
            subst (λ m. HasCount s' job'.id m) (sym count')
              (subst (λ x. HasCount s' x n) (sym same') h'))))

  -- While Redis reports no errors, processing a job that Redis holds with the same retry count
  -- ends, whatever the processor and the durable lifecycle answer, with the stored job complete, or
  -- failed, or queued with one more retry, at most the pool's maximum of them, and its ID in the
  -- work list. It is never left downloading.
  pub process_job_lem :
      (job stored : DownloadJob) (s : Server redis) (d : D)
      → HasJob reliable s job.id stored
      → stored.retry_count ≡ job.retry_count
      → Outcome (process_job redis pool times job (s, d)) job.id job.retry_count
  unfolding process_job
  process_job_lem job stored s d held count =
      let (after, held', count', status, done) =
        update-HasCount times.start job.id status_downloading (pos 0) [] s job.retry_count
          (stored, held, count) in
      let s' = (update_status redis times.start job.id status_downloading (pos 0) [] s).0 in
      let job' = record job { status = status_downloading; progress = pos 0; error = [] } in
      let d' = (sync_job pool.lifecycle d job').0 in
      elim (Option-cases (sync_job pool.lifecycle d job').1) [
        | inr (failure, e) ↦
            rw (done, e, process_job)
              (handle_job_failure-Outcome job' failure s' d' (after, held', count'))
        | inl synced ↦
            rw (done, synced, process_job)
              (run_processor-Outcome job' s' d' job.id job.retry_count refl refl
                (after, held', count'))
      ]
