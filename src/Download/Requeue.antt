-- ===== src/Download/Requeue.antt =====
-- backend/internal/download/queue.go: IncrementRetry and PrepareRetry, whatever errors Redis reports.
use open_music_player.Prelude.{
  ℕ, ◌≡◌, ◌≢◌, refl, ap, suc, [], ◌∙◌, subst, ◌⊎◌, inl, inr, true, false, some, List, ◌∷◌, Text,
  text_eq, text_eq_iff, Bool-cases, arith, pos,
}
use open_music_player.Redis.Queueing.{Queueing, QueueingLaws}
use open_music_player.Download.Job.{
  DownloadJob, Result, ok, err, store_failure, is_terminal, status_failed, status_queued,
  job_not_retryable,
}
use open_music_player.Download.Update.{key_job_queue, job_key, progress_channel, retried}
use open_music_player.Download.Queue.{
  Server, resume, stop, get_job, job_reply, save_job, publish_progress, save_and_publish,
}
use open_music_player.Download.Retry.{requeue_failed, increment_retry, prepare_found, prepare_retry}

module _ {redis : Queueing DownloadJob} (laws : QueueingLaws redis) where
  open laws use {stored, items}

  -- Redis holds the job under the ID, and the work list is the given one.
  abbrev pub Holds : Server redis → Text → DownloadJob → List Text → Type 0
  Holds s id job list = (stored.content s (job_key id) ≡ some job) × (items s key_job_queue ≡ list)

  -- The job that waits for its next attempt.
  abbrev pub queued_again : ℕ → DownloadJob → DownloadJob
  queued_again now job = record job {
    status = status_queued;
    retry_count = suc job.retry_count;
    error = [];
    updated_at = now;
  }

  -- IncrementRetry either changed nothing, or queued the job again and listed it; it refuses only a job
  -- that has not failed.
  abbrev pub Retried :
      ℕ → Text → DownloadJob → List Text → Server redis × Result (Unit {0}) → Type 0
  Retried now id job list (s', result) =
      (Holds s' id (queued_again now job) (id ∷ list) ⊎ Holds s' id job list)
      × (result ≡ ok tt
          → (job.status ≡ status_failed) × Holds s' id (queued_again now job) (id ∷ list))
      × (result ≡ err job_not_retryable → job.status ≢ status_failed)

  stop-Retried :
      (now : ℕ) (job : DownloadJob) (s : Server redis)
      → stored.content s (job_key job.id) ≡ some job
      → job.status ≡ status_failed
      → Retried now job.id job (items s key_job_queue) (
          stop redis
            (redis.put_push s (job_key job.id) (queued_again now job) key_job_queue job.id)
            tt)
  stop-Retried now job s h failed =
      let key = job_key job.id in
      elim (Bool-cases (redis.put_push s key (queued_again now job) key_job_queue job.id).1) [
        | inl done ↦
            let both =
              laws.put_push_happens s key (queued_again now job) key_job_queue job.id done in
            rw (done, stop) (inl both, λ e. (failed, both), λ e. absurd (cc e))
        | inr broken ↦
            rw (broken, stop)
              (
                elim (laws.put_push_fails s key (queued_again now job) key_job_queue job.id
                    broken) [ inl both ↦ inl both | inr neither ↦ inr (neither.0 ∙ h, neither.1) ],
                λ e. absurd (cc e),
                λ e. absurd (cc e),
              )
      ]

  requeue_failed-Retried :
      (now : ℕ) (job : DownloadJob) (s : Server redis)
      → stored.content s (job_key job.id) ≡ some job
      → Retried now job.id job (items s key_job_queue) (requeue_failed redis now job.id job s)
  unfolding requeue_failed retried
  requeue_failed-Retried now job s h = elim (Bool-cases (text_eq job.status status_failed)) [
    | inr other ↦
        rw (other, requeue_failed)
          (
            inr (h, refl),
            λ e. absurd (cc e),
            λ e same. cc (other, (text_eq_iff job.status status_failed).1 same),
          )
    | inl failed ↦
        rw (failed, requeue_failed)
          (stop-Retried now job s h ((text_eq_iff job.status status_failed).0 failed))
  ]

  get_job-answers :
      (id : Text) (s : Server redis) (job : DownloadJob)
      → stored.content s (job_key id) ≡ some job
      → ((get_job redis id s).1 ≡ ok job) ⊎ ((get_job redis id s).1 ≡ err store_failure)
  unfolding get_job job_reply
  get_job-answers id s job h = elim (stored.get_reply s (job_key id)) [
    | inl failed ↦ inr (ground (arith, failed))
    | inr answered ↦ inl (ground (arith, answered, h))
  ]

  -- IncrementRetry of a stored job, whatever errors Redis reports: the job and the work list are as
  -- before, or the job is queued with one more retry and without an error and its ID is at the list's
  -- front; never one without the other. If it succeeds, the job had failed and the second is the case;
  -- if it refuses the job, the job had not failed.
  pub increment_retry_lem :
      (now : ℕ) (job : DownloadJob) (s : Server redis)
      → stored.content s (job_key job.id) ≡ some job
      → Retried now job.id job (items s key_job_queue) (increment_retry redis now job.id s)
  unfolding increment_retry
  increment_retry_lem now job s h =
      let read = (get_job redis job.id s).0 in
      let content : stored.content read (job_key job.id) ≡ some job =
        unfold get_job in stored.get_keeps s (job_key job.id) (job_key job.id) ∙ h in
      let list : items read key_job_queue ≡ items s key_job_queue =
        unfold get_job in laws.get_items s (job_key job.id) key_job_queue in
      elim (get_job-answers job.id s job h) [
        | inr failed ↦
            rw (failed, increment_retry)
              (inr (content, list), λ e. absurd (cc e), λ e. absurd (cc e))
        | inl answered ↦
            rw (answered, increment_retry)
              (subst (λ l. Retried now job.id job l (requeue_failed redis now job.id job read)) list
                (requeue_failed-Retried now job read content))
      ]

  abbrev pub restarted : ℕ → DownloadJob → DownloadJob
  restarted now job = record (queued_again now job) { progress = pos 0 }

  -- PrepareRetry kept the work list, and the job or restarted it; it refuses only a job that has ended.
  abbrev pub Prepared : ℕ → DownloadJob → List Text → Server redis × Result DownloadJob → Type 0
  Prepared now job list (s', result) =
      let prepared = restarted now job in
      (Holds s' job.id job list ⊎ ((is_terminal job ≡ false) × Holds s' job.id prepared list))
      × ((after : DownloadJob)
          → result ≡ ok after
          → (is_terminal job ≡ false) × (after ≡ prepared) × Holds s' job.id prepared list)
      × (result ≡ err job_not_retryable → is_terminal job ≡ true)

  -- What a save and its event leave, whether or not they report an error.
  save_and_publish_lem :
      (job : DownloadJob) (s : Server redis)
      → let (s', result) = save_and_publish redis job s in
        (items s' key_job_queue ≡ items s key_job_queue)
        × ((stored.content s' (job_key job.id) ≡ some job)
            ⊎ (stored.content s' (job_key job.id) ≡ stored.content s (job_key job.id)))
        × (result ≡ ok tt → stored.content s' (job_key job.id) ≡ some job)
        × (result ≢ err job_not_retryable)
  unfolding save_and_publish save_job publish_progress
  save_and_publish_lem job s =
      let key = job_key job.id in
      let saved = (redis.values.put s key job).0 in
      let channel = progress_channel job.user_id in
      let list = laws.put_items s key key_job_queue job in
      let sent = laws.publish_content saved channel job key in
      elim (Bool-cases (redis.values.put s key job).1) [
        | inr broken ↦
            rw (broken, save_and_publish)
              (list, stored.put_fails s key job broken, λ e. absurd (cc e), λ e. cc e)
        | inl done ↦
            let content = sent ∙ stored.put_stores s key job done in
            let kept = laws.publish_items saved channel job key_job_queue ∙ list in
            elim (Bool-cases (redis.publish saved channel job).1) [
              | inl published ↦
                  rw (done, save_and_publish, published)
                    (kept, inl content, λ e. content, λ e. cc e)
              | inr unpublished ↦
                  rw (done, save_and_publish, unpublished)
                    (kept, inl content, λ e. content, λ e. cc e)
            ]
      ]

  returning :
      (job : DownloadJob) (r : Server redis × Result (Unit {0}))
      → let r' = resume redis (λ u s'. (s', ok job)) r in
        (r'.0 ≡ r.0)
        × ((after : DownloadJob) → r'.1 ≡ ok after → (after ≡ job) × (r.1 ≡ ok tt))
        × (r'.1 ≡ err job_not_retryable → r.1 ≡ err job_not_retryable)
  returning job (s, ok u) = (refl, λ after h. (cc h, refl), λ h. absurd (cc h))
  returning job (s, err e) = (refl, λ after h. absurd (cc h), λ h. cc h)

  prepare_running :
      (now : ℕ) (job : DownloadJob) (s : Server redis)
      → is_terminal job ≡ false
      → let prepared = restarted now job in
        prepare_found redis now job s
        ≡ resume redis (λ u s'. (s', ok prepared)) (save_and_publish redis prepared s)
  unfolding prepare_found retried
  prepare_running now job s running = ground (arith, running)

  prepare_found-Prepared :
      (now : ℕ) (job : DownloadJob) (s : Server redis)
      → stored.content s (job_key job.id) ≡ some job
      → Prepared now job (items s key_job_queue) (prepare_found redis now job s)
  unfolding prepare_found retried
  prepare_found-Prepared now job s h =
      let prepared = restarted now job in
      let saved = save_and_publish redis prepared s in
      elim (Bool-cases (is_terminal job)) [
        | inl ended ↦ rw (ended, prepare_found) (inl (h, refl), λ after e. absurd (cc e), λ e. refl)
        | inr running ↦
            let (kept, either, done, kind) = save_and_publish_lem prepared s in
            let (server, outcome, refusal) = returning prepared saved in
            let at = ap (λ t. stored.content t (job_key job.id)) server in
            let list = ap (λ t. items t key_job_queue) server ∙ kept in
            rw (prepare_running now job s running) (
              elim either [
                | inl written ↦ inr (running, (at ∙ written, list))
                | inr same ↦ inl (at ∙ same ∙ h, list)
              ],
              λ after e.
                  let (returned, saved_ok) = outcome after e in
                  (running, returned, (at ∙ done saved_ok, list)),
              λ e. absurd (kind (refusal e)),
            )
      ]

  -- PrepareRetry of a stored job, whatever errors Redis reports: the work list is as before, and so
  -- is the job, or it had not ended and is queued with one more retry, without an error or progress. If
  -- it succeeds, the second is the case, and it returns that job; if it refuses the job, the job had
  -- ended.
  pub prepare_retry_lem :
      (now : ℕ) (job : DownloadJob) (s : Server redis)
      → stored.content s (job_key job.id) ≡ some job
      → Prepared now job (items s key_job_queue) (prepare_retry redis now job.id s)
  unfolding prepare_retry
  prepare_retry_lem now job s h =
      let read = (get_job redis job.id s).0 in
      let content : stored.content read (job_key job.id) ≡ some job =
        unfold get_job in stored.get_keeps s (job_key job.id) (job_key job.id) ∙ h in
      let list : items read key_job_queue ≡ items s key_job_queue =
        unfold get_job in laws.get_items s (job_key job.id) key_job_queue in
      elim (get_job-answers job.id s job h) [
        | inr failed ↦
            rw (failed, prepare_retry)
              (inl (content, list), λ after e. absurd (cc e), λ e. absurd (cc e))
        | inl answered ↦
            rw (answered, prepare_retry)
              (subst (λ l. Prepared now job l (prepare_found redis now job read)) list
                (prepare_found-Prepared now job read content))
      ]
