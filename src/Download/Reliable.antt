-- ===== src/Download/Reliable.antt =====
-- backend/internal/download/queue.go: what the methods do while Redis reports no errors.
use open_music_player.Prelude.{
  ℕ, ◌≡◌, refl, ap, ◌∙◌, sym, inl, inr, true, false, some, List, ◌∷◌, Text, text_eq_refl, ℤ,
  Bool-cases, arith, pos,
}
use open_music_player.Redis.Queueing.{Queueing, QueueingLaws, IsReliable, listed}
use open_music_player.Download.Job.{
  DownloadJob, ok, err, job_not_retryable, is_terminal, status_queued,
}
use open_music_player.Download.Update.{
  Times, key_job_queue, job_key, progress_channel, with_status, retried,
}
use open_music_player.Download.Queue.{
  Server, resume, get_job, save_job, publish_progress, save_and_publish, restore_entry,
  update_status, update_track_id,
}
use open_music_player.Download.Retry.{
  prepare_found, prepare_retry, publish_found, publish_queued_retry,
}

module _ {redis : Queueing DownloadJob} {laws : QueueingLaws redis}
    (reliable : IsReliable laws) where
  open laws use {stored, items}

  -- Redis holds the job under the ID.
  abbrev pub HasJob : Server redis → Text → DownloadJob → Type 0
  HasJob s id job = (stored.content s (job_key id) ≡ some job) × (job.id ≡ id)

  get_job-runs :
      (s : Server redis) (id : Text) (job : DownloadJob)
      → stored.content s (job_key id) ≡ some job
      → get_job redis id s ≡ ((redis.values.get s (job_key id)).0, ok job)
  unfolding get_job
  get_job-runs s id job h = rw (reliable.gets s (job_key id), h) refl

  save_and_publish-runs :
      (s : Server redis) (job : DownloadJob)
      → (s' : Server redis) × (save_and_publish redis job s ≡ (s', ok tt))
        × (stored.content s' (job_key job.id) ≡ some job)
        × (items s' key_job_queue ≡ items s key_job_queue)
  unfolding save_and_publish save_job publish_progress
  save_and_publish-runs s job =
      let key = job_key job.id in
      let saved = (redis.values.put s key job).0 in
      let channel = progress_channel job.user_id in
      (
        (redis.publish saved channel job).0,
        ground (arith, reliable.puts s key job, reliable.publishes saved channel job),
        laws.publish_content saved channel job key
            ∙ stored.put_stores s key job (reliable.puts s key job),
        laws.publish_items saved channel job key_job_queue ∙ laws.put_items s key key_job_queue job,
      )

  -- UpdateStatus on a stored job.
  pub update_status-runs :
      (times : Times) (id status : Text) (progress : ℤ) (message : Text) (s : Server redis)
      (job : DownloadJob)
      → HasJob s id job
      → (s' : Server redis) × (update_status redis times id status progress message s ≡ (s', ok tt))
        × HasJob s' id (with_status times status progress message job)
        × (items s' key_job_queue ≡ items s key_job_queue)
  unfolding update_status
  update_status-runs times id status progress message s job h =
      let read = (redis.values.get s (job_key id)).0 in
      let updated = with_status times status progress message job in
      let (s', run, content, kept) = save_and_publish-runs read updated in
      let same : updated.id ≡ id = unfold with_status in h.1 in
      (
        s',
        ap
              (resume redis
                (λ j. save_and_publish redis (with_status times status progress message j)))
              (get_job-runs s id job h.0)
            ∙ run,
        (ap (λ x. stored.content s' (job_key x)) (sym same) ∙ content, same),
        kept ∙ laws.get_items s (job_key id) key_job_queue,
      )

  -- UpdateTrackID on a stored job.
  pub update_track_id-runs :
      (now : ℕ) (id : Text) (track : ℤ) (s : Server redis) (job : DownloadJob)
      → HasJob s id job
      → (s' : Server redis) × (update_track_id redis now id track s ≡ (s', ok tt))
        × HasJob s' id (record job { track_id = some track; updated_at = now })
        × (items s' key_job_queue ≡ items s key_job_queue)
  unfolding update_track_id
  update_track_id-runs now id track s job h =
      let read = (redis.values.get s (job_key id)).0 in
      let updated = record job { track_id = some track; updated_at = now } in
      let (s', run, content, kept) = save_and_publish-runs read updated in
      (
        s',
        ap
              (resume redis (λ j.
                save_and_publish redis (record j { track_id = some track; updated_at = now })))
              (get_job-runs s id job h.0)
            ∙ run,
        (ap (λ x. stored.content s' (job_key x)) (sym h.1) ∙ content, h.1),
        kept ∙ laws.get_items s (job_key id) key_job_queue,
      )

  -- PrepareRetry on a stored job that is terminal.
  pub prepare_retry-refuses :
      (now : ℕ) (id : Text) (s : Server redis) (job : DownloadJob)
      → HasJob s id job
      → is_terminal job ≡ true
      → (s' : Server redis) × (prepare_retry redis now id s ≡ (s', err job_not_retryable))
        × HasJob s' id job
  unfolding prepare_retry prepare_found
  prepare_retry-refuses now id s job h terminal = (
    (redis.values.get s (job_key id)).0,
    ap (resume redis (prepare_found redis now)) (get_job-runs s id job h.0)
        ∙ ground (arith, terminal),
    (stored.get_keeps s (job_key id) (job_key id) ∙ h.0, h.1),
  )

  -- PrepareRetry on a stored job that is not.
  pub prepare_retry-runs :
      (now : ℕ) (id : Text) (s : Server redis) (job : DownloadJob)
      → HasJob s id job
      → is_terminal job ≡ false
      → let prepared = record (retried now job) { progress = pos 0 } in
        (s' : Server redis) × (prepare_retry redis now id s ≡ (s', ok prepared))
        × HasJob s' id prepared
  unfolding prepare_retry prepare_found
  prepare_retry-runs now id s job h running =
      let read = (redis.values.get s (job_key id)).0 in
      let prepared = record (retried now job) { progress = pos 0 } in
      let (s', run, content, kept) = save_and_publish-runs read prepared in
      let same : prepared.id ≡ id = unfold retried in h.1 in
      (
        s',
        ap (resume redis (prepare_found redis now)) (get_job-runs s id job h.0)
            ∙ rw (running, prepare_found) (ap (resume redis (λ u after. (after, ok prepared))) run),
        (ap (λ x. stored.content s' (job_key x)) (sym same) ∙ content, same),
      )

  listed_head : (x : Text) (xs : List Text) → listed x (x ∷ xs) ≡ true
  unfolding listed
  listed_head x xs = ground (arith, text_eq_refl x)

  restore_entry-runs :
      (id : Text) (s : Server redis)
      → (s' : Server redis) × (restore_entry redis id s ≡ (s', ok tt))
        × ((k : Text) → stored.content s' k ≡ stored.content s k)
        × (listed id (items s' key_job_queue) ≡ true)
  unfolding restore_entry
  restore_entry-runs id s =
      let looked = (redis.find s key_job_queue id).0 in
      let unchanged = laws.find_items s key_job_queue id key_job_queue in
      elim (Bool-cases (listed id (items s key_job_queue))) [
        | inl there ↦ (
          looked,
          ground (arith, there, reliable.finds s key_job_queue id),
          laws.find_content s key_job_queue id,
          ap (listed id) unchanged ∙ there,
        )
        | inr absent ↦
            let pushed = (redis.push looked key_job_queue id).0 in
            (
              pushed,
              ground (
                arith,
                absent,
                reliable.finds s key_job_queue id,
                reliable.pushes looked key_job_queue id,
              ),
              (λ k.
                  laws.push_content looked key_job_queue id k
                  ∙ laws.find_content s key_job_queue id k),
              ap (listed id) (
                    laws.push_pushes looked key_job_queue id
                      (reliable.pushes looked key_job_queue id))
                  ∙ listed_head id _,
            )
      ]

  -- PublishQueuedRetry on a stored job that is queued.
  pub publish_queued_retry-runs :
      (id : Text) (s : Server redis) (job : DownloadJob)
      → HasJob s id job
      → job.status ≡ status_queued
      → (s' : Server redis) × (publish_queued_retry redis id s ≡ (s', ok tt))
        × HasJob s' id job
        × (listed id (items s' key_job_queue) ≡ true)
  unfolding publish_queued_retry publish_found
  publish_queued_retry-runs id s job h queued =
      let read = (redis.values.get s (job_key id)).0 in
      let (s', run, content, there) = restore_entry-runs id read in
      (
        s',
        ap (resume redis (publish_found redis id)) (get_job-runs s id job h.0)
            ∙ rw (queued, text_eq_refl status_queued, publish_found) run,
        (content (job_key id) ∙ stored.get_keeps s (job_key id) (job_key id) ∙ h.0, h.1),
        there,
      )
