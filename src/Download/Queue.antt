-- ===== src/Download/Queue.antt =====
-- backend/internal/download/queue.go: the methods of Queue, as runs that thread the Redis server and
-- stop at the first error. The bytes of a job stand for the job; new IDs and clock readings are
-- arguments.
use open_music_player.Prelude.{
  ℕ, Bool, true, false, not, Option, none, some, if◌then◌else◌, Text, text_eq, ℤ,
}
use open_music_player.Redis.{Reply, found, missing, fault}
use open_music_player.Redis.Queueing.{Queueing}
use open_music_player.Download.Job.{
  DownloadJob, SourceCandidate, ImportTarget, no_target, Result, ok, err, job_not_found,
  queue_empty, other_user, import_mismatch, store_failure, is_terminal,
}
use open_music_player.Download.Update.{
  key_job_queue, job_key, progress_channel, plain_job, candidate_job, fresh_job, Times, with_status,
  has_target,
}

module _ (redis : Queueing DownloadJob) where
  abbrev pub Server : Type 0
  Server = redis.values.Server

  abbrev pub Run : Type 0 → Type 0
  Run A = Server → Server × Result A

  -- What comes after a call.
  abbrev pub resume :
      {A : Type 0} {B : Type 0} → (A → Run B) → Server × Result A → Server × Result B
  resume f (s, ok a) = f a s
  resume f (s, err e) = (s, err e)

  abbrev pub stop : {A : Type 0} → Server × Bool → A → Server × Result A
  stop (s, true) a = (s, ok a)
  stop (s, false) a = (s, err store_failure)

  -- GetJob
  unfoldable pub job_reply : Reply DownloadJob → Result DownloadJob
  job_reply (found job) = ok job
  job_reply missing = err job_not_found
  job_reply fault = err store_failure

  unfoldable pub get_job : Text → Run DownloadJob
  unfolding job_reply
  get_job id s = let (s', reply) = redis.values.get s (job_key id) in (s', job_reply reply)

  unfoldable pub save_job : DownloadJob → Run (Unit {0})
  save_job job s = stop (redis.values.put s (job_key job.id) job) tt

  unfoldable pub publish_progress : DownloadJob → Run (Unit {0})
  publish_progress job s = stop (redis.publish s (progress_channel job.user_id) job) tt

  unfoldable pub save_and_publish : DownloadJob → Run (Unit {0})
  unfolding save_job publish_progress
  save_and_publish job s = resume (λ u. publish_progress job) (save_job job s)

  unfoldable pub push_new : DownloadJob → Run DownloadJob
  push_new job s =
      let (s', pushed) = redis.push s key_job_queue job.id in
      elim pushed [
        | true ↦ (s', ok job)
        | false ↦ ((redis.values.del s' (job_key job.id)).0, err store_failure)
      ]

  unfoldable pub enqueue_job : Text → ℕ → DownloadJob → Run DownloadJob
  unfolding save_job push_new
  enqueue_job fresh now job s =
      let made = fresh_job fresh now job in resume (λ u. push_new made) (save_job made s)

  unfoldable pub enqueue : Text → ℕ → Text → Text → Text → Option Text → Run DownloadJob
  unfolding enqueue_job
  enqueue fresh now user url source_type recording =
      enqueue_job fresh now (plain_job user url source_type recording)

  -- EnqueueCandidate is this without an ID.
  unfoldable pub enqueue_candidate_with_id :
      Text → ℕ → Text → Text → SourceCandidate → Option Text → Run DownloadJob
  unfolding enqueue_job
  enqueue_candidate_with_id fresh now id user candidate recording =
      enqueue_job fresh now (candidate_job id user candidate recording no_target)

  -- EnqueuePlaylistImportItem is this without an ID.
  unfoldable pub enqueue_playlist_import_item_with_id :
      Text → ℕ → Text → Text → SourceCandidate → ImportTarget → Run DownloadJob
  unfolding enqueue_job
  enqueue_playlist_import_item_with_id fresh now id user candidate target =
      enqueue_job fresh now (candidate_job id user candidate none target)

  -- The switch on LPos: the entry is restored if the list has none.
  unfoldable pub restore_entry : Text → Run (Unit {0})
  restore_entry id s =
      let (s', position) = redis.find s key_job_queue id in
      elim position [
        | found u ↦ (s', ok tt)
        | missing ↦ stop (redis.push s' key_job_queue id) tt
        | fault ↦ (s', err store_failure)
      ]

  -- EnsureCandidateWithID on the job that GetJob found.
  unfoldable pub ensure_found : Text → Text → DownloadJob → Run DownloadJob
  unfolding restore_entry
  ensure_found id user job s =
      if not (text_eq job.user_id user)
      then (s, err other_user)
      else if not (is_terminal job)
      then resume (λ u s'. (s', ok job)) (restore_entry id s)
      else (s, ok job)

  -- What is done with the job that GetJob found, or without one.
  unfoldable pub ensure_reply :
      Run DownloadJob
      → (DownloadJob → Run DownloadJob)
      → Server × Result DownloadJob
      → Server × Result DownloadJob
  ensure_reply enqueues known (s, ok job) = known job s
  ensure_reply enqueues known (s, err job_not_found) = enqueues s
  ensure_reply enqueues known (s, err e) = (s, err e)

  unfoldable pub ensure_candidate_with_id :
      Text → ℕ → Text → Text → SourceCandidate → Option Text → Run DownloadJob
  unfolding get_job ensure_found ensure_reply enqueue_candidate_with_id
  ensure_candidate_with_id fresh now id user candidate recording s =
      ensure_reply (enqueue_candidate_with_id fresh now id user candidate recording)
        (ensure_found id user) (get_job id s)

  -- EnsurePlaylistImportItemWithID
  unfoldable pub ensure_import_found : Text → Text → ImportTarget → DownloadJob → Run DownloadJob
  unfolding restore_entry
  ensure_import_found id user target job s =
      if not (text_eq job.user_id user)
      then (s, err other_user)
      else if not (is_terminal job)
      then (if not (has_target target job)
          then (s, err import_mismatch)
          else resume (λ u s'. (s', ok job)) (restore_entry id s))
      else (s, ok job)

  unfoldable pub ensure_playlist_import_item_with_id :
      Text → ℕ → Text → Text → SourceCandidate → ImportTarget → Run DownloadJob
  unfolding get_job ensure_import_found ensure_reply enqueue_playlist_import_item_with_id
  ensure_playlist_import_item_with_id fresh now id user candidate target s =
      ensure_reply (enqueue_playlist_import_item_with_id fresh now id user candidate target)
        (ensure_import_found id user target) (get_job id s)

  -- BRPop gives the list's oldest ID, whose job is then read.
  unfoldable pub dequeue : Run DownloadJob
  unfolding get_job
  dequeue s =
      let (s', popped) = redis.pop s key_job_queue in
      elim popped [
        | found id ↦ get_job id s'
        | missing ↦ (s', err queue_empty)
        | fault ↦ (s', err store_failure)
      ]

  unfoldable pub update_status : Times → Text → Text → ℤ → Text → Run (Unit {0})
  unfolding get_job save_and_publish
  update_status times id status progress message s =
      resume (λ job. save_and_publish (with_status times status progress message job))
        (get_job id s)

  unfoldable pub update_track_id : ℕ → Text → ℤ → Run (Unit {0})
  unfolding get_job save_and_publish
  update_track_id now id track s =
      resume (λ job. save_and_publish (record job { track_id = some track; updated_at = now }))
        (get_job id s)
