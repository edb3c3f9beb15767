-- ===== src/Download/Retry.antt =====
-- backend/internal/download/queue.go: IncrementRetry, PrepareRetry and PublishQueuedRetry.
use open_music_player.Prelude.{ℕ, not, if◌then◌else◌, Text, text_eq, pos}
use open_music_player.Redis.Queueing.{Queueing}
use open_music_player.Download.Job.{
  DownloadJob, ok, err, job_not_retryable, is_terminal, status_queued, status_failed,
}
use open_music_player.Download.Update.{key_job_queue, job_key, retried}
use open_music_player.Download.Queue.{Run, resume, stop, get_job, save_and_publish, restore_entry}

module _ (redis : Queueing DownloadJob) where
  unfoldable pub requeue_failed : ℕ → Text → DownloadJob → Run redis (Unit {0})
  requeue_failed now id job s =
      if not (text_eq job.status status_failed)
      then (s, err job_not_retryable)
      else stop redis (redis.put_push s (job_key job.id) (retried now job) key_job_queue id) tt

  unfoldable pub increment_retry : ℕ → Text → Run redis (Unit {0})
  unfolding requeue_failed
  increment_retry now id s = resume redis (requeue_failed now id) (get_job redis id s)

  unfoldable pub prepare_found : ℕ → DownloadJob → Run redis DownloadJob
  prepare_found now job s =
      if is_terminal job
      then (s, err job_not_retryable)
      else let prepared = record (retried now job) { progress = pos 0 } in
        resume redis (λ u s'. (s', ok prepared)) (save_and_publish redis prepared s)

  unfoldable pub prepare_retry : ℕ → Text → Run redis DownloadJob
  unfolding prepare_found
  prepare_retry now id s = resume redis (prepare_found now) (get_job redis id s)

  unfoldable pub publish_found : Text → DownloadJob → Run redis (Unit {0})
  publish_found id job s =
      if not (text_eq job.status status_queued)
      then (s, err job_not_retryable)
      else restore_entry redis id s

  unfoldable pub publish_queued_retry : Text → Run redis (Unit {0})
  unfolding publish_found
  publish_queued_retry id s = resume redis (publish_found id) (get_job redis id s)
