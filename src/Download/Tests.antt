-- ===== src/Download/Tests.antt =====
-- Runs of the download queue and its worker of backend/internal/download against a server in memory.
use open_music_player.Prelude.{
  ℕ, ◌≡◌, refl, false, none, some, [], ◌∷◌, Text, codes, text_eq, pos, negsuc, ◌++◌,
}
use open_music_player.Redis.Queueing.{listed}
use open_music_player.Redis.QueueMemory.{
  Contents, queue_memory, queue_memory-laws, queue_memory-IsReliable,
}
use open_music_player.Download.Job.{
  DownloadJob, SourceCandidate, ok, is_terminal, status_queued, status_failed,
}
use open_music_player.Download.Update.{
  plain_job, key_job_queue, job_key, with_status, retried, fresh_job,
}
use open_music_player.Download.Queue.{
  get_job, job_reply, update_status, save_job, save_and_publish, publish_progress, restore_entry,
  ensure_candidate_with_id, enqueue_job, push_new, dequeue,
}
use open_music_player.Download.Retry.{
  increment_retry, prepare_retry, prepare_found, publish_queued_retry, publish_found,
}
use open_music_player.Download.Worker.{
  reports, JobTimes, WorkerPool, process_job, is_retryable, handle_job_failure, retry_job,
  retry_in_queue, requeue_job, sync_job, run_processor, run_acts, report_progress, finish_job,
}
use open_music_player.Download.Outcome.{Outcome, process_job_lem}
use open_music_player.Download.Entries.{
  Keeps, IsListed, publish_queued_retry_lem, ensure_candidate_with_id_lem,
}
use open_music_player.Download.Order.{enqueue_job_lem, dequeue_lem}
use open_music_player.Download.Requeue.{Retried, increment_retry_lem, Prepared, prepare_retry_lem}
use open_music_player.Download.Backoff.{wrap_int64, calculate_backoff}

abbrev job_id : Text
job_id = codes "j"

abbrev job_with : Text → ℕ → DownloadJob
job_with status count =
    record (unfold plain_job in plain_job (codes "u") (codes "url") (codes "yt") none) {
      id = job_id;
      status = status;
      retry_count = count;
    }

-- Redis with one job under every key, which no list has.
abbrev server_with : DownloadJob → Contents DownloadJob
server_with job = ((λ k. some job), λ l. [])

abbrev queued_job : DownloadJob
queued_job = job_with status_queued 1

abbrev failed_once : DownloadJob
failed_once = job_with status_failed 1

abbrev candidate : SourceCandidate
candidate = record {
  candidate_id = codes "c";
  provider = codes "yt";
  source_id = [];
  source_url = codes "url";
  title = [];
  artist = [];
  album = [];
  uploader = [];
  duration_ms = pos 0;
  thumbnail_url = [];
  metadata = [];
}

abbrev times : JobTimes
times = record {
  start = record { updated = 1; marked = 1 };
  report = λ n. record { updated = 2; marked = 2 };
  track = 3;
  retry = 4;
  settle = record { updated = 5; marked = 5 };
}

-- The processor reports half and then fails.
abbrev pool : WorkerPool (Unit {0})
pool = record {
  max_retries = 3;
  lifecycle = none;
  processor =
      λ job. (reports (pos 50) ∷ [], some (record { message = codes "network"; class = none }));
  describe = λ e. [];
}

process_job_lem_example :
    Outcome
      (queue_memory-IsReliable DownloadJob)
      pool
      times
      (process_job (queue_memory DownloadJob) pool times queued_job (server_with queued_job, tt))
      job_id
      1
process_job_lem_example =
    process_job_lem (queue_memory-IsReliable DownloadJob) pool times queued_job queued_job
      (server_with queued_job) tt (refl, refl) refl

-- The run lists the job again.
lists_again :
    (process_job (queue_memory DownloadJob) pool times queued_job (server_with queued_job, tt)).0.1
      key_job_queue
    ≡ job_id ∷ []
unfolding process_job update_status get_job job_reply save_and_publish save_job publish_progress
    with_status sync_job run_processor run_acts report_progress finish_job handle_job_failure
    is_retryable retry_job requeue_job retry_in_queue prepare_retry prepare_found is_terminal
    retried publish_queued_retry publish_found restore_entry listed text_eq
lists_again = refl

increment_retry_lem_example :
    Retried
      (queue_memory-laws DownloadJob)
      9
      job_id
      failed_once
      []
      (increment_retry (queue_memory DownloadJob) 9 job_id (server_with failed_once))
increment_retry_lem_example =
    increment_retry_lem (queue_memory-laws DownloadJob) 9 failed_once (server_with failed_once) refl

prepare_retry_lem_example :
    Prepared
      (queue_memory-laws DownloadJob)
      9
      queued_job
      []
      (prepare_retry (queue_memory DownloadJob) 9 job_id (server_with queued_job))
prepare_retry_lem_example =
    prepare_retry_lem (queue_memory-laws DownloadJob) 9 queued_job (server_with queued_job) refl

publish_queued_retry_lem_example :
    let s = server_with queued_job in
    let after = publish_queued_retry (queue_memory DownloadJob) job_id s in
    Keeps (queue_memory-laws DownloadJob) s after.0
    × (after.1 ≡ ok tt
        → ((job : DownloadJob) × (s.0 (job_key job_id) ≡ some job)
            × (job.status ≡ status_queued)
            × IsListed (queue_memory-laws DownloadJob) job_id after.0))
publish_queued_retry_lem_example =
    publish_queued_retry_lem (queue_memory-laws DownloadJob) job_id (server_with queued_job)

ensure_candidate_with_id_lem_example :
    let s = server_with queued_job in
    let (s', result) =
      ensure_candidate_with_id
        (queue_memory DownloadJob)
        []
        9
        job_id
        (codes "u")
        candidate
        none
        s in
    Keeps (queue_memory-laws DownloadJob) s s'
    × ((after : DownloadJob)
        → result ≡ ok after
        → (after ≡ queued_job)
          × (queued_job.user_id ≡ codes "u")
          × (is_terminal queued_job ≡ false → IsListed (queue_memory-laws DownloadJob) job_id s'))
ensure_candidate_with_id_lem_example =
    ensure_candidate_with_id_lem (queue_memory-laws DownloadJob) [] 9 job_id (codes "u") candidate
      none (server_with queued_job) queued_job refl

-- The 35th retry's wait is negative, past the cap.
waits_negative : calculate_backoff 34 ≡ negsuc 1266874889709551615
unfolding calculate_backoff wrap_int64
waits_negative = refl

enqueues :
    (enqueue_job (queue_memory DownloadJob) [] 9 queued_job (server_with failed_once)).1
    ≡ ok (fresh_job [] 9 queued_job)
unfolding enqueue_job save_job push_new
enqueues = refl

enqueue_job_lem_example :
    let after =
      (enqueue_job (queue_memory DownloadJob) [] 9 queued_job (server_with failed_once)).0 in
    let made = fresh_job [] 9 queued_job in
    (made ≡ made) × (after.0 (job_key made.id) ≡ some made) × (after.1 key_job_queue ≡ made.id ∷ [])
enqueue_job_lem_example =
    enqueue_job_lem (queue_memory-laws DownloadJob) [] 9 queued_job (fresh_job [] 9 queued_job)
      (server_with failed_once) enqueues

-- Two IDs wait, the newer one in front.
abbrev two_waiting : Contents DownloadJob
two_waiting = ((λ k. some queued_job), λ l. codes "new" ∷ codes "old" ∷ [])

dequeues : (dequeue (queue_memory DownloadJob) two_waiting).1 ≡ ok queued_job
unfolding dequeue get_job job_reply
dequeues = refl

dequeue_lem_example :
    (id : Text) × (codes "new" ∷ codes "old" ∷ []
      ≡ (dequeue (queue_memory DownloadJob) two_waiting).0.1 key_job_queue ++ (id ∷ []))
    × (two_waiting.0 (job_key id) ≡ some queued_job)
dequeue_lem_example = dequeue_lem (queue_memory-laws DownloadJob) queued_job two_waiting dequeues
