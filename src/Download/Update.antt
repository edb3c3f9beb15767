-- ===== src/Download/Update.antt =====
-- backend/internal/download/queue.go: the keys, and how the methods make a job and change it.
use open_music_player.Prelude.{
  ℕ, suc, Bool, not, ◌&&◌, ◌||◌, Option, none, some, [], ◌++◌, if◌then◌else◌, is_some, Text, codes,
  text_eq, ℤ, pos, ltb_ℤ,
}
use open_music_player.Download.Job.{
  DownloadJob, SourceCandidate, ImportTarget, status_queued, status_downloading, status_complete,
  status_failed,
}

abbrev pub key_job_queue : Text
key_job_queue = codes "download:queue"

abbrev pub job_key : Text → Text
job_key id = codes "download:job:" ++ id

abbrev pub progress_channel : Text → Text
progress_channel user = codes "download:progress:" ++ user

-- The job of Enqueue.
unfoldable pub plain_job : Text → Text → Text → Option Text → DownloadJob
plain_job user url source_type recording = record {
  id = [];
  user_id = user;
  url = url;
  source_type = source_type;
  status = [];
  progress = pos 0;
  error = [];
  retry_count = 0;
  mb_recording_id = recording;
  track_id = none;
  candidate_id = [];
  source_id = [];
  title = [];
  artist = [];
  album = [];
  uploader = [];
  duration_ms = pos 0;
  thumbnail_url = [];
  metadata = [];
  playlist_import_job_id = [];
  playlist_import_item_id = pos 0;
  playlist_id = pos 0;
  playlist_position = pos 0;
  created_at = 0;
  updated_at = 0;
  started_at = none;
  completed_at = none;
}

-- The job of EnqueueCandidateWithID, and with a target that of EnqueuePlaylistImportItemWithID.
unfoldable pub candidate_job :
    Text → Text → SourceCandidate → Option Text → ImportTarget → DownloadJob
unfolding plain_job
candidate_job id user candidate recording target =
    record (plain_job user candidate.source_url candidate.provider recording) {
      id = id;
      candidate_id = candidate.candidate_id;
      source_id = candidate.source_id;
      title = candidate.title;
      artist = candidate.artist;
      album = candidate.album;
      uploader = candidate.uploader;
      duration_ms = candidate.duration_ms;
      thumbnail_url = candidate.thumbnail_url;
      metadata = candidate.metadata;
      playlist_import_job_id = target.job_id;
      playlist_import_item_id = target.item_id;
      playlist_id = target.playlist_id;
      playlist_position = target.position;
    }

-- How enqueueJob completes a job; `fresh` is the ID that it makes for one without.
unfoldable pub fresh_job : Text → ℕ → DownloadJob → DownloadJob
fresh_job fresh now job = record job {
  id = if text_eq job.id [] then fresh else job.id;
  status = status_queued;
  progress = pos 0;
  retry_count = 0;
  created_at = now;
  updated_at = now;
}

-- The clock readings of UpdateStatus: the update, and a start or a completion.
pub record Times : Type 0 where
  pub updated : ℕ
  pub marked : ℕ

unfoldable pub with_status : Times → Text → ℤ → Text → DownloadJob → DownloadJob
with_status times status progress message job = record job {
  status = status;
  progress = progress;
  error = message;
  updated_at = times.updated;
  started_at =
      if text_eq status status_downloading && not (is_some job.started_at)
      then some times.marked
      else job.started_at;
  completed_at =
      if text_eq status status_complete || text_eq status status_failed
      then some times.marked
      else job.completed_at;
}

-- IncrementRetry keeps the progress, PrepareRetry resets it.
unfoldable pub retried : ℕ → DownloadJob → DownloadJob
retried now job = record job {
  retry_count = suc job.retry_count;
  status = status_queued;
  error = [];
  updated_at = now;
}

unfoldable pub has_target : ImportTarget → DownloadJob → Bool
has_target target job =
    text_eq job.playlist_import_job_id target.job_id
    && same job.playlist_import_item_id target.item_id
    && same job.playlist_id target.playlist_id
    && same job.playlist_position target.position
  where
    same : ℤ → ℤ → Bool
    same a b = not (ltb_ℤ a b) && not (ltb_ℤ b a)
