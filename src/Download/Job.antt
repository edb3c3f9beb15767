-- ===== src/Download/Job.antt =====
-- backend/internal/download/job.go: a job and its status; the structs and errors of queue.go.
use open_music_player.Prelude.{
  ◌≡◌, refl, ◌⊎◌, inl, inr, ℕ, Bool, ◌&&◌, ◌||◌, Option, Text, codes, text_eq, ℤ, pos, ltb_ℤ,
}

abbrev pub status_queued : Text
status_queued = codes "queued"

abbrev pub status_downloading : Text
status_downloading = codes "downloading"

abbrev pub status_processing : Text
status_processing = codes "processing"

abbrev pub status_uploading : Text
status_uploading = codes "uploading"

abbrev pub status_complete : Text
status_complete = codes "complete"

abbrev pub status_failed : Text
status_failed = codes "failed"

-- `metadata` is its JSON text.
pub record DownloadJob : Type 0 where
  pub id : Text
  pub user_id : Text
  pub url : Text
  pub source_type : Text
  pub status : Text
  pub progress : ℤ
  pub error : Text
  pub retry_count : ℕ
  pub mb_recording_id : Option Text
  pub track_id : Option ℤ
  pub candidate_id : Text
  pub source_id : Text
  pub title : Text
  pub artist : Text
  pub album : Text
  pub uploader : Text
  pub duration_ms : ℤ
  pub thumbnail_url : Text
  pub metadata : Text
  pub playlist_import_job_id : Text
  pub playlist_import_item_id : ℤ
  pub playlist_id : ℤ
  pub playlist_position : ℤ
  pub created_at : ℕ
  pub updated_at : ℕ
  pub started_at : Option ℕ
  pub completed_at : Option ℕ

unfoldable pub is_terminal : DownloadJob → Bool
is_terminal job = text_eq job.status status_complete || text_eq job.status status_failed

unfoldable pub can_retry : DownloadJob → ℤ → Bool
can_retry job max_retries =
    text_eq job.status status_failed && ltb_ℤ (pos job.retry_count) max_retries

pub record SourceCandidate : Type 0 where
  pub candidate_id : Text
  pub provider : Text
  pub source_id : Text
  pub source_url : Text
  pub title : Text
  pub artist : Text
  pub album : Text
  pub uploader : Text
  pub duration_ms : ℤ
  pub thumbnail_url : Text
  pub metadata : Text

-- The target of a playlist import; all zero for other jobs.
pub record ImportTarget : Type 0 where
  pub job_id : Text
  pub item_id : ℤ
  pub playlist_id : ℤ
  pub position : ℤ

abbrev pub no_target : ImportTarget
no_target = record { job_id = codes ""; item_id = pos 0; playlist_id = pos 0; position = pos 0 }

-- `store_failure` is an error of Redis.
pub data JobError : Type 0 where
  job_not_found queue_empty job_not_retryable other_user import_mismatch store_failure : JobError

pub data Result {ℓ} (A : Type ℓ) : Type ℓ where
  ok : A → Result A
  err : JobError → Result A

pub Result-cases {ℓ} :
    {A : Type ℓ} (r : Result A) → ((a : A) × (r ≡ ok a)) ⊎ ((e : JobError) × (r ≡ err e))
Result-cases (ok a) = inl (a, refl)
Result-cases (err e) = inr (e, refl)
