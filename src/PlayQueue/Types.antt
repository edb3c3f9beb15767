-- ===== src/PlayQueue/Types.antt =====
-- backend/internal/queue/queue.go: the structs, constants and errors. A time is a number, 0 being
-- Go's zero time; a string is a list of code points; a pointer that may be nil is an `Option`.
use open_music_player.Prelude.{◌≡◌, refl, ◌⊎◌, inl, inr, ℕ, Bool, Option, List, Text, codes, ℤ}

-- `metadata` is the JSON text of the map.
pub record SourceCandidate : Type 0 where
  pub candidate_id : Text
  pub provider : Text
  pub source_id : Text
  pub source_url : Text
  pub title : Text
  pub artist : Text
  pub album : Text
  pub uploader : Text
  pub duration_ms : ℕ
  pub thumbnail_url : Text
  pub downloadable : Bool
  pub metadata : Text

pub record QueueItem : Type 0 where
  pub id : Text
  pub position : ℕ
  pub kind : Text
  pub track_id : Option ℤ
  pub playback_state : Text
  pub download_job_id : Text
  pub source : Option SourceCandidate
  pub progress : ℕ
  pub error : Text
  pub can_play : Bool
  pub can_retry : Bool
  pub can_remove : Bool
  pub added_at : ℕ
  pub updated_at : ℕ

pub record QueueState : Type 0 where
  pub items : List QueueItem
  pub current_position : ℕ
  pub updated_at : ℕ

pub data QueueError : Type 0 where
  invalid_position track_not_found store_failure : QueueError

pub data Result {ℓ} (A : Type ℓ) : Type ℓ where
  ok : A → Result A
  err : QueueError → Result A

infixl 5 ◌>>=◌
abbrev pub ◌>>=◌ {ℓ κ} : {A : Type ℓ} {B : Type κ} → Result A → (A → Result B) → Result B
ok a >>= f = f a
err e >>= f = err e

abbrev pub track_kind : Text
track_kind = codes "track"

abbrev pub source_kind : Text
source_kind = codes "source"

abbrev pub playable : Text
playable = codes "playable"

abbrev pub queued : Text
queued = codes "queued"

abbrev pub failed : Text
failed = codes "failed"

abbrev pub pending_download : Text
pending_download = codes "pendingDownload"

pub Result-cases {ℓ} :
    {A : Type ℓ} (r : Result A) → ((a : A) × (r ≡ ok a)) ⊎ ((e : QueueError) × (r ≡ err e))
Result-cases (ok a) = inl (a, refl)
Result-cases (err e) = inr (e, refl)
