-- ===== src/PlayQueue/Recalculate.antt =====
-- backend/internal/queue/queue.go: what recalculatePositions establishes and what it leaves alone.
use open_music_player.Prelude.{
  ℕ, suc, ◌≡◌, refl, ap, true, false, Option, List, [], ◌∷◌, map, arith, length, All, Text, text_eq,
  text_eq_iff, is_some, ℤ,
}
use open_music_player.PlayQueue.Types.{
  SourceCandidate, QueueItem, playable, failed, pending_download,
}
use open_music_player.PlayQueue.Edit.{recalculate_item, recalculate_from}

-- What makes an item the item that it is: everything that no move in the queue may change.
pub record Identity : Type 0 where
  pub id : Text
  pub track_id : Option ℤ
  pub download_job_id : Text
  pub source : Option SourceCandidate
  pub added_at : ℕ

abbrev pub identity : QueueItem → Identity
identity x = record {
  id = x.id;
  track_id = x.track_id;
  download_job_id = x.download_job_id;
  source = x.source;
  added_at = x.added_at;
}

abbrev pub identities : List QueueItem → List Identity
identities = map identity

-- The stored positions are the indices, from `i` on.
abbrev pub Numbered : ℕ → List QueueItem → Type 0
Numbered i [] = Unit {0}
Numbered i (x ∷ xs) = (x.position ≡ i) × Numbered (suc i) xs

-- The fields that a client reads agree with each other.
pub record IsSettled (x : QueueItem) : Type 0 where
  pub removable : x.can_remove ≡ true
  pub named : text_eq x.kind [] ≡ false
  pub projected : text_eq x.playback_state pending_download ≡ false
  pub stated : text_eq x.playback_state [] ≡ false
  pub retryable :
      text_eq x.playback_state failed ≡ true → (x.can_retry ≡ true) × (x.can_play ≡ false)
  pub ready :
      is_some x.track_id ≡ true
      → text_eq x.playback_state playable ≡ true
      → (x.can_play ≡ true) × (x.progress ≡ 100)

pub recalculate_item-IsSettled : (now i : ℕ) (x : QueueItem) → IsSettled (recalculate_item now i x)
unfolding recalculate_item text_eq
recalculate_item-IsSettled now i x = ground (
  arith,
  text_eq_iff x.playback_state failed,
  text_eq_iff x.playback_state playable,
  text_eq_iff x.playback_state pending_download,
)

pub recalculate_from-identities :
    (now i : ℕ) (xs : List QueueItem) → identities (recalculate_from now i xs) ≡ identities xs
unfolding recalculate_from recalculate_item
recalculate_from-identities now i [] = refl
recalculate_from-identities now i (x ∷ xs) =
    ap (◌∷◌ (identity x)) (recalculate_from-identities now (suc i) xs)

pub recalculate_from-Numbered :
    (now i : ℕ) (xs : List QueueItem) → Numbered i (recalculate_from now i xs)
unfolding recalculate_from recalculate_item
recalculate_from-Numbered now i [] = tt
recalculate_from-Numbered now i (x ∷ xs) = (refl, recalculate_from-Numbered now (suc i) xs)

pub recalculate_from-IsSettled :
    (now i : ℕ) (xs : List QueueItem) → All IsSettled (recalculate_from now i xs)
unfolding recalculate_from
recalculate_from-IsSettled now i [] = tt
recalculate_from-IsSettled now i (x ∷ xs) =
    (recalculate_item-IsSettled now i x, recalculate_from-IsSettled now (suc i) xs)

pub length-recalculate_from :
    (now i : ℕ) (xs : List QueueItem) → length (recalculate_from now i xs) ≡ length xs
unfolding recalculate_from
length-recalculate_from now i [] = refl
length-recalculate_from now i (x ∷ xs) = ap suc (length-recalculate_from now (suc i) xs)
