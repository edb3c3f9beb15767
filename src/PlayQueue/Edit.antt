-- ===== src/PlayQueue/Edit.antt =====
-- backend/internal/queue/queue.go: what each method does to a queue that it has loaded. Clock
-- readings and new IDs are arguments, in the order in which the code takes them.
use open_music_player.Prelude.{
  ℕ, zero, suc, ◌+◌, ◌-◌, Bool, true, false, ◌&&◌, ◌||◌, Option, none, some, List, [], ◌∷◌, ◌++◌,
  ltb, leb, ◌==◌, if◌then◌else◌, length, get_elem?, take, drop, is_some, Text, codes, text_eq,
  trim_space, atoi, ℤ, pos, negsuc,
}
use open_music_player.PlayQueue.Types.{
  SourceCandidate, QueueItem, QueueState, Result, ok, err, ◌>>=◌, invalid_position, track_not_found,
  track_kind, source_kind, playable, queued, failed, pending_download,
}

-- `items[i] = item`
unfoldable pub write_at : List QueueItem → ℕ → QueueItem → List QueueItem
write_at [] i v = []
write_at (x ∷ xs) zero v = v ∷ xs
write_at (x ∷ xs) (suc i) v = x ∷ write_at xs i v

-- `append(items[:idx+1], items[idx:]...)`, then the write at `idx`.
unfoldable pub insert_at : List QueueItem → ℕ → QueueItem → List QueueItem
unfolding write_at
insert_at items idx item =
    if leb (length items) idx
    then items ++ item ∷ []
    else write_at (take (suc idx) items ++ drop idx items) idx item

unfoldable pub insert_multiple_at : List QueueItem → ℕ → List QueueItem → List QueueItem
insert_multiple_at items idx new_items =
    if leb (length items) idx
    then items ++ new_items
    else take idx items ++ (new_items ++ drop idx items)

-- The index to insert at, and whether the current position moves with it.
unfoldable pub resolve_insert_position : QueueState → Text → Result (ℕ × Bool)
resolve_insert_position state position =
    let size = length state.items in
    let trimmed = trim_space position in
    let next = state.current_position + 1 in
    if text_eq trimmed (codes "next")
    then ok ((if ltb size next then size else next), false)
    else if text_eq trimmed (codes "last") || text_eq trimmed []
    then ok (size, false)
    else elim (atoi trimmed) [
      | none ↦ err invalid_position
      | some (negsuc n) ↦ err invalid_position
      | some (pos idx) ↦
          if ltb size idx then err invalid_position else ok (idx, leb idx state.current_position)
    ]

-- One round of the loop in `recalculatePositions`.
unfoldable pub recalculate_item : ℕ → ℕ → QueueItem → QueueItem
recalculate_item now i item =
    let kind =
      if text_eq item.kind []
      then (if is_some item.source then source_kind else track_kind)
      else item.kind in
    let state =
      if text_eq item.playback_state [] || text_eq item.playback_state pending_download
      then queued
      else item.playback_state in
    let ready = is_some item.track_id && text_eq state playable in
    let broken = text_eq state failed in
    record item {
      position = i;
      kind = kind;
      playback_state = state;
      progress = if ready then 100 else item.progress;
      can_play = if broken then false else (if ready then true else item.can_play);
      can_retry = if broken then true else item.can_retry;
      can_remove = true;
      updated_at = if item.updated_at == 0 then now else item.updated_at;
    }

unfoldable pub recalculate_from : ℕ → ℕ → List QueueItem → List QueueItem
recalculate_from now i [] = []
recalculate_from now i (item ∷ rest) =
    recalculate_item now i item ∷ recalculate_from now (suc i) rest

unfoldable pub recalculate_positions : ℕ → QueueState → QueueState
recalculate_positions now state = record state { items = recalculate_from now 0 state.items }

-- The item that AddToQueue and AddMultipleToQueue make.
unfoldable pub track_item : Text → ℤ → ℕ → QueueItem
track_item id track_id now = record {
  id = id;
  position = 0;
  kind = track_kind;
  track_id = some track_id;
  playback_state = playable;
  download_job_id = [];
  source = none;
  progress = 100;
  error = [];
  can_play = true;
  can_retry = false;
  can_remove = true;
  added_at = now;
  updated_at = now;
}

unfoldable pub source_item : Text → SourceCandidate → Text → ℕ → QueueItem
source_item id candidate download_job_id now = record {
  id = id;
  position = 0;
  kind = source_kind;
  track_id = none;
  playback_state = queued;
  download_job_id = download_job_id;
  source = some candidate;
  progress = 0;
  error = [];
  can_play = false;
  can_retry = false;
  can_remove = true;
  added_at = now;
  updated_at = now;
}

-- The readings of the clock at the end of each method: in `recalculatePositions`, and for UpdatedAt.
pub record Clock : Type 0 where
  pub recalculated_at : ℕ
  pub saved_at : ℕ

-- How every method ends before it saves.
unfoldable pub finish : Clock → List QueueItem → ℕ → QueueState
finish clock items current = record {
  items = recalculate_from clock.recalculated_at 0 items;
  current_position = current;
  updated_at = clock.saved_at;
}

-- AddToQueue and EnsureSourceCandidateWithID insert one item.
unfoldable pub insert_item : Clock → QueueState → QueueItem → Text → Result QueueState
insert_item clock state item position = do
  (idx, adjust) ← resolve_insert_position state position
  ok (
      finish clock (insert_at state.items idx item)
        (if adjust then suc state.current_position else state.current_position))

-- AddMultipleToQueue inserts one item for each track.
unfoldable pub insert_items : Clock → QueueState → List QueueItem → Text → Result QueueState
insert_items clock state new_items position = do
  (idx, adjust) ← resolve_insert_position state position
  ok (
      finish clock (insert_multiple_at state.items idx new_items)
        (if adjust then state.current_position + length new_items else state.current_position))

-- `append(items[:i], items[i+1:]...)`
abbrev pub without : List QueueItem → ℕ → List QueueItem
without items i = take i items ++ drop (suc i) items

-- The current position after the item at `position` has gone and `left` items are left.
unfoldable pub current_after_remove : ℕ → ℕ → ℕ → ℕ
current_after_remove position current left =
    if ltb position current
    then current - 1
    else if position == current && leb left current
    then (if ltb 0 left then left - 1 else 0)
    else current

unfoldable pub remove_at : Clock → QueueState → ℤ → Result QueueState
remove_at clock state (negsuc n) = err invalid_position
remove_at clock state (pos position) =
    let left = without state.items position in
    if leb (length state.items) position
    then err invalid_position
    else ok (finish clock left (current_after_remove position state.current_position (length left)))

unfoldable pub current_after_move : ℕ → ℕ → ℕ → ℕ
current_after_move from to current =
    if current == from
    then to
    else if ltb from current && leb current to
    then current - 1
    else if ltb current from && leb to current
    then suc current
    else current

-- The move itself, with both positions in range.
unfoldable pub move_item : Clock → QueueState → ℕ → ℕ → QueueItem → QueueState
move_item clock state from to item =
    finish clock (insert_at (without state.items from) to item)
      (current_after_move from to state.current_position)

-- Whether the method has something to save comes with the state.
unfoldable pub reorder_at : Clock → QueueState → ℤ → ℤ → Result (QueueState × Bool)
reorder_at clock state (negsuc n) to = err invalid_position
reorder_at clock state (pos from) (negsuc n) = err invalid_position
reorder_at clock state (pos from) (pos to) = elim (get_elem? state.items from) [
  | none ↦ err invalid_position
  | some item ↦
      if leb (length state.items) to
      then err invalid_position
      else if from == to
      then ok (state, false)
      else ok (move_item clock state from to item, true)
]

-- The first item with the given ID.
unfoldable pub find_item : Text → List QueueItem → Option QueueItem
find_item id [] = none
find_item id (x ∷ xs) = if text_eq x.id id then some x else find_item id xs

-- Whether EnsureSourceCandidateWithID finds its item in the queue already.
unfoldable pub has_source : Text → Text → List QueueItem → Bool
has_source id job_id [] = false
has_source id job_id (x ∷ xs) =
    (text_eq x.id id || text_eq x.download_job_id job_id) || has_source id job_id xs

unfoldable pub retry_item : ℕ → QueueItem → QueueItem
retry_item now item = record item {
  playback_state = queued;
  progress = 0;
  error = [];
  can_play = false;
  can_retry = false;
  can_remove = true;
  updated_at = now;
}

-- The loop of RetryQueueItem changes the first item with the ID.
unfoldable pub retry_first : ℕ → Text → List QueueItem → List QueueItem
retry_first now id [] = []
retry_first now id (x ∷ xs) =
    if text_eq x.id id then retry_item now x ∷ xs else x ∷ retry_first now id xs

unfoldable pub download_job_of : QueueState → Text → Result Text
download_job_of state id = elim (find_item id state.items) [
  | none ↦ err track_not_found
  | some item ↦
      if text_eq item.download_job_id [] then err track_not_found else ok item.download_job_id
]

-- `now` stamps the item and the queue; `recalculated_at` is read afterwards.
unfoldable pub retry_state : ℕ → ℕ → QueueState → Text → Result (QueueState × Text)
retry_state now recalculated_at state id = do
  job ← download_job_of state id
  ok (
    finish (record { recalculated_at = recalculated_at; saved_at = now })
        (retry_first now id state.items) state.current_position,
    job,
  )
