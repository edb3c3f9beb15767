-- ===== src/PlayQueue/Service.antt =====
-- backend/internal/queue/queue.go: the methods of Service. Redis is a parameter; every method takes
-- its server and returns the server that it leaves. `key` is the user's Redis key.
use open_music_player.Prelude.{
  ℕ, Bool, true, false, none, some, List, [], ◌∷◌, ◌++◌, if◌then◌else◌, Text, codes, ℤ, pos,
}
use open_music_player.Redis.{KeyValue, Reply, found, missing, fault}
use open_music_player.PlayQueue.Types.{
  SourceCandidate, QueueItem, QueueState, Result, ok, err, ◌>>=◌, track_not_found, store_failure,
}
use open_music_player.PlayQueue.Edit.{
  Clock, resolve_insert_position, track_item, source_item, insert_item, insert_items, remove_at,
  reorder_at, find_item, has_source, download_job_of, retry_state,
}

abbrev pub queue_key : Text → Text
queue_key user = codes "playqueue:" ++ user

abbrev pub empty_queue : ℕ → QueueState
empty_queue now = record { items = []; current_position = 0; updated_at = now }

-- What GetQueue makes of Redis's answer.
unfoldable pub read_reply : ℕ → Reply QueueState → Result QueueState
read_reply now (found state) = ok state
read_reply now missing = ok (empty_queue now)
read_reply now fault = err store_failure

-- The items of AddMultipleToQueue, each with its own new ID.
unfoldable pub track_items : ℕ → List (Text × ℤ) → List QueueItem
track_items now [] = []
track_items now ((id, track_id) ∷ rest) = track_item id track_id now ∷ track_items now rest

module _ (redis : KeyValue QueueState) where
  open redis use {Server, get, put, del}

  -- GetQueue, with the server after the read; `now` dates an empty queue.
  unfoldable pub get_queue : Server → Text → ℕ → Server × Result QueueState
  unfolding read_reply
  get_queue s user now = let (s', reply) = get s (queue_key user) in (s', read_reply now reply)

  -- saveQueue, and the return of the state that was saved.
  unfoldable pub save_result : Server → Text → Result QueueState → Server × Result QueueState
  save_result s user (err e) = (s, err e)
  save_result s user (ok state) =
      let (s', saved) = put s (queue_key user) state in
      (s', (if saved then ok state else err store_failure))

  unfoldable pub add_to_queue :
      Server → Text → ℤ → Text → Text → ℕ → Clock → Server × Result QueueState
  add_to_queue s user track_id position id now clock =
      let (s', loaded) = get_queue s user now in
      save_result s' user
        (do state ← loaded; insert_item clock state (track_item id track_id now) position)

  unfoldable pub add_multiple_to_queue :
      Server → Text → List (Text × ℤ) → Text → ℕ → Clock → Server × Result QueueState
  add_multiple_to_queue s user tracks position now clock =
      let (s', loaded) = get_queue s user now in
      save_result s' user
        (do state ← loaded; insert_items clock state (track_items now tracks) position)

  unfoldable pub validate_insert_position : Server → Text → Text → ℕ → Server × Result (ℕ × Bool)
  validate_insert_position s user position now =
      let (s', loaded) = get_queue s user now in
      (s', (do state ← loaded; resolve_insert_position state position))

  unfoldable pub ensure_loaded :
      Text
      → Text
      → SourceCandidate
      → Text
      → Text
      → ℕ
      → Clock
      → Server
      → Result QueueState
      → Server × Result QueueState
  ensure_loaded user id candidate job_id position now clock s (err e) = (s, err e)
  ensure_loaded user id candidate job_id position now clock s (ok state) =
      if has_source id job_id state.items
      then (s, ok state)
      else save_result s user
          (insert_item clock state (source_item id candidate job_id now) position)

  -- An item that is there already is not added again, and nothing is saved.
  -- AddSourceCandidate is this with a new ID.
  unfoldable pub ensure_source_candidate :
      Server → Text → Text → SourceCandidate → Text → Text → ℕ → Clock → Server × Result QueueState
  unfolding ensure_loaded
  ensure_source_candidate s user id candidate job_id position now clock =
      let (s', loaded) = get_queue s user now in
      ensure_loaded user id candidate job_id position now clock s' loaded

  unfoldable pub remove_from_queue : Server → Text → ℤ → ℕ → Clock → Server × Result QueueState
  remove_from_queue s user position now clock =
      let (s', loaded) = get_queue s user now in
      save_result s' user (do state ← loaded; remove_at clock state position)

  unfoldable pub reorder_loaded :
      Text → ℤ → ℤ → Clock → Server → Result QueueState → Server × Result QueueState
  reorder_loaded user from to clock s loaded =
      elim (do state ← loaded; reorder_at clock state from to) [
        | err e ↦ (s, err e)
        | ok (state, true) ↦ save_result s user (ok state)
        | ok (state, false) ↦ (s, ok state)
      ]

  unfoldable pub reorder_queue : Server → Text → ℤ → ℤ → ℕ → Clock → Server × Result QueueState
  unfolding reorder_loaded
  reorder_queue s user from to now clock =
      let (s', loaded) = get_queue s user now in reorder_loaded user from to clock s' loaded

  -- RemoveQueueItem and ReorderQueueItem find the item in one read of the queue, and act by its
  -- position on a second one.
  unfoldable pub locate : Server → Text → Text → ℕ → Server × Result ℕ
  locate s user id now =
      let (s', loaded) = get_queue s user now in
      (
        s',
        (do
          state ← loaded
          elim (find_item id state.items) [
            | none ↦ err track_not_found
            | some item ↦ ok item.position
          ]),
      )

  unfoldable pub remove_queue_item : Server → Text → Text → ℕ → Clock → Server × Result QueueState
  remove_queue_item s user id now clock =
      let (s', located) = locate s user id now in
      elim located [
        | err e ↦ (s', err e)
        | ok position ↦ remove_from_queue s' user (pos position) now clock
      ]

  unfoldable pub reorder_queue_item :
      Server → Text → Text → ℤ → ℕ → Clock → Server × Result QueueState
  reorder_queue_item s user id to now clock =
      let (s', located) = locate s user id now in
      elim located [
        | err e ↦ (s', err e)
        | ok position ↦ reorder_queue s' user (pos position) to now clock
      ]

  unfoldable pub queue_item_download_job_id : Server → Text → Text → ℕ → Server × Result Text
  queue_item_download_job_id s user id now =
      let (s', loaded) = get_queue s user now in (s', (do state ← loaded; download_job_of state id))

  unfoldable pub retry_loaded :
      Text → Text → ℕ → Clock → Server → Result QueueState → Server × Result (QueueState × Text)
  retry_loaded user id now clock s loaded =
      elim (do state ← loaded; retry_state now clock.recalculated_at state id) [
        | err e ↦ (s, err e)
        | ok (state, job) ↦
            let (s', saved) = save_result s user (ok state) in
            (s', (do state' ← saved; ok (state', job)))
      ]

  unfoldable pub retry_queue_item :
      Server → Text → Text → ℕ → Clock → Server × Result (QueueState × Text)
  unfolding retry_loaded
  retry_queue_item s user id now clock =
      let (s', loaded) = get_queue s user now in retry_loaded user id now clock s' loaded

  -- ClearQueue
  unfoldable pub clear_queue : Server → Text → Server × Bool
  clear_queue s user = del s (queue_key user)
