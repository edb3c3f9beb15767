-- ===== src/PlayQueue/Stored.antt =====
-- backend/internal/queue/queue.go: what Redis holds before and after a call of the service.
use open_music_player.Prelude.{
  ℕ, ◌≡◌, refl, ◌∙◌, inl, inr, Bool, true, false, Option, none, some, List, Text, ℤ, pos,
}
use open_music_player.Redis.{KeyValue, KeyValueLaws}
use open_music_player.PlayQueue.Types.{
  SourceCandidate, QueueState, Result, ok, err, store_failure, ◌>>=◌, Result-cases,
}
use open_music_player.PlayQueue.Edit.{Clock, insert_item, insert_items, track_item, remove_at}
use open_music_player.PlayQueue.Consistent.{
  insert_item-IsConsistent, insert_items-IsConsistent, remove_at-IsConsistent,
}
use open_music_player.PlayQueue.Service.{
  track_items, add_to_queue, add_multiple_to_queue, ensure_source_candidate, remove_from_queue,
  reorder_queue, locate, remove_queue_item, reorder_queue_item, retry_queue_item, clear_queue,
  queue_key,
}
use open_music_player.PlayQueue.Kept.{
  AllConsistent, Kept, edit-Kept, get_queue-Loads, ensure_loaded-Kept, reorder_loaded-Kept,
  retry_loaded-Kept, del-AllConsistent,
}

-- The calls that write, or delete. IDs and clock readings are what the environment supplies.
pub data Call : Type 0 where
  adds : ℤ → Text → Text → ℕ → Clock → Call
  adds_multiple : List (Text × ℤ) → Text → ℕ → Clock → Call
  ensures : Text → SourceCandidate → Text → Text → ℕ → Clock → Call
  removes : ℤ → ℕ → Clock → Call
  reorders : ℤ → ℤ → ℕ → Clock → Call
  removes_item : Text → ℕ → Clock → Call
  reorders_item : Text → ℤ → ℕ → Clock → Call
  retries_item : Text → ℕ → Clock → Call
  clears : Call

module _ (redis : KeyValue QueueState) where
  open redis use {Server}

  -- A queue that a call returns.
  abbrev pub reported : Server × Result QueueState → Server × Result (Option QueueState)
  reported (s, r) = (s, r >>= (λ state. ok (some state)))

  abbrev pub without_job : Server × Result (QueueState × Text) → Server × Result QueueState
  without_job (s, r) = (s, r >>= (λ found. ok found.0))

  abbrev pub deleted : Server × Bool → Server × Result (Option QueueState)
  deleted (s, true) = (s, ok none)
  deleted (s, false) = (s, err store_failure)

  -- With the queue that the call returns; ClearQueue returns none.
  unfoldable pub perform : Server → Text → Call → Server × Result (Option QueueState)
  perform s user (adds track position id now clock) =
      reported (add_to_queue redis s user track position id now clock)
  perform s user (adds_multiple tracks position now clock) =
      reported (add_multiple_to_queue redis s user tracks position now clock)
  perform s user (ensures id candidate job position now clock) =
      reported (ensure_source_candidate redis s user id candidate job position now clock)
  perform s user (removes position now clock) =
      reported (remove_from_queue redis s user position now clock)
  perform s user (reorders from to now clock) =
      reported (reorder_queue redis s user from to now clock)
  perform s user (removes_item id now clock) =
      reported (remove_queue_item redis s user id now clock)
  perform s user (reorders_item id to now clock) =
      reported (reorder_queue_item redis s user id to now clock)
  perform s user (retries_item id now clock) =
      reported (without_job (retry_queue_item redis s user id now clock))
  perform s user clears = deleted (clear_queue redis s user)

module _ {redis : KeyValue QueueState} (laws : KeyValueLaws redis) where
  open redis use {Server}
  open laws use {content}

  remove-Kept :
      (s : Server) (user : Text) (position : ℤ) (now : ℕ) (clock : Clock)
      → AllConsistent laws s
      → Kept laws user (remove_from_queue redis s user position now clock)
  unfolding remove_from_queue
  remove-Kept s user position now clock =
      edit-Kept laws s user now (λ state. remove_at clock state position)
        (λ state. remove_at-IsConsistent clock state position)

  reorder-Kept :
      (s : Server) (user : Text) (from to : ℤ) (now : ℕ) (clock : Clock)
      → AllConsistent laws s
      → Kept laws user (reorder_queue redis s user from to now clock)
  unfolding reorder_queue
  reorder-Kept s user from to now clock h =
      reorder_loaded-Kept laws user from to clock _ _ (get_queue-Loads laws s user now h)

  locate-AllConsistent :
      (s : Server) (user id : Text) (now : ℕ)
      → AllConsistent laws s
      → AllConsistent laws (locate redis s user id now).0
  unfolding locate
  locate-AllConsistent s user id now h = (get_queue-Loads laws s user now h).0

  -- What a call leaves: every stored queue is consistent, and what it reports is what Redis holds.
  abbrev pub Reported : Text → Server × Result (Option QueueState) → Type 0
  Reported user (s, r) =
      AllConsistent laws s
      × ((after : Option QueueState) → r ≡ ok after → content s (queue_key user) ≡ after)

  Kept-Reported :
      (user : Text) (s : Server) (r : Result QueueState)
      → Kept laws user (s, r)
      → Reported user (reported redis (s, r))
  Kept-Reported user s (ok state) kept = (kept.0, λ after e. kept.1 state refl ∙ cc e)
  Kept-Reported user s (err x) kept = (kept.0, λ after e. absurd (cc e))

  clear-Reported :
      (s : Server) (user : Text) (done : Bool)
      → AllConsistent laws s
      → (redis.del s (queue_key user)).1 ≡ done
      → Reported user (deleted redis ((redis.del s (queue_key user)).0, done))
  clear-Reported s user true h e = (
    del-AllConsistent laws s (queue_key user) h,
    λ after r. laws.del_removes s (queue_key user) e ∙ cc r,
  )
  clear-Reported s user false h e =
      (del-AllConsistent laws s (queue_key user) h, λ after r. absurd (cc r))

  -- Whatever the call that writes or deletes: if every stored queue is consistent before it, so is every
  -- one after it, and a queue that the call reports as its result is what Redis holds for the user; after a
  -- ClearQueue that succeeds, Redis holds none.
  pub perform_lem :
      (s : Server) (user : Text) (call : Call)
      → AllConsistent laws s
      → Reported user (perform redis s user call)
  unfolding perform
  perform_lem s user (adds track position id now clock) h =
      unfold add_to_queue in
      Kept-Reported user _ _ (
        edit-Kept laws s user now
          (λ state. insert_item clock state (track_item id track now) position)
          (λ state. insert_item-IsConsistent clock state _ position) h)
  perform_lem s user (adds_multiple tracks position now clock) h =
      unfold add_multiple_to_queue in
      Kept-Reported user _ _ (
        edit-Kept laws s user now
          (λ state. insert_items clock state (track_items now tracks) position)
          (λ state. insert_items-IsConsistent clock state _ position) h)
  perform_lem s user (ensures id candidate job position now clock) h =
      unfold ensure_source_candidate in
      Kept-Reported user _ _ (
        ensure_loaded-Kept laws user id candidate job position now clock _ _
          (get_queue-Loads laws s user now h))
  perform_lem s user (removes position now clock) h =
      Kept-Reported user _ _ (remove-Kept s user position now clock h)
  perform_lem s user (reorders from to now clock) h =
      Kept-Reported user _ _ (reorder-Kept s user from to now clock h)
  perform_lem s user (removes_item id now clock) h =
      elim (Result-cases (locate redis s user id now).1) [
        | inl (position, e) ↦
            unfold remove_queue_item in
            rw (e, remove_queue_item)
              (Kept-Reported user _ _ (
                remove-Kept _ user (pos position) now clock (locate-AllConsistent s user id now h)))
        | inr (x, e) ↦
            unfold remove_queue_item in
            rw (e, remove_queue_item)
              (locate-AllConsistent s user id now h, λ after k. absurd (cc k))
      ]
  perform_lem s user (reorders_item id to now clock) h =
      elim (Result-cases (locate redis s user id now).1) [
        | inl (position, e) ↦
            unfold reorder_queue_item in
            rw (e, reorder_queue_item)
              (Kept-Reported user _ _ (
                reorder-Kept _ user (pos position) to now clock
                  (locate-AllConsistent s user id now h)))
        | inr (x, e) ↦
            unfold reorder_queue_item in
            rw (e, reorder_queue_item)
              (locate-AllConsistent s user id now h, λ after k. absurd (cc k))
      ]
  perform_lem s user (retries_item id now clock) h =
      unfold retry_queue_item in
      Kept-Reported user _ _
        (retry_loaded-Kept laws user id now clock _ _ (get_queue-Loads laws s user now h))
  perform_lem s user clears h =
      unfold clear_queue in clear-Reported s user (redis.del s (queue_key user)).1 h refl
