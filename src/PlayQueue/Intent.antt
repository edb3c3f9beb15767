-- ===== src/PlayQueue/Intent.antt =====
-- backend/internal/queue/queue.go: a source item is added once for its intent, however often
-- EnsureSourceCandidateWithID is called; and RemoveQueueItem removes the item with the ID.
use open_music_player.Prelude.{
  ℕ, ◌≡◌, ap, refl, sym, ◌∙◌, ◌⊎◌, inl, inr, true, some, arith, Text, Bool-cases, Option-cases, pos,
  get_elem?,
}
use open_music_player.Redis.{KeyValue, KeyValueLaws}
use open_music_player.PlayQueue.Types.{
  SourceCandidate, QueueItem, QueueState, Result, ok, err, ◌>>=◌, Result-cases, store_failure,
}
use open_music_player.PlayQueue.Edit.{Clock, remove_at, find_item, has_source}
use open_music_player.PlayQueue.Splice.{cut_at}
use open_music_player.PlayQueue.Remove.{remove_at-identities}
use open_music_player.PlayQueue.Recalculate.{identities}
use open_music_player.PlayQueue.Consistent.{IsConsistent}
use open_music_player.PlayQueue.ById.{has_source-insert_item, find_item-position}
use open_music_player.PlayQueue.Service.{
  queue_key, read_reply, get_queue, save_result, ensure_loaded, ensure_source_candidate, locate,
  remove_from_queue, remove_queue_item,
}
use open_music_player.PlayQueue.Kept.{AllConsistent}
use open_music_player.PlayQueue.Stored.{ensures, perform, perform_lem}

module _ (redis : KeyValue QueueState) where
  open redis use {Server, get, put}

  save_result-ok :
      (s : Server) (user : Text) (r : Result QueueState) (after : QueueState)
      → (save_result redis s user r).1 ≡ ok after
      → r ≡ ok after
  unfolding save_result
  save_result-ok s user (err e) after h = absurd (cc h)
  save_result-ok s user (ok state) after h = elim (Bool-cases (put s (queue_key user) state).1) [
    | inl saved ↦ ground (arith, saved, h)
    | inr lost ↦ absurd (ground (arith, lost, h))
  ]

  ensure_loaded-has_source :
      (user id : Text) (candidate : SourceCandidate) (job position : Text) (now : ℕ) (clock : Clock)
      (s : Server) (loaded : Result QueueState) (after : QueueState)
      → (ensure_loaded redis user id candidate job position now clock s loaded).1 ≡ ok after
      → has_source id job after.items ≡ true
  unfolding ensure_loaded
  ensure_loaded-has_source user id candidate job position now clock s (err x) after h =
      absurd (cc h)
  ensure_loaded-has_source user id candidate job position now clock s (ok state) after h =
      elim (Bool-cases (has_source id job state.items)) [
        | inl there ↦ let same : state ≡ after = ground (arith, there, h) in rw (sym same) there
        | inr absent ↦
            has_source-insert_item clock state after id job position candidate now
              (save_result-ok s user _ after (rw absent at h))
      ]

module _ {redis : KeyValue QueueState} (laws : KeyValueLaws redis) where
  open redis use {Server, get, put}
  open laws use {content}

  -- A read of a key that holds a value returns it, or fails.
  get_queue-held :
      (s : Server) (user : Text) (now : ℕ) (state : QueueState)
      → content s (queue_key user) ≡ some state
      → ((get_queue redis s user now).1 ≡ ok state)
        ⊎ ((get_queue redis s user now).1 ≡ err store_failure)
  unfolding get_queue
  get_queue-held s user now state h = elim (laws.get_reply s (queue_key user)) [
    | inl lost ↦ inr (rw (lost, read_reply))
    | inr reply ↦ inl (rw (reply, h, read_reply))
  ]

  ensure_held :
      (s : Server) (user id : Text) (candidate : SourceCandidate) (job position : Text) (now : ℕ)
      (clock : Clock) (state : QueueState)
      → content s (queue_key user) ≡ some state
      → has_source id job state.items ≡ true
      → let result = ensure_source_candidate redis s user id candidate job position now clock in
        ((result.1 ≡ ok state) ⊎ (result.1 ≡ err store_failure))
        × ((k : Text) → content result.0 k ≡ content s k)
  unfolding ensure_source_candidate
  ensure_held s user id candidate job position now clock state held there =
      elim (get_queue-held s user now state held) [
        | inl loaded ↦
            rw (loaded, ensure_loaded, there)
              (inl refl, unfold get_queue in laws.get_keeps s (queue_key user))
        | inr failure ↦
            rw (failure, ensure_loaded)
              (inr refl, unfold get_queue in laws.get_keeps s (queue_key user))
      ]

  -- If every stored queue is consistent and a first EnsureSourceCandidateWithID succeeds, a second
  -- one with the same item ID and job returns the queue that the first one left, or fails to read
  -- it; either way Redis holds what it held.
  pub ensure_twice :
      (s : Server) (user id : Text) (candidate : SourceCandidate) (job position : Text) (now : ℕ)
      (clock : Clock) (position' : Text) (now' : ℕ) (clock' : Clock) (after : QueueState)
      → AllConsistent laws s
      → (ensure_source_candidate redis s user id candidate job position now clock).1 ≡ ok after
      → let first = ensure_source_candidate redis s user id candidate job position now clock in
        let second =
          ensure_source_candidate redis first.0 user id candidate job position' now' clock' in
        ((second.1 ≡ ok after) ⊎ (second.1 ≡ err store_failure))
        × ((k : Text) → content second.0 k ≡ content first.0 k)
  unfolding perform
  ensure_twice s user id candidate job position now clock position' now' clock' after h e =
      ensure_held _ user id candidate job position' now' clock' after
        ((perform_lem laws s user (ensures id candidate job position now clock) h).1 (some after)
          (ap (λ r. r >>= (λ state. ok (some state))) e))
        (unfold ensure_source_candidate in
          ensure_loaded-has_source redis user id candidate job position now clock _ _ after e)

  locate_lem :
      (s : Server) (user id : Text) (now : ℕ) (state : QueueState) (position : ℕ)
      → content s (queue_key user) ≡ some state
      → (locate redis s user id now).1 ≡ ok position
      → (item : QueueItem) × (find_item id state.items ≡ some item) × (item.position ≡ position)
  unfolding locate
  locate_lem s user id now state position held h = elim (get_queue-held s user now state held) [
    | inl loaded ↦ elim (Option-cases (find_item id state.items)) [
      | inl e ↦ absurd (ground (arith, loaded, e, h))
      | inr (item, e) ↦ (item, e, ground (arith, loaded, e, h))
    ]
    | inr failure ↦ absurd (ground (arith, failure, h))
  ]

  remove_from_queue_lem :
      (s : Server) (user : Text) (position now : ℕ) (clock : Clock) (state after : QueueState)
      → content s (queue_key user) ≡ some state
      → (remove_from_queue redis s user (pos position) now clock).1 ≡ ok after
      → remove_at clock state (pos position) ≡ ok after
  unfolding remove_from_queue
  remove_from_queue_lem s user position now clock state after held h =
      elim (get_queue-held s user now state held) [
        | inl loaded ↦ rw loaded at (save_result-ok redis _ user _ after h)
        | inr failure ↦ absurd (cc (rw failure at (save_result-ok redis _ user _ after h)))
      ]

  -- When RemoveQueueItem succeeds on a consistent stored queue, it has taken out the first item
  -- with the ID, and no other.
  pub remove_queue_item_lem :
      (s : Server) (user id : Text) (now : ℕ) (clock : Clock) (state after : QueueState)
      → IsConsistent state
      → content s (queue_key user) ≡ some state
      → (remove_queue_item redis s user id now clock).1 ≡ ok after
      → (item : QueueItem) × (find_item id state.items ≡ some item)
        × (get_elem? state.items item.position ≡ some item)
        × (identities after.items ≡ cut_at item.position (identities state.items))
  remove_queue_item_lem s user id now clock state after c held h =
      elim (Result-cases (locate redis s user id now).1) [
        | inl (position, e) ↦
            let (item, hit, at) = locate_lem s user id now state position held e in
            let moved : content (locate redis s user id now).0 (queue_key user) ≡ some state =
              unfold locate get_queue in
              laws.get_keeps s (queue_key user) (queue_key user) ∙ held in
            let removed : remove_at clock state (pos item.position) ≡ ok after =
              remove_from_queue_lem _ user item.position now clock state after moved
                (rw at (unfold remove_queue_item in rw (e, remove_queue_item) at h)) in
            (
              item,
              hit,
              (find_item-position id state.items item c.numbered hit).0,
              remove_at-identities clock state item.position after removed,
            )
        | inr (x, e) ↦ absurd (unfold remove_queue_item in cc (rw (e, remove_queue_item) at h))
      ]
