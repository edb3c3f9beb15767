-- ===== src/PlayQueue/Consistent.antt =====
-- backend/internal/queue/queue.go: what holds of a queue after any edit that the service makes.
use open_music_player.Prelude.{
  ℕ, suc, ◌+◌, ◌≤◌, ◌<◌, ◌≡◌, refl, ap, inl, inr, Bool, List, [], ◌∷◌, ◌++◌, arith, length,
  length-append, take, drop, All, Text, ℤ, pos, negsuc, subst, if◌then◌else◌, take-append-drop,
}
use open_music_player.PlayQueue.Types.{QueueItem, QueueState, ok, Result-cases}
use open_music_player.PlayQueue.Edit.{
  Clock, resolve_insert_position, finish, insert_at, insert_item, insert_items, insert_multiple_at,
  without, current_after_remove, remove_at, current_after_move, reorder_at, retry_first,
  retry_state,
}
use open_music_player.PlayQueue.Splice.{put_at, cut_at, length-put_at, length-cut_at}
use open_music_player.PlayQueue.Insert.{
  insert_at-put_at, insert_multiple_at-split, without-cut_at, resolve_bounds,
}
use open_music_player.PlayQueue.Move.{reorder_at-result, get_elem?-lt}
use open_music_player.PlayQueue.Recalculate.{
  Numbered, IsSettled, recalculate_from-Numbered, recalculate_from-IsSettled,
  length-recalculate_from,
}

-- The stored positions are the indices, the fields agree, and the current position is an index or
-- the length of the queue.
pub record IsConsistent (state : QueueState) : Type 0 where
  pub numbered : Numbered 0 state.items
  pub settled : All IsSettled state.items
  pub bounded : state.current_position ≤ length state.items

length-insert_multiple_at :
    (items : List QueueItem) (idx : ℕ) (new_items : List QueueItem)
    → length (insert_multiple_at items idx new_items) ≡ length items + length new_items
length-insert_multiple_at items idx new_items = rw (insert_multiple_at-split items idx new_items) (
    omega (
      arith,
      length-append (take idx items) (new_items ++ drop idx items),
      length-append new_items (drop idx items),
      ap length (take-append-drop idx items),
      length-append (take idx items) (drop idx items),
    ))

length-retry_first :
    (now : ℕ) (id : Text) (items : List QueueItem)
    → length (retry_first now id items) ≡ length items
unfolding retry_first
length-retry_first now id [] = refl
length-retry_first now id (x ∷ xs) = ground (arith, length-retry_first now id xs)

finish-IsConsistent :
    (clock : Clock) (items : List QueueItem) (i : ℕ)
    → i ≤ length items
    → IsConsistent (finish clock items i)
unfolding finish
finish-IsConsistent clock items i h = record {
  numbered = recalculate_from-Numbered clock.recalculated_at 0 items;
  settled = recalculate_from-IsSettled clock.recalculated_at 0 items;
  bounded = omega (arith, length-recalculate_from clock.recalculated_at 0 items);
}

of_finish :
    (clock : Clock) (items : List QueueItem) (i : ℕ) {after : QueueState}
    → i ≤ length items
    → ok (finish clock items i) ≡ ok after
    → IsConsistent after
of_finish clock items i h e = subst IsConsistent (cc) (finish-IsConsistent clock items i h)

pub insert_item-IsConsistent :
    (clock : Clock) (state : QueueState) (item : QueueItem) (position : Text) (after : QueueState)
    → IsConsistent state
    → insert_item clock state item position ≡ ok after
    → IsConsistent after
unfolding insert_item
insert_item-IsConsistent clock state item position after c h =
    elim (Result-cases (resolve_insert_position state position)) [
      | inl ((idx, adjust), e) ↦
          of_finish clock (insert_at state.items idx item)
            (if adjust then suc state.current_position else state.current_position)
            (ground (
              arith,
              c.bounded,
              insert_at-put_at state.items idx item,
              length-put_at idx item state.items,
              resolve_bounds state position idx adjust e,
            ))
            (rw e at h)
      | inr (x, e) ↦ absurd (ground (arith, e))
    ]

pub insert_items-IsConsistent :
    (clock : Clock) (state : QueueState) (new_items : List QueueItem) (position : Text)
    (after : QueueState)
    → IsConsistent state
    → insert_items clock state new_items position ≡ ok after
    → IsConsistent after
unfolding insert_items
insert_items-IsConsistent clock state new_items position after c h =
    elim (Result-cases (resolve_insert_position state position)) [
      | inl ((idx, adjust), e) ↦
          of_finish clock (insert_multiple_at state.items idx new_items)
            (if adjust then state.current_position + length new_items else state.current_position)
            (ground (arith, c.bounded, length-insert_multiple_at state.items idx new_items))
            (rw e at h)
      | inr (x, e) ↦ absurd (ground (arith, e))
    ]

pub remove_at-IsConsistent :
    (clock : Clock) (state : QueueState) (position : ℤ) (after : QueueState)
    → IsConsistent state
    → remove_at clock state position ≡ ok after
    → IsConsistent after
unfolding remove_at
remove_at-IsConsistent clock state (negsuc n) after c h = absurd (cc h)
remove_at-IsConsistent clock state (pos position) after c h =
    let left = without state.items position in
    let current = current_after_remove position state.current_position (length left) in
    of_finish clock left current
      (unfold current_after_remove in
        ground (
          arith,
          c.bounded,
          without-cut_at state.items position,
          length-cut_at position state.items,
        ))
      (ground arith)

pub retry_state-IsConsistent :
    (now recalculated_at : ℕ) (state : QueueState) (id : Text) (after : QueueState) (job : Text)
    → IsConsistent state
    → retry_state now recalculated_at state id ≡ ok (after, job)
    → IsConsistent after
unfolding retry_state
retry_state-IsConsistent now recalculated_at state id after job c h =
    of_finish (record { recalculated_at = recalculated_at; saved_at = now })
      (retry_first now id state.items) state.current_position
      (ground (arith, c.bounded, length-retry_first now id state.items)) (ground arith)

current_after_move-le :
    (from to i n : ℕ) → from < n → to < n → i ≤ n → current_after_move from to i ≤ n
unfolding current_after_move
current_after_move-le from to i n hf ht hi = ground arith

pub reorder_at-IsConsistent :
    (clock : Clock) (state : QueueState) (from to : ℤ) (after : QueueState) (saved : Bool)
    → IsConsistent state
    → reorder_at clock state from to ≡ ok (after, saved)
    → IsConsistent after
reorder_at-IsConsistent clock state (negsuc n) to after saved c h =
    absurd (unfold reorder_at in cc h)
reorder_at-IsConsistent clock state (pos from) (negsuc n) after saved c h =
    absurd (unfold reorder_at in cc h)
reorder_at-IsConsistent clock state (pos from) (pos to) after saved c h =
    let (item, e, lt, place) = reorder_at-result clock state from to after saved h in
    elim place [
      | inl (same, unchanged) ↦ rw unchanged c
      | inr changed ↦ rw changed (
          finish-IsConsistent clock (put_at to item (cut_at from state.items)) _ (
            omega (
              arith,
              c.bounded,
              length-put_at to item (cut_at from state.items),
              length-cut_at from state.items,
              get_elem?-lt state.items from e,
              current_after_move-le from to state.current_position (length state.items)
                  (get_elem?-lt state.items from e) lt c.bounded,
            )))
    ]
