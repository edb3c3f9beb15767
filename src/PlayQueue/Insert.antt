-- ===== src/PlayQueue/Insert.antt =====
-- backend/internal/queue/queue.go: insertAt, insertMultipleAt, the deleting append, and
-- resolveInsertPosition.
use open_music_player.Prelude.{
  ℕ, zero, suc, ◌≤◌, ◌<◌, ◌≡◌, refl, ap, inl, inr, Bool, true, false, List, [], ◌∷◌, ◌++◌,
  append-nil, arith, length, take, drop, Text, leb, Bool-cases, ◌⊎◌,
}
use open_music_player.PlayQueue.Types.{QueueItem, QueueState, ok}
use open_music_player.PlayQueue.Edit.{
  write_at, insert_at, insert_multiple_at, resolve_insert_position, without,
}
use open_music_player.PlayQueue.Splice.{put_at, cut_at}

write_at-shifted :
    (i : ℕ) (xs : List QueueItem) (v : QueueItem)
    → i < length xs
    → write_at (take (suc i) xs ++ drop i xs) i v ≡ put_at i v xs
unfolding write_at
write_at-shifted i [] v h = elim h [ ]
write_at-shifted zero (x ∷ xs) v h = refl
write_at-shifted (suc i) (x ∷ xs) v h = ap (◌∷◌ x) (write_at-shifted i xs v (omega arith))

append-put_at :
    (i : ℕ) (xs : List QueueItem) (v : QueueItem) → length xs ≤ i → xs ++ v ∷ [] ≡ put_at i v xs
append-put_at zero [] v h = refl
append-put_at (suc i) [] v h = refl
append-put_at zero (x ∷ xs) v h = elim h [ ]
append-put_at (suc i) (x ∷ xs) v h = ap (◌∷◌ x) (append-put_at i xs v (omega arith))

-- The shift in place inserts: what stands at the index and behind it moves up by one.
pub insert_at-put_at :
    (items : List QueueItem) (idx : ℕ) (item : QueueItem)
    → insert_at items idx item ≡ put_at idx item items
unfolding insert_at
insert_at-put_at items idx item = elim (Bool-cases (leb (length items) idx)) [
  | inl end ↦ rw end (append-put_at idx items item (ground arith))
  | inr inside ↦ rw inside (write_at-shifted idx items item (ground arith))
]

pub without-cut_at : (items : List QueueItem) (i : ℕ) → without items i ≡ cut_at i items
without-cut_at [] zero = refl
without-cut_at [] (suc i) = refl
without-cut_at (x ∷ xs) zero = refl
without-cut_at (x ∷ xs) (suc i) = ap (◌∷◌ x) (without-cut_at xs i)

append-take-drop :
    (i : ℕ) (xs ys : List QueueItem) → length xs ≤ i → xs ++ ys ≡ take i xs ++ (ys ++ drop i xs)
append-take-drop zero [] ys h = rw append-nil
append-take-drop (suc i) [] ys h = rw append-nil
append-take-drop zero (x ∷ xs) ys h = elim h [ ]
append-take-drop (suc i) (x ∷ xs) ys h = ap (◌∷◌ x) (append-take-drop i xs ys (omega arith))

-- Both branches of insertMultipleAt put the new items at the index.
pub insert_multiple_at-split :
    (items : List QueueItem) (idx : ℕ) (new_items : List QueueItem)
    → insert_multiple_at items idx new_items ≡ take idx items ++ (new_items ++ drop idx items)
unfolding insert_multiple_at
insert_multiple_at-split items idx new_items = ground (arith, append-take-drop idx items new_items)

-- A resolved index is in range; the current position moves with the insertion exactly if the item
-- lands at or before it.
pub resolve_bounds :
    (state : QueueState) (position : Text) (idx : ℕ) (adjust : Bool)
    → resolve_insert_position state position ≡ ok (idx, adjust)
    → (idx ≤ length state.items)
      × (((adjust ≡ true) × (idx ≤ state.current_position))
          ⊎ ((adjust ≡ false)
              × (state.current_position < length state.items → state.current_position < idx)))
unfolding resolve_insert_position
resolve_bounds state position idx adjust h = ground arith
