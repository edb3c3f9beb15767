-- ===== src/PlayQueue/Remove.antt =====
-- backend/internal/queue/queue.go: RemoveFromQueue.
use open_music_player.Prelude.{
  ℕ, suc, ◌-◌, ◌<◌, ◌≡◌, ◌≢◌, refl, ap, ◌∙◌, ◌⊎◌, inl, inr, List, [], ◌∷◌, arith, length, get_elem?,
  pos, length-map,
}
use open_music_player.PlayQueue.Types.{QueueItem, QueueState, ok}
use open_music_player.PlayQueue.Edit.{Clock, finish, current_after_remove, remove_at}
use open_music_player.PlayQueue.Splice.{
  cut_at, length-cut_at, map-cut_at, get-cut_at_above, get-cut_at_below,
}
use open_music_player.PlayQueue.Insert.{without-cut_at}
use open_music_player.PlayQueue.Recalculate.{Identity, identity, identities}
use open_music_player.PlayQueue.Current.{
  IsValid, current, current-finish, identities-finish, finish-IsValid,
}

-- What a successful removal saves.
remove_at-result :
    (clock : Clock) (state : QueueState) (position : ℕ) (after : QueueState)
    → remove_at clock state (pos position) ≡ ok after
    → (position < length state.items)
      × (after
          ≡ finish clock (cut_at position state.items) (
              current_after_remove position state.current_position
                (length (cut_at position state.items))))
unfolding remove_at
remove_at-result clock state position after h = ground (arith, without-cut_at state.items position)

-- The item that is current after the one at `position` has gone.
current_after_remove_lem :
    (xs : List Identity) (position i left : ℕ)
    → suc left ≡ length xs
    → position < length xs
    → i < length xs
    → (position ≢ i
        → get_elem? (cut_at position xs) (current_after_remove position i left) ≡ get_elem? xs i)
      × (position ≡ i
          → suc position < length xs
          → get_elem? (cut_at position xs) (current_after_remove position i left)
            ≡ get_elem? xs (suc position))
      × (position ≡ i
          → suc position ≡ length xs
          → current_after_remove position i left ≡ position - 1)
unfolding current_after_remove
current_after_remove_lem xs position i left l h k = (
  (λ ne. ground (arith, ne, get-cut_at_below position i xs, get-cut_at_above position (i - 1) xs)),
  (λ e lt. ground (arith, get-cut_at_above position i xs)),
  (λ e last. ground arith),
)

pub in_range_of :
    (state : QueueState) (i : ℕ)
    → IsValid state
    → i < length state.items
    → state.current_position < length state.items
in_range_of state i valid h = elim valid.in_range [
  | inl (e, z) ↦ absurd (omega (arith, ap length e))
  | inr lt ↦ lt
]

identities-cut_at :
    (clock : Clock) (items : List QueueItem) (i j : ℕ)
    → identities (finish clock (cut_at i items) j).items ≡ cut_at i (identities items)
identities-cut_at clock items i j =
    identities-finish clock (cut_at i items) j ∙ map-cut_at identity i items

current-cut_at :
    (clock : Clock) (items : List QueueItem) (i j : ℕ)
    → current (finish clock (cut_at i items) j) ≡ get_elem? (cut_at i (identities items)) j
current-cut_at clock items i j =
    current-finish clock (cut_at i items) j ∙ ap (λ l. get_elem? l j) (map-cut_at identity i items)

pub remove_at-identities :
    (clock : Clock) (state : QueueState) (position : ℕ) (after : QueueState)
    → remove_at clock state (pos position) ≡ ok after
    → identities after.items ≡ cut_at position (identities state.items)
remove_at-identities clock state position after h =
    rw (remove_at-result clock state position after h).1
      (identities-cut_at clock state.items position _)

remove_IsValid :
    (clock : Clock) (items : List QueueItem) (position i : ℕ)
    → position < length items
    → i < length items
    → IsValid (
        finish clock
          (cut_at position items)
          (current_after_remove position i (length (cut_at position items))))
remove_IsValid clock items position i h k =
    finish-IsValid clock (cut_at position items) _ (elim (nil-cases (cut_at position items)) [
      | inl e ↦ inl (
        e,
        unfold current_after_remove in ground (arith, ap length e, length-cut_at position items),
      )
      | inr some_left ↦
          inr (unfold current_after_remove in ground (arith, length-cut_at position items))
    ])
  where
    nil-cases : (l : List QueueItem) → (l ≡ []) ⊎ (0 < length l)
    nil-cases [] = inl refl
    nil-cases (x ∷ xs) = inr (omega arith)

-- When RemoveFromQueue succeeds on a valid queue, the item at the position has gone and no other.
-- The current position names the item that it named; or, if that was removed, the one behind it;
-- or, if that was the last, it is one less. The queue is valid.
pub remove_at_lem :
    (clock : Clock) (state : QueueState) (position : ℕ) (after : QueueState)
    → IsValid state
    → remove_at clock state (pos position) ≡ ok after
    → IsValid after
      × (identities after.items ≡ cut_at position (identities state.items))
      × (position ≢ state.current_position → current after ≡ current state)
      × (position ≡ state.current_position
          → suc position < length state.items
          → current after ≡ get_elem? (identities state.items) (suc position))
      × (position ≡ state.current_position
          → suc position ≡ length state.items
          → after.current_position ≡ position - 1)
remove_at_lem clock state position after valid h =
    let (lt, e) = remove_at-result clock state position after h in
    let i : ℕ = state.current_position in
    let inside : i < length state.items = in_range_of state position valid lt in
    let left : ℕ = length (cut_at position state.items) in
    let size : length (identities state.items) ≡ length state.items =
      length-map state.items identity in
    let at_left : current
          (finish clock (cut_at position state.items) (current_after_remove position i left))
        ≡ get_elem? (cut_at position (identities state.items))
            (current_after_remove position i left) =
      current-cut_at clock state.items position _ in
    let (other, next, last) =
      current_after_remove_lem (identities state.items) position i left
        (omega (arith, length-cut_at position state.items)) (omega arith) (omega arith) in
    rw e (
      remove_IsValid clock state.items position i lt inside,
      identities-cut_at clock state.items position _,
      (λ ne. at_left ∙ other ne),
      (λ same more. at_left ∙ next same (omega arith)),
      (λ same end. unfold finish in last same (omega arith)),
    )
