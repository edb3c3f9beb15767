-- ===== src/PlayQueue/Move.antt =====
-- backend/internal/queue/queue.go: ReorderQueue.
use mathlib.Core.List.{Perm}
use mathlib.Core.List.Perm
use open_music_player.Prelude.{
  ℕ, zero, suc, ◌-◌, ◌<◌, ◌≡◌, ap, sym, ◌∙◌, ◌⊎◌, inl, inr, Bool, List, [], ◌∷◌, arith, length,
  get_elem?, some, none, pos, length-map, Option-cases,
}
use open_music_player.PlayQueue.Types.{QueueItem, QueueState, ok}
use open_music_player.PlayQueue.Edit.{Clock, finish, current_after_move, move_item, reorder_at}
use open_music_player.PlayQueue.Splice.{
  put_at, cut_at, length-put_at, length-cut_at, map-put_at, map-cut_at, get-put_at_above,
  get-put_at_below, get-put_at_self, get-cut_at_above, get-cut_at_below, put_at-perm, cut_at-perm,
  put_at-cut_at, cut_at-put_at, get_elem?-map,
}
use open_music_player.PlayQueue.Insert.{insert_at-put_at, without-cut_at}
use open_music_player.PlayQueue.Recalculate.{Identity, identity, identities}
use open_music_player.PlayQueue.Current.{
  IsValid, current, current-finish, identities-finish, finish-IsValid,
}
use open_music_player.PlayQueue.Remove.{in_range_of}

current_after_move_lem :
    (xs : List Identity) (x : Identity) (from to i : ℕ)
    → get_elem? xs from ≡ some x
    → from < length xs
    → to < length xs
    → i < length xs
    → get_elem? (put_at to x (cut_at from xs)) (current_after_move from to i) ≡ get_elem? xs i
unfolding current_after_move
current_after_move_lem xs x from to i e hf ht hi = ground (
  arith,
  length-cut_at from xs,
  get-put_at_self to x (cut_at from xs),
  get-put_at_below to (i - 1) x (cut_at from xs),
  get-put_at_below to i x (cut_at from xs),
  get-put_at_above to i x (cut_at from xs),
  get-put_at_above to (i - 1) x (cut_at from xs),
  get-cut_at_above from (i - 1) xs,
  get-cut_at_below from i xs,
)

-- A list with its item at `from` moved to `to`.
abbrev pub moved {ℓ} : {A : Type ℓ} → ℕ → ℕ → List A → List A
moved from to xs = elim (get_elem? xs from) [ none ↦ xs | some x ↦ put_at to x (cut_at from xs) ]

moved-some {ℓ} :
    {A : Type ℓ} (from to : ℕ) (x : A) (xs : List A)
    → get_elem? xs from ≡ some x
    → moved from to xs ≡ put_at to x (cut_at from xs)
moved-some from to x xs e = rw (e, moved)

pub reorder_at-result :
    (clock : Clock) (state : QueueState) (from to : ℕ) (after : QueueState) (saved : Bool)
    → reorder_at clock state (pos from) (pos to) ≡ ok (after, saved)
    → (item : QueueItem) × (get_elem? state.items from ≡ some item)
      × (to < length state.items)
      × (((from ≡ to) × (after ≡ state))
          ⊎ (after
              ≡ finish clock
                  (put_at to item (cut_at from state.items))
                  (current_after_move from to state.current_position)))
unfolding reorder_at move_item
reorder_at-result clock state from to after saved h =
    elim (Option-cases (get_elem? state.items from)) [
      | inl e ↦ absurd (ground (arith, e))
      | inr (item, e) ↦ (
        item,
        e,
        ground (arith, e),
        ground (
          arith,
          e,
          without-cut_at state.items from,
          insert_at-put_at (cut_at from state.items) to item,
        ),
      )
    ]

pub get_elem?-lt {ℓ} :
    {A : Type ℓ} (xs : List A) (i : ℕ) {x : A} → get_elem? xs i ≡ some x → i < length xs
get_elem?-lt [] i e = absurd (cc e)
get_elem?-lt (y ∷ xs) zero e = omega arith
get_elem?-lt (y ∷ xs) (suc i) e = omega (arith, get_elem?-lt xs i e)

-- What the moves have in common, about the identities of the queue before.
moved_lem :
    (xs : List Identity) (x : Identity) (from to : ℕ)
    → get_elem? xs from ≡ some x
    → to < length xs
    → Perm (moved from to xs) xs × (get_elem? (moved from to xs) to ≡ get_elem? xs from)
moved_lem xs x from to e lt = rw (moved-some from to x xs e) (
  Perm.trans (put_at-perm to x (cut_at from xs)) (cut_at-perm from x xs e),
  get-put_at_self to x (cut_at from xs)
        (omega (arith, length-cut_at from xs (get_elem?-lt xs from e)))
      ∙ sym e,
)

identities-put_at :
    (clock : Clock) (items : List QueueItem) (item : QueueItem) (from to i : ℕ)
    → get_elem? items from ≡ some item
    → identities (finish clock (put_at to item (cut_at from items)) i).items
      ≡ moved from to (identities items)
identities-put_at clock items item from to i e =
    identities-finish clock (put_at to item (cut_at from items)) i
    ∙ map-put_at identity to item (cut_at from items)
    ∙ ap (put_at to (identity item)) (map-cut_at identity from items)
    ∙ sym (
        moved-some from to (identity item) (identities items) (get_elem?-map identity from items e))

moved_same :
    (xs : List Identity) (x : Identity) (from : ℕ)
    → get_elem? xs from ≡ some x
    → moved from from xs ≡ xs
moved_same xs x from e = moved-some from from x xs e ∙ put_at-cut_at from x xs e

pub current_after_move-lt :
    (from to i n : ℕ) → from < n → to < n → i < n → current_after_move from to i < n
unfolding current_after_move
current_after_move-lt from to i n hf ht hi = ground arith

moved_back :
    (xs : List Identity) (x : Identity) (from to : ℕ)
    → get_elem? xs from ≡ some x
    → to < length xs
    → moved to from (moved from to xs) ≡ xs
moved_back xs x from to e lt = rw (moved-some from to x xs e) (
    moved-some to from x (put_at to x (cut_at from xs)) (
      get-put_at_self to x (cut_at from xs)
        (omega (arith, length-cut_at from xs (get_elem?-lt xs from e))))
    ∙ ap (put_at from x) (
        cut_at-put_at to x (cut_at from xs)
          (omega (arith, length-cut_at from xs (get_elem?-lt xs from e))))
    ∙ put_at-cut_at from x xs e)

moved_IsValid :
    (clock : Clock) (items : List QueueItem) (item : QueueItem) (from to i : ℕ)
    → get_elem? items from ≡ some item
    → to < length items
    → i < length items
    → IsValid (finish clock (put_at to item (cut_at from items)) (current_after_move from to i))
moved_IsValid clock items item from to i e lt k =
    let h : from < length items = get_elem?-lt items from e in
    finish-IsValid clock _ _ (
      inr (
        omega (
          arith,
          length-put_at to item (cut_at from items),
          length-cut_at from items h,
          current_after_move-lt from to i (length items) h lt k,
        )))

moved_current :
    (clock : Clock) (items : List QueueItem) (item : QueueItem) (from to i : ℕ)
    → get_elem? items from ≡ some item
    → to < length items
    → i < length items
    → current (finish clock (put_at to item (cut_at from items)) (current_after_move from to i))
      ≡ get_elem? (identities items) i
moved_current clock items item from to i e lt k =
    let size : length (identities items) ≡ length items = length-map items identity in
    let at_from : get_elem? (identities items) from ≡ some (identity item) =
      get_elem?-map identity from items e in
    current-finish clock (put_at to item (cut_at from items)) (current_after_move from to i)
    ∙ ap (λ l. get_elem? l (current_after_move from to i))
        (map-put_at identity to item (cut_at from items)
          ∙ ap (put_at to (identity item)) (map-cut_at identity from items))
    ∙ current_after_move_lem (identities items) (identity item) from to i at_from
        (get_elem?-lt _ from at_from) (omega arith) (omega arith)

-- When ReorderQueue succeeds on a valid queue, the item at `from` has moved to `to`, all items are
-- kept, the current position follows the current item, and the queue is valid.
pub reorder_at_lem :
    (clock : Clock) (state : QueueState) (from to : ℕ) (after : QueueState) (saved : Bool)
    → IsValid state
    → reorder_at clock state (pos from) (pos to) ≡ ok (after, saved)
    → IsValid after
      × (identities after.items ≡ moved from to (identities state.items))
      × Perm (identities after.items) (identities state.items)
      × (get_elem? (identities after.items) to ≡ get_elem? (identities state.items) from)
      × (current after ≡ current state)
reorder_at_lem clock state from to after saved valid h =
    let (item, e, lt, place) = reorder_at-result clock state from to after saved h in
    let at_from : get_elem? (identities state.items) from ≡ some (identity item) =
      get_elem?-map identity from state.items e in
    let inside : state.current_position < length state.items = in_range_of state to valid lt in
    let size : length (identities state.items) ≡ length state.items =
      length-map state.items identity in
    let (same_items, arrived) =
      moved_lem (identities state.items) (identity item) from to at_from (omega arith) in
    elim place [
      | inl (same, unchanged) ↦
          let moves : identities after.items ≡ moved from to (identities state.items) =
            ap (λ (q : QueueState). identities q.items) unchanged
            ∙ sym (moved_same (identities state.items) (identity item) from at_from)
            ∙ ap (λ t. moved from t (identities state.items)) same in
          (rw unchanged valid, moves, rw moves same_items, rw moves arrived, rw unchanged)
      | inr changed ↦
          let moves : identities after.items ≡ moved from to (identities state.items) =
            ap (λ (q : QueueState). identities q.items) changed
            ∙ identities-put_at clock state.items item from to _ e in
          (
            rw changed
                (moved_IsValid clock state.items item from to state.current_position e lt inside),
            moves,
            rw moves same_items,
            rw moves arrived,
            rw changed
                (moved_current clock state.items item from to state.current_position e lt inside),
          )
    ]

-- Moving an item of a valid queue to another place and back restores the order of the queue and its
-- current item.
pub reorder_at_back :
    (clock later : Clock) (state : QueueState) (from to : ℕ) (there back : QueueState)
    (saved saved_back : Bool)
    → IsValid state
    → reorder_at clock state (pos from) (pos to) ≡ ok (there, saved)
    → reorder_at later there (pos to) (pos from) ≡ ok (back, saved_back)
    → (identities back.items ≡ identities state.items) × (current back ≡ current state)
reorder_at_back clock later state from to there back saved saved_back valid h k =
    let one = reorder_at_lem clock state from to there saved valid h in
    let two = reorder_at_lem later there to from back saved_back one.0 k in
    let (item, e, lt, place) = reorder_at-result clock state from to there saved h in
    (
      two.1
          ∙ ap (moved to from) one.1
          ∙ moved_back (identities state.items) (identity item) from to
              (get_elem?-map identity from state.items e)
              (omega (arith, length-map state.items identity)),
      two.4 ∙ one.4,
    )
