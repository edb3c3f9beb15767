-- ===== src/PlayQueue/Current.antt =====
-- backend/internal/queue/queue.go: the state that the methods keep, and what happens to the item at
-- the current position.
use open_music_player.Prelude.{
  ◌≢◌, ℕ, suc, ◌≤◌, ◌<◌, ◌≡◌, refl, ap, sym, ◌∙◌, ◌⊎◌, inl, inr, true, Option, List, [], ◌∷◌, arith,
  length, All, get_elem?, some, none, Text, text_eq_iff, trim_space, codes, atoi, pos, length-map,
}
use open_music_player.PlayQueue.Types.{QueueItem, QueueState, ok, Result-cases}
use open_music_player.PlayQueue.Edit.{
  recalculate_from, Clock, resolve_insert_position, finish, insert_at, insert_item,
}
use open_music_player.PlayQueue.Splice.{
  put_at, length-put_at, map-put_at, get-put_at_above, get-put_at_below,
}
use open_music_player.PlayQueue.Insert.{insert_at-put_at, resolve_bounds}
use open_music_player.PlayQueue.Recalculate.{
  Identity, identity, identities, Numbered, IsSettled, recalculate_from-identities,
  recalculate_from-Numbered, recalculate_from-IsSettled, length-recalculate_from,
}

-- The stored positions are the indices, the fields agree, and the current position names an item
-- unless the queue is empty, when it is 0.
pub record IsValid (state : QueueState) : Type 0 where
  pub numbered : Numbered 0 state.items
  pub settled : All IsSettled state.items
  pub in_range :
      ((state.items ≡ []) × (state.current_position ≡ 0))
      ⊎ (state.current_position < length state.items)

pub identities-finish :
    (clock : Clock) (items : List QueueItem) (current : ℕ)
    → identities (finish clock items current).items ≡ identities items
unfolding finish
identities-finish clock items current = recalculate_from-identities clock.recalculated_at 0 items

pub finish-IsValid :
    (clock : Clock) (items : List QueueItem) (current : ℕ)
    → ((items ≡ []) × (current ≡ 0)) ⊎ (current < length items)
    → IsValid (finish clock items current)
unfolding finish
finish-IsValid clock items current h = record {
  numbered = recalculate_from-Numbered clock.recalculated_at 0 items;
  settled = recalculate_from-IsSettled clock.recalculated_at 0 items;
  in_range = elim h [
    | inl (e, z) ↦ inl (ap (recalculate_from clock.recalculated_at 0) e ∙ recalculate_from-nil, z)
    | inr lt ↦ inr (omega (arith, length-recalculate_from clock.recalculated_at 0 items))
  ];
}
  where
    recalculate_from-nil : recalculate_from clock.recalculated_at 0 [] ≡ []
    recalculate_from-nil = unfold recalculate_from in refl

-- The item at the current position, if there is one.
abbrev pub current : QueueState → Option Identity
current state = get_elem? (identities state.items) state.current_position

pub current-finish :
    (clock : Clock) (items : List QueueItem) (i : ℕ)
    → current (finish clock items i) ≡ get_elem? (identities items) i
unfolding finish
current-finish clock items i = rw (recalculate_from-identities clock.recalculated_at 0 items)

current-put_at_above :
    (clock : Clock) (items : List QueueItem) (item : QueueItem) (idx i : ℕ)
    → idx ≤ i
    → idx ≤ length items
    → current (finish clock (put_at idx item items) (suc i)) ≡ get_elem? (identities items) i
current-put_at_above clock items item idx i h k =
    current-finish clock (put_at idx item items) (suc i)
    ∙ ap (λ l. get_elem? l (suc i)) (map-put_at identity idx item items)
    ∙ get-put_at_above idx i (identity item) (identities items) h
        (omega (arith, length-map items identity))

current-put_at_below :
    (clock : Clock) (items : List QueueItem) (item : QueueItem) (idx i : ℕ)
    → i < idx
    → i < length items
    → current (finish clock (put_at idx item items) i) ≡ get_elem? (identities items) i
current-put_at_below clock items item idx i h k =
    current-finish clock (put_at idx item items) i
    ∙ ap (λ l. get_elem? l i) (map-put_at identity idx item items)
    ∙ get-put_at_below idx i (identity item) (identities items) h
        (omega (arith, length-map items identity))

-- What insertion does: where the item goes, and the new current position.
pub insert_item-cases :
    (clock : Clock) (state : QueueState) (item : QueueItem) (position : Text) (after : QueueState)
    → insert_item clock state item position ≡ ok after
    → (idx : ℕ) × (idx ≤ length state.items)
      × (((idx ≤ state.current_position)
            × (after ≡ finish clock (put_at idx item state.items) (suc state.current_position)))
          ⊎ ((state.current_position < length state.items → state.current_position < idx)
              × (after ≡ finish clock (put_at idx item state.items) state.current_position)))
unfolding insert_item
insert_item-cases clock state item position after h =
    elim (Result-cases (resolve_insert_position state position)) [
      | inl ((idx, adjust), e) ↦ (
        idx,
        (resolve_bounds state position idx adjust e).0,
        ground (
          arith,
          e,
          resolve_bounds state position idx adjust e,
          insert_at-put_at state.items idx item,
        ),
      )
      | inr (x, e) ↦ absurd (ground (arith, e))
    ]

-- If the current position names an item, then after AddToQueue or EnsureSourceCandidateWithID has
-- inserted one it names the same item, and the queue is valid.
pub insert_item_keeps_current :
    (clock : Clock) (state : QueueState) (item : QueueItem) (position : Text) (after : QueueState)
    → state.current_position < length state.items
    → insert_item clock state item position ≡ ok after
    → (current after ≡ current state) × IsValid after
insert_item_keeps_current clock state item position after inside h =
    let (idx, le, place) = insert_item-cases clock state item position after h in
    elim place [
      | inl (before, e) ↦ rw e (
        current-put_at_above clock state.items item idx state.current_position before le,
        finish-IsValid clock _ _ (inr (omega (arith, length-put_at idx item state.items))),
      )
      | inr (behind, e) ↦ rw e (
        current-put_at_below clock state.items item idx state.current_position (behind inside)
            inside,
        finish-IsValid clock _ _ (inr (omega (arith, length-put_at idx item state.items))),
      )
    ]

atoi_words : (atoi (codes "next") ≡ none) × (atoi (codes "last") ≡ none) × (atoi [] ≡ none)
unfolding atoi
atoi_words = (refl, refl, refl)

resolve_zero :
    (state : QueueState) (position : Text)
    → atoi (trim_space position) ≡ some (pos 0)
    → resolve_insert_position state position ≡ ok (0, true)
unfolding resolve_insert_position
resolve_zero state position zeroth = ground (
  arith,
  atoi_words,
  text_eq_iff (trim_space position) (codes "next"),
  text_eq_iff (trim_space position) (codes "last"),
  text_eq_iff (trim_space position) [],
)

beyond-IsValid :
    (state : QueueState)
    → state.current_position ≡ length state.items
    → state.items ≢ []
    → ¬ IsValid state
beyond-IsValid state e some_items valid = ground (arith, valid.in_range)

-- A valid empty queue takes an item at an explicit index 0 as one at or before the current
-- position: the current position becomes 1 in a queue of one item, and the queue is not valid.
pub insert_first_loses_current :
    (clock : Clock) (state : QueueState) (item : QueueItem) (position : Text)
    → IsValid state
    → state.items ≡ []
    → atoi (trim_space position) ≡ some (pos 0)
    → (after : QueueState) × (insert_item clock state item position ≡ ok after)
      × (length after.items ≡ 1)
      × (after.current_position ≡ 1)
      × ¬ IsValid after
unfolding insert_item
insert_first_loses_current clock state item position valid none_yet zeroth = (
  finish clock (insert_at state.items 0 item) (suc state.current_position),
  rw (resolve_zero state position zeroth) refl,
  one,
  at_one,
  beyond-IsValid _ (at_one ∙ sym one) (λ e. absurd (omega (arith, ap length e, one))),
)
  where
    inserted : insert_at state.items 0 item ≡ item ∷ []
    inserted = insert_at-put_at state.items 0 item ∙ ap (put_at 0 item) none_yet

    one :
        length (finish clock (insert_at state.items 0 item) (suc state.current_position)).items ≡ 1
    one = rw inserted (unfold finish in length-recalculate_from clock.recalculated_at 0 (item ∷ []))

    at_one :
        (finish clock (insert_at state.items 0 item) (suc state.current_position)).current_position
        ≡ 1
    at_one = unfold finish in ground (arith, valid.in_range, none_yet)
