-- ===== src/PlayQueue/Next.antt =====
-- backend/internal/queue/queue.go: where AddToQueue puts an item, for each kind of position.
use open_music_player.Prelude.{
  ℕ, suc, ◌≤◌, ◌≡◌, ap, ◌∙◌, ◌⊎◌, inl, inr, Bool, true, List, some, arith, length, get_elem?,
  length-map, Text, text_eq, trim_space, atoi, codes, pos, min, sym, [],
}
use open_music_player.PlayQueue.Types.{
  QueueItem, QueueState, QueueError, ok, err, invalid_position, Result-cases,
}
use open_music_player.PlayQueue.Edit.{
  Clock, resolve_insert_position, insert_at, insert_item, finish,
}
use open_music_player.PlayQueue.Splice.{put_at, map-put_at, get-put_at_self}
use open_music_player.PlayQueue.Insert.{insert_at-put_at, resolve_bounds}
use open_music_player.PlayQueue.Recalculate.{identity, identities}
use open_music_player.PlayQueue.Current.{identities-finish}

identities_of_finish :
    (clock : Clock) (items : List QueueItem) (i : ℕ) (after : QueueState)
    → ok (finish clock items i) ≡ ok after
    → identities after.items ≡ identities items
identities_of_finish clock items i after h =
    let same : finish clock items i ≡ after = cc in rw (sym same) (identities-finish clock items i)

-- What a position means for a queue of `size` items: `next` is behind the current item or at the
-- end, `last` and no position are the end, and a number is an index, the end included.
abbrev pub Place : ℕ → ℕ → Text → ℕ → Type 0
Place size current position idx =
    ((text_eq (trim_space position) (codes "next") ≡ true) × (idx ≡ min (suc current) size))
    ⊎ (((text_eq (trim_space position) (codes "last") ≡ true)
          ⊎ (text_eq (trim_space position) [] ≡ true))
        × (idx ≡ size))
    ⊎ ((atoi (trim_space position) ≡ some (pos idx)) × (idx ≤ size))

resolve-Place :
    (state : QueueState) (position : Text) (idx : ℕ) (adjust : Bool)
    → resolve_insert_position state position ≡ ok (idx, adjust)
    → Place (length state.items) state.current_position position idx
unfolding resolve_insert_position
resolve-Place state position idx adjust h = ground arith

resolve_refuses :
    (state : QueueState) (position : Text) (e : QueueError) (idx : ℕ)
    → resolve_insert_position state position ≡ err e
    → (e ≡ invalid_position) × ¬ Place (length state.items) state.current_position position idx
unfolding resolve_insert_position
resolve_refuses state position e idx h = ground arith

-- When AddToQueue succeeds, the item stands at a place that the position names, and the rest keeps
-- its order.
pub insert_item-Place :
    (clock : Clock) (state : QueueState) (item : QueueItem) (position : Text) (after : QueueState)
    → insert_item clock state item position ≡ ok after
    → (idx : ℕ) × Place (length state.items) state.current_position position idx
      × (identities after.items ≡ put_at idx (identity item) (identities state.items))
      × (get_elem? (identities after.items) idx ≡ some (identity item))
unfolding insert_item
insert_item-Place clock state item position after h =
    elim (Result-cases (resolve_insert_position state position)) [
      | inl ((idx, adjust), e) ↦
          let put : identities after.items ≡ put_at idx (identity item) (identities state.items) =
            identities_of_finish clock (insert_at state.items idx item) _ after (rw e at h)
            ∙ ap identities (insert_at-put_at state.items idx item)
            ∙ map-put_at identity idx item state.items in
          (
            idx,
            resolve-Place state position idx adjust e,
            put,
            rw put (
                get-put_at_self idx (identity item) (identities state.items) (
                  omega (
                    arith,
                    (resolve_bounds state position idx adjust e).0,
                    length-map state.items identity,
                  ))),
          )
      | inr (x, e) ↦ absurd (ground (arith, e))
    ]

-- AddToQueue refuses only with ErrInvalidPosition, and only a position that names no place.
pub insert_item_refuses :
    (clock : Clock) (state : QueueState) (item : QueueItem) (position : Text) (e : QueueError)
    → insert_item clock state item position ≡ err e
    → (e ≡ invalid_position)
      × ((idx : ℕ) → ¬ Place (length state.items) state.current_position position idx)
unfolding insert_item
insert_item_refuses clock state item position e h =
    elim (Result-cases (resolve_insert_position state position)) [
      | inl ((idx, adjust), r) ↦ absurd (ground (arith, r))
      | inr (x, r) ↦
          let same : x ≡ e = ground (arith, r) in
          (
            sym same ∙ (resolve_refuses state position x 0 r).0,
            λ idx. (resolve_refuses state position x idx r).1,
          )
    ]
