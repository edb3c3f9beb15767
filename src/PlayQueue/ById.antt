-- ===== src/PlayQueue/ById.antt =====
-- backend/internal/queue/queue.go: the methods that find an item by its ID.
use open_music_player.Prelude.{
  ℕ, zero, suc, ◌+◌, ◌≡◌, ◌≢◌, refl, sym, ap, ◌∙◌, inl, inr, true, false, ◌||◌, List, [], ◌∷◌, some,
  arith, Text, text_eq, text_eq_iff, text_eq_refl, Bool-cases, get_elem?,
}
use open_music_player.PlayQueue.Types.{SourceCandidate, QueueItem, QueueState, ok, queued}
use open_music_player.PlayQueue.Edit.{
  Clock, insert_item, source_item, finish, recalculate_from, recalculate_item, find_item,
  has_source, retry_first, retry_item, download_job_of, retry_state,
}
use open_music_player.PlayQueue.Splice.{put_at}
use open_music_player.PlayQueue.Recalculate.{identities, identity, Numbered}
use open_music_player.PlayQueue.Current.{insert_item-cases, identities-finish}

find_item-from :
    (id : Text) (i : ℕ) (items : List QueueItem) (item : QueueItem)
    → Numbered i items
    → find_item id items ≡ some item
    → (k : ℕ) × (item.position ≡ i + k)
      × (get_elem? items k ≡ some item)
      × (text_eq item.id id ≡ true)
unfolding find_item
find_item-from id i [] item n e = absurd (cc e)
find_item-from id i (x ∷ xs) item n e = elim (Bool-cases (text_eq x.id id)) [
  | inl hit ↦
      let same : x ≡ item = ground (arith, hit) in
      (0, ground (arith, ap (λ (y : QueueItem). y.position) same), ap some same, rw (sym same) hit)
  | inr miss ↦
      let (k, at, there, named) = find_item-from id (suc i) xs item n.1 (ground (arith, miss)) in
      (suc k, omega arith, there, named)
]

-- In a numbered queue the stored position of an item leads back to the item.
pub find_item-position :
    (id : Text) (items : List QueueItem) (item : QueueItem)
    → Numbered 0 items
    → find_item id items ≡ some item
    → (get_elem? items item.position ≡ some item) × (text_eq item.id id ≡ true)
find_item-position id items item n e =
    let (k, at, there, named) = find_item-from id 0 items item n e in
    (ap (get_elem? items) (omega arith) ∙ there, named)

has_source-put_at :
    (id job : Text) (candidate : SourceCandidate) (now i : ℕ) (items : List QueueItem)
    → has_source id job (put_at i (source_item id candidate job now) items) ≡ true
unfolding has_source source_item
has_source-put_at id job candidate now zero items = ground (arith, text_eq_refl id)
has_source-put_at id job candidate now (suc i) [] = ground (arith, text_eq_refl id)
has_source-put_at id job candidate now (suc i) (x ∷ xs) =
    ground (arith, has_source-put_at id job candidate now i xs)

has_source-recalculate_from :
    (id job : Text) (now i : ℕ) (items : List QueueItem)
    → has_source id job (recalculate_from now i items) ≡ has_source id job items
unfolding has_source recalculate_from recalculate_item
has_source-recalculate_from id job now i [] = refl
has_source-recalculate_from id job now i (x ∷ xs) =
    ap (λ b. (text_eq x.id id || text_eq x.download_job_id job) || b)
      (has_source-recalculate_from id job now (suc i) xs)

-- A source item that was added is found by the next call for the same intent.
pub has_source-insert_item :
    (clock : Clock) (state after : QueueState) (id job position : Text)
    (candidate : SourceCandidate) (now : ℕ)
    → insert_item clock state (source_item id candidate job now) position ≡ ok after
    → has_source id job after.items ≡ true
has_source-insert_item clock state after id job position candidate now h =
    let (idx, le, place) =
      insert_item-cases clock state (source_item id candidate job now) position after h in
    elim place [
      | inl (before, e) ↦ rw e (added clock idx (suc state.current_position))
      | inr (behind, e) ↦ rw e (added clock idx state.current_position)
    ]
  where
    added :
        (c : Clock) (idx i : ℕ)
        → has_source id job
            (finish c (put_at idx (source_item id candidate job now) state.items) i).items
          ≡ true
    added c idx i =
        unfold finish in
        has_source-recalculate_from id job c.recalculated_at 0 _
        ∙ has_source-put_at id job candidate now idx state.items

identities-retry_first :
    (now : ℕ) (id : Text) (items : List QueueItem)
    → identities (retry_first now id items) ≡ identities items
unfolding retry_first retry_item
identities-retry_first now id [] = refl
identities-retry_first now id (x ∷ xs) = elim (Bool-cases (text_eq x.id id)) [
  | inl hit ↦ rw hit
  | inr miss ↦ rw miss (ap (◌∷◌ (identity x)) (identities-retry_first now id xs))
]

find_item-retry_first :
    (now recalculated_at : ℕ) (id : Text) (i : ℕ) (items : List QueueItem) (item : QueueItem)
    → find_item id items ≡ some item
    → (idx : ℕ) × (find_item id (recalculate_from recalculated_at i (retry_first now id items))
        ≡ some (recalculate_item recalculated_at idx (retry_item now item)))
unfolding find_item retry_first recalculate_from recalculate_item retry_item
find_item-retry_first now recalculated_at id i [] item e = absurd (cc e)
find_item-retry_first now recalculated_at id i (x ∷ xs) item e =
    elim (Bool-cases (text_eq x.id id)) [
      | inl hit ↦
          let same : x ≡ item = ground (arith, hit) in
          (
            i,
            rw hit (
                rw hit
                  (ap (λ y. some (recalculate_item recalculated_at i (retry_item now y))) same)),
          )
      | inr miss ↦
          let (idx, e') =
            find_item-retry_first now recalculated_at id (suc i) xs item (ground (arith, miss)) in
          (idx, rw miss (rw miss e'))
    ]

recalculate_item-retry_item :
    (now recalculated_at i : ℕ) (item : QueueItem)
    → ((recalculate_item recalculated_at i (retry_item now item)).playback_state ≡ queued)
      × ((recalculate_item recalculated_at i (retry_item now item)).progress ≡ 0)
      × ((recalculate_item recalculated_at i (retry_item now item)).can_play ≡ false)
      × ((recalculate_item recalculated_at i (retry_item now item)).can_retry ≡ false)
unfolding recalculate_item retry_item text_eq
recalculate_item-retry_item now recalculated_at i item = ground arith

-- RetryQueueItem on a loaded queue, for an ID whose first item has a download job: it succeeds and
-- returns the job; the items keep their places and identities, and the current position stays; the
-- item is queued at progress 0, and can be neither played nor retried.
pub retry_state_lem :
    (now recalculated_at : ℕ) (state : QueueState) (id : Text) (item : QueueItem)
    → find_item id state.items ≡ some item
    → item.download_job_id ≢ []
    → (after : QueueState) × (retry_state now recalculated_at state id
        ≡ ok (after, item.download_job_id))
      × (identities after.items ≡ identities state.items)
      × (after.current_position ≡ state.current_position)
      × (retried : QueueItem) × (find_item id after.items ≡ some retried)
      × (retried.playback_state ≡ queued)
      × (retried.progress ≡ 0)
      × (retried.can_play ≡ false)
      × (retried.can_retry ≡ false)
retry_state_lem now recalculated_at state id item e has_job =
    let clock : Clock = record { recalculated_at = recalculated_at; saved_at = now } in
    let (idx, e') = find_item-retry_first now recalculated_at id 0 state.items item e in
    let (a, b, c, d) = recalculate_item-retry_item now recalculated_at idx item in
    (
      finish clock (retry_first now id state.items) state.current_position,
      unfold retry_state download_job_of in
          rw (e, download_job_of) (ground (arith, e, text_eq_iff item.download_job_id [])),
      identities-finish clock (retry_first now id state.items) state.current_position
          ∙ identities-retry_first now id state.items,
      unfold finish in refl,
      recalculate_item recalculated_at idx (retry_item now item),
      unfold finish in e',
      a,
      b,
      c,
      d,
    )
