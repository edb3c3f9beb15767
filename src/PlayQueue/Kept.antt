-- ===== src/PlayQueue/Kept.antt =====
-- backend/internal/queue/queue.go: what Redis holds after the parts of a call: the
-- read, the edit and the save.
use open_music_player.Prelude.{
  ℕ, ◌≡◌, ◌≢◌, refl, sym, ap, ◌∙◌, ◌⊎◌, inl, inr, true, false, List, [], ◌∷◌, some, arith, Text,
  text_eq, text_eq_iff, Bool-cases, Option-cases, subst, get_elem?, ℤ, pos, negsuc,
}
use open_music_player.Redis.{KeyValue, KeyValueLaws}
use open_music_player.PlayQueue.Types.{
  SourceCandidate, QueueItem, QueueState, Result, ok, err, ◌>>=◌, Result-cases,
}
use open_music_player.PlayQueue.Edit.{
  Clock, insert_item, source_item, reorder_at, has_source, retry_state,
}
use open_music_player.PlayQueue.Consistent.{
  IsConsistent, insert_item-IsConsistent, reorder_at-IsConsistent, retry_state-IsConsistent,
}
use open_music_player.PlayQueue.Service.{
  queue_key, empty_queue, get_queue, save_result, ensure_loaded, reorder_loaded, retry_loaded,
}

pub empty-IsConsistent : (now : ℕ) → IsConsistent (empty_queue now)
empty-IsConsistent now = record { numbered = tt; settled = tt; bounded = omega arith }

has_source-nil :
    (id job : Text) (items : List QueueItem) → items ≡ [] → has_source id job items ≡ true → ⊥
unfolding has_source
has_source-nil id job [] e h = cc h
has_source-nil id job (x ∷ xs) e h = cc e

reorder_at-unsaved :
    (clock : Clock) (state : QueueState) (from to : ℤ) (after : QueueState)
    → reorder_at clock state from to ≡ ok (after, false)
    → (after ≡ state) × (state.items ≢ [])
unfolding reorder_at
reorder_at-unsaved clock state (negsuc n) to after h = absurd (cc h)
reorder_at-unsaved clock state (pos from) (negsuc n) after h = absurd (cc h)
reorder_at-unsaved clock state (pos from) (pos to) after h =
    elim (Option-cases (get_elem? state.items from)) [
      | inl e ↦ absurd (ground (arith, e, h))
      | inr (item, e) ↦ (ground (arith, e, h), λ q. absurd (cc (e, ap (λ l. get_elem? l from) q)))
    ]

module _ {redis : KeyValue QueueState} (laws : KeyValueLaws redis) where
  open redis use {Server, get, put, del}
  open laws use {content}

  -- Every queue that Redis holds is consistent.
  abbrev pub AllConsistent : Server → Type 0
  AllConsistent s = (k : Text) (state : QueueState) → content s k ≡ some state → IsConsistent state

  get-AllConsistent : (s : Server) (k : Text) → AllConsistent s → AllConsistent (get s k).0
  get-AllConsistent s k h j state e = h j state (sym (laws.get_keeps s k j) ∙ e)

  put-AllConsistent :
      (s : Server) (k : Text) (v : QueueState)
      → IsConsistent v
      → AllConsistent s
      → AllConsistent (put s k v).0
  put-AllConsistent s k v c h j state e = elim (Bool-cases (text_eq j k)) [
    | inl same ↦
        let at_k : content (put s k v).0 k ≡ some state =
          subst (λ i. content (put s k v).0 i ≡ some state) ((text_eq_iff j k).0 same) e in
        elim (Bool-cases (put s k v).1) [
          | inl saved ↦ subst IsConsistent (cc (at_k, laws.put_stores s k v saved)) c
          | inr lost ↦ elim (laws.put_fails s k v lost) [
            | inl new ↦ subst IsConsistent (cc (at_k, new)) c
            | inr old ↦ h k state (sym old ∙ at_k)
          ]
        ]
    | inr other ↦
        h j state (sym (laws.put_others s k j v (λ q. cc (other, (text_eq_iff j k).1 q))) ∙ e)
  ]

  -- What a call leaves: every stored queue is consistent, and a reported success is stored.
  abbrev pub Kept : Text → Server × Result QueueState → Type 0
  Kept user (s, r) =
      AllConsistent s
      × ((after : QueueState) → r ≡ ok after → content s (queue_key user) ≡ some after)

  save_result-Kept :
      (s : Server) (user : Text) (r : Result QueueState)
      → ((state : QueueState) → r ≡ ok state → IsConsistent state)
      → AllConsistent s
      → Kept user (save_result redis s user r)
  unfolding save_result
  save_result-Kept s user (err e) c h = (h, λ after e'. absurd (cc e'))
  save_result-Kept s user (ok state) c h = (
    put-AllConsistent s (queue_key user) state (c state refl) h,
    λ after e. elim (Bool-cases (put s (queue_key user) state).1) [
      | inl saved ↦
          laws.put_stores s (queue_key user) state saved ∙ ap some (ground (arith, saved, e))
      | inr lost ↦ absurd (ground (arith, lost, e))
    ],
  )

  -- What GetQueue returns is consistent, and is what Redis holds unless it holds nothing.
  get_queue-Kept :
      (s : Server) (user : Text) (now : ℕ) (state : QueueState)
      → AllConsistent s
      → (get_queue redis s user now).1 ≡ ok state
      → IsConsistent state
        × ((content (get_queue redis s user now).0 (queue_key user) ≡ some state)
            ⊎ (state ≡ empty_queue now))
  unfolding get_queue
  get_queue-Kept s user now state h e = elim (laws.get_reply s (queue_key user)) [
    | inl lost ↦ absurd (ground (arith, lost, e))
    | inr reply ↦ elim (Option-cases (content s (queue_key user))) [
      | inl nothing ↦
          let fresh : state ≡ empty_queue now = ground (arith, reply, nothing, e) in
          (rw fresh (empty-IsConsistent now), inr fresh)
      | inr (old, some_old) ↦
          let same : old ≡ state = ground (arith, reply, some_old, e) in
          let stored : content s (queue_key user) ≡ some state = some_old ∙ ap some same in
          (
            h (queue_key user) state stored,
            inl (laws.get_keeps s (queue_key user) (queue_key user) ∙ stored),
          )
    ]
  ]

  get_queue-AllConsistent :
      (s : Server) (user : Text) (now : ℕ)
      → AllConsistent s
      → AllConsistent (get_queue redis s user now).0
  unfolding get_queue
  get_queue-AllConsistent s user now h = get-AllConsistent s (queue_key user) h

  -- The methods that load the queue, edit it and save the result.
  pub edit-Kept :
      (s : Server) (user : Text) (now : ℕ) (edit : QueueState → Result QueueState)
      → ((state after : QueueState)
          → IsConsistent state
          → edit state ≡ ok after
          → IsConsistent after)
      → AllConsistent s
      → Kept user (
          save_result redis
            (get_queue redis s user now).0
            user
            ((get_queue redis s user now).1 >>= edit))
  edit-Kept s user now edit keeps h =
      save_result-Kept _ user _
        (λ after e. elim (Result-cases (get_queue redis s user now).1) [
          | inl (state, loaded) ↦
              keeps state after (get_queue-Kept s user now state h loaded).0 (rw loaded at e)
          | inr (x, failure) ↦ absurd (ground (arith, failure, e))
        ])
        (get_queue-AllConsistent s user now h)

  -- What a read leaves, and what it read.
  abbrev pub Loads : Text → Server × Result QueueState → Type 0
  Loads user (s, r) =
      AllConsistent s
      × ((state : QueueState)
          → r ≡ ok state
          → IsConsistent state
            × ((content s (queue_key user) ≡ some state) ⊎ ((now : ℕ) × (state ≡ empty_queue now))))

  pub get_queue-Loads :
      (s : Server) (user : Text) (now : ℕ)
      → AllConsistent s
      → Loads user (get_queue redis s user now)
  get_queue-Loads s user now h = (
    get_queue-AllConsistent s user now h,
    λ state e.
        let (c, stored) = get_queue-Kept s user now state h e in
        (c, elim stored [ inl held ↦ inl held | inr fresh ↦ inr (now, fresh) ]),
  )

  -- A queue that is returned as it was read, and is not the empty one that stands for no entry.
  unchanged-Kept :
      (user : Text) (s : Server) (state : QueueState)
      → state.items ≢ []
      → Loads user (s, ok state)
      → Kept user (s, ok state)
  unchanged-Kept user s state some_items loads = (
    loads.0,
    λ after e. elim (loads.1 state refl).1 [
      | inl held ↦ held ∙ ap some (cc e)
      | inr (now, fresh) ↦ absurd (some_items (ap (λ (q : QueueState). q.items) fresh))
    ],
  )

  pub ensure_loaded-Kept :
      (user id : Text) (candidate : SourceCandidate) (job position : Text) (now : ℕ) (clock : Clock)
      (s : Server) (loaded : Result QueueState)
      → Loads user (s, loaded)
      → Kept user (ensure_loaded redis user id candidate job position now clock s loaded)
  unfolding ensure_loaded
  ensure_loaded-Kept user id candidate job position now clock s (err x) loads =
      (loads.0, λ after e. absurd (cc e))
  ensure_loaded-Kept user id candidate job position now clock s (ok state) loads =
      elim (Bool-cases (has_source id job state.items)) [
        | inl there ↦
            rw there
              (unchanged-Kept user s state (λ e. has_source-nil id job state.items e there) loads)
        | inr absent ↦ rw absent (
            save_result-Kept s user
              (insert_item clock state (source_item id candidate job now) position)
              (λ after e.
                insert_item-IsConsistent clock state (source_item id candidate job now) position
                  after (loads.1 state refl).0 e)
              loads.0)
      ]

  pub reorder_loaded-Kept :
      (user : Text) (from to : ℤ) (clock : Clock) (s : Server) (loaded : Result QueueState)
      → Loads user (s, loaded)
      → Kept user (reorder_loaded redis user from to clock s loaded)
  unfolding reorder_loaded
  reorder_loaded-Kept user from to clock s (err x) loads = (loads.0, λ after e. absurd (cc e))
  reorder_loaded-Kept user from to clock s (ok state) loads =
      elim (Result-cases (reorder_at clock state from to)) [
        | inl ((after, true), e) ↦
            rw (e, reorder_loaded)
              (save_result-Kept s user (ok after)
                (λ q k.
                  subst IsConsistent (cc k) (
                    reorder_at-IsConsistent clock state from to after true (loads.1 state refl).0
                      e))
                loads.0)
        | inl ((after, false), e) ↦
            let (same, some_items) = reorder_at-unsaved clock state from to after e in
            rw (e, reorder_loaded, same) (unchanged-Kept user s state some_items loads)
        | inr (x, e) ↦ rw (e, reorder_loaded) (loads.0, λ after k. absurd (cc k))
      ]

  pub retry_loaded-Kept :
      (user id : Text) (now : ℕ) (clock : Clock) (s : Server) (loaded : Result QueueState)
      → Loads user (s, loaded)
      → let (s', r) = retry_loaded redis user id now clock s loaded in
        Kept user (s', r >>= (λ found. ok found.0))
  unfolding retry_loaded
  retry_loaded-Kept user id now clock s (err x) loads = (loads.0, λ after e. absurd (cc e))
  retry_loaded-Kept user id now clock s (ok state) loads =
      elim (Result-cases (retry_state now clock.recalculated_at state id)) [
        | inr (x, e) ↦ rw (e, retry_loaded) (loads.0, λ after k. absurd (cc k))
        | inl ((after, job), e) ↦
            let kept =
              save_result-Kept s user (ok after)
                (λ again same.
                  retry_state-IsConsistent now clock.recalculated_at state id again job
                    (loads.1 state refl).0 (e ∙ ap (λ q. ok (q, job)) (cc same)))
                loads.0 in
            rw (e, retry_loaded)
              (
                kept.0,
                λ again k.
                    kept.1 again (keep_first (save_result redis s user (ok after)).1 job again k),
              )
      ]
    where
      with_job : QueueState → Text → Result (QueueState × Text)
      with_job q job = ok (q, job)

      keep_first :
          (saved : Result QueueState) (job : Text) (again : QueueState)
          → ((saved >>= (λ (q : QueueState). with_job q job))
              >>= (λ (found : QueueState × Text). ok found.0))
            ≡ ok again
          → saved ≡ ok again
      keep_first (ok q) job again k = k
      keep_first (err x) job again k = absurd (cc k)

  pub del-AllConsistent : (s : Server) (k : Text) → AllConsistent s → AllConsistent (del s k).0
  del-AllConsistent s k h j state e = elim (Bool-cases (text_eq j k)) [
    | inl same ↦
        let at_k : content (del s k).0 k ≡ some state =
          subst (λ i. content (del s k).0 i ≡ some state) ((text_eq_iff j k).0 same) e in
        elim (Bool-cases (del s k).1) [
          | inl gone ↦ absurd (cc (at_k, laws.del_removes s k gone))
          | inr lost ↦ elim (laws.del_fails s k lost) [
            | inl none_left ↦ absurd (cc (at_k, none_left))
            | inr old ↦ h k state (sym old ∙ at_k)
          ]
        ]
    | inr other ↦
        h j state (sym (laws.del_others s k j (λ q. cc (other, (text_eq_iff j k).1 q))) ∙ e)
  ]
