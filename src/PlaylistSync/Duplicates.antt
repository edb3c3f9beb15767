-- ===== src/PlaylistSync/Duplicates.antt =====
-- backend/internal/playlistsync/reconciler.go: firstStableEntries keeps the first entry of each
-- stable ID and records the later ones.
use open_music_player.Prelude.{
  ℕ, zero, suc, ◌+◌, ◌<◌, ◌≡◌, refl, sym, inl, inr, false, ◌||◌, none, some, List, [], ◌∷◌, arith,
  length, get_elem?, drop, All, Text, text_eq, text_eq_iff, text_eq_refl, Bool-cases, Option-cases,
  is_some,
}
use open_music_player.PlaylistSync.Types.{Entry, SkippedDuplicate}
use open_music_player.PlaylistSync.Reconcile.{
  contains, first_position_of, first_stable_from, first_stable_entries, entry_ids,
}

-- No ID stands twice in the list.
abbrev pub NoRepeat : List Text → Type 0
NoRepeat [] = Unit {0}
NoRepeat (x ∷ xs) = (contains xs x ≡ false) × NoRepeat xs

module _ (position : ℕ) (seen : List (Text × ℕ)) (e : Entry) (es : List Entry) where
  -- The two rounds of the loop.
  known_step :
      (q : ℕ)
      → first_position_of seen e.stable_id ≡ some q
      → first_stable_from position seen (e ∷ es) ≡ (
        (first_stable_from (suc position) seen es).0,
        record { stable_entry_id = e.stable_id; first_position = q; duplicate_position = position }
            ∷ (first_stable_from (suc position) seen es).1,
      )
  unfolding first_stable_from
  known_step q h = rw (h, first_stable_from)

  fresh_step :
      first_position_of seen e.stable_id ≡ none
      → first_stable_from position seen (e ∷ es) ≡ (
        e ∷ (first_stable_from (suc position) ((e.stable_id, position) ∷ seen) es).0,
        (first_stable_from (suc position) ((e.stable_id, position) ∷ seen) es).1,
      )
  unfolding first_stable_from
  fresh_step h = rw (h, first_stable_from)

-- An ID that was seen before is not kept again.
seen-skipped :
    (id : Text) (position : ℕ) (seen : List (Text × ℕ)) (entries : List Entry) (p : ℕ)
    → first_position_of seen id ≡ some p
    → contains (entry_ids (first_stable_from position seen entries).0) id ≡ false
unfolding first_stable_from contains
seen-skipped id position seen [] p h = refl
seen-skipped id position seen (e ∷ es) p h =
    elim (Option-cases (first_position_of seen e.stable_id)) [
      | inr (q, known) ↦
          rw (known_step position seen e es q known) (seen-skipped id (suc position) seen es p h)
      | inl fresh ↦
          let other : text_eq e.stable_id id ≡ false =
            ground (arith, text_eq_iff e.stable_id id, fresh, h) in
          rw (fresh_step position seen e es fresh) (
            rw other (
              seen-skipped id (suc position) ((e.stable_id, position) ∷ seen) es p
                (unfold first_position_of in rw other h)))
    ]

first_stable_from-NoRepeat :
    (position : ℕ) (seen : List (Text × ℕ)) (entries : List Entry)
    → NoRepeat (entry_ids (first_stable_from position seen entries).0)
unfolding first_stable_from
first_stable_from-NoRepeat position seen [] = tt
first_stable_from-NoRepeat position seen (e ∷ es) =
    elim (Option-cases (first_position_of seen e.stable_id)) [
      | inr (q, known) ↦
          rw (known_step position seen e es q known)
            (first_stable_from-NoRepeat (suc position) seen es)
      | inl fresh ↦ rw (fresh_step position seen e es fresh) (
        seen-skipped e.stable_id (suc position) ((e.stable_id, position) ∷ seen) es position
            (unfold first_position_of in rw (text_eq_refl e.stable_id) refl),
        first_stable_from-NoRepeat (suc position) ((e.stable_id, position) ∷ seen) es,
      )
    ]

length-first_stable_from :
    (position : ℕ) (seen : List (Text × ℕ)) (entries : List Entry)
    → length (first_stable_from position seen entries).0
        + length (first_stable_from position seen entries).1
      ≡ length entries
unfolding first_stable_from
length-first_stable_from position seen [] = omega arith
length-first_stable_from position seen (e ∷ es) =
    elim (Option-cases (first_position_of seen e.stable_id)) [
      | inr (q, known) ↦
          rw (known_step position seen e es q known)
            (omega (arith, length-first_stable_from (suc position) seen es))
      | inl fresh ↦ rw (fresh_step position seen e es fresh) (
          omega
            (arith, length-first_stable_from (suc position) ((e.stable_id, position) ∷ seen) es))
    ]

contains-first_stable_from :
    (id : Text) (position : ℕ) (seen : List (Text × ℕ)) (entries : List Entry)
    → (contains (entry_ids (first_stable_from position seen entries).0) id
        || is_some (first_position_of seen id))
      ≡ (contains (entry_ids entries) id || is_some (first_position_of seen id))
unfolding first_stable_from contains first_position_of
contains-first_stable_from id position seen [] = refl
contains-first_stable_from id position seen (e ∷ es) =
    elim (Option-cases (first_position_of seen e.stable_id)) [
      | inr (q, known) ↦ rw (known_step position seen e es q known) (
          ground (
            arith,
            contains-first_stable_from id (suc position) seen es,
            text_eq_iff e.stable_id id,
            known,
          ))
      | inl fresh ↦ rw (fresh_step position seen e es fresh) (
          ground (
            arith,
            contains-first_stable_from id (suc position) ((e.stable_id, position) ∷ seen) es,
          ))
    ]

-- The entry at a position has the ID.
abbrev pub HasId : List Entry → ℕ → Text → Type 0
HasId entries i id = (e : Entry) × (get_elem? entries i ≡ some e) × (e.stable_id ≡ id)

-- A duplicate names two positions of the snapshot, in order, that hold its ID.
abbrev pub IsDuplicate : List Entry → SkippedDuplicate → Type 0
IsDuplicate entries d =
    (d.first_position < d.duplicate_position)
    × HasId entries d.first_position d.stable_entry_id
    × HasId entries d.duplicate_position d.stable_entry_id

drop_step :
    (i : ℕ) (xs rest : List Entry) (x : Entry)
    → drop i xs ≡ x ∷ rest
    → (get_elem? xs i ≡ some x) × (drop (suc i) xs ≡ rest)
drop_step i [] rest x h = absurd (drop_nil i h)
  where
    drop_nil : (j : ℕ) → drop j [] ≡ x ∷ rest → ⊥
    drop_nil zero e = cc e
    drop_nil (suc j) e = cc e
drop_step zero (y ∷ ys) rest x h = (cc h, cc h)
drop_step (suc i) (y ∷ ys) rest x h = drop_step i ys rest x h

-- Each recorded position holds its ID, and lies before `position`.
abbrev Recorded : List Entry → ℕ → List (Text × ℕ) → Type 0
Recorded entries position = All (λ r. (r.1 < position) × HasId entries r.1 r.0)

Recorded-suc :
    (entries : List Entry) (position : ℕ) (seen : List (Text × ℕ))
    → Recorded entries position seen
    → Recorded entries (suc position) seen
Recorded-suc entries position [] h = tt
Recorded-suc entries position (r ∷ rs) (one, rest) =
    ((omega arith, one.1), Recorded-suc entries position rs rest)

Recorded-find :
    (entries : List Entry) (position : ℕ) (seen : List (Text × ℕ)) (id : Text) (q : ℕ)
    → Recorded entries position seen
    → first_position_of seen id ≡ some q
    → (q < position) × HasId entries q id
unfolding first_position_of
Recorded-find entries position [] id q h e = absurd (cc e)
Recorded-find entries position ((x, p) ∷ rs) id q (one, rest) e = elim (Bool-cases (text_eq x id)) [
  | inl hit ↦
      let same : p ≡ q = ground (arith, hit, e) in
      let name : x ≡ id = (text_eq_iff x id).0 hit in rw (sym same, sym name) one
  | inr miss ↦ Recorded-find entries position rs id q rest (ground (arith, miss, e))
]

first_stable_from-IsDuplicate :
    (entries : List Entry) (position : ℕ) (seen : List (Text × ℕ)) (left : List Entry)
    → drop position entries ≡ left
    → Recorded entries position seen
    → All (IsDuplicate entries) (first_stable_from position seen left).1
unfolding first_stable_from
first_stable_from-IsDuplicate entries position seen [] at recorded = tt
first_stable_from-IsDuplicate entries position seen (e ∷ es) at recorded =
    let (here, there) = drop_step position entries es e at in
    elim (Option-cases (first_position_of seen e.stable_id)) [
      | inr (q, known) ↦
          let (before, has) = Recorded-find entries position seen e.stable_id q recorded known in
          rw (known_step position seen e es q known) (
            (before, has, (e, here, refl)),
            first_stable_from-IsDuplicate entries (suc position) seen es there
                (Recorded-suc entries position seen recorded),
          )
      | inl fresh ↦ rw (fresh_step position seen e es fresh) (
          first_stable_from-IsDuplicate entries (suc position) ((e.stable_id, position) ∷ seen) es
            there ((omega arith, (e, here, refl)), Recorded-suc entries position seen recorded))
    ]

-- The kept entries have each stable ID of the snapshot once; with the skipped ones they are as many
-- as its entries; and each skipped one names an earlier position and its own, both with its ID.
pub first_stable_entries_lem :
    (entries : List Entry)
    → NoRepeat (entry_ids (first_stable_entries entries).0)
      × ((id : Text)
          → contains (entry_ids (first_stable_entries entries).0) id
            ≡ contains (entry_ids entries) id)
      × (length (first_stable_entries entries).0 + length (first_stable_entries entries).1
          ≡ length entries)
      × All (IsDuplicate entries) (first_stable_entries entries).1
unfolding first_stable_entries
first_stable_entries_lem entries = (
  first_stable_from-NoRepeat 0 [] entries,
  (λ id. unfold first_position_of in ground (arith, contains-first_stable_from id 0 [] entries)),
  length-first_stable_from 0 [] entries,
  first_stable_from-IsDuplicate entries 0 [] entries refl tt,
)
