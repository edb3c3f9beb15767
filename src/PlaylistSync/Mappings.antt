-- ===== src/PlaylistSync/Mappings.antt =====
-- backend/internal/playlistsync/reconciler.go: normalizedMappings sorts the stored mappings and
-- accepts them only with distinct, trimmed IDs.
use mathlib.Core.List.{Perm}
use mathlib.Core.List.Perm
use open_music_player.Prelude.{
  ◌≡◌, ◌≢◌, refl, ap, trim_space, ltb_ℤ, ◌∙◌, inl, inr, true, false, ◌||◌, List, [], ◌∷◌, arith,
  All, Text, text_eq, text_eq_iff, Bool-cases, ltb_ℤ_asym,
}
use open_music_player.PlaylistSync.Types.{SourceEntryMapping, ok, invalid_source_text}
use open_music_player.PlaylistSync.Reconcile.{
  contains, text_lt, mapping_before, insert_mapping, sort_mappings, check_mappings,
  normalized_mappings, mapping_ids,
}
use open_music_player.PlaylistSync.Duplicates.{NoRepeat}

insert_mapping-perm :
    (m : SourceEntryMapping) (ms : List SourceEntryMapping) → Perm (insert_mapping m ms) (m ∷ ms)
unfolding insert_mapping
insert_mapping-perm m [] = Perm.refl _
insert_mapping-perm m (x ∷ xs) = elim (Bool-cases (mapping_before x m)) [
  | inl before ↦ rw before (Perm.trans (Perm.cons x (insert_mapping-perm m xs)) (Perm.swap m x xs))
  | inr after ↦ rw after (Perm.refl _)
]

sort_mappings-perm : (ms : List SourceEntryMapping) → Perm (sort_mappings ms) ms
unfolding sort_mappings
sort_mappings-perm [] = Perm.refl _
sort_mappings-perm (m ∷ ms) =
    Perm.trans (insert_mapping-perm m (sort_mappings ms)) (Perm.cons m (sort_mappings-perm ms))

-- No mapping is after the next one, as the comparison says.
abbrev IsSorted : List SourceEntryMapping → Type 0
IsSorted [] = Unit {0}
IsSorted (x ∷ []) = Unit {0}
IsSorted (x ∷ y ∷ rest) = (mapping_before y x ≡ false) × IsSorted (y ∷ rest)

text_lt_asym : (s t : Text) → text_lt s t ≡ true → text_lt t s ≡ false
unfolding text_lt
text_lt_asym [] [] h = refl
text_lt_asym [] (d ∷ t) h = refl
text_lt_asym (c ∷ s) [] h = cc h
text_lt_asym (c ∷ s) (d ∷ t) h = ground (arith, text_lt_asym s t)

mapping_before_asym :
    (a b : SourceEntryMapping) → mapping_before a b ≡ true → mapping_before b a ≡ false
unfolding mapping_before
mapping_before_asym a b h =
    ground
      (arith, text_lt_asym a.stable_entry_id b.stable_entry_id, ltb_ℤ_asym a.position b.position)

insert_mapping-IsSorted :
    (m : SourceEntryMapping) (ms : List SourceEntryMapping)
    → IsSorted ms
    → IsSorted (insert_mapping m ms)
unfolding insert_mapping
insert_mapping-IsSorted m [] h = tt
insert_mapping-IsSorted m (x ∷ []) h = ground (arith, mapping_before_asym x m)
insert_mapping-IsSorted m (x ∷ y ∷ rest) h = elim (Bool-cases (mapping_before x m)) [
  | inr after ↦ rw after (after, h)
  | inl before ↦
      let rest_ordered = insert_mapping-IsSorted m (y ∷ rest) h.1 in
      elim (Bool-cases (mapping_before y m)) [
        | inl further ↦ rw (before, further) (h.0, rw further at rest_ordered)
        | inr here ↦ rw (before, here) (mapping_before_asym x m before, (here, h.1))
      ]
]

unseen_of :
    (a : Text) (seen : List Text) (ms : List SourceEntryMapping)
    → All
        (λ m.
          (invalid_source_text m.stable_entry_id ≡ false)
          × (contains (a ∷ seen) m.stable_entry_id ≡ false))
        ms
    → (contains (mapping_ids ms) a ≡ false)
      × All
          (λ m.
            (invalid_source_text m.stable_entry_id ≡ false)
            × (contains seen m.stable_entry_id ≡ false))
          ms
unfolding contains
unseen_of a seen [] h = (refl, tt)
unseen_of a seen (m ∷ ms) h =
    let (absent, unseen) = unseen_of a seen ms h.1 in
    (
      ground (arith, absent, h.0, text_eq_iff m.stable_entry_id a, text_eq_iff a m.stable_entry_id),
      ((h.0.0, ground (arith, h.0)), unseen),
    )

-- The IDs that pass the loop: trimmed, not empty, distinct and not among those seen before.
check_mappings-ok :
    (seen : List Text) (ms : List SourceEntryMapping)
    → check_mappings seen ms ≡ ok tt
    → NoRepeat (mapping_ids ms)
      × All
          (λ m.
            (invalid_source_text m.stable_entry_id ≡ false)
            × (contains seen m.stable_entry_id ≡ false))
          ms
unfolding check_mappings
check_mappings-ok seen [] h = (tt, tt)
check_mappings-ok seen (m ∷ ms) h =
    let rest : check_mappings (m.stable_entry_id ∷ seen) ms ≡ ok tt = ground arith in
    let (distinct, valid) = check_mappings-ok (m.stable_entry_id ∷ seen) ms rest in
    let (absent, unseen) = unseen_of m.stable_entry_id seen ms valid in
    ((absent, distinct), ((ground arith, ground arith), unseen))

pub sort_mappings-IsSorted : (ms : List SourceEntryMapping) → IsSorted (sort_mappings ms)
unfolding sort_mappings
sort_mappings-IsSorted [] = tt
sort_mappings-IsSorted (m ∷ ms) =
    insert_mapping-IsSorted m (sort_mappings ms) (sort_mappings-IsSorted ms)

pub normalized_mappings-ok :
    (mappings ordered : List SourceEntryMapping)
    → normalized_mappings mappings ≡ ok ordered
    → (ordered ≡ sort_mappings mappings) × (check_mappings [] (sort_mappings mappings) ≡ ok tt)
unfolding normalized_mappings
normalized_mappings-ok mappings ordered h = ground arith

-- The positions do not fall, and under one position the IDs do not.
abbrev pub IsOrdered : List SourceEntryMapping → Type 0
IsOrdered [] = Unit {0}
IsOrdered (x ∷ []) = Unit {0}
IsOrdered (x ∷ y ∷ rest) =
    (ltb_ℤ y.position x.position ≡ false)
    × (x.position ≡ y.position → text_lt y.stable_entry_id x.stable_entry_id ≡ false)
    × IsOrdered (y ∷ rest)

not_before :
    (x y : SourceEntryMapping)
    → mapping_before y x ≡ false
    → (ltb_ℤ y.position x.position ≡ false)
      × (x.position ≡ y.position → text_lt y.stable_entry_id x.stable_entry_id ≡ false)
unfolding mapping_before
not_before x y h = (
  ground arith,
  λ same. ground (arith, h, ap (λ i. ltb_ℤ i y.position) same, ap (λ i. ltb_ℤ y.position i) same),
)

IsSorted-IsOrdered : (ms : List SourceEntryMapping) → IsSorted ms → IsOrdered ms
IsSorted-IsOrdered [] h = tt
IsSorted-IsOrdered (x ∷ []) h = tt
IsSorted-IsOrdered (x ∷ y ∷ rest) h =
    let (place, id) = not_before x y h.0 in (place, id, IsSorted-IsOrdered (y ∷ rest) h.1)

-- An ID with text in it and without space around it.
abbrev pub IsTrimmed : SourceEntryMapping → Type 0
IsTrimmed m = (trim_space m.stable_entry_id ≡ m.stable_entry_id) × (m.stable_entry_id ≢ [])

valid-IsTrimmed :
    (m : SourceEntryMapping) → invalid_source_text m.stable_entry_id ≡ false → IsTrimmed m
unfolding invalid_source_text
valid-IsTrimmed m h =
    let id = m.stable_entry_id in
    let trimmed : trim_space id ≡ id = (text_eq_iff (trim_space id) id).0 (ground arith) in
    let filled : text_eq (trim_space id) [] ≡ false = ground arith in
    (trimmed, λ e. cc (filled, (text_eq_iff (trim_space id) []).1 (trimmed ∙ e)))

-- Accepted mappings are the given ones in order of position and then of ID; their IDs are distinct,
-- and none is empty or has space around it.
pub normalized_mappings_lem :
    (mappings ordered : List SourceEntryMapping)
    → normalized_mappings mappings ≡ ok ordered
    → Perm ordered mappings
      × IsOrdered ordered
      × NoRepeat (mapping_ids ordered)
      × All IsTrimmed ordered
normalized_mappings_lem mappings ordered h =
    let (same, passed) = normalized_mappings-ok mappings ordered h in
    let (distinct, valid) = check_mappings-ok [] (sort_mappings mappings) passed in
    rw same (
      sort_mappings-perm mappings,
      IsSorted-IsOrdered (sort_mappings mappings) (sort_mappings-IsSorted mappings),
      distinct,
      valid_of (sort_mappings mappings) valid,
    )
  where
    valid_of :
        (ms : List SourceEntryMapping)
        → All
            (λ m.
              (invalid_source_text m.stable_entry_id ≡ false)
              × (contains [] m.stable_entry_id ≡ false))
            ms
        → All IsTrimmed ms
    valid_of [] h = tt
    valid_of (m ∷ ms) h = (valid-IsTrimmed m h.0.0, valid_of ms h.1)

contains-insert_mapping :
    (m : SourceEntryMapping) (ms : List SourceEntryMapping) (id : Text)
    → contains (mapping_ids (insert_mapping m ms)) id
      ≡ (text_eq m.stable_entry_id id || contains (mapping_ids ms) id)
unfolding insert_mapping contains
contains-insert_mapping m [] id = refl
contains-insert_mapping m (x ∷ xs) id = ground (arith, contains-insert_mapping m xs id)

pub contains-sort_mappings :
    (ms : List SourceEntryMapping) (id : Text)
    → contains (mapping_ids (sort_mappings ms)) id ≡ contains (mapping_ids ms) id
unfolding sort_mappings contains
contains-sort_mappings [] id = refl
contains-sort_mappings (m ∷ ms) id =
    contains-insert_mapping m (sort_mappings ms) id
    ∙ ap (λ b. text_eq m.stable_entry_id id || b) (contains-sort_mappings ms id)
