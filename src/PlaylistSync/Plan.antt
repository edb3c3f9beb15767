-- ===== src/PlaylistSync/Plan.antt =====
-- backend/internal/playlistsync/reconciler.go: what the plan does to the stored membership.
use open_music_player.Prelude.{
  ◌≡◌, refl, sym, inl, inr, ◌↔◌, Bool, true, not, ◌&&◌, some, List, [], ◌∷◌, map, arith, All, keep,
  Text, text_eq, text_eq_iff, text_eq_refl, Bool-cases, Option-cases,
}
use open_music_player.PlaylistSync.Types.{Entry, Snapshot, SourceEntryMapping, SkippedDuplicate}
use open_music_player.PlaylistSync.Reconcile.{
  contains, entry_ids, mapping_ids, desired_entry, additions_of, same_strings, is_empty, plan_for,
}

pub same_strings_iff : (xs ys : List Text) → (same_strings xs ys ≡ true) ↔ (xs ≡ ys)
unfolding same_strings
same_strings_iff [] [] = ((λ h. refl), (λ h. refl))
same_strings_iff [] (y ∷ ys) = ground arith
same_strings_iff (x ∷ xs) [] = ground arith
same_strings_iff (x ∷ xs) (y ∷ ys) = ground (arith, same_strings_iff xs ys, text_eq_iff x y)

desired_entry-id :
    (entries : List Entry) (id : Text) (e : Entry)
    → desired_entry entries id ≡ some e
    → e.stable_id ≡ id
unfolding desired_entry
desired_entry-id [] id e h = absurd (cc h)
desired_entry-id (x ∷ xs) id e h = elim (Option-cases (desired_entry xs id)) [
  | inr (y, later) ↦ desired_entry-id xs id e (ground (arith, later, h))
  | inl nothing ↦ elim (Bool-cases (text_eq x.stable_id id)) [
    | inl hit ↦
        let same : x ≡ e = ground (arith, nothing, hit, h) in
        rw (sym same) ((text_eq_iff x.stable_id id).0 hit)
    | inr miss ↦ absurd (ground (arith, nothing, miss, h))
  ]
]

-- An ID among the entries' is a key of the map.
desired_entry-some :
    (entries : List Entry) (id : Text)
    → contains (entry_ids entries) id ≡ true
    → (e : Entry) × (desired_entry entries id ≡ some e)
unfolding contains desired_entry
desired_entry-some [] id h = absurd (cc h)
desired_entry-some (e ∷ es) id h = elim (Option-cases (desired_entry es id)) [
  | inr (x, later) ↦ (x, ground (arith, later))
  | inl nothing ↦ (e, ground (arith, nothing, h, desired_entry-some es id))
]

-- The added entries are the desired ones that are not stored, in their order.
additions_of-ids :
    (entries : List Entry) (stored ids : List Text)
    → All (λ id. contains (entry_ids entries) id ≡ true) ids
    → entry_ids (additions_of entries stored ids) ≡ keep (λ id. not (contains stored id)) ids
unfolding additions_of
additions_of-ids entries stored [] h = refl
additions_of-ids entries stored (id ∷ ids) h =
    let (e, at) = desired_entry-some entries id h.0 in
    ground (arith, at, desired_entry-id entries id e at, additions_of-ids entries stored ids h.1)

pub contains-keep :
    (p : Text → Bool) (xs : List Text) (id : Text)
    → contains (keep p xs) id ≡ (contains xs id && p id)
unfolding contains
contains-keep p [] id = refl
contains-keep p (x ∷ xs) id = ground (arith, contains-keep p xs id, text_eq_iff x id)

All-contains_mono :
    (x : Text) (xs ys : List Text)
    → All (λ y. contains xs y ≡ true) ys
    → All (λ y. contains (x ∷ xs) y ≡ true) ys
unfolding contains
All-contains_mono x xs [] h = tt
All-contains_mono x xs (y ∷ ys) h = (ground (arith, h.0), All-contains_mono x xs ys h.1)

pub All-contains : (xs : List Text) → All (λ x. contains xs x ≡ true) xs
All-contains [] = tt
All-contains (x ∷ xs) =
    (unfold contains in ground (arith, text_eq_refl x), All-contains_mono x xs xs (All-contains xs))

mapping_ids-keep :
    (p : Text → Bool) (ms : List SourceEntryMapping)
    → mapping_ids (keep (λ m. p m.stable_entry_id) ms) ≡ keep p (mapping_ids ms)
mapping_ids-keep p [] = refl
mapping_ids-keep p (m ∷ ms) = ground (arith, mapping_ids-keep p ms)

removals_ids :
    (desired : List Text) (ms : List SourceEntryMapping)
    → mapping_ids (keep (λ m. not (contains desired m.stable_entry_id)) ms)
      ≡ keep (λ id. not (contains desired id)) (mapping_ids ms)
removals_ids desired ms = mapping_ids-keep (λ id. not (contains desired id)) ms

pub map_nil_inv {ℓ κ} :
    {A : Type ℓ} {B : Type κ} (f : A → B) (xs : List A) → map f xs ≡ [] → is_empty xs ≡ true
map_nil_inv f [] h = refl
map_nil_inv f (x ∷ xs) h = absurd (cc h)

pub is_empty-nil {ℓ} : {A : Type ℓ} (xs : List A) → is_empty xs ≡ true → xs ≡ []
is_empty-nil [] h = refl
is_empty-nil (x ∷ xs) h = absurd (cc h)

module _ (snapshot : Snapshot) (ordered : List SourceEntryMapping) (entries : List Entry)
    (duplicates : List SkippedDuplicate) where
  pub plan_for_additions :
      entry_ids (plan_for snapshot ordered entries duplicates).additions
      ≡ keep (λ id. not (contains (mapping_ids ordered) id)) (entry_ids entries)
  unfolding plan_for
  plan_for_additions =
      additions_of-ids entries (mapping_ids ordered) (entry_ids entries)
        (All-contains (entry_ids entries))

  pub plan_for_removals :
      mapping_ids (plan_for snapshot ordered entries duplicates).membership_removals
      ≡ keep (λ id. not (contains (entry_ids entries) id)) (mapping_ids ordered)
  unfolding plan_for
  plan_for_removals = removals_ids (entry_ids entries) ordered
