-- ===== src/PlaylistSync/Effect.antt =====
-- backend/internal/playlistsync/reconciler.go: the effect of a plan on the stored membership, and
-- its summary.
use open_music_player.Prelude.{
  ◌≡◌, refl, ap, ◌∙◌, sym, inl, inr, ◌↔◌, Bool, true, not, ◌||◌, ◌&&◌, List, arith, keep, keep-All,
  keep-none, keep-none_inv, Text,
}
use open_music_player.PlaylistSync.Types.{
  Entry, Snapshot, SourceEntryMapping, SkippedDuplicate, ReconciliationPlan, Checked-cases, ok,
  UrlParser, validate_complete,
}
use open_music_player.PlaylistSync.Reconcile.{
  contains, sort_mappings, normalized_mappings, first_stable_entries, entry_ids, mapping_ids,
  same_strings, is_empty, plan_for, plan_reconciliation,
}
use open_music_player.PlaylistSync.Duplicates.{NoRepeat, first_stable_entries_lem}
use open_music_player.PlaylistSync.Mappings.{normalized_mappings-ok, contains-sort_mappings}
use open_music_player.PlaylistSync.Plan.{
  same_strings_iff, contains-keep, All-contains, is_empty-nil, map_nil_inv, plan_for_additions,
  plan_for_removals,
}

module _ (snapshot : Snapshot) (ordered : List SourceEntryMapping) (entries : List Entry)
    (duplicates : List SkippedDuplicate) where
  noop_parts :
      (plan_for snapshot ordered entries duplicates).noop ≡ true
      → (is_empty (plan_for snapshot ordered entries duplicates).additions ≡ true)
        × (is_empty (plan_for snapshot ordered entries duplicates).membership_removals ≡ true)
        × (same_strings
              (keep (contains (entry_ids entries)) (mapping_ids ordered))
              (keep (contains (mapping_ids ordered)) (entry_ids entries))
            ≡ true)
  unfolding plan_for
  noop_parts h = ground arith

  noop_of_parts :
      is_empty (plan_for snapshot ordered entries duplicates).additions ≡ true
      → is_empty (plan_for snapshot ordered entries duplicates).membership_removals ≡ true
      → same_strings
          (keep (contains (entry_ids entries)) (mapping_ids ordered))
          (keep (contains (mapping_ids ordered)) (entry_ids entries))
        ≡ true
      → (plan_for snapshot ordered entries duplicates).noop ≡ true
  unfolding plan_for
  noop_of_parts a b c = ground arith

  noop-same :
      (plan_for snapshot ordered entries duplicates).noop ≡ true
      → mapping_ids ordered ≡ entry_ids entries
  noop-same h =
      let (none_added, none_removed, same_order) = noop_parts h in
      let all_stored = keep-none_inv (contains (mapping_ids ordered)) (entry_ids entries) (
        sym (plan_for_additions snapshot ordered entries duplicates)
        ∙ ap entry_ids (is_empty-nil _ none_added)) in
      let all_desired = keep-none_inv (contains (entry_ids entries)) (mapping_ids ordered) (
        sym (plan_for_removals snapshot ordered entries duplicates)
        ∙ ap mapping_ids (is_empty-nil _ none_removed)) in
      sym (keep-All (contains (entry_ids entries)) (mapping_ids ordered) all_desired)
      ∙ (same_strings_iff _ _).0 same_order
      ∙ keep-All (contains (mapping_ids ordered)) (entry_ids entries) all_stored

  same-noop :
      mapping_ids ordered ≡ entry_ids entries
      → (plan_for snapshot ordered entries duplicates).noop ≡ true
  same-noop e =
      noop_of_parts
        (map_nil_inv (λ x. x.stable_id) _
          (plan_for_additions snapshot ordered entries duplicates
            ∙ rw e (
                keep-none (contains (entry_ids entries)) (entry_ids entries)
                  (All-contains (entry_ids entries)))))
        (map_nil_inv (λ x. x.stable_entry_id) _
          (plan_for_removals snapshot ordered entries duplicates
            ∙ rw e (
                keep-none (contains (entry_ids entries)) (entry_ids entries)
                  (All-contains (entry_ids entries)))))
        ((same_strings_iff _ _).1 (rw e refl))

-- How a successful plan is made.
pub plan_reconciliation-ok :
    (parse : UrlParser) (snapshot : Snapshot) (mappings : List SourceEntryMapping)
    (plan : ReconciliationPlan)
    → plan_reconciliation parse snapshot mappings ≡ ok plan
    → (validate_complete parse snapshot ≡ ok tt)
      × (normalized_mappings mappings ≡ ok (sort_mappings mappings))
      × (plan
          ≡ plan_for snapshot
              (sort_mappings mappings)
              (first_stable_entries snapshot.entries).0
              (first_stable_entries snapshot.entries).1)
unfolding plan_reconciliation
plan_reconciliation-ok parse snapshot mappings plan h =
    elim (Checked-cases (validate_complete parse snapshot)) [
      | inr (x, bad) ↦ absurd (ground (arith, bad, h))
      | inl (u, good) ↦ elim (Checked-cases (normalized_mappings mappings)) [
        | inr (x, bad) ↦ absurd (ground (arith, good, bad, h))
        | inl (ordered, sorted) ↦
            let same : ordered ≡ sort_mappings mappings =
              (normalized_mappings-ok mappings ordered sorted).0 in
            (good, sorted ∙ ap ok same, ground (arith, good, sorted, same, h))
      ]
    ]

-- A plan has nothing to do exactly if the stored IDs, by position, are the snapshot's IDs without
-- repetition, in the snapshot's order.
pub plan_noop_iff :
    (parse : UrlParser) (snapshot : Snapshot) (mappings : List SourceEntryMapping)
    (plan : ReconciliationPlan)
    → plan_reconciliation parse snapshot mappings ≡ ok plan
    → (plan.noop ≡ true)
      ↔ (mapping_ids (sort_mappings mappings) ≡ entry_ids (first_stable_entries snapshot.entries).0)
plan_noop_iff parse snapshot mappings plan h =
    let made = (plan_reconciliation-ok parse snapshot mappings plan h).2 in
    (
      (λ e.
          noop-same snapshot (sort_mappings mappings) (first_stable_entries snapshot.entries).0
            (first_stable_entries snapshot.entries).1 (rw made at e)),
      (λ e. rw made (
          same-noop snapshot (sort_mappings mappings) (first_stable_entries snapshot.entries).0
            (first_stable_entries snapshot.entries).1 e)),
    )

membership-Bool : (s d : Bool) → ((s && not (s && not d)) || (d && not s)) ≡ d
membership-Bool s d = ground arith

unchanged_membership :
    (snapshot : Snapshot) (ordered : List SourceEntryMapping) (entries : List Entry)
    (duplicates : List SkippedDuplicate) (stored : List Text) (id : Text)
    → contains (mapping_ids ordered) id ≡ contains stored id
    → let plan = plan_for snapshot ordered entries duplicates in
      ((contains stored id && not (contains (mapping_ids plan.membership_removals) id))
        || contains (entry_ids plan.additions) id)
      ≡ contains plan.ordered_entry_ids id
unchanged_membership snapshot ordered entries duplicates stored id e =
    rw
      (
        sym e,
        plan_for_additions snapshot ordered entries duplicates,
        plan_for_removals snapshot ordered entries duplicates,
        contains-keep (λ x. not (contains (mapping_ids ordered) x)) (entry_ids entries) id,
        contains-keep (λ x. not (contains (entry_ids entries) x)) (mapping_ids ordered) id,
      )
      (unfold plan_for in
        membership-Bool (contains (mapping_ids ordered) id) (contains (entry_ids entries) id))

-- Taking the removals from the stored IDs and adding the additions gives exactly the IDs of the
-- snapshot, which the plan orders without repetition.
pub plan_membership :
    (parse : UrlParser) (snapshot : Snapshot) (mappings : List SourceEntryMapping)
    (plan : ReconciliationPlan)
    → plan_reconciliation parse snapshot mappings ≡ ok plan
    → NoRepeat plan.ordered_entry_ids
      × ((id : Text)
          → (contains plan.ordered_entry_ids id ≡ contains (entry_ids snapshot.entries) id)
            × (((contains (mapping_ids mappings) id
                    && not (contains (mapping_ids plan.membership_removals) id))
                  || contains (entry_ids plan.additions) id)
                ≡ contains plan.ordered_entry_ids id))
plan_membership parse snapshot mappings plan h =
    let (good, sorted, made) = plan_reconciliation-ok parse snapshot mappings plan h in
    let (distinct, same_ids, counted, located) = first_stable_entries_lem snapshot.entries in
    rw made (
      unfold plan_for in distinct,
      λ id. (
        unfold plan_for in same_ids id,
        unchanged_membership snapshot (sort_mappings mappings)
            (first_stable_entries snapshot.entries).0 (first_stable_entries snapshot.entries).1
            (mapping_ids mappings) id (contains-sort_mappings mappings id),
      ),
    )
