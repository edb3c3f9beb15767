-- ===== src/PlaylistSync/Counts.antt =====
-- backend/internal/playlistsync/reconciler.go: resultForPlan, the counts of a plan.
use open_music_player.Prelude.{
  ℕ, suc, ◌+◌, ◌≡◌, refl, ap, ◌∙◌, sym, Bool, false, not, List, [], ◌∷◌, arith, keep, length,
  length-map, Text, text_eq_iff, text_eq_comm, if◌then◌else◌,
}
use open_music_player.PlaylistSync.Types.{
  Entry, Snapshot, SourceEntryMapping, SkippedDuplicate, ReconciliationPlan, ok, UrlParser,
}
use open_music_player.PlaylistSync.Reconcile.{
  contains, insert_mapping, sort_mappings, first_stable_entries, entry_ids, mapping_ids, plan_for,
  plan_reconciliation, result_for_plan,
}
use open_music_player.PlaylistSync.Duplicates.{NoRepeat, first_stable_entries_lem}
use open_music_player.PlaylistSync.Mappings.{normalized_mappings_lem}
use open_music_player.PlaylistSync.Plan.{plan_for_additions, plan_for_removals}
use open_music_player.PlaylistSync.Effect.{plan_reconciliation-ok}

length-keep :
    (p : Text → Bool) (xs : List Text)
    → length (keep p xs) + length (keep (λ x. not (p x)) xs) ≡ length xs
length-keep p [] = omega arith
length-keep p (x ∷ xs) = ground (arith, length-keep p xs)

-- 1 if the ID is in the list.
abbrev member : List Text → Text → ℕ
member xs id = if contains xs id then 1 else 0

-- One more wanted ID keeps one more element of a list that has it once.
keep-cons :
    (d : Text) (ds xs : List Text)
    → contains ds d ≡ false
    → NoRepeat xs
    → length (keep (contains (d ∷ ds)) xs) ≡ length (keep (contains ds) xs) + member xs d
unfolding contains
keep-cons d ds [] absent distinct = omega arith
keep-cons d ds (x ∷ xs) absent distinct = ground (
  arith,
  keep-cons d ds xs absent distinct.1,
  text_eq_iff d x,
  text_eq_comm d x,
  absent,
  distinct.0,
)

keep-nil : (xs : List Text) → length (keep (contains []) xs) ≡ 0
unfolding contains
keep-nil [] = refl
keep-nil (x ∷ xs) = keep-nil xs

-- What two lists without repetition share is as long in either.
length-keep_comm :
    (xs ys : List Text)
    → NoRepeat xs
    → NoRepeat ys
    → length (keep (contains xs) ys) ≡ length (keep (contains ys) xs)
length-keep_comm [] ys dx dy = keep-nil ys
length-keep_comm (x ∷ xs) ys dx dy =
    ground (arith, keep-cons x xs ys dx.0 dy, length-keep_comm xs ys dx.1 dy)

module _ (snapshot : Snapshot) (ordered : List SourceEntryMapping) (entries : List Entry)
    (duplicates : List SkippedDuplicate) where
  plan_for_counts :
      NoRepeat (entry_ids entries)
      → NoRepeat (mapping_ids ordered)
      → let summary = result_for_plan (plan_for snapshot ordered entries duplicates) in
        (summary.reused + summary.added ≡ length entries)
        × (summary.reused + summary.removed ≡ length ordered)
  plan_for_counts de dm =
      let plan = plan_for snapshot ordered entries duplicates in
      let added : length plan.additions
          ≡ length (keep (λ id. not (contains (mapping_ids ordered) id)) (entry_ids entries)) =
        sym (length-map plan.additions (λ e. e.stable_id))
        ∙ ap length (plan_for_additions snapshot ordered entries duplicates) in
      let removed : length plan.membership_removals
          ≡ length (keep (λ id. not (contains (entry_ids entries) id)) (mapping_ids ordered)) =
        sym (length-map plan.membership_removals (λ m. m.stable_entry_id))
        ∙ ap length (plan_for_removals snapshot ordered entries duplicates) in
      let ids : length plan.ordered_entry_ids ≡ length entries =
        unfold plan_for in length-map entries (λ e. e.stable_id) in
      let split_entries = length-keep (contains (mapping_ids ordered)) (entry_ids entries) in
      let split_mappings = length-keep (contains (entry_ids entries)) (mapping_ids ordered) in
      let shared = length-keep_comm (mapping_ids ordered) (entry_ids entries) dm de in
      let width_entries = length-map entries (λ e. e.stable_id) in
      let width_mappings = length-map ordered (λ m. m.stable_entry_id) in
      unfold result_for_plan in
      (
        omega (
          arith, added, removed, ids, split_entries, split_mappings, shared, width_entries,
          width_mappings,
        ),
        omega (
          arith, added, removed, ids, split_entries, split_mappings, shared, width_entries,
          width_mappings,
        ),
      )

length-insert_mapping :
    (m : SourceEntryMapping) (ms : List SourceEntryMapping)
    → length (insert_mapping m ms) ≡ suc (length ms)
unfolding insert_mapping
length-insert_mapping m [] = refl
length-insert_mapping m (x ∷ xs) = ground (arith, length-insert_mapping m xs)

length-sort_mappings : (ms : List SourceEntryMapping) → length (sort_mappings ms) ≡ length ms
unfolding sort_mappings
length-sort_mappings [] = refl
length-sort_mappings (m ∷ ms) =
    omega (arith, length-insert_mapping m (sort_mappings ms), length-sort_mappings ms)

-- The summary of a plan counts every snapshot entry once, as reused, added or a skipped duplicate,
-- and every stored mapping once, as reused or removed.
pub result_for_plan_lem :
    (parse : UrlParser) (snapshot : Snapshot) (mappings : List SourceEntryMapping)
    (plan : ReconciliationPlan)
    → plan_reconciliation parse snapshot mappings ≡ ok plan
    → let summary = result_for_plan plan in
      (summary.reused + summary.added + summary.skipped_duplicates ≡ length snapshot.entries)
      × (summary.reused + summary.removed ≡ length mappings)
result_for_plan_lem parse snapshot mappings plan h =
    let (valid, sorted, made) = plan_reconciliation-ok parse snapshot mappings plan h in
    let (ordered_ok, in_order, distinct_mappings, trimmed) =
      normalized_mappings_lem mappings (sort_mappings mappings) sorted in
    let (distinct, same_ids, counted, located) = first_stable_entries_lem snapshot.entries in
    let (entries, duplicates) = first_stable_entries snapshot.entries in
    let (wanted, stored) =
      plan_for_counts snapshot (sort_mappings mappings) (first_stable_entries snapshot.entries).0
        (first_stable_entries snapshot.entries).1 distinct distinct_mappings in
    let skipped : (result_for_plan (
          plan_for snapshot (sort_mappings mappings) (first_stable_entries snapshot.entries).0
            (first_stable_entries snapshot.entries).1)).skipped_duplicates
        ≡ length (first_stable_entries snapshot.entries).1 =
      unfold result_for_plan plan_for in refl in
    rw made (
      omega (arith, wanted, skipped, counted),
      omega (arith, stored, length-sort_mappings mappings),
    )
