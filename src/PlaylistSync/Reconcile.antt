-- ===== src/PlaylistSync/Reconcile.antt =====
-- backend/internal/playlistsync/reconciler.go: PlanReconciliation and its helpers. A Go map whose
-- keys alone matter is the list of its keys.
use open_music_player.Prelude.{
  ℕ, suc, ◌-◌, Bool, true, false, not, ◌&&◌, ◌||◌, Option, none, some, List, [], ◌∷◌, map, length,
  keep, Text, text_eq, if◌then◌else◌, ltb, ◌==◌, ltb_ℤ,
}
use open_music_player.PlaylistSync.Types.{
  Entry, Snapshot, SourceEntryMapping, SkippedDuplicate, ReconciliationPlan, Summary, Checked, ok,
  err, ◌>>=◌, ◌>>◌, invalid_mappings, UrlParser, invalid_source_text, validate_complete,
}

unfoldable pub contains : List Text → Text → Bool
contains [] id = false
contains (x ∷ xs) id = text_eq x id || contains xs id

-- Go's `<` on strings.
unfoldable pub text_lt : Text → Text → Bool
text_lt [] [] = false
text_lt [] (d ∷ t) = true
text_lt (c ∷ s) [] = false
text_lt (c ∷ s) (d ∷ t) = if c == d then text_lt s t else ltb c d

unfoldable pub mapping_before : SourceEntryMapping → SourceEntryMapping → Bool
mapping_before left right =
    ltb_ℤ left.position right.position
    || (not (ltb_ℤ right.position left.position)
        && text_lt left.stable_entry_id right.stable_entry_id)

-- A mapping goes behind all that are not after it, so equal ones keep their order.
unfoldable pub insert_mapping :
    SourceEntryMapping → List SourceEntryMapping → List SourceEntryMapping
insert_mapping m [] = m ∷ []
insert_mapping m (x ∷ xs) = if mapping_before x m then x ∷ insert_mapping m xs else m ∷ x ∷ xs

-- `sort.SliceStable`.
unfoldable pub sort_mappings : List SourceEntryMapping → List SourceEntryMapping
sort_mappings [] = []
sort_mappings (m ∷ ms) = insert_mapping m (sort_mappings ms)

-- The loop over the sorted mappings, with the IDs seen so far.
unfoldable pub check_mappings : List Text → List SourceEntryMapping → Checked (Unit {0})
check_mappings seen [] = ok tt
check_mappings seen (m ∷ ms) =
    if invalid_source_text m.stable_entry_id
    then err invalid_mappings
    else if contains seen m.stable_entry_id
    then err invalid_mappings
    else check_mappings (m.stable_entry_id ∷ seen) ms

unfoldable pub normalized_mappings : List SourceEntryMapping → Checked (List SourceEntryMapping)
normalized_mappings mappings = do
  let ordered = sort_mappings mappings
  check_mappings [] ordered
  ok ordered

unfoldable pub first_position_of : List (Text × ℕ) → Text → Option ℕ
first_position_of [] id = none
first_position_of ((x, p) ∷ rest) id = if text_eq x id then some p else first_position_of rest id

-- The loop of firstStableEntries at `position`, with the positions recorded so far.
unfoldable pub first_stable_from :
    ℕ → List (Text × ℕ) → List Entry → List Entry × List SkippedDuplicate
first_stable_from position seen [] = ([], [])
first_stable_from position seen (entry ∷ rest) = elim (first_position_of seen entry.stable_id) [
  | some first ↦
      let (unique, duplicates) = first_stable_from (suc position) seen rest in
      (
        unique,
        record {
          stable_entry_id = entry.stable_id;
          first_position = first;
          duplicate_position = position;
        }
            ∷ duplicates,
      )
  | none ↦
      let (unique, duplicates) =
        first_stable_from (suc position) ((entry.stable_id, position) ∷ seen) rest in
      (entry ∷ unique, duplicates)
]

unfoldable pub first_stable_entries : List Entry → List Entry × List SkippedDuplicate
first_stable_entries entries = first_stable_from 0 [] entries

abbrev pub entry_ids : List Entry → List Text
entry_ids = map λ e. e.stable_id

abbrev pub mapping_ids : List SourceEntryMapping → List Text
mapping_ids = map λ m. m.stable_entry_id

-- `desired[stableID]`: the entry stored last under the ID.
unfoldable pub desired_entry : List Entry → Text → Option Entry
desired_entry [] id = none
desired_entry (e ∷ es) id = elim (desired_entry es id) [
  | some later ↦ some later
  | none ↦ if text_eq e.stable_id id then some e else none
]

-- The loop that appends to `plan.Additions`; every ID in it is a key of `desired`.
unfoldable pub additions_of : List Entry → List Text → List Text → List Entry
additions_of desired stored [] = []
additions_of desired stored (id ∷ ids) =
    let rest = additions_of desired stored ids in
    if contains stored id
    then rest
    else elim (desired_entry desired id) [ some e ↦ e ∷ rest | none ↦ rest ]

unfoldable pub same_strings : List Text → List Text → Bool
same_strings [] [] = true
same_strings [] (y ∷ ys) = false
same_strings (x ∷ xs) [] = false
same_strings (x ∷ xs) (y ∷ ys) = text_eq x y && same_strings xs ys

abbrev pub is_empty {ℓ} : {A : Type ℓ} → List A → Bool
is_empty [] = true
is_empty (x ∷ xs) = false

-- The plan for the sorted mappings and the entries without repetition.
unfoldable pub plan_for :
    Snapshot → List SourceEntryMapping → List Entry → List SkippedDuplicate → ReconciliationPlan
plan_for snapshot ordered entries duplicates =
    let desired_ids = entry_ids entries in
    let stored_ids = mapping_ids ordered in
    let existing_order = keep (contains desired_ids) stored_ids in
    let desired_existing_order = keep (contains stored_ids) desired_ids in
    let additions = additions_of entries stored_ids desired_ids in
    let removals = keep (λ m. not (contains desired_ids m.stable_entry_id)) ordered in
    let reordered = not (same_strings existing_order desired_existing_order) in
    record {
      source = snapshot.source;
      additions = additions;
      membership_removals = removals;
      ordered_entry_ids = desired_ids;
      reordered = reordered;
      skipped_duplicates = duplicates;
      noop = is_empty additions && is_empty removals && not reordered;
    }

unfoldable pub plan_reconciliation :
    UrlParser → Snapshot → List SourceEntryMapping → Checked ReconciliationPlan
plan_reconciliation parse snapshot mappings = do
  validate_complete parse snapshot
  ordered ← normalized_mappings mappings
  let (entries, duplicates) = first_stable_entries snapshot.entries
  ok (plan_for snapshot ordered entries duplicates)

unfoldable pub result_for_plan : ReconciliationPlan → Summary
result_for_plan plan = record {
  noop = plan.noop;
  added = length plan.additions;
  removed = length plan.membership_removals;
  reordered = plan.reordered;
  reused = length plan.ordered_entry_ids - length plan.additions;
  skipped_duplicates = length plan.skipped_duplicates;
}
