-- ===== src/PlaylistSync/Tests.antt =====
-- Runs of the playlist reconciliation of backend/internal/playlistsync on concrete snapshots.
use mathlib.Core.List.{Perm}
use open_music_player.Prelude.{
  ◌≡◌, refl, ℕ, suc, true, false, not, ◌&&◌, ◌||◌, ◌↔◌, ◌+◌, some, none, List, [], ◌∷◌, All, Text,
  codes, text_eq, trim_space, pos, ℤ,
}
use open_music_player.PlaylistSync.Types.{
  Entry, Snapshot, SourceEntryMapping, ReconciliationPlan, ok, UrlParser, is_absolute_url,
  entry_fails, validate_entries, validate_complete, invalid_source_text,
}
use open_music_player.PlaylistSync.Reconcile.{
  contains, text_lt, mapping_before, insert_mapping, sort_mappings, check_mappings,
  normalized_mappings, first_position_of, first_stable_from, first_stable_entries, entry_ids,
  mapping_ids, desired_entry, additions_of, same_strings, plan_for, plan_reconciliation,
  result_for_plan,
}
use open_music_player.PlaylistSync.Duplicates.{NoRepeat}
use open_music_player.PlaylistSync.Mappings.{IsOrdered, IsTrimmed, normalized_mappings_lem}
use open_music_player.PlaylistSync.Effect.{plan_noop_iff, plan_membership}
use open_music_player.PlaylistSync.Counts.{result_for_plan_lem}
use open_music_player.PlaylistSync.Reconciler.{SourceAdapter, Store, reconcile}
use open_music_player.PlaylistSync.Outcome.{Settled, reconcile_lem}

abbrev entry : Text → Entry
entry id = record {
  stable_id = id;
  source_url = [];
  metadata = record {
    title = id;
    artist = [];
    album = [];
    uploader = [];
    duration_ms = pos 1000;
    thumbnail_url = [];
    unavailable = false;
    error = [];
  };
}

abbrev mapping : Text → ℤ → SourceEntryMapping
mapping id position = record { stable_entry_id = id; track_id = none; position = position }

-- The provider lists b, a, b.
abbrev snapshot : Snapshot
snapshot = record {
  source = record {
    provider = codes "p";
    playlist_id = codes "1";
    canonical_url = codes "u";
    metadata = record { title = []; description = []; owner = [] };
  };
  complete = true;
  entries = entry (codes "b") ∷ entry (codes "a") ∷ entry (codes "b") ∷ [];
}

-- The store has c and then a.
abbrev stored : List SourceEntryMapping
stored = mapping (codes "a") (pos 1) ∷ mapping (codes "c") (pos 0) ∷ []

abbrev ordered : List SourceEntryMapping
ordered = mapping (codes "c") (pos 0) ∷ mapping (codes "a") (pos 1) ∷ []

abbrev parse : UrlParser
parse text = some (codes "https", codes "h")

abbrev plan : ReconciliationPlan
plan = record {
  source = snapshot.source;
  additions = entry (codes "b") ∷ [];
  membership_removals = mapping (codes "c") (pos 0) ∷ [];
  ordered_entry_ids = codes "b" ∷ codes "a" ∷ [];
  reordered = false;
  skipped_duplicates =
      record { stable_entry_id = codes "b"; first_position = 0; duplicate_position = 2 } ∷ [];
  noop = false;
}

stored_sorts : normalized_mappings stored ≡ ok ordered
unfolding normalized_mappings sort_mappings insert_mapping mapping_before check_mappings contains
    invalid_source_text text_eq trim_space text_lt
stored_sorts = refl

plans : plan_reconciliation parse snapshot stored ≡ ok plan
unfolding plan_reconciliation plan_for validate_complete validate_entries entry_fails
    is_absolute_url invalid_source_text text_eq trim_space normalized_mappings sort_mappings
    insert_mapping mapping_before check_mappings contains text_lt first_stable_entries
    first_stable_from first_position_of additions_of desired_entry same_strings
plans = refl

normalized_mappings_lem_example :
    Perm ordered stored × IsOrdered ordered × NoRepeat (mapping_ids ordered) × All IsTrimmed ordered
normalized_mappings_lem_example = normalized_mappings_lem stored ordered stored_sorts

plan_noop_iff_example :
    (plan.noop ≡ true)
    ↔ (mapping_ids (sort_mappings stored) ≡ entry_ids (first_stable_entries snapshot.entries).0)
plan_noop_iff_example = plan_noop_iff parse snapshot stored plan plans

plan_membership_example :
    NoRepeat plan.ordered_entry_ids
    × ((id : Text)
        → (contains plan.ordered_entry_ids id ≡ contains (entry_ids snapshot.entries) id)
          × (((contains (mapping_ids stored) id
                  && not (contains (mapping_ids plan.membership_removals) id))
                || contains (entry_ids plan.additions) id)
              ≡ contains plan.ordered_entry_ids id))
plan_membership_example = plan_membership parse snapshot stored plan plans

result_for_plan_lem_example :
    let summary = result_for_plan plan in
    (summary.reused + summary.added + summary.skipped_duplicates ≡ 3)
    × (summary.reused + summary.removed ≡ 2)
result_for_plan_lem_example = result_for_plan_lem parse snapshot stored plan plans

-- A store in memory: one playlist's mappings.
abbrev World : Type 0
World = List SourceEntryMapping

-- Positions count up from the given one.
abbrev numbered : ℕ → List Text → List SourceEntryMapping
numbered n [] = []
numbered n (id ∷ ids) = mapping id (pos n) ∷ numbered (suc n) ids

abbrev adapter : SourceAdapter World
adapter w url = (w, ok snapshot)

abbrev store : Store World
store = record {
  list_source_entry_mappings = λ w id source. (w, ok w);
  apply_reconciliation = λ w id plan. (numbered 0 plan.ordered_entry_ids, ok tt);
}

reconcile_lem_example :
    Settled parse store
      (pos 7)
      snapshot
      stored
      (reconcile parse (some adapter) (some store) stored (pos 7) (codes "u"))
reconcile_lem_example =
    reconcile_lem parse adapter store stored (pos 7) (codes "u") snapshot refl refl
