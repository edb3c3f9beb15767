-- ===== src/PlaylistSync/Reconciler.antt =====
-- backend/internal/playlistsync/reconciler.go: the Reconcile method. The adapter and the store are
-- interfaces that other code implements: records of functions on a world, each absent if nil.
use open_music_player.Prelude.{
  true, false, not, Option, none, some, List, Text, ℤ, pos, ltb_ℤ, if◌then◌else◌,
}
use open_music_player.PlaylistSync.Types.{
  Source, Snapshot, SourceEntryMapping, ReconciliationPlan, Summary, Checked, ok, err,
  invalid_playlist_id, missing_adapter, missing_store, UrlParser, validate_complete,
}
use open_music_player.PlaylistSync.Reconcile.{plan_reconciliation, result_for_plan}

-- SourceAdapter
abbrev pub SourceAdapter : Type 0 → Type 0
SourceAdapter W = W → Text → W × Checked Snapshot

pub record Store (W : Type 0) : Type 0 where
  pub list_source_entry_mappings : W → ℤ → Source → W × Checked (List SourceEntryMapping)
  pub apply_reconciliation : W → ℤ → ReconciliationPlan → W × Checked (Unit {0})

module _ {W : Type 0} where
  -- The end of Reconcile, for a plan.
  unfoldable pub carry_out : Store W → W → ℤ → ReconciliationPlan → W × Checked Summary
  carry_out store w id plan = elim plan.noop [
    | true ↦ (w, ok (result_for_plan plan))
    | false ↦
        let (w', applied) = store.apply_reconciliation w id plan in
        elim applied [ err e ↦ (w', err e) | ok u ↦ (w', ok (result_for_plan plan)) ]
  ]

  -- Reconcile from the resolved snapshot on.
  unfoldable pub reconcile_snapshot : UrlParser → Store W → W → ℤ → Snapshot → W × Checked Summary
  unfolding carry_out
  reconcile_snapshot parse store w id snapshot = elim (validate_complete parse snapshot) [
    | err e ↦ (w, err e)
    | ok u ↦
        let (w', listed) = store.list_source_entry_mappings w id snapshot.source in
        elim listed [
          | err e ↦ (w', err e)
          | ok mappings ↦ elim (plan_reconciliation parse snapshot mappings) [
            | err e ↦ (w', err e)
            | ok plan ↦ carry_out store w' id plan
          ]
        ]
  ]

  unfoldable pub reconcile :
      UrlParser → Option (SourceAdapter W) → Option (Store W) → W → ℤ → Text → W × Checked Summary
  unfolding reconcile_snapshot
  reconcile parse adapter store w id url =
      if not (ltb_ℤ (pos 0) id) then (w, err invalid_playlist_id) else elim adapter [
        | none ↦ (w, err missing_adapter)
        | some resolve ↦ elim store [
          | none ↦ (w, err missing_store)
          | some seam ↦
              let (w', resolved) = resolve w url in
              elim resolved [
                | err e ↦ (w', err e)
                | ok snapshot ↦ reconcile_snapshot parse seam w' id snapshot
              ]
        ]
      ]
