-- ===== src/PlaylistSync/Outcome.antt =====
-- backend/internal/playlistsync/reconciler.go: what Reconcile asks of its store, and what it returns.
use open_music_player.Prelude.{
  ◌≡◌, ◌≢◌, refl, ap, sym, subst, ◌∙◌, ◌⊎◌, inl, inr, true, false, some, List, Text, ℤ, pos, ltb_ℤ,
  Bool-cases, arith,
}
use open_music_player.PlaylistSync.Types.{
  Snapshot, SourceEntryMapping, ReconciliationPlan, Summary, Checked, Checked-cases, ok, err,
  SyncError, UrlParser, validate_complete,
}
use open_music_player.PlaylistSync.Reconcile.{
  mapping_ids, entry_ids, sort_mappings, first_stable_entries, plan_for, plan_reconciliation,
  result_for_plan,
}
use open_music_player.PlaylistSync.Effect.{plan_reconciliation-ok, plan_noop_iff}
use open_music_player.PlaylistSync.Reconciler.{
  SourceAdapter, Store, carry_out, reconcile_snapshot, reconcile,
}

module _ {W : Type 0} (parse : UrlParser) (store : Store W) (id : ℤ) (snapshot : Snapshot) where
  -- The snapshot's IDs without repetition, in its order.
  abbrev wanted : List Text
  wanted = entry_ids (first_stable_entries snapshot.entries).0

  abbrev listing : W → W × Checked (List SourceEntryMapping)
  listing w = store.list_source_entry_mappings w id snapshot.source

  -- The plan for the mappings that the store lists.
  abbrev IsPlanned : W → List SourceEntryMapping → ReconciliationPlan → Type 0
  IsPlanned w mappings plan =
      ((listing w).1 ≡ ok mappings)
      × (plan_reconciliation parse snapshot mappings ≡ ok plan)
      × (plan.ordered_entry_ids ≡ wanted)

  -- Where the listed IDs are in the wanted order, Reconcile succeeds and applies nothing.
  abbrev IsIdle : W → W × Checked Summary → Type 0
  IsIdle w (w', result) =
      (mappings : List SourceEntryMapping) × (plan : ReconciliationPlan) × IsPlanned w mappings plan
      × (mapping_ids (sort_mappings mappings) ≡ wanted)
      × (w' ≡ (listing w).0)
      × (result ≡ ok (result_for_plan plan))

  -- Where they are not, the store is asked once to apply a plan of the wanted order, and Reconcile
  -- succeeds exactly if the store does.
  abbrev IsApplied : W → W × Checked Summary → Type 0
  IsApplied w (w', result) =
      (mappings : List SourceEntryMapping) × (plan : ReconciliationPlan) × IsPlanned w mappings plan
      × (mapping_ids (sort_mappings mappings) ≢ wanted)
      × (((store.apply_reconciliation (listing w).0 id plan ≡ (w', ok tt))
            × (result ≡ ok (result_for_plan plan)))
          ⊎ ((e : SyncError) × (store.apply_reconciliation (listing w).0 id plan ≡ (w', err e))
              × (result ≡ err e)))

  -- The store is not asked to apply anything, and the error of the step that failed is returned.
  abbrev IsRefused : W → W × Checked Summary → Type 0
  IsRefused w (w', result) =
      ((e : SyncError) × (result ≡ err e)
        × (((validate_complete parse snapshot ≡ err e) × (w' ≡ w))
            ⊎ ((w' ≡ (listing w).0)
                × (((listing w).1 ≡ err e)
                    ⊎ ((mappings : List SourceEntryMapping) × ((listing w).1 ≡ ok mappings)
                        × (plan_reconciliation parse snapshot mappings ≡ err e))))))

  abbrev pub Settled : W → W × Checked Summary → Type 0
  Settled w result = IsIdle w result ⊎ IsApplied w result ⊎ IsRefused w result

  carry_out_idle :
      (w : W) (plan : ReconciliationPlan)
      → plan.noop ≡ true
      → carry_out store w id plan ≡ (w, ok (result_for_plan plan))
  unfolding carry_out
  carry_out_idle w plan idle = ground (arith, idle)

  carry_out_done :
      (w : W) (plan : ReconciliationPlan) (u : Unit {0})
      → plan.noop ≡ false
      → (store.apply_reconciliation w id plan).1 ≡ ok u
      → carry_out store w id plan
        ≡ ((store.apply_reconciliation w id plan).0, ok (result_for_plan plan))
  unfolding carry_out
  carry_out_done w plan u busy done = ground (arith, busy, done)

  carry_out_fails :
      (w : W) (plan : ReconciliationPlan) (e : SyncError)
      → plan.noop ≡ false
      → (store.apply_reconciliation w id plan).1 ≡ err e
      → carry_out store w id plan ≡ ((store.apply_reconciliation w id plan).0, err e)
  unfolding carry_out
  carry_out_fails w plan e busy failed = ground (arith, busy, failed)

  carry_out-Settled :
      (w : W) (mappings : List SourceEntryMapping) (plan : ReconciliationPlan)
      → IsPlanned w mappings plan
      → Settled w (carry_out store (listing w).0 id plan)
  carry_out-Settled w mappings plan planned =
      let noop = plan_noop_iff parse snapshot mappings plan planned.1 in
      let after = (listing w).0 in
      elim (Bool-cases plan.noop) [
        | inl idle ↦
            rw (carry_out_idle after plan idle)
              (inl (mappings, plan, planned, noop.0 idle, refl, refl))
        | inr busy ↦
            let other : mapping_ids (sort_mappings mappings) ≢ wanted =
              λ same. cc (busy, noop.1 same) in
            elim (Checked-cases (store.apply_reconciliation after id plan).1) [
              | inl (u, done) ↦ rw (carry_out_done after plan u busy done) (
                  inr (
                    inl (
                      mappings,
                      plan,
                      planned,
                      other,
                      inl (ap (λ r. ((store.apply_reconciliation after id plan).0, r)) done, refl),
                    )))
              | inr (e, failed) ↦ rw (carry_out_fails after plan e busy failed) (
                  inr (
                    inl (
                      mappings,
                      plan,
                      planned,
                      other,
                      inr (
                        e,
                        ap (λ r. ((store.apply_reconciliation after id plan).0, r)) failed,
                        refl,
                      ),
                    )))
            ]
      ]

  snapshot_planned :
      (w : W) (u : Unit {0}) (mappings : List SourceEntryMapping) (plan : ReconciliationPlan)
      → validate_complete parse snapshot ≡ ok u
      → (listing w).1 ≡ ok mappings
      → plan_reconciliation parse snapshot mappings ≡ ok plan
      → reconcile_snapshot parse store w id snapshot ≡ carry_out store (listing w).0 id plan
  unfolding reconcile_snapshot
  snapshot_planned w u mappings plan good listed planned = ground (arith, good, listed, planned)

  snapshot-Settled : (w : W) → Settled w (reconcile_snapshot parse store w id snapshot)
  unfolding reconcile_snapshot
  snapshot-Settled w = elim (Checked-cases (validate_complete parse snapshot)) [
    | inr (e, bad) ↦ rw (bad, reconcile_snapshot) (inr (inr (e, refl, inl (refl, refl))))
    | inl (u, good) ↦ elim (Checked-cases (listing w).1) [
      | inr (e, bad) ↦
          rw (good, bad, reconcile_snapshot) (inr (inr (e, refl, inr (refl, inl refl))))
      | inl (mappings, listed) ↦
          elim (Checked-cases (plan_reconciliation parse snapshot mappings)) [
            | inr (e, bad) ↦
                rw (good, listed, bad, reconcile_snapshot)
                  (inr (inr (e, refl, inr (refl, inr (mappings, refl, bad)))))
            | inl (plan, planned) ↦
                let ordered : plan.ordered_entry_ids ≡ wanted =
                  ap (λ p. p.ordered_entry_ids)
                    (plan_reconciliation-ok parse snapshot mappings plan planned).2
                  ∙ unfold plan_for in refl in
                subst (Settled w) (sym (snapshot_planned w u mappings plan good listed planned))
                  (carry_out-Settled w mappings plan (listed, planned, ordered))
          ]
    ]
  ]

module _ {W : Type 0} (parse : UrlParser) (adapter : SourceAdapter W) (store : Store W) where
  reconcile_resolved :
      (w : W) (id : ℤ) (url : Text) (snapshot : Snapshot)
      → ltb_ℤ (pos 0) id ≡ true
      → (adapter w url).1 ≡ ok snapshot
      → reconcile parse (some adapter) (some store) w id url
        ≡ reconcile_snapshot parse store (adapter w url).0 id snapshot
  unfolding reconcile
  reconcile_resolved w id url snapshot positive resolved = ground (arith, positive, resolved)

  -- If the provider resolves the URL to a snapshot, then for a positive playlist ID and whatever the
  -- store answers: where the IDs that the store lists are the snapshot's without repetition, in the
  -- snapshot's order, Reconcile applies nothing and succeeds; where they are not, it has the store apply
  -- one plan, of the snapshot's IDs in that order, and succeeds with the plan's summary or returns the
  -- store's error; and where the snapshot is not complete, the listing fails or no plan is made, it
  -- applies nothing and returns that error.
  pub reconcile_lem :
      (w : W) (id : ℤ) (url : Text) (snapshot : Snapshot)
      → ltb_ℤ (pos 0) id ≡ true
      → (adapter w url).1 ≡ ok snapshot
      → Settled parse store id snapshot
          (adapter w url).0
          (reconcile parse (some adapter) (some store) w id url)
  reconcile_lem w id url snapshot positive resolved =
      rw (reconcile_resolved w id url snapshot positive resolved)
        (snapshot-Settled parse store id snapshot (adapter w url).0)
