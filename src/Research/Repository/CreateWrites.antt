-- ===== src/Research/Repository/CreateWrites.antt =====
-- backend/internal/research/postgres_repository.go: Create is made of the writes.
use open_music_player.Prelude.{
  ℕ, ◌≡◌, refl, subst, inl, inr, Bool, true, false, not, ◌&&◌, Option, none, some, Text,
  Option-cases, if◌then◌else◌,
}
use open_music_player.Research.Types.{
  VariantAssignment, DegradationCode, RevisionPayload, CreateInput,
}
use open_music_player.Research.Repository.Sql.{select_where}
use open_music_player.Research.Repository.Tables.{
  event_created, event_revision_appended, event_degraded, Db, Repository, Snapshot, returned,
  unused, Holds, bind-Holds,
}
use open_music_player.Research.Repository.Queries.{no_payload}
use open_music_player.Research.Repository.Create.{
  create, insert_job, reserve_for, enhances, no_candidate, initial_degradation, new_job,
  baseline_row, first_revision, log_initial, same_request,
}
use open_music_player.Research.Repository.Writes.{Write, Writes, unchanged, ◌then◌, Writes-trans}
use open_music_player.Research.Repository.OwnerWrites.{Written}

pub unused-returned : {A : Type 0} (o : Option A) (a : Unit {0}) → unused o ≡ returned a → o ≡ none
unused-returned none a h = refl
unused-returned (some x) a h = absurd (cc h)

module _ (r : Repository) where
  reserve_for-Writes :
      (now : ℕ) (input : CreateInput) (wanted : Bool) (db : Db)
      → Writes r db (reserve_for r now input wanted db).1
  reserve_for-Writes now input true db = Write.reserve db input.owner_id now then unchanged _
  reserve_for-Writes now input false db = unchanged db

  log_initial-Writes :
      (id : Text) (code : Option DegradationCode) (db after : Db)
      → log_initial id code db ≡ returned after
      → Writes r db after
  log_initial-Writes id none db after h =
      let e : db ≡ after = cc h in subst (Writes r db) e (unchanged db)
  log_initial-Writes id (some code) db after h =
      Write.append db after id event_degraded _ h then unchanged after

  insert_job-Writes :
      (now : ℕ) (id : Text) (input : CreateInput) (assignment : VariantAssignment)
      (baseline : RevisionPayload) (db : Db)
      → Holds (Written r db) (insert_job r now id input assignment baseline db)
  unfolding insert_job
  insert_job-Writes now id input assignment baseline db =
      let wanted = not (no_candidate baseline.candidates) && enhances assignment.variant in
      let budget = reserve_for r now input wanted db in
      let code =
        initial_degradation (no_candidate baseline.candidates) (enhances assignment.variant)
          budget.0 in
      bind-Holds (Written r db) _ _ (λ free fresh. bind-Holds (Written r db) _ _ (λ small h.
        bind-Holds (Written r db) _ _ (λ made created.
          bind-Holds (Written r db) _ _ (λ grown appended.
            bind-Holds (Written r db) _ _ (λ final logged.
              bind-Holds (Written r db) _ _ (λ (snapshot : Snapshot) shown.
                Writes-trans r db budget.1 final (reserve_for-Writes now input wanted db) (
                  Write.insert_job budget.1 (new_job now id input assignment code)
                    (unused-returned _ free fresh) refl
                  then Write.append _ made id event_created no_payload created
                  then Write.add_revision made (baseline_row id input)
                  then Write.set_jobs _ _ first_revision (λ j. (refl, refl, refl))
                  then Write.append _ grown id event_revision_appended _ appended
                  then log_initial-Writes id code grown final logged)))))))

  pub create-Writes :
      (now : ℕ) (new_id : Text) (input : CreateInput) (db : Db)
      → Holds (Written r db) (create r now new_id input db)
  unfolding create
  create-Writes now new_id input db =
      let prior = select_where (same_request input.owner_id input.idempotency_key) db.jobs in
      bind-Holds (Written r db) _ _ (λ valid h0. bind-Holds (Written r db) _ _ (λ assignment h1.
        bind-Holds (Written r db) _ _ (λ hash h2. bind-Holds (Written r db) _ _ (λ request h3.
          bind-Holds (Written r db) _ _ (λ baseline h4. bind-Holds (Written r db) _ _ (λ staged h5.
            elim (Option-cases prior) [
              | inl new ↦ rw (new) (insert_job-Writes now _ input assignment baseline db)
              | inr (job, known) ↦ rw (known) (
                  bind-Holds (Written r db) _ _ (λ same h6.
                    bind-Holds (Written r db) _ _ (λ (snapshot : Snapshot) shown. unchanged db)))
            ]))))))
