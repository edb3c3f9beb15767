-- ===== src/Research/Repository/Filed.antt =====
-- backend/internal/research/postgres_repository.go: the job that Create files under a key.
use open_music_player.Prelude.{
  ℕ, ◌≡◌, refl, ap, subst, ◌∙◌, inl, inr, Bool, true, false, not, ◌&&◌, Option, none, some, List,
  [], ◌∷◌, ◌++◌, Text, text_eq_refl, Bool-cases, arith,
}
use open_music_player.Research.Types.{
  VariantAssignment, DegradationCode, RevisionPayload, CreateInput,
}
use open_music_player.Research.Repository.Sql.{
  select_where, update_where, select_where-update_where, select_where-append_none,
}
use open_music_player.Research.Repository.Tables.{
  EventKind, EventPayload, JobRow, Db, Repository, Snapshot, returned, bind-returned, returned_inj,
}
use open_music_player.Research.Repository.Queries.{append_event, reserve_budget, next_event}
use open_music_player.Research.Repository.Loads.{load_snapshot}
use open_music_player.Research.Repository.Create.{
  insert_job, reserve_for, enhances, no_candidate, initial_degradation, new_job, first_revision,
  log_initial, same_request,
}
use open_music_player.Research.Repository.Slots.{has_job_id}
use open_music_player.Research.Repository.Acquire.{append_event-some}

module _ (input : CreateInput) (id : Text) where
  -- The request's key leads to the job of the ID and to the request's hash.
  abbrev pub IsFiled : List JobRow → Type 0
  IsFiled jobs =
      (row : JobRow) × (select_where (same_request input.owner_id input.idempotency_key) jobs
        ≡ some row)
      × (row.id ≡ id)
      × (row.request_hash ≡ input.request_hash)

  update-IsFiled :
      (p : JobRow → Bool) (f : JobRow → JobRow) (jobs : List JobRow)
      → ((j : JobRow)
          → ((f j).id ≡ j.id)
            × ((f j).user_id ≡ j.user_id)
            × ((f j).idempotency_key ≡ j.idempotency_key)
            × ((f j).request_hash ≡ j.request_hash))
      → IsFiled jobs
      → IsFiled (update_where p f jobs)
  update-IsFiled p f jobs same (row, found, of_id, of_hash) =
      let key = same_request input.owner_id input.idempotency_key in
      let after =
        select_where-update_where key p f jobs (λ j. ground (arith, (same j).1, (same j).2)) in
      elim (Bool-cases (p row)) [
        | inl changed ↦ (
          f row,
          ground (arith, after, found, changed),
          (same row).0 ∙ of_id,
          (same row).3 ∙ of_hash,
        )
        | inr left_alone ↦ (row, ground (arith, after, found, left_alone), of_id, of_hash)
      ]

  append-IsFiled :
      (db after : Db) (job_id : Text) (kind : EventKind) (payload : EventPayload)
      → append_event job_id kind payload db ≡ returned after
      → IsFiled db.jobs
      → IsFiled after.jobs
  append-IsFiled db after job_id kind payload h filed =
      let (job, found, e) = append_event-some db after job_id kind payload h in
      subst (λ d. IsFiled d.jobs) e
        (update-IsFiled (has_job_id job_id) next_event db.jobs (λ j. (refl, refl, refl, refl))
          filed)

  log_initial-IsFiled :
      (code : Option DegradationCode) (db after : Db)
      → log_initial id code db ≡ returned after
      → IsFiled db.jobs
      → IsFiled after.jobs
  log_initial-IsFiled none db after h filed =
      let e : db ≡ after = returned_inj h in subst (λ d. IsFiled d.jobs) e filed
  log_initial-IsFiled (some code) db after h filed = append-IsFiled db after id _ _ h filed

  reserve_for-jobs :
      (r : Repository) (now : ℕ) (wanted : Bool) (db : Db)
      → (reserve_for r now input wanted db).1.jobs ≡ db.jobs
  unfolding reserve_budget
  reserve_for-jobs r now true db = refl
  reserve_for-jobs r now false db = refl

  pub insert_job-IsFiled :
      (r : Repository) (now : ℕ) (assignment : VariantAssignment) (baseline : RevisionPayload)
      (db : Db) (done : Db × Snapshot)
      → select_where (same_request input.owner_id input.idempotency_key) db.jobs ≡ none
      → insert_job r now id input assignment baseline db ≡ returned done
      → IsFiled done.0.jobs × (load_snapshot r done.0 id input.owner_id ≡ returned done.1)
  unfolding insert_job
  insert_job-IsFiled r now assignment baseline db done unused h =
      let wanted = not (no_candidate baseline.candidates) && enhances assignment.variant in
      let budget = reserve_for r now input wanted db in
      let code =
        initial_degradation (no_candidate baseline.candidates) (enhances assignment.variant)
          budget.0 in
      let job = new_job now id input assignment code in
      let (free, h0, k0) = bind-returned _ _ done h in
      let (small, h1, k1) = bind-returned _ _ done k0 in
      let (made, created, k2) = bind-returned _ _ done k1 in
      let (grown, appended, k3) = bind-returned _ _ done k2 in
      let (final, logged, k4) = bind-returned _ _ done k3 in
      let (snapshot, shown, k5) = bind-returned _ _ done k4 in
      let inserted : IsFiled (budget.1.jobs ++ (job ∷ [])) = (
        job,
        select_where-append_none (same_request input.owner_id input.idempotency_key) budget.1.jobs
            job
            (ap (select_where (same_request input.owner_id input.idempotency_key))
                (reserve_for-jobs r now wanted db)
              ∙ unused)
            (ground (arith, text_eq_refl input.owner_id, text_eq_refl input.idempotency_key)),
        refl,
        refl,
      ) in
      let filed : IsFiled final.jobs = log_initial-IsFiled code grown final logged (
        append-IsFiled _ grown id _ _ appended (
          update-IsFiled (has_job_id id) first_revision made.jobs (λ j. (refl, refl, refl, refl))
            (append-IsFiled _ made id _ _ created inserted))) in
      subst (λ d. IsFiled d.0.jobs × (load_snapshot r d.0 id input.owner_id ≡ returned d.1))
        (returned_inj k5) (filed, shown)
