-- ===== src/Research/Repository/Idempotent.antt =====
-- backend/internal/research/postgres_repository.go: Create under a key that is in use.
use open_music_player.Prelude.{
  ℕ, ◌≡◌, refl, ap, sym, subst, ◌∙◌, inl, inr, none, some, Text, text_eq, text_eq_iff, text_eq_refl,
  Option-cases,
}
use open_music_player.Research.Types.{VariantAssignment, RevisionPayload, CreateInput}
use open_music_player.Research.Repository.Sql.{select_where}
use open_music_player.Research.Repository.Tables.{
  Db, Repository, Snapshot, Answer, returned, require, idempotency_conflict, ◌>>=◌, ◌>>◌,
  bind-returned, bind-eq, returned_inj,
}
use open_music_player.Research.Repository.Loads.{load_snapshot}
use open_music_player.Research.Repository.Create.{create, insert_job, same_request}
use open_music_player.Research.Repository.LeaseWrites.{require-true}
use open_music_player.Research.Repository.Filed.{IsFiled, insert_job-IsFiled}

module _ (r : Repository) (input : CreateInput) where
  -- The part of Create behind its validations.
  abbrev filed_answer : ℕ → Text → VariantAssignment → RevisionPayload → Db → Answer (Db × Snapshot)
  filed_answer now id assignment baseline db =
      elim (select_where (same_request input.owner_id input.idempotency_key) db.jobs) [
        | none ↦ insert_job r now id input assignment baseline db
        | some prior ↦
            require (text_eq prior.request_hash input.request_hash) idempotency_conflict
            >> (load_snapshot r db prior.id input.owner_id >>= λ snapshot. returned (db, snapshot))
      ]

  replayed :
      (now : ℕ) (id job_id : Text) (assignment : VariantAssignment) (baseline : RevisionPayload)
      (db : Db) (snapshot : Snapshot)
      → IsFiled input job_id db.jobs
      → load_snapshot r db job_id input.owner_id ≡ returned snapshot
      → filed_answer now id assignment baseline db ≡ returned (db, snapshot)
  replayed now id job_id assignment baseline db snapshot (row, found, of_id, of_hash) shown =
      rw (found, filed_answer)
        (bind-eq (require (text_eq row.request_hash input.request_hash) idempotency_conflict) _ tt (
            ap (λ h. require (text_eq h input.request_hash) idempotency_conflict) of_hash
            ∙ ap (λ b. require b idempotency_conflict) (text_eq_refl input.request_hash))
          ∙ bind-eq (load_snapshot r db row.id input.owner_id) _ snapshot
              (ap (λ i. load_snapshot r db i input.owner_id) of_id ∙ shown))

  filed_answer-IsFiled :
      (now : ℕ) (id : Text) (assignment : VariantAssignment) (baseline : RevisionPayload) (db : Db)
      (done : Db × Snapshot)
      → filed_answer now id assignment baseline db ≡ returned done
      → (job_id : Text) × IsFiled input job_id done.0.jobs
        × (load_snapshot r done.0 job_id input.owner_id ≡ returned done.1)
  filed_answer-IsFiled now id assignment baseline db done h =
      elim (Option-cases
        (select_where (same_request input.owner_id input.idempotency_key) db.jobs)) [
          | inl unused ↦
              let (filed, shown) =
                insert_job-IsFiled input id r now assignment baseline db done unused
                  (rw (unused, filed_answer) at h) in
              (id, filed, shown)
          | inr (prior, known) ↦
              let replay = rw (known, filed_answer) at h in
              let (same, h0, k0) = bind-returned _ _ done replay in
              let (snapshot, shown, k1) = bind-returned _ _ done k0 in
              subst
                (λ d.
                  (job_id : Text) × IsFiled input job_id d.0.jobs
                  × (load_snapshot r d.0 job_id input.owner_id ≡ returned d.1))
                (returned_inj k1)
                (
                  prior.id,
                  (
                    prior,
                    known,
                    refl,
                    (text_eq_iff prior.request_hash input.request_hash).0
                        (require-true _ _ same h0),
                  ),
                  shown,
                )
        ]

  -- A Create that has returned returns the same again, and changes nothing, whatever the clock and
  -- the new ID are by then.
  pub create-create :
      (now now' : ℕ) (new_id new_id' : Text) (db : Db) (done : Db × Snapshot)
      → create r now new_id input db ≡ returned done
      → create r now' new_id' input done.0 ≡ returned done
  unfolding create
  create-create now now' new_id new_id' db done h =
      let (valid, h0, k0) = bind-returned _ _ done h in
      let (assignment, h1, k1) = bind-returned _ _ done k0 in
      let (hash, h2, k2) = bind-returned _ _ done k1 in
      let (request, h3, k3) = bind-returned _ _ done k2 in
      let (baseline, h4, k4) = bind-returned _ _ done k3 in
      let (staged, h5, k5) = bind-returned _ _ done k4 in
      bind-eq _ _ valid h0
      ∙ bind-eq _ _ assignment h1
      ∙ bind-eq _ _ hash h2
      ∙ bind-eq _ _ request h3
      ∙ bind-eq _ _ baseline h4
      ∙ bind-eq _ _ staged h5
      ∙ (let (job_id, filed, shown) = filed_answer-IsFiled now _ assignment baseline db done k5 in
          replayed now' _ job_id assignment baseline done.0 done.1 filed shown)

  create-IsFiled :
      (now : ℕ) (new_id : Text) (db : Db) (done : Db × Snapshot)
      → create r now new_id input db ≡ returned done
      → (job_id : Text) × IsFiled input job_id done.0.jobs
        × (load_snapshot r done.0 job_id input.owner_id ≡ returned done.1)
  unfolding create
  create-IsFiled now new_id db done h =
      let (valid, h0, k0) = bind-returned _ _ done h in
      let (assignment, h1, k1) = bind-returned _ _ done k0 in
      let (hash, h2, k2) = bind-returned _ _ done k1 in
      let (request, h3, k3) = bind-returned _ _ done k2 in
      let (baseline, h4, k4) = bind-returned _ _ done k3 in
      let (staged, h5, k5) = bind-returned _ _ done k4 in
      filed_answer-IsFiled now _ assignment baseline db done k5

-- After a Create has returned, a Create of the same owner under the same idempotency key only returns
-- if it has the same request hash, and then it changes nothing, whatever else it asks for.
pub create-key :
    (r : Repository) (now now' : ℕ) (new_id new_id' : Text) (input other : CreateInput) (db : Db)
    (done done' : Db × Snapshot)
    → create r now new_id input db ≡ returned done
    → other.owner_id ≡ input.owner_id
    → other.idempotency_key ≡ input.idempotency_key
    → create r now' new_id' other done.0 ≡ returned done'
    → (other.request_hash ≡ input.request_hash) × (done'.0 ≡ done.0)
unfolding create
create-key r now now' new_id new_id' input other db done done' h owner key again =
    let (job_id, (row, found, of_id, of_hash), shown) =
      create-IsFiled r input now new_id db done h in
    let there : select_where (same_request other.owner_id other.idempotency_key) done.0.jobs
        ≡ some row =
      rw (owner, key) found in
    let (valid, h0, k0) = bind-returned _ _ done' again in
    let (assignment, h1, k1) = bind-returned _ _ done' k0 in
    let (hash, h2, k2) = bind-returned _ _ done' k1 in
    let (request, h3, k3) = bind-returned _ _ done' k2 in
    let (baseline, h4, k4) = bind-returned _ _ done' k3 in
    let (staged, h5, k5) = bind-returned _ _ done' k4 in
    let (same, h6, k6) = bind-returned _ _ done' (rw (there) at k5) in
    let (snapshot, shown', k7) = bind-returned _ _ done' k6 in
    (
      sym ((text_eq_iff row.request_hash other.request_hash).0 (require-true _ _ same h6))
          ∙ of_hash,
      sym (ap (λ d. d.0) (returned_inj k7)),
    )
