-- ===== src/Research/Repository/StaleClaim.antt =====
-- backend/internal/research/postgres_repository.go: Claim with a candidate that is no longer queued.
use open_music_player.Prelude.{
  ℕ, suc, ◌≤◌, ◌≡◌, refl, ap, sym, subst, ◌∙◌, inl, inr, false, none, some, List, [], ◌∷◌, All,
  Text, text_eq, text_eq_comm, text_eq_refl, Option-cases, arith,
}
use open_music_player.Research.Types.{WorkerCapabilities}
use open_music_player.Research.Repository.Sql.{select_where, count_where, count_where-append}
use open_music_player.Research.Repository.Tables.{
  JobRow, Db, Repository, Run, Claim, returned, bind-returned, returned_inj,
}
use open_music_player.Research.Repository.Queries.{acquire_slot, active_runs}
use open_music_player.Research.Repository.Lease.{claim, claim_from, start_run, queued_job, run_row}
use open_music_player.Research.Repository.Slots.{takes_slot}
use open_music_player.Research.Repository.Acquire.{append_event-some, acquire_slot-some}
use open_music_player.Research.Repository.LeaseWrites.{acquire_slot-jobs}

-- The user's counter, and the user's runs that hold a slot, are what they were.
abbrev IsSame : Text → Db → Db → Type 0
IsSame owner_id db after =
    (active_runs (after.slots owner_id) ≡ active_runs (db.slots owner_id))
    × (count_where (takes_slot owner_id) after.runs ≡ count_where (takes_slot owner_id) db.runs)

module _ (r : Repository) (positive : 1 ≤ r.max_concurrent_runs_per_user) (owner_id : Text) where
  acquire-IsSame :
      (other : Text) (db slotted : Db)
      → text_eq owner_id other ≡ false
      → acquire_slot r other db ≡ some slotted
      → IsSame owner_id db slotted
  acquire-IsSame other db slotted apart acquired =
      let (e, room) = acquire_slot-some r positive other db slotted acquired in
      subst (IsSame owner_id db) e (ground (arith, apart), refl)

  start_run-IsSame :
      (other : Text) (run : Run) (job : JobRow) (db : Db) (done : Db × Claim)
      → text_eq owner_id other ≡ false
      → start_run r other run job db ≡ returned done
      → IsSame owner_id db done.0
  unfolding start_run
  start_run-IsSame other run job db done apart h =
      let (few, h0, k0) = bind-returned _ _ done h in
      let (free, h1, k1) = bind-returned _ _ done k0 in
      let (attempt, h2, k2) = bind-returned _ _ done k1 in
      let (owns, h3, k3) = bind-returned _ _ done k2 in
      let (after, logged, k4) = bind-returned _ _ done k3 in
      let (snapshot, shown, k5) = bind-returned _ _ done k4 in
      let (found, there, e) = append_event-some _ after run.job_id _ _ logged in
      let of_after : after ≡ done.0 = ap (λ q. q.0) (returned_inj k5) in
      subst (IsSame owner_id db) (e ∙ of_after) (
        refl,
        ground (
          arith,
          apart,
          text_eq_comm owner_id other,
          count_where-append (takes_slot owner_id) db.runs (run_row run other ∷ []),
        ),
      )

  claim_from-IsSame :
      (worker_id run_id token : Text) (lease_until : ℕ) (candidates : List (Text × Text)) (db : Db)
      (done : Db × Claim)
      → All (λ c. text_eq owner_id c.1 ≡ false) candidates
      → claim_from r worker_id run_id token lease_until candidates db ≡ returned done
      → IsSame owner_id db done.0
  unfolding claim_from
  claim_from-IsSame worker_id run_id token lease_until [] db done others h = absurd (cc h)
  claim_from-IsSame worker_id run_id token lease_until ((job_id, other) ∷ rest) db done others h =
      elim (Option-cases (acquire_slot r other db)) [
        | inl full ↦
            claim_from-IsSame worker_id run_id token lease_until rest db done others.1
              (rw (full, claim_from) at h)
        | inr (slotted, acquired) ↦
            let one : IsSame owner_id db slotted =
              acquire-IsSame other db slotted others.0 acquired in
            elim (Option-cases (select_where (queued_job job_id) slotted.jobs)) [
              | inl gone ↦
                  let two =
                    claim_from-IsSame worker_id run_id token lease_until rest slotted done others.1
                      (rw (acquired, gone, claim_from) at h) in
                  (two.0 ∙ one.0, two.1 ∙ one.1)
              | inr (job, found) ↦
                  let two =
                    start_run-IsSame other _ job slotted done others.0
                      (rw (acquired, found, claim_from) at h) in
                  (two.0 ∙ one.0, two.1 ∙ one.1)
            ]
      ]

-- Where the first candidate's owner has a free slot but its job is no longer queued, and Claim then
-- claims a job of another user, the owner's slot counter has grown by one and no run of the owner
-- holds that slot. The limit on concurrent runs is at least one.
pub claim-stale :
    (r : Repository) (capabilities : WorkerCapabilities) (worker_id run_id token : Text)
    (lease_until : ℕ) (job_id owner_id : Text) (rest : List (Text × Text)) (db slotted : Db)
    (done : Db × Claim)
    → 1 ≤ r.max_concurrent_runs_per_user
    → acquire_slot r owner_id db ≡ some slotted
    → select_where (queued_job job_id) db.jobs ≡ none
    → All (λ c. text_eq owner_id c.1 ≡ false) rest
    → claim r capabilities worker_id run_id token lease_until ((job_id, owner_id) ∷ rest) db
      ≡ returned done
    → (active_runs (done.0.slots owner_id) ≡ suc (active_runs (db.slots owner_id)))
      × (count_where (takes_slot owner_id) done.0.runs ≡ count_where (takes_slot owner_id) db.runs)
unfolding claim claim_from
claim-stale r capabilities worker_id run_id token lease_until job_id owner_id rest db slotted done
      positive acquired gone others h =
    let (asked, h0, k0) = bind-returned _ _ done h in
    let same_jobs = acquire_slot-jobs r owner_id db slotted acquired in
    let unfound : select_where (queued_job job_id) slotted.jobs ≡ none =
      ap (select_where (queued_job job_id)) same_jobs.0 ∙ gone in
    let later =
      claim_from-IsSame r positive owner_id worker_id run_id token lease_until rest slotted done
        others (rw (acquired, unfound, claim_from) at k0) in
    let (e, room) = acquire_slot-some r positive owner_id db slotted acquired in
    (
      later.0
          ∙ ap (λ d. active_runs (d.slots owner_id)) (sym e)
          ∙ ground (arith, text_eq_refl owner_id),
      later.1 ∙ ap (count_where (takes_slot owner_id)) same_jobs.1,
    )
