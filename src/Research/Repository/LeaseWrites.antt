-- ===== src/Research/Repository/LeaseWrites.antt =====
-- backend/internal/research/postgres_repository.go: Claim, whatever its candidates, and RenewLease are
-- made of the writes.
use open_music_player.Prelude.{
  ℕ, ◌≤◌, ◌≡◌, refl, ap, sym, subst, ◌∙◌, inl, inr, Bool, true, false, none, some, List, [], ◌∷◌,
  Text, text_eq, text_eq_iff, Bool-cases, Option-cases, if◌then◌else◌, arith, ltb,
}
use open_music_player.Research.Types.{WorkerCapabilities}
use open_music_player.Research.Repository.Sql.{
  select_where, count_where, count_where-one, count_where-le, count_where-select_where,
}
use open_music_player.Research.Repository.Tables.{
  event_claimed, event_lease_renewed, JobRow, RunRow, Db, Repository, Snapshot, Run, Claim,
  RepositoryError, returned, failed, Answer, require, Holds, bind-Holds,
}
use open_music_player.Research.Repository.Queries.{acquire_slot, run_payload}
use open_music_player.Research.Repository.Lease.{
  claim, claim_from, start_run, start, queued_job, run_row, add_run, renew_lease, extend,
}
use open_music_player.Research.Repository.Writes.{Write, ◌then◌, IsOwned}
use open_music_player.Research.Repository.Slots.{has_job_id, has_run_id, Sound, All-imp}
use open_music_player.Research.Repository.Acquire.{acquire-Sound}
use open_music_player.Research.Repository.OwnerWrites.{Written, write_and_append}
use open_music_player.Research.Repository.CreateWrites.{unused-returned}

pub require-true :
    (b : Bool) (e : RepositoryError) (a : Unit {0}) → require b e ≡ returned a → b ≡ true
require-true true e a h = refl
require-true false e a h = absurd (cc h)

module _ (r : Repository) where
  pub acquire_slot-jobs :
      (owner_id : Text) (db slotted : Db)
      → acquire_slot r owner_id db ≡ some slotted
      → (slotted.jobs ≡ db.jobs) × (slotted.runs ≡ db.runs)
  unfolding acquire_slot
  acquire_slot-jobs owner_id db slotted h = elim (Option-cases (db.slots owner_id)) [
    | inl absent ↦ (
      ap (λ d. elim d [ none ↦ db.jobs | some s ↦ s.jobs ]) (sym h)
          ∙ rw (absent, acquire_slot) refl,
      ap (λ d. elim d [ none ↦ db.runs | some s ↦ s.runs ]) (sym h)
          ∙ rw (absent, acquire_slot) refl,
    )
    | inr (n, there) ↦ elim (Bool-cases (ltb n r.max_concurrent_runs_per_user)) [
      | inl room ↦ (
        ap (λ d. elim d [ none ↦ db.jobs | some s ↦ s.jobs ]) (sym h)
            ∙ rw (there, room, acquire_slot) refl,
        ap (λ d. elim d [ none ↦ db.runs | some s ↦ s.runs ]) (sym h)
            ∙ rw (there, room, acquire_slot) refl,
      )
      | inr full ↦ absurd (ground (arith, there, full, h))
    ]
  ]

  queued-IsOwned :
      (db : Db) (job_id owner_id : Text) (run : RunRow) (job : JobRow)
      → Sound r db
      → select_where (queued_job job_id) db.jobs ≡ some job
      → job.user_id ≡ owner_id
      → run.job_id ≡ job_id
      → run.user_id ≡ owner_id
      → IsOwned db.jobs run
  queued-IsOwned db job_id owner_id run job sound found owner of_job of_user =
      let alone =
        count_where-one (has_job_id job_id) (queued_job job_id) db.jobs job found
          (λ j h. ground (arith, h)) (sound.jobs_once job_id) in
      let there = count_where-select_where (queued_job job_id) db.jobs job found in
      let also =
        count_where-le (queued_job job_id) (has_job_id job_id) db.jobs (λ j h. ground (arith, h)) in
      (
        All-imp (λ j. has_job_id job_id j ≡ true → j ≡ job)
            (λ j. text_eq j.id run.job_id ≡ true → j.user_id ≡ run.user_id) db.jobs
            (λ j same h.
              ap (λ k. k.user_id) (same (ap (text_eq j.id) (sym of_job) ∙ h)) ∙ owner ∙ sym of_user)
            alone,
        subst (λ i. 1 ≤ count_where (has_job_id i) db.jobs) (sym of_job)
            (omega (arith, there, also)),
      )

  start_run-Writes :
      (owner_id : Text) (run : Run) (job : JobRow) (db slotted : Db)
      → Sound r db
      → acquire_slot r owner_id db ≡ some slotted
      → select_where (queued_job run.job_id) slotted.jobs ≡ some job
      → Holds (Written r db) (start_run r owner_id run job slotted)
  unfolding start_run
  start_run-Writes owner_id run job db slotted sound acquired found =
      let same = acquire_slot-jobs owner_id db slotted acquired in
      bind-Holds (Written r db) _ _ (λ few h0. bind-Holds (Written r db) _ _ (λ free fresh.
        bind-Holds (Written r db) _ _ (λ attempt h2. bind-Holds (Written r db) _ _ (λ owns h3.
          bind-Holds (Written r db) _ _ (λ after logged.
            bind-Holds (Written r db) _ _ (λ (snapshot : Snapshot) shown.
              Write.insert_run db slotted (run_row run owner_id) acquired
                (ap (select_where (has_run_id run.id)) (sym same.1) ∙ unused-returned _ free fresh)
                refl
                (queued-IsOwned db run.job_id owner_id (run_row run owner_id) job sound
                  (ap (select_where (queued_job run.job_id)) (sym same.0) ∙ found)
                  ((text_eq_iff job.user_id owner_id).0 (require-true _ _ owns h3)) refl refl)
              then write_and_append r _ _ after run.job_id event_claimed (run_payload run.id)
                  (Write.set_jobs (add_run (run_row run owner_id) slotted) (queued_job run.job_id)
                    start (λ j. (refl, refl, refl)))
                  logged))))))

  -- What is written from the tables that one write has left.
  after_write :
      {A : Type 0} (db between : Db) (m : Answer (Db × A))
      → Write r db between
      → Holds (Written r between) m
      → Holds (Written r db) m
  after_write db between (returned a) w h = w then h
  after_write db between (failed e) w h = tt

  module _ (positive : 1 ≤ r.max_concurrent_runs_per_user) where
    claim_from-Writes :
        (worker_id run_id token : Text) (lease_until : ℕ) (candidates : List (Text × Text))
        (db : Db)
        → Sound r db
        → Holds (Written r db) (claim_from r worker_id run_id token lease_until candidates db)
    unfolding claim_from
    claim_from-Writes worker_id run_id token lease_until [] db sound = tt
    claim_from-Writes worker_id run_id token lease_until ((job_id, owner_id) ∷ rest) db sound =
        elim (Option-cases (acquire_slot r owner_id db)) [
          | inl full ↦
              rw (full, claim_from)
                (claim_from-Writes worker_id run_id token lease_until rest db sound)
          | inr (slotted, acquired) ↦
              elim (Option-cases (select_where (queued_job job_id) slotted.jobs)) [
                | inl gone ↦
                    rw (acquired, gone, claim_from)
                      (after_write db slotted _ (Write.acquire db slotted owner_id acquired) (
                        claim_from-Writes worker_id run_id token lease_until rest slotted
                          (acquire-Sound r positive db slotted owner_id acquired sound)))
                | inr (job, found) ↦
                    rw (acquired, found, claim_from)
                      (start_run-Writes owner_id _ job db slotted sound acquired found)
              ]
        ]

    pub claim-Writes :
        (capabilities : WorkerCapabilities) (worker_id run_id token : Text) (lease_until : ℕ)
        (candidates : List (Text × Text)) (db : Db)
        → Sound r db
        → Holds
            (Written r db)
            (claim r capabilities worker_id run_id token lease_until candidates db)
    unfolding claim
    claim-Writes capabilities worker_id run_id token lease_until candidates db sound =
        bind-Holds (Written r db) _ _
          (λ asked h. claim_from-Writes worker_id run_id token lease_until candidates db sound)

  pub renew_lease-Writes :
      (now : ℕ) (claim : Claim) (lease_until : ℕ) (db : Db)
      → Holds (Written r db) (renew_lease now claim lease_until db)
  unfolding renew_lease
  renew_lease-Writes now claim lease_until db = bind-Holds (Written r db) _ _ (λ rows h.
      bind-Holds (Written r db) _ _ (λ after logged.
        write_and_append r db _ after claim.run.job_id event_lease_renewed
          (run_payload claim.run.id)
          (Write.set_runs db _ (extend lease_until) (λ run. (refl, refl, refl, refl, λ h. h)))
          logged))
