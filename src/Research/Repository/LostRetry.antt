-- ===== src/Research/Repository/LostRetry.antt =====
-- backend/internal/research/postgres_repository.go: RetryClaim after a run that timed out.
use open_music_player.Prelude.{
  ℕ, ◌≤◌, ◌≡◌, refl, ap, sym, subst, ◌∙◌, inl, inr, Bool, true, false, ◌&&◌, none, some, List, [],
  ◌∷◌, All, leb, Text, Bool-cases, arith,
}
use open_music_player.Research.Types.{run_degraded, job_degraded, Job, timeout, Degradation}
use open_music_player.Research.State.{
  public_degradation, effective_degradation, degradation_retryable,
}
use open_music_player.Research.Repository.Sql.{
  select_where, update_where, count_where-one, select_where-true,
}
use open_music_player.Research.Repository.Tables.{
  RunRow, Db, Repository, Snapshot, Claim, lease_lost, returned, failed, ◌>>=◌, bind-returned,
  bind-failed, returned_inj,
}
use open_music_player.Research.Repository.Queries.{is_running, is_active, set_runs, release_slot}
use open_music_player.Research.Repository.Loads.{
  held, claimed_rows, same_run_status, same_job_status, verify_claim, verify_completable_claim,
}
use open_music_player.Research.Repository.Complete.{
  Ending, completing, cancelling, degrading, running_run, ended_run, ended_job, actual_ending,
  complete_claim, degrade, retry_claim,
}
use open_music_player.Research.Repository.Calls.{Call, run_calls, empty_db}
use open_music_player.Research.Repository.Slots.{has_run_id, Sound, All-imp}
use open_music_player.Research.Repository.Acquire.{append_event-some}
use open_music_player.Research.Repository.Release.{release_slot-All}
use open_music_player.Research.Repository.Owners.{claimed_rows-returned}
use open_music_player.Research.Repository.Fence.{select_where-none}
use open_music_player.Research.Repository.Reached.{run_calls-Sound}

-- RetryClaim asks for a run that is `degraded`.
abbrev IsRefused : RunRow → Type 0
IsRefused run = same_run_status run_degraded run.status ≡ false

-- A claim's running run is the only row under its ID.
claimed-running :
    (r : Repository) (db : Db) (claim : Claim) (now : ℕ) (verified : Text × Bool)
    → Sound r db
    → verify_completable_claim db claim now ≡ returned verified
    → All (λ row. has_run_id claim.run.id row ≡ true → is_running row.status ≡ true) db.runs
unfolding verify_completable_claim
claimed-running r db claim now verified sound h =
    let (rows, claimed, e) = bind-returned _ _ verified h in
    let (found, job) =
      claimed_rows-returned is_active is_running db claim now rows.0 rows.1 claimed in
    let p : RunRow → Bool = λ n. held claim now n && is_running n.status in
    let chosen : p rows.0 ≡ true = select_where-true p db.runs rows.0 found in
    All-imp (λ row. has_run_id claim.run.id row ≡ true → row ≡ rows.0)
      (λ row. has_run_id claim.run.id row ≡ true → is_running row.status ≡ true) db.runs
      (λ row same its. ap (λ n. is_running n.status) (same its) ∙ ground (arith, chosen))
      (count_where-one (has_run_id claim.run.id) p db.runs rows.0 found (λ n h'. ground (arith, h'))
        (sound.runs_once claim.run.id))

abbrev IsLate : Ending → Type 0
IsLate completing = Unit
IsLate cancelling = Unit
IsLate (degrading d) = d.code ≡ timeout

actual_ending-IsLate :
    (cancelled : Bool) (job : Job) (d : Degradation)
    → d.code ≡ timeout
    → IsLate (actual_ending cancelled job (degrading d))
unfolding actual_ending effective_degradation public_degradation
actual_ending-IsLate true job d late = tt
actual_ending-IsLate false job d late = elim (Bool-cases (leb job.max_attempts job.attempts)) [
  | inl last ↦ ground (arith, last, late)
  | inr more ↦ ground (arith, more, late)
]

late_run : (ending : Ending) (run : RunRow) → IsLate ending → IsRefused (ended_run ending run)
unfolding ended_run
late_run completing run late = refl
late_run cancelling run late = refl
late_run (degrading d) run late = ground (arith, late)

ended-IsRefused :
    (id : Text) (ending : Ending) (runs : List RunRow)
    → IsLate ending
    → All (λ row. has_run_id id row ≡ true → is_running row.status ≡ true) runs
    → All
        (λ row. has_run_id id row ≡ true → IsRefused row)
        (update_where (running_run id) (ended_run ending) runs)
ended-IsRefused id ending [] late all = tt
ended-IsRefused id ending (run ∷ runs) late all = (
  elim (Bool-cases (running_run id run)) [
    | inl here ↦ rw (here) (λ h. late_run ending run late)
    | inr other ↦ rw (other) (λ h. absurd (ground (arith, other, h, all.0 h)))
  ],
  ended-IsRefused id ending runs late all.1,
)

ended_job-runs :
    (ending : Ending) (job_id : Text) (db : Db) → (ended_job ending job_id db).runs ≡ db.runs
unfolding ended_job
ended_job-runs completing job_id db = refl
ended_job-runs cancelling job_id db = refl
ended_job-runs (degrading d) job_id db = refl

module _ (r : Repository) where
  complete_claim-IsRefused :
      (now : ℕ) (claim : Claim) (d : Degradation) (db : Db) (done : Db × Snapshot)
      → Sound r db
      → d.code ≡ timeout
      → complete_claim r now claim (degrading d) db ≡ returned done
      → All (λ row. has_run_id claim.run.id row ≡ true → IsRefused row) done.0.runs
  unfolding complete_claim
  complete_claim-IsRefused now claim d db done sound late h =
      let (verified, h0, k0) = bind-returned _ _ done h in
      let (loaded, h1, k1) = bind-returned _ _ done k0 in
      let (after, logged, k2) = bind-returned _ _ done k1 in
      let (snapshot, shown, k3) = bind-returned _ _ done k2 in
      let ending = actual_ending verified.1 loaded.0 (degrading d) in
      let id = claim.run.id in
      let P : RunRow → Type 0 = λ row. has_run_id id row ≡ true → IsRefused row in
      let ended : Db = set_runs (running_run id) (ended_run ending) db in
      let freed : Db = release_slot id verified.0 ended in
      let refused : All P freed.runs =
        release_slot-All P id verified.0 ended (λ run own. own)
          (ended-IsRefused id ending db.runs (actual_ending-IsLate verified.1 loaded.0 d late)
            (claimed-running r db claim now verified sound h0)) in
      let (job, there, e) = append_event-some _ after claim.run.job_id _ _ logged in
      let final : All P after.runs =
        subst (λ a. All P a.runs) e
          (subst (All P) (sym (ended_job-runs ending claim.run.job_id freed)) refused) in
      subst (λ q. All P q.0.runs) (returned_inj k3) final

refused-lost :
    (db : Db) (claim : Claim) (now : ℕ)
    → All (λ row. has_run_id claim.run.id row ≡ true → IsRefused row) db.runs
    → claimed_rows (same_job_status job_degraded) (same_run_status run_degraded) db claim now
      ≡ failed lease_lost
unfolding claimed_rows ◌>>=◌
refused-lost db claim now refused =
    let gone : select_where (λ n. held claim now n && same_run_status run_degraded n.status) db.runs
        ≡ none =
      select_where-none (λ n. held claim now n && same_run_status run_degraded n.status) db.runs
        (All-imp (λ row. has_run_id claim.run.id row ≡ true → IsRefused row)
          (λ n. (held claim now n && same_run_status run_degraded n.status) ≡ false) db.runs
          (λ n own. elim (Bool-cases (has_run_id claim.run.id n)) [
            | inl its ↦ ground (arith, own its)
            | inr other ↦ ground (arith, other)
          ])
          refused) in
    ground (arith, gone)

-- Where Degrade has ended the run of a claim with a timeout, after any transactions on empty tables,
-- RetryClaim with the claim always answers that the lease is lost, although a timeout is a retryable
-- degradation.
pub degrade-retry_claim :
    (r : Repository) (before : List Call) (now later retry_at : ℕ) (claim : Claim) (d : Degradation)
    (done : Db × Snapshot)
    → 1 ≤ r.max_concurrent_runs_per_user
    → d.code ≡ timeout
    → degrade r now claim d (run_calls r before empty_db) ≡ returned done
    → (retry_claim r later claim retry_at done.0 ≡ failed lease_lost)
      × (degradation_retryable timeout ≡ some true)
unfolding degrade retry_claim verify_claim degradation_retryable
degrade-retry_claim r before now later retry_at claim d done positive late h =
    let start = run_calls r before empty_db in
    let (valid, h0, k0) = bind-returned _ _ done h in
    let refused =
      complete_claim-IsRefused r now claim d start done (run_calls-Sound r before positive) late
        k0 in
    (
      bind-failed _ _ lease_lost
          (bind-failed _ _ lease_lost (refused-lost done.0 claim later refused)),
      refl,
    )
