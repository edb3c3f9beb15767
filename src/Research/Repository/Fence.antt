-- ===== src/Research/Repository/Fence.antt =====
-- backend/internal/research/postgres_repository.go: a claim whose run is over is lost for good.
use open_music_player.Prelude.{
  ℕ, ◌≤◌, ◌≡◌, refl, ap, sym, subst, inl, inr, Bool, true, false, ◌&&◌, none, List, [], ◌∷◌, All,
  Text, text_eq, Bool-cases, if◌then◌else◌, arith,
}
use open_music_player.Research.Types.{
  RunStatus, run_running, run_completed, run_degraded, run_cancelled, run_timed_out, run_lease_lost,
  unknown_run, JobStatus, job_running,
}
use open_music_player.Research.Repository.Sql.{
  select_where, update_where, count_where, count_where-le, count_where-select_where,
  count_where-update_where,
}
use open_music_player.Research.Repository.Tables.{
  RunRow, Db, Repository, Snapshot, Claim, lease_lost, returned, failed, ◌>>=◌, bind-returned,
  returned_inj, Holds-returned,
}
use open_music_player.Research.Repository.Queries.{is_running, is_active, set_runs, release_slot}
use open_music_player.Research.Repository.Loads.{
  held, claimed_rows, same_run_status, same_job_status, verify_claim, verify_completable_claim,
}
use open_music_player.Research.Repository.Lease.{renew_lease}
use open_music_player.Research.Repository.Complete.{
  Ending, completing, cancelling, degrading, is_timeout, running_run, ended_run, ended_job,
  actual_ending, complete_claim,
}
use open_music_player.Research.Repository.Calls.{Call, run_calls, empty_db}
use open_music_player.Research.Repository.Writes.{
  Write, Writes, unchanged, ◌then◌, Writes-trans, SameRun,
}
use open_music_player.Research.Repository.Slots.{has_run_id, Sound, All-imp}
use open_music_player.Research.Repository.Release.{Writes-Sound}
use open_music_player.Research.Repository.Owners.{claimed_rows-returned}
use open_music_player.Research.Repository.OwnerWrites.{Written}
use open_music_player.Research.Repository.CompleteWrites.{ended_job-Writes, complete_claim-Writes}
use open_music_player.Research.Repository.Fixed.{IsFixed, release-IsFixed, Writes-IsFixed}
use open_music_player.Research.Repository.Reached.{run_calls-Writes, run_calls-Sound}

abbrev pub IsEnded : RunRow → Type 0
IsEnded run = is_running run.status ≡ false

pub SameRun-IsEnded : (run after : RunRow) → SameRun run after → IsEnded run → IsEnded after
SameRun-IsEnded run after same ended = elim (Bool-cases (is_running after.status)) [
  | inl runs ↦ absurd (cc (same.4 runs, ended))
  | inr over ↦ over
]

pub select_where-none :
    {A : Type 0} (p : A → Bool) (xs : List A) → All (λ x. p x ≡ false) xs → select_where p xs ≡ none
select_where-none p [] all = refl
select_where-none p (x ∷ xs) all = ground (arith, all.0, select_where-none p xs all.1)

pub claimed_rows-lost :
    (want_job : JobStatus → Bool) (want_run : RunStatus → Bool) (db : Db) (claim : Claim) (now : ℕ)
    → ((s : RunStatus) → is_running s ≡ false → want_run s ≡ false)
    → IsFixed IsEnded claim.run.id db
    → claimed_rows want_job want_run db claim now ≡ failed lease_lost
unfolding claimed_rows ◌>>=◌
claimed_rows-lost want_job want_run db claim now wants (ended, there) =
    let gone : select_where (λ n. held claim now n && want_run n.status) db.runs ≡ none =
      select_where-none (λ n. held claim now n && want_run n.status) db.runs
        (All-imp (λ row. has_run_id claim.run.id row ≡ true → IsEnded row)
          (λ n. (held claim now n && want_run n.status) ≡ false) db.runs
          (λ n over. elim (Bool-cases (has_run_id claim.run.id n)) [
            | inl its ↦ ground (arith, wants n.status (over its))
            | inr other ↦ ground (arith, other)
          ])
          ended) in
    ground (arith, gone)

same_run_status-running :
    (s : RunStatus) → is_running s ≡ false → same_run_status run_running s ≡ false
same_run_status-running run_running h = absurd (cc h)
same_run_status-running run_completed h = refl
same_run_status-running run_degraded h = refl
same_run_status-running run_cancelled h = refl
same_run_status-running run_timed_out h = refl
same_run_status-running run_lease_lost h = refl
same_run_status-running (unknown_run s) h = refl

-- What the methods of a worker begin with.
abbrev pub IsLost : Repository → Db → Claim → ℕ → Type 0
IsLost r db claim now =
    ((lease_until : ℕ) → renew_lease now claim lease_until db ≡ failed lease_lost)
    × ((ending : Ending) → complete_claim r now claim ending db ≡ failed lease_lost)
    × (verify_claim db claim job_running run_running now ≡ failed lease_lost)
    × (verify_completable_claim db claim now ≡ failed lease_lost)

pub ended-IsLost :
    (r : Repository) (db : Db) (claim : Claim) (now : ℕ)
    → IsFixed IsEnded claim.run.id db
    → IsLost r db claim now
unfolding renew_lease complete_claim verify_claim verify_completable_claim ◌>>=◌
ended-IsLost r db claim now ended =
    let lost : claimed_rows is_active is_running db claim now ≡ failed lease_lost =
      claimed_rows-lost is_active is_running db claim now (λ s h. h) ended in
    (
      λ lease_until. rw (lost) refl,
      λ ending. rw (lost) refl,
      rw
          (claimed_rows-lost (same_job_status job_running) (same_run_status run_running) db claim
            now same_run_status-running ended)
          refl,
      rw (lost) refl,
    )

ended_run-IsEnded : (ending : Ending) (run : RunRow) → IsEnded (ended_run ending run)
unfolding ended_run
ended_run-IsEnded completing run = refl
ended_run-IsEnded cancelling run = refl
ended_run-IsEnded (degrading d) run = elim (Bool-cases (is_timeout d.code)) [
  | inl late ↦ ground (arith, late)
  | inr other ↦ ground (arith, other)
]

ended_run-id : (ending : Ending) (run : RunRow) → (ended_run ending run).id ≡ run.id
unfolding ended_run
ended_run-id completing run = refl
ended_run-id cancelling run = refl
ended_run-id (degrading d) run = refl

end-All :
    (id : Text) (ending : Ending) (runs : List RunRow)
    → All
        (λ row. has_run_id id row ≡ true → IsEnded row)
        (update_where (running_run id) (ended_run ending) runs)
end-All id ending [] = tt
end-All id ending (run ∷ runs) = (
  λ h. elim (Bool-cases (running_run id run)) [
    | inl here ↦ ground (arith, here, ended_run-IsEnded ending run)
    | inr other ↦ ground (arith, other, h)
  ],
  end-All id ending runs,
)

verified-there :
    (db : Db) (claim : Claim) (now : ℕ) (verified : Text × Bool)
    → verify_completable_claim db claim now ≡ returned verified
    → 1 ≤ count_where (has_run_id claim.run.id) db.runs
unfolding verify_completable_claim
verified-there db claim now verified h =
    let (rows, claimed, e) = bind-returned _ _ verified h in
    let (found, job) =
      claimed_rows-returned is_active is_running db claim now rows.0 rows.1 claimed in
    let p : RunRow → Bool = λ n. held claim now n && is_running n.status in
    let one = count_where-select_where p db.runs rows.0 found in
    let few = count_where-le p (has_run_id claim.run.id) db.runs (λ n h'. ground (arith, h')) in
    omega (arith, one, few)

module _ (r : Repository) where
  complete_claim-IsEnded :
      (now : ℕ) (claim : Claim) (requested : Ending) (db : Db) (done : Db × Snapshot)
      → complete_claim r now claim requested db ≡ returned done
      → IsFixed IsEnded claim.run.id done.0
  unfolding complete_claim
  complete_claim-IsEnded now claim requested db done h =
      let (verified, h0, k0) = bind-returned _ _ done h in
      let (loaded, h1, k1) = bind-returned _ _ done k0 in
      let (after, logged, k2) = bind-returned _ _ done k1 in
      let (snapshot, shown, k3) = bind-returned _ _ done k2 in
      let ending = actual_ending verified.1 loaded.0 requested in
      let id = claim.run.id in
      let ended : Db = set_runs (running_run id) (ended_run ending) db in
      let over : IsFixed IsEnded id ended = (
        end-All id ending db.runs,
        subst (λ n. 1 ≤ n)
            (sym (
              count_where-update_where (has_run_id id) (running_run id) (ended_run ending) db.runs
                (λ n. ap (λ i. text_eq i id) (ended_run-id ending n))))
            (verified-there db claim now verified h0),
      ) in
      let freed : Db = release_slot id verified.0 ended in
      let updated : Db = ended_job ending claim.run.job_id freed in
      let rest : Writes r freed after =
        Writes-trans r freed updated after (ended_job-Writes r ending claim.run.job_id freed)
          (Write.append updated after claim.run.job_id _ _ logged then unchanged after) in
      let e : after ≡ done.0 = ap (λ q. q.0) (returned_inj k3) in
      subst (IsFixed IsEnded id) e (
        Writes-IsFixed r IsEnded id SameRun-IsEnded (λ n o. o) freed after rest
          (release-IsFixed r IsEnded id SameRun-IsEnded (λ n o. o) ended id verified.0 over))

-- Where Degrade or Finish has ended the run of a claim, after any transactions before and any after:
-- with the claim, RenewLease, Degrade, Finish and the checks that AppendEnhancement and RecordTerminal
-- begin with answer that the lease is lost. The limit on concurrent runs is at least one.
pub complete_claim-IsLost :
    (r : Repository) (before afterwards : List Call) (now later : ℕ) (claim : Claim)
    (ending : Ending) (done : Db × Snapshot)
    → 1 ≤ r.max_concurrent_runs_per_user
    → complete_claim r now claim ending (run_calls r before empty_db) ≡ returned done
    → IsLost r (run_calls r afterwards done.0) claim later
complete_claim-IsLost r before afterwards now later claim ending done positive h =
    let start = run_calls r before empty_db in
    let sound : Sound r start = run_calls-Sound r before positive in
    let ws : Writes r start done.0 =
      Holds-returned (Written r start) _ done h
        (complete_claim-Writes r now claim ending start sound) in
    let over = complete_claim-IsEnded r now claim ending start done h in
    ended-IsLost r _ claim later (
      Writes-IsFixed r IsEnded claim.run.id SameRun-IsEnded (λ n o. o) done.0 _
        (run_calls-Writes r positive afterwards done.0 (Writes-Sound r positive start _ ws sound))
        over)
