-- ===== src/Research/WorkerFence.antt =====
-- backend/internal/research/worker.go: a claim whose result the worker has filed.
use open_music_player.Prelude.{
  ℕ, ◌≤◌, ◌+◌, ◌≡◌, refl, ap, subst, ◌∙◌, inl, inr, Option, none, some, List, ◌∷◌, ℤ, Bool-cases,
}
use open_music_player.Research.Types.{Degradation}
use open_music_player.Research.State.{can_retry}
use open_music_player.Research.Repository.Tables.{
  Db, Repository, Snapshot, Claim, Answer, returned, failed, bind-returned,
}
use open_music_player.Research.Repository.Calls.{Call, committed, run_call, run_calls, empty_db}
use open_music_player.Research.Repository.Complete.{
  degrade, finish, retry_claim, completing, degrading,
}
use open_music_player.Research.Repository.Fence.{IsLost, complete_claim-IsLost}
use open_music_player.Research.Worker.{
  Worker, RunError, deadline_exceeded, canceled, claim_lost, other_error, runner_error,
  degradation_for, Outcome, succeeded, refused, outcome, backoff, minus_one, retry_after, result,
}

outcome-succeeded :
    (db after : Db) (m : Answer (Db × Snapshot))
    → outcome db m ≡ (after, succeeded)
    → (done : Db × Snapshot) × (m ≡ returned done) × (done.0 ≡ after)
outcome-succeeded db after (returned done) h = (done, refl, ap (λ q. q.0) h)
outcome-succeeded db after (failed e) h = absurd (cc (ap (λ q. q.1) h))

module _ (r : Repository) (w : Worker) (jitter : ℕ → ℤ) (before afterwards : List Call)
    (now later : ℕ) (c : Claim) (after : Db) (positive : 1 ≤ r.max_concurrent_runs_per_user) where
  retried-IsLost :
      (d : Degradation) (done : Db × Snapshot)
      → degrade r now c d (run_calls r before empty_db) ≡ returned done
      → retry_after r w jitter now c done ≡ (after, succeeded)
      → IsLost r (run_calls r afterwards after) c later
  unfolding degrade retry_after run_calls run_call
  retried-IsLost d done h k =
      let (valid, h0, ended) = bind-returned _ _ done h in
      let at = now + backoff w jitter (minus_one done.1.job.attempts) in
      elim (Bool-cases (can_retry done.1.job done.1.latest_degradation)) [
        | inl allowed ↦
            let (again, retried, same) =
              outcome-succeeded done.0 after (retry_claim r now c at done.0) (rw (allowed) at k) in
            let run : committed done.0 (retry_claim r now c at done.0) ≡ after =
              ap (committed done.0) retried ∙ same in
            subst (λ db. IsLost r (run_calls r afterwards db) c later) run
              (complete_claim-IsLost r before (Call.retry_claim now c at ∷ afterwards) now later c
                (degrading d) done positive ended)
        | inr final ↦
            let same : done.0 ≡ after = ap (λ q. q.0) (rw (final) at k) in
            subst (λ db. IsLost r (run_calls r afterwards db) c later) same
              (complete_claim-IsLost r before afterwards now later c (degrading d) done positive
                ended)
      ]

  degraded-IsLost :
      (d : Degradation) (m : Answer (Db × Snapshot))
      → degrade r now c d (run_calls r before empty_db) ≡ m
      → (elim m as (λ x. Db × Outcome) [
        | failed refusal ↦ (run_calls r before empty_db, refused refusal)
        | returned done ↦ retry_after r w jitter now c done
      ])
        ≡ (after, succeeded)
      → IsLost r (run_calls r afterwards after) c later
  degraded-IsLost d (returned done) h k = retried-IsLost d done h k
  degraded-IsLost d (failed e) h k = absurd (cc (ap (λ q. q.1) k))

-- Where the worker's result succeeds for a claim, after any transactions on empty tables and whatever
-- the error of the run, the claim is over: after any further transactions, RenewLease, Degrade, Finish
-- and the checks that AppendEnhancement and RecordTerminal begin with answer that its lease is lost. The
-- limit on concurrent runs is at least one.
pub result-IsLost :
    (r : Repository) (w : Worker) (jitter : ℕ → ℤ) (before afterwards : List Call) (now later : ℕ)
    (c : Claim) (error : Option RunError) (after : Db)
    → 1 ≤ r.max_concurrent_runs_per_user
    → result r w jitter now c error (run_calls r before empty_db) ≡ (after, succeeded)
    → IsLost r (run_calls r afterwards after) c later
unfolding result finish
result-IsLost r w jitter before afterwards now later c none after positive h =
    let (done, ended, same) = outcome-succeeded (run_calls r before empty_db) after _ h in
    subst (λ db. IsLost r (run_calls r afterwards db) c later) same
      (complete_claim-IsLost r before afterwards now later c completing done positive ended)
result-IsLost r w jitter before afterwards now later c (some claim_lost) after positive h =
    absurd (cc (ap (λ q. q.1) h))
result-IsLost r w jitter before afterwards now later c (some canceled) after positive h =
    absurd (cc (ap (λ q. q.1) h))
result-IsLost r w jitter before afterwards now later c (some deadline_exceeded) after positive h =
    degraded-IsLost r w jitter before afterwards now later c after positive
      (degradation_for deadline_exceeded) _ refl h
result-IsLost r w jitter before afterwards now later c (some other_error) after positive h =
    degraded-IsLost r w jitter before afterwards now later c after positive
      (degradation_for other_error) _ refl h
result-IsLost r w jitter before afterwards now later c (some (runner_error kind d)) after positive
      h =
    degraded-IsLost r w jitter before afterwards now later c after positive
      (degradation_for (runner_error kind d)) _ refl h
