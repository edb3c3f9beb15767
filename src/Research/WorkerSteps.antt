-- ===== src/Research/WorkerSteps.antt =====
-- backend/internal/research/worker.go: the worker's steps on the repository.
use open_music_player.Prelude.{ℕ, ◌≤◌, ◌+◌, ◌≡◌, refl, ap, ◌∙◌, true, some, List, ℤ}
use open_music_player.Research.Types.{timeout}
use open_music_player.Research.State.{public_degradation, can_retry}
use open_music_player.Research.Repository.Tables.{
  Db, Repository, Snapshot, Claim, lease_lost, returned, failed,
}
use open_music_player.Research.Repository.Calls.{Call, run_calls, empty_db}
use open_music_player.Research.Repository.Complete.{degrade}
use open_music_player.Research.Repository.LostRetry.{degrade-retry_claim}
use open_music_player.Research.Worker.{
  Worker, deadline_exceeded, degradation_for, Outcome, refused, backoff, minus_one, retry_after,
  result,
}

timeout-code : (public_degradation timeout).code ≡ timeout
unfolding public_degradation
timeout-code = refl

-- With a timeout after any transactions, where Degrade has ended the run and CanRetry allows a retry, the worker's result
-- leaves the tables as Degrade has made them and reports that the lease is lost.
pub result-timeout :
    (r : Repository) (w : Worker) (jitter : ℕ → ℤ) (before : List Call) (now : ℕ) (c : Claim)
    (done : Db × Snapshot)
    → 1 ≤ r.max_concurrent_runs_per_user
    → degrade r now c (public_degradation timeout) (run_calls r before empty_db) ≡ returned done
    → can_retry done.1.job done.1.latest_degradation ≡ true
    → result r w jitter now c (some deadline_exceeded) (run_calls r before empty_db)
      ≡ (done.0, refused lease_lost)
unfolding result degradation_for retry_after
result-timeout r w jitter before now c done positive h allowed =
    let (lost, listed) =
      degrade-retry_claim r before now now (now + backoff w jitter (minus_one done.1.job.attempts))
        c (public_degradation timeout) done positive timeout-code h in
    ap
      (λ m. elim m as (λ x. Db × Outcome) [
        | failed refusal ↦ (run_calls r before empty_db, refused refusal)
        | returned d ↦ retry_after r w jitter now c d
      ])
      h
    ∙ rw (allowed, lost) refl
