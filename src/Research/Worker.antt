-- ===== src/Research/Worker.antt =====
-- backend/internal/research/worker.go and runner.go: the durations of a worker, what it makes of the
-- end of a run, and its steps on the repository. Durations are nanoseconds; the goroutines, the tickers
-- and the context are left out: a run has ended, and its error is an argument.
use open_music_player.Prelude.{
  ℕ, zero, suc, ◌-◌, ◌+◌, ◌*◌, ◌/◌, Bool, not, ◌||◌, Option, none, some, if◌then◌else◌, ltb, leb,
  Text, ℤ, pos, negsuc,
}
use open_music_player.Research.Types.{
  job_completed, DegradationCode, timeout, transient, safety_rejected, validation_rejected,
  runner_terminal, Degradation, WorkerCapabilities,
}
use open_music_player.Research.State.{public_degradation, can_retry}
use open_music_player.Research.Repository.Tables.{
  FailureKind, failure_transient, failure_safety, failure_validation, Db, Repository, Snapshot,
  Claim, RepositoryError, no_job_available, Answer, returned, failed,
}
use open_music_player.Research.Repository.Lease.{claim, claim_candidates}
use open_music_player.Research.Repository.Recover.{recover_expired_leases}
use open_music_player.Research.Repository.Complete.{degrade, finish, retry_claim}

abbrev second : ℕ
second = 1000000000

pub record WorkerConfig : Type 0 where
  pub poll_interval : ℤ
  pub lease_duration : ℤ
  pub renew_interval : ℤ
  pub run_timeout : ℤ
  pub backoff_base : ℤ
  pub backoff_maximum : ℤ

-- The durations of a Worker, which are all positive.
pub record Worker : Type 0 where
  pub poll : ℕ
  pub lease : ℕ
  pub renew : ℕ
  pub timeout : ℕ
  pub base : ℕ
  pub maximum : ℕ

abbrev positive_or : ℕ → ℤ → ℕ
positive_or standard (pos zero) = standard
positive_or standard (pos (suc n)) = suc n
positive_or standard (negsuc n) = standard

-- A renewal interval that is not positive or not below the lease is a third of it, and at least 1.
unfoldable pub renew_of : ℕ → ℤ → ℕ
renew_of lease (negsuc n) = if leb (lease / 3) 0 then 1 else lease / 3
renew_of lease (pos n) =
    let third = if leb (lease / 3) 0 then 1 else lease / 3 in
    if leb n 0 || leb lease n then third else n

unfoldable pub maximum_of : ℕ → ℤ → ℕ
maximum_of base (negsuc n) = 60 * second
maximum_of base (pos n) = if ltb n base then 60 * second else n

unfoldable pub new_worker : WorkerConfig → Worker
unfolding renew_of maximum_of
new_worker c =
    let lease = positive_or (30 * second) c.lease_duration in
    let base = positive_or second c.backoff_base in
    record {
      poll = positive_or second c.poll_interval;
      lease = lease;
      renew = renew_of lease c.renew_interval;
      timeout = positive_or (120 * second) c.run_timeout;
      base = base;
      maximum = maximum_of base c.backoff_maximum;
    }

-- The loop, of which `n` rounds are left.
unfoldable pub grow : ℕ → ℕ → ℕ → ℕ
grow maximum zero d = d
grow maximum (suc n) d =
    let further = grow maximum n (d * 2) in
    if not (ltb d maximum) then d else if ltb (maximum / 2) d then maximum else further

abbrev pub rounds : ℤ → ℕ
rounds (pos n) = n
rounds (negsuc n) = 0

abbrev pub at_least_zero : ℤ → ℕ
at_least_zero (pos n) = n
at_least_zero (negsuc n) = 0

-- `w.jitter` is a parameter.
unfoldable pub backoff : Worker → (ℕ → ℤ) → ℤ → ℕ
unfolding grow
backoff w jitter attempt =
    let grown = grow w.maximum (rounds attempt) w.base in
    let d = if ltb w.maximum grown then w.maximum else grown in
    let wanted = at_least_zero (jitter d) in
    let j = if ltb (d / 4) wanted then d / 4 else wanted in
    if ltb (w.maximum - j) d then w.maximum else d + j

-- What Run returns: an error by what errors.Is and errors.As find in it.
pub data RunError : Type 0 where
  deadline_exceeded canceled claim_lost other_error : RunError
  runner_error : FailureKind → Option Degradation → RunError

unfoldable pub failure_degradation : FailureKind → DegradationCode
failure_degradation failure_transient = transient
failure_degradation failure_safety = safety_rejected
failure_degradation failure_validation = validation_rejected
failure_degradation _ = runner_terminal

unfoldable pub degradation_for : RunError → Degradation
unfolding failure_degradation
degradation_for deadline_exceeded = public_degradation timeout
degradation_for (runner_error kind (some d)) = public_degradation d.code
degradation_for (runner_error kind none) = public_degradation (failure_degradation kind)
degradation_for _ = public_degradation runner_terminal

pub data Outcome : Type 0 where
  succeeded lost stopped : Outcome
  refused : RepositoryError → Outcome

abbrev pub outcome {ℓ} : {A : Type ℓ} → Db → Answer (Db × A) → Db × Outcome
outcome db (returned done) = (done.0, succeeded)
outcome db (failed e) = (db, refused e)

abbrev pub minus_one : ℕ → ℤ
minus_one zero = negsuc 0
minus_one (suc n) = pos n

-- The retry that follows a degradation, where CanRetry allows one.
unfoldable pub retry_after :
    Repository → Worker → (ℕ → ℤ) → ℕ → Claim → Db × Snapshot → Db × Outcome
unfolding backoff
retry_after r w jitter now c done =
    let job = done.1.job in
    let attempt = minus_one job.attempts in
    let retried = retry_claim r now c (now + backoff w jitter attempt) done.0 in
    if can_retry job done.1.latest_degradation then outcome done.0 retried else (done.0, succeeded)

-- `none` is a run without an error. Each call of the repository is a transaction of its own.
unfoldable pub result :
    Repository → Worker → (ℕ → ℤ) → ℕ → Claim → Option RunError → Db → Db × Outcome
unfolding degradation_for retry_after
result r w jitter now c none db = outcome db (finish r now c job_completed db)
result r w jitter now c (some claim_lost) db = (db, lost)
result r w jitter now c (some canceled) db = (db, stopped)
result r w jitter now c (some e) db = elim (degrade r now c (degradation_for e) db) [
  | failed refusal ↦ (db, refused refusal)
  | returned done ↦ retry_after r w jitter now c done
]

pub data Picked : Type 0 where
  idle : Picked
  claimed : Claim → Picked
  picking_failed : RepositoryError → Picked

-- RunOnce up to the run: the expired leases are recovered, then a job is claimed. `seen` are the
-- tables that the SELECT of Claim reads.
unfoldable pub run_once :
    Repository
    → Worker
    → WorkerCapabilities
    → Db
    → (Text → Bool)
    → ℕ
    → Text
    → Text
    → Text
    → Db
    → Db × Picked
run_once r w capabilities seen locked now worker_id run_id token db =
    elim (recover_expired_leases r locked now db) [
      | failed e ↦ (db, picking_failed e)
      | returned recovered ↦
          let found = claim_candidates locked capabilities now seen in
          elim (claim r capabilities worker_id run_id token (now + w.lease) found recovered.0) [
            | returned done ↦ (done.0, claimed done.1)
            | failed no_job_available ↦ (recovered.0, idle)
            | failed e ↦ (recovered.0, picking_failed e)
          ]
    ]
