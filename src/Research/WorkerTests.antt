-- ===== src/Research/WorkerTests.antt =====
-- Runs of the research worker of backend/internal/research/worker.go on concrete values.
use open_music_player.Prelude.{
  ◌≤◌, ◌≡◌, refl, ap, true, none, some, [], arith, text_eq, pos, trim_space, trim_left, is_space,
}
use open_music_player.Research.Types.{any_capability, supports, timeout}
use open_music_player.Research.State.{
  validate_create, normalize_variant_assignment, known_variant, bad_cohort, cohort_token,
  token_rest, has_part, has_prefix, secret_like, degradation_retryable, degradation_message,
  validate_degradation, public_degradation, effective_degradation,
}
use open_music_player.Research.Repository.Tables.{Db, Snapshot, lease_lost, ◌>>=◌}
use open_music_player.Research.Repository.Queries.{
  append_event, reserve_budget, acquire_slot, release_slot, failure_class,
}
use open_music_player.Research.Repository.Loads.{
  load_job, load_snapshot, scan_revisions, last_telemetry, claimed_rows, verify_completable_claim,
}
use open_music_player.Research.Repository.Create.{
  create, insert_job, parse_request, initial_degradation,
}
use open_music_player.Research.Repository.Lease.{
  claim, claim_from, start_run, claim_candidates, claimable, first_per_user, sooner, text_before,
}
use open_music_player.Research.Repository.Complete.{
  complete_claim, actual_ending, ended_run, ended_job, degrade, finish,
}
use open_music_player.Research.Repository.Calls.{run_call, run_calls, empty_db}
use open_music_player.Research.State.{can_retry}
use open_music_player.Research.Worker.{
  Worker, WorkerConfig, new_worker, renew_of, maximum_of, backoff, grow, rounds, deadline_exceeded,
  refused, result, Outcome, succeeded,
}
use open_music_player.Research.Backoff.{doubled, backoff_lem}
use open_music_player.Research.WorkerSteps.{result-timeout}
use open_music_player.Research.WorkerFence.{result-IsLost}
use open_music_player.Research.Repository.Fence.{IsLost}
use open_music_player.Research.Repository.Samples.{
  policy, claimed_once, the_claim, is_returned, value, value-eq,
}
use open_music_player.Prelude.{ℕ, ℤ, ◌+◌, ◌/◌, min}

abbrev plain : Worker
plain = record {
  poll = 1000;
  lease = 30000;
  renew = 10000;
  timeout = 120000;
  base = 1000;
  maximum = 60000;
}

abbrev no_jitter : ℕ → ℤ
no_jitter d = pos 0

abbrev slow_base : WorkerConfig
slow_base = record {
  poll_interval = pos 0;
  lease_duration = pos 0;
  renew_interval = pos 0;
  run_timeout = pos 0;
  backoff_base = pos 90000000000;
  backoff_maximum = pos 0;
}

-- A base above a minute and no maximum: the maximum is a minute then, below the base.
below_base : (new_worker slow_base).maximum ≡ 60000000000
unfolding new_worker renew_of maximum_of
below_base = refl

third_retry : backoff plain no_jitter (pos 3) ≡ 8000
unfolding backoff grow
third_retry = refl

backoff_lem_example :
    (min (doubled (rounds (pos 3)) 1000) 60000 ≤ backoff plain no_jitter (pos 3))
    × (backoff plain no_jitter (pos 3)
        ≤ min (doubled (rounds (pos 3)) 1000) 60000 + min (doubled (rounds (pos 3)) 1000) 60000 / 4)
    × (backoff plain no_jitter (pos 3) ≤ 60000)
backoff_lem_example = backoff_lem plain no_jitter (pos 3)

times_out :
    is_returned (
      degrade policy 50 the_claim
        (public_degradation timeout)
        (run_calls policy claimed_once empty_db))
    ≡ true
unfolding create insert_job parse_request initial_degradation load_job load_snapshot scan_revisions
    last_telemetry append_event reserve_budget validate_create normalize_variant_assignment
    known_variant bad_cohort cohort_token token_rest has_part has_prefix secret_like text_eq
    trim_space trim_left is_space ◌>>=◌ degradation_message degradation_retryable public_degradation
    effective_degradation complete_claim verify_completable_claim claimed_rows actual_ending
    ended_run ended_job release_slot run_calls run_call claim claim_from claim_candidates claimable
    sooner first_per_user text_before supports any_capability acquire_slot start_run failure_class
    degrade validate_degradation
times_out = refl

abbrev late : Db × Snapshot
late =
    value
      (degrade policy 50 the_claim (public_degradation timeout)
        (run_calls policy claimed_once empty_db))
      times_out

may_retry : can_retry late.1.job late.1.latest_degradation ≡ true
unfolding create insert_job parse_request initial_degradation load_job load_snapshot scan_revisions
    last_telemetry append_event reserve_budget validate_create normalize_variant_assignment
    known_variant bad_cohort cohort_token token_rest has_part has_prefix secret_like text_eq
    trim_space trim_left is_space ◌>>=◌ degradation_message degradation_retryable public_degradation
    effective_degradation complete_claim verify_completable_claim claimed_rows actual_ending
    ended_run ended_job release_slot run_calls run_call claim claim_from claim_candidates claimable
    sooner first_per_user text_before supports any_capability acquire_slot start_run failure_class
    degrade validate_degradation can_retry
may_retry = refl

result-timeout_example :
    result policy plain no_jitter 50 the_claim
      (some deadline_exceeded)
      (run_calls policy claimed_once empty_db)
    ≡ (late.0, refused lease_lost)
result-timeout_example =
    result-timeout policy plain no_jitter claimed_once 50 the_claim late (omega arith)
      (value-eq
        (degrade policy 50 the_claim (public_degradation timeout)
          (run_calls policy claimed_once empty_db))
        times_out)
      may_retry

abbrev completed : Db × Outcome
completed = result policy plain no_jitter 50 the_claim none (run_calls policy claimed_once empty_db)

completes : completed.1 ≡ succeeded
unfolding create insert_job parse_request initial_degradation load_job load_snapshot scan_revisions
    last_telemetry append_event reserve_budget validate_create normalize_variant_assignment
    known_variant bad_cohort cohort_token token_rest has_part has_prefix secret_like text_eq
    trim_space trim_left is_space ◌>>=◌ degradation_message degradation_retryable public_degradation
    effective_degradation complete_claim verify_completable_claim claimed_rows actual_ending
    ended_run ended_job release_slot run_calls run_call claim claim_from claim_candidates claimable
    sooner first_per_user text_before supports any_capability acquire_slot start_run failure_class
    finish result
completes = refl

result-IsLost_example : IsLost policy (run_calls policy [] completed.0) the_claim 60
result-IsLost_example =
    result-IsLost policy plain no_jitter claimed_once [] 50 60 the_claim none completed.0
      (omega arith) (ap (λ o. (completed.0, o)) completes)
