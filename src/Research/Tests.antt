-- ===== src/Research/Tests.antt =====
-- Runs of the research state machine of backend/internal/research on concrete values.
use open_music_player.Prelude.{ℕ, ◌≡◌, refl, true, false, [], Text, codes, text_eq, pos}
use open_music_player.Research.Types.{
  job_queued, job_running, job_degraded, run_running, run_completed, run_terminal,
  direct_structured_judge, bounded_agent_dark_launch, VariantAssignment, VariantAssignmentInput,
  lease_expired, Degradation, Job, ok,
}
use open_music_player.Research.State.{
  transition_job, job_transitions, transition_run, normalize_variant_assignment, known_variant,
  bad_cohort, cohort_token, token_rest, has_part, has_prefix, secret_like, validate_degradation,
  degradation_message, degradation_retryable,
}
use open_music_player.Research.Rollout.{RolloutConfig, assign, deep_eligible, rollout_cohort_bps}
use open_music_player.Research.Traces.{
  History, created, claimed, retried, moved, Balance, history_lem,
}

starts : transition_job job_queued job_running ≡ ok tt
unfolding transition_job job_transitions
starts = refl

degrades : transition_job job_running job_degraded ≡ ok tt
unfolding transition_job job_transitions
degrades = refl

requeues : transition_job job_degraded job_queued ≡ ok tt
unfolding transition_job job_transitions
requeues = refl

-- Claimed, degraded, retried, claimed.
abbrev claimed_twice : History job_running 2 1
claimed_twice =
    claimed (retried (moved (claimed created starts) degrades (λ e. cc e) (λ e. cc e)) requeues)
      starts

history_lem_example : Balance job_running 2 1
history_lem_example = history_lem job_running 2 1 claimed_twice

completes : transition_run run_running run_completed ≡ ok tt
unfolding transition_run run_terminal
completes = refl

abbrev final_lease : Degradation
final_lease = record { code = lease_expired; message = []; retryable = false }

final_lease-accepted : validate_degradation final_lease ≡ ok tt
unfolding validate_degradation degradation_retryable degradation_message text_eq
final_lease-accepted = refl

abbrev last_attempt : Job
last_attempt = record {
  id = codes "j1";
  owner_id = codes "u1";
  request_hash = codes "0123456789abcdef";
  idempotency_key = codes "k1";
  available_at = 5;
  latest_revision = 1;
  latest_revision_id = codes "r1";
  assignment = record { variant = direct_structured_judge; cohort = codes "default" };
  created_at = 5;
  status = job_degraded;
  retry_safe = true;
  attempts = 3;
  max_attempts = 3;
}

abbrev judged : VariantAssignment
judged = record { variant = direct_structured_judge; cohort = codes "beta.2" }

judged_normal : normalize_variant_assignment judged ≡ ok judged
unfolding normalize_variant_assignment known_variant bad_cohort cohort_token token_rest has_part
    has_prefix secret_like text_eq
judged_normal = refl

abbrev config : RolloutConfig
config = record {
  research_enabled = true;
  direct_judge_enabled = true;
  deep_agent_enabled = true;
  deep_agent_dark_launch = true;
  cohort_bps = pos 10000;
}

abbrev input : VariantAssignmentInput
input = record { owner_id = codes "o"; request_hash = codes "h"; idempotency_key = codes "k" }

-- Every digest in the bucket 41.
abbrev digest : Text → ℕ
digest text = 41

deep_at_50 :
    (assign digest (record config { cohort_bps = pos 50 }) input).variant
    ≡ bounded_agent_dark_launch
unfolding assign deep_eligible rollout_cohort_bps text_eq
deep_at_50 = refl
