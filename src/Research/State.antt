-- ===== src/Research/State.antt =====
-- backend/internal/research/state.go: transitions and validations. The regular expressions are
-- written as tests on code points.
use open_music_player.Prelude.{
  ℕ, Bool, true, false, not, ◌&&◌, ◌||◌, Option, none, some, List, [], ◌∷◌, if◌then◌else◌, ltb, leb,
  ◌==◌, length, byte_length, Text, codes, text_eq, ℤ, pos, ltb_ℤ,
}
use open_music_player.Research.Types.{
  JobStatus, job_queued, job_running, job_cancel_requested, job_completed, job_degraded,
  job_cancelled, RunStatus, run_running, unknown_run, run_terminal, Variant, no_variant,
  deterministic_only, direct_structured_judge, bounded_agent_dark_launch, RevisionStage,
  stage_direct_judge, stage_deep_agent, default_variant_cohort, VariantAssignment, RevisionInput,
  DegradationCode, model_disabled, model_unavailable, budget_exhausted, transient, timeout,
  runner_terminal, validation_rejected, safety_rejected, enhancement_rejected, lease_expired,
  no_candidates, unknown_code, Degradation, unknown_action, CreateInput, Job, ReviewInput,
  TerminalModelAttempt, TerminalTelemetry, invalid_transition, invalid_revision,
  invalid_degradation, invalid_review, invalid_variant, Result, ok, err,
}

abbrev pub is_default : VariantAssignment → Bool
is_default assignment = elim assignment.variant [
  | no_variant ↦ text_eq assignment.cohort []
  | _ ↦ false
]

unfoldable pub known_variant : Variant → Bool
known_variant deterministic_only = true
known_variant direct_structured_judge = true
known_variant bounded_agent_dark_launch = true
known_variant _ = false

abbrev pub is_lower_or_digit : ℕ → Bool
is_lower_or_digit c = (leb b'a' c && leb c b'z') || (leb b'0' c && leb c b'9')

unfoldable pub token_rest : Text → Bool
token_rest [] = true
token_rest (c ∷ s) = (is_lower_or_digit c || c == b'.' || c == b'_' || c == b'-') && token_rest s

-- `^[a-z0-9][a-z0-9._-]{0,63}$`; such a text is its own lower case.
unfoldable pub cohort_token : Text → Bool
unfolding token_rest
cohort_token [] = false
cohort_token (c ∷ s) = is_lower_or_digit c && token_rest s && leb (length s) 63

unfoldable pub has_prefix : Text → Text → Bool
has_prefix s [] = true
has_prefix [] (d ∷ p) = false
has_prefix (c ∷ s) (d ∷ p) = c == d && has_prefix s p

unfoldable pub has_part : Text → Text → Bool
unfolding has_prefix
has_part [] p = has_prefix [] p
has_part (c ∷ s) p = has_prefix (c ∷ s) p || has_part s p

-- `(token|secret|password|api[-_]?key|bearer|^sk-)`, for a text in lower case.
unfoldable pub secret_like : Text → Bool
unfolding has_part has_prefix
secret_like s =
    has_part s (codes "token")
    || has_part s (codes "secret")
    || has_part s (codes "password")
    || has_part s (codes "apikey")
    || has_part s (codes "api-key")
    || has_part s (codes "api_key")
    || has_part s (codes "bearer")
    || has_prefix s (codes "sk-")

unfoldable pub bad_cohort : Text → Bool
unfolding cohort_token has_part has_prefix secret_like
bad_cohort s =
    not (cohort_token s) || has_part s (codes "://") || has_prefix s (codes "www.") || secret_like s

unfoldable pub normalize_variant_assignment : VariantAssignment → Result VariantAssignment
unfolding bad_cohort known_variant
normalize_variant_assignment assignment =
    let cohort =
      if text_eq assignment.cohort [] then default_variant_cohort else assignment.cohort in
    if is_default assignment
    then ok (record { variant = deterministic_only; cohort = default_variant_cohort })
    else if not (known_variant assignment.variant)
    then err invalid_variant
    else if bad_cohort cohort
    then err invalid_variant
    else ok (record { variant = assignment.variant; cohort = cohort })

unfoldable pub variant_allows_enhancement : Variant → RevisionStage → Bool
variant_allows_enhancement direct_structured_judge stage_direct_judge = true
variant_allows_enhancement bounded_agent_dark_launch stage_deep_agent = true
variant_allows_enhancement _ _ = false

-- `jobTransitions`; no status is beside itself in it, so `from != to` holds where it is true.
unfoldable pub job_transitions : JobStatus → JobStatus → Bool
job_transitions job_queued job_running = true
job_transitions job_queued job_cancelled = true
job_transitions job_running job_cancel_requested = true
job_transitions job_running job_completed = true
job_transitions job_running job_degraded = true
job_transitions job_cancel_requested job_cancelled = true
job_transitions job_degraded job_queued = true
job_transitions _ _ = false

unfoldable pub transition_job : JobStatus → JobStatus → Result (Unit {0})
unfolding job_transitions
transition_job from to = if job_transitions from to then ok tt else err invalid_transition

unfoldable pub transition_run : RunStatus → RunStatus → Result (Unit {0})
unfolding run_terminal
transition_run run_running to = if run_terminal to then ok tt else err invalid_transition
transition_run _ to = err invalid_transition

unfoldable pub validate_run_status : RunStatus → Result (Unit {0})
validate_run_status (unknown_run s) = err invalid_transition
validate_run_status _ = ok tt

unfoldable pub validate_create : CreateInput → Result (Unit {0})
unfolding normalize_variant_assignment
validate_create input =
    if text_eq input.owner_id []
      || text_eq input.idempotency_key []
      || text_eq input.request_hash []
      || text_eq input.baseline.id []
      || ltb_ℤ input.max_attempts (pos 1)
    then err invalid_revision
    else elim (normalize_variant_assignment input.assignment) [ ok a ↦ ok tt | err e ↦ err e ]

unfoldable pub validate_enhancement : RevisionInput → Result (Unit {0})
validate_enhancement input = if text_eq input.id [] then err invalid_revision else ok tt

-- `degradationRetryable`, with its absent keys.
unfoldable pub degradation_retryable : DegradationCode → Option Bool
degradation_retryable model_disabled = some false
degradation_retryable model_unavailable = some true
degradation_retryable budget_exhausted = some false
degradation_retryable transient = some true
degradation_retryable timeout = some true
degradation_retryable runner_terminal = some false
degradation_retryable validation_rejected = some false
degradation_retryable safety_rejected = some false
degradation_retryable enhancement_rejected = some false
degradation_retryable lease_expired = some true
degradation_retryable no_candidates = some false
degradation_retryable (unknown_code s) = none

-- `degradationMessages`; an absent key reads as the empty message.
unfoldable pub degradation_message : DegradationCode → Text
degradation_message model_disabled = codes "Research enhancements are disabled."
degradation_message model_unavailable = codes "Research enhancements are temporarily unavailable."
degradation_message budget_exhausted = codes "Research enhancement budget is exhausted."
degradation_message transient = codes "Research enhancements are temporarily unavailable."
degradation_message timeout = codes "Research enhancement timed out."
degradation_message runner_terminal = codes "Research enhancement ended unexpectedly."
degradation_message validation_rejected = codes "Research enhancement response was rejected."
degradation_message safety_rejected = codes "Research enhancement response was rejected for safety."
degradation_message enhancement_rejected = codes "Research enhancement response was rejected."
degradation_message lease_expired = codes "Research worker lease expired."
degradation_message no_candidates = codes "No matching candidates were found."
degradation_message (unknown_code s) = []

abbrev pub is_lease_expired : DegradationCode → Bool
is_lease_expired lease_expired = true
is_lease_expired _ = false

abbrev pub differ : Bool → Bool → Bool
differ true b = not b
differ false b = b

-- A code of one table is one of the other, so `known` is `ok`.
unfoldable pub validate_degradation : Degradation → Result (Unit {0})
validate_degradation d = elim (degradation_retryable d.code) [
  | none ↦ err invalid_degradation
  | some retryable ↦
      if (differ retryable d.retryable && not (is_lease_expired d.code && not d.retryable))
        || (not (text_eq d.message []) && not (text_eq d.message (degradation_message d.code)))
      then err invalid_degradation
      else ok tt
]

unfoldable pub public_degradation : DegradationCode → Degradation
public_degradation code = record {
  code = code;
  message = degradation_message code;
  retryable = elim (degradation_retryable code) [ none ↦ false | some retryable ↦ retryable ];
}

unfoldable pub effective_degradation : Job → Degradation → Degradation
effective_degradation job d =
    if leb job.max_attempts job.attempts then record d { retryable = false } else d

unfoldable pub can_retry : Job → Option Degradation → Bool
can_retry job none = false
can_retry job (some d) =
    (elim job.status [ job_degraded ↦ true | _ ↦ false ])
    && job.retry_safe
    && d.retryable
    && ltb job.attempts job.max_attempts

-- ValidateReview
unfoldable pub validate_review : ReviewInput → Result (Unit {0})
validate_review input =
    if text_eq input.candidate_id []
      || text_eq input.idempotency_key []
      || ltb 512 (byte_length input.reason)
      || elim input.action [ unknown_action s ↦ true | _ ↦ false ]
    then err invalid_review
    else ok tt

abbrev pub is_negative : Option ℤ → Bool
is_negative none = false
is_negative (some n) = ltb_ℤ n (pos 0)

unfoldable pub bad_attempt : TerminalModelAttempt → Bool
bad_attempt a =
    (elim a.stage [ stage_direct_judge ↦ false | stage_deep_agent ↦ false | _ ↦ true ])
    || ltb_ℤ a.attempt (pos 1)
    || ltb_ℤ a.duration_ms (pos 0)
    || (not (text_eq a.status (codes "success"))
        && not (text_eq a.status (codes "parse_error"))
        && not (text_eq a.status (codes "transport_error")))

unfoldable pub validate_attempts : List TerminalModelAttempt → Result (Unit {0})
unfolding bad_attempt
validate_attempts [] = ok tt
validate_attempts (a ∷ rest) =
    if bad_attempt a then err invalid_revision else validate_attempts rest

unfoldable pub validate_terminal_telemetry : TerminalTelemetry → Result (Unit {0})
unfolding validate_attempts
validate_terminal_telemetry value =
    if ltb_ℤ value.tool_calls (pos 0) || ltb 24 (length value.model_attempts)
    then err invalid_revision
    else if is_negative value.process_startup_to_request_accepted_ms
        || is_negative value.request_accepted_to_direct_first_ms
        || is_negative value.request_accepted_to_final_ms
    then err invalid_revision
    else validate_attempts value.model_attempts
