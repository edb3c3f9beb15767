-- ===== src/Research/Types.antt =====
-- backend/internal/research/types.go: statuses, variants, degradations and the validated inputs. A
-- string type with listed constants is a data type with one more constructor for any other string.
use open_music_player.Prelude.{ℕ, Bool, true, false, ◌||◌, Option, List, Text, codes, ℤ}

pub data JobStatus : Type 0 where
  job_queued job_running job_cancel_requested job_completed job_degraded job_cancelled : JobStatus
  unknown_job : Text → JobStatus

unfoldable pub job_terminal : JobStatus → Bool
job_terminal job_completed = true
job_terminal job_degraded = true
job_terminal job_cancelled = true
job_terminal _ = false

pub data RunStatus : Type 0 where
  run_running run_completed run_degraded run_cancelled run_timed_out run_lease_lost : RunStatus
  unknown_run : Text → RunStatus

unfoldable pub run_terminal : RunStatus → Bool
run_terminal run_completed = true
run_terminal run_degraded = true
run_terminal run_cancelled = true
run_terminal run_timed_out = true
run_terminal run_lease_lost = true
run_terminal _ = false

-- `no_variant` is the empty string.
pub data Variant : Type 0 where
  no_variant deterministic_only direct_structured_judge bounded_agent_dark_launch : Variant
  unknown_variant : Text → Variant

pub data RevisionStage : Type 0 where
  stage_baseline stage_direct_judge stage_deep_agent : RevisionStage
  unknown_stage : Text → RevisionStage

abbrev pub default_variant_cohort : Text
default_variant_cohort = codes "default"

pub record VariantAssignment : Type 0 where
  pub variant : Variant
  pub cohort : Text

pub record WorkerCapabilities : Type 0 where
  pub direct_judge : Bool
  pub deep_agent : Bool

unfoldable pub supports : WorkerCapabilities → Variant → Bool
supports c direct_structured_judge = c.direct_judge
supports c bounded_agent_dark_launch = c.deep_agent
supports c _ = false

unfoldable pub any_capability : WorkerCapabilities → Bool
any_capability c = c.direct_judge || c.deep_agent

pub record VariantAssignmentInput : Type 0 where
  pub owner_id : Text
  pub request_hash : Text
  pub idempotency_key : Text

pub data DegradationCode : Type 0 where
  model_disabled model_unavailable budget_exhausted transient timeout : DegradationCode
  runner_terminal validation_rejected safety_rejected enhancement_rejected : DegradationCode
  lease_expired no_candidates : DegradationCode
  unknown_code : Text → DegradationCode

pub record Degradation : Type 0 where
  pub code : DegradationCode
  pub message : Text
  pub retryable : Bool

pub data ReviewAction : Type 0 where
  review_accepted review_overridden : ReviewAction
  unknown_action : Text → ReviewAction

-- The decoded request; `none` where the JSON decoder fails, has a field unknown to the struct or
-- finds text behind the value.
pub record ResearchRequest : Type 0 where
  pub query : Text
  pub providers : Option (List Text)
  pub limit : ℤ

-- A float64 confidence is whether it lies between 0 and 1, all that the code asks of it.
pub record SourceQualitySnapshot : Type 0 where
  pub score : ℤ
  pub classification : Text
  pub recommendation : Text
  pub confidence_fits : Bool
  pub warnings : List Text

pub record CandidateSnapshot : Type 0 where
  pub candidate_id : Text
  pub provider : Text
  pub source_id : Text
  pub source_url : Text
  pub title : Text
  pub artist : Text
  pub uploader : Text
  pub duration_ms : ℤ
  pub downloadable : Bool
  pub playable : Bool
  pub explicit : Option Bool
  pub source_quality : SourceQualitySnapshot

pub record Recommendation : Type 0 where
  pub candidate_id : Text
  pub rank : ℤ
  pub confidence_fits : Bool
  pub rationale : Text
  pub classification : Text
  pub warnings : List Text
  pub evidence_refs : List Text

pub record Provenance : Type 0 where
  pub source : Text
  pub worker_schema_version : Text
  pub spawn_to_first_revision_ms : ℤ
  pub spawn_to_final_ms : ℤ

pub record SafeTiming : Type 0 where
  pub baseline_build_ms : ℤ
  pub worker_startup_ms : ℤ
  pub worker_inference_ms : ℤ

pub record RevisionPayload : Type 0 where
  pub schema_version : Text
  pub stage : RevisionStage
  pub query : Text
  pub candidates : List CandidateSnapshot
  pub recommendations : List Recommendation
  pub provenance : Provenance
  pub timing : SafeTiming

-- The JSON of a revision, as what ParseRevisionPayload makes of it: `none` where it rejects it.
abbrev pub RawPayload : Type 0
RawPayload = Option RevisionPayload

pub record RevisionInput : Type 0 where
  pub id : Text
  pub payload : RawPayload

pub record CreateInput : Type 0 where
  pub id : Text
  pub owner_id : Text
  pub request : Option ResearchRequest
  pub request_hash : Text
  pub retry_safe : Bool
  pub max_attempts : ℤ
  pub idempotency_key : Text
  pub baseline : RevisionInput
  pub assignment : VariantAssignment

-- Without the request, which is stored and returned as it came, and the time of the last update.
pub record Job : Type 0 where
  pub id : Text
  pub owner_id : Text
  pub request_hash : Text
  pub idempotency_key : Text
  pub available_at : ℕ
  pub latest_revision : ℕ
  pub latest_revision_id : Text
  pub assignment : VariantAssignment
  pub created_at : ℕ
  pub status : JobStatus
  pub retry_safe : Bool
  pub attempts : ℕ
  pub max_attempts : ℕ

pub record ReviewInput : Type 0 where
  pub candidate_id : Text
  pub action : ReviewAction
  pub reason : Text
  pub idempotency_key : Text
  pub reviewer_id : Text

pub record TerminalModelAttempt : Type 0 where
  pub stage : RevisionStage
  pub attempt : ℤ
  pub duration_ms : ℤ
  pub repair : Bool
  pub status : Text

pub record TerminalTelemetry : Type 0 where
  pub process_startup_to_request_accepted_ms : Option ℤ
  pub request_accepted_to_direct_first_ms : Option ℤ
  pub request_accepted_to_final_ms : Option ℤ
  pub tool_calls : ℤ
  pub model_attempts : List TerminalModelAttempt

pub data StateError : Type 0 where
  invalid_transition invalid_revision invalid_degradation invalid_review invalid_variant :
      StateError

pub data Result {ℓ} (A : Type ℓ) : Type ℓ where
  ok : A → Result A
  err : StateError → Result A
