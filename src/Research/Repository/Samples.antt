-- ===== src/Research/Repository/Samples.antt =====
-- Concrete values for the runs of the research repository of backend/internal/research.
use open_music_player.Prelude.{
  ◌≡◌, refl, Bool, true, false, none, some, List, [], ◌∷◌, codes, text_eq, pos, trim_space,
  trim_left, is_space,
}
use open_music_player.Research.Types.{
  direct_structured_judge, stage_baseline, ResearchRequest, RevisionPayload, CandidateSnapshot,
  CreateInput, run_running, WorkerCapabilities,
}
use open_music_player.Research.State.{
  validate_create, normalize_variant_assignment, known_variant, bad_cohort, cohort_token,
  token_rest, has_part, has_prefix, secret_like, degradation_retryable, degradation_message,
  public_degradation, effective_degradation,
}
use open_music_player.Research.Repository.Tables.{
  Db, Repository, Snapshot, Claim, Answer, returned, failed, ◌>>=◌,
}
use open_music_player.Research.Repository.Queries.{append_event, reserve_budget}
use open_music_player.Research.Repository.Loads.{
  load_job, load_snapshot, scan_revisions, last_telemetry,
}
use open_music_player.Research.Repository.Create.{
  create, insert_job, parse_request, initial_degradation,
}
use open_music_player.Research.Repository.Calls.{Call, run_calls, empty_db}

abbrev pub policy : Repository
policy = record {
  daily_units_per_attempt = 1;
  daily_limit = 2;
  max_concurrent_runs_per_user = 1;
  surface_deep_agent_revisions = false;
}

abbrev pub request : ResearchRequest
request = record { query = codes "a song"; providers = some (codes "youtube" ∷ []); limit = pos 5 }

abbrev pub candidate : CandidateSnapshot
candidate = record {
  candidate_id = codes "c1";
  provider = codes "youtube";
  source_id = [];
  source_url = codes "https://youtu.be/c1";
  title = codes "a song";
  artist = [];
  uploader = [];
  duration_ms = pos 200000;
  downloadable = true;
  playable = true;
  explicit = none;
  source_quality = record {
    score = pos 80;
    classification = codes "official_audio";
    recommendation = codes "preferred";
    confidence_fits = true;
    warnings = [];
  };
}

abbrev pub baseline : RevisionPayload
baseline = record {
  schema_version = codes "omp.research.revision.v1";
  stage = stage_baseline;
  query = codes "a song";
  candidates = candidate ∷ [];
  recommendations =
      record {
        candidate_id = codes "c1";
        rank = pos 1;
        confidence_fits = true;
        rationale = [];
        classification = codes "official_audio";
        warnings = [];
        evidence_refs = codes "c1" ∷ [];
      }
      ∷ [];
  provenance = record {
    source = codes "deterministic_discovery_v1";
    worker_schema_version = [];
    spawn_to_first_revision_ms = pos 0;
    spawn_to_final_ms = pos 0;
  };
  timing = record {
    baseline_build_ms = pos 5;
    worker_startup_ms = pos 0;
    worker_inference_ms = pos 0;
  };
}

abbrev pub input : CreateInput
input = record {
  id = codes "j1";
  owner_id = codes "u1";
  request = some request;
  request_hash = codes "0123456789abcdef";
  retry_safe = true;
  max_attempts = pos 2;
  idempotency_key = codes "k1";
  baseline = record { id = codes "r1"; payload = some baseline };
  assignment = record { variant = direct_structured_judge; cohort = codes "default" };
}

abbrev pub judge : WorkerCapabilities
judge = record { direct_judge = true; deep_agent = false }

abbrev pub claimed_once : List Call
claimed_once =
    let created = run_calls policy (Call.create 10 (codes "j9") input ∷ []) empty_db in
    Call.create 10 (codes "j9") input
    ∷ Call.claim created (λ id. false) judge 20 (codes "w1") (codes "n1") (codes "t1") 90
    ∷ []

module _ {A : Type 0} where
  abbrev pub is_returned : Answer A → Bool
  is_returned (returned a) = true
  is_returned (failed e) = false

  abbrev pub value : (m : Answer A) → is_returned m ≡ true → A
  value (returned a) h = a
  value (failed e) h = absurd (cc h)

  pub value-eq : (m : Answer A) (h : is_returned m ≡ true) → m ≡ returned (value m h)
  value-eq (returned a) h = refl
  value-eq (failed e) h = absurd (cc h)

pub creates : is_returned (create policy 10 (codes "j9") input empty_db) ≡ true
unfolding create insert_job parse_request initial_degradation load_job load_snapshot scan_revisions
    last_telemetry append_event reserve_budget validate_create normalize_variant_assignment
    known_variant bad_cohort cohort_token token_rest has_part has_prefix secret_like text_eq
    trim_space trim_left is_space ◌>>=◌ degradation_message degradation_retryable public_degradation
    effective_degradation
creates = refl

abbrev pub first : Db × Snapshot
first = value (create policy 10 (codes "j9") input empty_db) creates

abbrev pub the_claim : Claim
the_claim = record {
  snapshot = first.1;
  run = record {
    id = codes "n1";
    job_id = codes "j1";
    worker_id = codes "w1";
    lease_token = codes "t1";
    status = run_running;
    attempt = 1;
    lease_expires_at = 90;
  };
}
