-- ===== src/Research/Repository/Create.antt =====
-- backend/internal/research/postgres_repository.go: Create, whose new UUID is an argument. Of the
-- schema's constraints it has the job's primary key and the bound on max_attempts.
use open_music_player.Prelude.{
  ℕ, Bool, true, false, not, ◌&&◌, ◌||◌, Option, none, some, List, [], ◌∷◌, ◌++◌, if◌then◌else◌,
  ltb, leb, length, byte_length, trim_space, Text, text_eq, ℤ, pos, negsuc, ltb_ℤ,
}
use open_music_player.Research.Types.{
  job_queued, job_degraded, stage_baseline, RevisionStage, Variant, deterministic_only,
  VariantAssignment, DegradationCode, budget_exhausted, model_disabled, no_candidates,
  ResearchRequest, RevisionPayload, CandidateSnapshot, CreateInput, invalid_revision, Result, ok,
  err,
}
use open_music_player.Research.State.{
  normalize_variant_assignment, public_degradation, validate_create,
}
use open_music_player.Research.Repository.Sql.{select_where}
use open_music_player.Research.Repository.Tables.{
  failure_terminal, event_created, event_revision_appended, event_degraded, revision_baseline,
  EventPayload, JobRow, RevisionRow, Db, Repository, Snapshot, state_error, idempotency_conflict,
  constraint_violation, Answer, returned, ◌>>=◌, ◌>>◌, require, or_fail, unused, checked,
}
use open_music_player.Research.Repository.Queries.{
  set_job, no_payload, append_event, reserve_budget,
}
use open_music_player.Research.Repository.Loads.{load_snapshot}

unfoldable pub parse_request : Option ResearchRequest → Result ResearchRequest
parse_request none = err invalid_revision
parse_request (some request) =
    if text_eq (trim_space request.query) []
      || ltb_ℤ request.limit (pos 1)
      || ltb_ℤ (pos 25) request.limit
    then err invalid_revision
    else elim request.providers [
      | none ↦ err invalid_revision
      | some providers ↦
          if leb (length providers) 0 || ltb 16 (length providers)
          then err invalid_revision
          else ok request
    ]

abbrev pub is_baseline : RevisionStage → Bool
is_baseline stage_baseline = true
is_baseline _ = false

abbrev pub enhances : Variant → Bool
enhances deterministic_only = false
enhances _ = true

abbrev pub no_candidate : List CandidateSnapshot → Bool
no_candidate [] = true
no_candidate (c ∷ cs) = false

-- The budget is only asked where an enhancement is to run.
abbrev pub reserve_for : Repository → ℕ → CreateInput → Bool → Db → Bool × Db
reserve_for r now input wanted db =
    let asked = reserve_budget r input.owner_id now db in if wanted then asked else (false, db)

unfoldable pub initial_degradation : Bool → Bool → Bool → Option DegradationCode
initial_degradation empty_baseline model_enhancement budget_reserved =
    if empty_baseline
    then some no_candidates
    else if not model_enhancement
    then some model_disabled
    else if not budget_reserved
    then some budget_exhausted
    else none

abbrev pub amount : ℤ → ℕ
amount (pos n) = n
amount (negsuc n) = 0

abbrev pub new_job : ℕ → Text → CreateInput → VariantAssignment → Option DegradationCode → JobRow
new_job now id input assignment code = record {
  id = id;
  user_id = input.owner_id;
  idempotency_key = input.idempotency_key;
  request_hash = input.request_hash;
  retry_safe = input.retry_safe;
  assignment = assignment;
  status = elim code [ none ↦ job_queued | some c ↦ job_degraded ];
  cancel_requested = false;
  degradation_code = code;
  failure_class = elim code [ none ↦ none | some c ↦ some failure_terminal ];
  attempt_count = 0;
  max_attempts = amount input.max_attempts;
  next_attempt_at = some now;
  latest_revision_number = 0;
  event_sequence = 0;
  created_at = now;
}

abbrev pub baseline_row : Text → CreateInput → RevisionRow
baseline_row id input = record {
  id = input.baseline.id;
  job_id = id;
  user_id = input.owner_id;
  run_id = none;
  kind = revision_baseline;
  revision_number = 1;
  stage = stage_baseline;
  result_snapshot = input.baseline.payload;
}

abbrev pub first_revision : JobRow → JobRow
first_revision j = record j { latest_revision_number = 1 }

abbrev pub revision_payload : Text → ℕ → EventPayload
revision_payload id number = record no_payload { revision_id = some id; revision = some number }

abbrev pub log_initial : Text → Option DegradationCode → Db → Answer Db
log_initial id none db = returned db
log_initial id (some code) db =
    append_event id event_degraded
      (record no_payload { degradation = some (public_degradation code) }) db

-- The transaction behind the idempotency check.
unfoldable pub insert_job :
    Repository
    → ℕ
    → Text
    → CreateInput
    → VariantAssignment
    → RevisionPayload
    → Db
    → Answer (Db × Snapshot)
unfolding reserve_budget append_event
insert_job r now id input assignment baseline db =
    let empty_baseline = no_candidate baseline.candidates in
    let model_enhancement = enhances assignment.variant in
    let (budget_reserved, budgeted) =
      reserve_for r now input (not empty_baseline && model_enhancement) db in
    let code = initial_degradation empty_baseline model_enhancement budget_reserved in
    let job = new_job now id input assignment code in
    do
      unused (select_where (λ j. text_eq j.id id) budgeted.jobs)
      require (leb (amount input.max_attempts) 10) constraint_violation
      created ←
          append_event id event_created no_payload
            (record budgeted { jobs = budgeted.jobs ++ (job ∷ []) })
      appended ← append_event id event_revision_appended (revision_payload input.baseline.id 1) (
          set_job id first_revision
            (record created { revisions = created.revisions ++ (baseline_row id input ∷ []) }))
      logged ← log_initial id code appended
      snapshot ← load_snapshot r logged id input.owner_id
      returned (logged, snapshot)

abbrev pub same_request : Text → Text → JobRow → Bool
same_request owner_id key j = text_eq j.user_id owner_id && text_eq j.idempotency_key key

unfoldable pub bad_hash : Text → Bool
unfolding byte_length
bad_hash hash = ltb (byte_length (trim_space hash)) 16 || ltb 128 (byte_length hash)

unfoldable pub create : Repository → ℕ → Text → CreateInput → Db → Answer (Db × Snapshot)
unfolding insert_job bad_hash
create r now new_id input db = do
  checked (validate_create input)
  assignment ← checked (normalize_variant_assignment input.assignment)
  let id = if text_eq input.id [] then new_id else input.id
  require (not (bad_hash input.request_hash)) (state_error invalid_revision)
  checked (parse_request input.request)
  baseline ← or_fail input.baseline.payload (state_error invalid_revision)
  require (is_baseline baseline.stage) (state_error invalid_revision)
  elim (select_where (same_request input.owner_id input.idempotency_key) db.jobs) [
    | none ↦ insert_job r now id input assignment baseline db
    | some prior ↦ do
      require (text_eq prior.request_hash input.request_hash) idempotency_conflict
      snapshot ← load_snapshot r db prior.id input.owner_id
      returned (db, snapshot)
  ]
