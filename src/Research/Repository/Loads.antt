-- ===== src/Research/Repository/Loads.antt =====
-- backend/internal/research/postgres_repository.go: how the transactions read a job, its snapshot and
-- the claim that a worker holds.
use open_music_player.Prelude.{
  ℕ, Bool, true, false, not, ◌&&◌, ◌||◌, Option, none, some, List, [], ◌∷◌, if◌then◌else◌, ltb,
  ◌==◌, Text, text_eq, keep,
}
use open_music_player.Research.Types.{
  JobStatus, job_queued, job_running, job_cancel_requested, job_completed, job_degraded,
  job_cancelled, unknown_job, RunStatus, run_running, run_degraded, run_completed, run_cancelled,
  run_timed_out, run_lease_lost, unknown_run, bounded_agent_dark_launch, VariantAssignment,
  DegradationCode, Degradation, Job, TerminalTelemetry, invalid_revision, ok, err,
}
use open_music_player.Research.State.{
  normalize_variant_assignment, public_degradation, effective_degradation,
  validate_terminal_telemetry,
}
use open_music_player.Research.Repository.Sql.{select_where}
use open_music_player.Research.Repository.Queries.{is_running, is_active}
use open_music_player.Research.Repository.Tables.{
  RevisionKind, revision_baseline, revision_enhancement, JobRow, RunRow, RevisionRow, Db,
  Repository, Revision, Snapshot, Claim, state_error, not_found, lease_lost, Answer, returned,
  failed, ◌>>=◌, or_fail, checked,
}

abbrev pub owned : Text → Text → JobRow → Bool
owned job_id owner_id j = text_eq j.id job_id && text_eq j.user_id owner_id

abbrev pub coalesce : Option ℕ → ℕ → ℕ
coalesce none n = n
coalesce (some m) n = m

abbrev pub scan_job : JobRow → VariantAssignment → Job
scan_job row assignment = record {
  id = row.id;
  owner_id = row.user_id;
  request_hash = row.request_hash;
  idempotency_key = row.idempotency_key;
  available_at = coalesce row.next_attempt_at row.created_at;
  latest_revision = row.latest_revision_number;
  latest_revision_id = [];
  assignment = assignment;
  created_at = row.created_at;
  status = row.status;
  retry_safe = row.retry_safe;
  attempts = row.attempt_count;
  max_attempts = row.max_attempts;
}

abbrev pub scan_degradation : Job → Option DegradationCode → Option Degradation
scan_degradation job none = none
scan_degradation job (some code) = some (effective_degradation job (public_degradation code))

unfoldable pub load_job : Db → Text → Text → Answer (Job × Option Degradation)
load_job db job_id owner_id = do
  row ← or_fail (select_where (owned job_id owner_id) db.jobs) not_found
  assignment ← checked (normalize_variant_assignment row.assignment)
  let job = scan_job row assignment
  returned (job, scan_degradation job row.degradation_code)

abbrev pub is_dark : VariantAssignment → Bool
is_dark assignment = elim assignment.variant [ bounded_agent_dark_launch ↦ true | _ ↦ false ]

abbrev pub is_enhancement : RevisionKind → Bool
is_enhancement revision_baseline = false
is_enhancement revision_enhancement = true

abbrev pub scan_revision : RevisionRow → Revision
scan_revision row = record {
  id = row.id;
  job_id = row.job_id;
  number = row.revision_number;
  kind = row.kind;
  payload = row.result_snapshot;
}

-- The loop over the rows: the revisions that are not hidden, and the ID of the latest among them.
unfoldable pub scan_revisions : Bool → ℕ → List RevisionRow → List Revision × Option Text
scan_revisions hides latest [] = ([], none)
scan_revisions hides latest (row ∷ rows) =
    let (revisions, id) = scan_revisions hides latest rows in
    let is_latest = row.revision_number == latest || (hides && row.revision_number == 1) in
    if hides && is_enhancement row.kind then (revisions, id) else (
      scan_revision row ∷ revisions,
      elim id [ some later ↦ some later | none ↦ if is_latest then some row.id else none ],
    )

-- `ORDER BY attempt DESC LIMIT 1`, among the runs that have terminal telemetry.
unfoldable pub last_telemetry : List RunRow → Option (ℕ × TerminalTelemetry)
last_telemetry [] = none
last_telemetry (run ∷ runs) =
    let rest = last_telemetry runs in
    elim run.terminal_telemetry [
      | none ↦ rest
      | some telemetry ↦ elim rest [
        | none ↦ some (run.attempt, telemetry)
        | some (attempt, later) ↦
            if ltb run.attempt attempt then some (attempt, later) else some (run.attempt, telemetry)
      ]
    ]

abbrev pub valid_telemetry : Option (ℕ × TerminalTelemetry) → Answer (Option TerminalTelemetry)
valid_telemetry none = returned none
valid_telemetry (some (attempt, telemetry)) = elim (validate_terminal_telemetry telemetry) [
  | ok t ↦ returned (some telemetry)
  | err e ↦ failed (state_error invalid_revision)
]

-- The revisions of a job stand in the table by their number, which the ORDER BY keeps.
unfoldable pub load_snapshot : Repository → Db → Text → Text → Answer Snapshot
unfolding load_job
load_snapshot r db job_id owner_id = do
  (job, degradation) ← load_job db job_id owner_id
  let hides = is_dark job.assignment && not r.surface_deep_agent_revisions
  let rows = keep (λ v. text_eq v.job_id job_id && text_eq v.user_id owner_id) db.revisions
  let (revisions, latest_id) = scan_revisions hides job.latest_revision rows
  let runs = keep (λ n. text_eq n.job_id job_id && text_eq n.user_id owner_id) db.runs
  telemetry ← valid_telemetry (last_telemetry runs)
  returned record {
    job = record job {
      latest_revision = if hides then 1 else job.latest_revision;
      latest_revision_id = elim latest_id [ none ↦ [] | some id ↦ id ];
    };
    revisions = revisions;
    latest_degradation = degradation;
    latest_terminal_telemetry = telemetry;
    surface_deep_agent_revisions = r.surface_deep_agent_revisions;
  }

abbrev pub same_job_status : JobStatus → JobStatus → Bool
same_job_status job_queued job_queued = true
same_job_status job_running job_running = true
same_job_status job_cancel_requested job_cancel_requested = true
same_job_status job_completed job_completed = true
same_job_status job_degraded job_degraded = true
same_job_status job_cancelled job_cancelled = true
same_job_status (unknown_job s) (unknown_job t) = text_eq s t
same_job_status _ _ = false

abbrev pub same_run_status : RunStatus → RunStatus → Bool
same_run_status run_running run_running = true
same_run_status run_completed run_completed = true
same_run_status run_degraded run_degraded = true
same_run_status run_cancelled run_cancelled = true
same_run_status run_timed_out run_timed_out = true
same_run_status run_lease_lost run_lease_lost = true
same_run_status (unknown_run s) (unknown_run t) = text_eq s t
same_run_status _ _ = false

-- The part of a WHERE clause that is about the claim.
abbrev pub held : Claim → ℕ → RunRow → Bool
held claim now run =
    text_eq run.id claim.run.id
    && text_eq run.job_id claim.run.job_id
    && text_eq run.lease_owner claim.run.worker_id
    && text_eq run.lease_token claim.run.lease_token
    && ltb now run.lease_until

-- The rows of the claimed run and of its job, in the statuses that the caller asks for.
unfoldable pub claimed_rows :
    (JobStatus → Bool) → (RunStatus → Bool) → Db → Claim → ℕ → Answer (RunRow × JobRow)
claimed_rows want_job want_run db claim now = do
  run ← or_fail (select_where (λ r. held claim now r && want_run r.status) db.runs) lease_lost
  job ←
      or_fail (select_where (λ j. text_eq j.id run.job_id && want_job j.status) db.jobs) lease_lost
  returned (run, job)

unfoldable pub verify_claim : Db → Claim → JobStatus → RunStatus → ℕ → Answer Text
unfolding claimed_rows
verify_claim db claim want_job want_run now = do
  (run, job) ← claimed_rows (same_job_status want_job) (same_run_status want_run) db claim now
  returned job.user_id

-- The owner, and whether cancelling is requested.
unfoldable pub verify_completable_claim : Db → Claim → ℕ → Answer (Text × Bool)
unfolding claimed_rows
verify_completable_claim db claim now = do
  (run, job) ← claimed_rows is_active is_running db claim now
  returned (job.user_id, job.cancel_requested)
