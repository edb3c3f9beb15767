-- ===== src/Research/Repository/Complete.antt =====
-- backend/internal/research/postgres_repository.go: what a worker does with its claim:
-- AppendEnhancement, RecordTerminal, Degrade, RetryClaim and Finish.
use open_music_player.Prelude.{
  ℕ, suc, Bool, true, false, not, ◌&&◌, ◌||◌, none, some, List, [], ◌∷◌, ◌++◌, if◌then◌else◌, ◌==◌,
  any, map, is_some, Text, text_eq,
}
use open_music_player.Research.Types.{
  JobStatus, job_running, job_completed, job_degraded, job_cancelled, run_running, run_completed,
  run_degraded, run_cancelled, run_timed_out, RevisionStage, stage_direct_judge, stage_deep_agent,
  DegradationCode, timeout, Degradation, Job, TerminalTelemetry, CandidateSnapshot, RawPayload,
  RevisionInput, invalid_transition, invalid_revision, invalid_variant, Result, ok, err,
}
use open_music_player.Research.State.{
  variant_allows_enhancement, validate_enhancement, validate_degradation, public_degradation,
  effective_degradation, can_retry, validate_terminal_telemetry,
}
use open_music_player.Research.Repository.Sql.{select_where}
use open_music_player.Research.Repository.Tables.{
  EventKind, event_revision_appended, event_degraded, event_cancelled, event_retried,
  event_completed, event_runner_terminal, revision_enhancement, EventPayload, JobRow, RunRow,
  RevisionRow, Db, Repository, Revision, Snapshot, Claim, state_error, no_rows, Answer, returned,
  failed, ◌>>=◌, ◌>>◌, require, or_fail, checked,
}
use open_music_player.Research.Repository.Queries.{
  is_running, set_job, set_jobs, set_runs, run_payload, append_event, reserve_budget, release_slot,
  failure_class,
}
use open_music_player.Research.Repository.Loads.{
  load_job, load_snapshot, verify_claim, verify_completable_claim,
}
use open_music_player.Research.Repository.Owner.{requeue}
use open_music_player.Research.Repository.Recover.{with_status}

abbrev pub candidate_ids : List CandidateSnapshot → List Text
candidate_ids candidates = map (λ c. c.candidate_id) candidates

abbrev pub is_empty : List Text → Bool
is_empty [] = true
is_empty (s ∷ ss) = false

abbrev pub enhancement_stage : RevisionStage → Bool
enhancement_stage stage_direct_judge = true
enhancement_stage stage_deep_agent = true
enhancement_stage _ = false

unfoldable pub parse_enhancement : RawPayload → Result (RevisionStage × List Text)
parse_enhancement none = err invalid_revision
parse_enhancement (some payload) =
    let ids =
      candidate_ids payload.candidates ++ map (λ r. r.candidate_id) payload.recommendations in
    if not (enhancement_stage payload.stage) || any (text_eq []) ids || is_empty ids
    then err invalid_revision
    else ok (payload.stage, ids)

-- The map from the IDs to true is the list of the IDs here.
unfoldable pub candidate_ids_from_revision : RawPayload → Result (List Text)
candidate_ids_from_revision none = err invalid_revision
candidate_ids_from_revision (some payload) = ok (candidate_ids payload.candidates)

abbrev pub first_of_job : Text → Text → RevisionRow → Bool
first_of_job job_id owner_id v =
    text_eq v.job_id job_id && text_eq v.user_id owner_id && v.revision_number == 1

unfoldable pub all_allowed : List Text → List Text → Bool
all_allowed allowed [] = true
all_allowed allowed (id ∷ ids) = any (text_eq id) allowed && all_allowed allowed ids

abbrev pub next_revision : JobRow → JobRow
next_revision j = record j { latest_revision_number = suc j.latest_revision_number }

abbrev pub add_revision : RevisionRow → Db → Db
add_revision row db = record db { revisions = db.revisions ++ (row ∷ []) }

unfoldable pub append_enhancement : ℕ → Claim → RevisionInput → Db → Answer (Db × Revision)
unfolding parse_enhancement candidate_ids_from_revision all_allowed verify_claim load_job
    append_event
append_enhancement now claim input db = do
  let job_id = claim.run.job_id
  checked (validate_enhancement input)
  (stage, ids) ← checked (parse_enhancement input.payload)
  owner ← verify_claim db claim job_running run_running now
  (job, degradation) ← load_job db job_id owner
  require (variant_allows_enhancement job.assignment.variant stage) (state_error invalid_variant)
  baseline ← or_fail (select_where (first_of_job job_id owner) db.revisions) no_rows
  allowed ← checked (candidate_ids_from_revision baseline.result_snapshot)
  require (not (is_empty allowed)) (state_error invalid_revision)
  require (all_allowed allowed ids) (state_error invalid_revision)
  current ← or_fail (select_where (λ j. text_eq j.id job_id) db.jobs) no_rows
  let number = suc current.latest_revision_number
  let row : RevisionRow = record {
    id = input.id;
    job_id = job_id;
    user_id = owner;
    run_id = some claim.run.id;
    kind = revision_enhancement;
    revision_number = number;
    stage = stage;
    result_snapshot = input.payload;
  }
  let payload : EventPayload = record (run_payload claim.run.id) {
    revision_id = some input.id;
    revision = some number;
  }
  after ←
      append_event job_id event_revision_appended payload
        (add_revision row (set_job job_id next_revision db))
  let revision : Revision = record {
    id = input.id;
    job_id = job_id;
    number = number;
    kind = revision_enhancement;
    payload = input.payload;
  }
  returned (after, revision)

abbrev pub without_telemetry : Text → RunRow → Bool
without_telemetry id run = text_eq run.id id && not (is_some run.terminal_telemetry)

abbrev pub with_telemetry : TerminalTelemetry → RunRow → RunRow
with_telemetry telemetry run = record run { terminal_telemetry = some telemetry }

-- `fits` is whether the telemetry's JSON has at most 16 KiB.
unfoldable pub record_terminal :
    (TerminalTelemetry → Bool) → ℕ → Claim → TerminalTelemetry → Db → Answer Db
unfolding verify_completable_claim append_event
record_terminal fits now claim telemetry db = do
  checked (validate_terminal_telemetry telemetry)
  require (fits telemetry) (state_error invalid_revision)
  verify_completable_claim db claim now
  or_fail (select_where (without_telemetry claim.run.id) db.runs) (state_error invalid_transition)
  append_event claim.run.job_id event_runner_terminal
      (record (run_payload claim.run.id) { telemetry = some telemetry })
      (set_runs (without_telemetry claim.run.id) (with_telemetry telemetry) db)

-- How a run ends: `degrading` with a degradation, else completed or cancelled.
pub data Ending : Type 0 where
  completing cancelling : Ending
  degrading : Degradation → Ending

abbrev pub is_timeout : DegradationCode → Bool
is_timeout timeout = true
is_timeout _ = false

unfoldable pub ended_run : Ending → RunRow → RunRow
ended_run completing run = record run {
  status = run_completed;
  retryable = false;
  failure_class = none;
  failure_code = none;
}
ended_run cancelling run = record run {
  status = run_cancelled;
  retryable = false;
  failure_class = none;
  failure_code = none;
}
ended_run (degrading d) run = record run {
  status = if is_timeout d.code then run_timed_out else run_degraded;
  retryable = d.retryable;
  failure_class = some (failure_class d.code);
  failure_code = some d.code;
}

abbrev pub running_run : Text → RunRow → Bool
running_run id run = text_eq run.id id && is_running run.status

abbrev pub finished_job : JobStatus → JobRow → JobRow
finished_job status j = record j { status = status }

-- Only a degradation asks for a running job again.
unfoldable pub ended_job : Ending → Text → Db → Db
ended_job completing job_id db = set_job job_id (finished_job job_completed) db
ended_job cancelling job_id db = set_job job_id (finished_job job_cancelled) db
ended_job (degrading d) job_id db =
    set_jobs (with_status job_running job_id)
      (λ j. record j {
        status = job_degraded;
        degradation_code = some d.code;
        failure_class = some (failure_class d.code);
      })
      db

abbrev pub ending_event : Ending → EventKind
ending_event completing = event_completed
ending_event cancelling = event_cancelled
ending_event (degrading d) = event_degraded

abbrev pub ending_payload : Ending → Text → EventPayload
ending_payload (degrading d) run_id = record (run_payload run_id) { degradation = some d }
ending_payload _ run_id = run_payload run_id

-- A request to cancel replaces any other ending.
unfoldable pub actual_ending : Bool → Job → Ending → Ending
actual_ending true job ending = cancelling
actual_ending false job completing = completing
actual_ending false job cancelling = cancelling
actual_ending false job (degrading d) =
    degrading (effective_degradation job (public_degradation d.code))

unfoldable pub complete_claim : Repository → ℕ → Claim → Ending → Db → Answer (Db × Snapshot)
unfolding verify_completable_claim load_job actual_ending ended_run ended_job release_slot
    append_event
complete_claim r now claim requested db = do
  let run_id = claim.run.id
  let job_id = claim.run.job_id
  (owner, cancelled) ← verify_completable_claim db claim now
  (job, degradation) ← load_job db job_id owner
  let ending = actual_ending cancelled job requested
  let ended = set_runs (running_run run_id) (ended_run ending) db
  let updated = ended_job ending job_id (release_slot run_id owner ended)
  after ← append_event job_id (ending_event ending) (ending_payload ending run_id) updated
  snapshot ← load_snapshot r after job_id owner
  returned (after, snapshot)

unfoldable pub degrade : Repository → ℕ → Claim → Degradation → Db → Answer (Db × Snapshot)
unfolding complete_claim
degrade r now claim degradation db = do
  checked (validate_degradation degradation)
  complete_claim r now claim (degrading degradation) db

unfoldable pub finish : Repository → ℕ → Claim → JobStatus → Db → Answer (Db × Snapshot)
unfolding complete_claim
finish r now claim job_completed db = complete_claim r now claim completing db
finish r now claim job_cancelled db = complete_claim r now claim cancelling db
finish r now claim _ db = failed (state_error invalid_transition)

unfoldable pub retry_claim : Repository → ℕ → Claim → ℕ → Db → Answer (Db × Snapshot)
unfolding verify_claim load_job reserve_budget append_event
retry_claim r now claim retry_at db = do
  let job_id = claim.run.job_id
  owner ← verify_claim db claim job_degraded run_degraded now
  (job, degradation) ← load_job db job_id owner
  require (can_retry job degradation) (state_error invalid_transition)
  let (granted, budgeted) = reserve_budget r owner now db
  require granted (state_error invalid_transition)
  after ← append_event job_id event_retried (run_payload claim.run.id) (
      set_jobs (λ j. text_eq j.id job_id && elim j.status [ job_degraded ↦ true | _ ↦ false ])
        (requeue retry_at) budgeted)
  snapshot ← load_snapshot r after job_id owner
  returned (after, snapshot)
