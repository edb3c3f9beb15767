-- ===== src/Research/Repository/Owner.antt =====
-- backend/internal/research/postgres_repository.go: the methods of a job's owner but Create: Get,
-- Events, Cancel and Retry.
use open_music_player.Prelude.{
  ℕ, Bool, true, false, not, ◌&&◌, Option, none, some, List, ltb, take, keep, Text, text_eq, ℤ, pos,
  negsuc, zero, suc, min,
}
use open_music_player.Research.Types.{
  JobStatus, job_queued, job_running, job_cancel_requested, job_cancelled, unknown_job,
  budget_exhausted, Degradation, invalid_transition,
}
use open_music_player.Research.State.{can_retry}
use open_music_player.Research.Repository.Tables.{
  event_revision_appended, event_cancel_requested, event_cancelled, event_retried,
  event_runner_terminal, EventRow, JobRow, Db, Repository, Snapshot, state_error, Answer, returned,
  failed, ◌>>=◌, ◌>>◌, require,
}
use open_music_player.Research.Repository.Queries.{
  set_job, no_payload, append_event, reserve_budget,
}
use open_music_player.Research.Repository.Loads.{load_job, load_snapshot, is_dark}

unfoldable pub get : Repository → Text → Text → Db → Answer Snapshot
get r job_id owner_id db = load_snapshot r db job_id owner_id

abbrev pub page_limit : ℤ → ℕ
page_limit (negsuc n) = 50
page_limit (pos zero) = 50
page_limit (pos (suc n)) = min (suc n) 100

abbrev pub from_sequence : ℤ → ℕ
from_sequence (pos n) = n
from_sequence (negsuc n) = 0

abbrev pub is_dark_event : EventRow → Bool
is_dark_event e = elim e.kind [
  | event_revision_appended ↦ elim e.payload.revision [ none ↦ false | some n ↦ ltb 1 n ]
  | event_runner_terminal ↦ true
  | _ ↦ false
]

-- A page is cut before the hidden events are taken out of it.
unfoldable pub events : Repository → Text → Text → ℤ → ℤ → Db → Answer (List EventRow)
unfolding get
events r job_id owner_id after_sequence limit db = do
  snapshot ← get r job_id owner_id db
  let hides = is_dark snapshot.job.assignment && not r.surface_deep_agent_revisions
  let later =
      keep (λ e. text_eq e.job_id job_id && ltb (from_sequence after_sequence) e.sequence) db.events
  returned (keep (λ e. not (hides && is_dark_event e)) (take (page_limit limit) later))

abbrev pub cancel_queued : JobRow → JobRow
cancel_queued j = record j { status = job_cancelled; cancel_requested = true }

abbrev pub request_cancel : JobRow → JobRow
request_cancel j = record j { status = job_cancel_requested; cancel_requested = true }

unfoldable pub cancel_step : JobStatus → Text → Db → Answer Db
unfolding append_event
cancel_step job_queued job_id db =
    append_event job_id event_cancelled no_payload (set_job job_id cancel_queued db)
cancel_step job_running job_id db =
    append_event job_id event_cancel_requested no_payload (set_job job_id request_cancel db)
cancel_step (unknown_job s) job_id db = failed (state_error invalid_transition)
cancel_step _ job_id db = returned db

unfoldable pub cancel : Repository → Text → Text → Db → Answer (Db × Snapshot)
unfolding cancel_step load_job
cancel r job_id owner_id db = do
  (job, degradation) ← load_job db job_id owner_id
  after ← cancel_step job.status job_id db
  snapshot ← load_snapshot r after job_id owner_id
  returned (after, snapshot)

abbrev pub is_exhausted : Option Degradation → Bool
is_exhausted none = false
is_exhausted (some d) = elim d.code [ budget_exhausted ↦ true | _ ↦ false ]

abbrev pub requeue : ℕ → JobRow → JobRow
requeue at j = record j { status = job_queued; next_attempt_at = some at; degradation_code = none }

unfoldable pub retry : Repository → ℕ → Text → Text → Db → Answer (Db × Snapshot)
unfolding load_job append_event reserve_budget
retry r now job_id owner_id db = do
  (job, degradation) ← load_job db job_id owner_id
  require (can_retry job degradation && not (is_exhausted degradation))
      (state_error invalid_transition)
  let (granted, budgeted) = reserve_budget r owner_id now db
  require granted (state_error invalid_transition)
  after ← append_event job_id event_retried no_payload (set_job job_id (requeue now) budgeted)
  snapshot ← load_snapshot r after job_id owner_id
  returned (after, snapshot)
