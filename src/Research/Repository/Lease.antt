-- ===== src/Research/Repository/Lease.antt =====
-- backend/internal/research/postgres_repository.go: Claim, RenewLease and RecoverExpiredLeases. New
-- UUIDs are arguments; of the schema's constraints there are the run's keys and the bound on attempts.
use open_music_player.Prelude.{
  ℕ, suc, Bool, true, false, not, ◌&&◌, ◌||◌, Option, none, some, List, [], ◌∷◌, ◌++◌,
  if◌then◌else◌, ltb, leb, ◌==◌, take, keep, any, map, trim_space, Text, text_eq,
}
use open_music_player.Research.Types.{
  JobStatus, job_queued, job_running, run_running, WorkerCapabilities, supports, any_capability,
}
use open_music_player.Research.Repository.Sql.{select_where}
use open_music_player.Research.Repository.Tables.{
  event_claimed, event_lease_renewed, JobRow, RunRow, Db, Repository, Run, Claim, no_job_available,
  constraint_violation, Answer, returned, failed, ◌>>=◌, ◌>>◌, require, unused,
}
use open_music_player.Research.Repository.Queries.{
  is_running, is_active, set_jobs, set_run, run_payload, append_event, acquire_slot,
}
use open_music_player.Research.Repository.Loads.{load_snapshot, claimed_rows}

abbrev pub is_queued : JobStatus → Bool
is_queued job_queued = true
is_queued _ = false

-- UUIDs in their canonical spelling stand in the order of their texts.
unfoldable pub text_before : Text → Text → Bool
text_before s [] = false
text_before [] (d ∷ t) = true
text_before (c ∷ s) (d ∷ t) = ltb c d || (c == d && text_before s t)

module _ {ℓ} {A : Type ℓ} (before : A → A → Bool) where
  abbrev pub insert_sorted : A → List A → List A
  insert_sorted x [] = x ∷ []
  insert_sorted x (y ∷ ys) =
      let rest = insert_sorted x ys in if before y x then y ∷ rest else x ∷ y ∷ ys

  abbrev pub order_by : List A → List A
  order_by [] = []
  order_by (x ∷ xs) = insert_sorted x (order_by xs)

-- `next_attempt_at NULLS FIRST, created_at, id`
unfoldable pub sooner : JobRow → JobRow → Bool
unfolding text_before
sooner a b =
    let same_time =
      ltb a.created_at b.created_at || (a.created_at == b.created_at && text_before a.id b.id) in
    elim a.next_attempt_at [
      | none ↦ elim b.next_attempt_at [ none ↦ same_time | some n ↦ true ]
      | some m ↦ elim b.next_attempt_at [ none ↦ false | some n ↦ ltb m n || (m == n && same_time) ]
    ]

abbrev pub is_due : ℕ → Option ℕ → Bool
is_due now none = true
is_due now (some at) = leb at now

unfoldable pub claimable : WorkerCapabilities → ℕ → JobRow → Bool
unfolding supports
claimable capabilities now j =
    is_queued j.status && is_due now j.next_attempt_at && supports capabilities j.assignment.variant

-- `DISTINCT ON (user_id)`, of rows in order.
unfoldable pub first_per_user : List Text → List JobRow → List JobRow
first_per_user users [] = []
first_per_user users (j ∷ js) =
    let others = first_per_user users js in
    let rest = first_per_user (j.user_id ∷ users) js in
    if any (text_eq j.user_id) users then others else j ∷ rest

-- `locked` are the rows that other transactions hold, which `SKIP LOCKED` leaves out.
unfoldable pub claim_candidates : (Text → Bool) → WorkerCapabilities → ℕ → Db → List (Text × Text)
unfolding claimable sooner first_per_user
claim_candidates locked capabilities now db =
    let per_user =
      first_per_user [] (order_by sooner (keep (claimable capabilities now) db.jobs)) in
    map (λ j. (j.id, j.user_id)) (take 32 (keep (λ j. not (locked j.id)) per_user))

abbrev pub start : JobRow → JobRow
start j = record j { status = job_running; attempt_count = suc j.attempt_count }

abbrev pub queued_job : Text → JobRow → Bool
queued_job id j = text_eq j.id id && is_queued j.status

-- Run is what a worker is told of its row.
abbrev pub run_row : Run → Text → RunRow
run_row run owner_id = record {
  id = run.id;
  job_id = run.job_id;
  user_id = owner_id;
  attempt = run.attempt;
  status = run_running;
  lease_owner = run.worker_id;
  lease_token = run.lease_token;
  lease_until = run.lease_expires_at;
  failure_class = none;
  failure_code = none;
  retryable = false;
  slot_released = false;
  terminal_telemetry = none;
}

abbrev pub add_run : RunRow → Db → Db
add_run run db = record db { runs = db.runs ++ (run ∷ []) }

unfoldable pub start_run : Repository → Text → Run → JobRow → Db → Answer (Db × Claim)
unfolding append_event
start_run r owner_id run job db = do
  require (leb run.attempt job.max_attempts) constraint_violation
  unused (select_where (λ n. text_eq n.id run.id) db.runs)
  unused (select_where (λ n. text_eq n.job_id run.job_id && n.attempt == run.attempt) db.runs)
  require (text_eq job.user_id owner_id) constraint_violation
  after ←
      append_event run.job_id event_claimed (run_payload run.id)
        (add_run (run_row run owner_id) (set_jobs (queued_job run.job_id) start db))
  snapshot ← load_snapshot r after run.job_id owner_id
  returned (after, record { snapshot = snapshot; run = run })

-- The loop over the candidates. A slot that was acquired stays so where the UPDATE then finds no queued
-- job.
unfoldable pub claim_from :
    Repository → Text → Text → Text → ℕ → List (Text × Text) → Db → Answer (Db × Claim)
unfolding acquire_slot start_run
claim_from r worker_id run_id token lease_until [] db = failed no_job_available
claim_from r worker_id run_id token lease_until ((job_id, owner_id) ∷ rest) db =
    elim (acquire_slot r owner_id db) [
      | none ↦ claim_from r worker_id run_id token lease_until rest db
      | some slotted ↦ elim (select_where (queued_job job_id) slotted.jobs) [
        | none ↦ claim_from r worker_id run_id token lease_until rest slotted
        | some job ↦
            let run : Run = record {
              id = run_id;
              job_id = job_id;
              worker_id = worker_id;
              lease_token = token;
              status = run_running;
              attempt = suc job.attempt_count;
              lease_expires_at = lease_until;
            } in
            start_run r owner_id run job slotted
      ]
    ]

-- `candidates` is what the SELECT returned, which other transactions may have outdated.
unfoldable pub claim :
    Repository
    → WorkerCapabilities
    → Text
    → Text
    → Text
    → ℕ
    → List (Text × Text)
    → Db
    → Answer (Db × Claim)
unfolding claim_from any_capability
claim r capabilities worker_id run_id token lease_until candidates db = do
  require (not (text_eq (trim_space worker_id) [] || not (any_capability capabilities)))
      no_job_available
  claim_from r worker_id run_id token lease_until candidates db

abbrev pub extend : ℕ → RunRow → RunRow
extend lease_until run = record run { lease_until = lease_until }

unfoldable pub renew_lease : ℕ → Claim → ℕ → Db → Answer (Db × Bool)
unfolding claimed_rows append_event
renew_lease now claim lease_until db = do
  (run, job) ← claimed_rows is_active is_running db claim now
  after ←
      append_event claim.run.job_id event_lease_renewed (run_payload claim.run.id)
        (set_run claim.run.id (extend lease_until) db)
  returned (after, job.cancel_requested)
