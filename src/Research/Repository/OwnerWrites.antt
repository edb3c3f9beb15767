-- ===== src/Research/Repository/OwnerWrites.antt =====
-- backend/internal/research/postgres_repository.go: Create, Cancel and Retry are made of the writes.
use open_music_player.Prelude.{ℕ, ◌≡◌, refl, subst, Text}
use open_music_player.Research.Types.{
  JobStatus, job_queued, job_running, job_cancel_requested, job_completed, job_degraded,
  job_cancelled, unknown_job,
}
use open_music_player.Research.Repository.Tables.{
  EventKind, EventPayload, event_cancelled, event_cancel_requested, event_retried, Db, Repository,
  Snapshot, returned, Holds, bind-Holds,
}
use open_music_player.Research.Repository.Queries.{append_event, reserve_budget, no_payload}
use open_music_player.Research.Repository.Owner.{
  cancel, cancel_step, cancel_queued, request_cancel, retry, requeue,
}
use open_music_player.Research.Repository.Writes.{Write, Writes, unchanged, ◌then◌}

module _ (r : Repository) where
  abbrev pub Written : {A : Type 0} → Db → Db × A → Type 0
  Written db p = Writes r db p.0

  -- A write and an event after it.
  pub write_and_append :
      (db written after : Db) (job_id : Text) (kind : EventKind) (payload : EventPayload)
      → Write r db written
      → append_event job_id kind payload written ≡ returned after
      → Writes r db after
  write_and_append db written after job_id kind payload w h =
      w then Write.append written after job_id kind payload h then unchanged after

  same_db : (db after : Db) → returned db ≡ returned after → Writes r db after
  same_db db after h = let e : db ≡ after = cc h in subst (Writes r db) e (unchanged db)

  cancel_step-Writes :
      (status : JobStatus) (job_id : Text) (db after : Db)
      → cancel_step status job_id db ≡ returned after
      → Writes r db after
  unfolding cancel_step
  cancel_step-Writes job_queued job_id db after h =
      write_and_append db _ after job_id event_cancelled no_payload
        (Write.set_jobs db _ cancel_queued (λ j. (refl, refl, refl))) h
  cancel_step-Writes job_running job_id db after h =
      write_and_append db _ after job_id event_cancel_requested no_payload
        (Write.set_jobs db _ request_cancel (λ j. (refl, refl, refl))) h
  cancel_step-Writes (unknown_job s) job_id db after h = absurd (cc h)
  cancel_step-Writes job_cancel_requested job_id db after h = same_db db after h
  cancel_step-Writes job_completed job_id db after h = same_db db after h
  cancel_step-Writes job_degraded job_id db after h = same_db db after h
  cancel_step-Writes job_cancelled job_id db after h = same_db db after h

  pub cancel-Writes :
      (job_id owner_id : Text) (db : Db) → Holds (Written db) (cancel r job_id owner_id db)
  unfolding cancel
  cancel-Writes job_id owner_id db = bind-Holds (Written db) _ _ (λ loaded h.
      bind-Holds (Written db) _ _ (λ after stepped.
        bind-Holds (Written db) _ _ (λ (snapshot : Snapshot) shown.
          cancel_step-Writes loaded.0.status job_id db after stepped)))

  pub retry-Writes :
      (now : ℕ) (job_id owner_id : Text) (db : Db)
      → Holds (Written db) (retry r now job_id owner_id db)
  unfolding retry
  retry-Writes now job_id owner_id db = bind-Holds (Written db) _ _ (λ loaded h.
      bind-Holds (Written db) _ _ (λ allowed h'. bind-Holds (Written db) _ _ (λ granted h''.
        bind-Holds (Written db) _ _ (λ after logged. bind-Holds (Written db) _ _ (λ snapshot shown.
          Write.reserve db owner_id now
          then write_and_append (reserve_budget r owner_id now db).1 _ after job_id event_retried
              no_payload (Write.set_jobs _ _ (requeue now) (λ j. (refl, refl, refl))) logged)))))
