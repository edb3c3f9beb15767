-- ===== src/Research/Repository/CompleteWrites.antt =====
-- backend/internal/research/postgres_repository.go: what a worker does with its claim is made of the
-- writes.
use open_music_player.Prelude.{
  ℕ, ◌≡◌, refl, ap, sym, subst, ◌∙◌, inl, inr, Bool, Text, Bool-cases, if◌then◌else◌, arith,
}
use open_music_player.Research.Types.{
  JobStatus, RunStatus, job_queued, job_running, job_cancel_requested, job_completed, job_degraded,
  job_cancelled, unknown_job, Degradation, TerminalTelemetry, RevisionInput,
}
use open_music_player.Research.Repository.Tables.{
  event_revision_appended, event_runner_terminal, event_retried, JobRow, RunRow, Db, Repository,
  Snapshot, Claim, returned, Holds, bind-Holds, returned-Holds, bind-returned, returned_inj,
}
use open_music_player.Research.Repository.Queries.{
  is_running, is_active, set_runs, release_slot, reserve_budget, run_payload,
}
use open_music_player.Research.Repository.Loads.{claimed_rows, verify_completable_claim}
use open_music_player.Research.Repository.Owner.{requeue}
use open_music_player.Research.Repository.Complete.{
  append_enhancement, next_revision, record_terminal, with_telemetry, Ending, completing,
  cancelling, degrading, is_timeout, ended_run, running_run, finished_job, ended_job, actual_ending,
  ending_event, complete_claim, degrade, finish, retry_claim,
}
use open_music_player.Research.Repository.Writes.{
  Write, Writes, unchanged, ◌then◌, SameRun, Writes-trans,
}
use open_music_player.Research.Repository.Slots.{Sound}
use open_music_player.Research.Repository.Owners.{
  claimed_rows-owner, update_where-IsKnown, unreleased-owner,
}
use open_music_player.Research.Repository.OwnerWrites.{Written, write_and_append}

ended_run-SameRun : (ending : Ending) (run : RunRow) → SameRun run (ended_run ending run)
unfolding ended_run
ended_run-SameRun completing run = (refl, refl, refl, refl, λ h. absurd (cc h))
ended_run-SameRun cancelling run = (refl, refl, refl, refl, λ h. absurd (cc h))
ended_run-SameRun (degrading d) run = (
  refl,
  refl,
  refl,
  refl,
  λ h. elim (Bool-cases (is_timeout d.code)) [
    | inl late ↦ absurd (ground (arith, late, h))
    | inr other ↦ absurd (ground (arith, other, h))
  ],
)

module _ (r : Repository) where
  pub append_enhancement-Writes :
      (now : ℕ) (claim : Claim) (input : RevisionInput) (db : Db)
      → Holds (Written r db) (append_enhancement now claim input db)
  unfolding append_enhancement
  append_enhancement-Writes now claim input db = bind-Holds (Written r db) _ _ (λ valid h0.
      bind-Holds (Written r db) _ _ (λ parsed h1. bind-Holds (Written r db) _ _ (λ owner h2.
        bind-Holds (Written r db) _ _ (λ loaded h3. bind-Holds (Written r db) _ _ (λ allowed h4.
          bind-Holds (Written r db) _ _ (λ baseline h5. bind-Holds (Written r db) _ _ (λ ids h6.
            bind-Holds (Written r db) _ _ (λ given h7. bind-Holds (Written r db) _ _ (λ among h8.
              bind-Holds (Written r db) _ _ (λ current h9.
                bind-Holds (Written r db) _ _ (λ after logged.
                  Write.set_jobs db _ next_revision (λ j. (refl, refl, refl))
                  then write_and_append r _ _ after claim.run.job_id event_revision_appended _
                      (Write.add_revision _ _) logged)))))))))))

  pub record_terminal-Writes :
      (fits : TerminalTelemetry → Bool) (now : ℕ) (claim : Claim) (telemetry : TerminalTelemetry)
      (db : Db)
      → Holds (Writes r db) (record_terminal fits now claim telemetry db)
  unfolding record_terminal
  record_terminal-Writes fits now claim telemetry db = bind-Holds (Writes r db) _ _ (λ valid h0.
      bind-Holds (Writes r db) _ _ (λ small h1. bind-Holds (Writes r db) _ _ (λ owner h2.
        bind-Holds (Writes r db) _ _ (λ run h3. returned-Holds (Writes r db) _ (λ after logged.
          write_and_append r db _ after claim.run.job_id event_runner_terminal _
            (Write.set_runs db _ (with_telemetry telemetry) (λ n. (refl, refl, refl, refl, λ h. h)))
            logged)))))

  pub ended_job-Writes :
      (ending : Ending) (job_id : Text) (db : Db) → Writes r db (ended_job ending job_id db)
  unfolding ended_job
  ended_job-Writes completing job_id db =
      Write.set_jobs db _ (finished_job job_completed) (λ j. (refl, refl, refl)) then unchanged _
  ended_job-Writes cancelling job_id db =
      Write.set_jobs db _ (finished_job job_cancelled) (λ j. (refl, refl, refl)) then unchanged _
  ended_job-Writes (degrading d) job_id db =
      Write.set_jobs db _ _ (λ j. (refl, refl, refl)) then unchanged _

  -- The run's end gives the slot back to the run's user.
  end_run-Writes :
      (want_job : JobStatus → Bool) (want_run : RunStatus → Bool) (claim : Claim) (now : ℕ)
      (run : RunRow) (job : JobRow) (ending : Ending) (db : Db)
      → Sound r db
      → claimed_rows want_job want_run db claim now ≡ returned (run, job)
      → Writes r db (
          release_slot claim.run.id job.user_id
            (set_runs (running_run claim.run.id) (ended_run ending) db))
  end_run-Writes want_job want_run claim now run job ending db sound h =
      let (same, known, owner) =
        claimed_rows-owner r db sound want_job want_run claim now run job h in
      Write.set_runs db (running_run claim.run.id) (ended_run ending) (ended_run-SameRun ending)
      then Write.release _ claim.run.id job.user_id (λ row found.
        unreleased-owner _ run row claim.run.id same
          (update_where-IsKnown (running_run claim.run.id) (ended_run ending) db.runs
            (λ x. ((ended_run-SameRun ending x).0, (ended_run-SameRun ending x).2)) run known)
          found
        ∙ sym owner)
      then unchanged _

  verified-Writes :
      (now : ℕ) (claim : Claim) (verified : Text × Bool) (ending : Ending) (db : Db)
      → Sound r db
      → verify_completable_claim db claim now ≡ returned verified
      → Writes r db (
          release_slot claim.run.id verified.0
            (set_runs (running_run claim.run.id) (ended_run ending) db))
  unfolding verify_completable_claim
  verified-Writes now claim verified ending db sound h =
      let (rows, found, e) = bind-returned _ _ verified h in
      let owner : rows.1.user_id ≡ verified.0 = ap (λ q. q.0) (returned_inj e) in
      subst
        (λ o.
          Writes r db (
            release_slot claim.run.id o
              (set_runs (running_run claim.run.id) (ended_run ending) db)))
        owner (end_run-Writes is_active is_running claim now rows.0 rows.1 ending db sound found)

  pub complete_claim-Writes :
      (now : ℕ) (claim : Claim) (requested : Ending) (db : Db)
      → Sound r db
      → Holds (Written r db) (complete_claim r now claim requested db)
  unfolding complete_claim
  complete_claim-Writes now claim requested db sound = bind-Holds (Written r db) _ _ (λ verified h0.
      bind-Holds (Written r db) _ _ (λ loaded h1. bind-Holds (Written r db) _ _ (λ after logged.
        bind-Holds (Written r db) _ _ (λ (snapshot : Snapshot) shown.
          let ending = actual_ending verified.1 loaded.0 requested in
          let released : Writes r db (
              release_slot claim.run.id verified.0
                (set_runs (running_run claim.run.id) (ended_run ending) db)) =
            verified-Writes now claim verified ending db sound h0 in
          Writes-trans r db _ after released (
            Writes-trans r _ _ after (ended_job-Writes ending claim.run.job_id _) (
              Write.append _ after claim.run.job_id (ending_event ending) _ logged
              then unchanged after))))))

  pub retry_claim-Writes :
      (now : ℕ) (claim : Claim) (retry_at : ℕ) (db : Db)
      → Holds (Written r db) (retry_claim r now claim retry_at db)
  unfolding retry_claim
  retry_claim-Writes now claim retry_at db = bind-Holds (Written r db) _ _ (λ owner h0.
      bind-Holds (Written r db) _ _ (λ loaded h1. bind-Holds (Written r db) _ _ (λ allowed h2.
        bind-Holds (Written r db) _ _ (λ granted h3. bind-Holds (Written r db) _ _ (λ after logged.
          bind-Holds (Written r db) _ _ (λ (snapshot : Snapshot) shown.
            Write.reserve db owner now
            then write_and_append r (reserve_budget r owner now db).1 _ after claim.run.job_id
                event_retried (run_payload claim.run.id)
                (Write.set_jobs _ _ (requeue retry_at) (λ j. (refl, refl, refl))) logged))))))

  pub degrade-Writes :
      (now : ℕ) (claim : Claim) (degradation : Degradation) (db : Db)
      → Sound r db
      → Holds (Written r db) (degrade r now claim degradation db)
  unfolding degrade
  degrade-Writes now claim degradation db sound =
      bind-Holds (Written r db) _ _
        (λ valid h. complete_claim-Writes now claim (degrading degradation) db sound)

  pub finish-Writes :
      (now : ℕ) (claim : Claim) (status : JobStatus) (db : Db)
      → Sound r db
      → Holds (Written r db) (finish r now claim status db)
  unfolding finish
  finish-Writes now claim job_completed db sound =
      complete_claim-Writes now claim completing db sound
  finish-Writes now claim job_cancelled db sound =
      complete_claim-Writes now claim cancelling db sound
  finish-Writes now claim job_queued db sound = tt
  finish-Writes now claim job_running db sound = tt
  finish-Writes now claim job_cancel_requested db sound = tt
  finish-Writes now claim job_degraded db sound = tt
  finish-Writes now claim (unknown_job s) db sound = tt
