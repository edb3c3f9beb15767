-- ===== src/Research/Repository/RecoverWrites.antt =====
-- backend/internal/research/postgres_repository.go: RecoverExpiredLeases is made of the writes.
use open_music_player.Prelude.{
  ℕ, ◌≤◌, ◌≡◌, refl, ◌∙◌, inl, inr, Bool, true, false, not, ◌&&◌, List, [], ◌∷◌, All, ltb, Text,
  text_eq_refl, Bool-cases, if◌then◌else◌, arith,
}
use open_music_player.Research.Types.{Degradation}
use open_music_player.Research.Repository.Sql.{count_where}
use open_music_player.Research.Repository.Tables.{
  FailureKind, failure_terminal, failure_timeout, EventKind, EventPayload, RunRow, Db, Repository,
  Answer, returned, Holds, failed, bind-Holds, returned-Holds, Holds-returned,
}
use open_music_player.Research.Repository.Queries.{append_event, reserve_budget, release_slot}
use open_music_player.Research.Repository.Sorting.{All-keep, All-take, All-order_by}
use open_music_player.Research.Repository.Recover.{
  cancelled_run, cancelled_job, timed_out_run, requeued_job, degraded_job, recover_degraded,
  recover_requeued, recover_retried, recover_cancelled, is_cancel_requested, recover_run,
  recover_runs, expires_before, has_expired, expired_runs, recover_expired_leases,
}
use open_music_player.Research.Repository.Writes.{Write, Writes, unchanged, ◌then◌, Writes-trans}
use open_music_player.Research.Repository.Slots.{has_run_id, Sound, All-imp}
use open_music_player.Research.Repository.Fixed.{IsFixed, Writes-IsFixed}
use open_music_player.Research.Repository.Owners.{IsKnown, All-both, All-IsKnown, unreleased-owner}
use open_music_player.Research.Repository.OwnerWrites.{Written}

-- The run is in the table, and every row under its ID has its user.
abbrev pub IsStored : RunRow → Db → Type 0
IsStored run db = IsFixed (λ row. row.user_id ≡ run.user_id) run.id db

-- Every row counts itself.
self_count : (runs : List RunRow) → All (λ run. 1 ≤ count_where (has_run_id run.id) runs) runs
self_count [] = tt
self_count (run ∷ runs) = (
  ground (arith, text_eq_refl run.id),
  All-imp (λ n. 1 ≤ count_where (has_run_id n.id) runs)
      (λ n. 1 ≤ count_where (has_run_id n.id) (run ∷ runs)) runs (λ n h. ground (arith, h))
      (self_count runs),
)

module _ (r : Repository) where
  All-IsStored : (db : Db) → Sound r db → All (λ run. IsStored run db) db.runs
  All-IsStored db sound =
      All-both (IsKnown db.runs) (λ run. 1 ≤ count_where (has_run_id run.id) db.runs)
        (λ run. IsStored run db) db.runs (λ run known there. (known, there))
        (All-IsKnown db.runs sound.runs_once) (self_count db.runs)

  append_twice :
      (db one two : Db) (job_id : Text) (kind kind' : EventKind) (payload payload' : EventPayload)
      → append_event job_id kind payload db ≡ returned one
      → append_event job_id kind' payload' one ≡ returned two
      → Writes r db two
  append_twice db one two job_id kind kind' payload payload' h h' =
      Write.append db one job_id kind payload h
      then Write.append one two job_id kind' payload' h'
      then unchanged two

  recover_degraded-Writes :
      (d : Degradation) (kind : FailureKind) (run : RunRow) (db : Db)
      → Holds (Writes r db) (recover_degraded d kind run db)
  unfolding recover_degraded
  recover_degraded-Writes d kind run db = bind-Holds (Writes r db) _ _ (λ one logged.
      returned-Holds (Writes r db) _ (λ two logged'.
        Write.set_runs db _ (timed_out_run false)
          (λ n. (refl, refl, refl, refl, λ h. absurd (cc h)))
        then Write.set_jobs _ _ (degraded_job d.code kind) (λ j. (refl, refl, refl))
        then append_twice _ one two run.job_id _ _ _ _ logged logged'))

  recover_requeued-Writes :
      (now : ℕ) (run : RunRow) (db : Db) → Holds (Writes r db) (recover_requeued now run db)
  unfolding recover_requeued
  recover_requeued-Writes now run db = bind-Holds (Writes r db) _ _ (λ one logged.
      returned-Holds (Writes r db) _ (λ two logged'.
        Write.set_runs db _ (timed_out_run true) (λ n. (refl, refl, refl, refl, λ h. absurd (cc h)))
        then Write.set_jobs _ _ (requeued_job now) (λ j. (refl, refl, refl))
        then append_twice _ one two run.job_id _ _ _ _ logged logged'))

  recover_retried-Writes :
      (granted : Bool) (now : ℕ) (run : RunRow) (db : Db)
      → Holds (Writes r db) (recover_retried granted now run db)
  unfolding recover_retried
  recover_retried-Writes true now run db = recover_requeued-Writes now run db
  recover_retried-Writes false now run db = recover_degraded-Writes _ failure_terminal run db

  recover_cancelled-Writes :
      (run : RunRow) (db : Db) → Holds (Writes r db) (recover_cancelled run db)
  unfolding recover_cancelled
  recover_cancelled-Writes run db = returned-Holds (Writes r db) _ (λ after logged.
      Write.set_runs db _ cancelled_run (λ n. (refl, refl, refl, refl, λ h. absurd (cc h)))
      then Write.set_jobs _ _ cancelled_job (λ j. (refl, refl, refl))
      then Write.append _ after run.job_id _ _ logged
      then unchanged after)

  Holds-trans :
      (db between : Db) (m : Answer Db)
      → Writes r db between
      → Holds (Writes r between) m
      → Holds (Writes r db) m
  Holds-trans db between (returned after) ws h = Writes-trans r db between after ws h
  Holds-trans db between (failed e) ws h = tt

  recover_run-Writes :
      (now : ℕ) (run : RunRow) (db : Db)
      → IsStored run db
      → Holds (Writes r db) (recover_run r now run db)
  unfolding recover_run
  recover_run-Writes now run db stored =
      let freed = release_slot run.id run.user_id db in
      let budgeted = (reserve_budget r run.user_id now freed).1 in
      let released : Writes r db freed =
        Write.release db run.id run.user_id
          (λ row found. unreleased-owner db.runs run row run.id refl stored.0 found)
        then unchanged _ in
      let reserved : Writes r db budgeted =
        Writes-trans r db freed _ released (Write.reserve freed run.user_id now then unchanged _) in
      bind-Holds (Writes r db) _ _ (λ loaded h.
        elim (Bool-cases (is_cancel_requested loaded.0.status)) [
          | inl asked ↦
              rw (asked) (Holds-trans db freed _ released (recover_cancelled-Writes run freed))
          | inr goes_on ↦
              elim (Bool-cases
                (loaded.0.retry_safe && ltb loaded.0.attempts loaded.0.max_attempts)) [
                  | inl again ↦
                      rw (goes_on, again)
                        (Holds-trans db budgeted _ reserved
                          (recover_retried-Writes _ now run budgeted))
                  | inr final ↦
                      rw (goes_on, final)
                        (Holds-trans db freed _ released
                          (recover_degraded-Writes _ failure_timeout run freed))
                ]
        ])

  recover_runs-Writes :
      (now : ℕ) (runs : List RunRow) (db : Db)
      → All (λ run. IsStored run db) runs
      → Holds (Writes r db) (recover_runs r now runs db)
  unfolding recover_runs
  recover_runs-Writes now [] db stored = unchanged db
  recover_runs-Writes now (run ∷ runs) db stored = bind-Holds (Writes r db) _ _ (λ between h.
      let ws : Writes r db between =
        Holds-returned (Writes r db) _ between h (recover_run-Writes now run db stored.0) in
      Holds-trans db between _ ws (
        recover_runs-Writes now runs between (
          All-imp (λ n. IsStored n db) (λ n. IsStored n between) runs
            (λ n there.
              Writes-IsFixed r (λ row. row.user_id ≡ n.user_id) n.id
                (λ row later same own. same.2 ∙ own) (λ row own. own) db between ws there)
            stored.1)))

  -- The expired runs are rows of the table.
  expired-IsStored :
      (locked : Text → Bool) (now : ℕ) (db : Db)
      → Sound r db
      → All (λ run. IsStored run db) (expired_runs locked now db)
  unfolding expired_runs
  expired-IsStored locked now db sound =
      let P : RunRow → Type 0 = λ run. IsStored run db in
      All-take P 100 _ (
        All-keep P (λ run. not (locked run.id)) _
          (All-order_by P expires_before _
            (All-keep P (has_expired now) db.runs (All-IsStored db sound))))

  pub recover_expired_leases-Writes :
      (locked : Text → Bool) (now : ℕ) (db : Db)
      → Sound r db
      → Holds (Written r db) (recover_expired_leases r locked now db)
  unfolding recover_expired_leases
  recover_expired_leases-Writes locked now db sound = bind-Holds (Written r db) _ _ (λ after h.
      Holds-returned (Writes r db) _ after h
        (recover_runs-Writes now _ db (expired-IsStored locked now db sound)))
