-- ===== src/Research/Repository/Reached.antt =====
-- backend/internal/research/postgres_repository.go: what holds after any sequence of calls.
use open_music_player.Prelude.{◌≤◌, List, [], ◌∷◌, arith}
use open_music_player.Research.Repository.Tables.{Db, Repository, Answer, returned, failed, Holds}
use open_music_player.Research.Repository.Calls.{
  Call, committed, committed_db, run_call, run_calls, empty_db,
}
use open_music_player.Research.Repository.Writes.{Writes, unchanged, Writes-trans}
use open_music_player.Research.Repository.Slots.{Sound}
use open_music_player.Research.Repository.Release.{Writes-Sound}
use open_music_player.Research.Repository.OwnerWrites.{Written, cancel-Writes, retry-Writes}
use open_music_player.Research.Repository.CreateWrites.{create-Writes}
use open_music_player.Research.Repository.LeaseWrites.{claim-Writes, renew_lease-Writes}
use open_music_player.Research.Repository.RecoverWrites.{recover_expired_leases-Writes}
use open_music_player.Research.Repository.ReviewWrites.{review-Writes}
use open_music_player.Research.Repository.CompleteWrites.{
  append_enhancement-Writes, record_terminal-Writes, degrade-Writes, retry_claim-Writes,
  finish-Writes,
}

module _ (r : Repository) where
  committed-Writes :
      {A : Type 0} (db : Db) (m : Answer (Db × A))
      → Holds (Written r db) m
      → Writes r db (committed db m)
  committed-Writes db (returned a) h = h
  committed-Writes db (failed e) h = unchanged db

  committed_db-Writes :
      (db : Db) (m : Answer Db) → Holds (Writes r db) m → Writes r db (committed_db db m)
  committed_db-Writes db (returned after) h = h
  committed_db-Writes db (failed e) h = unchanged db

  module _ (positive : 1 ≤ r.max_concurrent_runs_per_user) where
    run_call-Writes : (call : Call) (db : Db) → Sound r db → Writes r db (run_call r call db)
    unfolding run_call
    run_call-Writes (Call.create now new_id input) db sound =
        committed-Writes db _ (create-Writes r now new_id input db)
    run_call-Writes (Call.cancel job_id owner_id) db sound =
        committed-Writes db _ (cancel-Writes r job_id owner_id db)
    run_call-Writes (Call.retry now job_id owner_id) db sound =
        committed-Writes db _ (retry-Writes r now job_id owner_id db)
    run_call-Writes (Call.claim seen locked capabilities now worker_id run_id token lease_until) db
          sound =
        committed-Writes db _
          (claim-Writes r positive capabilities worker_id run_id token lease_until _ db sound)
    run_call-Writes (Call.renew_lease now c lease_until) db sound =
        committed-Writes db _ (renew_lease-Writes r now c lease_until db)
    run_call-Writes (Call.recover_expired_leases locked now) db sound =
        committed-Writes db _ (recover_expired_leases-Writes r locked now db sound)
    run_call-Writes (Call.append_enhancement now c input) db sound =
        committed-Writes db _ (append_enhancement-Writes r now c input db)
    run_call-Writes (Call.record_terminal fits now c telemetry) db sound =
        committed_db-Writes db _ (record_terminal-Writes r fits now c telemetry db)
    run_call-Writes (Call.degrade now c degradation) db sound =
        committed-Writes db _ (degrade-Writes r now c degradation db sound)
    run_call-Writes (Call.retry_claim now c retry_at) db sound =
        committed-Writes db _ (retry_claim-Writes r now c retry_at db)
    run_call-Writes (Call.finish now c status) db sound =
        committed-Writes db _ (finish-Writes r now c status db sound)
    run_call-Writes (Call.review review_id decision_id job_id owner_id input) db sound =
        committed-Writes db _ (review-Writes r review_id decision_id job_id owner_id input db)

    pub run_calls-Writes :
        (calls : List Call) (db : Db) → Sound r db → Writes r db (run_calls r calls db)
    unfolding run_calls
    run_calls-Writes [] db sound = unchanged db
    run_calls-Writes (call ∷ calls) db sound =
        let one : Writes r db (run_call r call db) = run_call-Writes call db sound in
        Writes-trans r db _ _ one
          (run_calls-Writes calls _ (Writes-Sound r positive db _ one sound))

module _ (r : Repository) where
  pub empty-Sound : Sound r empty_db
  empty-Sound = record {
    jobs_once = λ id. omega arith;
    runs_once = λ id. omega arith;
    runs_owned = tt;
    slots_count = λ user. omega arith;
    slots_bounded = λ user. omega arith;
  }

-- After any sequence of transactions on empty tables, whatever tables each Claim has read its candidates
-- from, and where the configured limit is at least one: a user's runtime slot counter is at least the
-- number of that user's runs whose slot is not released and at most the limit, job and run IDs are
-- unique, and every run belongs to a job of its user.
pub run_calls-Sound :
    (r : Repository) (calls : List Call)
    → 1 ≤ r.max_concurrent_runs_per_user
    → Sound r (run_calls r calls empty_db)
run_calls-Sound r calls positive =
    Writes-Sound r positive empty_db _ (run_calls-Writes r positive calls empty_db (empty-Sound r))
      (empty-Sound r)
