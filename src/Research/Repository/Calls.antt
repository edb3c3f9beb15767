-- ===== src/Research/Repository/Calls.antt =====
-- backend/internal/research/postgres_repository.go: the transactions as calls, one after the other. A
-- call that fails is rolled back.
use open_music_player.Prelude.{ℕ, Bool, none, List, [], ◌∷◌, Text}
use open_music_player.Research.Types.{
  CreateInput, WorkerCapabilities, RevisionInput, TerminalTelemetry, Degradation, JobStatus,
  ReviewInput,
}
use open_music_player.Research.Repository.Tables.{Db, Repository, Claim, Answer, returned, failed}
use open_music_player.Research.Repository.Create
use open_music_player.Research.Repository.Owner
use open_music_player.Research.Repository.Lease
use open_music_player.Research.Repository.Lease.{claim_candidates}
use open_music_player.Research.Repository.Recover
use open_music_player.Research.Repository.Complete
use open_music_player.Research.Repository.Review

-- With the clock's reading, the new UUIDs and the rows that others have locked where a call uses them.
-- `seen` are the tables that the SELECT of Claim has read: any, since other transactions may have
-- committed before the loop over its rows takes the locks.
pub data Call : Type 0 where
  create : (now : ℕ) (new_id : Text) (input : CreateInput) → Call
  cancel : (job_id owner_id : Text) → Call
  retry : (now : ℕ) (job_id owner_id : Text) → Call
  claim :
      (seen : Db) (locked : Text → Bool) (capabilities : WorkerCapabilities) (now : ℕ)
      (worker_id run_id token : Text) (lease_until : ℕ)
      → Call
  renew_lease : (now : ℕ) (c : Claim) (lease_until : ℕ) → Call
  recover_expired_leases : (locked : Text → Bool) (now : ℕ) → Call
  append_enhancement : (now : ℕ) (c : Claim) (input : RevisionInput) → Call
  record_terminal :
      (fits : TerminalTelemetry → Bool) (now : ℕ) (c : Claim) (telemetry : TerminalTelemetry) → Call
  degrade : (now : ℕ) (c : Claim) (degradation : Degradation) → Call
  retry_claim : (now : ℕ) (c : Claim) (retry_at : ℕ) → Call
  finish : (now : ℕ) (c : Claim) (status : JobStatus) → Call
  review : (review_id decision_id job_id owner_id : Text) (input : ReviewInput) → Call

abbrev pub committed {ℓ} : {A : Type ℓ} → Db → Answer (Db × A) → Db
committed db (returned a) = a.0
committed db (failed e) = db

abbrev pub committed_db : Db → Answer Db → Db
committed_db db (returned after) = after
committed_db db (failed e) = db

unfoldable pub run_call : Repository → Call → Db → Db
run_call r (Call.create now new_id input) db = committed db (Create.create r now new_id input db)
run_call r (Call.cancel job_id owner_id) db = committed db (Owner.cancel r job_id owner_id db)
run_call r (Call.retry now job_id owner_id) db = committed db (Owner.retry r now job_id owner_id db)
run_call r (Call.claim seen locked capabilities now worker_id run_id token lease_until) db =
    let candidates = claim_candidates locked capabilities now seen in
    committed db (Lease.claim r capabilities worker_id run_id token lease_until candidates db)
run_call r (Call.renew_lease now c lease_until) db =
    committed db (Lease.renew_lease now c lease_until db)
run_call r (Call.recover_expired_leases locked now) db =
    committed db (Recover.recover_expired_leases r locked now db)
run_call r (Call.append_enhancement now c input) db =
    committed db (Complete.append_enhancement now c input db)
run_call r (Call.record_terminal fits now c telemetry) db =
    committed_db db (Complete.record_terminal fits now c telemetry db)
run_call r (Call.degrade now c degradation) db =
    committed db (Complete.degrade r now c degradation db)
run_call r (Call.retry_claim now c retry_at) db =
    committed db (Complete.retry_claim r now c retry_at db)
run_call r (Call.finish now c status) db = committed db (Complete.finish r now c status db)
run_call r (Call.review review_id decision_id job_id owner_id input) db =
    committed db (Review.review r review_id decision_id job_id owner_id input db)

unfoldable pub run_calls : Repository → List Call → Db → Db
unfolding run_call
run_calls r [] db = db
run_calls r (call ∷ calls) db = run_calls r calls (run_call r call db)

-- The tables as the migrations leave them.
abbrev pub empty_db : Db
empty_db = record {
  jobs = [];
  runs = [];
  revisions = [];
  events = [];
  budgets = λ user day. none;
  slots = λ user. none;
  reviews = [];
  decisions = [];
}
