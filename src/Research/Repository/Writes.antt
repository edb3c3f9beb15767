-- ===== src/Research/Repository/Writes.antt =====
-- backend/internal/research/postgres_repository.go: the writes that its transactions are made of, as
-- a relation of the database before and after.
use open_music_player.Prelude.{
  ℕ, ◌≤◌, ◌≡◌, Bool, true, false, none, some, List, [], ◌∷◌, ◌++◌, All, Text, text_eq,
}
use open_music_player.Research.Repository.Sql.{select_where, count_where}
use open_music_player.Research.Repository.Tables.{
  EventKind, EventPayload, JobRow, RunRow, RevisionRow, ReviewRow, DecisionRow, Db, Repository,
  returned,
}
use open_music_player.Research.Repository.Queries
use open_music_player.Research.Repository.Queries.{
  append_event, reserve_budget, acquire_slot, release_slot, unreleased, is_running,
}
use open_music_player.Research.Repository.Lease.{add_run}
use open_music_player.Research.Repository.Complete

-- The columns of a job that only its insertion and the event log write.
abbrev pub SameJob : JobRow → JobRow → Type 0
SameJob j k = (k.id ≡ j.id) × (k.user_id ≡ j.user_id) × (k.event_sequence ≡ j.event_sequence)

-- The columns of a run that only its insertion and the slots write; a run that is over stays so.
abbrev pub SameRun : RunRow → RunRow → Type 0
SameRun run after =
    (after.id ≡ run.id)
    × (after.job_id ≡ run.job_id)
    × (after.user_id ≡ run.user_id)
    × (after.slot_released ≡ run.slot_released)
    × (is_running after.status ≡ true → is_running run.status ≡ true)

-- The foreign key (job_id, user_id).
abbrev pub IsOwned : List JobRow → RunRow → Type 0
IsOwned jobs run =
    All (λ j. text_eq j.id run.job_id ≡ true → j.user_id ≡ run.user_id) jobs
    × (1 ≤ count_where (λ j. text_eq j.id run.job_id) jobs)

pub data Write (r : Repository) : Db → Db → Type 0 where
  set_jobs :
      (db : Db) (p : JobRow → Bool) (f : JobRow → JobRow)
      → ((j : JobRow) → SameJob j (f j))
      → Write r db (Queries.set_jobs p f db)
  insert_job :
      (db : Db) (j : JobRow)
      → select_where (λ k. text_eq k.id j.id) db.jobs ≡ none
      → j.event_sequence ≡ 0
      → Write r db (record db { jobs = db.jobs ++ (j ∷ []) })
  set_runs :
      (db : Db) (p : RunRow → Bool) (f : RunRow → RunRow)
      → ((run : RunRow) → SameRun run (f run))
      → Write r db (Queries.set_runs p f db)
  insert_run :
      (db slotted : Db) (run : RunRow)
      → acquire_slot r run.user_id db ≡ some slotted
      → select_where (λ other. text_eq other.id run.id) db.runs ≡ none
      → run.slot_released ≡ false
      → IsOwned db.jobs run
      → Write r db (add_run run slotted)
  acquire :
      (db slotted : Db) (owner_id : Text)
      → acquire_slot r owner_id db ≡ some slotted
      → Write r db slotted
  release :
      (db : Db) (run_id owner_id : Text)
      → ((run : RunRow)
          → select_where (unreleased run_id) db.runs ≡ some run
          → run.user_id ≡ owner_id)
      → Write r db (release_slot run_id owner_id db)
  add_revision : (db : Db) (row : RevisionRow) → Write r db (Complete.add_revision row db)
  append :
      (db after : Db) (job_id : Text) (kind : EventKind) (payload : EventPayload)
      → append_event job_id kind payload db ≡ returned after
      → Write r db after
  reserve : (db : Db) (owner_id : Text) (now : ℕ) → Write r db (reserve_budget r owner_id now db).1
  review :
      (db : Db) (reviews : List ReviewRow) (decisions : List DecisionRow)
      → Write r db (record db { reviews = reviews; decisions = decisions })

infixr 5 ◌then◌
pub data Writes (r : Repository) : Db → Db → Type 0 where
  unchanged : (db : Db) → Writes r db db
  ◌then◌ : {db between after : Db} → Write r db between → Writes r between after → Writes r db after

pub Writes-trans :
    (r : Repository) (db between after : Db)
    → Writes r db between
    → Writes r between after
    → Writes r db after
Writes-trans r db between after (unchanged d) rest = rest
Writes-trans r db between after (w then ws) rest = w then Writes-trans r _ between after ws rest

-- A property that each write keeps.
pub Writes-keep {ℓ} :
    (r : Repository) (P : Db → Type ℓ)
    → ((db after : Db) → Write r db after → P db → P after)
    → (db after : Db) → Writes r db after
    → P db
    → P after
Writes-keep r P step db after (unchanged d) h = h
Writes-keep r P step db after (w then ws) h = Writes-keep r P step _ after ws (step db _ w h)
