-- ===== src/Research/Repository/Budget.antt =====
-- backend/internal/research/postgres_repository.go: the daily budgets, which reserveBudget writes.
use open_music_player.Prelude.{
  ℕ, ◌+◌, ◌≤◌, ◌≡◌, refl, subst, inl, inr, ◌&&◌, List, leb, ◌==◌, Text, text_eq, Bool-cases,
  Option-cases, arith,
}
use open_music_player.Research.Repository.Sql.{select_where}
use open_music_player.Research.Repository.Tables.{Db, Repository}
use open_music_player.Research.Repository.Queries.{
  reserved, reserve_budget, budget_day, release_slot, unreleased, minus_slot,
}
use open_music_player.Research.Repository.Writes.{Write, Writes-keep}
use open_music_player.Research.Repository.Acquire.{append_event-some, acquire_slot-some}
use open_music_player.Research.Repository.Calls.{Call, run_calls, empty_db}
use open_music_player.Research.Repository.Reached.{run_calls-Writes, empty-Sound}

module _ (r : Repository) where
  abbrev IsWithinBudget : Db → Type 0
  IsWithinBudget db = (user : Text) (day : ℕ) → reserved (db.budgets user day) ≤ r.daily_limit

  reserve-IsWithinBudget :
      (db : Db) (owner_id : Text) (now : ℕ)
      → IsWithinBudget db
      → IsWithinBudget (reserve_budget r owner_id now db).1
  unfolding reserve_budget
  reserve-IsWithinBudget db owner_id now within user day =
      let units = reserved (db.budgets owner_id (budget_day now)) in
      elim (Bool-cases (text_eq user owner_id && day == budget_day now)) [
        | inl here ↦ elim (Bool-cases (leb (units + r.daily_units_per_attempt) r.daily_limit)) [
          | inl fits ↦ ground (arith, here, fits)
          | inr full ↦ ground (arith, here, full, within owner_id (budget_day now))
        ]
        | inr other ↦ ground (arith, other, within user day)
      ]

  release-budgets :
      (db : Db) (run_id owner_id : Text) → (release_slot run_id owner_id db).budgets ≡ db.budgets
  unfolding release_slot
  release-budgets db run_id owner_id =
      elim (Option-cases (select_where (unreleased run_id) db.runs)) [
        | inl absent ↦ rw (absent, release_slot) refl
        | inr (n, found) ↦ elim (Option-cases (db.slots owner_id)) [
          | inl empty ↦ rw (found, empty, release_slot, minus_slot) refl
          | inr (k, there) ↦ rw (found, there, release_slot, minus_slot) refl
        ]
      ]

  module _ (positive : 1 ≤ r.max_concurrent_runs_per_user) where
    write-IsWithinBudget :
        (db after : Db) → Write r db after → IsWithinBudget db → IsWithinBudget after
    write-IsWithinBudget _ _ (Write.set_jobs db p f same) within = within
    write-IsWithinBudget _ _ (Write.insert_job db j fresh new) within = within
    write-IsWithinBudget _ _ (Write.set_runs db p f same) within = within
    write-IsWithinBudget _ _ (Write.insert_run db slotted run acquired fresh taken own) within =
        let (e, room) = acquire_slot-some r positive run.user_id db slotted acquired in
        subst IsWithinBudget e within
    write-IsWithinBudget _ _ (Write.acquire db slotted owner_id acquired) within =
        let (e, room) = acquire_slot-some r positive owner_id db slotted acquired in
        subst IsWithinBudget e within
    write-IsWithinBudget _ _ (Write.release db run_id owner_id owner) within =
        λ user day. rw (release-budgets db run_id owner_id) (within user day)
    write-IsWithinBudget _ _ (Write.add_revision db row) within = within
    write-IsWithinBudget _ _ (Write.review db reviews decisions) within = within
    write-IsWithinBudget _ _ (Write.append db after job_id kind payload h) within =
        let (job, there, e) = append_event-some db after job_id kind payload h in
        subst IsWithinBudget e within
    write-IsWithinBudget _ _ (Write.reserve db owner_id now) within =
        reserve-IsWithinBudget db owner_id now within

-- After any sequence of transactions on empty tables, where the configured number of concurrent runs
-- is at least one, no user has more units reserved on a day than the daily limit.
pub run_calls-reserved :
    (r : Repository) (calls : List Call) (user : Text) (day : ℕ)
    → 1 ≤ r.max_concurrent_runs_per_user
    → reserved ((run_calls r calls empty_db).budgets user day) ≤ r.daily_limit
run_calls-reserved r calls user day positive =
    Writes-keep r (IsWithinBudget r) (write-IsWithinBudget r positive) empty_db _
      (run_calls-Writes r positive calls empty_db (empty-Sound r)) (λ u d. omega arith) user day
