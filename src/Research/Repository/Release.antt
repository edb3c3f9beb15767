-- ===== src/Research/Repository/Release.antt =====
-- backend/internal/research/postgres_repository.go: releaseSlot keeps the keys and the slots, and so
-- does every sequence of writes.
use open_music_player.Prelude.{
  ◌-◌, ◌≤◌, ◌≡◌, refl, ap, sym, subst, inl, inr, true, false, ◌&&◌, some, All, arith, Text, text_eq,
  text_eq_comm, Bool-cases, Option-cases,
}
use open_music_player.Research.Repository.Sql.{
  select_where, update_where, count_where, select_where-true, update_where-All,
  count_where-update_where, count_where-update_where_drop, count_where-le, count_where-one,
  count_where-both, count_where-no_other,
}
use open_music_player.Research.Repository.Tables.{RunRow, Db, Repository}
use open_music_player.Research.Repository.Queries.{release_slot, unreleased, release, minus_slot}
use open_music_player.Research.Repository.Writes.{Write, IsOwned, Writes, Writes-keep}
use open_music_player.Research.Repository.Slots.{
  has_run_id, takes_slot, Sound, All-imp, set_jobs-Sound, insert_job-Sound, set_runs-Sound,
  others-Sound,
}
use open_music_player.Research.Repository.Acquire.{
  append-Sound, reserve-Sound, acquire-Sound, insert_run-Sound, minus_slot_lem,
}

pub minus_slot-jobs : (owner_id : Text) (db : Db) → (minus_slot owner_id db).jobs ≡ db.jobs
minus_slot-jobs owner_id db = elim (Option-cases (db.slots owner_id)) [
  | inl absent ↦ rw (absent, minus_slot) refl
  | inr (n, there) ↦ rw (there, minus_slot) refl
]

pub minus_slot-runs : (owner_id : Text) (db : Db) → (minus_slot owner_id db).runs ≡ db.runs
minus_slot-runs owner_id db = elim (Option-cases (db.slots owner_id)) [
  | inl absent ↦ rw (absent, minus_slot) refl
  | inr (n, there) ↦ rw (there, minus_slot) refl
]

-- A property of the rows that does not depend on the slot.
pub release_slot-All {κ} :
    (P : RunRow → Type κ) (run_id owner_id : Text) (db : Db)
    → ((run : RunRow) → P run → P (release run))
    → All P db.runs
    → All P (release_slot run_id owner_id db).runs
unfolding release_slot
release_slot-All P run_id owner_id db keeps all =
    elim (Option-cases (select_where (unreleased run_id) db.runs)) [
      | inl absent ↦ rw (absent, release_slot) all
      | inr (n, found) ↦
          rw
            (
              found,
              release_slot,
              minus_slot-runs owner_id
                  (record db { runs = update_where (unreleased run_id) release db.runs }),
            )
            (update_where-All P (unreleased run_id) release db.runs keeps all)
    ]

module _ (r : Repository) where
  unreleased-has_run_id :
      (run_id : Text) (run : RunRow) → unreleased run_id run ≡ true → has_run_id run_id run ≡ true
  unreleased-has_run_id run_id run h = ground (arith, h)

  -- The user's count falls by one, every other count is what it was.
  release-count :
      (db : Db) (run_id user : Text) (run : RunRow)
      → Sound r db
      → select_where (unreleased run_id) db.runs ≡ some run
      → count_where (takes_slot user) (update_where (unreleased run_id) release db.runs)
        ≡ (elim (text_eq user run.user_id) [
          | true ↦ count_where (takes_slot user) db.runs - 1
          | false ↦ count_where (takes_slot user) db.runs
        ])
  release-count db run_id user run sound found =
      let once : count_where (has_run_id run_id) db.runs ≤ 1 = sound.runs_once run_id in
      let drop =
        count_where-update_where_drop (takes_slot user) (unreleased run_id) release db.runs
          (λ x h. ground arith) in
      elim (Bool-cases (text_eq user run.user_id)) [
        | inl same ↦
            let opened : unreleased run_id run ≡ true =
              select_where-true (unreleased run_id) db.runs run found in
            let taken : takes_slot user run ≡ true =
              ground (arith, same, text_eq_comm user run.user_id, opened) in
            let one =
              count_where-both (takes_slot user) (unreleased run_id) db.runs run found taken in
            let few =
              count_where-le (λ x. takes_slot user x && unreleased run_id x) (has_run_id run_id)
                db.runs (λ x h. ground (arith, h)) in
            ground (arith, same, drop, one, few, once)
        | inr other ↦
            let alone =
              count_where-one (has_run_id run_id) (unreleased run_id) db.runs run found
                (unreleased-has_run_id run_id) once in
            let not_it : takes_slot user run ≡ false =
              ground (arith, other, text_eq_comm user run.user_id) in
            let none_there : count_where (λ x. takes_slot user x && unreleased run_id x) db.runs
                ≡ 0 =
              count_where-no_other (takes_slot user) (unreleased run_id) db.runs run
                (All-imp (λ y. has_run_id run_id y ≡ true → y ≡ run)
                  (λ y. unreleased run_id y ≡ true → y ≡ run) db.runs
                  (λ y same h. same (unreleased-has_run_id run_id y h)) alone)
                not_it in
            ground (arith, other, drop, none_there)
      ]

  released-Sound :
      (db : Db) (run_id owner_id : Text) (run : RunRow)
      → run.user_id ≡ owner_id
      → select_where (unreleased run_id) db.runs ≡ some run
      → Sound r db
      → Sound r (
          minus_slot owner_id
            (record db { runs = update_where (unreleased run_id) release db.runs }))
  released-Sound db run_id owner_id run owner found sound =
      let after : Db = record db { runs = update_where (unreleased run_id) release db.runs } in
      let slots = minus_slot_lem r owner_id in
      record {
        jobs_once = λ id. rw (minus_slot-jobs owner_id after) (sound.jobs_once id);
        runs_once = λ id. rw (minus_slot-runs owner_id after) (
            subst (λ n. n ≤ 1)
              (sym (
                count_where-update_where (has_run_id id) (unreleased run_id) release db.runs
                  (λ x. refl)))
              (sound.runs_once id));
        runs_owned =
            rw (minus_slot-jobs owner_id after, minus_slot-runs owner_id after)
              (update_where-All (IsOwned db.jobs) (unreleased run_id) release db.runs (λ x own. own)
                sound.runs_owned);
        slots_count = λ user. rw (minus_slot-runs owner_id after) (
            ground (
              arith,
              slots user after,
              release-count db run_id user run sound found,
              sound.slots_count user,
              ap (text_eq user) owner,
            ));
        slots_bounded = λ user. ground (arith, slots user after, sound.slots_bounded user);
      }

  release-Sound :
      (db : Db) (run_id owner_id : Text)
      → ((run : RunRow)
          → select_where (unreleased run_id) db.runs ≡ some run
          → run.user_id ≡ owner_id)
      → Sound r db
      → Sound r (release_slot run_id owner_id db)
  unfolding release_slot
  release-Sound db run_id owner_id owner sound =
      elim (Option-cases (select_where (unreleased run_id) db.runs)) [
        | inl absent ↦ rw (absent, release_slot) sound
        | inr (run, found) ↦
            rw (found, release_slot)
              (released-Sound db run_id owner_id run (owner run found) found sound)
      ]

  module _ (positive : 1 ≤ r.max_concurrent_runs_per_user) where
    write-Sound : (db after : Db) → Write r db after → Sound r db → Sound r after
    write-Sound _ _ (Write.set_jobs db p f same) sound =
        set_jobs-Sound r db p f (λ j. ((same j).0, (same j).1)) sound
    write-Sound _ _ (Write.insert_job db j fresh new) sound = insert_job-Sound r db j fresh sound
    write-Sound _ _ (Write.set_runs db p f same) sound = set_runs-Sound r db p f same sound
    write-Sound _ _ (Write.insert_run db slotted run acquired fresh taken own) sound =
        insert_run-Sound r positive db slotted run acquired fresh taken own sound
    write-Sound _ _ (Write.acquire db slotted owner_id acquired) sound =
        acquire-Sound r positive db slotted owner_id acquired sound
    write-Sound _ _ (Write.release db run_id owner_id owner) sound =
        release-Sound db run_id owner_id owner sound
    write-Sound _ _ (Write.add_revision db row) sound =
        others-Sound r db _ db.events db.budgets db.reviews db.decisions sound
    write-Sound _ _ (Write.review db reviews decisions) sound =
        others-Sound r db db.revisions db.events db.budgets reviews decisions sound
    write-Sound _ _ (Write.append db after job_id kind payload h) sound =
        append-Sound r db after job_id kind payload h sound
    write-Sound _ _ (Write.reserve db owner_id now) sound = reserve-Sound r db owner_id now sound

    pub Writes-Sound : (db after : Db) → Writes r db after → Sound r db → Sound r after
    Writes-Sound db after ws sound = Writes-keep r (Sound r) write-Sound db after ws sound
