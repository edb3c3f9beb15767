-- ===== src/Research/Repository/Acquire.antt =====
-- backend/internal/research/postgres_repository.go: acquireSlot, releaseSlot and the other writes
-- keep the keys and the slots.
use open_music_player.Prelude.{
  ℕ, suc, ◌-◌, ◌≤◌, ◌≡◌, refl, ap, subst, inl, inr, false, none, some, [], ◌∷◌, ◌++◌, if◌then◌else◌,
  ltb, ltb→lt, All-append, arith, Text, text_eq, text_eq_iff, text_eq_comm, Bool-cases,
  Option-cases,
}
use open_music_player.Research.Repository.Sql.{
  select_where, count_where, count_where-append, count_where-none,
}
use open_music_player.Research.Repository.Tables.{
  EventKind, EventPayload, JobRow, RunRow, Db, Repository, returned, ◌>>=◌,
}
use open_music_player.Research.Repository.Queries.{
  append_event, reserve_budget, acquire_slot, active_runs, set_job, next_event, set_slot,
  minus_slot,
}
use open_music_player.Research.Repository.Lease.{add_run}
use open_music_player.Research.Repository.Writes.{IsOwned}
use open_music_player.Research.Repository.Slots.{
  has_job_id, has_run_id, takes_slot, Sound, set_jobs-Sound, others-Sound,
}

pub append_event-some :
    (db after : Db) (job_id : Text) (kind : EventKind) (payload : EventPayload)
    → append_event job_id kind payload db ≡ returned after
    → (job : JobRow) × (select_where (has_job_id job_id) db.jobs ≡ some job)
      × (record (set_job job_id next_event db) {
        events =
            db.events
            ++ (record {
              job_id = job_id;
              sequence = suc job.event_sequence;
              kind = kind;
              payload = payload;
            }
                ∷ []);
      }
          ≡ after)
unfolding append_event ◌>>=◌
append_event-some db after job_id kind payload h =
    elim (Option-cases (select_where (has_job_id job_id) db.jobs)) [
      | inl absent ↦ absurd (ground (arith, absent, h))
      | inr (job, there) ↦ (job, there, ground (arith, there, h))
    ]

module _ (r : Repository) where
  pub append-Sound :
      (db after : Db) (job_id : Text) (kind : EventKind) (payload : EventPayload)
      → append_event job_id kind payload db ≡ returned after
      → Sound r db
      → Sound r after
  append-Sound db after job_id kind payload h sound =
      let (job, there, e) = append_event-some db after job_id kind payload h in
      let counted : Sound r (set_job job_id next_event db) =
        set_jobs-Sound r db (has_job_id job_id) next_event (λ j. (refl, refl)) sound in
      subst (Sound r) e (
        others-Sound r (set_job job_id next_event db) db.revisions _ db.budgets db.reviews
          db.decisions counted)

  pub reserve-Sound :
      (db : Db) (owner_id : Text) (now : ℕ)
      → Sound r db
      → Sound r (reserve_budget r owner_id now db).1
  unfolding reserve_budget
  reserve-Sound db owner_id now sound =
      others-Sound r db db.revisions db.events _ db.reviews db.decisions sound

  module _ (positive : 1 ≤ r.max_concurrent_runs_per_user) where
    -- A slot that is granted is one more, within the limit.
    pub acquire_slot-some :
        (owner_id : Text) (db slotted : Db)
        → acquire_slot r owner_id db ≡ some slotted
        → (set_slot owner_id (suc (active_runs (db.slots owner_id))) db ≡ slotted)
          × (suc (active_runs (db.slots owner_id)) ≤ r.max_concurrent_runs_per_user)
    unfolding acquire_slot
    acquire_slot-some owner_id db slotted h = elim (Option-cases (db.slots owner_id)) [
      | inl absent ↦ (ground (arith, absent, h), ground (arith, absent, positive))
      | inr (n, there) ↦ elim (Bool-cases (ltb n r.max_concurrent_runs_per_user)) [
        | inl room ↦ (
          ground (arith, there, room, h),
          ground (arith, there, ltb→lt n r.max_concurrent_runs_per_user room),
        )
        | inr full ↦ absurd (ground (arith, there, full, h))
      ]
    ]

    pub acquire-Sound :
        (db slotted : Db) (owner_id : Text)
        → acquire_slot r owner_id db ≡ some slotted
        → Sound r db
        → Sound r slotted
    acquire-Sound db slotted owner_id acquired sound =
        let (e, room) = acquire_slot-some owner_id db slotted acquired in
        subst (Sound r) e record {
          jobs_once = sound.jobs_once;
          runs_once = sound.runs_once;
          runs_owned = sound.runs_owned;
          slots_count = λ user. elim (Bool-cases (text_eq user owner_id)) [
            | inl same ↦
                let u : user ≡ owner_id = (text_eq_iff user owner_id).0 same in
                ground (arith, same, sound.slots_count user, ap (λ u. active_runs (db.slots u)) u)
            | inr other ↦ ground (arith, other, sound.slots_count user)
          ];
          slots_bounded = λ user. elim (Bool-cases (text_eq user owner_id)) [
            | inl same ↦ ground (arith, same, room)
            | inr other ↦ ground (arith, other, sound.slots_bounded user)
          ];
        }

    pub insert_run-Sound :
        (db slotted : Db) (run : RunRow)
        → acquire_slot r run.user_id db ≡ some slotted
        → select_where (has_run_id run.id) db.runs ≡ none
        → run.slot_released ≡ false
        → IsOwned db.jobs run
        → Sound r db
        → Sound r (add_run run slotted)
    insert_run-Sound db slotted run acquired fresh taken own sound =
        let (e, room) = acquire_slot-some run.user_id db slotted acquired in
        let n = suc (active_runs (db.slots run.user_id)) in
        subst (λ s. Sound r (add_run run s)) e
          record {
            jobs_once = sound.jobs_once;
            runs_once = λ id. elim (Bool-cases (text_eq run.id id)) [
              | inl same ↦
                  let none_there : count_where (has_run_id id) db.runs ≡ 0 =
                    subst (λ i. count_where (has_run_id i) db.runs ≡ 0)
                      ((text_eq_iff run.id id).0 same)
                      (count_where-none (has_run_id run.id) db.runs fresh) in
                  ground
                    (arith, count_where-append (has_run_id id) db.runs (run ∷ []), none_there, same)
              | inr other ↦ ground (
                arith,
                count_where-append (has_run_id id) db.runs (run ∷ []),
                sound.runs_once id,
                other,
              )
            ];
            runs_owned = All-append (IsOwned db.jobs) db.runs (run ∷ []) sound.runs_owned (own, tt);
            slots_count = λ user. elim (Bool-cases (text_eq user run.user_id)) [
              | inl same ↦
                  let e : user ≡ run.user_id = (text_eq_iff user run.user_id).0 same in
                  ground (
                    arith,
                    same,
                    taken,
                    text_eq_comm user run.user_id,
                    count_where-append (takes_slot user) db.runs (run ∷ []),
                    sound.slots_count user,
                    ap (λ u. active_runs (db.slots u)) e,
                  )
              | inr other ↦ ground (
                arith,
                other,
                text_eq_comm user run.user_id,
                count_where-append (takes_slot user) db.runs (run ∷ []),
                sound.slots_count user,
              )
            ];
            slots_bounded = λ user. elim (Bool-cases (text_eq user run.user_id)) [
              | inl same ↦ ground (arith, same, room)
              | inr other ↦ ground (arith, other, sound.slots_bounded user)
            ];
          }

  pub minus_slot_lem :
      (owner_id user : Text) (db : Db)
      → active_runs ((minus_slot owner_id db).slots user) ≡ (
          if text_eq user owner_id
          then active_runs (db.slots user) - 1
          else active_runs (db.slots user))
  minus_slot_lem owner_id user db = elim (Bool-cases (text_eq user owner_id)) [
    | inl same ↦
        let e : user ≡ owner_id = (text_eq_iff user owner_id).0 same in
        elim (Option-cases (db.slots owner_id)) [
          | inl absent ↦ ground (arith, same, absent, ap db.slots e)
          | inr (n, there) ↦ ground (arith, same, there, ap db.slots e)
        ]
    | inr other ↦ elim (Option-cases (db.slots owner_id)) [
      | inl absent ↦ ground (arith, other, absent)
      | inr (n, there) ↦ ground (arith, other, there)
    ]
  ]
