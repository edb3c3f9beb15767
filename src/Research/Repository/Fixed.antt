-- ===== src/Research/Repository/Fixed.antt =====
-- backend/internal/research/postgres_repository.go: what the writes keep of the row of a run.
use open_music_player.Prelude.{
  ℕ, ◌≤◌, ◌≡◌, refl, ap, sym, subst, ◌∙◌, inl, inr, Bool, true, none, [], ◌∷◌, All, All-append,
  Text, text_eq, text_eq_iff, Option-cases, arith,
}
use open_music_player.Research.Repository.Sql.{
  select_where, update_where, count_where, count_where-update_where, count_where-append,
  count_where-none, update_where-All,
}
use open_music_player.Research.Repository.Tables.{RunRow, Db, Repository}
use open_music_player.Research.Repository.Queries.{
  reserve_budget, release_slot, unreleased, release,
}
use open_music_player.Research.Repository.Lease.{add_run}
use open_music_player.Research.Repository.Writes.{Write, Writes, SameRun, Writes-keep}
use open_music_player.Research.Repository.Slots.{has_run_id}
use open_music_player.Research.Repository.Acquire.{append_event-some}
use open_music_player.Research.Repository.Release.{minus_slot-runs}
use open_music_player.Research.Repository.LeaseWrites.{acquire_slot-jobs}

-- The table has a row under the ID, and every such row has the property.
abbrev pub IsFixed {κ} : (RunRow → Type κ) → Text → Db → Type κ
IsFixed Q id db =
    All (λ row. has_run_id id row ≡ true → Q row) db.runs
    × (1 ≤ count_where (has_run_id id) db.runs)

module _ {κ} (r : Repository) (Q : RunRow → Type κ) (id : Text)
    (same-Q : (run after : RunRow) → SameRun run after → Q run → Q after)
    (release-Q : (run : RunRow) → Q run → Q (release run)) where
  insert_run-IsFixed :
      (db slotted : Db) (new : RunRow)
      → slotted.runs ≡ db.runs
      → select_where (has_run_id new.id) db.runs ≡ none
      → IsFixed Q id db
      → IsFixed Q id (add_run new slotted)
  insert_run-IsFixed db slotted new same fresh (known, there) = rw (same) (
    All-append (λ row. has_run_id id row ≡ true → Q row) db.runs (new ∷ []) known
        (
          λ h.
              let gone : count_where (has_run_id id) db.runs ≡ 0 =
                subst (λ i. count_where (has_run_id i) db.runs ≡ 0) ((text_eq_iff new.id id).0 h)
                  (count_where-none (has_run_id new.id) db.runs fresh) in
              absurd (omega (arith, gone, there)),
          tt,
        ),
    omega (arith, there, count_where-append (has_run_id id) db.runs (new ∷ [])),
  )

  pub update-IsFixed :
      (db : Db) (p : RunRow → Bool) (f : RunRow → RunRow)
      → ((n : RunRow) → ((f n).id ≡ n.id))
      → ((n : RunRow) → Q n → Q (f n))
      → IsFixed Q id db
      → IsFixed Q id (record db { runs = update_where p f db.runs })
  update-IsFixed db p f same kept (known, there) = (
    update_where-All (λ row. has_run_id id row ≡ true → Q row) p f db.runs
        (λ row own h. kept row (own (ap (λ i. text_eq i id) (sym (same row)) ∙ h))) known,
    subst (λ n. 1 ≤ n)
        (sym (
          count_where-update_where (has_run_id id) p f db.runs
            (λ n. ap (λ i. text_eq i id) (same n))))
        there,
  )

  pub release-IsFixed :
      (db : Db) (run_id owner_id : Text)
      → IsFixed Q id db
      → IsFixed Q id (release_slot run_id owner_id db)
  unfolding release_slot
  release-IsFixed db run_id owner_id fixed =
      elim (Option-cases (select_where (unreleased run_id) db.runs)) [
        | inl absent ↦ rw (absent, release_slot) fixed
        | inr (n, found) ↦
            rw
              (
                found,
                release_slot,
                minus_slot-runs owner_id
                    (record db { runs = update_where (unreleased run_id) release db.runs }),
              )
              (update-IsFixed db (unreleased run_id) release (λ m. refl) release-Q fixed)
      ]

  reserve-IsFixed :
      (db : Db) (owner_id : Text) (now : ℕ)
      → IsFixed Q id db
      → IsFixed Q id (reserve_budget r owner_id now db).1
  unfolding reserve_budget
  reserve-IsFixed db owner_id now fixed = fixed

  write-IsFixed : (db after : Db) → Write r db after → IsFixed Q id db → IsFixed Q id after
  write-IsFixed _ _ (Write.set_jobs db p f same) fixed = fixed
  write-IsFixed _ _ (Write.insert_job db j fresh new) fixed = fixed
  write-IsFixed _ _ (Write.set_runs db p f same) fixed =
      update-IsFixed db p f (λ n. (same n).0) (λ n own. same-Q n (f n) (same n) own) fixed
  write-IsFixed _ _ (Write.insert_run db slotted new acquired fresh taken own) fixed =
      insert_run-IsFixed db slotted new (acquire_slot-jobs r new.user_id db slotted acquired).1
        fresh fixed
  write-IsFixed _ _ (Write.acquire db slotted owner_id acquired) fixed =
      rw ((acquire_slot-jobs r owner_id db slotted acquired).1) fixed
  write-IsFixed _ _ (Write.release db run_id owner_id owner) fixed =
      release-IsFixed db run_id owner_id fixed
  write-IsFixed _ _ (Write.add_revision db row) fixed = fixed
  write-IsFixed _ _ (Write.review db reviews decisions) fixed = fixed
  write-IsFixed _ _ (Write.append db after job_id kind payload h) fixed =
      let (job, there, e) = append_event-some db after job_id kind payload h in
      subst (IsFixed Q id) e fixed
  write-IsFixed _ _ (Write.reserve db owner_id now) fixed = reserve-IsFixed db owner_id now fixed

  pub Writes-IsFixed : (db after : Db) → Writes r db after → IsFixed Q id db → IsFixed Q id after
  Writes-IsFixed db after ws fixed = Writes-keep r (IsFixed Q id) write-IsFixed db after ws fixed
