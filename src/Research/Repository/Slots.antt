-- ===== src/Research/Repository/Slots.antt =====
-- backend/internal/research/postgres_repository.go: the keys of the tables and the runtime slots, and
-- that the writes keep them.
use open_music_player.Prelude.{
  ℕ, ◌≤◌, ◌≡◌, ap, sym, subst, ◌∙◌, inl, inr, Bool, true, not, ◌&&◌, Option, none, List, [], ◌∷◌,
  ◌++◌, All, All-append, arith, Text, text_eq, text_eq_iff, Bool-cases,
}
use open_music_player.Research.Repository.Sql.{
  select_where, update_where, count_where, update_where-All, count_where-update_where,
  count_where-append, count_where-none,
}
use open_music_player.Research.Repository.Tables.{
  EventRow, JobRow, RunRow, RevisionRow, ReviewRow, DecisionRow, Db, Repository,
}
use open_music_player.Research.Repository.Queries.{active_runs, set_jobs, set_runs}
use open_music_player.Research.Repository.Writes.{IsOwned, SameRun}

abbrev pub SameKey : JobRow → JobRow → Type 0
SameKey j k = (k.id ≡ j.id) × (k.user_id ≡ j.user_id)

abbrev pub has_job_id : Text → JobRow → Bool
has_job_id id j = text_eq j.id id

abbrev pub has_run_id : Text → RunRow → Bool
has_run_id id run = text_eq run.id id

abbrev pub takes_slot : Text → RunRow → Bool
takes_slot user run = text_eq run.user_id user && not run.slot_released

-- The keys of jobs and runs, the foreign key of the runs, and the slots: a user's counter is at
-- least the number of that user's runs that hold a slot, and at most the limit.
pub record Sound (r : Repository) (db : Db) : Type 0 where
  pub jobs_once : (id : Text) → count_where (has_job_id id) db.jobs ≤ 1
  pub runs_once : (id : Text) → count_where (has_run_id id) db.runs ≤ 1
  pub runs_owned : All (IsOwned db.jobs) db.runs
  pub slots_count :
      (user : Text) → count_where (takes_slot user) db.runs ≤ active_runs (db.slots user)
  pub slots_bounded : (user : Text) → active_runs (db.slots user) ≤ r.max_concurrent_runs_per_user

pub All-imp {ℓ κ ν} :
    {A : Type ℓ} (P : A → Type κ) (Q : A → Type ν) (xs : List A)
    → ((x : A) → P x → Q x)
    → All P xs
    → All Q xs
All-imp P Q [] h all = tt
All-imp P Q (x ∷ xs) h all = (h x all.0, All-imp P Q xs h all.1)

module _ (r : Repository) where
  pub set_jobs-IsOwned :
      (jobs : List JobRow) (p : JobRow → Bool) (f : JobRow → JobRow)
      → ((j : JobRow) → SameKey j (f j))
      → (run : RunRow) → IsOwned jobs run
      → IsOwned (update_where p f jobs) run
  set_jobs-IsOwned jobs p f same run (agree, there) = (
    update_where-All (λ j. text_eq j.id run.job_id ≡ true → j.user_id ≡ run.user_id) p f jobs
        (λ j kept found.
          (same j).1 ∙ kept (ap (λ i. text_eq i run.job_id) (sym (same j).0) ∙ found))
        agree,
    subst (λ n. 1 ≤ n)
        (sym (
          count_where-update_where (has_job_id run.job_id) p f jobs
            (λ j. ap (λ i. text_eq i run.job_id) (same j).0)))
        there,
  )

  pub set_jobs-Sound :
      (db : Db) (p : JobRow → Bool) (f : JobRow → JobRow)
      → ((j : JobRow) → SameKey j (f j))
      → Sound r db
      → Sound r (set_jobs p f db)
  set_jobs-Sound db p f same sound = record {
    jobs_once = λ id.
        subst (λ n. n ≤ 1)
          (sym (
            count_where-update_where (has_job_id id) p f db.jobs
              (λ j. ap (λ i. text_eq i id) (same j).0)))
          (sound.jobs_once id);
    runs_once = sound.runs_once;
    runs_owned =
        All-imp (IsOwned db.jobs) (IsOwned (update_where p f db.jobs)) db.runs
          (set_jobs-IsOwned db.jobs p f same) sound.runs_owned;
    slots_count = sound.slots_count;
    slots_bounded = sound.slots_bounded;
  }

  -- Sound reads the jobs, the runs and the slots.
  pub others-Sound :
      (db : Db) (revisions : List RevisionRow) (events : List EventRow)
      (budgets : Text → ℕ → Option ℕ) (reviews : List ReviewRow) (decisions : List DecisionRow)
      → Sound r db
      → Sound r (record db {
        revisions = revisions;
        events = events;
        budgets = budgets;
        reviews = reviews;
        decisions = decisions;
      })
  others-Sound db revisions events budgets reviews decisions sound = record {
    jobs_once = sound.jobs_once;
    runs_once = sound.runs_once;
    runs_owned = sound.runs_owned;
    slots_count = sound.slots_count;
    slots_bounded = sound.slots_bounded;
  }

  insert_job-IsOwned :
      (jobs : List JobRow) (j : JobRow)
      → select_where (has_job_id j.id) jobs ≡ none
      → (run : RunRow) → IsOwned jobs run
      → IsOwned (jobs ++ (j ∷ [])) run
  insert_job-IsOwned jobs j fresh run (agree, there) = (
    All-append (λ k. text_eq k.id run.job_id ≡ true → k.user_id ≡ run.user_id) jobs (j ∷ []) agree
        (
          λ same.
              let e : j.id ≡ run.job_id = (text_eq_iff j.id run.job_id).0 same in
              let zero_left : count_where (has_job_id run.job_id) jobs ≡ 0 =
                subst (λ i. count_where (has_job_id i) jobs ≡ 0) e
                  (count_where-none (has_job_id j.id) jobs fresh) in
              absurd (omega (arith, zero_left, there)),
          tt,
        ),
    omega (arith, count_where-append (has_job_id run.job_id) jobs (j ∷ []), there),
  )

  insert_once :
      (jobs : List JobRow) (j : JobRow)
      → select_where (has_job_id j.id) jobs ≡ none
      → (id : Text) → count_where (has_job_id id) jobs ≤ 1
      → count_where (has_job_id id) (jobs ++ (j ∷ [])) ≤ 1
  insert_once jobs j fresh id once = elim (Bool-cases (text_eq j.id id)) [
    | inl same ↦
        let e : j.id ≡ id = (text_eq_iff j.id id).0 same in
        let zero_left : count_where (has_job_id id) jobs ≡ 0 =
          subst (λ i. count_where (has_job_id i) jobs ≡ 0) e
            (count_where-none (has_job_id j.id) jobs fresh) in
        ground (arith, count_where-append (has_job_id id) jobs (j ∷ []), zero_left, same)
    | inr other ↦ ground (arith, count_where-append (has_job_id id) jobs (j ∷ []), once, other)
  ]

  pub insert_job-Sound :
      (db : Db) (j : JobRow)
      → select_where (has_job_id j.id) db.jobs ≡ none
      → Sound r db
      → Sound r (record db { jobs = db.jobs ++ (j ∷ []) })
  insert_job-Sound db j fresh sound = record {
    jobs_once = λ id. insert_once db.jobs j fresh id (sound.jobs_once id);
    runs_once = sound.runs_once;
    runs_owned =
        All-imp (IsOwned db.jobs) (IsOwned (db.jobs ++ (j ∷ []))) db.runs
          (insert_job-IsOwned db.jobs j fresh) sound.runs_owned;
    slots_count = sound.slots_count;
    slots_bounded = sound.slots_bounded;
  }

  pub set_runs-Sound :
      (db : Db) (p : RunRow → Bool) (f : RunRow → RunRow)
      → ((run : RunRow) → SameRun run (f run))
      → Sound r db
      → Sound r (set_runs p f db)
  set_runs-Sound db p f same sound = record {
    jobs_once = sound.jobs_once;
    runs_once = λ id.
        subst (λ n. n ≤ 1)
          (sym (
            count_where-update_where (has_run_id id) p f db.runs
              (λ run. ap (λ i. text_eq i id) (same run).0)))
          (sound.runs_once id);
    runs_owned =
        update_where-All (IsOwned db.jobs) p f db.runs
          (λ run own. (
            agrees run own,
            subst (λ i. 1 ≤ count_where (has_job_id i) db.jobs) (sym (same run).1) own.1,
          ))
          sound.runs_owned;
    slots_count = λ user. omega (
      arith,
      sound.slots_count user,
      count_where-update_where (takes_slot user) p f db.runs
          (λ run. ground (arith, (same run).2, (same run).3)),
    );
    slots_bounded = sound.slots_bounded;
  }
    where
      agrees :
          (run : RunRow)
          → IsOwned db.jobs run
          → All (λ j. text_eq j.id (f run).job_id ≡ true → j.user_id ≡ (f run).user_id) db.jobs
      agrees run own =
          All-imp (λ j. text_eq j.id run.job_id ≡ true → j.user_id ≡ run.user_id)
            (λ j. text_eq j.id (f run).job_id ≡ true → j.user_id ≡ (f run).user_id) db.jobs
            (λ j agree found.
              agree (ap (λ i. text_eq j.id i) (sym (same run).1) ∙ found) ∙ sym (same run).2)
            own.0
