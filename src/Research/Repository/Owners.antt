-- ===== src/Research/Repository/Owners.antt =====
-- backend/internal/research/postgres_repository.go: the owner to whom a run's slot goes back.
use open_music_player.Prelude.{
  ℕ, ◌≤◌, ◌≡◌, refl, ap, sym, ◌∙◌, inl, inr, Bool, true, false, ◌&&◌, some, List, [], ◌∷◌, All,
  Text, text_eq, text_eq_iff, text_eq_refl, text_eq_comm, Option-cases, arith,
}
use open_music_player.Research.Repository.Sql.{
  select_where, update_where, count_where, select_where-All, select_where-true, update_where-All,
}
use open_music_player.Research.Repository.Tables.{
  JobRow, RunRow, Db, Repository, Claim, returned, returned_inj, ◌>>=◌,
}
use open_music_player.Research.Repository.Queries.{unreleased}
use open_music_player.Research.Repository.Loads.{held, claimed_rows}
use open_music_player.Research.Types.{JobStatus, RunStatus}
use open_music_player.Research.Repository.Writes.{IsOwned}
use open_music_player.Research.Repository.Slots.{has_run_id, Sound, All-imp}

-- Every row under the run's ID belongs to the run's user.
abbrev pub IsKnown : List RunRow → RunRow → Type 0
IsKnown runs run = All (λ row. text_eq row.id run.id ≡ true → row.user_id ≡ run.user_id) runs

module _ {ℓ κ ν μ} {A : Type ℓ} (P : A → Type κ) (Q : A → Type ν) (R : A → Type μ) where
  pub All-both : (xs : List A) → ((x : A) → P x → Q x → R x) → All P xs → All Q xs → All R xs
  All-both [] h ps qs = tt
  All-both (x ∷ xs) h ps qs = (h x ps.0 qs.0, All-both xs h ps.1 qs.1)

no_other :
    (id : Text) (runs : List RunRow)
    → count_where (has_run_id id) runs ≤ 0
    → All (λ row. text_eq row.id id ≡ false) runs
no_other id [] h = tt
no_other id (run ∷ runs) h = (ground (arith, h), no_other id runs (ground (arith, h)))

-- Where the IDs are unique.
pub All-IsKnown :
    (runs : List RunRow)
    → ((id : Text) → count_where (has_run_id id) runs ≤ 1)
    → All (IsKnown runs) runs
All-IsKnown [] once = tt
All-IsKnown (run ∷ runs) once =
    let alone : All (λ row. text_eq row.id run.id ≡ false) runs =
      no_other run.id runs (ground (arith, once run.id, text_eq_refl run.id)) in
    let others : All (IsKnown runs) runs = All-IsKnown runs (λ id. ground (arith, once id)) in
    (
      (
        λ h. refl,
        All-imp (λ row. text_eq row.id run.id ≡ false)
            (λ row. text_eq row.id run.id ≡ true → row.user_id ≡ run.user_id) runs
            (λ row apart same. absurd (cc (apart, same))) alone,
      ),
      All-both (λ row. text_eq row.id run.id ≡ false) (IsKnown runs) (IsKnown (run ∷ runs)) runs
          (λ row apart known.
            (λ same. absurd (ground (arith, apart, same, text_eq_comm run.id row.id)), known))
          alone others,
    )

-- An update that keeps IDs and users.
pub update_where-IsKnown :
    (p : RunRow → Bool) (f : RunRow → RunRow) (runs : List RunRow)
    → ((run : RunRow) → ((f run).id ≡ run.id) × ((f run).user_id ≡ run.user_id))
    → (run : RunRow) → IsKnown runs run
    → IsKnown (update_where p f runs) run
update_where-IsKnown p f runs same run known =
    update_where-All (λ row. text_eq row.id run.id ≡ true → row.user_id ≡ run.user_id) p f runs
      (λ row kept h. (same row).1 ∙ kept (ap (λ i. text_eq i run.id) (sym (same row).0) ∙ h)) known

pub unreleased-owner :
    (runs : List RunRow) (run found : RunRow) (run_id : Text)
    → run.id ≡ run_id
    → IsKnown runs run
    → select_where (unreleased run_id) runs ≡ some found
    → found.user_id ≡ run.user_id
unreleased-owner runs run found run_id e known h =
    select_where-All (λ row. text_eq row.id run.id ≡ true → row.user_id ≡ run.user_id)
      (unreleased run_id) runs found known h
      (ap (text_eq found.id) e ∙ ground (arith, select_where-true (unreleased run_id) runs found h))

-- The two rows are those that the SELECTs find.
pub claimed_rows-returned :
    (want_job : JobStatus → Bool) (want_run : RunStatus → Bool) (db : Db) (claim : Claim) (now : ℕ)
    (run : RunRow) (job : JobRow)
    → claimed_rows want_job want_run db claim now ≡ returned (run, job)
    → (select_where (λ n. held claim now n && want_run n.status) db.runs ≡ some run)
      × (select_where (λ j. text_eq j.id run.job_id && want_job j.status) db.jobs ≡ some job)
unfolding claimed_rows ◌>>=◌
claimed_rows-returned want_job want_run db claim now run job h =
    elim (Option-cases (select_where (λ n. held claim now n && want_run n.status) db.runs)) [
      | inl lost ↦ absurd (ground (arith, lost, h))
      | inr (n, there) ↦
          elim (Option-cases
            (select_where (λ j. text_eq j.id n.job_id && want_job j.status) db.jobs)) [
              | inl lost ↦ absurd (ground (arith, there, lost, h))
              | inr (j, found) ↦
                  let rows : RunRow × JobRow = (n, j) in
                  let e : rows ≡ (run, job) = returned_inj (ground (arith, there, found, h)) in
                  (there ∙ ap (λ q. some q.0) e, rw (← ap (λ q. q.0) e, ← ap (λ q. q.1) e) found)
            ]
    ]

module _ (r : Repository) (db : Db) (sound : Sound r db) where
  -- The run is the claim's, its row is the only one, and its job has its user.
  pub claimed_rows-owner :
      (want_job : JobStatus → Bool) (want_run : RunStatus → Bool) (claim : Claim) (now : ℕ)
      (run : RunRow) (job : JobRow)
      → claimed_rows want_job want_run db claim now ≡ returned (run, job)
      → (run.id ≡ claim.run.id) × IsKnown db.runs run × (job.user_id ≡ run.user_id)
  claimed_rows-owner want_job want_run claim now run job h =
      let (there, found) = claimed_rows-returned want_job want_run db claim now run job h in
      let chosen : (held claim now run && want_run run.status) ≡ true =
        select_where-true (λ n. held claim now n && want_run n.status) db.runs run there in
      let same : run.id ≡ claim.run.id =
        (text_eq_iff run.id claim.run.id).0 (ground (arith, chosen)) in
      let own : IsOwned db.jobs run =
        select_where-All (IsOwned db.jobs) (λ n. held claim now n && want_run n.status) db.runs run
          sound.runs_owned there in
      let of_run : (text_eq job.id run.job_id && want_job job.status) ≡ true =
        select_where-true (λ j. text_eq j.id run.job_id && want_job j.status) db.jobs job found in
      (
        same,
        select_where-All (IsKnown db.runs) (λ n. held claim now n && want_run n.status) db.runs run
            (All-IsKnown db.runs sound.runs_once) there,
        select_where-All (λ j. text_eq j.id run.job_id ≡ true → j.user_id ≡ run.user_id)
            (λ j. text_eq j.id run.job_id && want_job j.status) db.jobs job own.0 found
            (ground (arith, of_run)),
      )
