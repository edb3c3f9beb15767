-- ===== src/Research/Repository/EventLog.antt =====
-- backend/internal/research/postgres_repository.go: the events of a job, which appendEvent numbers.
use open_music_player.Prelude.{
  ℕ, zero, suc, ◌≤◌, ◌≡◌, refl, ap, sym, subst, ◌∙◌, inl, inr, Bool, true, false, Option, none,
  some, List, [], ◌∷◌, ◌++◌, keep, map, map-append, append-nil, Text, text_eq, text_eq_iff,
  text_eq_comm, Bool-cases, Option-cases, if◌then◌else◌, arith,
}
use open_music_player.Research.Repository.Sql.{
  select_where, update_where, select_where-update_where, select_where-true,
}
use open_music_player.Research.Repository.Tables.{
  EventKind, EventPayload, JobRow, EventRow, Db, Repository, returned,
}
use open_music_player.Research.Repository.Queries.{
  append_event, reserve_budget, release_slot, unreleased, minus_slot, next_event,
}
use open_music_player.Research.Repository.Writes.{Write, Writes-keep, SameJob}
use open_music_player.Research.Repository.Acquire.{append_event-some, acquire_slot-some}
use open_music_player.Research.Repository.Slots.{has_job_id}
use open_music_player.Research.Repository.Calls.{Call, run_calls, empty_db}
use open_music_player.Research.Repository.Reached.{run_calls-Writes, empty-Sound}

-- 1, …, n
abbrev pub numbers : ℕ → List ℕ
numbers zero = []
numbers (suc n) = numbers n ++ (suc n ∷ [])

abbrev pub last_sequence : Option JobRow → ℕ
last_sequence none = 0
last_sequence (some j) = j.event_sequence

abbrev pub of_job : Text → EventRow → Bool
of_job id e = text_eq e.job_id id

abbrev pub sequences : Text → List EventRow → List ℕ
sequences id events = map (λ e. e.sequence) (keep (of_job id) events)

-- The events of the job are numbered from 1 to the job's counter, in order.
abbrev pub IsNumbered : Text → Db → Type 0
IsNumbered id db =
    sequences id db.events ≡ numbers (last_sequence (select_where (has_job_id id) db.jobs))

keep-append :
    (id : Text) (xs ys : List EventRow)
    → keep (of_job id) (xs ++ ys) ≡ keep (of_job id) xs ++ keep (of_job id) ys
keep-append id [] ys = refl
keep-append id (x ∷ xs) ys = elim (Bool-cases (of_job id x)) [
  | inl here ↦ rw (here, keep) (ap (◌∷◌ x) (keep-append id xs ys))
  | inr other ↦ rw (other, keep) (keep-append id xs ys)
]

sequences-append :
    (id : Text) (xs : List EventRow) (e : EventRow)
    → sequences id (xs ++ (e ∷ []))
      ≡ sequences id xs ++ (if of_job id e then e.sequence ∷ [] else [])
sequences-append id xs e =
    ap (map (λ x. x.sequence)) (keep-append id xs (e ∷ []))
    ∙ map-append (λ x. x.sequence) (keep (of_job id) xs) (keep (of_job id) (e ∷ []))
    ∙ ground arith

update-last_sequence :
    (id : Text) (p : JobRow → Bool) (f : JobRow → JobRow) (jobs : List JobRow)
    → ((j : JobRow) → SameJob j (f j))
    → last_sequence (select_where (has_job_id id) (update_where p f jobs))
      ≡ last_sequence (select_where (has_job_id id) jobs)
update-last_sequence id p f jobs same =
    let found =
      select_where-update_where (has_job_id id) p f jobs (λ j. ap (λ i. text_eq i id) (same j).0) in
    elim (Option-cases (select_where (has_job_id id) jobs)) [
      | inl absent ↦ ground (arith, found, absent)
      | inr (j, there) ↦ ground (arith, found, there, (same j).2)
    ]

insert-last_sequence :
    (id : Text) (jobs : List JobRow) (j : JobRow)
    → j.event_sequence ≡ 0
    → last_sequence (select_where (has_job_id id) (jobs ++ (j ∷ [])))
      ≡ last_sequence (select_where (has_job_id id) jobs)
insert-last_sequence id [] j new = ground (arith, new)
insert-last_sequence id (k ∷ jobs) j new = ground (arith, insert-last_sequence id jobs j new)

counted-last_sequence :
    (id job_id : Text) (jobs : List JobRow) (job : JobRow)
    → select_where (has_job_id job_id) jobs ≡ some job
    → last_sequence
        (select_where (has_job_id id) (update_where (has_job_id job_id) next_event jobs))
      ≡ (if text_eq job_id id
          then suc job.event_sequence
          else last_sequence (select_where (has_job_id id) jobs))
counted-last_sequence id job_id jobs job found =
    let after =
      select_where-update_where (has_job_id id) (has_job_id job_id) next_event jobs (λ j. refl) in
    let own : has_job_id job_id job ≡ true = select_where-true (has_job_id job_id) jobs job found in
    elim (Bool-cases (text_eq job_id id)) [
      | inl same ↦
          let e : job_id ≡ id = (text_eq_iff job_id id).0 same in
          let there : select_where (has_job_id id) jobs ≡ some job =
            subst (λ i. select_where (has_job_id i) jobs ≡ some job) e found in
          ground (arith, same, after, there, own)
      | inr other ↦ elim (Option-cases (select_where (has_job_id id) jobs)) [
        | inl absent ↦ ground (arith, other, after, absent)
        | inr (j, there) ↦
            let its : has_job_id id j ≡ true = select_where-true (has_job_id id) jobs j there in
            let e : j.id ≡ id = (text_eq_iff j.id id).0 its in
            let apart : has_job_id job_id j ≡ false =
              ap (λ i. text_eq i job_id) e ∙ text_eq_comm id job_id ∙ other in
            ground (arith, other, after, there, apart)
      ]
    ]

module _ (r : Repository) (id : Text) where
  append-IsNumbered :
      (db after : Db) (job_id : Text) (kind : EventKind) (payload : EventPayload)
      → append_event job_id kind payload db ≡ returned after
      → IsNumbered id db
      → IsNumbered id after
  append-IsNumbered db after job_id kind payload h numbered =
      let (job, found, e) = append_event-some db after job_id kind payload h in
      let event : EventRow = record {
        job_id = job_id;
        sequence = suc job.event_sequence;
        kind = kind;
        payload = payload;
      } in
      let grown = sequences-append id db.events event in
      let counted = counted-last_sequence id job_id db.jobs job found in
      subst (IsNumbered id) e (elim (Bool-cases (text_eq job_id id)) [
        | inl same ↦
            let same_job : job_id ≡ id = (text_eq_iff job_id id).0 same in
            let there : select_where (has_job_id id) db.jobs ≡ some job =
              subst (λ i. select_where (has_job_id i) db.jobs ≡ some job) same_job found in
            let before : sequences id db.events ≡ numbers job.event_sequence =
              numbered ∙ ap (λ o. numbers (last_sequence o)) there in
            grown
            ∙ ap (λ b. sequences id db.events ++ (if b then suc job.event_sequence ∷ [] else []))
                same
            ∙ ap (λ s. s ++ (suc job.event_sequence ∷ [])) before
            ∙ sym (
                ap numbers (
                  counted
                  ∙ ap
                      (λ b.
                        if b
                        then suc job.event_sequence
                        else last_sequence (select_where (has_job_id id) db.jobs))
                      same))
        | inr other ↦
            grown
            ∙ ap (λ b. sequences id db.events ++ (if b then suc job.event_sequence ∷ [] else []))
                other
            ∙ append-nil (sequences id db.events)
            ∙ numbered
            ∙ sym (
                ap numbers (
                  counted
                  ∙ ap
                      (λ b.
                        if b
                        then suc job.event_sequence
                        else last_sequence (select_where (has_job_id id) db.jobs))
                      other))
      ])

  release-IsNumbered :
      (db : Db) (run_id owner_id : Text)
      → IsNumbered id db
      → IsNumbered id (release_slot run_id owner_id db)
  unfolding release_slot
  release-IsNumbered db run_id owner_id numbered =
      elim (Option-cases (select_where (unreleased run_id) db.runs)) [
        | inl absent ↦ rw (absent, release_slot) numbered
        | inr (n, found) ↦ elim (Option-cases (db.slots owner_id)) [
          | inl empty ↦ rw (found, empty, release_slot, minus_slot) numbered
          | inr (k, there) ↦ rw (found, there, release_slot, minus_slot) numbered
        ]
      ]

  reserve-IsNumbered :
      (db : Db) (owner_id : Text) (now : ℕ)
      → IsNumbered id db
      → IsNumbered id (reserve_budget r owner_id now db).1
  unfolding reserve_budget
  reserve-IsNumbered db owner_id now numbered = numbered

  module _ (positive : 1 ≤ r.max_concurrent_runs_per_user) where
    write-IsNumbered : (db after : Db) → Write r db after → IsNumbered id db → IsNumbered id after
    write-IsNumbered _ _ (Write.set_jobs db p f same) numbered =
        numbered ∙ ap numbers (sym (update-last_sequence id p f db.jobs same))
    write-IsNumbered _ _ (Write.insert_job db j fresh new) numbered =
        numbered ∙ ap numbers (sym (insert-last_sequence id db.jobs j new))
    write-IsNumbered _ _ (Write.set_runs db p f same) numbered = numbered
    write-IsNumbered _ _ (Write.insert_run db slotted run acquired fresh taken own) numbered =
        let (e, room) = acquire_slot-some r positive run.user_id db slotted acquired in
        subst (IsNumbered id) e numbered
    write-IsNumbered _ _ (Write.acquire db slotted owner_id acquired) numbered =
        let (e, room) = acquire_slot-some r positive owner_id db slotted acquired in
        subst (IsNumbered id) e numbered
    write-IsNumbered _ _ (Write.release db run_id owner_id owner) numbered =
        release-IsNumbered db run_id owner_id numbered
    write-IsNumbered _ _ (Write.add_revision db row) numbered = numbered
    write-IsNumbered _ _ (Write.review db reviews decisions) numbered = numbered
    write-IsNumbered _ _ (Write.append db after job_id kind payload h) numbered =
        append-IsNumbered db after job_id kind payload h numbered
    write-IsNumbered _ _ (Write.reserve db owner_id now) numbered =
        reserve-IsNumbered db owner_id now numbered

-- After any sequence of transactions on empty tables, where the configured number of concurrent runs
-- is at least one, the events of a job are numbered from 1 to the job's event_sequence, in the order
-- in which they were written; under an ID without a job there are none.
pub run_calls-IsNumbered :
    (r : Repository) (calls : List Call) (id : Text)
    → 1 ≤ r.max_concurrent_runs_per_user
    → IsNumbered id (run_calls r calls empty_db)
run_calls-IsNumbered r calls id positive =
    Writes-keep r (IsNumbered id) (write-IsNumbered r id positive) empty_db _
      (run_calls-Writes r positive calls empty_db (empty-Sound r)) refl
