-- ===== src/Download/Entries.antt =====
-- backend/internal/download/queue.go: PublishQueuedRetry and EnsureCandidateWithID never list a job
-- twice, whatever errors Redis reports.
use open_music_player.Prelude.{
  ℕ, ◌≡◌, refl, ap, ◌∙◌, sym, subst, ◌⊎◌, inl, inr, true, false, Option, some, List, [], ◌∷◌, Text,
  text_eq, text_eq_iff, text_eq_refl, Bool-cases, Option-cases, arith,
}
use open_music_player.Redis.{Reply, found, missing, fault}
use open_music_player.Redis.Queueing.{Queueing, QueueingLaws, listed}
use open_music_player.Download.Job.{
  DownloadJob, SourceCandidate, Result, Result-cases, ok, err, is_terminal, status_queued,
}
use open_music_player.Download.Update.{key_job_queue, job_key}
use open_music_player.Download.Queue.{
  Server, resume, get_job, job_reply, restore_entry, ensure_found, ensure_reply,
  ensure_candidate_with_id,
}
use open_music_player.Download.Retry.{publish_found, publish_queued_retry}

abbrev pub Distinct : List Text → Type 0
Distinct [] = Unit {0}
Distinct (x ∷ xs) = (listed x xs ≡ false) × Distinct xs

pub Reply-cases :
    {V : Type 0} (r : Reply V) → ((v : V) × (r ≡ found v)) ⊎ ((r ≡ missing) ⊎ (r ≡ fault))
Reply-cases (found v) = inl (v, refl)
Reply-cases missing = inr (inl refl)
Reply-cases fault = inr (inr refl)

module _ {redis : Queueing DownloadJob} (laws : QueueingLaws redis) where
  open laws use {stored, items}

  -- From one server to a later one no value changes and the work list gets no repetition.
  abbrev pub Keeps : Server redis → Server redis → Type 0
  Keeps s s' =
      ((k : Text) → stored.content s' k ≡ stored.content s k)
      × (Distinct (items s key_job_queue) → Distinct (items s' key_job_queue))

  abbrev pub IsListed : Text → Server redis → Type 0
  IsListed id s = listed id (items s key_job_queue) ≡ true

  Keeps-same :
      (s s' : Server redis)
      → ((k : Text) → stored.content s' k ≡ stored.content s k)
      → items s' key_job_queue ≡ items s key_job_queue
      → Keeps s s'
  Keeps-same s s' content same = (content, λ h. subst Distinct (sym same) h)

  Keeps-trans : (a b c : Server redis) → Keeps a b → Keeps b c → Keeps a c
  Keeps-trans a b c (content, distinct) (content', distinct') =
      ((λ k. content' k ∙ content k), λ h. distinct' (distinct h))

  listed_head : (x : Text) (xs : List Text) → listed x (x ∷ xs) ≡ true
  unfolding listed
  listed_head x xs = ground (arith, text_eq_refl x)

  find-answers :
      (s : Server redis) (id : Text)
      → ((u : Unit {0}) → (redis.find s key_job_queue id).1 ≡ found u → IsListed id s)
        × ((redis.find s key_job_queue id).1 ≡ missing → listed id (items s key_job_queue) ≡ false)
  find-answers s id = elim (laws.find_reply s key_job_queue id) [
    | inl failed ↦ ((λ u h. absurd (cc (failed, h))), λ h. absurd (cc (failed, h)))
    | inr answered ↦ (λ u h. ground (arith, answered, h), λ h. ground (arith, answered, h))
  ]

  push-Keeps :
      (s : Server redis) (id : Text)
      → listed id (items s key_job_queue) ≡ false
      → Keeps s (redis.push s key_job_queue id).0
  push-Keeps s id absent = (
    laws.push_content s key_job_queue id,
    λ distinct. elim (Bool-cases (redis.push s key_job_queue id).1) [
      | inl done ↦
          subst Distinct (sym (laws.push_pushes s key_job_queue id done)) (absent, distinct)
      | inr failed ↦ elim (laws.push_fails s key_job_queue id failed) [
        | inl pushed ↦ subst Distinct (sym pushed) (absent, distinct)
        | inr same ↦ subst Distinct (sym same) distinct
      ]
    ],
  )

  restore_entry_lem :
      (id : Text) (s : Server redis)
      → Keeps s (restore_entry redis id s).0
        × ((restore_entry redis id s).1 ≡ ok tt → IsListed id (restore_entry redis id s).0)
  unfolding restore_entry
  restore_entry_lem id s =
      let looked = (redis.find s key_job_queue id).0 in
      let same = laws.find_items s key_job_queue id key_job_queue in
      let kept : Keeps s looked = Keeps-same s looked (laws.find_content s key_job_queue id) same in
      let (present, absent) = find-answers s id in
      elim (Reply-cases (redis.find s key_job_queue id).1) [
        | inl (u, hit) ↦ rw (hit, restore_entry) (kept, λ h. ap (listed id) same ∙ present u hit)
        | inr (inr failed) ↦ rw (failed, restore_entry) (kept, λ h. absurd (cc h))
        | inr (inl miss) ↦
            let pushing : Keeps looked (redis.push looked key_job_queue id).0 =
              push-Keeps looked id (ap (listed id) same ∙ absent miss) in
            let both = Keeps-trans s looked (redis.push looked key_job_queue id).0 kept pushing in
            elim (Bool-cases (redis.push looked key_job_queue id).1) [
              | inl done ↦
                  rw (miss, done, restore_entry)
                    (
                      both,
                      λ h.
                          ap (listed id) (laws.push_pushes looked key_job_queue id done)
                          ∙ listed_head id _,
                    )
              | inr broken ↦ rw (miss, broken, restore_entry) (both, λ h. absurd (cc h))
            ]
      ]

  get_job-Keeps : (id : Text) (s : Server redis) → Keeps s (get_job redis id s).0
  unfolding get_job
  get_job-Keeps id s =
      Keeps-same s (redis.values.get s (job_key id)).0 (stored.get_keeps s (job_key id))
        (laws.get_items s (job_key id) key_job_queue)

  pub get_job-found :
      (id : Text) (s : Server redis) (job : DownloadJob)
      → (get_job redis id s).1 ≡ ok job
      → stored.content s (job_key id) ≡ some job
  unfolding get_job job_reply
  get_job-found id s job h = elim (stored.get_reply s (job_key id)) [
    | inl failed ↦ absurd (ground (arith, failed, h))
    | inr answered ↦ elim (Option-cases (stored.content s (job_key id))) [
      | inl nothing ↦ absurd (ground (arith, answered, nothing, h))
      | inr (found_job, e) ↦ ground (arith, answered, e, h)
    ]
  ]

  publish_found_lem :
      (id : Text) (job : DownloadJob) (s : Server redis)
      → Keeps s (publish_found redis id job s).0
        × ((publish_found redis id job s).1 ≡ ok tt
            → (job.status ≡ status_queued) × IsListed id (publish_found redis id job s).0)
  unfolding publish_found
  publish_found_lem id job s = elim (Bool-cases (text_eq job.status status_queued)) [
    | inl queued ↦
        let (kept, there) = restore_entry_lem id s in
        rw (queued, publish_found)
          (kept, λ h. ((text_eq_iff job.status status_queued).0 queued, there h))
    | inr other ↦ rw (other, publish_found) (Keeps-same s s (λ k. refl) refl, λ h. absurd (cc h))
  ]

  -- Whatever errors Redis reports, PublishQueuedRetry changes no job, and lists none twice in a
  -- work list without repetition. If it succeeds, Redis holds the job as a queued one, and its ID
  -- is in the work list.
  pub publish_queued_retry_lem :
      (id : Text) (s : Server redis)
      → Keeps s (publish_queued_retry redis id s).0
        × ((publish_queued_retry redis id s).1 ≡ ok tt
            → ((job : DownloadJob) × (stored.content s (job_key id) ≡ some job)
                × (job.status ≡ status_queued)
                × IsListed id (publish_queued_retry redis id s).0))
  unfolding publish_queued_retry
  publish_queued_retry_lem id s =
      let read = (get_job redis id s).0 in
      let kept = get_job-Keeps id s in
      elim (Result-cases (get_job redis id s).1) [
        | inr (x, e) ↦ rw (e, publish_queued_retry) (kept, λ h. absurd (cc h))
        | inl (job, e) ↦
            let (kept', there) = publish_found_lem id job read in
            rw (e, publish_queued_retry)
              (
                Keeps-trans s read (publish_found redis id job read).0 kept kept',
                λ h.
                    let (queued, listed') = there h in
                    (job, get_job-found id s job e, queued, listed'),
              )
      ]

  resume_with :
      (job : DownloadJob) (r : Server redis × Result (Unit {0}))
      → let r' = resume redis (λ u s'. (s', ok job)) r in
        (r'.0 ≡ r.0) × ((after : DownloadJob) → r'.1 ≡ ok after → (after ≡ job) × (r.1 ≡ ok tt))
  resume_with job (s, ok u) = (refl, λ after h. (cc h, refl))
  resume_with job (s, err e) = (refl, λ after h. absurd (cc h))

  ensure_running :
      (id user : Text) (job : DownloadJob) (s : Server redis)
      → text_eq job.user_id user ≡ true
      → is_terminal job ≡ false
      → ensure_found redis id user job s
        ≡ resume redis (λ u s'. (s', ok job)) (restore_entry redis id s)
  unfolding ensure_found
  ensure_running id user job s own running = ground (arith, own, running)

  ensure_found_lem :
      (id user : Text) (job : DownloadJob) (s : Server redis)
      → Keeps s (ensure_found redis id user job s).0
        × ((after : DownloadJob)
            → (ensure_found redis id user job s).1 ≡ ok after
            → (after ≡ job)
              × (job.user_id ≡ user)
              × (is_terminal job ≡ false → IsListed id (ensure_found redis id user job s).0))
  unfolding ensure_found
  ensure_found_lem id user job s =
      let (kept, there) = restore_entry_lem id s in
      let unchanged = Keeps-same s s (λ k. refl) refl in
      elim (Bool-cases (text_eq job.user_id user)) [
        | inr other ↦ rw (other, ensure_found) (unchanged, λ after h. absurd (cc h))
        | inl own ↦
            let same = (text_eq_iff job.user_id user).0 own in
            elim (Bool-cases (is_terminal job)) [
              | inl ended ↦
                  rw (own, ended, ensure_found)
                    (unchanged, λ after h. (cc h, same, λ running. absurd (cc running)))
              | inr running ↦
                  let (server, outcome) = resume_with job (restore_entry redis id s) in
                  rw (ensure_running id user job s own running) (
                    subst (Keeps s) (sym server) kept,
                    λ after h.
                        let (returned, restored) = outcome after h in
                        (returned, same, λ r. subst (IsListed id) (sym server) (there restored)),
                  )
            ]
      ]

  -- EnsureCandidateWithID for an ID under which Redis holds a job, whatever errors Redis reports:
  -- no job changes, and none is listed twice in a work list without repetition. If it succeeds it
  -- returns that job, which is the user's, and its ID is in the work list unless it has ended.
  pub ensure_candidate_with_id_lem :
      (fresh : Text) (now : ℕ) (id user : Text) (candidate : SourceCandidate)
      (recording : Option Text) (s : Server redis) (job : DownloadJob)
      → stored.content s (job_key id) ≡ some job
      → let (s', result) = ensure_candidate_with_id redis fresh now id user candidate recording s in
        Keeps s s'
        × ((after : DownloadJob)
            → result ≡ ok after
            → (after ≡ job) × (job.user_id ≡ user) × (is_terminal job ≡ false → IsListed id s'))
  unfolding ensure_candidate_with_id ensure_reply get_job job_reply
  ensure_candidate_with_id_lem fresh now id user candidate recording s job h =
      let read = (redis.values.get s (job_key id)).0 in
      let kept =
        Keeps-same s read (stored.get_keeps s (job_key id))
          (laws.get_items s (job_key id) key_job_queue) in
      elim (stored.get_reply s (job_key id)) [
        | inl failed ↦ rw (failed, ensure_candidate_with_id) (kept, λ after e. absurd (cc e))
        | inr answered ↦
            let (kept', there) = ensure_found_lem id user job read in
            rw (answered, h, ensure_candidate_with_id)
              (Keeps-trans s read (ensure_found redis id user job read).0 kept kept', there)
      ]
