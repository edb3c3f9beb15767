-- ===== src/Download/Order.antt =====
-- backend/internal/download/queue.go: enqueueJob adds to one end of the work list, Dequeue takes from
-- the other.
use open_music_player.Prelude.{
  ℕ, ◌≡◌, refl, ap, ◌∙◌, sym, inl, inr, some, [], ◌∷◌, ◌++◌, Text, Bool-cases, arith,
}
use open_music_player.Redis.Queueing.{Queueing, QueueingLaws}
use open_music_player.Download.Job.{DownloadJob, ok}
use open_music_player.Download.Update.{key_job_queue, job_key, fresh_job}
use open_music_player.Download.Queue.{Server, save_job, push_new, enqueue_job, dequeue, get_job}
use open_music_player.Download.Entries.{get_job-found, Reply-cases}

module _ {redis : Queueing DownloadJob} (laws : QueueingLaws redis) where
  open laws use {stored, items}

  push_new_lem :
      (job made : DownloadJob) (s : Server redis)
      → (push_new redis job s).1 ≡ ok made
      → (made ≡ job)
        × (stored.content (push_new redis job s).0 (job_key job.id)
            ≡ stored.content s (job_key job.id))
        × (items (push_new redis job s).0 key_job_queue ≡ job.id ∷ items s key_job_queue)
  unfolding push_new
  push_new_lem job made s h = elim (Bool-cases (redis.push s key_job_queue job.id).1) [
    | inr failed ↦ absurd (ground (arith, failed, h))
    | inl pushed ↦
        rw (pushed, push_new)
          (
            ground (arith, pushed, h),
            laws.push_content s key_job_queue job.id (job_key job.id),
            laws.push_pushes s key_job_queue job.id pushed,
          )
  ]

  -- When an enqueue succeeds, whatever other errors Redis could report, Redis holds the new job, and
  -- the work list is as before with the job's ID in front.
  pub enqueue_job_lem :
      (fresh : Text) (now : ℕ) (job made : DownloadJob) (s : Server redis)
      → (enqueue_job redis fresh now job s).1 ≡ ok made
      → let after = (enqueue_job redis fresh now job s).0 in
        (made ≡ fresh_job fresh now job)
        × (stored.content after (job_key made.id) ≡ some made)
        × (items after key_job_queue ≡ made.id ∷ items s key_job_queue)
  unfolding enqueue_job save_job
  enqueue_job_lem fresh now job made s h =
      let new = fresh_job fresh now job in
      let key = job_key new.id in
      let saved = (redis.values.put s key new).0 in
      elim (Bool-cases (redis.values.put s key new).1) [
        | inr failed ↦ absurd (ground (arith, failed, h))
        | inl written ↦
            let run : (push_new redis new saved).1 ≡ ok made = ground (arith, written, h) in
            let (same, kept, front) = push_new_lem new made saved run in
            rw (written, enqueue_job, same)
              (
                refl,
                kept ∙ stored.put_stores s key new written,
                front ∙ ap (◌∷◌ new.id) (laws.put_items s key key_job_queue new),
              )
      ]

  -- When Dequeue succeeds, it has taken the last ID of the work list, the one that waited longest,
  -- and returns the job that Redis held under it.
  pub dequeue_lem :
      (job : DownloadJob) (s : Server redis)
      → (dequeue redis s).1 ≡ ok job
      → (id : Text) × (items s key_job_queue ≡ items (dequeue redis s).0 key_job_queue ++ (id ∷ []))
        × (stored.content s (job_key id) ≡ some job)
  unfolding dequeue
  dequeue_lem job s h =
      let popped = (redis.pop s key_job_queue).0 in
      elim (Reply-cases (redis.pop s key_job_queue).1) [
        | inr (inl empty) ↦ absurd (ground (arith, empty, h))
        | inr (inr failed) ↦ absurd (ground (arith, failed, h))
        | inl (id, hit) ↦
            let run : (get_job redis id popped).1 ≡ ok job = ground (arith, hit, h) in
            let list : items (get_job redis id popped).0 key_job_queue
                ≡ items popped key_job_queue =
              unfold get_job in laws.get_items popped (job_key id) key_job_queue in
            rw (hit, dequeue)
              (
                id,
                laws.pop_found s key_job_queue id hit ∙ ap (λ l. l ++ (id ∷ [])) (sym list),
                sym (laws.pop_content s key_job_queue (job_key id))
                    ∙ get_job-found laws id popped job run,
              )
      ]
