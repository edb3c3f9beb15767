-- ===== src/Research/Traces.antt =====
-- backend/internal/research/state.go: the histories of a job and of a run that TransitionJob and
-- TransitionRun allow.
use open_music_player.Prelude.{ℕ, suc, ◌≡◌, ◌≢◌, refl, ◌⊎◌, inl, inr, true, arith}
use open_music_player.Research.Types.{
  JobStatus, job_queued, job_running, job_cancel_requested, job_completed, job_degraded,
  job_cancelled, unknown_job, job_terminal, RunStatus, run_terminal, ok,
}
use open_music_player.Research.State.{job_transitions, transition_job, transition_run}

-- The jobs' histories, with the numbers of claims (a worker starts to run) and of retries (back in
-- the queue) in them.
pub data History : JobStatus → ℕ → ℕ → Type 0 where
  created : History job_queued 0 0
  claimed :
      {s : JobStatus} {c r : ℕ}
      → History s c r
      → transition_job s job_running ≡ ok tt
      → History job_running (suc c) r
  retried :
      {s : JobStatus} {c r : ℕ}
      → History s c r
      → transition_job s job_queued ≡ ok tt
      → History job_queued c (suc r)
  moved :
      {s t : JobStatus} {c r : ℕ}
      → History s c r
      → transition_job s t ≡ ok tt
      → t ≢ job_running
      → t ≢ job_queued
      → History t c r

transition_job-allowed : (s t : JobStatus) → transition_job s t ≡ ok tt → job_transitions s t ≡ true
unfolding transition_job
transition_job-allowed s t h = ground (arith, h)

-- How the claims stand to the retries in each status.
abbrev pub Balance : JobStatus → ℕ → ℕ → Type 0
Balance job_queued c r = c ≡ r
Balance job_running c r = c ≡ suc r
Balance job_cancel_requested c r = c ≡ suc r
Balance job_completed c r = c ≡ suc r
Balance job_degraded c r = c ≡ suc r
Balance job_cancelled c r = (c ≡ r) ⊎ (c ≡ suc r)
Balance (unknown_job s) c r = Unit {0}

claim-Balance :
    (s : JobStatus) (c r : ℕ) → job_transitions s job_running ≡ true → Balance s c r → suc c ≡ suc r
unfolding job_transitions
claim-Balance job_queued c r h b = omega (arith, b)
claim-Balance job_running c r h b = absurd (cc h)
claim-Balance job_cancel_requested c r h b = absurd (cc h)
claim-Balance job_completed c r h b = absurd (cc h)
claim-Balance job_degraded c r h b = absurd (cc h)
claim-Balance job_cancelled c r h b = absurd (cc h)
claim-Balance (unknown_job s) c r h b = absurd (cc h)

retry-Balance :
    (s : JobStatus) (c r : ℕ) → job_transitions s job_queued ≡ true → Balance s c r → c ≡ suc r
unfolding job_transitions
retry-Balance job_queued c r h b = absurd (cc h)
retry-Balance job_running c r h b = absurd (cc h)
retry-Balance job_cancel_requested c r h b = absurd (cc h)
retry-Balance job_completed c r h b = absurd (cc h)
retry-Balance job_degraded c r h b = b
retry-Balance job_cancelled c r h b = absurd (cc h)
retry-Balance (unknown_job s) c r h b = absurd (cc h)

move-Balance :
    (s t : JobStatus) (c r : ℕ)
    → job_transitions s t ≡ true
    → t ≢ job_running
    → t ≢ job_queued
    → Balance s c r
    → Balance t c r
unfolding job_transitions
move-Balance job_queued job_running c r h a b x = absurd (a refl)
move-Balance job_queued job_cancelled c r h a b x = inl x
move-Balance job_running job_cancel_requested c r h a b x = x
move-Balance job_running job_completed c r h a b x = x
move-Balance job_running job_degraded c r h a b x = x
move-Balance job_cancel_requested job_cancelled c r h a b x = inr x
move-Balance job_degraded job_queued c r h a b x = absurd (b refl)
move-Balance _ _ c r h a b x = absurd (cc h)

-- In every history that TransitionJob allows, a queued job has been claimed as often as retried, a
-- running, cancelling, completed or degraded one once more, and a cancelled one as often or once
-- more.
pub history_lem : (s : JobStatus) (c r : ℕ) → History s c r → Balance s c r
history_lem _ _ _ created = refl
history_lem _ _ _ (claimed {s} {c} {r} before h) =
    claim-Balance s c r (transition_job-allowed s job_running h) (history_lem s c r before)
history_lem _ _ _ (retried {s} {c} {r} before h) =
    retry-Balance s c r (transition_job-allowed s job_queued h) (history_lem s c r before)
history_lem _ _ _ (moved {s} {t} {c} {r} before h a b) =
    move-Balance s t c r (transition_job-allowed s t h) a b (history_lem s c r before)

terminal_moves :
    (s t : JobStatus)
    → job_transitions s t ≡ true
    → job_terminal s ≡ true
    → (s ≡ job_degraded) × (t ≡ job_queued)
unfolding job_transitions job_terminal
terminal_moves job_degraded job_queued h e = (refl, refl)
terminal_moves job_queued t h e = absurd (cc e)
terminal_moves job_running t h e = absurd (cc e)
terminal_moves job_cancel_requested t h e = absurd (cc e)
terminal_moves (unknown_job x) t h e = absurd (cc e)
terminal_moves _ _ h e = absurd (cc h)

-- The only transition out of a terminal status is the retry of a degraded job: a completed and a
-- cancelled job keep their status.
pub transition_job_lem :
    (s t : JobStatus)
    → transition_job s t ≡ ok tt
    → job_terminal s ≡ true
    → (s ≡ job_degraded) × (t ≡ job_queued)
transition_job_lem s t h = terminal_moves s t (transition_job-allowed s t h)

-- Where TransitionRun accepts a change of a run's status, it accepts no change of the new status.
pub transition_run_once :
    (a b c : RunStatus) → transition_run a b ≡ ok tt → transition_run b c ≢ ok tt
unfolding transition_run run_terminal
transition_run_once a b c h = ground (arith, h)
