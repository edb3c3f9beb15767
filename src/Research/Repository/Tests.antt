-- ===== src/Research/Repository/Tests.antt =====
-- Runs of the research repository of backend/internal/research on concrete values.
use open_music_player.Prelude.{
  suc, ◌≤◌, ◌≡◌, refl, true, false, none, some, List, [], ◌∷◌, arith, Text, codes, text_eq,
  trim_space, trim_left, is_space,
}
use open_music_player.Research.Types.{CreateInput, any_capability, supports, timeout, Degradation}
use open_music_player.Research.State.{
  validate_create, normalize_variant_assignment, known_variant, bad_cohort, cohort_token,
  token_rest, has_part, has_prefix, secret_like, degradation_retryable, degradation_message,
  validate_degradation, public_degradation, effective_degradation,
}
use open_music_player.Research.Repository.Tables.{
  Db, Repository, Snapshot, Claim, returned, failed, lease_lost, ◌>>=◌,
}
use open_music_player.Research.Repository.Queries.{
  append_event, reserve_budget, acquire_slot, release_slot, reserved, failure_class, set_slot,
  active_runs,
}
use open_music_player.Research.Repository.Loads.{
  load_job, load_snapshot, scan_revisions, last_telemetry, claimed_rows, verify_completable_claim,
}
use open_music_player.Research.Repository.Create.{
  create, insert_job, parse_request, initial_degradation,
}
use open_music_player.Research.Repository.Lease.{
  claim, claim_from, start_run, claim_candidates, claimable, first_per_user, sooner, text_before,
  queued_job,
}
use open_music_player.Research.Repository.Complete.{
  completing, complete_claim, actual_ending, ended_run, ended_job, degrade, retry_claim,
}
use open_music_player.Research.Repository.Calls.{Call, run_call, run_calls, empty_db}
use open_music_player.Research.Repository.Slots.{Sound, takes_slot}
use open_music_player.Research.Repository.Reached.{run_calls-Sound}
use open_music_player.Research.Repository.Budget.{run_calls-reserved}
use open_music_player.Research.Repository.EventLog.{IsNumbered, run_calls-IsNumbered}
use open_music_player.Research.Repository.Fence.{IsLost, complete_claim-IsLost}
use open_music_player.Research.Repository.Idempotent.{create-create, create-key}
use open_music_player.Research.Repository.LostRetry.{degrade-retry_claim}
use open_music_player.Research.Repository.StaleClaim.{claim-stale}
use open_music_player.Research.Repository.Sql.{select_where, count_where}
use open_music_player.Research.Repository.Samples.{
  policy, input, judge, claimed_once, the_claim, first, creates, is_returned, value, value-eq,
}

run_calls-reserved_example :
    reserved ((run_calls policy claimed_once empty_db).budgets (codes "u1") 0) ≤ 2
run_calls-reserved_example = run_calls-reserved policy claimed_once (codes "u1") 0 (omega arith)

run_calls-IsNumbered_example : IsNumbered (codes "j1") (run_calls policy claimed_once empty_db)
run_calls-IsNumbered_example = run_calls-IsNumbered policy claimed_once (codes "j1") (omega arith)

create-create_example :
    create policy 99
      (codes "j8")
      input
      (value (create policy 10 (codes "j9") input empty_db) creates).0
    ≡ returned (value (create policy 10 (codes "j9") input empty_db) creates)
create-create_example =
    create-create policy input 10 99 (codes "j9") (codes "j8") empty_db
      (value (create policy 10 (codes "j9") input empty_db) creates)
      (value-eq (create policy 10 (codes "j9") input empty_db) creates)

abbrev other_input : CreateInput
other_input = record input { id = codes "j2"; retry_safe = false }

creates_again : is_returned (create policy 99 (codes "j8") other_input first.0) ≡ true
unfolding create insert_job parse_request initial_degradation load_job load_snapshot scan_revisions
    last_telemetry append_event reserve_budget validate_create normalize_variant_assignment
    known_variant bad_cohort cohort_token token_rest has_part has_prefix secret_like text_eq
    trim_space trim_left is_space ◌>>=◌ degradation_message degradation_retryable public_degradation
    effective_degradation
creates_again = refl

abbrev second : Db × Snapshot
second = value (create policy 99 (codes "j8") other_input first.0) creates_again

create-key_example : (other_input.request_hash ≡ input.request_hash) × (second.0 ≡ first.0)
create-key_example =
    create-key policy 10 99 (codes "j9") (codes "j8") input other_input empty_db first second
      (value-eq (create policy 10 (codes "j9") input empty_db) creates) refl refl
      (value-eq (create policy 99 (codes "j8") other_input first.0) creates_again)

ends :
    is_returned
      (complete_claim policy 50 the_claim completing (run_calls policy claimed_once empty_db))
    ≡ true
unfolding create insert_job parse_request initial_degradation load_job load_snapshot scan_revisions
    last_telemetry append_event reserve_budget validate_create normalize_variant_assignment
    known_variant bad_cohort cohort_token token_rest has_part has_prefix secret_like text_eq
    trim_space trim_left is_space ◌>>=◌ degradation_message degradation_retryable public_degradation
    effective_degradation complete_claim verify_completable_claim claimed_rows actual_ending
    ended_run ended_job release_slot run_calls run_call claim claim_from claim_candidates claimable
    sooner first_per_user text_before supports any_capability acquire_slot start_run failure_class
ends = refl

abbrev ended : Db × Snapshot
ended =
    value (complete_claim policy 50 the_claim completing (run_calls policy claimed_once empty_db))
      ends

complete_claim-IsLost_example : IsLost policy (run_calls policy [] ended.0) the_claim 60
complete_claim-IsLost_example =
    complete_claim-IsLost policy claimed_once [] 50 60 the_claim completing ended (omega arith) (
      value-eq
        (complete_claim policy 50 the_claim completing (run_calls policy claimed_once empty_db))
        ends)

abbrev late : Degradation
late = record { code = timeout; message = []; retryable = true }

degrades :
    is_returned (degrade policy 50 the_claim late (run_calls policy claimed_once empty_db)) ≡ true
unfolding create insert_job parse_request initial_degradation load_job load_snapshot scan_revisions
    last_telemetry append_event reserve_budget validate_create normalize_variant_assignment
    known_variant bad_cohort cohort_token token_rest has_part has_prefix secret_like text_eq
    trim_space trim_left is_space ◌>>=◌ degradation_message degradation_retryable public_degradation
    effective_degradation complete_claim verify_completable_claim claimed_rows actual_ending
    ended_run ended_job release_slot run_calls run_call claim claim_from claim_candidates claimable
    sooner first_per_user text_before supports any_capability acquire_slot start_run failure_class
    degrade validate_degradation
degrades = refl

abbrev timed_out : Db × Snapshot
timed_out =
    value (degrade policy 50 the_claim late (run_calls policy claimed_once empty_db)) degrades

degrade-retry_claim_example :
    (retry_claim policy 60 the_claim 70 timed_out.0 ≡ failed lease_lost)
    × (degradation_retryable timeout ≡ some true)
degrade-retry_claim_example =
    degrade-retry_claim policy claimed_once 50 60 70 the_claim late timed_out (omega arith) refl (
      value-eq (degrade policy 50 the_claim late (run_calls policy claimed_once empty_db)) degrades)

-- Two workers that saw the first job queued: the other one has it by now.
abbrev wide : Repository
wide = record policy { max_concurrent_runs_per_user = 2 }

abbrev second_input : CreateInput
second_input = record input { id = codes "j2"; owner_id = codes "u2" }

abbrev both_created : Db
both_created =
    run_calls wide
      (Call.create 10 (codes "j9") input ∷ Call.create 11 (codes "j9") second_input ∷ []) empty_db

abbrev raced : Db
raced =
    run_calls wide
      (Call.create 10 (codes "j9") input
        ∷ Call.create 11 (codes "j9") second_input
        ∷ Call.claim both_created (λ id. false) judge 20 (codes "w1") (codes "n1") (codes "t1") 90
        ∷ [])
      empty_db

-- The second worker read both jobs as queued, before the first one claimed.
abbrev stale_calls : List Call
stale_calls =
    Call.create 10 (codes "j9") input
    ∷ Call.create 11 (codes "j9") second_input
    ∷ Call.claim both_created (λ id. false) judge 20 (codes "w1") (codes "n1") (codes "t1") 90
    ∷ Call.claim both_created (λ id. false) judge 21 (codes "w2") (codes "n2") (codes "t2") 95
    ∷ []

run_calls-Sound_example : Sound wide (run_calls wide stale_calls empty_db)
run_calls-Sound_example = run_calls-Sound wide stale_calls (omega arith)

-- The first user has two slots taken and one run.
stale_leaks :
    let after = run_calls wide stale_calls empty_db in
    (active_runs (after.slots (codes "u1")) ≡ 2)
    × (count_where (takes_slot (codes "u1")) after.runs ≡ 1)
unfolding create insert_job parse_request initial_degradation load_job load_snapshot scan_revisions
    last_telemetry append_event reserve_budget validate_create normalize_variant_assignment
    known_variant bad_cohort cohort_token token_rest has_part has_prefix secret_like text_eq
    trim_space trim_left is_space ◌>>=◌ degradation_message degradation_retryable public_degradation
    effective_degradation run_calls run_call claim claim_from claim_candidates claimable sooner
    first_per_user text_before supports any_capability acquire_slot start_run
stale_leaks = (refl, refl)

abbrev seen : List (Text × Text)
seen = (codes "j1", codes "u1") ∷ (codes "j2", codes "u2") ∷ []

claims : is_returned (claim wide judge (codes "w2") (codes "n2") (codes "t2") 95 seen raced) ≡ true
unfolding create insert_job parse_request initial_degradation load_job load_snapshot scan_revisions
    last_telemetry append_event reserve_budget validate_create normalize_variant_assignment
    known_variant bad_cohort cohort_token token_rest has_part has_prefix secret_like text_eq
    trim_space trim_left is_space ◌>>=◌ degradation_message degradation_retryable public_degradation
    effective_degradation run_calls run_call claim claim_from claim_candidates claimable sooner
    first_per_user text_before supports any_capability acquire_slot start_run
claims = refl

abbrev slot_taken : Db
slot_taken = set_slot (codes "u1") 2 raced

takes : acquire_slot wide (codes "u1") raced ≡ some slot_taken
unfolding create insert_job parse_request initial_degradation load_job load_snapshot scan_revisions
    last_telemetry append_event reserve_budget validate_create normalize_variant_assignment
    known_variant bad_cohort cohort_token token_rest has_part has_prefix secret_like text_eq
    trim_space trim_left is_space ◌>>=◌ degradation_message degradation_retryable public_degradation
    effective_degradation run_calls run_call claim claim_from claim_candidates claimable sooner
    first_per_user text_before supports any_capability acquire_slot start_run
takes = refl

outdated : select_where (queued_job (codes "j1")) raced.jobs ≡ none
unfolding create insert_job parse_request initial_degradation load_job load_snapshot scan_revisions
    last_telemetry append_event reserve_budget validate_create normalize_variant_assignment
    known_variant bad_cohort cohort_token token_rest has_part has_prefix secret_like text_eq
    trim_space trim_left is_space ◌>>=◌ degradation_message degradation_retryable public_degradation
    effective_degradation run_calls run_call claim claim_from claim_candidates claimable sooner
    first_per_user text_before supports any_capability acquire_slot start_run
outdated = refl

apart : text_eq (codes "u1") (codes "u2") ≡ false
unfolding text_eq
apart = refl

abbrev leaked : Db × Claim
leaked = value (claim wide judge (codes "w2") (codes "n2") (codes "t2") 95 seen raced) claims

claim-stale_example :
    (active_runs (leaked.0.slots (codes "u1")) ≡ suc (active_runs (raced.slots (codes "u1"))))
    × (count_where (takes_slot (codes "u1")) leaked.0.runs
        ≡ count_where (takes_slot (codes "u1")) raced.runs)
claim-stale_example =
    claim-stale wide judge (codes "w2") (codes "n2") (codes "t2") 95 (codes "j1") (codes "u1")
      ((codes "j2", codes "u2") ∷ []) raced slot_taken leaked (omega arith) takes outdated
      (apart, tt)
      (value-eq (claim wide judge (codes "w2") (codes "n2") (codes "t2") 95 seen raced) claims)
