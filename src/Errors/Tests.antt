-- ===== src/Errors/Tests.antt =====
-- Runs of the retry loop of backend/internal/errors/retry.go on a world that counts the calls.
use open_music_player.Prelude.{
  ℕ, suc, ◌≡◌, refl, true, none, [], if◌then◌else◌, ltb, codes, pos, negsuc,
}
use open_music_player.Errors.AppError.{AnyError, net, other}
use open_music_player.Errors.Retry.{
  value, failure, Env, is_retryable_error, attempts_from, retry_with_result, contains_text,
  starts_with,
}
use open_music_player.Errors.Attempts.{Counter, retry_exhausts}

-- The service answers 7 from the third call on.
abbrev flaky : Env ℕ ℕ
flaky = record {
  call = λ n. (suc n, if ltb n 2 then failure (net true []) else value 7);
  context_error = λ n. none;
  wait = λ attempt n. (n, none);
}

abbrev flaky_counter : Counter flaky
flaky_counter = record { calls = λ n. n; call_counts = λ n. refl; wait_keeps = λ attempt n. refl }

-- The service never answers.
abbrev down : Env ℕ ℕ
down = record {
  call = λ n. (suc n, failure (net true []));
  context_error = λ n. none;
  wait = λ attempt n. (n, none);
}

abbrev down_counter : Counter down
down_counter = record { calls = λ n. n; call_counts = λ n. refl; wait_keeps = λ attempt n. refl }

abbrev down_fails :
    (n : ℕ) → (e : AnyError) × ((down.call n).1 ≡ failure e) × (is_retryable_error e ≡ true)
down_fails n = (net true [], refl, unfold is_retryable_error in refl)

third_answers : retry_with_result flaky 0 (pos 3) 0 ≡ (3, value 7)
unfolding retry_with_result attempts_from is_retryable_error
third_answers = refl

not_entered : retry_with_result flaky 0 (negsuc 0) 0 ≡ (0, value 0)
unfolding retry_with_result
not_entered = refl

gateway_retried : is_retryable_error (other (codes "HTTP 502 from proxy")) ≡ true
unfolding is_retryable_error contains_text starts_with
gateway_retried = refl

retry_exhausts_example :
    ((retry_with_result down 0 (pos 3) 0).0 ≡ 4)
    × ((e : AnyError) × ((retry_with_result down 0 (pos 3) 0).1 ≡ failure e))
retry_exhausts_example = retry_exhausts down_counter 0 3 0 (λ u. refl) (λ n u. refl) down_fails

third_value : (retry_with_result flaky 0 (pos 3) 0).1 ≡ value 7
unfolding retry_with_result attempts_from is_retryable_error
third_value = refl
