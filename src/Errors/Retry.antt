-- ===== src/Errors/Retry.antt =====
-- backend/internal/errors/retry.go: the retry loops. The world holds what the called function and the
-- context change; the wait between attempts and its length, in floating point and with random
-- jitter, are the environment's.
use open_music_player.Prelude.{
  ℕ, zero, suc, ◌+◌, Bool, true, false, ◌&&◌, ◌||◌, Option, none, some, List, [], ◌∷◌, map,
  if◌then◌else◌, leb, ◌==◌, any, Text, codes, ℤ, pos, negsuc,
}
use open_music_player.Errors.AppError.{
  AnyError, app, canceled, deadline_exceeded, net, other, is_retryable,
}

-- `strings.ToLower`, as far as a search for ASCII texts sees it: of the other code points only the
-- Kelvin sign and the dotted capital I have an ASCII lower case.
abbrev pub lower : ℕ → ℕ
lower c =
    if leb b'A' c && leb c b'Z'
    then c + 32
    else if c == 0x212a
    then b'k'
    else if c == 0x130
    then b'i'
    else c

unfoldable pub starts_with : Text → Text → Bool
starts_with s [] = true
starts_with [] (d ∷ p) = false
starts_with (c ∷ s) (d ∷ p) = c == d && starts_with s p

-- `strings.Contains`
unfoldable pub contains_text : Text → Text → Bool
unfolding starts_with
contains_text [] p = starts_with [] p
contains_text (c ∷ s) p = starts_with (c ∷ s) p || contains_text s p

abbrev pub retryable_patterns : List Text
retryable_patterns =
    codes "connection refused"
    ∷ codes "connection reset"
    ∷ codes "timeout"
    ∷ codes "temporary failure"
    ∷ codes "service unavailable"
    ∷ codes "too many requests"
    ∷ codes "rate limit"
    ∷ codes "503"
    ∷ codes "502"
    ∷ codes "504"
    ∷ codes "429"
    ∷ []

unfoldable pub is_retryable_error : AnyError → Bool
unfolding is_retryable contains_text
is_retryable_error (app e) = is_retryable (app e)
is_retryable_error canceled = false
is_retryable_error deadline_exceeded = false
is_retryable_error (net timeout text) = timeout
is_retryable_error (other text) = any (contains_text (map lower text)) retryable_patterns

unfoldable pub http_retryable_status : ℕ → Bool
http_retryable_status status =
    status == 429 || status == 500 || status == 502 || status == 503 || status == 504

pub data Returned (T : Type 0) : Type 0 where
  value : T → Returned T
  failure : AnyError → Returned T

-- The function, ctx.Err(), and the select on ctx.Done() and the timer after an attempt, which gives
-- the context's error if that comes first.
pub record Env (W : Type 0) (T : Type 0) : Type 0 where
  pub call : W → W × Returned T
  pub context_error : W → Option AnyError
  pub wait : ℕ → W → W × Option AnyError

module _ {W : Type 0} {T : Type 0} (env : Env W T) where
  -- The rest of the loop with an attempt and `left` more after it.
  unfoldable pub attempts_from : ℕ → ℕ → W → W × Returned T
  attempts_from zero attempt w = elim (env.context_error w) [
    | some e ↦ (w, failure e)
    | none ↦ env.call w
  ]
  attempts_from (suc left) attempt w = elim (env.context_error w) [
    | some e ↦ (w, failure e)
    | none ↦
        let (called, returned) = env.call w in
        let (waited, ended) = env.wait attempt called in
        let rest = attempts_from left (suc attempt) waited in
        elim returned [
          | value v ↦ (called, value v)
          | failure e ↦
              if is_retryable_error e
              then elim ended [ some x ↦ (waited, failure x) | none ↦ rest ]
              else (called, failure e)
        ]
  ]

  -- RetryWithResult; with a negative maximum the loop is not entered, and the zero value returned
  -- without an error.
  unfoldable pub retry_with_result : T → ℤ → W → W × Returned T
  unfolding attempts_from
  retry_with_result zero_value (pos max) w = attempts_from max 0 w
  retry_with_result zero_value (negsuc n) w = (w, value zero_value)

-- Retry: the same loop around a function that returns an error alone.
unfoldable pub retry : {W : Type 0} → Env W (Unit {0}) → ℤ → W → W × Returned (Unit {0})
unfolding retry_with_result
retry env max w = retry_with_result env tt max w
