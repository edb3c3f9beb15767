-- ===== src/Errors/Attempts.antt =====
-- backend/internal/errors/retry.go: how often Retry calls its function, and what it returns.
use open_music_player.Prelude.{
  ℕ, zero, suc, ◌+◌, ◌≤◌, ◌≡◌, refl, ap, ◌∙◌, sym, ◌⊎◌, inl, inr, true, none, arith, Bool-cases,
  Option-cases, pos,
}
use open_music_player.Errors.AppError.{AnyError}
use open_music_player.Errors.Retry.{
  Returned, value, failure, Env, is_retryable_error, attempts_from, retry_with_result,
}

Returned-cases :
    {T : Type 0} (r : Returned T) → ((v : T) × (r ≡ value v)) ⊎ ((e : AnyError) × (r ≡ failure e))
Returned-cases (value v) = inl (v, refl)
Returned-cases (failure e) = inr (e, refl)

-- A world that counts the calls.
pub record Counter {W : Type 0} {T : Type 0} (env : Env W T) : Type 0 where
  pub calls : W → ℕ
  pub call_counts : (w : W) → calls (env.call w).0 ≡ suc (calls w)
  pub wait_keeps : (n : ℕ) (w : W) → calls (env.wait n w).0 ≡ calls w

module _ {W : Type 0} {T : Type 0} {env : Env W T} (counter : Counter env) where
  open counter use {calls}

  attempts_bounded :
      (left attempt : ℕ) (w : W) → calls (attempts_from env left attempt w).0 ≤ calls w + suc left
  unfolding attempts_from
  attempts_bounded zero attempt w = ground (arith, counter.call_counts w)
  attempts_bounded (suc left) attempt w =
      let called = (env.call w).0 in
      let waited = (env.wait attempt called).0 in
      ground (
        arith,
        counter.call_counts w,
        counter.wait_keeps attempt called,
        attempts_bounded left (suc attempt) waited,
      )

  -- With a maximum of retries that is not negative, RetryWithResult calls its function at most once
  -- more than the maximum.
  pub retry_bounded :
      (zero_value : T) (max : ℕ) (w : W)
      → calls (retry_with_result env zero_value (pos max) w).0 ≤ calls w + suc max
  unfolding retry_with_result
  retry_bounded zero_value max w = attempts_bounded max 0 w

  attempts_exhaust :
      (left attempt : ℕ) (w : W)
      → ((u : W) → env.context_error u ≡ none)
      → ((n : ℕ) (u : W) → (env.wait n u).1 ≡ none)
      → ((u : W) → (e : AnyError) × ((env.call u).1 ≡ failure e) × (is_retryable_error e ≡ true))
      → (calls (attempts_from env left attempt w).0 ≡ calls w + suc left)
        × ((e : AnyError) × ((attempts_from env left attempt w).1 ≡ failure e))
  unfolding attempts_from
  attempts_exhaust zero attempt w context wait fails =
      let (e, failed, again) = fails w in
      (ground (arith, context w, counter.call_counts w), (e, ground (arith, context w, failed)))
  attempts_exhaust (suc left) attempt w context wait fails =
      let called = (env.call w).0 in
      let waited = (env.wait attempt called).0 in
      let (e, failed, again) = fails w in
      let (count, (x, rest)) = attempts_exhaust left (suc attempt) waited context wait fails in
      (
        ground (
          arith,
          context w,
          failed,
          again,
          wait attempt called,
          counter.call_counts w,
          counter.wait_keeps attempt called,
          count,
        ),
        (x, ground (arith, context w, failed, again, wait attempt called, rest)),
      )

  -- If the context lasts and every call fails with a retryable error, RetryWithResult calls its
  -- function exactly once more than the maximum of retries, and returns an error.
  pub retry_exhausts :
      (zero_value : T) (max : ℕ) (w : W)
      → ((u : W) → env.context_error u ≡ none)
      → ((n : ℕ) (u : W) → (env.wait n u).1 ≡ none)
      → ((u : W) → (e : AnyError) × ((env.call u).1 ≡ failure e) × (is_retryable_error e ≡ true))
      → (calls (retry_with_result env zero_value (pos max) w).0 ≡ calls w + suc max)
        × ((e : AnyError) × ((retry_with_result env zero_value (pos max) w).1 ≡ failure e))
  unfolding retry_with_result
  retry_exhausts zero_value max w = attempts_exhaust max 0 w

module _ {W : Type 0} {T : Type 0} (env : Env W T) where
  attempts_value :
      (left attempt : ℕ) (w : W) (v : T)
      → (attempts_from env left attempt w).1 ≡ value v
      → (u : W) × (env.call u ≡ attempts_from env left attempt w)
  unfolding attempts_from
  attempts_value zero attempt w v h = elim (Option-cases (env.context_error w)) [
    | inr (e, over) ↦ absurd (ground (arith, over, h))
    | inl open_ ↦ (w, ground (arith, open_))
  ]
  attempts_value (suc left) attempt w v h =
      let called = (env.call w).0 in
      let waited = (env.wait attempt called).0 in
      elim (Option-cases (env.context_error w)) [
        | inr (e, over) ↦ absurd (ground (arith, over, h))
        | inl lasts ↦ elim (Returned-cases (env.call w).1) [
          | inl (x, done) ↦ (w, ground (arith, lasts, done))
          | inr (e, failed) ↦ elim (Bool-cases (is_retryable_error e)) [
            | inr final ↦ absurd (ground (arith, lasts, failed, final, h))
            | inl again ↦ elim (Option-cases (env.wait attempt called).1) [
              | inr (x, over) ↦ absurd (ground (arith, lasts, failed, again, over, h))
              | inl waits ↦
                  let same : attempts_from env (suc left) attempt w
                      ≡ attempts_from env left (suc attempt) waited =
                    ground (arith, lasts, failed, again, waits) in
                  let (u, e') =
                    attempts_value left (suc attempt) waited v (ap (λ r. r.1) (sym same) ∙ h) in
                  (u, e' ∙ sym same)
            ]
          ]
        ]
      ]

  -- A value that RetryWithResult returns is that of a call, and the world is the one which that
  -- call left: after a success it does nothing more.
  pub retry_value :
      (zero_value : T) (max : ℕ) (w : W) (v : T)
      → (retry_with_result env zero_value (pos max) w).1 ≡ value v
      → (u : W) × (env.call u ≡ retry_with_result env zero_value (pos max) w)
  unfolding retry_with_result
  retry_value zero_value max w v h = attempts_value max 0 w v h
