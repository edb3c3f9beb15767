-- ===== src/Download/Backoff.antt =====
-- backend/internal/download/worker.go: calculateBackoff and the defaults of NewWorkerPool. Durations
-- are Go's int64 nanoseconds.
use open_music_player.Prelude.{
  ℕ, zero, suc, ◌+◌, ◌-◌, ◌*◌, ◌^◌, ◌%◌, ◌≤◌, min, ◌≡◌, subst, Option, none, some, arith, ltb,
  if◌then◌else◌, ℤ, pos, negsuc, ltb_ℤ,
}

-- The int64 that keeps the low 64 bits.
unfoldable pub wrap_int64 : ℕ → ℤ
wrap_int64 n =
    let low = n % 2 ^ 64 in if ltb low (2 ^ 63) then pos low else negsuc (2 ^ 64 - suc low)

abbrev pub base_backoff : ℕ
base_backoff = 1000000000

abbrev pub max_backoff : ℕ
max_backoff = 300000000000

-- For counts below 63, where the float64 of math.Pow is exact and its conversion defined.
unfoldable pub calculate_backoff : ℕ → ℤ
unfolding wrap_int64
calculate_backoff retry_count =
    let backoff = wrap_int64 (2 ^ retry_count * base_backoff) in
    if ltb_ℤ (pos max_backoff) backoff then pos max_backoff else backoff

pub record PoolConfig : Type 0 where
  pub worker_count : Option ℤ
  pub max_retries : ℤ
  pub job_timeout : ℤ

pub record PoolLimits : Type 0 where
  pub worker_count : ℤ
  pub max_retries : ℤ
  pub job_timeout : ℤ

abbrev default_worker_count : ℤ
default_worker_count = pos 3

abbrev default_max_retries : ℤ
default_max_retries = pos 3

-- Ten minutes.
abbrev default_job_timeout : ℤ
default_job_timeout = pos 600000000000

unfoldable pub worker_count_of : Option ℤ → ℤ
worker_count_of none = default_worker_count
worker_count_of (some count) = if ltb_ℤ count (pos 0) then default_worker_count else count

unfoldable pub limits_of : PoolConfig → PoolLimits
unfolding worker_count_of
limits_of config = record {
  worker_count = worker_count_of config.worker_count;
  max_retries =
      if ltb_ℤ (pos 0) config.max_retries then config.max_retries else default_max_retries;
  job_timeout =
      if ltb_ℤ (pos 0) config.job_timeout then config.job_timeout else default_job_timeout;
}

-- The limits of NewWorkerPool, whose config may be nil.
unfoldable pub pool_limits : Option PoolConfig → PoolLimits
unfolding limits_of
pool_limits none =
    limits_of (record { worker_count = none; max_retries = pos 0; job_timeout = pos 0 })
pool_limits (some config) = limits_of config

pow_grows : (n k m : ℕ) → n + k ≡ m → 2 ^ n ≤ 2 ^ m
pow_grows n zero m e =
    let same : n ≡ m = omega (arith, e) in
    let least : 2 ^ n ≤ 2 ^ n = omega arith in subst (λ x. 2 ^ n ≤ 2 ^ x) same least
pow_grows n (suc k) zero e = absurd (omega (arith, e))
pow_grows n (suc k) (suc m) e = omega (arith, pow_grows n k m (omega (arith, e)))

-- For n up to 33 the backoff of retry n is 2^n seconds or, if that is less, five minutes.
pub calculate_backoff_lem :
    (n : ℕ) → n ≤ 33 → calculate_backoff n ≡ pos (min (2 ^ n * base_backoff) max_backoff)
unfolding calculate_backoff wrap_int64
calculate_backoff_lem n h =
    let bound : 2 ^ n ≤ 2 ^ 33 = pow_grows n (33 - n) 33 (omega (arith, h)) in ground (arith, bound)
