-- ===== src/Research/Backoff.antt =====
-- backend/internal/research/worker.go: the length of the wait before a retry.
use open_music_player.Prelude.{ℕ, zero, suc, ◌+◌, ◌*◌, ◌/◌, ◌≤◌, ◌≡◌, refl, min, ℤ, arith}
use open_music_player.Research.Worker.{Worker, grow, rounds, backoff}

-- `d` times 2^n
unfoldable pub doubled : ℕ → ℕ → ℕ
doubled zero d = d
doubled (suc n) d = doubled n (d * 2)

doubled-grows : (n d : ℕ) → d ≤ doubled n d
unfolding doubled
doubled-grows zero d = omega arith
doubled-grows (suc n) d = omega (arith, doubled-grows n (d * 2))

grow-doubled : (maximum n d : ℕ) → min (grow maximum n d) maximum ≡ min (doubled n d) maximum
unfolding grow doubled
grow-doubled maximum zero d = refl
grow-doubled maximum (suc n) d =
    ground (arith, grow-doubled maximum n (d * 2), doubled-grows n (d * 2))

-- Before the jitter the wait is the base, doubled for each attempt, up to the maximum. The jitter,
-- whatever it returns, adds at most a quarter of that and does not go past the maximum, nor does
-- it shorten the wait.
pub backoff_lem :
    (w : Worker) (jitter : ℕ → ℤ) (attempt : ℤ)
    → (min (doubled (rounds attempt) w.base) w.maximum ≤ backoff w jitter attempt)
      × (backoff w jitter attempt
          ≤ min (doubled (rounds attempt) w.base) w.maximum
            + min (doubled (rounds attempt) w.base) w.maximum / 4)
      × (backoff w jitter attempt ≤ w.maximum)
unfolding backoff
backoff_lem w jitter attempt =
    let whole = grow-doubled w.maximum (rounds attempt) w.base in
    (ground (arith, whole), ground (arith, whole), ground (arith, whole))
