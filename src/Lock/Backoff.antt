-- ===== src/Lock/Backoff.antt =====
-- internal/lock/lock.go: `retryDelay`, on 64-bit durations.
use deb_s.Prelude.{ℕ, zero, suc, true, false, ℤ, lt_int, double, if◌then◌else◌}

-- The loop, with the number of rounds left.
unfoldable pub grow : ℕ → ℤ → ℤ → ℤ
grow zero delay maximum = delay
grow (suc rounds) delay maximum = elim (lt_int delay maximum) [
  | true ↦ grow rounds (double delay) maximum
  | false ↦ delay
]

abbrev pub min_int : ℤ → ℤ → ℤ
min_int a b = if lt_int b a then b else a

unfoldable pub retry_delay : ℤ → ℤ → ℕ → ℤ
unfolding grow
retry_delay initial maximum zero = min_int initial maximum
retry_delay initial maximum (suc rounds) = min_int (grow rounds initial maximum) maximum
