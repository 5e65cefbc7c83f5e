-- ===== src/Supervisor/Delays.antt =====
-- The delay between restarts: `Backoff` of crates/daemon/src/stt_server.rs. Durations are in
-- nanoseconds.
use native.Mathlib.Nat.{mul-le-mul_left, pow-le-pow_right}
use whispy.Base.{
  ℕ, zero, suc, ◌+◌, ◌-◌, ◌*◌, ◌^◌, ◌≤◌, min, ◌≡◌, refl, ap, arith, inl, inr, Bool-cases, leb,
}

-- `Duration::MAX`, and `u32::MAX`.
abbrev pub duration_max : ℕ
duration_max = 18446744073709551615999999999

abbrev pub u32_max : ℕ
u32_max = 4294967295

pub record Backoff : Type 0 where
  pub base : ℕ
  pub cap : ℕ
  pub failures : ℕ

unfoldable pub new : ℕ → ℕ → Backoff
new base limit = record { base = base; cap = limit; failures = 0 }

-- `delay`.
unfoldable pub delay : Backoff → ℕ
delay b = min (min (b.base * 2 ^ min (b.failures - 1) 16) duration_max) b.cap

-- `fail`, less its result, which is the delay behind it.
unfoldable pub fail : Backoff → Backoff
fail b = record b { failures = min (b.failures + 1) u32_max }

-- `reset`.
unfoldable pub reset : Backoff → Backoff
reset b = record b { failures = 0 }

unfoldable pub fail_times : ℕ → Backoff → Backoff
unfolding fail
fail_times zero b = b
fail_times (suc k) b = fail (fail_times k b)

fail_times_failures :
    (k base limit : ℕ)
    → fail_times k (new base limit) ≡ record { base = base; cap = limit; failures = min k u32_max }
unfolding fail_times new
fail_times_failures zero base limit = refl
fail_times_failures (suc k) base limit =
    rw (fail_times_failures k base limit)
      (ap (λ n. record { base = base; cap = limit; failures = n }) (omega arith))

shift : (k : ℕ) → k ≤ 16 → min (min (suc k) u32_max - 1) 16 ≡ k
shift k h = omega arith

shift_full : (k : ℕ) → 16 ≤ k → min (min (suc k) u32_max - 1) 16 ≡ 16
shift_full k h = omega arith

clamped :
    (k base limit : ℕ)
    → limit ≤ base * 2 ^ 16
    → limit ≤ duration_max
    → min (min (base * 2 ^ min (min (suc k) u32_max - 1) 16) duration_max) limit
      ≡ min (base * 2 ^ k) limit
clamped k base limit reach small = elim (Bool-cases (leb k 16)) [
  | inl few ↦ rw (shift k (ground (arith, few))) (omega arith)
  | inr many ↦
      let more : base * 2 ^ 16 ≤ base * 2 ^ k =
        mul-le-mul_left base (pow-le-pow_right (omega arith) {i = 16} (ground (arith, many))) in
      rw (shift_full k (ground (arith, many))) (omega arith)
]

-- After k + 1 failed restarts in a row the delay is the poll interval doubled k times, up to the cap:
-- neither the clamp on the shift nor the ends of `u32` and `Duration` show, for a cap of at most
-- 2^16 poll intervals. It is that of k = 0 again after a restart that came up.
pub delay-fail :
    (k base limit : ℕ)
    → limit ≤ base * 2 ^ 16
    → limit ≤ duration_max
    → (delay (fail_times (suc k) (new base limit)) ≡ min (base * 2 ^ k) limit)
      × (delay (reset (fail_times (suc k) (new base limit))) ≡ min base limit)
unfolding delay reset
delay-fail k base limit reach small =
    rw (fail_times_failures (suc k) base limit) (clamped k base limit reach small, omega arith)
