-- ===== src/Sdk/Retry/Delays.antt =====
-- The bounds of a delay.
use easyp_plugin_server.Common.{
  inl, inr, Bool-cases, lt→ltb, ◌&&◌, ◌%◌, ℕ, ◌+◌, ◌/◌, ◌^◌, ◌≤◌, ◌<◌, ◌≡◌, refl, Bool, true, false,
  some, arith, ℤ, pos, negsuc, less, times, wrap64, if◌then◌else◌, ltb,
}
use easyp_plugin_server.Sdk.Retry.{capped_delay, add_jitter, backoff_delay, max_shift}

wrap64_small : (n : ℕ) → n < 2 ^ 63 → wrap64 (pos n) ≡ pos n
unfolding wrap64
wrap64_small n h = rw (the_same, lt→ltb n (2 ^ 63) h) refl
  where
    the_same : n % 2 ^ 64 ≡ n
    the_same = omega (arith, h)

cap_within :
    (b : Bool) (w : ℤ) (m : ℕ)
    → (k : ℕ) × ((if b && (less (pos 0) w && less w (pos m)) then w else pos m) ≡ pos k) × (k ≤ m)
cap_within false w m = (m, refl, omega arith)
cap_within true (negsuc n) m = (m, refl, omega arith)
cap_within true (pos n) m = elim (Bool-cases (ltb 0 n && ltb n m)) [
  | inl h ↦ (n, rw h refl, ground (arith, h))
  | inr h ↦ (m, rw h refl, omega arith)
]

jitter_within :
    (random : ℕ → ℕ) (k m : ℕ)
    → k ≤ m
    → random (k / 4 + 1) ≤ k / 4
    → m + m / 4 < 2 ^ 63
    → (d : ℕ) × (add_jitter random (pos m) (pos k) ≡ some (pos d)) × (d ≤ m)
unfolding add_jitter
jitter_within random k m le r small =
    let whole = wrap64_small (k + random (k / 4 + 1)) (omega (arith, le, r, small)) in
    elim (Bool-cases (ltb m (k + random (k / 4 + 1)))) [
      | inl h ↦ (m, rw (whole, h) refl, omega arith)
      | inr h ↦ (k + random (k / 4 + 1), rw (whole, h) refl, ground (arith, h))
    ]

-- Whatever the base delay and however large the attempt, a delay is computed without a panic, and
-- it is not negative nor above the ceiling, as long as a quarter more than the ceiling is an int64.
pub backoff_delay_bounds :
    (random : ℕ → ℕ) (base_delay : ℤ) (m attempt : ℕ)
    → ((n : ℕ) → random (n + 1) ≤ n)
    → m + m / 4 < 2 ^ 63
    → (d : ℕ) × (backoff_delay random base_delay (pos m) attempt ≡ some (pos d)) × (d ≤ m)
unfolding backoff_delay capped_delay
backoff_delay_bounds random base_delay m attempt r small =
    let (k, capped, le) =
      cap_within (ltb attempt max_shift) (wrap64 (times base_delay (2 ^ attempt))) m in
    rw (capped) (jitter_within random k m le (r (k / 4)) small)
