-- ===== src/Audit/Worker/Retry.antt =====
-- How a batch write ends, and what it costs.
use easyp_plugin_server.Common.{ℕ, zero, suc, ◌+◌, ◌-◌, ◌*◌, ◌^◌, ◌≤◌, ◌≡◌, Bool, false, arith}
use native.Mathlib.Nat.{pow-suc}
use easyp_plugin_server.Audit.Worker.{
  Worker, Attempt, saved, failed, stored, save_error, retry_base_delay, save_from, save_with_retry,
}

-- The attempts fail and nothing stops the loop, from one attempt on, so many times.
abbrev pub FailsFor : (ℕ → Attempt) → (ℕ → Bool) → ℕ → ℕ → Type 0
FailsFor store stopped attempt zero = Unit {0}
FailsFor store stopped attempt (suc n) =
    (store attempt ≡ failed) × (stopped attempt ≡ false) × FailsFor store stopped (suc attempt) n

pow_pos : (n : ℕ) → 1 ≤ 2 ^ n
pow_pos zero = omega arith
pow_pos (suc n) = omega (arith, pow-suc 2 n, pow_pos n)

scaled : (d p : ℕ) → 1 ≤ p → d + d * 2 * (p - 1) ≡ d * (p * 2 - 1)
scaled d zero h = absurd (omega arith)
scaled d (suc q) h = rw (pred_suc q, pred_double q) (omega arith)
  where
    pred_suc : (q : ℕ) → suc q - 1 ≡ q
    pred_suc q = omega arith

    pred_double : (q : ℕ) → suc q * 2 - 1 ≡ q * 2 + 1
    pred_double q = omega arith

doubling : (d n : ℕ) → d + d * 2 * (2 ^ n - 1) ≡ d * (2 ^ suc n - 1)
doubling d n = rw (pow-suc 2 n) (scaled d (2 ^ n) (pow_pos n))

module _ (store : ℕ → Attempt) (stopped : ℕ → Bool) where
  save_from_recovers :
      (n left attempt delay failures waited : ℕ)
      → n ≤ left
      → FailsFor store stopped attempt n
      → store (attempt + n) ≡ saved
      → save_from store stopped left attempt delay failures waited
        ≡ (stored, failures + n, waited + delay * (2 ^ n - 1))
  unfolding save_from
  save_from_recovers zero zero attempt delay failures waited le f good = ground arith
  save_from_recovers zero (suc left) attempt delay failures waited le f good = ground arith
  save_from_recovers (suc n) zero attempt delay failures waited le f good = absurd (omega arith)
  save_from_recovers (suc n) (suc left) attempt delay failures waited le f good = ground (
    arith,
    save_from_recovers n left (suc attempt) (delay * 2) (suc failures) (waited + delay)
        (omega arith) f.2,
    doubling delay n,
  )

  save_from_exhausts :
      (left attempt delay failures waited : ℕ)
      → FailsFor store stopped attempt left
      → store (attempt + left) ≡ failed
      → save_from store stopped left attempt delay failures waited
        ≡ (save_error, failures + left + 1, waited + delay * (2 ^ left - 1))
  unfolding save_from
  save_from_exhausts zero attempt delay failures waited f bad = ground arith
  save_from_exhausts (suc left) attempt delay failures waited f bad = ground (
    arith,
    save_from_exhausts left (suc attempt) (delay * 2) (suc failures) (waited + delay) f.2,
    doubling delay left,
  )

-- A batch write that fails n times, n within the configured retries, without the context ending
-- in between, and then succeeds, is stored; it counts n failures and waits the base delay times
-- 2^n - 1 in all.
pub save_with_retry_recovers :
    (w : Worker) (store : ℕ → Attempt) (stopped : ℕ → Bool) (n : ℕ)
    → n ≤ w.cfg.max_save_retries
    → FailsFor store stopped 0 n
    → store n ≡ saved
    → save_with_retry w store stopped ≡ (stored, n, retry_base_delay * (2 ^ n - 1))
unfolding save_with_retry
save_with_retry_recovers w store stopped n le f good =
    ground
      (arith, save_from_recovers store stopped n w.cfg.max_save_retries 0 retry_base_delay 0 0 le f)

-- A batch write whose every attempt fails without the context ending in between ends in an error
-- after one attempt more than the configured retries, each of them counted.
pub save_with_retry_exhausts :
    (w : Worker) (store : ℕ → Attempt) (stopped : ℕ → Bool)
    → FailsFor store stopped 0 w.cfg.max_save_retries
    → store w.cfg.max_save_retries ≡ failed
    → save_with_retry w store stopped ≡ (
      save_error,
      w.cfg.max_save_retries + 1,
      retry_base_delay * (2 ^ w.cfg.max_save_retries - 1),
    )
unfolding save_with_retry
save_with_retry_exhausts w store stopped f bad =
    ground (arith, save_from_exhausts store stopped w.cfg.max_save_retries 0 retry_base_delay 0 0 f)
