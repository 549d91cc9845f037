-- ===== src/Sdk/Retry.antt =====
-- sdk/retry.go: calls repeated while the server is unavailable, and the delays between them.
pub mod Answers
pub mod Delays
use easyp_plugin_server.Common.{
  ℕ, zero, suc, ◌+◌, ◌-◌, ◌*◌, ◌/◌, ◌^◌, Bool, true, false, not, ◌&&◌, Option, none, some, Result,
  ok, err, ltb, leb, if◌then◌else◌, ℤ, pos, negsuc, less, minus, times, wrap64, not_positive,
  magnitude,
}
use easyp_plugin_server.Api.Status.{Code}

-- An error of a call: a gRPC status, or any other error.
pub data CallError : Type 0 where
  status : Code → CallError
  other : CallError

abbrev pub is_unavailable : Code → Bool
is_unavailable Code.unavailable = true
is_unavailable _ = false

unfoldable pub is_transient : CallError → Bool
is_transient (status code) = is_unavailable code
is_transient other = false

-- How an intercepted call ended, and how often the server was called.
pub record Call : Type 0 where
  pub result : Result CallError (Unit {0})
  pub calls : ℕ

module _ (invoker : ℕ → Result CallError (Unit {0})) (ended : ℕ → Option CallError) where
  -- The attempts from one on, `left` of them behind it. `invoker n` answers attempt n, and
  -- `ended n` is the context's error if it ends during the delay behind that attempt.
  unfoldable pub retry_from : ℕ → ℕ → ℕ → Call
  unfolding is_transient
  retry_from zero attempt calls = record { result = invoker attempt; calls = suc calls }
  retry_from (suc left) attempt calls =
      let again = retry_from left (suc attempt) (suc calls) in
      elim (invoker attempt) [
        | ok u ↦ record { result = ok u; calls = suc calls }
        | err e ↦
            if not (is_transient e)
            then record { result = err e; calls = suc calls }
            else elim (ended attempt) [
              | some c ↦ record { result = err c; calls = suc calls }
              | none ↦ again
            ]
      ]

  -- A negative number of retries makes no attempt, and leaves lastErr nil.
  unfoldable pub retry : ℤ → Call
  unfolding retry_from
  retry (pos max_retries) = retry_from max_retries 0 0
  retry (negsuc n) = record { result = ok tt; calls = 0 }

abbrev pub max_shift : ℕ
max_shift = 62

-- baseDelay << attempt, in 64 bits, where it is positive and below the ceiling.
unfoldable pub capped_delay : ℤ → ℤ → ℕ → ℤ
unfolding wrap64
capped_delay base_delay max_delay attempt =
    let shifted = wrap64 (times base_delay (2 ^ attempt)) in
    if ltb attempt max_shift && (less (pos 0) shifted && less shifted max_delay)
    then shifted
    else max_delay

-- `random` is rand.Int64N, which panics, here `none`, unless its argument is positive. Go's
-- division rounds towards zero.
unfoldable pub add_jitter : (ℕ → ℕ) → ℤ → ℤ → Option ℤ
unfolding wrap64
add_jitter random max_delay (pos n) =
    let delay = wrap64 (pos (n + random (n / 4 + 1))) in
    some (if less max_delay delay then max_delay else delay)
add_jitter random max_delay (negsuc n) =
    if leb 4 (suc n) then none else some (if less max_delay (negsuc n) then max_delay else negsuc n)

unfoldable pub backoff_delay : (ℕ → ℕ) → ℤ → ℤ → ℕ → Option ℤ
unfolding capped_delay add_jitter
backoff_delay random base_delay max_delay attempt =
    add_jitter random max_delay (capped_delay base_delay max_delay attempt)
