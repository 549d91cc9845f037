-- ===== src/Pool/Retry.antt =====
-- poolPlugin.Generate of internal/core/pool.go: a generation with its retries and its metrics.
pub mod Attempts
use easyp_plugin_server.Common.{
  ℕ, zero, suc, ◌+◌, ◌==◌, Bool, true, false, not, ◌&&◌, ◌||◌, List, [], ◌∷◌, Option, none, some,
  Text, codes, contains, to_lower, if◌then◌else◌, Result, ok, err, length,
}
use easyp_plugin_server.Core.Errors.{Error, errors_is, deadline_exceeded, server_overloaded}

-- An error of the plugin: what it wraps, and its text, which decides whether it is transient.
pub record Failure : Type 0 where
  pub chain : Error
  pub message : Text

unfoldable pub is_transient : Failure → Bool
unfolding errors_is contains to_lower
is_transient e =
    if errors_is e.chain deadline_exceeded
    then false
    else if contains (to_lower e.message) (codes "connection refused")
    then true
    else contains (to_lower e.message) (codes "temporary failure")

-- How a generation ended, how often the plugin was called, and how many retries were counted.
pub record Run (Response : Type 0) : Type 0 where
  pub result : Result Failure Response
  pub calls : ℕ
  pub retries : ℕ

pub data ErrorType : Type 0 where
  permanent transient : ErrorType

module _ {Response : Type 0} (plugin : ℕ → Result Failure Response)
    (ctx_error : ℕ → Option Failure) where
  -- The attempts from one on, `left` of them behind it. `plugin n` and `ctx_error n` are what the
  -- plugin and the caller's context answer at attempt n, the first being 1.
  unfoldable pub attempt_from : ℕ → ℕ → ℕ → ℕ → Run Response
  unfolding is_transient
  attempt_from zero attempt calls retries = elim (ctx_error attempt) [
    | some e ↦ record { result = err e; calls = calls; retries = retries }
    | none ↦ record { result = plugin attempt; calls = suc calls; retries = retries }
  ]
  attempt_from (suc left) attempt calls retries =
      let again = attempt_from left (suc attempt) (suc calls) (suc retries) in
      elim (ctx_error attempt) [
        | some e ↦ record { result = err e; calls = calls; retries = retries }
        | none ↦ elim (plugin attempt) [
          | ok response ↦ record { result = ok response; calls = suc calls; retries = retries }
          | err e ↦
              if is_transient e
              then again
              else record { result = err e; calls = suc calls; retries = retries }
        ]
      ]

  -- maxAttempts is MaxRetries + 1.
  unfoldable pub generate_with_retries : ℕ → Run Response
  unfolding attempt_from
  generate_with_retries max_retries = attempt_from max_retries 1 0 0

-- The error that is counted: none for a success, nor once the caller has gone.
unfoldable pub counted_error {ℓ} : {A : Type ℓ} → Bool → Result Failure A → Option ErrorType
unfolding is_transient
counted_error caller_gone (ok a) = none
counted_error caller_gone (err e) =
    if caller_gone
    then none
    else some (if is_transient e then ErrorType.transient else ErrorType.permanent)
