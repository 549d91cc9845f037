-- ===== src/Pool/Retry/Attempts.antt =====
-- Which attempts are made.
use easyp_plugin_server.Common.{
  ℕ, zero, suc, ◌+◌, ◌-◌, ◌≤◌, ◌≡◌, ◌∙◌, ◌⊎◌, inl, inr, not, Bool, true, Option, none, arith,
  Result, ok, err,
}
use easyp_plugin_server.Pool.Retry.{Failure, is_transient, attempt_from, generate_with_retries}

module _ {Response : Type 0} (plugin : ℕ → Result Failure Response)
    (ctx_error : ℕ → Option Failure) where
  -- From one attempt on, so many in a row fail transiently while the caller stays.
  abbrev pub Flaky : ℕ → ℕ → Type 0
  Flaky attempt zero = Unit {0}
  Flaky attempt (suc n) =
      ((e : Failure) × (plugin attempt ≡ err e) × (is_transient e ≡ true))
      × (ctx_error attempt ≡ none)
      × Flaky (suc attempt) n

  attempt_from_calls :
      (left attempt calls retries : ℕ)
      → ((attempt_from plugin ctx_error left attempt calls retries).calls ≤ calls + left + 1)
        × ((attempt_from plugin ctx_error left attempt calls retries).retries ≤ retries + left)
  unfolding attempt_from
  attempt_from_calls zero attempt calls retries = ground arith
  attempt_from_calls (suc left) attempt calls retries =
      ground (arith, attempt_from_calls left (suc attempt) (suc calls) (suc retries))

  attempt_from-Flaky :
      (n left attempt calls retries : ℕ)
      → n ≤ left
      → Flaky attempt n
      → attempt_from plugin ctx_error left attempt calls retries
        ≡ attempt_from plugin ctx_error (left - n) (attempt + n) (calls + n) (retries + n)
  unfolding attempt_from
  attempt_from-Flaky zero left attempt calls retries le f = ground arith
  attempt_from-Flaky (suc n) zero attempt calls retries le f = absurd (omega arith)
  attempt_from-Flaky (suc n) (suc left) attempt calls retries le f =
      ground
        (arith, attempt_from-Flaky n left (suc attempt) (suc calls) (suc retries) (omega arith) f.2)

  -- A result that ends the loop before the attempts are used up.
  abbrev pub settles : Result Failure Response → Bool
  settles (ok response) = true
  settles (err e) = not (is_transient e)

  attempt_from_last :
      (left attempt calls retries : ℕ) (r : Result Failure Response)
      → ctx_error attempt ≡ none
      → plugin attempt ≡ r
      → (settles r ≡ true) ⊎ (left ≡ 0)
      → attempt_from plugin ctx_error left attempt calls retries
        ≡ record { result = r; calls = suc calls; retries = retries }
  unfolding attempt_from
  attempt_from_last zero attempt calls retries r stays e last = ground arith
  attempt_from_last (suc left) attempt calls retries (ok response) stays e last = ground arith
  attempt_from_last (suc left) attempt calls retries (err f) stays e last = ground arith

-- A generation calls the plugin at most once more than the configured retries, and counts at most
-- the configured retries, whatever the plugin and the caller do.
pub generate_with_retries_bounds :
    {Response : Type 0} (plugin : ℕ → Result Failure Response) (ctx_error : ℕ → Option Failure)
    (max_retries : ℕ)
    → ((generate_with_retries plugin ctx_error max_retries).calls ≤ max_retries + 1)
      × ((generate_with_retries plugin ctx_error max_retries).retries ≤ max_retries)
unfolding generate_with_retries
generate_with_retries_bounds plugin ctx_error max_retries =
    omega (arith, attempt_from_calls plugin ctx_error max_retries 1 0 0)

-- After n transient failures in a row while the caller stays, n within the configured retries, the
-- next answer is returned as it is, with n + 1 calls made and n retries counted, if it is a
-- success, an error that is not transient, or the last one allowed.
pub generate_with_retries_result :
    {Response : Type 0} (plugin : ℕ → Result Failure Response) (ctx_error : ℕ → Option Failure)
    (max_retries n : ℕ) (r : Result Failure Response)
    → n ≤ max_retries
    → Flaky plugin ctx_error 1 n
    → ctx_error (1 + n) ≡ none
    → plugin (1 + n) ≡ r
    → (settles plugin ctx_error r ≡ true) ⊎ (n ≡ max_retries)
    → generate_with_retries plugin ctx_error max_retries
      ≡ record { result = r; calls = n + 1; retries = n }
unfolding generate_with_retries
generate_with_retries_result plugin ctx_error max_retries n r le f stays e last =
    attempt_from-Flaky plugin ctx_error n max_retries 1 0 0 le f
    ∙ (attempt_from_last plugin ctx_error (max_retries - n) (1 + n) (0 + n) (0 + n) r stays e
          (elim last [ inl s ↦ inl s | inr m ↦ inr (omega arith) ])
        ∙ ground arith)
