-- ===== src/Sdk/Retry/Answers.antt =====
-- What a retried call returns.
use easyp_plugin_server.Common.{
  sym, ap, ◌∙◌, subst, ℕ, zero, suc, ◌+◌, ◌≤◌, ◌≡◌, refl, true, Option, some, Result, ok, err, ◌⊎◌,
  inl, inr, arith, pos, Bool-cases, Option-cases, Result-cases,
}
use easyp_plugin_server.Sdk.Retry.{CallError, Call, is_transient, retry_from, retry}

module _ (invoker : ℕ → Result CallError (Unit {0})) (ended : ℕ → Option CallError) where
  -- The attempts from one on that failed with the server unavailable.
  abbrev pub Unavailable : ℕ → ℕ → Type 0
  Unavailable attempt zero = Unit
  Unavailable attempt (suc n) =
      ((e : CallError) × (invoker attempt ≡ err e) × (is_transient e ≡ true))
      × Unavailable (suc attempt) n

  -- The call stopped behind `failures` failures: with the answer of the next attempt, or with the
  -- context's error.
  pub record Stopped (attempt calls left : ℕ) (c : Call) : Type 0 where
    pub failures : ℕ
    pub within : failures ≤ left
    pub counted : c.calls ≡ calls + failures + 1
    pub unavailable : Unavailable attempt failures
    pub answer :
        (c.result ≡ invoker (attempt + failures))
        ⊎ ((e : CallError) × (ended (attempt + failures) ≡ some e) × (c.result ≡ err e))

  -- An attempt whose answer is the call's.
  at_once :
      {attempt : ℕ} (calls : ℕ) (r : Result CallError (Unit {0})) (left : ℕ)
      → invoker attempt ≡ r
      → Stopped attempt calls left (record { result = r; calls = suc calls })
  at_once {attempt} calls r left a = record {
    failures = 0;
    within = omega arith;
    counted = omega arith;
    unavailable = tt;
    answer = inl (sym a ∙ ap invoker (omega arith));
  }

  retry_from-Stopped :
      (left attempt calls : ℕ)
      → Stopped attempt calls left (retry_from invoker ended left attempt calls)
  unfolding retry_from
  retry_from-Stopped zero attempt calls = record {
    failures = 0;
    within = omega arith;
    counted = omega arith;
    unavailable = tt;
    answer = inl (ap invoker (omega arith));
  }
  retry_from-Stopped (suc left) attempt calls = elim (Result-cases (invoker attempt)) [
    | inl (u, a) ↦ rw (a, retry_from) (at_once calls (ok u) (suc left) a)
    | inr (e, a) ↦ elim (Bool-cases (is_transient e)) [
      | inr t ↦ rw (a, t, retry_from) (at_once calls (err e) (suc left) a)
      | inl t ↦ elim (Option-cases (ended attempt)) [
        | inr (c, b) ↦
            rw (a, t, b, retry_from)
              (record {
                failures = 0;
                within = omega arith;
                counted = omega arith;
                unavailable = tt;
                answer = inr (c, ap ended (omega arith) ∙ b, refl);
              })
        | inl b ↦
            let again = retry_from invoker ended left (suc attempt) (suc calls) in
            let ih = retry_from-Stopped left (suc attempt) (suc calls) in
            rw (a, t, b, retry_from)
              (record {
                failures = suc ih.failures;
                within = omega (arith, ih.within);
                counted = omega (arith, ih.counted);
                unavailable = ((e, a, t), ih.unavailable);
                answer =
                    subst
                      (λ n.
                        (again.result ≡ invoker n)
                        ⊎ ((x : CallError) × (ended n ≡ some x) × (again.result ≡ err x)))
                      (omega arith) ih.answer;
              })
      ]
    ]
  ]

-- A call with retries, as many as are configured and not a negative number, is answered by the
-- server's last answer, or by the error of a context that ended during a delay; all answers before
-- it were that the server is unavailable, and the calls made are these and one more.
pub retry-Stopped :
    (invoker : ℕ → Result CallError (Unit {0})) (ended : ℕ → Option CallError) (max_retries : ℕ)
    → Stopped invoker ended 0 0 max_retries (retry invoker ended (pos max_retries))
unfolding retry
retry-Stopped invoker ended max_retries = retry_from-Stopped invoker ended max_retries 0 0
