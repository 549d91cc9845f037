-- ===== src/Tests/Pool.antt =====
-- The pool's limiter over a counting semaphore of one slot, and a plugin that recovers.
use easyp_plugin_server.Common.{
  ℕ, zero, suc, ◌≤◌, ◌≡◌, refl, Bool, true, false, [], ◌∷◌, codes, arith, Result, ok, err,
}
use easyp_plugin_server.Core.Errors.{generation_failed}
use easyp_plugin_server.Pool.Limiter.{
  Semaphore, arriving, admitted, running, try_slot, run, new_gen_limiter,
}
use easyp_plugin_server.Pool.Limiter.Bound.{
  System, Reach, start, next, arrive, move, total, runs, limiter_bounds,
}
use easyp_plugin_server.Pool.Retry.{Failure}

-- Free or taken.
abbrev Taking : ℕ → Bool → ℕ → Type 0
Taking s true t = (s ≡ 0) × (t ≡ 1)
Taking s false t = t ≡ s

taken_up : {s t : ℕ} → Taking s true t → (t ≡ suc s) × (t ≤ 1)
taken_up h = omega arith

abbrev counter : Semaphore 1
counter = record {
  State = ℕ;
  outstanding = λ s. s;
  fresh = 0;
  TryAcquire = Taking;
  Acquire = Taking;
  Release = λ s t. s ≡ suc t;
  outstanding-fresh = refl;
  try_acquired = taken_up;
  try_refused = λ h. h;
  acquired = taken_up;
  gave_up = λ h. h;
  released = λ h. h;
}

abbrev empty : System counter
empty = record { limiter = new_gen_limiter counter 3; callers = [] }

abbrev waiting : System counter
waiting = record empty { callers = arriving ∷ [] }

abbrev taken : System counter
taken = record { limiter = record waiting.limiter { slots = 1 }; callers = admitted ∷ [] }

abbrev busy : System counter
busy = record { limiter = record taken.limiter { active = 1 }; callers = running ∷ [] }

busy-Reach : Reach counter 3 busy
unfolding new_gen_limiter
busy-Reach =
    next
      (next (next start (arrive empty))
        (move waiting [] [] arriving admitted taken.limiter refl (try_slot (refl, refl))))
      (move taken [] [] admitted running busy.limiter refl run)

limiter_bounds_example : total runs busy.callers ≤ 1
limiter_bounds_example = (limiter_bounds counter busy-Reach).0

abbrev refused : Failure
refused = record { chain = generation_failed ∷ []; message = codes "dial: Connection refused" }

abbrev recovers : ℕ → Result Failure ℕ
recovers zero = err refused
recovers (suc zero) = err refused
recovers (suc (suc n)) = ok 7
