-- ===== src/RateLimit/Concurrency.antt =====
-- internal/ratelimiter/concurrency.go: how many requests one client may have in flight.
pub mod Bound
use easyp_plugin_server.Common.{
  ℕ, suc, ◌-◌, ◌+◌, Bool, true, false, not, ◌||◌, List, [], ◌∷◌, Option, none, some, Text, text_eq,
  length, leb, if◌then◌else◌, ℤ, not_positive, magnitude, lookup, insert, delete,
}
use easyp_plugin_server.Core.Domain.{Feature, FeatureGate}
use easyp_plugin_server.Core.Service.{allows}

pub record ConcurrencyLimiter : Type 0 where
  pub limit : ℤ
  pub gate : Option FeatureGate
  pub in_flight : List (Text × ℕ)
  -- the two metrics
  pub rejected : ℕ
  pub active : ℕ

unfoldable pub new_concurrency_limiter : ℤ → Option FeatureGate → ConcurrencyLimiter
new_concurrency_limiter limit gate = record {
  limit = limit;
  gate = gate;
  in_flight = [];
  rejected = 0;
  active = 0;
}

-- inFlight[key]: an absent key counts 0.
unfoldable pub flying : Text → List (Text × ℕ) → ℕ
flying key m = elim (lookup key m) [ none ↦ 0 | some n ↦ n ]

-- The slot that a request holds: none where the limiter lets it pass uncounted.
pub data Slot : Type 0 where
  uncounted : Slot
  held : Text → Slot

-- `none` is the refusal.
unfoldable pub acquire : Text → ConcurrencyLimiter → Option Slot × ConcurrencyLimiter
unfolding flying allows
acquire key c =
    if not_positive c.limit || not (allows c.gate Feature.rate_limiting) || text_eq key []
    then (some uncounted, c)
    else if leb (magnitude c.limit) (flying key c.in_flight)
    then (none, c)
    else (let m = insert key (suc (flying key c.in_flight)) c.in_flight in
        (some (held key), record c { in_flight = m; active = length m }))

unfoldable pub release : Text → ConcurrencyLimiter → ConcurrencyLimiter
unfolding flying
release key c =
    let n = flying key c.in_flight in
    let m =
      if leb n 1
      then delete key (insert key (n - 1) c.in_flight)
      else insert key (n - 1) c.in_flight in
    record c { in_flight = m; active = length m }

unfoldable pub reject : ConcurrencyLimiter → ConcurrencyLimiter
reject c = record c { rejected = suc c.rejected }

-- The interceptor's two halves: admission before the handler, and the deferred release behind it.
unfoldable pub admit : Text → ConcurrencyLimiter → Option Slot × ConcurrencyLimiter
unfolding acquire reject
admit key c =
    let (slot, c') = acquire key c in elim slot [ none ↦ (none, reject c') | some s ↦ (some s, c') ]

unfoldable pub finish : Slot → ConcurrencyLimiter → ConcurrencyLimiter
unfolding release
finish uncounted c = c
finish (held key) c = release key c
