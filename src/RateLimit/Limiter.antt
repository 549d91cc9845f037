-- ===== src/RateLimit/Limiter.antt =====
-- internal/ratelimiter/ratelimiter.go: a token bucket per client. The bucket is the limiter of
-- golang.org/x/time/rate, a parameter; times are nanoseconds. Response headers are left out.
pub mod PerClient
use easyp_plugin_server.Common.{
  ℕ, suc, ◌+◌, ◌-◌, Bool, true, false, not, ◌||◌, List, [], ◌∷◌, Option, none, some, Text, text_eq,
  length, keep, ltb, if◌then◌else◌, lookup, insert,
}
use easyp_plugin_server.Core.Domain.{Feature, FeatureGate}
use easyp_plugin_server.Core.Service.{allows}

-- rate.NewLimiter for the configured rate and burst, and Allow at a time.
pub record TokenBucket : Type 1 where
  pub State : Type 0
  pub fresh : State
  pub allow : ℕ → State → Bool × State

module _ (B : TokenBucket) where
  pub record ClientBucket : Type 0 where
    pub limiter : B.State
    pub last_seen : ℕ

  -- `allowed`, `denied` and `active_clients` are metrics.
  pub record RateLimiter : Type 0 where
    pub cleanup_interval : ℕ
    pub gate : Option FeatureGate
    pub buckets : List (Text × ClientBucket)
    pub allowed : ℕ
    pub denied : ℕ
    pub active_clients : ℕ

  unfoldable pub new_rate_limiter : ℕ → Option FeatureGate → RateLimiter
  new_rate_limiter cleanup_interval gate = record {
    cleanup_interval = cleanup_interval;
    gate = gate;
    buckets = [];
    allowed = 0;
    denied = 0;
    active_clients = 0;
  }

  -- LoadOrStore, with the gauge: the client's bucket, and the limiter that holds it.
  unfoldable pub load_or_store : ℕ → Text → RateLimiter → ClientBucket × RateLimiter
  unfolding lookup insert
  load_or_store now key rl = elim (lookup key rl.buckets) [
    | some bucket ↦ (bucket, rl)
    | none ↦
        let bucket : ClientBucket = record { limiter = B.fresh; last_seen = now } in
        (
          bucket,
          record rl {
            buckets = insert key bucket rl.buckets;
            active_clients = suc rl.active_clients;
          },
        )
  ]

  -- The rest of Limit for a loaded bucket.
  unfoldable pub take_token : ℕ → Text → ClientBucket × RateLimiter → Bool × RateLimiter
  unfolding insert
  take_token now key (bucket, rl) =
      let (ok_now, limiter) = B.allow now bucket.limiter in
      let buckets = insert key (record { limiter = limiter; last_seen = now }) rl.buckets in
      if ok_now
      then (true, record rl { buckets = buckets; allowed = suc rl.allowed })
      else (false, record rl { buckets = buckets; denied = suc rl.denied })

  -- True is a nil error, false is ResourceExhausted.
  unfoldable pub limit : ℕ → Text → RateLimiter → Bool × RateLimiter
  unfolding allows load_or_store take_token
  limit now key rl =
      if not (allows rl.gate Feature.rate_limiting) || text_eq key []
      then (true, rl)
      else take_token now key (load_or_store now key rl)

  unfoldable pub cleanup : ℕ → RateLimiter → RateLimiter
  cleanup now rl =
      let buckets = keep (λ b. not (ltb rl.cleanup_interval (now - b.1.last_seen))) rl.buckets in
      record rl { buckets = buckets; active_clients = length buckets }
