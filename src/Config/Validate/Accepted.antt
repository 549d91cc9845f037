-- ===== src/Config/Validate/Accepted.antt =====
-- What an accepted configuration promises to the parts that run on it.
use easyp_plugin_server.Common.{
  ◌≡◌, refl, Bool, true, false, not, List, [], ◌∷◌, Text, All, ℤ, pos, negsuc, less, not_positive,
  magnitude, ok, err, guard,
}
use easyp_plugin_server.Config.Ports.Distinct.{Listens, validate_ports_from-Listens}
use easyp_plugin_server.Config.Validate.{
  Server, WorkerPool, RateLimit, Audit, Config, Parsers, Check, all_pass, positive, not_negative,
  validate_ports, validate_worker_pool, validate_audit, validate_rate_limit, validate_runtime_zeros,
  validate_settings, named_ports, worker_pool_checks, audit_checks, rate_limit_checks,
  runtime_checks, settings_checks,
}
use easyp_plugin_server.Startup.{capped_workers}
use easyp_plugin_server.Startup.Capped.{capped_workers-fits}
use easyp_plugin_server.Pool.Config.{WorkerPoolConfig, normalise, is_negative}

all_pass-All : (checks : List Check) → all_pass checks ≡ ok tt → All (λ c. c ≡ ok tt) checks
all_pass-All [] h = tt
all_pass-All (ok tt ∷ checks) h = (refl, all_pass-All checks h)
all_pass-All (err e ∷ checks) h = absurd (cc (h))

guard-true : (b : Bool) (name : Text) → guard b name ≡ ok tt → b ≡ true
guard-true true name h = refl
guard-true false name h = absurd (cc (h))

not-true : (b : Bool) → not b ≡ true → b ≡ false
not-true true h = absurd (cc (h))
not-true false h = refl

positive_lem : (z : ℤ) (name : Text) → positive z name ≡ ok tt → not_positive z ≡ false
positive_lem z name h = not-true (not_positive z) (guard-true (not (not_positive z)) name h)

not_negative_lem : (z : ℤ) (name : Text) → not_negative z name ≡ ok tt → less z (pos 0) ≡ false
not_negative_lem z name h = not-true (less z (pos 0)) (guard-true (not (less z (pos 0))) name h)

-- The pool that the service starts under the limit of a licence, which may lower the number of
-- workers.
abbrev pub pool_config : ℤ → WorkerPool → WorkerPoolConfig
pool_config license_limit p = record {
  workers = capped_workers p.workers license_limit;
  queue_size = p.queue_size;
  max_concurrent_generations = p.max_concurrent_generations;
  generation_timeout = p.generation_timeout;
  max_retries = magnitude p.max_retries;
  shutdown_timeout = p.shutdown_timeout;
}

-- A configuration that can be run on.
pub record Accepted (c : Config) : Type 0 where
  pub listens : Listens [] (named_ports c.server)
  pub output_positive : not_positive c.storage.max_output_size ≡ false
  pub output_sent : less c.server.max_send_msg_size c.storage.max_output_size ≡ false
  pub finishes : less c.worker_pool.generation_timeout c.server.force_shutdown_after ≡ true
  pub pool_as_started :
      (license_limit : ℤ)
      → normalise (pool_config license_limit c.worker_pool)
        ≡ pool_config license_limit c.worker_pool
  pub retries_not_negative : less c.worker_pool.max_retries (pos 0) ≡ false
  pub burst_positive : not_positive c.rate_limit.burst ≡ false
  pub buffer_positive : not_positive c.audit.buffer_size ≡ false
  pub batch_positive : not_positive c.audit.batch_size ≡ false
  pub ticks : not_positive c.audit.flush_interval ≡ false
  pub partitions_tick : not_positive c.audit.partition_check_interval ≡ false
  pub cache_ttl_positive : not_positive c.cache_ttl ≡ false

above_zero : (z : ℤ) → not_positive z ≡ false → is_negative z ≡ false
above_zero (pos n) h = refl
above_zero (negsuc n) h = absurd (cc (h))

normalise_kept :
    (p : WorkerPool) (license_limit : ℤ)
    → not_positive p.workers ≡ false
    → not_positive p.queue_size ≡ false
    → not_positive p.max_concurrent_generations ≡ false
    → not_positive p.generation_timeout ≡ false
    → not_positive p.shutdown_timeout ≡ false
    → normalise (pool_config license_limit p) ≡ pool_config license_limit p
unfolding normalise
normalise_kept p license_limit workers queue slots timeout shutdown =
    let capped = (capped_workers-fits p.workers license_limit workers).2 in
    rw (capped, slots, timeout, shutdown, above_zero p.queue_size queue, normalise) refl

ports_Listens : (s : Server) → validate_ports s ≡ ok tt → Listens [] (named_ports s)
unfolding validate_ports
ports_Listens s h = validate_ports_from-Listens [] (named_ports s) h

worker_pool_lem :
    (p : WorkerPool)
    → validate_worker_pool p ≡ ok tt
    → ((license_limit : ℤ) → normalise (pool_config license_limit p) ≡ pool_config license_limit p)
      × (less p.max_retries (pos 0) ≡ false)
unfolding validate_worker_pool
worker_pool_lem p h =
    let all = all_pass-All (worker_pool_checks p) h in
    (
      λ license_limit.
          normalise_kept p license_limit (positive_lem p.workers _ all.0)
            (positive_lem p.queue_size _ all.1.0)
            (positive_lem p.max_concurrent_generations _ all.1.1.0)
            (positive_lem p.generation_timeout _ all.1.1.1.0)
            (positive_lem p.shutdown_timeout _ all.1.1.1.1.0),
      not_negative_lem p.max_retries _ all.1.1.1.1.1.0,
    )

audit_lem :
    (a : Audit)
    → validate_audit a ≡ ok tt
    → (not_positive a.buffer_size ≡ false)
      × (not_positive a.batch_size ≡ false)
      × (not_positive a.flush_interval ≡ false)
unfolding validate_audit
audit_lem a h =
    let all = all_pass-All (audit_checks a) h in
    (
      positive_lem a.buffer_size _ all.0,
      positive_lem a.batch_size _ all.1.0,
      positive_lem a.flush_interval _ all.1.1.0,
    )

rate_limit_lem : (r : RateLimit) → validate_rate_limit r ≡ ok tt → not_positive r.burst ≡ false
unfolding validate_rate_limit
rate_limit_lem r h =
    let all = all_pass-All (rate_limit_checks r) h in positive_lem r.burst _ all.1.0

runtime_zeros_lem :
    (c : Config)
    → validate_runtime_zeros c ≡ ok tt
    → (not_positive c.cache_ttl ≡ false) × (not_positive c.audit.partition_check_interval ≡ false)
unfolding validate_runtime_zeros
runtime_zeros_lem c h =
    let all = all_pass-All (runtime_checks c) h in
    (
      positive_lem c.cache_ttl _ all.0,
      positive_lem c.audit.partition_check_interval _ all.1.1.1.1.0,
    )

-- A configuration that Validate accepts has four different ports from 1 to 65535, delivers what a
-- plugin may produce, lets an accepted generation finish before a forced shutdown, has positive
-- sizes and intervals where the workers need them and no negative number of retries. Whatever the
-- limit of the licence, the worker pool replaces none of the values that it is started with: the
-- settings of the configuration, but for the number of workers, which is lowered to that limit.
pub validate_settings-Accepted :
    (parsers : Parsers) (c : Config) → validate_settings parsers c ≡ ok tt → Accepted c
unfolding validate_settings settings_checks
validate_settings-Accepted parsers c h =
    let all = all_pass-All (settings_checks parsers c) h in
    let server = all.1.1.1.1 in
    let output = server.1.1.1 in
    let pool = output.1.1.1.1 in
    let rate = pool.1.1 in
    let zeros = rate.1.1.1.1.1.1.1.1.1 in
    let (as_started, retries) = worker_pool_lem c.worker_pool pool.0 in
    let (buffer, batch, ticks) = audit_lem c.audit rate.1.0 in
    let (ttl, partitions) = runtime_zeros_lem c zeros.0 in
    record {
      listens = ports_Listens c.server server.0;
      output_positive = positive_lem c.storage.max_output_size _ output.0;
      output_sent = not-true _ (guard-true _ _ output.1.0);
      finishes = guard-true _ _ pool.1.0;
      pool_as_started = as_started;
      retries_not_negative = retries;
      burst_positive = rate_limit_lem c.rate_limit rate.0;
      buffer_positive = buffer;
      batch_positive = batch;
      ticks = ticks;
      partitions_tick = partitions;
      cache_ttl_positive = ttl;
    }
