-- ===== src/Pool/Config.antt =====
-- The configuration of the worker pool and what NewWorkerPool makes of it.
use easyp_plugin_server.Common.{
  ℕ, ◌≡◌, Bool, true, false, ℤ, pos, negsuc, not_positive, arith, if◌then◌else◌,
}

-- Durations are nanoseconds.
pub record WorkerPoolConfig : Type 0 where
  pub workers : ℤ
  pub queue_size : ℤ
  pub max_concurrent_generations : ℤ
  pub generation_timeout : ℤ
  pub max_retries : ℕ
  pub shutdown_timeout : ℤ

abbrev pub default_generation_timeout : ℤ
default_generation_timeout = pos 120000000000

abbrev pub default_shutdown_timeout : ℤ
default_shutdown_timeout = pos 30000000000

abbrev pub default_max_concurrent_generations : ℤ
default_max_concurrent_generations = pos 16

abbrev pub is_negative : ℤ → Bool
is_negative (pos n) = false
is_negative (negsuc n) = true

-- The first part of NewWorkerPool. x < 1 and x <= 0 are the same on integers.
unfoldable pub normalise : WorkerPoolConfig → WorkerPoolConfig
normalise cfg = record cfg {
  workers = if not_positive cfg.workers then pos 1 else cfg.workers;
  queue_size = if is_negative cfg.queue_size then pos 0 else cfg.queue_size;
  generation_timeout =
      if not_positive cfg.generation_timeout
      then default_generation_timeout
      else cfg.generation_timeout;
  shutdown_timeout =
      if not_positive cfg.shutdown_timeout then default_shutdown_timeout else cfg.shutdown_timeout;
  max_concurrent_generations =
      if not_positive cfg.max_concurrent_generations
      then default_max_concurrent_generations
      else cfg.max_concurrent_generations;
}

-- Whatever was configured, a pool has a worker and a generation slot, waits a positive time, and
-- has a queue of no negative length; the number of retries is kept.
pub normalise_usable :
    (cfg : WorkerPoolConfig)
    → (not_positive (normalise cfg).workers ≡ false)
      × (not_positive (normalise cfg).max_concurrent_generations ≡ false)
      × (not_positive (normalise cfg).generation_timeout ≡ false)
      × (not_positive (normalise cfg).shutdown_timeout ≡ false)
      × (is_negative (normalise cfg).queue_size ≡ false)
      × ((normalise cfg).max_retries ≡ cfg.max_retries)
unfolding normalise
normalise_usable cfg = ground arith
