-- ===== src/Pool/Jobs.antt =====
-- The job queue of internal/core/pool.go: Get puts a job into a channel of bounded length, workers take
-- jobs out of it and answer each, and Shutdown closes it. A job is the number of its acceptance.
pub mod Answered
use easyp_plugin_server.Common.{
  ℕ, zero, suc, ◌+◌, ◌<◌, ◌≡◌, Bool, true, false, List, [], ◌∷◌, ◌++◌, Option, none, some, length,
  Result, ok, err, if◌then◌else◌,
}
use easyp_plugin_server.Core.Errors.{Error, generation_failed}

-- What became of the call of the registry behind the barrier: it returned, or it panicked before an
-- answer was given or behind it.
pub data Located (P : Type 0) : Type 0 where
  returned : Result Error P → Located P
  panicked_before : Located P
  panicked_after : Result Error P → Located P

module _ {P : Type 0} where
  -- `answer`: only the first result is sent.
  unfoldable pub answer : Result Error P → List (Result Error P) → List (Result Error P)
  answer res [] = res ∷ []
  answer res (sent ∷ more) = sent ∷ more

  -- What processJob sends to the caller.
  unfoldable pub process_job : Located P → List (Result Error P)
  unfolding answer
  process_job (returned res) = answer res []
  process_job panicked_before = answer (err (generation_failed ∷ [])) []
  process_job (panicked_after res) = answer (err (generation_failed ∷ [])) (answer res [])

-- `entering` callers have read that the pool is open and have not sent yet; `jobs` is the channel,
-- `working` the jobs that workers hold, and `answered` those whose caller was sent a result.
-- `crashed` counts sends on the closed channel, which panic, and `lost` is what Shutdown has returned,
-- which is called once.
pub record WorkerPool : Type 0 where
  pub closed : Bool
  pub channel_closed : Bool
  pub entering : ℕ
  pub jobs : List ℕ
  pub working : List ℕ
  pub answered : List ℕ
  pub jobs_total : ℕ
  pub rejected_total : ℕ
  pub crashed : ℕ
  pub lost : Option ℕ

abbrev pub new_worker_pool : WorkerPool
new_worker_pool = record {
  closed = false;
  channel_closed = false;
  entering = 0;
  jobs = [];
  working = [];
  answered = [];
  jobs_total = 0;
  rejected_total = 0;
  crashed = 0;
  lost = none;
}

module _ (workers queue_size : ℕ) where
  -- One operation of a caller, a worker or Shutdown.
  pub data Step (p : WorkerPool) : WorkerPool → Type 0 where
    -- Get: closed.Load, and the select with its default
    refuse : p.closed ≡ true → Step p p
    enter : p.closed ≡ false → Step p (record p { entering = suc p.entering })
    send :
        (n : ℕ)
        → p.entering ≡ suc n
        → p.channel_closed ≡ false
        → length p.jobs < queue_size
        → Step p (record p {
          entering = n;
          jobs = p.jobs ++ p.jobs_total ∷ [];
          jobs_total = suc p.jobs_total;
        })
    -- the send to a worker that waits at an empty channel
    hand_over :
        (n : ℕ)
        → p.entering ≡ suc n
        → p.channel_closed ≡ false
        → p.jobs ≡ []
        → length p.working < workers
        → Step p (record p {
          entering = n;
          working = p.jobs_total ∷ p.working;
          jobs_total = suc p.jobs_total;
        })
    reject :
        (n : ℕ)
        → p.entering ≡ suc n
        → p.channel_closed ≡ false
        → length p.jobs ≡ queue_size
        → Step p (record p { entering = n; rejected_total = suc p.rejected_total })
    crash :
        (n : ℕ)
        → p.entering ≡ suc n
        → p.channel_closed ≡ true
        → Step p (record p { entering = n; crashed = suc p.crashed })
    -- worker: the next job, also from a closed channel, and its answer
    take :
        (j : ℕ) (rest : List ℕ)
        → p.jobs ≡ j ∷ rest
        → length p.working < workers
        → Step p (record p { jobs = rest; working = j ∷ p.working })
    reply :
        (front back : List ℕ) (j : ℕ)
        → p.working ≡ front ++ j ∷ back
        → Step p (record p { working = front ++ back; answered = j ∷ p.answered })
    -- Shutdown: closed.Store and close, and its return once the workers are done or at the timeout
    store_closed : p.closed ≡ false → Step p (record p { closed = true })
    close_channel :
        p.closed ≡ true → p.channel_closed ≡ false → Step p (record p { channel_closed = true })
    drained :
        p.channel_closed ≡ true
        → p.lost ≡ none
        → p.jobs ≡ []
        → p.working ≡ []
        → Step p (record p { lost = some 0 })
    time_out :
        p.channel_closed ≡ true → p.lost ≡ none → Step p (record p { lost = some (length p.jobs) })

  pub data Reach : WorkerPool → Type 0 where
    start : Reach new_worker_pool
    step : {p q : WorkerPool} → Reach p → Step p q → Reach q
