-- ===== src/Tests/Jobs.antt =====
-- A pool with one worker and room for one job: a job is accepted, worked on and answered, or waits at a shutdown.
use easyp_plugin_server.Common.{refl, [], ◌∷◌, some, true, arith}
use easyp_plugin_server.Pool.Jobs.{
  WorkerPool, new_worker_pool, Reach, start, step, enter, send, take, reply, store_closed,
  close_channel, time_out,
}
use easyp_plugin_server.Pool.Jobs.Answered.{Accounted, jobs-Accounted}

abbrev entered : WorkerPool
entered = record new_worker_pool { entering = 1 }

abbrev sent : WorkerPool
sent = record new_worker_pool { jobs = 0 ∷ []; jobs_total = 1 }

abbrev taken : WorkerPool
taken = record sent { jobs = []; working = 0 ∷ [] }

abbrev replied : WorkerPool
replied = record taken { working = []; answered = 0 ∷ [] }

entered-Reach : Reach 1 1 entered
entered-Reach = step {p = new_worker_pool} start (enter refl)

sent-Reach : Reach 1 1 sent
sent-Reach = step {p = entered} entered-Reach (send 0 refl refl (omega arith))

replied-Reach : Reach 1 1 replied
replied-Reach =
    step {p = taken} (step {p = sent} sent-Reach (take 0 [] refl (omega arith)))
      (reply [] [] 0 refl)

-- A job waits while a shutdown closes the pool, and the shutdown runs out of time.
abbrev closing : WorkerPool
closing = record sent { closed = true }

abbrev shut : WorkerPool
shut = record closing { channel_closed = true }

abbrev given_up : WorkerPool
given_up = record shut { lost = some 1 }

given_up-Reach : Reach 1 1 given_up
given_up-Reach =
    step {p = shut}
      (step {p = closing} (step {p = sent} sent-Reach (store_closed refl))
        (close_channel refl refl))
      (time_out refl refl)

jobs-Accounted_example : Accounted 1 1 given_up
jobs-Accounted_example = jobs-Accounted 1 1 given_up given_up-Reach
