-- ===== src/Pool/Jobs/Answered.antt =====
-- Every accepted job is waiting, being worked on or answered, in one place only.
use easyp_plugin_server.Common.{
  ℕ, suc, ◌+◌, ◌≤◌, ◌≡◌, refl, ap, ◌∙◌, Bool, true, false, Option, none, some, List, [], ◌∷◌, ◌++◌,
  arith, length, length-append, ◌==◌, ltb, if◌then◌else◌,
}
use easyp_plugin_server.Pool.Jobs.{
  WorkerPool, Step, Reach, refuse, enter, send, hand_over, reject, crash, take, reply, store_closed,
  close_channel, drained, time_out, start, step,
}

-- How often a job is in a list.
abbrev pub count : ℕ → List ℕ → ℕ
count j [] = 0
count j (k ∷ ks) = if k == j then suc (count j ks) else count j ks

count-append : (j : ℕ) (ks ls : List ℕ) → count j (ks ++ ls) ≡ count j ks + count j ls
count-append j [] ls = omega arith
count-append j (k ∷ ks) ls = ground (arith, count-append j ks ls)

-- A shutdown that has returned has closed the channel, and counted what was left in it.
abbrev pub LostCounted : Option ℕ → Bool → ℕ → Type 0
LostCounted none closed waiting = Unit
LostCounted (some n) closed waiting = (closed ≡ true) × (waiting ≤ n)

LostCounted-fewer :
    (lost : Option ℕ) (closed : Bool) (before after : ℕ)
    → after ≤ before
    → LostCounted lost closed before
    → LostCounted lost closed after
LostCounted-fewer none closed before after le h = tt
LostCounted-fewer (some n) closed before after le h = (h.0, omega (arith, le, h.1))

-- As long as the channel is open no shutdown has returned.
LostCounted-open :
    (lost : Option ℕ) (closed : Bool) (before after : ℕ)
    → closed ≡ false
    → LostCounted lost closed before
    → LostCounted lost closed after
LostCounted-open none closed before after still h = tt
LostCounted-open (some n) closed before after still h = absurd (cc (still, h.0))

LostCounted-closed :
    (lost : Option ℕ) (closed : Bool) (waiting : ℕ)
    → LostCounted lost closed waiting
    → LostCounted lost true waiting
LostCounted-closed none closed waiting h = tt
LostCounted-closed (some n) closed waiting h = (refl, h.1)

pub record Accounted (workers queue_size : ℕ) (p : WorkerPool) : Type 0 where
  pub once :
      (j : ℕ)
      → count j p.jobs + count j p.working + count j p.answered
        ≡ (if ltb j p.jobs_total then 1 else 0)
  pub queue_bounded : length p.jobs ≤ queue_size
  pub workers_bounded : length p.working ≤ workers
  pub lost_counted : LostCounted p.lost p.channel_closed (length p.jobs)

module _ (workers queue_size : ℕ) where
  send-once :
      (p : WorkerPool) (j : ℕ)
      → Accounted workers queue_size p
      → count j (p.jobs ++ p.jobs_total ∷ []) + count j p.working + count j p.answered
        ≡ (if ltb j (suc p.jobs_total) then 1 else 0)
  send-once p j a = ground (arith, count-append j p.jobs (p.jobs_total ∷ []), a.once j)

  hand_over-once :
      (p : WorkerPool) (j : ℕ)
      → Accounted workers queue_size p
      → count j p.jobs + count j (p.jobs_total ∷ p.working) + count j p.answered
        ≡ (if ltb j (suc p.jobs_total) then 1 else 0)
  hand_over-once p j a = ground (arith, a.once j)

  take-once :
      (p : WorkerPool) (k : ℕ) (rest : List ℕ) (j : ℕ)
      → p.jobs ≡ k ∷ rest
      → Accounted workers queue_size p
      → count j rest + count j (k ∷ p.working) + count j p.answered
        ≡ (if ltb j p.jobs_total then 1 else 0)
  take-once p k rest j e a =
      let same : count j p.jobs ≡ count j (k ∷ rest) = ap (count j) e in
      ground (arith, same, a.once j)

  reply-once :
      (p : WorkerPool) (k : ℕ) (front back : List ℕ) (j : ℕ)
      → p.working ≡ front ++ k ∷ back
      → Accounted workers queue_size p
      → count j p.jobs + count j (front ++ back) + count j (k ∷ p.answered)
        ≡ (if ltb j p.jobs_total then 1 else 0)
  reply-once p k front back j e a =
      let same : count j p.working ≡ count j front + count j (k ∷ back) =
        ap (count j) e ∙ count-append j front (k ∷ back) in
      ground (arith, same, count-append j front back, a.once j)

  Step-Accounted :
      (p q : WorkerPool)
      → Accounted workers queue_size p
      → Step workers queue_size p q
      → Accounted workers queue_size q
  Step-Accounted p q a (refuse e) = a
  Step-Accounted p q a (enter e) = record {
    once = a.once;
    queue_bounded = a.queue_bounded;
    workers_bounded = a.workers_bounded;
    lost_counted = a.lost_counted;
  }
  Step-Accounted p q a (send n e o room) = record {
    once = λ j. send-once p j a;
    queue_bounded = omega (arith, length-append p.jobs (p.jobs_total ∷ []), room);
    workers_bounded = a.workers_bounded;
    lost_counted = LostCounted-open p.lost p.channel_closed _ _ o a.lost_counted;
  }
  Step-Accounted p q a (reject n e o full) = record {
    once = a.once;
    queue_bounded = a.queue_bounded;
    workers_bounded = a.workers_bounded;
    lost_counted = a.lost_counted;
  }
  Step-Accounted p q a (crash n e o) = record {
    once = a.once;
    queue_bounded = a.queue_bounded;
    workers_bounded = a.workers_bounded;
    lost_counted = a.lost_counted;
  }
  Step-Accounted p q a (take k rest e free) = record {
    once = λ j. take-once p k rest j e a;
    queue_bounded = omega (arith, ap length e, a.queue_bounded);
    workers_bounded = omega (arith, free);
    lost_counted =
        LostCounted-fewer p.lost p.channel_closed (length p.jobs) (length rest)
          (omega (arith, ap length e)) a.lost_counted;
  }
  Step-Accounted p q a (reply front back k e) = record {
    once = λ j. reply-once p k front back j e a;
    queue_bounded = a.queue_bounded;
    workers_bounded = omega (
      arith,
      ap length e,
      length-append front (k ∷ back),
      length-append front back,
      a.workers_bounded,
    );
    lost_counted = a.lost_counted;
  }
  Step-Accounted p q a (store_closed e) = record {
    once = a.once;
    queue_bounded = a.queue_bounded;
    workers_bounded = a.workers_bounded;
    lost_counted = a.lost_counted;
  }
  Step-Accounted p q a (close_channel e o) = record {
    once = a.once;
    queue_bounded = a.queue_bounded;
    workers_bounded = a.workers_bounded;
    lost_counted = LostCounted-closed p.lost p.channel_closed (length p.jobs) a.lost_counted;
  }
  Step-Accounted p q a (hand_over n e o empty free) = record {
    once = λ j. hand_over-once p j a;
    queue_bounded = a.queue_bounded;
    workers_bounded = omega (arith, free);
    lost_counted = LostCounted-open p.lost p.channel_closed (length p.jobs) _ o a.lost_counted;
  }
  Step-Accounted p q a (drained c first empty idle) = record {
    once = a.once;
    queue_bounded = a.queue_bounded;
    workers_bounded = a.workers_bounded;
    lost_counted = (c, omega (arith, ap length empty));
  }
  Step-Accounted p q a (time_out c first) = record {
    once = a.once;
    queue_bounded = a.queue_bounded;
    workers_bounded = a.workers_bounded;
    lost_counted = (c, omega arith);
  }

-- In whatever order callers, workers and a shutdown act: each accepted job is in exactly one of the
-- queue, the hands of a worker and the answered jobs, and no other is in any; the queue and the
-- workers keep to their bounds; and once a shutdown has returned a number of lost jobs, after its
-- timeout or with the workers done, the queue is closed and never holds more than that number.
pub jobs-Accounted :
    (workers queue_size : ℕ) (p : WorkerPool)
    → Reach workers queue_size p
    → Accounted workers queue_size p
jobs-Accounted workers queue_size p start = record {
  once = λ j. ground arith;
  queue_bounded = omega arith;
  workers_bounded = omega arith;
  lost_counted = tt;
}
jobs-Accounted workers queue_size q (step {p = p} before s) =
    Step-Accounted workers queue_size p q (jobs-Accounted workers queue_size p before) s
