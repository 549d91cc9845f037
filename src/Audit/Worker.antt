-- ===== src/Audit/Worker.antt =====
-- internal/adapters/audit/worker.go: audit entries on their way to storage, in batches.
-- Durations are nanoseconds. What storage and the clock do is an argument.
pub mod Retry
pub mod Steps
pub mod Delivery
use easyp_plugin_server.Common.{
  ℕ, zero, suc, ◌+◌, ◌*◌, Bool, true, false, List, [], ◌∷◌, ◌++◌, length, ltb, leb, ◌==◌,
  if◌then◌else◌, ℤ, pos, negsuc, not_positive,
}
use easyp_plugin_server.Core.Domain.{AuditEntry}

pub record Config : Type 0 where
  pub buffer_size : ℕ
  pub batch_size : ℕ
  pub flush_interval : ℤ
  pub max_save_retries : ℕ
  pub enqueue_timeout : ℤ
  pub flush_timeout : ℤ
  pub shutdown_flush_timeout : ℤ

abbrev pub retry_base_delay : ℕ
retry_base_delay = 100000000

abbrev pub default_enqueue_timeout : ℤ
default_enqueue_timeout = pos 1000000000

abbrev pub default_flush_timeout : ℤ
default_flush_timeout = pos 5000000000

-- The queue is a channel of `buffer_size` places; `written` is what storage has accepted, in
-- order. The last five fields are metrics.
pub record Worker : Type 0 where
  pub cfg : Config
  pub entries : List AuditEntry
  pub closed : Bool
  pub done : Bool
  pub batch : List AuditEntry
  pub pending : ℕ
  pub written : List AuditEntry
  pub lost_enqueue : ℕ
  pub lost_save : ℕ
  pub lost_shutdown : ℕ
  pub events_skipped : ℕ
  pub panics : ℕ

-- The defaults that NewWorker puts in: a zero enqueue timeout is kept, and means no waiting.
unfoldable pub with_defaults : Config → Config
with_defaults cfg = record cfg {
  enqueue_timeout = elim cfg.enqueue_timeout [ pos n ↦ pos n | negsuc n ↦ default_enqueue_timeout ];
  flush_timeout =
      if not_positive cfg.flush_timeout then default_flush_timeout else cfg.flush_timeout;
  shutdown_flush_timeout =
      if not_positive cfg.shutdown_flush_timeout
      then default_flush_timeout
      else cfg.shutdown_flush_timeout;
}

unfoldable pub new_worker : Config → Worker
unfolding with_defaults
new_worker cfg = record {
  cfg = with_defaults cfg;
  entries = [];
  closed = false;
  done = false;
  batch = [];
  pending = 0;
  written = [];
  lost_enqueue = 0;
  lost_save = 0;
  lost_shutdown = 0;
  events_skipped = 0;
  panics = 0;
}

-- One call of SaveBatch, and what saveWithRetry ends with.
pub data Attempt : Type 0 where
  saved failed panicked : Attempt

pub data Outcome : Type 0 where
  stored : Outcome
  save_error : Outcome
  worker_stopped : Outcome
  write_panicked : Outcome

-- The attempts from one on: `left` more are allowed behind it. `stopped n` says that the context
-- ends while the loop waits behind attempt `n`. The numbers are the failures so far and the time
-- waited so far.
unfoldable pub save_from :
    (store : ℕ → Attempt) (stopped : ℕ → Bool) (left attempt delay failures waited : ℕ)
    → Outcome × ℕ × ℕ
save_from store stopped zero attempt delay failures waited = elim (store attempt) [
  | saved ↦ (stored, failures, waited)
  | failed ↦ (save_error, suc failures, waited)
  | panicked ↦ (write_panicked, failures, waited)
]
save_from store stopped (suc left) attempt delay failures waited =
    let again =
      save_from store stopped left (suc attempt) (delay * 2) (suc failures) (waited + delay) in
    elim (store attempt) [
      | saved ↦ (stored, failures, waited)
      | failed ↦ if stopped attempt then (worker_stopped, suc failures, waited) else again
      | panicked ↦ (write_panicked, failures, waited)
    ]

unfoldable pub save_with_retry : Worker → (ℕ → Attempt) → (ℕ → Bool) → Outcome × ℕ × ℕ
unfolding save_from
save_with_retry w store stopped =
    save_from store stopped w.cfg.max_save_retries 0 retry_base_delay 0 0

-- The body under the panic barrier, by the way that it ends.
unfoldable pub record_outcome : Outcome → Worker → Worker
record_outcome stored w = record w { written = w.written ++ w.batch }
record_outcome save_error w = record w { lost_save = w.lost_save + length w.batch }
record_outcome worker_stopped w = record w { lost_save = w.lost_save + length w.batch }
record_outcome write_panicked w = record w { panics = suc w.panics }

-- The batch is cleared whatever happened; an empty one is not written.
unfoldable pub flush : Outcome → Worker → Worker
unfolding record_outcome
flush o w = elim w.batch [
  | [] ↦ w
  | e ∷ es ↦ record (record_outcome o w) { batch = []; pending = 0 }
]

-- Run takes an entry off the queue.
unfoldable pub receive : AuditEntry → Outcome → Worker → Worker
unfolding flush
receive e o w =
    let batch = w.batch ++ e ∷ [] in
    let w' = record w { batch = batch; pending = length batch } in
    if leb w.cfg.batch_size (length batch) then flush o w' else w'

-- Run finds the queue closed and empty.
unfoldable pub drain : Outcome → Worker → Worker
unfolding flush
drain o w = record (flush o w) { done = true }

unfoldable pub enqueue : AuditEntry → Worker → Worker
enqueue e w = record w { entries = w.entries ++ e ∷ [] }

-- The entry found no room, at once or in time.
unfoldable pub drop_entry : Worker → Worker
drop_entry w = record w { lost_enqueue = suc w.lost_enqueue }

unfoldable pub has_room : Worker → Bool
has_room w = ltb (length w.entries) w.cfg.buffer_size

-- Send without waiting, which is what a zero timeout asks for.
unfoldable pub send_now : AuditEntry → Worker → Worker
unfolding enqueue drop_entry has_room
send_now e w = if has_room w then enqueue e w else drop_entry w

unfoldable pub skip : Worker → Worker
skip w = record w { events_skipped = suc w.events_skipped }

unfoldable pub close : Worker → Worker
close w = record w { closed = true }

-- Shutdown behind the close: the number of events it reports lost. `in_time` says that the worker
-- was done before the timeout.
unfoldable pub await_done : Bool → Worker → ℕ × Worker
await_done true w = (0, w)
await_done false w =
    let lost = length w.entries + w.pending in
    (lost, record w { lost_shutdown = w.lost_shutdown + lost })
