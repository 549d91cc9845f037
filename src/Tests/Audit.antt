-- ===== src/Tests/Audit.antt =====
-- The audit worker on two entries, with a buffer of four and batches of two.
use easyp_plugin_server.Common.{ℕ, zero, suc, ◌+◌, ◌≡◌, refl, [], ◌∷◌, ◌++◌, codes, pos, length}
use easyp_plugin_server.Core.Domain.{AuditEntry, Operation, AuditStatus}
use easyp_plugin_server.Audit.Worker.{
  Config, Attempt, saved, failed, save_error, write_panicked, new_worker, receive, drain, enqueue,
  has_room, close,
}
use easyp_plugin_server.Audit.Worker.Steps.{
  System, Reach, start, next, sent, took, closed, drained, entries_of, was_dropped,
}
use easyp_plugin_server.Audit.Worker.Delivery.{delivery, shutdown_accounting}

abbrev cfg : Config
cfg = record {
  buffer_size = 4;
  batch_size = 2;
  flush_interval = pos 1000;
  max_save_retries = 2;
  enqueue_timeout = pos 1000;
  flush_timeout = pos 1000;
  shutdown_flush_timeout = pos 1000;
}

abbrev entry : AuditEntry
entry = record {
  operation_type = Operation.list_plugins;
  plugin_name = [];
  caller_address = codes "10.0.0.1";
  status = AuditStatus.success;
  error_code = [];
  actor = codes "ci";
  metadata = [];
}

abbrev fresh : System
fresh = record { worker = new_worker cfg; accepted = []; settled = [] }

abbrev queued : System
queued = record fresh { worker = enqueue entry fresh.worker; accepted = entry ∷ [] }

abbrev taken : System
taken = record queued { worker = receive entry save_error (record queued.worker { entries = [] }) }

abbrev shut : System
shut = record taken { worker = close taken.worker }

-- The last write panics.
abbrev over : System
over = record shut {
  worker = drain write_panicked shut.worker;
  settled = (entry, was_dropped) ∷ [];
}

over-Reach : Reach cfg over
unfolding new_worker enqueue receive close has_room
over-Reach =
    next
      (next
        (next (next start (sent fresh entry refl refl)) (took queued entry [] save_error refl refl))
        (closed taken))
      (drained shut write_panicked refl refl refl)

delivery_example :
    entries_of over.settled ++ (over.worker.batch ++ over.worker.entries) ≡ entry ∷ []
delivery_example = (delivery over-Reach).0

-- One entry was accepted, none was written and none counted as lost.
shutdown_accounting_example : 1 ≡ length over.worker.written + over.worker.lost_save + 1
unfolding drain
shutdown_accounting_example = shutdown_accounting over-Reach refl

abbrev flaky : ℕ → Attempt
flaky zero = failed
flaky (suc n) = saved
