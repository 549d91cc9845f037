-- ===== src/Audit/Worker/Steps.antt =====
-- The worker, its callers and its shutdown as steps, and what one flush does to the worker.
use easyp_plugin_server.Common.{
  ℕ, ◌+◌, ◌≡◌, refl, sym, ap, ◌∙◌, true, false, List, [], ◌∷◌, ◌++◌, append-nil, inl, inr, map,
  arith, length, List-cases, leb, ◌==◌, if◌then◌else◌, pos,
}
use easyp_plugin_server.Core.Domain.{AuditEntry}
use easyp_plugin_server.Audit.Worker.{
  Config, Worker, Outcome, stored, save_error, worker_stopped, write_panicked, new_worker,
  record_outcome, flush, receive, drain, enqueue, drop_entry, has_room, send_now, skip, close,
  await_done,
}

pub data Fate : Type 0 where
  was_written was_lost was_dropped : Fate

-- A failed write is counted as lost; one that panics is cleared uncounted.
abbrev pub fate_of : Outcome → Fate
fate_of stored = was_written
fate_of save_error = was_lost
fate_of worker_stopped = was_lost
fate_of write_panicked = was_dropped

abbrev pub settle : Outcome → List AuditEntry → List (AuditEntry × Fate)
settle o = map λ e. (e, fate_of o)

-- The worker, with two lists that only the proof keeps: the entries accepted into the queue, and
-- those whose batch has been flushed, with what became of them.
pub record System : Type 0 where
  pub worker : Worker
  pub accepted : List AuditEntry
  pub settled : List (AuditEntry × Fate)

-- What a flush settles: the batch, which may be empty.
abbrev pub flushed : Outcome → Worker → List (AuditEntry × Fate)
flushed o w = settle o w.batch

-- The same for an entry taken off the queue, whose batch may not be full.
abbrev pub received : AuditEntry → Outcome → Worker → List (AuditEntry × Fate)
received e o w =
    if leb w.cfg.batch_size (length (w.batch ++ e ∷ [])) then settle o (w.batch ++ e ∷ []) else []

pub data Step : System → System → Type 0 where
  -- a caller that waits at most a positive time finds room, or its time is up
  sent :
      (s : System) (e : AuditEntry)
      → s.worker.closed ≡ false
      → has_room s.worker ≡ true
      → Step s (record s { worker = enqueue e s.worker; accepted = s.accepted ++ e ∷ [] })
  timed_out :
      (s : System) → s.worker.closed ≡ false → Step s (record s { worker = drop_entry s.worker })
  -- a caller that does not wait
  sent_now :
      (s : System) (e : AuditEntry)
      → s.worker.closed ≡ false
      → s.worker.cfg.enqueue_timeout ≡ pos 0
      → Step s (record s {
        worker = send_now e s.worker;
        accepted = if has_room s.worker then s.accepted ++ e ∷ [] else s.accepted;
      })
  skipped : (s : System) → Step s (record s { worker = skip s.worker })
  took :
      (s : System) (e : AuditEntry) (rest : List AuditEntry) (o : Outcome)
      → s.worker.done ≡ false
      → s.worker.entries ≡ e ∷ rest
      → Step s (record s {
        worker = receive e o (record s.worker { entries = rest });
        settled = s.settled ++ received e o s.worker;
      })
  ticked :
      (s : System) (o : Outcome)
      → s.worker.done ≡ false
      → Step s (record s { worker = flush o s.worker; settled = s.settled ++ flushed o s.worker })
  drained :
      (s : System) (o : Outcome)
      → s.worker.done ≡ false
      → s.worker.closed ≡ true
      → s.worker.entries ≡ []
      → Step s (record s { worker = drain o s.worker; settled = s.settled ++ flushed o s.worker })
  closed : (s : System) → Step s (record s { worker = close s.worker })
  awaited :
      (s : System)
      → s.worker.closed ≡ true
      → Step s (record s { worker = (await_done s.worker.done s.worker).1 })

pub data Reach (cfg : Config) : System → Type 0 where
  start : Reach cfg (record { worker = new_worker cfg; accepted = []; settled = [] })
  next : {s t : System} → Reach cfg s → Step s t → Reach cfg t

abbrev pub fate_rank : Fate → ℕ
fate_rank was_written = 0
fate_rank was_lost = 1
fate_rank was_dropped = 2

-- The entries with one fate, in order.
abbrev pub with_fate : Fate → List (AuditEntry × Fate) → List AuditEntry
with_fate f [] = []
with_fate f ((e, g) ∷ l) = if fate_rank f == fate_rank g then e ∷ with_fate f l else with_fate f l

abbrev pub entries_of : List (AuditEntry × Fate) → List AuditEntry
entries_of = map λ p. p.0

pub entries_of-settle : (o : Outcome) (es : List AuditEntry) → entries_of (settle o es) ≡ es
entries_of-settle o [] = refl
entries_of-settle o (e ∷ es) = ap (λ l. e ∷ l) (entries_of-settle o es)

pub with_fate-append :
    (f : Fate) (xs ys : List (AuditEntry × Fate))
    → with_fate f (xs ++ ys) ≡ with_fate f xs ++ with_fate f ys
with_fate-append f [] ys = refl
with_fate-append f ((e, g) ∷ xs) ys = ground (arith, with_fate-append f xs ys)

pub with_fate-settle :
    (f : Fate) (o : Outcome) (es : List AuditEntry)
    → with_fate f (settle o es) ≡ (if fate_rank f == fate_rank (fate_of o) then es else [])
with_fate-settle f o [] = ground arith
with_fate-settle f o (e ∷ es) = ground (arith, with_fate-settle f o es)

-- What a flush does to each field.
pub record Flushed (o : Outcome) (w w' : Worker) : Type 0 where
  pub written : w'.written ≡ w.written ++ with_fate was_written (settle o w.batch)
  pub lost : w'.lost_save ≡ w.lost_save + length (with_fate was_lost (settle o w.batch))
  pub batch : w'.batch ≡ []
  pub pending : w'.pending ≡ 0
  pub cfg : w'.cfg ≡ w.cfg
  pub entries : w'.entries ≡ w.entries
  pub open_still : w'.closed ≡ w.closed
  pub done : w'.done ≡ w.done

-- The two cases of a flush, by the batch.
flush_nil : (o : Outcome) (w : Worker) → w.batch ≡ [] → flush o w ≡ w
unfolding flush
flush_nil o w h = simp (h, flush)

flush_cons :
    (o : Outcome) (w : Worker) (e : AuditEntry) (es : List AuditEntry)
    → w.batch ≡ e ∷ es
    → flush o w ≡ record (record_outcome o w) { batch = []; pending = 0 }
unfolding flush
flush_cons o w e es h = simp (h, flush)

record_outcome-Flushed :
    (o : Outcome) (w : Worker)
    → Flushed o w (record (record_outcome o w) { batch = []; pending = 0 })
unfolding record_outcome
record_outcome-Flushed stored w =
    ground
      (arith, with_fate-settle was_written stored w.batch, with_fate-settle was_lost stored w.batch)
record_outcome-Flushed save_error w = ground (
  arith,
  with_fate-settle was_written save_error w.batch,
  with_fate-settle was_lost save_error w.batch,
  append-nil w.written,
)
record_outcome-Flushed worker_stopped w = ground (
  arith,
  with_fate-settle was_written worker_stopped w.batch,
  with_fate-settle was_lost worker_stopped w.batch,
  append-nil w.written,
)
record_outcome-Flushed write_panicked w = ground (
  arith,
  with_fate-settle was_written write_panicked w.batch,
  with_fate-settle was_lost write_panicked w.batch,
  append-nil w.written,
)

pub flush-Flushed :
    (o : Outcome) (w : Worker) → w.pending ≡ length w.batch → Flushed o w (flush o w)
flush-Flushed o w p = elim (List-cases w.batch) [
  | inl h ↦ rw (flush_nil o w h) (empty h)
  | inr (e, es, h) ↦ rw (flush_cons o w e es h) (record_outcome-Flushed o w)
]
  where
    empty : w.batch ≡ [] → Flushed o w w
    empty h = record {
      written = rw h (sym (append-nil w.written));
      lost = rw h (omega arith);
      batch = h;
      pending = p ∙ ap length h;
      cfg = refl;
      entries = refl;
      open_still = refl;
      done = refl;
    }
