-- ===== src/Audit/Worker/Delivery.antt =====
-- What becomes of the entries, over every interleaving of callers, ticks, writes and shutdown.
use easyp_plugin_server.Common.{
  ◌+◌, ◌≤◌, ◌≡◌, refl, sym, ap, ◌∙◌, Bool, true, false, List, [], ◌∷◌, ◌++◌, append_assoc,
  append-nil, inl, inr, arith, length, length-append, Bool-cases, ltb→lt, leb, if◌then◌else◌,
}
use mathlib.Core.List.{map-append}
use easyp_plugin_server.Core.Domain.{AuditEntry}
use easyp_plugin_server.Audit.Worker.{
  Config, Worker, Outcome, new_worker, flush, receive, drain, enqueue, drop_entry, has_room,
  send_now, skip, close, await_done,
}
use easyp_plugin_server.Audit.Worker.Steps.{
  Fate, was_written, was_lost, was_dropped, System, Step, sent, timed_out, sent_now, skipped, took,
  ticked, drained, closed, awaited, Reach, start, next, settle, received, with_fate, entries_of,
  entries_of-settle, with_fate-append, flush-Flushed,
}

record Inv (cfg : Config) (s : System) : Type 0 where
  order : entries_of s.settled ++ (s.worker.batch ++ s.worker.entries) ≡ s.accepted
  written : s.worker.written ≡ with_fate was_written s.settled
  lost : s.worker.lost_save ≡ length (with_fate was_lost s.settled)
  pending : s.worker.pending ≡ length s.worker.batch
  same_size : s.worker.cfg.buffer_size ≡ cfg.buffer_size
  room : length s.worker.entries ≤ cfg.buffer_size
  stopped : (if s.worker.done then s.worker.closed else true) ≡ true
  empty : (if s.worker.done then length (s.worker.batch ++ s.worker.entries) else 0) ≡ 0

module _ (cfg : Config) where
  flush-Inv :
      (o : Outcome) (w : Worker) (accepted : List AuditEntry) (settled : List (AuditEntry × Fate))
      → Inv cfg (record { worker = w; accepted = accepted; settled = settled })
      → Inv cfg (record {
        worker = flush o w;
        accepted = accepted;
        settled = settled ++ settle o w.batch;
      })
  flush-Inv o w accepted settled v =
      let f = flush-Flushed o w v.pending in
      record {
        order =
            rw (f.batch, f.entries, map-append, entries_of-settle o w.batch, append_assoc) v.order;
        written = f.written ∙ rw (with_fate-append, v.written);
        lost = omega (
          arith,
          f.lost,
          v.lost,
          ap length (with_fate-append was_lost settled (settle o w.batch)),
          length-append (with_fate was_lost settled) (with_fate was_lost (settle o w.batch)),
        );
        pending = f.pending ∙ ap length (sym f.batch);
        same_size = ap (λ c. c.buffer_size) f.cfg ∙ v.same_size;
        room = rw f.entries v.room;
        stopped = rw (f.done, f.open_still) v.stopped;
        empty =
            ground (arith, f.done, f.batch, f.entries, v.empty, length-append w.batch w.entries);
      }

  take-Inv :
      (w : Worker) (e : AuditEntry) (rest : List AuditEntry) (accepted : List AuditEntry)
      (settled : List (AuditEntry × Fate))
      → w.done ≡ false
      → w.entries ≡ e ∷ rest
      → Inv cfg (record { worker = w; accepted = accepted; settled = settled })
      → Inv cfg (record {
        worker = record w {
          entries = rest;
          batch = w.batch ++ e ∷ [];
          pending = length (w.batch ++ e ∷ []);
        };
        accepted = accepted;
        settled = settled;
      })
  take-Inv w e rest accepted settled running h v = record {
    order =
        ap (λ l. entries_of settled ++ l)
          (append_assoc w.batch (e ∷ []) rest ∙ ap (λ l. w.batch ++ l) (sym h))
        ∙ v.order;
    written = v.written;
    lost = v.lost;
    pending = refl;
    same_size = v.same_size;
    room = omega (arith, v.room, ap length h);
    stopped = v.stopped;
    empty = rw running refl;
  }

  receive-Inv :
      (w : Worker) (e : AuditEntry) (rest : List AuditEntry) (o : Outcome)
      (accepted : List AuditEntry) (settled : List (AuditEntry × Fate))
      → w.done ≡ false
      → w.entries ≡ e ∷ rest
      → Inv cfg (record { worker = w; accepted = accepted; settled = settled })
      → Inv cfg (record {
        worker = receive e o (record w { entries = rest });
        accepted = accepted;
        settled = settled ++ received e o w;
      })
  unfolding receive
  receive-Inv w e rest o accepted settled running h v =
      let taken = take-Inv w e rest accepted settled running h v in
      elim (Bool-cases (leb w.cfg.batch_size (length (w.batch ++ e ∷ [])))) [
        | inl full ↦ simp (full, receive) (flush-Inv o _ accepted settled taken)
        | inr waits ↦ simp (waits, receive, append-nil) taken
      ]

  enqueue-Inv :
      (w : Worker) (e : AuditEntry) (accepted : List AuditEntry)
      (settled : List (AuditEntry × Fate))
      → w.closed ≡ false
      → has_room w ≡ true
      → Inv cfg (record { worker = w; accepted = accepted; settled = settled })
      → Inv cfg (record { worker = enqueue e w; accepted = accepted ++ e ∷ []; settled = settled })
  unfolding enqueue has_room
  enqueue-Inv w e accepted settled open_still free v = record {
    order = simp (← v.order, append_assoc);
    written = v.written;
    lost = v.lost;
    pending = v.pending;
    same_size = v.same_size;
    room = omega (
      arith,
      length-append w.entries (e ∷ []),
      v.same_size,
      ltb→lt (length w.entries) w.cfg.buffer_size free,
    );
    stopped = v.stopped;
    empty = ground (arith, v.stopped);
  }

  drain-Inv :
      (s : System) (o : Outcome)
      → s.worker.closed ≡ true
      → s.worker.entries ≡ []
      → Inv cfg s
      → Inv cfg
          (record s { worker = drain o s.worker; settled = s.settled ++ settle o s.worker.batch })
  unfolding drain
  drain-Inv s o c h v =
      let u = flush-Inv o s.worker s.accepted s.settled v in
      let f = flush-Flushed o s.worker v.pending in
      record {
        order = u.order;
        written = u.written;
        lost = u.lost;
        pending = u.pending;
        same_size = u.same_size;
        room = u.room;
        stopped = f.open_still ∙ c;
        empty = rw (f.batch, f.entries, h) refl;
      }

  -- The caller of Shutdown changes nothing but a counter.
  await-Inv :
      (in_time : Bool) (s : System)
      → Inv cfg s
      → Inv cfg (record s { worker = (await_done in_time s.worker).1 })
  unfolding await_done
  await-Inv true s v = v
  await-Inv false s v = ground arith

  Step-Inv : {s t : System} → Step s t → Inv cfg s → Inv cfg t
  Step-Inv (sent s e c r) v = enqueue-Inv s.worker e s.accepted s.settled c r v
  Step-Inv (timed_out s c) v = unfold drop_entry in ground arith
  Step-Inv (sent_now s e c z) v = elim (Bool-cases (has_room s.worker)) [
    | inl r ↦ unfold send_now in simp (r) (enqueue-Inv s.worker e s.accepted s.settled c r v)
    | inr r ↦ unfold send_now in simp (r) (unfold drop_entry in ground arith)
  ]
  Step-Inv (skipped s) v = unfold skip in ground arith
  Step-Inv (took s e rest o d h) v = receive-Inv s.worker e rest o s.accepted s.settled d h v
  Step-Inv (ticked s o d) v = flush-Inv o s.worker s.accepted s.settled v
  Step-Inv (drained s o d c h) v = drain-Inv s o c h v
  Step-Inv (closed s) v = unfold close in ground arith
  Step-Inv (awaited s c) v = await-Inv s.worker.done s v

  Reach-Inv : {s : System} → Reach cfg s → Inv cfg s
  unfolding new_worker
  Reach-Inv start = record {
    order = refl;
    written = refl;
    lost = refl;
    pending = refl;
    same_size = refl;
    room = omega arith;
    stopped = refl;
    empty = refl;
  }
  Reach-Inv (next r st) = Step-Inv st (Reach-Inv r)

-- At every moment the entries accepted so far are, in order, those of the flushed batches, the
-- current batch and the queue; storage holds exactly those whose write succeeded, in that order,
-- and the loss counter counts exactly those whose write failed; the queue is within its buffer.
pub delivery :
    {cfg : Config} {s : System}
    → Reach cfg s
    → (entries_of s.settled ++ (s.worker.batch ++ s.worker.entries) ≡ s.accepted)
      × (s.worker.written ≡ with_fate was_written s.settled)
      × (s.worker.lost_save ≡ length (with_fate was_lost s.settled))
      × (length s.worker.entries ≤ cfg.buffer_size)
delivery {cfg} r = let v = Reach-Inv cfg r in (v.order, v.written, v.lost, v.room)

length-fates :
    (l : List (AuditEntry × Fate))
    → length (entries_of l)
      ≡ length (with_fate was_written l)
        + length (with_fate was_lost l)
        + length (with_fate was_dropped l)
length-fates [] = refl
length-fates ((e, was_written) ∷ l) = omega (arith, length-fates l)
length-fates ((e, was_lost) ∷ l) = omega (arith, length-fates l)
length-fates ((e, was_dropped) ∷ l) = omega (arith, length-fates l)

nothing_left :
    {cfg : Config} {s : System}
    → Inv cfg s
    → s.worker.done ≡ true
    → length (s.worker.batch ++ s.worker.entries) ≡ 0
nothing_left v h = ground (arith, v.empty)

-- Once the worker is done, every accepted entry has been written or counted as lost, but for those
-- whose write panicked: they are cleared and no loss counter has them.
pub shutdown_accounting :
    {cfg : Config} {s : System}
    → Reach cfg s
    → s.worker.done ≡ true
    → length s.accepted
      ≡ length s.worker.written + s.worker.lost_save + length (with_fate was_dropped s.settled)
shutdown_accounting {cfg} {s} r h =
    let v = Reach-Inv cfg r in
    omega (
      arith,
      ap length v.order,
      length-append (entries_of s.settled) (s.worker.batch ++ s.worker.entries),
      nothing_left v h,
      length-fates s.settled,
      ap length v.written,
      v.lost,
    )
