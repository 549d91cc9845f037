-- ===== src/Pool/Limiter/Bound.antt =====
-- What holds of the limiter after any interleaving of any number of callers.
use easyp_plugin_server.Common.{
  ℕ, ◌+◌, ◌≤◌, ◌≡◌, refl, true, false, List, [], ◌∷◌, ◌++◌, arith, leb, ◌⊎◌, inl, inr, subst,
  if◌then◌else◌,
}
use easyp_plugin_server.Pool.Limiter.{
  Semaphore, Caller, arriving, counted, loading, loaded, blocked, woken, left, admitted, running,
  releasing, GenLimiter, Move, try_slot, miss, join, turn_away, wait, load, show, wake, leave_queue,
  go_on, give_up, run, stop, release, new_gen_limiter,
}

-- Who is counted in `waiting`.
abbrev pub queued : Caller → ℕ
queued (counted v) = 1
queued loading = 1
queued (loaded v) = 1
queued blocked = 1
queued (woken b) = 1
queued _ = 0

-- Who waits, or will wait, for a slot.
abbrev pub waits : ℕ → Caller → ℕ
waits queue (counted v) = if leb v queue then 1 else 0
waits queue loading = 1
waits queue (loaded v) = 1
waits queue blocked = 1
waits queue _ = 0

-- Who holds a slot.
abbrev pub holds : Caller → ℕ
holds (woken true) = 1
holds (left true v) = 1
holds admitted = 1
holds running = 1
holds releasing = 1
holds _ = 0

abbrev pub runs : Caller → ℕ
runs running = 1
runs _ = 0

abbrev pub total : (Caller → ℕ) → List Caller → ℕ
total weight [] = 0
total weight (c ∷ cs) = weight c + total weight cs

total-append :
    (weight : Caller → ℕ) (xs ys : List Caller)
    → total weight (xs ++ ys) ≡ total weight xs + total weight ys
total-append weight [] ys = omega arith
total-append weight (x ∷ xs) ys = omega (arith, total-append weight xs ys)

total-le :
    (small large : Caller → ℕ)
    → ((c : Caller) → small c ≤ large c)
    → (cs : List Caller) → total small cs ≤ total large cs
total-le small large h [] = omega arith
total-le small large h (c ∷ cs) = omega (arith, h c, total-le small large h cs)

waits-le-queued : (queue : ℕ) (c : Caller) → waits queue c ≤ queued c
waits-le-queued queue (counted v) = ground arith
waits-le-queued queue c = ground arith

runs-le-holds : (c : Caller) → runs c ≤ holds c
runs-le-holds c = ground arith

module _ {cap : ℕ} (S : Semaphore cap) where
  pub record System : Type 0 where
    pub limiter : GenLimiter S
    pub callers : List Caller

  -- Any caller makes its next move, or a new one arrives.
  pub data Step : System → System → Type 0 where
    arrive : (s : System) → Step s (record s { callers = arriving ∷ s.callers })
    move :
        (s : System) (before after : List Caller) (p p' : Caller) (g : GenLimiter S)
        → s.callers ≡ before ++ p ∷ after
        → Move S s.limiter p g p'
        → Step s (record { limiter = g; callers = before ++ p' ∷ after })

  pub data Reach (queue : ℕ) : System → Type 0 where
    start : Reach queue (record { limiter = new_gen_limiter S queue; callers = [] })
    next : {s t : System} → Reach queue s → Step s t → Reach queue t

  record Inv (queue : ℕ) (g : GenLimiter S) (callers : List Caller) : Type 0 where
    same_queue : g.queue ≡ queue
    exact : g.waiting ≡ total queued callers
    room : total (waits queue) callers ≤ queue
    slots : S.outstanding g.slots ≡ total holds callers
    bounded : total holds callers ≤ cap
    gauge : g.active ≡ total runs callers

  -- The four counts around one caller.
  record Around (queue : ℕ) (before after : List Caller) (p p' : Caller) : Type 0 where
    q :
        total queued (before ++ p' ∷ after) + queued p
        ≡ total queued (before ++ p ∷ after) + queued p'
    w :
        total (waits queue) (before ++ p' ∷ after) + waits queue p
        ≡ total (waits queue) (before ++ p ∷ after) + waits queue p'
    h : total holds (before ++ p' ∷ after) + holds p ≡ total holds (before ++ p ∷ after) + holds p'
    r : total runs (before ++ p' ∷ after) + runs p ≡ total runs (before ++ p ∷ after) + runs p'
    le : total (waits queue) (before ++ p' ∷ after) ≤ total queued (before ++ p' ∷ after)

  shift :
      (weight : Caller → ℕ) (before after : List Caller) (p p' : Caller)
      → total weight (before ++ p' ∷ after) + weight p
        ≡ total weight (before ++ p ∷ after) + weight p'
  shift weight before after p p' =
      omega (arith, total-append weight before (p ∷ after), total-append weight before (p' ∷ after))

  around : (queue : ℕ) (before after : List Caller) (p p' : Caller) → Around queue before after p p'
  around queue before after p p' = record {
    q = shift queued before after p p';
    w = shift (waits queue) before after p p';
    h = shift holds before after p p';
    r = shift runs before after p p';
    le = total-le (waits queue) queued (waits-le-queued queue) (before ++ p' ∷ after);
  }

  -- What the semaphore's documentation gives for a move.
  record Slots (g g' : GenLimiter S) (p p' : Caller) : Type 0 where
    moved : S.outstanding g'.slots + holds p ≡ S.outstanding g.slots + holds p'
    capped : (S.outstanding g'.slots ≤ cap) ⊎ (S.outstanding g'.slots ≤ S.outstanding g.slots)

  Move-Slots : {g g' : GenLimiter S} {p p' : Caller} → Move S g p g' p' → Slots g g' p p'
  Move-Slots (try_slot a) = record {
    moved = omega (arith, S.try_acquired a);
    capped = inl (S.try_acquired a).1;
  }
  Move-Slots (miss a) = record {
    moved = omega (arith, S.try_refused a);
    capped = inr (omega (arith, S.try_refused a));
  }
  Move-Slots (wake {b = true} a) = record {
    moved = omega (arith, S.acquired a);
    capped = inl (S.acquired a).1;
  }
  Move-Slots (wake {b = false} a) = record {
    moved = omega (arith, S.gave_up a);
    capped = inr (omega (arith, S.gave_up a));
  }
  Move-Slots (release a) = record {
    moved = omega (arith, S.released a);
    capped = inr (omega (arith, S.released a));
  }
  Move-Slots join = record { moved = refl; capped = inr (omega arith) }
  Move-Slots (turn_away h) = record { moved = refl; capped = inr (omega arith) }
  Move-Slots (wait h) = record { moved = refl; capped = inr (omega arith) }
  Move-Slots load = record { moved = refl; capped = inr (omega arith) }
  Move-Slots show = record { moved = refl; capped = inr (omega arith) }
  Move-Slots (leave_queue {b = true}) = record { moved = refl; capped = inr (omega arith) }
  Move-Slots (leave_queue {b = false}) = record { moved = refl; capped = inr (omega arith) }
  Move-Slots go_on = record { moved = refl; capped = inr (omega arith) }
  Move-Slots give_up = record { moved = refl; capped = inr (omega arith) }
  Move-Slots run = record { moved = refl; capped = inr (omega arith) }
  Move-Slots stop = record { moved = refl; capped = inr (omega arith) }

  Move-Inv :
      (queue : ℕ) (before after : List Caller) {g g' : GenLimiter S} {p p' : Caller}
      → Move S g p g' p'
      → Slots g g' p p'
      → Around queue before after p p'
      → Inv queue g (before ++ p ∷ after)
      → Inv queue g' (before ++ p' ∷ after)
  Move-Inv queue before after (try_slot a) t n v = ground arith
  Move-Inv queue before after (miss a) t n v = ground arith
  Move-Inv queue before after join t n v = ground arith
  Move-Inv queue before after (turn_away h) t n v = ground arith
  Move-Inv queue before after (wait h) t n v = ground arith
  Move-Inv queue before after (wake {b = true} a) t n v = ground arith
  Move-Inv queue before after (wake {b = false} a) t n v = ground arith
  Move-Inv queue before after load t n v = ground arith
  Move-Inv queue before after show t n v = ground arith
  Move-Inv queue before after (leave_queue {b = true}) t n v = ground arith
  Move-Inv queue before after (leave_queue {b = false}) t n v = ground arith
  Move-Inv queue before after go_on t n v = ground arith
  Move-Inv queue before after give_up t n v = ground arith
  Move-Inv queue before after run t n v = ground arith
  Move-Inv queue before after stop t n v = ground arith
  Move-Inv queue before after (release a) t n v = ground arith

  arrive-Inv :
      (queue : ℕ) (g : GenLimiter S) (callers : List Caller)
      → Inv queue g callers
      → Inv queue g (arriving ∷ callers)
  arrive-Inv queue g callers v = ground arith

  Step-Inv :
      {queue : ℕ} {s t : System}
      → Step s t
      → Inv queue s.limiter s.callers
      → Inv queue t.limiter t.callers
  Step-Inv {queue} (arrive s) v = arrive-Inv queue s.limiter s.callers v
  Step-Inv {queue} (move s before after p p' g e mv) v =
      Move-Inv queue before after mv (Move-Slots mv) (around queue before after p p')
        (subst (Inv queue s.limiter) e v)

  Reach-Inv : {queue : ℕ} {s : System} → Reach queue s → Inv queue s.limiter s.callers
  unfolding new_gen_limiter
  Reach-Inv start = record {
    same_queue = refl;
    exact = refl;
    room = omega arith;
    slots = S.outstanding-fresh;
    bounded = omega arith;
    gauge = refl;
  }
  Reach-Inv (next r st) = Step-Inv st (Reach-Inv r)

-- After any interleaving of any number of callers, at most `cap` plugins run, at most `queue`
-- callers wait for a slot, the atomic counter `waiting` counts the callers between its two changes,
-- and the gauge `active` the runs. Of the gauge of the waiting callers nothing is said.
pub limiter_bounds :
    {cap : ℕ} (S : Semaphore cap) {queue : ℕ} {s : System S}
    → Reach S queue s
    → (total runs s.callers ≤ cap)
      × (total (waits queue) s.callers ≤ queue)
      × (s.limiter.waiting ≡ total queued s.callers)
      × (s.limiter.active ≡ total runs s.callers)
limiter_bounds S {queue} {s} r =
    let v = Reach-Inv S r in
    (
      omega (arith, v.bounded, total-le runs holds runs-le-holds s.callers),
      v.room,
      v.exact,
      v.gauge,
    )
