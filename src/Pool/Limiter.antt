-- ===== src/Pool/Limiter.antt =====
-- genLimiter of internal/core/pool.go: at most `cap` generations at once, a bounded number of
-- callers waiting, and a refusal for the rest.
pub mod Bound
use easyp_plugin_server.Common.{
  ℕ, suc, ◌+◌, ◌-◌, ◌≤◌, ◌<◌, ◌≡◌, Bool, true, false, List, [], ◌∷◌, ◌++◌,
}

-- golang.org/x/sync/semaphore, as documented: a weighted semaphore of this size. `outstanding`
-- is the number of acquisitions that have returned and have not been given back.
pub record Semaphore (cap : ℕ) : Type 1 where
  pub State : Type 0
  pub outstanding : State → ℕ
  pub fresh : State
  -- TryAcquire(1) with its result; Acquire(ctx, 1) returning nil or an error; Release(1)
  pub TryAcquire : State → Bool → State → Type 0
  pub Acquire : State → Bool → State → Type 0
  pub Release : State → State → Type 0
  pub outstanding-fresh : outstanding fresh ≡ 0
  pub try_acquired :
      {s t : State}
      → TryAcquire s true t
      → (outstanding t ≡ suc (outstanding s)) × (outstanding t ≤ cap)
  pub try_refused : {s t : State} → TryAcquire s false t → outstanding t ≡ outstanding s
  pub acquired :
      {s t : State}
      → Acquire s true t
      → (outstanding t ≡ suc (outstanding s)) × (outstanding t ≤ cap)
  pub gave_up : {s t : State} → Acquire s false t → outstanding t ≡ outstanding s
  pub released : {s t : State} → Release s t → outstanding s ≡ suc (outstanding t)

-- Where a caller of `acquire` stands, and then of the plugin that it runs.
pub data Caller : Type 0 where
  -- before TryAcquire, and behind a failed one
  arriving missed : Caller
  -- behind waiting.Add(1), which returned this number
  counted : ℕ → Caller
  -- about to load the counter for the gauge, and behind that with what it loaded
  loading : Caller
  loaded : ℕ → Caller
  -- inside Acquire, and behind it with its result
  blocked : Caller
  woken : Bool → Caller
  -- behind waiting.Add(-1), which returned this number
  left : Bool → ℕ → Caller
  -- the slot is taken; the gauge counts the run; the gauge is down and the slot is still held
  admitted running releasing : Caller
  refused abandoned finished : Caller

module _ {cap : ℕ} (S : Semaphore cap) where
  -- The atomics, the gauges and the semaphore; `waiting` is the atomic counter, `in_queue` the gauge
  -- that is set to what was read of it. `queue` does not change.
  pub record GenLimiter : Type 0 where
    pub slots : S.State
    pub queue : ℕ
    pub waiting : ℕ
    pub in_queue : ℕ
    pub active : ℕ
    pub rejected : ℕ

  -- One shared operation of one caller. The comparison with the queue reads only the number that
  -- Add returned, so it goes with the operation behind it.
  pub data Move (g : GenLimiter) : Caller → GenLimiter → Caller → Type 0 where
    try_slot :
        {t : S.State}
        → S.TryAcquire g.slots true t
        → Move g arriving (record g { slots = t }) admitted
    miss :
        {t : S.State}
        → S.TryAcquire g.slots false t
        → Move g arriving (record g { slots = t }) missed
    join : Move g missed (record g { waiting = suc g.waiting }) (counted (suc g.waiting))
    turn_away :
        {v : ℕ}
        → g.queue < v
        → Move g
            (counted v)
            (record g { waiting = g.waiting - 1; rejected = suc g.rejected })
            refused
    wait : {v : ℕ} → v ≤ g.queue → Move g (counted v) g loading
    load : Move g loading g (loaded g.waiting)
    show : {v : ℕ} → Move g (loaded v) (record g { in_queue = v }) blocked
    wake :
        {b : Bool} {t : S.State}
        → S.Acquire g.slots b t
        → Move g blocked (record g { slots = t }) (woken b)
    leave_queue :
        {b : Bool}
        → Move g (woken b) (record g { waiting = g.waiting - 1 }) (left b (g.waiting - 1))
    go_on : {v : ℕ} → Move g (left true v) (record g { in_queue = v }) admitted
    give_up : {v : ℕ} → Move g (left false v) (record g { in_queue = v }) abandoned
    run : Move g admitted (record g { active = suc g.active }) running
    stop : Move g running (record g { active = g.active - 1 }) releasing
    release :
        {t : S.State} → S.Release g.slots t → Move g releasing (record g { slots = t }) finished

  unfoldable pub new_gen_limiter : ℕ → GenLimiter
  new_gen_limiter queue = record {
    slots = S.fresh;
    queue = queue;
    waiting = 0;
    in_queue = 0;
    active = 0;
    rejected = 0;
  }
