-- ===== src/Registry/Cache/Eviction.antt =====
-- What an eviction removes, and how it ends.
use easyp_plugin_server.Common.{
  leb→le, List-cases, ◌≢◌, ℕ, zero, suc, ◌+◌, ◌-◌, ◌≤◌, ◌<◌, ◌≡◌, ap, Bool, true, false, List, [],
  ◌∷◌, Option, none, some, Text, text_eq, text_eq_iff, length, arith, if◌then◌else◌, ltb, leb,
  lookup, lookup-delete, Option-cases, Bool-cases, inl, inr, ◌⊎◌, All,
}
use easyp_plugin_server.Registry.Cache.{
  CacheEntry, PluginCache, forget, oldest_from, next_victim, evict_from, evict,
}
use easyp_plugin_server.Registry.Cache.Accounting.{Inv, Unique, length-delete_lt, forget-Inv}

-- An entry that is used after the cutoff, or no older than another.
abbrev pub spared : ℕ → CacheEntry → CacheEntry → Bool
spared cutoff victim e = if ltb cutoff e.last_used then true else leb victim.last_used e.last_used

oldest_from-found :
    (cutoff : ℕ) (b : Text × CacheEntry) (m : List (Text × CacheEntry))
    → oldest_from cutoff (some b) m ≢ none
unfolding oldest_from
oldest_from-found cutoff b [] h = cc
oldest_from-found cutoff b ((d, e) ∷ m) h =
    ground (arith, h, oldest_from-found cutoff b m, oldest_from-found cutoff (d, e) m)

oldest_from-none :
    (cutoff : ℕ) (m : List (Text × CacheEntry))
    → oldest_from cutoff none m ≡ none
    → All (λ d. ltb cutoff d.1.last_used ≡ true) m
unfolding oldest_from
oldest_from-none cutoff [] h = tt
oldest_from-none cutoff ((d, e) ∷ m) h = elim (Bool-cases (ltb cutoff e.last_used)) [
  | inl r ↦ (r, oldest_from-none cutoff m (rw (r, oldest_from) at h))
  | inr r ↦ absurd (oldest_from-found cutoff (d, e) m (rw (r, oldest_from) at h))
]

-- The entry that the scan finds is among those it saw.
oldest_from-listed :
    (cutoff : ℕ) (before : Option (Text × CacheEntry)) (m : List (Text × CacheEntry)) (d : Text)
    (e : CacheEntry)
    → Unique m
    → oldest_from cutoff before m ≡ some (d, e)
    → (before ≡ some (d, e)) ⊎ (lookup d m ≡ some e)
unfolding oldest_from lookup
oldest_from-listed cutoff before [] d e u h = inl h
oldest_from-listed cutoff none ((d', e') ∷ m) d e u h = ground (
  arith,
  text_eq_iff d' d,
  u.0,
  oldest_from-listed cutoff none m d e u.1,
  oldest_from-listed cutoff (some (d', e')) m d e u.1,
)
oldest_from-listed cutoff (some b) ((d', e') ∷ m) d e u h = ground (
  arith,
  text_eq_iff d' d,
  u.0,
  oldest_from-listed cutoff (some b) m d e u.1,
  oldest_from-listed cutoff (some (d', e')) m d e u.1,
)

-- It is not recent, and no entry that is not recent is older.
oldest_from-least :
    (cutoff : ℕ) (before : Option (Text × CacheEntry)) (m : List (Text × CacheEntry)) (d : Text)
    (e : CacheEntry)
    → oldest_from cutoff before m ≡ some (d, e)
    → All (λ x. spared cutoff e x.1 ≡ true) m
      × ((elim before [ none ↦ leb e.last_used cutoff | some b ↦ leb e.last_used b.1.last_used ])
          ≡ true)
unfolding oldest_from
oldest_from-least cutoff none [] d e h = absurd cc
oldest_from-least cutoff (some b) [] d e h = (tt, ground (arith, h))
oldest_from-least cutoff none ((d', e') ∷ m) d e h = elim (Bool-cases (ltb cutoff e'.last_used)) [
  | inl r ↦
      let ih = oldest_from-least cutoff none m d e (rw (r, oldest_from) at h) in
      ((ground (arith, r), ih.0), ih.1)
  | inr r ↦
      let ih = oldest_from-least cutoff (some (d', e')) m d e (rw (r, oldest_from) at h) in
      ((ground (arith, r, ih.1), ih.0), ground (arith, r, ih.1))
]
oldest_from-least cutoff (some b) ((d', e') ∷ m) d e h =
    elim (Bool-cases (ltb cutoff e'.last_used)) [
      | inl r ↦
          let ih = oldest_from-least cutoff (some b) m d e (rw (r, oldest_from) at h) in
          ((ground (arith, r), ih.0), ih.1)
      | inr r ↦ elim (Bool-cases (ltb e'.last_used b.1.last_used)) [
        | inl o ↦
            let ih = oldest_from-least cutoff (some (d', e')) m d e (rw (r, o, oldest_from) at h) in
            ((ground (arith, ih.1), ih.0), ground (arith, o, ih.1))
        | inr o ↦
            let ih = oldest_from-least cutoff (some b) m d e (rw (r, o, oldest_from) at h) in
            ((ground (arith, o, ih.1), ih.0), ih.1)
      ]
    ]

forget-min_age : (d : Text) (c : PluginCache) → (forget d c).min_age ≡ c.min_age
unfolding forget
forget-min_age d c = ground arith

victim-listed :
    (now : ℕ) (c : PluginCache) (d : Text) (e : CacheEntry)
    → Unique c.entries
    → next_victim now c ≡ some (d, e)
    → (lookup d c.entries ≡ some e) × (e.last_used ≤ now - c.min_age)
unfolding next_victim
victim-listed now c d e u h = elim (Bool-cases (leb c.total c.limit)) [
  | inl q ↦ absurd (cc (rw (q, next_victim) at h))
  | inr q ↦
      let found = rw (q, next_victim) at h in
      let old = (oldest_from-least (now - c.min_age) none c.entries d e found).1 in
      elim (oldest_from-listed (now - c.min_age) none c.entries d e u found) [
        | inl n ↦ absurd (cc (n))
        | inr l ↦ (l, leb→le e.last_used (now - c.min_age) old)
      ]
]

-- Nothing is left to evict.
abbrev pub Rested : ℕ → PluginCache → Type 0
Rested now c = (c.total ≤ c.limit) ⊎ All (λ d. ltb (now - c.min_age) d.1.last_used ≡ true) c.entries

next_victim-Rested : (now : ℕ) (c : PluginCache) → next_victim now c ≡ none → Rested now c
unfolding next_victim
next_victim-Rested now c h = elim (Bool-cases (leb c.total c.limit)) [
  | inl q ↦ inl (leb→le c.total c.limit q)
  | inr q ↦ inr (oldest_from-none (now - c.min_age) c.entries (rw (q, next_victim) at h))
]

forget_shorter :
    (d : Text) (e : CacheEntry) (c : PluginCache)
    → lookup d c.entries ≡ some e
    → length (forget d c).entries < length c.entries
unfolding forget
forget_shorter d e c h = rw (h, forget) (length-delete_lt d e c.entries h)

evict_from-Rested :
    (clock : ℕ → ℕ) (fuel round : ℕ) (c : PluginCache)
    → Inv c
    → length c.entries ≤ fuel
    → (k : ℕ) × (k ≤ round + fuel) × Rested (clock k) (evict_from clock round fuel c)
unfolding evict_from
evict_from-Rested clock zero round c v le = elim (List-cases c.entries) [
  | inl n ↦ (round, omega arith, inr (rw n tt))
  | inr (x, r, n) ↦ absurd (omega (arith, ap length n))
]
evict_from-Rested clock (suc fuel) round c v le =
    elim (Option-cases (next_victim (clock round) c)) [
      | inl n ↦ (round, omega arith, rw (n, evict_from) (next_victim-Rested (clock round) c n))
      | inr ((d, e), n) ↦
          let listed = (victim-listed (clock round) c d e v.unique n).0 in
          let v' = forget-Inv d c v in
          let (k, le', rest) =
            evict_from-Rested clock fuel (suc round)
              (record (forget d c) { evictions = suc (forget d c).evictions })
              (record { unique = v'.unique; exact = v'.exact })
              (omega (arith, forget_shorter d e c listed)) in
          (k, omega arith, rw (n, evict_from) rest)
    ]

-- An eviction ends, within as many rounds as there are entries, with a cache that is within its
-- limit, or whose entries have all been used less than the minimum age ago.
pub evict_settles :
    (clock : ℕ → ℕ) (c : PluginCache)
    → Inv c
    → (round : ℕ) × (round ≤ length c.entries) × Rested (clock round) (evict clock c)
unfolding evict
evict_settles clock c v =
    let (k, le, rest) = evict_from-Rested clock (length c.entries) 0 c v (omega arith) in
    (k, omega arith, rest)

forget_other :
    (d dir : Text) (c : PluginCache) (e : CacheEntry)
    → text_eq d dir ≡ false
    → lookup dir c.entries ≡ some e
    → lookup dir (forget d c).entries ≡ some e
unfolding forget
forget_other d dir c e ne h = ground (arith, lookup-delete d dir c.entries)

evict_from_keeps :
    (clock : ℕ → ℕ) (fuel round : ℕ) (c : PluginCache) (dir : Text) (e : CacheEntry)
    → Inv c
    → lookup dir c.entries ≡ some e
    → ((k : ℕ) → clock k - c.min_age < e.last_used)
    → lookup dir (evict_from clock round fuel c).entries ≡ some e
unfolding evict_from
evict_from_keeps clock zero round c dir e v h recent = h
evict_from_keeps clock (suc fuel) round c dir e v h recent =
    elim (Option-cases (next_victim (clock round) c)) [
      | inl n ↦ rw (n, evict_from) h
      | inr ((d, f), n) ↦
          let (listed, old) = victim-listed (clock round) c d f v.unique n in
          let v' = forget-Inv d c v in
          let other : text_eq d dir ≡ false =
            ground (arith, text_eq_iff d dir, listed, h, old, recent round) in
          rw (n, evict_from)
            (evict_from_keeps clock fuel (suc round)
              (record (forget d c) { evictions = suc (forget d c).evictions }) dir e
              (record { unique = v'.unique; exact = v'.exact }) (forget_other d dir c e other h)
              (λ k. rw (forget-min_age d c) (recent k)))
    ]

-- A directory that has been used less than the minimum age ago, whenever the eviction looks, is
-- still in the cache afterwards.
pub evict_keeps_recent :
    (clock : ℕ → ℕ) (c : PluginCache) (dir : Text) (e : CacheEntry)
    → Inv c
    → lookup dir c.entries ≡ some e
    → ((round : ℕ) → clock round - c.min_age < e.last_used)
    → lookup dir (evict clock c).entries ≡ some e
unfolding evict
evict_keeps_recent clock c dir e v h recent =
    evict_from_keeps clock (length c.entries) 0 c dir e v h recent

-- A victim is in the cache and not recent, and no entry in the cache is older than it that is not
-- recent; there is none while the total is within the limit.
pub next_victim_oldest :
    (now : ℕ) (c : PluginCache) (d : Text) (e : CacheEntry)
    → Inv c
    → next_victim now c ≡ some (d, e)
    → (c.limit < c.total)
      × (lookup d c.entries ≡ some e)
      × (e.last_used ≤ now - c.min_age)
      × All (λ x. spared (now - c.min_age) e x.1 ≡ true) c.entries
unfolding next_victim
next_victim_oldest now c d e v h =
    let (listed, old) = victim-listed now c d e v.unique h in
    elim (Bool-cases (leb c.total c.limit)) [
      | inl q ↦ absurd (cc (rw (q, next_victim) at h))
      | inr q ↦
          let found = rw (q, next_victim) at h in
          (
            ground (arith, q),
            listed,
            old,
            (oldest_from-least (now - c.min_age) none c.entries d e found).0,
          )
    ]
