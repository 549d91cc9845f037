-- ===== src/Registry/Cache.antt =====
-- pluginCache of internal/adapters/registry/cache.go: the unpacked plugins on disk, under a limit.
-- Times and sizes are numbers; a Go map is an association list, and where the source ranges over
-- it the list's order stands for the one that Go picks. A nil cache is not modelled: all its
-- methods return at once.
pub mod Accounting
pub mod Eviction
use easyp_plugin_server.Common.{
  ℕ, zero, suc, ◌+◌, ◌-◌, ◌≡◌, Bool, true, false, ◌||◌, List, [], ◌∷◌, Option, none, some, Text,
  text_eq, length, ltb, leb, if◌then◌else◌, lookup, insert, delete, ℤ, not_positive, magnitude, max,
}

pub record CacheEntry : Type 0 where
  pub size : ℕ
  pub last_used : ℕ

-- The last two are metrics.
pub record PluginCache : Type 0 where
  pub limit : ℕ
  pub min_age : ℕ
  pub entries : List (Text × CacheEntry)
  pub total : ℕ
  pub size_gauge : ℕ
  pub evictions : ℕ

-- Five minutes, in nanoseconds.
abbrev pub min_eviction_age : ℕ
min_eviction_age = 300000000000

-- `none` is the nil cache: eviction is disabled.
unfoldable pub new_plugin_cache : (max_bytes : ℤ) (min_age : ℤ) → Option PluginCache
new_plugin_cache max_bytes min_age =
    if not_positive max_bytes
    then none
    else some (record {
      limit = magnitude max_bytes;
      min_age = max (magnitude min_age) min_eviction_age;
      entries = [];
      total = 0;
      size_gauge = 0;
      evictions = 0;
    })

unfoldable pub touch : ℕ → Text → PluginCache → PluginCache
unfolding lookup insert
touch now dir c = elim (lookup dir c.entries) [
  | none ↦ c
  | some entry ↦ record c { entries = insert dir (record entry { last_used = now }) c.entries }
]

unfoldable pub forget : Text → PluginCache → PluginCache
unfolding lookup delete
forget dir c = elim (lookup dir c.entries) [
  | none ↦ c
  | some entry ↦ record c {
    entries = delete dir c.entries;
    total = c.total - entry.size;
    size_gauge = c.total - entry.size;
  }
]

-- The part of add under the lock, for a directory that was measured.
unfoldable pub record_entry : ℕ → Text → ℕ → PluginCache → PluginCache
unfolding lookup insert
record_entry now dir size c =
    let before : ℕ = elim (lookup dir c.entries) [
      | none ↦ c.total
      | some previous ↦ c.total - previous.size
    ] in
    record c {
      entries = insert dir (record { size = size; last_used = now }) c.entries;
      total = before + size;
      size_gauge = before + size;
    }

-- One directory of warm, likewise. `now - min_age` is time.Now().Add(-minAge).
unfoldable pub warm_entry : ℕ → Text → ℕ → PluginCache → PluginCache
unfolding lookup insert
warm_entry now dir size c = elim (lookup dir c.entries) [
  | none ↦ record c {
    entries = insert dir (record { size = size; last_used = now - c.min_age }) c.entries;
    total = c.total + size;
  }
  | some known ↦ c
]

-- The scan for the oldest entry that is not used after the cutoff, with the oldest so far. A
-- directory's name is never empty, which is how the source writes that there is none yet.
unfoldable pub oldest_from :
    ℕ → Option (Text × CacheEntry) → List (Text × CacheEntry) → Option (Text × CacheEntry)
oldest_from cutoff oldest [] = oldest
oldest_from cutoff oldest ((dir, entry) ∷ entries) =
    let skipped = oldest_from cutoff oldest entries in
    let taken = oldest_from cutoff (some (dir, entry)) entries in
    if ltb cutoff entry.last_used then skipped else elim oldest [
      | none ↦ taken
      | some (old_dir, old_entry) ↦
          if ltb entry.last_used old_entry.last_used then taken else skipped
    ]

unfoldable pub next_victim : ℕ → PluginCache → Option (Text × CacheEntry)
unfolding oldest_from
next_victim now c =
    if leb c.total c.limit then none else oldest_from (now - c.min_age) none c.entries

-- The loop of evict, at times that `clock` gives round by round; `fuel` bounds the rounds. The
-- directory is removed, or its removal fails, and it is forgotten in either case.
unfoldable pub evict_from : (ℕ → ℕ) → ℕ → ℕ → PluginCache → PluginCache
unfolding next_victim forget
evict_from clock round zero c = c
evict_from clock round (suc fuel) c = elim (next_victim (clock round) c) [
  | none ↦ c
  | some (victim, entry) ↦
      let c' = forget victim c in
      evict_from clock (suc round) fuel (record c' { evictions = suc c'.evictions })
]

-- Every round forgets an entry, so there are no more rounds than entries.
unfoldable pub evict : (ℕ → ℕ) → PluginCache → PluginCache
unfolding evict_from
evict clock c = evict_from clock 0 (length c.entries) c

unfoldable pub add : (ℕ → ℕ) → ℕ → Text → ℕ → PluginCache → PluginCache
unfolding record_entry evict
add clock now dir size c = evict clock (record_entry now dir size c)

unfoldable pub over_limit : PluginCache → Bool
over_limit c = ltb c.limit c.total
