-- ===== src/Tests/Registry.antt =====
-- The plugin cache at a concrete state: two directories, one of them over the limit and old.
use easyp_plugin_server.Common.{ℕ, ◌≤◌, ◌≡◌, refl, [], Text, codes, length, pos}
use easyp_plugin_server.Registry.Cache.{PluginCache, new_plugin_cache, record_entry, evict}
use easyp_plugin_server.Registry.Cache.Accounting.{
  Reach, start, next, added, Reach-Inv, sum_sizes, Unique, cache_accounting,
}
use easyp_plugin_server.Registry.Cache.Eviction.{Rested, evict_settles}

abbrev empty_cache : PluginCache
empty_cache = record {
  limit = 10;
  min_age = 300000000000;
  entries = [];
  total = 0;
  size_gauge = 0;
  evictions = 0;
}

abbrev old_dir : Text
old_dir = codes "a"

abbrev new_dir : Text
new_dir = codes "b"

abbrev late : ℕ
late = 900000000000

abbrev full_cache : PluginCache
full_cache = record_entry late new_dir 7 (record_entry 5 old_dir 6 empty_cache)

full_cache-Reach : Reach full_cache
unfolding new_plugin_cache
full_cache-Reach =
    next (next (start (pos 10) (pos 0) refl) (added 5 old_dir 6)) (added late new_dir 7)

cache_accounting_example :
    Unique full_cache.entries × (full_cache.total ≡ sum_sizes full_cache.entries)
cache_accounting_example = cache_accounting full_cache-Reach

evict_settles_example :
    (round : ℕ) × (round ≤ length full_cache.entries)
    × Rested late (evict (λ round. late) full_cache)
evict_settles_example = evict_settles (λ round. late) full_cache (Reach-Inv full_cache-Reach)
