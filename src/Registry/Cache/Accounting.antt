-- ===== src/Registry/Cache/Accounting.antt =====
-- The cache's total is exact, whatever order its critical sections run in.
use easyp_plugin_server.Common.{
  ℕ, suc, ◌+◌, ◌-◌, ◌≤◌, ◌<◌, ◌≡◌, refl, sym, subst, List, [], ◌∷◌, none, some, Text, text_eq,
  text_eq_iff, length, arith, lookup, insert, delete, lookup-insert, lookup-delete, Option-cases,
  Bool-cases, inl, inr, ℤ,
}
use easyp_plugin_server.Registry.Cache.{
  CacheEntry, PluginCache, new_plugin_cache, touch, forget, record_entry, warm_entry,
}

abbrev pub sum_sizes : List (Text × CacheEntry) → ℕ
sum_sizes [] = 0
sum_sizes ((dir, e) ∷ m) = e.size + sum_sizes m

abbrev pub Unique : List (Text × CacheEntry) → Type 0
Unique [] = Unit
Unique ((dir, e) ∷ m) = (lookup dir m ≡ none) × Unique m

-- The size that a directory counts with.
abbrev pub size_of : Text → List (Text × CacheEntry) → ℕ
size_of dir m = elim (lookup dir m) [ none ↦ 0 | some e ↦ e.size ]

sum_sizes-insert :
    (dir : Text) (e : CacheEntry) (m : List (Text × CacheEntry))
    → sum_sizes (insert dir e m) + size_of dir m ≡ sum_sizes m + e.size
unfolding insert lookup
sum_sizes-insert dir e [] = omega arith
sum_sizes-insert dir e ((d, f) ∷ m) = ground (arith, sum_sizes-insert dir e m)

size_of_le : (dir : Text) (m : List (Text × CacheEntry)) → size_of dir m ≤ sum_sizes m
unfolding lookup
size_of_le dir [] = omega arith
size_of_le dir ((d, f) ∷ m) = ground (arith, size_of_le dir m)

Unique-insert :
    (dir : Text) (e : CacheEntry) (m : List (Text × CacheEntry))
    → Unique m
    → Unique (insert dir e m)
unfolding insert lookup
Unique-insert dir e [] u = (refl, tt)
Unique-insert dir e ((d, f) ∷ m) u = elim (Bool-cases (text_eq d dir)) [
  | inl q ↦ rw (q, insert) (subst (λ k. lookup k m ≡ none) ((text_eq_iff d dir).0 q) u.0, u.1)
  | inr q ↦
      rw (q, insert)
        (
          ground (arith, lookup-insert dir d e m, text_eq_iff dir d, text_eq_iff d dir, u.0),
          Unique-insert dir e m u.1,
        )
]

delete_absent : (dir : Text) (m : List (Text × CacheEntry)) → lookup dir m ≡ none → delete dir m ≡ m
unfolding delete lookup
delete_absent dir [] h = refl
delete_absent dir ((d, f) ∷ m) h = ground (arith, delete_absent dir m)

sum_sizes-delete :
    (dir : Text) (m : List (Text × CacheEntry))
    → Unique m
    → sum_sizes (delete dir m) + size_of dir m ≡ sum_sizes m
unfolding delete lookup
sum_sizes-delete dir [] u = refl
sum_sizes-delete dir ((d, f) ∷ m) u =
    ground (arith, sum_sizes-delete dir m u.1, text_eq_iff d dir, u.0, delete_absent dir m)

Unique-delete : (dir : Text) (m : List (Text × CacheEntry)) → Unique m → Unique (delete dir m)
unfolding delete lookup
Unique-delete dir [] u = tt
Unique-delete dir ((d, f) ∷ m) u = elim (Bool-cases (text_eq d dir)) [
  | inl q ↦ rw (q, delete) (Unique-delete dir m u.1)
  | inr q ↦ rw (q, delete) (ground (arith, lookup-delete dir d m, u.0), Unique-delete dir m u.1)
]

length-delete : (dir : Text) (m : List (Text × CacheEntry)) → length (delete dir m) ≤ length m
unfolding delete
length-delete dir [] = omega arith
length-delete dir ((d, f) ∷ m) = ground (arith, length-delete dir m)

pub length-delete_lt :
    (dir : Text) (e : CacheEntry) (m : List (Text × CacheEntry))
    → lookup dir m ≡ some e
    → length (delete dir m) < length m
unfolding delete lookup
length-delete_lt dir e [] h = absurd (cc)
length-delete_lt dir e ((d, f) ∷ m) h =
    ground (arith, length-delete_lt dir e m, length-delete dir m)

pub record Inv (c : PluginCache) : Type 0 where
  pub unique : Unique c.entries
  pub exact : c.total ≡ sum_sizes c.entries

touch-Inv : (now : ℕ) (dir : Text) (c : PluginCache) → Inv c → Inv (touch now dir c)
unfolding touch
touch-Inv now dir c v = elim (Option-cases (lookup dir c.entries)) [
  | inl h ↦ rw (h, touch) v
  | inr (e, h) ↦
      rw (h, touch)
        (record {
          unique = Unique-insert dir (record e { last_used = now }) c.entries v.unique;
          exact =
              ground
                (arith, h, v.exact, sum_sizes-insert dir (record e { last_used = now }) c.entries);
        })
]

pub forget-Inv : (dir : Text) (c : PluginCache) → Inv c → Inv (forget dir c)
unfolding forget
forget-Inv dir c v = elim (Option-cases (lookup dir c.entries)) [
  | inl h ↦ rw (h, forget) v
  | inr (e, h) ↦
      rw (h, forget)
        (record {
          unique = Unique-delete dir c.entries v.unique;
          exact = ground (arith, h, v.exact, sum_sizes-delete dir c.entries v.unique);
        })
]

record_entry-Inv :
    (now : ℕ) (dir : Text) (size : ℕ) (c : PluginCache) → Inv c → Inv (record_entry now dir size c)
unfolding record_entry
record_entry-Inv now dir size c v = record {
  unique = Unique-insert dir _ c.entries v.unique;
  exact = ground (
    arith,
    v.exact,
    size_of_le dir c.entries,
    sum_sizes-insert dir (record { size = size; last_used = now }) c.entries,
  );
}

warm_entry-Inv :
    (now : ℕ) (dir : Text) (size : ℕ) (c : PluginCache) → Inv c → Inv (warm_entry now dir size c)
unfolding warm_entry
warm_entry-Inv now dir size c v = elim (Option-cases (lookup dir c.entries)) [
  | inr (e, h) ↦ rw (h, warm_entry) v
  | inl h ↦
      rw (h, warm_entry)
        (record {
          unique = Unique-insert dir _ c.entries v.unique;
          exact = ground (
            arith,
            h,
            v.exact,
            sum_sizes-insert dir (record { size = size; last_used = now - c.min_age }) c.entries,
          );
        })
]

-- One critical section of one caller.
pub data Step (c : PluginCache) : PluginCache → Type 0 where
  touched : (now : ℕ) (dir : Text) → Step c (touch now dir c)
  forgot : (dir : Text) → Step c (forget dir c)
  added : (now : ℕ) (dir : Text) (size : ℕ) → Step c (record_entry now dir size c)
  warmed : (now : ℕ) (dir : Text) (size : ℕ) → Step c (warm_entry now dir size c)
  counted : Step c (record c { evictions = suc c.evictions })

pub data Reach : PluginCache → Type 0 where
  start :
      (max_bytes min_age : ℤ) {c : PluginCache}
      → new_plugin_cache max_bytes min_age ≡ some c
      → Reach c
  next : {c d : PluginCache} → Reach c → Step c d → Reach d

Step-Inv : {c d : PluginCache} → Step c d → Inv c → Inv d
Step-Inv {c} (touched now dir) v = touch-Inv now dir c v
Step-Inv {c} (forgot dir) v = forget-Inv dir c v
Step-Inv {c} (added now dir size) v = record_entry-Inv now dir size c v
Step-Inv {c} (warmed now dir size) v = warm_entry-Inv now dir size c v
Step-Inv counted v = record { unique = v.unique; exact = v.exact }

pub Reach-Inv : {c : PluginCache} → Reach c → Inv c
unfolding new_plugin_cache
Reach-Inv (start max_bytes min_age {c} e) =
    let none_yet : c.entries ≡ [] = ground (arith, e) in
    record { unique = subst Unique (sym none_yet) tt; exact = ground (arith, e, none_yet) }
Reach-Inv (next r st) = Step-Inv st (Reach-Inv r)

-- After any interleaving of touches, additions, removals and the warm-up, no directory is listed
-- twice and the total is the sum of the sizes of the directories in the index.
pub cache_accounting :
    {c : PluginCache} → Reach c → Unique c.entries × (c.total ≡ sum_sizes c.entries)
cache_accounting r = let v = Reach-Inv r in (v.unique, v.exact)
