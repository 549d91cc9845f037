-- ===== src/Registry/Plugins/Listed.antt =====
-- List over a table of plugins: what it selects, and that the service's pages over it cover it.
use easyp_plugin_server.Common.{
  ℕ, zero, suc, ◌+◌, ◌≡◌, refl, ap, ◌∙◌, subst, Bool, ◌&&◌, List, [], ◌∷◌, map, Option, none, some,
  arith, keep, take, length, All, Bool-cases, ℤ, pos, not_positive, inl, inr, Result, ok,
}
use easyp_plugin_server.Core.Errors.{Error}
use easyp_plugin_server.Core.Domain.{
  PluginInfo, PluginFilter, PluginKey, PluginPage, Context, Registry,
}
use easyp_plugin_server.Core.Service.{Core, World}
use easyp_plugin_server.Core.Service.Paging.{
  KeyOrder, Ascending, beyond, follows, ListsInOrder, walk, walk_all,
}
use easyp_plugin_server.Registry.Query.{
  Row, row_key, info, Query, by_key, Building, limit_to, listing, list_query, satisfies, limit_of,
}
use easyp_plugin_server.Registry.Query.Selected.{matches, beyond_key, first_rows, list_query-means}
use easyp_plugin_server.Registry.Config.{PluginConfig}
use easyp_plugin_server.Registry.Backend.{Backend, State}
use easyp_plugin_server.Registry.Plugins.{list, create, update, delete}
use easyp_plugin_server.Registry.Binaries.{get}

-- What List relies on of PostgreSQL: the table's rows come in the order of their keys, which are
-- unique, and a query in that order whose clauses are each bound to arguments of their type selects
-- the rows that they are true of, as many as its limit says.
pub record Table (B : Backend) (O : KeyOrder) : Type 0 where
  pub table : B.Rows → List Row
  pub ordered : (rows : B.Rows) → Ascending O (map info (table rows))
  pub selects :
      (q : Query) (rows : B.Rows) (test : Row → Bool) (answer : List Row)
      → q.order ≡ by_key
      → ((p : Row) → satisfies O.key_lt q.args p q.clauses ≡ some (test p))
      → limit_of q.args q.limit (keep test (table rows)) ≡ some answer
      → B.select q rows ≡ ok answer

limit_to-order : (size : ℤ) (b : Building) → (limit_to size b).order ≡ by_key
unfolding limit_to
limit_to-order size b = elim (Bool-cases (not_positive size)) [
  | inl e ↦ rw (e, limit_to) refl
  | inr e ↦ rw (e, limit_to) refl
]

list_query-order :
    (filter : PluginFilter) (page : PluginPage) → (list_query filter page).order ≡ by_key
unfolding list_query
list_query-order filter page = limit_to-order page.size (listing filter page.after)

first_rows-suc : (n : ℕ) (ps : List Row) → first_rows (pos (n + 1)) ps ≡ take (suc n) ps
unfolding first_rows
first_rows-suc n ps =
    let e : suc n ≡ n + 1 = omega arith in
    subst (λ k. first_rows (pos k) ps ≡ take (suc n) ps) e refl

map-take : (n : ℕ) (ps : List Row) → map info (take n ps) ≡ take n (map info ps)
map-take zero ps = refl
map-take (suc n) [] = refl
map-take (suc n) (p ∷ ps) = ap (λ l. info p ∷ l) (map-take n ps)

-- The rows beyond a key, described before or after they are turned into the service's records.
beyond-map :
    (O : KeyOrder) (after : Option PluginKey) (test : Row → Bool) (ps : List Row)
    → map info (keep (λ p. test p && beyond_key O.key_lt after p) ps)
      ≡ beyond O after (map info (keep test ps))
beyond-map O none test [] = refl
beyond-map O none test (p ∷ ps) = elim (Bool-cases (test p)) [
  | inl e ↦ rw e (ap (λ l. info p ∷ l) (beyond-map O none test ps))
  | inr e ↦ rw e (beyond-map O none test ps)
]
beyond-map O (some k) test [] = refl
beyond-map O (some k) test (p ∷ ps) =
    let rest = beyond-map O (some k) test ps in
    let same : follows O k (info p) ≡ O.key_lt k (row_key p) = unfold info in refl in
    elim (Bool-cases (test p)) [
      | inr e ↦ rw e rest
      | inl e ↦ elim (Bool-cases (O.key_lt k (row_key p))) [
        | inl b ↦ rw (e, same, b) (ap (λ l. info p ∷ l) rest)
        | inr b ↦ rw (e, same, b) rest
      ]
    ]

All-keep :
    (P : PluginInfo → Type 0) (test : Row → Bool) (ps : List Row)
    → All P (map info ps)
    → All P (map info (keep test ps))
All-keep P test [] h = tt
All-keep P test (p ∷ ps) h = elim (Bool-cases (test p)) [
  | inl e ↦ rw e (h.0, All-keep P test ps h.1)
  | inr e ↦ rw e (All-keep P test ps h.1)
]

keep-Ascending :
    (O : KeyOrder) (test : Row → Bool) (ps : List Row)
    → Ascending O (map info ps)
    → Ascending O (map info (keep test ps))
keep-Ascending O test [] h = tt
keep-Ascending O test (p ∷ ps) h = elim (Bool-cases (test p)) [
  | inl e ↦ rw e (All-keep _ test ps h.0, keep-Ascending O test ps h.1)
  | inr e ↦ rw e (keep-Ascending O test ps h.1)
]

module _ (B : Backend) (O : KeyOrder) (T : Table B O) where
  pub list-selects :
      (filter : PluginFilter) (page : PluginPage) (s : State B)
      → list B filter page s ≡ (
        ok (
            map info (
              first_rows page.size (
                keep
                  (λ p. matches filter p && beyond_key O.key_lt page.after p)
                  (T.table s.rows)))),
        s,
      )
  unfolding list
  list-selects filter page s =
      let (test, limited) = list_query-means O.key_lt filter page in
      let selected =
        T.selects (list_query filter page) s.rows
          (λ p. matches filter p && beyond_key O.key_lt page.after p) _
          (list_query-order filter page) test (limited _) in
      rw (selected, list) refl

-- What plugins do, which is not the registry's: a generation and its metric.
pub record Generation (B : Backend) : Type 1 where
  pub Request : Type 0
  pub Response : Type 0
  pub generate : Row × PluginConfig → Request → State B → Result Error Response × State B
  pub record_generation : Row × PluginConfig → Result Error (Unit {0})
  pub file_count : Response → ℕ

-- The registry as the service sees it.
abbrev pub registry_of : (B : Backend) → Generation B → (ℕ → ℕ) → ℕ → Registry
registry_of B calls clock now = record {
  State = State B;
  Plugin = Row × PluginConfig;
  Request = calls.Request;
  Response = calls.Response;
  get = get B clock now;
  list = list B;
  create = create B;
  update = update B;
  delete = delete B;
  generate = calls.generate;
  record_generation = calls.record_generation;
  file_count = calls.file_count;
}

module _ (B : Backend) (O : KeyOrder) (T : Table B O) (calls : Generation B) (clock : ℕ → ℕ)
    (now : ℕ) where
  abbrev pub rows_of : PluginFilter → State B → List PluginInfo
  rows_of filter s = map info (keep (matches filter) (T.table s.rows))

  list-ListsInOrder :
      (filter : PluginFilter) (s : State B)
      → ListsInOrder (registry_of B calls clock now) O filter s (rows_of filter s)
  list-ListsInOrder filter s = record {
    ascending = keep-Ascending O (matches filter) (T.table s.rows) (T.ordered s.rows);
    lists = λ n after.
        let kept = keep (λ p. matches filter p && beyond_key O.key_lt after p) (T.table s.rows) in
        list-selects B O T filter (record { size = pos (n + 1); after = after }) s
        ∙ ap (λ l. (ok l, s))
            (ap (map info) (first_rows-suc n kept)
              ∙ map-take (suc n) kept
              ∙ ap (take (suc n)) (beyond-map O after (matches filter) (T.table s.rows)));
  }

  -- A client that follows the continuation keys through the service sees each row of the table that
  -- its filter describes exactly once and in the order of the keys, whatever page size it asks for:
  -- as many rounds as there are such rows, and one more, suffice. The database answers as the
  -- table's laws say.
  pub walk-rows :
      (c : Core) (ctx : Context) (filter : PluginFilter) (size : ℤ)
      (w : World (registry_of B calls clock now))
      → walk
          (registry_of B calls clock now)
          c
          ctx
          filter
          size
          (suc (length (rows_of filter w.registry)))
          none
          w
        ≡ some (rows_of filter w.registry)
  walk-rows c ctx filter size w =
      walk_all (registry_of B calls clock now) c ctx filter size O (rows_of filter w.registry) w
        (list-ListsInOrder filter w.registry)
