-- ===== src/Registry/Plugins/Counted.antt =====
-- The licence's ceiling on registered plugins, over the table of plugins.
use easyp_plugin_server.Common.{
  text_eq, ℕ, ◌+◌, ◌≤◌, ◌<◌, ◌≡◌, refl, ap, ◌∙◌, true, ◌&&◌, List, [], ◌∷◌, arith, length, map,
  keep, pos, ok, is_ok, inl, inr, Result-cases,
}
use easyp_plugin_server.Core.Domain.{PluginInfo, CreatePluginRequest, Context}
use easyp_plugin_server.Core.Service.{Core, World, max_plugins, create_plugin}
use easyp_plugin_server.Core.Service.Paging.{KeyOrder}
use easyp_plugin_server.Core.Service.Limits.{
  CountsRows, everything, unbounded, create_plugin-within_limit,
}
use easyp_plugin_server.Registry.Query.{Row, info, has_all, non_empty_tags}
use easyp_plugin_server.Registry.Query.Selected.{matches, first_rows}
use easyp_plugin_server.Registry.Backend.{Backend, State, unique_violation, no_rows, failed}
use easyp_plugin_server.Registry.Plugins.{list, create, checked_config}
use easyp_plugin_server.Registry.Plugins.Listed.{Table, list-selects, Generation, registry_of}

-- What Create relies on of PostgreSQL: an INSERT of one row adds at most one.
pub record InsertedTable (B : Backend) (O : KeyOrder) (T : Table B O) : Type 0 where
  pub inserts :
      (req : CreatePluginRequest) (rows : B.Rows)
      → length (T.table (B.insert_row req rows).1) ≤ length (T.table rows) + 1

keep_all : (rows : List Row) → keep (λ p. matches everything p && true) rows ≡ rows
unfolding matches has_all non_empty_tags text_eq
keep_all [] = refl
keep_all (p ∷ rows) = ap (λ l. p ∷ l) (keep_all rows)

length-map : (rows : List Row) → length (map info rows) ≡ length rows
length-map [] = refl
length-map (p ∷ rows) = omega (arith, length-map rows)

module _ (B : Backend) (O : KeyOrder) (T : Table B O) (I : InsertedTable B O T)
    (calls : Generation B) (clock : ℕ → ℕ) (now : ℕ) where
  abbrev pub all_rows : State B → List PluginInfo
  all_rows s = map info (T.table s.rows)

  list-all : (s : State B) → list B everything unbounded s ≡ (ok (all_rows s), s)
  unfolding first_rows
  list-all s =
      list-selects B O T everything unbounded s
      ∙ ap (λ l. (ok (map info l), s)) (keep_all (T.table s.rows))

  create-one :
      (req : CreatePluginRequest) (s : State B)
      → length (all_rows (create B req s).1) ≤ length (all_rows s) + 1
  unfolding create
  create-one req s =
      elim (Result-cases (checked_config B req.group req.name req.version req.config s.objects)) [
        | inr (e, c) ↦ rw (c, create) (omega arith)
        | inl (config, c) ↦
            let row = record req { config = config } in
            let grown = I.inserts row s.rows in
            let before = length-map (T.table s.rows) in
            let after = length-map (T.table (B.insert_row row s.rows).1) in
            elim (Result-cases (B.insert_row row s.rows).0) [
              | inl (plug, q) ↦ rw (c, q, create) (omega (arith, grown, before, after))
              | inr (unique_violation, q) ↦ rw (c, q, create) (omega (arith, grown, before, after))
              | inr (no_rows, q) ↦ rw (c, q, create) (omega (arith, grown, before, after))
              | inr (failed e, q) ↦ rw (c, q, create) (omega (arith, grown, before, after))
            ]
      ]

  registry-CountsRows : CountsRows (registry_of B calls clock now) all_rows
  registry-CountsRows = record { lists = list-all; creates = create-one }

  -- While the licence sets a ceiling, a CreatePlugin that succeeds found fewer plugins in the table
  -- than the ceiling and leaves no more than it, where no other creation comes between its
  -- count and its insertion. The database answers the count as the table's laws say, and an
  -- insertion adds at most one row.
  pub create_plugin-within_ceiling :
      (c : Core) (ctx : Context) (n : ℕ) (req : CreatePluginRequest)
      (w : World (registry_of B calls clock now))
      → max_plugins c ≡ pos n
      → is_ok (create_plugin (registry_of B calls clock now) c ctx req w).0 ≡ true
      → (length (T.table w.registry.rows) < n)
        × (length
              (T.table (create_plugin (registry_of B calls clock now) c ctx req w).1.registry.rows)
            ≤ n)
  create_plugin-within_ceiling c ctx n req w m h =
      let r = registry_of B calls clock now in
      let both = create_plugin-within_limit r c ctx all_rows registry-CountsRows n req w m h in
      let before = length-map (T.table w.registry.rows) in
      let after = length-map (T.table (create_plugin r c ctx req w).1.registry.rows) in
      (omega (arith, both.0, before), omega (arith, both.1, after))
