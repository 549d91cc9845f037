-- ===== src/Core/Service/Limits.antt =====
-- What CreatePlugin refuses: the licence's feature and its ceiling on registered plugins.
use easyp_plugin_server.Common.{
  ℕ, ◌+◌, ◌≤◌, ◌<◌, ◌≡◌, true, false, [], ◌∷◌, List, none, arith, length, pos, Text, inl, inr, ok,
  err, is_ok, Result-cases,
}
use easyp_plugin_server.Core.Errors.{feature_denied}
use easyp_plugin_server.Core.Domain.{
  Feature, PluginInfo, PluginFilter, PluginPage, CreatePluginRequest, UpdatePluginRequest, Context,
  Registry,
}
use easyp_plugin_server.Core.Service.{
  Core, World, allows, check_request, check_limit, max_plugins, create_plugin, update_plugin,
  delete_plugin,
}

abbrev pub everything : PluginFilter
everything = record { group = []; name = []; version = []; tags = [] }

abbrev pub unbounded : PluginPage
unbounded = record { size = pos 0; after = none }

-- The registry behind the limit: its whole listing succeeds, reading it changes nothing, and a
-- creation adds at most one row.
pub record CountsRows (R : Registry) (rows : R.State → List PluginInfo) : Type 0 where
  pub lists : (s : R.State) → R.list everything unbounded s ≡ (ok (rows s), s)
  pub creates :
      (req : CreatePluginRequest) (s : R.State)
      → length (rows (R.create req s).1) ≤ length (rows s) + 1

module _ (R : Registry) (c : Core) (ctx : Context) (rows : R.State → List PluginInfo)
    (counts : CountsRows R rows) where
  check_limit-below :
      (n : ℕ) (w : World R)
      → max_plugins c ≡ pos n
      → (check_limit R c ctx w).0 ≡ ok tt
      → (length (rows w.registry) < n) × ((check_limit R c ctx w).1 ≡ w)
  unfolding check_limit
  check_limit-below n w m h = ground (arith, counts.lists w.registry)

  -- Past the guards the registry is what Create leaves, whatever Create returns.
  create_plugin-registry :
      (req : CreatePluginRequest) (w : World R)
      → check_request R c ctx req.group req.name req.version ≡ ok tt
      → (check_limit R c ctx w).0 ≡ ok tt
      → (create_plugin R c ctx req w).1.registry
        ≡ (R.create req (check_limit R c ctx w).1.registry).1
  unfolding create_plugin
  create_plugin-registry req w a b =
      elim (Result-cases (R.create req (check_limit R c ctx w).1.registry).0) [
        | inr (e, k) ↦ rw (a, b, k, create_plugin) (ground arith)
        | inl (info, k) ↦ rw (a, b, k, create_plugin) (ground arith)
      ]

  -- While the licence sets a ceiling, a successful CreatePlugin found fewer rows than the
  -- ceiling and leaves no more rows than it, in a registry that counts rows as above, and where no
  -- other creation comes between the count and the insertion.
  pub create_plugin-within_limit :
      (n : ℕ) (req : CreatePluginRequest) (w : World R)
      → max_plugins c ≡ pos n
      → is_ok (create_plugin R c ctx req w).0 ≡ true
      → (length (rows w.registry) < n)
        × (length (rows (create_plugin R c ctx req w).1.registry) ≤ n)
  unfolding create_plugin
  create_plugin-within_limit n req w m h =
      elim (Result-cases (check_request R c ctx req.group req.name req.version)) [
        | inr (e, a) ↦ absurd (cc (rw (a, create_plugin) at h))
        | inl (u, a) ↦ elim (Result-cases (check_limit R c ctx w).0) [
          | inr (e, b) ↦ absurd (cc (rw (a, b, create_plugin) at h))
          | inl (u', b) ↦
              let (below, same) = check_limit-below n w m b in
              let more = counts.creates req w.registry in
              (below, rw (create_plugin-registry req w a b, same) (omega arith))
        ]
      ]

-- With the plugin-management feature denied, create, update and delete all fail with
-- ErrFeatureDenied and leave the registry untouched.
pub denied_operations :
    (R : Registry) (c : Core) (ctx : Context) (w : World R) (creation : CreatePluginRequest)
    (change : UpdatePluginRequest) (group name version : Text)
    → allows c.feature_gate Feature.plugin_crud ≡ false
    → ((create_plugin R c ctx creation w).0 ≡ err (feature_denied ∷ []))
      × ((create_plugin R c ctx creation w).1.registry ≡ w.registry)
      × ((update_plugin R c ctx change w).0 ≡ err (feature_denied ∷ []))
      × ((update_plugin R c ctx change w).1.registry ≡ w.registry)
      × ((delete_plugin R c ctx group name version w).0 ≡ err (feature_denied ∷ []))
      × ((delete_plugin R c ctx group name version w).1.registry ≡ w.registry)
unfolding create_plugin update_plugin delete_plugin
denied_operations R c ctx w creation change group name version h =
    (ground arith, ground arith, ground arith, ground arith, ground arith, ground arith)
