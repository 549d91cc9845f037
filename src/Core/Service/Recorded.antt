-- ===== src/Core/Service/Recorded.antt =====
-- Every operation is counted and audited once, as what it was.
use easyp_plugin_server.Common.{
  ℕ, suc, ◌+◌, ◌≡◌, refl, pos, ◌&&◌, not, List, [], ◌∷◌, Text, arith, if◌then◌else◌, inl, inr,
  Result, ok, err, Result-cases,
}
use easyp_plugin_server.Core.Errors.{Error, error_code}
use easyp_plugin_server.Core.Names.{get_group, get_name_and_version}
use easyp_plugin_server.Core.Domain.{
  Feature, Operation, AuditStatus, PluginFilter, PluginPage, CreatePluginRequest,
  UpdatePluginRequest, AuditEntry, Context, Registry, actor_from_context,
}
use easyp_plugin_server.Core.Service.{
  Core, World, allows, success_entry, error_entry, fail, succeed, run_plugin, generate,
  list_plugins, create_plugin, update_plugin, delete_plugin, check_feature, check_request,
  check_limit, normalise_size,
}

abbrev pub status_of {ℓ} : {A : Type ℓ} → Result Error A → AuditStatus
status_of (ok a) = AuditStatus.success
status_of (err e) = AuditStatus.error

abbrev pub code_of {ℓ} : {A : Type ℓ} → Result Error A → Text
code_of (ok a) = []
code_of (err e) = error_code e

-- Exactly one count, of this operation with this outcome, and exactly one entry that says the
-- same: sent when the licence has audit, counted as skipped when it has not.
pub record Recorded {ℓ} {A : Type ℓ} {R : Registry} (c : Core) (ctx : Context) (op : Operation)
    (r : Result Error A) (before after : World R) : Type 0 where
  pub entry : AuditEntry
  pub entry_operation : entry.operation_type ≡ op
  pub entry_status : entry.status ≡ status_of r
  pub entry_code : entry.error_code ≡ code_of r
  pub entry_actor : entry.actor ≡ actor_from_context ctx
  pub counted : after.operations ≡ (op, status_of r) ∷ before.operations
  pub sent : after.sent ≡ (
      if c.audit_sink && allows c.feature_gate Feature.audit
      then entry ∷ before.sent
      else before.sent)
  pub skipped : after.skipped ≡ (
      if c.audit_sink && not (allows c.feature_gate Feature.audit)
      then suc before.skipped
      else before.skipped)

-- Nothing has been counted or audited between the two worlds.
abbrev Quiet : {R : Registry} → World R → World R → Type 0
Quiet before w =
    (w.operations ≡ before.operations) × (w.sent ≡ before.sent) × (w.skipped ≡ before.skipped)

module _ {R : Registry} (c : Core) (ctx : Context) where
  fail-Recorded {ℓ} :
      {A : Type ℓ} (op : Operation) (name : Text) (e : Error) (before w : World R)
      → Quiet before w
      → Recorded {A = A} c ctx op (err e) before (fail R c ctx {A = A} op name e w).1
  unfolding fail
  fail-Recorded op name e before w q = record {
    entry = error_entry ctx op name e;
    entry_operation = refl;
    entry_status = refl;
    entry_code = refl;
    entry_actor = refl;
    counted = ground arith;
    sent = ground arith;
    skipped = ground arith;
  }

  succeed-Recorded {ℓ} :
      {A : Type ℓ} (op : Operation) (name : Text) (md : List (Text × ℕ)) (a : A)
      (before w : World R)
      → Quiet before w
      → Recorded {A = A} c ctx op (ok a) before (succeed R c ctx {A = A} op name md a w).1
  unfolding succeed
  succeed-Recorded op name md a before w q = record {
    entry = success_entry ctx op name md;
    entry_operation = refl;
    entry_status = refl;
    entry_code = refl;
    entry_actor = refl;
    counted = ground arith;
    sent = ground arith;
    skipped = ground arith;
  }

module _ (R : Registry) (c : Core) (ctx : Context) (w : World R) where
  -- What an operation returns and leaves is recorded as this operation.
  abbrev pub Reports {ℓ} : {A : Type ℓ} → Operation → Result Error A × World R → Type 0
  Reports op out = Recorded c ctx op out.0 w out.1

  run_plugin-Recorded :
      (name : Text) (plugin : R.Plugin) (payload : R.Request) (w' : World R)
      → Quiet w w'
      → Reports Operation.generate_code (run_plugin R c ctx name plugin payload w')
  unfolding run_plugin
  run_plugin-Recorded name plugin payload w' q =
      elim (Result-cases (R.generate plugin payload w'.registry).0) [
        | inr (e, h) ↦ rw (h, run_plugin) (fail-Recorded c ctx _ name e w _ q)
        | inl (response, h) ↦ elim (Result-cases (R.record_generation plugin)) [
          | inr (e, k) ↦ rw (h, k, run_plugin) (fail-Recorded c ctx _ name e w _ q)
          | inl (u, k) ↦ rw (h, k, run_plugin) (succeed-Recorded c ctx _ name _ response w _ q)
        ]
      ]

  generate-Recorded :
      (name : Text) (payload : R.Request)
      → Reports Operation.generate_code (generate R c ctx name payload w)
  unfolding generate
  generate-Recorded name payload = elim (Result-cases (get_group name)) [
    | inr (e, h) ↦ rw (h, generate) (fail-Recorded c ctx _ name e w w (refl, refl, refl))
    | inl (group, h) ↦ elim (Result-cases (get_name_and_version name)) [
      | inr (e, k) ↦ rw (h, k, generate) (fail-Recorded c ctx _ name e w w (refl, refl, refl))
      | inl ((n, v), k) ↦ elim (Result-cases (R.get group n v w.registry).0) [
        | inr (e, l) ↦ rw (h, k, l, generate) (fail-Recorded c ctx _ name e w _ (refl, refl, refl))
        | inl (plugin, l) ↦
            rw (h, k, l, generate) (run_plugin-Recorded name plugin payload _ (refl, refl, refl))
      ]
    ]
  ]

  list_plugins-Recorded :
      (filter : PluginFilter) (page : PluginPage)
      → Reports Operation.list_plugins (list_plugins R c ctx filter page w)
  unfolding list_plugins
  list_plugins-Recorded filter page =
      let size = normalise_size page.size in
      let probe : PluginPage = record { size = pos (size + 1); after = page.after } in
      elim (Result-cases (R.list filter probe w.registry).0) [
        | inr (e, h) ↦ rw (h, list_plugins) (fail-Recorded c ctx _ [] e w _ (refl, refl, refl))
        | inl (plugins, h) ↦
            rw (h, list_plugins) (succeed-Recorded c ctx _ [] _ _ w _ (refl, refl, refl))
      ]

  check_limit-Quiet : Quiet w (check_limit R c ctx w).1
  unfolding check_limit
  check_limit-Quiet = ground arith

  create_plugin-Recorded :
      (req : CreatePluginRequest) → Reports Operation.create_plugin (create_plugin R c ctx req w)
  unfolding create_plugin
  create_plugin-Recorded req =
      elim (Result-cases (check_request R c ctx req.group req.name req.version)) [
        | inr (e, h) ↦ rw (h, create_plugin) (fail-Recorded c ctx _ _ e w w (refl, refl, refl))
        | inl (u, h) ↦ elim (Result-cases (check_limit R c ctx w).0) [
          | inr (e, k) ↦ rw (h, k, create_plugin) (fail-Recorded c ctx _ _ e w _ check_limit-Quiet)
          | inl (u', k) ↦ elim (Result-cases (R.create req (check_limit R c ctx w).1.registry).0) [
            | inr (e, l) ↦
                rw (h, k, l, create_plugin) (fail-Recorded c ctx _ _ e w _ check_limit-Quiet)
            | inl (info, l) ↦
                rw (h, k, l, create_plugin)
                  (succeed-Recorded c ctx _ _ [] info w _ check_limit-Quiet)
          ]
        ]
      ]

  update_plugin-Recorded :
      (req : UpdatePluginRequest) → Reports Operation.update_plugin (update_plugin R c ctx req w)
  unfolding update_plugin
  update_plugin-Recorded req =
      elim (Result-cases (check_request R c ctx req.group req.name req.version)) [
        | inr (e, h) ↦ rw (h, update_plugin) (fail-Recorded c ctx _ _ e w w (refl, refl, refl))
        | inl (u, h) ↦ elim (Result-cases (R.update req w.registry).0) [
          | inr (e, k) ↦ rw (h, k, update_plugin) (fail-Recorded c ctx _ _ e w _ (refl, refl, refl))
          | inl (info, k) ↦
              rw (h, k, update_plugin) (succeed-Recorded c ctx _ _ [] info w _ (refl, refl, refl))
        ]
      ]

  delete_plugin-Recorded :
      (group name version : Text)
      → Reports Operation.delete_plugin (delete_plugin R c ctx group name version w)
  unfolding delete_plugin
  delete_plugin-Recorded group name version =
      elim (Result-cases (check_feature c Feature.plugin_crud)) [
        | inr (e, h) ↦ rw (h, delete_plugin) (fail-Recorded c ctx _ _ e w w (refl, refl, refl))
        | inl (u, h) ↦ elim (Result-cases (R.delete group name version w.registry).0) [
          | inr (e, k) ↦ rw (h, k, delete_plugin) (fail-Recorded c ctx _ _ e w _ (refl, refl, refl))
          | inl (u', k) ↦
              rw (h, k, delete_plugin) (succeed-Recorded c ctx _ _ [] tt w _ (refl, refl, refl))
        ]
      ]

-- Each of the five operations, whatever it returns, is counted exactly once under its own type
-- and outcome; exactly one audit entry, which says the same and carries the error's code and the
-- actor, is sent if a sink is present and the licence has audit, counted as skipped if a sink is
-- present and it has not, and dropped without a sink.
pub operations-Recorded :
    (R : Registry) (c : Core) (ctx : Context) (w : World R) (plugin_name : Text)
    (payload : R.Request) (filter : PluginFilter) (page : PluginPage)
    (creation : CreatePluginRequest) (change : UpdatePluginRequest) (group name version : Text)
    → Reports R c ctx w Operation.generate_code (generate R c ctx plugin_name payload w)
      × Reports R c ctx w Operation.list_plugins (list_plugins R c ctx filter page w)
      × Reports R c ctx w Operation.create_plugin (create_plugin R c ctx creation w)
      × Reports R c ctx w Operation.update_plugin (update_plugin R c ctx change w)
      × Reports R c ctx w Operation.delete_plugin (delete_plugin R c ctx group name version w)
operations-Recorded R c ctx w plugin_name payload filter page creation change group name version = (
  generate-Recorded R c ctx w plugin_name payload,
  list_plugins-Recorded R c ctx w filter page,
  create_plugin-Recorded R c ctx w creation,
  update_plugin-Recorded R c ctx w change,
  delete_plugin-Recorded R c ctx w group name version,
)
