-- ===== src/Registry/Plugins/Written.antt =====
-- Update and Delete over a table of plugins: which row and which columns are written.
use easyp_plugin_server.Common.{
  ℕ, zero, suc, ◌≡◌, refl, sym, ap, ◌∙◌, Bool, true, false, not, ◌&&◌, ◌||◌, ◌⊎◌, List, [], ◌∷◌,
  map, Option, none, some, Text, text_eq, text_eq_refl, keep, length, lookup, lookup-delete,
  Bool-cases, Option-cases, Result-cases, inl, inr, ok, err, if◌then◌else◌,
}
use mathlib.Core.Option
use easyp_plugin_server.Core.Errors.{Error, not_found}
use easyp_plugin_server.Core.Domain.{UpdatePluginRequest}
use easyp_plugin_server.Paths.{join_all}
use easyp_plugin_server.Registry.Cache.{PluginCache, forget}
use easyp_plugin_server.Registry.Query.{Row, info, Arg, text_arg, arg_at, as_text, as_texts}
use easyp_plugin_server.Registry.Config.{archive_key}
use easyp_plugin_server.Registry.Backend.{
  Backend, State, no_rows, SetClause, set_config, set_tags, UpdateQuery,
}
use easyp_plugin_server.Registry.Plugins.{
  checked_config, given, update_query, run_update, update, cleanup_binary, delete,
}

-- What set clauses make of a row; `none` is a clause whose placeholder is not bound to a value of
-- its type.
abbrev pub assign : List Arg → Row → List SetClause → Option Row
assign args p [] = some p
assign args p (set_config n ∷ cs) = elim (as_text (arg_at args n)) [
  | none ↦ none
  | some t ↦ assign args (record p { config = t }) cs
]
assign args p (set_tags n ∷ cs) = elim (as_texts (arg_at args n)) [
  | none ↦ none
  | some ts ↦ assign args (record p { tags = ts }) cs
]

-- A row with the columns written that are given.
abbrev pub masked : Option Text → Option (List Text) → Row → Row
masked none none p = p
masked none (some ts) p = record p { tags = ts }
masked (some c) none p = record p { config = c }
masked (some c) (some ts) p = record p { config = c; tags = ts }

-- The query of Update writes the columns that are given, and its key is the request's.
pub record Writes (q : UpdateQuery) (f : Row → Row) (group name version : Text) : Type 0 where
  pub assigns : (p : Row) → assign q.args p q.set_clauses ≡ some (f p)
  pub at_group : arg_at q.args q.group_at ≡ some (text_arg group)
  pub at_name : arg_at q.args q.name_at ≡ some (text_arg name)
  pub at_version : arg_at q.args q.version_at ≡ some (text_arg version)

update_query-Writes :
    (config : Option Text) (tags : Option (List Text)) (group name version : Text)
    → Writes (update_query config tags group name version) (masked config tags) group name version
unfolding update_query
update_query-Writes none none group name version = record {
  assigns = λ p. refl;
  at_group = refl;
  at_name = refl;
  at_version = refl;
}
update_query-Writes none (some ts) group name version = record {
  assigns = λ p. refl;
  at_group = refl;
  at_name = refl;
  at_version = refl;
}
update_query-Writes (some c) none group name version = record {
  assigns = λ p. refl;
  at_group = refl;
  at_name = refl;
  at_version = refl;
}
update_query-Writes (some c) (some ts) group name version = record {
  assigns = λ p. refl;
  at_group = refl;
  at_name = refl;
  at_version = refl;
}

abbrev pub has_key : (group name version : Text) → Row → Bool
has_key group name version p =
    text_eq p.group_name group && text_eq p.name name && text_eq p.version version

abbrev pub rewritten : (group name version : Text) → (Row → Row) → List Row → List Row
rewritten group name version f ps = map (λ p. if has_key group name version p then f p else p) ps

-- What Update and Delete rely on of PostgreSQL. A statement that answers finds the row with the key,
-- or there is none; a deletion that fails leaves the table as it is.
pub record WrittenTable (B : Backend) : Type 0 where
  pub table : B.Rows → List Row
  pub updates :
      (q : UpdateQuery) (f : Row → Row) (group name version : Text) (rows : B.Rows) (p : Row)
      → Writes q f group name version
      → keep (has_key group name version) (table rows) ≡ p ∷ []
      → ((B.update_row q rows).0 ≡ ok (f p))
        × (table (B.update_row q rows).1 ≡ rewritten group name version f (table rows))
  pub updates_none :
      (q : UpdateQuery) (f : Row → Row) (group name version : Text) (rows : B.Rows)
      → Writes q f group name version
      → keep (has_key group name version) (table rows) ≡ []
      → B.update_row q rows ≡ (err no_rows, rows)
  pub deletes :
      (group name version : Text) (rows : B.Rows) (n : ℕ)
      → (B.delete_rows group name version rows).0 ≡ ok n
      → (n ≡ length (keep (has_key group name version) (table rows)))
        × (table (B.delete_rows group name version rows).1
            ≡ keep (λ p. not (has_key group name version p)) (table rows))

forgotten :
    (version_dir : Text) (c : PluginCache)
    → lookup version_dir (forget version_dir c).entries ≡ none
unfolding forget
forgotten version_dir c = elim (Option-cases (lookup version_dir c.entries)) [
  | inl e ↦ rw (e, forget) e
  | inr (entry, e) ↦
      rw (e, forget)
        (lookup-delete version_dir version_dir c.entries ∙ rw (text_eq_refl version_dir) refl)
]

-- No entry for the directory, where there is a cache.
abbrev pub Forgets : Text → Option PluginCache → Type 0
Forgets version_dir none = Unit
Forgets version_dir (some c) = lookup version_dir c.entries ≡ none

forget-Forgets :
    (version_dir : Text) (cache : Option PluginCache)
    → Forgets version_dir (Option.map (forget version_dir) cache)
forget-Forgets version_dir none = tt
forget-Forgets version_dir (some c) = forgotten version_dir c

keep-not : (test : Row → Bool) (ps : List Row) → keep test (keep (λ p. not (test p)) ps) ≡ []
keep-not test [] = refl
keep-not test (p ∷ ps) = elim (Bool-cases (test p)) [
  | inl e ↦ rw e (keep-not test ps)
  | inr e ↦ rw (e, e) (keep-not test ps)
]

module _ (B : Backend) (T : WrittenTable B) where
  run_update-found :
      (q : UpdateQuery) (f : Row → Row) (group name version : Text) (s : State B) (p : Row)
      → Writes q f group name version
      → keep (has_key group name version) (T.table s.rows) ≡ p ∷ []
      → ((run_update B q s).0 ≡ ok (info (f p)))
        × (T.table (run_update B q s).1.rows ≡ rewritten group name version f (T.table s.rows))
  unfolding run_update
  run_update-found q f group name version s p w one =
      let (answer, written) = T.updates q f group name version s.rows p w one in
      (rw (answer, run_update) refl, rw (answer, run_update) written)

  update-run :
      (req : UpdatePluginRequest) (stored : Text) (s : State B)
      → req.update_config || req.update_tags ≡ true
      → (req.update_config ≡ true
          → checked_config B req.group req.name req.version req.config s.objects ≡ ok stored)
      → update B req s
        ≡ run_update B
            (update_query
              (given req.update_config stored)
              (given req.update_tags req.tags)
              req.group
              req.name
              req.version)
            s
  unfolding update
  update-run req stored s any accepted = elim (Bool-cases req.update_config) [
    | inl e ↦
        rw (e, accepted e, update)
          (ap
            (λ b.
              run_update B
                (update_query (given b stored) (given req.update_tags req.tags) req.group req.name
                  req.version)
                s)
            (sym e))
    | inr e ↦ elim (Bool-cases req.update_tags) [
      | inl t ↦
          rw (e, t, update)
            (ap
              (λ b.
                run_update B
                  (update_query (given b stored) (some req.tags) req.group req.name req.version) s)
              (sym e))
      | inr t ↦
          let unselected : req.update_config || req.update_tags ≡ false = rw (e, t) refl in
          absurd (cc (any, unselected))
    ]
  ]

  -- An update whose configuration is accepted if its mask selects it, of a plugin that is registered, writes exactly the
  -- columns that its mask selects, in exactly the row of its key, and answers with that row.
  pub update-writes :
      (req : UpdatePluginRequest) (stored : Text) (s : State B) (p : Row)
      → req.update_config || req.update_tags ≡ true
      → (req.update_config ≡ true
          → checked_config B req.group req.name req.version req.config s.objects ≡ ok stored)
      → keep (has_key req.group req.name req.version) (T.table s.rows) ≡ p ∷ []
      → ((update B req s).0
          ≡ ok (info (masked (given req.update_config stored) (given req.update_tags req.tags) p)))
        × (T.table (update B req s).1.rows
            ≡ rewritten req.group req.name req.version
                (masked (given req.update_config stored) (given req.update_tags req.tags))
                (T.table s.rows))
  update-writes req stored s p any accepted one = rw (update-run req stored s any accepted) (
      run_update-found _ _ req.group req.name req.version s p
        (update_query-Writes (given req.update_config stored) (given req.update_tags req.tags)
          req.group req.name req.version)
        one)

  -- With object storage, a deletion that succeeds leaves no row of the plugin's key, asks the storage
  -- to delete its archive and the disk to remove its directory, and leaves no entry for that directory
  -- in the cache; one that fails, because there is no such row or the database fails, leaves archive,
  -- disk and cache as they were.
  pub delete-outcome :
      (group name version : Text) (s : State B)
      → B.has_storage ≡ true
      → (((delete B group name version s).0 ≡ ok tt)
          × (keep (has_key group name version) (T.table (delete B group name version s).1.rows)
              ≡ [])
          × ((delete B group name version s).1.objects
              ≡ (B.delete_object (archive_key group name version) s.objects).1)
          × ((delete B group name version s).1.disk
              ≡ B.remove_all (join_all (B.plugins_dir ∷ group ∷ name ∷ version ∷ [])) s.disk)
          × Forgets
              (join_all (B.plugins_dir ∷ group ∷ name ∷ version ∷ []))
              (delete B group name version s).1.cache)
        ⊎ ((e : Error) × ((delete B group name version s).0 ≡ err e)
            × ((delete B group name version s).1.objects ≡ s.objects)
            × ((delete B group name version s).1.disk ≡ s.disk)
            × ((delete B group name version s).1.cache ≡ s.cache))
  unfolding delete cleanup_binary
  delete-outcome group name version s storage =
      elim (Result-cases (B.delete_rows group name version s.rows).0) [
        | inr (e, failed) ↦ rw (failed, delete) (inr (e, refl, refl, refl, refl))
        | inl (zero, none_there) ↦
            rw (none_there, delete) (inr (not_found ∷ [], refl, refl, refl, refl))
        | inl (suc n, gone) ↦
            let table = (T.deletes group name version s.rows (suc n) gone).1 in
            rw (gone, delete, storage, cleanup_binary)
              (inl (
                refl,
                ap (keep (has_key group name version)) table
                    ∙ keep-not (has_key group name version) (T.table s.rows),
                refl,
                refl,
                forget-Forgets (join_all (B.plugins_dir ∷ group ∷ name ∷ version ∷ [])) s.cache,
              ))
      ]
