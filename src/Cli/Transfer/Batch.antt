-- ===== src/Cli/Transfer/Batch.antt =====
-- cmd/easyp-svc/push.go, register.go, pack.go: the tally of a batch, the credentials of a push, and
-- what a push leaves in the storage.
use easyp_plugin_server.Common.{
  ◌+◌, ◌≡◌, ◌⊎◌, inl, inr, refl, ap, ◌∙◌, List, [], ◌∷◌, Option, none, some, Bool, true, false, not,
  ◌&&◌, Text, text_eq, text_eq_iff, text_eq_refl, lookup, insert, lookup-insert, Result, ok, err,
  is_ok, length, arith, Bool-cases, Option-cases, Result-cases,
}
use easyp_plugin_server.Storage.{
  S3Options, S3Storage, StorageError, Files, format_key, exists, upload_file,
}
use easyp_plugin_server.Config.Merge.{is_some}
use easyp_plugin_server.Cli.Plugins.{PluginInfo, archive_object_key}
use easyp_plugin_server.Cli.Transfer.{
  S3Config, fill_from_config, TransferError, storage, resolve_archive, push_archive,
  push_single_plugin, BatchTracker, new_batch_tracker, finish_item, Item, not_begun, finished,
  aborted, run_items, ended_early, push_result,
}

both_empty : (s t : Text) → text_eq s [] && text_eq t [] ≡ true → (s ≡ []) × (t ≡ [])
both_empty s t h = ground (arith, text_eq_iff s [], text_eq_iff t [])

-- The two credentials come both from the flags or both from the configuration.
pub fill_from_config-pair :
    (opts : S3Options) (s3 : S3Config) (path_style_set : Bool)
    → (((fill_from_config opts s3 path_style_set).access_key_id ≡ opts.access_key_id)
        × ((fill_from_config opts s3 path_style_set).secret_access_key ≡ opts.secret_access_key))
      ⊎ (((fill_from_config opts s3 path_style_set).access_key_id ≡ s3.access_key_id)
          × ((fill_from_config opts s3 path_style_set).secret_access_key ≡ s3.secret_access_key)
          × (opts.access_key_id ≡ [])
          × (opts.secret_access_key ≡ []))
unfolding fill_from_config
fill_from_config-pair opts s3 path_style_set =
    elim (Bool-cases (text_eq opts.access_key_id [] && text_eq opts.secret_access_key [])) [
      | inr e ↦ inl (rw e refl, rw e refl)
      | inl e ↦
          let empty = both_empty opts.access_key_id opts.secret_access_key e in
          inr (rw e refl, rw e refl, empty.0, empty.1)
    ]

-- The tally agrees with itself.
pub record Tallied (t : BatchTracker) : Type 0 where
  pub sum : t.completed ≡ t.succeeded + t.skipped + t.failed

module _ {ℓ} {E : Type ℓ} where
  run_items-Tallied :
      (items : List (Item E)) (t : BatchTracker) → Tallied t → Tallied (run_items items t)
  unfolding run_items finish_item
  run_items-Tallied [] t h = h
  run_items-Tallied (not_begun ∷ items) t h = run_items-Tallied items t h
  run_items-Tallied (finished (ok true) ∷ items) t h =
      run_items-Tallied items _ record { sum = omega (arith, h.sum) }
  run_items-Tallied (finished (ok false) ∷ items) t h =
      run_items-Tallied items _ record { sum = omega (arith, h.sum) }
  run_items-Tallied (finished (err e) ∷ items) t h =
      run_items-Tallied items _ record { sum = omega (arith, h.sum) }
  run_items-Tallied (aborted e ∷ items) t h =
      run_items-Tallied items _ record { sum = omega (arith, h.sum) }

  run_items-completed :
      (items : List (Item E)) (t : BatchTracker)
      → ended_early items ≡ false
      → (run_items items t).completed ≡ t.completed + length items
  unfolding run_items finish_item ended_early
  run_items-completed [] t h = omega arith
  run_items-completed (not_begun ∷ items) t h = absurd (cc h)
  run_items-completed (finished (ok true) ∷ items) t h =
      omega (arith, run_items-completed items _ h)
  run_items-completed (finished (ok false) ∷ items) t h =
      omega (arith, run_items-completed items _ h)
  run_items-completed (finished (err e) ∷ items) t h = omega (arith, run_items-completed items _ h)
  run_items-completed (aborted e ∷ items) t h = absurd (cc h)

  push_result-none :
      (ctx_ended : Bool) (items : List (Item E)) (t : BatchTracker)
      → push_result ctx_ended items t ≡ none
      → (ended_early items ≡ false) × (t.failed ≡ 0)
  unfolding push_result
  push_result-none true items t h = absurd (cc h)
  push_result-none false items t h = ground arith

-- A push that returns no error has pushed each of its plugins or found it in the storage.
pub push_result_lem {ℓ} :
    {E : Type ℓ} (ctx_ended : Bool) (items : List (Item E))
    → push_result ctx_ended items (run_items items (new_batch_tracker (length items))) ≡ none
    → ((run_items items (new_batch_tracker (length items))).succeeded
          + (run_items items (new_batch_tracker (length items))).skipped
        ≡ length items)
      × ((run_items items (new_batch_tracker (length items))).failed ≡ 0)
unfolding new_batch_tracker
push_result_lem ctx_ended items h =
    let t = new_batch_tracker (length items) in
    let (early, none_failed) = push_result-none ctx_ended items (run_items items t) h in
    let tallied = run_items-Tallied items t record { sum = omega arith } in
    let all = run_items-completed items t early in
    (omega (arith, tallied.sum, all, none_failed), none_failed)

module _ (s : S3Storage) (plg : PluginInfo) (objects : Files) (key : Text) where
  -- What a push may do: another object stays, and without an error there is one of the plugin.
  abbrev pub Kept : Files × Result TransferError Bool → Type 0
  Kept (after, outcome) =
      (lookup key after ≡ lookup key objects)
      × (is_ok outcome && not (is_some (lookup (format_key s (archive_object_key plg)) after))
          ≡ false)

  failed-Kept : (e : TransferError) → Kept (objects, err e)
  failed-Kept e = (refl, refl)

  stored-Kept :
      (contents : Text)
      → text_eq (format_key s (archive_object_key plg)) key ≡ false
      → Kept (insert (format_key s (archive_object_key plg)) contents objects, ok false)
  unfolding is_some
  stored-Kept contents other =
      let own = format_key s (archive_object_key plg) in
      (
        lookup-insert own key contents objects ∙ rw other refl,
        ap (λ o. not (is_some o)) (lookup-insert own own contents objects)
            ∙ rw (text_eq_refl own) refl,
      )

  push_archive-Kept :
      (pack read : Text → Option Text) (scan_path : Text) (packed force reachable : Bool)
      → text_eq (format_key s (archive_object_key plg)) key ≡ false
      → Kept (push_archive s pack read scan_path packed force reachable plg objects)
  unfolding push_archive upload_file
  push_archive-Kept pack read scan_path packed force reachable other =
      elim (Result-cases (resolve_archive pack read scan_path packed plg)) [
        | inr (e, r) ↦ rw (r, push_archive) (failed-Kept e)
        | inl (none, r) ↦ rw (r, push_archive) (refl, refl)
        | inl (some contents, r) ↦ rw (r, push_archive) (upload reachable contents)
      ]
    where
      upload :
          (reachable : Bool) (contents : Text)
          → Kept (
              let (after, outcome) =
                upload_file s reachable (some contents) (archive_object_key plg) objects in
              elim outcome [ ok _ ↦ (after, ok false) | err e ↦ (after, err (storage e)) ])
      upload true contents = stored-Kept contents other
      upload false contents = (refl, refl)

exists-found :
    (s : S3Storage) (reachable : Bool) (key : Text) (objects : Files)
    → exists s reachable key objects ≡ ok true
    → not (is_some (lookup (format_key s key) objects)) ≡ false
unfolding exists is_some
exists-found s false key objects h = absurd (cc h)
exists-found s true key objects h = elim (Option-cases (lookup (format_key s key) objects)) [
  | inr (contents, e) ↦ rw e refl
  | inl e ↦
      let answer : Result StorageError Bool = ok false in
      let h' : answer ≡ ok true = rw (e, exists) at h in absurd (cc h')
]

-- Whatever the storage answers, pushing a plugin leaves the objects of all other keys as they are,
-- and an answer without an error means that there is an object of the plugin.
pub push_single_plugin-Kept :
    (s : S3Storage) (plg : PluginInfo) (objects : Files) (key : Text)
    (pack read : Text → Option Text) (scan_path : Text) (packed force asked reachable : Bool)
    → text_eq (format_key s (archive_object_key plg)) key ≡ false
    → Kept s plg objects key
        (push_single_plugin s pack read scan_path packed force asked reachable plg objects)
unfolding push_single_plugin
push_single_plugin-Kept s plg objects key pack read scan_path packed true asked reachable other =
    push_archive-Kept s plg objects key pack read scan_path packed true reachable other
push_single_plugin-Kept s plg objects key pack read scan_path packed false asked reachable other =
    elim (Result-cases (exists s asked (archive_object_key plg) objects)) [
      | inr (e, x) ↦ rw (x, push_single_plugin) (failed-Kept s plg objects key (storage e))
      | inl (false, x) ↦
          rw (x, push_single_plugin)
            (push_archive-Kept s plg objects key pack read scan_path packed false reachable other)
      | inl (true, x) ↦
          rw (x, push_single_plugin) (refl, exists-found s asked (archive_object_key plg) objects x)
    ]
