-- ===== src/Cli/Transfer.antt =====
-- cmd/easyp-svc/push.go, register.go, pack.go and progress.go: plugins on their way to the storage
-- and the server.
pub mod Batch
pub mod Packed
use easyp_plugin_server.Common.{
  ℕ, zero, suc, ◌+◌, List, [], ◌∷◌, ◌++◌, Option, none, some, Bool, true, false, not, ◌&&◌, ◌||◌,
  Text, codes, text_eq, contains, lookup, insert, delete, Result, ok, err, ltb, if◌then◌else◌,
}
use easyp_plugin_server.Paths.{clean, dir, join_all}
use easyp_plugin_server.Storage.{
  S3Options, S3Storage, StorageError, Files, Answers, exists, upload_file, move_file,
}
use easyp_plugin_server.Cli.Plugins.{
  PluginInfo, archive_object_key, archive_local_path, version_path, archive_name,
}

-- S3Config of the service
pub record S3Config : Type 0 where
  pub bucket : Text
  pub endpoint : Text
  pub region : Text
  pub prefix : Text
  pub access_key_id : Text
  pub secret_access_key : Text
  pub force_path_style : Bool

-- A text, or another where it is empty.
unfoldable pub or_text : Text → Text → Text
unfolding text_eq
or_text s t = if text_eq s [] then t else s

-- fillFromConfig
unfoldable pub fill_from_config : S3Options → S3Config → Bool → S3Options
unfolding or_text text_eq
fill_from_config opts s3 path_style_set =
    let no_credentials = text_eq opts.access_key_id [] && text_eq opts.secret_access_key [] in
    record {
      endpoint = or_text opts.endpoint s3.endpoint;
      bucket = or_text opts.bucket s3.bucket;
      region = or_text opts.region s3.region;
      prefix = or_text opts.prefix s3.prefix;
      access_key_id = if no_credentials then s3.access_key_id else opts.access_key_id;
      secret_access_key = if no_credentials then s3.secret_access_key else opts.secret_access_key;
      force_path_style = if not path_style_set then s3.force_path_style else opts.force_path_style;
    }

abbrev pub default_s3_region : Text
default_s3_region = codes "us-east-1"

-- resolveS3Options; `load` is the load of a configuration, for what it says of the storage.
unfoldable pub resolve_s3_options {ℓ} :
    {E : Type ℓ} → (Text → Result E S3Config) → Text → S3Options → Bool → Result E S3Options
unfolding fill_from_config or_text text_eq
resolve_s3_options load cfg_path flag_opts path_style_set =
    let region_of : S3Options → S3Options =
      λ opts. record opts { region = or_text opts.region default_s3_region } in
    if text_eq cfg_path [] then ok (region_of flag_opts) else elim (load cfg_path) [
      | err e ↦ err e
      | ok s3 ↦ ok (region_of (fill_from_config flag_opts s3 path_style_set))
    ]

pub data PrefixError : Type 0 where
  unread undecoded empty_plugins_dir : PrefixError

-- resolvePluginsPrefix; `read` gives the text of a file and `plugins_dir` the registry.plugins_dir
-- that the YAML decoder finds in it.
unfoldable pub resolve_plugins_prefix :
    (read : Text → Option Text) (plugins_dir : Text → Option Text)
    → Text
    → Text
    → Bool
    → Result PrefixError Text
unfolding clean text_eq
resolve_plugins_prefix read plugins_dir cfg_path prefix_flag prefix_explicit =
    if prefix_explicit
    then ok (clean prefix_flag)
    else if text_eq cfg_path []
    then ok (codes "/plugins")
    else elim (read cfg_path) [
      | none ↦ err unread
      | some data_ ↦ elim (plugins_dir data_) [
        | none ↦ err undecoded
        | some d ↦ if text_eq d [] then err empty_plugins_dir else ok (clean d)
      ]
    ]

-- What one plugin of a batch ends with: it was skipped or went through, or an error.
pub data TransferError : Type 0 where
  storage : StorageError → TransferError
  unpacked : TransferError
  limit_reached create_failed : TransferError
  pack_failed : TransferError

-- resolveArchive: the contents of the archive, if it can be had. A packed one is read later, and
-- one of a built tree is packed into a temporary file.
unfoldable pub resolve_archive :
    (pack : Text → Option Text) (read : Text → Option Text)
    → Text
    → Bool
    → PluginInfo
    → Result TransferError (Option Text)
unfolding join_all
resolve_archive pack read scan_path packed plg =
    if packed
    then ok (read (version_path scan_path plg (archive_name ∷ [])))
    else elim (pack (version_path scan_path plg [])) [
      | none ↦ err unpacked
      | some archive ↦ ok (some archive)
    ]

module _ (s : S3Storage) (pack read : Text → Option Text) (scan_path : Text)
    (packed force : Bool) where
  -- The upload of pushSinglePlugin.
  unfoldable pub push_archive : Bool → PluginInfo → Files → Files × Result TransferError Bool
  unfolding resolve_archive upload_file archive_object_key
  push_archive reachable plg objects = elim (resolve_archive pack read scan_path packed plg) [
    | err e ↦ (objects, err e)
    | ok file ↦
        let (after, outcome) = upload_file s reachable file (archive_object_key plg) objects in
        elim outcome [ ok _ ↦ (after, ok false) | err e ↦ (after, err (storage e)) ]
  ]

  -- pushSinglePlugin; the two flags say whether the storage answers each of the two calls.
  unfoldable pub push_single_plugin :
      Bool → Bool → PluginInfo → Files → Files × Result TransferError Bool
  unfolding push_archive exists archive_object_key
  push_single_plugin asked reachable plg objects =
      if force
      then push_archive reachable plg objects
      else elim (exists s asked (archive_object_key plg) objects) [
        | err e ↦ (objects, err (storage e))
        | ok true ↦ (objects, ok true)
        | ok false ↦ push_archive reachable plg objects
      ]

-- What CreatePlugin of the client returns: no error, or one with a status and its message.
pub data Code : Type 0 where
  already_exists resource_exhausted other_code : Code

pub data Created : Type 0 where
  created : Created
  refused : Code → Text → Created
  no_status : Created

-- registerSinglePlugin, from the answer on.
unfoldable pub register_outcome : Created → Result TransferError Bool
unfolding contains
register_outcome created = ok false
register_outcome (refused already_exists message) = ok true
register_outcome (refused resource_exhausted message) =
    if contains message (codes "max plugins exceeded") then err limit_reached else err create_failed
register_outcome (refused other_code message) = err create_failed
register_outcome no_status = err create_failed

-- batchTracker, without what only the display needs.
pub record BatchTracker : Type 0 where
  pub total : ℕ
  pub completed : ℕ
  pub succeeded : ℕ
  pub skipped : ℕ
  pub failed : ℕ

-- newBatchTracker
unfoldable pub new_batch_tracker : ℕ → BatchTracker
new_batch_tracker total = record {
  total = total;
  completed = 0;
  succeeded = 0;
  skipped = 0;
  failed = 0;
}

-- finish
unfoldable pub finish_item {ℓ} : {E : Type ℓ} → Result E Bool → BatchTracker → BatchTracker
finish_item (err e) t = record t { completed = suc t.completed; failed = suc t.failed }
finish_item (ok true) t = record t { completed = suc t.completed; skipped = suc t.skipped }
finish_item (ok false) t = record t { completed = suc t.completed; succeeded = suc t.succeeded }

-- What one function of the group does: nothing, as the context of the group has ended; or it
-- finishes an item, with an error that ends the group (a cancelled context) or not.
pub data Item {ℓ} (E : Type ℓ) : Type ℓ where
  not_begun : Item E
  finished : Result E Bool → Item E
  aborted : E → Item E

pub data BatchError : Type 0 where
  interrupted some_failed : BatchError

module _ {ℓ} {E : Type ℓ} where
  -- The items, in the order in which they end.
  unfoldable pub run_items : List (Item E) → BatchTracker → BatchTracker
  unfolding finish_item
  run_items [] t = t
  run_items (not_begun ∷ items) t = run_items items t
  run_items (finished outcome ∷ items) t = run_items items (finish_item outcome t)
  run_items (aborted e ∷ items) t = run_items items (finish_item {E = E} (err e) t)

  -- Whether Wait of the group returns an error.
  unfoldable pub ended_early : List (Item E) → Bool
  ended_early [] = false
  ended_early (not_begun ∷ items) = true
  ended_early (finished outcome ∷ items) = ended_early items
  ended_early (aborted e ∷ items) = true

  -- The end of pushAll; the flag says whether the context of the command has ended.
  unfoldable pub push_result : Bool → List (Item E) → BatchTracker → Option BatchError
  unfolding ended_early
  push_result ctx_ended items t =
      if ctx_ended
      then some interrupted
      else if ended_early items
      then some interrupted
      else if ltb 0 t.failed
      then some some_failed
      else none

  -- The end of registerAll, with registrationBatchError.
  unfoldable pub register_result : Bool → List (Item E) → BatchTracker → Option BatchError
  unfolding ended_early
  register_result fail_on_error items t =
      if ended_early items
      then some interrupted
      else if fail_on_error && ltb 0 t.failed
      then some some_failed
      else none

  -- The end of runPluginsPack, one item after the other; an item that is not begun ends it.
  unfoldable pub pack_from : List (Item E) → BatchTracker → BatchTracker × Bool
  unfolding finish_item
  pack_from [] t = (t, false)
  pack_from (not_begun ∷ items) t = (t, true)
  pack_from (finished outcome ∷ items) t = pack_from items (finish_item outcome t)
  pack_from (aborted e ∷ items) t = pack_from items (finish_item {E = E} (err e) t)

  unfoldable pub pack_result : List (Item E) → BatchTracker → Option BatchError
  unfolding pack_from
  pack_result items t =
      let (last, stopped) = pack_from items t in
      if stopped then some interrupted else if ltb 0 last.failed then some some_failed else none

-- What the disk answers while one plugin is packed.
pub record PackAnswers : Type 0 where
  pub stats : Bool
  pub made_dir : Bool
  pub temp : Option Text
  pub written : Bool
  pub partial : Text
  pub closed : Bool
  pub permitted : Bool
  pub renamed : Bool

-- packPluginDirTo and the rest of packSinglePlugin behind it; `archive` is what PackDir writes.
unfoldable pub place_archive : PackAnswers → Text → Text → Files → Files × Result TransferError Bool
unfolding move_file insert delete
place_archive a archive dest_path disk = elim a.temp [
  | none ↦ (disk, err pack_failed)
  | some tmp ↦
      if not a.written
      then (delete tmp (insert tmp a.partial disk), err pack_failed)
      else if not (a.closed && a.permitted && a.renamed)
      then (delete tmp (insert tmp archive disk), err pack_failed)
      else (move_file tmp dest_path archive (insert tmp archive disk), ok false)
]

-- packSinglePlugin, from MkdirAll on.
unfoldable pub write_archive : PackAnswers → Text → Text → Files → Files × Result TransferError Bool
unfolding place_archive
write_archive a archive dest_path disk =
    if a.made_dir then place_archive a archive dest_path disk else (disk, err pack_failed)

-- packSinglePlugin, with the path of the archive.
unfoldable pub pack_to :
    PackAnswers → Text → Text → Bool → Files → Files × Result TransferError Bool
unfolding write_archive lookup
pack_to a archive dest_path force disk =
    let written = write_archive a archive dest_path disk in
    if force
    then written
    else if not a.stats
    then (disk, err pack_failed)
    else elim (lookup dest_path disk) [ some contents ↦ (disk, ok true) | none ↦ written ]

-- packSinglePlugin
unfoldable pub pack_single_plugin :
    PackAnswers → Text → Text → PluginInfo → Bool → Files → Files × Result TransferError Bool
unfolding pack_to archive_local_path
pack_single_plugin a archive out_dir plg force disk =
    pack_to a archive (archive_local_path out_dir plg) force disk
