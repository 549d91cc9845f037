-- ===== src/Cli/Plugins.antt =====
-- cmd/easyp-svc/register.go, push.go and pack.go: the plugins of a tree, and the paths and keys
-- that they have on the disk, in the storage and on the server.
pub mod Layout
pub mod Served
use easyp_plugin_server.Common.{
  ℕ, List, [], ◌∷◌, ◌++◌, Option, none, some, Bool, true, false, not, ◌&&◌, Text, codes, text_eq,
  split, has_prefix, Result, ok, err, map, if◌then◌else◌,
}
use easyp_plugin_server.Paths.{slash, dotdot, is_abs, parts, render, clean, dir, join_all}
use easyp_plugin_server.Cli.Build.{Match, match_filter}

-- pluginInfo
pub record PluginInfo : Type 0 where
  pub group : Text
  pub name : Text
  pub version : Text

pub data ScanError : Type 0 where
  directory_not_exist not_a_directory path_outside_base invalid_structure unreadable : ScanError

abbrev pub archive_name : Text
archive_name = codes "plugin.tgz"

abbrev pub plugin_entrypoint_name : Text
plugin_entrypoint_name = codes "plugin"

-- The layout of a plugin version below a directory.
abbrev pub version_path : Text → PluginInfo → List Text → Text
version_path root plg leaf = join_all (root ∷ plg.group ∷ plg.name ∷ plg.version ∷ leaf)

-- pluginCommandPath
unfoldable pub plugin_command_path : Text → PluginInfo → Text
unfolding join_all
plugin_command_path plugins_prefix plg =
    version_path plugins_prefix plg (plugin_entrypoint_name ∷ [])

-- archiveObjectKey
unfoldable pub archive_object_key : PluginInfo → Text
unfolding join_all
archive_object_key plg = join_all (plg.group ∷ plg.name ∷ plg.version ∷ archive_name ∷ [])

-- archiveLocalPath
unfoldable pub archive_local_path : Text → PluginInfo → Text
unfolding join_all
archive_local_path out_dir plg = version_path out_dir plg (archive_name ∷ [])

-- pushSourcePath
unfoldable pub push_source_path : Text → Bool → PluginInfo → Text
unfolding join_all
push_source_path scan_path packed plg =
    if packed then version_path scan_path plg (archive_name ∷ []) else version_path scan_path plg []

-- The components of filepath.Rel, out of those of two paths.
unfoldable pub rel_parts : List Text → List Text → Option (List Text)
unfolding text_eq
rel_parts [] targ = some targ
rel_parts (b ∷ base) [] = if text_eq b dotdot then none else some (map (λ c. dotdot) (b ∷ base))
rel_parts (b ∷ base) (t ∷ targ) = elim (text_eq b t) [
  | true ↦ rel_parts base targ
  | false ↦ if text_eq b dotdot then none else some (map (λ c. dotdot) (b ∷ base) ++ t ∷ targ)
]

unfoldable pub same_kind : Bool → Bool → Bool
same_kind true b = b
same_kind false b = not b

-- filepath.Rel, of two paths of which it is known whether they are absolute, and the components.
unfoldable pub rel_of : Bool → Bool → List Text → List Text → Option Text
unfolding same_kind rel_parts render
rel_of rooted targ_rooted base targ =
    if same_kind rooted targ_rooted
    then elim (rel_parts base targ) [ none ↦ none | some cs ↦ some (render false cs) ]
    else none

-- filepath.Rel
unfoldable pub rel : Text → Text → Option Text
unfolding rel_of is_abs parts
rel base targ = rel_of (is_abs base) (is_abs targ) (parts base) (parts targ)

-- parsePluginPath
unfoldable pub parse_plugin_path : Text → Text → Text → Result ScanError PluginInfo
unfolding rel has_prefix split text_eq
parse_plugin_path base_path full_path leaf_name = elim (rel base_path full_path) [
  | none ↦ err invalid_structure
  | some path ↦ if has_prefix path dotdot then err path_outside_base else elim (split path slash) [
    | group ∷ name ∷ version ∷ leaf ∷ [] ↦
        if text_eq leaf leaf_name
        then ok record { group = group; name = name; version = version }
        else err invalid_structure
    | _ ↦ err invalid_structure
  ]
]

-- What filepath.WalkDir shows of an entry: an error, or its path, its last name and whether it is a
-- directory.
pub data Entry : Type 0 where
  walk_failed : Entry
  walked : (path name : Text) (is_dir : Bool) → Entry

module _ (matches : Match) (cleaned_path filter leaf_name : Text) where
  -- The plugin of one entry, if it is one that is looked for.
  unfoldable pub plugin_at : Text → Text → Bool → Option PluginInfo
  unfolding text_eq parse_plugin_path match_filter
  plugin_at path name is_dir =
      if is_dir
      then none
      else if not (text_eq name leaf_name)
      then none
      else elim (parse_plugin_path cleaned_path path leaf_name) [
        | err e ↦ none
        | ok plg ↦
            if match_filter matches plg.group plg.name plg.version filter then some plg else none
      ]

  -- The function that scanPluginTree hands to WalkDir, over the entries.
  unfoldable pub scan_entries : List Entry → Result ScanError (List PluginInfo)
  unfolding plugin_at
  scan_entries [] = ok []
  scan_entries (walk_failed ∷ entries) = err unreadable
  scan_entries (walked path name is_dir ∷ entries) = elim (scan_entries entries) [
    | err e ↦ err e
    | ok plugins ↦ elim (plugin_at path name is_dir) [
      | none ↦ ok plugins
      | some plg ↦ ok (plg ∷ plugins)
    ]
  ]

-- What os.Stat says of a directory.
pub data Stat : Type 0 where
  absent unknown : Stat
  found : (is_dir : Bool) → Stat

-- scanPluginTree; `walk` gives the entries below a directory.
unfoldable pub scan_plugin_tree :
    Match
    → (Text → Stat)
    → (Text → List Entry)
    → Text
    → Text
    → Text
    → Result ScanError (List PluginInfo)
unfolding clean scan_entries
scan_plugin_tree matches stat walk scan_path filter leaf_name = elim (stat scan_path) [
  | absent ↦ err directory_not_exist
  | unknown ↦ err unreadable
  | found false ↦ err not_a_directory
  | found true ↦ scan_entries matches (clean scan_path) filter leaf_name (walk (clean scan_path))
]

-- scanPushSource and scanRegisterSource
unfoldable pub scan_source :
    Match
    → (Text → Stat)
    → (Text → List Entry)
    → Text
    → Text
    → Bool
    → Result ScanError (List PluginInfo)
unfolding scan_plugin_tree
scan_source matches stat walk scan_path filter packed =
    scan_plugin_tree matches stat walk scan_path filter
      (if packed then archive_name else plugin_entrypoint_name)
