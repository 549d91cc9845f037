-- ===== src/Cli/Print.antt =====
-- cmd/easyp-svc/config.go: the resolved settings as `config print` shows them.
pub mod Hidden
pub mod Nested
use easyp_plugin_server.Common.{
  ℕ, zero, suc, ◌+◌, List, [], ◌∷◌, ◌++◌, Option, none, some, Bool, true, false, not, ◌&&◌, Text,
  codes, text_eq, lookup, Result, ok, err, length, drop, if◌then◌else◌,
}
use easyp_plugin_server.Config.Leaves.{Leaf, leaf_name}
use easyp_plugin_server.Config.Merge.{Origin, origin_default, origin_file, origin_env, Origins}

-- commonPrefix
unfoldable pub common_prefix : List Text → List Text → ℕ
unfolding text_eq
common_prefix [] right = 0
common_prefix (l ∷ left) [] = 0
common_prefix (l ∷ left) (r ∷ right) =
    let rest = common_prefix left right in if text_eq l r then suc rest else 0

-- String of Origin
unfoldable pub origin_string : Origin → Text
origin_string origin_env = codes "env"
origin_string origin_file = codes "file"
origin_string origin_default = codes "default"

-- describeOrigin
unfoldable pub describe_origin : Leaf → Origins → List (Text × Text) → Text
unfolding leaf_name lookup origin_string
describe_origin leaf origins aliases = elim (lookup (leaf_name leaf) origins) [
  | none ↦ codes "unknown"
  | some origin_file ↦ origin_string origin_file
  | some origin_default ↦ origin_string origin_default
  | some origin_env ↦ elim (lookup leaf.env_key aliases) [
    | some alias_ ↦ codes "env " ++ alias_ ++ codes " (alias for " ++ leaf.env_key ++ codes ")"
    | none ↦ codes "env " ++ leaf.env_key
  ]
]

-- How many settings a layer supplied: originCounts at one origin.
unfoldable pub same_origin : Origin → Origin → Bool
same_origin origin_env origin_env = true
same_origin origin_file origin_file = true
same_origin origin_default origin_default = true
same_origin _ _ = false

unfoldable pub origin_count : Origin → Origins → ℕ
unfolding same_origin
origin_count o [] = 0
origin_count o ((name, p) ∷ origins) =
    let rest = origin_count o origins in if same_origin o p then suc rest else rest

-- A line of the output: a section, or a setting with its value and, if asked for, its origin; both
-- with their depth.
pub data Line : Type 0 where
  section : ℕ → Text → Line
  setting : ℕ → Text → Text → Option Text → Line

-- The headers of the sections from this depth on.
unfoldable pub headers : ℕ → List Text → List Line
headers depth [] = []
headers depth (name ∷ path) = section depth name ∷ headers (suc depth) path

-- The path without its last name, and the last name; a setting has a name.
unfoldable pub parents : List Text → List Text
parents [] = []
parents (name ∷ []) = []
parents (name ∷ next ∷ path) = name ∷ parents (next ∷ path)

unfoldable pub last_name : List Text → Text
last_name [] = []
last_name (name ∷ []) = name
last_name (name ∷ next ∷ path) = last_name (next ∷ path)

-- printOptions, without the path of the file.
pub record PrintOptions : Type 0 where
  pub show_secrets : Bool
  pub origin : Bool
  pub changed : Bool
  pub aliases : List (Text × Text)

abbrev pub redacted_value : Text
redacted_value = codes "\"***\""

-- What the library says of a value: whether it is the zero value of its type, its YAML on one
-- line, and whether two values of a setting are the same one.
pub record Values {ℓ} (V : Type ℓ) : Type ℓ where
  pub is_zero : V → Bool
  pub encode : V → Option Text
  pub same_value : V → V → Bool

-- The body of writeConfig's loop behind the headers, and the lines that follow.
unfoldable pub emit :
    List Line → (Text → Line) → Option Text → Option (List Line) → Option (List Line)
emit heads line none rest = none
emit heads line (some rendered) none = none
emit heads line (some rendered) (some lines) = some (heads ++ line rendered ∷ lines)

-- The line of a setting.
unfoldable pub setting_line : Leaf → Origins → PrintOptions → Text → Line
unfolding parents last_name describe_origin
setting_line leaf origins opts rendered =
    setting (length (parents leaf.yaml_path)) (last_name leaf.yaml_path) rendered
      (if opts.origin then some (describe_origin leaf origins opts.aliases) else none)

module _ {ℓ} {V : Type ℓ} (values : Values V) where
  -- renderValue
  unfoldable pub render_value : Leaf → (Text → V) → Bool → Option Text
  unfolding leaf_name
  render_value leaf cfg show_secrets =
      let value = cfg (leaf_name leaf) in
      if leaf.secret && not show_secrets && not (values.is_zero value)
      then some redacted_value
      else values.encode value

  -- writeConfig, the loop; none is an error of the encoding.
  unfoldable pub write_from :
      List Text → List Leaf → (Text → V) → Origins → PrintOptions → Option (List Line)
  unfolding parents common_prefix headers render_value setting_line emit
  write_from previous [] cfg origins opts = some []
  write_from previous (leaf ∷ leaves) cfg origins opts =
      let above = parents leaf.yaml_path in
      let shared = common_prefix previous above in
      let rest = write_from above leaves cfg origins opts in
      emit (headers shared (drop shared above)) (setting_line leaf origins opts)
        (render_value leaf cfg opts.show_secrets) rest

  -- writeConfig
  unfoldable pub write_config : List Leaf → (Text → V) → Origins → PrintOptions → Option (List Line)
  unfolding write_from
  write_config leaves cfg origins opts = write_from [] leaves cfg origins opts

  -- The selection of runConfigPrint and renderChanged.
  unfoldable pub selected : Bool → List Leaf → (Text → V) → (Text → V) → List Leaf
  unfolding leaf_name
  selected changed [] cfg defaults = []
  selected changed (leaf ∷ leaves) cfg defaults =
      let rest = selected changed leaves cfg defaults in
      if changed && values.same_value (cfg (leaf_name leaf)) (defaults (leaf_name leaf))
      then rest
      else leaf ∷ rest

  -- runConfigPrint, from the resolved configuration on.
  unfoldable pub print_config :
      List Leaf → (Text → V) → (Text → V) → Origins → PrintOptions → Option (List Line)
  unfolding write_config selected
  print_config leaves cfg defaults origins opts =
      write_config (selected opts.changed leaves cfg defaults) cfg origins opts
