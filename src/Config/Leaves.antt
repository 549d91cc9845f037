-- ===== src/Config/Leaves.antt =====
-- internal/config/fields.go: the settings, each with its place in the file and its variable.
use easyp_plugin_server.Common.{
  ℕ, Bool, true, false, not, Option, none, some, List, [], ◌∷◌, ◌++◌, ◌==◌, ◌||◌, Text, Result, ok,
  err, ◌>>=◌, codes, text_eq, split, has_prefix, drop, trim_space, if◌then◌else◌,
}

-- Leaf, but for the index of the field in the Go struct, which its name stands for.
pub record Leaf : Type 0 where
  pub yaml_path : List Text
  pub env_key : Text
  pub default : Text
  pub has_default : Bool
  pub secret : Bool

-- strings.Join with a separator of one byte
unfoldable pub joined : List Text → Text
joined [] = []
joined (name ∷ []) = name
joined (name ∷ next ∷ path) = name ++ b'.' ∷ joined (next ∷ path)

-- Name
unfoldable pub leaf_name : Leaf → Text
unfolding joined
leaf_name leaf = joined leaf.yaml_path

-- envTag
pub record EnvTag : Type 0 where
  pub key : Text
  pub prefix : Text
  pub def : Text
  pub has_def : Bool

-- strings.TrimLeft by spaces and tabs
unfoldable pub trim_blanks : Text → Text
trim_blanks [] = []
trim_blanks (c ∷ s) = if c == 32 || c == 9 then trim_blanks s else c ∷ s

-- strings.Join by commas
unfoldable pub comma_joined : List Text → Text
comma_joined [] = []
comma_joined (part ∷ []) = part
comma_joined (part ∷ next ∷ parts) = part ++ b',' ∷ comma_joined (next ∷ parts)

-- The options that parseEnvTag passes over.
unfoldable pub is_ignored : Text → Bool
unfolding text_eq has_prefix
is_ignored opt =
    text_eq opt []
    || text_eq opt (codes "required")
    || text_eq opt (codes "noinit")
    || text_eq opt (codes "overwrite")
    || text_eq opt (codes "decodeunset")
    || has_prefix opt (codes "delimiter=")
    || has_prefix opt (codes "separator=")

-- What walkFields and parseEnvTag refuse.
pub data TagError : Type 0 where
  unknown_option : Text → TagError
  untagged_field : TagError

-- The loop of parseEnvTag, over the options behind the name.
unfoldable pub read_options : EnvTag → List Text → Result TagError EnvTag
unfolding trim_blanks comma_joined is_ignored has_prefix
read_options parsed [] = ok parsed
read_options parsed (part ∷ parts) =
    let opt = trim_blanks part in
    let prefixed = read_options (record parsed { prefix = drop 7 opt }) parts in
    let rest = read_options parsed parts in
    if has_prefix opt (codes "prefix=")
    then prefixed
    else if has_prefix opt (codes "default=")
    then ok
        (record parsed { def = drop 8 (trim_blanks (comma_joined (part ∷ parts))); has_def = true })
    else if is_ignored opt
    then rest
    else err (unknown_option opt)

-- parseEnvTag; strings.Split always gives a first part.
unfoldable pub parse_env_tag : Text → Result TagError EnvTag
unfolding split trim_space read_options
parse_env_tag tag = elim (split tag b',') [
  | [] ↦ ok record { key = []; prefix = []; def = []; has_def = false }
  | part ∷ parts ↦
      read_options record { key = trim_space part; prefix = []; def = []; has_def = false } parts
]

-- The tags of a field and whether it is exported, as reflection shows them.
pub record Tags : Type 0 where
  pub exported : Bool
  pub yaml : Text
  pub env : Text
  pub is_secret : Bool

-- A struct type: its fields, and the fields of those that isSection tells from settings.
mutual
  pub data Kind : Type 0 where
    setting : Kind
    section : Fields → Kind

  pub data Fields : Type 0 where
    end : Fields
    field : Tags → Kind → Fields → Fields

-- strings.Cut, what stands before the separator
unfoldable pub before : ℕ → Text → Text
before sep [] = []
before sep (c ∷ s) = if c == sep then [] else c ∷ before sep s

-- yamlFieldName; none where the file excludes the field.
unfoldable pub yaml_field_name : Text → Option Text
unfolding text_eq trim_space before
yaml_field_name tag = if text_eq tag (codes "-") then none else some (trim_space (before b',' tag))

-- walkFields; it returns what the source appends to `out`.
unfoldable mutual
  unfolding yaml_field_name parse_env_tag text_eq

  pub walk_fields : Fields → List Text → Text → Result TagError (List Leaf)
  walk_fields end path prefix = ok []
  walk_fields (field tags kind fields) path prefix =
      let rest = walk_fields fields path prefix in
      if not tags.exported then rest else elim (yaml_field_name tags.yaml) [
        | none ↦ rest
        | some name ↦ elim (parse_env_tag tags.env) [
          | err e ↦ err e
          | ok tag ↦ walk_kind kind tags name tag path prefix >>= λ leaves.
              rest >>= λ others. ok (leaves ++ others)
        ]
      ]

  walk_kind : Kind → Tags → Text → EnvTag → List Text → Text → Result TagError (List Leaf)
  walk_kind (section fields) tags name tag path prefix =
      walk_fields fields (path ++ name ∷ []) (prefix ++ tag.prefix)
  walk_kind setting tags name tag path prefix =
      if text_eq name [] || text_eq tag.key []
      then err untagged_field
      else ok (
          record {
            yaml_path = path ++ name ∷ [];
            env_key = prefix ++ tag.key;
            default = tag.def;
            has_default = tag.has_def;
            secret = tags.is_secret;
          }
          ∷ [])

-- walkSections
unfoldable mutual
  unfolding yaml_field_name parse_env_tag text_eq

  pub walk_sections : Fields → Text → Result TagError (List Text)
  walk_sections end prefix = ok []
  walk_sections (field tags kind fields) prefix =
      let rest = walk_sections fields prefix in walk_section kind tags prefix rest

  walk_section : Kind → Tags → Text → Result TagError (List Text) → Result TagError (List Text)
  walk_section setting tags prefix rest = rest
  walk_section (section fields) tags prefix rest =
      if not tags.exported then rest else elim (yaml_field_name tags.yaml) [
        | none ↦ rest
        | some name ↦ elim (parse_env_tag tags.env) [
          | err e ↦ err e
          | ok tag ↦
              let found = prefix ++ tag.prefix in
              walk_sections fields found >>= λ inner.
              rest >>= λ others. ok ((if text_eq found [] then inner else found ∷ inner) ++ others)
        ]
      ]
