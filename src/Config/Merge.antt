-- ===== src/Config/Merge.antt =====
-- internal/config/config.go: the layers that a setting's value comes from.
pub mod Precedence
use easyp_plugin_server.Common.{
  ℕ, List, [], ◌∷◌, Option, none, some, Bool, true, false, Text, text_eq, lookup, insert,
  if◌then◌else◌,
}
use easyp_plugin_server.Config.Leaves.{Leaf, leaf_name}
use easyp_plugin_server.Config.Env.{Lookuper}

-- Origin
pub data Origin : Type 0 where
  origin_default origin_file origin_env : Origin

-- Origins
abbrev pub Origins : Type 0
Origins = List (Text × Origin)

-- The document as a map of maps.
mutual
  pub data Value : Type 0 where
    nested : Doc → Value
    scalar : Value

  pub data Doc : Type 0 where
    empty : Doc
    key : Text → Value → Doc → Doc

unfoldable pub value_of : Text → Doc → Option Value
unfolding text_eq
value_of name empty = none
value_of name (key k value doc) =
    let rest = value_of name doc in if text_eq k name then some value else rest

unfoldable pub is_some {ℓ} : {A : Type ℓ} → Option A → Bool
is_some none = false
is_some (some a) = true

-- documentHasKey
unfoldable pub document_has_key : Doc → List Text → Bool
unfolding value_of is_some
document_has_key doc [] = false
document_has_key doc (name ∷ []) = is_some (value_of name doc)
document_has_key doc (name ∷ next ∷ path) = elim (value_of name doc) [
  | none ↦ false
  | some scalar ↦ false
  | some (nested inner) ↦ document_has_key inner (next ∷ path)
]

module _ {ℓ} {V : Type ℓ} where
  -- leaf.Value(cfg).Set(value), of settings by their names
  unfoldable pub set_value : Text → V → (Text → V) → (Text → V)
  unfolding text_eq
  set_value name value cfg n = if text_eq name n then value else cfg n

  -- The body of mergeFileValues' loop.
  unfoldable pub merge_leaf :
      (Text → V) → Doc → Lookuper → Leaf → (Text → V) × Origins → (Text → V) × Origins
  unfolding leaf_name document_has_key set_value is_some insert
  merge_leaf from_file doc lookuper leaf (resolved, origins) =
      let name = leaf_name leaf in
      if is_some (lookuper leaf.env_key)
      then (resolved, insert name origin_env origins)
      else if document_has_key doc leaf.yaml_path
      then (set_value name (from_file name) resolved, insert name origin_file origins)
      else (resolved, insert name origin_default origins)

  unfoldable pub merge_from :
      (Text → V) → Doc → Lookuper → List Leaf → (Text → V) × Origins → (Text → V) × Origins
  unfolding merge_leaf
  merge_from from_file doc lookuper [] merged = merged
  merge_from from_file doc lookuper (leaf ∷ leaves) merged =
      merge_from from_file doc lookuper leaves (merge_leaf from_file doc lookuper leaf merged)

  -- mergeFileValues
  unfoldable pub merge_file_values :
      (Text → V) → (Text → V) → Doc → Lookuper → List Leaf → (Text → V) × Origins
  unfolding merge_from
  merge_file_values resolved from_file doc lookuper leaves =
      merge_from from_file doc lookuper leaves (resolved, [])

-- environmentOrigins, the loop.
unfoldable pub origins_from : Lookuper → List Leaf → Origins → Origins
unfolding leaf_name is_some insert
origins_from lookuper [] origins = origins
origins_from lookuper (leaf ∷ leaves) origins =
    let first = insert (leaf_name leaf) origin_default origins in
    origins_from lookuper leaves
      (if is_some (lookuper leaf.env_key) then insert (leaf_name leaf) origin_env first else first)

-- environmentOrigins
unfoldable pub environment_origins : Lookuper → List Leaf → Origins
unfolding origins_from
environment_origins lookuper leaves = origins_from lookuper leaves []
