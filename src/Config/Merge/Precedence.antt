-- ===== src/Config/Merge/Precedence.antt =====
-- internal/config/config.go: the environment wins over the file, and the file over the default.
use mathlib.Core.List.{Memᴰ}
use easyp_plugin_server.Common.{
  ◌≡◌, ◌≢◌, refl, sym, All-Memᴰ, List, [], ◌∷◌, some, true, false, Text, All, ap, ◌∙◌, text_eq,
  text_eq_refl, text_eq-ne, lookup, insert, lookup-insert, arith, if◌then◌else◌,
}
use easyp_plugin_server.Config.Leaves.{Leaf, leaf_name}
use easyp_plugin_server.Config.Env.{Lookuper}
use easyp_plugin_server.Config.Merge.{
  Origin, origin_default, origin_file, origin_env, Origins, Doc, document_has_key, is_some,
  set_value, merge_leaf, merge_from, merge_file_values,
}

-- No two settings have one name.
abbrev pub Distinct : List Leaf → Type 0
Distinct [] = Unit
Distinct (leaf ∷ leaves) = All (λ l. leaf_name l ≢ leaf_name leaf) leaves × Distinct leaves

-- The layer that supplies a setting: the environment, then the file, then the default.
abbrev pub layer_of : Lookuper → Doc → Leaf → Origin
layer_of lookuper doc leaf = elim (is_some (lookuper leaf.env_key)) [
  | true ↦ origin_env
  | false ↦ elim (document_has_key doc leaf.yaml_path) [
    | true ↦ origin_file
    | false ↦ origin_default
  ]
]

lookup-insert_ne :
    (n m : Text) (v : Origin) (origins : Origins)
    → n ≢ m
    → lookup m (insert n v origins) ≡ lookup m origins
lookup-insert_ne n m v origins ne = rw (lookup-insert n m v origins, text_eq-ne n m ne) refl

lookup-insert_self :
    (n : Text) (v : Origin) (origins : Origins) → lookup n (insert n v origins) ≡ some v
lookup-insert_self n v origins = rw (lookup-insert n n v origins, text_eq_refl n) refl

module _ {ℓ} {V : Type ℓ} (from_file : Text → V) (doc : Doc) (lookuper : Lookuper) where
  -- The value that the layer gives to a setting, where `held` is what stood there before.
  abbrev pub value_from : Origin → Text → V → V
  value_from origin_env name held = held
  value_from origin_file name held = from_file name
  value_from origin_default name held = held

  merge_leaf-origins :
      (leaf : Leaf) (merged : (Text → V) × Origins)
      → (merge_leaf from_file doc lookuper leaf merged).1
        ≡ insert (leaf_name leaf) (layer_of lookuper doc leaf) merged.1
  unfolding merge_leaf
  merge_leaf-origins leaf (resolved, origins) = ground arith

  merge_leaf-value :
      (leaf : Leaf) (merged : (Text → V) × Origins) (n : Text)
      → (merge_leaf from_file doc lookuper leaf merged).0 n ≡ (
          if text_eq (leaf_name leaf) n
          then value_from (layer_of lookuper doc leaf) (leaf_name leaf) (merged.0 n)
          else merged.0 n)
  unfolding merge_leaf set_value
  merge_leaf-value leaf (resolved, origins) n = ground arith

  -- A setting behind which no other of its name comes is left as it is.
  merge_from-other :
      (leaves : List Leaf) (merged : (Text → V) × Origins) (n : Text)
      → All (λ l. leaf_name l ≢ n) leaves
      → ((merge_from from_file doc lookuper leaves merged).0 n ≡ merged.0 n)
        × (lookup n (merge_from from_file doc lookuper leaves merged).1 ≡ lookup n merged.1)
  unfolding merge_from
  merge_from-other [] merged n h = (refl, refl)
  merge_from-other (leaf ∷ leaves) merged n h =
      let next = merge_leaf from_file doc lookuper leaf merged in
      let ih = merge_from-other leaves next n h.1 in
      let differs = text_eq-ne (leaf_name leaf) n h.0 in
      (
        ih.0 ∙ merge_leaf-value leaf merged n ∙ rw differs refl,
        ih.1
            ∙ ap (lookup n) (merge_leaf-origins leaf merged)
            ∙ lookup-insert_ne (leaf_name leaf) n (layer_of lookuper doc leaf) merged.1 h.0,
      )

  merge_from-layers :
      (leaves : List Leaf) (merged : (Text → V) × Origins) (leaf : Leaf)
      → Distinct leaves
      → Memᴰ leaf leaves
      → ((merge_from from_file doc lookuper leaves merged).0 (leaf_name leaf)
          ≡ value_from (layer_of lookuper doc leaf) (leaf_name leaf) (merged.0 (leaf_name leaf)))
        × (lookup (leaf_name leaf) (merge_from from_file doc lookuper leaves merged).1
            ≡ some (layer_of lookuper doc leaf))
  unfolding merge_from
  merge_from-layers [] merged leaf d m = elim m [ ]
  merge_from-layers (l ∷ leaves) merged leaf d (Memᴰ.tail m) =
      let next = merge_leaf from_file doc lookuper l merged in
      let ih = merge_from-layers leaves next leaf d.1 m in
      let differs =
        text_eq-ne (leaf_name l) (leaf_name leaf)
          (λ e. All-Memᴰ (λ x. leaf_name x ≢ leaf_name l) leaves leaf d.0 m (sym e)) in
      (
        ih.0
            ∙ ap (value_from (layer_of lookuper doc leaf) (leaf_name leaf))
                (merge_leaf-value l merged (leaf_name leaf) ∙ rw differs refl),
        ih.1,
      )
  merge_from-layers (l ∷ leaves) merged leaf d (Memᴰ.head e) =
      let next = merge_leaf from_file doc lookuper l merged in
      let ih = merge_from-other leaves next (leaf_name l) d.0 in
      rw e (
        ih.0 ∙ merge_leaf-value l merged (leaf_name l) ∙ rw (text_eq_refl (leaf_name l)) refl,
        ih.1
            ∙ ap (lookup (leaf_name l)) (merge_leaf-origins l merged)
            ∙ lookup-insert_self (leaf_name l) (layer_of lookuper doc l) merged.1,
      )

-- Where no two settings have one name, the merge gives each setting the value of the first layer
-- that supplies it, the environment, then the file whatever it says there, then the default, and
-- reports that layer as its origin.
pub merge_file_values-precedence {ℓ} :
    {V : Type ℓ} (resolved from_file : Text → V) (doc : Doc) (lookuper : Lookuper)
    (leaves : List Leaf) (leaf : Leaf)
    → Distinct leaves
    → Memᴰ leaf leaves
    → ((merge_file_values resolved from_file doc lookuper leaves).0 (leaf_name leaf)
        ≡ value_from from_file doc lookuper
            (layer_of lookuper doc leaf)
            (leaf_name leaf)
            (resolved (leaf_name leaf)))
      × (lookup (leaf_name leaf) (merge_file_values resolved from_file doc lookuper leaves).1
          ≡ some (layer_of lookuper doc leaf))
unfolding merge_file_values
merge_file_values-precedence resolved from_file doc lookuper leaves leaf d m =
    merge_from-layers from_file doc lookuper leaves (resolved, []) leaf d m
