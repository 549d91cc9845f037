-- ===== src/Config/Schema/Known.antt =====
-- internal/config/diagnostics.go: the names of the schema are those of the settings.
use mathlib.Core.List.{Memᴰ}
use easyp_plugin_server.Common.{
  ◌≡◌, ◌⊎◌, inl, inr, refl, List, [], ◌∷◌, ◌++◌, true, Text, member, text_eq, text_eq→eq,
  Bool-cases, append_assoc, append-nil, arith, ◌∙◌, sym,
}
use easyp_plugin_server.Config.Leaves.{Leaf, joined}
use easyp_plugin_server.Config.Schema.{DocumentSchema, add_path, add_leaves, compute_schema}

-- The name of a setting, or of a section that a setting stands in.
pub record Names (leaves : List Leaf) (name : Text) : Type 0 where
  pub leaf : Leaf
  pub is_leaf : Memᴰ leaf leaves
  pub above : List Text
  pub below : List Text
  pub is_path : above ++ below ≡ leaf.yaml_path
  pub is_name : joined above ≡ name

pub member-cons :
    (name t : Text) (ts : List Text)
    → member name (t ∷ ts) ≡ true
    → (t ≡ name) ⊎ (member name ts ≡ true)
unfolding member
member-cons name t ts h = elim (Bool-cases (text_eq t name)) [
  | inl e ↦ inl (text_eq→eq t name e)
  | inr e ↦ inr (ground (arith))
]

-- A name that the schema has, as a setting or as a section.
abbrev Has : Text → DocumentSchema → Type 0
Has name schema = (member name schema.leaves ≡ true) ⊎ (member name schema.sections ≡ true)

-- A name that lies on the path, below what is already done of it.
record On (done path : List Text) (name : Text) : Type 0 where
  reached : List Text
  below : List Text
  is_path : reached ++ below ≡ done ++ path
  is_name : joined reached ≡ name

add_path-Has :
    (name : Text) (done path : List Text) (schema : DocumentSchema)
    → Has name (add_path done path schema)
    → Has name schema ⊎ On done path name
unfolding add_path
add_path-Has name done [] schema h = inl h
add_path-Has name done (n ∷ []) schema (inr h) = inl (inr h)
add_path-Has name done (n ∷ []) schema (inl h) =
    elim (member-cons name (joined (done ++ n ∷ [])) schema.leaves h) [
      | inr old ↦ inl (inl old)
      | inl e ↦ inr record {
        reached = done ++ n ∷ [];
        below = [];
        is_path = append-nil (done ++ n ∷ []);
        is_name = e;
      }
    ]
add_path-Has name done (n ∷ next ∷ path) schema h =
    elim (add_path-Has name (done ++ n ∷ []) (next ∷ path) _ h) [
      | inl (inl old) ↦ inl (inl old)
      | inl (inr old) ↦ elim (member-cons name (joined (done ++ n ∷ [])) schema.sections old) [
        | inr older ↦ inl (inr older)
        | inl e ↦ inr record {
          reached = done ++ n ∷ [];
          below = next ∷ path;
          is_path = append_assoc done (n ∷ []) (next ∷ path);
          is_name = e;
        }
      ]
      | inr on ↦ inr record {
        reached = on.reached;
        below = on.below;
        is_path = on.is_path ∙ append_assoc done (n ∷ []) (next ∷ path);
        is_name = on.is_name;
      }
    ]

add_leaves-Has :
    (name : Text) (leaves : List Leaf) (schema : DocumentSchema)
    → Has name (add_leaves leaves schema)
    → Has name schema ⊎ Names leaves name
unfolding add_leaves
add_leaves-Has name [] schema h = inl h
add_leaves-Has name (leaf ∷ leaves) schema h =
    elim (add_leaves-Has name leaves (add_path [] leaf.yaml_path schema) h) [
      | inr n ↦ inr record {
        leaf = n.leaf;
        is_leaf = Memᴰ.tail n.is_leaf;
        above = n.above;
        below = n.below;
        is_path = n.is_path;
        is_name = n.is_name;
      }
      | inl old ↦ elim (add_path-Has name [] leaf.yaml_path schema old) [
        | inl older ↦ inl older
        | inr on ↦ inr record {
          leaf = leaf;
          is_leaf = Memᴰ.head refl;
          above = on.reached;
          below = on.below;
          is_path = on.is_path;
          is_name = on.is_name;
        }
      ]
    ]

-- A name of the schema is that of a setting or of a section around one, but for the empty name of
-- the document itself.
pub compute_schema-Names :
    (name : Text) (leaves : List Leaf)
    → Has name (compute_schema leaves)
    → (name ≡ []) ⊎ Names leaves name
unfolding compute_schema member
compute_schema-Names name leaves h =
    elim (add_leaves-Has name leaves record { leaves = []; sections = [] ∷ []; children = [] } h) [
      | inr n ↦ inr n
      | inl (inl never) ↦ cc
      | inl (inr root) ↦ inl (elim (member-cons name [] [] root) [ inl e ↦ sym e | inr never ↦ cc ])
    ]
