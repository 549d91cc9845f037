-- ===== src/Config/Schema.antt =====
-- internal/config/diagnostics.go: the names that a config file may use.
pub mod Known
use easyp_plugin_server.Common.{
  ℕ, List, [], ◌∷◌, ◌++◌, Option, none, some, Bool, true, false, not, Text, codes, member, lookup,
  insert, text_eq, if◌then◌else◌, split,
}
use easyp_plugin_server.Config.Leaves.{Leaf, joined}
use easyp_plugin_server.Config.Diagnostics.{normalise, best_match}

-- documentSchema; a set is the list of its members, the children are a map.
pub record DocumentSchema : Type 0 where
  pub leaves : List Text
  pub sections : List Text
  pub children : List (Text × List Text)

unfoldable pub children_of : Text → List (Text × List Text) → List Text
unfolding lookup
children_of parent children = elim (lookup parent children) [ none ↦ [] | some names ↦ names ]

-- Adds a name under a section, once.
unfoldable pub add_child : Text → Text → List (Text × List Text) → List (Text × List Text)
unfolding children_of member insert
add_child parent name children =
    let names = children_of parent children in
    if member name names then children else insert parent (names ++ name ∷ []) children

-- The inner loop of computeSchema, `above` being the names in front of the depth.
unfoldable pub add_path : List Text → List Text → DocumentSchema → DocumentSchema
unfolding joined add_child
add_path above [] schema = schema
add_path above (name ∷ []) schema = record {
  leaves = joined (above ++ name ∷ []) ∷ schema.leaves;
  sections = schema.sections;
  children = add_child (joined above) name schema.children;
}
add_path above (name ∷ next ∷ path) schema = add_path (above ++ name ∷ []) (next ∷ path) record {
  leaves = schema.leaves;
  sections = joined (above ++ name ∷ []) ∷ schema.sections;
  children = add_child (joined above) name schema.children;
}

-- The outer loop.
unfoldable pub add_leaves : List Leaf → DocumentSchema → DocumentSchema
unfolding add_path
add_leaves [] schema = schema
add_leaves (leaf ∷ leaves) schema = add_leaves leaves (add_path [] leaf.yaml_path schema)

-- computeSchema
unfoldable pub compute_schema : List Leaf → DocumentSchema
unfolding add_leaves
compute_schema leaves = add_leaves leaves record { leaves = []; sections = [] ∷ []; children = [] }

-- qualify
unfoldable pub qualify : Text → Text → Text
unfolding text_eq
qualify parent name = if text_eq parent [] then name else parent ++ b'.' ∷ name

unfoldable pub last_segment : List Text → Text
last_segment [] = []
last_segment (name ∷ []) = name
last_segment (name ∷ next ∷ path) = last_segment (next ∷ path)

-- The last loop of hintFor, over the paths of all settings; Go leaves their order open, and here
-- it is that of the list.
unfoldable pub misplaced : Text → List Text → Text
unfolding split last_segment normalise text_eq
misplaced key [] = []
misplaced key (path ∷ paths) =
    let rest = misplaced key paths in
    if text_eq (normalise (last_segment (split path b'.'))) (normalise key)
    then codes "did you mean " ++ path ++ codes "?"
    else rest

-- hintFor
unfoldable pub hint_for : Text → Text → DocumentSchema → Text
unfolding children_of best_match qualify misplaced
hint_for key parent schema = elim (best_match key (children_of parent schema.children)) [
  | some match_ ↦ codes "did you mean " ++ qualify parent match_ ++ codes "?"
  | none ↦ misplaced key schema.leaves
]
