-- ===== src/Config/Document.antt =====
-- internal/config/diagnostics.go: the keys of a config file that name no setting.
pub mod Reported
pub mod Accepted
use easyp_plugin_server.Common.{
  ℕ, zero, suc, List, [], ◌∷◌, ◌++◌, Option, none, some, Bool, true, false, ◌&&◌, ◌||◌, not, Text,
  codes, text_eq, has_prefix, member, lookup, if◌then◌else◌, ltb, drop, length,
}
use easyp_plugin_server.Config.Leaves.{Leaf, joined}
use easyp_plugin_server.Config.Schema.{DocumentSchema, compute_schema, hint_for}

pub data Severity : Type 0 where
  warning error : Severity

pub data Source : Type 0 where
  file env : Source

pub record Diagnostic : Type 0 where
  pub severity : Severity
  pub source : Source
  pub path : Text
  pub line : ℕ
  pub message : Text
  pub hint : Text

unfoldable pub is_error : Diagnostic → Bool
is_error diag = elim (diag.severity) [ error ↦ true | warning ↦ false ]

-- HasErrors
unfoldable pub has_errors : List Diagnostic → Bool
unfolding is_error
has_errors [] = false
has_errors (diag ∷ diags) = if is_error diag then true else has_errors diags

-- Err: the diagnostics that the joined error names; nil is none of them.
unfoldable pub errors_of : List Diagnostic → List Diagnostic
unfolding is_error
errors_of [] = []
errors_of (diag ∷ diags) = let errs = errors_of diags in if is_error diag then diag ∷ errs else errs

-- The parsed document: mappings, references to an anchored node, and all else.
mutual
  pub data Node : Type 0 where
    mapping : Content → Node
    reference : Node → Node
    plain : Node

  -- The content of a mapping: key, line of the key, value, and so on.
  pub data Content : Type 0 where
    end : Content
    entry : Text → ℕ → Node → Content → Content

-- resolveAlias
unfoldable pub resolve_alias : Node → Node
resolve_alias (reference node) = resolve_alias node
resolve_alias (mapping content) = mapping content
resolve_alias plain = plain

abbrev pub merge_key : Text
merge_key = codes "<<"

-- isAnchorHolder
unfoldable pub is_anchor_holder : Text → Bool
unfolding has_prefix
is_anchor_holder key = has_prefix key (codes ".") || has_prefix key (codes "x-")

-- retiredKeys
abbrev pub retired_keys : List (Text × Text)
retired_keys =
    (
      codes "db.driver",
      codes
          "removed in v0.13.0: postgres is the only driver this service has ever supported and the migrations hard-code it; delete the key",
    )
    ∷ (
      codes "license.public_key",
      codes
          "removed in v0.13.0: move the key into license.public_keys, under its key id, or under \"*\" to verify any key id",
    )
    ∷ []

-- The keys that walkDocument passes over.
unfoldable pub is_passed_over : List Text → Text → Bool
unfolding text_eq is_anchor_holder
is_passed_over [] key = text_eq key merge_key || is_anchor_holder key
is_passed_over (name ∷ path) key = text_eq key merge_key

unfoldable pub report : Text → ℕ → Text → Text → Diagnostic
report name line message hint = record {
  severity = error;
  source = file;
  path = name;
  line = line;
  message = message;
  hint = hint;
}

-- What walkDocument does with one key: nothing, a report, or a descent into the section.
pub data Step : Type 0 where
  passed : Step
  reported : Diagnostic → Step
  descended : Step

unfoldable pub examine : DocumentSchema → List Text → Text → ℕ → Step
unfolding is_passed_over joined lookup member report hint_for
examine schema path key line =
    let name = joined (path ++ key ∷ []) in
    if is_passed_over path key then passed else elim (lookup name retired_keys) [
      | some reason ↦ reported (report name line reason [])
      | none ↦
          if member name schema.leaves
          then passed
          else if member name schema.sections
          then descended
          else reported (report name line (codes "unknown key") (hint_for key (joined path) schema))
    ]

unfoldable pub carry_out : Step → List Diagnostic → List Diagnostic → List Diagnostic
carry_out passed rest inner = rest
carry_out (reported diag) rest inner = diag ∷ rest
carry_out descended rest inner = inner ++ rest

-- walkDocument; what it returns is what the source appends to `out`. The values are resolved on
-- the way.
unfoldable mutual
  unfolding examine carry_out

  pub walk_document : DocumentSchema → List Text → Node → List Diagnostic
  walk_document schema path plain = []
  walk_document schema path (reference node) = walk_document schema path node
  walk_document schema path (mapping content) = walk_content schema path content

  pub walk_content : DocumentSchema → List Text → Content → List Diagnostic
  walk_content schema path end = []
  walk_content schema path (entry key line value content) =
      let rest = walk_content schema path content in
      let inner = walk_document schema (path ++ key ∷ []) value in
      carry_out (examine schema path key line) rest inner

-- documentDiagnostics; no node is an empty file.
unfoldable pub document_diagnostics : List Leaf → Option Node → List Diagnostic
unfolding walk_document compute_schema
document_diagnostics leaves none = []
document_diagnostics leaves (some root) = walk_document (compute_schema leaves) [] root
