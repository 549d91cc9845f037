-- ===== src/Config/Document/Accepted.antt =====
-- internal/config/diagnostics.go: what is known of the keys of a file without an error.
use mathlib.Core.List.{Memᴰ}
use easyp_plugin_server.Common.{
  ℕ, ◌≡◌, ◌⊎◌, inl, inr, List, [], ◌∷◌, ◌++◌, none, some, true, false, Text, member, lookup,
  Bool-cases, Option-cases, arith, refl,
}
use easyp_plugin_server.Config.Leaves.{Leaf, joined}
use easyp_plugin_server.Config.Schema.{DocumentSchema, compute_schema}
use easyp_plugin_server.Config.Schema.Known.{Names, compute_schema-Names}
use easyp_plugin_server.Config.Document.{
  Diagnostic, Node, is_error, has_errors, retired_keys, is_passed_over, report, walk_document,
  document_diagnostics,
}
use easyp_plugin_server.Config.Document.Reported.{
  Occurs, Wrong, retired, unknown, looked_at_iff, walk_document_iff,
}

pub Memᴰ-has_errors :
    (diag : Diagnostic) (diags : List Diagnostic)
    → Memᴰ diag diags
    → is_error diag ≡ true
    → has_errors diags ≡ true
unfolding has_errors
Memᴰ-has_errors diag [] m h = elim m [ ]
Memᴰ-has_errors diag (d ∷ diags) (Memᴰ.head e) h = rw (← e, h) refl
Memᴰ-has_errors diag (d ∷ diags) (Memᴰ.tail m) h = ground (arith, Memᴰ-has_errors diag diags m h)

Wrong-is_error :
    (schema : DocumentSchema) (path : List Text) (key : Text) (line : ℕ) (diag : Diagnostic)
    → Wrong schema path key line diag
    → is_error diag ≡ true
unfolding is_error report
Wrong-is_error schema path key line diag (retired reason h r) = refl
Wrong-is_error schema path key line diag (unknown h r l s) = refl

-- A file without an error has no wrong key.
no_error-not-Wrong :
    (schema : DocumentSchema) (root : Node) (path : List Text) (key : Text) (line : ℕ)
    (diag : Diagnostic)
    → has_errors (walk_document schema [] root) ≡ false
    → Occurs schema [] root path key line
    → Wrong schema path key line diag
    → ⊥
no_error-not-Wrong schema root path key line diag h o w =
    let m =
      (walk_document_iff schema [] root diag).1
        record { above = path; key = key; line = line; occurs = o; is_wrong = w } in
    let bad =
      Memᴰ-has_errors diag (walk_document schema [] root) m
        (Wrong-is_error schema path key line diag w) in
    cc (h, bad)

-- In a file that the check of its keys finds no error in, each key that is reached through
-- sections, and is neither a merge key nor an anchor holder at the root, is not a retired one, and
-- its dotted path is that of a setting or of a section around one, or empty.
pub accepted_keys :
    (leaves : List Leaf) (root : Node) (path : List Text) (key : Text) (line : ℕ)
    → has_errors (document_diagnostics leaves (some root)) ≡ false
    → Occurs (compute_schema leaves) [] root path key line
    → is_passed_over path key ≡ false
    → (lookup (joined (path ++ key ∷ [])) retired_keys ≡ none)
      × ((joined (path ++ key ∷ []) ≡ []) ⊎ Names leaves (joined (path ++ key ∷ [])))
unfolding document_diagnostics
accepted_keys leaves root path key line h o p =
    let schema = compute_schema leaves in
    let name = joined (path ++ key ∷ []) in
    elim (Option-cases (lookup name retired_keys)) [
      | inr (reason, r) ↦ absurd (
          no_error-not-Wrong schema root path key line _ h o
            (retired reason ((looked_at_iff path key).0 p) r))
      | inl r ↦ elim (Bool-cases (member name schema.leaves)) [
        | inl l ↦ (r, compute_schema-Names name leaves (inl l))
        | inr l ↦ elim (Bool-cases (member name schema.sections)) [
          | inl s ↦ (r, compute_schema-Names name leaves (inr s))
          | inr s ↦ absurd (
              no_error-not-Wrong schema root path key line _ h o
                (unknown ((looked_at_iff path key).0 p) r l s))
        ]
      ]
    ]
