-- ===== src/Tests/Settings.antt =====
-- A file of one setting, loaded over an environment, and its keys.
use mathlib.Core.List.{Memᴰ}
use easyp_plugin_server.Common.{
  ℕ, ◌≡◌, ◌⊎◌, ◌↔◌, refl, List, [], ◌∷◌, none, some, true, false, Text, codes, lookup, text_eq,
  has_prefix, insert, member,
}
use easyp_plugin_server.Config.Leaves.{Leaf, joined, Fields, end, field, section, setting, Tags}
use easyp_plugin_server.Config.Schema.{compute_schema, add_leaves, add_path, add_child, children_of}
use easyp_plugin_server.Config.Schema.Known.{Names}
use easyp_plugin_server.Config.Document.{
  Node, mapping, plain, Content, is_error, has_errors, is_anchor_holder, retired_keys,
  is_passed_over, report, examine, carry_out, walk_document, document_diagnostics,
}
use easyp_plugin_server.Config.Document.Reported.{
  looked_at_iff, Opens, inside, here, under, ReportOn, walk_document_iff,
}
use easyp_plugin_server.Config.Document.Accepted.{accepted_keys}
use easyp_plugin_server.Config.Env.{Lookuper, first_found, alternatives_of, alias_lookup}
use easyp_plugin_server.Config.Merge.{Doc, empty, origin_file, key, nested, scalar, set_value}
use easyp_plugin_server.Config.Load.{Libraries, Loaded, root_of, ended, decoded}
use easyp_plugin_server.Tests.Config.{config}

abbrev dsn : Tags
dsn = record { exported = true; yaml = codes "dsn"; env = codes "DSN"; is_secret = true }

abbrev db : Tags
db = record { exported = true; yaml = codes "db"; env = codes ", prefix=DB_"; is_secret = false }

abbrev fields : Fields
fields = field db (section (field dsn setting end)) end

abbrev leaf : Leaf
leaf = record {
  yaml_path = codes "db" ∷ codes "dsn" ∷ [];
  env_key = codes "DB_DSN";
  default = [];
  has_default = false;
  secret = true;
}

abbrev root : Node
root = mapping (
    Content.entry (codes "db") 1 (mapping (Content.entry (codes "dsn") 2 plain Content.end))
      Content.end)

abbrev doc : Doc
doc = key (codes "db") (nested (key (codes "dsn") scalar empty)) empty

abbrev libraries : Libraries ℕ
libraries = record {
  read_file = λ path. some (codes "db: {dsn: host}");
  first = λ text. root_of (some root);
  second = λ text. ended;
  decode_settings = λ node. decoded (λ name. 0) [];
  decode_map = λ node. some doc;
  process = λ lookuper. some (λ name. 7);
  zero_config = λ name. 0;
}

abbrev unset : Lookuper
unset name = none

abbrev loaded : Loaded ℕ
loaded = record {
  config = some (set_value (codes "db.dsn") 0 (λ name. 7));
  origins = (codes "db.dsn", origin_file) ∷ [];
  diagnostics = [];
}

no_errors : has_errors (document_diagnostics (leaf ∷ []) (some root)) ≡ false
unfolding has_errors document_diagnostics walk_document examine carry_out compute_schema add_leaves
    add_path add_child children_of insert lookup member joined text_eq is_passed_over
    is_anchor_holder has_prefix is_error report
no_errors = refl

Opens-db : Opens (compute_schema (leaf ∷ [])) [] (codes "db")
unfolding compute_schema add_leaves add_path joined text_eq is_passed_over is_anchor_holder
    has_prefix member lookup
Opens-db = record {
  looked_at = (looked_at_iff [] (codes "db")).0 refl;
  not_retired = refl;
  not_leaf = refl;
  is_section = refl;
}

looked_at : is_passed_over (codes "db" ∷ []) (codes "dsn") ≡ false
unfolding is_passed_over text_eq
looked_at = refl

accepted_keys_example :
    (lookup (joined (codes "db" ∷ codes "dsn" ∷ [])) retired_keys ≡ none)
    × ((joined (codes "db" ∷ codes "dsn" ∷ []) ≡ [])
        ⊎ Names (leaf ∷ []) (joined (codes "db" ∷ codes "dsn" ∷ [])))
accepted_keys_example =
    accepted_keys (leaf ∷ []) root (codes "db" ∷ []) (codes "dsn") 2 no_errors
      (inside (under Opens-db (inside here))) looked_at

abbrev mistyped : Node
mistyped = mapping (Content.entry (codes "db_") 1 plain Content.end)

walk_document_iff_example :
    Memᴰ
      (report (codes "db_") 1 (codes "unknown key") (codes "did you mean db?"))
      (walk_document (compute_schema (leaf ∷ [])) [] mistyped)
    ↔ ReportOn
        (compute_schema (leaf ∷ []))
        []
        mistyped
        (report (codes "db_") 1 (codes "unknown key") (codes "did you mean db?"))
walk_document_iff_example =
    walk_document_iff (compute_schema (leaf ∷ [])) [] mistyped
      (report (codes "db_") 1 (codes "unknown key") (codes "did you mean db?"))

abbrev otel : Lookuper
otel name = elim (text_eq name (codes "OTEL_EXPORTER_OTLP_ENDPOINT")) [
  | true ↦ some (codes "collector")
  | false ↦ none
]

abbrev recorded : List (Text × Text)
recorded = (codes "TELEMETRY_OTLP_ENDPOINT", codes "OTEL_EXPORTER_OTLP_ENDPOINT") ∷ []

aliased :
    alias_lookup otel (codes "TELEMETRY_OTLP_ENDPOINT") [] ≡ (some (codes "collector"), recorded)
unfolding alias_lookup first_found alternatives_of lookup insert text_eq
aliased = refl
