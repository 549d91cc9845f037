-- ===== src/Config/Load/Resolved.antt =====
-- internal/config/config.go: what a load that succeeds promises.
use easyp_plugin_server.Common.{◌≡◌, List, Option, some, false, Text, lookup, ok, ltb, length}
use easyp_plugin_server.Config.Leaves.{Leaf, leaf_name, Fields}
use easyp_plugin_server.Config.Document.{Diagnostic, Node, has_errors, document_diagnostics}
use easyp_plugin_server.Config.Env.{Lookuper}
use easyp_plugin_server.Config.Merge.{Origins, Doc, merge_file_values}
use easyp_plugin_server.Config.Merge.Precedence.{layer_of, value_from}
use easyp_plugin_server.Config.Validate.{Config, Parsers, validate_settings}
use easyp_plugin_server.Config.Validate.Accepted.{Accepted}
use easyp_plugin_server.Config.Load.{
  Libraries, Loaded, parse_document, decode_document, max_config_file_size,
}

module _ {ℓ} {V : Type ℓ} (libs : Libraries V) (parsers : Parsers)
    (as_config : (Text → V) → Config) where
  -- The configuration that a successful end of a load returns.
  record Concluded (cfg : Text → V) (origins : Origins) (diags : List Diagnostic) (res : Loaded V)
      : Type ℓ where
    is_config : res.config ≡ some cfg
    is_origins : res.origins ≡ origins
    no_errors : has_errors diags ≡ false
    valid : validate_settings parsers (as_config cfg) ≡ ok tt

  -- What a load that succeeds has come by: the text of the file, its root, what is decoded of it,
  -- and the environment and the defaults.
  pub record Sources (fields : Fields) (lookuper : Lookuper) (path : Text) (res : Loaded V)
      (leaves : List Leaf) : Type ℓ where
    pub text : Text
    pub root : Option Node
    pub parse_diags : List Diagnostic
    pub from_file : Text → V
    pub doc : Doc
    pub decode_diags : List Diagnostic
    pub held : Text → V
    pub is_text : libs.read_file path ≡ some text
    pub fits : ltb max_config_file_size (length text) ≡ false
    pub is_parsed : parse_document (libs.first text) (libs.second text) ≡ ok (root, parse_diags)
    pub is_decoded : decode_document libs root ≡ ok (from_file, doc, decode_diags)
    pub is_held : libs.process lookuper ≡ some held
    pub is_config : res.config ≡ some (merge_file_values held from_file doc lookuper leaves).0
    pub is_origins : res.origins ≡ (merge_file_values held from_file doc lookuper leaves).1
    pub no_key_errors : has_errors (document_diagnostics leaves root) ≡ false
    pub valid :
        validate_settings parsers
          (as_config (merge_file_values held from_file doc lookuper leaves).0)
        ≡ ok tt

  -- What is known of the last part of a load that succeeds.
  record Ends (lookuper : Lookuper) (res : Loaded V) (leaves : List Leaf) (root : Option Node)
      (from_file : Text → V) (doc : Doc) : Type ℓ where
    held : Text → V
    diags : List Diagnostic
    is_held : libs.process lookuper ≡ some held
    concluded :
        Concluded
          (merge_file_values held from_file doc lookuper leaves).0
          (merge_file_values held from_file doc lookuper leaves).1
          diags
          res
    no_key_errors : has_errors (document_diagnostics leaves root) ≡ false

  -- The setting's value and origin in a loaded configuration, beside what holds of the whole.
  pub record Resolves (lookuper : Lookuper) (path : Text) (res : Loaded V) (leaves : List Leaf)
      (leaf : Leaf) : Type ℓ where
    pub cfg : Text → V
    pub text : Text
    pub root : Option Node
    pub parse_diags : List Diagnostic
    pub from_file : Text → V
    pub doc : Doc
    pub held : Text → V
    pub is_config : res.config ≡ some cfg
    pub is_held : libs.process lookuper ≡ some held
    pub is_text : libs.read_file path ≡ some text
    pub fits : ltb max_config_file_size (length text) ≡ false
    pub is_parsed : parse_document (libs.first text) (libs.second text) ≡ ok (root, parse_diags)
    pub is_decoded :
        (diags : List Diagnostic) × (decode_document libs root ≡ ok (from_file, doc, diags))
    pub value :
        cfg (leaf_name leaf)
        ≡ value_from from_file doc lookuper
            (layer_of lookuper doc leaf)
            (leaf_name leaf)
            (held (leaf_name leaf))
    pub origin : lookup (leaf_name leaf) res.origins ≡ some (layer_of lookuper doc leaf)
    pub no_key_errors : has_errors (document_diagnostics leaves root) ≡ false
    pub accepted : Accepted (as_config cfg)
