-- ===== src/Config/Load.antt =====
-- internal/config/config.go: a configuration out of a file, the environment and the defaults.
pub mod Resolved
use easyp_plugin_server.Common.{
  ℕ, suc, ◌+◌, ◌*◌, ◌-◌, ◌^◌, List, [], ◌∷◌, ◌++◌, Option, none, some, Bool, true, false, ◌&&◌,
  ◌||◌, not, Text, codes, text_eq, Result, ok, err, if◌then◌else◌, leb, ltb, length,
}
use easyp_plugin_server.Config.Ports.{Refusal}
use easyp_plugin_server.Config.Leaves.{Leaf, Fields, TagError, walk_fields}
use easyp_plugin_server.Config.Document.{
  Diagnostic, error, file, Node, mapping, reference, plain, resolve_alias, errors_of,
  document_diagnostics,
}
use easyp_plugin_server.Config.Env.{Lookuper, cut_prefix}
use easyp_plugin_server.Config.Merge.{Origins, Doc, empty, merge_file_values, environment_origins}
use easyp_plugin_server.Config.Validate.{Config, Parsers, validate_settings}

-- maxConfigFileSize
abbrev pub max_config_file_size : ℕ
max_config_file_size = 2 ^ 20

-- The second call of the decoder: the end, an error, or a document with its root, of which the
-- kind of a scalar and the tag of a null are asked.
pub data Extra : Type 0 where
  ended : Extra
  broken : ℕ → Extra
  document : ℕ → Option (Bool × Bool) → Extra

-- The first call.
pub data First : Type 0 where
  nothing : First
  unreadable : First
  root_of : Option Node → First

-- Decoding into the struct: what it filled in and the entries of a TypeError, or another error.
pub data Decoded {ℓ} (V : Type ℓ) : Type ℓ where
  decoded : (Text → V) → List Text → Decoded V
  undecoded : (Text → V) → Decoded V

-- The libraries: yaml.v3 on the text of the file, envconfig on a lookup of variables, os.ReadFile.
pub record Libraries {ℓ} (V : Type ℓ) : Type ℓ where
  pub read_file : Text → Option Text
  pub first : Text → First
  pub second : Text → Extra
  pub decode_settings : Node → Decoded V
  pub decode_map : Node → Option Doc
  pub process : Lookuper → Option (Text → V)
  pub zero_config : Text → V

pub data LoadError : Type 0 where
  reading too_large parsing processing : LoadError
  tags : TagError → LoadError
  refused : List Diagnostic → LoadError
  invalid : Refusal → LoadError

-- Result, without the aliases that Load adds.
pub record Loaded {ℓ} (V : Type ℓ) : Type ℓ where
  pub config : Option (Text → V)
  pub origins : Origins
  pub diagnostics : List Diagnostic

-- hasSecondDocument
unfoldable pub has_second_document : Extra → Bool
has_second_document ended = false
has_second_document (broken line) = true
has_second_document (document line none) = false
has_second_document (document line (some (is_scalar, is_null))) = not is_scalar || not is_null

unfoldable pub line_of : Extra → ℕ
line_of ended = 0
line_of (broken line) = line
line_of (document line root) = line

abbrev pub more_than_one : Text
more_than_one = codes "the file holds more than one YAML document; only the first one would be read"

-- parseDocument
unfoldable pub parse_document : First → Extra → Result LoadError (Option Node × List Diagnostic)
unfolding has_second_document line_of
parse_document nothing extra = ok (none, [])
parse_document unreadable extra = err parsing
parse_document (root_of root) extra = ok (
  root,
  (if has_second_document extra
      then record {
        severity = error;
        source = file;
        path = [];
        line = line_of extra;
        message = more_than_one;
        hint = [];
      }
        ∷ []
      else []),
)

-- The digits of yamlErrorLine, their value so far and whether there was one; the value and what
-- stands behind the colon and the blank.
unfoldable pub read_number : ℕ → Bool → Text → Option (ℕ × Text)
unfolding cut_prefix
read_number n begun [] = none
read_number n begun (c ∷ s) =
    if leb b'0' c && leb c b'9'
    then read_number (n * 10 + (c - b'0')) true s
    else elim (cut_prefix (codes ": ") (c ∷ s)) [
      | none ↦ none
      | some t ↦ if begun then some (n, t) else none
    ]

-- yamlErrorLine.FindStringSubmatch
unfoldable pub error_line : Text → Option (ℕ × Text)
unfolding cut_prefix read_number
error_line message = elim (cut_prefix (codes "line ") message) [
  | none ↦ none
  | some s ↦ read_number 0 false s
]

-- The body of typeErrorDiagnostics' loop; strconv.Atoi refuses what does not fit an int.
unfoldable pub type_error_diagnostic : Text → Diagnostic
unfolding error_line
type_error_diagnostic message =
    let whole : Diagnostic = record {
      severity = error;
      source = file;
      path = [];
      line = 0;
      message = message;
      hint = [];
    } in
    elim (error_line message) [
      | none ↦ whole
      | some (n, rest) ↦
          if ltb n (2 ^ 63)
          then record {
            severity = error;
            source = file;
            path = [];
            line = n;
            message = rest;
            hint = [];
          }
          else whole
    ]

-- typeErrorDiagnostics
unfoldable pub type_error_diagnostics : List Text → List Diagnostic
unfolding type_error_diagnostic
type_error_diagnostics [] = []
type_error_diagnostics (message ∷ messages) =
    type_error_diagnostic message ∷ type_error_diagnostics messages

unfoldable pub is_mapping : Node → Bool
is_mapping (mapping content) = true
is_mapping (reference node) = false
is_mapping plain = false

module _ {ℓ} {V : Type ℓ} (libs : Libraries V) where
  -- decodeDocument
  unfoldable pub decode_document :
      Option Node → Result LoadError ((Text → V) × Doc × List Diagnostic)
  unfolding type_error_diagnostics is_mapping resolve_alias
  decode_document none = ok (libs.zero_config, empty, [])
  decode_document (some root) = elim (libs.decode_settings root) [
    | undecoded from_file ↦ err parsing
    | decoded from_file messages ↦
        let diags = type_error_diagnostics messages in
        if is_mapping (resolve_alias root)
        then elim (libs.decode_map root) [
          | none ↦ err parsing
          | some doc ↦ ok (from_file, doc, diags)
        ]
        else ok (from_file, empty, diags)
  ]

  module _ (parsers : Parsers) (as_config : (Text → V) → Config) where
    -- The end of load and of loadFromEnv: Err of the diagnostics, then Validate.
    unfoldable pub conclude : (Text → V) → Origins → List Diagnostic → Loaded V × Option LoadError
    unfolding errors_of validate_settings
    conclude cfg origins diags =
        let res : Loaded V = record { config = some cfg; origins = origins; diagnostics = diags } in
        elim (errors_of diags) [
          | diag ∷ more ↦ (res, some (refused (diag ∷ more)))
          | [] ↦ elim (validate_settings parsers (as_config cfg)) [
            | err e ↦ (res, some (invalid e))
            | ok _ ↦ (res, none)
          ]
        ]

    -- What load returns with an error before it has a configuration.
    unfoldable pub stop : List Diagnostic → LoadError → Loaded V × Option LoadError
    stop diags e = (record { config = none; origins = []; diagnostics = diags }, some e)

    -- load, from the settings that the file holds on; the fields are those of the Config type.
    unfoldable pub resolve :
        Fields
        → Lookuper
        → Option Node
        → List Diagnostic
        → (Text → V) × Doc × List Diagnostic
        → Loaded V × Option LoadError
    unfolding stop conclude walk_fields document_diagnostics merge_file_values
    resolve fields lookuper root parse_diags (from_file, doc, decode_diags) =
        elim (walk_fields fields [] []) [
          | err e ↦ stop [] (tags e)
          | ok leaves ↦
              let diags = parse_diags ++ (decode_diags ++ document_diagnostics leaves root) in
              elim (libs.process lookuper) [
                | none ↦ stop diags processing
                | some cfg ↦
                    let (merged, origins) = merge_file_values cfg from_file doc lookuper leaves in
                    conclude merged origins diags
              ]
        ]

    -- load; applyYAMLAliases has an empty table, and changes and reports nothing.
    unfoldable pub load : Fields → Lookuper → Text → Loaded V × Option LoadError
    unfolding stop resolve parse_document decode_document
    load fields lookuper path = elim (libs.read_file path) [
      | none ↦ stop [] reading
      | some text ↦
          if ltb max_config_file_size (length text)
          then stop [] too_large
          else elim (parse_document (libs.first text) (libs.second text)) [
            | err e ↦ stop [] e
            | ok (root, parse_diags) ↦ elim (decode_document root) [
              | err e ↦ stop [] e
              | ok contents ↦ resolve fields lookuper root parse_diags contents
            ]
          ]
    ]

    -- loadFromEnv
    unfoldable pub load_from_env : Fields → Lookuper → Loaded V × Option LoadError
    unfolding stop conclude walk_fields environment_origins
    load_from_env fields lookuper = elim (libs.process lookuper) [
      | none ↦ stop [] processing
      | some cfg ↦ elim (walk_fields fields [] []) [
        | err e ↦ stop [] (tags e)
        | ok leaves ↦ conclude cfg (environment_origins lookuper leaves) []
      ]
    ]
