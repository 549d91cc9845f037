-- ===== src/Config/Env.antt =====
-- internal/config/alias.go, env.go and config.go: how variables are looked up, and which of them
-- match no setting.
pub mod Reads
use easyp_plugin_server.Common.{
  ℕ, List, [], ◌∷◌, ◌++◌, Option, none, some, Bool, true, false, ◌&&◌, ◌||◌, not, Text, codes,
  text_eq, has_prefix, member, lookup, insert, if◌then◌else◌, leb, ◌==◌,
}
use easyp_plugin_server.Config.Leaves.{Leaf}
use easyp_plugin_server.Config.Diagnostics.{best_match}
use easyp_plugin_server.Config.Document.{Diagnostic, warning, env}

-- envconfig.Lookuper
abbrev pub Lookuper : Type 0
Lookuper = Text → Option Text

-- emptyIsUnset.Lookup
unfoldable pub empty_is_unset : Lookuper → Lookuper
unfolding text_eq
empty_is_unset inner key = elim (inner key) [
  | none ↦ none
  | some val ↦ if text_eq val [] then none else some val
]

-- envAliases
abbrev pub env_aliases : List (Text × List Text)
env_aliases = (codes "TELEMETRY_OTLP_ENDPOINT", codes "OTEL_EXPORTER_OTLP_ENDPOINT" ∷ []) ∷ []

unfoldable pub listed_among : Text → List (Text × List Text) → Bool
unfolding member
listed_among name [] = false
listed_among name ((key, alternatives) ∷ aliases) =
    member name alternatives || listed_among name aliases

-- isAlias
unfoldable pub is_alias : Text → Bool
unfolding listed_among
is_alias name = listed_among name env_aliases

-- The loop of aliasLookuper.Lookup: the value and the alternative that supplied it.
unfoldable pub first_found : Lookuper → List Text → Option (Text × Text)
first_found inner [] = none
first_found inner (alternative ∷ alternatives) =
    let rest = first_found inner alternatives in
    elim (inner alternative) [ none ↦ rest | some value ↦ some (value, alternative) ]

-- envAliases[key]
unfoldable pub alternatives_of : Text → List Text
unfolding lookup
alternatives_of key = elim (lookup key env_aliases) [ none ↦ [] | some names ↦ names ]

-- aliasLookuper.Lookup, with the map `used` before and after.
unfoldable pub alias_lookup :
    Lookuper → Text → List (Text × Text) → Option Text × List (Text × Text)
unfolding first_found alternatives_of insert
alias_lookup inner key used = elim (inner key) [
  | some value ↦ (some value, used)
  | none ↦ elim (first_found inner (alternatives_of key)) [
    | none ↦ (none, used)
    | some (value, alternative) ↦ (some value, insert key alternative used)
  ]
]

-- environmentLookuper behind newAliasLookuper, for the value alone.
unfoldable pub environment : Lookuper → Lookuper
unfolding alias_lookup empty_is_unset
environment os key = (alias_lookup (empty_is_unset os) key []).0

-- kubernetesLinkVar, the end of a match: an underscore or the end of the name.
unfoldable pub ends_word : Text → Bool
ends_word [] = true
ends_word (c ∷ s) = c == b'_'

-- What is left of a text behind a prefix.
unfoldable pub cut_prefix : Text → Text → Option Text
cut_prefix [] s = some s
cut_prefix (c ∷ p) [] = none
cut_prefix (c ∷ p) (d ∷ s) = if c == d then cut_prefix p s else none

unfoldable pub ends_in : Option Text → Bool
unfolding ends_word
ends_in none = false
ends_in (some s) = ends_word s

-- kubernetesLinkVar, behind `_PORT_`: digits, at least one if `begun` is false, `_TCP` and an end.
unfoldable pub is_tcp_port : Bool → Text → Bool
unfolding ends_in cut_prefix
is_tcp_port begun [] = false
is_tcp_port begun (c ∷ s) =
    if leb b'0' c && leb c b'9'
    then is_tcp_port true s
    else begun && ends_in (cut_prefix (codes "_TCP") (c ∷ s))

-- kubernetesLinkVar, a match that begins here.
unfoldable pub link_here : Text → Bool
unfolding cut_prefix ends_in is_tcp_port
link_here s =
    ends_in (cut_prefix (codes "_SERVICE_HOST") s)
    || ends_in (cut_prefix (codes "_SERVICE_PORT") s)
    || elim (cut_prefix (codes "_PORT_") s) [ none ↦ false | some t ↦ is_tcp_port false t ]

-- kubernetesLinkVar.MatchString
unfoldable pub kubernetes_link_var : Text → Bool
unfolding link_here
kubernetes_link_var [] = false
kubernetes_link_var (c ∷ s) = link_here (c ∷ s) || kubernetes_link_var s

-- strings.HasSuffix
unfoldable pub has_suffix : Text → Text → Bool
unfolding text_eq
has_suffix [] p = text_eq [] p
has_suffix (c ∷ s) p = text_eq (c ∷ s) p || has_suffix s p

-- isKubernetesLinkVar
unfoldable pub is_kubernetes_link_var : Text → Text → Bool
unfolding kubernetes_link_var has_suffix has_prefix
is_kubernetes_link_var name value =
    kubernetes_link_var name
    || (has_suffix name (codes "_PORT") && has_prefix value (codes "tcp://"))

unfoldable pub has_some_prefix : Text → List Text → Bool
unfolding has_prefix
has_some_prefix name [] = false
has_some_prefix name (prefix ∷ prefixes) = has_prefix name prefix || has_some_prefix name prefixes

-- reportableEnv
unfoldable pub reportable_env : Text → Text → List Text → List Text → Bool
unfolding text_eq member is_alias is_kubernetes_link_var has_some_prefix
reportable_env name value known prefixes =
    if text_eq value []
    then false
    else if member name known || is_alias name
    then false
    else if is_kubernetes_link_var name value
    then false
    else has_some_prefix name prefixes

-- strings.Cut by an equals sign
unfoldable pub cut_equals : Text → Option (Text × Text)
cut_equals [] = none
cut_equals (c ∷ s) =
    let rest = cut_equals s in
    if c == b'='
    then some ([], s)
    else elim rest [ none ↦ none | some (name, value) ↦ some (c ∷ name, value) ]

abbrev pub env_keys : List Leaf → List Text
env_keys [] = []
env_keys (leaf ∷ leaves) = leaf.env_key ∷ env_keys leaves

unfoldable pub ignored_variable : List Text → Text → Diagnostic
unfolding best_match
ignored_variable names name = record {
  severity = warning;
  source = env;
  path = name;
  line = 0;
  message = codes "environment variable matches no setting and was ignored";
  hint = elim (best_match name names) [
    | none ↦ []
    | some match_ ↦ codes "did you mean " ++ match_ ++ codes "?"
  ];
}

-- UnknownEnv, the loop over the environment; the names of the settings are `names`.
unfoldable pub unknown_env : List Text → List Text → List Text → List Diagnostic
unfolding cut_equals reportable_env ignored_variable
unknown_env names prefixes [] = []
unknown_env names prefixes (e ∷ environ) =
    let rest = unknown_env names prefixes environ in
    elim (cut_equals e) [
      | none ↦ rest
      | some (name, value) ↦
          if reportable_env name value names prefixes
          then ignored_variable names name ∷ rest
          else rest
    ]
