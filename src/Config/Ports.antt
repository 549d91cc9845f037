-- ===== src/Config/Ports.antt =====
-- internal/config/validate_more.go: ports and connection strings.
pub mod Distinct
use easyp_plugin_server.Common.{
  ℕ, ◌+◌, ◌-◌, ◌*◌, Bool, true, false, not, ◌&&◌, ◌||◌, List, [], ◌∷◌, ◌++◌, Option, none, some,
  Text, codes, text_eq, ltb, leb, ◌==◌, every, is_space, trim_space, has_prefix, Result, ok, err,
  ◌>>=◌, if◌then◌else◌,
}

-- An error is kept as the name of the setting that its text starts with.
abbrev pub Refusal : Type 0
Refusal = Text

abbrev pub is_digit : ℕ → Bool
is_digit c = leb b'0' c && leb c b'9'

unfoldable pub decimal_value : ℕ → Text → ℕ
decimal_value acc [] = acc
decimal_value acc (c ∷ s) = decimal_value (acc * 10 + (c - b'0')) s

-- strconv.ParseUint to base 10 and 16 bits
unfoldable pub parse_uint16 : Text → Option ℕ
unfolding decimal_value every text_eq
parse_uint16 s =
    if text_eq s [] || not (every is_digit s)
    then none
    else if ltb (decimal_value 0 s) 65536
    then some (decimal_value 0 s)
    else none

-- ParsePort
unfoldable pub parse_port : Text → Text → Result Refusal ℕ
unfolding parse_uint16 trim_space
parse_port name value = elim (parse_uint16 (trim_space value)) [
  | none ↦ err name
  | some parsed ↦ if parsed == 0 then err name else ok parsed
]

unfoldable pub is_seen : ℕ → List ℕ → Bool
is_seen p [] = false
is_seen p (q ∷ seen) = q == p || is_seen p seen

-- The loop of validatePorts over names and values, with the ports seen so far.
unfoldable pub validate_ports_from : List ℕ → List (Text × Text) → Result Refusal (Unit {0})
unfolding parse_port is_seen
validate_ports_from seen [] = ok tt
validate_ports_from seen ((name, value) ∷ ports) = elim (parse_port name value) [
  | err e ↦ err e
  | ok parsed ↦
      let rest = validate_ports_from (parsed ∷ seen) ports in
      if is_seen parsed seen then err name else rest
]

-- The fields of a text between white space.
unfoldable pub fields_from : Text → Text → List Text
unfolding is_space
fields_from [] cur = cur ∷ []
fields_from (c ∷ s) cur =
    let next = fields_from s [] in
    let same = fields_from s (cur ++ c ∷ []) in if is_space c then cur ∷ next else same

-- A field with an equals sign behind a key that is not empty.
unfoldable pub is_pair : Text → Bool
unfolding every
is_pair [] = false
is_pair (c ∷ s) = not (c == b'=') && not (every (λ d. not (d == b'=')) s)

unfoldable pub has_pair : List Text → Bool
unfolding is_pair
has_pair [] = false
has_pair (field ∷ fields) = is_pair field || has_pair fields

-- validateDSN; `url_host` is the host that url.Parse finds, or none if it fails.
unfoldable pub validate_dsn : (url_host : Text → Option Text) → Text → Result Refusal (Unit {0})
unfolding trim_space has_prefix text_eq fields_from has_pair
validate_dsn url_host dsn =
    let trimmed = trim_space dsn in
    if has_prefix trimmed (codes "postgres://") || has_prefix trimmed (codes "postgresql://")
    then elim (url_host trimmed) [
      | none ↦ err (codes "db.postgres")
      | some host ↦ if text_eq host [] then err (codes "db.postgres") else ok tt
    ]
    else if has_pair (fields_from trimmed [])
    then ok tt
    else err (codes "db.postgres")
