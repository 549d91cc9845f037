-- ===== src/Auth/Tokens.antt =====
-- internal/config/auth.go: the list of write tokens, its environment form and its validation.

use mathlib.Core.Option
use easyp_plugin_server.Common.{
  ℕ, ◌+◌, ◌-◌, ◌*◌, Bool, false, not, ◌&&◌, ◌||◌, List, [], ◌∷◌, Option, none, some, Text, text_eq,
  trim_space, split, length, leb, ◌==◌, if◌then◌else◌, Result, ok, err,
}

pub record WriteToken : Type 0 where
  pub name : Text
  pub sha256 : Text

pub data TokenError : Type 0 where
  name_required hash_required hash_malformed name_duplicate malformed_env : TokenError

abbrev pub sha256_hex_length : ℕ
sha256_hex_length = 64

-- One digit of encoding/hex.
unfoldable pub hex_digit : ℕ → Option ℕ
hex_digit c =
    if leb b'0' c && leb c b'9'
    then some (c - b'0')
    else if leb b'a' c && leb c b'f'
    then some (c - b'a' + 10)
    else if leb b'A' c && leb c b'F'
    then some (c - b'A' + 10)
    else none

-- hex.DecodeString: `none` for an odd length or a character that is no digit.
unfoldable pub decode_hex : Text → Option Text
unfolding hex_digit
decode_hex [] = some []
decode_hex (c ∷ []) = none
decode_hex (c ∷ d ∷ s) =
    let rest = decode_hex s in
    elim (hex_digit c) [
      | none ↦ none
      | some h ↦ elim (hex_digit d) [
        | none ↦ none
        | some l ↦ Option.map (λ r. (h * 16 + l) ∷ r) rest
      ]
    ]

-- strings.Cut at one byte.
unfoldable pub cut : ℕ → Text → Option (Text × Text)
cut sep [] = none
cut sep (c ∷ s) =
    let rest = cut sep s in if c == sep then some ([], s) else Option.map (λ r. (c ∷ r.0, r.1)) rest

-- The loop over the pairs.
unfoldable pub read_pairs : List Text → Result TokenError (List WriteToken)
unfolding cut trim_space
read_pairs [] = ok []
read_pairs (pair ∷ pairs) =
    let rest = read_pairs pairs in
    elim (cut b'=' (trim_space pair)) [
      | none ↦ err malformed_env
      | some (name, digest) ↦ elim rest [
        | err e ↦ err e
        | ok parsed ↦ ok (record { name = trim_space name; sha256 = trim_space digest } ∷ parsed)
      ]
    ]

unfoldable pub env_decode : Text → Result TokenError (List WriteToken)
unfolding read_pairs
env_decode val =
    if text_eq (trim_space val) [] then ok [] else read_pairs (split (trim_space val) b',')

-- seen[token.Name]
unfoldable pub seen_before : Text → List Text → Bool
unfolding text_eq
seen_before name [] = false
seen_before name (s ∷ seen) = text_eq s name || seen_before name seen

-- The loop of Validate.
unfoldable pub validate_from : List Text → List WriteToken → Result TokenError (Unit {0})
unfolding decode_hex seen_before
validate_from seen [] = ok tt
validate_from seen (token ∷ tokens) =
    let rest = validate_from (token.name ∷ seen) tokens in
    if text_eq token.name []
    then err name_required
    else if text_eq token.sha256 []
    then err hash_required
    else if not (length token.sha256 == sha256_hex_length)
    then err hash_malformed
    else elim (decode_hex token.sha256) [
      | none ↦ err hash_malformed
      | some digest ↦ if seen_before token.name seen then err name_duplicate else rest
    ]

unfoldable pub validate : List WriteToken → Result TokenError (Unit {0})
unfolding validate_from
validate tokens = validate_from [] tokens
