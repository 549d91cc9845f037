-- ===== src/Core/Names.antt =====
-- Plugin names of internal/core/core.go: "{group}/{name}:{version}" taken apart, and the
-- patterns that a registered group, name and version match.
pub mod RoundTrip
use easyp_plugin_server.Common.{
  ℕ, ◌≡◌, refl, Bool, true, false, ◌&&◌, ◌||◌, List, [], ◌∷◌, ◌++◌, Text, codes, leb, ◌==◌, text_eq,
  split, every, if◌then◌else◌, Result, ok, err, ◌>>◌, guard,
}
use easyp_plugin_server.Core.Errors.{Error, invalid_plugin_name}

abbrev pub slash : ℕ
slash = b'/'

abbrev pub colon : ℕ
colon = b':'

-- len(splitArray) != pluginNameParts, with the two parts where there are two.
unfoldable pub two_parts : List Text → Result Error (Text × Text)
two_parts (a ∷ b ∷ []) = ok (a, b)
two_parts _ = err (invalid_plugin_name ∷ [])

unfoldable pub get_group : Text → Result Error Text
unfolding two_parts
get_group plugin_name = elim (two_parts (split plugin_name slash)) [
  | ok (group, rest) ↦ ok group
  | err e ↦ err e
]

unfoldable pub get_name_and_version : Text → Result Error (Text × Text)
unfolding two_parts
get_name_and_version plugin_name = elim (two_parts (split plugin_name slash)) [
  | ok (group, name_version) ↦ two_parts (split name_version colon)
  | err e ↦ err e
]

pub is_lower : ℕ → Bool
is_lower c = leb b'a' c && leb c b'z'

pub is_digit : ℕ → Bool
is_digit c = leb b'0' c && leb c b'9'

pub is_name_byte : ℕ → Bool
unfolding is_lower is_digit
is_name_byte c = is_lower c || is_digit c || c == b'-'

-- ^[a-z][a-z0-9-]*$
unfoldable pub matches_name : Text → Bool
unfolding is_name_byte is_lower is_digit
matches_name [] = false
matches_name (c ∷ s) = is_lower c && every is_name_byte s

-- \d+ for a part between two dots.
unfoldable pub is_number : Text → Bool
unfolding is_digit every
is_number [] = false
is_number (c ∷ s) = every is_digit (c ∷ s)

-- \d+\.\d+(\.\d+)? as the parts between the dots.
unfoldable pub are_components : List Text → Bool
unfolding is_number
are_components (a ∷ b ∷ []) = is_number a && is_number b
are_components (a ∷ b ∷ c ∷ []) = is_number a && is_number b && is_number c
are_components _ = false

-- ^v\d+\.\d+(\.\d+)?$
unfoldable pub matches_version : Text → Bool
unfolding are_components
matches_version [] = false
matches_version (c ∷ s) = c == b'v' && are_components (split s b'.')

unfoldable pub validate_group_name : Text → Text → Result Error (Unit {0})
unfolding matches_name
validate_group_name group name =
    guard (matches_name group) (invalid_plugin_name ∷ [])
    >> guard (matches_name name) (invalid_plugin_name ∷ [])

unfoldable pub validate_version : Text → Result Error (Unit {0})
unfolding matches_version
validate_version version =
    guard (text_eq version (codes "latest") || matches_version version) (invalid_plugin_name ∷ [])

-- req.Group + "/" + req.Name + ":" + req.Version
unfoldable pub full_name : Text → Text → Text → Text
full_name group name version = group ++ slash ∷ (name ++ colon ∷ version)

accepts_two_components : validate_version (codes "v33.1") ≡ ok tt
unfolding validate_version text_eq split
accepts_two_components = refl

refuses_one_component : validate_version (codes "v33") ≡ err (invalid_plugin_name ∷ [])
unfolding validate_version text_eq split
refuses_one_component = refl
