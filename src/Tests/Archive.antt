-- ===== src/Tests/Archive.antt =====
-- Archives unpacked: an archive with a program and a name that steps out, and a chain of links.
use easyp_plugin_server.Common.{
  ℕ, ◌≡◌, refl, Bool, true, List, [], ◌∷◌, Option, ok, some, Text, codes, All, split, split_from,
  text_eq, has_prefix,
}
use easyp_plugin_server.Paths.{
  is_abs, is_void, parts, run, enter, back, clean, join, dir, render, join_parts,
}
use easyp_plugin_server.Archive.{
  Effect, Header, type_reg, check_symlink_target, resolve_link, extract_to,
}
use easyp_plugin_server.Archive.Inside.{Inside}
use easyp_plugin_server.Archive.Contained.{Contained, NoLink, extract_to-Contained}

abbrev program : Header
program = record { kind = type_reg; name = codes "plugin"; linkname = [] }

abbrev escape : Header
escape = record { kind = type_reg; name = codes "../x"; linkname = [] }

abbrev flat_headers : List (Option Header)
flat_headers = some program ∷ some escape ∷ []

abbrev all_succeed : Effect → Bool
all_succeed e = true

flat : All NoLink flat_headers
flat = ((λ e. cc e), ((λ e. cc e), tt))

extract_to-Contained_example :
    All (Contained (codes "/p/t")) (extract_to all_succeed (codes "/p/t") flat_headers).0
extract_to-Contained_example = extract_to-Contained all_succeed b'/' (codes "p/t") flat_headers flat

abbrev second_byte : List Text → ℕ
second_byte [] = 0
second_byte (a ∷ []) = 0
second_byte (a ∷ [] ∷ l) = 0
second_byte (a ∷ (c ∷ t) ∷ l) = c

-- A chain of links of which each passes the check by its text: the second is made below the first.
chain_passes :
    (check_symlink_target (codes "/r") (codes "/r/a/b/c") (codes "../..") ≡ ok tt)
    × (check_symlink_target (codes "/r") (codes "/r/a/b/c/d") (codes "../../..") ≡ ok tt)
unfolding check_symlink_target resolve_link clean join dir is_abs has_prefix text_eq parts split
    split_from run enter is_void back render join_parts
chain_passes = (refl, refl)
