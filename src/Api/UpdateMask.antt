-- ===== src/Api/UpdateMask.antt =====
-- updateMaskFields of internal/api/api.go: which of two fields an UpdatePlugin replaces.
use easyp_plugin_server.Common.{
  ◌≡◌, Bool, true, false, ◌&&◌, ◌||◌, List, [], ◌∷◌, Text, codes, text_eq, trim_space, arith,
  if◌then◌else◌, Result, ok, err, text_eq_iff,
}
use easyp_plugin_server.Api.Status.{Code}

-- The loop over the paths of the mask, with the two results so far.
unfoldable pub read_paths : List Text → Bool → Bool → Result Code (Bool × Bool)
read_paths [] update_config update_tags = ok (update_config, update_tags)
read_paths (path ∷ paths) update_config update_tags =
    let config_too = read_paths paths true update_tags in
    let tags_too = read_paths paths update_config true in
    if text_eq (trim_space path) (codes "config")
    then config_too
    else if text_eq (trim_space path) (codes "tags")
    then tags_too
    else err Code.invalid_argument

-- An absent mask has no paths.
unfoldable pub update_mask_fields : List Text → Result Code (Bool × Bool)
unfolding read_paths
update_mask_fields [] = ok (true, true)
update_mask_fields (path ∷ paths) = read_paths (path ∷ paths) false false

abbrev pub names : Text → List Text → Bool
names field [] = false
names field (path ∷ paths) = text_eq (trim_space path) field || names field paths

abbrev pub all_known : List Text → Bool
all_known [] = true
all_known (path ∷ paths) =
    (text_eq (trim_space path) (codes "config") || text_eq (trim_space path) (codes "tags"))
    && all_known paths

config-ne-tags : (s : Text) → text_eq s (codes "config") ≡ true → text_eq s (codes "tags") ≡ false
config-ne-tags s h = ground (arith, text_eq_iff s (codes "config"), text_eq_iff s (codes "tags"))

read_paths_lem :
    (paths : List Text) (c t : Bool)
    → read_paths paths c t ≡ (
        if all_known paths
        then ok (c || names (codes "config") paths, t || names (codes "tags") paths)
        else err Code.invalid_argument)
unfolding read_paths
read_paths_lem [] c t = ground arith
read_paths_lem (path ∷ paths) c t = ground (
  arith,
  read_paths_lem paths true t,
  read_paths_lem paths c true,
  config-ne-tags (trim_space path),
)

-- A mask that names paths selects exactly the fields it names, in any order and however often,
-- and one unknown path refuses the whole mask.
pub update_mask_fields_lem :
    (path : Text) (paths : List Text)
    → update_mask_fields (path ∷ paths) ≡ (
        if all_known (path ∷ paths)
        then ok (names (codes "config") (path ∷ paths), names (codes "tags") (path ∷ paths))
        else err Code.invalid_argument)
unfolding update_mask_fields
update_mask_fields_lem path paths = read_paths_lem (path ∷ paths) false false
