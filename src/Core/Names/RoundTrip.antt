-- ===== src/Core/Names/RoundTrip.antt =====
-- A validated name survives being joined by CreatePlugin and taken apart by Generate.
use easyp_plugin_server.Common.{
  ℕ, ◌≡◌, refl, ◌≢◌, inl, inr, true, false, ◌++◌, List, [], ◌∷◌, Text, codes, arith, All,
  All-append, Lacks, text_eq, text_eq→eq, split, split-append_sep, split_of_Lacks, split-Lacks,
  every-Lacks, Bool-cases, ok,
}
use easyp_plugin_server.Core.Names.{
  slash, colon, is_digit, is_name_byte, matches_name, is_number, are_components, matches_version,
  validate_group_name, validate_version, full_name, get_group, get_name_and_version,
}

-- The two separators stand in no component of a name.
abbrev Plain : Text → Type 0
Plain s = Lacks slash s × Lacks colon s

matches_name-Plain : (s : Text) → matches_name s ≡ true → Plain s
unfolding matches_name
matches_name-Plain [] h = absurd (cc)
matches_name-Plain (c ∷ s) h = (
  ((λ e. ground arith), every-Lacks is_name_byte slash s refl (ground arith)),
  ((λ e. ground arith), every-Lacks is_name_byte colon s refl (ground arith)),
)

is_number-Lacks : (b : ℕ) (s : Text) → is_digit b ≡ false → is_number s ≡ true → Lacks b s
unfolding is_number
is_number-Lacks b [] no_b h = tt
is_number-Lacks b (c ∷ s) no_b h = every-Lacks is_digit b (c ∷ s) no_b h

are_components-Lacks :
    (b : ℕ) (ps : List Text) → is_digit b ≡ false → are_components ps ≡ true → All (Lacks b) ps
unfolding are_components
are_components-Lacks b [] no_b h = tt
are_components-Lacks b (p ∷ []) no_b h = cc
are_components-Lacks b (p ∷ q ∷ []) no_b h =
    (is_number-Lacks b p no_b (ground arith), (is_number-Lacks b q no_b (ground arith), tt))
are_components-Lacks b (p ∷ q ∷ r ∷ []) no_b h = (
  is_number-Lacks b p no_b (ground arith),
  (is_number-Lacks b q no_b (ground arith), (is_number-Lacks b r no_b (ground arith), tt)),
)
are_components-Lacks b (p ∷ q ∷ r ∷ t ∷ ps) no_b h = cc

matches_version-Plain : (s : Text) → matches_version s ≡ true → Plain s
unfolding matches_version is_digit
matches_version-Plain [] h = absurd (cc)
matches_version-Plain (c ∷ s) h =
    let parts : are_components (split s b'.') ≡ true = ground arith in
    (
      (
        (λ e. ground arith),
        split-Lacks slash b'.' s (omega arith) (are_components-Lacks slash _ refl parts),
      ),
      (
        (λ e. ground arith),
        split-Lacks colon b'.' s (omega arith) (are_components-Lacks colon _ refl parts),
      ),
    )

validate_version-Plain : (s : Text) → validate_version s ≡ ok tt → Plain s
unfolding validate_version
validate_version-Plain s h = elim (Bool-cases (text_eq s (codes "latest"))) [
  | inl e ↦ rw (text_eq→eq s (codes "latest") e) (omega arith, omega arith)
  | inr e ↦ matches_version-Plain s (ground arith)
]

validate_group_name-Plain :
    (group name : Text) → validate_group_name group name ≡ ok tt → Plain group × Plain name
unfolding validate_group_name
validate_group_name-Plain group name h =
    (matches_name-Plain group (ground arith), matches_name-Plain name (ground arith))

split-full_name :
    (group name version : Text)
    → Lacks slash group
    → Lacks slash name
    → Lacks slash version
    → split (full_name group name version) slash ≡ group ∷ (name ++ colon ∷ version) ∷ []
unfolding full_name
split-full_name group name version g n v = rw (
  split-append_sep slash group (name ++ colon ∷ version) g,
  split_of_Lacks slash (name ++ colon ∷ version)
      (All-append (λ c. c ≢ slash) name (colon ∷ version) n ((λ e. omega arith), v)),
)

-- A group, name and version that CreatePlugin accepts are what Generate reads back from
-- "{group}/{name}:{version}".
pub get_full_name :
    (group name version : Text)
    → validate_group_name group name ≡ ok tt
    → validate_version version ≡ ok tt
    → (get_group (full_name group name version) ≡ ok group)
      × (get_name_and_version (full_name group name version) ≡ ok (name, version))
unfolding get_group get_name_and_version
get_full_name group name version g v =
    let (group_plain, name_plain) = validate_group_name-Plain group name g in
    let version_plain = validate_version-Plain version v in
    let parts = split-full_name group name version group_plain.0 name_plain.0 version_plain.0 in
    let last = split-append_sep colon name version name_plain.1 in
    let rest = split_of_Lacks colon version version_plain.1 in
    (rw (parts, get_group), rw (parts, get_name_and_version, last, rest))
