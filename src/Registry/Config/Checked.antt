-- ===== src/Registry/Config/Checked.antt =====
-- What an accepted configuration promises, and what a recorded checksum is read back as.
use easyp_plugin_server.Common.{
  ◌≡◌, refl, sym, ◌∙◌, subst, Bool, true, false, not, ◌&&◌, ◌⊎◌, inl, inr, List, [], ◌∷◌, ◌++◌,
  append_assoc, some, Text, text_eq, text_eq→eq, text_eq_refl, has_prefix, lookup, insert,
  lookup-insert, Bool-cases, List-cases, Option-cases, ok, err, if◌then◌else◌,
}
use easyp_plugin_server.Core.Errors.{Error, invalid_config}
use easyp_plugin_server.Paths.{slash, is_abs, clean}
use easyp_plugin_server.Archive.Inside.{Inside, rooted-Inside, has_prefix-append}
use easyp_plugin_server.Registry.Config.{
  Json, PluginConfig, sha256_key, validate_config, config_with_checksum,
}

-- The guard of the command's path.
contained_guard :
    (same begins : Bool) (e : Error)
    → (if not same && not begins then err e else ok (tt {0})) ≡ ok tt
    → (same ≡ true) ⊎ (begins ≡ true)
contained_guard true begins e h = inl refl
contained_guard false true e h = inr refl
contained_guard false false e h = absurd (cc h)

-- The command of an accepted configuration starts with a path at or below the plugins directory, an
-- absolute path: cleaned, it has the directory's components and behind them plain names only.
pub validate_config-Inside :
    (json : Json) (config plugins_dir : Text) (c : PluginConfig)
    → is_abs plugins_dir ≡ true
    → json.unmarshal_config config ≡ some c
    → validate_config json config plugins_dir ≡ ok tt
    → (program : Text) × (arguments : List Text) × (c.command ≡ program ∷ arguments)
      × Inside plugins_dir (clean program)
unfolding validate_config
validate_config-Inside json config plugins_dir c abs parsed h =
    elim (Bool-cases (text_eq config [])) [
      | inl e ↦
          let refused : validate_config json config plugins_dir ≡ err (invalid_config ∷ []) =
            rw (e, validate_config) refl in
          absurd (cc (refused, h))
      | inr e ↦ elim (List-cases c.command) [
        | inl no_command ↦
            let refused : validate_config json config plugins_dir ≡ err (invalid_config ∷ []) =
              rw (e, parsed, no_command, validate_config) refl in
            absurd (cc (refused, h))
        | inr (program, arguments, command) ↦
            let same = text_eq (clean program) (clean plugins_dir) in
            let begins = has_prefix (clean program) (clean plugins_dir ++ slash ∷ []) in
            let guarded : validate_config json config plugins_dir
                ≡ (if not same && not begins then err (invalid_config ∷ []) else ok tt) =
              rw (e, parsed, command, validate_config) refl in
            let reach : (clean program ≡ clean plugins_dir)
                ⊎ ((t : Text) × (clean program ≡ clean plugins_dir ++ slash ∷ t)) =
              elim (contained_guard same begins (invalid_config ∷ []) (sym guarded ∙ h)) [
                | inl e' ↦ inl (text_eq→eq (clean program) (clean plugins_dir) e')
                | inr e' ↦
                    let (t, longer) =
                      has_prefix-append (clean program) (clean plugins_dir ++ slash ∷ []) e' in
                    inr (t, longer ∙ append_assoc (clean plugins_dir) (slash ∷ []) t)
              ] in
            (program, arguments, command, rooted-Inside plugins_dir program abs reach)
      ]
    ]

-- The only key of these that is read into the field Sha256 is its own name.
abbrev pub ExactKeys : (json : Json) → List (Text × json.Value) → Type 0
ExactKeys json m =
    (k : Text) (v : json.Value) → lookup k m ≡ some v → json.is_sha256 k ≡ true → k ≡ sha256_key

-- What the registry relies on of encoding/json: an object that is written is read back with the
-- same keys, and its key sha256, if no other is taken for it, is what the field is read from.
pub record JsonLaws (json : Json) : Type 0 where
  pub reads_back :
      (m : List (Text × json.Value)) (t : Text)
      → json.marshal m ≡ some t
      → (m' : List (Text × json.Value)) × (json.unmarshal_map t ≡ some m')
        × ((k : Text) → lookup k m' ≡ lookup k m)
  pub reads_field :
      (t hex : Text) (m : List (Text × json.Value)) (c : PluginConfig)
      → json.unmarshal_map t ≡ some m
      → json.unmarshal_config t ≡ some c
      → ExactKeys json m
      → lookup sha256_key m ≡ some (json.string_value hex)
      → c.sha256 ≡ hex

exact_after :
    (json : Json) (m : List (Text × json.Value)) (w : json.Value)
    → ExactKeys json m
    → ExactKeys json (insert sha256_key w m)
exact_after json m w exact k v at taken = elim (Bool-cases (text_eq sha256_key k)) [
  | inl same ↦ sym (text_eq→eq sha256_key k same)
  | inr other ↦
      let before : lookup k m ≡ some v =
        sym (lookup-insert sha256_key k w m ∙ rw other refl) ∙ at in
      exact k v before taken
]

-- A configuration with a checksum recorded in it reads that checksum back.
pub config_with_checksum-sha256 :
    (json : Json) (laws : JsonLaws json) (config hex updated : Text) (m : List (Text × json.Value))
    (c : PluginConfig)
    → json.unmarshal_map config ≡ some m
    → ExactKeys json m
    → config_with_checksum json config hex ≡ ok updated
    → json.unmarshal_config updated ≡ some c
    → c.sha256 ≡ hex
unfolding config_with_checksum
config_with_checksum-sha256 json laws config hex updated m c raw exact h parsed =
    let m' = insert sha256_key (json.string_value hex) m in
    let at_key = lookup-insert sha256_key sha256_key (json.string_value hex) m in
    elim (Option-cases (json.marshal m')) [
      | inl e ↦
          let refused : config_with_checksum json config hex ≡ err [] =
            rw (raw, e, config_with_checksum) refl in
          absurd (cc (refused, h))
      | inr (t, written) ↦
          let same : config_with_checksum json config hex ≡ ok t =
            rw (raw, written, config_with_checksum) refl in
          let (back, read, agrees) = laws.reads_back m' t written in
          laws.reads_field t hex back c read
            (subst (λ u. json.unmarshal_config u ≡ some c) (cc (same, h)) parsed)
            (λ k v at taken.
              exact_after json m (json.string_value hex) exact k v (sym (agrees k) ∙ at) taken)
            (agrees sha256_key ∙ at_key ∙ rw (text_eq_refl sha256_key) refl)
    ]
