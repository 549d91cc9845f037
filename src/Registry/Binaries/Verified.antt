-- ===== src/Registry/Binaries/Verified.antt =====
-- What is unpacked: an archive with the digest that was recorded when its plugin was registered.
use easyp_plugin_server.Common.{
  ◌≡◌, ◌≢◌, refl, sym, ◌∙◌, true, ◌⊎◌, inl, inr, List, Option, some, [], Text, text_eq, text_eq→eq,
  Bool-cases, Option-cases, Result-cases, ok, err,
}
use easyp_plugin_server.Core.Errors.{Error}
use easyp_plugin_server.Registry.Config.{
  PluginConfig, validate_config, config_with_checksum, archive_key, verify_checksum,
}
use easyp_plugin_server.Registry.Config.Checked.{ExactKeys, JsonLaws, config_with_checksum-sha256}
use easyp_plugin_server.Registry.Backend.{Backend, State}
use easyp_plugin_server.Registry.Plugins.{attach_archive_checksum, checked_config}
use easyp_plugin_server.Registry.Binaries.{fetch_and_unpack}

verify_checksum-digest :
    (digest : Text → Text) (failure : Option Error) (contents expected : Text)
    → verify_checksum digest failure contents expected ≡ ok tt
    → (expected ≡ []) ⊎ (digest contents ≡ expected)
unfolding verify_checksum
verify_checksum-digest digest failure contents expected h =
    elim (Bool-cases (text_eq expected [])) [
      | inl e ↦ inl (text_eq→eq expected [] e)
      | inr e ↦ elim (Option-cases failure) [
        | inr (f, failed) ↦
            let refused : verify_checksum digest failure contents expected ≡ err f =
              rw (e, failed, verify_checksum) refl in
            absurd (cc (refused, h))
        | inl fine ↦ elim (Bool-cases (text_eq (digest contents) expected)) [
          | inl same ↦ inr (text_eq→eq (digest contents) expected same)
          | inr other ↦
              let refused : verify_checksum digest failure contents expected ≡ err [] =
                rw (e, fine, other, verify_checksum) refl in
              absurd (cc (refused, h))
        ]
      ]
    ]

module _ (B : Backend) where
  -- The disk holds what unpacking a downloaded archive made of it, and the archive has the expected
  -- digest, if one is expected.
  pub record Installs (key version_dir expected : Text) (s : State B) (after : B.Disk)
      : Type 0 where
    pub contents : Text
    pub downloaded : B.download key s.objects ≡ ok contents
    pub verified : (expected ≡ []) ⊎ (B.digest contents ≡ expected)
    pub unpacked : after ≡ B.discard (B.unpack contents version_dir (B.stage s.disk).1).1

  -- Nothing but the staging of the archive was done to the disk.
  abbrev pub OnlyStaged : State B → B.Disk → Type 0
  OnlyStaged s after = (after ≡ (B.stage s.disk).1) ⊎ (after ≡ B.discard (B.stage s.disk).1)

  fetch_and_unpack-Installs :
      (key version_dir expected : Text) (s : State B)
      → Installs key version_dir expected s (fetch_and_unpack B key version_dir expected s).1.disk
        ⊎ ((e : Error) × ((fetch_and_unpack B key version_dir expected s).0 ≡ err e)
            × OnlyStaged s (fetch_and_unpack B key version_dir expected s).1.disk)
  unfolding fetch_and_unpack
  fetch_and_unpack-Installs key version_dir expected s = elim (Result-cases (B.stage s.disk).0) [
    | inr (e, no_stage) ↦ rw (no_stage, fetch_and_unpack) (inr (e, refl, inl refl))
    | inl (tt, staged) ↦ elim (Result-cases (B.download key s.objects)) [
      | inr (e, no_download) ↦ rw (staged, no_download, fetch_and_unpack) (inr (_, refl, inr refl))
      | inl (contents, downloaded) ↦
          let check =
            verify_checksum B.digest (B.read_failure (B.stage s.disk).1) contents expected in
          elim (Result-cases check) [
            | inr (e, refused) ↦
                rw (staged, downloaded, refused, fetch_and_unpack) (inr (e, refl, inr refl))
            | inl (tt, passed) ↦
                rw (staged, downloaded, passed, fetch_and_unpack)
                  (inl (record {
                    contents = contents;
                    downloaded = downloaded;
                    verified = verify_checksum-digest B.digest _ contents expected passed;
                    unpacked = refl;
                  }))
          ]
    ]
  ]

  -- The configuration that a registration stores records the digest of the archive in the storage.
  checked_config-sha256 :
      (laws : JsonLaws B.json) (group name version config stored archive : Text)
      (objects : B.Objects) (m : List (Text × B.json.Value)) (c : PluginConfig)
      → B.has_storage ≡ true
      → B.open_object (archive_key group name version) objects ≡ ok (ok archive)
      → B.json.unmarshal_map config ≡ some m
      → ExactKeys B.json m
      → checked_config B group name version config objects ≡ ok stored
      → B.json.unmarshal_config stored ≡ some c
      → c.sha256 ≡ B.digest archive
  unfolding checked_config attach_archive_checksum
  checked_config-sha256 laws group name version config stored archive objects m c storage opened raw
        exact h parsed =
      elim (Result-cases (validate_config B.json config B.plugins_dir)) [
        | inr (e, invalid) ↦
            let refused : checked_config B group name version config objects ≡ err e =
              rw (invalid, checked_config) refl in
            absurd (cc (refused, h))
        | inl (tt, valid) ↦
            let recorded : checked_config B group name version config objects
                ≡ config_with_checksum B.json config (B.digest archive) =
              rw (valid, storage, opened, checked_config, attach_archive_checksum) refl in
            config_with_checksum-sha256 B.json laws config (B.digest archive) stored m c raw exact
              (sym recorded ∙ h) parsed
      ]

  -- A plugin is registered while the storage holds its archive, and its executable is fetched later,
  -- from a storage that may have changed in between: either what is unpacked has the digest of the
  -- archive of the registration, or the fetch fails and the disk only saw the staging. The
  -- configuration has no key but `sha256` that is read as that field, and a digest is not empty.
  pub registered-Installs :
      (laws : JsonLaws B.json) (group name version config stored archive version_dir : Text)
      (objects : B.Objects) (m : List (Text × B.json.Value)) (c : PluginConfig) (later : State B)
      → B.has_storage ≡ true
      → B.open_object (archive_key group name version) objects ≡ ok (ok archive)
      → B.json.unmarshal_map config ≡ some m
      → ExactKeys B.json m
      → B.digest archive ≢ []
      → checked_config B group name version config objects ≡ ok stored
      → B.json.unmarshal_config stored ≡ some c
      → ((contents : Text) × (B.digest contents ≡ B.digest archive)
          × ((fetch_and_unpack B (archive_key group name version) version_dir c.sha256 later).1.disk
              ≡ B.discard (B.unpack contents version_dir (B.stage later.disk).1).1))
        ⊎ ((e : Error) × ((fetch_and_unpack B
                (archive_key group name version)
                version_dir
                c.sha256
                later).0
              ≡ err e)
            × OnlyStaged later
                (fetch_and_unpack B
                  (archive_key group name version)
                  version_dir
                  c.sha256
                  later).1.disk)
  registered-Installs laws group name version config stored archive version_dir objects m c later
        storage opened raw exact full h parsed =
      let recorded =
        checked_config-sha256 laws group name version config stored archive objects m c storage
          opened raw exact h parsed in
      elim (fetch_and_unpack-Installs (archive_key group name version) version_dir c.sha256 later) [
        | inr failed ↦ inr failed
        | inl i ↦ elim i.verified [
          | inl none_expected ↦ absurd (full (sym recorded ∙ none_expected))
          | inr same ↦ inl (i.contents, same ∙ recorded, i.unpacked)
        ]
      ]
