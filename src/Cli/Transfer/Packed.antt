-- ===== src/Cli/Transfer/Packed.antt =====
-- cmd/easyp-svc/pack.go: packing replaces an archive as a whole or leaves the disk alone.
use easyp_plugin_server.Common.{
  ◌≡◌, refl, subst, inl, inr, none, some, Bool, true, false, not, ◌&&◌, Text, text_eq, lookup,
  Result, ok, err, Bool-cases, Option-cases, if◌then◌else◌,
}
use easyp_plugin_server.Storage.{Files}
use easyp_plugin_server.Storage.Atomic.{Fresh, taken_away, moved}
use easyp_plugin_server.Cli.Plugins.{PluginInfo, archive_local_path}
use easyp_plugin_server.Cli.Transfer.{
  TransferError, PackAnswers, place_archive, write_archive, pack_to, pack_single_plugin,
}

-- A plugin that was neither skipped nor failed.
abbrev pub is_written : Result TransferError Bool → Bool
is_written (err e) = false
is_written (ok skipped) = not skipped

abbrev Whole : Text → Text → Text → Files → Files × Result TransferError Bool → Type 0
Whole archive dest_path p disk (after, outcome) =
    lookup p after
    ≡ (if is_written outcome && text_eq dest_path p then some archive else lookup p disk)

place_archive-Whole :
    (a : PackAnswers) (archive dest_path p : Text) (disk : Files)
    → Fresh a.temp disk
    → Whole archive dest_path p disk (place_archive a archive dest_path disk)
unfolding place_archive
place_archive-Whole a archive dest_path p disk fresh = elim (Option-cases a.temp) [
  | inl t ↦ rw (t, place_archive) refl
  | inr (tmp, t) ↦
      let new : lookup tmp disk ≡ none = subst (λ o. Fresh o disk) t fresh in
      elim (Bool-cases a.written) [
        | inr w ↦ rw (t, w, place_archive) (taken_away tmp a.partial p disk new)
        | inl w ↦ elim (Bool-cases (a.closed && a.permitted && a.renamed)) [
          | inr c ↦ rw (t, w, c, place_archive) (taken_away tmp archive p disk new)
          | inl c ↦ rw (t, w, c, place_archive) (moved tmp dest_path archive p disk new)
        ]
      ]
]

write_archive-Whole :
    (a : PackAnswers) (archive dest_path p : Text) (disk : Files)
    → Fresh a.temp disk
    → Whole archive dest_path p disk (write_archive a archive dest_path disk)
unfolding write_archive
write_archive-Whole a archive dest_path p disk fresh = elim (Bool-cases a.made_dir) [
  | inr m ↦ rw (m, write_archive) refl
  | inl m ↦ rw (m, write_archive) (place_archive-Whole a archive dest_path p disk fresh)
]

pack_to-Whole :
    (a : PackAnswers) (archive dest_path p : Text) (force : Bool) (disk : Files)
    → Fresh a.temp disk
    → Whole archive dest_path p disk (pack_to a archive dest_path force disk)
unfolding pack_to
pack_to-Whole a archive dest_path p true disk fresh =
    write_archive-Whole a archive dest_path p disk fresh
pack_to-Whole a archive dest_path p false disk fresh = elim (Bool-cases a.stats) [
  | inr s ↦ rw (s, pack_to) refl
  | inl s ↦ elim (Option-cases (lookup dest_path disk)) [
    | inr (contents, l) ↦ rw (s, l, pack_to) refl
    | inl l ↦ rw (s, l, pack_to) (write_archive-Whole a archive dest_path p disk fresh)
  ]
]

-- Whatever the disk answers, packing a plugin changes one file, and that to the whole of its
-- archive, or none; no file has the temporary name before.
pub pack_single_plugin-whole :
    (a : PackAnswers) (archive out_dir p : Text) (plg : PluginInfo) (force : Bool) (disk : Files)
    → Fresh a.temp disk
    → lookup p (pack_single_plugin a archive out_dir plg force disk).0 ≡ (
        if is_written (pack_single_plugin a archive out_dir plg force disk).1
          && text_eq (archive_local_path out_dir plg) p
        then some archive
        else lookup p disk)
pack_single_plugin-whole a archive out_dir p plg force disk fresh =
    unfold pack_single_plugin in
    pack_to-Whole a archive (archive_local_path out_dir plg) p force disk fresh
