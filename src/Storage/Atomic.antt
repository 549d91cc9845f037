-- ===== src/Storage/Atomic.antt =====
-- internal/adapters/storage/s3.go: a download replaces a file as a whole or leaves the disk alone.
use easyp_plugin_server.Common.{
  ◌≡◌, ◌≢◌, ◌⊎◌, refl, sym, subst, ap, ◌∙◌, inl, inr, Option, none, some, Bool, true, false, ◌&&◌,
  Text, text_eq, text_eq→eq, text_eq-ne, lookup, insert, delete, lookup-insert, lookup-delete,
  is_ok, Bool-cases, Option-cases, if◌then◌else◌,
}
use easyp_plugin_server.Storage.{
  Files, Answers, S3Storage, format_key, move_file, clean_up, store_file, download,
}

-- What is put under a new name and taken away again leaves no trace.
pub taken_away :
    (tmp contents p : Text) (disk : Files)
    → lookup tmp disk ≡ none
    → lookup p (delete tmp (insert tmp contents disk)) ≡ lookup p disk
taken_away tmp contents p disk fresh =
    rw (lookup-delete tmp p (insert tmp contents disk), lookup-insert tmp p contents disk)
      (elim (Bool-cases (text_eq tmp p)) [
        | inl e ↦ rw (e) (sym (ap (λ t. lookup t disk) (sym (text_eq→eq tmp p e)) ∙ fresh))
        | inr e ↦ rw e refl
      ])

pub moved :
    (tmp to contents p : Text) (disk : Files)
    → lookup tmp disk ≡ none
    → lookup p (move_file tmp to contents (insert tmp contents disk))
      ≡ (if text_eq to p then some contents else lookup p disk)
unfolding move_file
moved tmp to contents p disk fresh =
    rw
      (
        lookup-insert to p contents (delete tmp (insert tmp contents disk)),
        taken_away tmp contents p disk fresh,
      )
      refl

-- The name under which a file is written first, if there is one, is not taken yet.
abbrev pub Fresh : Option Text → Files → Type 0
Fresh none disk = Unit
Fresh (some tmp) disk = lookup tmp disk ≡ none

-- The path is not that of a temporary file that stays behind.
abbrev pub Settled : Answers → Text → Type 0
Settled a p = (a.removed ≡ true) ⊎ (a.temp ≢ some p)

-- What is put under a new name and then removed leaves no trace elsewhere, nor there if the removal
-- succeeds.
cleaned_up :
    (a : Answers) (tmp contents p : Text) (disk : Files)
    → a.temp ≡ some tmp
    → lookup tmp disk ≡ none
    → Settled a p
    → lookup p (clean_up a tmp (insert tmp contents disk)) ≡ lookup p disk
unfolding clean_up
cleaned_up a tmp contents p disk is_temp fresh (inl r) =
    rw (r, clean_up) (taken_away tmp contents p disk fresh)
cleaned_up a tmp contents p disk is_temp fresh (inr other) = elim (Bool-cases a.removed) [
  | inl r ↦ rw (r, clean_up) (taken_away tmp contents p disk fresh)
  | inr r ↦
      let apart : text_eq tmp p ≡ false = text_eq-ne tmp p (λ e. other (is_temp ∙ ap some e)) in
      rw (r, lookup-insert tmp p contents disk, apart, clean_up) refl
]

store_file-whole :
    (a : Answers) (contents local_path p : Text) (disk : Files)
    → Fresh a.temp disk
    → Settled a p
    → lookup p (store_file a contents local_path disk).0 ≡ (
        if is_ok (store_file a contents local_path disk).1 && text_eq local_path p
        then some contents
        else lookup p disk)
unfolding store_file
store_file-whole a contents local_path p disk fresh settled = elim (Bool-cases a.made_dir) [
  | inr m ↦ rw (m, store_file) refl
  | inl m ↦ elim (Option-cases a.temp) [
    | inl t ↦ rw (m, t, store_file) refl
    | inr (tmp, t) ↦
        let new : lookup tmp disk ≡ none = subst (λ o. Fresh o disk) t fresh in
        elim (Bool-cases a.copied) [
          | inr c ↦ rw (m, t, c, store_file) (cleaned_up a tmp a.partial p disk t new settled)
          | inl c ↦ elim (Bool-cases a.closed) [
            | inr l ↦ rw (m, t, c, l, store_file) (cleaned_up a tmp contents p disk t new settled)
            | inl l ↦ elim (Bool-cases a.renamed) [
              | inr r ↦
                  rw (m, t, c, l, r, store_file) (cleaned_up a tmp contents p disk t new settled)
              | inl r ↦ rw (m, t, c, l, r, store_file) (moved tmp local_path contents p disk new)
            ]
          ]
        ]
  ]
]

-- Whatever the client and the disk answer, a download that succeeds changes one file, and that to
-- the whole of the object under the key, and a download that fails changes none: at every path,
-- but for that of the temporary file where its removal fails, which is then left behind. No file
-- has the temporary name before.
pub download-whole :
    (s : S3Storage) (reachable : Bool) (a : Answers) (objects : Files) (key local_path p : Text)
    (disk : Files)
    → Fresh a.temp disk
    → Settled a p
    → lookup p (download s reachable a objects key local_path disk).0 ≡ (
        if is_ok (download s reachable a objects key local_path disk).1 && text_eq local_path p
        then lookup (format_key s key) objects
        else lookup p disk)
unfolding download
download-whole s reachable a objects key local_path p disk fresh settled =
    elim (Bool-cases reachable) [
      | inr r ↦ rw (r, download) refl
      | inl r ↦ elim (Option-cases (lookup (format_key s key) objects)) [
        | inl o ↦ rw (r, o, download) refl
        | inr (contents, o) ↦
            rw (r, o, download) (store_file-whole a contents local_path p disk fresh settled)
      ]
    ]
