-- ===== src/Archive/Contained.antt =====
-- Unpacking: every change stays below the temporary directory, and the destination is only touched
-- once the whole archive is out.
use easyp_plugin_server.Common.{
  ℕ, ◌≡◌, ◌≢◌, refl, Bool, inl, inr, List, [], ◌∷◌, Text, All, All-append, Bool-cases, Option, none,
  some, ok, err, Result-cases,
}
use easyp_plugin_server.Archive.{
  Effect, make_dir, make_parents, write_file, remove, remove_all, make_temp, chmod, make_link,
  rename, Kind, Header, Run, perform, extract_regular, extract_entry, and_then, extract_to,
  safe_join, done, type_dir, type_reg, type_symlink, type_other,
}
use easyp_plugin_server.Archive.Inside.{Inside, safe_join-Inside}

-- A change of what lies below a directory, other than a link.
abbrev pub Contained : Text → Effect → Type 0
Contained root (make_dir p) = Inside root p
Contained root (make_parents p) = Inside root p
Contained root (write_file p) = Inside root p
Contained root (remove p) = Inside root p
Contained root (remove_all p) = Inside root p
Contained root (make_temp p) = Inside root p
Contained root (chmod p) = Inside root p
Contained root (make_link p link) = ⊥
Contained root (rename p q) = Inside root p × Inside root q

-- An entry that is not a symbolic link.
abbrev pub NoLink : Option Header → Type 0
NoLink none = Unit
NoLink (some header) = header.kind ≢ type_symlink

-- Neither at or below a path nor above it.
abbrev pub Apart : Text → Text → Type 0
Apart dest p = (¬ Inside dest p) × (¬ Inside p dest)

-- Nothing at a path, below it or above it is written, removed or put in place; directories that are
-- missing above it may be made.
abbrev pub Spares : Text → Effect → Type 0
Spares dest (make_dir p) = Apart dest p
Spares dest (make_parents p) = Unit
Spares dest (write_file p) = Apart dest p
Spares dest (remove p) = Apart dest p
Spares dest (remove_all p) = Apart dest p
Spares dest (make_temp p) = Apart dest p
Spares dest (chmod p) = Apart dest p
Spares dest (make_link p link) = ⊥
Spares dest (rename p q) = Apart dest p × Apart dest q

-- The whole archive is out, and there is something at the entrypoint's path.
abbrev pub Complete : Run → Option Bool → Type 0
Complete extracted lstat = (extracted.1 ≡ ok tt) × (regular : Bool) × (lstat ≡ some regular)

module _ (fs : Effect → Bool) where
  perform-All :
      (P : Effect → Type 0) (e : Effect) (next : Run)
      → P e
      → All P next.0
      → All P (perform fs e next).0
  unfolding perform
  perform-All P e next here behind = elim (Bool-cases (fs e)) [
    | inl h ↦ rw (h, perform) (here, behind)
    | inr h ↦ rw (h, perform) (here, tt)
  ]

  and_then-All :
      (P : Effect → Type 0) (r next : Run) → All P r.0 → All P next.0 → All P (and_then fs r next).0
  unfolding and_then
  and_then-All P (effects, err e) next here behind = here
  and_then-All P (effects, ok u) next here behind = All-append P effects next.0 here behind

  extract_entry-Contained :
      (root : Text) (kind : Kind) (name linkname target : Text)
      → kind ≢ type_symlink
      → Inside root target
      → All
          (Contained root)
          (extract_entry fs root
            (record { kind = kind; name = name; linkname = linkname })
            target).0
  unfolding extract_entry extract_regular
  extract_entry-Contained root type_dir name linkname target flat inside =
      perform-All (Contained root) (make_dir target) done inside tt
  extract_entry-Contained root type_reg name linkname target flat inside =
      perform-All (Contained root) (make_parents target) (perform fs (write_file target) done)
        inside (perform-All (Contained root) (write_file target) done inside tt)
  extract_entry-Contained root type_symlink name linkname target flat inside = absurd (flat refl)
  extract_entry-Contained root type_other name linkname target flat inside = tt

  -- Whatever an archive without symbolic links holds, every change of its extraction is at or below
  -- the directory that it is extracted into, and none makes a link there.
  pub extract_to-Contained :
      (x : ℕ) (path : Text) (headers : List (Option Header))
      → All NoLink headers
      → All (Contained (x ∷ path)) (extract_to fs (x ∷ path) headers).0
  unfolding extract_to
  extract_to-Contained x path [] flat = tt
  extract_to-Contained x path (none ∷ headers) flat = tt
  extract_to-Contained x path (some header ∷ headers) flat =
      let root = x ∷ path in
      let later = extract_to-Contained x path headers flat.1 in
      elim (Result-cases (safe_join root header.name)) [
        | inr (e, refused) ↦ rw (refused, extract_to) tt
        | inl (target, joined) ↦
            let inside = safe_join-Inside x path header.name target joined in
            rw (joined, extract_to)
              (and_then-All (Contained root) (extract_entry fs root header target)
                (extract_to fs root headers)
                (extract_entry-Contained root header.kind header.name header.linkname target flat.0
                  inside)
                later)
      ]
