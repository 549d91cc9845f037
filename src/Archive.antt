-- ===== src/Archive.antt =====
-- internal/plugarchive/plugarchive.go: plugin archives taken apart. What the file system and the
-- archive answer is an argument; what is modelled is every change that an unpacking asks for, under
-- the path that the code gives. How the disk resolves a path through a link that an unpacking has
-- made itself is the disk's: what is shown of where changes land is for archives without links.
pub mod Inside
pub mod Contained
use easyp_plugin_server.Common.{
  ℕ, Bool, true, false, not, ◌&&◌, ◌||◌, List, [], ◌∷◌, ◌++◌, Text, codes, text_eq, has_prefix,
  Option, none, some, if◌then◌else◌, Result, ok, err,
}
use easyp_plugin_server.Paths.{slash, dotdot, is_abs, clean, join, dir}

pub data ArchiveError : Type 0 where
  unsafe_path missing_entrypoint io_error : ArchiveError

-- The type flag of a tar header; all other flags are skipped.
pub data Kind : Type 0 where
  type_dir type_reg type_symlink type_other : Kind

pub record Header : Type 0 where
  pub kind : Kind
  pub name : Text
  pub linkname : Text

-- One change of the file system. `make_parents p` is MkdirAll of the directory of p.
pub data Effect : Type 0 where
  make_dir make_parents write_file remove remove_all make_temp chmod : Text → Effect
  make_link : Text → Text → Effect
  rename : Text → Text → Effect

abbrev pub entrypoint_name : Text
entrypoint_name = codes "plugin"

unfoldable pub safe_join : Text → Text → Result ArchiveError Text
unfolding is_abs text_eq has_prefix clean join
safe_join dest_dir name =
    let cleaned = clean name in
    if is_abs cleaned || text_eq cleaned dotdot || has_prefix cleaned (dotdot ++ slash ∷ [])
    then err unsafe_path
    else ok (join dest_dir cleaned)

-- Where the code takes a relative link to lead: by its text, from the directory of the link's path.
unfoldable pub resolve_link : Text → Text → Text
unfolding clean join dir
resolve_link target linkname = clean (join (dir target) (clean linkname))

unfoldable pub check_symlink_target : (root target linkname : Text) → Result ArchiveError (Unit {0})
unfolding is_abs text_eq has_prefix clean resolve_link
check_symlink_target root target linkname =
    if text_eq linkname []
    then err unsafe_path
    else if is_abs (clean linkname)
    then err unsafe_path
    else if not (text_eq (resolve_link target linkname) (clean root))
        && not (has_prefix (resolve_link target linkname) (clean root ++ slash ∷ []))
    then err unsafe_path
    else ok tt

-- What was asked of the file system, in order, and how it ended.
abbrev pub Run : Type 0
Run = List Effect × Result ArchiveError (Unit {0})

abbrev pub done : Run
done = ([], ok tt)

abbrev pub refuse : ArchiveError → Run
refuse e = ([], err e)

module _ (fs : Effect → Bool) where
  -- `fs` says which changes succeed; one that fails ends the run.
  unfoldable pub perform : Effect → Run → Run
  perform e next = if fs e then (e ∷ next.0, next.1) else (e ∷ [], err io_error)

  unfoldable pub extract_regular : Text → Run
  unfolding perform
  extract_regular target = perform (make_parents target) (perform (write_file target) done)

  -- The result of the Remove is not looked at.
  unfoldable pub extract_symlink : Text → Header → Text → Run
  unfolding perform check_symlink_target
  extract_symlink root header target = elim (check_symlink_target root target header.linkname) [
    | err e ↦ refuse e
    | ok _ ↦
        let linked = perform (make_link target header.linkname) done in
        perform (make_parents target) (remove target ∷ linked.0, linked.1)
  ]

  unfoldable pub extract_entry : Text → Header → Text → Run
  unfolding perform extract_regular extract_symlink
  extract_entry root header target = elim header.kind [
    | type_dir ↦ perform (make_dir target) done
    | type_reg ↦ extract_regular target
    | type_symlink ↦ extract_symlink root header target
    | type_other ↦ done
  ]

  -- One run, and another behind it if it succeeds.
  unfoldable pub and_then : Run → Run → Run
  and_then (effects, err e) next = (effects, err e)
  and_then (effects, ok u) next = (effects ++ next.0, next.1)

  -- The loop over the entries: `none` is a header that cannot be read.
  unfoldable pub extract_to : Text → List (Option Header) → Run
  unfolding safe_join extract_entry and_then
  extract_to dest_dir [] = done
  extract_to dest_dir (none ∷ headers) = refuse io_error
  extract_to dest_dir (some header ∷ headers) = elim (safe_join dest_dir header.name) [
    | err e ↦ refuse e
    | ok target ↦ and_then (extract_entry dest_dir header target) (extract_to dest_dir headers)
  ]

  -- Unpack behind extractTo: `lstat` is what Lstat answers of the entrypoint, and whether it is a
  -- regular file.
  unfoldable pub install : Option Bool → Text → Text → Run
  unfolding perform join
  install lstat tmp_dir dest_dir =
      let replaced = perform (remove_all dest_dir) (perform (rename tmp_dir dest_dir) done) in
      elim lstat [
        | none ↦ refuse missing_entrypoint
        | some regular ↦
            if regular then perform (chmod (join tmp_dir entrypoint_name)) replaced else replaced
      ]

  -- The temporary directory's name is the library's choice; its removal at the end is deferred.
  unfoldable pub unpack : (tmp_dir : Text) → Option Bool → List (Option Header) → Text → Run
  unfolding perform extract_to and_then install
  unpack tmp_dir lstat headers dest_dir =
      let extracted = and_then (extract_to tmp_dir headers) (install lstat tmp_dir dest_dir) in
      let (effects, result) = perform (make_parents dest_dir) (
        perform (make_temp tmp_dir) (
          let rest = perform (chmod tmp_dir) extracted in
          (rest.0 ++ remove_all tmp_dir ∷ [], rest.1))) in
      (effects, result)
