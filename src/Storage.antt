-- ===== src/Storage.antt =====
-- internal/adapters/storage/s3.go: archives in an S3 bucket. The client of the bucket and the
-- answers of the disk are parameters.
pub mod Atomic
use easyp_plugin_server.Common.{
  List, [], ◌∷◌, ◌++◌, Option, none, some, Bool, true, false, not, ◌&&◌, Text, text_eq, lookup,
  insert, delete, Result, ok, err, ◌==◌, if◌then◌else◌,
}
use easyp_plugin_server.Config.Env.{has_suffix}
use easyp_plugin_server.Paths.{slash}

-- S3Options
pub record S3Options : Type 0 where
  pub endpoint : Text
  pub bucket : Text
  pub region : Text
  pub prefix : Text
  pub access_key_id : Text
  pub secret_access_key : Text
  pub force_path_style : Bool

-- S3Storage, without its client.
pub record S3Storage : Type 0 where
  pub bucket : Text
  pub prefix : Text

pub data StorageError : Type 0 where
  bucket_required : StorageError
  load_config get_object head_object put_object delete_object : StorageError
  open_file mkdir create_temp copy close rename : StorageError

-- The credentials that the client is given, if they are static ones.
unfoldable pub static_credentials : S3Options → Option (Text × Text)
unfolding text_eq
static_credentials opts =
    if not (text_eq opts.access_key_id []) && not (text_eq opts.secret_access_key [])
    then some (opts.access_key_id, opts.secret_access_key)
    else none

-- NewS3Storage; `loads` says whether the configuration of the client can be loaded.
unfoldable pub new_s3_storage : Bool → S3Options → Result StorageError S3Storage
unfolding text_eq has_suffix
new_s3_storage loads opts =
    if text_eq opts.bucket []
    then err bucket_required
    else if not loads
    then err load_config
    else ok record {
      bucket = opts.bucket;
      prefix =
          if not (text_eq opts.prefix []) && not (has_suffix opts.prefix (slash ∷ []))
          then opts.prefix ++ slash ∷ []
          else opts.prefix;
    }

-- strings.TrimPrefix of a slash
unfoldable pub trim_slash : Text → Text
trim_slash [] = []
trim_slash (c ∷ key) = if c == slash then key else c ∷ key

-- formatKey
unfoldable pub format_key : S3Storage → Text → Text
unfolding trim_slash
format_key s key = s.prefix ++ trim_slash key

-- The objects of the bucket, and the files of the disk, by their names.
abbrev pub Files : Type 0
Files = List (Text × Text)

-- What the disk answers to the calls that write a file by way of a temporary one; the copy leaves
-- what it has read so far, and the whole of it if it succeeds.
pub record Answers : Type 0 where
  pub made_dir : Bool
  pub temp : Option Text
  pub copied : Bool
  pub partial : Text
  pub closed : Bool
  pub renamed : Bool
  pub removed : Bool

-- os.Rename
unfoldable pub move_file : Text → Text → Text → Files → Files
unfolding insert delete
move_file from to contents disk = insert to contents (delete from disk)

-- os.Remove of the temporary file, whose error is not looked at.
unfoldable pub clean_up : Answers → Text → Files → Files
unfolding delete
clean_up a tmp disk = if a.removed then delete tmp disk else disk

-- Download, from the object on.
unfoldable pub store_file : Answers → Text → Text → Files → Files × Result StorageError (Unit {0})
unfolding move_file clean_up insert
store_file a contents local_path disk = if not a.made_dir then (disk, err mkdir) else elim a.temp [
  | none ↦ (disk, err create_temp)
  | some tmp ↦
      if not a.copied
      then (clean_up a tmp (insert tmp a.partial disk), err copy)
      else if not a.closed
      then (clean_up a tmp (insert tmp contents disk), err close)
      else if not a.renamed
      then (clean_up a tmp (insert tmp contents disk), err rename)
      else (move_file tmp local_path contents (insert tmp contents disk), ok tt)
]

module _ (s : S3Storage) where
  -- Download; `reachable` says whether the client answers at all.
  unfoldable pub download :
      Bool → Answers → Files → Text → Text → Files → Files × Result StorageError (Unit {0})
  unfolding format_key store_file lookup
  download reachable a objects key local_path disk =
      if not reachable then (disk, err get_object) else elim (lookup (format_key s key) objects) [
        | none ↦ (disk, err get_object)
        | some contents ↦ store_file a contents local_path disk
      ]

  -- Open
  unfoldable pub open_object : Bool → Files → Text → Result StorageError Text
  unfolding format_key lookup
  open_object reachable objects key =
      if not reachable then err get_object else elim (lookup (format_key s key) objects) [
        | none ↦ err get_object
        | some contents ↦ ok contents
      ]

  -- UploadFile, of a file with these contents; none is one that cannot be opened.
  unfoldable pub upload_file :
      Bool → Option Text → Text → Files → Files × Result StorageError (Unit {0})
  unfolding format_key insert
  upload_file reachable file key objects = elim file [
    | none ↦ (objects, err open_file)
    | some contents ↦
        if reachable
        then (insert (format_key s key) contents objects, ok tt)
        else (objects, err put_object)
  ]

  -- Exists
  unfoldable pub exists : Bool → Text → Files → Result StorageError Bool
  unfolding format_key lookup
  exists reachable key objects =
      if not reachable
      then err head_object
      else elim (lookup (format_key s key) objects) [ none ↦ ok false | some contents ↦ ok true ]

  -- Delete
  unfoldable pub delete_key : Bool → Text → Files → Files × Result StorageError (Unit {0})
  unfolding format_key delete
  delete_key reachable key objects =
      if reachable then (delete (format_key s key) objects, ok tt) else (objects, err delete_object)
