-- ===== src/Cli/Build.antt =====
-- cmd/easyp-svc/build.go and register.go: the jobs that the plugin files ask for.
pub mod Jobs
pub mod Size
use easyp_plugin_server.Common.{
  ℕ, zero, suc, ◌+◌, ◌*◌, ◌/◌, List, [], ◌∷◌, ◌++◌, Option, none, some, Bool, true, false, ◌&&◌,
  ◌||◌, not, Text, codes, text_eq, Result, ok, err, lookup, insert, if◌then◌else◌, leb, ltb, length,
}
use easyp_plugin_server.Paths.{is_abs, join, join_all}

abbrev pub Args : Type 0
Args = List (Text × Text)

-- versionEntry
pub record VersionEntry : Type 0 where
  pub version : Text
  pub build_args : Args
  pub dockerfile : Text
  pub args : List Text
  pub skip : Bool

-- pluginConfig, without the field that is ignored.
pub record PluginConfig : Type 0 where
  pub build_args : Args
  pub dockerfile : Text
  pub args : List Text
  pub versions : List VersionEntry

-- The YAML node of a version entry: a scalar, a mapping with what decoding it gives, or another.
pub data VersionNode : Type 0 where
  scalar_version : Text → VersionNode
  mapping_version : Option VersionEntry → VersionNode
  other_version : VersionNode

pub data BuildError : Type 0 where
  undecoded invalid_structure : BuildError
  mkdir_failed docker_failed no_output_binary : BuildError

-- UnmarshalYAML
unfoldable pub unmarshal_yaml : VersionNode → Result BuildError VersionEntry
unmarshal_yaml (scalar_version value) =
    ok record { version = value; build_args = []; dockerfile = []; args = []; skip = false }
unmarshal_yaml (mapping_version none) = err undecoded
unmarshal_yaml (mapping_version (some entry)) = ok entry
unmarshal_yaml other_version = err invalid_structure

-- buildJob
pub record BuildJob : Type 0 where
  pub group : Text
  pub name : Text
  pub version : Text
  pub build_args : Args
  pub dockerfile : Text
  pub args : List Text
  pub plugin_dir : Text
  pub output_dir : Text

-- The text that names a version of a plugin: key and pluginDisplayName.
unfoldable pub display_name : Text → Text → Text → Text
display_name group name version = group ++ b'/' ∷ name ++ b':' ∷ version

-- key
unfoldable pub job_key : BuildJob → Text
unfolding display_name
job_key job = display_name job.group job.name job.version

-- filepath.Match: whether the pattern is well formed and matches.
abbrev pub Match : Type 0
Match = Text → Text → Bool

-- matchFilter
unfoldable pub match_filter : Match → Text → Text → Text → Text → Bool
unfolding text_eq display_name
match_filter matches group name version pattern =
    text_eq pattern []
    || matches pattern (group ++ b'/' ∷ name)
    || matches pattern (display_name group name version)

-- overrideString
unfoldable pub override_string : Text → Text → Text
unfolding text_eq
override_string default_val override_val =
    if not (text_eq override_val []) then override_val else default_val

-- maps.Copy
unfoldable pub copy_into : Args → Args → Args
unfolding insert
copy_into dst [] = dst
copy_into dst ((k, v) ∷ src) = insert k v (copy_into dst src)

-- mergeBuildArgs; a nil map is one without entries.
unfoldable pub merge_build_args : Args → Args → Args
unfolding copy_into
merge_build_args base override = copy_into (copy_into [] base) override

-- mergeArgs
unfoldable pub merge_args : List Text → List Text → List Text
merge_args base override = base ++ override

-- The job of one version.
unfoldable pub job_of : PluginConfig → Text → Text → Text → Text → VersionEntry → BuildJob
unfolding merge_build_args override_string merge_args join_all
job_of cfg group name plugin_dir output_dir ver = record {
  group = group;
  name = name;
  version = ver.version;
  build_args = merge_build_args cfg.build_args ver.build_args;
  dockerfile = override_string cfg.dockerfile ver.dockerfile;
  args = merge_args cfg.args ver.args;
  plugin_dir = plugin_dir;
  output_dir = join_all (output_dir ∷ group ∷ name ∷ ver.version ∷ []);
}

module _ (matches : Match) (cfg : PluginConfig)
    (group name plugin_dir output_dir filter : Text) where
  -- The test in front of jobsFromConfig's loop body.
  unfoldable pub is_wanted : VersionEntry → Bool
  unfolding text_eq match_filter
  is_wanted ver =
      not (text_eq ver.version [] || not (match_filter matches group name ver.version filter))

  -- jobsFromConfig, the loop: the jobs and the names of the skipped versions.
  unfoldable pub jobs_from : List VersionEntry → List BuildJob × List Text
  unfolding is_wanted display_name job_of
  jobs_from [] = ([], [])
  jobs_from (ver ∷ versions) =
      let (jobs, skipped) = jobs_from versions in
      if not (is_wanted ver)
      then (jobs, skipped)
      else if ver.skip
      then (jobs, display_name group name ver.version ∷ skipped)
      else (job_of cfg group name plugin_dir output_dir ver ∷ jobs, skipped)

  -- jobsFromConfig
  unfoldable pub jobs_from_config : List BuildJob × List Text
  unfolding jobs_from
  jobs_from_config = jobs_from cfg.versions

abbrev plugin_binary_name : Text
plugin_binary_name = codes "plugin"

-- cached; `is_regular` says whether a path is a regular file.
unfoldable pub cached : (Text → Bool) → BuildJob → Bool
unfolding join
cached is_regular job = is_regular (join job.output_dir plugin_binary_name)

-- splitCached, the loop.
unfoldable pub split_from_cache : (Text → Bool) → List BuildJob → List BuildJob × ℕ
unfolding cached
split_from_cache is_regular [] = ([], 0)
split_from_cache is_regular (job ∷ jobs) =
    let (to_build, found) = split_from_cache is_regular jobs in
    if cached is_regular job then (to_build, suc found) else (job ∷ to_build, found)

-- splitCached
unfoldable pub split_cached : (Text → Bool) → List BuildJob → Bool → List BuildJob × ℕ
unfolding split_from_cache
split_cached is_regular jobs force = if force then (jobs, 0) else split_from_cache is_regular jobs

-- dockerfilePath
unfoldable pub dockerfile_path : BuildJob → Text
unfolding text_eq is_abs join
dockerfile_path job =
    if text_eq job.dockerfile []
    then join job.plugin_dir (codes "Dockerfile")
    else if is_abs job.dockerfile
    then job.dockerfile
    else join job.plugin_dir job.dockerfile

-- The flags of the build arguments; the source sorts the keys first, which `sorted` does.
unfoldable pub build_arg_flags : Args → List Text
build_arg_flags [] = []
build_arg_flags ((k, v) ∷ build_args) =
    codes "--build-arg" ∷ (k ++ b'=' ∷ v) ∷ build_arg_flags build_args

-- runDockerBuild, the arguments of the command.
unfoldable pub docker_args : (sorted : Args → Args) → BuildJob → List Text
unfolding build_arg_flags dockerfile_path
docker_args sorted job =
    codes "build"
    ∷ codes "--progress=plain"
    ∷ codes "--build-arg"
    ∷ (codes "VERSION=" ++ job.version)
    ∷ (build_arg_flags (sorted job.build_args)
        ++ (job.args
            ++ (codes "--output"
                ∷ (codes "type=local,dest=" ++ job.output_dir)
                ∷ codes "-f"
                ∷ dockerfile_path job
                ∷ job.plugin_dir
                ∷ [])))

-- The loop of formatSize: the divisor and the index of the unit.
unfoldable pub scale : ℕ → ℕ → ℕ → ℕ → ℕ × ℕ
scale zero n div exp = (div, exp)
scale (suc fuel) n div exp = elim (leb 1024 n) [
  | true ↦ scale fuel (n / 1024) (div * 1024) (suc exp)
  | false ↦ (div, exp)
]

-- A size as formatSize prints it: a number of bytes, or a quotient with one decimal and a unit;
-- no unit is an index out of range.
pub data Shown : Type 0 where
  in_bytes : ℕ → Shown
  in_units : ℕ → ℕ → Option ℕ → Shown

unfoldable pub unit_at : ℕ → Text → Option ℕ
unit_at i [] = none
unit_at zero (c ∷ s) = some c
unit_at (suc i) (c ∷ s) = unit_at i s

-- formatSize; each turn of the loop divides the number by 1024.
unfoldable pub format_size : ℕ → Shown
unfolding scale unit_at
format_size size =
    if ltb size 1024
    then in_bytes size
    else let (div, exp) = scale size (size / 1024) 1024 0 in
      in_units size div (unit_at exp (codes "KMGTPE"))

-- normalizeOutput; `artifact` is the size of a regular file at the place of the entrypoint.
unfoldable pub normalize_output : Option ℕ → Result BuildError Shown
unfolding format_size
normalize_output none = err no_output_binary
normalize_output (some size) = ok (format_size size)
