-- ===== src/Tests/Cli.antt =====
-- The commands on plugins at concrete inputs.
use easyp_plugin_server.Common.{
  inl, ◌+◌, ◌≡◌, ◌≢◌, ◌↔◌, refl, List, [], ◌∷◌, none, some, Bool, true, false, ◌&&◌, Text, codes,
  ok, length, lookup, text_eq, has_prefix, is_ok, arith, if◌then◌else◌, split, split_from,
}
use easyp_plugin_server.Paths.{dotdot, is_void, parts, join_parts, run, enter}
use easyp_plugin_server.Paths.Normal.{Plain}
use easyp_plugin_server.Archive.Inside.{Inside}
use easyp_plugin_server.Registry.Config.{Json, PluginConfig, validate_config, archive_key}
use easyp_plugin_server.Cli.Build.{BuildJob, split_cached}
use easyp_plugin_server.Cli.Builds.{
  Run, cancels, first_run, new_build_tracker, open_build, close_build, opening, building, launch,
  opened, closed, Steps, stop, further, build_result,
}
use easyp_plugin_server.Cli.Builds.Outcome.{done_builds}
use easyp_plugin_server.Cli.Plugins.{
  PluginInfo, parse_plugin_path, version_path, archive_object_key, plugin_command_path,
}
use easyp_plugin_server.Cli.Plugins.Layout.{PlainInfo, parse_plugin_path-version_path}
use easyp_plugin_server.Cli.Plugins.Served.{archive_object_key_iff, plugin_command_path-accepted}
use easyp_plugin_server.Cli.Transfer.{
  Item, finished, TransferError, new_batch_tracker, run_items, push_result, ended_early,
  finish_item,
}
use easyp_plugin_server.Storage.{Answers, S3Storage, Files, format_key, download}
use easyp_plugin_server.Storage.Atomic.{Fresh, download-whole}

abbrev job : BuildJob
job = record {
  group = codes "go";
  name = codes "grpc";
  version = codes "v1";
  build_args = [];
  dockerfile = [];
  args = [];
  plugin_dir = codes "registry/go/grpc";
  output_dir = codes "out/go/grpc/v1";
}

abbrev never : Text → Bool
never path = false

abbrev to_build : List BuildJob
to_build = (split_cached never (job ∷ []) true).0

abbrev begun : Run
begun = record {
  pending = [];
  running = (job, opening) ∷ [];
  tracker = new_build_tracker 1;
  cancelled = false;
}

abbrev under_way : Run
under_way = record {
  pending = [];
  running = (job, building) ∷ [];
  tracker = (open_build false true job (new_build_tracker 1)).0;
  cancelled = false;
}

abbrev ended : Run
ended = record {
  pending = [];
  running = [];
  tracker =
      (close_build false true (some 10) job (open_build false true job (new_build_tracker 1)).0).0;
  cancelled = false;
}

steps : Steps false 4 (first_run to_build) ended
unfolding first_run split_cached open_build close_build cancels
steps =
    further {s = under_way}
      (further {s = begun}
        (further stop (launch job [] [] (new_build_tracker 1) false (omega arith)))
        (opened job [] [] [] (new_build_tracker 1)
          (open_build false true job (new_build_tracker 1)).0 false refl))
      (closed job [] [] [] true (some 10) (open_build false true job (new_build_tracker 1)).0
        (close_build false true (some 10) job (open_build false true job (new_build_tracker 1)).0).0
        false none refl)

done_builds_example :
    (ended.tracker.succeeded + ended.tracker.failed + (split_cached never (job ∷ []) true).1 ≡ 1)
    × ((build_result ended.tracker ≡ none) ↔ (ended.tracker.failed ≡ 0))
done_builds_example =
    done_builds false 4 never (job ∷ []) true ended steps
      record { none_pending = refl; none_running = refl }

abbrev plg : PluginInfo
plg = record { group = codes "go"; name = codes "grpc"; version = codes "v1" }

plg-PlainInfo : PlainInfo plg
unfolding is_void text_eq
plg-PlainInfo = record {
  group = (ground arith, refl, refl);
  name = (ground arith, refl, refl);
  version = (ground arith, refl, refl);
}

leaf-Plain : Plain (codes "plugin")
unfolding is_void text_eq
leaf-Plain = (ground arith, refl, refl)

no_dots :
    has_prefix (join_parts (codes "go" ∷ codes "grpc" ∷ codes "v1" ∷ codes "plugin" ∷ [])) dotdot
    ≡ false
unfolding has_prefix join_parts
no_dots = refl

parse_plugin_path-version_path_example :
    parse_plugin_path
      (codes "out")
      (version_path (codes "out") plg (codes "plugin" ∷ []))
      (codes "plugin")
    ≡ ok plg
parse_plugin_path-version_path_example =
    parse_plugin_path-version_path b'o' (codes "ut") (codes "plugin") plg plg-PlainInfo leaf-Plain
      no_dots

archive_object_key_iff_example :
    (archive_object_key plg ≡ archive_key (codes "go") (codes "grpc") (codes "v1")) ↔ (plg ≡ plg)
archive_object_key_iff_example = archive_object_key_iff plg plg plg-PlainInfo plg-PlainInfo

abbrev command : PluginConfig
command = record {
  command = plugin_command_path (codes "/plugins") plg ∷ [];
  env = [];
  timeout = [];
  sha256 = [];
}

abbrev json : Json
json = record {
  Value = Text;
  unmarshal_config = λ t. some command;
  unmarshal_map = λ t. some [];
  string_value = λ t. t;
  marshal = λ m. some [];
  is_sha256 = λ k. false;
}

below_root : parts (codes "/plugins") ≢ []
unfolding parts run enter is_void split split_from text_eq
below_root = λ e. cc e

there : text_eq (codes "{}") [] ≡ false
unfolding text_eq
there = refl

plugin_command_path-accepted_example :
    (validate_config json (codes "{}") (codes "/plugins") ≡ ok tt)
    × Inside (codes "/plugins") (plugin_command_path (codes "/plugins") plg)
plugin_command_path-accepted_example =
    plugin_command_path-accepted json (codes "{}") (codes "/plugins") command b'/' (codes "plugins")
      plg plg-PlainInfo below_root refl there refl refl

abbrev items : List (Item TransferError)
items = finished (ok true) ∷ finished (ok false) ∷ []

pushed : push_result false items (run_items items (new_batch_tracker (length items))) ≡ none
unfolding push_result run_items finish_item ended_early new_batch_tracker
pushed = refl

abbrev store : S3Storage
store = record { bucket = codes "b"; prefix = codes "p/" }

abbrev answers : Answers
answers = record {
  made_dir = true;
  temp = some (codes "t");
  copied = true;
  partial = [];
  closed = true;
  renamed = false;
  removed = true;
}

abbrev objects : Files
objects = (codes "p/k", codes "x") ∷ []

fresh : Fresh answers.temp []
unfolding lookup
fresh = refl

download-whole_example :
    lookup (codes "f") (download store true answers objects (codes "k") (codes "f") []).0 ≡ (
      if is_ok (download store true answers objects (codes "k") (codes "f") []).1
        && text_eq (codes "f") (codes "f")
      then lookup (format_key store (codes "k")) objects
      else lookup {V = Text} (codes "f") [])
download-whole_example =
    download-whole store true answers objects (codes "k") (codes "f") (codes "f") [] fresh
      (inl refl)
