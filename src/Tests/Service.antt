-- ===== src/Tests/Service.antt =====
-- The service over a registry in memory, whose listing is ordered by the length of the name.
use native.Mathlib.Numerals.{add-one}
use easyp_plugin_server.Common.{
  ℕ, suc, ◌+◌, ◌≡◌, refl, Bool, true, false, [], ◌∷◌, ◌++◌, List, none, some, Option, Text, codes,
  arith, length, take, ltb, ◌==◌, if◌then◌else◌, pos, magnitude, Result, ok,
}
use easyp_plugin_server.Core.Errors.{Error}
use easyp_plugin_server.Core.Domain.{
  Feature, Operation, PluginInfo, PluginFilter, PluginKey, PluginPage, CreatePluginRequest,
  UpdatePluginRequest, Context, Registry, FeatureGate,
}
use easyp_plugin_server.Core.Service.{Core, World, generate}
use easyp_plugin_server.Core.Service.Recorded.{Reports, operations-Recorded}
use easyp_plugin_server.Core.Service.Paging.{KeyOrder, beyond}
use easyp_plugin_server.Api.Plugins.{PluginsRequest}
use easyp_plugin_server.Api.Plugins.Tokens.{walk_tokens, walk_tokens-rows}
use easyp_plugin_server.Tests.Tokens.{codec, codec_laws}

pub irrefl_length : (k : PluginKey) → ltb (length k.name) (length k.name) ≡ false
irrefl_length k = ground arith

pub trans_length :
    (j k l : PluginKey)
    → ltb (length j.name) (length k.name) ≡ true
    → ltb (length k.name) (length l.name) ≡ true
    → ltb (length j.name) (length l.name) ≡ true
trans_length j k l p q = ground arith

abbrev pub by_length : KeyOrder
by_length = record {
  key_lt = λ j k. ltb (length j.name) (length k.name);
  irrefl = irrefl_length;
  trans = trans_length;
}

abbrev page_of : ℕ → List PluginInfo → List PluginInfo
page_of n ps = if n == 0 then ps else take n ps

abbrev memory_list :
    PluginFilter → PluginPage → List PluginInfo → Result Error (List PluginInfo) × List PluginInfo
memory_list filter page s = (ok (page_of (magnitude page.size) (beyond by_length page.after s)), s)

abbrev plugin : Text → PluginInfo
plugin name = record {
  id = [];
  group = codes "grpc";
  name = name;
  version = codes "v1.0";
  tags = [];
  created_at = 0;
}

abbrev memory_create :
    CreatePluginRequest → List PluginInfo → Result Error PluginInfo × List PluginInfo
memory_create req s = (ok (plugin req.name), s ++ plugin req.name ∷ [])

abbrev memory : Registry
memory = record {
  State = List PluginInfo;
  Plugin = Unit {0};
  Request = Unit {0};
  Response = Unit {0};
  get = λ group name version s. (ok tt, s);
  list = memory_list;
  create = memory_create;
  update = λ req s. (ok (plugin req.name), s);
  delete = λ group name version s. (ok tt, s);
  generate = λ p q s. (ok tt, s);
  record_generation = λ p. ok tt;
  file_count = λ r. 1;
}

abbrev pub gate : Bool → ℕ → FeatureGate
gate crud limit = record {
  enabled = λ f. elim f [ Feature.plugin_crud ↦ crud | _ ↦ true ];
  max_workers = pos 4;
  max_plugins = pos limit;
}

abbrev pub core : Bool → ℕ → Core
core crud limit = record { feature_gate = some (gate crud limit); audit_sink = true }

abbrev pub caller : Context
caller = record { caller_ip = codes "10.0.0.1"; actor = codes "ci" }

abbrev three : List PluginInfo
three = plugin (codes "go") ∷ plugin (codes "doc") ∷ plugin (codes "rust") ∷ []

abbrev world : World memory
world = record { registry = three; operations = []; sent = []; skipped = 0 }

abbrev pub everything : PluginFilter
everything = record { group = []; name = []; version = []; tags = [] }

abbrev creation : CreatePluginRequest
creation = record {
  group = codes "grpc";
  name = codes "swift";
  version = codes "v1.0";
  config = [];
  tags = [];
}

abbrev change : UpdatePluginRequest
change = record {
  group = codes "grpc";
  name = codes "go";
  version = codes "v1.0";
  config = [];
  tags = [];
  update_config = false;
  update_tags = true;
}

memory_lists :
    (n : ℕ) (after : Option PluginKey)
    → memory_list everything (record { size = pos (n + 1); after = after }) three
      ≡ (ok (take (suc n) (beyond by_length after three)), three)
memory_lists n after = rw add-one (ground arith)

abbrev paging : PluginsRequest
paging = record {
  group = [];
  name = [];
  version = [];
  tags = codes " " ∷ [];
  page_size = pos 2;
  page_token = [];
}

walk_tokens-rows_example :
    walk_tokens codec codec_laws memory (core true 10) caller paging 4 [] world ≡ some three
walk_tokens-rows_example =
    walk_tokens-rows codec codec_laws memory (core true 10) caller paging by_length three world
      (record { ascending = ((refl, (refl, tt)), ((refl, tt), (tt, tt))); lists = memory_lists })

operations-Recorded_example :
    Reports memory
      (core true 10)
      caller
      world
      Operation.generate_code
      (generate memory (core true 10) caller (codes "grpc/go:v1.0") tt world)
operations-Recorded_example =
    (operations-Recorded memory (core true 10) caller world (codes "grpc/go:v1.0") tt everything
      (record { size = pos 2; after = none }) creation change (codes "grpc") (codes "go")
      (codes "v1.0")).0
