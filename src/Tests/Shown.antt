-- ===== src/Tests/Shown.antt =====
-- What is shown of settings, stored of audit entries and taken for a caller, at concrete inputs.
use easyp_plugin_server.Common.{
  arith, ℕ, ◌≡◌, inr, refl, List, [], ◌∷◌, none, some, true, false, Text, codes, map, text_eq,
}
use easyp_plugin_server.Config.Leaves.{Leaf}
use easyp_plugin_server.Cli.Print.{
  Values, PrintOptions, Line, section, setting, write_config, write_from, render_value,
  setting_line, emit, headers, parents, last_name, common_prefix, redacted_value,
}
use easyp_plugin_server.Cli.Print.Hidden.{write_config-Alike}
use easyp_plugin_server.Cli.Print.Nested.{paths_of, read_from, write_config-paths}
use easyp_plugin_server.Audit.Store.{Columns, build_insert}
use easyp_plugin_server.Audit.Store.Bound.{bound, stored, build_insert-stored}
use easyp_plugin_server.RateLimit.Caller.{CallContext, peer_ip_extractor, with_caller_ip}
use easyp_plugin_server.RateLimit.Caller.Keyed.{IsName, Called, peer_ip_extractor-with_caller_ip}

abbrev dsn : Leaf
dsn = record {
  yaml_path = codes "db" ∷ codes "dsn" ∷ [];
  env_key = codes "DB_DSN";
  default = [];
  has_default = false;
  secret = true;
}

abbrev values : Values Text
values = record {
  is_zero = λ v. text_eq v [];
  encode = λ v. some v;
  same_value = λ v w. text_eq v w;
}

abbrev options : PrintOptions
options = record { show_secrets = false; origin = false; changed = false; aliases = [] }

abbrev left : Text → Text
left name = codes "a"

abbrev right : Text → Text
right name = codes "b"

set : (text_eq (codes "a") [] ≡ false) × (text_eq (codes "b") [] ≡ false)
unfolding text_eq
set = (refl, refl)

write_config-Alike_example :
    write_config values (dsn ∷ []) left [] options ≡ write_config values (dsn ∷ []) right [] options
write_config-Alike_example =
    write_config-Alike values left right (dsn ∷ []) [] options refl (inr (refl, set.0, set.1), tt)

abbrev lines : List Line
lines = section 0 (codes "db") ∷ setting 1 (codes "dsn") redacted_value none ∷ []

written : write_config values (dsn ∷ []) left [] options ≡ some lines
unfolding write_config write_from render_value setting_line emit headers parents last_name
    common_prefix text_eq
written = refl

write_config-paths_example : read_from [] lines ≡ paths_of (dsn ∷ [])
write_config-paths_example =
    write_config-paths values left [] options (dsn ∷ []) lines ((λ e. cc e), tt) written

abbrev columns : Columns ℕ ℕ
columns = record {
  id = λ e. e;
  operation_type = λ e. 1;
  plugin_name = λ e. 2;
  caller_address = λ e. 3;
  status = λ e. 4;
  error_code = λ e. 5;
  error_message = λ e. 6;
  duration_ms = λ e. 7;
  metadata = λ e. none;
  created_at = λ e. 9;
  empty_object = 8;
}

build_insert-stored_example :
    map
      (map (bound (build_insert columns (11 ∷ 12 ∷ [])).1))
      (build_insert columns (11 ∷ 12 ∷ [])).0
    ≡ stored columns (11 ∷ 12 ∷ [])
build_insert-stored_example = build_insert-stored columns (11 ∷ 12 ∷ [])

abbrev from_v6 : CallContext
from_v6 = record { real_ip = none; peer = some (codes "[::1]:5000"); caller_ip = [] }

port-IsName : IsName (codes "5000")
port-IsName = (ground arith, ground arith, ground arith)

from_v6-Called : Called from_v6 (codes "::1")
from_v6-Called =
    Called.bracketed (codes "::1") (codes "5000") (ground arith, ground arith) port-IsName refl refl

peer_ip_extractor-with_caller_ip_example : peer_ip_extractor (with_caller_ip from_v6) ≡ codes "::1"
peer_ip_extractor-with_caller_ip_example =
    peer_ip_extractor-with_caller_ip from_v6 (codes "::1") from_v6-Called
