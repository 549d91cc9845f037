-- ===== src/Tests/Names.antt =====
-- Plugin names at concrete inputs.
use easyp_plugin_server.Common.{◌≡◌, refl, codes, ok, text_eq, split}
use easyp_plugin_server.Core.Names.{
  full_name, get_group, get_name_and_version, validate_group_name, validate_version,
}
use easyp_plugin_server.Core.Names.RoundTrip.{get_full_name}

get_full_name_example :
    (get_group (full_name (codes "grpc") (codes "go") (codes "v1.5.1")) ≡ ok (codes "grpc"))
    × (get_name_and_version (full_name (codes "grpc") (codes "go") (codes "v1.5.1"))
        ≡ ok (codes "go", codes "v1.5.1"))
unfolding validate_group_name validate_version text_eq split
get_full_name_example = get_full_name (codes "grpc") (codes "go") (codes "v1.5.1") refl refl
