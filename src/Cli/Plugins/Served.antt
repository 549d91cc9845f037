-- ===== src/Cli/Plugins/Served.antt =====
-- cmd/easyp-svc/register.go and push.go against the registry: the key of a pushed archive and the
-- command of a registered plugin.
use easyp_plugin_server.Common.{
  ℕ, ◌≡◌, ◌≢◌, ◌↔◌, refl, sym, ap, ◌∙◌, inl, inr, List, [], ◌∷◌, ◌++◌, some, Bool, true, false,
  Text, All, split_of_Lacks, text_eq, has_prefix, append_assoc, ok, List-cases, arith,
}
use easyp_plugin_server.Paths.{slash, is_void, is_abs, parts, join_parts, render, clean, join_all}
use easyp_plugin_server.Paths.Normal.{Plain}
use easyp_plugin_server.Paths.Cleaned.{parts_lem, run-Plain}
use easyp_plugin_server.Archive.Inside.{Inside}
use easyp_plugin_server.Registry.Config.{Json, PluginConfig, validate_config, archive_key}
use easyp_plugin_server.Cli.Plugins.{
  PluginInfo, archive_name, plugin_entrypoint_name, plugin_command_path, archive_object_key,
}
use easyp_plugin_server.Cli.Plugins.Layout.{
  PlainInfo, join_all-parts, coordinates-Plain, entrypoint-Plain,
}

is_abs-Plain : (c : Text) → Plain c → is_abs c ≡ false
unfolding is_abs is_void text_eq has_prefix
is_abs-Plain [] p = absurd (cc (p.1))
is_abs-Plain (x ∷ c) p = ground (arith, p.0.0)

parts-Plain : (c : Text) → Plain c → parts c ≡ c ∷ []
parts-Plain c p =
    parts_lem c false (c ∷ []) (is_abs-Plain c p) (split_of_Lacks slash c p.0)
    ∙ run-Plain false [] (c ∷ []) (p, tt)

join_all-Plain :
    (b c : Text) (cs : List Text)
    → Plain b
    → All Plain (c ∷ cs)
    → parts (join_all (b ∷ c ∷ cs)) ≡ b ∷ c ∷ cs
unfolding is_void text_eq
join_all-Plain [] c cs p plain = absurd (cc (p.1))
join_all-Plain (x ∷ b) c cs p plain =
    (join_all-parts x b c cs plain).1 ∙ ap (λ l. l ++ c ∷ cs) (parts-Plain (x ∷ b) p)

archive-Plain : Plain archive_name
unfolding is_void text_eq
archive-Plain = (ground arith, refl, refl)

archive_object_key-parts :
    (plg : PluginInfo)
    → PlainInfo plg
    → parts (archive_object_key plg) ≡ plg.group ∷ plg.name ∷ plg.version ∷ archive_name ∷ []
archive_object_key-parts plg p =
    unfold archive_object_key in
    join_all-Plain plg.group plg.name (plg.version ∷ archive_name ∷ []) p.group
      (p.name, (p.version, (archive-Plain, tt)))

of_parts : List Text → PluginInfo
of_parts (g ∷ n ∷ v ∷ rest) = record { group = g; name = n; version = v }
of_parts _ = record { group = []; name = []; version = [] }

same_key : (plg : PluginInfo) → archive_object_key plg ≡ archive_key plg.group plg.name plg.version
unfolding archive_object_key archive_key
same_key plg = refl

-- The key under which a plugin is pushed is the one under which the registry looks for its archive,
-- and of no other plugin; the names are plain ones.
pub archive_object_key_iff :
    (plg other : PluginInfo)
    → PlainInfo plg
    → PlainInfo other
    → (archive_object_key plg ≡ archive_key other.group other.name other.version) ↔ (plg ≡ other)
unfolding of_parts
archive_object_key_iff plg other p o = (
  (λ e. ap of_parts (
      sym (archive_object_key-parts plg p)
      ∙ ap parts (e ∙ sym (same_key other))
      ∙ archive_object_key-parts other o)),
  λ e. ap archive_object_key e ∙ same_key other,
)

-- The beginning of a text.
append-has_prefix : (s t : Text) → has_prefix (s ++ t) s ≡ true
unfolding has_prefix
append-has_prefix [] t = refl
append-has_prefix (c ∷ s) t = ground (arith, append-has_prefix s t)

join_parts-append :
    (b : Text) (base : List Text) (c : Text) (cs : List Text)
    → join_parts ((b ∷ base) ++ c ∷ cs) ≡ join_parts (b ∷ base) ++ slash ∷ join_parts (c ∷ cs)
unfolding join_parts
join_parts-append b [] c cs = refl
join_parts-append b (d ∷ base) c cs =
    ap (λ t. b ++ slash ∷ t) (join_parts-append d base c cs)
    ∙ sym (append_assoc b (slash ∷ join_parts (d ∷ base)) (slash ∷ join_parts (c ∷ cs)))

render-append :
    (rooted : Bool) (b : Text) (base : List Text) (c : Text) (cs : List Text)
    → render rooted ((b ∷ base) ++ c ∷ cs) ≡ render rooted (b ∷ base) ++ slash ∷ join_parts (c ∷ cs)
unfolding render
render-append true b base c cs = ap (λ t. slash ∷ t) (join_parts-append b base c cs)
render-append false b base c cs = join_parts-append b base c cs

clean_lem : (p : Text) → clean p ≡ render (is_abs p) (parts p)
unfolding clean
clean_lem p = refl

accepts :
    (json : Json) (config plugins_dir : Text) (c : PluginConfig) (command : Text)
    → text_eq config [] ≡ false
    → json.unmarshal_config config ≡ some c
    → c.command ≡ command ∷ []
    → has_prefix (clean command) (clean plugins_dir ++ slash ∷ []) ≡ true
    → validate_config json config plugins_dir ≡ ok tt
unfolding validate_config
accepts json config plugins_dir c command there parsed is_command starts =
    rw (there, parsed, is_command, starts) (ground arith)

-- What is joined of plain names to a directory other than the current one and the root is, cleaned,
-- the directory cleaned, a slash and more.
clean-joined :
    (x : ℕ) (a c : Text) (cs : List Text)
    → All Plain (c ∷ cs)
    → parts (x ∷ a) ≢ []
    → has_prefix (clean (join_all ((x ∷ a) ∷ c ∷ cs))) (clean (x ∷ a) ++ slash ∷ []) ≡ true
clean-joined x a c cs plain below = elim (List-cases (parts (x ∷ a))) [
  | inl e ↦ absurd (below e)
  | inr (b, base, e) ↦
      let joined = join_all-parts x a c cs plain in
      let target = join_all ((x ∷ a) ∷ c ∷ cs) in
      let rooted = is_abs (x ∷ a) in
      let root = render rooted (b ∷ base) in
      let whole : clean target ≡ root ++ slash ∷ join_parts (c ∷ cs) =
        clean_lem target
        ∙ ap (λ r. render r (parts target)) joined.0
        ∙ ap (render rooted) (joined.1 ∙ ap (λ l. l ++ c ∷ cs) e)
        ∙ render-append rooted b base c cs in
      let above : clean (x ∷ a) ≡ root = clean_lem (x ∷ a) ∙ ap (render rooted) e in
      let longer : root ++ slash ∷ join_parts (c ∷ cs)
          ≡ (root ++ slash ∷ []) ++ join_parts (c ∷ cs) =
        sym (append_assoc root (slash ∷ []) (join_parts (c ∷ cs))) in
      ap (has_prefix (clean target)) (ap (λ r. r ++ slash ∷ []) above)
      ∙ ap (λ t. has_prefix t (root ++ slash ∷ [])) (whole ∙ longer)
      ∙ append-has_prefix (root ++ slash ∷ []) (join_parts (c ∷ cs))
]

-- The command that the client builds for a plugin of plain names lies in the directory of plugins,
-- and a configuration that is not empty and whose command is that one alone passes the registry's
-- check of configurations, under the same cleaned directory of plugins, unless that is the root or
-- the current directory.
pub plugin_command_path-accepted :
    (json : Json) (config plugins_dir : Text) (c : PluginConfig) (x : ℕ) (prefix : Text)
    (plg : PluginInfo)
    → PlainInfo plg
    → parts (x ∷ prefix) ≢ []
    → clean plugins_dir ≡ clean (x ∷ prefix)
    → text_eq config [] ≡ false
    → json.unmarshal_config config ≡ some c
    → c.command ≡ plugin_command_path (x ∷ prefix) plg ∷ []
    → (validate_config json config plugins_dir ≡ ok tt)
      × Inside (x ∷ prefix) (plugin_command_path (x ∷ prefix) plg)
plugin_command_path-accepted json config plugins_dir c x prefix plg p below same there parsed
      command =
    let names = plg.name ∷ plg.version ∷ plugin_entrypoint_name ∷ [] in
    let plain = coordinates-Plain plg plugin_entrypoint_name p entrypoint-Plain in
    let (abs, lies) = join_all-parts x prefix plg.group names plain in
    let path : plugin_command_path (x ∷ prefix) plg ≡ join_all ((x ∷ prefix) ∷ plg.group ∷ names) =
      unfold plugin_command_path in refl in
    let starts : has_prefix (clean (plugin_command_path (x ∷ prefix) plg))
          (clean plugins_dir ++ slash ∷ [])
        ≡ true =
      ap (λ t. has_prefix (clean t) (clean plugins_dir ++ slash ∷ [])) path
      ∙ ap (λ d. has_prefix (clean (join_all ((x ∷ prefix) ∷ plg.group ∷ names))) (d ++ slash ∷ []))
          same
      ∙ clean-joined x prefix plg.group names plain below in
    (
      accepts json config plugins_dir c (plugin_command_path (x ∷ prefix) plg) there parsed command
          starts,
      record {
        names = plg.group ∷ names;
        plain = plain;
        same_start = ap is_abs path ∙ abs;
        below = ap parts path ∙ lies;
      },
    )
