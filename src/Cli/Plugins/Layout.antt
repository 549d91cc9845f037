-- ===== src/Cli/Plugins/Layout.antt =====
-- cmd/easyp-svc/register.go, push.go: where the plugins of a tree end up.
use easyp_plugin_server.Common.{
  ℕ, ◌≡◌, refl, sym, ap, ◌∙◌, List, [], ◌∷◌, ◌++◌, some, Bool, true, false, Text, All, text_eq,
  text_eq_refl, split, has_prefix, ok, arith,
}
use easyp_plugin_server.Paths.{
  slash, dotdot, is_void, is_abs, run, parts, join_parts, render, skip_empty, join_all,
}
use easyp_plugin_server.Paths.Normal.{Plain}
use easyp_plugin_server.Paths.Cleaned.{
  parts_lem, run-append, run-Plain, split-join_parts, split-append, Plain-Whole, clean-parts,
}
use easyp_plugin_server.Cli.Plugins.{
  PluginInfo, plugin_entrypoint_name, rel_parts, same_kind, rel_of, rel, parse_plugin_path,
  version_path,
}

is_abs-append : (x : ℕ) (a t : Text) → is_abs ((x ∷ a) ++ t) ≡ is_abs (x ∷ a)
unfolding is_abs has_prefix
is_abs-append x a t = refl

-- The components of a path that plain names are joined to.
pub join_all-parts :
    (x : ℕ) (a c : Text) (cs : List Text)
    → All Plain (c ∷ cs)
    → (is_abs (join_all ((x ∷ a) ∷ c ∷ cs)) ≡ is_abs (x ∷ a))
      × (parts (join_all ((x ∷ a) ∷ c ∷ cs)) ≡ parts (x ∷ a) ++ c ∷ cs)
unfolding join_all skip_empty join_parts
join_all-parts x a c cs plain =
    let rest = join_parts (c ∷ cs) in
    let whole = (x ∷ a) ++ slash ∷ rest in
    let (abs, same) = clean-parts whole in
    let rooted = is_abs (x ∷ a) in
    (
      abs ∙ is_abs-append x a (slash ∷ rest),
      same
          ∙ parts_lem whole rooted (split (x ∷ a) slash ++ split rest slash)
              (is_abs-append x a (slash ∷ rest))
              (unfold split in split-append slash (x ∷ a) rest [])
          ∙ run-append rooted [] (split (x ∷ a) slash) (split rest slash)
          ∙ ap (λ acc. run rooted acc (split rest slash)) (sym (unfold parts in refl))
          ∙ ap (run rooted (parts (x ∷ a))) (split-join_parts c cs (Plain-Whole (c ∷ cs) plain))
          ∙ run-Plain rooted (parts (x ∷ a)) (c ∷ cs) plain,
    )

-- The names of a plugin version as the parts of a path: none is empty, a dot or two, or has a
-- slash.
pub record PlainInfo (plg : PluginInfo) : Type 0 where
  pub group : Plain plg.group
  pub name : Plain plg.name
  pub version : Plain plg.version

pub coordinates-Plain :
    (plg : PluginInfo) (leaf : Text)
    → PlainInfo plg
    → Plain leaf
    → All Plain (plg.group ∷ plg.name ∷ plg.version ∷ leaf ∷ [])
coordinates-Plain plg leaf p l = (p.group, (p.name, (p.version, (l, tt))))

pub entrypoint-Plain : Plain plugin_entrypoint_name
unfolding is_void text_eq
entrypoint-Plain = (ground arith, refl, refl)

rel_parts-below : (base cs : List Text) → rel_parts base (base ++ cs) ≡ some cs
unfolding rel_parts
rel_parts-below [] cs = refl
rel_parts-below (b ∷ base) cs = rw (text_eq_refl b, rel_parts) (rel_parts-below base cs)

same_kind_refl : (b : Bool) → same_kind b b ≡ true
unfolding same_kind
same_kind_refl true = refl
same_kind_refl false = refl

rel_of-below :
    (rooted : Bool) (base cs : List Text)
    → rel_of rooted rooted base (base ++ cs) ≡ some (render false cs)
unfolding rel_of
rel_of-below rooted base cs = rw (same_kind_refl rooted, rel_parts-below base cs) refl

rel-below :
    (base targ : Text) (cs : List Text)
    → is_abs targ ≡ is_abs base
    → parts targ ≡ parts base ++ cs
    → rel base targ ≡ some (render false cs)
rel-below base targ cs abs below =
    unfold rel in
    refl
    ∙ ap (λ r. rel_of (is_abs base) r (parts base) (parts targ)) abs
    ∙ ap (rel_of (is_abs base) (is_abs base) (parts base)) below
    ∙ rel_of-below (is_abs base) (parts base) cs

-- The path of a file that lies under a directory as group, name, version and file name is taken
-- apart into these, if they are plain names and the group does not begin with two dots.
pub parse_plugin_path-version_path :
    (x : ℕ) (base leaf : Text) (plg : PluginInfo)
    → PlainInfo plg
    → Plain leaf
    → has_prefix (join_parts (plg.group ∷ plg.name ∷ plg.version ∷ leaf ∷ [])) dotdot ≡ false
    → parse_plugin_path (x ∷ base) (version_path (x ∷ base) plg (leaf ∷ [])) leaf ≡ ok plg
unfolding parse_plugin_path render
parse_plugin_path-version_path x base leaf plg p l low =
    let plain = coordinates-Plain plg leaf p l in
    let cs = plg.name ∷ plg.version ∷ leaf ∷ [] in
    let (abs, below) = join_all-parts x base plg.group cs plain in
    let relative =
      rel-below (x ∷ base) (version_path (x ∷ base) plg (leaf ∷ [])) (plg.group ∷ cs) abs below in
    let cut = split-join_parts plg.group cs (Plain-Whole (plg.group ∷ cs) plain) in
    rw (relative, low, cut, text_eq_refl leaf, parse_plugin_path) refl
