-- ===== src/Cli/Print/Hidden.antt =====
-- cmd/easyp-svc/config.go: the output says nothing of a secret but whether it is set.
use easyp_plugin_server.Common.{
  ◌≡◌, ◌⊎◌, inl, inr, refl, ap, ◌∙◌, drop, List, [], ◌∷◌, Bool, true, false, Text, All,
}
use easyp_plugin_server.Config.Leaves.{Leaf, leaf_name}
use easyp_plugin_server.Config.Merge.{Origins}
use easyp_plugin_server.Cli.Print.{
  Values, PrintOptions, parents, common_prefix, headers, setting_line, emit, render_value,
  write_from, write_config,
}

module _ {ℓ} {V : Type ℓ} (values : Values V) (left right : Text → V) where
  -- Two configurations differ in a setting at most as to the value of a secret that is set in
  -- both.
  abbrev pub Alike : Leaf → Type ℓ
  Alike leaf =
      (left (leaf_name leaf) ≡ right (leaf_name leaf))
      ⊎ ((leaf.secret ≡ true)
          × (values.is_zero (left (leaf_name leaf)) ≡ false)
          × (values.is_zero (right (leaf_name leaf)) ≡ false))

  render_value-Alike :
      (leaf : Leaf) (show_secrets : Bool)
      → show_secrets ≡ false
      → Alike leaf
      → render_value values leaf left show_secrets ≡ render_value values leaf right show_secrets
  unfolding render_value
  render_value-Alike leaf show_secrets h (inl e) = rw e refl
  render_value-Alike leaf show_secrets h (inr (s, l, r)) = rw (h, s, l, r) refl

  write_from-Alike :
      (previous : List Text) (leaves : List Leaf) (origins : Origins) (opts : PrintOptions)
      → opts.show_secrets ≡ false
      → All Alike leaves
      → write_from values previous leaves left origins opts
        ≡ write_from values previous leaves right origins opts
  unfolding write_from
  write_from-Alike previous [] origins opts h a = refl
  write_from-Alike previous (leaf ∷ leaves) origins opts h a =
      let above = parents leaf.yaml_path in
      let shared = common_prefix previous above in
      let heads = headers shared (drop shared above) in
      let line = setting_line leaf origins opts in
      ap (λ r. emit heads line r (write_from values above leaves left origins opts))
        (render_value-Alike leaf opts.show_secrets h a.0)
      ∙ ap (emit heads line (render_value values leaf right opts.show_secrets))
          (write_from-Alike above leaves origins opts h a.1)

  -- Two configurations that differ in nothing but the values of secrets that are set in both are
  -- written alike, unless the secrets are asked for.
  pub write_config-Alike :
      (leaves : List Leaf) (origins : Origins) (opts : PrintOptions)
      → opts.show_secrets ≡ false
      → All Alike leaves
      → write_config values leaves left origins opts ≡ write_config values leaves right origins opts
  unfolding write_config
  write_config-Alike leaves origins opts h a = write_from-Alike [] leaves origins opts h a
