-- ===== src/Config/Env/Reads.antt =====
-- internal/config/alias.go and env.go: the name that a value was read under, and the variables that
-- are reported.
use mathlib.Core.List.Memᴰ
use mathlib.Core.List.{Memᴰ}
use easyp_plugin_server.Common.{
  ◌≡◌, ◌⊎◌, inl, inr, refl, List, [], ◌∷◌, none, some, Bool, true, false, Text, lookup, insert,
  lookup-insert, ap, ◌∙◌, sym, ◌||◌, text_eq, text_eq_refl, member, Option-cases, Bool-cases,
  if◌then◌else◌,
}
use easyp_plugin_server.Config.Document.{Diagnostic, is_error}
use easyp_plugin_server.Config.Env.{
  Lookuper, first_found, alternatives_of, alias_lookup, cut_equals, reportable_env, is_alias,
  is_kubernetes_link_var, has_some_prefix, ignored_variable, unknown_env,
}

first_found-reads :
    (inner : Lookuper) (alternatives : List Text) (value alternative : Text)
    → first_found inner alternatives ≡ some (value, alternative)
    → Memᴰ alternative alternatives × (inner alternative ≡ some value)
unfolding first_found
first_found-reads inner [] value alternative h = absurd (cc h)
first_found-reads inner (a ∷ others) value alternative h = elim (Option-cases (inner a)) [
  | inl e ↦
      let h' : first_found inner others ≡ some (value, alternative) = rw (e, first_found) at h in
      let (m, r) = first_found-reads inner others value alternative h' in (Memᴰ.tail m, r)
  | inr (v, e) ↦
      let h' : some (v, a) ≡ some (value, alternative) = rw (e, first_found) at h in
      (Memᴰ.head (cc h'), cc (h', e))
]

-- A value that a lookup returns was read under the variable itself, or, that one not being set,
-- under one of its alternatives, which the lookup then records; a lookup without a value means
-- that the variable is not set.
pub alias_lookup-reads :
    (inner : Lookuper) (key value : Text) (used after : List (Text × Text))
    → alias_lookup inner key used ≡ (some value, after)
    → ((inner key ≡ some value) × (after ≡ used))
      ⊎ ((alternative : Text) × Memᴰ alternative (alternatives_of key)
          × (inner key ≡ none)
          × (inner alternative ≡ some value)
          × (lookup key after ≡ some alternative))
unfolding alias_lookup
alias_lookup-reads inner key value used after h = elim (Option-cases (inner key)) [
  | inr (v, e) ↦
      let h' : (some v, used) ≡ (some value, after) = rw (e, alias_lookup) at h in
      let same : some v ≡ some value = ap (λ p. p.0) h' in
      let kept : used ≡ after = ap (λ p. p.1) h' in inl (e ∙ same, sym kept)
  | inl e ↦ elim (Option-cases (first_found inner (alternatives_of key))) [
    | inl f ↦
        let h' : (none, used) ≡ (some value, after) = rw (e, f, alias_lookup) at h in absurd (cc h')
    | inr ((v, a), f) ↦
        let h' : (some v, insert key a used) ≡ (some value, after) = rw (e, f, alias_lookup) at h in
        let (m, r) = first_found-reads inner (alternatives_of key) v a f in
        let same : some v ≡ some value = ap (λ p. p.0) h' in
        let kept : insert key a used ≡ after = ap (λ p. p.1) h' in
        let found : inner a ≡ some value = r ∙ same in
        inr (a, m, e, found, rw (← kept, lookup-insert key key a used, text_eq_refl key) refl)
  ]
]

-- What is said about the variables of the environment is never an error, and it is said of a
-- variable only that is set to something, is no setting's and no alternative, is not injected for a
-- Kubernetes service, and begins like a setting of this service.
pub record Reportable (names prefixes : List Text) (diag : Diagnostic) : Type 0 where
  pub value : Text
  pub is_warning : is_error diag ≡ false
  pub is_set : text_eq value [] ≡ false
  pub no_setting : member diag.path names ≡ false
  pub no_alias : is_alias diag.path ≡ false
  pub no_link : is_kubernetes_link_var diag.path value ≡ false
  pub aimed : has_some_prefix diag.path prefixes ≡ true

passed_guards :
    (a b c d e : Bool)
    → (if a then false else if b || c then false else if d then false else e) ≡ true
    → (a ≡ false) × (b ≡ false) × (c ≡ false) × (d ≡ false) × (e ≡ true)
passed_guards false false false false true h = (refl, refl, refl, refl, refl)
passed_guards false false false false false h = absurd (cc h)
passed_guards false false false true e h = absurd (cc h)
passed_guards false false true d e h = absurd (cc h)
passed_guards false true c d e h = absurd (cc h)
passed_guards true b c d e h = absurd (cc h)

ignored_variable-Reportable :
    (names prefixes : List Text) (name value : Text)
    → reportable_env name value names prefixes ≡ true
    → Reportable names prefixes (ignored_variable names name)
unfolding reportable_env ignored_variable is_error
ignored_variable-Reportable names prefixes name value h =
    let passed =
      passed_guards (text_eq value []) (member name names) (is_alias name)
        (is_kubernetes_link_var name value) (has_some_prefix name prefixes) h in
    record {
      value = value;
      is_warning = refl;
      is_set = passed.0;
      no_setting = passed.1;
      no_alias = passed.2;
      no_link = passed.3;
      aimed = passed.4;
    }

-- What is reported of the environment meets these conditions.
pub unknown_env-Reportable :
    (names prefixes environ : List Text) (diag : Diagnostic)
    → Memᴰ diag (unknown_env names prefixes environ)
    → Reportable names prefixes diag
unfolding unknown_env
unknown_env-Reportable names prefixes [] diag m = elim m [ ]
unknown_env-Reportable names prefixes (e ∷ environ) diag m = elim (Option-cases (cut_equals e)) [
  | inl none_cut ↦
      unknown_env-Reportable names prefixes environ diag (rw (none_cut, unknown_env) at m)
  | inr ((name, value), cut) ↦ elim (Bool-cases (reportable_env name value names prefixes)) [
    | inr unfit ↦
        unknown_env-Reportable names prefixes environ diag (rw (cut, unfit, unknown_env) at m)
    | inl fit ↦
        let m' : Memᴰ diag (ignored_variable names name ∷ unknown_env names prefixes environ) =
          rw (cut, fit, unknown_env) at m in
        elim (Memᴰ.cases_cons m') [
          | inl same ↦ rw same (ignored_variable-Reportable names prefixes name value fit)
          | inr t ↦ unknown_env-Reportable names prefixes environ diag t
        ]
  ]
]
