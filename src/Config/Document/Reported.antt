-- ===== src/Config/Document/Reported.antt =====
-- internal/config/diagnostics.go: the walk of a config file reports the keys that name no setting.
use mathlib.Core.List.Memᴰ
use mathlib.Core.List.{Memᴰ}
use easyp_plugin_server.Common.{
  ℕ, ◌≡◌, ◌↔◌, ◌⊎◌, inl, inr, refl, List, [], ◌∷◌, ◌++◌, none, some, true, false, Text, codes,
  text_eq, text_eq→eq, has_prefix, subst, sym, arith, member, lookup, Bool-cases, Option-cases,
}
use easyp_plugin_server.Archive.Inside.{has_prefix-append}
use easyp_plugin_server.Config.Leaves.{joined}
use easyp_plugin_server.Config.Schema.{DocumentSchema, hint_for}
use easyp_plugin_server.Config.Document.{
  Diagnostic, Node, mapping, reference, plain, Content, end, entry, retired_keys, is_anchor_holder,
  is_passed_over, report, Step, passed, reported, descended, examine, carry_out, walk_document,
  walk_content,
}

-- The keys that are not looked at: merge keys, and at the root those that begin with a dot or with x-,
-- which hold anchors.
pub data PassedOver : List Text → Text → Type 0 where
  merges : (path : List Text) → PassedOver path (codes "<<")
  dotted : (rest : Text) → PassedOver [] (b'.' ∷ rest)
  extension : (rest : Text) → PassedOver [] (b'x' ∷ b'-' ∷ rest)

is_passed_over_sound :
    (path : List Text) (key : Text) → is_passed_over path key ≡ true → PassedOver path key
unfolding is_passed_over is_anchor_holder
is_passed_over_sound (name ∷ path) key h =
    subst (PassedOver (name ∷ path)) (sym (text_eq→eq key (codes "<<") h)) (merges (name ∷ path))
is_passed_over_sound [] key h = elim (Bool-cases (text_eq key (codes "<<"))) [
  | inl e ↦ subst (PassedOver []) (sym (text_eq→eq key (codes "<<") e)) (merges [])
  | inr e ↦ elim (Bool-cases (has_prefix key (codes "."))) [
    | inl d ↦
        let (rest, same) = has_prefix-append key (codes ".") d in
        subst (PassedOver []) (sym same) (dotted rest)
    | inr d ↦
        let x : has_prefix key (codes "x-") ≡ true = ground (arith, h, e, d) in
        let (rest, same) = has_prefix-append key (codes "x-") x in
        subst (PassedOver []) (sym same) (extension rest)
  ]
]

is_passed_over_complete :
    (path : List Text) (key : Text) → PassedOver path key → is_passed_over path key ≡ true
unfolding is_passed_over is_anchor_holder text_eq has_prefix
is_passed_over_complete [] key (merges path) = refl
is_passed_over_complete (name ∷ path) key (merges path') = refl
is_passed_over_complete path key (dotted rest) = refl
is_passed_over_complete path key (extension rest) = refl

pub looked_at_iff :
    (path : List Text) (key : Text) → (is_passed_over path key ≡ false) ↔ (¬ PassedOver path key)
looked_at_iff path key = (
  λ h p. cc (h, is_passed_over_complete path key p),
  λ h. elim (Bool-cases (is_passed_over path key)) [
    | inl e ↦ absurd (h (is_passed_over_sound path key e))
    | inr e ↦ e
  ],
)

module _ (schema : DocumentSchema) where
  -- A key under this path names a section that the walk goes into.
  pub record Opens (path : List Text) (key : Text) : Type 0 where
    pub looked_at : ¬ PassedOver path key
    pub not_retired : lookup (joined (path ++ key ∷ [])) retired_keys ≡ none
    pub not_leaf : member (joined (path ++ key ∷ [])) schema.leaves ≡ false
    pub is_section : member (joined (path ++ key ∷ [])) schema.sections ≡ true

  -- The key stands at this line under the second path, in a node at the first one, all that is
  -- above it being sections.
  mutual
    pub data Occurs : List Text → Node → List Text → Text → ℕ → Type 0 where
      inside :
          {path : List Text} {content : Content} {above : List Text} {key : Text} {line : ℕ}
          → OccursIn path content above key line
          → Occurs path (mapping content) above key line
      behind :
          {path : List Text} {node : Node} {above : List Text} {key : Text} {line : ℕ}
          → Occurs path node above key line
          → Occurs path (reference node) above key line

    pub data OccursIn : List Text → Content → List Text → Text → ℕ → Type 0 where
      here :
          {path : List Text} {key : Text} {line : ℕ} {value : Node} {content : Content}
          → OccursIn path (entry key line value content) path key line
      later :
          {path : List Text} {k : Text} {l : ℕ} {value : Node} {content : Content}
          {above : List Text} {key : Text} {line : ℕ}
          → OccursIn path content above key line
          → OccursIn path (entry k l value content) above key line
      under :
          {path : List Text} {k : Text} {l : ℕ} {value : Node} {content : Content}
          {above : List Text} {key : Text} {line : ℕ}
          → Opens path k
          → Occurs (path ++ k ∷ []) value above key line
          → OccursIn path (entry k l value content) above key line

  -- What is to be said about a key that is written there.
  pub data Wrong (path : List Text) (key : Text) (line : ℕ) : Diagnostic → Type 0 where
    retired :
        (reason : Text)
        → ¬ PassedOver path key
        → lookup (joined (path ++ key ∷ [])) retired_keys ≡ some reason
        → Wrong path key line (report (joined (path ++ key ∷ [])) line reason [])
    unknown :
        ¬ PassedOver path key
        → lookup (joined (path ++ key ∷ [])) retired_keys ≡ none
        → member (joined (path ++ key ∷ [])) schema.leaves ≡ false
        → member (joined (path ++ key ∷ [])) schema.sections ≡ false
        → Wrong path key line (
            report
              (joined (path ++ key ∷ []))
              line
              (codes "unknown key")
              (hint_for key (joined path) schema))

  examine-Opens :
      (path : List Text) (key : Text) (line : ℕ)
      → Opens path key
      → examine schema path key line ≡ descended
  unfolding examine
  examine-Opens path key line o =
      rw ((looked_at_iff path key).1 o.looked_at, o.not_retired, o.not_leaf, o.is_section) refl

  examine-Wrong :
      (path : List Text) (key : Text) (line : ℕ) (diag : Diagnostic)
      → Wrong path key line diag
      → examine schema path key line ≡ reported diag
  unfolding examine
  examine-Wrong path key line diag (retired reason h r) = rw ((looked_at_iff path key).1 h, r) refl
  examine-Wrong path key line diag (unknown h r l s) =
      rw ((looked_at_iff path key).1 h, r, l, s) refl

  -- What the examination of a key found.
  data Found (path : List Text) (key : Text) (line : ℕ) : Step → Type 0 where
    nothing : Found path key line passed
    wrong : {diag : Diagnostic} → Wrong path key line diag → Found path key line (reported diag)
    opens : Opens path key → Found path key line descended

  examine-Found :
      (path : List Text) (key : Text) (line : ℕ)
      → Found path key line (examine schema path key line)
  unfolding examine
  examine-Found path key line = elim (Bool-cases (is_passed_over path key)) [
    | inl h ↦ rw h nothing
    | inr h ↦ elim (Option-cases (lookup (joined (path ++ key ∷ [])) retired_keys)) [
      | inr (reason, r) ↦ rw (h, r) (wrong (retired reason ((looked_at_iff path key).0 h) r))
      | inl r ↦ elim (Bool-cases (member (joined (path ++ key ∷ [])) schema.leaves)) [
        | inl l ↦ rw (h, r, l) nothing
        | inr l ↦ elim (Bool-cases (member (joined (path ++ key ∷ [])) schema.sections)) [
          | inl s ↦
              rw (h, r, l, s)
                (opens record {
                  looked_at = (looked_at_iff path key).0 h;
                  not_retired = r;
                  not_leaf = l;
                  is_section = s;
                })
          | inr s ↦ rw (h, r, l, s) (wrong (unknown ((looked_at_iff path key).0 h) r l s))
        ]
      ]
    ]
  ]

  -- A report on a key that is written in the node.
  pub record ReportOn (path : List Text) (node : Node) (diag : Diagnostic) : Type 0 where
    pub above : List Text
    pub key : Text
    pub line : ℕ
    pub occurs : Occurs path node above key line
    pub is_wrong : Wrong above key line diag

  record ReportIn (path : List Text) (content : Content) (diag : Diagnostic) : Type 0 where
    above : List Text
    key : Text
    line : ℕ
    occurs : OccursIn path content above key line
    is_wrong : Wrong above key line diag

  -- The three ways in which a report got into the list.
  entry-cases :
      (path : List Text) (key : Text) (line : ℕ) (step : Step) (rest inner : List Diagnostic)
      (diag : Diagnostic)
      → Found path key line step
      → Memᴰ diag (carry_out step rest inner)
      → Wrong path key line diag ⊎ ((Opens path key × Memᴰ diag inner) ⊎ Memᴰ diag rest)
  unfolding carry_out
  entry-cases path key line passed rest inner diag nothing m = inr (inr m)
  entry-cases path key line (reported d) rest inner diag (wrong w) m = elim (Memᴰ.cases_cons m) [
    | inl e ↦ inl (rw e w)
    | inr t ↦ inr (inr t)
  ]
  entry-cases path key line descended rest inner diag (opens o) m =
      elim (Memᴰ.append_cases inner m) [ inl t ↦ inr (inl (o, t)) | inr t ↦ inr (inr t) ]

  mutual
    unfolding walk_document

    walked-ReportOn :
        (path : List Text) (node : Node) (diag : Diagnostic)
        → Memᴰ diag (walk_document schema path node)
        → ReportOn path node diag
    walked-ReportOn path plain diag h = absurd (Memᴰ.not-nil h)
    walked-ReportOn path (reference node) diag h =
        let r = walked-ReportOn path node diag h in
        record {
          above = r.above;
          key = r.key;
          line = r.line;
          occurs = behind r.occurs;
          is_wrong = r.is_wrong;
        }
    walked-ReportOn path (mapping content) diag h =
        let r = walked-ReportIn path content diag h in
        record {
          above = r.above;
          key = r.key;
          line = r.line;
          occurs = inside r.occurs;
          is_wrong = r.is_wrong;
        }

    walked-ReportIn :
        (path : List Text) (content : Content) (diag : Diagnostic)
        → Memᴰ diag (walk_content schema path content)
        → ReportIn path content diag
    walked-ReportIn path end diag h = absurd (Memᴰ.not-nil h)
    walked-ReportIn path (entry key line value content) diag h =
        elim (entry-cases path key line (examine schema path key line)
          (walk_content schema path content) (walk_document schema (path ++ key ∷ []) value) diag
          (examine-Found path key line) h) [
            | inl w ↦ record { above = path; key = key; line = line; occurs = here; is_wrong = w }
            | inr (inl (o, m)) ↦
                let r = walked-ReportOn (path ++ key ∷ []) value diag m in
                record {
                  above = r.above;
                  key = r.key;
                  line = r.line;
                  occurs = under o r.occurs;
                  is_wrong = r.is_wrong;
                }
            | inr (inr m) ↦
                let r = walked-ReportIn path content diag m in
                record {
                  above = r.above;
                  key = r.key;
                  line = r.line;
                  occurs = later r.occurs;
                  is_wrong = r.is_wrong;
                }
          ]

  carry_out-Memᴰ :
      (step : Step) (rest inner : List Diagnostic) (diag : Diagnostic)
      → Memᴰ diag rest
      → Memᴰ diag (carry_out step rest inner)
  unfolding carry_out
  carry_out-Memᴰ passed rest inner diag m = m
  carry_out-Memᴰ (reported d) rest inner diag m = Memᴰ.tail m
  carry_out-Memᴰ descended rest inner diag m = Memᴰ.append_right inner m

  reported-Memᴰ :
      (step : Step) (rest inner : List Diagnostic) (diag : Diagnostic)
      → step ≡ reported diag
      → Memᴰ diag (carry_out step rest inner)
  unfolding carry_out
  reported-Memᴰ step rest inner diag e = rw e (Memᴰ.head refl)

  descended-Memᴰ :
      (step : Step) (rest inner : List Diagnostic) (diag : Diagnostic)
      → step ≡ descended
      → Memᴰ diag inner
      → Memᴰ diag (carry_out step rest inner)
  unfolding carry_out
  descended-Memᴰ step rest inner diag e m = rw e (Memᴰ.append_left rest m)

  mutual
    unfolding walk_document

    Occurs-walked :
        {path above : List Text} {node : Node} {key : Text} {line : ℕ} (diag : Diagnostic)
        → Occurs path node above key line
        → Wrong above key line diag
        → Memᴰ diag (walk_document schema path node)
    Occurs-walked diag (inside o) w = OccursIn-walked diag o w
    Occurs-walked diag (behind o) w = Occurs-walked diag o w

    OccursIn-walked :
        {path above : List Text} {content : Content} {key : Text} {line : ℕ} (diag : Diagnostic)
        → OccursIn path content above key line
        → Wrong above key line diag
        → Memᴰ diag (walk_content schema path content)
    OccursIn-walked diag (here {path} {key} {line} {value} {content}) w =
        reported-Memᴰ (examine schema path key line) _ _ diag (examine-Wrong path key line diag w)
    OccursIn-walked diag (later {path} {k} {l} {value} {content} o) w =
        carry_out-Memᴰ (examine schema path k l) _ _ diag (OccursIn-walked diag o w)
    OccursIn-walked diag (under {path} {k} {l} {value} {content} o p) w =
        descended-Memᴰ (examine schema path k l) _ _ diag (examine-Opens path k l o)
          (Occurs-walked diag p w)

  -- The walk of a config file reports exactly these of the keys that are reached in it through
  -- sections, and are neither merge keys nor, at the root, begin with a dot or with x-: those whose
  -- dotted path is retired, with the reason, and those whose dotted path is the name neither of a
  -- setting nor of a section, with the hint that hint_for gives for them. Nothing below a setting is
  -- reached, and a key that has dots in it counts by the path that it makes.
  pub walk_document_iff :
      (path : List Text) (node : Node) (diag : Diagnostic)
      → Memᴰ diag (walk_document schema path node) ↔ ReportOn path node diag
  walk_document_iff path node diag =
      (walked-ReportOn path node diag, λ r. Occurs-walked diag r.occurs r.is_wrong)
