-- ===== src/Archive/Inside.antt =====
-- Paths inside a directory: its components, and behind them names that step neither up nor out.
use easyp_plugin_server.Common.{
  ℕ, ◌≡◌, refl, sym, ap, ◌∙◌, subst, Bool, true, false, not, ◌&&◌, ◌⊎◌, inl, inr, List, [], ◌∷◌,
  ◌++◌, append-nil, append_assoc, Text, text_eq, text_eq→eq, split-append_sep, has_prefix, split,
  split_from, All, All-append_inv, arith, Bool-cases, List-cases, ok, err, if◌then◌else◌,
}
use easyp_plugin_server.Paths.{
  dir, slash, dotdot, is_abs, parts, render, join_parts, clean, join, run, enter, is_void,
}
use easyp_plugin_server.Paths.Normal.{Plain, Up, Shape, parts-Shape}
use easyp_plugin_server.Paths.Cleaned.{
  run-Plain, clean-parts, Plain-Whole, join-parts, split-append, split-join_parts, Shape-Whole,
}
use easyp_plugin_server.Archive.{unsafe_path, safe_join, resolve_link, check_symlink_target}

pub record Inside (root p : Text) : Type 0 where
  pub names : List Text
  pub plain : All Plain names
  pub same_start : is_abs p ≡ is_abs root
  pub below : parts p ≡ parts root ++ names

pub has_prefix-append : (s p : Text) → has_prefix s p ≡ true → (t : Text) × (s ≡ p ++ t)
unfolding has_prefix
has_prefix-append s [] h = (s, refl)
has_prefix-append [] (c ∷ p) h = absurd (cc h)
has_prefix-append (d ∷ s) (c ∷ p) h =
    let (t, e) = has_prefix-append s p (ground (arith, h)) in
    let same : d ≡ c = ground (arith, h) in (t, rw same (ap (λ l. c ∷ l) e))

-- The first component is plain, and then all are, or it is a step up.
head-cases : (c : Text) (cs : List Text) → Shape false (c ∷ cs) → All Plain (c ∷ cs) ⊎ (c ≡ dotdot)
head-cases c cs h = elim (List-cases h.ups) [
  | inl e ↦
      let all : c ∷ cs ≡ h.names = h.split_up ∙ ap (λ u. u ++ h.names) e in
      inl (subst (All Plain) (sym all) h.names_Plain)
  | inr (u, us, e) ↦
      let head : c ≡ u = cc (h.split_up ∙ ap (λ u. u ++ h.names) e) in
      inr (head ∙ (subst (All Up) e h.ups_Ups).0)
]

-- A cleaned relative path that neither is nor starts with a step up has plain names only.
low_names :
    (cs : List Text)
    → Shape false cs
    → text_eq (render false cs) dotdot ≡ false
    → has_prefix (render false cs) (dotdot ++ slash ∷ []) ≡ false
    → All Plain cs
unfolding render join_parts text_eq has_prefix
low_names [] h one more = tt
low_names (c ∷ []) h one more = elim (head-cases c [] h) [
  | inl plain ↦ plain
  | inr up ↦ absurd (cc (sym one ∙ ap (λ c. text_eq c dotdot) up))
]
low_names (c ∷ d ∷ cs) h one more = elim (head-cases c (d ∷ cs) h) [
  | inl plain ↦ plain
  | inr up ↦ absurd (
      cc (
        sym more
        ∙ ap (λ c. has_prefix (c ++ slash ∷ join_parts (d ∷ cs)) (dotdot ++ slash ∷ [])) up))
]

-- Entering a cleaned relative path of plain names adds them.
pub run-split-render :
    (rooted : Bool) (acc cs : List Text)
    → Shape false cs
    → All Plain cs
    → run rooted acc (split (render false cs) slash) ≡ acc ++ cs
unfolding render run enter is_void text_eq split split_from
run-split-render rooted acc [] h plain = sym (append-nil acc)
run-split-render rooted acc (c ∷ cs) h plain =
    ap (run rooted acc) (split-join_parts c cs (Shape-Whole false (c ∷ cs) h))
    ∙ run-Plain rooted acc (c ∷ cs) plain

-- A path joined with a cleaned relative path of plain names.
join-Inside :
    (x : ℕ) (dest : Text) (cs : List Text) (low : Text)
    → Shape false cs
    → All Plain cs
    → low ≡ render false cs
    → Inside (x ∷ dest) (join (x ∷ dest) low)
unfolding join
join-Inside x dest cs [] h plain e = record {
  names = [];
  plain = tt;
  same_start = (clean-parts (x ∷ dest)).0;
  below = (clean-parts (x ∷ dest)).1 ∙ sym (append-nil (parts (x ∷ dest)));
}
join-Inside x dest cs (y ∷ b) h plain e =
    let (start, entered) = join-parts x dest y b in
    record {
      names = cs;
      plain = plain;
      same_start = start;
      below =
          entered
          ∙ ap (λ p. run (is_abs (x ∷ dest)) (parts (x ∷ dest)) (split p slash)) e
          ∙ run-split-render (is_abs (x ∷ dest)) (parts (x ∷ dest)) cs h plain;
    }

-- What an accepted entry name passes, and where it lands.
safe_join-inv :
    (dest name target : Text)
    → safe_join dest name ≡ ok target
    → (is_abs (clean name) ≡ false)
      × (text_eq (clean name) dotdot ≡ false)
      × (has_prefix (clean name) (dotdot ++ slash ∷ []) ≡ false)
      × (target ≡ join dest (clean name))
unfolding safe_join
safe_join-inv dest name target h = ground (arith, h)

-- An accepted entry name names what lies below the directory.
pub safe_join-Inside :
    (x : ℕ) (dest name target : Text)
    → safe_join (x ∷ dest) name ≡ ok target
    → Inside (x ∷ dest) target
safe_join-Inside x dest name target h =
    let (relative, one, more, lands) = safe_join-inv (x ∷ dest) name target h in
    let flat : is_abs name ≡ false = sym (clean-parts name).0 ∙ relative in
    let shape : Shape false (parts name) =
      subst (λ r. Shape r (parts name)) flat (parts-Shape name) in
    let rendered : clean name ≡ render false (parts name) =
      unfold clean in ap (λ r. render r (parts name)) flat in
    let plain =
      low_names (parts name) shape (sym (ap (λ c. text_eq c dotdot) rendered) ∙ one)
        (sym (ap (λ c. has_prefix c (dotdot ++ slash ∷ [])) rendered) ∙ more) in
    subst (Inside (x ∷ dest)) (sym lands)
      (join-Inside x dest (parts name) (clean name) shape plain rendered)

-- The components that Split gives of a cleaned absolute path.
split-rooted :
    (c : Text) (cs : List Text)
    → All Plain (c ∷ cs)
    → split (render true (c ∷ cs)) slash ≡ [] ∷ c ∷ cs
unfolding render
split-rooted c cs h =
    split-append_sep slash [] (join_parts (c ∷ cs)) tt
    ∙ ap (λ l. [] ∷ l) (split-join_parts c cs (Plain-Whole (c ∷ cs) h))

rooted-Plain : (cs : List Text) → Shape true cs → All Plain cs
rooted-Plain cs h =
    subst (All Plain) (sym (h.split_up ∙ ap (λ u. u ++ h.names) h.ups_Ups)) h.names_Plain

-- A cleaned absolute path that starts with another and a slash has the other's components first.
prefix-below :
    (cs rs : List Text) (t : Text)
    → All Plain cs
    → All Plain rs
    → render true cs ≡ render true rs ++ slash ∷ t
    → (names : List Text) × (cs ≡ rs ++ names)
unfolding render join_parts split split_from is_void text_eq
prefix-below cs [] t hc hr e = (cs, refl)
prefix-below [] (r ∷ rs) t hc hr e =
    let cut =
      ap (λ p. split p slash) e
      ∙ split-append slash (render true (r ∷ rs)) t []
      ∙ ap (λ l. l ++ split t slash) (split-rooted r rs hr) in
    absurd (cc (cut, hr.0.1))
prefix-below (c ∷ cs) (r ∷ rs) t hc hr e =
    let cut =
      sym (split-rooted c cs hc)
      ∙ ap (λ p. split p slash) e
      ∙ split-append slash (render true (r ∷ rs)) t []
      ∙ ap (λ l. l ++ split t slash) (split-rooted r rs hr) in
    (split t slash, cc (cut))

render-is_abs : (cs : List Text) (t : Text) → is_abs (render true cs ++ slash ∷ t) ≡ true
unfolding render is_abs has_prefix
render-is_abs cs t = refl

-- A path below an absolute root: cleaned, and the root itself or beginning with it and a slash.
pub rooted-Inside :
    (root q : Text)
    → is_abs root ≡ true
    → (clean q ≡ clean root) ⊎ ((t : Text) × (clean q ≡ clean root ++ slash ∷ t))
    → Inside root (clean q)
rooted-Inside root q abs (inl same) = record {
  names = [];
  plain = tt;
  same_start = ap is_abs same ∙ (clean-parts root).0;
  below = ap parts same ∙ (clean-parts root).1 ∙ sym (append-nil (parts root));
}
rooted-Inside root q abs (inr (t, longer)) =
    let shape_root =
      rooted-Plain (parts root) (subst (λ r. Shape r (parts root)) abs (parts-Shape root)) in
    let root_text : clean root ≡ render true (parts root) =
      unfold clean in ap (λ r. render r (parts root)) abs in
    let start : is_abs (clean q) ≡ true =
      ap is_abs (longer ∙ ap (λ p. p ++ slash ∷ t) root_text) ∙ render-is_abs (parts root) t in
    let high : is_abs q ≡ true = sym (clean-parts q).0 ∙ start in
    let shape = rooted-Plain (parts q) (subst (λ r. Shape r (parts q)) high (parts-Shape q)) in
    let text : clean q ≡ render true (parts q) =
      unfold clean in ap (λ r. render r (parts q)) high in
    let (names, e) =
      prefix-below (parts q) (parts root) t shape shape_root
        (sym text ∙ longer ∙ ap (λ p. p ++ slash ∷ t) root_text) in
    record {
      names = names;
      plain = (All-append_inv Plain (parts root) names (subst (All Plain) e shape)).1;
      same_start = start ∙ sym abs;
      below = (clean-parts q).1 ∙ e;
    }

-- The guards of a check that succeeds.
passes :
    (empty rooted same begins : Bool)
    → (if empty
        then err unsafe_path
        else if rooted
        then err unsafe_path
        else if not same && not begins
        then err unsafe_path
        else ok (tt {0}))
      ≡ ok tt
    → same ≡ false
    → begins ≡ true
passes true rooted same begins h e = absurd (cc h)
passes false true same begins h e = absurd (cc h)
passes false false true begins h e = absurd (cc e)
passes false false false true h e = refl
passes false false false false h e = absurd (cc h)

-- What an accepted link passes: it resolves to the root, or to a path that begins with it.
check-inv :
    (root target link : Text)
    → check_symlink_target root target link ≡ ok tt
    → (resolve_link target link ≡ clean root)
      ⊎ ((t : Text) × (resolve_link target link ≡ clean root ++ slash ∷ t))
unfolding check_symlink_target
check-inv root target link h =
    let resolved = resolve_link target link in
    elim (Bool-cases (text_eq resolved (clean root))) [
      | inl e ↦ inl (text_eq→eq resolved (clean root) e)
      | inr e ↦
          let begins : has_prefix resolved (clean root ++ slash ∷ []) ≡ true =
            unfold check_symlink_target in
            passes (text_eq link []) (is_abs (clean link)) (text_eq resolved (clean root))
              (has_prefix resolved (clean root ++ slash ∷ [])) h e in
          let (t, longer) = has_prefix-append resolved (clean root ++ slash ∷ []) begins in
          inr (t, longer ∙ append_assoc (clean root) (slash ∷ []) t)
    ]

-- An accepted link leads, by its text, to what lies below the absolute root.
check_symlink_target-Inside :
    (root target link : Text)
    → is_abs root ≡ true
    → check_symlink_target root target link ≡ ok tt
    → Inside root (resolve_link target link)
check_symlink_target-Inside root target link abs h =
    let reach = check-inv root target link h in
    unfold resolve_link in rooted-Inside root (join (dir target) (clean link)) abs reach
