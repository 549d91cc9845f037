-- ===== src/Paths/Normal.antt =====
-- What the components of a cleaned path look like: steps up, then plain names; below the root no
-- steps up.
use easyp_plugin_server.Common.{
  ℕ, ◌≡◌, ◌≢◌, refl, sym, ap, ◌∙◌, subst, Bool, true, false, inl, inr, List, [], ◌∷◌, ◌++◌,
  append_assoc, append-nil, Text, text_eq, Lacks, split, split_from, All, All-append, arith,
  Bool-cases, List-cases, ◌==◌,
}
use easyp_plugin_server.Paths.{slash, dotdot, is_void, back, enter, run, parts, is_abs}

split_from-All-Lacks :
    (sep : ℕ) (s cur : Text) → Lacks sep cur → All (Lacks sep) (split_from sep s cur)
unfolding split_from
split_from-All-Lacks sep [] cur h = (h, tt)
split_from-All-Lacks sep (c ∷ s) cur h = elim (Bool-cases (c == sep)) [
  | inl e ↦ rw (e, split_from) (h, split_from-All-Lacks sep s [] tt)
  | inr e ↦
      rw (e, split_from)
        (split_from-All-Lacks sep s (cur ++ c ∷ [])
          (All-append (λ x. x ≢ sep) cur (c ∷ []) h ((λ q. ground (arith, e, q)), tt)))
]

pub split-All-Lacks : (sep : ℕ) (s : Text) → All (Lacks sep) (split s sep)
unfolding split
split-All-Lacks sep s = split_from-All-Lacks sep s [] tt

-- An ordinary name of a file or directory.
abbrev pub Plain : Text → Type 0
Plain c = Lacks slash c × (is_void c ≡ false) × (text_eq c dotdot ≡ false)

abbrev pub Up : Text → Type 0
Up c = c ≡ dotdot

-- Steps up, and none of them below the root.
abbrev pub Ups : Bool → List Text → Type 0
Ups true cs = cs ≡ []
Ups false cs = All Up cs

pub record Shape (rooted : Bool) (cs : List Text) : Type 0 where
  pub ups : List Text
  pub names : List Text
  pub split_up : cs ≡ ups ++ names
  pub ups_Ups : Ups rooted ups
  pub names_Plain : All Plain names

-- A step up above steps up is one more, but for the root's.
back-Ups : (rooted : Bool) (ups : List Text) → Ups rooted ups → Ups rooted (back rooted ups)
unfolding back text_eq
back-Ups true cs h = rw h refl
back-Ups false [] h = (refl, tt)
back-Ups false (c ∷ []) h = rw h.0 (refl, (refl, tt))
back-Ups false (c ∷ d ∷ cs) h = (h.0, back-Ups false (d ∷ cs) h.1)

-- A step up takes the last name away.
back-append :
    (rooted : Bool) (ups : List Text) (n : Text) (names : List Text)
    → back rooted (ups ++ n ∷ names) ≡ ups ++ back rooted (n ∷ names)
unfolding back
back-append rooted [] n names = refl
back-append rooted (c ∷ []) n names = refl
back-append rooted (c ∷ d ∷ cs) n names = ap (λ l. c ∷ l) (back-append rooted (d ∷ cs) n names)

back-Plain :
    (rooted : Bool) (n : Text) (names : List Text)
    → All Plain (n ∷ names)
    → All Plain (back rooted (n ∷ names))
unfolding back text_eq
back-Plain rooted n [] h = rw (h.0.2, back) tt
back-Plain rooted n (m ∷ names) h = (h.0, back-Plain rooted m names h.1)

enter-Shape :
    (rooted : Bool) (acc : List Text) (c : Text)
    → Lacks slash c
    → Shape rooted acc
    → Shape rooted (enter rooted acc c)
unfolding enter
enter-Shape rooted acc c lacks h = elim (Bool-cases (is_void c)) [
  | inl v ↦ rw (v, enter) h
  | inr v ↦ elim (Bool-cases (text_eq c dotdot)) [
    | inr p ↦
        rw (v, p, enter)
          (record {
            ups = h.ups;
            names = h.names ++ c ∷ [];
            split_up = ap (λ l. l ++ c ∷ []) h.split_up ∙ append_assoc h.ups h.names (c ∷ []);
            ups_Ups = h.ups_Ups;
            names_Plain = All-append Plain h.names (c ∷ []) h.names_Plain ((lacks, v, p), tt);
          })
    | inl p ↦
        rw (v, p, enter)
          (elim (List-cases h.names) [
            | inl e ↦ record {
              ups = back rooted h.ups;
              names = [];
              split_up =
                  ap (back rooted) (h.split_up ∙ ap (λ l. h.ups ++ l) e ∙ append-nil h.ups)
                  ∙ sym (append-nil (back rooted h.ups));
              ups_Ups = back-Ups rooted h.ups h.ups_Ups;
              names_Plain = tt;
            }
            | inr (n, names, e) ↦ record {
              ups = h.ups;
              names = back rooted (n ∷ names);
              split_up =
                  ap (back rooted) (h.split_up ∙ ap (λ l. h.ups ++ l) e)
                  ∙ back-append rooted h.ups n names;
              ups_Ups = h.ups_Ups;
              names_Plain = back-Plain rooted n names (subst (All Plain) e h.names_Plain);
            }
          ])
  ]
]

run-Shape :
    (rooted : Bool) (acc cs : List Text)
    → All (Lacks slash) cs
    → Shape rooted acc
    → Shape rooted (run rooted acc cs)
unfolding run
run-Shape rooted acc [] lacks h = h
run-Shape rooted acc (c ∷ cs) lacks h =
    run-Shape rooted (enter rooted acc c) cs lacks.1 (enter-Shape rooted acc c lacks.0 h)

empty-Shape : (rooted : Bool) → Shape rooted []
empty-Shape true = record {
  ups = [];
  names = [];
  split_up = refl;
  ups_Ups = refl;
  names_Plain = tt;
}
empty-Shape false = record { ups = []; names = []; split_up = refl; ups_Ups = tt; names_Plain = tt }

pub parts-Shape : (p : Text) → Shape (is_abs p) (parts p)
unfolding parts
parts-Shape p =
    run-Shape (is_abs p) [] (split p slash) (split-All-Lacks slash p) (empty-Shape (is_abs p))
