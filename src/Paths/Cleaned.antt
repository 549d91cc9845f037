-- ===== src/Paths/Cleaned.antt =====
-- The components of cleaned and of joined paths.
use easyp_plugin_server.Common.{
  ==_refl, ℕ, ◌≡◌, refl, sym, ap, ◌∙◌, subst, Bool, true, false, inl, inr, List, [], ◌∷◌, ◌++◌,
  append_assoc, append-nil, Text, text_eq, Lacks, split, split_from, split_of_Lacks,
  split-append_sep, has_prefix, All, All-append, arith, Bool-cases, List-cases, ◌==◌,
}
use easyp_plugin_server.Paths.{
  slash, dot, dotdot, is_abs, is_void, back, enter, run, parts, join_parts, render, clean, join,
}
use easyp_plugin_server.Paths.Normal.{Plain, Up, Ups, Shape, parts-Shape}

pub run-append :
    (rooted : Bool) (acc xs ys : List Text)
    → run rooted acc (xs ++ ys) ≡ run rooted (run rooted acc xs) ys
unfolding run
run-append rooted acc [] ys = refl
run-append rooted acc (x ∷ xs) ys = run-append rooted (enter rooted acc x) xs ys

-- Plain names are entered one after the other.
pub run-Plain : (rooted : Bool) (acc cs : List Text) → All Plain cs → run rooted acc cs ≡ acc ++ cs
unfolding run enter
run-Plain rooted acc [] h = sym (append-nil acc)
run-Plain rooted acc (c ∷ cs) h =
    rw (h.0.1, h.0.2, run, enter)
      (run-Plain rooted (acc ++ c ∷ []) cs h.1 ∙ append_assoc acc (c ∷ []) cs)

back-Up : (ups : List Text) → All Up ups → back false ups ≡ ups ++ dotdot ∷ []
unfolding back text_eq
back-Up [] h = refl
back-Up (c ∷ []) h = rw h.0 refl
back-Up (c ∷ d ∷ cs) h = ap (λ l. c ∷ l) (back-Up (d ∷ cs) h.1)

run-Up : (acc cs : List Text) → All Up acc → All Up cs → run false acc cs ≡ acc ++ cs
unfolding run enter is_void text_eq
run-Up acc [] ha h = sym (append-nil acc)
run-Up acc (c ∷ cs) ha h = rw h.0 (
    rw (back-Up acc ha) (
      run-Up (acc ++ dotdot ∷ []) cs (All-append Up acc (dotdot ∷ []) ha (refl, tt)) h.1
      ∙ append_assoc acc (dotdot ∷ []) cs))

-- Components of the right shape are entered as they are.
run-of_Shape : (rooted : Bool) (cs : List Text) → Shape rooted cs → run rooted [] cs ≡ cs
unfolding run
run-of_Shape true cs h =
    let plain = subst (λ u. cs ≡ u ++ h.names) h.ups_Ups h.split_up in
    run-Plain true [] cs (subst (All Plain) (sym plain) h.names_Plain)
run-of_Shape false cs h =
    ap (run false []) h.split_up
    ∙ run-append false [] h.ups h.names
    ∙ ap (λ a. run false a h.names) (run-Up [] h.ups tt h.ups_Ups)
    ∙ run-Plain false h.ups h.names h.names_Plain
    ∙ sym h.split_up

-- A component as Split gives it.
abbrev pub Whole : Text → Type 0
Whole = Lacks slash

pub split-join_parts :
    (c : Text) (cs : List Text) → All Whole (c ∷ cs) → split (join_parts (c ∷ cs)) slash ≡ c ∷ cs
unfolding join_parts
split-join_parts c [] h = split_of_Lacks slash c h.0
split-join_parts c (d ∷ cs) h =
    split-append_sep slash c (join_parts (d ∷ cs)) h.0 ∙ ap (λ l. c ∷ l) (split-join_parts d cs h.1)

Up-Whole : (cs : List Text) → All Up cs → All Whole cs
Up-Whole [] h = tt
Up-Whole (c ∷ cs) h = (subst Whole (sym h.0) (omega arith), Up-Whole cs h.1)

pub Plain-Whole : (cs : List Text) → All Plain cs → All Whole cs
Plain-Whole [] h = tt
Plain-Whole (c ∷ cs) h = (h.0.0, Plain-Whole cs h.1)

Ups-Whole : (rooted : Bool) (cs : List Text) → Ups rooted cs → All Whole cs
Ups-Whole true cs h = rw h tt
Ups-Whole false cs h = Up-Whole cs h

pub Shape-Whole : (rooted : Bool) (cs : List Text) → Shape rooted cs → All Whole cs
Shape-Whole rooted cs h = subst (All Whole) (sym h.split_up) (
    All-append Whole h.ups h.names (Ups-Whole rooted h.ups h.ups_Ups)
      (Plain-Whole h.names h.names_Plain))

-- The first component is not empty, so a path that starts with it is not absolute.
starts_low : (c : Text) (t : Text) → Whole c → is_void c ≡ false → is_abs (c ++ t) ≡ false
unfolding is_abs is_void text_eq has_prefix
starts_low [] t h v = absurd (cc v)
starts_low (x ∷ c) t h v = ground (arith, h.0)

join_parts-starts : (c : Text) (cs : List Text) → (t : Text) × (join_parts (c ∷ cs) ≡ c ++ t)
unfolding join_parts
join_parts-starts c [] = ([], sym (append-nil c))
join_parts-starts c (d ∷ cs) = (slash ∷ join_parts (d ∷ cs), refl)

Ups-head : (c : Text) (cs : List Text) → Shape false (c ∷ cs) → is_void c ≡ false
unfolding is_void text_eq
Ups-head c cs h = elim (List-cases h.ups) [
  | inl e ↦
      let all : c ∷ cs ≡ h.names = h.split_up ∙ ap (λ u. u ++ h.names) e in
      (subst (All Plain) (sym all) h.names_Plain).0.1
  | inr (u, us, e) ↦
      let head : c ≡ u = cc (h.split_up ∙ ap (λ u. u ++ h.names) e) in
      rw (head ∙ (subst (All Up) e h.ups_Ups).0) refl
]

pub parts_lem :
    (p : Text) (rooted : Bool) (cs : List Text)
    → is_abs p ≡ rooted
    → split p slash ≡ cs
    → parts p ≡ run rooted [] cs
unfolding parts
parts_lem p rooted cs a e = ap (λ r. run r [] (split p slash)) a ∙ ap (run rooted []) e

-- A rendered path has the components that it was rendered from.
pub render-parts :
    (rooted : Bool) (cs : List Text)
    → Shape rooted cs
    → (is_abs (render rooted cs) ≡ rooted) × (parts (render rooted cs) ≡ cs)
unfolding render is_abs has_prefix split text_eq is_void enter run
render-parts true [] h = (refl, parts_lem (slash ∷ []) true ([] ∷ [] ∷ []) refl refl)
render-parts true (c ∷ cs) h =
    let whole = split-join_parts c cs (Shape-Whole true (c ∷ cs) h) in
    let cut = split-append_sep slash [] (join_parts (c ∷ cs)) tt ∙ ap (λ l. [] ∷ l) whole in
    (
      refl,
      parts_lem (slash ∷ join_parts (c ∷ cs)) true ([] ∷ c ∷ cs) refl cut
          ∙ run-of_Shape true (c ∷ cs) h,
    )
render-parts false [] h = (refl, parts_lem dot false (dot ∷ []) refl refl)
render-parts false (c ∷ cs) h =
    let whole = Shape-Whole false (c ∷ cs) h in
    let (t, starts) = join_parts-starts c cs in
    let low = ap is_abs starts ∙ starts_low c t whole.0 (Ups-head c cs h) in
    (
      low,
      parts_lem (join_parts (c ∷ cs)) false (c ∷ cs) low (split-join_parts c cs whole)
          ∙ run-of_Shape false (c ∷ cs) h,
    )

-- Cleaning a path keeps what it names: its components, and whether it starts at the root.
pub clean-parts : (p : Text) → (is_abs (clean p) ≡ is_abs p) × (parts (clean p) ≡ parts p)
unfolding clean
clean-parts p = render-parts (is_abs p) (parts p) (parts-Shape p)

pub split-append :
    (sep : ℕ) (a b cur : Text)
    → split_from sep (a ++ sep ∷ b) cur ≡ split_from sep a cur ++ split b sep
unfolding split split_from
split-append sep [] b cur = rw (==_refl sep, split_from) refl
split-append sep (x ∷ a) b cur = elim (Bool-cases (x == sep)) [
  | inl e ↦ rw (e, split_from) (ap (λ l. cur ∷ l) (split-append sep a b []))
  | inr e ↦ rw (e, split_from) (split-append sep a b (cur ++ x ∷ []))
]

is_abs-append : (x : ℕ) (a t : Text) → is_abs ((x ∷ a) ++ t) ≡ is_abs (x ∷ a)
unfolding is_abs has_prefix
is_abs-append x a t = refl

-- The components of a joined path: those of the first element, with the second's entered.
pub join-parts :
    (x : ℕ) (a : Text) (y : ℕ) (b : Text)
    → (is_abs (join (x ∷ a) (y ∷ b)) ≡ is_abs (x ∷ a))
      × (parts (join (x ∷ a) (y ∷ b)) ≡ run (is_abs (x ∷ a)) (parts (x ∷ a)) (split (y ∷ b) slash))
unfolding join
join-parts x a y b =
    let whole = (x ∷ a) ++ slash ∷ y ∷ b in
    let (abs, same) = clean-parts whole in
    (
      abs ∙ is_abs-append x a (slash ∷ y ∷ b),
      same
          ∙ parts_lem whole (is_abs (x ∷ a)) (split (x ∷ a) slash ++ split (y ∷ b) slash)
              (is_abs-append x a (slash ∷ y ∷ b))
              (unfold split in split-append slash (x ∷ a) (y ∷ b) [])
          ∙ run-append (is_abs (x ∷ a)) [] (split (x ∷ a) slash) (split (y ∷ b) slash)
          ∙ ap (λ acc. run (is_abs (x ∷ a)) acc (split (y ∷ b) slash)) (sym (unfold parts in refl)),
    )
