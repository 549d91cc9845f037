-- ===== src/Common/Strings.antt =====
-- Text as the characters of a Go string (its bytes, where it is ASCII), and the functions of
-- package strings that the program calls.
use Prim.Native.Nat.{ℕ, ◌+◌}
use Prim.Native.Char.{code}
use Prim.Native.String.{String}
use mathlib.Core.Path.{◌≡◌, refl}
use mathlib.Core.Logic.{◌≢◌, ◌↔◌, inl, inr}
use mathlib.Core.Bool.{Bool, true, false, ◌&&◌, ◌||◌}
use mathlib.Core.List.{List, [], ◌∷◌, ◌++◌, append_assoc, append-nil}
use native.Mathlib.Omega.{arith}
use easyp_plugin_server.Common.Tests.{leb, ◌==◌, if◌then◌else◌, Bool-cases}
use easyp_plugin_server.Common.Lists.{All, All-append_inv}

abbrev pub Text : Type 0
Text = List ℕ

-- The code points of a literal; these are its bytes when the text is ASCII.
abbrev pub codes : String → Text
codes String.[] = []
codes (String.◌∷◌ c s) = code c ∷ codes s

unfoldable pub text_eq : Text → Text → Bool
text_eq [] [] = true
text_eq [] (y ∷ ys) = false
text_eq (x ∷ xs) [] = false
text_eq (x ∷ xs) (y ∷ ys) = x == y && text_eq xs ys

pub text_eq→eq : (s t : Text) → text_eq s t ≡ true → s ≡ t
unfolding text_eq
text_eq→eq [] [] h = refl
text_eq→eq [] (y ∷ ys) h = cc
text_eq→eq (x ∷ xs) [] h = cc
text_eq→eq (x ∷ xs) (y ∷ ys) h = ground (arith, text_eq→eq xs ys)

pub text_eq_refl : (s : Text) → text_eq s s ≡ true
unfolding text_eq
text_eq_refl [] = refl
text_eq_refl (x ∷ xs) = ground (arith, text_eq_refl xs)

pub text_eq_iff : (s t : Text) → (text_eq s t ≡ true) ↔ (s ≡ t)
text_eq_iff s t = (text_eq→eq s t, λ e. rw e (text_eq_refl t))

pub text_eq-ne : (s t : Text) → s ≢ t → text_eq s t ≡ false
text_eq-ne s t ne = elim (Bool-cases (text_eq s t)) [
  | inl e ↦ absurd (ne (text_eq→eq s t e))
  | inr e ↦ e
]

abbrev pub Lacks : ℕ → Text → Type 0
Lacks b = All (λ c. c ≢ b)

-- strings.Split by a separator of one byte: `cur` is the part that is being read.
unfoldable pub split_from : ℕ → Text → Text → List Text
split_from sep [] cur = cur ∷ []
split_from sep (c ∷ s) cur = elim (c == sep) [
  | true ↦ cur ∷ split_from sep s []
  | false ↦ split_from sep s (cur ++ c ∷ [])
]

unfoldable pub split : Text → ℕ → List Text
unfolding split_from
split s sep = split_from sep s []

pub split_from-append :
    (sep : ℕ) (p rest cur : Text)
    → Lacks sep p
    → split_from sep (p ++ rest) cur ≡ split_from sep rest (cur ++ p)
unfolding split_from
split_from-append sep [] rest cur h = rw append-nil
split_from-append sep (c ∷ p) rest cur h =
    ground (arith, split_from-append sep p rest (cur ++ c ∷ []), append_assoc cur (c ∷ []) p)

pub split_of_Lacks : (sep : ℕ) (p : Text) → Lacks sep p → split p sep ≡ p ∷ []
unfolding split
split_of_Lacks sep p h = rw (← append-nil p) (split_one_of (split_from-append sep p [] [] h))
  where
    split_one_of :
        split_from sep (p ++ []) [] ≡ split_from sep [] p
        → split_from sep (p ++ []) [] ≡ (p ++ []) ∷ []
    split_one_of e = rw (e, append-nil p) refl

pub split-append_sep :
    (sep : ℕ) (p rest : Text) → Lacks sep p → split (p ++ sep ∷ rest) sep ≡ p ∷ split rest sep
unfolding split
split-append_sep sep p rest h = rw (split_from-append sep p (sep ∷ rest) [] h) (ground (arith))

-- Every byte passes the test.
unfoldable pub every : (ℕ → Bool) → Text → Bool
every p [] = true
every p (c ∷ s) = p c && every p s

pub every-Lacks : (p : ℕ → Bool) (b : ℕ) (s : Text) → p b ≡ false → every p s ≡ true → Lacks b s
unfolding every
every-Lacks p b [] no_b h = tt
every-Lacks p b (c ∷ s) no_b h = ((λ e. cc (h, e, no_b)), every-Lacks p b s no_b (ground arith))

-- A byte that no part holds, and that is not the separator, is not in the text.
pub split_from-Lacks :
    (b sep : ℕ) (s cur : Text)
    → b ≢ sep
    → All (Lacks b) (split_from sep s cur)
    → Lacks b cur × Lacks b s
unfolding split_from
split_from-Lacks b sep [] cur ne h = (h.0, tt)
split_from-Lacks b sep (c ∷ s) cur ne h = elim (Bool-cases (c == sep)) [
  | inl e ↦
      let h' : All (Lacks b) (cur ∷ split_from sep s []) = rw (e, split_from) at h in
      (h'.0, ((λ q. ne (ground arith)), (split_from-Lacks b sep s [] ne h'.1).1))
  | inr e ↦
      let h' : All (Lacks b) (split_from sep s (cur ++ c ∷ [])) = rw (e, split_from) at h in
      let ih = split_from-Lacks b sep s (cur ++ c ∷ []) ne h' in
      let (before, last) = All-append_inv (λ x. x ≢ b) cur (c ∷ []) ih.0 in (before, (last.0, ih.1))
]

pub split-Lacks : (b sep : ℕ) (s : Text) → b ≢ sep → All (Lacks b) (split s sep) → Lacks b s
unfolding split
split-Lacks b sep s ne h = (split_from-Lacks b sep s [] ne h).1

-- unicode.IsSpace
unfoldable pub is_space : ℕ → Bool
is_space c =
    (leb 9 c && leb c 13)
    || c == 32
    || c == 0x85
    || c == 0xA0
    || c == 0x1680
    || (leb 0x2000 c && leb c 0x200A)
    || c == 0x2028
    || c == 0x2029
    || c == 0x202F
    || c == 0x205F
    || c == 0x3000

unfoldable pub trim_left : Text → Text
unfolding is_space
trim_left [] = []
trim_left (c ∷ s) = if is_space c then trim_left s else c ∷ s

-- A text of white space goes whole; any other keeps its last other character.
unfoldable pub trim_right : Text → Text
unfolding is_space every
trim_right [] = []
trim_right (c ∷ s) = if every is_space (c ∷ s) then [] else c ∷ trim_right s

-- strings.TrimSpace
unfoldable pub trim_space : Text → Text
unfolding trim_left trim_right
trim_space s = trim_right (trim_left s)

-- strings.HasPrefix
unfoldable pub has_prefix : Text → Text → Bool
has_prefix s [] = true
has_prefix [] (c ∷ p) = false
has_prefix (d ∷ s) (c ∷ p) = d == c && has_prefix s p

-- strings.Contains
unfoldable pub contains : Text → Text → Bool
unfolding has_prefix
contains [] p = has_prefix [] p
contains (c ∷ s) p = has_prefix (c ∷ s) p || contains s p

-- unicode.ToLower, as far as the result is ASCII: two other letters have ASCII lower forms.
unfoldable pub lower_char : ℕ → ℕ
lower_char c =
    if leb b'A' c && leb c b'Z'
    then c + 32
    else if c == 0x130
    then b'i'
    else if c == 0x212A
    then b'k'
    else c

-- strings.ToLower, to the same extent.
unfoldable pub to_lower : Text → Text
unfolding lower_char
to_lower [] = []
to_lower (c ∷ s) = lower_char c ∷ to_lower s

-- slices.Contains on texts.
unfoldable pub member : Text → List Text → Bool
unfolding text_eq
member t [] = false
member t (u ∷ us) = text_eq u t || member t us
