-- ===== src/Paths.antt =====
-- Package path/filepath on a system whose separator is the slash, as the program uses it: Clean,
-- Join, Dir and IsAbs, over the components of a path.
pub mod Normal
pub mod Cleaned
use easyp_plugin_server.Common.{
  ℕ, Bool, true, false, not, ◌||◌, List, [], ◌∷◌, ◌++◌, Text, codes, text_eq, split, has_prefix,
  ◌==◌, if◌then◌else◌,
}

abbrev pub slash : ℕ
slash = b'/'

abbrev pub dot : Text
dot = b'.' ∷ []

abbrev pub dotdot : Text
dotdot = b'.' ∷ b'.' ∷ []

unfoldable pub is_abs : Text → Bool
is_abs p = has_prefix p (slash ∷ [])

-- An empty component, or a dot, stands for nothing.
unfoldable pub is_void : Text → Bool
unfolding text_eq
is_void c = text_eq c [] || text_eq c dot

-- One step up from these components; the root has nothing above it.
unfoldable pub back : Bool → List Text → List Text
unfolding text_eq
back true [] = []
back false [] = dotdot ∷ []
back rooted (c ∷ []) = if text_eq c dotdot then c ∷ dotdot ∷ [] else []
back rooted (c ∷ d ∷ cs) = c ∷ back rooted (d ∷ cs)

-- The components so far, and one more.
unfoldable pub enter : Bool → List Text → Text → List Text
unfolding is_void back
enter rooted acc c =
    if is_void c then acc else if text_eq c dotdot then back rooted acc else acc ++ c ∷ []

unfoldable pub run : Bool → List Text → List Text → List Text
unfolding enter
run rooted acc [] = acc
run rooted acc (c ∷ cs) = run rooted (enter rooted acc c) cs

-- The components of a cleaned path.
unfoldable pub parts : Text → List Text
unfolding run is_abs
parts p = run (is_abs p) [] (split p slash)

unfoldable pub join_parts : List Text → Text
join_parts [] = []
join_parts (c ∷ []) = c
join_parts (c ∷ d ∷ cs) = c ++ slash ∷ join_parts (d ∷ cs)

unfoldable pub render : Bool → List Text → Text
unfolding join_parts
render true cs = slash ∷ join_parts cs
render false [] = dot
render false (c ∷ cs) = join_parts (c ∷ cs)

-- filepath.Clean
unfoldable pub clean : Text → Text
unfolding render parts
clean p = render (is_abs p) (parts p)

-- filepath.Join of two elements
unfoldable pub join : Text → Text → Text
unfolding clean
join [] [] = []
join [] (d ∷ b) = clean (d ∷ b)
join (c ∷ a) [] = clean (c ∷ a)
join (c ∷ a) (d ∷ b) = clean ((c ∷ a) ++ slash ∷ d ∷ b)

-- Everything up to the last slash, the slash included.
unfoldable pub up_to_slash : Text → Text
unfolding text_eq
up_to_slash [] = []
up_to_slash (c ∷ p) =
    let rest = up_to_slash p in if not (text_eq rest []) || c == slash then c ∷ rest else []

-- filepath.Dir
unfoldable pub dir : Text → Text
unfolding up_to_slash clean
dir p = clean (up_to_slash p)

unfoldable pub skip_empty : List Text → List Text
skip_empty [] = []
skip_empty ([] ∷ elements) = skip_empty elements
skip_empty ((c ∷ e) ∷ elements) = (c ∷ e) ∷ elements

-- filepath.Join and path.Join of any number of elements
unfoldable pub join_all : List Text → Text
unfolding skip_empty join_parts clean
join_all elements = elim (skip_empty elements) [
  | [] ↦ []
  | e ∷ rest ↦ clean (join_parts (e ∷ rest))
]
