-- ===== src/Config/Diagnostics.antt =====
-- internal/config/diagnostics.go: the suggestion for a key that is not known.
pub mod Distance
pub mod Nearest
use easyp_plugin_server.Common.{
  ℕ, zero, suc, ◌+◌, ◌-◌, ◌≤◌, Bool, true, false, ◌&&◌, ◌||◌, List, [], ◌∷◌, Option, none, some,
  Text, text_eq, ltb, leb, ◌==◌, length, min, if◌then◌else◌,
}

-- normalise
unfoldable pub normalise : Text → Text
normalise [] = []
normalise (c ∷ s) =
    let rest = normalise s in
    if c == b'_' || c == b'-'
    then rest
    else if leb b'A' c && leb c b'Z'
    then (c - b'A' + b'a') ∷ rest
    else c ∷ rest

-- The first row of the distances: 0, 1, …, n columns on from `col`.
unfoldable pub first_row : ℕ → Text → List ℕ
first_row col [] = col ∷ []
first_row col (c ∷ right) = col ∷ first_row (suc col) right

-- The inner loop: the rest of a row, behind an entry `before` of it, from the entries of the row
-- above that stand over `before` and behind.
unfoldable pub next_entries : ℕ → ℕ → ℕ → Text → List ℕ → List ℕ
next_entries x before diagonal [] above = []
next_entries x before diagonal (y ∷ right) [] = []
next_entries x before diagonal (y ∷ right) (up ∷ above) =
    let cost : ℕ = if x == y then 0 else 1 in
    let entry = min (up + 1) (min (before + 1) (diagonal + cost)) in
    entry ∷ next_entries x entry up right above

unfoldable pub next_row : ℕ → ℕ → Text → List ℕ → List ℕ
unfolding next_entries
next_row row x right [] = []
next_row row x right (diagonal ∷ above) = row ∷ next_entries x row diagonal right above

-- The outer loop.
unfoldable pub rows_from : ℕ → Text → Text → List ℕ → List ℕ
unfolding next_row
rows_from row [] right previous = previous
rows_from row (x ∷ left) right previous =
    rows_from (suc row) left right (next_row row x right previous)

unfoldable pub last_entry : List ℕ → ℕ
last_entry [] = 0
last_entry (e ∷ []) = e
last_entry (e ∷ f ∷ row) = last_entry (f ∷ row)

-- editDistance
unfoldable pub edit_distance : Text → Text → ℕ
unfolding text_eq first_row rows_from last_entry
edit_distance left right =
    if text_eq left right then 0 else last_entry (rows_from 1 left right (first_row 0 right))

abbrev pub max_hint_distance : ℕ
max_hint_distance = 2

-- The first loop of bestMatch.
unfoldable pub same_spelling : Text → List Text → Option Text
unfolding normalise text_eq
same_spelling key [] = none
same_spelling key (candidate ∷ candidates) =
    let rest = same_spelling key candidates in
    if text_eq (normalise candidate) (normalise key) then some candidate else rest

-- The second loop, with the best candidate so far and its distance.
unfoldable pub nearest_from : Text → Text → ℕ → List Text → Text × ℕ
unfolding edit_distance normalise
nearest_from key best distance [] = (best, distance)
nearest_from key best distance (candidate ∷ candidates) =
    let d = edit_distance (normalise key) (normalise candidate) in
    let closer = nearest_from key candidate d candidates in
    let further = nearest_from key best distance candidates in
    if ltb d distance then closer else further

-- bestMatch
unfoldable pub best_match : Text → List Text → Option Text
unfolding same_spelling nearest_from
best_match key candidates = elim (same_spelling key candidates) [
  | some candidate ↦ some candidate
  | none ↦
      let (best, distance) = nearest_from key [] (max_hint_distance + 1) candidates in
      if leb distance max_hint_distance then some best else none
]
