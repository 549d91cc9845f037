-- ===== src/Config/Diagnostics/Distance.antt =====
-- The two rows of editDistance compute the Levenshtein distance.
use easyp_plugin_server.Common.{
  ℕ, suc, ◌+◌, ◌≡◌, refl, sym, ap, ◌∙◌, List, [], ◌∷◌, Text, text_eq, text_eq→eq, arith, Bool-cases,
  ◌==◌, ==_refl, length, min, if◌then◌else◌, inl, inr,
}
use easyp_plugin_server.Config.Diagnostics.{
  first_row, next_entries, next_row, rows_from, last_entry, edit_distance,
}

-- The distance of two texts that are written from their ends: an insertion, a deletion and a
-- replacement each cost one.
abbrev pub levenshtein : Text → Text → ℕ
levenshtein [] ys = length ys
levenshtein (x ∷ xs) [] = suc (length xs)
levenshtein (x ∷ xs) (y ∷ ys) =
    min (levenshtein xs (y ∷ ys) + 1)
      (min (levenshtein (x ∷ xs) ys + 1) (levenshtein xs ys + (if x == y then 0 else 1)))

-- A text written from its end, in front of another.
abbrev pub from_end : Text → Text → Text
from_end [] acc = acc
from_end (c ∷ s) acc = from_end s (c ∷ acc)

-- The row of the distances of a text to the growing other.
abbrev row_of : Text → Text → Text → List ℕ
row_of done seen [] = levenshtein done seen ∷ []
row_of done seen (y ∷ right) = levenshtein done seen ∷ row_of done (y ∷ seen) right

abbrev tail_of : Text → Text → Text → List ℕ
tail_of done seen [] = []
tail_of done seen (y ∷ right) = row_of done (y ∷ seen) right

row_of_lem :
    (done seen right : Text)
    → row_of done seen right ≡ levenshtein done seen ∷ tail_of done seen right
row_of_lem done seen [] = refl
row_of_lem done seen (y ∷ right) = refl

first_row_lem : (seen right : Text) → first_row (length seen) right ≡ row_of [] seen right
unfolding first_row
first_row_lem seen [] = refl
first_row_lem seen (y ∷ right) = ap (λ l. length seen ∷ l) (first_row_lem (y ∷ seen) right)

next_entries_lem :
    (x : ℕ) (done seen right : Text)
    → next_entries x
        (levenshtein (x ∷ done) seen)
        (levenshtein done seen)
        right
        (tail_of done seen right)
      ≡ tail_of (x ∷ done) seen right
unfolding next_entries
next_entries_lem x done seen [] = refl
next_entries_lem x done seen (y ∷ right) =
    ap (next_entries x (levenshtein (x ∷ done) seen) (levenshtein done seen) (y ∷ right))
      (row_of_lem done (y ∷ seen) right)
    ∙ ap (λ l. levenshtein (x ∷ done) (y ∷ seen) ∷ l) (next_entries_lem x done (y ∷ seen) right)
    ∙ sym (row_of_lem (x ∷ done) (y ∷ seen) right)

next_row_lem :
    (x : ℕ) (done right : Text)
    → next_row (suc (length done)) x right (row_of done [] right) ≡ row_of (x ∷ done) [] right
unfolding next_row
next_row_lem x done right =
    ap (next_row (suc (length done)) x right) (row_of_lem done [] right)
    ∙ ap (λ l. suc (length done) ∷ l) (next_entries_lem x done [] right)
    ∙ sym (row_of_lem (x ∷ done) [] right)

rows_from_lem :
    (done left right : Text)
    → rows_from (suc (length done)) left right (row_of done [] right)
      ≡ row_of (from_end left done) [] right
unfolding rows_from
rows_from_lem done [] right = refl
rows_from_lem done (x ∷ left) right =
    ap (rows_from (suc (suc (length done))) left right) (next_row_lem x done right)
    ∙ rows_from_lem (x ∷ done) left right

last_entry_lem :
    (done seen right : Text)
    → last_entry (row_of done seen right) ≡ levenshtein done (from_end right seen)
unfolding last_entry
last_entry_lem done seen [] = refl
last_entry_lem done seen (y ∷ right) =
    ap (λ l. last_entry (levenshtein done seen ∷ l)) (row_of_lem done (y ∷ seen) right)
    ∙ ap last_entry (sym (row_of_lem done (y ∷ seen) right))
    ∙ last_entry_lem done (y ∷ seen) right

levenshtein_self : (s : Text) → levenshtein s s ≡ 0
levenshtein_self [] = refl
levenshtein_self (x ∷ s) = rw (==_refl x, levenshtein_self s) (omega arith)

-- The distance that the suggestions are ranked by, computed with two rows, is the Levenshtein distance
-- of the two texts, as its recursion from the ends of the texts describes it.
pub edit_distance_lem :
    (left right : Text)
    → edit_distance left right ≡ levenshtein (from_end left []) (from_end right [])
unfolding edit_distance
edit_distance_lem left right = elim (Bool-cases (text_eq left right)) [
  | inl same ↦
      rw (same, edit_distance)
        (sym (levenshtein_self (from_end left []))
          ∙ ap (λ s. levenshtein (from_end left []) (from_end s [])) (text_eq→eq left right same))
  | inr other ↦
      rw (other, edit_distance)
        (ap (λ row. last_entry (rows_from 1 left right row)) (first_row_lem [] right)
          ∙ ap last_entry (rows_from_lem [] left right)
          ∙ last_entry_lem (from_end left []) [] right)
]
