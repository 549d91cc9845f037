-- ===== src/Audit/Store/Bound.antt =====
-- internal/adapters/audit/audit.go: the placeholders of a row stand for the values of its entry.
use easyp_plugin_server.Common.{
  ℕ, zero, suc, ◌+◌, ◌*◌, ◌≡◌, refl, ap, ◌∙◌, sym, List, [], ◌∷◌, ◌++◌, Option, none, some, length,
  length-append, append_assoc, map, arith,
}
use easyp_plugin_server.Audit.Store.{
  TableColumn, Columns, columns_per_entry, insert_prefix, metadata_of, entry_args, placeholders,
  insert_from, build_insert,
}

-- The argument that the database binds to a placeholder, which count from 1.
abbrev pub bound {κ} : {Value : Type κ} → List Value → ℕ → Option Value
bound [] n = none
bound (v ∷ args) zero = none
bound (v ∷ args) (suc zero) = some v
bound (v ∷ args) (suc (suc n)) = bound args (suc n)

bound-append :
    {Value : Type 0} (front : List Value) (v : Value) (back : List Value)
    → bound (front ++ v ∷ back) (suc (length front)) ≡ some v
bound-append [] v back = refl
bound-append (u ∷ front) v back = bound-append front v back

placeholders-bound :
    {Entry Value : Type 0} (columns : Columns Entry Value) (row col : ℕ)
    (front vs back : List Value)
    → length front ≡ row * columns_per_entry + col
    → map (bound (front ++ (vs ++ back))) (placeholders columns row col (length vs)) ≡ map some vs
unfolding placeholders
placeholders-bound columns row col front [] back h = refl
placeholders-bound columns row col front (v ∷ vs) back h =
    let here : row * columns_per_entry + col + 1 ≡ suc (length front) = omega (arith, h) in
    let next =
      placeholders-bound columns row (suc col) (front ++ v ∷ []) vs back
        (omega (arith, h, length-append front (v ∷ []))) in
    let same = append_assoc front (v ∷ []) (vs ++ back) in
    ap
      (λ b.
        b
        ∷ map (bound (front ++ v ∷ (vs ++ back))) (placeholders columns row (suc col) (length vs)))
      (ap (bound (front ++ v ∷ (vs ++ back))) here ∙ bound-append front v (vs ++ back))
    ∙ ap (λ l. some v ∷ l)
        (ap (λ args. map (bound args) (placeholders columns row (suc col) (length vs))) (sym same)
          ∙ next)

-- The value that an entry has for a column of the table.
abbrev pub value_for : {Entry Value : Type 0} → Columns Entry Value → Entry → TableColumn → Value
value_for columns entry TableColumn.id = columns.id entry
value_for columns entry TableColumn.operation_type = columns.operation_type entry
value_for columns entry TableColumn.plugin_name = columns.plugin_name entry
value_for columns entry TableColumn.caller_address = columns.caller_address entry
value_for columns entry TableColumn.status = columns.status entry
value_for columns entry TableColumn.error_code = columns.error_code entry
value_for columns entry TableColumn.error_message = columns.error_message entry
value_for columns entry TableColumn.duration_ms = columns.duration_ms entry
value_for columns entry TableColumn.metadata = elim (columns.metadata entry) [
  | none ↦ columns.empty_object
  | some value ↦ value
]
value_for columns entry TableColumn.created_at = columns.created_at entry

-- What a row is to be given: for each column that the statement names, the value of the entry.
abbrev pub stored :
    {Entry Value : Type 0} → Columns Entry Value → List Entry → List (List (Option Value))
stored columns [] = []
stored columns (entry ∷ entries) =
    map (λ c. some (value_for columns entry c)) insert_prefix ∷ stored columns entries

args-insert_prefix :
    {Entry Value : Type 0} (columns : Columns Entry Value) (entry : Entry)
    → map some (entry_args columns entry)
      ≡ map (λ c. some (value_for columns entry c)) insert_prefix
unfolding entry_args metadata_of insert_prefix
args-insert_prefix columns entry = refl

insert_from-bound :
    {Entry Value : Type 0} (columns : Columns Entry Value) (row : ℕ) (front : List Value)
    (entries : List Entry)
    → length front ≡ row * columns_per_entry
    → map
        (map (bound (front ++ (insert_from columns row entries).1)))
        (insert_from columns row entries).0
      ≡ stored columns entries
unfolding insert_from entry_args
insert_from-bound columns row front [] h = refl
insert_from-bound columns row front (entry ∷ entries) h =
    let args = entry_args columns entry in
    let rest = insert_from columns (suc row) entries in
    let first = placeholders-bound columns row 0 front args rest.1 (omega (arith, h)) in
    let next =
      insert_from-bound columns (suc row) (front ++ args) entries
        (omega (arith, h, length-append front args)) in
    ap (λ r. r ∷ map (map (bound (front ++ (args ++ rest.1)))) rest.0)
      (first ∙ args-insert_prefix columns entry)
    ∙ ap (λ rows. map (λ c. some (value_for columns entry c)) insert_prefix ∷ rows)
        (ap (λ all. map (map (bound all)) rest.0) (sym (append_assoc front args rest.1)) ∙ next)

-- The placeholders of each row of the statement are bound, column by column in the order in which the
-- statement names them, to what its own entry has for that column.
pub build_insert-stored :
    {Entry Value : Type 0} (columns : Columns Entry Value) (entries : List Entry)
    → map (map (bound (build_insert columns entries).1)) (build_insert columns entries).0
      ≡ stored columns entries
unfolding build_insert
build_insert-stored columns entries = insert_from-bound columns 0 [] entries refl
