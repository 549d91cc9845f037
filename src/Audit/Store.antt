-- ===== src/Audit/Store.antt =====
-- internal/adapters/audit/audit.go: the statement that stores a batch of entries. The database and
-- encoding/json are parameters.
pub mod Bound
use easyp_plugin_server.Common.{
  ℕ, zero, suc, ◌+◌, ◌*◌, List, [], ◌∷◌, ◌++◌, Option, none, some, Bool, true, false, Result, ok,
  err, map,
}

-- columnsPerEntry
abbrev pub columns_per_entry : ℕ
columns_per_entry = 10

-- A column of the table audit_log.
pub data TableColumn : Type 0 where
  id operation_type plugin_name caller_address status : TableColumn
  error_code error_message duration_ms metadata created_at : TableColumn

-- insertPrefix: the columns that the values of a row are for, in order.
unfoldable pub insert_prefix : List TableColumn
insert_prefix =
    TableColumn.id ∷ TableColumn.operation_type ∷ TableColumn.plugin_name
    ∷ TableColumn.caller_address ∷ TableColumn.status ∷ TableColumn.error_code
    ∷ TableColumn.error_message ∷ TableColumn.duration_ms ∷ TableColumn.metadata
    ∷ TableColumn.created_at ∷ []

-- The values that buildInsert appends for an entry, in the order of the columns of insertPrefix;
-- `metadata` is none where the metadata cannot be marshalled, and then an empty object is bound.
pub record Columns {ℓ κ} (Entry : Type ℓ) (Value : Type κ) : Type (ℓ ⊔ κ) where
  pub id : Entry → Value
  pub operation_type : Entry → Value
  pub plugin_name : Entry → Value
  pub caller_address : Entry → Value
  pub status : Entry → Value
  pub error_code : Entry → Value
  pub error_message : Entry → Value
  pub duration_ms : Entry → Value
  pub metadata : Entry → Option Value
  pub created_at : Entry → Value
  pub empty_object : Value

module _ {ℓ κ} {Entry : Type ℓ} {Value : Type κ} (columns : Columns Entry Value) where
  unfoldable pub metadata_of : Entry → Value
  metadata_of entry = elim (columns.metadata entry) [
    | none ↦ columns.empty_object
    | some value ↦ value
  ]

  -- The arguments of one entry.
  unfoldable pub entry_args : Entry → List Value
  unfolding metadata_of
  entry_args entry =
      columns.id entry
      ∷ columns.operation_type entry
      ∷ columns.plugin_name entry
      ∷ columns.caller_address entry
      ∷ columns.status entry
      ∷ columns.error_code entry
      ∷ columns.error_message entry
      ∷ columns.duration_ms entry
      ∷ metadata_of entry
      ∷ columns.created_at entry
      ∷ []

  -- The loop over the columns of a row, `left` of them from `col` on: the placeholders.
  unfoldable pub placeholders : ℕ → ℕ → ℕ → List ℕ
  placeholders row col zero = []
  placeholders row col (suc left) =
      (row * columns_per_entry + col + 1) ∷ placeholders row (suc col) left

  -- buildInsert, the loop: the placeholders of each row, and the arguments.
  unfoldable pub insert_from : ℕ → List Entry → List (List ℕ) × List Value
  unfolding placeholders entry_args
  insert_from row [] = ([], [])
  insert_from row (entry ∷ entries) =
      let (rows, args) = insert_from (suc row) entries in
      (placeholders row 0 columns_per_entry ∷ rows, entry_args entry ++ args)

  -- buildInsert
  unfoldable pub build_insert : List Entry → List (List ℕ) × List Value
  unfolding insert_from
  build_insert entries = insert_from 0 entries

  -- SaveBatch; `exec` runs the statement. No entries are no statement.
  unfoldable pub save_batch {μ ν} :
      {E : Type μ} {D : Type ν}
      → (exec : List (List ℕ) × List Value → D → Result E D) → List Entry
      → D
      → Result E D
  unfolding build_insert
  save_batch exec [] db = ok db
  save_batch exec (entry ∷ entries) db = exec (build_insert (entry ∷ entries)) db
