-- ===== src/Db.antt =====
-- core/db.go, core/batch.go and core/hooks.go: the statements on single records and on slices of them.
-- What reflection reads and writes in a model, the model's own hooks and the driver are parameters. A
-- model is changed through a pointer, so an operation returns it; the pointers of a slice are taken to
-- be different. Logging is left out.
pub mod Single
pub mod Batch
pub mod Operations
pub mod Transaction
pub mod Numbering
pub mod Inserted
pub mod Deleted
pub mod Upsert
pub mod Upserted
use genus.Prelude.{
  ℕ, zero, suc, ◌+◌, Bool, true, false, Option, none, some, List, [], ◌∷◌, ◌++◌, ◌⊎◌, inl, inr,
  codes, bytes_eq, length, if◌then◌else◌, ℤ, pos, negsuc,
}
use genus.Prelude.Dict.{Bytes}
use genus.Query.Sql.{Piece, lit, param, Sql, Dialect, join, render}

pub data Hook : Type 0 where
  before_save before_create before_update before_delete : Hook
  after_save after_create after_update after_delete : Hook

-- What reflection and the model's methods give, V being the values.
pub record Model (T V E : Type 0) : Type 0 where
  pub table_name : T → Bytes
  -- getColumnsAndValues
  pub fields : T → List (Bytes × V) ⊎ E
  pub get_id : T → ℤ
  pub set_id : ℤ → T → T
  pub id_value : ℤ → V
  pub set_timestamps : T → T
  pub set_updated_at : T → T
  -- `none` if the model does not implement the hook
  pub hook : Hook → T → Option (T × Option E)
  pub soft_deletable : T → Bool
  pub set_deleted_at : V → T → T

-- sql.Result; an error of LastInsertId or RowsAffected is kept in it.
pub record Result (E : Type 0) : Type 0 where
  pub last_insert_id : Option ℤ
  pub rows_affected : ℕ ⊎ E

pub data RowsEnd (E : Type 0) : Type 0 where
  done : RowsEnd E
  scan_error rows_error : E → RowsEnd E

-- The driver; W is the database.
pub record Driver (W V E : Type 0) : Type 0 where
  pub exec : Bytes → List V → W → W × (Result E ⊎ E)
  -- QueryContext, with the ids that are scanned
  pub query_ids : Bytes → List V → W → W × ((List ℤ × RowsEnd E) ⊎ E)
  -- QueryRowContext and Scan
  pub query_row : Bytes → List V → W → W × (ℤ ⊎ E)

pub data DbError (E : Type 0) : Type 0 where
  hook_failed : Hook → E → DbError E
  columns_failed : E → DbError E
  execute_failed : E → DbError E
  scan_failed : E → DbError E
  rows_failed : E → DbError E
  affected_failed : E → DbError E
  zero_id : DbError E
  no_rows : DbError E
  at_index : ℕ → DbError E → DbError E
  begin_failed commit_failed : E → DbError E
  rollback_failed : E → DbError E → DbError E

abbrev pub is_zero : ℤ → Bool
is_zero (pos zero) = true
is_zero (pos (suc n)) = false
is_zero (negsuc n) = false

module _ {T V E : Type 0} (model : Model T V E) where
  -- `if h, ok := model.(Hook); ok { if err := ... } }`
  unfoldable pub run_hook : Hook → T → T × Option (DbError E)
  run_hook h m = elim (model.hook h m) [
    | none ↦ (m, none)
    | some (m', none) ↦ (m', none)
    | some (m', some e) ↦ (m', some (hook_failed h e))
  ]

  -- Two hooks, the second if the first gives no error.
  unfoldable pub run_two : Hook → Hook → T → T × Option (DbError E)
  unfolding run_hook
  run_two first second m =
      let (m', err) = run_hook first m in
      let later = run_hook second m' in elim err [ some e ↦ (m', some e) | none ↦ later ]

-- "a, b, c" and "$k, $k+1, ..."
abbrev pub texts : List Bytes → List Sql
texts [] = []
texts (c ∷ cs) = (lit c ∷ []) ∷ texts cs

unfoldable pub column_list : List Bytes → Sql
column_list columns = join (lit (codes ", ") ∷ []) (texts columns)

abbrev pub placeholders_from : ℕ → ℕ → List Sql
placeholders_from k zero = []
placeholders_from k (suc n) = (param k ∷ []) ∷ placeholders_from (k + 1) n

unfoldable pub placeholder_list : ℕ → ℕ → Sql
placeholder_list k n = join (lit (codes ", ") ∷ []) (placeholders_from k n)

abbrev pub names : {V : Type 0} → List (Bytes × V) → List Bytes
names [] = []
names ((name, v) ∷ fields) = name ∷ names fields

abbrev pub values : {V : Type 0} → List (Bytes × V) → List V
values [] = []
values ((name, v) ∷ fields) = v ∷ values fields

-- The fields but for the column id.
abbrev pub without_id : {V : Type 0} → List (Bytes × V) → List (Bytes × V)
without_id [] = []
without_id ((name, v) ∷ fields) =
    let rest = without_id fields in if bytes_eq name (codes "id") then rest else (name, v) ∷ rest

-- `col = $j`
abbrev pub set_parts_from : ℕ → List Bytes → List Sql
set_parts_from k [] = []
set_parts_from k (c ∷ cs) = (lit c ∷ lit (codes " = ") ∷ param k ∷ []) ∷ set_parts_from (k + 1) cs

-- UPDATE of all the fields but the id, and its arguments.
unfoldable pub update_sql : {V : Type 0} → Dialect → Bytes → List (Bytes × V) → V → Sql × List V
update_sql d table fields id =
    let kept = without_id fields in
    (
      lit (codes "UPDATE ")
          ∷ lit (d.quote_identifier table)
          ∷ lit (codes " SET ")
          ∷ (join (lit (codes ", ") ∷ []) (set_parts_from 1 (names kept))
              ++ (lit (codes " WHERE id = ") ∷ param (length (values kept ++ (id ∷ []))) ∷ [])),
      values kept ++ (id ∷ []),
    )
