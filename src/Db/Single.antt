-- ===== src/Db/Single.antt =====
-- core/db.go: Create, Update, Delete and ForceDelete.
use genus.Prelude.{
  Option, none, some, List, [], ◌∷◌, ◌++◌, inl, inr, codes, length, if◌then◌else◌, ◌==◌,
}
use genus.Prelude.Dict.{Bytes}
use genus.Query.Sql.{lit, param, Sql, Dialect, render}
use genus.Db.{
  before_save, before_create, before_update, before_delete, after_save, after_create, after_update,
  after_delete, Model, Result, Driver, DbError, columns_failed, execute_failed, affected_failed,
  zero_id, no_rows, is_zero, run_hook, run_two, column_list, placeholder_list, names, values,
  update_sql,
}

unfoldable pub create_sql : {V : Type 0} → Dialect → Bytes → List (Bytes × V) → Sql
unfolding column_list placeholder_list
create_sql d table fields =
    lit (codes "INSERT INTO ")
    ∷ lit (d.quote_identifier table)
    ∷ lit (codes " (")
    ∷ (column_list (names fields)
        ++ (lit (codes ") VALUES (")
            ∷ (placeholder_list 1 (length fields) ++ (lit (codes ") RETURNING id") ∷ []))))

unfoldable pub delete_one_sql : Dialect → Bytes → Sql
delete_one_sql d table =
    lit (codes "DELETE FROM ")
    ∷ lit (d.quote_identifier table)
    ∷ lit (codes " WHERE id = ")
    ∷ param 1
    ∷ []

module _ {T V W E : Type 0} (model : Model T V E) (driver : Driver W V E) (d : Dialect) where
  -- RowsAffected, and the error if it is 0.
  unfoldable pub check_affected : Result E → Option (DbError E)
  check_affected r = elim r.rows_affected [
    | inr e ↦ some (affected_failed e)
    | inl n ↦ if n == 0 then some no_rows else none
  ]

  -- Create after its hooks.
  unfoldable pub insert_row : T → W → T × W × Option (DbError E)
  unfolding create_sql
  insert_row m w =
      let m' = model.set_timestamps m in
      elim (model.fields m') [
        | inr e ↦ (m', w, some (columns_failed e))
        | inl fields ↦
            let (w', r) =
              driver.query_row (render d (create_sql d (model.table_name m) fields)) (values fields)
                w in
            elim r [
              | inr e ↦ (m', w', some (execute_failed e))
              | inl id ↦ (model.set_id id m', w', none)
            ]
      ]

  unfoldable pub create : T → W → T × W × Option (DbError E)
  unfolding insert_row run_two
  create m w =
      let (m1, err) = run_two model before_save before_create m in
      let (m2, w', err') = insert_row m1 w in
      let (m3, err'') = run_two model after_create after_save m2 in
      elim err [
        | some e ↦ (m1, w, some e)
        | none ↦ elim err' [ some e ↦ (m2, w', some e) | none ↦ (m3, w', err'') ]
      ]

  -- Update after its hooks.
  unfoldable pub update_row : T → W → T × W × Option (DbError E)
  unfolding update_sql check_affected
  update_row m w =
      let m' = model.set_updated_at m in
      if is_zero (model.get_id m) then (m, w, some zero_id) else elim (model.fields m') [
        | inr e ↦ (m', w, some (columns_failed e))
        | inl fields ↦
            let (sql, args) =
              update_sql d (model.table_name m) fields (model.id_value (model.get_id m)) in
            let (w', r) = driver.exec (render d sql) args w in
            elim r [
              | inr e ↦ (m', w', some (execute_failed e))
              | inl r ↦ (m', w', check_affected r)
            ]
      ]

  unfoldable pub update : T → W → T × W × Option (DbError E)
  unfolding update_row run_two
  update m w =
      let (m1, err) = run_two model before_save before_update m in
      let (m2, w', err') = update_row m1 w in
      let (m3, err'') = run_two model after_update after_save m2 in
      elim err [
        | some e ↦ (m1, w, some e)
        | none ↦ elim err' [ some e ↦ (m2, w', some e) | none ↦ (m3, w', err'') ]
      ]

  -- DELETE of the record with the model's id.
  unfoldable pub delete_row : T → W → W × Option (DbError E)
  unfolding delete_one_sql check_affected
  delete_row m w =
      let (w', r) =
        driver.exec (render d (delete_one_sql d (model.table_name m)))
          (model.id_value (model.get_id m) ∷ []) w in
      if is_zero (model.get_id m)
      then (w, some zero_id)
      else elim r [ inr e ↦ (w', some (execute_failed e)) | inl r ↦ (w', check_affected r) ]

  unfoldable pub force_delete : T → W → T × W × Option (DbError E)
  unfolding run_hook delete_row
  force_delete m w =
      let (m1, err) = run_hook model before_delete m in
      let (w', err') = delete_row m1 w in
      let (m2, err'') = run_hook model after_delete m1 in
      elim err [
        | some e ↦ (m1, w, some e)
        | none ↦ elim err' [ some e ↦ (m1, w', some e) | none ↦ (m2, w', err'') ]
      ]

  -- `now` is the value of deleted_at.
  unfoldable pub delete : V → T → W → T × W × Option (DbError E)
  unfolding update force_delete
  delete now m w =
      let (m1, err) = run_hook model before_delete m in
      let (m2, w', err') = update (model.set_deleted_at now m1) w in
      let (m3, err'') = run_hook model after_delete m2 in
      if model.soft_deletable m1
      then elim err [
        | some e ↦ (m1, w, some e)
        | none ↦ elim err' [ some e ↦ (m2, w', some e) | none ↦ (m3, w', err'') ]
      ]
      else force_delete m w
