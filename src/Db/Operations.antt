-- ===== src/Db/Operations.antt =====
-- core/batch.go: BatchInsert, BatchUpdate outside a transaction, BatchDelete and BatchDeleteByIDs.
use genus.Prelude.{
  ℕ, zero, suc, ◌+◌, Option, none, some, List, [], ◌∷◌, ◌++◌, inl, inr, map, codes, length, take,
  drop, if◌then◌else◌, positive_or, ◌==◌, bytes_eq,
}
use genus.Prelude.Dict.{Bytes}
use genus.Query.Sql.{Sql, Dialect, render}
use genus.Db.{
  before_save, before_create, before_update, before_delete, after_save, after_create, after_update,
  after_delete, Model, done, scan_error, rows_error, Driver, DbError, columns_failed,
  execute_failed, scan_failed, rows_failed, zero_id, no_rows, at_index, is_zero, names, update_sql,
}
use genus.Db.Batch.{
  BatchConfig, all_values, any_soft, collect_ids, delete_hook, delete_ids_sql, hooks_at,
  hooks_of_all, insert_sql, mark_deleted, set_ids, set_last_ids, soft_delete_ids_sql,
}

module _ {T V W E : Type 0} (model : Model T V E) (driver : Driver W V E) (d : Dialect) where
  -- The statement of insertBatch, and the ids that it gives.
  unfoldable pub run_insert : Bytes → List V → List T → W → List T × W × Option (DbError E)
  unfolding set_ids set_last_ids
  run_insert sql args ms w =
      let (w1, r) = driver.query_ids sql args w in
      let (w2, r') = driver.exec sql args w in
      if bytes_eq (d.placeholder 1) (codes "$1")
      then elim r [
        | inr e ↦ (ms, w1, some (execute_failed e))
        | inl (ids, done) ↦ (set_ids model ids ms, w1, none)
        | inl (ids, scan_error e) ↦ (set_ids model ids ms, w1, some (scan_failed e))
        | inl (ids, rows_error e) ↦ (set_ids model ids ms, w1, some (rows_failed e))
      ]
      else elim r' [
        | inr e ↦ (ms, w2, some (execute_failed e))
        | inl r ↦ (set_last_ids model r.last_insert_id ms, w2, none)
      ]

  -- insertBatch from the query on.
  unfoldable pub insert_models : List T → W → List T × W × Option (DbError E)
  unfolding insert_sql all_values run_insert
  insert_models [] w = ([], w, none)
  insert_models (m ∷ ms) w = elim (model.fields m) [
    | inr e ↦ (m ∷ ms, w, some (columns_failed e))
    | inl fields ↦ elim (all_values model 0 (m ∷ ms)) [
      | inr e ↦ (m ∷ ms, w, some e)
      | inl args ↦
          run_insert (render d (insert_sql d (model.table_name m) (names fields) (length (m ∷ ms))))
            args (m ∷ ms) w
    ]
  ]

  unfoldable pub insert_batch : BatchConfig → List T → W → List T × W × Option (DbError E)
  unfolding hooks_of_all insert_models
  insert_batch config ms w =
      let (ms1, err) = hooks_of_all model config.skip_hooks before_save before_create ms in
      let (ms2, w', err') = insert_models (map model.set_timestamps ms1) w in
      let (ms3, err'') = hooks_of_all model config.skip_hooks after_create after_save ms2 in
      elim err [
        | some e ↦ (ms1, w, some e)
        | none ↦ elim err' [ some e ↦ (ms2, w', some e) | none ↦ (ms3, w', err'') ]
      ]

  -- The loop of BatchInsertWithConfig, from index i on.
  unfoldable pub insert_from :
      BatchConfig → ℕ → ℕ → ℕ → List T → W → List T × W × Option (DbError E)
  unfolding insert_batch
  insert_from config size zero i ms w = (ms, w, none)
  insert_from config size (suc fuel) i [] w = ([], w, none)
  insert_from config size (suc fuel) i (m ∷ ms) w =
      let (batch, w', err) = insert_batch config (take size (m ∷ ms)) w in
      let (rest, w'', err') = insert_from config size fuel (i + size) (drop size (m ∷ ms)) w' in
      elim err [
        | some e ↦ (batch ++ drop size (m ∷ ms), w', some (at_index i e))
        | none ↦ (batch ++ rest, w'', err')
      ]

  -- There are at most as many batches as models.
  unfoldable pub batch_insert : BatchConfig → List T → W → List T × W × Option (DbError E)
  unfolding insert_from
  batch_insert config ms w =
      insert_from config (positive_or 100 config.batch_size) (length ms) 0 ms w

  -- UPDATE of one model.
  unfoldable pub update_at : ℕ → T → W → T × W × Option (DbError E)
  unfolding update_sql
  update_at i m w =
      let m' = model.set_updated_at m in
      if is_zero (model.get_id m')
      then (m', w, some (at_index i zero_id))
      else elim (model.fields m') [
        | inr e ↦ (m', w, some (at_index i (columns_failed e)))
        | inl fields ↦
            let (sql, args) =
              update_sql d (model.table_name m') fields (model.id_value (model.get_id m')) in
            let (w', r) = driver.exec (render d sql) args w in
            elim r [
              | inr e ↦ (m', w', some (at_index i (execute_failed e)))
              | inl r ↦ (m', w', none)
            ]
      ]

  -- One round of batchUpdateDirect.
  unfoldable pub update_one : BatchConfig → ℕ → T → W → T × W × Option (DbError E)
  unfolding hooks_at update_at
  update_one config i m w =
      let (m1, err) = hooks_at model config.skip_hooks i before_save before_update m in
      let (m2, w', err') = update_at i m1 w in
      let (m3, err'') = hooks_at model config.skip_hooks i after_update after_save m2 in
      elim err [
        | some e ↦ (m1, w, some e)
        | none ↦ elim err' [ some e ↦ (m2, w', some e) | none ↦ (m3, w', err'') ]
      ]

  unfoldable pub batch_update_direct :
      BatchConfig → ℕ → List T → W → List T × W × Option (DbError E)
  unfolding update_one
  batch_update_direct config i [] w = ([], w, none)
  batch_update_direct config i (m ∷ ms) w =
      let (m', w', err) = update_one config i m w in
      let (ms', w'', err') = batch_update_direct config (i + 1) ms w' in
      elim err [ some e ↦ (m' ∷ ms, w', some e) | none ↦ (m' ∷ ms', w'', err') ]

  -- The statement on a list of ids; an error of RowsAffected is ignored, with 0 rows.
  unfoldable pub run_delete : Sql → List V → W → W × Option (DbError E)
  run_delete sql args w =
      let (w', r) = driver.exec (render d sql) args w in
      elim r [
        | inr e ↦ (w', some (execute_failed e))
        | inl r ↦ elim r.rows_affected [
          | inr e ↦ (w', some no_rows)
          | inl n ↦ (w', if n == 0 then some no_rows else none)
        ]
      ]

  -- BatchDelete after its hooks, on the ids.
  unfoldable pub delete_models : V → List T → W → List T × W × Option (DbError E)
  unfolding collect_ids any_soft mark_deleted soft_delete_ids_sql delete_ids_sql run_delete
  delete_models now [] w = ([], w, none)
  delete_models now (m ∷ ms) w = elim (collect_ids model 0 (m ∷ ms)) [
    | inr e ↦ (m ∷ ms, w, some e)
    | inl ids ↦
        let soft = any_soft model (m ∷ ms) in
        let marked = if soft then mark_deleted model now (m ∷ ms) else m ∷ ms in
        let (w', err) =
          if soft
          then run_delete (soft_delete_ids_sql d (model.table_name m) (length ids)) (now ∷ ids) w
          else run_delete (delete_ids_sql d (model.table_name m) (length ids)) ids w in
        (marked, w', err)
  ]

  unfoldable pub batch_delete : BatchConfig → V → List T → W → List T × W × Option (DbError E)
  unfolding delete_models delete_hook
  batch_delete config now ms w =
      let (ms1, err) = delete_hook model config.skip_hooks before_delete ms in
      let (ms2, w', err') = delete_models now ms1 w in
      let (ms3, err'') = delete_hook model config.skip_hooks after_delete ms2 in
      elim err [
        | some e ↦ (ms1, w, some e)
        | none ↦ elim err' [ some e ↦ (ms2, w', some e) | none ↦ (ms3, w', err'') ]
      ]

  unfoldable pub batch_delete_by_ids : Bytes → List V → W → W × Option (DbError E)
  unfolding delete_ids_sql run_delete
  batch_delete_by_ids table [] w = (w, none)
  batch_delete_by_ids table (id ∷ ids) w =
      run_delete (delete_ids_sql d table (length (id ∷ ids))) (id ∷ ids) w
