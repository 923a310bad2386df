-- ===== src/Db/Deleted.antt =====
-- core/batch.go, BatchDelete: what it runs.
use genus.Prelude.{
  ℕ, ◌+◌, ◌≡◌, refl, false, List, [], ◌∷◌, ◌⊎◌, inl, inr, length, if◌then◌else◌, Bool-cases,
  Option-cases, sum_cases, All,
}
use genus.Query.Sql.{Sql, Dialect, render, params, range}
use genus.Db.{before_delete, Model, Driver, DbError, zero_id, at_index, is_zero}
use genus.Db.Batch.{
  BatchConfig, collect_ids, any_soft, delete_ids_sql, soft_delete_ids_sql, delete_hook,
}
use genus.Db.Operations.{run_delete, delete_models, batch_delete}
use genus.Db.Numbering.{params-delete_ids_sql, params-soft_delete_ids_sql}
use genus.Prelude.Dict.{Bytes}

module _ {T V E : Type 0} (model : Model T V E) where
  abbrev pub HasId : T → Type 0
  HasId m = is_zero (model.get_id m) ≡ false

  -- The ids of the models, in order.
  abbrev pub ids_of : List T → List V
  ids_of [] = []
  ids_of (m ∷ ms) = model.id_value (model.get_id m) ∷ ids_of ms

  collect_ids_lem :
      (i : ℕ) (ms : List T)
      → ((collect_ids model i ms ≡ inl (ids_of ms)) × All HasId ms)
        ⊎ ((e : DbError E) × (collect_ids model i ms ≡ inr e))
  unfolding collect_ids
  collect_ids_lem i [] = inl (refl, tt)
  collect_ids_lem i (m ∷ ms) = elim (Bool-cases (is_zero (model.get_id m))) [
    | inl z ↦ inr (at_index i zero_id, rw (z, collect_ids) refl)
    | inr z ↦ elim (collect_ids_lem (i + 1) ms) [
      | inl (e, h) ↦ inl (rw (z, collect_ids) (rw (e, collect_ids) refl), (z, h))
      | inr (err, e) ↦ inr (err, rw (z, collect_ids) (rw (e, collect_ids) refl))
    ]
  ]

module _ {T V W E : Type 0} (model : Model T V E) (driver : Driver W V E) (d : Dialect) where
  -- The first model's table.
  abbrev pub table_of : List T → Bytes
  table_of [] = []
  table_of (m ∷ ms) = model.table_name m

  -- The UPDATE of a soft deletion, with the time before the ids, if some model is deleted softly, and
  -- otherwise the DELETE, with the ids.
  abbrev pub statement_of : V → List T → Sql × List V
  statement_of now ms =
      if any_soft model ms
      then (soft_delete_ids_sql d (table_of ms) (length (ids_of model ms)), now ∷ ids_of model ms)
      else (delete_ids_sql d (table_of ms) (length (ids_of model ms)), ids_of model ms)

  -- That statement alone, with its placeholders numbered along its arguments.
  abbrev pub Deletes : V → List T → W → W → Type 0
  Deletes now ms w w' =
      let (sql, args) = statement_of now ms in
      (w' ≡ (driver.exec (render d sql) args w).0) × (params sql ≡ range 1 (length args))

  run_delete_world :
      (sql : Sql) (args : List V) (w : W)
      → (run_delete model driver d sql args w).0 ≡ (driver.exec (render d sql) args w).0
  unfolding run_delete
  run_delete_world sql args w = elim (sum_cases (driver.exec (render d sql) args w).1) [
    | inr (e, p) ↦ rw (p, run_delete) refl
    | inl (r, p) ↦ elim (sum_cases r.rows_affected) [
      | inr (e, q) ↦ rw (p, run_delete) (rw (q, run_delete) refl)
      | inl (n, q) ↦ rw (p, run_delete) (rw (q, run_delete) refl)
    ]
  ]

  delete_models_once :
      (now : V) (ms : List T) (w : W)
      → ((delete_models model driver d now ms w).1 ≡ w)
        ⊎ (All (HasId model) ms × Deletes now ms w (delete_models model driver d now ms w).1)
  unfolding delete_models
  delete_models_once now [] w = inl refl
  delete_models_once now (m ∷ ms) w = elim (collect_ids_lem model 0 (m ∷ ms)) [
    | inr (e, c) ↦ inl (rw (c, delete_models) refl)
    | inl (c, h) ↦
        let ids : List V = ids_of model (m ∷ ms) in
        elim (Bool-cases (any_soft model (m ∷ ms))) [
          | inl s ↦
              let sql : Sql = soft_delete_ids_sql d (model.table_name m) (length ids) in
              inr (
                h,
                rw (c, delete_models)
                    (rw (s, delete_models, statement_of)
                      (
                        run_delete_world sql (now ∷ ids) w,
                        params-soft_delete_ids_sql d (model.table_name m) (length ids),
                      )),
              )
          | inr s ↦
              let sql : Sql = delete_ids_sql d (model.table_name m) (length ids) in
              inr (
                h,
                rw (c, delete_models)
                    (rw (s, delete_models, statement_of)
                      (
                        run_delete_world sql ids w,
                        params-delete_ids_sql d (model.table_name m) (length ids),
                      )),
              )
        ]
  ]

  -- BatchDelete leaves the database as it is, or none of the models has the id zero and it runs one
  -- statement on it: if one of them is deleted softly the UPDATE of the soft deletion, whose arguments
  -- are the time and then the ids of all models in order, and otherwise the DELETE, whose arguments are
  -- the ids alone, in both cases on the first model's table, with the placeholders numbered from 1, one
  -- for each argument. The models are those that the BeforeDelete hooks leave.
  pub batch_delete_once :
      (config : BatchConfig) (now : V) (ms : List T) (w : W)
      → let hooked = (delete_hook model config.skip_hooks before_delete ms).0 in
        let w' = (batch_delete model driver d config now ms w).1 in
        (w' ≡ w) ⊎ (All (HasId model) hooked × Deletes now hooked w w')
  unfolding batch_delete
  batch_delete_once config now ms w =
      let hooks = delete_hook model config.skip_hooks before_delete ms in
      let deleted = delete_models model driver d now hooks.0 w in
      elim (Option-cases hooks.1) [
        | inr (e, h) ↦ inl (rw (h, batch_delete) refl)
        | inl h ↦ elim (Option-cases deleted.2) [
          | inr (e, k) ↦
              rw (h, batch_delete) (rw (k, batch_delete) (delete_models_once now hooks.0 w))
          | inl k ↦ rw (h, batch_delete) (rw (k, batch_delete) (delete_models_once now hooks.0 w))
        ]
      ]
