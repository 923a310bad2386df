-- ===== src/Db/Batch.antt =====
-- core/batch.go: the statements of the batch operations, and what they do with the models alone.
use genus.Prelude.{
  ℕ, zero, suc, ◌+◌, Bool, false, ◌||◌, Option, none, some, List, [], ◌∷◌, ◌++◌, ◌⊎◌, inl, inr,
  codes, length, if◌then◌else◌, ℤ, pos, negsuc, bytes_eq,
}
use genus.Prelude.Dict.{Bytes}
use genus.Query.Sql.{lit, param, Sql, Dialect, join}
use genus.Db.{
  Hook, Model, DbError, columns_failed, zero_id, at_index, is_zero, run_hook, run_two, column_list,
  placeholder_list, values,
}

pub record BatchConfig : Type 0 where
  pub batch_size : ℤ
  pub skip_hooks : Bool

unfoldable pub default_batch_config : BatchConfig
default_batch_config = record { batch_size = pos 100; skip_hooks = false }

-- "($k, ...), ($l, ...)": as many rows, of as many columns.
abbrev pub row_parts : ℕ → ℕ → ℕ → List Sql
row_parts columns k zero = []
row_parts columns k (suc rows) =
    (lit (codes "(") ∷ (placeholder_list k columns ++ (lit (codes ")") ∷ [])))
    ∷ row_parts columns (k + columns) rows

-- INSERT of several rows, with RETURNING id where a placeholder is $1.
unfoldable pub insert_sql : Dialect → Bytes → List Bytes → ℕ → Sql
unfolding column_list
insert_sql d table columns rows =
    lit (codes "INSERT INTO ")
    ∷ lit (d.quote_identifier table)
    ∷ lit (codes " (")
    ∷ (column_list columns
        ++ (lit (codes ") VALUES ")
            ∷ (join (lit (codes ", ") ∷ []) (row_parts (length columns) 1 rows)
                ++ (if bytes_eq (d.placeholder 1) (codes "$1")
                    then lit (codes " RETURNING id") ∷ []
                    else []))))

-- "table WHERE id IN ($k, ...)"
abbrev pub in_ids : Dialect → Bytes → ℕ → ℕ → Sql
in_ids d prefix k n =
    lit prefix ∷ lit (codes " WHERE id IN (") ∷ (placeholder_list k n ++ (lit (codes ")") ∷ []))

unfoldable pub delete_ids_sql : Dialect → Bytes → ℕ → Sql
unfolding placeholder_list
delete_ids_sql d table n = lit (codes "DELETE FROM ") ∷ in_ids d (d.quote_identifier table) 1 n

unfoldable pub soft_delete_ids_sql : Dialect → Bytes → ℕ → Sql
unfolding placeholder_list
soft_delete_ids_sql d table n =
    lit (codes "UPDATE ")
    ∷ lit (d.quote_identifier table)
    ∷ lit (codes " SET deleted_at = ")
    ∷ param 1
    ∷ in_ids d [] 2 n

module _ {T V E : Type 0} (model : Model T V E) where
  -- A loop that runs a step on each model and ends at the first error.
  unfoldable pub each_model :
      (ℕ → T → T × Option (DbError E)) → ℕ → List T → List T × Option (DbError E)
  each_model step i [] = ([], none)
  each_model step i (m ∷ ms) =
      let (m', err) = step i m in
      let (ms', err') = each_model step (i + 1) ms in
      elim err [ some e ↦ (m' ∷ ms, some e) | none ↦ (m' ∷ ms', err') ]

  unfoldable pub hooks_of_all : Bool → Hook → Hook → List T → List T × Option (DbError E)
  unfolding each_model run_two
  hooks_of_all skip first second ms =
      if skip then (ms, none) else each_model (λ i. run_two model first second) 0 ms

  -- The values of all models, one after the other.
  unfoldable pub all_values : ℕ → List T → List V ⊎ DbError E
  all_values i [] = inl []
  all_values i (m ∷ ms) =
      let rest = all_values (i + 1) ms in
      elim (model.fields m) [
        | inr e ↦ inr (at_index i (columns_failed e))
        | inl fields ↦ elim rest [ inr e ↦ inr e | inl vs ↦ inl (values fields ++ vs) ]
      ]

  -- setID of the models with the ids that came back
  unfoldable pub set_ids : List ℤ → List T → List T
  set_ids ids [] = []
  set_ids [] (m ∷ ms) = m ∷ ms
  set_ids (id ∷ ids) (m ∷ ms) = model.set_id id m ∷ set_ids ids ms

  -- setID with `lastID + int64(i)`
  unfoldable pub set_ids_from : ℕ → List T → List T
  set_ids_from n [] = []
  set_ids_from n (m ∷ ms) = model.set_id (pos n) m ∷ set_ids_from (n + 1) ms

  -- `lastID > 0`; `none` is the error of LastInsertId.
  unfoldable pub set_last_ids : Option ℤ → List T → List T
  unfolding set_ids_from
  set_last_ids none ms = ms
  set_last_ids (some (negsuc n)) ms = ms
  set_last_ids (some (pos zero)) ms = ms
  set_last_ids (some (pos (suc n))) ms = set_ids_from (suc n) ms

  -- The ids of the models; one that is zero is an error.
  unfoldable pub collect_ids : ℕ → List T → List V ⊎ DbError E
  collect_ids i [] = inl []
  collect_ids i (m ∷ ms) =
      let rest = collect_ids (i + 1) ms in
      if is_zero (model.get_id m)
      then inr (at_index i zero_id)
      else elim rest [ inr e ↦ inr e | inl ids ↦ inl (model.id_value (model.get_id m) ∷ ids) ]

  unfoldable pub any_soft : List T → Bool
  any_soft [] = false
  any_soft (m ∷ ms) = model.soft_deletable m || any_soft ms

  unfoldable pub mark_deleted : V → List T → List T
  mark_deleted now [] = []
  mark_deleted now (m ∷ ms) =
      (if model.soft_deletable m then model.set_deleted_at now m else m) ∷ mark_deleted now ms

  unfoldable pub hooks_at : Bool → ℕ → Hook → Hook → T → T × Option (DbError E)
  unfolding run_two
  hooks_at skip i first second m =
      let (m', err) = run_two model first second m in
      if skip then (m, none) else (m', elim err [ some e ↦ some (at_index i e) | none ↦ none ])

  -- The hook of one model in the loops of BatchDelete.
  unfoldable pub delete_hook : Bool → Hook → List T → List T × Option (DbError E)
  unfolding each_model run_hook
  delete_hook skip h ms =
      if skip
      then (ms, none)
      else each_model
          (λ i m.
            let (m', err) = run_hook model h m in
            (m', elim err [ some e ↦ some (at_index i e) | none ↦ none ]))
          0 ms
