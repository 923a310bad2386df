-- ===== src/Diff/Same.antt =====
-- migrate/diff.go, Diff of a schema with itself.
use genus.Prelude.{
  ◌≡◌, refl, sym, ◌∙◌, Bool, true, false, some, List, [], ◌∷◌, ◌++◌, bytes_eq_refl, if◌then◌else◌,
  All,
}
use genus.Prelude.Dict.{Bytes, lookup, Distinct, is_some}
use genus.Query.Sql.{Dialect}
use genus.Diff.{SchemaChange, ColumnSchema, TableSchema}
use genus.Diff.Changes.{
  same_bool, column_changed, column_map, for_each, added_column, dropped_column, modified_column,
  diff_columns, diff_table, diff, create_table_change, drop_table_change,
}
use genus.Diff.Columns.{IsRange, All-entries, column_map-Distinct}

for_each_none :
    {V : Type 0} (give : Bytes → V → List SchemaChange) (entries : List (Bytes × V))
    → All (λ e. give e.0 e.1 ≡ []) entries
    → for_each give entries ≡ []
for_each_none give [] h = refl
for_each_none give ((k, v) ∷ entries) h = λ i. h.0 i ++ for_each_none give entries h.1 i

-- A loop over a range of a map that gives nothing for the entries of the map.
range_none :
    {V : Type 0} (range : List (Bytes × V) → List (Bytes × V)) (m : List (Bytes × V))
    (give : Bytes → V → List SchemaChange)
    → IsRange range
    → Distinct m
    → ((k : Bytes) (v : V) → lookup k m ≡ some v → give k v ≡ [])
    → for_each give (range m) ≡ []
range_none range m give r d h = for_each_none give (range m) (
    All-entries (λ k v. give k v ≡ []) (range m) (r.once m d)
      (λ k v e. h k v (sym (r.same m k d) ∙ e)))

same_bool_refl : (b : Bool) → same_bool b b ≡ true
same_bool_refl true = refl
same_bool_refl false = refl

column_changed_refl : (col : ColumnSchema) → column_changed col col ≡ false
unfolding column_changed
column_changed_refl col =
    rw (bytes_eq_refl col.sql_type, same_bool_refl col.nullable, bytes_eq_refl col.default) refl

module _ (d : Dialect)
    (range_columns : List (Bytes × ColumnSchema) → List (Bytes × ColumnSchema)) where
  diff_columns_same :
      IsRange range_columns → (t : TableSchema) → diff_columns d range_columns t t ≡ []
  unfolding diff_columns
  diff_columns_same r t =
      let m : List (Bytes × ColumnSchema) = column_map t.columns [] in
      let once : Distinct m = column_map-Distinct t.columns [] tt in
      let added : for_each (added_column d range_columns t.name m) (range_columns m) ≡ [] =
        range_none range_columns m (added_column d range_columns t.name m) r once
          (λ k col e. unfold added_column in rw (e, added_column) refl) in
      let dropped : for_each (dropped_column d range_columns t.name m) (range_columns m) ≡ [] =
        range_none range_columns m (dropped_column d range_columns t.name m) r once
          (λ k col e. unfold dropped_column in rw (e, dropped_column) refl) in
      let modified : for_each (modified_column d range_columns t.name m) (range_columns m) ≡ [] =
        range_none range_columns m (modified_column d range_columns t.name m) r once (λ k col e.
          unfold modified_column in rw (e, modified_column) (rw (column_changed_refl col) refl)) in
      λ i. added i ++ (dropped i ++ modified i)

  module _ (range_tables : List (Bytes × TableSchema) → List (Bytes × TableSchema)) where
    -- Whatever the orders in which the maps are visited, the difference of a schema to itself is empty: a
    -- database that has the schema of the models is left alone.
    pub diff_same :
        IsRange range_columns
        → IsRange range_tables
        → (m : List (Bytes × TableSchema)) → Distinct m
        → diff d range_columns range_tables m m ≡ []
    unfolding diff
    diff_same r q m once =
        let created : for_each
              (λ name t. if is_some (lookup name m) then [] else create_table_change d t ∷ [])
              (range_tables m)
            ≡ [] =
          range_none range_tables m
            (λ name t. if is_some (lookup name m) then [] else create_table_change d t ∷ []) q once
            (λ k t e. rw e refl) in
        let dropped : for_each
              (λ name t. if is_some (lookup name m) then [] else drop_table_change d t ∷ [])
              (range_tables m)
            ≡ [] =
          range_none range_tables m
            (λ name t. if is_some (lookup name m) then [] else drop_table_change d t ∷ []) q once
            (λ k t e. rw e refl) in
        let inside : for_each (diff_table d range_columns range_tables m) (range_tables m) ≡ [] =
          range_none range_tables m (diff_table d range_columns range_tables m) q once
            (λ k t e. unfold diff_table in rw (e, diff_table) (diff_columns_same r t)) in
        λ i. created i ++ (dropped i ++ inside i)
