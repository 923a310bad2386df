-- ===== src/Diff/Changes.antt =====
-- migrate/diff.go: the changes with their statements, Diff and GenerateMigration.
use genus.Prelude.{
  Bool, true, false, ◌&&◌, ◌||◌, not, none, some, List, [], ◌∷◌, ◌++◌, codes, bytes_eq,
  if◌then◌else◌,
}
use genus.Prelude.Dict.{Bytes, lookup, insert, is_some}
use genus.Query.Sql.{Dialect}
use genus.Diff.{
  ColumnSchema, SchemaChange, TableSchema, add_column, add_table, drop_column, drop_table,
  modify_column,
}

module _ (d : Dialect) where
  -- `d.dialect.Placeholder(1) == "?"`
  abbrev question_mark : Bool
  question_mark = bytes_eq (d.placeholder 1) (codes "?")

  -- A line of CREATE TABLE, without the comma.
  unfoldable pub column_line : ColumnSchema → Bytes
  column_line col =
      codes "  "
      ++ (d.quote_identifier col.name
          ++ (codes " "
              ++ (col.sql_type
                  ++ ((if col.nullable then [] else codes " NOT NULL")
                      ++ ((if col.primary_key then codes " PRIMARY KEY" else [])
                          ++ ((if col.auto_increment && question_mark
                                then codes " AUTO_INCREMENT"
                                else [])
                              ++ (if bytes_eq col.default []
                                  then []
                                  else codes " DEFAULT " ++ col.default)))))))

  unfoldable pub column_lines : List ColumnSchema → Bytes
  unfolding column_line
  column_lines [] = []
  column_lines (col ∷ []) = column_line col ++ codes "\n"
  column_lines (col ∷ next ∷ cols) = column_line col ++ (codes ",\n" ++ column_lines (next ∷ cols))

  abbrev drop_table_sql : Bytes → Bytes
  drop_table_sql table = codes "DROP TABLE " ++ d.quote_identifier table

  unfoldable pub create_table_change : TableSchema → SchemaChange
  unfolding column_lines
  create_table_change t = record {
    change = add_table;
    table = t.name;
    column = [];
    old_type = [];
    new_type = [];
    description = codes "Create table " ++ t.name;
    sql =
        codes "CREATE TABLE "
        ++ (d.quote_identifier t.name ++ (codes " (\n" ++ (column_lines t.columns ++ codes ")")));
    reversible = true;
    reverse_sql = drop_table_sql t.name;
  }

  unfoldable pub drop_table_change : TableSchema → SchemaChange
  drop_table_change t = record {
    change = drop_table;
    table = t.name;
    column = [];
    old_type = [];
    new_type = [];
    description = codes "Drop table " ++ t.name;
    sql = drop_table_sql t.name;
    reversible = false;
    reverse_sql = [];
  }

  abbrev drop_column_sql : Bytes → Bytes → Bytes
  drop_column_sql table column =
      codes "ALTER TABLE "
      ++ (d.quote_identifier table ++ (codes " DROP COLUMN " ++ d.quote_identifier column))

  unfoldable pub add_column_change : Bytes → ColumnSchema → SchemaChange
  add_column_change table col = record {
    change = add_column;
    table = table;
    column = col.name;
    old_type = [];
    new_type = col.sql_type;
    description = codes "Add column " ++ (table ++ (codes "." ++ col.name));
    sql =
        codes "ALTER TABLE "
        ++ (d.quote_identifier table
            ++ (codes " ADD COLUMN "
                ++ (d.quote_identifier col.name
                    ++ (codes " "
                        ++ (col.sql_type
                            ++ ((if col.nullable then [] else codes " NOT NULL")
                                ++ (if bytes_eq col.default []
                                    then []
                                    else codes " DEFAULT " ++ col.default)))))));
    reversible = true;
    reverse_sql = drop_column_sql table col.name;
  }

  unfoldable pub drop_column_change : Bytes → ColumnSchema → SchemaChange
  drop_column_change table col = record {
    change = drop_column;
    table = table;
    column = col.name;
    old_type = col.sql_type;
    new_type = [];
    description = codes "Drop column " ++ (table ++ (codes "." ++ col.name));
    sql = drop_column_sql table col.name;
    reversible = false;
    reverse_sql = [];
  }

  unfoldable pub modify_column_change : Bytes → ColumnSchema → ColumnSchema → SchemaChange
  modify_column_change table old new = record {
    change = modify_column;
    table = table;
    column = new.name;
    old_type = old.sql_type;
    new_type = new.sql_type;
    description =
        codes "Modify column "
        ++ (table
            ++ (codes "."
                ++ (new.name
                    ++ (codes " from " ++ (old.sql_type ++ (codes " to " ++ new.sql_type))))));
    sql =
        if question_mark
        then codes "ALTER TABLE "
          ++ (d.quote_identifier table
              ++ (codes " MODIFY COLUMN "
                  ++ (d.quote_identifier new.name ++ (codes " " ++ new.sql_type))))
        else codes "ALTER TABLE "
          ++ (d.quote_identifier table
              ++ (codes " ALTER COLUMN "
                  ++ (d.quote_identifier new.name ++ (codes " TYPE " ++ new.sql_type))));
    reversible = true;
    reverse_sql = [];
  }

abbrev pub same_bool : Bool → Bool → Bool
same_bool true b = b
same_bool false b = not b

unfoldable pub column_changed : ColumnSchema → ColumnSchema → Bool
column_changed old new =
    not (bytes_eq old.sql_type new.sql_type)
    || (not (same_bool old.nullable new.nullable) || not (bytes_eq old.default new.default))

-- `m[col.Name] = col` for each column
unfoldable pub column_map :
    List ColumnSchema → List (Bytes × ColumnSchema) → List (Bytes × ColumnSchema)
column_map [] m = m
column_map (col ∷ cols) m = column_map cols (insert col.name col m)

-- A loop over the entries of a map that appends what each gives.
abbrev pub for_each :
    {V : Type 0} → (Bytes → V → List SchemaChange) → List (Bytes × V) → List SchemaChange
for_each give [] = []
for_each give ((k, v) ∷ entries) = give k v ++ for_each give entries

module _ (d : Dialect)
    (range_columns : List (Bytes × ColumnSchema) → List (Bytes × ColumnSchema)) where
  unfoldable pub added_column :
      Bytes → List (Bytes × ColumnSchema) → Bytes → ColumnSchema → List SchemaChange
  added_column table current name col =
      if is_some (lookup name current) then [] else add_column_change d table col ∷ []

  unfoldable pub dropped_column :
      Bytes → List (Bytes × ColumnSchema) → Bytes → ColumnSchema → List SchemaChange
  dropped_column table target name col =
      if is_some (lookup name target) then [] else drop_column_change d table col ∷ []

  unfoldable pub modified_column :
      Bytes → List (Bytes × ColumnSchema) → Bytes → ColumnSchema → List SchemaChange
  modified_column table current name col = elim (lookup name current) [
    | none ↦ []
    | some old ↦ if column_changed old col then modify_column_change d table old col ∷ [] else []
  ]

  unfoldable pub diff_columns : TableSchema → TableSchema → List SchemaChange
  unfolding column_map added_column dropped_column modified_column
  diff_columns current target =
      let current_cols = column_map current.columns [] in
      let target_cols = column_map target.columns [] in
      for_each (added_column target.name current_cols) (range_columns target_cols)
      ++ (for_each (dropped_column target.name target_cols) (range_columns current_cols)
          ++ for_each (modified_column target.name current_cols) (range_columns target_cols))

  module _ (range_tables : List (Bytes × TableSchema) → List (Bytes × TableSchema)) where
    unfoldable pub diff_table : List (Bytes × TableSchema) → Bytes → TableSchema → List SchemaChange
    unfolding diff_columns
    diff_table current name target = elim (lookup name current) [
      | none ↦ []
      | some t ↦ diff_columns t target
    ]

    unfoldable pub diff :
        List (Bytes × TableSchema) → List (Bytes × TableSchema) → List SchemaChange
    unfolding diff_table create_table_change drop_table_change
    diff current target =
        for_each
          (λ name t. if is_some (lookup name current) then [] else create_table_change d t ∷ [])
          (range_tables target)
        ++ (for_each
              (λ name t. if is_some (lookup name target) then [] else drop_table_change d t ∷ [])
              (range_tables current)
            ++ for_each (diff_table current) (range_tables target))

-- GenerateMigration: the statements, and their reverses from the last to the first.
unfoldable pub up_text : List SchemaChange → Bytes
up_text [] = []
up_text (c ∷ cs) =
    codes "-- " ++ (c.description ++ (codes "\n" ++ (c.sql ++ (codes ";\n\n" ++ up_text cs))))

unfoldable pub down_text : List SchemaChange → Bytes
down_text [] = []
down_text (c ∷ cs) =
    down_text cs
    ++ (if c.reversible && not (bytes_eq c.reverse_sql [])
        then codes "-- Reverse: "
          ++ (c.description ++ (codes "\n" ++ (c.reverse_sql ++ codes ";\n\n")))
        else codes "-- WARNING: Cannot reverse: " ++ (c.description ++ codes "\n\n"))

unfoldable pub generate_migration : List SchemaChange → Bytes
unfolding up_text down_text
generate_migration changes =
    codes "-- Migration generated by Genus\n"
    ++ (codes "-- Up\n\n" ++ (up_text changes ++ (codes "-- Down\n\n" ++ down_text changes)))
