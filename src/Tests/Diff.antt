-- ===== src/Tests/Diff.antt =====
-- migrate/diff.go: two schemas of one table, with maps that are visited in the order of insertion.
use genus.Prelude.{bytes_eq, ◌≡◌, refl, true, false, none, [], ◌∷◌, codes}
use genus.Prelude.Dict.{Bytes, lookup}
use genus.Query.Sql.{mysql}
use genus.Diff.{
  ColumnSchema, TableSchema, GoModel, embedded, plain, nil, cons, model_to_schema, extract_columns,
  to_snake_case,
}
use genus.Diff.Changes.{diff, diff_columns}
use genus.Diff.Columns.{IsRange, apply_all, view_of, diff_columns_lem}
use genus.Diff.Same.{diff_same}

in_order : {V : Type 0} → IsRange {V = V} (λ m. m)
in_order {V} = record { once = λ m d. d; same = λ m k d. refl }

abbrev column : Bytes → Bytes → ColumnSchema
column name sql_type = record {
  name = name;
  sql_type = sql_type;
  nullable = false;
  default = [];
  primary_key = false;
  auto_increment = false;
}

-- The database has a and b, the models ask for b with another type and for c.
abbrev before : TableSchema
before = record {
  name = codes "t";
  columns = column (codes "a") (codes "INT") ∷ column (codes "b") (codes "INT") ∷ [];
}

abbrev after : TableSchema
after = record {
  name = codes "t";
  columns = column (codes "b") (codes "TEXT") ∷ column (codes "c") (codes "INT") ∷ [];
}

diff_columns_lem_example :
    apply_all (diff_columns mysql (λ m. m) before after) (view_of before) (codes "b")
    ≡ view_of after (codes "b")
diff_columns_lem_example = diff_columns_lem mysql (λ m. m) in_order before after (codes "b")

diff_same_example :
    diff mysql (λ m. m) (λ m. m) ((codes "t", after) ∷ []) ((codes "t", after) ∷ []) ≡ []
diff_same_example =
    diff_same mysql (λ m. m) (λ m. m) in_order in_order ((codes "t", after) ∷ [])
      (unfold lookup in (refl, tt))

-- A model whose embedded struct holds the id.
abbrev user : GoModel
user = record {
  type_name = codes "UserAccount";
  table_name = none;
  fields = cons (embedded (cons (plain true (codes "id") false (codes "int64")) nil)) (
      cons (plain true (codes "-") false (codes "string"))
        (cons (plain true (codes "email") true (codes "string")) nil));
}

model_to_schema_test : model_to_schema (λ ty. ty) user ≡ record {
  name = codes "user_accounts";
  columns =
      record (column (codes "id") (codes "int64")) { primary_key = true; auto_increment = true }
      ∷ record (column (codes "email") (codes "string")) { nullable = true }
      ∷ [];
}
unfolding model_to_schema to_snake_case extract_columns bytes_eq
model_to_schema_test = refl
