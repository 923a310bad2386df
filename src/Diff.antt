-- ===== src/Diff.antt =====
-- migrate/diff.go: the schema that models ask for; Changes has its difference to another schema and the
-- text of a migration. What reflection says of a Go type is data here; letters outside ASCII are not folded. A
-- range over a map, whose order Go leaves open, is a parameter. Reading the schema of a database is left
-- out.
pub mod Changes
pub mod Columns
pub mod Same
use genus.Prelude.{
  ℕ, ◌+◌, Bool, true, false, ◌&&◌, ◌||◌, not, Option, none, some, List, [], ◌∷◌, ◌++◌, codes, leb,
  bytes_eq, if◌then◌else◌,
}
use genus.Prelude.Dict.{Bytes, lookup, insert, is_some}
use genus.Query.Sql.{Dialect}

pub data ChangeType : Type 0 where
  add_table drop_table add_column drop_column modify_column : ChangeType
  add_index drop_index add_foreign_key drop_foreign_key add_constraint drop_constraint : ChangeType

-- `SchemaChange`; `change` is `Type`.
pub record SchemaChange : Type 0 where
  pub change : ChangeType
  pub table : Bytes
  pub column : Bytes
  pub old_type : Bytes
  pub new_type : Bytes
  pub description : Bytes
  pub sql : Bytes
  pub reversible : Bool
  pub reverse_sql : Bytes

-- `ColumnSchema`; `sql_type` is `Type`.
pub record ColumnSchema : Type 0 where
  pub name : Bytes
  pub sql_type : Bytes
  pub nullable : Bool
  pub default : Bytes
  pub primary_key : Bool
  pub auto_increment : Bool

-- `TableSchema`, without the indexes, foreign keys and constraints, which the code only reads in.
pub record TableSchema : Type 0 where
  pub name : Bytes
  pub columns : List ColumnSchema

-- What reflection says of the fields of a struct: an embedded struct, or a field with its tag `db`,
-- whether it is exported and a pointer, and the name of its type or of what it points to.
mutual
  pub data Field : Type 0 where
    embedded : Fields → Field
    plain : Bool → Bytes → Bool → Bytes → Field

  pub data Fields : Type 0 where
    nil : Fields
    cons : Field → Fields → Fields

pub record GoModel : Type 0 where
  pub type_name : Bytes
  -- TableName, if the model has it
  pub table_name : Option Bytes
  pub fields : Fields

abbrev is_upper : ℕ → Bool
is_upper r = leb b'A' r && leb r b'Z'

-- The loop of toSnakeCaseMigrate, in lower case, from a position on.
snake_from : Bool → Bytes → Bytes
snake_from first [] = []
snake_from first (r ∷ rs) =
    let lower = if is_upper r then r + 32 else r in
    let rest = lower ∷ snake_from false rs in if not first && is_upper r then b'_' ∷ rest else rest

unfoldable pub to_snake_case : Bytes → Bytes
unfolding snake_from
to_snake_case s = snake_from true s

-- GetType of the dialect
module _ (get_type : Bytes → Bytes) where
  -- A column of a field with a tag.
  abbrev pub tagged_column : Bytes → Bool → Bytes → ColumnSchema
  tagged_column tag pointer type_name =
      let is_id = bytes_eq tag (codes "id") in
      record {
        name = tag;
        sql_type = get_type type_name;
        nullable = pointer;
        default = [];
        primary_key = is_id;
        auto_increment = is_id;
      }

  unfoldable mutual
    pub extract_columns : Fields → List ColumnSchema
    extract_columns nil = []
    extract_columns (cons f fs) = extract_field f ++ extract_columns fs

    pub extract_field : Field → List ColumnSchema
    extract_field (embedded fs) = extract_columns fs
    extract_field (plain exported tag pointer type_name) =
        if not exported || (bytes_eq tag (codes "-") || bytes_eq tag [])
        then []
        else tagged_column tag pointer type_name ∷ []

  unfoldable pub model_to_schema : GoModel → TableSchema
  unfolding to_snake_case
  model_to_schema m = record {
    name = elim m.table_name [ some name ↦ name | none ↦ to_snake_case m.type_name ++ codes "s" ];
    columns = extract_columns m.fields;
  }

  schemas_from : List GoModel → List (Bytes × TableSchema) → List (Bytes × TableSchema)
  schemas_from [] schemas = schemas
  schemas_from (m ∷ ms) schemas =
      schemas_from ms (insert (model_to_schema m).name (model_to_schema m) schemas)

  unfoldable pub get_schema_from_models : List GoModel → List (Bytes × TableSchema)
  unfolding schemas_from model_to_schema
  get_schema_from_models ms = schemas_from ms []
