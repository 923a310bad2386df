-- ===== src/Db/Upsert.antt =====
-- core/upsert.go: the statement of an upsert, Upsert and BatchUpsert. In a batch,
-- `column_names` is getColumnNames and `row_fields` getColumnsAndValuesFromValue, which leaves out an id
-- of zero.
use genus.Prelude.{
  ℕ, zero, suc, ◌+◌, Bool, ◌||◌, Option, none, some, List, [], ◌∷◌, ◌++◌, inl, inr, codes, bytes_eq,
  length, take, drop, if◌then◌else◌, pos, negsuc, positive_or,
}
use genus.Prelude.Dict.{Bytes, contains}
use genus.Query.Sql.{lit, Sql, Dialect, join, render}
use genus.Db.{
  Model, Driver, DbError, columns_failed, execute_failed, texts, placeholder_list, names, values,
}
use genus.Db.Batch.{BatchConfig}

pub record UpsertConfig (V : Type 0) : Type 0 where
  pub conflict_columns : List Bytes
  pub update_columns : List Bytes
  pub do_nothing : Bool
  pub update_where : Bytes
  pub update_where_args : List V

-- config.ConflictColumns, or the id
abbrev pub conflict_of : {V : Type 0} → UpsertConfig V → List Bytes
conflict_of config = elim config.conflict_columns [
  | [] ↦ codes "id" ∷ []
  | _ ∷ _ ↦ config.conflict_columns
]

-- All columns but those of the conflict, the id and created_at.
unfoldable pub other_columns : List Bytes → List Bytes → List Bytes
other_columns conflict [] = []
other_columns conflict (col ∷ columns) =
    let rest = other_columns conflict columns in
    if contains col conflict || (bytes_eq col (codes "id") || bytes_eq col (codes "created_at"))
    then rest
    else col ∷ rest

unfoldable pub update_columns_of : {V : Type 0} → UpsertConfig V → List Bytes → List Bytes
unfolding other_columns
update_columns_of config columns = elim config.update_columns [
  | [] ↦ other_columns (conflict_of config) columns
  | _ ∷ _ ↦ config.update_columns
]

-- getUpdateColumns of a batch, with the conflict columns as they are given
unfoldable pub batch_update_columns : {V : Type 0} → UpsertConfig V → List Bytes → List Bytes
unfolding other_columns
batch_update_columns config columns = elim config.update_columns [
  | [] ↦ other_columns config.conflict_columns columns
  | _ ∷ _ ↦ config.update_columns
]

module _ (d : Dialect) where
  abbrev pub quoted : List Bytes → List Bytes
  quoted [] = []
  quoted (c ∷ cs) = d.quote_identifier c ∷ quoted cs

  -- "a" = EXCLUDED."a", or `a` = VALUES(`a`)
  abbrev pub assignments : Bytes → Bytes → List Bytes → List Bytes
  assignments before after [] = []
  assignments before after (c ∷ cs) =
      (d.quote_identifier c ++ (before ++ (d.quote_identifier c ++ after)))
      ∷ assignments before after cs

  abbrev pub comma_list : List Bytes → Sql
  comma_list cs = join (lit (codes ", ") ∷ []) (texts cs)

  abbrev pub on_conflict : List Bytes → Sql
  on_conflict cs = lit (codes " ON CONFLICT (") ∷ (comma_list (quoted cs) ++ (lit (codes ")") ∷ []))

  -- INSERT INTO or INSERT IGNORE INTO, up to VALUES
  abbrev pub insert_head : Bytes → Bytes → List Bytes → Sql
  insert_head verb table columns =
      lit verb
      ∷ lit (d.quote_identifier table)
      ∷ lit (codes " (")
      ∷ (comma_list (quoted columns) ++ (lit (codes ") VALUES ") ∷ []))

  -- "(?, ?)" of MySQL
  abbrev pub questions : ℕ → List Bytes
  questions zero = []
  questions (suc n) = codes "?" ∷ questions n

  abbrev pub on_duplicate : List Bytes → Sql
  on_duplicate columns =
      lit (codes " ON DUPLICATE KEY UPDATE ")
      ∷ comma_list (assignments (codes " = VALUES(") (codes ")") columns)

  -- What follows the values in a batch on PostgreSQL.
  abbrev pub on_conflict_update : List Bytes → Sql
  on_conflict_update columns =
      lit (codes " DO UPDATE SET ") ∷ comma_list (assignments (codes " = EXCLUDED.") [] columns)

  module _ {V : Type 0} where
    unfoldable pub build_postgres_upsert : Bytes → List (Bytes × V) → UpsertConfig V → Sql × List V
    unfolding update_columns_of placeholder_list
    build_postgres_upsert table fields config =
        let head =
          insert_head (codes "INSERT INTO ") table (names fields)
          ++ (lit (codes "(")
              ∷ (placeholder_list 1 (length (names fields)) ++ (lit (codes ")") ∷ []))) in
        let conflict = on_conflict (conflict_of config) in
        let set = on_conflict_update (update_columns_of config (names fields)) in
        if config.do_nothing
        then (head ++ (conflict ++ (lit (codes " DO NOTHING") ∷ [])), values fields)
        else if bytes_eq config.update_where []
        then (head ++ (conflict ++ set), values fields)
        else (
          head ++ (conflict ++ (set ++ (lit (codes " WHERE ") ∷ lit config.update_where ∷ []))),
          values fields ++ config.update_where_args,
        )

    unfoldable pub build_mysql_upsert : Bytes → List (Bytes × V) → UpsertConfig V → Sql × List V
    unfolding update_columns_of
    build_mysql_upsert table fields config =
        let row =
          lit (codes "(")
          ∷ (comma_list (questions (length (names fields))) ++ (lit (codes ")") ∷ [])) in
        if config.do_nothing
        then (insert_head (codes "INSERT IGNORE INTO ") table (names fields) ++ row, values fields)
        else (
          insert_head (codes "INSERT INTO ") table (names fields)
              ++ (row ++ on_duplicate (update_columns_of config (names fields))),
          values fields,
        )

    unfoldable pub build_upsert_query : Bytes → List (Bytes × V) → UpsertConfig V → Sql × List V
    unfolding build_postgres_upsert build_mysql_upsert
    build_upsert_query table fields config =
        if bytes_eq (d.placeholder 1) (codes "?")
        then build_mysql_upsert table fields config
        else build_postgres_upsert table fields config

    -- `valueSets` of a batch, whose placeholders go on from k.
    unfoldable pub value_sets : Bool → ℕ → List (List (Bytes × V)) → List Sql
    value_sets is_mysql k [] = []
    value_sets is_mysql k (fields ∷ rows) =
        (lit (codes "(")
          ∷ ((if is_mysql
                then comma_list (questions (length fields))
                else placeholder_list k (length fields))
              ++ (lit (codes ")") ∷ [])))
        ∷ value_sets is_mysql (k + length fields) rows

    abbrev pub all_args : List (List (Bytes × V)) → List V
    all_args [] = []
    all_args (fields ∷ rows) = values fields ++ all_args rows

    -- The statement of executeBatchUpsert, with the columns of the first item.
    unfoldable pub batch_upsert_sql :
        Bytes → List Bytes → List (List (Bytes × V)) → UpsertConfig V → Sql
    unfolding value_sets batch_update_columns
    batch_upsert_sql table columns rows config =
        let is_mysql = bytes_eq (d.placeholder 1) (codes "?") in
        let sets = join (lit (codes ", ") ∷ []) (value_sets is_mysql 1 rows) in
        let update = batch_update_columns config columns in
        if is_mysql
        then (if config.do_nothing
            then insert_head (codes "INSERT IGNORE INTO ") table columns ++ sets
            else insert_head (codes "INSERT INTO ") table columns ++ (sets ++ on_duplicate update))
        else insert_head (codes "INSERT INTO ") table columns
          ++ (sets
              ++ (on_conflict (conflict_of config)
                  ++ (if config.do_nothing
                      then lit (codes " DO NOTHING") ∷ []
                      else on_conflict_update update)))

module _ {T V W E : Type 0} (model : Model T V E) (driver : Driver W V E) (d : Dialect) where
  -- UpsertWithConfig
  unfoldable pub upsert : UpsertConfig V → T → W → T × W × Option (DbError E)
  unfolding build_upsert_query
  upsert config m w = elim (model.fields m) [
    | inr e ↦ (m, w, some (columns_failed e))
    | inl fields ↦
        let (sql, args) = build_upsert_query d (model.table_name m) fields config in
        let (w', r) = driver.exec (render d sql) args w in
        elim r [
          | inr e ↦ (m, w', some (execute_failed e))
          | inl res ↦ elim res.last_insert_id [
            | none ↦ (m, w', none)
            | some (negsuc n) ↦ (m, w', none)
            | some (pos zero) ↦ (m, w', none)
            | some (pos (suc n)) ↦ (model.set_id (pos (suc n)) m, w', none)
          ]
        ]
  ]

  module _ (column_names : T → List Bytes) (row_fields : T → List (Bytes × V)) where
    abbrev rows_of : List T → List (List (Bytes × V))
    rows_of [] = []
    rows_of (m ∷ ms) = row_fields m ∷ rows_of ms

    unfoldable pub execute_batch_upsert : UpsertConfig V → List T → W → W × Option (DbError E)
    unfolding batch_upsert_sql
    execute_batch_upsert config [] w = (w, none)
    execute_batch_upsert config (m ∷ ms) w =
        let rows = rows_of (m ∷ ms) in
        let sql = batch_upsert_sql d (model.table_name m) (column_names m) rows config in
        let (w', r) = driver.exec (render d sql) (all_args d rows) w in
        elim r [ inr e ↦ (w', some (execute_failed e)) | inl res ↦ (w', none) ]

    -- The loop of BatchUpsertWithConfig.
    unfoldable pub upsert_from : UpsertConfig V → ℕ → ℕ → List T → W → W × Option (DbError E)
    unfolding execute_batch_upsert
    upsert_from config size zero ms w = (w, none)
    upsert_from config size (suc fuel) [] w = (w, none)
    upsert_from config size (suc fuel) (m ∷ ms) w =
        let (w', err) = execute_batch_upsert config (take size (m ∷ ms)) w in
        let rest = upsert_from config size fuel (drop size (m ∷ ms)) w' in
        elim err [ some e ↦ (w', some e) | none ↦ rest ]

    unfoldable pub batch_upsert : UpsertConfig V → BatchConfig → List T → W → W × Option (DbError E)
    unfolding upsert_from
    batch_upsert config batch ms w =
        upsert_from config (positive_or 100 batch.batch_size) (length ms) ms w
