-- ===== src/Query/Chain.antt =====
-- query/builder.go, query/subquery.go and query/mutation.go: the methods that return a new Builder,
-- and the queries of Find, First and Count. A value is never shared, so a method cannot change the
-- builder that it is called on; the table of a joined model, which reflection finds, is an argument.
use genus.Prelude.{Bool, true, false, none, some, List, [], ◌∷◌, ◌++◌, if◌then◌else◌, ℤ, pos}
use genus.Prelude.Dict.{Bytes}
use genus.Query.Sql.{Sql, Dialect}
use genus.Query.Condition.{Operator, is_not_null, AnyValue, scalar, Condition}
use genus.Query.Where.{WhereItem, cond, subquery, exists, nil, Subquery}
use genus.Query.Builder.{
  JoinType, JoinCondition, JoinClause, Builder, snoc, deleted_at_column, build_select_query,
  build_count_query,
}
use genus.Query.Mutation.{Model, apply_soft_delete_scope}

module _ {V : Type 0} where
  unfoldable pub new_builder : Bytes → Builder V
  new_builder table_name = record {
    table_name = table_name;
    conditions = nil;
    order_by = [];
    limit = none;
    offset = none;
    select_cols = [];
    disable_scopes = false;
    joins = [];
    preloads = [];
    allow_global = false;
  }

  -- Each field is copied.
  unfoldable pub clone : Builder V → Builder V
  clone b = record {
    table_name = b.table_name;
    conditions = b.conditions;
    order_by = b.order_by;
    limit = b.limit;
    offset = b.offset;
    select_cols = b.select_cols;
    disable_scopes = b.disable_scopes;
    joins = b.joins;
    preloads = b.preloads;
    allow_global = b.allow_global;
  }

  unfoldable pub add_where : WhereItem V → Builder V → Builder V
  unfolding clone
  add_where item b = record (clone b) { conditions = snoc b.conditions item }

  unfoldable pub order_by_asc : Bytes → Builder V → Builder V
  unfolding clone
  order_by_asc column b = record (clone b) {
    order_by = b.order_by ++ (record { column = column; desc = false } ∷ []);
  }

  unfoldable pub order_by_desc : Bytes → Builder V → Builder V
  unfolding clone
  order_by_desc column b = record (clone b) {
    order_by = b.order_by ++ (record { column = column; desc = true } ∷ []);
  }

  unfoldable pub limit_to : ℤ → Builder V → Builder V
  unfolding clone
  limit_to n b = record (clone b) { limit = some n }

  unfoldable pub offset_by : ℤ → Builder V → Builder V
  unfolding clone
  offset_by n b = record (clone b) { offset = some n }

  unfoldable pub select_columns : List Bytes → Builder V → Builder V
  unfolding clone
  select_columns columns b = record (clone b) { select_cols = columns }

  unfoldable pub with_trashed : Builder V → Builder V
  unfolding clone
  with_trashed b = record (clone b) { disable_scopes = true }

  abbrev pub trashed_only : V → Condition V
  trashed_only null = record {
    field = deleted_at_column;
    operator = is_not_null;
    value = scalar null;
  }

  -- `null` is the nil value of the condition.
  unfoldable pub only_trashed : V → Builder V → Builder V
  unfolding add_where with_trashed
  only_trashed null b = add_where (cond (trashed_only null)) (with_trashed b)

  -- Join, LeftJoin and RightJoin differ in the type.
  unfoldable pub add_join : JoinType → Bytes → JoinCondition → Builder V → Builder V
  unfolding clone
  add_join join_type table on b =
      let clause : JoinClause = record {
        join_type = join_type;
        table = table;
        alias = [];
        condition = on;
      } in
      record (clone b) { joins = b.joins ++ (clause ∷ []) }

  unfoldable pub preload : Bytes → Builder V → Builder V
  unfolding clone
  preload relation b = record (clone b) { preloads = b.preloads ++ (relation ∷ []) }

  unfoldable pub where_subquery : Bytes → Operator → Subquery V → Builder V → Builder V
  unfolding add_where
  where_subquery field op sub b = add_where (subquery field op sub) b

  -- WhereExists and WhereNotExists
  unfoldable pub where_exists : Bool → Subquery V → Builder V → Builder V
  unfolding add_where
  where_exists negative sub b = add_where (exists sub negative) b

  unfoldable pub allow_every_row : Builder V → Builder V
  unfolding clone
  allow_every_row b = record (clone b) { allow_global = true }

module _ {V : Type 0} (d : Dialect) (m : Model V) where
  -- The query that Find runs.
  unfoldable pub find_query : Builder V → Sql × List (AnyValue V)
  find_query b = build_select_query d (apply_soft_delete_scope d m b)

  unfoldable pub first_query : Builder V → Sql × List (AnyValue V)
  unfolding limit_to
  first_query b = find_query (limit_to (pos 1) b)

  unfoldable pub count_query : Builder V → Sql × List (AnyValue V)
  count_query b = build_count_query d (apply_soft_delete_scope d m b)

-- The calls of a chain, in the order in which they are written.
pub data BuilderCall (V : Type 0) : Type 0 where
  where_call : WhereItem V → BuilderCall V
  order_call : Bytes → Bool → BuilderCall V
  limit_call : ℤ → BuilderCall V
  offset_call : ℤ → BuilderCall V
  select_call : List Bytes → BuilderCall V
  with_trashed_call : BuilderCall V
  only_trashed_call : BuilderCall V
  join_call : JoinType → Bytes → JoinCondition → BuilderCall V
  preload_call : Bytes → BuilderCall V
  subquery_call : Bytes → Operator → Subquery V → BuilderCall V
  exists_call : Bool → Subquery V → BuilderCall V
  allow_global_call : BuilderCall V

module _ {V : Type 0} (null : V) where
  unfoldable pub call : BuilderCall V → Builder V → Builder V
  call (where_call item) b = add_where item b
  call (order_call column desc) b = if desc then order_by_desc column b else order_by_asc column b
  call (limit_call n) b = limit_to n b
  call (offset_call n) b = offset_by n b
  call (select_call columns) b = select_columns columns b
  call with_trashed_call b = with_trashed b
  call only_trashed_call b = only_trashed null b
  call (join_call join_type table on) b = add_join join_type table on b
  call (preload_call relation) b = preload relation b
  call (subquery_call field op sub) b = where_subquery field op sub b
  call (exists_call negative sub) b = where_exists negative sub b
  call allow_global_call b = allow_every_row b

  unfoldable pub chain : List (BuilderCall V) → Builder V → Builder V
  unfolding call
  chain [] b = b
  chain (c ∷ cs) b = chain cs (call c b)
