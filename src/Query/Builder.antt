-- ===== src/Query/Builder.antt =====
-- query/builder.go, query/join.go and query/mutation.go: the Builder and the SELECT, COUNT and DELETE
-- statements that it builds. The executor and the logger are left out.
use genus.Prelude.{
  ℕ, suc, Bool, Option, none, some, List, [], ◌∷◌, ◌++◌, codes, if◌then◌else◌, ℤ, pos, negsuc,
}
use genus.Prelude.Dict.{Bytes}
use genus.Query.Sql.{lit, Sql, Dialect, join, decimal}
use genus.Query.Condition.{Operator, operator_text, AnyValue}
use genus.Query.Where.{WhereItem, WhereItems, nil, cons, build_where_clause_from}

pub record OrderBy : Type 0 where
  pub column : Bytes
  pub desc : Bool

pub data JoinType : Type 0 where
  inner_join left_join right_join : JoinType

pub record JoinCondition : Type 0 where
  pub left_column : Bytes
  pub right_column : Bytes
  pub operator : Operator

-- `alias` is empty where there is none.
pub record JoinClause : Type 0 where
  pub join_type : JoinType
  pub table : Bytes
  pub alias : Bytes
  pub condition : JoinCondition

pub record Builder (V : Type 0) : Type 0 where
  pub table_name : Bytes
  pub conditions : WhereItems V
  pub order_by : List OrderBy
  pub limit : Option ℤ
  pub offset : Option ℤ
  pub select_cols : List Bytes
  pub disable_scopes : Bool
  pub joins : List JoinClause
  pub preloads : List Bytes
  pub allow_global : Bool

pub record Assignment (V : Type 0) : Type 0 where
  pub field : Bytes
  pub value : AnyValue V

-- `%d` of an int
abbrev pub int_text : ℤ → Bytes
int_text (pos n) = decimal n
int_text (negsuc n) = b'-' ∷ decimal (suc n)

join_type_text : JoinType → Bytes
join_type_text inner_join = codes "INNER JOIN"
join_type_text left_join = codes "LEFT JOIN"
join_type_text right_join = codes "RIGHT JOIN"

-- JoinClause.BuildSQL
unfoldable pub join_sql : Dialect → JoinClause → Sql
unfolding join_type_text
join_sql d j =
    let alias : Sql = elim j.alias [
      | [] ↦ []
      | _ ↦ lit (codes " AS ") ∷ lit (d.quote_identifier j.alias) ∷ []
    ] in
    (lit (join_type_text j.join_type) ∷ lit (codes " ") ∷ lit (d.quote_identifier j.table) ∷ [])
    ++ (alias
        ++ (lit (codes " ON ")
            ∷ lit j.condition.left_column
            ∷ lit (codes " ")
            ∷ lit (operator_text j.condition.operator)
            ∷ lit (codes " ")
            ∷ lit j.condition.right_column
            ∷ []))

-- append(conditions, condition)
unfoldable pub snoc : {V : Type 0} → WhereItems V → WhereItem V → WhereItems V
snoc nil item = cons item nil
snoc (cons first items) item = cons first (snoc items item)

abbrev pub deleted_at_column : Bytes
deleted_at_column = codes "deleted_at"

abbrev pub updated_at_column : Bytes
updated_at_column = codes "updated_at"

unfoldable pub order_parts : List OrderBy → List Sql
order_parts [] = []
order_parts (o ∷ os) =
    (lit o.column ∷ lit (if o.desc then codes " DESC" else codes " ASC") ∷ []) ∷ order_parts os

unfoldable pub column_parts : List Bytes → List Sql
column_parts [] = []
column_parts (c ∷ cs) = (lit c ∷ []) ∷ column_parts cs

unfoldable pub joins_sql : Dialect → List JoinClause → Sql
joins_sql d [] = []
joins_sql d (j ∷ js) = (lit (codes " ") ∷ []) ++ (join_sql d j ++ joins_sql d js)

unfoldable pub order_sql : List OrderBy → Sql
order_sql [] = []
order_sql (o ∷ os) =
    (lit (codes " ORDER BY ") ∷ []) ++ join (lit (codes ", ") ∷ []) (order_parts (o ∷ os))

unfoldable pub number_sql : Bytes → Option ℤ → Sql
number_sql keyword none = []
number_sql keyword (some n) = lit keyword ∷ lit (int_text n) ∷ []

module _ {V : Type 0} (d : Dialect) where
  -- What stands between SELECT and FROM.
  unfoldable pub columns_sql : Builder V → Sql
  unfolding column_parts
  columns_sql b = elim b.select_cols [
    | [] ↦ elim b.joins [
      | [] ↦ lit (codes "*") ∷ []
      | _ ↦ lit (d.quote_identifier b.table_name) ∷ lit (codes ".*") ∷ []
    ]
    | _ ↦ join (lit (codes ", ") ∷ []) (column_parts b.select_cols)
  ]

  -- The WHERE part of a statement whose conditions start at a number, with its arguments.
  unfoldable pub where_sql : WhereItems V → ℕ → Sql × List (AnyValue V)
  where_sql nil k = ([], [])
  where_sql (cons item items) k =
      let (sql, args) = build_where_clause_from d (cons item items) k in
      ((lit (codes " WHERE ") ∷ []) ++ sql, args)

  unfoldable pub build_select_query : Builder V → Sql × List (AnyValue V)
  unfolding columns_sql joins_sql where_sql order_sql number_sql
  build_select_query b =
      let (whr, args) = where_sql b.conditions 1 in
      (
        (lit (codes "SELECT ") ∷ [])
            ++ (columns_sql b
                ++ ((lit (codes " FROM ") ∷ lit (d.quote_identifier b.table_name) ∷ [])
                    ++ (joins_sql d b.joins
                        ++ (whr
                            ++ (order_sql b.order_by
                                ++ (number_sql (codes " LIMIT ") b.limit
                                    ++ number_sql (codes " OFFSET ") b.offset)))))),
        args,
      )

  unfoldable pub build_count_query : Builder V → Sql × List (AnyValue V)
  unfolding where_sql
  build_count_query b =
      let (whr, args) = where_sql b.conditions 1 in
      (
        (lit (codes "SELECT COUNT(*) FROM ") ∷ lit (d.quote_identifier b.table_name) ∷ []) ++ whr,
        args,
      )

  unfoldable pub build_delete_query : Builder V → Sql × List (AnyValue V)
  unfolding where_sql
  build_delete_query b =
      let (whr, args) = where_sql b.conditions 1 in
      ((lit (codes "DELETE FROM ") ∷ lit (d.quote_identifier b.table_name) ∷ []) ++ whr, args)
