-- ===== src/Query/Nested.antt =====
-- query/subquery.go: the builders of subqueries, plain, scalar and correlated. `SubqueryText` is the
-- `Subquery` before its text is rendered.
use genus.Prelude.{◌≡◌, List, [], ◌∷◌, ◌++◌, codes, length, append-nil}
use genus.Prelude.Dict.{Bytes}
use genus.Query.Sql.{
  lit, Sql, Dialect, render, params, range, params-lit, params-nil, params-append,
}
use genus.Query.Condition.{AnyValue}
use genus.Query.Where.{WhereItems, nil, cons, Subquery, build_where_clause_from}
use genus.Query.Builder.{Builder, where_sql, order_sql, number_sql}
use genus.Query.Mutation.{Model, apply_soft_delete_scope}
use genus.Query.Numbering.{NoSubquery, build_where_clause_from_numbering}
use genus.Query.Statements.{params-order_sql, params-number_sql, params-where_sql}
use genus.Query.Chain.{clone}
use genus.Query.Scope.{scoped-NoSubquery}

pub record SubqueryBuilder (V : Type 0) : Type 0 where
  pub builder : Builder V
  pub column : Bytes

pub record ScalarSubqueryBuilder (V : Type 0) : Type 0 where
  pub builder : Builder V
  pub select_expr : Bytes

pub record CorrelatedSubqueryBuilder (V : Type 0) : Type 0 where
  pub builder : Builder V
  pub column : Bytes
  pub correlation : Bytes

module _ {V : Type 0} where
  unfoldable pub to_builder : Builder V → SubqueryBuilder V
  unfolding clone
  to_builder b = record { builder = clone b; column = codes "id" }

  unfoldable pub column_of : Bytes → SubqueryBuilder V → SubqueryBuilder V
  column_of column sb = record sb { column = column }

  unfoldable pub scalar_subquery : Bytes → Builder V → ScalarSubqueryBuilder V
  unfolding clone
  scalar_subquery expr b = record { builder = clone b; select_expr = expr }

  unfoldable pub correlated_subquery : Bytes → Builder V → CorrelatedSubqueryBuilder V
  unfolding clone
  correlated_subquery column b = record { builder = clone b; column = column; correlation = [] }

  unfoldable pub correlate : Bytes → CorrelatedSubqueryBuilder V → CorrelatedSubqueryBuilder V
  correlate expr csb = record csb { correlation = expr }

module _ {V : Type 0} (d : Dialect) (m : Model V) where
  unfoldable pub build_nested : SubqueryBuilder V → Sql × List (AnyValue V)
  build_nested sb =
      let b = apply_soft_delete_scope d m sb.builder in
      let (whr, args) = where_sql d b.conditions 1 in
      (
        (lit (codes "SELECT ")
              ∷ lit (d.quote_identifier sb.column)
              ∷ lit (codes " FROM ")
              ∷ lit (d.quote_identifier sb.builder.table_name)
              ∷ [])
            ++ (whr
                ++ (order_sql b.order_by
                    ++ (number_sql (codes " LIMIT ") b.limit
                        ++ number_sql (codes " OFFSET ") b.offset))),
        args,
      )

  unfoldable pub to_subquery : SubqueryBuilder V → Subquery V
  unfolding build_nested
  to_subquery sb = let (sql, args) = build_nested sb in record { query = render d sql; args = args }

  unfoldable pub to_scalar : ScalarSubqueryBuilder V → Sql × List (AnyValue V)
  to_scalar ssb =
      let b = apply_soft_delete_scope d m ssb.builder in
      let (whr, args) = where_sql d b.conditions 1 in
      (
        (lit (codes "SELECT ")
              ∷ lit ssb.select_expr
              ∷ lit (codes " FROM ")
              ∷ lit (d.quote_identifier ssb.builder.table_name)
              ∷ [])
            ++ whr,
        args,
      )

  -- The correlation and what joins it to the conditions.
  unfoldable correlation_sql : Bytes → WhereItems V → Sql
  correlation_sql [] items = []
  correlation_sql (c ∷ cs) nil = lit (c ∷ cs) ∷ []
  correlation_sql (c ∷ cs) (cons _ _) = lit (c ∷ cs) ∷ lit (codes " AND ") ∷ []

  unfoldable pub to_correlated : CorrelatedSubqueryBuilder V → Sql × List (AnyValue V)
  unfolding correlation_sql
  to_correlated csb =
      let b = apply_soft_delete_scope d m csb.builder in
      let (whr, args) = build_where_clause_from d b.conditions 1 in
      (
        (lit (codes "SELECT ")
              ∷ lit (d.quote_identifier csb.column)
              ∷ lit (codes " FROM ")
              ∷ lit (d.quote_identifier csb.builder.table_name)
              ∷ lit (codes " WHERE ")
              ∷ [])
            ++ (correlation_sql csb.correlation b.conditions ++ whr),
        args,
      )

  params-correlation_sql :
      (text : Bytes) (items : WhereItems V) → params (correlation_sql text items) ≡ []
  unfolding correlation_sql
  params-correlation_sql [] items = params-nil
  params-correlation_sql (c ∷ cs) nil = simp (params-lit, params-nil)
  params-correlation_sql (c ∷ cs) (cons _ _) = simp (params-lit, params-nil)

  -- A subquery, plain, scalar or correlated, whose builder has no subquery condition of its own, has
  -- its placeholders numbered $1, $2, ... in the order of the text, one for each argument, the
  -- condition of the soft-delete scope included.
  pub nested_numbering :
      (sb : SubqueryBuilder V) (ssb : ScalarSubqueryBuilder V) (csb : CorrelatedSubqueryBuilder V)
      → NoSubquery sb.builder.conditions
      → NoSubquery ssb.builder.conditions
      → NoSubquery csb.builder.conditions
      → (params (build_nested sb).0 ≡ range 1 (length (build_nested sb).1))
        × (params (to_scalar ssb).0 ≡ range 1 (length (to_scalar ssb).1))
        × (params (to_correlated csb).0 ≡ range 1 (length (to_correlated csb).1))
  unfolding build_nested to_scalar to_correlated
  nested_numbering sb ssb csb h k l = (
    simp (params-append, params-lit, params-nil, params-order_sql, params-number_sql, append-nil)
        (params-where_sql d _ 1 (scoped-NoSubquery d m sb.builder h)),
    simp (params-append, params-lit, params-nil)
        (params-where_sql d _ 1 (scoped-NoSubquery d m ssb.builder k)),
    simp (params-append, params-lit, params-nil, params-correlation_sql)
        (build_where_clause_from_numbering d _ 1 (scoped-NoSubquery d m csb.builder l)),
  )
