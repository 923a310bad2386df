-- ===== src/Tests/Query.antt =====
-- query/: statements over one table, with numbers for values.
use genus.Prelude.{
  List, ℕ, ◌≡◌, ◌↔◌, refl, true, false, none, some, [], ◌∷◌, ◌++◌, arith, pos, codes, length,
  bytes_eq,
}
use genus.Query.Sql.{decimal, postgres, render, params, range, join}
use genus.Query.Condition.{
  eq, gt, in_list, operator_text, interface_slice, scalar, slice, ints, Condition, logical_or,
}
use genus.Query.Where.{
  WhereItems, cond, group, nil, cons, dollar, rewrite_placeholders, build_condition,
  build_where_clause_from,
}
use genus.Query.Numbering.{build_where_clause_from_numbering}
use genus.Query.Rewrite.{rewrite_placeholders_swaps}
use genus.Query.Builder.{Builder, Assignment, build_select_query}
use genus.Query.Mutation.{Model, no_where, update, delete, force_delete, build_update_query}
use genus.Query.Statements.{build_update_query_numbering, Unguarded, mutations_refused_iff}
use genus.Query.Chain.{
  new_builder, BuilderCall, where_call, limit_call, order_call, chain, find_query, first_query,
  count_query,
}
use genus.Query.Scope.{live, apply_soft_delete_scope_lem, find_query_numbering}
use genus.Query.Nested.{
  SubqueryBuilder, ScalarSubqueryBuilder, CorrelatedSubqueryBuilder, build_nested, to_scalar,
  to_correlated, nested_numbering,
}
use genus.Query.Mutation.{apply_soft_delete_scope}
use genus.Query.Sql.{render, mysql}
use genus.Query.Chain.{add_where, order_by_desc, limit_to}
use genus.Query.Builder.{snoc, order_parts}
use genus.Query.Fast.{FastBuilder}

decimal_test : decimal 1203 ≡ codes "1203"
unfolding decimal
decimal_test = refl

abbrev older : Condition ℕ
older = record { field = codes "age"; operator = gt; value = scalar 18 }

abbrev named : Condition ℕ
named = record { field = codes "name"; operator = eq; value = scalar 5 }

abbrev listed : Condition ℕ
listed = record { field = codes "id"; operator = in_list; value = slice ints (1 ∷ 2 ∷ []) }

abbrev items : WhereItems ℕ
items = cons (cond older) (cons (group logical_or (cons (cond named) (cons (cond listed) nil))) nil)

where_test :
    render postgres (build_where_clause_from postgres items 3).0
    ≡ codes "age > $3 AND (name = $4 OR id IN ($5, $6))"
unfolding render postgres build_where_clause_from build_condition join operator_text interface_slice
where_test = refl

abbrev builder : Builder ℕ
builder = record {
  table_name = codes "users";
  conditions = items;
  order_by = [];
  limit = some (pos 10);
  offset = none;
  select_cols = [];
  disable_scopes = false;
  joins = [];
  preloads = [];
  allow_global = false;
}

abbrev model : Model ℕ
model = record { soft_deletable = true; has_updated_at = true; now = 77; null = 0 }

abbrev rename : Assignment ℕ
rename = record { field = codes "name"; value = scalar 6 }

abbrev fast : FastBuilder ℕ
fast = record {
  table_name = codes "users";
  columns = [];
  conditions = [];
  args = [];
  order_by = [];
  limit = 0;
  offset = 0;
}

build_where_clause_from_numbering_example :
    let (sql, args) = build_where_clause_from postgres items 3 in params sql ≡ range 3 (length args)
build_where_clause_from_numbering_example = build_where_clause_from_numbering postgres items 3 tt

build_update_query_numbering_example :
    params (build_update_query postgres model builder (rename ∷ [])).0
    ≡ range 1 (length (build_update_query postgres model builder (rename ∷ [])).1)
build_update_query_numbering_example =
    build_update_query_numbering postgres model builder (rename ∷ []) tt

mutations_refused_iff_example :
    ((update postgres model builder (rename ∷ []) ≡ no_where) ↔ Unguarded postgres model builder)
    × ((delete postgres model builder ≡ no_where) ↔ Unguarded postgres model builder)
    × ((force_delete postgres model builder ≡ no_where) ↔ Unguarded postgres model builder)
mutations_refused_iff_example = mutations_refused_iff postgres model builder rename []

rewrite_placeholders_swaps_example :
    (rewrite_placeholders postgres
      (codes "a = " ++ (dollar 1 ++ (codes " AND b = " ++ (dollar 2 ++ []))))
      1
      2).0
    ≡ codes "a = " ++ (dollar 2 ++ (codes " AND b = " ++ (dollar 1 ++ [])))
unfolding bytes_eq postgres
rewrite_placeholders_swaps_example =
    rewrite_placeholders_swaps postgres (codes "a = ") (codes " AND b = ") [] 1 refl (ground arith)
      (ground arith)

abbrev calls : List (BuilderCall ℕ)
calls =
    where_call (cond older)
    ∷ limit_call (pos 5)
    ∷ where_call (cond listed)
    ∷ order_call (codes "age") true
    ∷ []

find_test :
    render mysql (find_query mysql model (chain 0 calls (new_builder (codes "users")))).0
    ≡ codes
        "SELECT * FROM `users` WHERE age > ? AND id IN (?, ?) AND deleted_at IS NULL ORDER BY age DESC LIMIT 5"
unfolding find_query chain render build_select_query apply_soft_delete_scope order_by_desc add_where
    limit_to new_builder mysql snoc build_where_clause_from join build_condition operator_text
    interface_slice order_parts decimal
find_test = refl

apply_soft_delete_scope_lem_example :
    (apply_soft_delete_scope postgres model
      (chain 0 calls (new_builder (codes "users")))).conditions
    ≡ cons (cond older) (cons (cond listed) (cons (live postgres model) nil))
apply_soft_delete_scope_lem_example =
    apply_soft_delete_scope_lem postgres model (codes "users") calls

find_query_numbering_example :
    let b = chain 0 calls (new_builder (codes "users")) in
    (params (find_query postgres model b).0 ≡ range 1 (length (find_query postgres model b).1))
    × (params (first_query postgres model b).0 ≡ range 1 (length (first_query postgres model b).1))
    × (params (count_query postgres model b).0 ≡ range 1 (length (count_query postgres model b).1))
find_query_numbering_example = find_query_numbering postgres model (codes "users") calls tt

abbrev nested : SubqueryBuilder ℕ
nested = record { builder = builder; column = codes "id" }

abbrev scalar_one : ScalarSubqueryBuilder ℕ
scalar_one = record { builder = builder; select_expr = codes "MAX(age)" }

abbrev correlated : CorrelatedSubqueryBuilder ℕ
correlated = record {
  builder = builder;
  column = codes "id";
  correlation = codes "posts.user_id = users.id";
}

nested_numbering_example :
    (params (build_nested postgres model nested).0
      ≡ range 1 (length (build_nested postgres model nested).1))
    × (params (to_scalar postgres model scalar_one).0
        ≡ range 1 (length (to_scalar postgres model scalar_one).1))
    × (params (to_correlated postgres model correlated).0
        ≡ range 1 (length (to_correlated postgres model correlated).1))
nested_numbering_example = nested_numbering postgres model nested scalar_one correlated tt tt tt
