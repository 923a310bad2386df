-- ===== src/Query/Where.antt =====
-- query/builder.go and query/subquery.go: the WHERE clause. `*argIndex` is passed in and returned.
use genus.Prelude.{
  ℕ, zero, suc, ◌+◌, Bool, true, false, List, [], ◌∷◌, ◌++◌, codes, length, drop, take, bytes_eq,
  if◌then◌else◌,
}
use genus.Prelude.Dict.{Bytes}
use genus.Query.Sql.{lit, param, Sql, Dialect, join, decimal}
use genus.Query.Condition.{
  Operator, in_list, not_in, between, is_null, is_not_null, operator_text, AnyValue, Condition,
  LogicalOperator, logical_and, logical_or, interface_slice,
}

-- `Subquery`: SQL that is built already, with its arguments.
pub record Subquery (V : Type 0) : Type 0 where
  pub query : Bytes
  pub args : List (AnyValue V)

-- The elements of `[]interface{}` conditions: the four types that the switches know, or another.
mutual
  pub data WhereItem (V : Type 0) : Type 0 where
    cond : Condition V → WhereItem V
    group : LogicalOperator → WhereItems V → WhereItem V
    subquery : Bytes → Operator → Subquery V → WhereItem V
    exists : Subquery V → Bool → WhereItem V
    unknown : WhereItem V

  pub data WhereItems (V : Type 0) : Type 0 where
    nil : WhereItems V
    cons : WhereItem V → WhereItems V → WhereItems V

-- SQL text, arguments and the next number: `(string, []interface{})` and `*argIndex`.
pub record Built (V : Type 0) : Type 0 where
  pub sql : Sql
  pub args : List (AnyValue V)
  pub next : ℕ

-- `parts` and `args` of a loop over conditions.
pub record Parts (V : Type 0) : Type 0 where
  pub parts : List Sql
  pub args : List (AnyValue V)
  pub next : ℕ

module _ {V : Type 0} where
  -- The placeholders of the loop over the values of IN.
  unfoldable pub number : ℕ → List (AnyValue V) → List Sql
  number k [] = []
  number k (v ∷ vs) = (param k ∷ []) ∷ number (k + 1) vs

  unfoldable pub in_condition : Bytes → Bytes → List (AnyValue V) → ℕ → Built V
  in_condition field op values k = record {
    sql =
        (lit field ∷ lit op ∷ [])
        ++ (join (lit (codes ", ") ∷ []) (number k values) ++ (lit (codes ")") ∷ []));
    args = values;
    next = k + length values;
  }

  unfoldable pub between_condition : Bytes → List (AnyValue V) → ℕ → Built V
  between_condition field (low ∷ high ∷ []) k = record {
    sql = lit field ∷ lit (codes " BETWEEN ") ∷ param k ∷ lit (codes " AND ") ∷ param (k + 1) ∷ [];
    args = low ∷ high ∷ [];
    next = k + 2;
  }
  between_condition field _ k = record { sql = []; args = []; next = k }

  unfoldable pub plain_condition : Condition V → ℕ → Built V
  plain_condition c k = record {
    sql =
        lit c.field
        ∷ lit (codes " ")
        ∷ lit (operator_text c.operator)
        ∷ lit (codes " ")
        ∷ param k
        ∷ [];
    args = c.value ∷ [];
    next = k + 1;
  }

  -- The `switch` of `buildCondition`, on the condition's operator.
  unfoldable pub build_by : Operator → Condition V → ℕ → Built V
  unfolding number in_condition between_condition plain_condition
  build_by is_null c k = record {
    sql = lit c.field ∷ lit (codes " IS NULL") ∷ [];
    args = [];
    next = k;
  }
  build_by is_not_null c k = record {
    sql = lit c.field ∷ lit (codes " IS NOT NULL") ∷ [];
    args = [];
    next = k;
  }
  build_by in_list c k = in_condition c.field (codes " IN (") (interface_slice c.value) k
  build_by not_in c k = in_condition c.field (codes " NOT IN (") (interface_slice c.value) k
  build_by between c k = between_condition c.field (interface_slice c.value) k
  build_by _ c k = plain_condition c k

  unfoldable pub build_condition : Condition V → ℕ → Built V
  unfolding build_by
  build_condition c k = build_by c.operator c k

abbrev pub separator : LogicalOperator → Sql
separator logical_and = lit (codes " AND ") ∷ []
separator logical_or = lit (codes " OR ") ∷ []

abbrev pub bracketed : Sql → Sql
bracketed sql = (lit (codes "(") ∷ []) ++ (sql ++ (lit (codes ")") ∷ []))

unfoldable mutual
  -- One round of the loop of `buildConditionGroup`: a part for a condition or a group, and none for
  -- any other element.
  pub group_item : {V : Type 0} → WhereItem V → ℕ → Parts V
  group_item (cond c) k =
      let b = build_condition c k in record { parts = b.sql ∷ []; args = b.args; next = b.next }
  group_item (group op items) k =
      let b = group_items items k in
      record { parts = bracketed (join (separator op) b.parts) ∷ []; args = b.args; next = b.next }
  group_item (subquery field op sub) k = record { parts = []; args = []; next = k }
  group_item (exists sub negative) k = record { parts = []; args = []; next = k }
  group_item unknown k = record { parts = []; args = []; next = k }

  pub group_items : {V : Type 0} → WhereItems V → ℕ → Parts V
  group_items nil k = record { parts = []; args = []; next = k }
  group_items (cons item items) k =
      let first = group_item item k in
      let rest = group_items items first.next in
      record { parts = first.parts ++ rest.parts; args = first.args ++ rest.args; next = rest.next }

-- strings.Replace(s, old, new, 1), for an `old` that is not empty
unfoldable pub replace_first : Bytes → Bytes → Bytes → Bytes
replace_first old new [] = []
replace_first old new (c ∷ s) =
    let rest = c ∷ replace_first old new s in
    elim (bytes_eq (take (length old) (c ∷ s)) old) [
      | true ↦ new ++ drop (length old) (c ∷ s)
      | false ↦ rest
    ]

-- `fmt.Sprintf("$%d", n)`
abbrev pub dollar : ℕ → Bytes
dollar n = b'$' ∷ decimal n

-- The loop of `rewritePlaceholders`, for i, i - 1, ..., 1.
unfoldable pub rewrite_from : ℕ → Bytes → ℕ → Bytes × ℕ
rewrite_from zero sql k = (sql, k)
rewrite_from (suc i) sql k = rewrite_from i (replace_first (dollar (suc i)) (dollar k) sql) (k + 1)

unfoldable pub rewrite_placeholders : Dialect → Bytes → ℕ → ℕ → Bytes × ℕ
unfolding rewrite_from replace_first
rewrite_placeholders d sql k num_args =
    if bytes_eq (d.placeholder 1) (codes "?")
    then (sql, k + num_args)
    else rewrite_from num_args sql k

module _ {V : Type 0} (d : Dialect) where
  unfoldable pub build_subquery_condition : Bytes → Operator → Subquery V → ℕ → Built V
  unfolding rewrite_placeholders
  build_subquery_condition field op sub k =
      let (rewritten, next) = rewrite_placeholders d sub.query k (length sub.args) in
      let op_text : Bytes = elim op [ not_in ↦ codes " NOT IN (" | _ ↦ codes " IN (" ] in
      record {
        sql = lit field ∷ lit op_text ∷ lit rewritten ∷ lit (codes ")") ∷ [];
        args = sub.args;
        next = next;
      }

  unfoldable pub build_exists_condition : Subquery V → Bool → ℕ → Built V
  unfolding rewrite_placeholders
  build_exists_condition sub negative k =
      let (rewritten, next) = rewrite_placeholders d sub.query k (length sub.args) in
      record {
        sql =
            lit (if negative then codes "NOT EXISTS (" else codes "EXISTS (")
            ∷ lit rewritten
            ∷ lit (codes ")")
            ∷ [];
        args = sub.args;
        next = next;
      }

  abbrev one_part : Built V → Parts V
  one_part b = record { parts = b.sql ∷ []; args = b.args; next = b.next }

  -- One round of the loop of `buildWhereClauseFrom`.
  unfoldable pub where_item : WhereItem V → ℕ → Parts V
  unfolding group_item build_subquery_condition build_exists_condition
  where_item (cond c) k = group_item (cond c) k
  where_item (group op items) k = group_item (group op items) k
  where_item (subquery field op sub) k = one_part (build_subquery_condition field op sub k)
  where_item (exists sub negative) k = one_part (build_exists_condition sub negative k)
  where_item unknown k = record { parts = []; args = []; next = k }

  unfoldable pub where_items : WhereItems V → ℕ → Parts V
  unfolding where_item
  where_items nil k = record { parts = []; args = []; next = k }
  where_items (cons item items) k =
      let first = where_item item k in
      let rest = where_items items first.next in
      record { parts = first.parts ++ rest.parts; args = first.args ++ rest.args; next = rest.next }

  unfoldable pub build_where_clause_from : WhereItems V → ℕ → Sql × List (AnyValue V)
  unfolding where_items
  build_where_clause_from nil start_index = ([], [])
  build_where_clause_from (cons item items) start_index =
      let b = where_items (cons item items) start_index in
      (join (separator logical_and) b.parts, b.args)
