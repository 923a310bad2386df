-- ===== src/Query/Fast.antt =====
-- query/fast_builder.go: FastBuilder, whose conditions are turned into text as they are added.
use genus.Prelude.{
  ℕ, ◌+◌, ◌≡◌, refl, sym, ap, ◌∙◌, List, [], ◌∷◌, ◌++◌, arith, codes, length, length-append,
  append-nil, if◌then◌else◌, map, ltb,
}
use genus.Prelude.Dict.{Bytes}
use genus.Query.Sql.{
  lit, Sql, Dialect, join, params, all_params, range, all_params-nil, all_params-cons,
  all_params-append, range-append, decimal,
}
use genus.Query.Condition.{
  Operator, is_null, is_not_null, in_list, not_in, between, eq, AnyValue, scalar, slice, strings,
  ints, int64s, anys, Condition, LogicalOperator, logical_and, logical_or,
}
use genus.Query.Where.{
  WhereItem, WhereItems, cond, group, subquery, exists, unknown, nil, cons, number, in_condition,
  between_condition, plain_condition, separator, bracketed,
}
use genus.Query.Numbering.{
  in_condition-IsNumbered, between_condition-IsNumbered, plain_condition-IsNumbered,
  null_condition-IsNumbered,
}

pub record FastBuilder (V : Type 0) : Type 0 where
  pub table_name : Bytes
  pub columns : Sql
  pub conditions : List Sql
  pub args : List (AnyValue V)
  pub order_by : Sql
  pub limit : ℕ
  pub offset : ℕ

-- `fastInterfaceSlice` knows four slice types; a slice of another is one value.
unfoldable pub fast_interface_slice : {V : Type 0} → AnyValue V → List (AnyValue V)
fast_interface_slice (slice strings vs) = map scalar vs
fast_interface_slice (slice ints vs) = map scalar vs
fast_interface_slice (slice int64s vs) = map scalar vs
fast_interface_slice (slice anys vs) = map scalar vs
fast_interface_slice v = v ∷ []

module _ {V : Type 0} where
  -- The `switch` of FastBuilder.buildCondition; `k` is `len(b.args) + 1`, which the call does not move.
  unfoldable pub fast_build_by : Operator → Condition V → ℕ → Sql × List (AnyValue V)
  unfolding in_condition between_condition plain_condition number
  fast_build_by is_null c k = (lit c.field ∷ lit (codes " IS NULL") ∷ [], [])
  fast_build_by is_not_null c k = (lit c.field ∷ lit (codes " IS NOT NULL") ∷ [], [])
  fast_build_by in_list c k =
      let b = in_condition c.field (codes " IN (") (fast_interface_slice c.value) k in
      (b.sql, b.args)
  fast_build_by not_in c k =
      let b = in_condition c.field (codes " NOT IN (") (fast_interface_slice c.value) k in
      (b.sql, b.args)
  fast_build_by between c k =
      let b = between_condition c.field (fast_interface_slice c.value) k in (b.sql, b.args)
  fast_build_by _ c k = let b = plain_condition c k in (b.sql, b.args)

  unfoldable pub fast_build_condition : Condition V → ℕ → Sql × List (AnyValue V)
  unfolding fast_build_by
  fast_build_condition c k = fast_build_by c.operator c k

unfoldable mutual
  -- One round of the loop of FastBuilder.buildConditionGroup.
  pub fast_item : {V : Type 0} → WhereItem V → ℕ → List Sql × List (AnyValue V)
  fast_item (cond c) k = let (sql, args) = fast_build_condition c k in (sql ∷ [], args)
  fast_item (group op items) k =
      let (parts, args) = fast_items items k in (bracketed (join (separator op) parts) ∷ [], args)
  fast_item (subquery field op sub) k = ([], [])
  fast_item (exists sub negative) k = ([], [])
  fast_item unknown k = ([], [])

  pub fast_items : {V : Type 0} → WhereItems V → ℕ → List Sql × List (AnyValue V)
  fast_items nil k = ([], [])
  fast_items (cons item items) k =
      let (parts, args) = fast_item item k in
      let (parts', args') = fast_items items k in (parts ++ parts', args ++ args')

module _ {V : Type 0} where
  -- FastBuilder.Where: a subquery condition is passed over in silence.
  unfoldable pub fast_where : WhereItem V → FastBuilder V → FastBuilder V
  unfolding fast_item
  fast_where item b =
      let (parts, args) = fast_item item (length b.args + 1) in
      record b { conditions = b.conditions ++ parts; args = b.args ++ args }

  unfoldable pub fast_where_all : List (WhereItem V) → FastBuilder V → FastBuilder V
  fast_where_all [] b = b
  fast_where_all (item ∷ items) b = fast_where_all items (fast_where item b)

  -- FastBuilder.buildSQL
  unfoldable pub build_sql : Dialect → FastBuilder V → Sql
  build_sql d b =
      let whr : Sql = elim b.conditions [
        | [] ↦ []
        | _ ↦ (lit (codes " WHERE ") ∷ []) ++ join (lit (codes " AND ") ∷ []) b.conditions
      ] in
      let ord : Sql = elim b.order_by [
        | [] ↦ []
        | _ ↦ (lit (codes " ORDER BY ") ∷ []) ++ b.order_by
      ] in
      let lim : Sql =
        if ltb 0 b.limit then lit (codes " LIMIT ") ∷ lit (decimal b.limit) ∷ [] else [] in
      let off : Sql =
        if ltb 0 b.offset then lit (codes " OFFSET ") ∷ lit (decimal b.offset) ∷ [] else [] in
      (lit (codes "SELECT ") ∷ [])
      ++ (b.columns
          ++ ((lit (codes " FROM ") ∷ lit (d.quote_identifier b.table_name) ∷ [])
              ++ (whr ++ (ord ++ (lim ++ off)))))

  -- The text of the conditions numbers the arguments from 1 without a gap.
  abbrev pub IsAligned : FastBuilder V → Type 0
  IsAligned b = all_params b.conditions ≡ range 1 (length b.args)

  fast_build_by-numbers :
      (o : Operator) (c : Condition V) (k : ℕ)
      → params (fast_build_by o c k).0 ≡ range k (length (fast_build_by o c k).1)
  unfolding fast_build_by
  fast_build_by-numbers is_null c k =
      (null_condition-IsNumbered {V = V} c.field (codes " IS NULL") k).numbers
  fast_build_by-numbers is_not_null c k =
      (null_condition-IsNumbered {V = V} c.field (codes " IS NOT NULL") k).numbers
  fast_build_by-numbers in_list c k =
      (in_condition-IsNumbered c.field (codes " IN (") (fast_interface_slice c.value) k).numbers
  fast_build_by-numbers not_in c k =
      (in_condition-IsNumbered c.field (codes " NOT IN (") (fast_interface_slice c.value) k).numbers
  fast_build_by-numbers between c k =
      (between_condition-IsNumbered c.field (fast_interface_slice c.value) k).numbers
  fast_build_by-numbers _ c k = (plain_condition-IsNumbered c k).numbers

  fast_where_cond :
      (c : Condition V) (b : FastBuilder V) → IsAligned b → IsAligned (fast_where (cond c) b)
  unfolding fast_where fast_build_condition
  fast_where_cond c b h =
      all_params-append b.conditions _
      ∙ (λ i.
          h i
          ++ (all_params-cons (fast_build_by c.operator c (length b.args + 1)).0 []
                ∙ (λ j.
                    params (fast_build_by c.operator c (length b.args + 1)).0 ++ all_params-nil j)
                ∙ append-nil _
                ∙ fast_build_by-numbers c.operator c (length b.args + 1))
              i)
      ∙ range-append 1 (length b.args) _ (length b.args + 1) (omega arith)
      ∙ ap (range 1) (sym (length-append b.args (fast_build_by c.operator c (length b.args + 1)).1))

  abbrev pub conditions_of : List (Condition V) → List (WhereItem V)
  conditions_of [] = []
  conditions_of (c ∷ cs) = cond c ∷ conditions_of cs

  -- Plain conditions, added one by one to a FastBuilder whose placeholders are numbered without a
  -- gap, one for each argument, leave them numbered so.
  fast_where_all-IsAligned :
      (cs : List (Condition V)) (b : FastBuilder V)
      → IsAligned b
      → IsAligned (fast_where_all (conditions_of cs) b)
  unfolding fast_where_all
  fast_where_all-IsAligned [] b h = h
  fast_where_all-IsAligned (c ∷ cs) b h = fast_where_all-IsAligned cs _ (fast_where_cond c b h)

  fast_eq :
      (c : Condition V) (k : ℕ)
      → c.operator ≡ eq
      → fast_build_condition c k ≡ ((plain_condition c k).sql, (plain_condition c k).args)
  unfolding fast_build_condition fast_build_by
  fast_eq c k p = ap (λ o. fast_build_by o c k) p

  -- The parts and the arguments of a group of two comparisons, numbered from `k`.
  two_items :
      (op : LogicalOperator) (x y : Condition V) (k : ℕ)
      → x.operator ≡ eq
      → y.operator ≡ eq
      → fast_item (group op (cons (cond x) (cons (cond y) nil))) k ≡ (
        bracketed (join (separator op) ((plain_condition x k).sql ∷ (plain_condition y k).sql ∷ []))
            ∷ [],
        x.value ∷ y.value ∷ [],
      )
  unfolding fast_item plain_condition
  two_items op x y k p q = rw (fast_eq x k p, fast_eq y k q) refl

  pair_params :
      (op : LogicalOperator) (x y : Condition V) (k : ℕ)
      → all_params (
          bracketed
            (join (separator op) ((plain_condition x k).sql ∷ (plain_condition y k).sql ∷ []))
          ∷ [])
        ≡ k ∷ k ∷ []
  unfolding plain_condition join params all_params
  pair_params logical_and x y k = refl
  pair_params logical_or x y k = refl

  -- A group of two = comparisons, added to any FastBuilder, gets one number for both placeholders,
  -- though it adds two arguments.
  fast_group_repeats :
      (b : FastBuilder V) (op : LogicalOperator) (x y : Condition V)
      → x.operator ≡ eq
      → y.operator ≡ eq
      → let b' = fast_where (group op (cons (cond x) (cons (cond y) nil))) b in
        (all_params b'.conditions
          ≡ all_params b.conditions ++ ((length b.args + 1) ∷ (length b.args + 1) ∷ []))
        × (b'.args ≡ b.args ++ (x.value ∷ y.value ∷ []))
  unfolding fast_where
  fast_group_repeats b op x y p q =
      let k : ℕ = length b.args + 1 in
      let e = two_items op x y k p q in
      (
        (λ i. all_params (b.conditions ++ (e i).0))
            ∙ all_params-append b.conditions _
            ∙ (λ i. all_params b.conditions ++ pair_params op x y k i),
        λ i. b.args ++ (e i).1,
      )
