-- ===== src/Query/Numbering.antt =====
-- query/builder.go: the placeholders of a WHERE clause are numbered without a gap, one for each argument.
use genus.Prelude.{
  ℕ, ◌+◌, ◌≡◌, refl, sym, ap, ◌∙◌, List, [], ◌∷◌, ◌++◌, arith, codes, length, length-append,
  append-nil,
}
use genus.Prelude.Dict.{Bytes}
use genus.Query.Sql.{
  lit, Dialect, join, params, all_params, range, params-lit, params-param, params-nil,
  params-append, params-join, all_params-nil, all_params-cons, all_params-append, range-nil,
  range-cons, range-one, range-two, range-append,
}
use genus.Query.Condition.{
  Operator, in_list, not_in, between, is_null, is_not_null, AnyValue, Condition, LogicalOperator,
  logical_and, logical_or, interface_slice,
}
use genus.Query.Where.{
  WhereItem, WhereItems, cond, group, subquery, exists, unknown, nil, cons, Built, Parts, number,
  in_condition, between_condition, plain_condition, build_by, build_condition, group_item,
  group_items, separator, bracketed, where_item, where_items, build_where_clause_from,
}

params-separator : (op : LogicalOperator) → params (separator op) ≡ []
params-separator logical_and = simp (params-lit, params-nil)
params-separator logical_or = simp (params-lit, params-nil)

module _ {V : Type 0} where
  -- Text, arguments and next number fit together.
  pub record IsNumbered (k : ℕ) (b : Built V) : Type 0 where
    pub numbers : params b.sql ≡ range k (length b.args)
    pub next : b.next ≡ k + length b.args

  pub record AreNumbered (k : ℕ) (b : Parts V) : Type 0 where
    pub numbers : all_params b.parts ≡ range k (length b.args)
    pub next : b.next ≡ k + length b.args

  params-number : (k : ℕ) (vs : List (AnyValue V)) → all_params (number k vs) ≡ range k (length vs)
  unfolding number
  params-number k [] = all_params-nil ∙ sym (range-nil k)
  params-number k (v ∷ vs) =
      simp (all_params-cons, params-param, params-nil, range-cons, params-number (k + 1) vs)

  pub in_condition-IsNumbered :
      (field op : Bytes) (vs : List (AnyValue V)) (k : ℕ)
      → IsNumbered k (in_condition field op vs k)
  unfolding in_condition
  in_condition-IsNumbered field op vs k = record {
    numbers =
        simp
          (
            params-append,
            params-lit,
            params-nil,
            append-nil,
            params-join (lit (codes ", ") ∷ []) (number k vs)
                (params-lit (codes ", ") [] ∙ params-nil),
          )
          (params-number k vs);
    next = refl;
  }

  pub between_condition-IsNumbered :
      (field : Bytes) (vs : List (AnyValue V)) (k : ℕ) → IsNumbered k (between_condition field vs k)
  unfolding between_condition
  between_condition-IsNumbered field [] k = record {
    numbers = params-nil ∙ sym (range-nil k);
    next = omega arith;
  }
  between_condition-IsNumbered field (a ∷ []) k = record {
    numbers = params-nil ∙ sym (range-nil k);
    next = omega arith;
  }
  between_condition-IsNumbered field (a ∷ b ∷ []) k = record {
    numbers = simp (params-lit, params-param, params-nil) (sym (range-two k));
    next = omega arith;
  }
  between_condition-IsNumbered field (a ∷ b ∷ c ∷ vs) k = record {
    numbers = params-nil ∙ sym (range-nil k);
    next = omega arith;
  }

  pub plain_condition-IsNumbered : (c : Condition V) (k : ℕ) → IsNumbered k (plain_condition c k)
  unfolding plain_condition
  plain_condition-IsNumbered c k = record {
    numbers = simp (params-lit, params-param, params-nil) (sym (range-one k));
    next = omega arith;
  }

  pub null_condition-IsNumbered :
      (field text : Bytes) (k : ℕ)
      → IsNumbered k (record { sql = lit field ∷ lit text ∷ []; args = []; next = k })
  null_condition-IsNumbered field text k = record {
    numbers = simp (params-lit, params-nil) (sym (range-nil k));
    next = omega arith;
  }

  build_by-IsNumbered : (o : Operator) (c : Condition V) (k : ℕ) → IsNumbered k (build_by o c k)
  unfolding build_by
  build_by-IsNumbered is_null c k = null_condition-IsNumbered c.field (codes " IS NULL") k
  build_by-IsNumbered is_not_null c k = null_condition-IsNumbered c.field (codes " IS NOT NULL") k
  build_by-IsNumbered in_list c k =
      in_condition-IsNumbered c.field (codes " IN (") (interface_slice c.value) k
  build_by-IsNumbered not_in c k =
      in_condition-IsNumbered c.field (codes " NOT IN (") (interface_slice c.value) k
  build_by-IsNumbered between c k = between_condition-IsNumbered c.field (interface_slice c.value) k
  build_by-IsNumbered _ c k = plain_condition-IsNumbered c k

  build_condition-IsNumbered : (c : Condition V) (k : ℕ) → IsNumbered k (build_condition c k)
  unfolding build_condition
  build_condition-IsNumbered c k = build_by-IsNumbered c.operator c k

  one-AreNumbered :
      (k : ℕ) (b : Built V)
      → IsNumbered k b
      → AreNumbered k (record { parts = b.sql ∷ []; args = b.args; next = b.next })
  one-AreNumbered k b v = record {
    numbers = simp (all_params-cons, all_params-nil, append-nil) v.numbers;
    next = v.next;
  }

  none-AreNumbered : (k : ℕ) → AreNumbered k (record { parts = []; args = []; next = k })
  none-AreNumbered k = record { numbers = all_params-nil ∙ sym (range-nil k); next = omega arith }

  append-AreNumbered :
      (k j : ℕ) (a b : Parts V)
      → AreNumbered k a
      → a.next ≡ j
      → AreNumbered j b
      → AreNumbered k
          (record { parts = a.parts ++ b.parts; args = a.args ++ b.args; next = b.next })
  append-AreNumbered k j a b v e w = record {
    numbers =
        all_params-append a.parts b.parts
        ∙ (λ i. v.numbers i ++ w.numbers i)
        ∙ range-append k (length a.args) (length b.args) j (omega (arith, v.next))
        ∙ ap (range k) (sym (length-append a.args b.args));
    next = omega (arith, v.next, w.next, length-append a.args b.args);
  }

  bracketed-IsNumbered :
      (k : ℕ) (op : LogicalOperator) (b : Parts V)
      → AreNumbered k b
      → AreNumbered k (record {
        parts = bracketed (join (separator op) b.parts) ∷ [];
        args = b.args;
        next = b.next;
      })
  bracketed-IsNumbered k op b v = record {
    numbers =
        simp (all_params-cons, all_params-nil, append-nil, params-append, params-lit, params-nil)
          (params-join (separator op) b.parts (params-separator op) ∙ v.numbers);
    next = v.next;
  }

mutual
  unfolding group_item group_items

  group_item-AreNumbered :
      {V : Type 0} (item : WhereItem V) (k : ℕ) → AreNumbered k (group_item item k)
  group_item-AreNumbered (cond c) k = one-AreNumbered k _ (build_condition-IsNumbered c k)
  group_item-AreNumbered (group op items) k =
      bracketed-IsNumbered k op (group_items items k) (group_items-AreNumbered items k)
  group_item-AreNumbered (subquery field op sub) k = none-AreNumbered k
  group_item-AreNumbered (exists sub negative) k = none-AreNumbered k
  group_item-AreNumbered unknown k = none-AreNumbered k

  group_items-AreNumbered :
      {V : Type 0} (items : WhereItems V) (k : ℕ) → AreNumbered k (group_items items k)
  group_items-AreNumbered nil k = none-AreNumbered k
  group_items-AreNumbered (cons item items) k =
      append-AreNumbered k (group_item item k).next (group_item item k) _
        (group_item-AreNumbered item k) refl
        (group_items-AreNumbered items (group_item item k).next)

-- No subquery stands at the top of the conditions.
abbrev pub NoSubquery : {V : Type 0} → WhereItems V → Type 0
NoSubquery nil = Unit
NoSubquery (cons (subquery field op sub) items) = ⊥
NoSubquery (cons (exists sub negative) items) = ⊥
NoSubquery (cons (cond c) items) = NoSubquery items
NoSubquery (cons (group op gs) items) = NoSubquery items
NoSubquery (cons unknown items) = NoSubquery items

module _ {V : Type 0} (d : Dialect) where
  where_items-AreNumbered :
      (items : WhereItems V) (k : ℕ) → NoSubquery items → AreNumbered k (where_items d items k)
  unfolding where_items where_item
  where_items-AreNumbered nil k h = none-AreNumbered k
  where_items-AreNumbered (cons (cond c) items) k h =
      append-AreNumbered k _ (group_item (cond c) k) _ (group_item-AreNumbered (cond c) k) refl
        (where_items-AreNumbered items _ h)
  where_items-AreNumbered (cons (group op gs) items) k h =
      append-AreNumbered k _ (group_item (group op gs) k) _ (group_item-AreNumbered (group op gs) k)
        refl (where_items-AreNumbered items _ h)
  where_items-AreNumbered (cons unknown items) k h =
      append-AreNumbered k k (record { parts = []; args = []; next = k }) _ (none-AreNumbered k)
        refl (where_items-AreNumbered items k h)
  where_items-AreNumbered (cons (subquery field op sub) items) k h = absurd h
  where_items-AreNumbered (cons (exists sub negative) items) k h = absurd h

  -- In a WHERE clause with no subquery, groups nested to any depth included, the placeholders are
  -- numbered from the start index without a gap, in the order of the text, and there are as many
  -- arguments as placeholders.
  pub build_where_clause_from_numbering :
      (items : WhereItems V) (start_index : ℕ)
      → NoSubquery items
      → let (sql, args) = build_where_clause_from d items start_index in
        params sql ≡ range start_index (length args)
  unfolding build_where_clause_from
  build_where_clause_from_numbering nil k h = params-nil ∙ sym (range-nil k)
  build_where_clause_from_numbering (cons item items) k h =
      params-join (separator logical_and) _ (params-separator logical_and)
      ∙ (where_items-AreNumbered (cons item items) k h).numbers
