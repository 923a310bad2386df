-- ===== src/Query/Statements.antt =====
-- query/builder.go and query/mutation.go: the placeholders of whole statements, and the guard against
-- mutations of a whole table.
use genus.Prelude.{
  ℕ, suc, ◌+◌, ◌≡◌, ◌↔◌, refl, sym, ap, ◌∙◌, false, Option, none, some, List, [], ◌∷◌, ◌++◌, arith,
  codes, length, length-append, append-nil, inl, inr, list_cases, ℤ,
}
use genus.Prelude.Dict.{Bytes}
use genus.Query.Sql.{
  lit, Dialect, params, all_params, range, params-lit, params-param, params-nil, params-append,
  params-join, all_params-nil, all_params-cons, range-nil, range-cons, range-append,
}
use genus.Query.Where.{WhereItems, nil, cons}
use genus.Query.Builder.{
  Builder, Assignment, OrderBy, JoinClause, where_sql, columns_sql, column_parts, order_parts,
  joins_sql, join_sql, order_sql, number_sql, build_select_query, build_count_query,
  build_delete_query,
}
use genus.Query.Mutation.{
  no_where, Model, set_parts, values_of, with_updated_at, build_update_query, guard_global_mutation,
  update, delete, force_delete,
}
use genus.Query.Numbering.{NoSubquery, build_where_clause_from_numbering}

params-order_parts : (os : List OrderBy) → all_params (order_parts os) ≡ []
unfolding order_parts
params-order_parts [] = all_params-nil
params-order_parts (o ∷ os) = simp (all_params-cons, params-lit, params-nil) (params-order_parts os)

params-column_parts : (cs : List Bytes) → all_params (column_parts cs) ≡ []
unfolding column_parts
params-column_parts [] = all_params-nil
params-column_parts (c ∷ cs) =
    simp (all_params-cons, params-lit, params-nil) (params-column_parts cs)

params-comma : params (lit (codes ", ") ∷ []) ≡ []
params-comma = simp (params-lit, params-nil)

pub params-order_sql : (os : List OrderBy) → params (order_sql os) ≡ []
unfolding order_sql
params-order_sql [] = params-nil
params-order_sql (o ∷ os) =
    simp (params-append, params-lit, params-nil)
      (params-join (lit (codes ", ") ∷ []) (order_parts (o ∷ os)) params-comma
        ∙ params-order_parts (o ∷ os))

pub params-number_sql : (keyword : Bytes) (n : Option ℤ) → params (number_sql keyword n) ≡ []
unfolding number_sql
params-number_sql keyword none = params-nil
params-number_sql keyword (some n) = simp (params-lit, params-nil)

params-join_sql : (d : Dialect) (j : JoinClause) → params (join_sql d j) ≡ []
unfolding join_sql
params-join_sql d j = elim (list_cases j.alias) [
  | inl e ↦ rw (e, join_sql) (simp (params-append, params-lit, params-nil))
  | inr (c, rest, e) ↦ rw (e, join_sql) (simp (params-append, params-lit, params-nil))
]

params-joins_sql : (d : Dialect) (js : List JoinClause) → params (joins_sql d js) ≡ []
unfolding joins_sql
params-joins_sql d [] = params-nil
params-joins_sql d (j ∷ js) =
    simp (params-append, params-lit, params-nil, params-join_sql) (params-joins_sql d js)

module _ {V : Type 0} (d : Dialect) where
  params-columns_sql : (b : Builder V) → params (columns_sql d b) ≡ []
  unfolding columns_sql
  params-columns_sql b = elim (list_cases b.select_cols) [
    | inl e ↦ elim (list_cases b.joins) [
      | inl f ↦ rw (e, columns_sql) (rw (f, columns_sql) (simp (params-lit, params-nil)))
      | inr (j, js, f) ↦ rw (e, columns_sql) (rw (f, columns_sql) (simp (params-lit, params-nil)))
    ]
    | inr (c, cs, e) ↦
        rw (e, columns_sql)
          (params-join (lit (codes ", ") ∷ []) (column_parts b.select_cols) params-comma
            ∙ params-column_parts b.select_cols)
  ]

  pub params-where_sql :
      (items : WhereItems V) (k : ℕ)
      → NoSubquery items
      → params (where_sql d items k).0 ≡ range k (length (where_sql d items k).1)
  unfolding where_sql
  params-where_sql nil k h = params-nil ∙ sym (range-nil k)
  params-where_sql (cons item items) k h =
      simp (params-append, params-lit, params-nil)
        (build_where_clause_from_numbering d (cons item items) k h)

  -- In every SELECT, COUNT and DELETE statement of a builder with no subquery condition, the
  -- placeholders are $1, $2, ... in the order of the text, one for each argument.
  pub statements_numbering :
      (b : Builder V)
      → NoSubquery b.conditions
      → (params (build_select_query d b).0 ≡ range 1 (length (build_select_query d b).1))
        × (params (build_count_query d b).0 ≡ range 1 (length (build_count_query d b).1))
        × (params (build_delete_query d b).0 ≡ range 1 (length (build_delete_query d b).1))
  unfolding build_select_query build_count_query build_delete_query
  statements_numbering b h =
      let whr = params-where_sql b.conditions 1 h in
      (
        simp
            (
              params-append, params-lit, params-nil, params-columns_sql, params-joins_sql,
              params-order_sql, params-number_sql, append-nil,
            )
            whr,
        simp (params-append, params-lit, params-nil) whr,
        simp (params-append, params-lit, params-nil) whr,
      )

  params-set_parts :
      (k : ℕ) (as' : List (Assignment V))
      → all_params (set_parts k as') ≡ range k (length (values_of as'))
  unfolding set_parts values_of
  params-set_parts k [] = all_params-nil ∙ sym (range-nil k)
  params-set_parts k (a ∷ rest) = simp (
    all_params-cons,
    params-lit,
    params-param,
    params-nil,
    range-cons,
    params-set_parts (k + 1) rest,
  )

module _ {V : Type 0} (d : Dialect) (m : Model V) where
  length-values_of : (as' : List (Assignment V)) → length (values_of as') ≡ length as'
  unfolding values_of
  length-values_of [] = refl
  length-values_of (a ∷ rest) = ap suc (length-values_of rest)

  -- In an UPDATE whose conditions have no subquery, the placeholders of the WHERE clause go on where those
  -- of the SET clause end, the added updated_at included, so that all are $1, $2, ... in the order of
  -- the text, one for each argument.
  pub build_update_query_numbering :
      (b : Builder V) (assignments : List (Assignment V))
      → NoSubquery b.conditions
      → params (build_update_query d m b assignments).0
        ≡ range 1 (length (build_update_query d m b assignments).1)
  unfolding build_update_query
  build_update_query_numbering b assignments h =
      let all = with_updated_at d m assignments in
      let count = length all in
      let start : (λ (k : ℕ). k) (count + 1) ≡ 1 + length (values_of all) =
        omega (arith, length-values_of all) in
      let set_part =
        params-join (lit (codes ", ") ∷ []) (set_parts 1 all) params-comma
        ∙ params-set_parts d 1 all in
      let where_part = params-where_sql d b.conditions (count + 1) h in
      simp (params-append, params-lit, params-nil)
        ((λ i. set_part i ++ where_part i)
          ∙ range-append 1 (length (values_of all))
              (length (where_sql d b.conditions (count + 1)).1) (count + 1) start
          ∙ ap (range 1)
              (sym (length-append (values_of all) (where_sql d b.conditions (count + 1)).1)))

  -- The builder has no condition, and AllowGlobal was not called.
  abbrev pub Unguarded : Builder V → Type 0
  Unguarded b = (b.conditions ≡ nil) × (b.allow_global ≡ false)

  guard_iff : (b : Builder V) → (guard_global_mutation d m b ≡ false) ↔ Unguarded b
  unfolding guard_global_mutation
  guard_iff b = (λ h. ground arith, λ h. ground arith)

  update_iff :
      (b : Builder V) (a : Assignment V) (rest : List (Assignment V))
      → (update d m b (a ∷ rest) ≡ no_where) ↔ (guard_global_mutation d m b ≡ false)
  unfolding update
  update_iff b a rest = (λ h. ground arith, λ h. ground arith)

  force_delete_iff :
      (b : Builder V) → (force_delete d m b ≡ no_where) ↔ (guard_global_mutation d m b ≡ false)
  unfolding force_delete
  force_delete_iff b = (λ h. ground arith, λ h. ground arith)

  delete_iff : (b : Builder V) → (delete d m b ≡ no_where) ↔ (guard_global_mutation d m b ≡ false)
  unfolding delete
  delete_iff b = (λ h. ground arith, λ h. ground arith)

  through :
      (b : Builder V) {A : Type 0} → A ↔ (guard_global_mutation d m b ≡ false) → A ↔ Unguarded b
  through b e = (λ h. (guard_iff b).0 (e.0 h), λ h. e.1 ((guard_iff b).1 h))

  -- An UPDATE with assignments, a DELETE, soft or not, and a ForceDelete are refused exactly if the
  -- builder has no condition of its own and AllowGlobal was not called; the scope of soft deletion,
  -- which is added later, does not count as a condition.
  pub mutations_refused_iff :
      (b : Builder V) (a : Assignment V) (rest : List (Assignment V))
      → ((update d m b (a ∷ rest) ≡ no_where) ↔ Unguarded b)
        × ((delete d m b ≡ no_where) ↔ Unguarded b)
        × ((force_delete d m b ≡ no_where) ↔ Unguarded b)
  mutations_refused_iff b a rest =
      (through b (update_iff b a rest), through b (delete_iff b), through b (force_delete_iff b))
