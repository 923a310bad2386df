-- ===== src/Query/Scope.antt =====
-- query/scope.go and query/builder.go: what a chain of calls leaves in the WHERE clause.
use genus.Prelude.{
  pos, ◌≡◌, refl, sym, ap, ◌∙◌, Bool, true, false, ◌&&◌, ◌||◌, not, List, [], ◌∷◌, arith, length,
  if◌then◌else◌, Bool-cases, inl, inr,
}
use genus.Prelude.Dict.{Bytes}
use genus.Query.Sql.{Dialect, params, range}
use genus.Query.Condition.{is_null, scalar}
use genus.Query.Where.{WhereItem, WhereItems, cond, group, subquery, exists, unknown, nil, cons}
use genus.Query.Builder.{Builder, snoc, deleted_at_column}
use genus.Query.Mutation.{Model, apply_soft_delete_scope}
use genus.Query.Numbering.{NoSubquery}
use genus.Query.Statements.{statements_numbering}
use genus.Query.Chain.{
  new_builder, clone, order_by_asc, order_by_desc, limit_to, offset_by, select_columns,
  with_trashed, trashed_only, only_trashed, add_join, preload, where_subquery, where_exists,
  allow_every_row, find_query, first_query, count_query, BuilderCall, where_call, order_call,
  with_trashed_call, only_trashed_call, subquery_call, exists_call, call, chain,
}

abbrev pub append_items : {V : Type 0} → WhereItems V → WhereItems V → WhereItems V
append_items nil bs = bs
append_items (cons a as') bs = cons a (append_items as' bs)

append_items_assoc :
    {V : Type 0} (as' bs cs : WhereItems V)
    → append_items (append_items as' bs) cs ≡ append_items as' (append_items bs cs)
append_items_assoc nil bs cs = refl
append_items_assoc (cons a as') bs cs = ap (cons a) (append_items_assoc as' bs cs)

append_items_nil : {V : Type 0} (as' : WhereItems V) → append_items as' nil ≡ as'
append_items_nil nil = refl
append_items_nil (cons a as') = ap (cons a) (append_items_nil as')

snoc_append :
    {V : Type 0} (as' : WhereItems V) (a : WhereItem V) → snoc as' a ≡ append_items as' (cons a nil)
unfolding snoc
snoc_append nil a = refl
snoc_append (cons b as') a = ap (cons b) (snoc_append as' a)

NoSubquery-append :
    {V : Type 0} (as' bs : WhereItems V)
    → NoSubquery as'
    → NoSubquery bs
    → NoSubquery (append_items as' bs)
NoSubquery-append nil bs h k = k
NoSubquery-append (cons (cond c) as') bs h k = NoSubquery-append as' bs h k
NoSubquery-append (cons (group op gs) as') bs h k = NoSubquery-append as' bs h k
NoSubquery-append (cons unknown as') bs h k = NoSubquery-append as' bs h k
NoSubquery-append (cons (subquery field op sub) as') bs h k = absurd h
NoSubquery-append (cons (exists sub negative) as') bs h k = absurd h

module _ {V : Type 0} (null : V) where
  -- What one call adds to the conditions.
  abbrev pub added_by : BuilderCall V → WhereItems V
  added_by (where_call item) = cons item nil
  added_by only_trashed_call = cons (cond (trashed_only null)) nil
  added_by (subquery_call field op sub) = cons (subquery field op sub) nil
  added_by (exists_call negative sub) = cons (exists sub negative) nil
  added_by _ = nil

  abbrev pub added : List (BuilderCall V) → WhereItems V
  added [] = nil
  added (c ∷ cs) = append_items (added_by c) (added cs)

  -- The calls that switch the scope off.
  abbrev pub sees_trashed : BuilderCall V → Bool
  sees_trashed with_trashed_call = true
  sees_trashed only_trashed_call = true
  sees_trashed _ = false

  abbrev pub any_sees_trashed : List (BuilderCall V) → Bool
  any_sees_trashed [] = false
  any_sees_trashed (c ∷ cs) = sees_trashed c || any_sees_trashed cs

  call_conditions :
      (c : BuilderCall V) (b : Builder V)
      → (call null c b).conditions ≡ append_items b.conditions (added_by c)
  unfolding call order_by_asc order_by_desc limit_to offset_by select_columns add_join preload
      only_trashed with_trashed where_subquery where_exists allow_every_row
  call_conditions (where_call item) b = snoc_append b.conditions item
  call_conditions (subquery_call field op sub) b = snoc_append b.conditions (subquery field op sub)
  call_conditions (exists_call negative sub) b = snoc_append b.conditions (exists sub negative)
  call_conditions only_trashed_call b = snoc_append b.conditions (cond (trashed_only null))
  call_conditions (order_call column true) b = sym (append_items_nil b.conditions)
  call_conditions (order_call column false) b = sym (append_items_nil b.conditions)
  call_conditions _ b = sym (append_items_nil b.conditions)

  call_scopes :
      (c : BuilderCall V) (b : Builder V)
      → (call null c b).disable_scopes ≡ (b.disable_scopes || sees_trashed c)
  unfolding call order_by_asc order_by_desc limit_to offset_by select_columns add_join preload
      only_trashed with_trashed where_subquery where_exists allow_every_row
  call_scopes (order_call column true) b = ground arith
  call_scopes (order_call column false) b = ground arith
  call_scopes _ b = ground arith

  chain_conditions :
      (cs : List (BuilderCall V)) (b : Builder V)
      → (chain null cs b).conditions ≡ append_items b.conditions (added cs)
  unfolding chain
  chain_conditions [] b = sym (append_items_nil b.conditions)
  chain_conditions (c ∷ cs) b =
      chain_conditions cs (call null c b)
      ∙ (λ i. append_items (call_conditions c b i) (added cs))
      ∙ append_items_assoc b.conditions (added_by c) (added cs)

  chain_scopes :
      (cs : List (BuilderCall V)) (b : Builder V)
      → (chain null cs b).disable_scopes ≡ (b.disable_scopes || any_sees_trashed cs)
  unfolding chain
  chain_scopes [] b = ground arith
  chain_scopes (c ∷ cs) b = ground (arith, chain_scopes cs (call null c b), call_scopes c b)

module _ {V : Type 0} (d : Dialect) (m : Model V) where
  -- The soft-delete scope: deleted_at IS NULL.
  abbrev pub live : WhereItem V
  live = cond (record { field = deleted_at_column; operator = is_null; value = scalar m.null })

  abbrev pub scope_if : Bool → WhereItems V
  scope_if active = if active then cons live nil else nil

  scoped_conditions :
      (b : Builder V)
      → (apply_soft_delete_scope d m b).conditions
        ≡ append_items b.conditions (scope_if (m.soft_deletable && not b.disable_scopes))
  unfolding apply_soft_delete_scope
  scoped_conditions b = elim (Bool-cases m.soft_deletable) [
    | inr e ↦ rw e (sym (append_items_nil b.conditions))
    | inl e ↦ elim (Bool-cases b.disable_scopes) [
      | inl k ↦ rw (e, k) (sym (append_items_nil b.conditions))
      | inr k ↦ rw (e, k) (snoc_append b.conditions live)
    ]
  ]

  scope_if-NoSubquery : (active : Bool) → NoSubquery (scope_if active)
  scope_if-NoSubquery true = tt
  scope_if-NoSubquery false = tt

  pub scoped-NoSubquery :
      (b : Builder V)
      → NoSubquery b.conditions
      → NoSubquery (apply_soft_delete_scope d m b).conditions
  scoped-NoSubquery b h = rw (scoped_conditions b) (
      NoSubquery-append b.conditions _ h
        (scope_if-NoSubquery (m.soft_deletable && not b.disable_scopes)))

  -- The conditions that a chain of calls on a new builder leaves to its query are those that the
  -- calls added, in their order, and after them deleted_at IS NULL exactly if the model is
  -- soft-deletable and neither WithTrashed nor OnlyTrashed was called.
  pub apply_soft_delete_scope_lem :
      (table : Bytes) (cs : List (BuilderCall V))
      → (apply_soft_delete_scope d m (chain m.null cs (new_builder table))).conditions
        ≡ append_items
            (added m.null cs)
            (scope_if (m.soft_deletable && not (any_sees_trashed m.null cs)))
  unfolding new_builder
  apply_soft_delete_scope_lem table cs =
      let b = chain m.null cs (new_builder table) in
      scoped_conditions b ∙ (λ i.
        append_items (chain_conditions m.null cs (new_builder table) i)
          (scope_if (m.soft_deletable && not (chain_scopes m.null cs (new_builder table) i))))

  -- If no subquery was added, the queries that Find, First and Count run after a chain of calls have
  -- their placeholders numbered $1, $2, ... in the order of the text, one for each argument.
  pub find_query_numbering :
      (table : Bytes) (cs : List (BuilderCall V))
      → NoSubquery (added m.null cs)
      → let b = chain m.null cs (new_builder table) in
        (params (find_query d m b).0 ≡ range 1 (length (find_query d m b).1))
        × (params (first_query d m b).0 ≡ range 1 (length (first_query d m b).1))
        × (params (count_query d m b).0 ≡ range 1 (length (count_query d m b).1))
  unfolding find_query first_query count_query limit_to clone new_builder
  find_query_numbering table cs h =
      let b = chain m.null cs (new_builder table) in
      let plain : NoSubquery b.conditions = rw (chain_conditions m.null cs (new_builder table)) h in
      let limited : Builder V = limit_to (pos 1) b in
      let whole =
        statements_numbering d (apply_soft_delete_scope d m b) (scoped-NoSubquery b plain) in
      (
        whole.0,
        (statements_numbering d (apply_soft_delete_scope d m limited)
            (scoped-NoSubquery limited plain)).0,
        whole.1,
      )
