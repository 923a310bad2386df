-- ===== src/Query/Mutation.antt =====
-- query/mutation.go and query/scope.go: UPDATE, DELETE and the soft-delete scope.
use genus.Prelude.{
  ℕ, ◌+◌, Bool, true, false, ◌||◌, List, [], ◌∷◌, ◌++◌, codes, length, if◌then◌else◌, bytes_eq,
}
use genus.Prelude.Dict.{Bytes}
use genus.Query.Sql.{lit, param, Sql, Dialect, join}
use genus.Query.Condition.{is_null, AnyValue, scalar, Condition}
use genus.Query.Where.{cond, nil, cons}
use genus.Query.Builder.{
  Builder, Assignment, snoc, deleted_at_column, updated_at_column, where_sql, build_delete_query,
}

-- What a mutation does: it refuses, or runs a statement with its arguments.
pub data Mutation (V : Type 0) : Type 0 where
  no_assignments : Mutation V
  no_where : Mutation V
  runs : Sql → List (AnyValue V) → Mutation V

-- What reflection tells of the model, a null value of its fields, and the clock's time as a value.
pub record Model (V : Type 0) : Type 0 where
  pub soft_deletable : Bool
  pub has_updated_at : Bool
  pub now : V
  pub null : V

-- The loop over the assignments, numbered from k.
unfoldable pub set_parts : {V : Type 0} → ℕ → List (Assignment V) → List Sql
set_parts k [] = []
set_parts k (a ∷ rest) = (lit a.field ∷ lit (codes " = ") ∷ param k ∷ []) ∷ set_parts (k + 1) rest

unfoldable pub values_of : {V : Type 0} → List (Assignment V) → List (AnyValue V)
values_of [] = []
values_of (a ∷ rest) = a.value ∷ values_of rest

-- The loop of `withUpdatedAt` over the assignments.
assigns : {V : Type 0} → Bytes → List (Assignment V) → Bool
assigns column [] = false
assigns column (a ∷ rest) = bytes_eq a.field column || assigns column rest

module _ {V : Type 0} (d : Dialect) (m : Model V) where
  unfoldable pub with_updated_at : List (Assignment V) → List (Assignment V)
  unfolding assigns
  with_updated_at assignments =
      if m.has_updated_at
      then if assigns updated_at_column assignments
        then assignments
        else assignments ++ (record { field = updated_at_column; value = scalar m.now } ∷ [])
      else assignments

  unfoldable pub apply_soft_delete_scope : Builder V → Builder V
  apply_soft_delete_scope b =
      let trashed : Condition V = record {
        field = deleted_at_column;
        operator = is_null;
        value = scalar m.null;
      } in
      if m.soft_deletable
      then if b.disable_scopes
        then b
        else record b { conditions = snoc b.conditions (cond trashed) }
      else b

  unfoldable pub build_update_query : Builder V → List (Assignment V) → Sql × List (AnyValue V)
  unfolding with_updated_at set_parts values_of where_sql
  build_update_query b assignments =
      let all = with_updated_at assignments in
      let (whr, args) = where_sql d b.conditions (length all + 1) in
      (
        (lit (codes "UPDATE ") ∷ lit (d.quote_identifier b.table_name) ∷ lit (codes " SET ") ∷ [])
            ++ (join (lit (codes ", ") ∷ []) (set_parts 1 all) ++ whr),
        values_of all ++ args,
      )

  -- `len(b.conditions) > 0 || b.allowGlobal`
  unfoldable pub guard_global_mutation : Builder V → Bool
  guard_global_mutation b = elim b.conditions [ nil ↦ b.allow_global | cons _ _ ↦ true ]

  unfoldable pub update : Builder V → List (Assignment V) → Mutation V
  unfolding guard_global_mutation apply_soft_delete_scope
  update b [] = no_assignments
  update b (a ∷ rest) =
      let (sql, args) = build_update_query (apply_soft_delete_scope b) (a ∷ rest) in
      if guard_global_mutation b then runs sql args else no_where

  unfoldable pub force_delete : Builder V → Mutation V
  unfolding guard_global_mutation
  force_delete b =
      let (sql, args) = build_delete_query d b in
      if guard_global_mutation b then runs sql args else no_where

  unfoldable pub delete : Builder V → Mutation V
  unfolding guard_global_mutation update
  delete b =
      let (sql, args) = build_delete_query d b in
      if guard_global_mutation b
      then if m.soft_deletable
        then update b (record { field = deleted_at_column; value = scalar m.now } ∷ [])
        else runs sql args
      else no_where
