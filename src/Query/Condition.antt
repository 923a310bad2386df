-- ===== src/Query/Condition.antt =====
-- query/condition.go: conditions, their operators, and Not; query/builder.go: interfaceSlice.
use genus.Prelude.{◌≡◌, ◌≢◌, ◌↔◌, refl, List, [], ◌∷◌, map, codes}
use genus.Prelude.Dict.{Bytes}

-- `Operator` is a string type: a value that is none of the constants is `raw`.
pub data Operator : Type 0 where
  eq ne gt gte lt lte like not_like in_list not_in between is_null is_not_null : Operator
  raw : Bytes → Operator

unfoldable pub operator_text : Operator → Bytes
operator_text eq = codes "="
operator_text ne = codes "!="
operator_text gt = codes ">"
operator_text gte = codes ">="
operator_text lt = codes "<"
operator_text lte = codes "<="
operator_text like = codes "LIKE"
operator_text not_like = codes "NOT LIKE"
operator_text in_list = codes "IN"
operator_text not_in = codes "NOT IN"
operator_text between = codes "BETWEEN"
operator_text is_null = codes "IS NULL"
operator_text is_not_null = codes "IS NOT NULL"
operator_text (raw text) = text

-- The slice types that the type switch of `interfaceSlice` knows.
pub data SliceKind : Type 0 where
  strings ints int64s bools float64s times anys : SliceKind

-- A value of type `interface{}`: a slice of one of those types, or anything else.
pub data AnyValue (V : Type 0) : Type 0 where
  scalar : V → AnyValue V
  slice : SliceKind → List V → AnyValue V

pub record Condition (V : Type 0) : Type 0 where
  pub field : Bytes
  pub operator : Operator
  pub value : AnyValue V

pub data LogicalOperator : Type 0 where
  logical_and logical_or : LogicalOperator

-- The elements of `[]interface{}` are taken to be no slices themselves.
unfoldable pub interface_slice : {V : Type 0} → AnyValue V → List (AnyValue V)
interface_slice (scalar v) = scalar v ∷ []
interface_slice (slice kind vs) = map scalar vs

-- The `switch` of `Not`.
unfoldable pub negated : Operator → Operator
negated eq = ne
negated ne = eq
negated is_null = is_not_null
negated is_not_null = is_null
negated in_list = not_in
negated not_in = in_list
negated gt = gt
negated gte = gte
negated lt = lt
negated lte = lte
negated like = like
negated not_like = not_like
negated between = between
negated (raw text) = raw text

unfoldable pub not_condition : {V : Type 0} → Condition V → Condition V
unfolding negated
not_condition c = record c { operator = negated c.operator }

-- The operators that have an opposite in `Not`.
abbrev pub HasOpposite : Operator → Type 0
HasOpposite eq = Unit
HasOpposite ne = Unit
HasOpposite is_null = Unit
HasOpposite is_not_null = Unit
HasOpposite in_list = Unit
HasOpposite not_in = Unit
HasOpposite _ = ⊥

negated_twice : (o : Operator) → negated (negated o) ≡ o
unfolding negated
negated_twice eq = refl
negated_twice _ = refl

negated_same : (o : Operator) → (negated o ≢ o) ↔ HasOpposite o
unfolding negated
negated_same eq = (λ h. tt, λ h e. cc)
negated_same ne = (λ h. tt, λ h e. cc)
negated_same is_null = (λ h. tt, λ h e. cc)
negated_same is_not_null = (λ h. tt, λ h e. cc)
negated_same in_list = (λ h. tt, λ h e. cc)
negated_same not_in = (λ h. tt, λ h e. cc)
negated_same gt = (λ h. h refl, λ h. absurd h)
negated_same _ = (λ h. h refl, λ h. absurd h)

-- `Not` applied twice gives the condition back; and it changes a condition exactly if the operator is
-- one of =, !=, IS NULL, IS NOT NULL, IN and NOT IN: a condition with any other operator, such as >
-- or LIKE, comes back as it is, and is not negated.
not_condition_lem :
    {V : Type 0} (c : Condition V)
    → (not_condition (not_condition c) ≡ c) × ((not_condition c ≢ c) ↔ HasOpposite c.operator)
unfolding not_condition
not_condition_lem c = (
  λ i. record c { operator = negated_twice c.operator i },
  (
    λ h. (negated_same c.operator).0 (λ e. h (λ i. record c { operator = e i })),
    λ h e. (negated_same c.operator).1 h (λ i. (e i).operator),
  ),
)
