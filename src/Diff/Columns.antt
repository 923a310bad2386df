-- ===== src/Diff/Columns.antt =====
-- migrate/diff.go, diffColumns: what its changes make of the columns of a table.
use genus.Prelude.{
  ◌≡◌, refl, sym, ◌∙◌, Option, none, some, List, [], ◌∷◌, ◌++◌, inl, inr, arith, bytes_eq,
  if◌then◌else◌, All, Bool-cases, Option-cases,
}
use genus.Prelude.Dict.{
  Bytes, bytes_eq_iff, lookup, insert, lookup-insert, lookup-nil, insert-Distinct, Distinct,
  is_some,
}
use genus.Query.Sql.{Dialect}
use genus.Diff.{add_column, drop_column, modify_column, SchemaChange, ColumnSchema, TableSchema}
use genus.Diff.Changes.{
  add_column_change, drop_column_change, modify_column_change, column_changed, column_map, for_each,
  added_column, dropped_column, modified_column, diff_columns,
}

-- The type of each column that a table has.
abbrev pub View : Type 0
View = Bytes → Option Bytes

-- ADD COLUMN and a new TYPE give the column its type, DROP COLUMN takes it away.
abbrev pub apply_change : SchemaChange → View → View
apply_change c v name =
    if bytes_eq c.column name
    then elim c.change [
      | add_column ↦ some c.new_type
      | modify_column ↦ some c.new_type
      | drop_column ↦ none
      | _ ↦ v name
    ]
    else v name

abbrev pub apply_all : List SchemaChange → View → View
apply_all [] v = v
apply_all (c ∷ cs) v = apply_all cs (apply_change c v)

apply_all-append :
    (cs ds : List SchemaChange) (v : View) → apply_all (cs ++ ds) v ≡ apply_all ds (apply_all cs v)
apply_all-append [] ds v = refl
apply_all-append (c ∷ cs) ds v = apply_all-append cs ds (apply_change c v)

abbrev type_of : Option ColumnSchema → Option Bytes
type_of none = none
type_of (some col) = some col.sql_type

-- The columns of a table by name; of two with one name the later counts.
abbrev pub view_of : TableSchema → View
view_of t name = type_of (lookup name (column_map t.columns []))

-- A range over a map visits each entry once.
pub record IsRange {V : Type 0} (range : List (Bytes × V) → List (Bytes × V)) : Type 0 where
  pub once : (m : List (Bytes × V)) → Distinct m → Distinct (range m)
  pub same : (m : List (Bytes × V)) (k : Bytes) → Distinct m → lookup k (range m) ≡ lookup k m

-- What an entry gives changes its own column at most, to a given value.
abbrev Gives :
    (Bytes → ColumnSchema → List SchemaChange)
    → (Bytes → ColumnSchema → Option Bytes → Option Bytes)
    → Bytes
    → ColumnSchema
    → Type 0
Gives give effect k col =
    (v : View) (name : Bytes)
    → apply_all (give k col) v name ≡ (if bytes_eq k name then effect k col (v name) else v name)

abbrev effect_at :
    (Bytes → ColumnSchema → Option Bytes → Option Bytes)
    → Bytes
    → Option ColumnSchema
    → Option Bytes
    → Option Bytes
effect_at effect name none old = old
effect_at effect name (some col) old = effect name col old

for_each_view :
    (give : Bytes → ColumnSchema → List SchemaChange)
    (effect : Bytes → ColumnSchema → Option Bytes → Option Bytes)
    (entries : List (Bytes × ColumnSchema)) (v : View) (name : Bytes)
    → Distinct entries
    → All (λ e. Gives give effect e.0 e.1) entries
    → apply_all (for_each give entries) v name
      ≡ effect_at effect name (lookup name entries) (v name)
unfolding lookup
for_each_view give effect [] v name d h = refl
for_each_view give effect ((k, col) ∷ entries) v name d h =
    let w : View = apply_all (give k col) v in
    let rest : apply_all (for_each give entries) w name
        ≡ effect_at effect name (lookup name entries) (w name) =
      for_each_view give effect entries w name d.1 h.1 in
    (λ i. apply_all-append (give k col) (for_each give entries) v i name)
    ∙ rest
    ∙ (elim (Bool-cases (bytes_eq k name)) [
      | inl e ↦
          let here : k ≡ name = (bytes_eq_iff k name).0 e in
          let gone : lookup name entries ≡ none = (λ i. lookup (sym here i) entries) ∙ d.0 in
          rw (e, gone) (h.0 v name ∙ (rw e (λ i. effect (here i) col (v name))))
      | inr e ↦ rw e ((λ i. effect_at effect name (lookup name entries) (h.0 v name i)) ∙ rw e refl)
    ])

-- What holds of each key with its value holds of each entry.
pub All-entries :
    {V : Type 0} (P : Bytes → V → Type 0) (entries : List (Bytes × V))
    → Distinct entries
    → ((k : Bytes) (v : V) → lookup k entries ≡ some v → P k v)
    → All (λ e. P e.0 e.1) entries
unfolding lookup
All-entries P [] d f = tt
All-entries P ((k, col) ∷ entries) d f = (
  f k col (ground (arith, bytes_eq_iff k k)),
  All-entries P entries d.1 (λ j c h. f j c (elim (Bool-cases (bytes_eq k j)) [
    | inl e ↦
        let same : k ≡ j = (bytes_eq_iff k j).0 e in
        let none_there : lookup j entries ≡ none = (λ i. lookup (sym same i) entries) ∙ d.0 in
        absurd (ground arith)
    | inr e ↦ rw e h
  ])),
)

abbrev Keyed : List (Bytes × ColumnSchema) → Type 0
Keyed m = (k : Bytes) (col : ColumnSchema) → lookup k m ≡ some col → col.name ≡ k

pub column_map-Distinct :
    (cols : List ColumnSchema) (m : List (Bytes × ColumnSchema))
    → Distinct m
    → Distinct (column_map cols m)
unfolding column_map
column_map-Distinct [] m d = d
column_map-Distinct (col ∷ cols) m d =
    column_map-Distinct cols (insert col.name col m) (insert-Distinct col.name col m d)

insert-Keyed :
    (col : ColumnSchema) (m : List (Bytes × ColumnSchema)) → Keyed m → Keyed (insert col.name col m)
insert-Keyed col m h k c e = elim (Bool-cases (bytes_eq col.name k)) [
  | inl b ↦
      let found : some col ≡ some c = sym (lookup-insert col.name k col m ∙ (rw b refl)) ∙ e in
      (λ i. name_of k (sym found i)) ∙ (bytes_eq_iff col.name k).0 b
  | inr b ↦ h k c (sym (lookup-insert col.name k col m ∙ (rw b refl)) ∙ e)
]
  where
    name_of : Bytes → Option ColumnSchema → Bytes
    name_of k none = k
    name_of k (some c) = c.name

column_map-Keyed :
    (cols : List ColumnSchema) (m : List (Bytes × ColumnSchema))
    → Keyed m
    → Keyed (column_map cols m)
unfolding column_map
column_map-Keyed [] m h = h
column_map-Keyed (col ∷ cols) m h =
    column_map-Keyed cols (insert col.name col m) (insert-Keyed col m h)

module _ (d : Dialect) (range : List (Bytes × ColumnSchema) → List (Bytes × ColumnSchema)) where
  abbrev add_effect :
      List (Bytes × ColumnSchema) → Bytes → ColumnSchema → Option Bytes → Option Bytes
  add_effect current k col old = if is_some (lookup k current) then old else some col.sql_type

  added_column-Gives :
      (table : Bytes) (current : List (Bytes × ColumnSchema)) (k : Bytes) (col : ColumnSchema)
      → col.name ≡ k
      → Gives (added_column d range table current) (add_effect current) k col
  unfolding added_column add_column_change
  added_column-Gives table current k col e v name = elim (Bool-cases (is_some (lookup k current))) [
    | inl c ↦ rw (c, added_column) (ground arith)
    | inr c ↦ rw (c, added_column) (λ i. if bytes_eq (e i) name then some col.sql_type else v name)
  ]

  abbrev drop_effect :
      List (Bytes × ColumnSchema) → Bytes → ColumnSchema → Option Bytes → Option Bytes
  drop_effect target k col old = if is_some (lookup k target) then old else none

  dropped_column-Gives :
      (table : Bytes) (target : List (Bytes × ColumnSchema)) (k : Bytes) (col : ColumnSchema)
      → col.name ≡ k
      → Gives (dropped_column d range table target) (drop_effect target) k col
  unfolding dropped_column drop_column_change
  dropped_column-Gives table target k col e v name = elim (Bool-cases (is_some (lookup k target))) [
    | inl c ↦ rw (c, dropped_column) (ground arith)
    | inr c ↦ rw (c, dropped_column) (λ i. if bytes_eq (e i) name then none else v name)
  ]

  abbrev modify_effect :
      List (Bytes × ColumnSchema) → Bytes → ColumnSchema → Option Bytes → Option Bytes
  modify_effect current k col old = elim (lookup k current) [
    | none ↦ old
    | some was ↦ if column_changed was col then some col.sql_type else old
  ]

  modified_column-Gives :
      (table : Bytes) (current : List (Bytes × ColumnSchema)) (k : Bytes) (col : ColumnSchema)
      → col.name ≡ k
      → Gives (modified_column d range table current) (modify_effect current) k col
  unfolding modified_column modify_column_change
  modified_column-Gives table current k col e v name = elim (Option-cases (lookup k current)) [
    | inl c ↦ rw (c, modified_column) (ground arith)
    | inr (was, c) ↦ elim (Bool-cases (column_changed was col)) [
      | inl b ↦
          let changed : modify_effect current k col (v name) ≡ some col.sql_type =
            rw (c, modify_effect) (rw (b, modify_effect) refl) in
          rw (c, modified_column)
            (rw (b, modified_column)
              ((λ i. if bytes_eq (e i) name then some col.sql_type else v name)
                ∙ (λ i. if bytes_eq k name then sym changed i else v name)))
      | inr b ↦ rw (c, modified_column) (rw (b, modified_column) (ground arith))
    ]
  ]

  -- The three effects one after the other, where the two maps hold C and T.
  three_effects :
      (current target : List (Bytes × ColumnSchema)) (name : Bytes)
      → effect_at (modify_effect current) name (lookup name target) (
          effect_at (drop_effect target) name (lookup name current) (
            effect_at
              (add_effect current)
              name
              (lookup name target)
              (type_of (lookup name current))))
        ≡ type_of (lookup name target)
  unfolding column_changed
  three_effects current target name = elim (Option-cases (lookup name target)) [
    | inl t ↦ elim (Option-cases (lookup name current)) [
      | inl c ↦ ground arith
      | inr (was, c) ↦ ground arith
    ]
    | inr (col, t) ↦ elim (Option-cases (lookup name current)) [
      | inl c ↦ ground arith
      | inr (was, c) ↦ ground (arith, bytes_eq_iff was.sql_type col.sql_type)
    ]
  ]

  loop_over :
      IsRange range
      → (give : Bytes → ColumnSchema → List SchemaChange)
        (effect : Bytes → ColumnSchema → Option Bytes → Option Bytes) (cols : List ColumnSchema)
        (v : View) (name : Bytes)
      → ((k : Bytes) (col : ColumnSchema) → col.name ≡ k → Gives give effect k col)
      → apply_all (for_each give (range (column_map cols []))) v name
        ≡ effect_at effect name (lookup name (column_map cols [])) (v name)
  loop_over r give effect cols v name gives =
      let m : List (Bytes × ColumnSchema) = column_map cols [] in
      let once : Distinct m = column_map-Distinct cols [] tt in
      let named : Keyed m =
        column_map-Keyed cols []
          (λ k col h. absurd (ground (arith, lookup-nil {V = ColumnSchema} k))) in
      for_each_view give effect (range m) v name (r.once m once) (
        All-entries (Gives give effect) (range m) (r.once m once)
          (λ k col h. gives k col (named k col (sym (r.same m k once) ∙ h))))
      ∙ (λ i. effect_at effect name (r.same m name once i) (v name))

  -- Whatever the orders in which the maps are visited, the changes of diffColumns, applied to the columns
  -- of the current table, give those of the target with their types: no column is left over or missing,
  -- and each has the target's type.
  pub diff_columns_lem :
      IsRange range
      → (current target : TableSchema) (name : Bytes)
      → apply_all (diff_columns d range current target) (view_of current) name ≡ view_of target name
  unfolding diff_columns
  diff_columns_lem r current target name =
      let c : List (Bytes × ColumnSchema) = column_map current.columns [] in
      let t : List (Bytes × ColumnSchema) = column_map target.columns [] in
      let loop : (give : Bytes → ColumnSchema → List SchemaChange)
            (effect : Bytes → ColumnSchema → Option Bytes → Option Bytes) (cols : List ColumnSchema)
            (v : View)
          → ((k : Bytes) (col : ColumnSchema) → col.name ≡ k → Gives give effect k col)
          → apply_all (for_each give (range (column_map cols []))) v name
            ≡ effect_at effect name (lookup name (column_map cols [])) (v name) =
        λ give effect cols v gives. loop_over r give effect cols v name gives in
      let added : List SchemaChange = for_each (added_column d range target.name c) (range t) in
      let dropped : List SchemaChange = for_each (dropped_column d range target.name t) (range c) in
      let modified : List SchemaChange =
        for_each (modified_column d range target.name c) (range t) in
      let v1 : View = apply_all added (view_of current) in
      let v2 : View = apply_all dropped v1 in
      (λ i. apply_all-append added (dropped ++ modified) (view_of current) i name)
      ∙ (λ i. apply_all-append dropped modified v1 i name)
      ∙ loop (modified_column d range target.name c) (modify_effect c) target.columns v2
          (modified_column-Gives target.name c)
      ∙ (λ i. effect_at (modify_effect c) name (lookup name t) (
          loop (dropped_column d range target.name t) (drop_effect t) current.columns v1
            (dropped_column-Gives target.name t) i))
      ∙ (λ i. effect_at (modify_effect c) name (lookup name t) (
          effect_at (drop_effect t) name (lookup name c) (
            loop (added_column d range target.name c) (add_effect c) target.columns
              (view_of current) (added_column-Gives target.name c) i)))
      ∙ three_effects c t name
