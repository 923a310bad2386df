-- ===== src/Db/Numbering.antt =====
-- core/batch.go: the numbers of the placeholders, against the arguments.
use genus.Prelude.{
  ℕ, zero, suc, ◌+◌, ◌*◌, ◌≡◌, refl, sym, ap, ◌∙◌, List, [], ◌∷◌, ◌++◌, inl, inr, arith, codes,
  length, length-append, bytes_eq, Bool-cases, append-nil, All,
}
use genus.Prelude.Dict.{Bytes}
use genus.Query.Sql.{
  lit, param, Dialect, join, params, all_params, range, params-lit, params-param, params-nil,
  params-append, params-join, all_params-nil, all_params-cons, range-nil, range-cons, range-one,
  range-append,
}
use native.Mathlib.Nat.{zero-mul, suc-mul}
use genus.Db.{
  Model, texts, column_list, placeholders_from, placeholder_list, names, values, without_id,
  set_parts_from, update_sql,
}
use genus.Db.Batch.{all_values, row_parts, insert_sql, in_ids, delete_ids_sql, soft_delete_ids_sql}

pub params_texts : (cs : List Bytes) → all_params (texts cs) ≡ []
params_texts [] = all_params-nil
params_texts (c ∷ cs) = rw (all_params-cons, params-lit, params-nil) (params_texts cs)

params-column_list : (cs : List Bytes) → params (column_list cs) ≡ []
unfolding column_list
params-column_list cs =
    params-join (lit (codes ", ") ∷ []) (texts cs) (rw (params-lit, params-nil) refl)
    ∙ params_texts cs

params_placeholders : (k n : ℕ) → all_params (placeholders_from k n) ≡ range k n
params_placeholders k zero = rw (all_params-nil, range-nil) refl
params_placeholders k (suc n) =
    rw (all_params-cons, range-cons, params-param, params-nil)
      (ap (◌∷◌ k) (params_placeholders (k + 1) n))

pub params-placeholder_list : (k n : ℕ) → params (placeholder_list k n) ≡ range k n
unfolding placeholder_list
params-placeholder_list k n =
    params-join (lit (codes ", ") ∷ []) (placeholders_from k n) (rw (params-lit, params-nil) refl)
    ∙ params_placeholders k n

params_rows : (c k n : ℕ) → all_params (row_parts c k n) ≡ range k (n * c)
params_rows c k zero = rw (all_params-nil, zero-mul, range-nil) refl
params_rows c k (suc n) =
    let e : c + n * c ≡ suc n * c = rw suc-mul (omega arith) in
    rw (all_params-cons, params-lit, params-append, params-placeholder_list, params-lit, params-nil)
      ((λ i. append-nil (range k c) i ++ params_rows c (k + c) n i)
        ∙ range-append k c (n * c) (k + c) refl
        ∙ (λ i. range k (e i)))

-- The statement of a batch numbers its placeholders from 1, one for each column of each row.
params-insert_sql :
    (d : Dialect) (table : Bytes) (columns : List Bytes) (rows : ℕ)
    → params (insert_sql d table columns rows) ≡ range 1 (rows * length columns)
unfolding insert_sql params range
params-insert_sql d table columns rows =
    let body : params (join (lit (codes ", ") ∷ []) (row_parts (length columns) 1 rows))
        ≡ range 1 (rows * length columns) =
      params-join (lit (codes ", ") ∷ []) (row_parts (length columns) 1 rows)
        (rw (params-lit, params-nil) refl)
      ∙ params_rows (length columns) 1 rows in
    elim (Bool-cases (bytes_eq (d.placeholder 1) (codes "$1"))) [
      | inl e ↦
          rw
            (
              e, params-lit, params-append, params-column_list, params-lit, params-append, body,
              params-nil,
            )
            (append-nil (range 1 (rows * length columns)))
      | inr e ↦
          rw
            (
              e, params-lit, params-append, params-column_list, params-lit, params-append, body,
              params-nil,
            )
            (append-nil (range 1 (rows * length columns)))
    ]

params_sets : (k : ℕ) (cs : List Bytes) → all_params (set_parts_from k cs) ≡ range k (length cs)
unfolding params
params_sets k [] = rw (all_params-nil, range-nil) refl
params_sets k (c ∷ cs) = rw (all_params-cons, range-cons) (ap (◌∷◌ k) (params_sets (k + 1) cs))

module _ {V : Type 0} where
  pub length-values : (fields : List (Bytes × V)) → length (values fields) ≡ length fields
  length-values [] = refl
  length-values (f ∷ fields) = ground (arith, length-values fields)

  pub length-names : (fields : List (Bytes × V)) → length (names fields) ≡ length (values fields)
  length-names [] = refl
  length-names (f ∷ fields) = ground (arith, length-names fields)

  -- The statement of an update numbers its placeholders from 1, one for each argument, the id last.
  update_sql_numbering :
      (d : Dialect) (table : Bytes) (fields : List (Bytes × V)) (id : V)
      → params (update_sql d table fields id).0 ≡ range 1 (length (update_sql d table fields id).1)
  unfolding update_sql params
  update_sql_numbering d table fields id =
      let kept : List (Bytes × V) = without_id fields in
      let sets : params (join (lit (codes ", ") ∷ []) (set_parts_from 1 (names kept)))
          ≡ range 1 (length (names kept)) =
        params-join (lit (codes ", ") ∷ []) (set_parts_from 1 (names kept))
          (rw (params-lit, params-nil) refl)
        ∙ params_sets 1 (names kept) in
      let n : length (values kept ++ (id ∷ [])) ≡ length (names kept) + 1 =
        length-append (values kept) (id ∷ []) ∙ omega (arith, length-names kept) in
      let last : params
            (lit (codes " WHERE id = ") ∷ param (length (values kept ++ (id ∷ []))) ∷ [])
          ≡ range (length (names kept) + 1) 1 =
        rw (params-lit, params-param, params-nil, n, range-one) refl in
      rw (params-lit, params-append, sets, last)
        (range-append 1 (length (names kept)) 1 (length (names kept) + 1) (omega arith)
          ∙ (λ i. range 1 (sym n i)))

params-in_ids : (d : Dialect) (prefix : Bytes) (k n : ℕ) → params (in_ids d prefix k n) ≡ range k n
params-in_ids d prefix k n =
    rw (params-lit, params-lit, params-append, params-placeholder_list, params-lit, params-nil)
      (append-nil (range k n))

pub params-delete_ids_sql :
    (d : Dialect) (table : Bytes) (n : ℕ) → params (delete_ids_sql d table n) ≡ range 1 n
unfolding delete_ids_sql
params-delete_ids_sql d table n = rw params-lit (params-in_ids d (d.quote_identifier table) 1 n)

pub params-soft_delete_ids_sql :
    (d : Dialect) (table : Bytes) (n : ℕ) → params (soft_delete_ids_sql d table n) ≡ range 1 (suc n)
unfolding soft_delete_ids_sql params range
params-soft_delete_ids_sql d table n = ap (◌∷◌ 1) (params-in_ids d [] 2 n)

module _ {T V E : Type 0} (model : Model T V E) where
  -- The model has a number of fields.
  abbrev pub HasFields : ℕ → T → Type 0
  HasFields n m = (fields : List (Bytes × V)) × (model.fields m ≡ inl fields) × (length fields ≡ n)

  length-all_values :
      (n i : ℕ) (ms : List T)
      → All (HasFields n) ms
      → (args : List V) × (all_values model i ms ≡ inl args) × (length args ≡ length ms * n)
  unfolding all_values
  length-all_values n i [] h = ([], refl, rw zero-mul refl)
  length-all_values n i (m ∷ ms) ((fields, e, l), h) =
      let (rest, r, k) = length-all_values n (i + 1) ms h in
      (
        values fields ++ rest,
        rw (e, all_values) (rw (r, all_values) refl),
        length-append (values fields) rest
            ∙ (let s : suc (length ms) * n ≡ length ms * n + n = suc-mul (length ms) n in
                omega (arith, length-values fields)),
      )

  -- The statement that BatchInsert runs for models of one number of fields numbers its placeholders from
  -- 1, one for each argument.
  pub insert_sql_numbering :
      (d : Dialect) (table : Bytes) (columns : List Bytes) (ms : List T)
      → All (HasFields (length columns)) ms
      → (args : List V) × (all_values model 0 ms ≡ inl args)
        × (params (insert_sql d table columns (length ms)) ≡ range 1 (length args))
  insert_sql_numbering d table columns ms h =
      let (args, e, l) = length-all_values (length columns) 0 ms h in
      (args, e, params-insert_sql d table columns (length ms) ∙ (λ i. range 1 (sym l i)))
