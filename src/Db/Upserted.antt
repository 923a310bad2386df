-- ===== src/Db/Upserted.antt =====
-- core/upsert.go: the placeholders of an upsert, and the columns that it updates.
use genus.Prelude.{
  ℕ, ◌+◌, ◌≡◌, refl, sym, ◌∙◌, Bool, true, false, ◌||◌, List, [], ◌∷◌, ◌++◌, ◌⊎◌, inl, inr, arith,
  codes, bytes_eq, length, length-append, if◌then◌else◌, Bool-cases, append-nil,
}
use genus.Prelude.Dict.{Bytes, contains}
use genus.Query.Sql.{
  lit, Sql, Dialect, join, params, all_params, range, params-lit, params-nil, params-append,
  params-join, all_params-nil, all_params-cons, range-nil, range-append,
}
use genus.Db.{texts, placeholder_list, names, values}
use genus.Db.Numbering.{params-placeholder_list, params_texts, length-names, length-values}
use genus.Db.Upsert.{
  UpsertConfig, conflict_of, update_columns_of, comma_list, on_conflict, insert_head,
  on_conflict_update, build_postgres_upsert, build_upsert_query, value_sets, all_args,
  batch_upsert_sql, batch_update_columns,
}

-- Text before and after.
after_text : (a b : Sql) (ks : List ℕ) → params a ≡ [] → params b ≡ ks → params (a ++ b) ≡ ks
after_text a b ks p q = params-append a b ∙ (λ i. p i ++ q i)

before_text : (a b : Sql) (ks : List ℕ) → params a ≡ ks → params b ≡ [] → params (a ++ b) ≡ ks
before_text a b ks p q = params-append a b ∙ (λ i. p i ++ q i) ∙ append-nil ks

module _ (d : Dialect) where
  params-comma_list : (cs : List Bytes) → params (comma_list d cs) ≡ []
  params-comma_list cs =
      params-join (lit (codes ", ") ∷ []) (texts cs) (rw (params-lit, params-nil) refl)
      ∙ params_texts cs

  params-insert_head :
      (verb table : Bytes) (columns : List Bytes) → params (insert_head d verb table columns) ≡ []
  unfolding params
  params-insert_head verb table columns =
      rw (params-lit, params-append, params-comma_list, params-lit, params-nil) refl

  params-on_conflict : (cs : List Bytes) → params (on_conflict d cs) ≡ []
  params-on_conflict cs =
      rw (params-lit, params-append, params-comma_list, params-lit, params-nil) refl

  params-on_conflict_update : (cs : List Bytes) → params (on_conflict_update d cs) ≡ []
  params-on_conflict_update cs = rw (params-lit, params-comma_list) refl

  params_tail :
      (b : Bool) (cs : List Bytes)
      → params (if b then lit (codes " DO NOTHING") ∷ [] else on_conflict_update d cs) ≡ []
  params_tail true cs = rw (params-lit, params-nil) refl
  params_tail false cs = params-on_conflict_update cs

  module _ {V : Type 0} where
    params-value_sets :
        (k : ℕ) (rows : List (List (Bytes × V)))
        → all_params (value_sets d false k rows) ≡ range k (length (all_args d rows))
    unfolding value_sets
    params-value_sets k [] = rw (all_params-nil, range-nil) refl
    params-value_sets k (fields ∷ rows) =
        let n : length (values fields ++ all_args d rows)
            ≡ length fields + length (all_args d rows) =
          length-append (values fields) (all_args d rows) ∙ omega (arith, length-values fields) in
        rw
          (
            all_params-cons, params-lit, params-append, params-placeholder_list, params-lit,
            params-nil,
          )
          ((λ i.
              append-nil (range k (length fields)) i
              ++ params-value_sets (k + length fields) rows i)
            ∙ range-append k (length fields) (length (all_args d rows)) (k + length fields) refl
            ∙ (λ i. range k (sym n i)))

    -- On a dialect whose placeholders are not ?, the statement of a batch numbers its placeholders from 1,
    -- one for each argument, over all its rows.
    pub batch_upsert_numbering :
        (table : Bytes) (columns : List Bytes) (rows : List (List (Bytes × V)))
        (config : UpsertConfig V)
        → bytes_eq (d.placeholder 1) (codes "?") ≡ false
        → params (batch_upsert_sql d table columns rows config) ≡ range 1 (length (all_args d rows))
    unfolding batch_upsert_sql
    batch_upsert_numbering table columns rows config e =
        let sets : params (join (lit (codes ", ") ∷ []) (value_sets d false 1 rows))
            ≡ range 1 (length (all_args d rows)) =
          params-join (lit (codes ", ") ∷ []) (value_sets d false 1 rows)
            (rw (params-lit, params-nil) refl)
          ∙ params-value_sets 1 rows in
        let tail : Bool → Sql = λ b.
          if b
          then lit (codes " DO NOTHING") ∷ []
          else on_conflict_update d (batch_update_columns config columns) in
        let no_params : (b : Bool) → params (tail b) ≡ [] =
          λ b. params_tail b (batch_update_columns config columns) in
        rw e (
          after_text (insert_head d (codes "INSERT INTO ") table columns) _ _
            (params-insert_head (codes "INSERT INTO ") table columns)
            (before_text (join (lit (codes ", ") ∷ []) (value_sets d false 1 rows)) _ _ sets (
              after_text (on_conflict d (conflict_of config)) (tail config.do_nothing) []
                (params-on_conflict (conflict_of config)) (no_params config.do_nothing))))

    -- An upsert of one record on such a dialect numbers its placeholders from 1, one for each of its
    -- values, which come first among the arguments; those that follow belong to the caller's condition.
    upsert_numbering :
        (table : Bytes) (fields : List (Bytes × V)) (config : UpsertConfig V)
        → bytes_eq (d.placeholder 1) (codes "?") ≡ false
        → (params (build_upsert_query d table fields config).0 ≡ range 1 (length (values fields)))
          × ((extra : List V) × ((build_upsert_query d table fields config).1
                ≡ values fields ++ extra)
              × ((extra ≡ []) ⊎ (extra ≡ config.update_where_args)))
    unfolding build_upsert_query build_postgres_upsert
    upsert_numbering table fields config e =
        let columns : List Bytes = names fields in
        let row : Sql =
          lit (codes "(") ∷ (placeholder_list 1 (length columns) ++ (lit (codes ")") ∷ [])) in
        let head : Sql = insert_head d (codes "INSERT INTO ") table columns ++ row in
        let numbers : params head ≡ range 1 (length (values fields)) =
          after_text (insert_head d (codes "INSERT INTO ") table columns) row _
            (params-insert_head (codes "INSERT INTO ") table columns)
            (rw (params-lit, params-append, params-placeholder_list, params-lit, params-nil)
              (append-nil _ ∙ (λ i. range 1 (length-names fields i)))) in
        let conflict : Sql = on_conflict d (conflict_of config) in
        let set : Sql = on_conflict_update d (update_columns_of config columns) in
        let clause : (tail : Sql)
            → params tail ≡ []
            → params (head ++ (conflict ++ tail)) ≡ range 1 (length (values fields)) =
          λ tail p.
            before_text head (conflict ++ tail) _ numbers
              (after_text conflict tail [] (params-on_conflict (conflict_of config)) p) in
        elim (Bool-cases config.do_nothing) [
          | inl n ↦
              rw (e, n)
                (
                  clause (lit (codes " DO NOTHING") ∷ []) (rw (params-lit, params-nil) refl),
                  ([], sym (append-nil (values fields)), inl refl),
                )
          | inr n ↦ elim (Bool-cases (bytes_eq config.update_where [])) [
            | inl u ↦
                rw (e, n, u)
                  (
                    clause set (params-on_conflict_update (update_columns_of config columns)),
                    ([], sym (append-nil (values fields)), inl refl),
                  )
            | inr u ↦
                rw (e, n, u)
                  (
                    clause (set ++ (lit (codes " WHERE ") ∷ lit config.update_where ∷ [])) (
                        after_text set _ []
                          (params-on_conflict_update (update_columns_of config columns))
                          (rw (params-lit, params-lit, params-nil) refl)),
                    (config.update_where_args, refl, inr refl),
                  )
          ]
        ]

-- A column that an upsert leaves alone.
abbrev pub is_left_out : List Bytes → Bytes → Bool
is_left_out conflict col =
    contains col conflict || (bytes_eq col (codes "id") || bytes_eq col (codes "created_at"))

abbrev pub is_nil : List Bytes → Bool
is_nil [] = true
is_nil (c ∷ cs) = false
