-- ===== src/Db/Inserted.antt =====
-- core/batch.go, BatchInsert: what the table holds afterwards.
use genus.Prelude.{
  ℕ, zero, suc, ◌+◌, ◌≤◌, ◌<◌, ◌≡◌, refl, sym, ap, ◌∙◌, Option, none, List, [], ◌∷◌, ◌++◌, inl, inr,
  map, arith, codes, length, take, drop, take-append-drop, length-drop, bytes_eq, if◌then◌else◌,
  Bool-cases, Option-cases, sum_cases, All, append_assoc, append-nil, ℤ, positive_or,
  positive_or_pos,
}
use genus.Prelude.Dict.{Bytes}
use genus.Query.Sql.{Dialect, render}
use genus.Db.{
  before_save, before_create, Model, Result, done, scan_error, rows_error, Driver, DbError, run_two,
  names, values,
}
use genus.Db.Numbering.{length-names}
use genus.Db.Batch.{BatchConfig, each_model, hooks_of_all, all_values, insert_sql}
use genus.Db.Operations.{run_insert, insert_models, insert_batch, insert_from, batch_insert}

abbrev pub flat : {V : Type 0} → List (List V) → List V
flat [] = []
flat (row ∷ rows) = row ++ flat rows

module _ {T V E : Type 0} (model : Model T V E) where
  abbrev pub tuple_of : T → List V
  tuple_of m = elim (model.fields m) [ inl fields ↦ values fields | inr e ↦ [] ]

  abbrev pub tuples : List T → List (List V)
  tuples [] = []
  tuples (m ∷ ms) = tuple_of m ∷ tuples ms

  -- A model as it is inserted: after its hooks, with the timestamps.
  abbrev pub ready : BatchConfig → T → T
  ready config m =
      model.set_timestamps
        (if config.skip_hooks then m else (run_two model before_save before_create m).0)

  tuple_of_fields :
      (m : T) (fields : List (Bytes × V)) → model.fields m ≡ inl fields → tuple_of m ≡ values fields
  tuple_of_fields m fields e = rw (e, tuple_of) refl

  length-tuples : (ms : List T) → length (tuples ms) ≡ length ms
  length-tuples [] = refl
  length-tuples (m ∷ ms) = ap suc (length-tuples ms)

module _ {T V W E : Type 0} (model : Model T V E) (driver : Driver W V E) (d : Dialect)
    (table : Bytes) (columns : List Bytes) {C : Type 0} (kept : List V → C)
    (rows_of : W → List C) where
  abbrev pub AreRows : List (List V) → Type 0
  AreRows rows = All (λ row. length row ≡ length columns) rows

  -- An INSERT INTO table (columns) VALUES that succeeds adds one row for each tuple, in their order.
  -- `rows_of` reads the rows in the order of insertion, and `kept` is the part of a tuple that the
  -- database takes as it is: not the id, which it may assign itself.
  pub record IsInserting : Type 0 where
    pub by_query :
        (rows : List (List V)) (w : W) (ids : List ℤ)
        → AreRows rows
        → (driver.query_ids (render d (insert_sql d table columns (length rows))) (flat rows) w).1
          ≡ inl (ids, done)
        → rows_of
            (driver.query_ids (render d (insert_sql d table columns (length rows))) (flat rows) w).0
          ≡ rows_of w ++ map kept rows
    pub by_exec :
        (rows : List (List V)) (w : W) (r : Result E)
        → AreRows rows
        → (driver.exec (render d (insert_sql d table columns (length rows))) (flat rows) w).1
          ≡ inl r
        → rows_of
            (driver.exec (render d (insert_sql d table columns (length rows))) (flat rows) w).0
          ≡ rows_of w ++ map kept rows

  -- A model of the table.
  abbrev pub IsRecord : T → Type 0
  IsRecord m =
      (fields : List (Bytes × V)) × (model.fields m ≡ inl fields)
      × (names fields ≡ columns)
      × (model.table_name m ≡ table)

  -- What the table keeps of models.
  abbrev pub rows_for : List T → List C
  rows_for ms = map kept (tuples model ms)

  all_values-tuples :
      (i : ℕ) (ms : List T) → All IsRecord ms → all_values model i ms ≡ inl (flat (tuples model ms))
  unfolding all_values
  all_values-tuples i [] h = refl
  all_values-tuples i (m ∷ ms) ((fields, e, k, t), h) =
      rw (e, all_values)
        (rw (all_values-tuples (i + 1) ms h, all_values)
          (λ j. inl (sym (tuple_of_fields model m fields e) j ++ flat (tuples model ms))))

  tuples-AreRows : (ms : List T) → All IsRecord ms → AreRows (tuples model ms)
  tuples-AreRows [] h = tt
  tuples-AreRows (m ∷ ms) ((fields, e, k, t), h) = (
    ap length (tuple_of_fields model m fields e) ∙ sym (length-names fields) ∙ ap length k,
    tuples-AreRows ms h,
  )

  run_insert_done :
      IsInserting
      → (rows : List (List V)) (ms : List T) (w : W) → AreRows rows
      → (run_insert model driver d
          (render d (insert_sql d table columns (length rows)))
          (flat rows)
          ms
          w).2
        ≡ none
      → rows_of
          (run_insert model driver d
            (render d (insert_sql d table columns (length rows)))
            (flat rows)
            ms
            w).1
        ≡ rows_of w ++ map kept rows
  unfolding run_insert
  run_insert_done t rows ms w a h =
      let sql : Bytes = render d (insert_sql d table columns (length rows)) in
      elim (Bool-cases (bytes_eq (d.placeholder 1) (codes "$1"))) [
        | inl p ↦ elim (sum_cases (driver.query_ids sql (flat rows) w).1) [
          | inr (e, q) ↦ absurd (ground arith)
          | inl ((ids, done), q) ↦
              rw (p, run_insert) (rw (q, run_insert) (t.by_query rows w ids a q))
          | inl ((ids, scan_error e), q) ↦ absurd (ground arith)
          | inl ((ids, rows_error e), q) ↦ absurd (ground arith)
        ]
        | inr p ↦ elim (sum_cases (driver.exec sql (flat rows) w).1) [
          | inr (e, q) ↦ absurd (ground arith)
          | inl (r, q) ↦ rw (p, run_insert) (rw (q, run_insert) (t.by_exec rows w r a q))
        ]
      ]

  insert_models_run :
      (m : T) (ms : List T) (w : W)
      → All IsRecord (m ∷ ms)
      → insert_models model driver d (m ∷ ms) w
        ≡ run_insert model driver d
            (render d (insert_sql d table columns (length (tuples model (m ∷ ms)))))
            (flat (tuples model (m ∷ ms)))
            (m ∷ ms)
            w
  unfolding insert_models
  insert_models_run m ms w h =
      let (fields, e, named, of_table) = h.0 in
      rw (e, insert_models)
        (rw (all_values-tuples 0 (m ∷ ms) h, insert_models)
          (λ i.
            run_insert model driver d
              (render d
                (insert_sql d (of_table i) (named i) (sym (length-tuples model (m ∷ ms)) i)))
              (flat (tuples model (m ∷ ms))) (m ∷ ms) w))

  insert_models_done :
      IsInserting
      → (ms : List T) (w : W) → All IsRecord ms
      → (insert_models model driver d ms w).2 ≡ none
      → rows_of (insert_models model driver d ms w).1 ≡ rows_of w ++ map kept (tuples model ms)
  unfolding insert_models
  insert_models_done t [] w h ok = sym (append-nil (rows_of w))
  insert_models_done t (m ∷ ms) w h ok =
      let run = insert_models_run m ms w h in
      (λ i. rows_of (run i).1)
      ∙ run_insert_done t (tuples model (m ∷ ms)) (m ∷ ms) w (tuples-AreRows (m ∷ ms) h)
          ((λ i. (sym run i).2) ∙ ok)

  each_model_done :
      (step : T → T × Option (DbError E)) (i : ℕ) (ms : List T)
      → (each_model model (λ i. step) i ms).1 ≡ none
      → (each_model model (λ i. step) i ms).0 ≡ map (λ m. (step m).0) ms
  unfolding each_model
  each_model_done step i [] h = refl
  each_model_done step i (m ∷ ms) h = elim (Option-cases (step m).1) [
    | inr (e, p) ↦ absurd (ground arith)
    | inl p ↦
        rw (p, each_model) (ap (◌∷◌ (step m).0) (each_model_done step (i + 1) ms (ground arith)))
  ]

  stamped_hooks :
      (config : BatchConfig) (ms : List T)
      → (hooks_of_all model config.skip_hooks before_save before_create ms).1 ≡ none
      → map model.set_timestamps
          (hooks_of_all model config.skip_hooks before_save before_create ms).0
        ≡ map (ready model config) ms
  unfolding hooks_of_all
  stamped_hooks config ms h = elim (Bool-cases config.skip_hooks) [
    | inl s ↦ rw (s, hooks_of_all) refl
    | inr s ↦
        rw (s, hooks_of_all)
          ((λ i.
              map model.set_timestamps
                (each_model_done (run_two model before_save before_create) 0 ms (ground arith) i))
            ∙ map_map (run_two model before_save before_create) ms)
  ]
    where
      map_map :
          (f : T → T × Option (DbError E)) (ms : List T)
          → map model.set_timestamps (map (λ m. (f m).0) ms)
            ≡ map (λ m. model.set_timestamps (f m).0) ms
      map_map f [] = refl
      map_map f (m ∷ ms) = ap (◌∷◌ (model.set_timestamps (f m).0)) (map_map f ms)

  insert_batch_done :
      IsInserting
      → (config : BatchConfig) (ms : List T) (w : W) → All IsRecord (map (ready model config) ms)
      → (insert_batch model driver d config ms w).2 ≡ none
      → rows_of (insert_batch model driver d config ms w).1
        ≡ rows_of w ++ rows_for (map (ready model config) ms)
  unfolding insert_batch
  insert_batch_done t config ms w h ok =
      let hooks = hooks_of_all model config.skip_hooks before_save before_create ms in
      let inserted = insert_models model driver d (map model.set_timestamps hooks.0) w in
      elim (Option-cases hooks.1) [
        | inr (e, p) ↦ absurd (ground arith)
        | inl p ↦
            let same : map model.set_timestamps hooks.0 ≡ map (ready model config) ms =
              stamped_hooks config ms p in
            elim (Option-cases inserted.2) [
              | inr (e, q) ↦ absurd (ground arith)
              | inl q ↦
                  let q' : (insert_models model driver d (map (ready model config) ms) w).2 ≡ none =
                    (λ i. (insert_models model driver d (sym same i) w).2) ∙ q in
                  rw (p, insert_batch)
                    (rw (q, insert_batch)
                      ((λ i. rows_of (insert_models model driver d (same i) w).1)
                        ∙ insert_models_done t (map (ready model config) ms) w h q'))
            ]
      ]

  rows_for-append :
      (f : T → T) (xs ys : List T)
      → rows_for (map f (xs ++ ys)) ≡ rows_for (map f xs) ++ rows_for (map f ys)
  rows_for-append f [] ys = refl
  rows_for-append f (x ∷ xs) ys = ap (◌∷◌ (kept (tuple_of model (f x)))) (rows_for-append f xs ys)

  All-take :
      (P : T → Type 0) (f : T → T) (n : ℕ) (xs : List T)
      → All P (map f xs)
      → All P (map f (take n xs))
  All-take P f zero xs h = tt
  All-take P f (suc n) [] h = tt
  All-take P f (suc n) (x ∷ xs) h = (h.0, All-take P f n xs h.1)

  All-drop :
      (P : T → Type 0) (f : T → T) (n : ℕ) (xs : List T)
      → All P (map f xs)
      → All P (map f (drop n xs))
  All-drop P f zero xs h = h
  All-drop P f (suc n) [] h = tt
  All-drop P f (suc n) (x ∷ xs) h = All-drop P f n xs h.1

  insert_from_done :
      IsInserting
      → (config : BatchConfig) (size fuel i : ℕ) (ms : List T) (w : W) → 0 < size
      → length ms ≤ fuel
      → All IsRecord (map (ready model config) ms)
      → (insert_from model driver d config size fuel i ms w).2 ≡ none
      → rows_of (insert_from model driver d config size fuel i ms w).1
        ≡ rows_of w ++ rows_for (map (ready model config) ms)
  unfolding insert_from
  insert_from_done t config size zero i [] w s l h ok = sym (append-nil (rows_of w))
  insert_from_done t config size zero i (m ∷ ms) w s l h ok = absurd (omega arith)
  insert_from_done t config size (suc fuel) i [] w s l h ok = sym (append-nil (rows_of w))
  insert_from_done t config size (suc fuel) i (m ∷ ms) w s l h ok =
      let xs : List T = take size (m ∷ ms) in
      let ys : List T = drop size (m ∷ ms) in
      let batch = insert_batch model driver d config xs w in
      elim (Option-cases batch.2) [
        | inr (e, p) ↦ absurd (ground arith)
        | inl p ↦
            let ok' : (insert_from model driver d config size fuel (i + size) ys batch.1).2 ≡ none =
              ground arith in
            let less : length ys ≤ fuel = omega (arith, length-drop size (m ∷ ms)) in
            rw (p, insert_from)
              (insert_from_done t config size fuel (i + size) ys batch.1 s less
                  (All-drop IsRecord (ready model config) size (m ∷ ms) h) ok'
                ∙ (λ j.
                    insert_batch_done t config xs w
                      (All-take IsRecord (ready model config) size (m ∷ ms) h) p j
                    ++ rows_for (map (ready model config) ys))
                ∙ append_assoc (rows_of w) (rows_for (map (ready model config) xs))
                    (rows_for (map (ready model config) ys))
                ∙ (λ j. rows_of w ++ sym (rows_for-append (ready model config) xs ys) j)
                ∙ (λ j.
                    rows_of w
                    ++ rows_for (map (ready model config) (take-append-drop size (m ∷ ms) j))))
      ]

  -- If BatchInsert returns no error, the table holds the rows that it held and then one for each model,
  -- in their order, with what the database takes as it is of the values that its hooks and the timestamps
  -- leave: whatever the size of the batches, every model is inserted once. This is for models of one
  -- table with the same columns, and needs that an INSERT that succeeds adds a row for each tuple.
  pub batch_insert_lem :
      IsInserting
      → (config : BatchConfig) (ms : List T) (w : W) → All IsRecord (map (ready model config) ms)
      → (batch_insert model driver d config ms w).2 ≡ none
      → rows_of (batch_insert model driver d config ms w).1
        ≡ rows_of w ++ rows_for (map (ready model config) ms)
  unfolding batch_insert
  batch_insert_lem t config ms w h ok =
      insert_from_done t config (positive_or 100 config.batch_size) (length ms) 0 ms w
        (positive_or_pos 100 config.batch_size (omega arith)) (omega arith) h ok
