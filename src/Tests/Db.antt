-- ===== src/Tests/Db.antt =====
-- core/db.go and core/batch.go: models of an id and a name, and drivers over a list of rows.
use genus.Prelude.{
  ℕ, zero, suc, ◌+◌, ◌≡◌, refl, ap, ◌∙◌, true, false, Option, none, some, List, [], ◌∷◌, ◌++◌, ◌⊎◌,
  inl, inr, map, arith, codes, length, bytes_eq, if◌then◌else◌, All, pos, negsuc, ltb,
}
use genus.Prelude.Dict.{Bytes}
use genus.Query.Sql.{postgres, mysql, params, range}
use genus.Db.{
  before_save, before_create, before_update, before_delete, after_save, after_create, after_update,
  after_delete, Model, Result, done, Driver, zero_id, at_index, run_two, run_hook,
}
use genus.Db.Batch.{
  BatchConfig, each_model, hooks_of_all, all_values, insert_sql, hooks_at, delete_hook,
  set_last_ids, set_ids_from,
}
use genus.Db.Operations.{
  insert_models, run_insert, insert_batch, insert_from, batch_insert, update_at, update_one,
  batch_update_direct, batch_delete,
}
use genus.Db.Transaction.{
  Transactions, with_tx, finish, batch_update, IsTransactional, Ends, batch_update_atomic,
}
use genus.Db.Numbering.{insert_sql_numbering}
use genus.Db.Inserted.{flat, IsInserting, tuples, ready, batch_insert_lem}
use genus.Db.Upsert.{UpsertConfig, batch_upsert_sql, all_args}
use genus.Db.Upserted.{batch_upsert_numbering}
use genus.Query.Sql.{decimal}
use genus.Db.Deleted.{HasId, Deletes, batch_delete_once}

abbrev User : Type 0
User = ℕ × ℕ

-- Its id and its name; BeforeSave changes a name of 0 to 1 and refuses a name of 9.
abbrev user : Model User ℕ ℕ
user = record {
  table_name = λ m. codes "users";
  fields = λ m. inl ((codes "id", m.0) ∷ (codes "name", m.1) ∷ []);
  get_id = λ m. pos m.0;
  set_id = λ z m. elim z [ pos n ↦ (n, m.1) | negsuc n ↦ m ];
  id_value = λ z. elim z [ pos n ↦ n | negsuc n ↦ 0 ];
  set_timestamps = λ m. m;
  set_updated_at = λ m. m;
  hook = λ h m. elim h [
    | before_save ↦ elim m.1 [
      | zero ↦ some ((m.0, 1), none)
      | suc n ↦ if ltb 7 n then some (m, some 5) else some (m, none)
    ]
    | before_create ↦ none
    | before_update ↦ none
    | before_delete ↦ none
    | after_save ↦ none
    | after_create ↦ none
    | after_update ↦ none
    | after_delete ↦ none
  ];
  soft_deletable = λ m. false;
  set_deleted_at = λ now m. m;
}

abbrev World : Type 0
World = List (List ℕ)

-- A row whose id is 0 gets the next number as its id.
abbrev numbered : ℕ → World → World
numbered next [] = []
numbered next ([] ∷ rows) = [] ∷ numbered (next + 1) rows
numbered next ((zero ∷ row) ∷ rows) = (next ∷ row) ∷ numbered (next + 1) rows
numbered next ((suc n ∷ row) ∷ rows) = (suc n ∷ row) ∷ numbered (next + 1) rows

-- The arguments of an INSERT, two to a row.
abbrev rows_of_args : List ℕ → World
rows_of_args [] = []
rows_of_args (a ∷ []) = []
rows_of_args (a ∷ b ∷ args) = (a ∷ b ∷ []) ∷ rows_of_args args

abbrev inserted : Result ℕ
inserted = record { last_insert_id = some (pos 3); rows_affected = inl 2 }

abbrev inserter : Driver World ℕ ℕ
inserter = record {
  exec = λ sql args w. (w ++ numbered (length w + 1) (rows_of_args args), inl inserted);
  query_ids = λ sql args w. (w ++ numbered (length w + 1) (rows_of_args args), inl ([], done));
  query_row = λ sql args w. (w, inr 0);
}

abbrev columns : List Bytes
columns = codes "id" ∷ codes "name" ∷ []

-- All but the id.
abbrev but_id : List ℕ → List ℕ
but_id [] = []
but_id (id ∷ row) = row

abbrev named : World → World
named w = map but_id w

named_numbered : (next : ℕ) (rows : World) → named (numbered next rows) ≡ named rows
named_numbered next [] = refl
named_numbered next ([] ∷ rows) = ap (◌∷◌ []) (named_numbered (next + 1) rows)
named_numbered next ((zero ∷ row) ∷ rows) = ap (◌∷◌ row) (named_numbered (next + 1) rows)
named_numbered next ((suc n ∷ row) ∷ rows) = ap (◌∷◌ row) (named_numbered (next + 1) rows)

named_append : (xs ys : World) → named (xs ++ ys) ≡ named xs ++ named ys
named_append [] ys = refl
named_append (x ∷ xs) ys = ap (◌∷◌ (but_id x)) (named_append xs ys)

rows_of_flat : (rows : World) → All (λ row. length row ≡ 2) rows → rows_of_args (flat rows) ≡ rows
rows_of_flat [] h = refl
rows_of_flat ([] ∷ rows) h = absurd (ground arith)
rows_of_flat ((a ∷ []) ∷ rows) h = absurd (ground arith)
rows_of_flat ((a ∷ b ∷ []) ∷ rows) h = ap (◌∷◌ (a ∷ b ∷ [])) (rows_of_flat rows h.1)
rows_of_flat ((a ∷ b ∷ c ∷ row) ∷ rows) h = absurd (ground arith)

rows_added :
    (rows w : World)
    → All (λ row. length row ≡ 2) rows
    → named (w ++ numbered (length w + 1) (rows_of_args (flat rows))) ≡ named w ++ named rows
rows_added rows w h =
    named_append w (numbered (length w + 1) (rows_of_args (flat rows)))
    ∙ (λ i. named w ++ named_numbered (length w + 1) (rows_of_args (flat rows)) i)
    ∙ (λ i. named w ++ named (rows_of_flat rows h i))

inserter-IsInserting : IsInserting user inserter mysql (codes "users") columns but_id named
inserter-IsInserting = record {
  by_query = λ rows w ids a h. rows_added rows w a;
  by_exec = λ rows w r a h. rows_added rows w a;
}

-- Batches of two.
abbrev config : BatchConfig
config = record { batch_size = pos 2; skip_hooks = false }

abbrev users : List User
users = (0, 4) ∷ (0, 0) ∷ (0, 6) ∷ []

batch_insert_lem_example :
    named (batch_insert user inserter mysql config users []).1
    ≡ named (tuples user (map (ready user config) users))
batch_insert_lem_example =
    batch_insert_lem user inserter mysql (codes "users") columns but_id named inserter-IsInserting
      config users []
      (unfold run_two run_hook in
        ((_, refl, refl, refl), ((_, refl, refl, refl), ((_, refl, refl, refl), tt))))
      (unfold batch_insert insert_from insert_batch hooks_of_all each_model run_two run_hook
          insert_models all_values run_insert set_last_ids set_ids_from mysql bytes_eq in
        refl)

insert_sql_numbering_example :
    (args : List ℕ) × (all_values user 0 users ≡ inl args)
    × (params (insert_sql postgres (codes "users") columns (length users)) ≡ range 1 (length args))
insert_sql_numbering_example =
    insert_sql_numbering user postgres (codes "users") columns users
      ((_, refl, refl), ((_, refl, refl), ((_, refl, refl), tt)))

abbrev row : List (Bytes × ℕ)
row = (codes "id", 1) ∷ (codes "name", 4) ∷ []

-- The first user has an id, the second has none.
abbrev mixed : List User
mixed = (7, 4) ∷ (0, 5) ∷ []

batch_delete_once_example :
    ((batch_delete user inserter mysql config 0 mixed []).1 ≡ [])
    ⊎ (All (HasId user) (delete_hook user false before_delete mixed).0
        × Deletes user inserter mysql 0
            (delete_hook user false before_delete mixed).0
            []
            (batch_delete user inserter mysql config 0 mixed []).1)
batch_delete_once_example = batch_delete_once user inserter mysql config 0 mixed []

-- The state of a connection: what is durable, and the rows of the open transaction, if there is one.
abbrev Session : Type 0
Session = World × Option World

abbrev run_in : List ℕ → Session → Session
run_in args (saved, none) = (saved ++ (args ∷ []), none)
run_in args (saved, some open_rows) = (saved, some (open_rows ++ (args ∷ [])))

-- A statement on the transaction, and one on another connection of the pool.
abbrev session : Driver Session ℕ ℕ
session = record {
  exec = λ sql args w. (run_in args w, inl inserted);
  query_ids = λ sql args w. (w, inr 0);
  query_row = λ sql args w. (w, inr 0);
}

abbrev pool : Driver Session ℕ ℕ
pool = record session { exec = λ sql args w. ((w.0 ++ (args ∷ []), w.1), inl inserted) }

abbrev committed : Session → Session
committed (saved, none) = (saved, none)
committed (saved, some open_rows) = (saved ++ open_rows, none)

abbrev transactions : Transactions Session ℕ ℕ
transactions = record {
  executor = session;
  begin = λ w. ((w.0, some []), none);
  commit = λ w. (committed w, none);
  rollback = λ w. ((w.0, none), none);
}

abbrev saved_of : Session → World
saved_of w = w.0

abbrev IsOpen : Session → Type 0
IsOpen w = (rows : World) × (w.1 ≡ some rows)

session-IsTransactional : IsTransactional transactions saved_of IsOpen
session-IsTransactional = record {
  begun = λ w h. ([], refl);
  begin_durable = λ w. refl;
  exec_open = λ sql args w o. (o.0 ++ (args ∷ []), λ i. (run_in args (w.0, o.1 i)).1);
  exec_durable = λ sql args w o. λ i. (run_in args (w.0, o.1 i)).0;
  rollback_durable = λ w o. refl;
  not_begun = λ w e h shut. absurd (ground arith);
  rolled_back = λ w o h shut. absurd (ground (arith, shut.1));
}

batch_update_atomic_example :
    Ends {E = ℕ} saved_of IsOpen
      ([], none)
      (batch_update user pool mysql transactions true config mixed ([], none)).1
      (at_index 1 zero_id)
batch_update_atomic_example =
    batch_update_atomic user pool mysql transactions saved_of IsOpen session-IsTransactional config
      mixed ([], none) (at_index 1 zero_id) (λ o. absurd (ground (arith, o.1)))
      (unfold batch_update with_tx finish batch_update_direct update_one hooks_at update_at run_two
          run_hook in
        refl)

abbrev upsert_config : UpsertConfig ℕ
upsert_config = record {
  conflict_columns = codes "email" ∷ [];
  update_columns = [];
  do_nothing = false;
  update_where = [];
  update_where_args = [];
}

batch_upsert_numbering_example :
    params (batch_upsert_sql postgres (codes "users") columns (row ∷ row ∷ []) upsert_config)
    ≡ range 1 (length (all_args postgres (row ∷ row ∷ [])))
batch_upsert_numbering_example =
    batch_upsert_numbering postgres (codes "users") columns (row ∷ row ∷ []) upsert_config
      (unfold postgres decimal bytes_eq in refl)
