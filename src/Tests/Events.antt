-- ===== src/Tests/Events.antt =====
-- eventsourcing/event.go: a table in memory, and an aggregate that adds up its events.
use genus.Prelude.{
  ℕ, ◌+◌, ◌*◌, ◌<◌, ◌≡◌, refl, sym, ap, ◌∙◌, Bool, true, ◌&&◌, none, some, List, [], ◌∷◌, ◌++◌, ◌⊎◌,
  inl, inr, arith, codes, ltb, bytes_eq, All, if◌then◌else◌, Bool-cases, bytes_eq_refl,
}
use genus.Prelude.Dict.{Bytes}
use genus.Events.{
  Event, Row, Snapshot, SnapshotRow, Json, Tables, append_one, append, load, load_snapshot,
}
use genus.Events.Store.{
  kept_row, IsTable, Ascending, newer, IsKeeping, append_reads, append_stops, all_read_back,
}
use genus.Events.Repository.{Aggregate, Repository, replay, repository_load, snapshot_load}
use genus.Events.Snapshots.{newer_all, snapshot_load_lem, snapshot_load_ignores_handlers}
use genus.Events.Bus.{
  EventHandler, subscribe_all, new_event_bus, publish_all, run_steps, deliveries, publish_all_lem,
}

abbrev Table : Type 0
Table = List Row

-- A number above 50 is read as 50.
abbrev numbers : Json ℕ ℕ
numbers = record {
  marshal = λ n. inl (n ∷ []);
  unmarshal = λ text. elim text [ [] ↦ 0 | n ∷ _ ↦ if ltb 50 n then 50 else n ];
}

-- The column writes a text with a blank at its end, and the time to the ten.
abbrev spaced : Bytes → Bytes
spaced text = text ++ (32 ∷ [])

abbrev to_ten : ℕ → ℕ
to_ten n = if ltb n 10 then 0 else 10

abbrev kept_in_table : Row → Row
kept_in_table = kept_row spaced to_ten

abbrev belongs : Bytes → Bytes → Row → Bool
belongs id ty row = bytes_eq row.aggregate_id id && bytes_eq row.aggregate_type ty

abbrev of_aggregate : Bytes → Bytes → Table → Table
of_aggregate id ty [] = []
of_aggregate id ty (row ∷ rows) =
    let rest = of_aggregate id ty rows in if belongs id ty row then row ∷ rest else rest

abbrev ascending : ℕ → Table → Bool
ascending v [] = true
ascending v (row ∷ rows) = ltb v row.version && ascending row.version rows

-- The rows in the order of insertion; a table whose versions do not ascend is not read.
abbrev select : Bytes → Bytes → ℕ → Table → Table ⊎ ℕ
select id ty from w =
    if ascending 0 (of_aggregate id ty w) then inl (newer from (of_aggregate id ty w)) else inr 1

-- A row of version 0 is refused.
abbrev in_memory : SnapshotRow → Tables Table ℕ
in_memory s = record {
  insert_event =
      λ row w. if ltb 0 row.version then (w ++ (kept_in_table row ∷ []), none) else (w, some 7);
  select_events = select;
  select_latest = λ id ty w. inr 2;
  put_snapshot = λ row w. (w, none);
  select_snapshot = λ id ty w. inl s;
}

ascending-Ascending : (v : ℕ) (rows : Table) → ascending v rows ≡ true → Ascending v rows
ascending-Ascending v [] h = tt
ascending-Ascending v (row ∷ rows) h =
    (ground arith, ascending-Ascending row.version rows (ground arith))

ascending_snoc :
    (v : ℕ) (rows : Table) (row : Row)
    → ascending v rows ≡ true
    → All (λ r. r.version < row.version) rows
    → v < row.version
    → ascending v (rows ++ (row ∷ [])) ≡ true
ascending_snoc v [] row h a l = ground arith
ascending_snoc v (r ∷ rows) row h a l = ground (arith, ascending_snoc r.version rows row, a.0, a.1)

of_aggregate_snoc :
    (id ty : Bytes) (w : Table) (row : Row)
    → belongs id ty row ≡ true
    → of_aggregate id ty (w ++ (row ∷ [])) ≡ of_aggregate id ty w ++ (row ∷ [])
of_aggregate_snoc id ty [] row h = ground arith
of_aggregate_snoc id ty (r ∷ w) row h = ground (arith, of_aggregate_snoc id ty w row h)

select_read :
    (id ty : Bytes) (w rows : Table)
    → select id ty 0 w ≡ inl rows
    → (ascending 0 (of_aggregate id ty w) ≡ true) × (newer 0 (of_aggregate id ty w) ≡ rows)
select_read id ty w rows h = elim (Bool-cases (ascending 0 (of_aggregate id ty w))) [
  | inl e ↦ (e, ground arith)
  | inr e ↦ absurd (ground arith)
]

select_all :
    (id ty : Bytes) (w rows : Table)
    → select id ty 0 w ≡ inl rows
    → (ascending 0 rows ≡ true) × (of_aggregate id ty w ≡ rows)
select_all id ty w rows h =
    let (up, same) = select_read id ty w rows h in
    let all : of_aggregate id ty w ≡ rows =
      sym (newer_all 0 0 (of_aggregate id ty w) (omega arith) (ascending-Ascending 0 _ up))
      ∙ same in
    ((λ i. ascending 0 (sym all i)) ∙ up, all)

in_memory-IsTable : (s : SnapshotRow) → IsTable (in_memory s)
in_memory-IsTable s = record {
  ordered = λ id ty w rows h. ascending-Ascending 0 rows (select_all id ty w rows h).0;
  filtered = λ id ty from w rows h. let (up, all) = select_all id ty w rows h in rw (all, up) refl;
  refused = λ row w e h. ground arith;
}

read_spaced :
    (a : ℕ) (text : Bytes)
    → numbers.marshal a ≡ inl text
    → numbers.unmarshal (spaced text) ≡ numbers.unmarshal text
read_spaced a [] h = absurd (ground arith)
read_spaced a (n ∷ text) h = refl

in_memory-IsKeeping : (s : SnapshotRow) → IsKeeping numbers (in_memory s) spaced to_ten
in_memory-IsKeeping s = record {
  decodes = read_spaced;
  inserted = λ row w rows ok h a l.
      let (up, all) = select_all row.aggregate_id row.aggregate_type w rows h in
      let grown : of_aggregate row.aggregate_id row.aggregate_type (w ++ (kept_in_table row ∷ []))
          ≡ rows ++ (kept_in_table row ∷ []) =
        of_aggregate_snoc row.aggregate_id row.aggregate_type w (kept_in_table row)
          (ground (arith, bytes_eq_refl row.aggregate_id, bytes_eq_refl row.aggregate_type))
        ∙ (λ i. all i ++ (kept_in_table row ∷ [])) in
      let sorted : ascending 0 (rows ++ (kept_in_table row ∷ [])) ≡ true =
        ascending_snoc 0 rows (kept_in_table row) up a l in
      let positive : ltb 0 row.version ≡ true = ground arith in
      rw positive (
        rw (grown, sorted)
          (ap inl (
            newer_all 0 0 (rows ++ (kept_in_table row ∷ [])) (omega arith)
              (ascending-Ascending 0 _ sorted))));
}

abbrev deposit : ℕ → ℕ → Event ℕ
deposit version amount = record {
  id = codes "e";
  aggregate_id = codes "a";
  aggregate_type = codes "account";
  event_type = codes "deposit";
  version = version;
  payload = amount;
  metadata = 0;
  timestamp = none;
}

abbrev kept : SnapshotRow
kept = record {
  aggregate_id = codes "a";
  aggregate_type = codes "account";
  version = 1;
  state = 5 ∷ [];
  timestamp = 0;
}

abbrev table : Tables Table ℕ
table = in_memory kept

abbrev deposits : List (Event ℕ)
deposits = deposit 1 5 ∷ deposit 2 7 ∷ []

append_reads_example :
    load numbers table (codes "a") (codes "account") (append numbers table 9 deposits []).0
    ≡ inl (all_read_back numbers to_ten 9 deposits)
append_reads_example =
    append_reads numbers table spaced to_ten (in_memory-IsKeeping kept) 9 (codes "a")
      (codes "account") 0 deposits [] [] (refl, refl, ground arith, (refl, refl, ground arith, tt))
      tt refl (unfold append append_one bytes_eq in refl)

abbrev half : List (Event ℕ)
half = deposit 1 5 ∷ deposit 0 7 ∷ []

append_stops_example :
    (before : List (Event ℕ)) × (failed : Event ℕ) × (after : List (Event ℕ)) × (half
      ≡ before ++ (failed ∷ after))
    × ((append numbers table 9 before []).1 ≡ none)
    × ((append_one numbers table 9 failed (append numbers table 9 before []).0).1 ≡ some 7)
    × (append numbers table 9 half [] ≡ ((append numbers table 9 before []).0, some 7))
append_stops_example =
    append_stops numbers table (in_memory-IsTable kept) 9 half [] 7
      (unfold append append_one bytes_eq in refl)

abbrev Account : Type 0
Account = ℕ × ℕ

-- The version and the balance.
abbrev account : Aggregate Account ℕ ℕ ℕ
account = record {
  get_id = λ a. codes "a";
  get_type = λ a. codes "account";
  get_version = λ a. a.0;
  set_version = λ v a. (v, a.1);
  apply = λ event a. ((a.0, a.1 + event.payload), none);
  uncommitted = λ a. [];
  clear = λ a. a;
  to_snapshot = λ a. a.1;
  from_snapshot = λ s a. ((a.0, s), none);
}

abbrev accounts : Repository Account ℕ ℕ
accounts = record { factory = (0, 0); handlers = [] }

abbrev doubled : Repository Account ℕ ℕ
doubled = record {
  factory = (0, 0);
  handlers = (codes "deposit", λ a event. ((a.0, a.1 + event.payload * 2), none)) ∷ [];
}

-- The table after the deposits.
abbrev filled : Table
filled = (append numbers table 9 deposits []).0

abbrev snapshot : Snapshot ℕ
snapshot = record {
  aggregate_id = codes "a";
  aggregate_type = codes "account";
  version = 1;
  state = 5;
  timestamp = 0;
}

snapshot_load_lem_example :
    snapshot_load account numbers table numbers accounts (codes "a") filled
    ≡ repository_load account numbers table accounts (codes "a") filled
snapshot_load_lem_example =
    snapshot_load_lem account numbers table numbers (in_memory-IsTable kept) accounts (codes "a")
      filled filled snapshot (0, 5) refl (unfold append append_one bytes_eq in refl)
      (unfold load_snapshot in refl) refl (unfold replay append append_one bytes_eq in refl)

snapshot_load_ignores_handlers_example :
    snapshot_load account numbers table numbers doubled (codes "a") filled
    ≡ repository_load account numbers table accounts (codes "a") filled
snapshot_load_ignores_handlers_example =
    snapshot_load_ignores_handlers account numbers table numbers (in_memory-IsTable kept) doubled
      (codes "a") filled filled snapshot (0, 5) (unfold append append_one bytes_eq in refl)
      (unfold load_snapshot in refl) refl (unfold replay append append_one bytes_eq in refl)

-- A handler that records the amount, and one that fails on 0.
abbrev recorder : EventHandler ℕ (List ℕ) ℕ
recorder = λ event w. (w ++ (event.payload ∷ []), none)

abbrev strict : EventHandler ℕ (List ℕ) ℕ
strict = λ event w. if ltb 0 event.payload then (w, none) else (w, some 3)

abbrev subscriptions : List (Bytes × EventHandler ℕ (List ℕ) ℕ)
subscriptions = (codes "*", recorder) ∷ (codes "deposit", strict) ∷ (codes "deposit", recorder) ∷ []

publish_all_lem_example :
    publish_all (subscribe_all subscriptions new_event_bus) (deposit 1 5 ∷ deposit 2 0 ∷ []) []
    ≡ run_steps (deliveries subscriptions (deposit 1 5 ∷ deposit 2 0 ∷ [])) []
publish_all_lem_example = publish_all_lem subscriptions (deposit 1 5 ∷ deposit 2 0 ∷ []) []
