-- ===== src/Events.antt =====
-- eventsourcing/event.go: the event store, aggregates, their repository and its snapshots. A version
-- is a natural number. What database/sql does with the two tables, what encoding/json does with the
-- maps, the clock and the new identifiers are parameters; an aggregate is the client's type, whose
-- methods the repository calls.
pub mod Store
pub mod Repository
pub mod Snapshots
pub mod Bus
use genus.Prelude.{ℕ, ◌+◌, Option, none, some, List, [], ◌∷◌, ◌++◌, ◌⊎◌, inl, inr}
use genus.Prelude.Dict.{Bytes}

-- `Event`; `D` is the type of `Data` and `Metadata`.
pub record Event (D : Type 0) : Type 0 where
  pub id : Bytes
  pub aggregate_id : Bytes
  pub aggregate_type : Bytes
  pub event_type : Bytes
  pub version : ℕ
  pub payload : D
  pub metadata : D
  -- `none` is the zero time
  pub timestamp : Option ℕ

-- A row of the table of events: the maps are JSON.
pub record Row : Type 0 where
  pub id : Bytes
  pub aggregate_id : Bytes
  pub aggregate_type : Bytes
  pub event_type : Bytes
  pub version : ℕ
  pub payload : Bytes
  pub metadata : Bytes
  pub timestamp : ℕ

-- `Snapshot`; `S` is the type of `State`.
pub record Snapshot (S : Type 0) : Type 0 where
  pub aggregate_id : Bytes
  pub aggregate_type : Bytes
  pub version : ℕ
  pub state : S
  pub timestamp : ℕ

-- A row of the table of snapshots.
abbrev pub SnapshotRow : Type 0
SnapshotRow = Snapshot Bytes

-- json.Marshal, and what json.Unmarshal leaves in the variable; its error is ignored.
pub record Json (A E : Type 0) : Type 0 where
  pub marshal : A → Bytes ⊎ E
  pub unmarshal : Bytes → A

-- The statements on the two tables, W being the database.
pub record Tables (W E : Type 0) : Type 0 where
  -- INSERT INTO events
  pub insert_event : Row → W → W × Option E
  -- SELECT ... WHERE aggregate_id, aggregate_type AND version > from ORDER BY version ASC
  pub select_events : Bytes → Bytes → ℕ → W → List Row ⊎ E
  -- SELECT COALESCE(MAX(version), 0)
  pub select_latest : Bytes → Bytes → W → ℕ ⊎ E
  -- INSERT INTO snapshots, or the update of the row that is there
  pub put_snapshot : SnapshotRow → W → W × Option E
  pub select_snapshot : Bytes → Bytes → W → SnapshotRow ⊎ E

module _ {D W E : Type 0} (json : Json D E) (db : Tables W E) where
  abbrev pub to_row : ℕ → Event D → Bytes → Bytes → Row
  to_row now event payload metadata = record {
    id = event.id;
    aggregate_id = event.aggregate_id;
    aggregate_type = event.aggregate_type;
    event_type = event.event_type;
    version = event.version;
    payload = payload;
    metadata = metadata;
    timestamp = elim event.timestamp [ none ↦ now | some t ↦ t ];
  }

  abbrev pub of_row : Row → Event D
  of_row row = record {
    id = row.id;
    aggregate_id = row.aggregate_id;
    aggregate_type = row.aggregate_type;
    event_type = row.event_type;
    version = row.version;
    payload = json.unmarshal row.payload;
    metadata = json.unmarshal row.metadata;
    timestamp = some row.timestamp;
  }

  -- One round of the loop of Append.
  unfoldable pub append_one : ℕ → Event D → W → W × Option E
  append_one now event w = elim (json.marshal event.payload) [
    | inr e ↦ (w, some e)
    | inl payload ↦ elim (json.marshal event.metadata) [
      | inr e ↦ (w, some e)
      | inl metadata ↦ db.insert_event (to_row now event payload metadata) w
    ]
  ]

  -- EventStore.Append; one reading of the clock serves the whole call.
  unfoldable pub append : ℕ → List (Event D) → W → W × Option E
  unfolding append_one
  append now [] w = (w, none)
  append now (event ∷ events) w =
      let (w', err) = append_one now event w in
      let rest = append now events w' in elim err [ some e ↦ (w', some e) | none ↦ rest ]

  abbrev pub of_rows : List Row → List (Event D)
  of_rows [] = []
  of_rows (row ∷ rows) = of_row row ∷ of_rows rows

  unfoldable pub load_from_version : Bytes → Bytes → ℕ → W → List (Event D) ⊎ E
  load_from_version id ty from w = elim (db.select_events id ty from w) [
    | inl rows ↦ inl (of_rows rows)
    | inr e ↦ inr e
  ]

  unfoldable pub load : Bytes → Bytes → W → List (Event D) ⊎ E
  unfolding load_from_version
  load id ty w = load_from_version id ty 0 w

  unfoldable pub get_latest_version : Bytes → Bytes → W → ℕ ⊎ E
  get_latest_version id ty w = db.select_latest id ty w

module _ {S W E : Type 0} (json : Json S E) (db : Tables W E) where
  -- SnapshotStore.Save
  unfoldable pub save_snapshot : ℕ → Snapshot S → W → W × Option E
  save_snapshot now s w = elim (json.marshal s.state) [
    | inr e ↦ (w, some e)
    | inl state ↦
        db.put_snapshot
          (record {
            aggregate_id = s.aggregate_id;
            aggregate_type = s.aggregate_type;
            version = s.version;
            state = state;
            timestamp = now;
          })
          w
  ]

  -- SnapshotStore.Load
  unfoldable pub load_snapshot : Bytes → Bytes → W → Snapshot S ⊎ E
  load_snapshot id ty w = elim (db.select_snapshot id ty w) [
    | inr e ↦ inr e
    | inl row ↦ inl (record {
      aggregate_id = row.aggregate_id;
      aggregate_type = row.aggregate_type;
      version = row.version;
      state = json.unmarshal row.state;
      timestamp = row.timestamp;
    })
  ]
