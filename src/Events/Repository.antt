-- ===== src/Events/Repository.antt =====
-- eventsourcing/event.go: BaseAggregate, AggregateRepository and SnapshotRepository. The methods of an
-- aggregate, which the client writes, take it to its next state.
use genus.Prelude.{
  ℕ, ◌+◌, ◌%◌, Option, none, some, List, [], ◌∷◌, ◌++◌, inl, inr, ◌==◌, if◌then◌else◌,
}
use genus.Prelude.Dict.{Bytes, lookup, insert}
use genus.Events.{
  Event, Json, Tables, append, load_from_version, load, save_snapshot, load_snapshot,
}

-- `BaseAggregate`
pub record BaseAggregate (D : Type 0) : Type 0 where
  pub id : Bytes
  pub aggregate_type : Bytes
  pub version : ℕ
  pub uncommitted : List (Event D)

-- RaiseEvent, with the clock and the new identifier.
unfoldable pub raise_event :
    {D : Type 0} → D → ℕ → Bytes → Bytes → D → BaseAggregate D → BaseAggregate D × Event D
raise_event {D} no_metadata now uuid event_type payload a =
    let event : Event D = record {
      id = uuid;
      aggregate_id = a.id;
      aggregate_type = a.aggregate_type;
      event_type = event_type;
      version = a.version + 1;
      payload = payload;
      metadata = no_metadata;
      timestamp = some now;
    } in
    (record a { version = a.version + 1; uncommitted = a.uncommitted ++ (event ∷ []) }, event)

-- The interfaces `Aggregate` and `Snapshotable`.
pub record Aggregate (T D S E : Type 0) : Type 0 where
  pub get_id : T → Bytes
  pub get_type : T → Bytes
  pub get_version : T → ℕ
  pub set_version : ℕ → T → T
  pub apply : Event D → T → T × Option E
  pub uncommitted : T → List (Event D)
  pub clear : T → T
  pub to_snapshot : T → S
  pub from_snapshot : S → T → T × Option E

-- `AggregateRepository`; the factory's aggregate is new in each call.
pub record Repository (T D E : Type 0) : Type 0 where
  pub factory : T
  pub handlers : List (Bytes × (T → Event D → T × Option E))

unfoldable pub register_handler :
    {T D E : Type 0} → Bytes → (T → Event D → T × Option E) → Repository T D E → Repository T D E
register_handler ty handler r = record r { handlers = insert ty handler r.handlers }

module _ {T D S E : Type 0} (agg : Aggregate T D S E) where
  -- The handler of the event's type, or Apply.
  unfoldable pub handle : Repository T D E → Event D → T → T × Option E
  handle r event a = elim (lookup event.event_type r.handlers) [
    | some handler ↦ handler a event
    | none ↦ agg.apply event a
  ]

  -- The loops of Load over the events.
  unfoldable pub replay : (Event D → T → T × Option E) → List (Event D) → T → T × Option E
  replay step [] a = (a, none)
  replay step (event ∷ events) a =
      let (a', err) = step event a in
      let rest = replay step events (agg.set_version event.version a') in
      elim err [ some e ↦ (a', some e) | none ↦ rest ]

module _ {T D S W E : Type 0} (agg : Aggregate T D S E) (json : Json D E) (db : Tables W E) where
  unfoldable pub repository_load : Repository T D E → Bytes → W → T × Option E
  unfolding replay handle
  repository_load r id w = elim (load json db id (agg.get_type r.factory) w) [
    | inr e ↦ (r.factory, some e)
    | inl events ↦ replay agg (handle agg r) events r.factory
  ]

  unfoldable pub repository_save : ℕ → T → W → T × W × Option E
  repository_save now a w =
      let (w', err) = append json db now (agg.uncommitted a) w in
      elim (agg.uncommitted a) [
        | [] ↦ (a, w, none)
        | _ ∷ _ ↦ elim err [ some e ↦ (a, w', some e) | none ↦ (agg.clear a, w', none) ]
      ]

  module _ (states : Json S E) where
    unfoldable pub snapshot_load : Repository T D E → Bytes → W → T × Option E
    unfolding repository_load
    snapshot_load r id w = elim (load_snapshot states db id (agg.get_type r.factory) w) [
      | inr e ↦ repository_load r id w
      | inl s ↦
          let (a, err) = agg.from_snapshot s.state r.factory in
          elim err [
            | some e ↦ (a, some e)
            | none ↦ elim (load_from_version json db id (agg.get_type r.factory) s.version w) [
              | inr e ↦ (agg.set_version s.version a, some e)
              | inl events ↦ replay agg agg.apply events (agg.set_version s.version a)
            ]
          ]
    ]

    -- `none` is the panic of a remainder by 0.
    unfoldable pub snapshot_save : ℕ → ℕ → T → W → Option (T × W × Option E)
    unfolding repository_save
    snapshot_save interval now a w =
        let (a', w', err) = repository_save now a w in
        let (w'', err') =
          save_snapshot states db now
            (record {
              aggregate_id = agg.get_id a';
              aggregate_type = agg.get_type a';
              version = agg.get_version a';
              state = agg.to_snapshot a';
              timestamp = now;
            })
            w' in
        elim err [
          | some e ↦ some (a', w', some e)
          | none ↦
              if interval == 0
              then none
              else if (agg.get_version a' % interval) == 0
              then some (a', w'', err')
              else some (a', w', none)
        ]
