-- ===== src/Events/Store.antt =====
-- eventsourcing/event.go, EventStore: what Append leaves in the table, and what Load reads.
use genus.Prelude.{
  ℕ, ◌≤◌, ◌<◌, ◌≡◌, refl, sym, ap, ◌∙◌, none, some, List, [], ◌∷◌, ◌++◌, inl, inr, arith, ltb,
  if◌then◌else◌, All, Option-cases, sum_cases, append_assoc, append-nil,
}
use genus.Prelude.Dict.{Bytes}
use genus.Events.{
  Event, Row, Json, Tables, to_row, of_row, of_rows, append_one, append, load_from_version, load,
}

-- WHERE version > from
abbrev pub newer : ℕ → List Row → List Row
newer from [] = []
newer from (row ∷ rows) =
    let rest = newer from rows in if ltb from row.version then row ∷ rest else rest

-- ORDER BY version ASC, with no version twice.
abbrev pub Ascending : ℕ → List Row → Type 0
Ascending v [] = Unit
Ascending v (row ∷ rows) = (v < row.version) × Ascending row.version rows

-- What the store relies on of the table of events.
module _ {W E : Type 0} (db : Tables W E) where
  pub record IsTable : Type 0 where
    -- ORDER BY version ASC of the rows with a version above 0, UNIQUE (aggregate_id, aggregate_type, version)
    pub ordered :
        (id ty : Bytes) (w : W) (rows : List Row)
        → db.select_events id ty 0 w ≡ inl rows
        → Ascending 0 rows
    -- WHERE version > from
    pub filtered :
        (id ty : Bytes) (from : ℕ) (w : W) (rows : List Row)
        → db.select_events id ty 0 w ≡ inl rows
        → db.select_events id ty from w ≡ inl (newer from rows)
    -- An INSERT that fails changes nothing.
    pub refused :
        (row : Row) (w : W) (e : E)
        → (db.insert_event row w).1 ≡ some e
        → (db.insert_event row w).0 ≡ w

-- What the columns make of a row: the JSON columns may write a text in another way, and the column of
-- the time has its own precision.
abbrev pub kept_row : (Bytes → Bytes) → (ℕ → ℕ) → Row → Row
kept_row keep_json keep_time row = record row {
  payload = keep_json row.payload;
  metadata = keep_json row.metadata;
  timestamp = keep_time row.timestamp;
}

-- What it relies on of an insertion.
module _ {D W E : Type 0} (json : Json D E) (db : Tables W E) (keep_json : Bytes → Bytes)
    (keep_time : ℕ → ℕ) where
  pub record IsKeeping : Type 0 where
    -- A text of json.Marshal decodes as before.
    pub decodes :
        (a : D) (text : Bytes)
        → json.marshal a ≡ inl text
        → json.unmarshal (keep_json text) ≡ json.unmarshal text
    -- An inserted row that is the newest of its aggregate is read last, as the columns keep it.
    pub inserted :
        (row : Row) (w : W) (rows : List Row)
        → (db.insert_event row w).1 ≡ none
        → db.select_events row.aggregate_id row.aggregate_type 0 w ≡ inl rows
        → All (λ r. r.version < row.version) rows
        → 0 < row.version
        → db.select_events row.aggregate_id row.aggregate_type 0 (db.insert_event row w).0
          ≡ inl (rows ++ (kept_row keep_json keep_time row ∷ []))

-- The events are of the aggregate, with ascending versions above the given one.
abbrev pub Follow : {D : Type 0} → Bytes → Bytes → ℕ → List (Event D) → Type 0
Follow id ty v [] = Unit
Follow id ty v (event ∷ events) =
    (event.aggregate_id ≡ id)
    × (event.aggregate_type ≡ ty)
    × (v < event.version)
    × Follow id ty event.version events

-- A value after json.Marshal and json.Unmarshal.
abbrev pub through : {A E : Type 0} → Json A E → A → A
through json a = elim (json.marshal a) [ inl text ↦ json.unmarshal text | inr e ↦ a ]

-- An event as it is read: its maps as JSON gives them, and its time, or that of the call if it has none.
abbrev pub read_back : {D E : Type 0} → Json D E → (ℕ → ℕ) → ℕ → Event D → Event D
read_back json keep_time now event = record event {
  payload = through json event.payload;
  metadata = through json event.metadata;
  timestamp = some (keep_time (elim event.timestamp [ none ↦ now | some t ↦ t ]));
}

abbrev pub all_read_back : {D E : Type 0} → Json D E → (ℕ → ℕ) → ℕ → List (Event D) → List (Event D)
all_read_back json keep_time now [] = []
all_read_back json keep_time now (event ∷ events) =
    read_back json keep_time now event ∷ all_read_back json keep_time now events

module _ {D W E : Type 0} (json : Json D E) (db : Tables W E) where
  append_one_refused :
      IsTable db
      → (now : ℕ) (event : Event D) (w : W) (e : E) → (append_one json db now event w).1 ≡ some e
      → (append_one json db now event w).0 ≡ w
  unfolding append_one
  append_one_refused t now event w e h = elim (sum_cases (json.marshal event.payload)) [
    | inr (e', p) ↦ rw (p, append_one) refl
    | inl (payload, p) ↦ elim (sum_cases (json.marshal event.metadata)) [
      | inr (e', q) ↦ rw (p, append_one) (rw (q, append_one) refl)
      | inl (metadata, q) ↦
          rw (p, append_one)
            (rw (q, append_one)
              (t.refused (to_row json db now event payload metadata) w e (ground arith)))
    ]
  ]

  of_rows_append :
      (rows : List Row) (row : Row)
      → of_rows json db (rows ++ (row ∷ [])) ≡ of_rows json db rows ++ (of_row json db row ∷ [])
  of_rows_append [] row = refl
  of_rows_append (r ∷ rows) row = ap (◌∷◌ (of_row json db r)) (of_rows_append rows row)

  All-snoc :
      (v : ℕ) (rows : List Row) (row : Row)
      → All (λ r. r.version ≤ v) rows
      → v < row.version
      → All (λ r. r.version ≤ row.version) (rows ++ (row ∷ []))
  All-snoc v [] row h k = (omega arith, tt)
  All-snoc v (r ∷ rows) row h k = (omega arith, All-snoc v rows row h.1 k)

  All-below :
      (v n : ℕ) (rows : List Row)
      → All (λ r. r.version ≤ v) rows
      → v < n
      → All (λ r. r.version < n) rows
  All-below v n [] h k = tt
  All-below v n (r ∷ rows) h k = (omega arith, All-below v n rows h.1 k)

  -- If Append fails with an error, then there is a first event that is refused: Append of those before
  -- it succeeds, that event is refused with this error in the world that they leave, and that world,
  -- with the events before it in it, is what the failed Append leaves. This needs that an INSERT that
  -- fails changes nothing.
  pub append_stops :
      IsTable db
      → (now : ℕ) (events : List (Event D)) (w : W) (e : E)
      → (append json db now events w).1 ≡ some e
      → (before : List (Event D)) × (failed : Event D) × (after : List (Event D)) × (events
          ≡ before ++ (failed ∷ after))
        × ((append json db now before w).1 ≡ none)
        × ((append_one json db now failed (append json db now before w).0).1 ≡ some e)
        × (append json db now events w ≡ ((append json db now before w).0, some e))
  unfolding append
  append_stops t now [] w e h = absurd (ground arith)
  append_stops t now (event ∷ events) w e h =
      elim (Option-cases (append_one json db now event w).1) [
        | inr (err, q) ↦
            let same : (append_one json db now event w).1 ≡ some e = ground arith in
            (
              [],
              event,
              events,
              refl,
              refl,
              same,
              rw (same, append) (λ i. (append_one_refused t now event w e same i, some e)),
            )
        | inl q ↦
            let rest : (append json db now events (append_one json db now event w).0).1 ≡ some e =
              ground arith in
            let (before, failed, after, split, kept, refused, left) =
              append_stops t now events (append_one json db now event w).0 e rest in
            (
              event ∷ before,
              failed,
              after,
              ap (◌∷◌ event) split,
              rw (q, append) kept,
              rw (q, append) refused,
              rw (q, append) left,
            )
      ]

module _ {D W E : Type 0} (json : Json D E) (db : Tables W E) (keep_json : Bytes → Bytes)
    (keep_time : ℕ → ℕ) where
  through_of :
      (a : D) (text : Bytes) → json.marshal a ≡ inl text → through json a ≡ json.unmarshal text
  through_of a text e = rw (e, through) refl

  -- A round that succeeds has inserted a row that, as the columns keep it, reads back as the event.
  append_one_done :
      IsKeeping json db keep_json keep_time
      → (now : ℕ) (event : Event D) (w : W) → (append_one json db now event w).1 ≡ none
      → (row : Row) × ((append_one json db now event w).0 ≡ (db.insert_event row w).0)
        × ((db.insert_event row w).1 ≡ none)
        × (of_row json db (kept_row keep_json keep_time row) ≡ read_back json keep_time now event)
        × (row.aggregate_id ≡ event.aggregate_id)
        × (row.aggregate_type ≡ event.aggregate_type)
        × (row.version ≡ event.version)
  unfolding append_one
  append_one_done j now event w h = elim (sum_cases (json.marshal event.payload)) [
    | inr (e, p) ↦ absurd (ground arith)
    | inl (payload, p) ↦ elim (sum_cases (json.marshal event.metadata)) [
      | inr (e, q) ↦ absurd (ground arith)
      | inl (metadata, q) ↦
          let row : Row = to_row json db now event payload metadata in
          let data_same : json.unmarshal (keep_json payload) ≡ through json event.payload =
            j.decodes event.payload payload p ∙ sym (through_of event.payload payload p) in
          let meta_same : json.unmarshal (keep_json metadata) ≡ through json event.metadata =
            j.decodes event.metadata metadata q ∙ sym (through_of event.metadata metadata q) in
          (
            row,
            rw (p, append_one) (rw (q, append_one) refl),
            ground arith,
            (λ i. record (read_back json keep_time now event) {
              payload = data_same i;
              metadata = meta_same i;
            }),
            refl,
            refl,
            refl,
          )
    ]
  ]

  -- If Append succeeds on events of one aggregate whose versions ascend, above those in the table, then
  -- Load gives the events from before and after them the new ones, in order, each with the identifiers,
  -- the type and the version that it was given, its data and metadata as json.Unmarshal reads what
  -- json.Marshal wrote, and its time as the column keeps it, which is the time of the call if it had
  -- none. This needs a JSON column that does not change what decoding sees, and that a row inserted with
  -- the highest version of its aggregate is read last.
  pub append_reads :
      IsKeeping json db keep_json keep_time
      → (now : ℕ) (id ty : Bytes) (v : ℕ) (events : List (Event D)) (rows : List Row) (w : W)
      → Follow id ty v events
      → All (λ r. r.version ≤ v) rows
      → db.select_events id ty 0 w ≡ inl rows
      → (append json db now events w).1 ≡ none
      → load json db id ty (append json db now events w).0
        ≡ inl (of_rows json db rows ++ all_read_back json keep_time now events)
  unfolding append load load_from_version
  append_reads j now id ty v [] rows w f a r h =
      rw (r, load_from_version) (ap inl (sym (append-nil (of_rows json db rows))))
  append_reads j now id ty v (event ∷ events) rows w f a r h =
      elim (Option-cases (append_one json db now event w).1) [
        | inr (e, q) ↦ absurd (ground arith)
        | inl q ↦
            let (row, world, ok, same, i, k, n) = append_one_done j now event w q in
            let kept : Row = kept_row keep_json keep_time row in
            let below : v < row.version = omega arith in
            let agg : row.aggregate_id ≡ id = i ∙ f.0 in
            let typ : row.aggregate_type ≡ ty = k ∙ f.1 in
            let before : db.select_events row.aggregate_id row.aggregate_type 0 w ≡ inl rows =
              (λ x. db.select_events (agg x) (typ x) 0 w) ∙ r in
            let now_there : db.select_events id ty 0 (append_one json db now event w).0
                ≡ inl (rows ++ (kept ∷ [])) =
              (λ x. db.select_events (sym agg x) (sym typ x) 0 (world x))
              ∙ j.inserted row w rows ok before (All-below json db v row.version rows a below)
                  (omega arith) in
            let follow : Follow id ty row.version events = rw n f.3 in
            let rest : (append json db now events (append_one json db now event w).0).1 ≡ none =
              ground arith in
            rw (q, append)
              (append_reads j now id ty row.version events (rows ++ (kept ∷ []))
                  (append_one json db now event w).0 follow (All-snoc json db v rows kept a below)
                  now_there rest
                ∙ ap inl (
                    (λ x.
                      of_rows_append json db rows kept x ++ all_read_back json keep_time now events)
                    ∙ append_assoc (of_rows json db rows) (of_row json db kept ∷ [])
                        (all_read_back json keep_time now events)
                    ∙ (λ x.
                        of_rows json db rows
                        ++ (same x ∷ all_read_back json keep_time now events))))
      ]
