-- ===== src/Events/Snapshots.antt =====
-- eventsourcing/event.go: loading from a snapshot against loading all events.
use genus.Prelude.{
  ℕ, ◌≤◌, ◌≡◌, refl, sym, ap, ◌∙◌, Option, none, some, List, [], ◌∷◌, ◌++◌, inl, inr, arith, ltb,
  if◌then◌else◌,
}
use mathlib.Core.Path.{fun_ext}
use genus.Prelude.Dict.{Bytes, lookup-nil}
use genus.Events.{
  Event, Row, Snapshot, Json, Tables, of_row, of_rows, load_from_version, load, load_snapshot,
}
use genus.Events.Store.{IsTable, Ascending, newer}
use genus.Events.Repository.{Aggregate, Repository, handle, replay, repository_load, snapshot_load}

-- The rows up to a version.
abbrev pub up_to : ℕ → List Row → List Row
up_to v [] = []
up_to v (row ∷ rows) = let rest = up_to v rows in if ltb v row.version then [] else row ∷ rest

pub newer_all : (v n : ℕ) (rows : List Row) → v ≤ n → Ascending n rows → newer v rows ≡ rows
newer_all v n [] l a = refl
newer_all v n (row ∷ rows) l a = ground (arith, newer_all v row.version rows)

split_rows : (v n : ℕ) (rows : List Row) → Ascending n rows → up_to v rows ++ newer v rows ≡ rows
split_rows v n [] a = refl
split_rows v n (row ∷ rows) a =
    ground (arith, split_rows v row.version rows, newer_all v row.version rows)

module _ {D W E : Type 0} (json : Json D E) (db : Tables W E) where
  of_rows_append :
      (xs ys : List Row) → of_rows json db (xs ++ ys) ≡ of_rows json db xs ++ of_rows json db ys
  of_rows_append [] ys = refl
  of_rows_append (x ∷ xs) ys = ap (◌∷◌ (of_row json db x)) (of_rows_append xs ys)

module _ {T D S E : Type 0} (agg : Aggregate T D S E) where
  replay_append :
      (step : Event D → T → T × Option E) (xs ys : List (Event D)) (a b : T)
      → replay agg step xs a ≡ (b, none)
      → replay agg step (xs ++ ys) a ≡ replay agg step ys b
  unfolding replay
  replay_append step [] ys a b h = λ i. replay agg step ys ((h i).0)
  replay_append step (x ∷ xs) ys a b h =
      ground (arith, replay_append step xs ys (agg.set_version x.version (step x a).0) b)

module _ {T D S W E : Type 0} (agg : Aggregate T D S E) (json : Json D E) (db : Tables W E)
    (states : Json S E) where
  -- The branch of Load that found a snapshot.
  abbrev resume : T → Bytes → Snapshot S → W → T × Option E
  resume factory id s w = elim (agg.from_snapshot s.state factory).1 [
    | some e ↦ ((agg.from_snapshot s.state factory).0, some e)
    | none ↦ elim (load_from_version json db id (agg.get_type factory) s.version w) [
      | inr e ↦ (agg.set_version s.version (agg.from_snapshot s.state factory).0, some e)
      | inl events ↦
          replay agg agg.apply events
            (agg.set_version s.version (agg.from_snapshot s.state factory).0)
    ]
  ]

  snapshot_found :
      (r : Repository T D E) (id : Bytes) (w : W) (s : Snapshot S)
      → load_snapshot states db id (agg.get_type r.factory) w ≡ inl s
      → snapshot_load agg json db states r id w ≡ resume r.factory id s w
  unfolding snapshot_load
  snapshot_found r id w s found = rw (found, snapshot_load) refl

  apply_only : (r : Repository T D E) → r.handlers ≡ [] → handle agg r ≡ agg.apply
  unfolding handle
  apply_only r h = fun_ext λ event. fun_ext λ a. rw (h, lookup-nil, handle) refl

  -- In a repository with no handler, where the snapshot of an aggregate holds the state that its events
  -- up to the snapshot's version give, loading it with the snapshot and the later events gives what
  -- loading it from all its events gives, the errors of later events included.
  pub snapshot_load_lem :
      IsTable db
      → (r : Repository T D E) (id : Bytes) (w : W) (rows : List Row) (s : Snapshot S) (a : T)
      → r.handlers ≡ []
      → db.select_events id (agg.get_type r.factory) 0 w ≡ inl rows
      → load_snapshot states db id (agg.get_type r.factory) w ≡ inl s
      → agg.from_snapshot s.state r.factory ≡ (a, none)
      → replay agg agg.apply (of_rows json db (up_to s.version rows)) r.factory
        ≡ (agg.set_version s.version a, none)
      → snapshot_load agg json db states r id w ≡ repository_load agg json db r id w
  unfolding repository_load load load_from_version
  snapshot_load_lem t r id w rows s a plain read found restored held =
      let ty : Bytes = agg.get_type r.factory in
      let start : T = agg.set_version s.version a in
      let later : load_from_version json db id ty s.version w
          ≡ inl (of_rows json db (newer s.version rows)) =
        rw (t.filtered id ty s.version w rows read, load_from_version) refl in
      let all : load json db id ty w ≡ inl (of_rows json db rows) =
        rw (read, load_from_version) refl in
      let resumed : resume r.factory id s w
          ≡ replay agg agg.apply (of_rows json db (newer s.version rows)) start =
        let ok : (agg.from_snapshot s.state r.factory).1 ≡ none = λ i. (restored i).1 in
        rw (ok, resume)
          (rw (later, resume)
            (λ i.
              replay agg agg.apply (of_rows json db (newer s.version rows))
                (agg.set_version s.version (restored i).0))) in
      let whole : repository_load agg json db r id w
          ≡ replay agg agg.apply (of_rows json db rows) r.factory =
        rw (all, repository_load)
          (λ i. replay agg (apply_only r plain i) (of_rows json db rows) r.factory) in
      snapshot_found r id w s found
      ∙ resumed
      ∙ sym (
          replay_append agg agg.apply (of_rows json db (up_to s.version rows))
            (of_rows json db (newer s.version rows)) r.factory start held)
      ∙ (λ i.
          replay agg agg.apply
            (sym (of_rows_append json db (up_to s.version rows) (newer s.version rows)) i)
            r.factory)
      ∙ (λ i.
          replay agg agg.apply
            (of_rows json db (split_rows s.version 0 rows (t.ordered id ty w rows read) i))
            r.factory)
      ∙ sym whole

  -- Without the handlers.
  abbrev pub bare : Repository T D E → Repository T D E
  bare r = record r { handlers = [] }

  same_resumed :
      (r : Repository T D E) (id : Bytes) (w : W) (s : Snapshot S)
      → load_snapshot states db id (agg.get_type r.factory) w ≡ inl s
      → snapshot_load agg json db states r id w ≡ snapshot_load agg json db states (bare r) id w
  same_resumed r id w s found =
      snapshot_found r id w s found ∙ sym (snapshot_found (bare r) id w s found)

  -- Whatever handlers are registered, where the snapshot of an aggregate holds the state that Apply of
  -- its events up to the snapshot's version gives, loading it with the snapshot gives what a repository
  -- without handlers gives from all the events: the later events go to Apply, all of them, and never to
  -- a handler.
  pub snapshot_load_ignores_handlers :
      IsTable db
      → (r : Repository T D E) (id : Bytes) (w : W) (rows : List Row) (s : Snapshot S) (a : T)
      → db.select_events id (agg.get_type r.factory) 0 w ≡ inl rows
      → load_snapshot states db id (agg.get_type r.factory) w ≡ inl s
      → agg.from_snapshot s.state r.factory ≡ (a, none)
      → replay agg agg.apply (of_rows json db (up_to s.version rows)) r.factory
        ≡ (agg.set_version s.version a, none)
      → snapshot_load agg json db states r id w
        ≡ repository_load agg json db (record r { handlers = [] }) id w
  snapshot_load_ignores_handlers t r id w rows s a read found restored held =
      same_resumed r id w s found
      ∙ snapshot_load_lem t (bare r) id w rows s a refl read found restored held
