-- ===== src/Events/Bus.antt =====
-- eventsourcing/event.go, EventBus. A handler acts on a world of its own and may fail.
use genus.Prelude.{
  ◌≡◌, refl, sym, ◌∙◌, Option, none, some, List, [], ◌∷◌, ◌++◌, arith, if◌then◌else◌, codes,
  append_assoc, append-nil, bytes_eq,
}
use genus.Prelude.Dict.{Bytes, bytes_eq_iff, lookup, insert, lookup-insert, lookup-nil}
use genus.Events.{Event}

abbrev pub EventHandler : Type 0 → Type 0 → Type 0 → Type 0
EventHandler D W E = Event D → W → W × Option E

pub record EventBus (D W E : Type 0) : Type 0 where
  pub handlers : List (Bytes × List (EventHandler D W E))

module _ {W E : Type 0} where
  -- Steps until one fails.
  pub run_steps : List (W → W × Option E) → W → W × Option E
  run_steps [] w = (w, none)
  run_steps (step ∷ steps) w = elim (step w).1 [
    | some e ↦ ((step w).0, some e)
    | none ↦ run_steps steps (step w).0
  ]

  run_steps_append :
      (xs ys : List (W → W × Option E)) (w : W)
      → run_steps (xs ++ ys) w ≡ elim (run_steps xs w).1 [
        | some e ↦ ((run_steps xs w).0, some e)
        | none ↦ run_steps ys (run_steps xs w).0
      ]
  unfolding run_steps
  run_steps_append [] ys w = refl
  run_steps_append (x ∷ xs) ys w = ground (arith, run_steps_append xs ys (x w).0)

module _ {D W E : Type 0} where
  unfoldable pub new_event_bus : EventBus D W E
  new_event_bus = record { handlers = [] }

  -- `eb.handlers[t]`; a missing key is the nil slice
  unfoldable pub handlers_for : Bytes → EventBus D W E → List (EventHandler D W E)
  handlers_for ty bus = elim (lookup ty bus.handlers) [ none ↦ [] | some hs ↦ hs ]

  unfoldable pub subscribe : Bytes → EventHandler D W E → EventBus D W E → EventBus D W E
  unfolding handlers_for
  subscribe ty handler bus = record {
    handlers = insert ty (handlers_for ty bus ++ (handler ∷ [])) bus.handlers;
  }

  -- The loops of Publish, which end at the first error.
  unfoldable pub run_handlers : List (EventHandler D W E) → Event D → W → W × Option E
  run_handlers [] event w = (w, none)
  run_handlers (handler ∷ handlers) event w =
      let (w', err) = handler event w in
      let rest = run_handlers handlers event w' in elim err [ some e ↦ (w', some e) | none ↦ rest ]

  unfoldable pub publish : EventBus D W E → Event D → W → W × Option E
  unfolding handlers_for run_handlers
  publish bus event w =
      let (w', err) = run_handlers (handlers_for event.event_type bus) event w in
      elim err [
        | some e ↦ (w', some e)
        | none ↦ run_handlers (handlers_for (codes "*") bus) event w'
      ]

  unfoldable pub publish_all : EventBus D W E → List (Event D) → W → W × Option E
  unfolding publish
  publish_all bus [] w = (w, none)
  publish_all bus (event ∷ events) w =
      let (w', err) = publish bus event w in
      let rest = publish_all bus events w' in elim err [ some e ↦ (w', some e) | none ↦ rest ]

  -- Subscriptions in the order in which they are made.
  pub subscribe_all : List (Bytes × EventHandler D W E) → EventBus D W E → EventBus D W E
  subscribe_all [] bus = bus
  subscribe_all ((ty, handler) ∷ subs) bus = subscribe_all subs (subscribe ty handler bus)

  -- The handlers that were subscribed for a type.
  abbrev pub subscribed : Bytes → List (Bytes × EventHandler D W E) → List (EventHandler D W E)
  subscribed ty [] = []
  subscribed ty ((t, handler) ∷ subs) =
      let rest = subscribed ty subs in if bytes_eq t ty then handler ∷ rest else rest

  -- An event handed to each handler.
  abbrev pub each : Event D → List (EventHandler D W E) → List (W → W × Option E)
  each event [] = []
  each event (handler ∷ handlers) = handler event ∷ each event handlers

  -- Each event goes to the handlers of its type and then to those of "*".
  abbrev pub deliveries :
      List (Bytes × EventHandler D W E) → List (Event D) → List (W → W × Option E)
  deliveries subs [] = []
  deliveries subs (event ∷ events) =
      each event (subscribed event.event_type subs)
      ++ (each event (subscribed (codes "*") subs) ++ deliveries subs events)

  run_handlers_steps :
      (handlers : List (EventHandler D W E)) (event : Event D) (w : W)
      → run_handlers handlers event w ≡ run_steps (each event handlers) w
  unfolding run_handlers run_steps
  run_handlers_steps [] event w = refl
  run_handlers_steps (h ∷ hs) event w = ground (arith, run_handlers_steps hs event (h event w).0)

  handlers_for-subscribe :
      (t ty : Bytes) (h : EventHandler D W E) (bus : EventBus D W E)
      → handlers_for t (subscribe ty h bus)
        ≡ (if bytes_eq ty t then handlers_for t bus ++ (h ∷ []) else handlers_for t bus)
  unfolding subscribe
  handlers_for-subscribe t ty h bus =
      ground (
        arith,
        bytes_eq_iff ty t,
        lookup-insert ty t (handlers_for ty bus ++ (h ∷ [])) bus.handlers,
      )

  handlers_for-subscribe_all :
      (t : Bytes) (subs : List (Bytes × EventHandler D W E)) (bus : EventBus D W E)
      → handlers_for t (subscribe_all subs bus) ≡ handlers_for t bus ++ subscribed t subs
  unfolding subscribe_all
  handlers_for-subscribe_all t [] bus = sym (append-nil (handlers_for t bus))
  handlers_for-subscribe_all t ((ty, h) ∷ subs) bus = ground (
    arith,
    handlers_for-subscribe_all t subs (subscribe ty h bus),
    handlers_for-subscribe t ty h bus,
    append_assoc (handlers_for t bus) (h ∷ []) (subscribed t subs),
  )

  handlers_for_new :
      (t : Bytes) (subs : List (Bytes × EventHandler D W E))
      → handlers_for t (subscribe_all subs new_event_bus) ≡ subscribed t subs
  unfolding new_event_bus
  handlers_for_new t subs =
      handlers_for-subscribe_all t subs new_event_bus
      ∙ (unfold handlers_for in rw (lookup-nil, handlers_for) refl)

  -- The two loops of Publish.
  abbrev both : List (EventHandler D W E) → List (EventHandler D W E) → Event D → W → W × Option E
  both hs stars event w = elim (run_handlers hs event w).1 [
    | some e ↦ ((run_handlers hs event w).0, some e)
    | none ↦ run_handlers stars event (run_handlers hs event w).0
  ]

  both_steps :
      (hs stars : List (EventHandler D W E)) (event : Event D) (w : W)
      → both hs stars event w ≡ run_steps (each event hs ++ each event stars) w
  both_steps hs stars event w = ground (
    arith,
    run_handlers_steps hs event w,
    run_handlers_steps stars event (run_handlers hs event w).0,
    run_steps_append (each event hs) (each event stars) w,
  )

  publish_steps :
      (subs : List (Bytes × EventHandler D W E)) (event : Event D) (w : W)
      → publish (subscribe_all subs new_event_bus) event w
        ≡ run_steps
            (each event (subscribed event.event_type subs)
              ++ each event (subscribed (codes "*") subs))
            w
  unfolding publish
  publish_steps subs event w =
      (λ i.
        both (handlers_for_new event.event_type subs i) (handlers_for_new (codes "*") subs i) event
          w)
      ∙ both_steps (subscribed event.event_type subs) (subscribed (codes "*") subs) event w

  -- On a bus made by any subscriptions, PublishAll hands each event to the handlers that were
  -- subscribed for its type, in the order in which they were, and then to those subscribed for "*", and
  -- ends at the first handler that fails, with its error. An event of type "*" goes to its handlers
  -- twice.
  pub publish_all_lem :
      (subs : List (Bytes × EventHandler D W E)) (events : List (Event D)) (w : W)
      → publish_all (subscribe_all subs new_event_bus) events w
        ≡ run_steps (deliveries subs events) w
  unfolding publish_all
  publish_all_lem subs [] w = unfold run_steps in refl
  publish_all_lem subs (event ∷ events) w = ground (
    arith,
    publish_steps subs event w,
    publish_all_lem subs events (publish (subscribe_all subs new_event_bus) event w).0,
    run_steps_append
        (each event (subscribed event.event_type subs) ++ each event (subscribed (codes "*") subs))
        (deliveries subs events) w,
    append_assoc (each event (subscribed event.event_type subs))
        (each event (subscribed (codes "*") subs)) (deliveries subs events),
  )
