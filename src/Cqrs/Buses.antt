-- ===== src/Cqrs/Buses.antt =====
-- cqrs/cqrs.go: answers from the cache, and the names under which handlers are registered.
use genus.Prelude.{
  ◌≡◌, ◌≢◌, refl, sym, ◌∙◌, false, Option, none, some, List, [], ◌∷◌, ◌⊎◌, inl, inr, arith,
  bytes_eq, Option-cases, All,
}
use genus.Prelude.Dict.{Bytes, lookup, insert, lookup-insert, lookup-nil, bytes_eq_iff}
use genus.Cqrs.{
  Message, MessageType, message_of, new_bus, no_handler, BusError, Outcome, returned, refused,
  panicked, Action, Middleware, Handler, Bus, register, final, dispatch, caching_middleware,
}
use genus.Cqrs.Chain.{nested, dispatch_found}

outcome_cases :
    {R E : Type 0} (o : Outcome R E)
    → ((r : R) × (o ≡ returned r)) ⊎ (((e : BusError E) × (o ≡ refused e)) ⊎ (o ≡ panicked))
outcome_cases (returned r) = inl (r, refl)
outcome_cases (refused e) = inr (inl (e, refl))
outcome_cases panicked = inr (inr refl)

abbrev result_of : {R E : Type 0} → Outcome R E → Option R
result_of (returned r) = some r
result_of (refused e) = none
result_of panicked = none

module _ {P W R E : Type 0} (get : Bytes → W → Option R) (set : Bytes → R → W → W)
    (key : Message P → Bytes) where
  caching_hit :
      (message : Message P) (next : Action P W R E) (w : W) (r : R)
      → get (key message) w ≡ some r
      → caching_middleware get set key message next w ≡ (w, returned r)
  unfolding caching_middleware
  caching_hit message next w r g = rw (g, caching_middleware) refl

  caching_stores :
      ((k : Bytes) (r : R) (w : W) → get k (set k r w) ≡ some r)
      → (message : Message P) (next : Action P W R E) (w w' : W) (r : R)
      → get (key message) w ≡ none
      → caching_middleware get set key message next w ≡ (w', returned r)
      → get (key message) w' ≡ some r
  unfolding caching_middleware
  caching_stores law message next w w' r g h = elim (outcome_cases (next message w).1) [
    | inl (r', o) ↦
        let k : Bytes = key message in
        let run : caching_middleware get set key message next w
            ≡ (set k r' (next message w).0, returned r') =
          rw (g, caching_middleware) (rw (o, caching_middleware) refl) in
        let same : (set k r' (next message w).0, returned r') ≡ (w', returned r) = sym run ∙ h in
        (λ i. get k (sym same i).0) ∙ law k r' (next message w).0 ∙ (λ i. result_of (same i).1)
    | inr (inl (e, o)) ↦ absurd (ground arith)
    | inr (inr o) ↦ absurd (ground arith)
  ]

  -- After an answer, the cache holds it.
  caching_again :
      ((k : Bytes) (r : R) (w : W) → get k (set k r w) ≡ some r)
      → (message : Message P) (next : Action P W R E) (w w' : W) (r : R)
      → caching_middleware get set key message next w ≡ (w', returned r)
      → get (key message) w' ≡ some r
  caching_again law message next w w' r h = elim (Option-cases (get (key message) w)) [
    | inr (r', g) ↦
        let same : (w, returned r') ≡ (w', returned r) =
          sym (caching_hit message next w r' g) ∙ h in
        (λ i. get (key message) (sym same i).0) ∙ g ∙ (λ i. result_of (same i).1)
    | inl g ↦ caching_stores law message next w w' r g h
  ]

  -- On a query bus whose outermost middleware is the cache, a query that was answered is answered again
  -- in the world that the first answer left, and that world stays: neither the handler nor the other
  -- middleware is called. This needs that the cache gives back what was set last under a key.
  pub dispatch_cached :
      ((k : Bytes) (r : R) (w : W) → get k (set k r w) ≡ some r)
      → (bus : Bus P W R E) (mws : List (Middleware P W R E)) (handler : Handler P W R E)
      → bus.middleware ≡ caching_middleware get set key ∷ mws
      → (message : Message P) (w w' : W) (r : R) → lookup message.name bus.handlers ≡ some handler
      → handler.takes ≡ message.go_type
      → dispatch bus message w ≡ (w', returned r)
      → dispatch bus message w' ≡ (w', returned r)
  dispatch_cached law bus mws handler first message w w' r found typed h =
      let next : Action P W R E = nested mws (final handler) in
      let run : (v : W) → dispatch bus message v ≡ caching_middleware get set key message next v =
        λ v.
          dispatch_found bus message v handler found typed
          ∙ (λ i. nested (first i) (final handler) message v) in
      run w'
      ∙ caching_hit message next w' r (caching_again law message next w w' r (sym (run w) ∙ h))

-- What BaseCommand and BaseQuery give: the name is a field, which is empty in the zero value.
abbrev pub TakesNameFromField : {P : Type 0} → MessageType P → Type 0
TakesNameFromField ty = ty.command_name ty.zero_value ≡ []

module _ {P W R E : Type 0} where
  abbrev pub register_all : List (MessageType P × Action P W R E) → Bus P W R E → Bus P W R E
  register_all [] bus = bus
  register_all ((ty, action) ∷ types) bus = register_all types (register ty action bus)

  not_registered :
      (types : List (MessageType P × Action P W R E)) (bus : Bus P W R E) (name : Bytes)
      → All (λ t. TakesNameFromField t.0) types
      → name ≢ []
      → lookup name (register_all types bus).handlers ≡ lookup name bus.handlers
  unfolding register
  not_registered [] bus name a named = refl
  not_registered ((ty, action) ∷ types) bus name (unnamed, a) named =
      let handler : Handler P W R E = record { takes = ty.number; handle = action } in
      let other : bytes_eq [] name ≡ false =
        ground (arith, bytes_eq_iff [] name, λ (e : [] ≡ name). named (sym e)) in
      let same : lookup name (insert [] handler bus.handlers) ≡ lookup name bus.handlers =
        ground (arith, lookup-insert [] name handler bus.handlers) in
      not_registered types (register ty action bus) name a named
      ∙ (λ i. lookup name (insert (unnamed i) handler bus.handlers))
      ∙ same

  -- On a bus on which only types that take their name from a field were registered, as with BaseCommand,
  -- Dispatch refuses every value that has a name, of these types too, as without a handler: Register
  -- reads the name of the type's zero value, which is empty.
  pub register_unnamed :
      (types : List (MessageType P × Action P W R E)) (ty : MessageType P) (p : P) (w : W)
      → All (λ t. TakesNameFromField t.0) types
      → ty.command_name p ≢ []
      → dispatch (register_all types new_bus) (message_of ty p) w
        ≡ (w, refused (no_handler (ty.command_name p)))
  unfolding dispatch new_bus
  register_unnamed types ty p w unnamed named =
      let none_there : lookup (ty.command_name p) (register_all types new_bus).handlers ≡ none =
        not_registered types new_bus (ty.command_name p) unnamed named
        ∙ lookup-nil (ty.command_name p) in
      rw (none_there, dispatch) refl
