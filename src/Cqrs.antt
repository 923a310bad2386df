-- ===== src/Cqrs.antt =====
-- cqrs/cqrs.go: the command bus, the query bus with its cache, and projections. A command carries the
-- number of its Go type, so that an assertion of its type is a test; its name and what else it holds are
-- the client's. Handlers and middleware act on a world W.
pub mod Chain
pub mod Buses
use genus.Prelude.{
  ℕ, ◌≡◌, Bool, true, false, Option, none, some, List, [], ◌∷◌, ◌++◌, ◌⊎◌, inl, inr, codes, ◌==◌,
  if◌then◌else◌,
}
use genus.Prelude.Dict.{Bytes, lookup, insert}

-- A value of an interface type: the number of its type, and the value.
pub record Message (P : Type 0) : Type 0 where
  pub go_type : ℕ
  pub name : Bytes
  pub payload : P

pub data BusError (E : Type 0) : Type 0 where
  no_handler invalid_handler : Bytes → BusError E
  validation_failed : E → BusError E
  failed : E → BusError E

-- What a call returns; an assertion of a type that fails panics.
pub data Outcome (R E : Type 0) : Type 0 where
  returned : R → Outcome R E
  refused : BusError E → Outcome R E
  panicked : Outcome R E

-- A type of commands or queries: its number, its zero value and its method CommandName or QueryName.
pub record MessageType (P : Type 0) : Type 0 where
  pub number : ℕ
  pub zero_value : P
  pub command_name : P → Bytes

-- A value of the type, behind the interface.
abbrev pub message_of : {P : Type 0} → MessageType P → P → Message P
message_of ty p = record { go_type = ty.number; name = ty.command_name p; payload = p }

-- A function of a message: a handler, and the rest of a chain.
abbrev pub Action : Type 0 → Type 0 → Type 0 → Type 0 → Type 0
Action P W R E = Message P → W → W × Outcome R E

-- CommandMiddleware and QueryMiddleware
abbrev pub Middleware : Type 0 → Type 0 → Type 0 → Type 0 → Type 0
Middleware P W R E = Message P → Action P W R E → W → W × Outcome R E

-- A handler, with the type of its messages.
pub record Handler (P W R E : Type 0) : Type 0 where
  pub takes : ℕ
  pub handle : Action P W R E

-- CommandBus and QueryBus: R is the unit for commands.
pub record Bus (P W R E : Type 0) : Type 0 where
  pub handlers : List (Bytes × Handler P W R E)
  pub middleware : List (Middleware P W R E)

module _ {P W R E : Type 0} where
  unfoldable pub new_bus : Bus P W R E
  new_bus = record { handlers = []; middleware = [] }

  -- Register and RegisterQuery, for a type C and a CommandHandler[C].
  unfoldable pub register : MessageType P → Action P W R E → Bus P W R E → Bus P W R E
  register ty action bus =
      let zero = message_of ty ty.zero_value in
      record bus {
        handlers = insert zero.name (record { takes = ty.number; handle = action }) bus.handlers;
      }

  -- Use
  unfoldable pub add_middleware : Middleware P W R E → Bus P W R E → Bus P W R E
  add_middleware mw bus = record bus { middleware = bus.middleware ++ (mw ∷ []) }

  -- `final`: the handler, on a message of its type.
  unfoldable pub final : Handler P W R E → Action P W R E
  final handler message w =
      if message.go_type == handler.takes then handler.handle message w else (w, panicked)

  -- The loop over the middleware, which counts down.
  unfoldable pub wrap : List (Middleware P W R E) → Action P W R E → Action P W R E
  wrap [] chain = chain
  wrap (mw ∷ mws) chain = wrap mws (λ message. mw message chain)

  abbrev pub from_last :
      List (Middleware P W R E) → List (Middleware P W R E) → List (Middleware P W R E)
  from_last acc [] = acc
  from_last acc (mw ∷ mws) = from_last (mw ∷ acc) mws

  -- Dispatch, and Ask up to its last assertion.
  unfoldable pub dispatch : Bus P W R E → Action P W R E
  unfolding wrap final
  dispatch bus message w = elim (lookup message.name bus.handlers) [
    | none ↦ (w, refused (no_handler message.name))
    | some handler ↦
        let chain = wrap (from_last [] bus.middleware) (final handler) in
        let run = chain message w in
        if handler.takes == message.go_type
        then run
        else (w, refused (invalid_handler message.name))
  ]

  -- Ask; `is_result` tests the type of the result.
  unfoldable pub ask : (R → Bool) → Bus P W R E → Action P W R E
  unfolding dispatch
  ask is_result bus message w =
      let (w', outcome) = dispatch bus message w in
      elim outcome [
        | returned r ↦ if is_result r then (w', returned r) else (w', panicked)
        | refused e ↦ (w', refused e)
        | panicked ↦ (w', panicked)
      ]

  -- ValidationMiddleware
  unfoldable pub validation_middleware : (Message P → Option E) → Middleware P W R E
  validation_middleware validator message next w =
      let rest = next message w in
      elim (validator message) [ some e ↦ (w, refused (validation_failed e)) | none ↦ rest ]

  -- AutoValidationMiddleware; `none` if the command is not Validatable.
  unfoldable pub auto_validation_middleware : (Message P → Option (Option E)) → Middleware P W R E
  auto_validation_middleware validate message next w =
      let rest = next message w in
      elim (validate message) [
        | none ↦ rest
        | some none ↦ rest
        | some (some e) ↦ (w, refused (validation_failed e))
      ]

  -- LoggingMiddleware, with what a line of the log does to the world.
  unfoldable pub logging_middleware :
      (Bytes → Option (BusError E) → Bool → W → W) → Middleware P W R E
  logging_middleware logger message next w =
      let (w', outcome) = next message (logger message.name none false w) in
      elim outcome [
        | returned r ↦ (logger message.name none true w', returned r)
        | refused e ↦ (logger message.name (some e) true w', refused e)
        | panicked ↦ (w', panicked)
      ]

  -- CachingQueryMiddleware, with the cache's Get and Set and fmt.Sprintf of the key.
  unfoldable pub caching_middleware :
      (Bytes → W → Option R) → (Bytes → R → W → W) → (Message P → Bytes) → Middleware P W R E
  caching_middleware get set key message next w =
      let (w', outcome) = next message w in
      elim (get (key message) w) [
        | some r ↦ (w, returned r)
        | none ↦ elim outcome [
          | returned r ↦ (set (key message) r w', returned r)
          | refused e ↦ (w', refused e)
          | panicked ↦ (w', panicked)
        ]
      ]

-- ReadModelProjection; V is the type of events and T that of the read model.
pub record Projection (V T E : Type 0) : Type 0 where
  pub handlers : List (Bytes × (V → T → T × Option E))

module _ {V T E : Type 0} where
  unfoldable pub new_projection : Projection V T E
  new_projection = record { handlers = [] }

  -- On
  unfoldable pub on : Bytes → (V → T → T × Option E) → Projection V T E → Projection V T E
  on ty handler p = record { handlers = insert ty handler p.handlers }

  -- Apply; an event without a handler is ignored.
  unfoldable pub apply_event : Projection V T E → Bytes → V → T → T × Option E
  apply_event p ty event model = elim (lookup ty p.handlers) [
    | none ↦ (model, none)
    | some handler ↦ handler event model
  ]
