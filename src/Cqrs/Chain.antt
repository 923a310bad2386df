-- ===== src/Cqrs/Chain.antt =====
-- cqrs/cqrs.go: the chain of middleware that Dispatch builds.
use genus.Prelude.{
  ◌≡◌, refl, sym, ◌∙◌, true, some, List, [], ◌∷◌, ◌++◌, arith, ◌==◌, ==_iff, append-nil,
  append_assoc,
}
use genus.Prelude.Dict.{lookup}
use genus.Cqrs.{
  Message, Action, Middleware, Handler, Bus, add_middleware, final, wrap, from_last, dispatch,
}

module _ {P W R E : Type 0} where
  -- Each middleware around those after it, the handler innermost.
  abbrev pub nested : List (Middleware P W R E) → Action P W R E → Action P W R E
  nested [] handler = handler
  nested (mw ∷ mws) handler = λ message. mw message (nested mws handler)

  wrap-from_last :
      (acc mws : List (Middleware P W R E)) (chain : Action P W R E)
      → wrap (from_last acc mws) chain ≡ wrap acc (nested mws chain)
  unfolding wrap
  wrap-from_last acc [] chain = refl
  wrap-from_last acc (mw ∷ mws) chain = wrap-from_last (mw ∷ acc) mws chain

  -- Use for each of a list.
  pub use_all : List (Middleware P W R E) → Bus P W R E → Bus P W R E
  use_all [] bus = bus
  use_all (mw ∷ mws) bus = use_all mws (add_middleware mw bus)

  use_all_lem :
      (mws : List (Middleware P W R E)) (bus : Bus P W R E)
      → use_all mws bus ≡ record bus { middleware = bus.middleware ++ mws }
  unfolding use_all add_middleware
  use_all_lem [] bus = λ i. record bus { middleware = sym (append-nil bus.middleware) i }
  use_all_lem (mw ∷ mws) bus =
      use_all_lem mws (add_middleware mw bus)
      ∙ (λ i. record bus { middleware = append_assoc bus.middleware (mw ∷ []) mws i })

  nested-append :
      (xs ys : List (Middleware P W R E)) (handler : Action P W R E)
      → nested (xs ++ ys) handler ≡ nested xs (nested ys handler)
  nested-append [] ys handler = refl
  nested-append (x ∷ xs) ys handler = λ i. λ message. x message (nested-append xs ys handler i)

  wrap_none : (chain : Action P W R E) → wrap [] chain ≡ chain
  unfolding wrap
  wrap_none chain = refl

  pub dispatch_found :
      (bus : Bus P W R E) (message : Message P) (w : W) (handler : Handler P W R E)
      → lookup message.name bus.handlers ≡ some handler
      → handler.takes ≡ message.go_type
      → dispatch bus message w ≡ nested bus.middleware (final handler) message w
  unfolding dispatch
  dispatch_found bus message w handler found typed =
      let same : (handler.takes == message.go_type) ≡ true =
        ground (arith, ==_iff handler.takes message.go_type) in
      rw (found, dispatch)
        (rw (same, dispatch)
          (λ i.
            (wrap-from_last [] bus.middleware (final handler)
                ∙ wrap_none (nested bus.middleware (final handler)))
              i message w))

  -- A command whose type has a handler under the command's name goes through the middleware in the order
  -- in which Use added it, the earlier around the later, and the handler innermost: middleware that is
  -- added to a bus comes after what the bus has.
  pub dispatch-nested :
      (bus : Bus P W R E) (mws : List (Middleware P W R E)) (message : Message P) (w : W)
      (handler : Handler P W R E)
      → lookup message.name bus.handlers ≡ some handler
      → handler.takes ≡ message.go_type
      → dispatch (use_all mws bus) message w
        ≡ nested bus.middleware (nested mws (final handler)) message w
  dispatch-nested bus mws message w handler found typed =
      (λ i. dispatch (use_all_lem mws bus i) message w)
      ∙ dispatch_found (record bus { middleware = bus.middleware ++ mws }) message w handler found
          typed
      ∙ (λ i. nested-append bus.middleware mws (final handler) i message w)
