-- ===== src/Tests/Cqrs.antt =====
-- cqrs/cqrs.go: a bus over a log of numbers, and one whose cache holds one answer.
use genus.Prelude.{
  ℕ, zero, suc, ◌+◌, ◌*◌, ◌≡◌, refl, Option, none, some, List, [], ◌∷◌, ◌++◌, arith, codes,
  if◌then◌else◌, bytes_eq, bytes_eq_refl,
}
use genus.Prelude.Dict.{Bytes, lookup, insert}
use genus.Cqrs.{
  Message, MessageType, message_of, Action, refused, no_handler, returned, Middleware, Handler, Bus,
  new_bus, register, add_middleware, final, dispatch, wrap, caching_middleware,
}
use genus.Cqrs.Chain.{nested, use_all, dispatch-nested}
use genus.Cqrs.Buses.{dispatch_cached, register_all, register_unnamed}

abbrev Log : Type 0
Log = List ℕ

-- Type 4, whose values are all named "order".
abbrev order_type : MessageType ℕ
order_type = record { number = 4; zero_value = 0; command_name = λ p. codes "order" }

-- A handler that logs the payload and answers its double.
abbrev double_it : Action ℕ Log ℕ ℕ
double_it = λ message w. (w ++ (message.payload ∷ []), returned (message.payload * 2))

abbrev doubler : Handler ℕ Log ℕ ℕ
doubler = record { takes = 4; handle = double_it }

abbrev order : Message ℕ
order = record { go_type = 4; name = codes "order"; payload = 21 }

-- A middleware that logs a number before and after.
abbrev around : ℕ → Middleware ℕ Log ℕ ℕ
around n message next w =
    let (w', outcome) = next message (w ++ (n ∷ [])) in (w' ++ (n ∷ []), outcome)

abbrev bus : Bus ℕ Log ℕ ℕ
bus = add_middleware (around 1) (register order_type double_it new_bus)

bus_test :
    dispatch (use_all (around 2 ∷ around 3 ∷ []) bus) order []
    ≡ (1 ∷ 2 ∷ 3 ∷ 21 ∷ 3 ∷ 2 ∷ 1 ∷ [], returned 42)
unfolding dispatch wrap final add_middleware register new_bus lookup insert bytes_eq
bus_test = dispatch-nested bus (around 2 ∷ around 3 ∷ []) order [] doubler refl refl

dispatch-nested_example :
    dispatch (use_all (around 2 ∷ around 3 ∷ []) bus) order []
    ≡ nested bus.middleware (nested (around 2 ∷ around 3 ∷ []) (final doubler)) order []
dispatch-nested_example =
    dispatch-nested bus (around 2 ∷ around 3 ∷ []) order [] doubler
      (unfold add_middleware register new_bus lookup insert bytes_eq in refl) refl

-- Two types whose name is a field: 0 is the empty name.
abbrev base_type : ℕ → MessageType ℕ
base_type n = record {
  number = n;
  zero_value = 0;
  command_name = λ p. elim p [ zero ↦ [] | suc k ↦ codes "order" ];
}

abbrev base_types : List (MessageType ℕ × Action ℕ Log ℕ ℕ)
base_types = (base_type 5, double_it) ∷ (base_type 6, double_it) ∷ []

register_unnamed_example :
    dispatch (register_all base_types new_bus) (message_of (base_type 5) 21) []
    ≡ ([], refused (no_handler (codes "order")))
register_unnamed_example =
    register_unnamed base_types (base_type 5) 21 [] (refl, (refl, tt)) (λ e. absurd (ground arith))

-- The calls so far, and the answer that the cache holds.
abbrev Cached : Type 0
Cached = ℕ × Option (Bytes × ℕ)

abbrev cached : Bytes → Cached → Option ℕ
cached k (calls, none) = none
cached k (calls, some (k', r)) = if bytes_eq k' k then some r else none

abbrev keep : Bytes → ℕ → Cached → Cached
keep k r (calls, held) = (calls, some (k, r))

abbrev counter : Handler ℕ Cached ℕ ℕ
counter = record {
  takes = 4;
  handle = λ message w. ((w.0 + 1, w.1), returned (message.payload * 2));
}

abbrev queries : Bus ℕ Cached ℕ ℕ
queries = record {
  handlers = (codes "order", counter) ∷ [];
  middleware = caching_middleware cached keep (λ message. message.name) ∷ [];
}

cached-keep : (k : Bytes) (r : ℕ) (w : Cached) → cached k (keep k r w) ≡ some r
cached-keep k r (calls, held) = rw (bytes_eq_refl k) refl

dispatch_cached_example :
    dispatch queries order (1, some (codes "order", 42))
    ≡ ((1, some (codes "order", 42)), returned 42)
dispatch_cached_example =
    dispatch_cached cached keep (λ message. message.name) cached-keep queries [] counter refl order
      (0, none) (1, some (codes "order", 42)) 42 (unfold lookup bytes_eq in refl) refl
      (unfold dispatch wrap final caching_middleware lookup bytes_eq in refl)
