-- ===== src/Cache/Reads.antt =====
-- cache/cache.go: what `Get` returns after each of the other calls.
use genus.Prelude.{
  ℕ, ◌+◌, ◌≤◌, ◌≡◌, refl, inl, inr, ◌∙◌, Option, none, some, arith, ltb, leb, if◌then◌else◌,
  Bool-cases, Option-cases,
}
use genus.Prelude.Dict.{Bytes, lookup, lookup-erase, bytes_eq_iff}
use genus.Cache.{CacheStats, InMemoryCache, get, set}
use genus.Cache.Invariant.{IsValid, delete-IsValid}
use genus.Cache.Room.{set_total}

module _ {V : Type 0} where
  -- What a reader at time `t` would be given.
  unfoldable pub visible : ℕ → Bytes → InMemoryCache V → Option V
  visible t j c = elim (lookup j c.entries) [
    | none ↦ none
    | some entry ↦ if ltb entry.expires_at t then none else some entry.value
  ]

  -- The statistics play no part in soundness.
  with_stats-IsValid :
      (counted : CacheStats) (c : InMemoryCache V)
      → IsValid c
      → counted.size ≡ c.stats.size
      → IsValid (record c { stats = counted })
  with_stats-IsValid counted c v e = record {
    sound = record {
      positive = v.sound.positive;
      bounded = v.sound.bounded;
      distinct = v.sound.distinct;
      covered = v.sound.covered;
    };
    sized = e ∙ v.sized;
  }

  pub get-IsValid :
      (now : ℕ) (key : Bytes) (c : InMemoryCache V) → IsValid c → IsValid (get now key c).0
  unfolding get
  get-IsValid now key c v = elim (Option-cases (lookup key c.entries)) [
    | inl e ↦ rw (e, get) (with_stats-IsValid _ c v refl)
    | inr (entry, e) ↦ elim (Bool-cases (ltb entry.expires_at now)) [
      | inl old ↦ rw (e, get, old) (with_stats-IsValid _ _ (delete-IsValid key c v) refl)
      | inr new ↦ rw (e, get, new) (with_stats-IsValid _ c v refl)
    ]
  ]

  -- On a valid cache, `Get` returns the stored value unless it has expired, keeps the invariant,
  -- and changes nothing that a `Get` of any key returns at the same time or later.
  get_lem :
      (now : ℕ) (key : Bytes) (c : InMemoryCache V) (t : ℕ) (j : Bytes)
      → IsValid c
      → now ≤ t
      → ((get now key c).1 ≡ visible now key c)
        × IsValid (get now key c).0
        × (visible t j (get now key c).0 ≡ visible t j c)
  unfolding get visible
  get_lem now key c t j v h = (
    ground arith,
    get-IsValid now key c v,
    ground (arith, lookup-erase key j c.entries v.sound.distinct, bytes_eq_iff key j),
  )

  -- A value that was set in a valid cache is what `Get` returns until its deadline has passed,
  -- whatever was in the cache; after the deadline `Get` returns none.
  pub get-set :
      (now : ℕ) (key : Bytes) (value : V) (ttl : ℕ) (c : InMemoryCache V)
      → IsValid c
      → (c' : InMemoryCache V) × (set now key value ttl c ≡ some c')
        × ((t : ℕ) → (get t key c').1 ≡ (if leb t (now + ttl) then some value else none))
  unfolding get
  get-set now key value ttl c v =
      let (c', ran, _, found, _) = set_total now key value ttl c v in
      (c', ran, λ t. rw (found, get) (ground arith))
