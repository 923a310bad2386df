-- ===== src/Cache/Room.antt =====
-- cache/cache.go: the eviction loop of `Set` ends and makes room, and `Set` keeps the invariant.
use genus.Prelude.{
  ℕ, zero, suc, ◌+◌, ◌<◌, ◌≡◌, refl, ◌⊎◌, inl, inr, ap, ◌∙◌, true, false, Option, none, some, List,
  [], ◌∷◌, arith, leb, length, bytes_eq, bytes_eq_refl, Bool-cases, Option-cases, list_cases,
  leb→le,
}
use genus.Prelude.Dict.{
  Bytes, lookup, contains-nil, lookup-insert, lookup-erase, insert-Distinct, length-insert,
  length-zero_of_lookup,
}
use genus.Cache.{CacheEntry, InMemoryCache, evict_oldest, make_room, store, set}
use genus.Cache.Invariant.{
  IsSound, IsValid, Covered, Covered-store, evict_oldest_some, evict_oldest-IsSound,
}

module _ {V : Type 0} where
  -- What the loop of `Set` leaves of a cache.
  pub record Roomy (c c' : InMemoryCache V) : Type 0 where
    pub sound : IsSound c'
    pub room : length c'.entries < c'.max_entries
    pub same_max : c'.max_entries ≡ c.max_entries
    pub kept :
        (j : Bytes) → (lookup j c'.entries ≡ none) ⊎ (lookup j c'.entries ≡ lookup j c.entries)

  empty_of_no_order : (m : List (Bytes × CacheEntry V)) → Covered m [] → length m ≡ 0
  empty_of_no_order m h = length-zero_of_lookup m (λ k. elim (Option-cases (lookup k m)) [
    | inl e ↦ e
    | inr (v, e) ↦ absurd (ground (arith, h k, contains-nil k))
  ])

  evict_kept :
      (c : InMemoryCache V) (oldest : Bytes) (order : List Bytes)
      → IsSound c
      → c.order ≡ oldest ∷ order
      → (j : Bytes)
      → (lookup j (evict_oldest c).entries ≡ none)
        ⊎ (lookup j (evict_oldest c).entries ≡ lookup j c.entries)
  evict_kept c oldest order v e j =
      rw (evict_oldest_some c oldest order e)
        (ground (arith, lookup-erase oldest j c.entries v.distinct))

  kept_again :
      {x y z : Option (CacheEntry V)}
      → (x ≡ none) ⊎ (x ≡ y)
      → (y ≡ none) ⊎ (y ≡ z)
      → (x ≡ none) ⊎ (x ≡ z)
  kept_again (inl e) h = inl e
  kept_again (inr e) (inl e') = inl (e ∙ e')
  kept_again (inr e) (inr e') = inr (e ∙ e')

  pub make_room_done :
      (fuel : ℕ) (c : InMemoryCache V)
      → leb c.max_entries (length c.entries) ≡ false
      → make_room (suc fuel) c ≡ some c
  unfolding make_room
  make_room_done fuel c h = ground arith

  pub make_room_more :
      (fuel : ℕ) (c : InMemoryCache V)
      → leb c.max_entries (length c.entries) ≡ true
      → make_room (suc fuel) c ≡ make_room fuel (evict_oldest c)
  unfolding make_room
  make_room_more fuel c h = rw (h, make_room)

  make_room_total :
      (fuel : ℕ) (c : InMemoryCache V)
      → IsSound c
      → length c.order < fuel
      → (c' : InMemoryCache V) × (make_room fuel c ≡ some c') × Roomy c c'
  make_room_total zero c v h = absurd (omega arith)
  make_room_total (suc fuel) c v h = elim (Bool-cases (leb c.max_entries (length c.entries))) [
    | inr room ↦ (
      c,
      make_room_done fuel c room,
      record { sound = v; room = ground arith; same_max = refl; kept = λ j. inr refl },
    )
    | inl full ↦ elim (list_cases c.order) [
      | inl e ↦ absurd (
          omega
            (arith, empty_of_no_order c.entries (rw e at v.covered), v.positive, leb→le _ _ full))
      | inr (oldest, order, e) ↦
          let (c', ran, r) =
            make_room_total fuel (evict_oldest c) (evict_oldest-IsSound c v)
              (rw (evict_oldest_some c oldest order e) (omega (arith, ap length e))) in
          (
            c',
            make_room_more fuel c full ∙ ran,
            record {
              sound = r.sound;
              room = r.room;
              same_max = r.same_max ∙ rw (evict_oldest_some c oldest order e);
              kept = λ j. kept_again (r.kept j) (evict_kept c oldest order v e j);
            },
          )
    ]
  ]

  store-IsValid :
      (key : Bytes) (entry : CacheEntry V) (c : InMemoryCache V)
      → IsSound c
      → length c.entries < c.max_entries
      → IsValid (store key entry c)
  unfolding store
  store-IsValid key entry c v h = record {
    sound = record {
      positive = v.positive;
      bounded = ground (arith, length-insert key entry c.entries);
      distinct = insert-Distinct key entry c.entries v.distinct;
      covered = Covered-store key entry c.entries c.order v.covered;
    };
    sized = refl;
  }

  -- `Set` ends on every valid cache: the entry is stored with its deadline, every other key has its
  -- entry or none, and the cache is valid, in particular within `maxEntries`.
  pub set_total :
      (now : ℕ) (key : Bytes) (value : V) (ttl : ℕ) (c : InMemoryCache V)
      → IsValid c
      → (c' : InMemoryCache V) × (set now key value ttl c ≡ some c')
        × IsValid c'
        × (lookup key c'.entries ≡ some (record { value = value; expires_at = now + ttl }))
        × ((j : Bytes)
            → (bytes_eq key j ≡ true)
              ⊎ ((lookup j c'.entries ≡ none) ⊎ (lookup j c'.entries ≡ lookup j c.entries)))
  unfolding set
  set_total now key value ttl c v =
      let entry : CacheEntry V = record { value = value; expires_at = now + ttl } in
      let (c', ran, r) = make_room_total (suc (length c.order)) c v.sound (omega arith) in
      (
        store key entry c',
        rw (ran, set),
        store-IsValid key entry c' r.sound r.room,
        unfold store in ground (arith, lookup-insert key key entry c'.entries, bytes_eq_refl key),
        λ j. elim (Bool-cases (bytes_eq key j)) [
          | inl same ↦ inl same
          | inr n ↦ inr (unfold store in rw (lookup-insert key j entry c'.entries, n) (r.kept j))
        ],
      )

  -- While the cache is not full, `Set` evicts nothing: every other key keeps its entry.
  pub set_with_room :
      (now : ℕ) (key : Bytes) (value : V) (ttl : ℕ) (c : InMemoryCache V)
      → length c.entries < c.max_entries
      → set now key value ttl c
        ≡ some (store key (record { value = value; expires_at = now + ttl }) c)
  unfolding set
  set_with_room now key value ttl c h = rw (make_room_done (length c.order) c (ground arith), set)
