-- ===== src/Cache/Invariant.antt =====
-- cache/cache.go: what holds of a cache between two calls, and that `Set` ends.
use genus.Prelude.{
  ◌+◌, ◌≤◌, ◌<◌, ◌≡◌, refl, inl, inr, true, false, List, [], ◌∷◌, ◌++◌, arith, ℤ, length,
  Bool-cases, list_cases, positive_or_pos,
}
use genus.Prelude.Dict.{
  Bytes, lookup, insert, erase, is_some, Distinct, contains, contains-append, contains-cons,
  lookup-insert, lookup-erase, erase-Distinct, length-erase-le, lookup-nil,
}
use genus.Cache.{CacheEntry, InMemoryCache, new_in_memory_cache, delete, evict_oldest, clear}

module _ {V : Type 0} where
  -- Every key of the entries stands in the eviction order.
  abbrev pub Covered : List (Bytes × CacheEntry V) → List Bytes → Type 0
  Covered m order = (k : Bytes) → is_some (lookup k m) ≡ true → contains k order ≡ true

  pub Covered-erase :
      (key : Bytes) (m : List (Bytes × CacheEntry V)) (order : List Bytes)
      → Distinct m
      → Covered m order
      → Covered (erase key m) order
  Covered-erase key m order d h k e = ground (arith, lookup-erase key k m d, h k)

  Covered-evict :
      (oldest : Bytes) (m : List (Bytes × CacheEntry V)) (order : List Bytes)
      → Distinct m
      → Covered m (oldest ∷ order)
      → Covered (erase oldest m) order
  Covered-evict oldest m order d h k e =
      ground (arith, lookup-erase oldest k m d, h k, contains-cons k oldest order)

  pub Covered-store :
      (key : Bytes) (v : CacheEntry V) (m : List (Bytes × CacheEntry V)) (order : List Bytes)
      → Covered m order
      → Covered (insert key v m) (order ++ (key ∷ []))
  Covered-store key v m order h k e =
      ground (arith, lookup-insert key k v m, h k, contains-append k order key)

  -- What holds within a call too: the eviction loop does not keep `stats.size`.
  pub record IsSound (c : InMemoryCache V) : Type 0 where
    pub positive : 0 < c.max_entries
    pub bounded : length c.entries ≤ c.max_entries
    pub distinct : Distinct c.entries
    pub covered : Covered c.entries c.order

  pub record IsValid (c : InMemoryCache V) : Type 0 where
    pub sound : IsSound c
    pub sized : c.stats.size ≡ length c.entries

  pub new_in_memory_cache-IsValid : (n : ℤ) → IsValid (new_in_memory_cache {V = V} n)
  unfolding new_in_memory_cache
  new_in_memory_cache-IsValid n = record {
    sound = record {
      positive = positive_or_pos 10000 n (omega arith);
      bounded = omega arith;
      distinct = tt;
      covered = λ k e. ground (arith, lookup-nil {V = CacheEntry V} k);
    };
    sized = refl;
  }

  evict_oldest_empty : (c : InMemoryCache V) → c.order ≡ [] → evict_oldest c ≡ c
  unfolding evict_oldest
  evict_oldest_empty c e = ground arith

  pub evict_oldest_some :
      (c : InMemoryCache V) (oldest : Bytes) (order : List Bytes)
      → c.order ≡ oldest ∷ order
      → let counted = c.stats in
        evict_oldest c ≡ record c {
          order = order;
          entries = erase oldest c.entries;
          stats = record counted { evictions = counted.evictions + 1 };
        }
  unfolding evict_oldest
  evict_oldest_some c oldest order e = ground arith

  delete_present :
      (k : Bytes) (c : InMemoryCache V)
      → is_some (lookup k c.entries) ≡ true
      → let counted = c.stats in
        delete k c ≡ record c {
          entries = erase k c.entries;
          stats = record counted {
            deletes = counted.deletes + 1;
            size = length (erase k c.entries);
          };
        }
  unfolding delete
  delete_present k c e = ground arith

  delete_absent :
      (k : Bytes) (c : InMemoryCache V) → is_some (lookup k c.entries) ≡ false → delete k c ≡ c
  unfolding delete
  delete_absent k c e = ground arith

  pub evict_oldest-IsSound : (c : InMemoryCache V) → IsSound c → IsSound (evict_oldest c)
  evict_oldest-IsSound c v = elim (list_cases c.order) [
    | inl e ↦ rw (evict_oldest_empty c e) v
    | inr (oldest, order, e) ↦ rw (evict_oldest_some c oldest order e) (record {
      positive = v.positive;
      bounded = omega (arith, length-erase-le oldest c.entries, v.bounded);
      distinct = erase-Distinct oldest c.entries v.distinct;
      covered = Covered-evict oldest c.entries order v.distinct (rw e at v.covered);
    })
  ]

  pub delete-IsValid : (k : Bytes) (c : InMemoryCache V) → IsValid c → IsValid (delete k c)
  delete-IsValid k c v = elim (Bool-cases (is_some (lookup k c.entries))) [
    | inl e ↦ rw (delete_present k c e) (record {
      sound = record {
        positive = v.sound.positive;
        bounded = omega (arith, length-erase-le k c.entries, v.sound.bounded);
        distinct = erase-Distinct k c.entries v.sound.distinct;
        covered = Covered-erase k c.entries c.order v.sound.distinct v.sound.covered;
      };
      sized = refl;
    })
    | inr e ↦ rw (delete_absent k c e) v
  ]

  pub clear-IsValid : (c : InMemoryCache V) → IsValid c → IsValid (clear c)
  unfolding clear
  clear-IsValid c v = record {
    sound = record {
      positive = v.sound.positive;
      bounded = omega arith;
      distinct = tt;
      covered = λ k e. ground (arith, lookup-nil {V = CacheEntry V} k);
    };
    sized = refl;
  }
