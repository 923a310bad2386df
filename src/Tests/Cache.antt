-- ===== src/Tests/Cache.antt =====
-- cache/cache.go: a cache of two entries.
use genus.Prelude.{
  ℕ, ◌≡◌, ◌⊎◌, refl, true, none, some, List, [], ◌∷◌, arith, pos, codes, leb, if◌then◌else◌,
  bytes_eq,
}
use genus.Prelude.Dict.{Bytes, lookup, insert, erase, contains}
use genus.Cache.{
  CacheEntry, InMemoryCache, new_in_memory_cache, get, set, store, make_room, evict_oldest,
}
use genus.Cache.Invariant.{IsValid, Covered}
use genus.Cache.Room.{set_total}
use genus.Cache.Reads.{get-set}
use genus.Cache.Runs.{Call, get_call, set_call, run, run-new_in_memory_cache}

abbrev entry : ℕ → CacheEntry ℕ
entry v = record { value = v; expires_at = 50 }

abbrev a_key : Bytes
a_key = codes "a"

abbrev b_key : Bytes
b_key = codes "b"

abbrev c_key : Bytes
c_key = codes "c"

abbrev full : InMemoryCache ℕ
full = record {
  entries = (a_key, entry 1) ∷ (b_key, entry 2) ∷ [];
  max_entries = 2;
  stats = record { hits = 0; misses = 0; sets = 2; deletes = 0; evictions = 0; size = 2 };
  order = a_key ∷ b_key ∷ [];
}

full-Covered : Covered full.entries full.order
unfolding lookup contains
full-Covered k e = ground arith

full-IsValid : IsValid full
full-IsValid = record {
  sound = record {
    positive = omega arith;
    bounded = omega arith;
    distinct = unfold lookup bytes_eq in (refl, (refl, tt));
    covered = full-Covered;
  };
  sized = refl;
}

abbrev calls : List (Call ℕ)
calls = set_call 0 a_key 1 9 ∷ set_call 0 b_key 2 9 ∷ set_call 1 c_key 3 9 ∷ get_call 2 a_key ∷ []

-- The hash is the query itself.
abbrev hash : Bytes → Bytes → List Bytes → Bytes
hash table query args = query

eviction_test :
    (c : InMemoryCache ℕ) × (run calls (new_in_memory_cache (pos 2)) ≡ some c)
    × (c.order ≡ b_key ∷ c_key ∷ [])
unfolding run new_in_memory_cache get set store bytes_eq lookup insert erase make_room evict_oldest
eviction_test = (_, refl, refl)

run-new_in_memory_cache_example :
    (c : InMemoryCache ℕ) × (run calls (new_in_memory_cache (pos 2)) ≡ some c) × IsValid c
run-new_in_memory_cache_example = run-new_in_memory_cache (pos 2) calls

set_total_example :
    (c' : InMemoryCache ℕ) × (set 5 c_key 3 10 full ≡ some c')
    × IsValid c'
    × (lookup c_key c'.entries ≡ some (record { value = 3; expires_at = 15 }))
    × ((j : Bytes)
        → (bytes_eq c_key j ≡ true)
          ⊎ ((lookup j c'.entries ≡ none) ⊎ (lookup j c'.entries ≡ lookup j full.entries)))
set_total_example = set_total 5 c_key 3 10 full full-IsValid

get-set_example :
    (c' : InMemoryCache ℕ) × (set 5 c_key 3 10 full ≡ some c')
    × ((t : ℕ) → (get t c_key c').1 ≡ (if leb t 15 then some 3 else none))
get-set_example = get-set 5 c_key 3 10 full full-IsValid
