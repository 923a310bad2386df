-- ===== src/Cache.antt =====
-- cache/cache.go: InMemoryCache and its keys. Keys are strings of bytes; the values are left
-- abstract. The clock's reading is an argument.
pub mod Invariant
pub mod Room
pub mod Reads
pub mod Prefix
pub mod Runs
use genus.Prelude.{
  ℕ, zero, suc, ◌+◌, ◌≤◌, ◌<◌, Bool, true, false, ◌&&◌, Option, none, some, List, [], ◌∷◌, ◌++◌,
  ltb, leb, if◌then◌else◌, ℤ, positive_or, length, take, bytes_eq,
}
use genus.Prelude.Dict.{Bytes, lookup, insert, erase, is_some}

pub record CacheEntry (V : Type 0) : Type 0 where
  pub value : V
  pub expires_at : ℕ

-- `CacheStats` without the rate, which `Stats` derives from `hits` and `misses`.
pub record CacheStats : Type 0 where
  pub hits : ℕ
  pub misses : ℕ
  pub sets : ℕ
  pub deletes : ℕ
  pub evictions : ℕ
  pub size : ℕ

pub record InMemoryCache (V : Type 0) : Type 0 where
  pub entries : List (Bytes × CacheEntry V)
  pub max_entries : ℕ
  pub stats : CacheStats
  pub order : List Bytes

abbrev pub no_stats : CacheStats
no_stats = record { hits = 0; misses = 0; sets = 0; deletes = 0; evictions = 0; size = 0 }

-- len(key) >= len(prefix) && key[:len(prefix)] == prefix
unfoldable pub has_prefix : Bytes → Bytes → Bool
has_prefix prefix key =
    leb (length prefix) (length key) && bytes_eq (take (length prefix) key) prefix

module _ {V : Type 0} where
  unfoldable pub new_in_memory_cache : ℤ → InMemoryCache V
  new_in_memory_cache max_entries = record {
    entries = [];
    max_entries = positive_or 10000 max_entries;
    stats = no_stats;
    order = [];
  }

  unfoldable pub delete : Bytes → InMemoryCache V → InMemoryCache V
  delete key c =
      let rest = erase key c.entries in
      let counted = c.stats in
      if is_some (lookup key c.entries)
      then record c {
        entries = rest;
        stats = record counted { deletes = counted.deletes + 1; size = length rest };
      }
      else c

  miss : InMemoryCache V → InMemoryCache V
  miss c =
      let counted = c.stats in record c { stats = record counted { misses = counted.misses + 1 } }

  hit : InMemoryCache V → InMemoryCache V
  hit c = let counted = c.stats in record c { stats = record counted { hits = counted.hits + 1 } }

  -- `none` is the nil slice of a miss.
  unfoldable pub get : ℕ → Bytes → InMemoryCache V → InMemoryCache V × Option V
  unfolding delete miss hit
  get now key c = elim (lookup key c.entries) [
    | none ↦ (miss c, none)
    | some entry ↦
        if ltb entry.expires_at now then (miss (delete key c), none) else (hit c, some entry.value)
  ]

  unfoldable pub evict_oldest : InMemoryCache V → InMemoryCache V
  evict_oldest c =
      let counted = c.stats in
      elim c.order [
        | [] ↦ c
        | oldest ∷ order ↦ record c {
          order = order;
          entries = erase oldest c.entries;
          stats = record counted { evictions = counted.evictions + 1 };
        }
      ]

  -- `for len(c.entries) >= c.maxEntries { c.evictOldest() }`; `none` if the fuel does not suffice.
  unfoldable pub make_room : ℕ → InMemoryCache V → Option (InMemoryCache V)
  make_room zero c = none
  make_room (suc fuel) c = elim (leb c.max_entries (length c.entries)) [
    | true ↦ make_room fuel (evict_oldest c)
    | false ↦ some c
  ]

  unfoldable pub store : Bytes → CacheEntry V → InMemoryCache V → InMemoryCache V
  store key entry c =
      let stored = insert key entry c.entries in
      let counted = c.stats in
      record c {
        entries = stored;
        order = c.order ++ (key ∷ []);
        stats = record counted { sets = counted.sets + 1; size = length stored };
      }

  -- One round more than there are keys in `order`.
  unfoldable pub set : ℕ → Bytes → V → ℕ → InMemoryCache V → Option (InMemoryCache V)
  set now key value ttl c = elim (make_room (suc (length c.order)) c) [
    | none ↦ none
    | some roomy ↦ some (store key (record { value = value; expires_at = now + ttl }) roomy)
  ]

  pub keys_with : Bytes → List (Bytes × CacheEntry V) → List Bytes
  keys_with prefix [] = []
  keys_with prefix ((key, entry) ∷ m) =
      let rest = keys_with prefix m in if has_prefix prefix key then key ∷ rest else rest

  -- the second loop of `DeleteByPrefix`
  unfoldable pub delete_keys : List Bytes → InMemoryCache V → InMemoryCache V
  delete_keys [] c = c
  delete_keys (key ∷ keys) c =
      let counted = c.stats in
      delete_keys keys (record c {
        entries = erase key c.entries;
        stats = record counted { deletes = counted.deletes + 1 };
      })

  unfoldable pub delete_by_prefix : Bytes → InMemoryCache V → InMemoryCache V
  unfolding keys_with
  delete_by_prefix prefix c =
      let rest = delete_keys (keys_with prefix c.entries) c in
      let counted = rest.stats in
      record rest { stats = record counted { size = length rest.entries } }

  unfoldable pub clear : InMemoryCache V → InMemoryCache V
  clear c =
      let counted = c.stats in
      record c { entries = []; order = []; stats = record counted { size = 0 } }

-- `fmt.Sprintf("%s%s:%s", prefix, table, hash)`; the first 16 digits of the hash are a parameter.
unfoldable pub query_cache_key :
    (Bytes → Bytes → List Bytes → Bytes) → Bytes → Bytes → Bytes → List Bytes → Bytes
query_cache_key hash prefix table query args = prefix ++ (table ++ (b':' ∷ hash table query args))

unfoldable pub table_cache_prefix : Bytes → Bytes → Bytes
table_cache_prefix prefix table = prefix ++ (table ++ (b':' ∷ []))
