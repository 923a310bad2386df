-- ===== src/Cache/Prefix.antt =====
-- cache/cache.go: DeleteByPrefix, and the keys of a table's queries.
use genus.Prelude.{
  ℕ, ◌≡◌, refl, ◌∙◌, true, ◌&&◌, none, List, [], ◌∷◌, ◌++◌, arith, if◌then◌else◌, bytes_eq_refl,
  length-append, take-length-append, append_assoc,
}
use genus.Prelude.Dict.{
  Bytes, lookup, is_some, Distinct, contains, contains-cons, contains-nil, lookup-erase,
  erase-Distinct, length-erase-le, bytes_eq_iff,
}
use genus.Cache.{
  CacheEntry, InMemoryCache, delete_keys, keys_with, delete_by_prefix, has_prefix, query_cache_key,
  table_cache_prefix,
}
use genus.Cache.Invariant.{IsSound, IsValid, Covered-erase}
use genus.Cache.Reads.{visible}

module _ {V : Type 0} where
  lookup-delete_keys :
      (keys : List Bytes) (j : Bytes) (c : InMemoryCache V)
      → Distinct c.entries
      → lookup j (delete_keys keys c).entries
        ≡ (if contains j keys then none else lookup j c.entries)
  unfolding delete_keys
  lookup-delete_keys [] j c d = ground (arith, contains-nil j)
  lookup-delete_keys (key ∷ keys) j c d =
      lookup-delete_keys keys j _ (erase-Distinct key c.entries d)
      ∙ ground (arith, contains-cons j key keys, lookup-erase key j c.entries d)

  delete_keys-IsSound :
      (keys : List Bytes) (c : InMemoryCache V) → IsSound c → IsSound (delete_keys keys c)
  unfolding delete_keys
  delete_keys-IsSound [] c v = v
  delete_keys-IsSound (key ∷ keys) c v = delete_keys-IsSound keys _ (record {
    positive = v.positive;
    bounded = omega (arith, length-erase-le key c.entries, v.bounded);
    distinct = erase-Distinct key c.entries v.distinct;
    covered = Covered-erase key c.entries c.order v.distinct v.covered;
  })

  contains-keys_with :
      (prefix j : Bytes) (m : List (Bytes × CacheEntry V))
      → contains j (keys_with prefix m) ≡ (has_prefix prefix j && is_some (lookup j m))
  unfolding keys_with lookup
  contains-keys_with prefix j [] = ground (arith, contains-nil j)
  contains-keys_with prefix j ((key, entry) ∷ m) = ground (
    arith,
    contains-keys_with prefix j m,
    contains-cons j key (keys_with prefix m),
    bytes_eq_iff key j,
  )

  -- On a valid cache, `DeleteByPrefix` keeps the invariant, hides every key with the prefix from
  -- readers, and changes nothing that they see of the other keys.
  pub delete_by_prefix_lem :
      (prefix : Bytes) (c : InMemoryCache V)
      → IsValid c
      → IsValid (delete_by_prefix prefix c)
        × ((t : ℕ) (j : Bytes)
            → visible t j (delete_by_prefix prefix c)
              ≡ (if has_prefix prefix j then none else visible t j c))
  unfolding delete_by_prefix visible
  delete_by_prefix_lem prefix c v =
      let s = delete_keys-IsSound (keys_with prefix c.entries) c v.sound in
      (
        record {
          sound = record {
            positive = s.positive;
            bounded = s.bounded;
            distinct = s.distinct;
            covered = s.covered;
          };
          sized = refl;
        },
        λ t j. ground (
          arith,
          lookup-delete_keys (keys_with prefix c.entries) j c v.sound.distinct,
          contains-keys_with prefix j c.entries,
        ),
      )

has_prefix-append : (prefix rest : Bytes) → has_prefix prefix (prefix ++ rest) ≡ true
unfolding has_prefix
has_prefix-append prefix rest =
    rw (take-length-append prefix rest, bytes_eq_refl prefix)
      (ground (arith, length-append prefix rest))

-- Every key of a query of a table begins with the table's prefix.
query_key-has_prefix :
    (hash : Bytes → Bytes → List Bytes → Bytes) (prefix table query : Bytes) (args : List Bytes)
    → has_prefix (table_cache_prefix prefix table) (query_cache_key hash prefix table query args)
      ≡ true
unfolding query_cache_key table_cache_prefix
query_key-has_prefix hash prefix table query args =
    let e : prefix ++ (table ++ (b':' ∷ hash table query args))
        ≡ (prefix ++ (table ++ (b':' ∷ []))) ++ hash table query args =
      simp append_assoc in
    rw e (has_prefix-append _ _)

-- After `DeleteByPrefix` with `TableCachePrefix` of a table on a valid cache, readers see no query
-- of the table, whatever the hash is.
invalidate_table :
    {V : Type 0} (hash : Bytes → Bytes → List Bytes → Bytes) (prefix table query : Bytes)
    (args : List Bytes) (t : ℕ) (c : InMemoryCache V)
    → IsValid c
    → visible t
        (query_cache_key hash prefix table query args)
        (delete_by_prefix (table_cache_prefix prefix table) c)
      ≡ none
invalidate_table hash prefix table query args t c v =
    (delete_by_prefix_lem (table_cache_prefix prefix table) c v).1 t
      (query_cache_key hash prefix table query args)
    ∙ rw (query_key-has_prefix hash prefix table query args)
