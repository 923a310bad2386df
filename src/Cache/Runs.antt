-- ===== src/Cache/Runs.antt =====
-- cache/cache.go: whole histories of calls, and the order in which entries are evicted.
use genus.Prelude.{
  ℕ, suc, ◌+◌, ◌≤◌, ◌≡◌, refl, ap, sym, ◌∙◌, false, Option, none, some, List, [], ◌∷◌, arith, leb,
  length, bytes_eq, bytes_eq_refl, ℤ,
}
use genus.Prelude.Dict.{Bytes, lookup, erase, lookup-insert, lookup-erase, length-erase}
use genus.Cache.{
  CacheEntry, InMemoryCache, new_in_memory_cache, get, delete, set, make_room, store, evict_oldest,
  clear, delete_by_prefix,
}
use genus.Cache.Invariant.{
  IsValid, delete-IsValid, new_in_memory_cache-IsValid, evict_oldest_some, clear-IsValid,
}
use genus.Cache.Room.{set_total, make_room_done, make_room_more}
use genus.Cache.Reads.{get-IsValid}
use genus.Cache.Prefix.{delete_by_prefix_lem}

pub data Call (V : Type 0) : Type 0 where
  get_call : ℕ → Bytes → Call V
  set_call : ℕ → Bytes → V → ℕ → Call V
  delete_call : Bytes → Call V
  prefix_call : Bytes → Call V
  clear_call : Call V

module _ {V : Type 0} where
  unfoldable step : Call V → InMemoryCache V → Option (InMemoryCache V)
  step (get_call now key) c = some (get now key c).0
  step (set_call now key value ttl) c = set now key value ttl c
  step (delete_call key) c = some (delete key c)
  step (prefix_call prefix) c = some (delete_by_prefix prefix c)
  step clear_call c = some (clear c)

  -- `none` if a call does not end.
  unfoldable pub run : List (Call V) → InMemoryCache V → Option (InMemoryCache V)
  unfolding step
  run [] c = some c
  run (call ∷ calls) c = elim (step call c) [ none ↦ none | some c' ↦ run calls c' ]

  step-IsValid :
      (call : Call V) (c : InMemoryCache V)
      → IsValid c
      → (c' : InMemoryCache V) × (step call c ≡ some c') × IsValid c'
  unfolding step
  step-IsValid (get_call now key) c v = ((get now key c).0, refl, get-IsValid now key c v)
  step-IsValid (set_call now key value ttl) c v =
      let (c', ran, valid, _, _) = set_total now key value ttl c v in (c', ran, valid)
  step-IsValid (delete_call key) c v = (delete key c, refl, delete-IsValid key c v)
  step-IsValid (prefix_call prefix) c v =
      (delete_by_prefix prefix c, refl, (delete_by_prefix_lem prefix c v).0)
  step-IsValid clear_call c v = (clear c, refl, clear-IsValid c v)

  run-IsValid :
      (calls : List (Call V)) (c : InMemoryCache V)
      → IsValid c
      → (c' : InMemoryCache V) × (run calls c ≡ some c') × IsValid c'
  unfolding run
  run-IsValid [] c v = (c, refl, v)
  run-IsValid (call ∷ calls) c v =
      let (c₁, ran, v₁) = step-IsValid call c v in
      let (c', done, v') = run-IsValid calls c₁ v₁ in (c', rw (ran, run) done, v')

  -- Any calls on a new cache, whatever its size, all end, and leave it with at most `maxEntries`
  -- entries, no key twice, every key in the eviction order, and the true number of entries as `Size`.
  pub run-new_in_memory_cache :
      (n : ℤ) (calls : List (Call V))
      → (c : InMemoryCache V) × (run calls (new_in_memory_cache n) ≡ some c) × IsValid c
  run-new_in_memory_cache n calls = run-IsValid calls _ (new_in_memory_cache-IsValid n)

  get_fresh :
      (t : ℕ) (key : Bytes) (c : InMemoryCache V) (entry : CacheEntry V)
      → lookup key c.entries ≡ some entry
      → t ≤ entry.expires_at
      → ((get t key c).1 ≡ some entry.value)
        × ((get t key c).0.entries ≡ c.entries)
        × ((get t key c).0.order ≡ c.order)
        × ((get t key c).0.max_entries ≡ c.max_entries)
  unfolding get
  get_fresh t key c entry found fresh = ground arith

  set_of_room :
      (now : ℕ) (key : Bytes) (value : V) (ttl : ℕ) (c c' : InMemoryCache V)
      → make_room (suc (length c.order)) c ≡ some c'
      → set now key value ttl c
        ≡ some (store key (record { value = value; expires_at = now + ttl }) c')
  unfolding set
  set_of_room now key value ttl c c' h = rw (h, set)

  lookup-store_evicted :
      (key oldest : Bytes) (entry : CacheEntry V) (c : InMemoryCache V) (order : List Bytes)
      → c.order ≡ oldest ∷ order
      → IsValid c
      → bytes_eq key oldest ≡ false
      → lookup oldest (store key entry (evict_oldest c)).entries ≡ none
  unfolding store
  lookup-store_evicted key oldest entry c order e v other =
      rw (evict_oldest_some c oldest order e) (
        ground (
          arith,
          lookup-insert key oldest entry (erase oldest c.entries),
          lookup-erase oldest oldest c.entries v.sound.distinct,
          bytes_eq_refl oldest,
        ))

  evict_when_full :
      (c : InMemoryCache V) (oldest : Bytes) (order : List Bytes) (entry : CacheEntry V)
      → IsValid c
      → length c.entries ≡ c.max_entries
      → c.order ≡ oldest ∷ order
      → lookup oldest c.entries ≡ some entry
      → make_room (suc (length c.order)) c ≡ some (evict_oldest c)
  evict_when_full c oldest order entry v full e found =
      let shorter : leb (evict_oldest c).max_entries (length (evict_oldest c).entries) ≡ false =
        rw (evict_oldest_some c oldest order e) (ground (arith, length-erase oldest c.entries)) in
      make_room_more (length c.order) c (ground arith)
      ∙ rw (ap length e) (make_room_done (length order) (evict_oldest c) shorter)

  -- `Set` in a full valid cache, of a key other than the first in the order, evicts the entry of
  -- that first key, also where the new key has an entry already and no room is needed, and right
  -- after `Get` returned the evicted entry's value: the entry that goes is the one first in the
  -- order, not the one used longest ago.
  set_evicts_just_read :
      (now t : ℕ) (key : Bytes) (value : V) (ttl : ℕ) (c : InMemoryCache V) (oldest : Bytes)
      (order : List Bytes) (entry : CacheEntry V)
      → IsValid c
      → length c.entries ≡ c.max_entries
      → c.order ≡ oldest ∷ order
      → lookup oldest c.entries ≡ some entry
      → t ≤ entry.expires_at
      → bytes_eq key oldest ≡ false
      → ((get t oldest c).1 ≡ some entry.value)
        × ((c' : InMemoryCache V) × (set now key value ttl (get t oldest c).0 ≡ some c')
            × (lookup oldest c'.entries ≡ none))
  set_evicts_just_read now t key value ttl c oldest order entry v full e found fresh other =
      let c₁ : InMemoryCache V = (get t oldest c).0 in
      let (read, same_entries, same_order, same_max) = get_fresh t oldest c entry found fresh in
      let stored : CacheEntry V = record { value = value; expires_at = now + ttl } in
      let ran : make_room (suc (length c₁.order)) c₁ ≡ some (evict_oldest c₁) =
        evict_when_full c₁ oldest order entry (get-IsValid t oldest c v)
          (ap length same_entries ∙ full ∙ sym same_max) (same_order ∙ e)
          (ap (lookup oldest) same_entries ∙ found) in
      (
        read,
        (
          store key stored (evict_oldest c₁),
          set_of_room now key value ttl c₁ _ ran,
          lookup-store_evicted key oldest stored c₁ order (same_order ∙ e)
              (get-IsValid t oldest c v) other,
        ),
      )
