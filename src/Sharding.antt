-- ===== src/Sharding.antt =====
-- sharding/sharding.go: the strategies that map a key to a shard. `fnv.New32a` and the formatting of
-- values and labels by `fmt.Sprintf` are parameters.
pub mod Ring
pub mod Search
pub mod Growth
pub mod Manager
pub mod Routing
pub mod AllShards
use genus.Prelude.{
  ℕ, zero, suc, true, false, ◌+◌, ◌-◌, ◌/◌, ◌%◌, Option, none, some, List, [], ◌∷◌, ◌++◌, ltb, leb,
  ◌==◌, if◌then◌else◌, ℤ, pos, ◌%ℤ◌, positive_or, length, get_or,
}
use genus.Prelude.Dict.{Bytes}

-- `ShardKey.Value()`, by the types that the strategies tell apart.
pub data ShardValue (X : Type 0) : Type 0 where
  int64 : ℤ → ShardValue X
  int : ℤ → ShardValue X
  text : Bytes → ShardValue X
  other : X → ShardValue X

-- What the standard library computes for the strategies.
pub record Hashing (X : Type 0) : Type 0 where
  -- h := fnv.New32a(); h.Write(b); h.Sum32()
  pub sum32 : Bytes → ℕ
  -- fmt.Sprintf("%v", v)
  pub format : ShardValue X → Bytes
  -- fmt.Sprintf("shard-%d-%d", i, j)
  pub label : ℕ → ℕ → Bytes

pub record ConsistentHashStrategy : Type 0 where
  pub replicas : ℕ
  pub ring : List ℕ
  -- `nodes[hash] = i`, newest first: the first entry of a hash is the one that holds.
  pub nodes : List (ℕ × ℕ)

unfoldable pub new_consistent_hash_strategy : ℤ → ConsistentHashStrategy
new_consistent_hash_strategy replicas = record {
  replicas = positive_or 100 replicas;
  ring = [];
  nodes = [];
}

-- A missing key gives the zero value.
unfoldable pub node_of : ℕ → List (ℕ × ℕ) → ℕ
node_of hash [] = 0
node_of hash ((point, i) ∷ nodes) = if point == hash then i else node_of hash nodes

-- The inner loop of `sortRing`: `before` is the sorted part, last element first. The elements above
-- `key` move up by one.
unfoldable pub shift : ℕ → List ℕ → List ℕ
shift key [] = key ∷ []
shift key (last ∷ before) = if ltb key last then last ∷ shift key before else key ∷ last ∷ before

-- The outer loop of `sortRing`; the sorted part is kept last element first.
unfoldable pub sort_from : List ℕ → List ℕ → List ℕ
sort_from before [] = before
sort_from before (key ∷ rest) = sort_from (shift key before) rest

abbrev pub backwards : List ℕ → List ℕ → List ℕ
backwards acc [] = acc
backwards acc (x ∷ xs) = backwards (x ∷ acc) xs

unfoldable pub sort_ring : List ℕ → List ℕ
unfolding shift sort_from
sort_ring ring = backwards [] (sort_from [] ring)

-- The loop of `binarySearch`; `high` is one more than in the source, so that it is never negative.
unfoldable pub search_from : ℕ → List ℕ → ℕ → ℕ → ℕ → ℕ
search_from zero ring hash low high = low
search_from (suc fuel) ring hash low high =
    let mid = (low + (high - 1)) / 2 in
    elim (ltb low high) [
      | false ↦ low
      | true ↦ elim (ltb (get_or ring mid 0) hash) [
        | true ↦ search_from fuel ring hash (mid + 1) high
        | false ↦ search_from fuel ring hash low mid
      ]
    ]

unfoldable pub binary_search : List ℕ → ℕ → ℕ
unfolding search_from
binary_search ring hash = search_from (length ring) ring hash 0 (length ring)

module _ {X : Type 0} (h : Hashing X) where
  unfoldable pub modulo_get_shard : ShardValue X → ℕ → ℤ
  modulo_get_shard (int64 v) num_shards = v %ℤ num_shards
  modulo_get_shard (int v) num_shards = v %ℤ num_shards
  modulo_get_shard (text v) num_shards = pos (h.sum32 v % num_shards)
  modulo_get_shard (other v) num_shards = pos (h.sum32 (h.format (other v)) % num_shards)

  -- The inner loop of `Build`, over the replicas j, ..., j + left - 1 of shard i.
  unfoldable pub place : ℕ → ℕ → ℕ → ConsistentHashStrategy → ConsistentHashStrategy
  place i zero j s = s
  place i (suc left) j s =
      let hash = h.sum32 (h.label i j) in
      place i left (j + 1) (record s { ring = s.ring ++ (hash ∷ []); nodes = (hash, i) ∷ s.nodes })

  -- The outer loop of `Build`, over the shards i, ..., i + left - 1.
  unfoldable pub place_all : ℕ → ℕ → ConsistentHashStrategy → ConsistentHashStrategy
  unfolding place
  place_all zero i s = s
  place_all (suc left) i s = place_all left (i + 1) (place i s.replicas 0 s)

  unfoldable pub build : ℕ → ConsistentHashStrategy → ConsistentHashStrategy
  unfolding place_all sort_ring
  build num_shards s =
      let placed = place_all num_shards 0 (record s { ring = []; nodes = [] }) in
      record placed { ring = sort_ring placed.ring }

  unfoldable pub consistent_get_shard : ConsistentHashStrategy → ShardValue X → ℕ → ℤ
  unfolding modulo_get_shard binary_search node_of
  consistent_get_shard s v num_shards =
      let idx = binary_search s.ring (h.sum32 (h.format v)) in
      if length s.ring == 0
      then modulo_get_shard v num_shards
      else pos (node_of (get_or s.ring (if leb (length s.ring) idx then 0 else idx) 0) s.nodes)
