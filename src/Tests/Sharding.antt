-- ===== src/Tests/Sharding.antt =====
-- sharding/sharding.go: a toy hash, the sum of the bytes.
use genus.Prelude.{
  ℕ, ◌+◌, ◌*◌, ◌≡◌, ◌⊎◌, inl, inr, refl, Option, none, some, List, [], ◌∷◌, arith, pos, codes, ltb,
  if◌then◌else◌, ◌==◌,
}
use genus.Prelude.Dict.{Bytes}
use genus.Sharding.{
  int64, int, text, other, Hashing, ConsistentHashStrategy, modulo_get_shard, build,
  consistent_get_shard,
}
use genus.Sharding.Ring.{Sorted}
use genus.Sharding.Growth.{build_one_more}
use genus.Sharding.Manager.{Shard, ShardManager}
use genus.Sharding.Routing.{ShardedResult}

abbrev sum : Bytes → ℕ
sum [] = 0
sum (c ∷ s) = c + sum s

abbrev hashing : Hashing ℕ
hashing = record {
  sum32 = sum;
  format = λ v. elim v [ text s ↦ s | int64 n ↦ [] | int n ↦ [] | other n ↦ n ∷ [] ];
  label = λ i j. i * 10 ∷ j ∷ [];
}

abbrev strategy : ConsistentHashStrategy
strategy = record { replicas = 2; ring = []; nodes = [] }

ring_test : (build hashing 3 strategy).ring ≡ 0 ∷ 1 ∷ 10 ∷ 11 ∷ 20 ∷ 21 ∷ []
unfolding build
ring_test = refl

moves_test :
    (consistent_get_shard hashing (build hashing 2 strategy) (other 15) 2 ≡ pos 0)
    × (consistent_get_shard hashing (build hashing 3 strategy) (other 15) 3 ≡ pos 2)
unfolding build consistent_get_shard
moves_test = (refl, refl)

build_one_more_example :
    (consistent_get_shard hashing (build hashing 3 strategy) (other 15) 3 ≡ pos 2)
    ⊎ (consistent_get_shard hashing (build hashing 3 strategy) (other 15) 3
        ≡ consistent_get_shard hashing (build hashing 2 strategy) (other 15) 2)
build_one_more_example = build_one_more hashing 2 strategy (other 15) (omega arith) (omega arith)

abbrev ring : List ℕ
ring = 3 ∷ 8 ∷ 8 ∷ 12 ∷ []

ring-Sorted : Sorted ring
ring-Sorted = ground arith

-- The third data source cannot be opened; the second does not answer.
abbrev sql_open : ℕ → Bytes → ℕ ⊎ ℕ
sql_open i dsn = if ltb i 2 then inl (i + 100) else inr 7

abbrev ping : ℕ → Option ℕ
ping db = if db == 101 then some 8 else none

abbrev dsns : List Bytes
dsns = codes "a" ∷ codes "b" ∷ codes "c" ∷ []

abbrev shard : ℕ → Shard ℕ
shard i = record { index = i; db = i; dsn = [] }

abbrev manager : ShardManager ℕ ℕ ℕ
manager = record {
  shards = shard 0 ∷ shard 1 ∷ shard 2 ∷ [];
  strategy = modulo_get_shard hashing;
  key_extractor = none;
  counter = 0;
}

abbrev first_shard : ShardManager ℕ ℕ ℕ
first_shard = record manager { strategy = λ key n. pos 0 }

abbrev answers : List (ShardedResult ℕ ℕ)
answers =
    record { results = 1 ∷ []; shard_index = 0; error = none }
    ∷ record { results = 5 ∷ []; shard_index = 1; error = some 9 }
    ∷ record { results = 2 ∷ []; shard_index = 2; error = none }
    ∷ []
