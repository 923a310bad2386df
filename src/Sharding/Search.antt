-- ===== src/Sharding/Search.antt =====
-- sharding/sharding.go, binarySearch and GetShard: the search finds the point that follows a hash on
-- the ring.
use genus.Prelude.{
  ℕ, zero, suc, ◌+◌, ◌-◌, ◌/◌, ◌≤◌, ◌<◌, ◌≡◌, ◌⊎◌, inl, inr, List, arith, ltb, leb, if◌then◌else◌,
  length, get_or, Bool-cases, ltb→lt, not_ltb→le, leb→le, not_leb→lt,
}
use genus.Sharding.{search_from, binary_search}
use genus.Sharding.Ring.{count, Sorted, Sorted-at, index_of, count-get_or}

-- The index splits the ring: hashes below the key's before it, the others from it on.
pub record Splits (ring : List ℕ) (hash i : ℕ) : Type 0 where
  pub inside : i ≤ length ring
  pub below : (j : ℕ) → j < i → get_or ring j 0 < hash
  pub above : (j : ℕ) → i ≤ j → j < length ring → hash ≤ get_or ring j 0

module _ (ring : List ℕ) (hash : ℕ) (s : Sorted ring) where
  search_from-Splits :
      (fuel low high : ℕ)
      → high - low ≤ fuel
      → low ≤ high
      → high ≤ length ring
      → ((j : ℕ) → j < low → get_or ring j 0 < hash)
      → ((j : ℕ) → high ≤ j → j < length ring → hash ≤ get_or ring j 0)
      → Splits ring hash (search_from fuel ring hash low high)
  unfolding search_from
  search_from-Splits zero low high f l h b a =
      let e : low ≡ high = omega arith in
      record { inside = omega arith; below = b; above = λ j p q. a j (omega arith) q }
  search_from-Splits (suc fuel) low high f l h b a = elim (Bool-cases (ltb low high)) [
    | inr empty ↦
        let e : low ≡ high = omega (arith, not_ltb→le low high empty) in
        rw (empty, search_from)
          (record { inside = omega arith; below = b; above = λ j p q. a j (omega arith) q })
    | inl more ↦
        let mid = (low + (high - 1)) / 2 in
        let lt : low < high = ltb→lt low high more in
        elim (Bool-cases (ltb (get_or ring mid 0) hash)) [
          | inl small ↦
              rw (more, search_from, small)
                (search_from-Splits fuel (mid + 1) high (omega arith) (omega arith) h
                  (λ j p.
                    omega
                      (arith, Sorted-at ring j mid s (omega arith) (omega arith), ltb→lt _ _ small))
                  a)
          | inr large ↦
              rw (more, search_from, large)
                (search_from-Splits fuel low mid (omega arith) (omega arith) (omega arith) b
                  (λ j p q. omega (arith, Sorted-at ring mid j s p q, not_ltb→le _ _ large)))
        ]
  ]

  -- `binarySearch` returns the index at which a sorted ring passes from hashes below the key's to
  -- hashes that are not: its rounds suffice for a ring of any length.
  binary_search-Splits : Splits ring hash (binary_search ring hash)
  unfolding binary_search
  binary_search-Splits =
      search_from-Splits (length ring) 0 (length ring) (omega arith) (omega arith) (omega arith)
        (λ j p. absurd (omega arith)) (λ j p q. absurd (omega arith))

-- The point that `GetShard` takes: the one at the found index, or the first behind the last.
abbrev pub chosen : List ℕ → ℕ → ℕ
chosen ring hash =
    get_or ring (if leb (length ring) (binary_search ring hash) then 0 else binary_search ring hash)
      0

-- The point of a ring that follows a hash: the least of those not below it, or the least of all if
-- every point is below it. `points` need not be sorted.
pub record Follows (points : List ℕ) (hash p : ℕ) : Type 0 where
  pub stands : 0 < count p points
  pub least :
      ((hash ≤ p) × ((q : ℕ) → 0 < count q points → hash ≤ q → p ≤ q))
      ⊎ (((q : ℕ) → 0 < count q points → q < hash) × ((q : ℕ) → 0 < count q points → p ≤ q))

wrapped :
    (ring : List ℕ) (hash : ℕ)
    → Sorted ring
    → 0 < length ring
    → length ring ≤ binary_search ring hash
    → Follows ring hash (get_or ring 0 0)
wrapped ring hash s ne behind =
    let v = binary_search-Splits ring hash s in
    record {
      stands = count-get_or ring 0 ne;
      least = inr (
        λ q c. let (i, l, e) = index_of q ring c in omega (arith, v.below i (omega arith)),
        λ q c.
            let (i, l, e) = index_of q ring c in
            omega (arith, Sorted-at ring 0 i s (omega arith) l),
      );
    }

found_inside :
    (ring : List ℕ) (hash : ℕ)
    → Sorted ring
    → binary_search ring hash < length ring
    → Follows ring hash (get_or ring (binary_search ring hash) 0)
found_inside ring hash s l =
    let v = binary_search-Splits ring hash s in
    let i = binary_search ring hash in
    record {
      stands = count-get_or ring i l;
      least = inl (
        v.above i (omega arith) l,
        λ q c h.
            let (j, m, e) = index_of q ring c in
            elim (Bool-cases (ltb j i)) [
              | inl before ↦ absurd (omega (arith, v.below j (ltb→lt j i before)))
              | inr after ↦ omega (arith, Sorted-at ring i j s (not_ltb→le j i after) m)
            ],
      );
    }

-- On a sorted ring that is not empty, `GetShard` takes the point that follows the key's hash.
pub chosen-Follows :
    (ring : List ℕ) (hash : ℕ)
    → Sorted ring
    → 0 < length ring
    → Follows ring hash (chosen ring hash)
chosen-Follows ring hash s ne = elim (Bool-cases (leb (length ring) (binary_search ring hash))) [
  | inl behind ↦ rw behind (wrapped ring hash s ne (leb→le _ _ behind))
  | inr inside ↦ rw inside (found_inside ring hash s (not_leb→lt _ _ inside))
]

-- One point follows a hash, whatever the order in which the points are listed.
pub Follows-unique :
    (xs ys : List ℕ) (hash p q : ℕ)
    → ((r : ℕ) → 0 < count r ys → 0 < count r xs)
    → Follows xs hash p
    → Follows ys hash q
    → 0 < count p ys
    → p ≡ q
Follows-unique xs ys hash p q sub f g k = elim f.least [
  | inl (hp, fl) ↦ elim g.least [
    | inl (hq, gl) ↦ omega (arith, fl q (sub q g.stands) hq, gl p k hp)
    | inr (all, gl) ↦ absurd (omega (arith, all p k))
  ]
  | inr (all, fl) ↦ elim g.least [
    | inl (hq, gl) ↦ absurd (omega (arith, all q (sub q g.stands)))
    | inr (all', gl) ↦ omega (arith, fl q (sub q g.stands), gl p k)
  ]
]
