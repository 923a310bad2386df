-- ===== src/Sharding/Growth.antt =====
-- sharding/sharding.go, Build and GetShard of the consistent-hash strategy: every key has a shard in
-- range, and one shard more moves keys to the new shard only.
use genus.Prelude.{
  ℕ, zero, suc, ◌+◌, ◌≤◌, ◌<◌, ◌≡◌, refl, sym, ap, ◌∙◌, ◌⊎◌, inl, inr, [], ◌∷◌, ◌++◌, arith, ◌==◌,
  length, get_or, length-append, Bool-cases, pos,
}
use genus.Sharding.{
  ShardValue, Hashing, ConsistentHashStrategy, node_of, sort_ring, place, place_all, build,
  consistent_get_shard,
}
use genus.Sharding.Ring.{
  count, count-append, count-cons, count-nil, sort_ring-Sorted, index_of, count-get_or,
}
use genus.Sharding.Search.{Follows, chosen, chosen-Follows, Follows-unique}

place_one :
    (i hash : ℕ) (s : ConsistentHashStrategy) (p : ℕ)
    → (node_of p ((hash, i) ∷ s.nodes) ≡ i)
      ⊎ ((node_of p ((hash, i) ∷ s.nodes) ≡ node_of p s.nodes)
          × (count p (s.ring ++ (hash ∷ [])) ≡ count p s.ring))
unfolding node_of
place_one i hash s p = elim (Bool-cases (hash == p)) [
  | inl e ↦ inl (rw e)
  | inr e ↦
      inr
        (rw e, ground (arith, count-append p s.ring (hash ∷ []), count-cons p hash [], count-nil p))
]

module _ {X : Type 0} (h : Hashing X) where
  place_point :
      (i left j : ℕ) (s : ConsistentHashStrategy) (p : ℕ)
      → (node_of p (place h i left j s).nodes ≡ i)
        ⊎ ((node_of p (place h i left j s).nodes ≡ node_of p s.nodes)
            × (count p (place h i left j s).ring ≡ count p s.ring))
  unfolding place
  place_point i zero j s p = inr (refl, refl)
  place_point i (suc left) j s p =
      let hash = h.sum32 (h.label i j) in
      let placed : ConsistentHashStrategy = record s {
        ring = s.ring ++ (hash ∷ []);
        nodes = (hash, i) ∷ s.nodes;
      } in
      elim (place_point i left (j + 1) placed p) [
        | inl new ↦ inl new
        | inr (e, c) ↦ elim (place_one i hash s p) [
          | inl new ↦ inl (e ∙ new)
          | inr (e', c') ↦ inr (e ∙ e', c ∙ c')
        ]
      ]

  place_replicas :
      (i left j : ℕ) (s : ConsistentHashStrategy) → (place h i left j s).replicas ≡ s.replicas
  unfolding place
  place_replicas i zero j s = refl
  place_replicas i (suc left) j s = place_replicas i left (j + 1) _

  place_grows :
      (i left j : ℕ) (s : ConsistentHashStrategy)
      → length (place h i left j s).ring ≡ length s.ring + left
  unfolding place
  place_grows i zero j s = omega arith
  place_grows i (suc left) j s =
      let hash = h.sum32 (h.label i j) in
      place_grows i left (j + 1) _ ∙ omega (arith, length-append s.ring (hash ∷ []))

  place_keeps :
      (i left j : ℕ) (s : ConsistentHashStrategy) (p : ℕ)
      → count p s.ring ≤ count p (place h i left j s).ring
  unfolding place
  place_keeps i zero j s p = omega arith
  place_keeps i (suc left) j s p =
      let hash = h.sum32 (h.label i j) in
      omega (
        arith,
        place_keeps i left (j + 1)
            (record s { ring = s.ring ++ (hash ∷ []); nodes = (hash, i) ∷ s.nodes }) p,
        count-append p s.ring (hash ∷ []),
      )

  place_all_replicas :
      (left i : ℕ) (s : ConsistentHashStrategy) → (place_all h left i s).replicas ≡ s.replicas
  unfolding place_all
  place_all_replicas zero i s = refl
  place_all_replicas (suc left) i s =
      place_all_replicas left (i + 1) _ ∙ place_replicas i s.replicas 0 s

  place_all_grows :
      (left i : ℕ) (s : ConsistentHashStrategy) → length s.ring ≤ length (place_all h left i s).ring
  unfolding place_all
  place_all_grows zero i s = omega arith
  place_all_grows (suc left) i s =
      omega (
        arith,
        place_all_grows left (i + 1) (place h i s.replicas 0 s),
        place_grows i s.replicas 0 s,
      )

  -- The shards come one after the other: the last one is placed on what the others left.
  place_all_last :
      (n i j : ℕ) (s : ConsistentHashStrategy)
      → j ≡ i + n
      → place_all h (suc n) i s ≡ place h j s.replicas 0 (place_all h n i s)
  unfolding place_all
  place_all_last zero i j s e = let e' : j ≡ i = omega arith in rw e'
  place_all_last (suc n) i j s e =
      place_all_last n (i + 1) j (place h i s.replicas 0 s) (omega arith)
      ∙ ap (λ r. place h j r 0 (place_all h n (i + 1) (place h i s.replicas 0 s)))
          (place_replicas i s.replicas 0 s)

  -- Every point of the ring belongs to a shard below the bound.
  abbrev Owned : ℕ → ConsistentHashStrategy → Type 0
  Owned n s = (p : ℕ) → 0 < count p s.ring → node_of p s.nodes < n

  place-Owned :
      (n i left j : ℕ) (s : ConsistentHashStrategy)
      → i < n
      → Owned n s
      → Owned n (place h i left j s)
  place-Owned n i left j s l o p c = elim (place_point i left j s p) [
    | inl e ↦ omega arith
    | inr (e, k) ↦ omega (arith, o p (omega arith))
  ]

  place_all-Owned :
      (n left i : ℕ) (s : ConsistentHashStrategy)
      → i + left ≤ n
      → Owned n s
      → Owned n (place_all h left i s)
  unfolding place_all
  place_all-Owned n zero i s l o = o
  place_all-Owned n (suc left) i s l o =
      place_all-Owned n left (i + 1) _ (omega arith)
        (place-Owned n i s.replicas 0 s (omega arith) o)

  -- The strategy before it is sorted.
  abbrev placed : ℕ → ConsistentHashStrategy → ConsistentHashStrategy
  placed n s = place_all h n 0 (record s { ring = []; nodes = [] })

  placed_pos :
      (n : ℕ) (s : ConsistentHashStrategy)
      → 0 < n
      → 0 < s.replicas
      → 0 < length (sort_ring (placed n s).ring)
  placed_pos zero s l r = absurd (omega arith)
  placed_pos (suc n) s l r =
      let empty : ConsistentHashStrategy = record s { ring = []; nodes = [] } in
      let ring = (placed (suc n) s).ring in
      let long : 0 < length ring =
        rw (place_all_last n 0 n empty (omega arith))
          (omega (arith, place_grows n s.replicas 0 (place_all h n 0 empty))) in
      let (i, l', e) =
        index_of (get_or ring 0 0) (sort_ring ring)
          (omega (arith, (sort_ring-Sorted ring).1 (get_or ring 0 0), count-get_or ring 0 long)) in
      omega arith

  get_shard_built :
      (n : ℕ) (s : ConsistentHashStrategy) (v : ShardValue X)
      → 0 < n
      → 0 < s.replicas
      → consistent_get_shard h (build h n s) v n
        ≡ pos (
            node_of
              (chosen (sort_ring (placed n s).ring) (h.sum32 (h.format v)))
              (placed n s).nodes)
  unfolding consistent_get_shard build
  get_shard_built n s v l r = ground (arith, placed_pos n s l r)

  chosen_stands :
      (n : ℕ) (s : ConsistentHashStrategy) (hash : ℕ)
      → 0 < n
      → 0 < s.replicas
      → Follows (sort_ring (placed n s).ring) hash (chosen (sort_ring (placed n s).ring) hash)
  chosen_stands n s hash l r =
      chosen-Follows _ hash (sort_ring-Sorted (placed n s).ring).0 (placed_pos n s l r)

  -- In a ring built for at least one shard with at least one replica, every key has a shard below
  -- the number of shards.
  consistent_get_shard_range :
      (n : ℕ) (s : ConsistentHashStrategy) (v : ShardValue X)
      → 0 < n
      → 0 < s.replicas
      → (i : ℕ) × (consistent_get_shard h (build h n s) v n ≡ pos i) × (i < n)
  consistent_get_shard_range n s v l r =
      let ring = (placed n s).ring in
      let p = chosen (sort_ring ring) (h.sum32 (h.format v)) in
      let c = (chosen_stands n s (h.sum32 (h.format v)) l r).stands in
      (
        node_of p (placed n s).nodes,
        get_shard_built n s v l r,
        place_all-Owned n n 0 (record s { ring = []; nodes = [] }) (omega arith)
            (λ q k. absurd (omega (arith, count-nil q))) p
            (omega (arith, (sort_ring-Sorted ring).1 p)),
      )

  -- A key that the new shard's points do not take stays at the point that it had.
  chosen_kept :
      (n : ℕ) (s : ConsistentHashStrategy) (hash : ℕ)
      → 0 < n
      → 0 < s.replicas
      → 0 < count (chosen (sort_ring (placed (suc n) s).ring) hash) (placed n s).ring
      → chosen (sort_ring (placed (suc n) s).ring) hash ≡ chosen (sort_ring (placed n s).ring) hash
  chosen_kept n s hash l r c =
      let old = (placed n s).ring in
      let new = (placed (suc n) s).ring in
      let empty : ConsistentHashStrategy = record s { ring = []; nodes = [] } in
      Follows-unique (sort_ring new) (sort_ring old) hash _ _
        (λ q k.
          let grown : count q old ≤ count q new =
            rw (place_all_last n 0 n empty (omega arith))
              (place_keeps n s.replicas 0 (place_all h n 0 empty) q) in
          omega (arith, grown, (sort_ring-Sorted old).1 q, (sort_ring-Sorted new).1 q))
        (chosen_stands (suc n) s hash (omega arith) r) (chosen_stands n s hash l r)
        (omega (arith, (sort_ring-Sorted old).1 (chosen (sort_ring new) hash)))

  -- When one shard is added to n shards, with n and the replicas at least 1, every key keeps its
  -- shard or moves to the new one, also where points of two shards collide.
  pub build_one_more :
      (n : ℕ) (s : ConsistentHashStrategy) (v : ShardValue X)
      → 0 < n
      → 0 < s.replicas
      → (consistent_get_shard h (build h (suc n) s) v (suc n) ≡ pos n)
        ⊎ (consistent_get_shard h (build h (suc n) s) v (suc n)
            ≡ consistent_get_shard h (build h n s) v n)
  build_one_more n s v l r =
      let hash = h.sum32 (h.format v) in
      let empty : ConsistentHashStrategy = record s { ring = []; nodes = [] } in
      let old = placed n s in
      let p = chosen (sort_ring (placed (suc n) s).ring) hash in
      let last : placed (suc n) s ≡ place h n s.replicas 0 old =
        place_all_last n 0 n empty (omega arith) in
      elim (place_point n s.replicas 0 old p) [
        | inl new ↦ inl (
            get_shard_built (suc n) s v (omega arith) r
            ∙ ap pos (ap (λ t. node_of p t.nodes) last ∙ new))
        | inr (e, c) ↦
            let stays : 0 < count p old.ring = omega (
              arith,
              (chosen_stands (suc n) s hash (omega arith) r).stands,
              (sort_ring-Sorted (placed (suc n) s).ring).1 p,
              ap (λ t. count p t.ring) last,
            ) in
            inr (
              get_shard_built (suc n) s v (omega arith) r
              ∙ ap pos (
                  ap (λ t. node_of p t.nodes) last
                  ∙ e
                  ∙ ap (λ q. node_of q old.nodes) (chosen_kept n s hash l r stays))
              ∙ sym (get_shard_built n s v l r))
      ]
