-- ===== src/Sharding/AllShards/Count.antt =====
-- core/shard_executor.go, ExecOnAllShards: assignments to its slices, and sums over its goroutines.
use genus.Prelude.{
  ℕ, zero, suc, ◌+◌, ◌≤◌, ◌<◌, ◌≡◌, ◌≢◌, refl, ap, Bool, true, false, inl, inr, arith, ◌==◌,
  Bool-cases,
}
use genus.Sharding.AllShards.{
  Goroutine, not_started, executing, storing_result, storing_error, calling_done, ended, put,
}

pub put_at : {A : Type 0} (i k : ℕ) (a : A) (f : ℕ → A) → i ≡ k → put i a f k ≡ a
put_at i k a f e = let same : (i == k) ≡ true = ground arith in rw same refl

pub put_off : {A : Type 0} (i k j : ℕ) (a : A) (f : ℕ → A) → i ≡ k → k ≢ j → put i a f j ≡ f j
put_off i k j a f e off = let other : (i == j) ≡ false = ground (arith, off) in rw other refl

-- The sum of a weight over the first n goroutines.
abbrev pub total : {G : Type 0} → (G → ℕ) → ℕ → (ℕ → G) → ℕ
total weight zero f = 0
total weight (suc k) f = weight (f k) + total weight k f

module _ {G : Type 0} (weight : G → ℕ) where
  total-put_above :
      (n k : ℕ) (g : G) (f : ℕ → G) → n ≤ k → total weight n (put k g f) ≡ total weight n f
  total-put_above zero k g f l = refl
  total-put_above (suc n) k g f l =
      let other : (k == n) ≡ false = ground arith in
      rw other (ap (◌+◌ (weight (f n))) (total-put_above n k g f (omega arith)))

  pub total-put :
      (n k : ℕ) (g : G) (f : ℕ → G)
      → k < n
      → total weight n (put k g f) + weight (f k) ≡ total weight n f + weight g
  total-put zero k g f l = absurd (omega arith)
  total-put (suc n) k g f l = elim (Bool-cases (k == n)) [
    | inl e ↦
        let same : k ≡ n = ground arith in
        let rest : total weight n (put k g f) ≡ total weight n f =
          total-put_above n k g f (omega arith) in
        let here : weight (f k) ≡ weight (f n) = λ i. weight (f (same i)) in
        rw (e, here, rest) (omega arith)
    | inr e ↦
        let rest : total weight n (put k g f) + weight (f k) ≡ total weight n f + weight g =
          total-put n k g f (ground arith) in
        rw e (omega (arith, rest))
  ]

abbrev pub alive : {R E : Type 0} → Goroutine R E → ℕ
alive not_started = 0
alive (executing idx shard) = 1
alive (storing_result idx r e) = 1
alive (storing_error idx e) = 1
alive calling_done = 1
alive ended = 0

abbrev pub is_started : {R E : Type 0} → Goroutine R E → Bool
is_started not_started = false
is_started (executing idx shard) = true
is_started (storing_result idx r e) = true
is_started (storing_error idx e) = true
is_started calling_done = true
is_started ended = true
