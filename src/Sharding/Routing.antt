-- ===== src/Sharding/Routing.antt =====
-- sharding/sharding.go: how ShardManager chooses a shard for a key or a context, and MergeResults.
use genus.Prelude.{
  ◌↔◌, Option-cases, ℕ, zero, suc, ◌+◌, ◌%◌, ◌^◌, ◌<◌, ◌≡◌, ◌≢◌, refl, sym, ap, ◌∙◌, inl, inr,
  Option, none, some, List, [], ◌∷◌, ◌++◌, arith, leb, if◌then◌else◌, length, get_elem?,
  get_elem?_total, ℤ, pos, negsuc, neg_ℕ, append_assoc, append-nil,
}
use genus.Prelude.Dict.{Bytes}
use genus.Sharding.{ShardValue, int64, text, other, Hashing, modulo_get_shard}
use genus.Sharding.Manager.{Shard, ShardManager}

module _ {D : Type 0} where
  -- sm.shards[idx]; `none` is Go's panic on an index out of range.
  unfoldable pub shard_at : List (Shard D) → ℤ → Option (Shard D)
  shard_at shards (pos i) = get_elem? shards i
  shard_at shards (negsuc i) = none

-- A strategy that stays within the number of shards.
abbrev pub InRange {ℓ} : {X : Type ℓ} → (X → ℕ → ℤ) → ℕ → Type ℓ
InRange {X} strategy n = (v : X) → (i : ℕ) × (strategy v n ≡ pos i) × (i < n)

mod_in_range : (a n : ℕ) → 0 < n → a % n < n
mod_in_range a n h = grind arith

module _ {X D Ctx : Type 0} where
  unfoldable pub get_shard : ShardManager X D Ctx → ShardValue X → Option (Shard D)
  unfolding shard_at
  get_shard sm key = shard_at sm.shards (sm.strategy key (length sm.shards))

  -- `nil` for an index out of range, where `GetShard` would panic.
  unfoldable pub get_shard_by_index : ShardManager X D Ctx → ℤ → Option (Shard D)
  get_shard_by_index sm (pos i) = if leb (length sm.shards) i then none else get_elem? sm.shards i
  get_shard_by_index sm (negsuc i) = none

  -- The round-robin counter is a uint64.
  unfoldable pub next_shard : ShardManager X D Ctx → ShardManager X D Ctx × Option (Shard D)
  next_shard sm =
      let counter = (sm.counter + 1) % 2 ^ 64 in
      (record sm { counter = counter }, get_elem? sm.shards (counter % length sm.shards))

  -- `sm.keyExtractor(ctx)`, if there is an extractor
  abbrev extracted : ShardManager X D Ctx → Ctx → Option (ShardValue X)
  extracted sm ctx = elim sm.key_extractor [ none ↦ none | some extract ↦ extract ctx ]

  -- `from_context` is `ShardKeyFromContext`, a read of the context's value.
  unfoldable pub get_shard_from_context :
      (Ctx → Option (ShardValue X))
      → ShardManager X D Ctx
      → Ctx
      → ShardManager X D Ctx × Option (Shard D)
  unfolding get_shard next_shard
  get_shard_from_context from_context sm ctx = elim (extracted sm ctx) [
    | some key ↦ (sm, get_shard sm key)
    | none ↦ elim (from_context ctx) [ some key ↦ (sm, get_shard sm key) | none ↦ next_shard sm ]
  ]

  get_shard_total :
      (sm : ShardManager X D Ctx) (key : ShardValue X)
      → 0 < length sm.shards
      → InRange sm.strategy (length sm.shards)
      → (s : Shard D) × (get_shard sm key ≡ some s)
  unfolding get_shard shard_at
  get_shard_total sm key l r =
      let (i, e, k) = r key in let (s, q) = get_elem?_total sm.shards i k in (s, ground arith)

  -- With at least one shard and a strategy within range, every context is given a shard, by key or in
  -- turn, and no index is out of range.
  get_shard_from_context_total :
      (from_context : Ctx → Option (ShardValue X)) (sm : ShardManager X D Ctx) (ctx : Ctx)
      → 0 < length sm.shards
      → InRange sm.strategy (length sm.shards)
      → (s : Shard D) × ((get_shard_from_context from_context sm ctx).1 ≡ some s)
  unfolding get_shard_from_context
  get_shard_from_context_total from_context sm ctx l r = elim (Option-cases (extracted sm ctx)) [
    | inr (key, e) ↦
        let (s, q) = get_shard_total sm key l r in (s, rw (e, get_shard_from_context) q)
    | inl e ↦ elim (Option-cases (from_context ctx)) [
      | inr (key, k) ↦
          let (s, q) = get_shard_total sm key l r in
          (s, rw (e, get_shard_from_context) (rw (k, get_shard_from_context) q))
      | inl k ↦
          let (s, q) =
            get_elem?_total sm.shards (((sm.counter + 1) % 2 ^ 64) % length sm.shards)
              (mod_in_range _ _ l) in
          (s, rw (e, get_shard_from_context) (rw (k, get_shard_from_context) q))
    ]
  ]

negative_panics :
    {D : Type 0} (r : ℕ) (shards : List (Shard D)) → r ≢ 0 → shard_at shards (neg_ℕ r) ≡ none
unfolding shard_at
negative_panics zero shards ne = absurd (ne refl)
negative_panics (suc r) shards ne = refl

-- A shard manager with `ModuloStrategy`, the default.
abbrev pub Modulo : {X D Ctx : Type 0} → Hashing X → ShardManager X D Ctx → Type 0
Modulo h sm = sm.strategy ≡ modulo_get_shard h

module _ {X D Ctx : Type 0} (h : Hashing X) (sm : ShardManager X D Ctx) (m : Modulo h sm) where
  via_modulo :
      (key : ShardValue X)
      → get_shard sm key ≡ shard_at sm.shards (modulo_get_shard h key (length sm.shards))
  unfolding get_shard
  via_modulo key = ap (λ st. shard_at sm.shards (st key (length sm.shards))) m

  lands :
      (key : ShardValue X) (i : ℕ)
      → modulo_get_shard h key (length sm.shards) ≡ pos i
      → i < length sm.shards
      → (s : Shard D) × (get_shard sm key ≡ some s)
  lands key i e l =
      let (s, q) = get_elem?_total sm.shards i l in
      (s, via_modulo key ∙ ap (shard_at sm.shards) e ∙ (unfold shard_at in q))

  -- With `ModuloStrategy` a key that is a string, any other formatted value or a number that is not
  -- negative has a shard; a negative number indexes out of range, unless it is a multiple of the
  -- number of shards.
  modulo_shard :
      0 < length sm.shards
      → ((v : Bytes) → (s : Shard D) × (get_shard sm (text v) ≡ some s))
        × ((v : X) → (s : Shard D) × (get_shard sm (other v) ≡ some s))
        × ((n : ℕ) → (s : Shard D) × (get_shard sm (int64 (pos n)) ≡ some s))
        × ((n : ℕ) → (get_shard sm (int64 (negsuc n)) ≡ none) ↔ (suc n % length sm.shards ≢ 0))
  unfolding modulo_get_shard
  modulo_shard l =
      let below = λ (a : ℕ). mod_in_range a (length sm.shards) l in
      (
        λ v. lands (text v) _ refl (below _),
        λ v. lands (other v) _ refl (below _),
        λ n. lands (int64 (pos n)) _ refl (below _),
        λ n. (
          λ e z.
              let (s, q) = lands (int64 (negsuc n)) 0 (ap neg_ℕ z) l in
              (let u : none ≡ some s = sym e ∙ q in cc),
          λ ne.
              via_modulo (int64 (negsuc n))
              ∙ negative_panics (suc n % length sm.shards) sm.shards ne,
        ),
      )

-- `ShardedResult`
pub record ShardedResult (T E : Type 0) : Type 0 where
  pub results : List T
  pub shard_index : ℕ
  pub error : Option E

-- `errors[0]` if there is one.
abbrev head_or {ℓ} : {A : Type ℓ} → List A → Option A → Option A
head_or [] o = o
head_or (e ∷ es) o = some e

head_or-append {ℓ} :
    {A : Type ℓ} (xs : List A) (x : A) (o : Option A)
    → head_or (xs ++ (x ∷ [])) o ≡ head_or xs (some x)
head_or-append [] x o = refl
head_or-append (y ∷ ys) x o = refl

module _ {T E : Type 0} where
  -- The loop of `MergeResults`, with `merged` and `errors`.
  merge_from : List T → List (ℕ × E) → List (ShardedResult T E) → List T × List (ℕ × E)
  merge_from merged errors [] = (merged, errors)
  merge_from merged errors (r ∷ rs) = elim r.error [
    | some e ↦ merge_from merged (errors ++ ((r.shard_index, e) ∷ [])) rs
    | none ↦ merge_from (merged ++ r.results) errors rs
  ]

  -- The error of `MergeResults` is the first shard's, with its index.
  pub merge_results : List (ShardedResult T E) → List T × Option (ℕ × E)
  merge_results rs = let (merged, errors) = merge_from [] [] rs in (merged, head_or errors none)

  -- The items of the shards without an error, in order.
  pub merged_spec : List (ShardedResult T E) → List T
  merged_spec [] = []
  merged_spec (r ∷ rs) = elim r.error [
    | some e ↦ merged_spec rs
    | none ↦ r.results ++ merged_spec rs
  ]

  pub first_error : List (ShardedResult T E) → Option (ℕ × E)
  first_error [] = none
  first_error (r ∷ rs) = elim r.error [ some e ↦ some (r.shard_index, e) | none ↦ first_error rs ]

  merge_from_lem :
      (merged : List T) (errors : List (ℕ × E)) (rs : List (ShardedResult T E))
      → ((merge_from merged errors rs).0 ≡ merged ++ merged_spec rs)
        × (head_or (merge_from merged errors rs).1 none ≡ head_or errors (first_error rs))
  unfolding merge_from merged_spec first_error
  merge_from_lem merged errors [] = (sym (append-nil merged), refl)
  merge_from_lem merged errors (r ∷ rs) = elim (Option-cases r.error) [
    | inl e ↦
        let ih = merge_from_lem (merged ++ r.results) errors rs in
        rw (e, merge_from, merged_spec, first_error)
          (ih.0 ∙ append_assoc merged r.results (merged_spec rs), ih.1)
    | inr (x, e) ↦
        let ih = merge_from_lem merged (errors ++ ((r.shard_index, x) ∷ [])) rs in
        rw (e, merge_from, merged_spec, first_error)
          (ih.0, ih.1 ∙ head_or-append errors (r.shard_index, x) (first_error rs))
  ]

  -- `MergeResults` returns the items of all shards without an error, in the order of the shards, also
  -- when it returns an error; and its error is that of the first shard that has one, if any has.
  merge_results_lem :
      (rs : List (ShardedResult T E)) → merge_results rs ≡ (merged_spec rs, first_error rs)
  unfolding merge_results
  merge_results_lem rs = let (items, error) = merge_from_lem [] [] rs in λ i. (items i, error i)
