-- ===== src/Sharding/Manager.antt =====
-- sharding/sharding.go: ShardManager and MergeResults. Opening, pinging and closing a connection are
-- calls of database/sql, and so parameters; the connections that are opened and closed are recorded.
use genus.Prelude.{
  sum_cases, Option-cases, ℕ, ◌+◌, ◌≡◌, refl, ◌⊎◌, inl, inr, Option, none, some, List, [], ◌∷◌,
  ◌++◌, arith, length, length-append, ℤ, append_assoc, append-nil,
}
use genus.Prelude.Dict.{Bytes}
use genus.Sharding.{ShardValue}
use mathlib.Core.List.{Perm, perm_append_singleton}
use mathlib.Core.List.Perm
use mathlib.Core.Path.{subst}

pub record Shard (D : Type 0) : Type 0 where
  pub index : ℕ
  pub db : D
  pub dsn : Bytes

-- `ShardManager`; the strategy is its `GetShard`, and `Ctx` is the context.
pub record ShardManager (X D Ctx : Type 0) : Type 0 where
  pub shards : List (Shard D)
  pub strategy : ShardValue X → ℕ → ℤ
  pub key_extractor : Option (Ctx → Option (ShardValue X))
  pub counter : ℕ

pub data ManagerError (E : Type 0) : Type 0 where
  no_dsns : ManagerError E
  failed_to_connect : ℕ → E → ManagerError E
  failed_to_ping : ℕ → E → ManagerError E

-- What `NewShardManager` leaves: shards or an error, and the connections opened and closed on the way.
pub record Opened (D E : Type 0) : Type 0 where
  pub result : List (Shard D) ⊎ ManagerError E
  pub opened : List D
  pub closed : List D

module _ {D : Type 0} where
  abbrev pub handles : List (Shard D) → List D
  handles [] = []
  handles (s ∷ ss) = s.db ∷ handles ss

  -- The shards are numbered from 0 by their places, for the given data source names.
  abbrev pub Numbered : ℕ → List (Shard D) → List Bytes → Type 0
  Numbered i [] [] = Unit
  Numbered i (s ∷ ss) (dsn ∷ dsns) = (s.index ≡ i) × (s.dsn ≡ dsn) × Numbered (i + 1) ss dsns
  Numbered i _ _ = ⊥

  Numbered-snoc :
      (i j : ℕ) (shards : List (Shard D)) (done : List Bytes) (db : D) (dsn : Bytes)
      → j ≡ i + length shards
      → Numbered i shards done
      → Numbered i (shards ++ (record { index = j; db = db; dsn = dsn } ∷ [])) (done ++ (dsn ∷ []))
  Numbered-snoc i j [] [] db dsn e n = (omega arith, refl, tt)
  Numbered-snoc i j (s ∷ ss) (d ∷ ds) db dsn e n =
      (n.0, n.1, Numbered-snoc (i + 1) j ss ds db dsn (omega arith) n.2)
  Numbered-snoc i j [] (d ∷ ds) db dsn e n = absurd n
  Numbered-snoc i j (s ∷ ss) [] db dsn e n = absurd n

module _ {D E : Type 0} where
  -- All the shards, or an error with every opened connection closed once.
  abbrev pub Outcome : Opened D E → List Bytes → Type 0
  Outcome o dsns = elim o.result [
    | inl shards ↦ Numbered 0 shards dsns × (o.closed ≡ []) × (o.opened ≡ handles shards)
    | inr e ↦ Perm o.closed o.opened
  ]

module _ {D E : Type 0} (sql_open : ℕ → Bytes → D ⊎ E) (ping : D → Option E) where
  -- The loop of `NewShardManager` at shard i, after `shards`.
  unfoldable pub open_from : ℕ → List (Shard D) → List Bytes → Opened D E
  open_from i shards [] = record { result = inl shards; opened = handles shards; closed = [] }
  open_from i shards (dsn ∷ dsns) = elim (sql_open i dsn) [
    | inr e ↦ record {
      result = inr (failed_to_connect i e);
      opened = handles shards;
      closed = handles shards;
    }
    | inl db ↦ elim (ping db) [
      | some e ↦ record {
        result = inr (failed_to_ping i e);
        opened = handles shards ++ (db ∷ []);
        closed = db ∷ handles shards;
      }
      | none ↦ open_from (i + 1) (shards ++ (record { index = i; db = db; dsn = dsn } ∷ [])) dsns
    ]
  ]

  unfoldable pub open_shards : List Bytes → Opened D E
  unfolding open_from
  open_shards [] = record { result = inr no_dsns; opened = []; closed = [] }
  open_shards (dsn ∷ dsns) = open_from 0 [] (dsn ∷ dsns)

  open_from-Outcome :
      (i : ℕ) (shards : List (Shard D)) (done dsns : List Bytes)
      → i ≡ length shards
      → Numbered 0 shards done
      → Outcome (open_from i shards dsns) (done ++ dsns)
  unfolding open_from
  open_from-Outcome i shards done [] e n = rw append-nil (n, refl, refl)
  open_from-Outcome i shards done (dsn ∷ dsns) e n = elim (sum_cases (sql_open i dsn)) [
    | inr (err, q) ↦ rw (q, open_from) (Perm.refl (handles shards))
    | inl (db, q) ↦
        rw (q, open_from)
          (elim (Option-cases (ping db)) [
            | inr (err, p) ↦
                rw (p, open_from) (Perm.symm (perm_append_singleton db (handles shards)))
            | inl p ↦
                let shard : Shard D = record { index = i; db = db; dsn = dsn } in
                rw (p, open_from)
                  (subst (λ l. Outcome (open_from (i + 1) (shards ++ (shard ∷ [])) dsns) l)
                    (append_assoc done (dsn ∷ []) dsns)
                    (open_from-Outcome (i + 1) (shards ++ (shard ∷ [])) (done ++ (dsn ∷ [])) dsns
                      (omega (arith, length-append shards (shard ∷ [])))
                      (Numbered-snoc 0 i shards done db dsn (omega arith) n)))
          ])
  ]

  -- `NewShardManager` opens one shard for each DSN, numbered in their order, and closes nothing; or it
  -- fails, and then the connections closed are those that it had opened, each once.
  open_shards-Outcome : (dsns : List Bytes) → Outcome (open_shards dsns) dsns
  unfolding open_shards
  open_shards-Outcome [] = Perm.refl []
  open_shards-Outcome (dsn ∷ dsns) = open_from-Outcome 0 [] [] (dsn ∷ dsns) refl tt
