-- ===== src/Db/Transaction.antt =====
-- core/db.go, WithTx, and core/batch.go, BatchUpdate in a transaction.
use genus.Prelude.{
  ℕ, ◌+◌, ◌≡◌, refl, ◌∙◌, Bool, true, Option, none, some, List, [], ◌∷◌, ◌⊎◌, inl, inr, arith,
  if◌then◌else◌, Option-cases, sum_cases, Bool-cases,
}
use genus.Prelude.Dict.{Bytes}
use genus.Query.Sql.{Dialect, render}
use genus.Db.{
  before_save, before_update, Model, Driver, DbError, begin_failed, commit_failed, rollback_failed,
  is_zero, update_sql,
}
use genus.Db.Batch.{BatchConfig, hooks_at}
use genus.Db.Operations.{update_at, update_one, batch_update_direct}

-- BeginTx, Commit and Rollback, and the statements on the *sql.Tx.
pub record Transactions (W V E : Type 0) : Type 0 where
  pub executor : Driver W V E
  pub begin : W → W × Option E
  pub commit : W → W × Option E
  pub rollback : W → W × Option E

module _ {W V E : Type 0} (tx : Transactions W V E) where
  -- What follows the function in a transaction.
  unfoldable pub finish : {A : Type 0} → A × W × Option (DbError E) → A × W × Option (DbError E)
  finish (a, w, err) =
      let (rolled, rb_err) = tx.rollback w in
      let (committed, c_err) = tx.commit w in
      elim err [
        | some e ↦ elim rb_err [
          | some rb ↦ (a, rolled, some (rollback_failed rb e))
          | none ↦ (a, rolled, some e)
        ]
        | none ↦ elim c_err [
          | some e ↦ (a, committed, some (commit_failed e))
          | none ↦ (a, committed, none)
        ]
      ]

  -- WithTx on a *sql.DB: the function is given the executor of txDB; `a` is what the function changes, as
  -- it is without a transaction.
  unfoldable pub with_tx :
      {A : Type 0}
      → (Driver W V E → W → A × W × Option (DbError E))
      → A
      → W
      → A × W × Option (DbError E)
  unfolding finish
  with_tx fn a w =
      let (w', err) = tx.begin w in
      let ended = finish (fn tx.executor w') in
      elim err [ some e ↦ (a, w', some (begin_failed e)) | none ↦ ended ]

module _ {T V W E : Type 0} (model : Model T V E) (driver : Driver W V E) (d : Dialect)
    (tx : Transactions W V E) where
  -- BatchUpdateWithConfig; `in_pool` says that the executor is a *sql.DB.
  unfoldable pub batch_update : Bool → BatchConfig → List T → W → List T × W × Option (DbError E)
  unfolding with_tx
  batch_update in_pool config [] w = ([], w, none)
  batch_update in_pool config (m ∷ ms) w =
      let inside =
        with_tx tx (λ executor. batch_update_direct model executor d config 0 (m ∷ ms)) (m ∷ ms)
          w in
      let direct = batch_update_direct model driver d config 0 (m ∷ ms) w in
      if in_pool then inside else direct

-- What database/sql promises of a transaction whose context is not done before its end: what its
-- statements do is not durable before a Commit, and a Rollback without an error ends it. Nothing is said
-- of a Commit, nor of a statement on the pool.
module _ {V W E C : Type 0} (tx : Transactions W V E) (durable : W → C) (Open : W → Type 0) where
  pub record IsTransactional : Type 0 where
    pub begun : (w : W) → (tx.begin w).1 ≡ none → Open (tx.begin w).0
    pub not_begun : (w : W) (e : E) → (tx.begin w).1 ≡ some e → ¬ Open w → ¬ Open (tx.begin w).0
    pub begin_durable : (w : W) → durable (tx.begin w).0 ≡ durable w
    pub exec_open :
        (sql : Bytes) (args : List V) (w : W) → Open w → Open (tx.executor.exec sql args w).0
    pub exec_durable :
        (sql : Bytes) (args : List V) (w : W)
        → Open w
        → durable (tx.executor.exec sql args w).0 ≡ durable w
    pub rollback_durable : (w : W) → Open w → durable (tx.rollback w).0 ≡ durable w
    pub rolled_back : (w : W) → Open w → (tx.rollback w).1 ≡ none → ¬ Open (tx.rollback w).0

-- Still open, with the same durable state.
abbrev Kept : {W C : Type 0} → (W → C) → (W → Type 0) → W → W → Type 0
Kept durable Open w w' = Open w' × (durable w' ≡ durable w)

-- How an error ends: Commit failed, or nothing durable has changed and the transaction is closed, unless
-- Rollback failed.
abbrev pub Ends : {W C E : Type 0} → (W → C) → (W → Type 0) → W → W → DbError E → Type 0
Ends {E = E} durable Open w w' e =
    ((c : E) × (e ≡ commit_failed c))
    ⊎ ((durable w' ≡ durable w)
        × (¬ Open w' ⊎ ((rb : E) × (f : DbError E) × (e ≡ rollback_failed rb f))))

module _ {T V W E C : Type 0} (model : Model T V E) (driver : Driver W V E) (d : Dialect)
    (tx : Transactions W V E) (durable : W → C) (Open : W → Type 0) where
  update_at-Kept :
      IsTransactional tx durable Open
      → (i : ℕ) (m : T) (w : W) → Open w
      → Kept durable Open w (update_at model tx.executor d i m w).1
  unfolding update_at
  update_at-Kept t i m w o = elim (Bool-cases (is_zero (model.get_id (model.set_updated_at m)))) [
    | inl z ↦ rw (z, update_at) (o, refl)
    | inr z ↦ elim (sum_cases (model.fields (model.set_updated_at m))) [
      | inr (e, f) ↦ rw (z, update_at) (rw (f, update_at) (o, refl))
      | inl (fields, f) ↦
          let m' : T = model.set_updated_at m in
          let (sql, args) =
            update_sql d (model.table_name m') fields (model.id_value (model.get_id m')) in
          elim (sum_cases (tx.executor.exec (render d sql) args w).1) [
            | inr (e, r) ↦
                rw (z, update_at)
                  (rw (f, update_at)
                    (rw (r, update_at)
                      (
                        t.exec_open (render d sql) args w o,
                        t.exec_durable (render d sql) args w o,
                      )))
            | inl (res, r) ↦
                rw (z, update_at)
                  (rw (f, update_at)
                    (rw (r, update_at)
                      (
                        t.exec_open (render d sql) args w o,
                        t.exec_durable (render d sql) args w o,
                      )))
          ]
    ]
  ]

  update_one-Kept :
      IsTransactional tx durable Open
      → (config : BatchConfig) (i : ℕ) (m : T) (w : W) → Open w
      → Kept durable Open w (update_one model tx.executor d config i m w).1
  unfolding update_one
  update_one-Kept t config i m w o =
      let hooks = hooks_at model config.skip_hooks i before_save before_update m in
      let updated = update_at model tx.executor d i hooks.0 w in
      elim (Option-cases hooks.1) [
        | inr (e, h) ↦ rw (h, update_one) (o, refl)
        | inl h ↦ elim (Option-cases updated.2) [
          | inr (e, u) ↦ rw (h, update_one) (rw (u, update_one) (update_at-Kept t i hooks.0 w o))
          | inl u ↦ rw (h, update_one) (rw (u, update_one) (update_at-Kept t i hooks.0 w o))
        ]
      ]

  batch_update_direct-Kept :
      IsTransactional tx durable Open
      → (config : BatchConfig) (i : ℕ) (ms : List T) (w : W) → Open w
      → Kept durable Open w (batch_update_direct model tx.executor d config i ms w).1
  unfolding batch_update_direct
  batch_update_direct-Kept t config i [] w o = (o, refl)
  batch_update_direct-Kept t config i (m ∷ ms) w o =
      let one = update_one model tx.executor d config i m w in
      let (o', k) = update_one-Kept t config i m w o in
      elim (Option-cases one.2) [
        | inr (e, h) ↦ rw (h, batch_update_direct) (o', k)
        | inl h ↦
            let (o'', k') = batch_update_direct-Kept t config (i + 1) ms one.1 o' in
            rw (h, batch_update_direct) (o'', k' ∙ k)
      ]

  -- A function that keeps the transaction open and changes nothing durable, and then the end of WithTx
  -- with an error.
  with_tx_refused :
      {A : Type 0}
      → IsTransactional tx durable Open
      → (fn : Driver W V E → W → A × W × Option (DbError E)) (a : A) (w : W) (e : DbError E)
      → ((w' : W) → Open w' → Kept durable Open w' (fn tx.executor w').1)
      → ¬ Open w
      → (with_tx tx fn a w).2 ≡ some e
      → Ends durable Open w (with_tx tx fn a w).1 e
  unfolding with_tx finish
  with_tx_refused {A} t fn a w e keeps shut h = elim (Option-cases (tx.begin w).1) [
    | inr (e', b) ↦ rw (b, with_tx) (inr (t.begin_durable w, inl (t.not_begun w e' b shut)))
    | inl b ↦
        let w1 : W = (tx.begin w).0 in
        let (o, k) = keeps w1 (t.begun w b) in
        let w2 : W = (fn tx.executor w1).1 in
        let same : durable (tx.rollback w2).0 ≡ durable w =
          t.rollback_durable w2 o ∙ k ∙ t.begin_durable w in
        elim (Option-cases (fn tx.executor w1).2) [
          | inr (f, p) ↦ elim (Option-cases (tx.rollback w2).1) [
            | inr (rb, r) ↦
                let failed : e ≡ rollback_failed rb f = ground arith in
                rw (b, with_tx)
                  (rw (p, with_tx) (rw (r, with_tx, finish) (inr (same, inr (rb, f, failed)))))
            | inl r ↦
                rw (b, with_tx)
                  (rw (p, with_tx)
                    (rw (r, with_tx, finish) (inr (same, inl (t.rolled_back w2 o r)))))
          ]
          | inl p ↦ elim (Option-cases (tx.commit w2).1) [
            | inr (c, q) ↦ inl (c, ground arith)
            | inl q ↦ absurd (ground arith)
          ]
        ]
  ]

  -- If BatchUpdate on a *sql.DB returns an error, whichever it is and at whichever model, then Commit
  -- failed, or nothing durable has changed and no transaction is left open, unless Rollback failed too.
  -- This needs a context that is not done meanwhile, and nothing of a Commit or of a statement on the
  -- pool.
  pub batch_update_atomic :
      IsTransactional tx durable Open
      → (config : BatchConfig) (ms : List T) (w : W) (e : DbError E) → ¬ Open w
      → (batch_update model driver d tx true config ms w).2 ≡ some e
      → Ends durable Open w (batch_update model driver d tx true config ms w).1 e
  unfolding batch_update
  batch_update_atomic t config [] w e shut h = absurd (ground arith)
  batch_update_atomic t config (m ∷ ms) w e shut h =
      with_tx_refused t (λ executor. batch_update_direct model executor d config 0 (m ∷ ms))
        (m ∷ ms) w e (batch_update_direct-Kept t config 0 (m ∷ ms)) shut h
