-- ===== src/Migrate.antt =====
-- migrate/migrate.go: the Migrator. The database is a world of its own; the statements on the
-- control table are calls of database/sql, and so parameters, as is sort.Slice. What the logger is
-- told is recorded.
pub mod Applied
pub mod Reverted
use genus.Prelude.{
  codes, ℕ, ◌≡◌, Bool, true, false, ◌||◌, ◌&&◌, Option, none, some, List, [], ◌∷◌, ◌++◌, ◌⊎◌, inl,
  inr, arith, if◌then◌else◌, ltb, ◌==◌, ℤ, pos, negsuc,
}
use genus.Prelude.Dict.{Bytes}

pub record Migration (W E : Type 0) : Type 0 where
  pub version : ℤ
  pub name : Bytes
  pub up : W → W × Option E
  pub down : Option (W → W × Option E)

pub record Migrator (W E : Type 0) : Type 0 where
  pub migrations : List (Migration W E)
  pub table_name : Bytes

-- What database/sql does with the control table.
pub record Control (W E : Type 0) : Type 0 where
  -- CREATE TABLE IF NOT EXISTS
  pub create : W → W × Option E
  -- SELECT version
  pub versions : W → List ℤ ⊎ E
  -- BeginTx
  pub begin : W → Option E
  -- INSERT and Commit
  pub insert_version : ℤ → Bytes → W → W × Option E
  -- DELETE and Commit
  pub delete_version : ℤ → W → W × Option E

pub record MigrationStatus : Type 0 where
  pub version : ℤ
  pub name : Bytes
  pub applied : Bool

pub data MigrateError (E : Type 0) : Type 0 where
  database : E → MigrateError E
  no_down : ℤ → MigrateError E
  none_found : MigrateError E

pub data Logged : Type 0 where
  starting finished : ℤ → Logged
  nothing_to_revert : Logged

pub record Done (W E : Type 0) : Type 0 where
  pub migrator : Migrator W E
  pub world : W
  pub err : Option (MigrateError E)
  pub log : List Logged

abbrev pub same_version : ℤ → ℤ → Bool
same_version (pos a) (pos b) = a == b
same_version (negsuc a) (negsuc b) = a == b
same_version _ _ = false

-- `applied[version]`
unfoldable pub is_applied : ℤ → List ℤ → Bool
is_applied v [] = false
is_applied v (a ∷ as') = same_version a v || is_applied v as'

-- `a > b`
abbrev pub above : ℤ → ℤ → Bool
above (pos a) (pos b) = ltb b a
above (pos a) (negsuc b) = true
above (negsuc a) (pos b) = false
above (negsuc a) (negsuc b) = ltb a b

module _ {W E : Type 0} where
  unfoldable pub new_migrator : Bytes → Migrator W E
  new_migrator [] = record { migrations = []; table_name = codes "schema_migrations" }
  new_migrator (c ∷ name) = record { migrations = []; table_name = c ∷ name }

  unfoldable pub register : Migration W E → Migrator W E → Migrator W E
  register mig m = record m { migrations = m.migrations ++ (mig ∷ []) }

  unfoldable pub register_multiple : List (Migration W E) → Migrator W E → Migrator W E
  register_multiple migs m = record m { migrations = m.migrations ++ migs }

  -- The loop of Down, with `maxVersion` and `lastMigration`.
  unfoldable pub last_applied :
      List (Migration W E) → List ℤ → ℤ → Option (Migration W E) → Option (Migration W E)
  unfolding is_applied
  last_applied [] applied max_version last = last
  last_applied (mig ∷ migs) applied max_version last =
      let newer = last_applied migs applied mig.version (some mig) in
      let same = last_applied migs applied max_version last in
      if is_applied mig.version applied && above mig.version max_version then newer else same

module _ {W E : Type 0} (c : Control W E) where
  abbrev failed : W × Option E → W × Option (MigrateError E)
  failed (w, none) = (w, none)
  failed (w, some e) = (w, some (database e))

  -- The functions Up and Down work on the database itself, not in the transaction: what they did
  -- stays if the control table cannot be written.
  unfoldable pub run_up : Migration W E → W → W × Option (MigrateError E)
  run_up mig w = elim (c.begin w) [
    | some e ↦ (w, some (database e))
    | none ↦
        let (w', err) = mig.up w in
        elim err [
          | some e ↦ (w', some (database e))
          | none ↦ failed (c.insert_version mig.version mig.name w')
        ]
  ]

  unfoldable pub run_down : Migration W E → W → W × Option (MigrateError E)
  run_down mig w = elim (c.begin w) [
    | some e ↦ (w, some (database e))
    | none ↦ elim mig.down [
      | none ↦ (w, some (no_down mig.version))
      | some down ↦
          let (w', err) = down w in
          elim err [
            | some e ↦ (w', some (database e))
            | none ↦ failed (c.delete_version mig.version w')
          ]
    ]
  ]

  -- The loop of Up: the world, the error and the log after it.
  unfoldable pub up_from :
      List (Migration W E) → List ℤ → W → W × Option (MigrateError E) × List Logged
  unfolding run_up is_applied
  up_from [] applied w = (w, none, [])
  up_from (mig ∷ migs) applied w =
      let (w', err) = run_up mig w in
      let (w'', err', log) = up_from migs applied w' in
      let skipped = up_from migs applied w in
      if is_applied mig.version applied then skipped else elim err [
        | some e ↦ (w', some e, starting mig.version ∷ [])
        | none ↦ (w'', err', starting mig.version ∷ finished mig.version ∷ log)
      ]

  unfoldable pub up : (List (Migration W E) → List (Migration W E)) → Migrator W E → W → Done W E
  unfolding up_from
  up sort m w =
      let (w', err) = c.create w in
      elim err [
        | some e ↦ record { migrator = m; world = w'; err = some (database e); log = [] }
        | none ↦ elim (c.versions w') [
          | inr e ↦ record { migrator = m; world = w'; err = some (database e); log = [] }
          | inl applied ↦
              let sorted = sort m.migrations in
              let (w'', err'', log) = up_from sorted applied w' in
              record {
                migrator = record m { migrations = sorted };
                world = w'';
                err = err'';
                log = log;
              }
        ]
      ]

  unfoldable pub down : Migrator W E → W → Done W E
  unfolding last_applied run_down
  down m w = elim (c.versions w) [
    | inr e ↦ record { migrator = m; world = w; err = some (database e); log = [] }
    | inl [] ↦ record { migrator = m; world = w; err = none; log = nothing_to_revert ∷ [] }
    | inl (v ∷ vs) ↦ elim (last_applied m.migrations (v ∷ vs) (pos 0) none) [
      | none ↦ record { migrator = m; world = w; err = some none_found; log = [] }
      | some mig ↦
          let (w', err) = run_down mig w in
          record {
            migrator = m;
            world = w';
            err = err;
            log = elim err [
              | some e ↦ starting mig.version ∷ []
              | none ↦ starting mig.version ∷ finished mig.version ∷ []
            ];
          }
    ]
  ]

  unfoldable statuses : List (Migration W E) → List ℤ → List MigrationStatus
  unfolding is_applied
  statuses [] applied = []
  statuses (mig ∷ migs) applied =
      record { version = mig.version; name = mig.name; applied = is_applied mig.version applied }
      ∷ statuses migs applied

  -- Status sorts the migrator's list, as Up does.
  unfoldable pub status :
      (List (Migration W E) → List (Migration W E))
      → Migrator W E
      → W
      → Migrator W E × W × (List MigrationStatus ⊎ E)
  unfolding statuses
  status sort m w =
      let (w', err) = c.create w in
      elim err [
        | some e ↦ (m, w', inr e)
        | none ↦ elim (c.versions w') [
          | inr e ↦ (m, w', inr e)
          | inl applied ↦
              let sorted = sort m.migrations in
              (record m { migrations = sorted }, w', inl (statuses sorted applied))
        ]
      ]
