-- ===== src/Tests/Migrate.antt =====
-- migrate/migrate.go: a world that is the control table itself.
use genus.Prelude.{ℕ, ◌≡◌, refl, none, some, List, [], ◌∷◌, ◌⊎◌, inl, ℤ, pos, codes}
use genus.Migrate.{Migration, Migrator, Control, none_found, starting, finished, run_down, up, down}
use genus.Migrate.Applied.{pending, log_of, AllApplied, IsControl, Untouched, up_lem}
use genus.Migrate.Reverted.{NoneAbove, IsLast, down_lem}

abbrev Table : Type 0
Table = List ℤ

abbrev without : List ℤ → List ℤ
without [] = []
without (v ∷ vs) = vs

abbrev control : Control Table ℕ
control = record {
  create = λ w. (w, none);
  versions = λ w. inl w;
  begin = λ w. none;
  insert_version = λ v name w. (v ∷ w, none);
  delete_version = λ v w. (without w, none);
}

abbrev migration : ℤ → Migration Table ℕ
migration v = record {
  version = v;
  name = codes "m";
  up = λ w. (w, none);
  down = some (λ w. (w, none));
}

abbrev migrator : Migrator Table ℕ
migrator = record {
  migrations = migration (pos 1) ∷ migration (pos 2) ∷ migration (pos 3) ∷ [];
  table_name = codes "schema_migrations";
}

control-IsControl : IsControl control
control-IsControl = record { recorded = λ v name w vs r i. cc }

migrator-Untouched : Untouched control migrator.migrations
migrator-Untouched = (λ w. refl, (λ w. refl, (λ w. refl, tt)))

up_test :
    (up control (λ ms. ms) migrator (pos 2 ∷ [])).log
    ≡ starting (pos 1) ∷ finished (pos 1) ∷ starting (pos 3) ∷ finished (pos 3) ∷ []
unfolding up
up_test = refl

down_test : (down control migrator (pos 2 ∷ pos 1 ∷ [])).world ≡ pos 1 ∷ []
unfolding down
down_test = refl

up_lem_example :
    (before after : List ℤ) × (control.versions (control.create (pos 2 ∷ [])).0 ≡ inl before)
    × (control.versions (up control (λ ms. ms) migrator (pos 2 ∷ [])).world ≡ inl after)
    × AllApplied migrator.migrations after
    × ((up control (λ ms. ms) migrator (pos 2 ∷ [])).log
        ≡ log_of (pending migrator.migrations before))
unfolding up
up_lem_example =
    up_lem control control-IsControl (λ ms. ms) migrator (pos 2 ∷ []) migrator-Untouched refl

down_lem_example :
    (((down control migrator (pos 2 ∷ pos 1 ∷ [])).err ≡ some none_found)
      × ((down control migrator (pos 2 ∷ pos 1 ∷ [])).world ≡ pos 2 ∷ pos 1 ∷ [])
      × NoneAbove (pos 0) (pos 2 ∷ pos 1 ∷ []) migrator.migrations)
    ⊎ ((mig : Migration Table ℕ) × IsLast (pos 0) (pos 2 ∷ pos 1 ∷ []) migrator.migrations mig
        × ((down control migrator (pos 2 ∷ pos 1 ∷ [])).world
            ≡ (run_down control mig (pos 2 ∷ pos 1 ∷ [])).0)
        × ((down control migrator (pos 2 ∷ pos 1 ∷ [])).err
            ≡ (run_down control mig (pos 2 ∷ pos 1 ∷ [])).1))
down_lem_example = down_lem control migrator (pos 2 ∷ pos 1 ∷ []) (pos 2) (pos 1 ∷ []) refl
