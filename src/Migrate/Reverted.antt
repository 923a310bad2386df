-- ===== src/Migrate/Reverted.antt =====
-- migrate/migrate.go: which migration Down takes.
use genus.Prelude.{
  ◌≡◌, refl, true, false, ◌&&◌, Option, none, some, List, [], ◌∷◌, ◌⊎◌, inl, inr, arith, ℤ, pos,
  negsuc, All, Any, Bool-cases,
}
use genus.Migrate.{
  Migration, Migrator, Control, none_found, is_applied, above, run_down, last_applied, down,
}

above_irrefl : (a : ℤ) → above a a ≡ false
above_irrefl (pos n) = ground arith
above_irrefl (negsuc n) = ground arith

above_trans : (a b c : ℤ) → above a b ≡ true → above b c ≡ true → above a c ≡ true
above_trans (pos a) (pos b) (pos c) h k = ground arith
above_trans (pos a) (pos b) (negsuc c) h k = ground arith
above_trans (pos a) (negsuc b) (pos c) h k = ground arith
above_trans (pos a) (negsuc b) (negsuc c) h k = ground arith
above_trans (negsuc a) (pos b) c h k = ground arith
above_trans (negsuc a) (negsuc b) (pos c) h k = ground arith
above_trans (negsuc a) (negsuc b) (negsuc c) h k = ground arith

above_asym : (a b : ℤ) → above a b ≡ true → above b a ≡ false
above_asym a b h = ground (arith, above_trans a b a, above_irrefl a)

module _ {W E : Type 0} where
  -- No recorded migration has a version above the given one.
  abbrev pub NoneAbove : ℤ → List ℤ → List (Migration W E) → Type 0
  NoneAbove v applied = All (λ mig. (is_applied mig.version applied && above mig.version v) ≡ false)

  -- A registered and recorded migration that none of the others is above.
  abbrev pub IsLast : ℤ → List ℤ → List (Migration W E) → Migration W E → Type 0
  IsLast v applied migs mig =
      Any (λ x. x ≡ mig) migs
      × (is_applied mig.version applied ≡ true)
      × (above mig.version v ≡ true)
      × NoneAbove mig.version applied migs

  last_applied_lem :
      (migs : List (Migration W E)) (applied : List ℤ) (v : ℤ) (last : Option (Migration W E))
      → ((last_applied migs applied v last ≡ last) × NoneAbove v applied migs)
        ⊎ ((mig : Migration W E) × (last_applied migs applied v last ≡ some mig)
            × IsLast v applied migs mig)
  unfolding last_applied
  last_applied_lem [] applied v last = inl (refl, tt)
  last_applied_lem (mig ∷ migs) applied v last =
      elim (Bool-cases (is_applied mig.version applied && above mig.version v)) [
        | inl e ↦ elim (last_applied_lem migs applied mig.version (some mig)) [
          | inl (f, rest) ↦ inr (
            mig,
            rw (e, last_applied) f,
            (
              inl refl,
              ground arith,
              ground arith,
              (ground (arith, above_irrefl mig.version), rest),
            ),
          )
          | inr (newest, f, (mem, a, b, rest)) ↦ inr (
            newest,
            rw (e, last_applied) f,
            (
              inr mem,
              a,
              above_trans newest.version mig.version v b (ground arith),
              (ground (arith, above_asym newest.version mig.version), rest),
            ),
          )
        ]
        | inr e ↦ elim (last_applied_lem migs applied v last) [
          | inl (f, rest) ↦ inl (rw (e, last_applied) f, (e, rest))
          | inr (newest, f, (mem, a, b, rest)) ↦ inr (
            newest,
            rw (e, last_applied) f,
            (inr mem, a, b, (ground (arith, above_trans mig.version newest.version v), rest)),
          )
        ]
      ]

  -- With a recorded version in the control table, Down runs the revert of a registered migration that
  -- is recorded, has a version above 0, and that no recorded one is above, and hands on what the revert
  -- gives; or it finds none and leaves the database as it is, and then no registered migration that is
  -- recorded has a version above 0. A migration whose version is 0 or negative is never reverted.
  pub down_lem :
      (c : Control W E) (m : Migrator W E) (w : W) (v : ℤ) (vs : List ℤ)
      → c.versions w ≡ inl (v ∷ vs)
      → (((down c m w).err ≡ some none_found)
          × ((down c m w).world ≡ w)
          × NoneAbove (pos 0) (v ∷ vs) m.migrations)
        ⊎ ((mig : Migration W E) × IsLast (pos 0) (v ∷ vs) m.migrations mig
            × ((down c m w).world ≡ (run_down c mig w).0)
            × ((down c m w).err ≡ (run_down c mig w).1))
  unfolding down
  down_lem c m w v vs r = elim (last_applied_lem m.migrations (v ∷ vs) (pos 0) none) [
    | inl (f, rest) ↦ rw (r, down) (rw (f, down) (inl (refl, refl, rest)))
    | inr (mig, f, last) ↦ rw (r, down) (rw (f, down) (inr (mig, last, refl, refl)))
  ]
