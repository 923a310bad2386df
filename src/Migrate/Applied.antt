-- ===== src/Migrate/Applied.antt =====
-- migrate/migrate.go: what Up leaves applied, and what it runs.
use genus.Prelude.{
  ◌≡◌, refl, ap, ◌∙◌, true, none, List, [], ◌∷◌, inl, inr, arith, if◌then◌else◌, ℤ, pos, negsuc,
  All, Bool-cases, Option-cases, sum_cases,
}
use genus.Prelude.Dict.{Bytes}
use genus.Migrate.{
  Migration, Migrator, Control, Logged, starting, finished, same_version, is_applied, run_up,
  up_from, up,
}

module _ {W E : Type 0} where
  -- The migrations that are not applied, in their order.
  abbrev pub pending : List (Migration W E) → List ℤ → List (Migration W E)
  pending [] applied = []
  pending (mig ∷ migs) applied =
      let rest = pending migs applied in if is_applied mig.version applied then rest else mig ∷ rest

  abbrev pub log_of : List (Migration W E) → List Logged
  log_of [] = []
  log_of (mig ∷ migs) = starting mig.version ∷ finished mig.version ∷ log_of migs

  -- Every migration is recorded in the control table.
  abbrev pub AllApplied : List (Migration W E) → List ℤ → Type 0
  AllApplied migs applied = All (λ mig. is_applied mig.version applied ≡ true) migs

same_version_refl : (v : ℤ) → same_version v v ≡ true
same_version_refl (pos n) = ground arith
same_version_refl (negsuc n) = ground arith

is_applied_head : (v : ℤ) (vs : List ℤ) → is_applied v (v ∷ vs) ≡ true
unfolding is_applied
is_applied_head v vs = rw (same_version_refl v) refl

is_applied_tail : (u v : ℤ) (vs : List ℤ) → is_applied u vs ≡ true → is_applied u (v ∷ vs) ≡ true
unfolding is_applied
is_applied_tail u v vs h = ground arith

module _ {W E : Type 0} (c : Control W E) where
  -- A row that was inserted is read, with the rows that were there.
  pub record IsControl : Type 0 where
    pub recorded :
        (v : ℤ) (name : Bytes) (w : W) (vs : List ℤ)
        → c.versions w ≡ inl vs
        → (c.insert_version v name w).1 ≡ none
        → c.versions (c.insert_version v name w).0 ≡ inl (v ∷ vs)

  -- No migration writes the control table.
  abbrev pub Untouched : List (Migration W E) → Type 0
  Untouched = All (λ mig. (w : W) → c.versions (mig.up w).0 ≡ c.versions w)

  run_up_done :
      (mig : Migration W E) (w : W)
      → (run_up c mig w).1 ≡ none
      → ((c.insert_version mig.version mig.name (mig.up w).0).1 ≡ none)
        × ((run_up c mig w).0 ≡ (c.insert_version mig.version mig.name (mig.up w).0).0)
  unfolding run_up
  run_up_done mig w h = ground arith

  -- What Up has applied after its loop.
  abbrev Reached : List (Migration W E) → List ℤ → W → Type 0
  Reached migs vs w =
      (vs' : List ℤ) × (c.versions w ≡ inl vs')
      × AllApplied migs vs'
      × ((v : ℤ) → is_applied v vs ≡ true → is_applied v vs' ≡ true)

  up_from_reaches :
      IsControl
      → (migs : List (Migration W E)) (applied vs : List ℤ) (w : W) → Untouched migs
      → c.versions w ≡ inl vs
      → ((v : ℤ) → is_applied v applied ≡ true → is_applied v vs ≡ true)
      → (up_from c migs applied w).1 ≡ none
      → Reached migs vs (up_from c migs applied w).0
  unfolding up_from
  up_from_reaches k [] applied vs w u r a h = (vs, r, tt, λ v e. e)
  up_from_reaches k (mig ∷ migs) applied vs w u r a h =
      elim (Bool-cases (is_applied mig.version applied)) [
        | inl e ↦
            let h' : (up_from c migs applied w).1 ≡ none = ground arith in
            let (vs', read, all, more) = up_from_reaches k migs applied vs w u.1 r a h' in
            rw (e, up_from) (vs', read, (more mig.version (a mig.version e), all), more)
        | inr e ↦ elim (Option-cases (run_up c mig w).1) [
          | inr (err, f) ↦ absurd (ground arith)
          | inl f ↦
              let h' : (up_from c migs applied (run_up c mig w).0).1 ≡ none = ground arith in
              let (inserted, same) = run_up_done mig w f in
              let now : c.versions (run_up c mig w).0 ≡ inl (mig.version ∷ vs) =
                ap (λ x. c.versions x) same
                ∙ k.recorded mig.version mig.name (mig.up w).0 vs (u.0 w ∙ r) inserted in
              let (vs', read, all, more) =
                up_from_reaches k migs applied (mig.version ∷ vs) (run_up c mig w).0 u.1 now
                  (λ v t. is_applied_tail v mig.version vs (a v t)) h' in
              rw (e, up_from)
                (rw (f, up_from)
                  (
                    vs',
                    read,
                    (more mig.version (is_applied_head mig.version vs), all),
                    λ v t. more v (is_applied_tail v mig.version vs t),
                  ))
        ]
      ]

  up_from_log :
      (migs : List (Migration W E)) (applied : List ℤ) (w : W)
      → (up_from c migs applied w).1 ≡ none
      → (up_from c migs applied w).2 ≡ log_of (pending migs applied)
  unfolding up_from
  up_from_log [] applied w h = refl
  up_from_log (mig ∷ migs) applied w h =
      ground (arith, up_from_log migs applied w, up_from_log migs applied (run_up c mig w).0)

  -- If Up reports no error, and the control table keeps what is inserted and no migration writes
  -- it, then every migration of the list that sort.Slice left is recorded afterwards, and the log
  -- has one start and one end for each of them that was not recorded before, in the order of that
  -- list, and none for the others.
  pub up_lem :
      IsControl
      → (sort : List (Migration W E) → List (Migration W E)) (m : Migrator W E) (w : W)
      → Untouched (sort m.migrations)
      → (up c sort m w).err ≡ none
      → (before after : List ℤ) × (c.versions (c.create w).0 ≡ inl before)
        × (c.versions (up c sort m w).world ≡ inl after)
        × AllApplied (sort m.migrations) after
        × ((up c sort m w).log ≡ log_of (pending (sort m.migrations) before))
  unfolding up
  up_lem k sort m w u h = elim (Option-cases (c.create w).1) [
    | inr (err, f) ↦ absurd (ground arith)
    | inl f ↦ elim (sum_cases (c.versions (c.create w).0)) [
      | inr (err, g) ↦ absurd (ground arith)
      | inl (before, g) ↦
          let migs : List (Migration W E) = sort m.migrations in
          let h' : (up_from c migs before (c.create w).0).1 ≡ none = ground arith in
          let (after, read, all, more) =
            up_from_reaches k migs before before (c.create w).0 u g (λ v t. t) h' in
          rw (f, up)
            (rw (g, up) (before, after, refl, read, all, up_from_log migs before (c.create w).0 h'))
    ]
  ]
