-- ===== src/Prelude/Dict.antt =====
-- Go's `map[string]V`: an association list whose keys are strings as lists of bytes.
use Prim.Native.Nat.{ℕ, ◌+◌, ◌≤◌}
use mathlib.Core.Path.{◌≡◌, refl}
use mathlib.Core.Logic.{◌↔◌}
use mathlib.Core.Bool.{Bool, true, false, ◌||◌}
use mathlib.Core.List.{List, [], ◌∷◌, ◌++◌}
use mathlib.Core.Option.{Option, none, some}
use native.Mathlib.Omega.{arith}
use genus.Prelude.Tests.{if◌then◌else◌}
use genus.Prelude.Lists.{length}
use genus.Prelude.Slices.{bytes_eq, bytes_eq→≡, bytes_eq_refl}

abbrev pub Bytes : Type 0
Bytes = List ℕ

pub bytes_eq_iff : (s t : Bytes) → (bytes_eq s t ≡ true) ↔ (s ≡ t)
bytes_eq_iff s t = (bytes_eq→≡ s t, λ e. rw e (bytes_eq_refl t))

-- `slices.Contains`
unfoldable pub contains : Bytes → List Bytes → Bool
contains k [] = false
contains k (x ∷ xs) = bytes_eq x k || contains k xs

pub contains-append :
    (k : Bytes) (xs : List Bytes) (y : Bytes)
    → contains k (xs ++ (y ∷ [])) ≡ (contains k xs || bytes_eq y k)
unfolding contains
contains-append k [] y = ground arith
contains-append k (x ∷ xs) y = ground (arith, contains-append k xs y)

pub contains-nil : (k : Bytes) → contains k [] ≡ false
unfolding contains
contains-nil k = refl

pub contains-cons :
    (k x : Bytes) (xs : List Bytes) → contains k (x ∷ xs) ≡ (bytes_eq x k || contains k xs)
unfolding contains
contains-cons k x xs = refl

module _ {ℓ} {V : Type ℓ} where
  -- `v, ok := m[k]`
  unfoldable pub lookup : Bytes → List (Bytes × V) → Option V
  lookup k [] = none
  lookup k ((j, v) ∷ m) = if bytes_eq j k then some v else lookup k m

  -- `m[k] = v`
  unfoldable pub insert : Bytes → V → List (Bytes × V) → List (Bytes × V)
  insert k v [] = (k, v) ∷ []
  insert k v ((j, w) ∷ m) = if bytes_eq j k then (k, v) ∷ m else (j, w) ∷ insert k v m

  -- `delete(m, k)`
  unfoldable pub erase : Bytes → List (Bytes × V) → List (Bytes × V)
  erase k [] = []
  erase k ((j, w) ∷ m) = if bytes_eq j k then m else (j, w) ∷ erase k m

  abbrev pub is_some : Option V → Bool
  is_some none = false
  is_some (some v) = true

  -- No key twice.
  abbrev pub Distinct : List (Bytes × V) → Type ℓ
  Distinct [] = Unit
  Distinct ((k, v) ∷ m) = (lookup k m ≡ none) × Distinct m

  pub lookup-insert :
      (k j : Bytes) (v : V) (m : List (Bytes × V))
      → lookup j (insert k v m) ≡ (if bytes_eq k j then some v else lookup j m)
  unfolding lookup insert
  lookup-insert k j v [] = refl
  lookup-insert k j v ((i, w) ∷ m) =
      ground (arith, bytes_eq_iff k j, bytes_eq_iff i k, bytes_eq_iff i j, lookup-insert k j v m)

  pub lookup-erase :
      (k j : Bytes) (m : List (Bytes × V))
      → Distinct m
      → lookup j (erase k m) ≡ (if bytes_eq k j then none else lookup j m)
  unfolding lookup erase
  lookup-erase k j [] d = ground arith
  lookup-erase k j ((i, w) ∷ m) d =
      ground (arith, bytes_eq_iff k j, bytes_eq_iff i k, bytes_eq_iff i j, lookup-erase k j m)

  pub lookup-nil : (k : Bytes) → lookup k [] ≡ none
  unfolding lookup
  lookup-nil k = refl

  pub insert-Distinct :
      (k : Bytes) (v : V) (m : List (Bytes × V)) → Distinct m → Distinct (insert k v m)
  unfolding insert
  insert-Distinct k v [] d = (lookup-nil k, tt)
  insert-Distinct k v ((i, w) ∷ m) d =
      ground
        (arith, bytes_eq_iff i k, bytes_eq_iff k i, lookup-insert k i v m, insert-Distinct k v m)

  pub erase-Distinct : (k : Bytes) (m : List (Bytes × V)) → Distinct m → Distinct (erase k m)
  unfolding erase
  erase-Distinct k [] d = tt
  erase-Distinct k ((i, w) ∷ m) d =
      ground (arith, bytes_eq_iff i k, lookup-erase k i m, erase-Distinct k m)

  pub length-insert :
      (k : Bytes) (v : V) (m : List (Bytes × V))
      → length (insert k v m) ≡ (if is_some (lookup k m) then length m else length m + 1)
  unfolding insert lookup
  length-insert k v [] = ground arith
  length-insert k v ((i, w) ∷ m) = ground (arith, length-insert k v m)

  pub length-erase :
      (k : Bytes) (m : List (Bytes × V))
      → length m ≡ (if is_some (lookup k m) then length (erase k m) + 1 else length (erase k m))
  unfolding erase lookup
  length-erase k [] = refl
  length-erase k ((i, w) ∷ m) = ground (arith, length-erase k m)

  pub lookup-of_length_zero : (k : Bytes) (m : List (Bytes × V)) → length m ≡ 0 → lookup k m ≡ none
  lookup-of_length_zero k [] h = lookup-nil k
  lookup-of_length_zero k (e ∷ m) h = absurd (omega arith)

  -- A dictionary whose keys all lack a place is empty.
  pub length-zero_of_lookup :
      (m : List (Bytes × V)) → ((k : Bytes) → lookup k m ≡ none) → length m ≡ 0
  unfolding lookup
  length-zero_of_lookup [] h = refl
  length-zero_of_lookup ((k, v) ∷ m) h = ground (arith, h k, bytes_eq_refl k)

  pub length-erase-le : (k : Bytes) (m : List (Bytes × V)) → length (erase k m) ≤ length m
  length-erase-le k m = ground (arith, length-erase k m)
