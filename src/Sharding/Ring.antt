-- ===== src/Sharding/Ring.antt =====
-- sharding/sharding.go, sortRing: the ring is sorted, and holds the same points as before.
use genus.Prelude.{
  ℕ, zero, suc, ◌+◌, ◌≤◌, ◌<◌, ◌≡◌, refl, ◌∙◌, inl, inr, List, [], ◌∷◌, ◌++◌, arith, ◌==◌,
  if◌then◌else◌, length, get_or, All, All-imp, Bool-cases,
}
use genus.Sharding.{shift, sort_from, backwards, sort_ring}

-- How often a point stands in a ring.
unfoldable pub count : ℕ → List ℕ → ℕ
count p [] = 0
count p (x ∷ xs) = (if x == p then 1 else 0) + count p xs

pub count-nil : (p : ℕ) → count p [] ≡ 0
unfolding count
count-nil p = refl

pub count-cons : (p x : ℕ) (xs : List ℕ) → count p (x ∷ xs) ≡ (if x == p then 1 else 0) + count p xs
unfolding count
count-cons p x xs = refl

pub count-append : (p : ℕ) (xs ys : List ℕ) → count p (xs ++ ys) ≡ count p xs + count p ys
unfolding count
count-append p [] ys = omega arith
count-append p (x ∷ xs) ys = omega (arith, count-append p xs ys)

abbrev pub Sorted : List ℕ → Type 0
Sorted [] = Unit
Sorted (x ∷ xs) = All (λ y. x ≤ y) xs × Sorted xs

-- Sorted when read from the end.
abbrev Descending : List ℕ → Type 0
Descending [] = Unit
Descending (x ∷ xs) = All (λ y. y ≤ x) xs × Descending xs

count-shift : (p key : ℕ) (xs : List ℕ) → count p (shift key xs) ≡ count p (key ∷ xs)
unfolding count shift
count-shift p key [] = refl
count-shift p key (x ∷ xs) = ground (arith, count-shift p key xs)

All-shift :
    (b key : ℕ) (xs : List ℕ) → key ≤ b → All (λ y. y ≤ b) xs → All (λ y. y ≤ b) (shift key xs)
unfolding shift
All-shift b key [] h a = (h, tt)
All-shift b key (x ∷ xs) h a = ground (arith, All-shift b key xs)

below-All : (x key : ℕ) (xs : List ℕ) → x ≤ key → All (λ y. y ≤ x) xs → All (λ y. y ≤ key) xs
below-All x key xs h a = All-imp _ _ (λ y p. omega arith) xs a

shift-Descending : (key : ℕ) (xs : List ℕ) → Descending xs → Descending (shift key xs)
unfolding shift
shift-Descending key [] d = (tt, tt)
shift-Descending key (x ∷ xs) d =
    ground (arith, shift-Descending key xs, All-shift x key xs, below-All x key xs)

count-sort_from :
    (p : ℕ) (before xs : List ℕ) → count p (sort_from before xs) ≡ count p before + count p xs
unfolding sort_from count
count-sort_from p before [] = omega arith
count-sort_from p before (x ∷ xs) =
    count-sort_from p (shift x before) xs ∙ (unfold count in omega (arith, count-shift p x before))

sort_from-Descending : (before xs : List ℕ) → Descending before → Descending (sort_from before xs)
unfolding sort_from
sort_from-Descending before [] d = d
sort_from-Descending before (x ∷ xs) d =
    sort_from-Descending (shift x before) xs (shift-Descending x before d)

count-backwards : (p : ℕ) (acc xs : List ℕ) → count p (backwards acc xs) ≡ count p acc + count p xs
unfolding count
count-backwards p acc [] = omega arith
count-backwards p acc (x ∷ xs) = omega (arith, count-backwards p (x ∷ acc) xs)

-- Everything of the first list lies below everything of the second.
abbrev Before : List ℕ → List ℕ → Type 0
Before xs ys = All (λ x. All (λ y. x ≤ y) ys) xs

Before-cons : (x : ℕ) (xs acc : List ℕ) → All (λ y. y ≤ x) xs → Before xs acc → Before xs (x ∷ acc)
Before-cons x [] acc h b = tt
Before-cons x (y ∷ xs) acc h b = ((h.0, b.0), Before-cons x xs acc h.1 b.1)

backwards-Sorted :
    (acc xs : List ℕ) → Sorted acc → Descending xs → Before xs acc → Sorted (backwards acc xs)
backwards-Sorted acc [] s d b = s
backwards-Sorted acc (x ∷ xs) s d b =
    backwards-Sorted (x ∷ acc) xs (b.0, s) d.1 (Before-cons x xs acc d.0 b.1)

Before-nil : (xs : List ℕ) → Before xs []
Before-nil [] = tt
Before-nil (x ∷ xs) = (tt, Before-nil xs)

-- `sortRing` leaves the ring sorted, with every point as often as it was in it.
pub sort_ring-Sorted :
    (ring : List ℕ) → Sorted (sort_ring ring) × ((p : ℕ) → count p (sort_ring ring) ≡ count p ring)
unfolding sort_ring
sort_ring-Sorted ring =
    let sorted = sort_from [] ring in
    (
      backwards-Sorted [] sorted tt (sort_from-Descending [] ring tt) (Before-nil sorted),
      λ p. count-backwards p [] sorted ∙ omega (arith, count-sort_from p [] ring, count-nil p),
    )

-- A point stands in the ring at some index, and what stands at an index is a point of it.
pub index_of :
    (p : ℕ) (xs : List ℕ) → 0 < count p xs → (i : ℕ) × (i < length xs) × (get_or xs i 0 ≡ p)
unfolding count
index_of p [] h = absurd (omega arith)
index_of p (x ∷ xs) h = elim (Bool-cases (x == p)) [
  | inl here ↦ (0, omega arith, ground arith)
  | inr later ↦ let (i, l, e) = index_of p xs (ground arith) in (suc i, omega arith, e)
]

pub count-get_or : (xs : List ℕ) (i : ℕ) → i < length xs → 0 < count (get_or xs i 0) xs
unfolding count
count-get_or [] i h = elim h [ ]
count-get_or (x ∷ xs) zero h = ground arith
count-get_or (x ∷ xs) (suc i) h = omega (arith, count-get_or xs i (omega arith))

All_at : (P : ℕ → Type 0) (xs : List ℕ) (i : ℕ) → All P xs → i < length xs → P (get_or xs i 0)
All_at P [] i a h = elim h [ ]
All_at P (x ∷ xs) zero a h = a.0
All_at P (x ∷ xs) (suc i) a h = All_at P xs i a.1 (omega arith)

pub Sorted-at :
    (xs : List ℕ) (i j : ℕ) → Sorted xs → i ≤ j → j < length xs → get_or xs i 0 ≤ get_or xs j 0
Sorted-at [] i j s h l = elim l [ ]
Sorted-at (x ∷ xs) zero zero s h l = omega arith
Sorted-at (x ∷ xs) zero (suc j) s h l = All_at (λ y. x ≤ y) xs j s.0 (omega arith)
Sorted-at (x ∷ xs) (suc i) zero s h l = absurd (omega arith)
Sorted-at (x ∷ xs) (suc i) (suc j) s h l = Sorted-at xs i j s.1 (omega arith) (omega arith)
