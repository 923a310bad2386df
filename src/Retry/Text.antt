-- ===== src/Retry/Text.antt =====
-- core/circuit_breaker.go: DefaultIsRetryable, and `contains` with `containsInMiddle`. A string is the
-- list of its bytes.
use genus.Prelude.{
  codes, ℕ, zero, suc, ◌+◌, ◌-◌, ◌≤◌, ◌<◌, ◌≡◌, refl, sym, ap, ◌∙◌, Bool, true, false, ◌&&◌, ◌||◌,
  List, [], ◌∷◌, ◌++◌, inl, inr, ◌↔◌, arith, leb, ltb, length, length-append, take, drop,
  take-append-drop, take-length-append, bytes_eq, bytes_eq→≡, bytes_eq_refl, Bool-cases, le→leb,
  append-nil, take_all, Any, Option, some, none, not_ltb→le,
}

-- s[i : i+n] == substr, for i, i+1, ..., over `rounds` rounds
unfoldable middle_from : ℕ → List ℕ → List ℕ → Bool
middle_from zero s substr = false
middle_from (suc rounds) s substr =
    let rest = middle_from rounds (drop 1 s) substr in
    elim (bytes_eq (take (length substr) s) substr) [ true ↦ true | false ↦ rest ]

-- The loop is reached only where `len(s) > len(substr)`, so the difference is exact.
unfoldable contains_in_middle : List ℕ → List ℕ → Bool
contains_in_middle s substr = middle_from (length s - length substr + 1) s substr

unfoldable pub contains : List ℕ → List ℕ → Bool
unfolding contains_in_middle middle_from
contains s substr =
    leb (length substr) (length s)
    && (bytes_eq s substr
        || (ltb (length substr) (length s)
            && (bytes_eq (take (length substr) s) substr
                || bytes_eq (drop (length s - length substr) s) substr
                || contains_in_middle s substr)))

-- `substr` stands somewhere in `s`.
pub Occurs : List ℕ → List ℕ → Type 0
Occurs substr s = (before after : List ℕ) × (s ≡ before ++ (substr ++ after))

prefix-Occurs : (n : ℕ) (s substr : List ℕ) → take n s ≡ substr → Occurs substr s
unfolding Occurs
prefix-Occurs n s substr h = ([], drop n s, sym (rw (← h) (take-append-drop n s)))

suffix-Occurs : (n : ℕ) (s substr : List ℕ) → drop n s ≡ substr → Occurs substr s
unfolding Occurs
suffix-Occurs n s substr h = (take n s, [], sym (rw (append-nil, ← h) (take-append-drop n s)))

Occurs-drop : (s substr : List ℕ) → Occurs substr (drop 1 s) → Occurs substr s
unfolding Occurs
Occurs-drop [] substr h = h
Occurs-drop (c ∷ s) substr (before, after, e) = (c ∷ before, after, ap (◌∷◌ c) e)

middle_from_sound :
    (rounds : ℕ) (s substr : List ℕ) → middle_from rounds s substr ≡ true → Occurs substr s
unfolding middle_from Occurs
middle_from_sound zero s substr h = ground arith
middle_from_sound (suc rounds) s substr h =
    elim (Bool-cases (bytes_eq (take (length substr) s) substr)) [
      | inl here ↦ prefix-Occurs (length substr) s substr (bytes_eq→≡ _ _ here)
      | inr later ↦ Occurs-drop s substr (middle_from_sound rounds (drop 1 s) substr (ground arith))
    ]

middle_from_complete :
    (before substr after : List ℕ) (rounds : ℕ)
    → length before < rounds
    → middle_from rounds (before ++ (substr ++ after)) substr ≡ true
unfolding middle_from
middle_from_complete [] substr after zero h = absurd (omega arith)
middle_from_complete [] substr after (suc rounds) h =
    rw (take-length-append, bytes_eq_refl, middle_from)
middle_from_complete (b ∷ before) substr after zero h = absurd (omega arith)
middle_from_complete (b ∷ before) substr after (suc rounds) h =
    ground (arith, middle_from_complete before substr after rounds)

Occurs-length : (s substr : List ℕ) → Occurs substr s → length substr ≤ length s
unfolding Occurs
Occurs-length s substr (before, after, e) =
    omega (arith, ap length e, length-append before (substr ++ after), length-append substr after)

contains_sound : (s substr : List ℕ) → contains s substr ≡ true → Occurs substr s
unfolding contains contains_in_middle
contains_sound s substr h = elim (Bool-cases (bytes_eq s substr)) [
  | inl e ↦ prefix-Occurs (length s) s substr (take_all s ∙ bytes_eq→≡ s substr e)
  | inr n₁ ↦ elim (Bool-cases (bytes_eq (take (length substr) s) substr)) [
    | inl e ↦ prefix-Occurs (length substr) s substr (bytes_eq→≡ _ _ e)
    | inr n₂ ↦ elim (Bool-cases (bytes_eq (drop (length s - length substr) s) substr)) [
      | inl e ↦ suffix-Occurs (length s - length substr) s substr (bytes_eq→≡ _ _ e)
      | inr n₃ ↦ middle_from_sound (length s - length substr + 1) s substr (ground arith)
    ]
  ]
]

all_of_it :
    (before substr after : List ℕ)
    → length (before ++ (substr ++ after)) ≤ length substr
    → before ++ (substr ++ after) ≡ substr
all_of_it (b ∷ before) substr after h =
    absurd (omega (arith, length-append before (substr ++ after), length-append substr after))
all_of_it [] substr [] h = append-nil substr
all_of_it [] substr (a ∷ after) h = absurd (omega (arith, length-append substr (a ∷ after)))

contains_complete : (s substr : List ℕ) → Occurs substr s → contains s substr ≡ true
unfolding contains Occurs contains_in_middle
contains_complete s substr (before, after, e) = elim (Bool-cases (ltb (length substr) (length s))) [
  | inl less ↦
      let rounds = length (before ++ (substr ++ after)) - length substr + 1 in
      let long : length before < rounds =
        omega (arith, length-append before (substr ++ after), length-append substr after) in
      let found : middle_from (length s - length substr + 1) s substr ≡ true =
        rw e (middle_from_complete before substr after rounds long) in
      ground (arith, Occurs-length s substr (before, after, e))
  | inr whole ↦
      let same : s ≡ substr =
        e ∙ all_of_it before substr after (omega (arith, ap length e, not_ltb→le _ _ whole)) in
      rw same (ground (arith, bytes_eq_refl substr, le→leb (length substr) (length substr)))
]

-- `contains` answers true exactly when the second string stands somewhere in the first, byte for byte.
pub contains_iff : (s substr : List ℕ) → (contains s substr ≡ true) ↔ Occurs substr s
contains_iff s substr = (contains_sound s substr, contains_complete s substr)

abbrev pub retryable_errors : List (List ℕ)
retryable_errors =
    codes "connection refused"
    ∷ codes "connection reset"
    ∷ codes "broken pipe"
    ∷ codes "timeout"
    ∷ codes "too many connections"
    ∷ codes "deadlock"
    ∷ codes "lock wait timeout"
    ∷ []

-- the loop over `retryableErrors`
any_in : List ℕ → List (List ℕ) → Bool
any_in s [] = false
any_in s (e ∷ es) = contains s e || any_in s es

-- `none` is a nil error; another error is its text.
unfoldable pub default_is_retryable : Option (List ℕ) → Bool
unfolding any_in
default_is_retryable none = false
default_is_retryable (some err) = any_in err retryable_errors

any_in_iff_sound : (s : List ℕ) (es : List (List ℕ)) → any_in s es ≡ true → Any (λ e. Occurs e s) es
unfolding any_in
any_in_iff_sound s [] h = ground arith
any_in_iff_sound s (e ∷ es) h = elim (Bool-cases (contains s e)) [
  | inl here ↦ inl (contains_sound s e here)
  | inr later ↦ inr (any_in_iff_sound s es (ground arith))
]

any_in_complete : (s : List ℕ) (es : List (List ℕ)) → Any (λ e. Occurs e s) es → any_in s es ≡ true
unfolding any_in
any_in_complete s [] h = absurd h
any_in_complete s (e ∷ es) (inl o) = rw (contains_complete s e o)
any_in_complete s (e ∷ es) (inr o) = elim (Bool-cases (contains s e)) [
  | inl here ↦ rw here
  | inr later ↦ rw later (any_in_complete s es o)
]

-- An error may be retried by default exactly when its text holds one of the seven phrases, in lower
-- case as they are written; a nil error never.
default_is_retryable_iff :
    (default_is_retryable none ≡ false)
    × ((text : List ℕ)
        → (default_is_retryable (some text) ≡ true) ↔ Any (λ e. Occurs e text) retryable_errors)
unfolding default_is_retryable
default_is_retryable_iff =
    (refl, λ text. (any_in_iff_sound text retryable_errors, any_in_complete text retryable_errors))
