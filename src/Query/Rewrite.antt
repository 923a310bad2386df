-- ===== src/Query/Rewrite.antt =====
-- query/subquery.go, rewritePlaceholders: the next number is right, the placeholders are not.
use genus.Prelude.{
  ℕ, zero, suc, ◌+◌, ◌≡◌, ◌≢◌, refl, ap, ◌∙◌, false, [], ◌∷◌, ◌++◌, arith, codes, length, All,
  bytes_eq, bytes_eq_refl, take, take-length-append, drop-length-append, Bool-cases, inl, inr,
}
use genus.Prelude.Dict.{Bytes, bytes_eq_iff}
use genus.Query.Sql.{Dialect, decimal}
use genus.Query.Where.{replace_first, dollar, rewrite_from, rewrite_placeholders}

rewrite_from_next : (i : ℕ) (sql : Bytes) (k : ℕ) → (rewrite_from i sql k).1 ≡ k + i
unfolding rewrite_from
rewrite_from_next zero sql k = omega arith
rewrite_from_next (suc i) sql k =
    rewrite_from_next i (replace_first (dollar (suc i)) (dollar k) sql) (k + 1) ∙ omega arith

-- Whatever the dialect, `*argIndex` grows by the number of the subquery's arguments.
pub rewrite_placeholders_next :
    (d : Dialect) (sql : Bytes) (k n : ℕ) → (rewrite_placeholders d sql k n).1 ≡ k + n
unfolding rewrite_placeholders
rewrite_placeholders_next d sql k n = elim (Bool-cases (bytes_eq (d.placeholder 1) (codes "?"))) [
  | inl e ↦ rw e
  | inr e ↦ rw e (rewrite_from_next n sql k)
]

-- Text with no dollar sign.
abbrev pub Plain : Bytes → Type 0
Plain = All (λ c. c ≢ b'$')

other_head :
    (n c : ℕ) (s : Bytes)
    → c ≢ b'$'
    → bytes_eq (take (length (dollar n)) (c ∷ s)) (dollar n) ≡ false
other_head n c s ne = elim (Bool-cases (bytes_eq (take (length (dollar n)) (c ∷ s)) (dollar n))) [
  | inl e ↦
      let whole = (bytes_eq_iff (take (length (dollar n)) (c ∷ s)) (dollar n)).0 e in
      absurd (ne (cc whole))
  | inr e ↦ e
]

replace_first-skip :
    (n : ℕ) (new a s : Bytes)
    → Plain a
    → replace_first (dollar n) new (a ++ s) ≡ a ++ replace_first (dollar n) new s
unfolding replace_first
replace_first-skip n new [] s p = refl
replace_first-skip n new (c ∷ a) s p =
    rw (other_head n c (a ++ s) p.0, replace_first) (ap (◌∷◌ c) (replace_first-skip n new a s p.1))

replace_first-here :
    (n : ℕ) (new s : Bytes) → replace_first (dollar n) new (dollar n ++ s) ≡ new ++ s
unfolding replace_first
replace_first-here n new s = rw (
  take-length-append (dollar n) s,
  bytes_eq_refl (dollar n),
  replace_first,
  drop-length-append (dollar n) s,
)

-- The first placeholder is not the second.
replace_first-other :
    (new s : Bytes)
    → replace_first (dollar 2) new (dollar 1 ++ s) ≡ dollar 1 ++ replace_first (dollar 2) new s
unfolding replace_first decimal
replace_first-other new s =
    let differs : bytes_eq (take 2 (dollar 1 ++ s)) (dollar 2) ≡ false =
      elim (Bool-cases (bytes_eq (take 2 (dollar 1 ++ s)) (dollar 2))) [
        | inl e ↦
            let whole : ◌≡◌ {A = Bytes} (b'$' ∷ b'1' ∷ []) (b'$' ∷ b'2' ∷ []) =
              (bytes_eq_iff (b'$' ∷ b'1' ∷ []) (b'$' ∷ b'2' ∷ [])).0 e in
            absurd (ground arith)
        | inr e ↦ e
      ] in
    rw (differs, replace_first)
      (ap (◌∷◌ b'$') (replace_first-skip 2 new (b'1' ∷ []) s ((λ e. absurd (omega arith)), tt)))

-- In a dialect whose placeholder is not ?, a subquery with two arguments and no other dollar sign
-- before its $2 comes out with its placeholders swapped: where $1 was, the number of the second
-- argument is written, and where $2 was, that of the first.
pub rewrite_placeholders_swaps :
    (d : Dialect) (a b c : Bytes) (k : ℕ)
    → bytes_eq (d.placeholder 1) (codes "?") ≡ false
    → Plain a
    → Plain b
    → (rewrite_placeholders d (a ++ (dollar 1 ++ (b ++ (dollar 2 ++ c)))) k 2).0
      ≡ a ++ (dollar (k + 1) ++ (b ++ (dollar k ++ c)))
unfolding rewrite_placeholders rewrite_from
rewrite_placeholders_swaps d a b c k e p q =
    let second =
      replace_first-skip 2 (dollar k) a (dollar 1 ++ (b ++ (dollar 2 ++ c))) p
      ∙ ap (λ t. a ++ t)
          (replace_first-other (dollar k) (b ++ (dollar 2 ++ c))
            ∙ ap (λ t. dollar 1 ++ t)
                (replace_first-skip 2 (dollar k) b (dollar 2 ++ c) q
                  ∙ ap (λ t. b ++ t) (replace_first-here 2 (dollar k) c))) in
    rw (e, second)
      (replace_first-skip 1 (dollar (k + 1)) a (dollar 1 ++ (b ++ (dollar k ++ c))) p
        ∙ ap (λ t. a ++ t) (replace_first-here 1 (dollar (k + 1)) (b ++ (dollar k ++ c))))
