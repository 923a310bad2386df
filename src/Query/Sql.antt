-- ===== src/Query/Sql.antt =====
-- The SQL text that the query package writes, as a list of pieces: text, and a call of the dialect's
-- Placeholder, so that the numbers of the placeholders can be read. `render` is the string.
-- dialects/: Placeholder and QuoteIdentifier of the three dialects.
use genus.Prelude.{
  ℕ, zero, suc, ◌+◌, ◌/◌, ◌%◌, ◌≡◌, refl, ap, List, [], ◌∷◌, ◌++◌, arith, append_assoc, append-nil,
}
use genus.Prelude.Dict.{Bytes}
use native.Mathlib.Nat.{zero-add, suc-add}

pub data Piece : Type 0 where
  lit : Bytes → Piece
  param : ℕ → Piece

abbrev pub Sql : Type 0
Sql = List Piece

pub record Dialect : Type 0 where
  pub placeholder : ℕ → Bytes
  pub quote_identifier : Bytes → Bytes

-- `%d`
decimal_from : ℕ → ℕ → Bytes → Bytes
decimal_from zero n digits = digits
decimal_from (suc fuel) n digits =
    let more = (b'0' + n % 10) ∷ digits in
    elim (n / 10) [ zero ↦ more | suc rest ↦ decimal_from fuel (suc rest) more ]

-- A number has at most as many digits as the number itself and one.
unfoldable pub decimal : ℕ → Bytes
unfolding decimal_from
decimal n = decimal_from (n + 1) n []

unfoldable pub postgres : Dialect
unfolding decimal
postgres = record {
  placeholder = λ n. b'$' ∷ decimal n;
  quote_identifier = λ name. (b'"' ∷ []) ++ (name ++ (b'"' ∷ []));
}

unfoldable pub mysql : Dialect
mysql = record {
  placeholder = λ n. b'?' ∷ [];
  quote_identifier = λ name. (b'`' ∷ []) ++ (name ++ (b'`' ∷ []));
}

unfoldable pub sqlite : Dialect
sqlite = record {
  placeholder = λ n. b'?' ∷ [];
  quote_identifier = λ name. (b'"' ∷ []) ++ (name ++ (b'"' ∷ []));
}

unfoldable pub render : Dialect → Sql → Bytes
render d [] = []
render d (lit text ∷ sql) = text ++ render d sql
render d (param n ∷ sql) = d.placeholder n ++ render d sql

-- strings.Join
unfoldable pub join : Sql → List Sql → Sql
join sep [] = []
join sep (part ∷ []) = part
join sep (part ∷ next ∷ parts) = part ++ (sep ++ join sep (next ∷ parts))

-- The numbers of the placeholders, in the order of the text.
unfoldable pub params : Sql → List ℕ
params [] = []
params (lit text ∷ sql) = params sql
params (param n ∷ sql) = n ∷ params sql

unfoldable pub all_params : List Sql → List ℕ
all_params [] = []
all_params (part ∷ parts) = params part ++ all_params parts

-- k, k + 1, ..., of the given length
unfoldable pub range : ℕ → ℕ → List ℕ
range k zero = []
range k (suc n) = k ∷ range (k + 1) n

pub params-lit : (text : Bytes) (sql : Sql) → params (lit text ∷ sql) ≡ params sql
unfolding params
params-lit text sql = refl

pub params-param : (n : ℕ) (sql : Sql) → params (param n ∷ sql) ≡ n ∷ params sql
unfolding params
params-param n sql = refl

pub params-nil : params [] ≡ []
unfolding params
params-nil = refl

pub params-append : (a b : Sql) → params (a ++ b) ≡ params a ++ params b
unfolding params
params-append [] b = refl
params-append (lit text ∷ a) b = params-append a b
params-append (param n ∷ a) b = ap (◌∷◌ n) (params-append a b)

pub params-join :
    (sep : Sql) (parts : List Sql) → params sep ≡ [] → params (join sep parts) ≡ all_params parts
unfolding join all_params params
params-join sep [] e = refl
params-join sep (part ∷ []) e = rw append-nil
params-join sep (part ∷ next ∷ parts) e =
    simp (params-append, e) (ap (λ l. params part ++ l) (params-join sep (next ∷ parts) e))

pub all_params-nil : all_params [] ≡ []
unfolding all_params
all_params-nil = refl

pub all_params-cons :
    (part : Sql) (parts : List Sql) → all_params (part ∷ parts) ≡ params part ++ all_params parts
unfolding all_params
all_params-cons part parts = refl

pub all_params-append : (a b : List Sql) → all_params (a ++ b) ≡ all_params a ++ all_params b
unfolding all_params
all_params-append [] b = refl
all_params-append (part ∷ a) b = simp (all_params-append a b, append_assoc)

pub range-nil : (k : ℕ) → range k 0 ≡ []
unfolding range
range-nil k = refl

pub range-cons : (k n : ℕ) → range k (suc n) ≡ k ∷ range (k + 1) n
unfolding range
range-cons k n = refl

pub range-one : (k : ℕ) → range k 1 ≡ k ∷ []
unfolding range
range-one k = refl

pub range-two : (k : ℕ) → range k 2 ≡ k ∷ (k + 1) ∷ []
unfolding range
range-two k = refl

-- Two ranges that meet.
pub range-append : (k m n j : ℕ) → j ≡ k + m → range k m ++ range j n ≡ range k (m + n)
unfolding range
range-append k zero n j e = let e' : j ≡ k = omega arith in rw (e', zero-add)
range-append k (suc m) n j e = rw suc-add (ap (◌∷◌ k) (range-append (k + 1) m n j (omega arith)))
