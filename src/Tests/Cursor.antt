-- ===== src/Tests/Cursor.antt =====
-- query/cursor.go: pages of three rows, whose cursors are the rows themselves.
use genus.Prelude.{
  ℕ, ◌≡◌, refl, ap, false, Option, none, some, List, [], ◌∷◌, ◌++◌, inl, inr, arith, codes, take,
  ◌==◌, if◌then◌else◌, ℤ, pos, negsuc,
}
use genus.Query.Condition.{AnyValue, scalar, slice}
use genus.Query.Where.{WhereItems, cond, nil, cons}
use genus.Query.Builder.{Builder, snoc}
use genus.Query.Chain.{new_builder, clone, add_where, order_by_asc, limit_to}
use genus.Query.Cursor.{CursorConfig, CursorData, CursorPage, Codec, Source, page_of}
use genus.Query.Cursor.Walk.{IsRanked, IsCodec, IsForward, walk, walk_lem}

abbrev config : CursorConfig
config = record {
  order_by = codes "n";
  order_desc = false;
  first = pos 2;
  after = [];
  last = pos 0;
  before = [];
  include_total_count = false;
}

-- The value of a cursor is a scalar here.
abbrev number : AnyValue ℕ → ℕ
number (scalar n) = n
number (slice kind ns) = 0

abbrev codec : Codec ℕ ℕ
codec = record {
  encode = λ d. number d.value ∷ d.column;
  decode = λ text. elim text [
    | [] ↦ inr 0
    | n ∷ column ↦ inl (record { column = column; value = scalar n; id = pos 0 })
  ];
}

-- A cursor does not keep the id.
abbrev decoded : ℕ → CursorData ℕ
decoded x = record { column = codes "n"; value = scalar x; id = pos 0 }

-- The rows after the one with the value.
abbrev after_value : ℕ → List ℕ → List ℕ
after_value n [] = []
after_value n (x ∷ xs) = let rest = after_value n xs in if n == x then xs else rest

abbrev rows : List ℕ
rows = 10 ∷ 20 ∷ 30 ∷ []

abbrev selected : WhereItems ℕ → List ℕ
selected nil = rows
selected (cons (cond c) items) = after_value (number c.value) rows
selected (cons _ items) = []

abbrev limited : Option ℤ → List ℕ → List ℕ
limited (some (pos k)) xs = take k xs
limited (some (negsuc k)) xs = xs
limited none xs = xs

-- A table of the three rows: ORDER BY n ASC, WHERE n > value, LIMIT.
abbrev source : Source ℕ ℕ ℕ
source = record {
  find = λ q. inl (limited q.limit (selected q.conditions));
  count = λ q. inl 3;
  value_of = λ column x. scalar x;
  id_of = λ x. pos x;
}

abbrev builder : Builder ℕ
builder = new_builder (codes "t")

after_row :
    (before : List ℕ) (x : ℕ) (after : List ℕ)
    → rows ≡ before ++ (x ∷ after)
    → after_value x rows ≡ after
after_row [] x after h = ground arith
after_row (a ∷ []) x after h = ground arith
after_row (a ∷ b ∷ []) x after h = ground arith
after_row (a ∷ b ∷ c ∷ []) x after h = absurd (ground arith)
after_row (a ∷ b ∷ c ∷ d ∷ before) x after h = absurd (ground arith)

rows-IsRanked : IsRanked codec source config builder decoded rows
rows-IsRanked = record {
  start = λ k. unfold limit_to order_by_asc clone new_builder snoc in refl;
  later = λ k before x after h.
      unfold limit_to order_by_asc clone new_builder add_where snoc in
      ap (λ (xs : List ℕ). inl (take k xs)) (after_row before x after h);
}

codec-IsCodec : IsCodec codec source config builder decoded
codec-IsCodec = record { round = λ x. refl; solid = λ x. refl }

config-IsForward : IsForward codec source config builder 1
config-IsForward = record { named = refl; size = refl; no_last = refl; no_before = refl }

walk_lem_example : walk codec source config builder 4 [] ≡ rows
walk_lem_example =
    walk_lem codec source config builder decoded 1 rows 4 rows-IsRanked codec-IsCodec
      config-IsForward (ground arith)

abbrev page : CursorPage ℕ
page = page_of codec source config none (take 3 rows)

abbrev open_config : CursorConfig
open_config = record config { first = pos 0 }
