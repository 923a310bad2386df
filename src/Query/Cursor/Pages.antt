-- ===== src/Query/Cursor/Pages.antt =====
-- query/cursor.go: the size of a page, and a page whose size is left open.
use genus.Prelude.{
  ℕ, ◌+◌, ◌≤◌, ◌≡◌, refl, false, Option, none, some, List, [], ◌∷◌, inl, inr, arith, length,
  length-take-le, take, pos, sum_cases,
}
use genus.Query.Builder.{Builder}
use genus.Query.Cursor.{
  CursorConfig, CursorPage, Codec, Source, push_back, page_limit, page_query, page_of, fetch,
}

length-push_back :
    {T : Type 0} (acc xs : List T) → length (push_back acc xs) ≡ length acc + length xs
length-push_back acc [] = omega arith
length-push_back acc (x ∷ xs) = omega (arith, length-push_back (x ∷ acc) xs)

module _ {T V E : Type 0} (codec : Codec V E) (source : Source T V E) where
  length-page_of :
      (c : CursorConfig) (total : Option ℕ) (found : List T)
      → length (page_of codec source c total found).items ≤ page_limit c
  unfolding page_of
  length-page_of c total found =
      ground (
        arith,
        length-take-le (page_limit c) found,
        length-push_back [] (take (page_limit c) found),
      )

  -- A page has at most as many items as its limit, whatever the configuration and the rows.
  fetch_bounds :
      (c : CursorConfig) (b : Builder V) (page : CursorPage T)
      → fetch codec source c b ≡ inl page
      → length page.items ≤ page_limit c
  unfolding fetch
  fetch_bounds c b page h = elim (sum_cases (page_query codec c b)) [
    | inr (e, p) ↦ absurd (ground arith)
    | inl (q, p) ↦ elim (sum_cases (source.find q)) [
      | inr (e, g) ↦ absurd (ground arith)
      | inl (found, g) ↦
          ground (arith, length-page_of c none found, λ (n : ℕ). length-page_of c (some n) found)
    ]
  ]

  -- A configuration that sets neither First, Last, After nor Before gives a page of the first 20 rows
  -- that says there is no next page, also when more rows were found.
  default_page :
      (c : CursorConfig) (total : Option ℕ) (found : List T)
      → c.first ≡ pos 0
      → c.last ≡ pos 0
      → c.after ≡ []
      → c.before ≡ []
      → ((page_of codec source c total found).items ≡ take 20 found)
        × ((page_of codec source c total found).has_next_page ≡ false)
  unfolding page_of
  default_page c total found f l a b = (rw (l, f) refl, rw (l, f, a, b) refl)
