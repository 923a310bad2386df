-- ===== src/Query/Cursor/Walk.antt =====
-- query/cursor.go: following the end cursors from page to page.
use genus.Prelude.{
  ℕ, zero, suc, ◌+◌, ◌≤◌, ◌<◌, ◌≡◌, refl, sym, ap, ◌∙◌, true, Option, none, some, List, [], ◌∷◌,
  ◌++◌, ◌⊎◌, inl, inr, arith, length, take, drop, take-append-drop, length-drop, ltb, if◌then◌else◌,
  pos, Bool-cases, append_assoc, append-nil, ltb→lt, not_ltb→le,
}
use genus.Prelude.Dict.{Bytes}
use genus.Query.Condition.{gt, lt, AnyValue}
use genus.Query.Where.{cond}
use genus.Query.Builder.{Builder}
use genus.Query.Chain.{clone, add_where, order_by_asc, order_by_desc, limit_to}
use genus.Query.Cursor.{
  CursorConfig, CursorData, CursorPage, Codec, Source, is_set, page_limit, decode_cursor,
  page_query, generate_cursor, last_cursor, page_of, fetch,
}

take_again : {T : Type 0} (n : ℕ) (xs : List T) → take n (take (suc n) xs) ≡ take n xs
take_again zero xs = refl
take_again (suc n) [] = refl
take_again (suc n) (x ∷ xs) = ap (◌∷◌ x) (take_again n xs)

ltb-take : {T : Type 0} (n : ℕ) (xs : List T) → ltb n (length (take (suc n) xs)) ≡ ltb n (length xs)
ltb-take zero [] = refl
ltb-take zero (x ∷ xs) = ground arith
ltb-take (suc n) [] = ground arith
ltb-take (suc n) (x ∷ xs) = ground (arith, ltb-take n xs)

take_short : {T : Type 0} (n : ℕ) (xs : List T) → length xs ≤ n → take n xs ≡ xs
take_short zero [] h = refl
take_short zero (x ∷ xs) h = absurd (omega arith)
take_short (suc n) [] h = refl
take_short (suc n) (x ∷ xs) h = ap (◌∷◌ x) (take_short n xs (omega arith))

module _ {T V E : Type 0} (codec : Codec V E) (source : Source T V E) (c : CursorConfig)
    (b : Builder V) where
  -- The configuration of a page after a cursor.
  abbrev pub at : Bytes → CursorConfig
  at cursor = record c { after = cursor }

  abbrev pub in_order : Builder V → Builder V
  in_order q = if c.order_desc then order_by_desc c.order_by q else order_by_asc c.order_by q

  abbrev pub past : AnyValue V → Builder V → Builder V
  past value = add_where (
      cond
        (record { field = c.order_by; operator = if c.order_desc then lt else gt; value = value }))

  -- What the cursor of a row encodes.
  abbrev pub data_of : T → CursorData V
  data_of x = record {
    column = c.order_by;
    value = source.value_of c.order_by x;
    id = source.id_of x;
  }

  -- The cursors of rows are texts that are not empty, and `decoded x` is what the cursor of x decodes to:
  -- encoding/json need not give back what was encoded.
  pub record IsCodec (decoded : T → CursorData V) : Type 0 where
    pub round : (x : T) → codec.decode (codec.encode (data_of x)) ≡ inl (decoded x)
    pub solid : (x : T) → is_set (codec.encode (data_of x)) ≡ true

  -- The rows that the query selects stand in the order of a column whose values are unique, and whose
  -- decoded values still tell the rows apart: without a cursor LIMIT k gives the first k, and with the
  -- condition on the value that the cursor of x decodes to, those that follow x.
  pub record IsRanked (decoded : T → CursorData V) (rows : List T) : Type 0 where
    pub start : (k : ℕ) → source.find (limit_to (pos k) (in_order (clone b))) ≡ inl (take k rows)
    pub later :
        (k : ℕ) (before : List T) (x : T) (after : List T)
        → rows ≡ before ++ (x ∷ after)
        → source.find (limit_to (pos k) (in_order (past (decoded x).value (clone b))))
          ≡ inl (take k after)

  -- Pages forward, n + 1 rows to a page.
  pub record IsForward (n : ℕ) : Type 0 where
    pub named : is_set c.order_by ≡ true
    pub size : c.first ≡ pos (suc n)
    pub no_last : c.last ≡ pos 0
    pub no_before : c.before ≡ []

  -- A client that fetches the next page as long as there is one.
  pub walk : ℕ → Bytes → List T
  walk zero cursor = []
  walk (suc fuel) cursor = elim (fetch codec source (at cursor) b) [
    | inr e ↦ []
    | inl page ↦
        let rest = walk fuel page.end_cursor in
        page.items ++ (if page.has_next_page then rest else [])
  ]

  limit_of : (n : ℕ) (cursor : Bytes) → IsForward n → page_limit (at cursor) ≡ suc n
  unfolding page_limit
  limit_of n cursor f = rw (f.no_last, f.size) refl

  decode_of :
      (text : Bytes) (d : CursorData V)
      → is_set text ≡ true
      → codec.decode text ≡ inl d
      → decode_cursor codec text ≡ inl (some d)
  unfolding decode_cursor
  decode_of [] d h e = cc
  decode_of (x ∷ xs) d h e = rw (e, decode_cursor) refl

  decode_none : decode_cursor codec [] ≡ inl none
  unfolding decode_cursor
  decode_none = refl

  first_query :
      (n : ℕ)
      → IsForward n
      → page_query codec (at []) b ≡ inl (limit_to (pos (n + 2)) (in_order (clone b)))
  unfolding page_query
  first_query n f = unfold decode_cursor in ground (arith, limit_of n [] f)

  next_query :
      (decoded : T → CursorData V) (n : ℕ) (x : T)
      → IsCodec decoded
      → IsForward n
      → page_query codec (at (generate_cursor codec source c x)) b
        ≡ inl (limit_to (pos (n + 2)) (in_order (past (decoded x).value (clone b))))
  unfolding page_query generate_cursor
  next_query decoded n x k f =
      let d : CursorData V = data_of x in
      ground (
        arith,
        limit_of n (codec.encode d) f,
        k.solid x,
        decode_of (codec.encode d) (decoded x) (k.solid x) (k.round x),
        decode_none,
      )

  -- Where a walk stands: before the first row, or after the last of those it has seen.
  abbrev Position : Bytes → List T → Type 0
  Position cursor seen =
      ((seen ≡ []) × (cursor ≡ []))
      ⊎ ((before : List T) × (x : T) × (seen ≡ before ++ (x ∷ []))
          × (cursor ≡ generate_cursor codec source c x))

  abbrev total_of : Option ℕ
  total_of =
      if c.include_total_count
      then elim (source.count b) [ inl n ↦ some n | inr e ↦ none ]
      else none

  fetch_of :
      (cursor : Bytes) (q : Builder V) (found : List T)
      → page_query codec (at cursor) b ≡ inl q
      → source.find q ≡ inl found
      → fetch codec source (at cursor) b ≡ inl (page_of codec source (at cursor) total_of found)
  unfolding fetch
  fetch_of cursor q found e g = rw (e, fetch) (rw (g, fetch) refl)

  page_items :
      (n : ℕ) (cursor : Bytes) (found : List T)
      → IsForward n
      → (page_of codec source (at cursor) total_of found).items ≡ take (suc n) found
  unfolding page_of
  page_items n cursor found f = rw (f.no_last, f.size) refl

  page_more :
      (n : ℕ) (cursor : Bytes) (found : List T)
      → IsForward n
      → (page_of codec source (at cursor) total_of found).has_next_page ≡ ltb (suc n) (length found)
  unfolding page_of
  page_more n cursor found f = rw (f.no_last, f.size, f.no_before) (ground arith)

  page_end :
      (n : ℕ) (cursor : Bytes) (found : List T)
      → IsForward n
      → (page_of codec source (at cursor) total_of found).end_cursor
        ≡ last_cursor codec source (at cursor) (take (suc n) found)
  unfolding page_of
  page_end n cursor found f = rw (f.no_last, f.size) refl

  fetched :
      (decoded : T → CursorData V) (n : ℕ) (rows seen rest : List T) (cursor : Bytes)
      → IsRanked decoded rows
      → IsCodec decoded
      → IsForward n
      → rows ≡ seen ++ rest
      → Position cursor seen
      → fetch codec source (at cursor) b
        ≡ inl (page_of codec source (at cursor) total_of (take (n + 2) rest))
  fetched decoded n rows seen rest cursor r k f split (inl (none_seen, start)) =
      let all : rows ≡ rest = split ∙ (λ i. none_seen i ++ rest) in
      (λ i. fetch codec source (at (start i)) b)
      ∙ fetch_of [] _ (take (n + 2) rows) (first_query n f) (r.start (n + 2))
      ∙ (λ i. inl (page_of codec source (at (sym start i)) total_of (take (n + 2) (all i))))
  fetched decoded n rows seen rest cursor r k f split (inr (before, x, last_seen, there)) =
      let here : rows ≡ before ++ (x ∷ rest) =
        split ∙ (λ i. last_seen i ++ rest) ∙ append_assoc before (x ∷ []) rest in
      (λ i. fetch codec source (at (there i)) b)
      ∙ fetch_of (generate_cursor codec source c x) _ (take (n + 2) rest)
          (next_query decoded n x k f) (r.later (n + 2) before x rest here)
      ∙ (λ i. inl (page_of codec source (at (sym there i)) total_of (take (n + 2) rest)))

  last_split :
      (cursor : Bytes) (y : T) (ys : List T)
      → (before : List T) × (x : T) × (y ∷ ys ≡ before ++ (x ∷ []))
        × (last_cursor codec source (at cursor) (y ∷ ys) ≡ generate_cursor codec source c x)
  unfolding last_cursor generate_cursor
  last_split cursor y [] = ([], y, refl, refl)
  last_split cursor y (z ∷ ys) =
      let (before, x, e, g) = last_split cursor z ys in (y ∷ before, x, ap (◌∷◌ y) e, g)

  step_of :
      (fuel : ℕ) (cursor : Bytes) (page : CursorPage T) (rest : List T)
      → fetch codec source (at cursor) b ≡ inl page
      → walk (suc fuel) cursor
        ≡ page.items ++ (if page.has_next_page then walk fuel page.end_cursor else [])
  unfolding walk
  step_of fuel cursor page rest e = rw (e, walk) refl

  onward :
      (n : ℕ) (rest : List T) (fuel : ℕ) (cursor : Bytes)
      → (suc n < length rest
          → walk fuel (last_cursor codec source (at cursor) (take (suc n) rest))
            ≡ drop (suc n) rest)
      → take (suc n) rest
          ++ (if ltb (suc n) (length rest)
              then walk fuel (last_cursor codec source (at cursor) (take (suc n) rest))
              else [])
        ≡ rest
  onward n rest fuel cursor h = elim (Bool-cases (ltb (suc n) (length rest))) [
    | inl e ↦ rw e ((λ i. take (suc n) rest ++ h (ltb→lt _ _ e) i) ∙ take-append-drop (suc n) rest)
    | inr e ↦ rw e (append-nil (take (suc n) rest) ∙ take_short (suc n) rest (not_ltb→le _ _ e))
  ]

  next-Position :
      (n : ℕ) (seen rest : List T) (cursor : Bytes)
      → 0 < length rest
      → Position
          (last_cursor codec source (at cursor) (take (suc n) rest))
          (seen ++ take (suc n) rest)
  next-Position n seen [] cursor h = absurd (omega arith)
  next-Position n seen (y ∷ ys) cursor h =
      let (before, x, e, g) = last_split cursor y (take n ys) in
      inr (seen ++ before, x, (λ i. seen ++ e i) ∙ sym (append_assoc seen before (x ∷ [])), g)

  walk_from :
      (decoded : T → CursorData V) (n : ℕ) (rows seen rest : List T) (cursor : Bytes) (fuel : ℕ)
      → IsRanked decoded rows
      → IsCodec decoded
      → IsForward n
      → rows ≡ seen ++ rest
      → Position cursor seen
      → length rest < fuel
      → walk fuel cursor ≡ rest
  unfolding walk
  walk_from decoded n rows seen rest cursor zero r k f split p l = absurd (omega arith)
  walk_from decoded n rows seen rest cursor (suc fuel) r k f split p l =
      let page : CursorPage T = page_of codec source (at cursor) total_of (take (n + 2) rest) in
      let two : n + 2 ≡ suc (suc n) = omega arith in
      let items : page.items ≡ take (suc n) rest =
        page_items n cursor (take (n + 2) rest) f
        ∙ (λ i. take (suc n) (take (two i) rest))
        ∙ take_again (suc n) rest in
      let more : page.has_next_page ≡ ltb (suc n) (length rest) =
        page_more n cursor (take (n + 2) rest) f
        ∙ (λ i. ltb (suc n) (length (take (two i) rest)))
        ∙ ltb-take (suc n) rest in
      let end : page.end_cursor ≡ last_cursor codec source (at cursor) (take (suc n) rest) =
        page_end n cursor (take (n + 2) rest) f
        ∙ (λ i. last_cursor codec source (at cursor) (take (suc n) (take (two i) rest)))
        ∙ (λ i. last_cursor codec source (at cursor) (take_again (suc n) rest i)) in
      step_of fuel cursor page rest (fetched decoded n rows seen rest cursor r k f split p)
      ∙ (λ i. items i ++ (if more i then walk fuel (end i) else []))
      ∙ onward n rest fuel cursor (λ m.
        walk_from decoded n rows (seen ++ take (suc n) rest) (drop (suc n) rest)
          (last_cursor codec source (at cursor) (take (suc n) rest)) fuel r k f
          (split
            ∙ (λ i. seen ++ sym (take-append-drop (suc n) rest) i)
            ∙ sym (append_assoc seen (take (suc n) rest) (drop (suc n) rest)))
          (next-Position n seen rest cursor (omega arith))
          (omega (arith, length-drop (suc n) rest)))

  -- With First above 0, following the end cursors from the first page visits every row once, in the
  -- order of the column, whatever that First is, and ends: as many fetches as there are rows and one
  -- more are enough. This needs a column with unique values for which comparing with the value that a
  -- cursor decodes to is comparing with the row's own, as for text in UTF-8, and for integers up to
  -- 2^53.
  pub walk_lem :
      (decoded : T → CursorData V) (n : ℕ) (rows : List T) (fuel : ℕ)
      → IsRanked decoded rows
      → IsCodec decoded
      → IsForward n
      → length rows < fuel
      → walk fuel [] ≡ rows
  walk_lem decoded n rows fuel r k f l =
      walk_from decoded n rows [] rows [] fuel r k f refl (inl (refl, refl)) l
