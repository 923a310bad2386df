-- ===== src/Query/Cursor.antt =====
-- query/cursor.go: pages by cursor. The text of a cursor, which encoding/json and encoding/base64
-- make, the execution of a query, and what reflection reads from an item are parameters.
pub mod Walk
pub mod Pages
use genus.Prelude.{
  ℕ, suc, ◌+◌, Bool, true, false, ◌&&◌, ◌||◌, not, Option, none, some, List, [], ◌∷◌, ◌++◌, ◌⊎◌,
  inl, inr, codes, length, take, ltb, if◌then◌else◌, ℤ, pos, negsuc, positive_or,
}
use genus.Prelude.Dict.{Bytes}
use genus.Query.Sql.{lit, param, Sql, Dialect, join}
use genus.Query.Condition.{Operator, gt, lt, AnyValue, Condition}
use genus.Query.Where.{cond}
use genus.Query.Builder.{Builder}
use genus.Query.Chain.{clone, add_where, order_by_asc, order_by_desc, limit_to}

pub record CursorConfig : Type 0 where
  pub order_by : Bytes
  pub order_desc : Bool
  pub first : ℤ
  pub after : Bytes
  pub last : ℤ
  pub before : Bytes
  pub include_total_count : Bool

-- `cursorData`
pub record CursorData (V : Type 0) : Type 0 where
  pub column : Bytes
  pub value : AnyValue V
  pub id : ℤ

pub record CursorPage (T : Type 0) : Type 0 where
  pub items : List T
  pub has_next_page : Bool
  pub has_previous_page : Bool
  pub start_cursor : Bytes
  pub end_cursor : Bytes
  pub total_count : Option ℕ

pub data FetchError (E : Type 0) : Type 0 where
  order_by_required : FetchError E
  both_first_and_last : FetchError E
  both_after_and_before : FetchError E
  failed : E → FetchError E

-- JSON in base64, and back.
pub record Codec (V E : Type 0) : Type 0 where
  pub encode : CursorData V → Bytes
  pub decode : Bytes → CursorData V ⊎ E

-- What the builder's executor answers, and what reflection reads from an item.
pub record Source (T V E : Type 0) : Type 0 where
  pub find : Builder V → List T ⊎ E
  pub count : Builder V → ℕ ⊎ E
  pub value_of : Bytes → T → AnyValue V
  pub id_of : T → ℤ

abbrev pub is_set : Bytes → Bool
is_set [] = false
is_set (c ∷ cs) = true

-- `n > 0`
abbrev pub is_positive : ℤ → Bool
is_positive (pos n) = ltb 0 n
is_positive (negsuc n) = false

abbrev pub push_back : {T : Type 0} → List T → List T → List T
push_back acc [] = acc
push_back acc (x ∷ xs) = push_back (x ∷ acc) xs

-- reverseSlice
unfoldable pub reverse_slice : {T : Type 0} → List T → List T
reverse_slice xs = push_back [] xs

-- config.First, or config.Last if it is set, or 20
unfoldable pub page_limit : CursorConfig → ℕ
page_limit c = positive_or 20 (if is_positive c.last then c.last else c.first)

module _ {V E : Type 0} (codec : Codec V E) where
  unfoldable pub encode_cursor : Bytes → AnyValue V → ℤ → Bytes
  encode_cursor column value id = codec.encode (record { column = column; value = value; id = id })

  -- `none` is the nil of an empty cursor.
  unfoldable pub decode_cursor : Bytes → Option (CursorData V) ⊎ E
  decode_cursor [] = inl none
  decode_cursor (c ∷ cs) = elim (codec.decode (c ∷ cs)) [ inl d ↦ inl (some d) | inr e ↦ inr e ]

  unfoldable pub cursor_is_valid : Bytes → Bool
  unfolding decode_cursor
  cursor_is_valid [] = true
  cursor_is_valid (c ∷ cs) = elim (decode_cursor (c ∷ cs)) [ inl d ↦ true | inr e ↦ false ]

  -- The condition of a cursor, if it is set.
  unfoldable pub with_cursor : Bytes → Operator → Bytes → Builder V → Builder V ⊎ FetchError E
  unfolding decode_cursor
  with_cursor order_by operator cursor b = elim (decode_cursor cursor) [
    | inr e ↦ inr (failed e)
    | inl none ↦ inl b
    | inl (some d) ↦
        inl (add_where (cond (record { field = order_by; operator = operator; value = d.value })) b)
  ]

  -- Fetch up to the query.
  unfoldable pub page_query : CursorConfig → Builder V → Builder V ⊎ FetchError E
  unfolding with_cursor page_limit
  page_query c b =
      let forward : Operator = if c.order_desc then lt else gt in
      let backward : Operator = if c.order_desc then gt else lt in
      let ascending = if is_positive c.last then c.order_desc else not c.order_desc in
      if not (is_set c.order_by)
      then inr order_by_required
      else if is_positive c.first && is_positive c.last
      then inr both_first_and_last
      else if is_set c.after && is_set c.before
      then inr both_after_and_before
      else elim (with_cursor c.order_by forward c.after (clone b)) [
        | inr e ↦ inr e
        | inl b' ↦ elim (with_cursor c.order_by backward c.before b') [
          | inr e ↦ inr e
          | inl b'' ↦
              let ordered =
                if ascending then order_by_asc c.order_by b'' else order_by_desc c.order_by b'' in
              inl (limit_to (pos (page_limit c + 1)) ordered)
        ]
      ]

module _ {T V E : Type 0} (codec : Codec V E) (source : Source T V E) where
  unfoldable pub generate_cursor : CursorConfig → T → Bytes
  unfolding encode_cursor
  generate_cursor c item =
      encode_cursor codec c.order_by (source.value_of c.order_by item) (source.id_of item)

  unfoldable pub last_cursor : CursorConfig → List T → Bytes
  unfolding generate_cursor
  last_cursor c [] = []
  last_cursor c (x ∷ []) = generate_cursor c x
  last_cursor c (x ∷ y ∷ xs) = last_cursor c (y ∷ xs)

  unfoldable pub first_cursor : CursorConfig → List T → Bytes
  unfolding generate_cursor
  first_cursor c [] = []
  first_cursor c (x ∷ xs) = generate_cursor c x

  -- Fetch from the rows that the query returned.
  unfoldable pub page_of : CursorConfig → Option ℕ → List T → CursorPage T
  unfolding first_cursor last_cursor reverse_slice page_limit
  page_of c total found =
      let has_more = ltb (page_limit c) (length found) in
      let kept = take (page_limit c) found in
      let items = if is_positive c.last then reverse_slice kept else kept in
      let forward = is_positive c.first || is_set c.after in
      let backward = is_positive c.last || is_set c.before in
      record {
        items = items;
        has_next_page = if backward then is_set c.before else if forward then has_more else false;
        has_previous_page =
            if backward then has_more else if forward then is_set c.after else false;
        start_cursor = first_cursor c items;
        end_cursor = last_cursor c items;
        total_count = total;
      }

  unfoldable pub fetch : CursorConfig → Builder V → CursorPage T ⊎ FetchError E
  unfolding page_query page_of
  fetch c b =
      let total : Option ℕ =
        if c.include_total_count
        then elim (source.count b) [ inl n ↦ some n | inr e ↦ none ]
        else none in
      elim (page_query codec c b) [
        | inr e ↦ inr e
        | inl q ↦ elim (source.find q) [
          | inr e ↦ inr (failed e)
          | inl found ↦ inl (page_of c total found)
        ]
      ]

pub record PageInfo : Type 0 where
  pub has_next_page : Bool
  pub has_previous_page : Bool
  pub start_cursor : Bytes
  pub end_cursor : Bytes

pub record Edge (T : Type 0) : Type 0 where
  pub node : T
  pub cursor : Bytes

pub record Connection (T : Type 0) : Type 0 where
  pub edges : List (Edge T)
  pub page_info : PageInfo
  pub total_count : Option ℕ

module _ {T : Type 0} (cursor_func : T → Bytes) where
  unfoldable edges_of : List T → List (Edge T)
  edges_of [] = []
  edges_of (x ∷ xs) = record { node = x; cursor = cursor_func x } ∷ edges_of xs

  unfoldable pub to_connection : CursorPage T → Connection T
  unfolding edges_of
  to_connection p = record {
    edges = edges_of p.items;
    page_info = record {
      has_next_page = p.has_next_page;
      has_previous_page = p.has_previous_page;
      start_cursor = p.start_cursor;
      end_cursor = p.end_cursor;
    };
    total_count = p.total_count;
  }

module _ {V E : Type 0} (codec : Codec V E) (d : Dialect) where
  -- One of the two conditions of buildCursorSQL, with the placeholder's number.
  unfoldable cursor_part : Bytes → Bytes → Bytes → ℕ → (List Sql × List (AnyValue V)) ⊎ E
  cursor_part order_by op cursor k = elim (decode_cursor codec cursor) [
    | inr e ↦ inr e
    | inl none ↦ inl ([], [])
    | inl (some data') ↦ inl (
      (lit (d.quote_identifier order_by)
            ∷ lit (codes " ")
            ∷ lit op
            ∷ lit (codes " ")
            ∷ param k
            ∷ [])
          ∷ [],
      data'.value ∷ [],
    )
  ]

  unfoldable pub build_cursor_sql : CursorConfig → (Sql × List (AnyValue V)) ⊎ E
  unfolding cursor_part
  build_cursor_sql c =
      elim (cursor_part c.order_by (if c.order_desc then codes "<" else codes ">") c.after 1) [
        | inr e ↦ inr e
        | inl (parts, args) ↦
            elim (cursor_part c.order_by (if c.order_desc then codes ">" else codes "<") c.before
              (1 + length args)) [
                | inr e ↦ inr e
                | inl (parts', args') ↦
                    inl (join (lit (codes " AND ") ∷ []) (parts ++ parts'), args ++ args')
              ]
      ]
