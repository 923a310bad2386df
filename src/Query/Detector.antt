-- ===== src/Query/Detector.antt =====
-- query/n1detector.go: the detector of N+1 queries. Times are natural numbers, with the reading of the
-- clock as an argument; the functions of strings and regexp, and the caller that the runtime names, are
-- parameters. A call of OnDetection is recorded as a result.
pub mod Window
use genus.Prelude.{
  ℕ, zero, suc, ◌+◌, ◌*◌, Bool, true, false, ◌&&◌, Option, none, some, List, [], ◌∷◌, ◌++◌, codes,
  ltb, leb, ◌==◌, bytes_eq, if◌then◌else◌, ℤ, pos, positive_or, not,
}
use genus.Prelude.Dict.{Bytes, lookup, insert}

pub record N1Detection : Type 0 where
  pub pattern : Bytes
  pub count : ℕ
  pub threshold : ℕ
  pub first_seen : ℕ
  pub last_seen : ℕ
  pub caller_file : Bytes
  pub caller_line : ℕ
  pub sample_query : Bytes
  pub suggestion : Bytes

pub record N1DetectorConfig : Type 0 where
  pub enabled : Bool
  pub threshold : ℤ
  pub time_window : ℤ
  -- `OnDetection != nil`
  pub on_detection : Bool
  pub include_stack_trace : Bool
  pub exclude_patterns : List Bytes

unfoldable pub default_config : N1DetectorConfig
default_config = record {
  enabled = true;
  threshold = pos 5;
  time_window = pos 100000000;
  on_detection = false;
  include_stack_trace = false;
  exclude_patterns = [];
}

-- `queryRecord`
pub record QueryRecord : Type 0 where
  pub pattern : Bytes
  pub query : Bytes
  pub timestamp : ℕ
  pub caller : Bytes
  pub line : ℕ

-- `N1Detector`; threshold and window as NewN1Detector leaves them.
pub record N1Detector : Type 0 where
  pub config : N1DetectorConfig
  pub threshold : ℕ
  pub window : ℕ
  pub queries : List QueryRecord
  pub detections : List (Bytes × N1Detection)
  pub last_clean : ℕ

-- strings.ToLower, strings.Contains and normalizeQuery, which is made of regular expressions.
pub record Text : Type 0 where
  pub lower : Bytes → Bytes
  pub contains : Bytes → Bytes → Bool
  pub normalize : Bytes → Bytes

unfoldable pub new_n1_detector : N1DetectorConfig → ℕ → N1Detector
new_n1_detector c now = record {
  config = c;
  threshold = positive_or 5 c.threshold;
  window = positive_or 100000000 c.time_window;
  queries = [];
  detections = [];
  last_clean = now;
}

-- `timestamp.After(now - window)`
abbrev pub within : ℕ → ℕ → ℕ → Bool
within window now timestamp = ltb now (timestamp + window)

unfoldable pub clean_from : ℕ → ℕ → List QueryRecord → List QueryRecord
clean_from window now [] = []
clean_from window now (q ∷ qs) =
    let rest = clean_from window now qs in
    if within (window * 2) now q.timestamp then q ∷ rest else rest

unfoldable pub clean_old_queries : ℕ → N1Detector → N1Detector
unfolding clean_from
clean_old_queries now d = record d { queries = clean_from d.window now d.queries }

-- The loop that counts.
unfoldable pub count_pattern : ℕ → ℕ → Bytes → List QueryRecord → ℕ
count_pattern window now pattern [] = 0
count_pattern window now pattern (q ∷ qs) =
    let rest = count_pattern window now pattern qs in
    if within window now q.timestamp && bytes_eq q.pattern pattern then suc rest else rest

module _ (text : Text) where
  unfoldable pub is_excluded : Bytes → List Bytes → Bool
  is_excluded query [] = false
  is_excluded query (p ∷ ps) =
      if text.contains (text.lower query) (text.lower p) then true else is_excluded query ps

  unfoldable pub generate_suggestion : Bytes → Bytes
  generate_suggestion query =
      let q = text.lower query in
      if text.contains q (codes "where") && text.contains q (codes "= ?")
      then codes
          "Consider using Preload() for eager loading or batch the IDs with WHERE id IN (...)"
      else if text.contains q (codes "select") && text.contains q (codes "from")
      then codes
          "This appears to be a repeated SELECT. Use Preload() for relationships or batch queries with IN clause"
      else codes "Consider batching these queries or using eager loading with Preload()"

  -- Record after its tests, from the lock on, for a query with its pattern and caller.
  unfoldable pub record_query :
      ℕ → Bytes → Bytes → Bytes → ℕ → N1Detector → N1Detector × Option N1Detection
  unfolding clean_old_queries count_pattern generate_suggestion
  record_query now pattern query file line d =
      let cleaned : N1Detector =
        if ltb (d.window * 10 + d.last_clean) now
        then record (clean_old_queries now d) { last_clean = now }
        else d in
      let queries : List QueryRecord =
        cleaned.queries
        ++ (record { pattern = pattern; query = query; timestamp = now; caller = file; line = line }
            ∷ []) in
      let count = count_pattern d.window now pattern queries in
      let fresh : N1Detection = record {
        pattern = pattern;
        count = count;
        threshold = d.threshold;
        first_seen = now;
        last_seen = now;
        caller_file = file;
        caller_line = line;
        sample_query = query;
        suggestion = generate_suggestion query;
      } in
      let detection : N1Detection = elim (lookup pattern cleaned.detections) [
        | none ↦ fresh
        | some found ↦ record found { count = count; last_seen = now }
      ] in
      if leb d.threshold count
      then (
        record cleaned {
          queries = queries;
          detections = insert pattern detection cleaned.detections;
        },
        if d.config.on_detection && (count == d.threshold) then some detection else none,
      )
      else (record cleaned { queries = queries }, none)

  -- Record; `file` and `line` are what the runtime says of the caller.
  unfoldable pub record_call : ℕ → Bytes → Bytes → ℕ → N1Detector → N1Detector × Option N1Detection
  unfolding is_excluded record_query
  record_call now query file line d =
      let traced = d.config.include_stack_trace in
      let recorded =
        record_query now (text.normalize query) query (if traced then file else [])
          (if traced then line else 0) d in
      if not d.config.enabled
      then (d, none)
      else if is_excluded query d.config.exclude_patterns
      then (d, none)
      else recorded

unfoldable pub clear_detector : N1Detector → N1Detector
clear_detector d = record d { queries = []; detections = [] }
