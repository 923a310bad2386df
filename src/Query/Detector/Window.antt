-- ===== src/Query/Detector/Window.antt =====
-- query/n1detector.go: the detector against the list of all queries that were ever recorded.
use genus.Prelude.{
  ℕ, suc, ◌+◌, ◌*◌, ◌≤◌, ◌≡◌, refl, sym, ◌∙◌, Bool, true, false, ◌&&◌, not, Option, none, List, [],
  ◌∷◌, ◌++◌, ◌⊎◌, inl, inr, arith, ltb, leb, ◌==◌, bytes_eq, if◌then◌else◌, Bool-cases,
  append_assoc, append-nil, ==_iff,
}
use mathlib.Core.Path.{subst}
use genus.Prelude.Dict.{Bytes, is_some}
use genus.Query.Detector.{
  N1Detection, N1DetectorConfig, QueryRecord, N1Detector, Text, new_n1_detector, within, clean_from,
  clean_old_queries, count_pattern, is_excluded, record_query, record_call,
}

count_pattern-append :
    (w now : ℕ) (p : Bytes) (xs ys : List QueryRecord)
    → count_pattern w now p (xs ++ ys) ≡ count_pattern w now p xs + count_pattern w now p ys
unfolding count_pattern
count_pattern-append w now p [] ys = omega arith
count_pattern-append w now p (x ∷ xs) ys = ground (arith, count_pattern-append w now p xs ys)

-- What is cleaned away is too old to be counted from then on.
count_pattern-clean_from :
    (w t now : ℕ) (p : Bytes) (qs : List QueryRecord)
    → t ≤ now
    → count_pattern w now p (clean_from w t qs) ≡ count_pattern w now p qs
unfolding count_pattern clean_from
count_pattern-clean_from w t now p [] l = refl
count_pattern-clean_from w t now p (q ∷ qs) l =
    let rest : count_pattern w now p (clean_from w t qs) ≡ count_pattern w now p qs =
      count_pattern-clean_from w t now p qs l in
    elim (Bool-cases (within (w * 2) t q.timestamp)) [
      | inl e ↦
          rw e
            (λ i. if within w now q.timestamp && bytes_eq q.pattern p then suc (rest i) else rest i)
      | inr e ↦ let old : within w now q.timestamp ≡ false = ground arith in rw e (rw old rest)
    ]

-- A call of Record.
pub record Call : Type 0 where
  pub now : ℕ
  pub query : Bytes
  pub file : Bytes
  pub line : ℕ

module _ (text : Text) (c : N1DetectorConfig) where
  -- What record_query adds.
  abbrev added : ℕ → Bytes → Bytes → Bytes → ℕ → QueryRecord
  added now pattern query file line = record {
    pattern = pattern;
    query = query;
    timestamp = now;
    caller = file;
    line = line;
  }

  abbrev pub record_of : Call → QueryRecord
  record_of call =
      added call.now (text.normalize call.query) call.query
        (if c.include_stack_trace then call.file else [])
        (if c.include_stack_trace then call.line else 0)

  -- The record of a call, if it is not left out.
  abbrev pub recorded_of : Call → List QueryRecord
  recorded_of call =
      if not c.enabled
      then []
      else if is_excluded text call.query c.exclude_patterns
      then []
      else record_of call ∷ []

  -- All records of a list of calls, with none cleaned away.
  abbrev pub recorded : List Call → List QueryRecord
  recorded [] = []
  recorded (call ∷ calls) = recorded_of call ++ recorded calls

  abbrev pub run_calls : List Call → N1Detector → N1Detector
  run_calls [] d = d
  run_calls (call ∷ calls) d =
      run_calls calls (record_call text call.now call.query call.file call.line d).0

  -- The clock does not go back.
  abbrev pub Forward : ℕ → List Call → Type 0
  Forward t [] = Unit
  Forward t (call ∷ calls) = (t ≤ call.now) × Forward call.now calls

  abbrev pub last_time : ℕ → List Call → ℕ
  last_time t [] = t
  last_time t (call ∷ calls) = last_time call.now calls

  -- The detector counts, from time t on, as if it had kept every record.
  record Keeps (w n t : ℕ) (all : List QueryRecord) (d : N1Detector) : Type 0 where
    config : d.config ≡ c
    window : d.window ≡ w
    threshold : d.threshold ≡ n
    counts :
        (p : Bytes) (now : ℕ)
        → t ≤ now
        → count_pattern w now p d.queries ≡ count_pattern w now p all

  -- The detector as Record leaves it before it adds the query.
  abbrev cleaned : ℕ → N1Detector → N1Detector
  cleaned now d =
      if ltb (d.window * 10 + d.last_clean) now
      then record (clean_old_queries now d) { last_clean = now }
      else d

  cleaned-Keeps :
      (w n t now : ℕ) (all : List QueryRecord) (d : N1Detector)
      → Keeps w n t all d
      → t ≤ now
      → Keeps w n now all (cleaned now d)
  unfolding clean_old_queries
  cleaned-Keeps w n t now all d k l = elim (Bool-cases (ltb (d.window * 10 + d.last_clean) now)) [
    | inl e ↦ rw e (record {
      config = k.config;
      window = k.window;
      threshold = k.threshold;
      counts = λ p later m.
          (λ i. count_pattern w later p (clean_from (k.window i) now d.queries))
          ∙ count_pattern-clean_from w now later p d.queries m
          ∙ k.counts p later (omega arith);
    })
    | inr e ↦ rw e (record {
      config = k.config;
      window = k.window;
      threshold = k.threshold;
      counts = λ p later m. k.counts p later (omega arith);
    })
  ]

  snoc-Keeps :
      (w n t : ℕ) (all : List QueryRecord) (d d' : N1Detector) (q : QueryRecord)
      → Keeps w n t all d
      → d'.config ≡ d.config
      → d'.window ≡ d.window
      → d'.threshold ≡ d.threshold
      → d'.queries ≡ d.queries ++ (q ∷ [])
      → Keeps w n t (all ++ (q ∷ [])) d'
  snoc-Keeps w n t all d d' q k a b e f = record {
    config = a ∙ k.config;
    window = b ∙ k.window;
    threshold = e ∙ k.threshold;
    counts = λ p now l.
        (λ i. count_pattern w now p (f i))
        ∙ count_pattern-append w now p d.queries (q ∷ [])
        ∙ (λ i. k.counts p now l i + count_pattern w now p (q ∷ []))
        ∙ sym (count_pattern-append w now p all (q ∷ []));
  }

  abbrev count_after : ℕ → Bytes → Bytes → Bytes → ℕ → N1Detector → ℕ
  count_after now pattern query file line d =
      count_pattern d.window now pattern
        ((cleaned now d).queries ++ (added now pattern query file line ∷ []))

  record_query-Keeps :
      (w n t now : ℕ) (all : List QueryRecord) (d : N1Detector) (pattern query file : Bytes)
      (line : ℕ)
      → Keeps w n t all d
      → t ≤ now
      → Keeps w n now
          (all ++ (added now pattern query file line ∷ []))
          (record_query text now pattern query file line d).0
  unfolding record_query
  record_query-Keeps w n t now all d pattern query file line k l =
      elim (Bool-cases (leb d.threshold (count_after now pattern query file line d))) [
        | inl e ↦
            rw (e, record_query)
              (snoc-Keeps w n now all (cleaned now d) _ (added now pattern query file line)
                (cleaned-Keeps w n t now all d k l) refl refl refl refl)
        | inr e ↦
            rw (e, record_query)
              (snoc-Keeps w n now all (cleaned now d) _ (added now pattern query file line)
                (cleaned-Keeps w n t now all d k l) refl refl refl refl)
      ]

  record_query_alert :
      (w n t now : ℕ) (all : List QueryRecord) (d : N1Detector) (pattern query file : Bytes)
      (line : ℕ)
      → Keeps w n t all d
      → t ≤ now
      → is_some (record_query text now pattern query file line d).1 ≡ (
          c.on_detection
          && (count_pattern w now pattern (all ++ (added now pattern query file line ∷ [])) == n))
  unfolding record_query
  record_query_alert w n t now all d pattern query file line k l =
      let q : QueryRecord = added now pattern query file line in
      let m : ℕ = count_after now pattern query file line d in
      let kept = cleaned-Keeps w n t now all d k l in
      let exact : m ≡ count_pattern w now pattern (all ++ (q ∷ [])) =
        (λ i. count_pattern (k.window i) now pattern ((cleaned now d).queries ++ (q ∷ [])))
        ∙ count_pattern-append w now pattern (cleaned now d).queries (q ∷ [])
        ∙ (λ i. kept.counts pattern now (omega arith) i + count_pattern w now pattern (q ∷ []))
        ∙ sym (count_pattern-append w now pattern all (q ∷ [])) in
      let said : (d.config.on_detection && (m == d.threshold))
          ≡ (c.on_detection && (count_pattern w now pattern (all ++ (q ∷ [])) == n)) =
        λ i. (k.config i).on_detection && (exact i == k.threshold i) in
      elim (Bool-cases (leb d.threshold m)) [
        | inl e ↦ elim (Bool-cases (d.config.on_detection && (m == d.threshold))) [
          | inl f ↦ rw (e, record_query) (rw (f, record_query) (sym f ∙ said))
          | inr f ↦ rw (e, record_query) (rw (f, record_query) (sym f ∙ said))
        ]
        | inr e ↦
            let no : (d.config.on_detection && (m == d.threshold)) ≡ false =
              ground (arith, ==_iff m d.threshold) in
            rw (e, record_query) (sym no ∙ said)
      ]

  -- Whether a call is recorded.
  abbrev pub is_recorded : Call → Bool
  is_recorded call = c.enabled && not (is_excluded text call.query c.exclude_patterns)

  abbrev pub after_call : Call → N1Detector → N1Detector × Option N1Detection
  after_call call d = record_call text call.now call.query call.file call.line d

  -- A call that is recorded, and one that is not.
  record_call_cases :
      (call : Call) (d : N1Detector)
      → d.config ≡ c
      → ((is_recorded call ≡ true)
          × (after_call call d
              ≡ record_query text call.now
                  (text.normalize call.query)
                  call.query
                  (if c.include_stack_trace then call.file else [])
                  (if c.include_stack_trace then call.line else 0)
                  d))
        ⊎ ((is_recorded call ≡ false) × (after_call call d ≡ (d, none)))
  unfolding record_call
  record_call_cases call d e = elim (Bool-cases c.enabled) [
    | inr off ↦ inr (rw off refl, (λ i. sorted_out (e i) call d) ∙ rw (off, sorted_out) refl)
    | inl on ↦ elim (Bool-cases (is_excluded text call.query c.exclude_patterns)) [
      | inl out ↦ inr (
        rw (on, out) refl,
        (λ i. sorted_out (e i) call d) ∙ rw (on, sorted_out) (rw (out, sorted_out) refl),
      )
      | inr kept ↦ inl (
        rw (on, kept) refl,
        (λ i. sorted_out (e i) call d) ∙ rw (on, sorted_out) (rw (kept, sorted_out) refl),
      )
    ]
  ]
    where
      sorted_out : N1DetectorConfig → Call → N1Detector → N1Detector × Option N1Detection
      sorted_out conf call d =
          if not conf.enabled
          then (d, none)
          else if is_excluded text call.query conf.exclude_patterns
          then (d, none)
          else record_query text call.now (text.normalize call.query) call.query
              (if conf.include_stack_trace then call.file else [])
              (if conf.include_stack_trace then call.line else 0) d

  recorded_of_kept :
      (call : Call) → is_recorded call ≡ true → recorded_of call ≡ record_of call ∷ []
  recorded_of_kept call e = ground arith

  recorded_of_left : (call : Call) → is_recorded call ≡ false → recorded_of call ≡ []
  recorded_of_left call e = ground arith

  record_call-Keeps :
      (w n t : ℕ) (all : List QueryRecord) (d : N1Detector) (call : Call)
      → Keeps w n t all d
      → t ≤ call.now
      → Keeps w n call.now (all ++ recorded_of call) (after_call call d).0
  record_call-Keeps w n t all d call k l = elim (record_call_cases call d k.config) [
    | inl (e, run) ↦
        subst (λ qs. Keeps w n call.now (all ++ qs) (after_call call d).0)
          (sym (recorded_of_kept call e))
          (subst
            (λ (x : N1Detector × Option N1Detection).
              Keeps w n call.now (all ++ (record_of call ∷ [])) x.0)
            (sym run)
            (record_query-Keeps w n t call.now all d (text.normalize call.query) call.query
              (if c.include_stack_trace then call.file else [])
              (if c.include_stack_trace then call.line else 0) k l))
    | inr (e, run) ↦
        subst (λ qs. Keeps w n call.now (all ++ qs) (after_call call d).0)
          (sym (recorded_of_left call e))
          (subst (λ (x : N1Detector × Option N1Detection). Keeps w n call.now (all ++ []) x.0)
            (sym run)
            (record {
              config = k.config;
              window = k.window;
              threshold = k.threshold;
              counts = λ p now m.
                  k.counts p now (omega arith)
                  ∙ (λ i. count_pattern w now p (sym (append-nil all) i));
            }))
  ]

  run_calls-Keeps :
      (w n t : ℕ) (all : List QueryRecord) (d : N1Detector) (calls : List Call)
      → Keeps w n t all d
      → Forward t calls
      → Keeps w n (last_time t calls) (all ++ recorded calls) (run_calls calls d)
  run_calls-Keeps w n t all d [] k f = subst (λ qs. Keeps w n t qs d) (sym (append-nil all)) k
  run_calls-Keeps w n t all d (call ∷ calls) k f =
      subst (λ qs. Keeps w n (last_time call.now calls) qs (run_calls calls (after_call call d).0))
        (append_assoc all (recorded_of call) (recorded calls))
        (run_calls-Keeps w n call.now (all ++ recorded_of call) (after_call call d).0 calls
          (record_call-Keeps w n t all d call k f.0) f.1)

  new-Keeps :
      (start : ℕ)
      → Keeps
          (new_n1_detector c start).window
          (new_n1_detector c start).threshold
          start
          []
          (new_n1_detector c start)
  unfolding new_n1_detector
  new-Keeps start = record {
    config = refl;
    window = refl;
    threshold = refl;
    counts = λ p now l. refl;
  }

  -- After any calls of Record on a new detector, with a clock that does not go back, a call notifies
  -- OnDetection exactly when it is recorded and the queries of its pattern within the window, itself
  -- included and counted over all that were ever recorded, are as many as the threshold: the cleaning of
  -- old queries makes no difference.
  pub record_call_lem :
      (start : ℕ) (calls : List Call) (call : Call)
      → Forward start calls
      → last_time start calls ≤ call.now
      → is_some (after_call call (run_calls calls (new_n1_detector c start))).1 ≡ (
          is_recorded call
          && (c.on_detection
              && (count_pattern
                    (new_n1_detector c start).window
                    call.now
                    (text.normalize call.query)
                    (recorded calls ++ (record_of call ∷ []))
                  == (new_n1_detector c start).threshold)))
  record_call_lem start calls call f l =
      let new : N1Detector = new_n1_detector c start in
      let d : N1Detector = run_calls calls new in
      let k = run_calls-Keeps new.window new.threshold start [] new calls (new-Keeps start) f in
      elim (record_call_cases call d k.config) [
        | inl (e, run) ↦ rw e (
            (λ i. is_some (run i).1)
            ∙ record_query_alert new.window new.threshold (last_time start calls) call.now
                (recorded calls) d (text.normalize call.query) call.query
                (if c.include_stack_trace then call.file else [])
                (if c.include_stack_trace then call.line else 0) k l)
        | inr (e, run) ↦ rw e (λ i. is_some (run i).1)
      ]
