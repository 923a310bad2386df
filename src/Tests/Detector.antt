-- ===== src/Tests/Detector.antt =====
-- query/n1detector.go: three queries of one pattern, with a threshold of two.
use genus.Prelude.{ℕ, ◌≡◌, true, false, ◌&&◌, List, [], ◌∷◌, ◌++◌, arith, ◌==◌, pos, codes}
use genus.Prelude.Dict.{is_some}
use genus.Query.Detector.{N1DetectorConfig, Text, new_n1_detector, count_pattern}
use genus.Query.Detector.Window.{
  Call, run_calls, after_call, is_recorded, recorded, record_of, record_call_lem,
}

abbrev config : N1DetectorConfig
config = record {
  enabled = true;
  threshold = pos 2;
  time_window = pos 100;
  on_detection = true;
  include_stack_trace = false;
  exclude_patterns = [];
}

abbrev text : Text
text = record { lower = λ s. s; contains = λ s t. false; normalize = λ s. s }

abbrev call_at : ℕ → Call
call_at now = record { now = now; query = codes "q"; file = []; line = 0 }

-- The first is older than ten windows at the last.
abbrev calls : List Call
calls = call_at 5 ∷ call_at 1190 ∷ []

record_call_lem_example :
    is_some
      (after_call text config
        (call_at 1200)
        (run_calls text config calls (new_n1_detector config 0))).1
    ≡ (is_recorded text config (call_at 1200)
        && (true
            && (count_pattern
                  (new_n1_detector config 0).window
                  1200
                  (codes "q")
                  (recorded text config calls ++ (record_of text config (call_at 1200) ∷ []))
                == (new_n1_detector config 0).threshold)))
record_call_lem_example =
    record_call_lem text config 0 calls (call_at 1200) (ground arith, (ground arith, tt))
      (ground arith)
