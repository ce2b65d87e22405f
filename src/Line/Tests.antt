-- ===== src/Line/Tests.antt =====
-- Runs of pkg/line/line.go with whole numbers for floating-point numbers.
use statsd_exporter.Base.{
  ℕ, ◌+◌, ◌-◌, ◌*◌, ◌/◌, ◌≡◌, refl, Bool, true, false, ◌&&◌, List, [], ◌∷◌, Option, some, none,
  Bytes, codes, leb, ◌==◌, if◌then◌else◌,
}
use statsd_exporter.Metric.{Event, counter_event, gauge_event, observer_event}
use statsd_exporter.Tags.{
  Parser, TagState, new_parser, enable_dogstatsd_parsing, enable_signalfx_parsing,
}
use statsd_exporter.Utf8.{valid_string}
use statsd_exporter.Line.Samples.Parts.{IsName}
use statsd_exporter.Line.Samples.{PlainSample, IsPlain, line_to_events-print_samples}
use statsd_exporter.Line.{
  Floats, Parsed, Reason, malformed_line, malformed_value, SharedLabels, of_line, no_tags,
  build_event, line_to_events,
}

abbrev digits : ℕ → Bytes → ℕ × Bool
digits n [] = (n, false)
digits n (c ∷ s) = if leb b'0' c && leb c b'9' then digits (n * 10 + (c - b'0')) s else (0, true)

abbrev whole : Floats ℕ
whole = record {
  parse_float = λ s. digits 0 s;
  divide = λ x y. x / y;
  is_zero = λ x. x == 0;
  one = 1;
  thousand = 1000;
  rounds = λ x. x;
}

abbrev tagged : Parser
tagged = enable_dogstatsd_parsing (enable_signalfx_parsing new_parser)

abbrev outcome : Option (Parsed ℕ) → Option (List (Event ℕ SharedLabels) × List Reason × TagState)
outcome none = none
outcome (some s) = some (s.events, s.sample_errors, s.tags)

two_samples_run :
    outcome (line_to_events whole tagged (codes "a:1|c:x|c:3|g"))
    ≡ some (
      counter_event (codes "a") 1 of_line ∷ gauge_event (codes "a") 3 false of_line ∷ [],
      malformed_value ∷ [],
      record { labels = []; tag_errors = 0 },
    )
unfolding line_to_events
two_samples_run = refl

tags_run :
    outcome (line_to_events whole tagged (codes "a:1:2000|ms|#t:v,u"))
    ≡ some (
      observer_event (codes "a") 0 of_line ∷ observer_event (codes "a") 2 of_line ∷ [],
      [],
      record { labels = (codes "t", codes "v") ∷ []; tag_errors = 2 },
    )
unfolding line_to_events statsd_exporter.Tags.parse_dogstatsd_tags
    statsd_exporter.Escape.escape_metric_name
tags_run = refl

-- Brackets in the wrong order stop the program.
brackets_run : line_to_events whole tagged (codes "]a[:1|c") ≡ none
unfolding line_to_events
brackets_run = refl

malformed_run :
    outcome (line_to_events whole tagged (codes ":1|c"))
    ≡ some ([], malformed_line ∷ [], record { labels = []; tag_errors = 0 })
unfolding line_to_events
malformed_run = refl

-- "a:1|c:x|c"
abbrev good_sample : PlainSample
good_sample = record { value = codes "1"; stat_type = codes "c" }

abbrev bad_sample : PlainSample
bad_sample = record { value = codes "x"; stat_type = codes "c" }

good_sample-IsPlain : IsPlain good_sample
good_sample-IsPlain = record {
  value_colon = refl;
  value_bar = refl;
  type_colon = refl;
  type_bar = refl;
}

bad_sample-IsPlain : IsPlain bad_sample
bad_sample-IsPlain = record {
  value_colon = refl;
  value_bar = refl;
  type_colon = refl;
  type_bar = refl;
}

a_is_plain : IsName (codes "a")
a_is_plain = record {
  no_open = refl;
  no_close = refl;
  no_hash = refl;
  no_comma = refl;
  no_colon = refl;
}

plain_line_valid : valid_string (codes "a:1|c:x|c") ≡ true
unfolding valid_string
plain_line_valid = refl

line_to_events-print_samples_example :
    line_to_events whole tagged (codes "a:1|c:x|c")
    ≡ some (record {
      events = counter_event (codes "a") 1 of_line ∷ [];
      sample_errors = malformed_value ∷ [];
      samples_received = 2;
      tags = no_tags;
      tags_received = 0;
    })
unfolding build_event
line_to_events-print_samples_example =
    line_to_events-print_samples whole tagged b'a' [] good_sample (bad_sample ∷ []) a_is_plain
      good_sample-IsPlain (bad_sample-IsPlain, tt) refl plain_line_valid
