-- ===== src/Line.antt =====
-- pkg/line/line.go: `buildEvent` and `Parser.LineToEvents`. `none` is a panic.
pub mod Samples
mod Tests
use statsd_exporter.Base.{
  ℕ, zero, suc, ◌+◌, Bool, true, false, not, ◌&&◌, ◌||◌, Option, none, some, List, [], ◌∷◌, ◌++◌,
  map, Bytes, bytes_eq, codes, contains, split, leb, ◌==◌, if◌then◌else◌, length, Dict,
}
use statsd_exporter.Utf8.{valid_string}
use statsd_exporter.Metric.{Event, counter_event, gauge_event, observer_event}
use statsd_exporter.Tags.{Parser, TagState, is_empty, parse_dogstatsd_tags, parse_name_and_tags}

-- What the code uses of `float64` and of `strconv.ParseFloat`. `parse_float` returns a number also
-- where it reports an error (the flag). `rounds x` is the number of rounds of
-- `for i := 0; i < int(x); i++`.
pub record Floats (F : Type 0) : Type 0 where
  pub parse_float : Bytes → F × Bool
  pub divide : F → F → F
  pub is_zero : F → Bool
  pub one : F
  pub thousand : F
  pub rounds : F → ℕ

-- The label values of the counter `sampleErrors`.
pub data Reason : Type 0 where
  malformed_line mixed_tagging_styles not_enough_parts_after_colon invalid_extended_aggregate_type
        malformed_component malformed_value invalid_sample_factor illegal_event :
      Reason

-- All events of a line hold the one map `labels` of the line, so they carry no map of their own.
pub data SharedLabels : Type 0 where
  of_line : SharedLabels

-- What parsing a line returns and changes: the events with the map that they share, the increments
-- of `sampleErrors` in order, and those of the three other counters.
pub record Parsed (F : Type 0) : Type 0 where
  pub events : List (Event F SharedLabels)
  pub sample_errors : List Reason
  pub samples_received : ℕ
  pub tags : TagState
  pub tags_received : ℕ

abbrev pub no_tags : TagState
no_tags = record { labels = []; tag_errors = 0 }

module _ {F : Type 0} where
  abbrev pub no_events : Parsed F
  no_events = record {
    events = [];
    sample_errors = [];
    samples_received = 0;
    tags = no_tags;
    tags_received = 0;
  }

  abbrev pub sample_error : Reason → Parsed F → Parsed F
  sample_error r s = record s { sample_errors = s.sample_errors ++ r ∷ [] }

-- `strings.SplitN(s, string(c), n)` for a positive `n`.
abbrev pub cut : ℕ → Bytes → Option (Bytes × Bytes)
cut c [] = none
cut c (b ∷ s) =
    if b == c
    then some ([], s)
    else (elim (cut c s) [ none ↦ none | some (x, y) ↦ some (b ∷ x, y) ])

abbrev pub split_n : ℕ → ℕ → Bytes → List Bytes
split_n c zero s = []
split_n c (suc zero) s = s ∷ []
split_n c (suc (suc n)) s = elim (cut c s) [ none ↦ s ∷ [] | some (x, y) ↦ x ∷ split_n c (suc n) y ]

-- `strings.Contains(s, "|#")`.
abbrev pub has_tag_section : Bytes → Bool
has_tag_section [] = false
has_tag_section (b ∷ []) = false
has_tag_section (b ∷ c ∷ s) = b == b'|' && c == b'#' || has_tag_section (c ∷ s)

abbrev pub is_agg_type : Bytes → Bool
is_agg_type t = bytes_eq t (codes "ms") || bytes_eq t (codes "h") || bytes_eq t (codes "d")

-- `+` or `-` in front.
abbrev pub is_relative : Bytes → Bool
is_relative [] = false
is_relative (c ∷ s) = c == b'+' || c == b'-'

abbrev pub any_empty : List Bytes → Bool
any_empty [] = false
any_empty (c ∷ cs) = is_empty c || any_empty cs

abbrev pub has_labels : TagState → Bool
has_labels t = leb 1 (length t.labels)

module _ {F : Type 0} (floats : Floats F) where
  -- `none` is the error.
  unfoldable pub build_event : Bytes → Bytes → F → Bool → Option (Event F SharedLabels)
  build_event stat_type metric value relative =
      if bytes_eq stat_type (codes "c")
      then some (counter_event metric value of_line)
      else if bytes_eq stat_type (codes "g")
      then some (gauge_event metric value relative of_line)
      else if bytes_eq stat_type (codes "ms")
      then some (observer_event metric (floats.divide value floats.thousand) of_line)
      else if bytes_eq stat_type (codes "h") || bytes_eq stat_type (codes "d")
      then some (observer_event metric value of_line)
      else none

  -- The variables `value` and `multiplyEvents`, and what the line has changed so far.
  pub record Sample : Type 0 where
    pub value : F
    pub multiply_events : ℕ
    pub parsed : Parsed F

  -- A section `@factor` of a sample.
  abbrev pub sampling_factor : F → F
  sampling_factor f = if floats.is_zero f then floats.one else f

  abbrev pub apply_factor : Bytes → F → Sample → Sample
  apply_factor stat_type f s =
      if bytes_eq stat_type (codes "g")
      then s
      else if bytes_eq stat_type (codes "c")
      then record s { value = floats.divide s.value f }
      else if is_agg_type stat_type
      then record s { multiply_events = floats.rounds (floats.divide floats.one f) }
      else s

  abbrev pub sample_section_error : Bool → Sample → Sample
  sample_section_error bad s =
      if bad then record s { parsed = sample_error invalid_sample_factor s.parsed } else s

  abbrev pub with_tags : Sample → Option TagState → Option Sample
  with_tags s none = none
  with_tags s (some t) = some (record s { parsed = record s.parsed { tags = t } })

  -- One component behind the type of a sample.
  unfoldable pub parse_section : Parser → Bytes → Bytes → Sample → Option Sample
  parse_section p stat_type [] s = some s
  parse_section p stat_type (c ∷ section) s =
      if c == b'@'
      then some (
          apply_factor stat_type (sampling_factor (floats.parse_float section).0)
            (sample_section_error (floats.parse_float section).1 s))
      else if c == b'#'
      then with_tags s (parse_dogstatsd_tags p section s.parsed.tags)
      else some (sample_section_error true s)

  unfoldable pub parse_sections : Parser → Bytes → List Bytes → Option Sample → Option Sample
  unfolding parse_section
  parse_sections p stat_type cs none = none
  parse_sections p stat_type [] (some s) = some s
  parse_sections p stat_type (c ∷ cs) (some s) =
      parse_sections p stat_type cs (parse_section p stat_type c s)

  -- The loop that makes the events of a sample.
  abbrev pub add_event : Option (Event F SharedLabels) → Parsed F → Parsed F
  add_event none s = sample_error illegal_event s
  add_event (some e) s = record s { events = s.events ++ e ∷ [] }

  unfoldable pub add_events : ℕ → Option (Event F SharedLabels) → Parsed F → Parsed F
  add_events zero e s = s
  add_events (suc n) e s = add_events n e (add_event e s)

  abbrev pub count_tags : Parsed F → Parsed F
  count_tags s = if has_labels s.tags then record s { tags_received = s.tags_received + 1 } else s

  abbrev pub finish_sample : Bytes → Bytes → Bool → Option Sample → Option (Parsed F)
  finish_sample stat_type metric relative none = none
  finish_sample stat_type metric relative (some s) = some (
      add_events s.multiply_events (build_event stat_type metric s.value relative)
        (count_tags s.parsed))

  -- The components of a sample.
  unfoldable pub parse_components : Parser → Bytes → List Bytes → Parsed F → Option (Parsed F)
  unfolding parse_sections build_event add_events
  parse_components p metric [] s = some (sample_error malformed_component s)
  parse_components p metric (v ∷ []) s = some (sample_error malformed_component s)
  parse_components p metric (v ∷ t ∷ cs) s =
      if not (leb (length cs) 2)
      then some (sample_error malformed_component s)
      else if (floats.parse_float v).1
      then some (sample_error malformed_value s)
      else if any_empty cs
      then some (sample_error malformed_component s)
      else finish_sample t metric (is_relative v) (
          parse_sections p t cs
            (some (record { value = (floats.parse_float v).0; multiply_events = 1; parsed = s })))

  unfoldable pub parse_samples : Parser → Bytes → List Bytes → Option (Parsed F) → Option (Parsed F)
  unfolding parse_components
  parse_samples p metric samples none = none
  parse_samples p metric [] (some s) = some s
  parse_samples p metric (sample ∷ samples) (some s) = parse_samples p metric samples (
      parse_components p metric (split b'|' sample)
        (record s { samples_received = s.samples_received + 1 }))

  -- Extended aggregation: each value with the part of the line behind the first `|`.
  abbrev pub agg_samples : Bytes → Option (Bytes × Bytes) → List Bytes
  agg_samples values none = map (λ v. v ++ b'|' ∷ []) (split b':' values)
  agg_samples values (some (_, suffix)) = map (λ v. v ++ b'|' ∷ suffix) (split b':' values)

  -- The samples of a line, or why there are none.
  unfoldable pub line_samples : Bytes → List Bytes → Option (List Bytes)
  line_samples body [] = some []
  line_samples body (values ∷ []) = some []
  line_samples body (values ∷ stat_type ∷ more) =
      if contains b':' values
      then (if is_agg_type stat_type then some (agg_samples values (cut b'|' body)) else none)
      else if has_tag_section body
      then some (body ∷ [])
      else some (split b':' body)

  abbrev pub parse_line_samples :
      Parser → Bytes → Option (List Bytes) → Parsed F → Option (Parsed F)
  parse_line_samples p metric none s = some (sample_error invalid_extended_aggregate_type s)
  parse_line_samples p metric (some samples) s = parse_samples p metric samples (some s)

  -- The line behind its first colon.
  unfoldable pub parse_body : Parser → Bytes → Bytes → Parsed F → Option (Parsed F)
  unfolding parse_samples line_samples
  parse_body p metric body s =
      if has_tag_section body && has_labels s.tags
      then some (sample_error mixed_tagging_styles s)
      else if not (leb 2 (length (split_n b'|' 3 body)))
      then some (sample_error not_enough_parts_after_colon s)
      else parse_line_samples p metric (line_samples body (split_n b'|' 3 body)) s

  abbrev pub parse_named : Parser → Bytes → Option (Bytes × TagState) → Option (Parsed F)
  parse_named p body none = none
  parse_named p body (some (metric, t)) = parse_body p metric body (record no_events { tags = t })

  abbrev pub parse_elements : Parser → Bool → Option (Bytes × Bytes) → Option (Parsed F)
  parse_elements p valid none = some (sample_error malformed_line no_events)
  parse_elements p valid (some (name, body)) =
      if is_empty name || not valid
      then some (sample_error malformed_line no_events)
      else parse_named p body (parse_name_and_tags p name no_tags)

  unfoldable pub line_to_events : Parser → Bytes → Option (Parsed F)
  unfolding parse_body valid_string parse_name_and_tags
  line_to_events p line =
      if is_empty line then some no_events else parse_elements p (valid_string line) (cut b':' line)
