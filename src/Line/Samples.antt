-- ===== src/Line/Samples.antt =====
-- Lines without tags and sampling factors (pkg/line/line.go): what comes of each sample.
pub mod Parts
use statsd_exporter.Base.{
  ℕ, zero, suc, ◌+◌, ◌<◌, ◌≡◌, refl, sym, ap, ◌∙◌, Bool, true, false, not, ◌&&◌, ◌||◌, Bool-cases,
  inl, inr, Option, none, some, List, [], ◌∷◌, ◌++◌, map, append_assoc, append-nil, Bytes, contains,
  contains-append, split-append, split_whole, split, leb, ◌==◌, if◌then◌else◌, length, All, arith,
}
use statsd_exporter.Utf8.{valid_string}
use statsd_exporter.Metric.{Event}
use statsd_exporter.Tags.{Parser, TagState, is_empty, parse_name_and_tags}
use statsd_exporter.Line.Samples.Parts.{
  split_n-cons, split_n-cut, IsName, cut-append, parse_name_and_tags-plain,
}
use statsd_exporter.Line.{
  Floats, Parsed, Reason, malformed_value, illegal_event, SharedLabels, no_tags, no_events, cut,
  split_n, has_tag_section, has_labels, is_relative, build_event, line_samples, parse_components,
  parse_samples, parse_body, line_to_events,
}

-- `value|type`, with neither tags nor a sampling factor.
pub record PlainSample : Type 0 where
  pub value : Bytes
  pub stat_type : Bytes

abbrev pub print_sample : PlainSample → Bytes
print_sample s = s.value ++ b'|' ∷ s.stat_type

abbrev pub print_samples : PlainSample → List PlainSample → Bytes
print_samples s [] = print_sample s
print_samples s (u ∷ us) = print_sample s ++ b':' ∷ print_samples u us

-- The separators of a line are not in the parts of a sample.
pub record IsPlain (s : PlainSample) : Type 0 where
  pub value_colon : contains b':' s.value ≡ false
  pub value_bar : contains b'|' s.value ≡ false
  pub type_colon : contains b':' s.stat_type ≡ false
  pub type_bar : contains b'|' s.stat_type ≡ false

module _ {ℓ} {A : Type ℓ} where
  -- The elements behind an optional first one.
  abbrev pub add_some : Option A → List A → List A
  add_some none xs = xs
  add_some (some x) xs = x ∷ xs

  append-add_some :
      (xs ys : List A) (o : Option A) → (xs ++ add_some o []) ++ ys ≡ xs ++ add_some o ys
  append-add_some xs ys none = append_assoc xs [] ys
  append-add_some xs ys (some x) = append_assoc xs (x ∷ []) ys

module _ {F : Type 0} (floats : Floats F) where
  -- The event of a sample, if its value is a number and its type one that has events.
  abbrev pub sample_event : Bytes → PlainSample → Option (Event F SharedLabels)
  sample_event metric s =
      if (floats.parse_float s.value).1
      then none
      else build_event floats s.stat_type metric (floats.parse_float s.value).0
          (is_relative s.value)

  -- Why a sample has none.
  abbrev pub sample_reason : Option (Event F SharedLabels) → Bool → Option Reason
  sample_reason (some e) bad = none
  sample_reason none bad = some (if bad then malformed_value else illegal_event)

  abbrev pub sample_events : Bytes → List PlainSample → List (Event F SharedLabels)
  sample_events metric [] = []
  sample_events metric (s ∷ ss) = add_some (sample_event metric s) (sample_events metric ss)

  abbrev pub sample_reasons : Bytes → List PlainSample → List Reason
  sample_reasons metric [] = []
  sample_reasons metric (s ∷ ss) =
      add_some (sample_reason (sample_event metric s) (floats.parse_float s.value).1)
        (sample_reasons metric ss)

  -- `a` with what the samples `ss` add.
  abbrev pub with_samples : Bytes → List PlainSample → Parsed F → Parsed F
  with_samples metric ss a = record a {
    events = a.events ++ sample_events metric ss;
    sample_errors = a.sample_errors ++ sample_reasons metric ss;
    samples_received = a.samples_received + length ss;
  }

  split-print_sample :
      (s : PlainSample) → IsPlain s → split b'|' (print_sample s) ≡ s.value ∷ s.stat_type ∷ []
  split-print_sample s ok =
      split-append b'|' s.value s.stat_type ok.value_bar
      ∙ ap (λ z. s.value ∷ z) (split_whole b'|' s.stat_type ok.type_bar)

  parse_components-plain :
      (p : Parser) (metric : Bytes) (s : PlainSample) (a : Parsed F)
      → has_labels a.tags ≡ false
      → parse_components floats p metric
          (s.value ∷ s.stat_type ∷ [])
          (record a { samples_received = a.samples_received + 1 })
        ≡ some (with_samples metric (s ∷ []) a)
  unfolding parse_components
  parse_components-plain p metric s a untagged =
      ground (arith, append-nil a.events, append-nil a.sample_errors)

  with_samples-cons :
      (metric : Bytes) (s : PlainSample) (ss : List PlainSample) (a : Parsed F)
      → with_samples metric ss (with_samples metric (s ∷ []) a) ≡ with_samples metric (s ∷ ss) a
  with_samples-cons metric s ss a =
      rw
        (
          append-add_some a.events (sample_events metric ss) (sample_event metric s),
          append-add_some a.sample_errors (sample_reasons metric ss)
              (sample_reason (sample_event metric s) (floats.parse_float s.value).1),
        )
        (ground arith)

  parse_samples-plain :
      (p : Parser) (metric : Bytes) (ss : List PlainSample) (a : Parsed F)
      → has_labels a.tags ≡ false
      → All IsPlain ss
      → parse_samples floats p metric (map print_sample ss) (some a)
        ≡ some (with_samples metric ss a)
  unfolding parse_samples
  parse_samples-plain p metric [] a untagged plain =
      ground (arith, append-nil a.events, append-nil a.sample_errors)
  parse_samples-plain p metric (s ∷ ss) a untagged (ok, plain) =
      ap
        (λ parts. parse_samples floats p metric (map print_sample ss) (
          parse_components floats p metric parts
            (record a { samples_received = a.samples_received + 1 })))
        (split-print_sample s ok)
      ∙ ap (parse_samples floats p metric (map print_sample ss))
          (parse_components-plain p metric s a untagged)
      ∙ parse_samples-plain p metric ss (with_samples metric (s ∷ []) a) untagged plain
      ∙ ap some (with_samples-cons metric s ss a)

  contains-print_sample : (s : PlainSample) → IsPlain s → contains b':' (print_sample s) ≡ false
  contains-print_sample s ok =
      contains-append b':' s.value (b'|' ∷ s.stat_type) ok.value_colon ok.type_colon

  split-print_samples :
      (s : PlainSample) (ss : List PlainSample)
      → IsPlain s
      → All IsPlain ss
      → split b':' (print_samples s ss) ≡ map print_sample (s ∷ ss)
  split-print_samples s [] ok plain = split_whole b':' (print_sample s) (contains-print_sample s ok)
  split-print_samples s (u ∷ us) ok (good, plain) =
      split-append b':' (print_sample s) (print_samples u us) (contains-print_sample s ok)
      ∙ ap (λ z. print_sample s ∷ z) (split-print_samples u us good plain)

  -- The first `|` of the samples ends the first value.
  abbrev behind_value : PlainSample → List PlainSample → Bytes
  behind_value s [] = s.stat_type
  behind_value s (u ∷ us) = s.stat_type ++ b':' ∷ print_samples u us

  print_samples-value :
      (s : PlainSample) (ss : List PlainSample)
      → print_samples s ss ≡ s.value ++ b'|' ∷ behind_value s ss
  print_samples-value s [] = refl
  print_samples-value s (u ∷ us) =
      append_assoc s.value (b'|' ∷ s.stat_type) (b':' ∷ print_samples u us)

  -- What `SplitN` makes of the samples: the first value and at least one more part.
  split_n-print_samples :
      (s : PlainSample) (ss : List PlainSample)
      → IsPlain s
      → (x : Bytes) × (more : List Bytes) × (split_n b'|' 3 (print_samples s ss)
          ≡ s.value ∷ x ∷ more)
  split_n-print_samples s ss ok =
      let first =
        ap (cut b'|') (print_samples-value s ss)
        ∙ cut-append b'|' s.value (behind_value s ss) ok.value_bar in
      let (x, more, parts) = split_n-cons b'|' (behind_value s ss) in
      (x, more, split_n-cut b'|' 1 (print_samples s ss) first ∙ ap (λ z. s.value ∷ z) parts)

  parse_body-plain :
      (p : Parser) (metric : Bytes) (s : PlainSample) (ss : List PlainSample) (a : Parsed F)
      → has_labels a.tags ≡ false
      → IsPlain s
      → All IsPlain ss
      → has_tag_section (print_samples s ss) ≡ false
      → parse_body floats p metric (print_samples s ss) a ≡ some (with_samples metric (s ∷ ss) a)
  unfolding parse_body line_samples
  parse_body-plain p metric s ss a untagged ok plain no_section =
      let (x, more, parts) = split_n-print_samples s ss ok in
      let enough : leb 2 (length (s.value ∷ x ∷ more)) ≡ true = ground arith in
      rw (parts, enough, ok.value_colon, split-print_samples s ss ok plain, no_section)
        (parse_samples-plain p metric (s ∷ ss) a untagged (ok, plain))

  -- A line of a name and samples, without tags and sampling factors, is parsed into the events of its
  -- samples, in order: a sample whose value is no number or whose type has no events is left out and
  -- its reason counted, every sample is counted as received, and no tag is seen. The name, the values
  -- and the types are free of the separators, the name is not empty, the samples have no `|#`, and the
  -- line is valid UTF-8.
  pub line_to_events-print_samples :
      (p : Parser) (c : ℕ) (cs : Bytes) (s : PlainSample) (ss : List PlainSample)
      → IsName (c ∷ cs)
      → IsPlain s
      → All IsPlain ss
      → has_tag_section (print_samples s ss) ≡ false
      → valid_string ((c ∷ cs) ++ b':' ∷ print_samples s ss) ≡ true
      → line_to_events floats p ((c ∷ cs) ++ b':' ∷ print_samples s ss)
        ≡ some (record {
          events = sample_events (c ∷ cs) (s ∷ ss);
          sample_errors = sample_reasons (c ∷ cs) (s ∷ ss);
          samples_received = suc (length ss);
          tags = no_tags;
          tags_received = 0;
        })
  unfolding line_to_events
  line_to_events-print_samples p c cs s ss name ok plain no_section valid =
      rw
        (
          valid,
          cut-append b':' (c ∷ cs) (print_samples s ss) name.no_colon,
          parse_name_and_tags-plain p (c ∷ cs) no_tags name,
        )
        (parse_body-plain p (c ∷ cs) s ss no_events refl ok plain no_section
          ∙ ap some (ground arith))
