-- ===== src/Mapper/Load/Mapping.antt =====
-- One mapping of a configuration, checked and completed (pkg/mapper/mapper.go).
pub mod Steps
pub mod Whole
use statsd_exporter.Base.{
  ℕ, ◌+◌, ◌≡◌, ◌⊎◌, refl, sym, ap, ◌∙◌, subst, Bool, true, false, not, ◌&&◌, ◌||◌, Bool-cases, inl,
  inr, Option, none, some, List, [], ◌∷◌, map, Bytes, bytes_eq, ◌==◌, if◌then◌else◌, split, arith,
}
use statsd_exporter.Settings.{
  MatchType, ActionType, map_action, ObserverType, default_observer, histogram_observer,
  summary_observer,
}
use statsd_exporter.Template.{TemplateFormatter, new_template_formatter}
use statsd_exporter.Fsm.{
  Fsm, count_captures, Transitions, with_root, add_state, start_types, last_count, add_roots,
}
use statsd_exporter.Config.{MetricMapping, MapperConfigDefaults, observer_or, slice_length}
use statsd_exporter.Config.Patterns.{is_metric_line, is_metric_name}
use statsd_exporter.Mapper.{Regexps}
use statsd_exporter.Mapper.Load.{
  Result, ◌>>=◌, invalid_match, invalid_label_key, no_metric_name, invalid_metric_name,
  quantiles_twice, buckets_twice, histogram_with_summary_options, summary_with_histogram_options,
  Constants, is_there, or_default, or_slice, match_type_or, action_or, is_glob, all_label_names,
  is_cons, added, compiled, or_no_histogram, or_no_summary, has_quantiles, has_buckets,
  check_legacy, warn_if, Machine, metric_types, complete_options, type_text, place_glob,
  place_regex, place_mapping, load_mapping,
}
use statsd_exporter.Mapper.Load.Rules.{Ensures-added}
use statsd_exporter.Mapper.Load.Ensures.{
  Ensures, Ensures-bind, Ensures-require, Ensures-then, Ensures-required,
}

-- The first of some slices that has elements, or else the last.
abbrev pub first_filled {ℓ} : {A : Type ℓ} → List (Option (List A)) → Option (List A)
first_filled [] = none
first_filled (x ∷ []) = x
first_filled (x ∷ y ∷ rest) = if slice_length x == 0 then first_filled (y ∷ rest) else x

-- The first of some numbers that is not 0, or else the last.
abbrev pub first_set : List ℕ → ℕ
first_set [] = 0
first_set (n ∷ []) = n
first_set (n ∷ k ∷ rest) = if n == 0 then first_set (k ∷ rest) else n

module _ {F Re : Type 0} where
  -- A glob that its regular expression accepts, with the names of the labels, and formatters for the
  -- name and for the labels that know how many `*`s it has.
  abbrev pub IsGlobPlaced : MetricMapping F Re → Type 0
  IsGlobPlaced m =
      (is_metric_line m.match ≡ true)
      × (m.name_formatter
          ≡ some (new_template_formatter m.name (count_captures (split b'.' m.match))))
      × (m.label_keys ≡ map (λ e. e.0) m.labels)
      × (m.label_formatters
          ≡ map (λ e. new_template_formatter e.1 (count_captures (split b'.' m.match))) m.labels)

module _ {F Re Sub : Type 0} (constants : Constants F) (regexps : Regexps Re Sub)
    (d : MapperConfigDefaults F) where
  -- A match is a glob, or a regular expression that is compiled.
  abbrev pub IsPlaced : MetricMapping F Re → Type 0
  IsPlaced m =
      ((is_glob m.match_type ≡ true) × IsGlobPlaced m)
      ⊎ ((is_glob m.match_type ≡ false)
          × (re : Re) × (regexps.compile m.match ≡ some re)
          × (m.regex ≡ some re))

  -- The options of `m` for an observer type, which come of those of `raw` and of the defaults. The
  -- options of the other type are refused.
  abbrev pub HasOptions : MetricMapping F Re → ObserverType → MetricMapping F Re → Type 0
  HasOptions raw default_observer m =
      (m.summary_options ≡ raw.summary_options) × (m.histogram_options ≡ raw.histogram_options)
  HasOptions raw histogram_observer m =
      (is_there raw.summary_options ≡ false)
      × (m.summary_options ≡ raw.summary_options)
      × (m.histogram_options
          ≡ some (record (or_no_histogram constants raw.histogram_options) {
            buckets = first_filled (
                raw.legacy_buckets
                ∷ (or_no_histogram constants raw.histogram_options).buckets
                ∷ d.histogram_options.buckets
                ∷ []);
          }))
  HasOptions raw summary_observer m =
      (is_there raw.histogram_options ≡ false)
      × (m.histogram_options ≡ raw.histogram_options)
      × (m.summary_options
          ≡ some (record {
            quantiles = first_filled (
                raw.legacy_quantiles
                ∷ (or_no_summary raw.summary_options).quantiles
                ∷ d.summary_options.quantiles
                ∷ []);
            max_age =
                first_set
                  ((or_no_summary raw.summary_options).max_age ∷ d.summary_options.max_age ∷ []);
            age_buckets = first_set (
                (or_no_summary raw.summary_options).age_buckets
                ∷ d.summary_options.age_buckets
                ∷ []);
            buf_cap =
                first_set
                  ((or_no_summary raw.summary_options).buf_cap ∷ d.summary_options.buf_cap ∷ []);
          }))

  -- What `m` is to the mapping `raw` of the file.
  pub record IsChecked (raw m : MetricMapping F Re) : Type 0 where
    pub labels_named : all_label_names m.labels ≡ true
    pub has_name : is_cons m.name ≡ true
    pub name_checked : is_metric_name m.name ≡ true
    pub quantiles_once :
        (is_there raw.legacy_quantiles && has_quantiles raw.summary_options) ≡ false
    pub buckets_once : (is_there raw.legacy_buckets && has_buckets raw.histogram_options) ≡ false
    pub same_match : m.match ≡ raw.match
    pub same_metric_type : m.match_metric_type ≡ raw.match_metric_type
    pub same_name : m.name ≡ raw.name
    pub same_labels : m.labels ≡ raw.labels
    pub has_match_type : m.match_type ≡ match_type_or raw.match_type d.match_type
    pub has_action : m.action ≡ action_or raw.action map_action
    pub has_observer_type : m.observer_type ≡ observer_or raw.observer_type d.observer_type
    pub has_ttl : m.ttl ≡ first_set (raw.ttl ∷ d.ttl ∷ [])
    pub placed : IsPlaced m
    pub options : HasOptions raw (observer_or raw.observer_type d.observer_type) m

  -- The machine behind a mapping: `do_fsm` is set for a glob.
  abbrev pub Goes : Machine → Machine × MetricMapping F Re → Type 0
  Goes machine r =
      (r.0.fsm.metric_types ≡ metric_types)
      × (r.0.do_fsm ≡ (machine.do_fsm || is_glob r.1.match_type))

  abbrev pub Checked : MetricMapping F Re → Machine → Machine × MetricMapping F Re → Type 0
  Checked raw machine r = IsChecked raw r.1 × Goes machine r

  -- Placing sets four fields.
  abbrev pub Placed : MetricMapping F Re → Machine → Machine × MetricMapping F Re → Type 0
  Placed m machine r =
      IsPlaced r.1
      × (r.1 ≡ record m {
        name_formatter = r.1.name_formatter;
        regex = r.1.regex;
        label_keys = r.1.label_keys;
        label_formatters = r.1.label_formatters;
      })
      × Goes machine r

  -- Completing sets two fields.
  abbrev pub Completed : ObserverType → MetricMapping F Re → MetricMapping F Re → Type 0
  Completed t m done =
      HasOptions m t done
      × (done ≡ record m {
        summary_options = done.summary_options;
        histogram_options = done.histogram_options;
      })

  abbrev pub HasLegacyOnce : MetricMapping F Re → Type 0
  HasLegacyOnce m =
      ((is_there m.legacy_quantiles && has_quantiles m.summary_options) ≡ false)
      × ((is_there m.legacy_buckets && has_buckets m.histogram_options) ≡ false)
