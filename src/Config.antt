-- ===== src/Config.antt =====
-- The configuration of mappings: the structs of pkg/mapper/mapper.go, mapping.go and
-- mapper_defaults.go with their UnmarshalYAML, and the regular expressions for names. `F` is the type of
-- floating-point numbers and `Re` that of compiled regular expressions. Durations are not negative.
pub mod Patterns
use statsd_exporter.Base.{
  ℕ, ◌+◌, Bool, true, false, not, ◌&&◌, ◌||◌, Option, none, some, List, [], ◌∷◌, Bytes, ◌==◌,
  if◌then◌else◌, length, Dict,
}
use statsd_exporter.Metric.{MetricType}
use statsd_exporter.Settings.{
  MatchType, default_match, ActionType, ObserverType, default_observer, histogram_observer,
  summary_observer,
}
use statsd_exporter.Template.{TemplateFormatter}

pub record MetricObjective (F : Type 0) : Type 0 where
  pub quantile : F
  pub error : F

-- A slice that may be nil is an option; where only its length is read, nil is the empty list.
pub record SummaryOptions (F : Type 0) : Type 0 where
  pub quantiles : Option (List (MetricObjective F))
  pub max_age : ℕ
  pub age_buckets : ℕ
  pub buf_cap : ℕ

pub record HistogramOptions (F : Type 0) : Type 0 where
  pub buckets : Option (List F)
  pub native_histogram_bucket_factor : F
  pub native_histogram_max_buckets : ℕ

-- The empty word of a setting is its default constructor, or none for the metric type.
pub record MetricMapping (F Re : Type 0) : Type 0 where
  pub match : Bytes
  pub name : Bytes
  pub name_formatter : Option TemplateFormatter
  pub regex : Option Re
  pub labels : Dict Bytes Bytes
  pub honor_labels : Bool
  pub label_keys : List Bytes
  pub label_formatters : List TemplateFormatter
  pub observer_type : ObserverType
  pub timer_type : ObserverType
  pub legacy_buckets : Option (List F)
  pub legacy_quantiles : Option (List (MetricObjective F))
  pub match_type : MatchType
  pub help_text : Bytes
  pub action : ActionType
  pub match_metric_type : Option MetricType
  pub ttl : ℕ
  pub summary_options : Option (SummaryOptions F)
  pub histogram_options : Option (HistogramOptions F)
  pub scale : Option F

pub record MapperConfigDefaults (F : Type 0) : Type 0 where
  pub observer_type : ObserverType
  pub match_type : MatchType
  pub glob_disable_ordering : Bool
  pub ttl : ℕ
  pub summary_options : SummaryOptions F
  pub histogram_options : HistogramOptions F

-- `mapperConfigDefaultsAlias`, with the deprecated fields.
pub record MapperConfigDefaultsAlias (F : Type 0) : Type 0 where
  pub alias_observer_type : ObserverType
  pub alias_timer_type : ObserverType
  pub alias_buckets : Option (List F)
  pub alias_quantiles : Option (List (MetricObjective F))
  pub alias_match_type : MatchType
  pub alias_glob_disable_ordering : Bool
  pub alias_ttl : ℕ
  pub alias_summary_options : SummaryOptions F
  pub alias_histogram_options : HistogramOptions F

abbrev pub observer_or : ObserverType → ObserverType → ObserverType
observer_or default_observer t = t
observer_or histogram_observer t = histogram_observer
observer_or summary_observer t = summary_observer

-- `len` of a slice that may be nil.
abbrev pub slice_length {ℓ} : {A : Type ℓ} → Option (List A) → ℕ
slice_length none = 0
slice_length (some xs) = length xs

module _ {F Re : Type 0} where
  -- `MetricMapping.UnmarshalYAML` on what the YAML library decodes.
  unfoldable pub unmarshal_mapping : MetricMapping F Re → MetricMapping F Re
  unmarshal_mapping tmp = record tmp {
    name_formatter = none;
    regex = none;
    label_keys = [];
    label_formatters = [];
    observer_type = observer_or tmp.observer_type tmp.timer_type;
    timer_type = default_observer;
  }

module _ {F : Type 0} (zero_float : F) where
  abbrev pub only_quantiles : Option (List (MetricObjective F)) → SummaryOptions F
  only_quantiles qs = record { quantiles = qs; max_age = 0; age_buckets = 0; buf_cap = 0 }

  abbrev pub only_buckets : Option (List F) → HistogramOptions F
  only_buckets bs = record {
    buckets = bs;
    native_histogram_bucket_factor = zero_float;
    native_histogram_max_buckets = 0;
  }

  -- `MapperConfigDefaults.UnmarshalYAML`. The deprecated fields replace all of the options.
  unfoldable pub unmarshal_defaults : MapperConfigDefaultsAlias F → MapperConfigDefaults F
  unmarshal_defaults tmp = record {
    observer_type = observer_or tmp.alias_observer_type tmp.alias_timer_type;
    match_type = tmp.alias_match_type;
    glob_disable_ordering = tmp.alias_glob_disable_ordering;
    ttl = tmp.alias_ttl;
    summary_options =
        if slice_length tmp.alias_summary_options.quantiles == 0
          && not (slice_length tmp.alias_quantiles == 0)
        then only_quantiles tmp.alias_quantiles
        else tmp.alias_summary_options;
    histogram_options =
        if slice_length tmp.alias_histogram_options.buckets == 0
          && not (slice_length tmp.alias_buckets == 0)
        then only_buckets tmp.alias_buckets
        else tmp.alias_histogram_options;
  }
