-- ===== src/Mapper/Tests.antt =====
-- Runs of pkg/mapper/mapper.go, with regular expressions that are plain words, numbers in place of
-- floating-point ones, and a decoder with one configuration.
use statsd_exporter.Base.{
  ℕ, ◌≡◌, refl, Bool, true, false, Option, none, some, List, [], ◌∷◌, Bytes, map, codes, ◌==◌,
  if◌then◌else◌, bytes_eq, split,
}
use statsd_exporter.Metric.{MetricType, counter_type, gauge_type}
use statsd_exporter.Config.Patterns.{is_label_name, is_metric_name, is_metric_line}
use statsd_exporter.Settings.{
  regex_match, default_match, default_action, default_observer, summary_observer,
}
use statsd_exporter.Fsm.{new_fsm}
use statsd_exporter.Config.{MetricMapping, MapperConfigDefaultsAlias}
use statsd_exporter.RandomReplacement.{MetricMapperRrCache, get, add, reset}
use statsd_exporter.Template.{new_template_formatter}
use statsd_exporter.RandomReplacement.Contract.{rr_cache, Has, rr_cache-CacheLaws}
use statsd_exporter.Fsm.Entries.{first_covering}
use statsd_exporter.Mapper.FirstMapping.{
  index_of, Captures, entries_of, init_from_yaml_string-first_mapping,
}
use statsd_exporter.Mapper.{
  Regexps, Answer, MetricMapper, after_glob, compute_mapping, get_mappings,
}
use statsd_exporter.Mapper.Load.{
  Result, ok, failed, panicked, Constants, Yaml, init_from_yaml_string,
}
use statsd_exporter.Mapper.Cached.{init_from_yaml_string-get_mappings}

abbrev Cache : Type 0
Cache = MetricMapperRrCache (Answer ℕ Bytes)

abbrev words : Regexps Bytes Unit
words = record {
  compile = some;
  find = λ re s. if bytes_eq re s then some tt else none;
  expand = λ re template s sub. template;
}

abbrev constants : Constants ℕ
constants = record {
  is_zero = λ x. x == 0;
  def_buckets = 1 ∷ [];
  default_bucket_factor = 11;
  default_quantiles = [];
  zero_float = 0;
}

abbrev no_defaults : MapperConfigDefaultsAlias ℕ
no_defaults = record {
  alias_observer_type = default_observer;
  alias_timer_type = default_observer;
  alias_buckets = none;
  alias_quantiles = none;
  alias_match_type = default_match;
  alias_glob_disable_ordering = false;
  alias_ttl = 0;
  alias_summary_options = record { quantiles = none; max_age = 0; age_buckets = 0; buf_cap = 0 };
  alias_histogram_options = record {
    buckets = none;
    native_histogram_bucket_factor = 0;
    native_histogram_max_buckets = 0;
  };
}

abbrev a_mapping : Bytes → Bytes → MetricMapping ℕ Bytes
a_mapping match name = record {
  match = match;
  name = name;
  name_formatter = none;
  regex = none;
  labels = [];
  honor_labels = false;
  label_keys = [];
  label_formatters = [];
  observer_type = default_observer;
  timer_type = default_observer;
  legacy_buckets = none;
  legacy_quantiles = none;
  match_type = default_match;
  help_text = [];
  action = default_action;
  match_metric_type = none;
  ttl = 0;
  summary_options = none;
  histogram_options = none;
  scale = none;
}

-- A glob with a label, and a regular expression.
abbrev two_mappings : List (MetricMapping ℕ Bytes)
two_mappings =
    record (a_mapping (codes "a.*") (codes "m_$1")) {
      labels = (codes "job", codes "j$1") ∷ [];
      timer_type = summary_observer;
    }
    ∷ record (a_mapping (codes "b.c") (codes "d")) { match_type = regex_match }
    ∷ []

abbrev yaml : Yaml ℕ Bytes
yaml text = some (no_defaults, two_mappings)

abbrev at_start : Bool → MetricMapper ℕ Bytes Cache
at_start has_logger = record {
  defaults = record {
    observer_type = default_observer;
    match_type = default_match;
    glob_disable_ordering = false;
    ttl = 0;
    summary_options = no_defaults.alias_summary_options;
    histogram_options = no_defaults.alias_histogram_options;
  };
  mappings = [];
  fsm = new_fsm [] false;
  do_fsm = false;
  do_regex = false;
  cache = some (record { size = 1; items = []; cache_length = 0 });
  mappings_count = none;
  has_logger = has_logger;
}

abbrev one_entry : MetricMapperRrCache (Answer ℕ Bytes) → ℕ
one_entry c = 0

abbrev loaded : Result (MetricMapper ℕ Bytes Cache)
loaded = init_from_yaml_string constants words (rr_cache one_entry) yaml [] (at_start true)

abbrev or_start : Result (MetricMapper ℕ Bytes Cache) → MetricMapper ℕ Bytes Cache
or_start (ok m) = m
or_start (failed e) = at_start true
or_start panicked = at_start true

is_loaded : loaded ≡ ok (or_start loaded)
unfolding init_from_yaml_string is_label_name is_metric_name is_metric_line
is_loaded = refl

abbrev calls : List (Bytes × MetricType)
calls =
    (codes "a.x", counter_type)
    ∷ (codes "b.c", gauge_type)
    ∷ (codes "a.x", counter_type)
    ∷ (codes "a.x", counter_type)
    ∷ (codes "e", counter_type)
    ∷ []

init_from_yaml_string-get_mappings_example :
    get_mappings words (rr_cache one_entry) calls (or_start loaded)
    ≡ get_mappings words (rr_cache one_entry) calls (record (or_start loaded) { cache = none })
init_from_yaml_string-get_mappings_example =
    init_from_yaml_string-get_mappings words (rr_cache one_entry) Has (rr_cache-CacheLaws one_entry)
      constants yaml [] (at_start true) (or_start loaded) calls is_loaded

abbrev name_of : Option (MetricMapping ℕ Bytes) → Option Bytes
name_of none = none
name_of (some m) = some m.name

abbrev names : Option (List (Answer ℕ Bytes)) → List (Option Bytes × List (Bytes × Bytes))
names none = []
names (some answers) = map (λ a. (name_of a.mapping, a.labels)) answers

named :
    names (get_mappings words (rr_cache one_entry) calls (or_start loaded))
    ≡ (some (codes "m_x"), (codes "job", codes "jx") ∷ [])
      ∷ (some (codes "d"), [])
      ∷ (some (codes "m_x"), (codes "job", codes "jx") ∷ [])
      ∷ (some (codes "m_x"), (codes "job", codes "jx") ∷ [])
      ∷ (none, [])
      ∷ []
unfolding init_from_yaml_string is_label_name is_metric_name is_metric_line get_mappings get add
    reset new_template_formatter
named = refl

-- The deprecated quantiles want a logger: a mapper without one panics.
abbrev with_quantiles : Yaml ℕ Bytes
with_quantiles text = some (
  no_defaults,
  record (a_mapping (codes "a") (codes "m")) {
    legacy_quantiles = some (record { quantile = 5; error = 1 } ∷ []);
  }
      ∷ [],
)

no_logger :
    init_from_yaml_string constants words (rr_cache one_entry) with_quantiles [] (at_start false)
    ≡ panicked
unfolding init_from_yaml_string is_label_name is_metric_name is_metric_line
no_logger = refl

init_from_yaml_string-first_mapping_example :
    (captures : List Bytes) × (compute_mapping words (codes "a.x") counter_type (or_start loaded)
      ≡ after_glob words
          (codes "a.x")
          counter_type
          (or_start loaded)
          (index_of
            (first_covering (split b'.' (codes "a.x")) (entries_of counter_type (or_start loaded))))
          captures)
    × Captures
        (split b'.' (codes "a.x"))
        captures
        (first_covering (split b'.' (codes "a.x")) (entries_of counter_type (or_start loaded)))
unfolding init_from_yaml_string is_label_name is_metric_name is_metric_line
init_from_yaml_string-first_mapping_example =
    init_from_yaml_string-first_mapping constants words (rr_cache one_entry) yaml [] (at_start true)
      (or_start loaded) (codes "a.x") counter_type is_loaded refl refl (refl, tt)
