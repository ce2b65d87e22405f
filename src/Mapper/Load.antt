-- ===== src/Mapper/Load.antt =====
-- `InitFromYAMLString` of pkg/mapper/mapper.go: a configuration is checked, completed and taken over.
pub mod Ensures
pub mod Mapping
pub mod Checked
pub mod Rules
use statsd_exporter.Base.{
  ℕ, zero, suc, ◌+◌, ◌≡◌, Bool, true, false, not, ◌&&◌, ◌||◌, Option, none, some, List, [], ◌∷◌,
  ◌++◌, map, Bytes, codes, ◌==◌, if◌then◌else◌, length, Dict,
}
use statsd_exporter.Metric.{MetricType}
use statsd_exporter.Settings.{
  MatchType, glob_match, regex_match, default_match, ActionType, map_action, drop_action,
  default_action, ObserverType, default_observer, histogram_observer, summary_observer,
}
use statsd_exporter.Template.{TemplateFormatter, new_template_formatter}
use statsd_exporter.Fsm.{Fsm, new_fsm, add_state}
use statsd_exporter.Fsm.Backtracking.{test_if_need_backtracking}
use statsd_exporter.Config.{
  MetricObjective, SummaryOptions, HistogramOptions, MetricMapping, MapperConfigDefaults,
  MapperConfigDefaultsAlias, observer_or, slice_length, unmarshal_mapping, unmarshal_defaults,
}
use statsd_exporter.Config.Patterns.{is_metric_line, is_metric_name, is_label_name}
use statsd_exporter.Caching.{MetricMapperCache, type_name}
use statsd_exporter.Mapper.{Regexps, Answer, MetricMapper}

pub data ConfigError : Type 0 where
  bad_yaml invalid_label_key no_metric_name invalid_metric_name invalid_match invalid_regex
        quantiles_twice buckets_twice histogram_with_summary_options
        summary_with_histogram_options :
      ConfigError

-- `panicked` is the use of a logger that is not set, or of a metric type that the machine lacks.
pub data Result (A : Type 0) : Type 0 where
  ok : A → Result A
  failed : ConfigError → Result A
  panicked : Result A

infixl 5 ◌>>=◌ ◌>>◌
abbrev pub ◌>>=◌ : {A B : Type 0} → Result A → (A → Result B) → Result B
ok a >>= f = f a
failed e >>= f = failed e
panicked >>= f = panicked

abbrev pub ◌>>◌ : {A : Type 0} → Result (Unit {0}) → Result A → Result A
m >> k = m >>= λ _. k

-- `if !test { return error }`.
abbrev pub require : Bool → ConfigError → Result (Unit {0})
require true e = ok tt
require false e = failed e

-- A warning, which needs a logger.
abbrev pub warn_if : Bool → Bool → Result (Unit {0})
warn_if has_logger true = if has_logger then ok tt else panicked
warn_if has_logger false = ok tt

-- The constants of the file and of the client library, and the test for zero.
pub record Constants (F : Type 0) : Type 0 where
  pub is_zero : F → Bool
  pub def_buckets : List F
  pub default_bucket_factor : F
  pub default_quantiles : List (MetricObjective F)
  pub zero_float : F

abbrev pub is_there {ℓ} : {A : Type ℓ} → Option A → Bool
is_there none = false
is_there (some a) = true

abbrev pub or_default : ℕ → ℕ → ℕ
or_default x y = if x == 0 then y else x

abbrev pub or_slice {ℓ} : {A : Type ℓ} → Option (List A) → Option (List A) → Option (List A)
or_slice xs ys = if slice_length xs == 0 then ys else xs

abbrev pub match_type_or : MatchType → MatchType → MatchType
match_type_or default_match t = t
match_type_or glob_match t = glob_match
match_type_or regex_match t = regex_match

abbrev pub action_or : ActionType → ActionType → ActionType
action_or default_action a = a
action_or map_action a = map_action
action_or drop_action a = drop_action

abbrev pub is_glob : MatchType → Bool
is_glob glob_match = true
is_glob regex_match = false
is_glob default_match = false

abbrev pub all_label_names : Dict Bytes Bytes → Bool
all_label_names [] = true
all_label_names ((k, v) ∷ ls) = is_label_name k && all_label_names ls

abbrev pub is_cons : Bytes → Bool
is_cons [] = false
is_cons (c ∷ s) = true

abbrev pub type_text : Option MetricType → Bytes
type_text none = []
type_text (some t) = type_name t

abbrev pub keys_of : Dict Bytes Bytes → List Bytes
keys_of ls = map (λ e. e.0) ls

abbrev pub formatters_of : ℕ → Dict Bytes Bytes → List TemplateFormatter
formatters_of capture_count ls = map (λ e. new_template_formatter e.1 capture_count) ls

abbrev pub added : {A : Type 0} → Option A → Result A
added none = panicked
added (some a) = ok a

abbrev pub compiled : {A : Type 0} → Option A → Result A
compiled none = failed invalid_regex
compiled (some a) = ok a

module _ {F : Type 0} (constants : Constants F) where
  -- The defaults of the defaults.
  unfoldable pub complete_defaults : MapperConfigDefaults F → MapperConfigDefaults F
  complete_defaults d = record d {
    match_type = match_type_or d.match_type glob_match;
    histogram_options = record {
      buckets = or_slice d.histogram_options.buckets (some constants.def_buckets);
      native_histogram_bucket_factor =
          if constants.is_zero d.histogram_options.native_histogram_bucket_factor
          then constants.default_bucket_factor
          else d.histogram_options.native_histogram_bucket_factor;
      native_histogram_max_buckets =
          or_default d.histogram_options.native_histogram_max_buckets 256;
    };
    summary_options = record d.summary_options {
      quantiles = or_slice d.summary_options.quantiles (some constants.default_quantiles);
    };
  }

  abbrev pub or_no_histogram : Option (HistogramOptions F) → HistogramOptions F
  or_no_histogram (some h) = h
  or_no_histogram none = record {
    buckets = none;
    native_histogram_bucket_factor = constants.zero_float;
    native_histogram_max_buckets = 0;
  }

abbrev pub or_no_summary : {F : Type 0} → Option (SummaryOptions F) → SummaryOptions F
or_no_summary (some s) = s
or_no_summary none = record { quantiles = none; max_age = 0; age_buckets = 0; buf_cap = 0 }

abbrev pub has_quantiles : {F : Type 0} → Option (SummaryOptions F) → Bool
has_quantiles none = false
has_quantiles (some s) = is_there s.quantiles

abbrev pub has_buckets : {F : Type 0} → Option (HistogramOptions F) → Bool
has_buckets none = false
has_buckets (some h) = is_there h.buckets

-- The machine, `doFSM` and `doRegex` of the configuration that is being read.
pub record Machine : Type 0 where
  pub fsm : Fsm ℕ
  pub do_fsm : Bool
  pub do_regex : Bool

module _ {F Re : Type 0} where
  -- The deprecated quantiles and buckets, with their warnings and errors.
  unfoldable pub check_legacy : Bool → MetricMapping F Re → Result (Unit {0})
  check_legacy has_logger m = do
    warn_if has_logger (
        is_there m.legacy_quantiles
        && (not (is_there m.summary_options) || has_quantiles m.summary_options))
    warn_if has_logger (
        is_there m.legacy_buckets
        && (not (is_there m.histogram_options) || has_buckets m.histogram_options))
    require (not (is_there m.legacy_quantiles && has_quantiles m.summary_options)) quantiles_twice
    require (not (is_there m.legacy_buckets && has_buckets m.histogram_options)) buckets_twice

  module _ (constants : Constants F) (d : MapperConfigDefaults F) where
    -- The options of a histogram or of a summary, by the observer type of the mapping.
    unfoldable pub complete_options :
        ObserverType → MetricMapping F Re → Result (MetricMapping F Re)
    complete_options default_observer m = ok m
    complete_options histogram_observer m =
        let h = or_no_histogram constants m.histogram_options in
        do
          require (not (is_there m.summary_options)) histogram_with_summary_options
          ok (record m {
            histogram_options = some (record h {
              buckets = or_slice (or_slice m.legacy_buckets h.buckets) d.histogram_options.buckets;
            });
          })
    complete_options summary_observer m =
        let s = or_no_summary m.summary_options in
        do
          require (not (is_there m.histogram_options)) summary_with_histogram_options
          ok (record m {
            summary_options = some (record {
              quantiles =
                  or_slice (or_slice m.legacy_quantiles s.quantiles) d.summary_options.quantiles;
              max_age = or_default s.max_age d.summary_options.max_age;
              age_buckets = or_default s.age_buckets d.summary_options.age_buckets;
              buf_cap = or_default s.buf_cap d.summary_options.buf_cap;
            });
          })

-- What `yaml.Unmarshal` decodes from a text, before the UnmarshalYAML of the structs; `none` is its
-- error.
abbrev pub Yaml : Type 0 → Type 0 → Type 0
Yaml F Re = Bytes → Option (MapperConfigDefaultsAlias F × List (MetricMapping F Re))

abbrev pub metric_types : List Bytes
metric_types = codes "counter" ∷ codes "gauge" ∷ codes "observer" ∷ []

module _ {F Re : Type 0} where
  abbrev pub globs : List (MetricMapping F Re) → List Bytes
  globs [] = []
  globs (m ∷ ms) = if is_glob m.match_type then m.match ∷ globs ms else globs ms

module _ {F Re Sub : Type 0} (constants : Constants F) (regexps : Regexps Re Sub)
    (d : MapperConfigDefaults F) where
  -- A mapping with a glob, put into the machine; `i` is its index.
  unfoldable pub place_glob :
      ℕ → MetricMapping F Re → Machine → Result (Machine × MetricMapping F Re)
  unfolding add_state
  place_glob i m machine = do
    require (is_metric_line m.match) invalid_match
    r ← added (add_state machine.fsm m.match (type_text m.match_metric_type) i)
    ok (
      record machine { fsm = r.0; do_fsm = true },
      record m {
        name_formatter = some (new_template_formatter m.name r.1);
        label_keys = keys_of m.labels;
        label_formatters = formatters_of r.1 m.labels;
      },
    )

  -- A mapping with a regular expression.
  unfoldable pub place_regex : MetricMapping F Re → Machine → Result (Machine × MetricMapping F Re)
  place_regex m machine = do
    re ← compiled (regexps.compile m.match)
    ok (record machine { do_regex = true }, record m { regex = some re })

  unfoldable pub place_mapping :
      ℕ → MetricMapping F Re → Machine → Result (Machine × MetricMapping F Re)
  unfolding place_glob place_regex
  place_mapping i m machine =
      if is_glob m.match_type then place_glob i m machine else place_regex m machine

  -- The body of the loop over the mappings.
  unfoldable pub load_mapping :
      Bool → ℕ → MetricMapping F Re → Machine → Result (Machine × MetricMapping F Re)
  unfolding place_mapping check_legacy complete_options
  load_mapping has_logger i m machine = do
    require (all_label_names m.labels) invalid_label_key
    require (is_cons m.name) no_metric_name
    require (is_metric_name m.name) invalid_metric_name
    placed ←
        place_mapping i
          (record m {
            match_type = match_type_or m.match_type d.match_type;
            action = action_or m.action map_action;
          })
          machine
    let observed : MetricMapping F Re = record placed.1 {
      observer_type = observer_or placed.1.observer_type d.observer_type;
    }
    check_legacy has_logger observed
    completed ← complete_options constants d observed.observer_type observed
    ok (placed.0, record completed { ttl = or_default completed.ttl d.ttl })

  unfoldable pub load_mappings :
      Bool → ℕ → List (MetricMapping F Re) → Machine → Result (Machine × List (MetricMapping F Re))
  unfolding load_mapping
  load_mappings has_logger i [] machine = ok (machine, [])
  load_mappings has_logger i (m ∷ ms) machine = do
    first ← load_mapping has_logger i m machine
    rest ← load_mappings has_logger (i + 1) ms first.0
    ok (rest.0, first.1 ∷ rest.1)

  module _ {C : Type 0} (cache : MetricMapperCache C (Answer F Re)) where
    abbrev pub reset_cache : Option C → Option C
    reset_cache none = none
    reset_cache (some c) = some (cache.reset c)

    abbrev pub set_count : ℕ → Option ℕ → Option ℕ
    set_count n none = none
    set_count n (some old) = some n

    -- What stands behind the loop.
    unfoldable pub take_over :
        MetricMapper F Re C → Machine × List (MetricMapping F Re) → MetricMapper F Re C
    unfolding test_if_need_backtracking
    take_over m (machine, mappings) = record {
      defaults = d;
      mappings = mappings;
      fsm =
          if machine.do_fsm
          then record machine.fsm {
            backtracking_needed =
                test_if_need_backtracking (globs mappings) machine.fsm.ordering_disabled;
          }
          else m.fsm;
      do_fsm = machine.do_fsm;
      do_regex = if machine.do_fsm then machine.do_regex else m.do_regex;
      cache = reset_cache m.cache;
      mappings_count = set_count (length mappings) m.mappings_count;
      has_logger = true;
    }

module _ {F Re Sub C : Type 0} (constants : Constants F) (regexps : Regexps Re Sub)
    (cache : MetricMapperCache C (Answer F Re)) (yaml : Yaml F Re) where
  abbrev pub new_machine : MapperConfigDefaults F → Machine
  new_machine d = record {
    fsm = new_fsm metric_types d.glob_disable_ordering;
    do_fsm = false;
    do_regex = false;
  }

  abbrev pub load_config :
      MetricMapper F Re C
      → Option (MapperConfigDefaultsAlias F × List (MetricMapping F Re))
      → Result (MetricMapper F Re C)
  load_config m none = failed bad_yaml
  load_config m (some (defaults, mappings)) =
      let d = complete_defaults constants (unmarshal_defaults constants.zero_float defaults) in
      do
        loaded ←
            load_mappings constants regexps d m.has_logger 0 (map unmarshal_mapping mappings)
              (new_machine d)
        ok (take_over constants regexps d cache m loaded)

  -- `InitFromYAMLString`. With an error the mapper is as it was.
  unfoldable pub init_from_yaml_string : Bytes → MetricMapper F Re C → Result (MetricMapper F Re C)
  unfolding unmarshal_defaults unmarshal_mapping complete_defaults new_fsm load_mappings take_over
  init_from_yaml_string file_contents m = load_config m (yaml file_contents)
