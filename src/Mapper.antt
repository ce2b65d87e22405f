-- ===== src/Mapper.antt =====
-- pkg/mapper/mapper.go: `MetricMapper` with `InitFromYAMLString`, `UseCache` and `GetMapping`.
pub mod Load
pub mod Cached
pub mod FirstMapping
mod Tests
use statsd_exporter.Base.{
  ℕ, zero, suc, ◌+◌, ◌≡◌, Bool, true, false, not, ◌&&◌, ◌||◌, Option, none, some, List, [], ◌∷◌,
  ◌++◌, Bytes, codes, ◌==◌, if◌then◌else◌, length, get_elem?, Dict, insert, Bytes_eq,
}
use statsd_exporter.Metric.{MetricType, counter_type, gauge_type, observer_type}
use statsd_exporter.Template.{TemplateFormatter, Formatted, text, panicked, other_verb, format}
use statsd_exporter.Fsm.{MappingState, result, Fsm}
use statsd_exporter.Fsm.Search
use statsd_exporter.Config.{MetricMapping, MapperConfigDefaults}
use statsd_exporter.Caching.{MetricMapperCache, type_name, format_key}

-- What the code uses of compiled regular expressions `Re` with their matches `Sub`: `FindStringSubmatchIndex`
-- and `ExpandString` (the template, the text, the match).
pub record Regexps (Re Sub : Type 0) : Type 0 where
  pub compile : Bytes → Option Re
  pub find : Re → Bytes → Option Sub
  pub expand : Re → Bytes → Bytes → Sub → Bytes

-- The results of `GetMapping`, which are also `MetricMapperCacheResult`.
pub record Answer (F Re : Type 0) : Type 0 where
  pub mapping : Option (MetricMapping F Re)
  pub labels : Dict Bytes Bytes
  pub matched : Bool

-- The machine's results are pointers into `mappings`: their indices. `mappings_count` and `cache` are
-- none if they are nil, and `has_logger` is whether `Logger` is set.
pub record MetricMapper (F Re C : Type 0) : Type 0 where
  pub defaults : MapperConfigDefaults F
  pub mappings : List (MetricMapping F Re)
  pub fsm : Fsm ℕ
  pub do_fsm : Bool
  pub do_regex : Bool
  pub cache : Option C
  pub mappings_count : Option ℕ
  pub has_logger : Bool

abbrev pub set_label : Bytes → Formatted → Option (Dict Bytes Bytes) → Option (Dict Bytes Bytes)
set_label key (text v) (some ls) = some (insert key v ls)
set_label key (text v) none = none
set_label key panicked ls = none
set_label key other_verb ls = none

-- The loop over `labelFormatters`; `labelKeys` has the same length.
unfoldable pub format_labels :
    List Bytes
    → List TemplateFormatter
    → List Bytes
    → Option (Dict Bytes Bytes)
    → Option (Dict Bytes Bytes)
unfolding insert format
format_labels keys [] captures ls = ls
format_labels [] (f ∷ fs) captures ls = none
format_labels (key ∷ keys) (f ∷ fs) captures ls =
    format_labels keys fs captures (set_label key (format f captures) ls)

abbrev pub formatted_name : Option TemplateFormatter → List Bytes → Formatted
formatted_name none captures = panicked
formatted_name (some f) captures = format f captures

abbrev pub final_result : Option (MappingState ℕ) → Option ℕ
final_result none = none
final_result (some s) = result s

module _ {F Re : Type 0} where
  abbrev pub miss : Answer F Re
  miss = record { mapping = none; labels = []; matched = false }

  abbrev pub named_answer :
      MetricMapping F Re → Formatted → Option (Dict Bytes Bytes) → Option (Answer F Re)
  named_answer m (text name) (some ls) =
      some (record { mapping = some (record m { name = name }); labels = ls; matched = true })
  named_answer m (text name) none = none
  named_answer m panicked ls = none
  named_answer m other_verb ls = none

  -- The answer for a mapping that the machine found.
  abbrev pub glob_answer : List Bytes → Option (MetricMapping F Re) → Option (Answer F Re)
  glob_answer captures none = none
  glob_answer captures (some m) =
      named_answer m (formatted_name m.name_formatter captures)
        (format_labels m.label_keys m.label_formatters captures (some []))

-- The loop over the labels of a mapping with a regular expression.
abbrev pub expand_labels : (Bytes → Bytes) → Dict Bytes Bytes → Dict Bytes Bytes → Dict Bytes Bytes
expand_labels expand [] ls = ls
expand_labels expand ((label, value) ∷ more) ls =
    expand_labels expand more (insert label (expand value) ls)

abbrev pub same_metric_type : MetricType → MetricType → Bool
same_metric_type counter_type counter_type = true
same_metric_type gauge_type gauge_type = true
same_metric_type observer_type observer_type = true
same_metric_type _ _ = false

-- Not `mt != "" && mt != statsdMetricType`.
abbrev pub applies_to : MetricType → Option MetricType → Bool
applies_to t none = true
applies_to t (some mt) = same_metric_type mt t

abbrev pub and_later {ℓ} : {A : Type ℓ} → A → Option (List A) → Option (List A)
and_later a none = none
and_later a (some later) = some (a ∷ later)

module _ {Re Sub : Type 0} (regexps : Regexps Re Sub) where
  abbrev pub found_sub : Bytes → Option Re → Option Sub
  found_sub metric none = none
  found_sub metric (some re) = regexps.find re metric

module _ {F Re Sub : Type 0} (regexps : Regexps Re Sub) where
  abbrev pub regex_answer : Bytes → MetricMapping F Re → Re → Sub → Answer F Re
  regex_answer metric m re sub = record {
    mapping = some (record m { name = regexps.expand re m.name metric sub });
    labels = expand_labels (λ value. regexps.expand re value metric sub) m.labels [];
    matched = true;
  }

  abbrev pub try_regex :
      Bytes → MetricType → MetricMapping F Re → Option Re → Option Sub → Option (Answer F Re)
  try_regex metric t m none sub = none
  try_regex metric t m (some re) none = none
  try_regex metric t m (some re) (some sub) =
      if applies_to t m.match_metric_type then some (regex_answer metric m re sub) else none

  abbrev pub or_later : Option (Answer F Re) → Answer F Re → Answer F Re
  or_later none later = later
  or_later (some a) later = a

  -- The loop over the mappings with a regular expression.
  unfoldable pub regex_matching : Bytes → MetricType → List (MetricMapping F Re) → Answer F Re
  unfolding insert
  regex_matching metric t [] = miss
  regex_matching metric t (m ∷ ms) =
      or_later (try_regex metric t m m.regex (found_sub regexps metric m.regex))
        (regex_matching metric t ms)

  module _ {C : Type 0} where
    -- The answer for what the machine found, or else by the regular expressions.
    abbrev pub after_glob :
        Bytes → MetricType → MetricMapper F Re C → Option ℕ → List Bytes → Option (Answer F Re)
    after_glob metric t m (some i) captures = glob_answer captures (get_elem? m.mappings i)
    after_glob metric t m none captures =
        if not m.do_regex then some miss else some (regex_matching metric t m.mappings)

    abbrev pub glob_matching :
        Bytes → MetricType → MetricMapper F Re C → Search.Found ℕ → Option (Answer F Re)
    glob_matching metric t m (Search.found state captures) =
        after_glob metric t m (final_result state) captures
    glob_matching metric t m Search.panic = none
    glob_matching metric t m Search.out_of_fuel = none

    -- `GetMapping` behind the cache; `none` is a panic, or a label or name that has a verb of
    -- `fmt.Sprintf` other than `%s` and `%%`.
    unfoldable pub compute_mapping : Bytes → MetricType → MetricMapper F Re C → Option (Answer F Re)
    unfolding regex_matching format_labels Search.get_mapping
    compute_mapping metric t m =
        if m.do_fsm
        then glob_matching metric t m (Search.get_mapping m.fsm metric (type_name t))
        else some (regex_matching metric t m.mappings)

    module _ (cache : MetricMapperCache C (Answer F Re)) where
      -- The ways out, without a cache and with one.
      abbrev pub uncached :
          MetricMapper F Re C → Option (Answer F Re) → Option (Answer F Re × MetricMapper F Re C)
      uncached m none = none
      uncached m (some a) = some (a, m)

      abbrev pub added :
          Bytes
          → MetricMapper F Re C
          → C
          → Option (Answer F Re)
          → Option (Answer F Re × MetricMapper F Re C)
      added key m c none = none
      added key m c (some a) = some (a, record m { cache = some (cache.add key a c) })

      abbrev pub cached_answer :
          Bytes
          → MetricType
          → MetricMapper F Re C
          → Option (Answer F Re) × C
          → Option (Answer F Re × MetricMapper F Re C)
      cached_answer metric t m (some a, c) = some (a, record m { cache = some c })
      cached_answer metric t m (none, c) =
          added (format_key metric t) m c (compute_mapping metric t m)

      abbrev pub with_cache :
          Bytes
          → MetricType
          → MetricMapper F Re C
          → Option C
          → Option (Answer F Re × MetricMapper F Re C)
      with_cache metric t m none = uncached m (compute_mapping metric t m)
      with_cache metric t m (some c) = cached_answer metric t m (cache.get (format_key metric t) c)

      -- `GetMapping`. Every way out adds its answer to the cache.
      unfoldable pub get_mapping :
          Bytes → MetricType → MetricMapper F Re C → Option (Answer F Re × MetricMapper F Re C)
      unfolding compute_mapping format_key
      get_mapping metric t m = with_cache metric t m m.cache

    -- `UseCache`.
    unfoldable pub use_cache : C → MetricMapper F Re C → MetricMapper F Re C
    use_cache c m = record m { cache = some c }

    abbrev pub then_later :
        (MetricMapper F Re C → Option (List (Answer F Re)))
        → Option (Answer F Re × MetricMapper F Re C)
        → Option (List (Answer F Re))
    then_later later none = none
    then_later later (some (a, after)) = and_later a (later after)

    module _ (cache : MetricMapperCache C (Answer F Re)) where
      -- The answers of calls of `GetMapping`, one after the other.
      unfoldable pub get_mappings :
          List (Bytes × MetricType) → MetricMapper F Re C → Option (List (Answer F Re))
      unfolding get_mapping
      get_mappings [] m = some []
      get_mappings ((metric, t) ∷ calls) m =
          then_later (get_mappings calls) (get_mapping cache metric t m)
