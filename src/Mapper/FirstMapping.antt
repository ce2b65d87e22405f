-- ===== src/Mapper/FirstMapping.antt =====
-- `InitFromYAMLString` and then `GetMapping` (pkg/mapper/mapper.go): the first mapping with a glob that
-- covers the metric answers.
use statsd_exporter.Base.{
  ℕ, ◌≡◌, refl, ap, ◌∙◌, true, false, inl, Option, none, some, List, [], map, Bytes, codes, length,
  take, split,
}
use statsd_exporter.Metric.{MetricType, counter_type, gauge_type, observer_type}
use statsd_exporter.Fsm.{MappingState, nil, leaf, Fsm, new_fsm}
use statsd_exporter.Fsm.Search
use statsd_exporter.Fsm.Backtracking.{test_if_need_backtracking}
use statsd_exporter.Fsm.Rules.{
  Rule, is_in, IsDistinct, add_rules, entries, add_rules-find, new_roots-find,
}
use statsd_exporter.Fsm.Covers.{has_no_star, captured}
use statsd_exporter.Fsm.Entries.{Entry, IsOrderly, first_covering}
use statsd_exporter.Fsm.FirstRule.{Answers, get_mapping-first_rule}
use statsd_exporter.Config.{
  MapperConfigDefaults, MapperConfigDefaultsAlias, MetricMapping, unmarshal_defaults,
  unmarshal_mapping,
}
use statsd_exporter.Caching.{MetricMapperCache, type_name}
use statsd_exporter.Mapper.{
  Regexps, Answer, MetricMapper, final_result, after_glob, glob_matching, compute_mapping,
}
use statsd_exporter.Mapper.Load.{
  ok, Constants, Yaml, Machine, metric_types, complete_defaults, load_mappings, take_over,
  new_machine, load_config, init_from_yaml_string,
}
use statsd_exporter.Mapper.Load.Ensures.{Ensures, Ensures-bind, Ensures-ok}
use statsd_exporter.Mapper.Load.Rules.{rules_of, load_mappings-AddsAll}

metric_types-IsDistinct : IsDistinct metric_types
metric_types-IsDistinct = (refl, (refl, (refl, tt)))

known_type : (t : MetricType) → is_in (type_name t) metric_types ≡ true
known_type counter_type = refl
known_type gauge_type = refl
known_type observer_type = refl

-- Adding rules leaves the ordering on.
add_rules-ordering :
    (rs : List (Rule ℕ)) (f : Fsm ℕ)
    → add_rules rs (new_fsm metric_types false) ≡ some f
    → f.ordering_disabled ≡ false
unfolding new_fsm
add_rules-ordering rs f made =
    (add_rules-find (codes "counter") rs (new_fsm metric_types false) f leaf metric_types-IsDistinct
      (new_roots-find (codes "counter") metric_types nil (inl refl)) made).1

module _ {F Re C : Type 0} where
  -- The machine of a mapper with ordering is the one for its globs, with backtracking.
  abbrev IsBuilt : MetricMapper F Re C → Type 0
  IsBuilt m =
      m.do_fsm ≡ true
      → m.defaults.glob_disable_ordering ≡ false
      → (f : Fsm ℕ) × (add_rules (rules_of 0 m.mappings) (new_fsm metric_types false) ≡ some f)
        × (m.fsm ≡ record f { backtracking_needed = true })

module _ {F Re Sub C : Type 0} (constants : Constants F) (regexps : Regexps Re Sub)
    (cache : MetricMapperCache C (Answer F Re)) (yaml : Yaml F Re) where
  take_over-IsBuilt :
      (d : MapperConfigDefaults F) (m : MetricMapper F Re C) (machine : Machine)
      (ms : List (MetricMapping F Re))
      → add_rules (rules_of 0 ms) (new_fsm metric_types d.glob_disable_ordering) ≡ some machine.fsm
      → IsBuilt (take_over constants regexps d cache m (machine, ms))
  unfolding take_over test_if_need_backtracking
  take_over-IsBuilt d m machine ms made has_globs ordered =
      let built : add_rules (rules_of 0 ms) (new_fsm metric_types false) ≡ some machine.fsm =
        rw ordered at made in
      (
        machine.fsm,
        built,
        rw (has_globs, add_rules-ordering (rules_of 0 ms) machine.fsm built) refl,
      )

  load_config-IsBuilt :
      (m : MetricMapper F Re C)
      (config : Option (MapperConfigDefaultsAlias F × List (MetricMapping F Re)))
      → Ensures IsBuilt (load_config constants regexps cache yaml m config)
  load_config-IsBuilt m none = tt
  load_config-IsBuilt m (some (alias, raw)) =
      let d = complete_defaults constants (unmarshal_defaults constants.zero_float alias) in
      Ensures-bind
        (λ r.
          add_rules (rules_of 0 r.1) (new_fsm metric_types d.glob_disable_ordering) ≡ some r.0.fsm)
        IsBuilt
        (load_mappings constants regexps d m.has_logger 0 (map unmarshal_mapping raw)
          (new_machine constants regexps cache yaml d))
        (λ loaded. ok (take_over constants regexps d cache m loaded))
        (load_mappings-AddsAll constants regexps d m.has_logger 0 (map unmarshal_mapping raw)
          (new_machine constants regexps cache yaml d))
        (λ loaded made. take_over-IsBuilt d m loaded.0 loaded.1 made)

-- The index of the first mapping, if there is one.
abbrev pub index_of : Option (Entry ℕ) → Option ℕ
index_of none = none
index_of (some e) = some e.outcome

-- What is captured begins with the fields at the `*`s of the mapping, unless a field of the metric is
-- itself `*`.
abbrev pub Captures : List Bytes → List Bytes → Option (Entry ℕ) → Type 0
Captures fs captures none = Unit {0}
Captures fs captures (some e) =
    has_no_star fs ≡ true → take (length (captured e.fields fs)) captures ≡ captured e.fields fs

Answers-index :
    (fs : List Bytes) (state : Option (MappingState ℕ)) (captures : List Bytes)
    (first : Option (Entry ℕ))
    → Answers fs state captures first
    → (final_result state ≡ index_of first) × Captures fs captures first
Answers-index fs state captures none e = (rw e refl, tt)
Answers-index fs state captures (some e) (s, is_s, outcome, taken) =
    (rw (is_s, outcome) refl, taken)

module _ {F Re C : Type 0} where
  -- The entries of the mappings with a glob that are meant for a type.
  abbrev pub entries_of : MetricType → MetricMapper F Re C → List (Entry ℕ)
  entries_of t m = entries (type_name t) metric_types 0 (rules_of 0 m.mappings)

module _ {F Re Sub C : Type 0} (constants : Constants F) (regexps : Regexps Re Sub)
    (cache : MetricMapperCache C (Answer F Re)) (yaml : Yaml F Re) where
  compute_mapping-first_mapping :
      (after : MetricMapper F Re C) (metric : Bytes) (t : MetricType)
      → IsBuilt after
      → after.do_fsm ≡ true
      → after.defaults.glob_disable_ordering ≡ false
      → IsOrderly [] (entries_of t after)
      → (captures : List Bytes) × (compute_mapping regexps metric t after
          ≡ after_glob regexps metric t after
              (index_of (first_covering (split b'.' metric) (entries_of t after)))
              captures)
        × Captures
            (split b'.' metric)
            captures
            (first_covering (split b'.' metric) (entries_of t after))
  unfolding compute_mapping
  compute_mapping-first_mapping after metric t built has_globs ordered orderly =
      let (f, made, is_f) = built has_globs ordered in
      let (state, captures, runs, answers) =
        get_mapping-first_rule metric_types (rules_of 0 after.mappings) f metric (type_name t)
          metric_types-IsDistinct (known_type t) made orderly in
      let (index, taken) =
        Answers-index (split b'.' metric) state captures
          (first_covering (split b'.' metric) (entries_of t after)) answers in
      (
        captures,
        rw has_globs (
            ap (glob_matching regexps metric t after)
              (ap (λ g. Search.get_mapping g metric (type_name t)) is_f ∙ runs)
            ∙ ap (λ i. after_glob regexps metric t after i captures) index),
        taken,
      )

  -- `InitFromYAMLString` has taken over a configuration with globs and with ordering, such that the
  -- fields of none of the globs for the type of a metric are those of an earlier one or the beginning
  -- of them. Then `GetMapping` behind the cache answers for the metric with the first of its mappings
  -- whose glob covers it, with captures that begin with the fields at the globs `*`s unless the metric
  -- has a field `*`; and if no glob covers it, with the mappings with a regular expression, if there are
  -- any, or else with nothing.
  pub init_from_yaml_string-first_mapping :
      (file_contents : Bytes) (m after : MetricMapper F Re C) (metric : Bytes) (t : MetricType)
      → init_from_yaml_string constants regexps cache yaml file_contents m ≡ ok after
      → after.do_fsm ≡ true
      → after.defaults.glob_disable_ordering ≡ false
      → IsOrderly [] (entries_of t after)
      → (captures : List Bytes) × (compute_mapping regexps metric t after
          ≡ after_glob regexps metric t after
              (index_of (first_covering (split b'.' metric) (entries_of t after)))
              captures)
        × Captures
            (split b'.' metric)
            captures
            (first_covering (split b'.' metric) (entries_of t after))
  init_from_yaml_string-first_mapping file_contents m after metric t loaded has_globs ordered
        orderly =
      compute_mapping-first_mapping after metric t
        (Ensures-ok IsBuilt (init_from_yaml_string constants regexps cache yaml file_contents m)
          after
          (unfold init_from_yaml_string in
            load_config-IsBuilt constants regexps cache yaml m (yaml file_contents))
          loaded)
        has_globs ordered orderly
