-- ===== src/Mapper/Load/Checked.antt =====
-- What `InitFromYAMLString` (pkg/mapper/mapper.go) guarantees of the mappings that it takes over, and of
-- the glob machine.
use statsd_exporter.Base.{ℕ, ◌≡◌, Bool, true, false, ◌||◌, Option, none, some, List, [], ◌∷◌, map}
use statsd_exporter.Fsm.{Fsm, new_fsm}
use statsd_exporter.Fsm.Backtracking.{test_if_need_backtracking}
use statsd_exporter.Fsm.Rules.{add_rules}
use statsd_exporter.Config.{
  MapperConfigDefaultsAlias, unmarshal_defaults, unmarshal_mapping, MetricMapping,
  MapperConfigDefaults,
}
use statsd_exporter.Caching.{MetricMapperCache}
use statsd_exporter.Mapper.{Regexps, Answer, MetricMapper}
use statsd_exporter.Mapper.Load.{
  Constants, complete_defaults, Machine, Yaml, is_glob, globs, metric_types,
}
use statsd_exporter.Mapper.Load.Ensures.{Ensures}
use statsd_exporter.Mapper.Load.Rules.{rules_of}
use statsd_exporter.Mapper.Load.Mapping.{IsChecked}

module _ {F Re : Type 0} where
  abbrev pub has_glob : List (MetricMapping F Re) → Bool
  has_glob [] = false
  has_glob (m ∷ ms) = is_glob m.match_type || has_glob ms

module _ {F Re Sub : Type 0} (constants : Constants F) (regexps : Regexps Re Sub)
    (d : MapperConfigDefaults F) where
  -- The mappings of the file and those that are taken over, one by one.
  abbrev pub AreChecked : List (MetricMapping F Re) → List (MetricMapping F Re) → Type 0
  AreChecked [] [] = Unit {0}
  AreChecked [] (m ∷ ms) = ⊥
  AreChecked (raw ∷ raws) [] = ⊥
  AreChecked (raw ∷ raws) (m ∷ ms) = IsChecked constants regexps d raw m × AreChecked raws ms

  abbrev AllChecked :
      List (MetricMapping F Re) → Machine → Machine × List (MetricMapping F Re) → Type 0
  AllChecked raws machine r = AreChecked raws r.1 × (r.0.do_fsm ≡ (machine.do_fsm || has_glob r.1))

module _ {F Re Sub C : Type 0} (constants : Constants F) (regexps : Regexps Re Sub)
    (cache : MetricMapperCache C (Answer F Re)) (yaml : Yaml F Re) where
  -- The machine is in use if there is a glob, and is then that of the rules of all globs in order.
  abbrev pub IsInstalled : MetricMapper F Re C → Type 0
  IsInstalled m =
      (m.do_fsm ≡ has_glob m.mappings)
      × (m.do_fsm ≡ true
          → (f : Fsm ℕ) × (add_rules (rules_of 0 m.mappings)
                (new_fsm metric_types m.defaults.glob_disable_ordering)
              ≡ some f)
            × (m.fsm ≡ record f {
              backtracking_needed =
                  test_if_need_backtracking (globs m.mappings) f.ordering_disabled;
            }))

  -- What is taken over of a decoded file.
  abbrev pub IsTaken :
      Option (MapperConfigDefaultsAlias F × List (MetricMapping F Re))
      → MetricMapper F Re C
      → Type 0
  IsTaken none m = ⊥
  IsTaken (some (alias, raws)) m =
      (m.defaults ≡ complete_defaults constants (unmarshal_defaults constants.zero_float alias))
      × AreChecked constants regexps m.defaults (map unmarshal_mapping raws) m.mappings
      × IsInstalled m
