-- ===== src/Mapper/Load/Rules.antt =====
-- The glob machine that `InitFromYAMLString` (pkg/mapper/mapper.go) makes is the one for its globs, in
-- their order.
use statsd_exporter.Base.{
  ℕ, ◌+◌, ◌≡◌, refl, ap, ◌∙◌, Bool, true, false, not, Bool-cases, inl, inr, Option, Option-cases,
  none, some, List, [], ◌∷◌, ◌++◌, if◌then◌else◌,
}
use statsd_exporter.Settings.{
  map_action, ObserverType, default_observer, histogram_observer, summary_observer,
}
use statsd_exporter.Fsm.{Fsm, add_state}
use statsd_exporter.Fsm.Rules.{Rule, add_rules}
use statsd_exporter.Config.{MapperConfigDefaults, MetricMapping, observer_or}
use statsd_exporter.Config.Patterns.{is_metric_line, is_metric_name}
use statsd_exporter.Mapper.{Regexps}
use statsd_exporter.Mapper.Load.{
  Result, ◌>>=◌, invalid_match, invalid_label_key, no_metric_name, invalid_metric_name,
  histogram_with_summary_options, summary_with_histogram_options, Constants, Machine, added,
  compiled, is_there, is_glob, is_cons, all_label_names, type_text, match_type_or, action_or,
  place_glob, place_regex, place_mapping, complete_options, load_mapping, load_mappings,
}
use statsd_exporter.Mapper.Load.Ensures.{Ensures, Ensures-bind, Ensures-require, Ensures-then}

pub Ensures-added :
    {A B : Type 0} (P : B → Type 0) (o : Option A) (f : A → Result B)
    → ((a : A) → o ≡ some a → Ensures P (f a))
    → Ensures P (added o >>= f)
Ensures-added P none f k = tt
Ensures-added P (some a) f k = k a refl

module _ {F Re : Type 0} where
  -- The rule of a mapping with a glob, and none of another; its result is the mapping's index.
  abbrev pub rule_of : ℕ → MetricMapping F Re → List (Rule ℕ)
  rule_of i m =
      if is_glob m.match_type
      then record {
        match = m.match;
        match_metric_type = type_text m.match_metric_type;
        outcome = i;
      }
        ∷ []
      else []

  abbrev pub rules_of : ℕ → List (MetricMapping F Re) → List (Rule ℕ)
  rules_of i [] = []
  rules_of i (m ∷ ms) = rule_of i m ++ rules_of (i + 1) ms

  abbrev SameRule : MetricMapping F Re → MetricMapping F Re → Type 0
  SameRule m n = (i : ℕ) → rule_of i n ≡ rule_of i m

  -- The machine behind a mapping has one rule more, or none.
  abbrev Adds : ℕ → Machine → Machine × MetricMapping F Re → Type 0
  Adds i machine r = add_rules (rule_of i r.1) machine.fsm ≡ some r.0.fsm

  abbrev AddsAll : ℕ → Machine → Machine × List (MetricMapping F Re) → Type 0
  AddsAll i machine r = add_rules (rules_of i r.1) machine.fsm ≡ some r.0.fsm

add_rules-append :
    (rs qs : List (Rule ℕ)) (f g : Fsm ℕ)
    → add_rules rs f ≡ some g
    → add_rules (rs ++ qs) f ≡ add_rules qs g
add_rules-append [] qs f g e = cc
add_rules-append (r ∷ rs) qs f g e =
    elim (Option-cases (add_state f r.match r.match_metric_type r.outcome)) [
      | inl q ↦ cc (rw (q, add_rules) at e)
      | inr ((h, c), q) ↦ rw (q, add_rules) (add_rules-append rs qs h g (rw (q, add_rules) at e))
    ]

module _ {F Re Sub : Type 0} (constants : Constants F) (regexps : Regexps Re Sub)
    (d : MapperConfigDefaults F) where
  place_glob-Adds :
      (i : ℕ) (m : MetricMapping F Re) (machine : Machine)
      → is_glob m.match_type ≡ true
      → Ensures (Adds i machine) (place_glob constants regexps d i m machine)
  unfolding place_glob
  place_glob-Adds i m machine glob =
      Ensures-require (Adds i machine) (is_metric_line m.match) invalid_match _ (λ line.
        Ensures-added (Adds i machine)
          (add_state machine.fsm m.match (type_text m.match_metric_type) i) _
          (λ r e. rw glob (rw (e, add_rules) refl)))

  place_regex-Adds :
      (i : ℕ) (m : MetricMapping F Re) (machine : Machine)
      → is_glob m.match_type ≡ false
      → Ensures (Adds i machine) (place_regex constants regexps d m machine)
  unfolding place_regex
  place_regex-Adds i m machine other =
      Ensures-then (Adds i machine) (compiled (regexps.compile m.match)) _ (λ re. rw other refl)

  place_mapping-Adds :
      (i : ℕ) (m : MetricMapping F Re) (machine : Machine)
      → Ensures (Adds i machine) (place_mapping constants regexps d i m machine)
  place_mapping-Adds i m machine = elim (Bool-cases (is_glob m.match_type)) [
    | inl glob ↦ unfold place_mapping in rw glob (place_glob-Adds i m machine glob)
    | inr other ↦ unfold place_mapping in rw other (place_regex-Adds i m machine other)
  ]

  complete_options-SameRule :
      (t : ObserverType) (m : MetricMapping F Re)
      → Ensures (SameRule m) (complete_options constants d t m)
  unfolding complete_options
  complete_options-SameRule default_observer m = λ i. refl
  complete_options-SameRule histogram_observer m =
      Ensures-require (SameRule m) (not (is_there m.summary_options)) histogram_with_summary_options
        _ (λ free i. refl)
  complete_options-SameRule summary_observer m =
      Ensures-require (SameRule m) (not (is_there m.histogram_options))
        summary_with_histogram_options _ (λ free i. refl)

  load_mapping-Adds :
      (has_logger : Bool) (i : ℕ) (m : MetricMapping F Re) (machine : Machine)
      → Ensures (Adds i machine) (load_mapping constants regexps d has_logger i m machine)
  unfolding load_mapping
  load_mapping-Adds has_logger i m machine =
      Ensures-require (Adds i machine) (all_label_names m.labels) invalid_label_key _ (λ labels.
        Ensures-require (Adds i machine) (is_cons m.name) no_metric_name _ (λ named.
          Ensures-require (Adds i machine) (is_metric_name m.name) invalid_metric_name _ (λ valid.
            Ensures-bind (Adds i machine) (Adds i machine) _ _
              (place_mapping-Adds i
                (record m {
                  match_type = match_type_or m.match_type d.match_type;
                  action = action_or m.action map_action;
                })
                machine)
              (λ r adds. Ensures-then (Adds i machine) _ _ (λ _.
                Ensures-bind (SameRule r.1) (Adds i machine) _ _
                  (complete_options-SameRule (observer_or r.1.observer_type d.observer_type)
                    (record r.1 { observer_type = observer_or r.1.observer_type d.observer_type }))
                  (λ done same. ap (λ rs. add_rules rs machine.fsm) (same i) ∙ adds))))))

  load_mappings-more :
      (has_logger : Bool) (i : ℕ) (m : MetricMapping F Re) (ms : List (MetricMapping F Re))
      (machine : Machine)
      → Ensures (Adds i machine) (load_mapping constants regexps d has_logger i m machine)
      → ((next : Machine)
          → Ensures
              (AddsAll (i + 1) next)
              (load_mappings constants regexps d has_logger (i + 1) ms next))
      → Ensures
          (AddsAll i machine)
          (load_mappings constants regexps d has_logger i (m ∷ ms) machine)
  load_mappings-more has_logger i m ms machine first rest =
      unfold load_mappings in
      Ensures-bind (Adds i machine) (AddsAll i machine)
        (load_mapping constants regexps d has_logger i m machine) _ first
        (λ r one.
          Ensures-bind (AddsAll (i + 1) r.0) (AddsAll i machine)
            (load_mappings constants regexps d has_logger (i + 1) ms r.0) _ (rest r.0)
            (λ more all.
              add_rules-append (rule_of i r.1) (rules_of (i + 1) more.1) machine.fsm r.0.fsm one
              ∙ all))

  pub load_mappings-AddsAll :
      (has_logger : Bool) (i : ℕ) (ms : List (MetricMapping F Re)) (machine : Machine)
      → Ensures
          (λ r. add_rules (rules_of i r.1) machine.fsm ≡ some r.0.fsm)
          (load_mappings constants regexps d has_logger i ms machine)
  load_mappings-AddsAll has_logger i [] machine = unfold load_mappings in refl
  load_mappings-AddsAll has_logger i (m ∷ ms) machine =
      load_mappings-more has_logger i m ms machine (load_mapping-Adds has_logger i m machine)
        (load_mappings-AddsAll has_logger (i + 1) ms)
