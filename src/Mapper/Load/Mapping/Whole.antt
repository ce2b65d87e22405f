-- ===== src/Mapper/Load/Mapping/Whole.antt =====
-- The whole body of the loop over the mappings (pkg/mapper/mapper.go).
use statsd_exporter.Base.{ℕ, ◌≡◌, sym, ap, ◌∙◌, subst, Bool, true, ◌&&◌, ◌||◌, Option, List, Bytes}
use statsd_exporter.Settings.{
  MatchType, ActionType, map_action, ObserverType, default_observer, histogram_observer,
  summary_observer,
}
use statsd_exporter.Template.{TemplateFormatter}
use statsd_exporter.Config.{MetricMapping, MapperConfigDefaults, observer_or}
use statsd_exporter.Config.Patterns.{is_metric_name}
use statsd_exporter.Mapper.{Regexps}
use statsd_exporter.Mapper.Load.{
  invalid_label_key, no_metric_name, invalid_metric_name, Constants, is_there, or_default,
  match_type_or, action_or, is_glob, all_label_names, is_cons, has_quantiles, has_buckets,
  check_legacy, Machine, metric_types, complete_options, place_mapping, load_mapping,
}
use statsd_exporter.Mapper.Load.Ensures.{Ensures, Ensures-bind, Ensures-require}
use statsd_exporter.Mapper.Load.Mapping.{
  IsPlaced, HasOptions, Checked, Placed, Completed, HasLegacyOnce,
}
use statsd_exporter.Mapper.Load.Mapping.Steps.{
  place_mapping-Placed, complete_options-Completed, check_legacy-HasLegacyOnce,
}

module _ {F Re Sub : Type 0} (constants : Constants F) (regexps : Regexps Re Sub)
    (d : MapperConfigDefaults F) where
  -- The options depend on the options and the deprecated fields only.
  HasOptions-with :
      (raw m : MetricMapping F Re) (mt : MatchType) (a : ActionType) (nf : Option TemplateFormatter)
      (re : Option Re) (ks : List Bytes) (fs : List TemplateFormatter) (o : ObserverType) (l : ℕ)
      (t : ObserverType)
      → HasOptions constants regexps d
          (record raw {
            match_type = mt;
            action = a;
            name_formatter = nf;
            regex = re;
            label_keys = ks;
            label_formatters = fs;
            observer_type = o;
          })
          t
          m
      → HasOptions constants regexps d raw t (record m { ttl = l })
  HasOptions-with raw m mt a nf re ks fs o l default_observer h = h
  HasOptions-with raw m mt a nf re ks fs o l histogram_observer h = h
  HasOptions-with raw m mt a nf re ks fs o l summary_observer h = h

  -- The mapping with its match type and action, and behind the placing with its observer type.
  abbrev typed : MetricMapping F Re → MetricMapping F Re
  typed raw = record raw {
    match_type = match_type_or raw.match_type d.match_type;
    action = action_or raw.action map_action;
  }

  abbrev observed : MetricMapping F Re → MetricMapping F Re
  observed m = record m { observer_type = observer_or m.observer_type d.observer_type }

  -- What the steps of the loop's body add up to: placed, then completed, then given a time to live.
  checked :
      (raw : MetricMapping F Re) (machine : Machine) (r : Machine × MetricMapping F Re)
      (done : MetricMapping F Re)
      → all_label_names raw.labels ≡ true
      → is_cons raw.name ≡ true
      → is_metric_name raw.name ≡ true
      → Placed constants regexps d (typed raw) machine r
      → HasLegacyOnce constants regexps d r.1
      → Completed constants regexps d (observed r.1).observer_type (observed r.1) done
      → Checked constants regexps d raw machine
          (r.0, record done { ttl = or_default done.ttl d.ttl })
  checked raw machine r done labels named valid (place, e, (types, flag)) once (has, f) = (
    record {
      labels_named =
          ap (λ x. all_label_names x.labels) f ∙ (ap (λ x. all_label_names x.labels) e ∙ labels);
      has_name = ap (λ x. is_cons x.name) f ∙ (ap (λ x. is_cons x.name) e ∙ named);
      name_checked =
          ap (λ x. is_metric_name x.name) f ∙ (ap (λ x. is_metric_name x.name) e ∙ valid);
      quantiles_once =
          sym (ap (λ x. is_there x.legacy_quantiles && has_quantiles x.summary_options) e) ∙ once.0;
      buckets_once =
          sym (ap (λ x. is_there x.legacy_buckets && has_buckets x.histogram_options) e) ∙ once.1;
      same_match = ap (λ x. x.match) f ∙ ap (λ x. x.match) e;
      same_metric_type = ap (λ x. x.match_metric_type) f ∙ ap (λ x. x.match_metric_type) e;
      same_name = ap (λ x. x.name) f ∙ ap (λ x. x.name) e;
      same_labels = ap (λ x. x.labels) f ∙ ap (λ x. x.labels) e;
      has_match_type = ap (λ x. x.match_type) f ∙ ap (λ x. x.match_type) e;
      has_action = ap (λ x. x.action) f ∙ ap (λ x. x.action) e;
      has_observer_type =
          ap (λ x. x.observer_type) f ∙ ap (λ x. observer_or x.observer_type d.observer_type) e;
      has_ttl = ap (λ x. or_default x.ttl d.ttl) f ∙ ap (λ x. or_default x.ttl d.ttl) e;
      placed = subst (IsPlaced constants regexps d) (sym f) place;
      options =
          HasOptions-with raw done (match_type_or raw.match_type d.match_type)
            (action_or raw.action map_action) r.1.name_formatter r.1.regex r.1.label_keys
            r.1.label_formatters (observer_or raw.observer_type d.observer_type)
            (or_default done.ttl d.ttl) (observer_or raw.observer_type d.observer_type)
            (subst
              (λ x.
                HasOptions constants regexps d
                  (record x { observer_type = observer_or x.observer_type d.observer_type })
                  (observer_or x.observer_type d.observer_type) done)
              e has);
    },
    (types, flag ∙ sym (ap (λ x. machine.do_fsm || is_glob x.match_type) f)),
  )

  pub load_mapping-Checked :
      (has_logger : Bool) (i : ℕ) (raw : MetricMapping F Re) (machine : Machine)
      → machine.fsm.metric_types ≡ metric_types
      → Ensures
          (Checked constants regexps d raw machine)
          (load_mapping constants regexps d has_logger i raw machine)
  unfolding load_mapping
  load_mapping-Checked has_logger i raw machine types =
      let P = Checked constants regexps d raw machine in
      Ensures-require P (all_label_names raw.labels) invalid_label_key _ (λ labels.
        Ensures-require P (is_cons raw.name) no_metric_name _ (λ named.
          Ensures-require P (is_metric_name raw.name) invalid_metric_name _ (λ valid.
            Ensures-bind (Placed constants regexps d (typed raw) machine) P
              (place_mapping constants regexps d i (typed raw) machine) _
              (place_mapping-Placed constants regexps d i (typed raw) machine types)
              (λ r place.
                Ensures-bind (λ u. HasLegacyOnce constants regexps d r.1) P
                  (check_legacy has_logger (observed r.1)) _
                  (check_legacy-HasLegacyOnce constants regexps d has_logger (observed r.1))
                  (λ u once.
                    Ensures-bind
                      (Completed constants regexps d (observed r.1).observer_type (observed r.1)) P
                      (complete_options constants d (observed r.1).observer_type (observed r.1)) _
                      (complete_options-Completed constants regexps d (observed r.1).observer_type
                        (observed r.1))
                      (λ done has.
                        checked raw machine r done labels named valid place once has))))))
