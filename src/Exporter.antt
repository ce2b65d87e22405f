-- ===== src/Exporter.antt =====
-- pkg/exporter/exporter.go: what an event does to the metrics. `none` is a panic: of `EscapeMetricName`, or
-- of the mapper, the registry or a counter, which are parameters.
pub mod Accounts
pub mod Listening
pub mod LabelsOf
mod Tests
use statsd_exporter.Base.{
  ℕ, zero, suc, ◌+◌, ◌≡◌, Bool, true, false, not, ◌&&◌, ◌||◌, Option, none, some, List, [], ◌∷◌,
  ◌++◌, Bytes, codes, if◌then◌else◌, Dict, lookup, insert, Bytes_eq, ℕ_eq,
}
use statsd_exporter.Escape.{escape_metric_name}
use statsd_exporter.Metric.{
  MetricType, Event, counter_event, gauge_event, observer_event, metric_name, value, labels,
  metric_type,
}
use statsd_exporter.Settings.{
  ActionType, map_action, drop_action, default_action, ObserverType, histogram_observer,
  summary_observer, default_observer,
}
use statsd_exporter.Tags.{is_empty}

abbrev pub Labels : Type 0
Labels = Dict Bytes Bytes

-- The fields of `MetricMapping` that the exporter reads; `scale` is none if it is not set. `options`
-- stands for the others, which only the registry reads.
pub record MetricMapping (F O : Type 0) : Type 0 where
  pub name : Bytes
  pub honor_labels : Bool
  pub observer_type : ObserverType
  pub help_text : Bytes
  pub action : ActionType
  pub ttl : ℕ
  pub scale : Option F
  pub options : O

-- `Mapper.Defaults`, as far as the exporter reads it, with the options of an empty mapping.
pub record Defaults (O : Type 0) : Type 0 where
  pub default_ttl : ℕ
  pub default_observer_type : ObserverType
  pub no_options : O

-- `MetricMapper.GetMapping` on the mapper's state `M`: a mapping, its labels, and whether it matched.
-- `none` is a panic.
abbrev pub GetMapping : Type 0 → Type 0 → Type 0 → Type 0
GetMapping F O M =
    Bytes → MetricType → M → Option ((Option (MetricMapping F O) × Labels × Bool) × M)

-- The interface `Registry`, and the metrics `H` that it hands out, on the state `W` of both. The
-- outer `none` is a panic, as of `Add` for a negative number, the inner `none` an error.
pub record Registry (F O H W : Type 0) : Type 0 where
  pub get_counter : Bytes → Labels → Bytes → MetricMapping F O → W → Option (Option H × W)
  pub get_gauge : Bytes → Labels → Bytes → MetricMapping F O → W → Option (Option H × W)
  pub get_histogram : Bytes → Labels → Bytes → MetricMapping F O → W → Option (Option H × W)
  pub get_summary : Bytes → Labels → Bytes → MetricMapping F O → W → Option (Option H × W)
  pub remove_stale_metrics : W → Option W
  pub counter_add : H → F → W → Option W
  pub gauge_add : H → F → W → W
  pub gauge_set : H → F → W → W
  pub observe : H → F → W → W

-- What the code uses of `float64`.
pub record Arithmetic (F : Type 0) : Type 0 where
  pub times : F → F → F
  pub is_negative : F → Bool

pub data ErrorReason : Type 0 where
  empty_metric_name illegal_negative_counter : ErrorReason

pub data StatKind : Type 0 where
  counter_stat gauge_stat observer_stat : StatKind

-- The state that an event changes: the maps of labels by address (the events of a line share one),
-- the mapper, the registry, and the increments of the exporter's own counters in order.
pub record Exporter (M W : Type 0) : Type 0 where
  pub maps : Dict ℕ Labels
  pub mapper : M
  pub registry : W
  pub dropped : ℕ
  pub events_actions : List ActionType
  pub events_unmapped : ℕ
  pub error_event_stats : List ErrorReason
  pub event_stats : List StatKind
  pub conflicting_event_stats : List (StatKind × Bytes)

abbrev pub default_help : Bytes
default_help = codes "Metric autogenerated by statsd_exporter."

abbrev pub labels_at : Option Labels → Labels
labels_at none = []
labels_at (some ls) = ls

abbrev pub is_there : Option Bytes → Bool
is_there none = false
is_there (some v) = true

abbrev pub is_drop : ActionType → Bool
is_drop drop_action = true
is_drop map_action = false
is_drop default_action = false

-- The loop that adds a mapping's labels to those of the event.
unfoldable pub merge_labels : Bool → Labels → Labels → Labels
unfolding lookup insert
merge_labels honor [] ls = ls
merge_labels honor ((label, value) ∷ more) ls =
    merge_labels honor more
      (if honor && is_there (lookup label ls) then ls else insert label value ls)

abbrev pub observer_or : ObserverType → ObserverType → ObserverType
observer_or default_observer t = t
observer_or histogram_observer t = histogram_observer
observer_or summary_observer t = summary_observer

module _ {F O : Type 0} where
  abbrev pub or_empty : Defaults O → Option (MetricMapping F O) → MetricMapping F O
  or_empty d (some m) = m
  or_empty d none = record {
    name = [];
    honor_labels = false;
    observer_type = default_observer;
    help_text = [];
    action = default_action;
    ttl = d.default_ttl;
    scale = none;
    options = d.no_options;
  }

module _ {F : Type 0} where
  abbrev pub scaled : Arithmetic F → Option F → F → F
  scaled a none v = v
  scaled a (some s) v = a.times v s

-- What `Listen` selects: a tick of its ticker, or a batch of events.
pub data Round (F : Type 0) : Type 0 where
  ticked : Round F
  received : List (Event F ℕ) → Round F

module _ {M W : Type 0} where
  abbrev pub error_stat : ErrorReason → Exporter M W → Exporter M W
  error_stat r b = record b { error_event_stats = b.error_event_stats ++ r ∷ [] }

  abbrev pub conflict : StatKind → Bytes → W → Exporter M W → Exporter M W
  conflict k name w b = record b {
    registry = w;
    conflicting_event_stats = b.conflicting_event_stats ++ (k, name) ∷ [];
  }

  abbrev pub updated : StatKind → Option W → Exporter M W → Option (Exporter M W)
  updated k none b = none
  updated k (some w) b = some (record b { registry = w; event_stats = b.event_stats ++ k ∷ [] })

module _ {H M W : Type 0} where
  -- What comes of asking the registry for a metric: an update, or a conflict.
  abbrev pub update :
      StatKind
      → Bytes
      → (H → W → Option W)
      → Option (Option H × W)
      → Exporter M W
      → Option (Exporter M W)
  update k name f none b = none
  update k name f (some (none, w)) b = some (conflict k name w b)
  update k name f (some (some h, w)) b = updated k (f h w) b

module _ {F O H M W : Type 0} (defaults : Defaults O) (arithmetic : Arithmetic F)
    (registry : Registry F O H W) (get_mapping : GetMapping F O M) where
  -- An observer's event, for the type of its mapping or else the default.
  unfoldable pub observe_as :
      ObserverType
      → Bytes
      → Labels
      → Bytes
      → MetricMapping F O
      → F
      → Exporter M W
      → Option (Exporter M W)
  observe_as histogram_observer name ls help mapping v b =
      update observer_stat name (λ h w. some (registry.observe h v w))
        (registry.get_histogram name ls help mapping b.registry) b
  observe_as summary_observer name ls help mapping v b =
      update observer_stat name (λ h w. some (registry.observe h v w))
        (registry.get_summary name ls help mapping b.registry) b
  observe_as default_observer name ls help mapping v b =
      update observer_stat name (λ h w. some (registry.observe h v w))
        (registry.get_summary name ls help mapping b.registry) b

  -- The end of `handleEvent`, by the kind of the event; `v` is its scaled value.
  unfoldable pub update_metric :
      Event F ℕ → Bytes → Bytes → MetricMapping F O → F → Exporter M W → Option (Exporter M W)
  unfolding observe_as lookup
  update_metric (counter_event n _ l) name help mapping v b =
      if arithmetic.is_negative v
      then some (error_stat illegal_negative_counter b)
      else update counter_stat name (λ h w. registry.counter_add h v w)
          (registry.get_counter name (labels_at (lookup l b.maps)) help mapping b.registry) b
  update_metric (gauge_event n _ relative l) name help mapping v b =
      update gauge_stat name
        (λ h w. some (if relative then registry.gauge_add h v w else registry.gauge_set h v w))
        (registry.get_gauge name (labels_at (lookup l b.maps)) help mapping b.registry) b
  update_metric (observer_event n _ l) name help mapping v b =
      observe_as (observer_or mapping.observer_type defaults.default_observer_type) name
        (labels_at (lookup l b.maps)) help mapping v b

  abbrev pub with_name :
      Event F ℕ → MetricMapping F O → Option Bytes → Exporter M W → Option (Exporter M W)
  with_name e mapping none b = none
  with_name e mapping (some name) b =
      update_metric e name (if is_empty mapping.help_text then default_help else mapping.help_text)
        mapping (scaled arithmetic mapping.scale (value e)) b

  -- `labels` are the mapping's, written into the map of the event.
  abbrev pub mapped : Event F ℕ → MetricMapping F O → Labels → Exporter M W → Exporter M W
  mapped e mapping ls b = record b {
    maps =
        insert (labels e)
          (merge_labels mapping.honor_labels ls (labels_at (lookup (labels e) b.maps))) b.maps;
    events_actions = b.events_actions ++ mapping.action ∷ [];
  }

  -- `handleEvent` behind `GetMapping`.
  unfoldable pub handle_mapped :
      Event F ℕ → MetricMapping F O → Labels → Bool → Exporter M W → Option (Exporter M W)
  unfolding update_metric insert lookup merge_labels
  handle_mapped e mapping ls present b =
      if is_drop mapping.action
      then some (record b { dropped = b.dropped + 1 })
      else if present
      then (if is_empty mapping.name
          then some (error_stat empty_metric_name b)
          else with_name e mapping (escape_metric_name mapping.name) (mapped e mapping ls b))
      else with_name e mapping (escape_metric_name (metric_name e))
          (record b { events_unmapped = b.events_unmapped + 1 })

  abbrev pub handle_found :
      Event F ℕ
      → Option ((Option (MetricMapping F O) × Labels × Bool) × M)
      → Exporter M W
      → Option (Exporter M W)
  handle_found e none b = none
  handle_found e (some ((mapping, ls, present), m)) b =
      handle_mapped e (or_empty defaults mapping) ls present (record b { mapper = m })

  unfoldable pub handle_event : Event F ℕ → Exporter M W → Option (Exporter M W)
  unfolding handle_mapped
  handle_event e b = handle_found e (get_mapping (metric_name e) (metric_type e) b.mapper) b

  unfoldable pub handle_events : List (Event F ℕ) → Option (Exporter M W) → Option (Exporter M W)
  unfolding handle_event
  handle_events es none = none
  handle_events [] (some b) = some b
  handle_events (e ∷ es) (some b) = handle_events es (handle_event e b)

  -- One round of `Listen`: a tick, or a batch of events from the channel.
  abbrev pub swept : Option W → Exporter M W → Option (Exporter M W)
  swept none b = none
  swept (some w) b = some (record b { registry = w })

  unfoldable pub on_tick : Exporter M W → Option (Exporter M W)
  on_tick b = swept (registry.remove_stale_metrics b.registry) b

  unfoldable pub on_events : List (Event F ℕ) → Exporter M W → Option (Exporter M W)
  unfolding handle_events
  on_events es b = handle_events es (some b)

  -- `Listen`: the rounds in the order in which it takes them.
  unfoldable pub listen : List (Round F) → Option (Exporter M W) → Option (Exporter M W)
  unfolding on_tick on_events
  listen rounds none = none
  listen [] (some b) = some b
  listen (ticked ∷ rounds) (some b) = listen rounds (on_tick b)
  listen (received es ∷ rounds) (some b) = listen rounds (on_events es b)
