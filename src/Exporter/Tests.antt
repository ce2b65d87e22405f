-- ===== src/Exporter/Tests.antt =====
-- Runs of pkg/exporter/exporter.go with a registry that writes down its updates.
use statsd_exporter.Base.{
  ℕ, suc, ◌*◌, ◌≡◌, refl, Bool, true, false, Option, none, some, List, [], ◌∷◌, Bytes, codes,
  lookup, Bytes_eq,
}
use statsd_exporter.Metric.{
  counter_type, gauge_type, observer_type, Event, counter_event, gauge_event, observer_event,
}
use statsd_exporter.Settings.{map_action, default_observer}
use statsd_exporter.Exporter.Accounts.{Accounts}
use statsd_exporter.Exporter.LabelsOf.{lookup-merge_labels}
use statsd_exporter.Exporter.{
  Labels, MetricMapping, Defaults, GetMapping, Registry, Arithmetic, Exporter, Round, ticked,
  received, merge_labels, handle_events,
}

-- A number with its sign: true if it is negative.
abbrev Signed : Type 0
Signed = Bool × ℕ

abbrev differ : Bool → Bool → Bool
differ true true = false
differ false true = true
differ true false = true
differ false false = false

abbrev signed : Arithmetic Signed
signed = record { times = λ x y. (differ x.0 y.0, x.1 * y.1); is_negative = λ x. x.0 }

-- The names and labels of the updates.
abbrev Updates : Type 0
Updates = List (Bytes × Labels)

abbrev hand_out :
    Bytes
    → Labels
    → Bytes
    → MetricMapping Signed Bool
    → Updates
    → Option (Option (Bytes × Labels) × Updates)
hand_out name ls help mapping w = some (some (name, ls), w)

-- The `Add` of a counter, which panics for a negative number.
abbrev add : Bytes × Labels → Signed → Updates → Option Updates
add h (true, n) w = none
add h (false, n) w = some (h ∷ w)

abbrev write_down : Bytes × Labels → Signed → Updates → Updates
write_down h v w = h ∷ w

abbrev writing : Registry Signed Bool (Bytes × Labels) Updates
writing = record {
  get_counter = hand_out;
  get_gauge = hand_out;
  get_histogram = hand_out;
  get_summary = hand_out;
  remove_stale_metrics = λ w. some [];
  counter_add = add;
  gauge_add = write_down;
  gauge_set = write_down;
  observe = write_down;
}

abbrev no_defaults : Defaults Bool
no_defaults = record {
  default_ttl = 0;
  default_observer_type = default_observer;
  no_options = true;
}

-- The mapping of a glob `*` to `$1`, with a scale.
abbrev captured : Bytes → Option Signed → MetricMapping Signed Bool
captured n s = record {
  name = n;
  honor_labels = false;
  observer_type = default_observer;
  help_text = [];
  action = map_action;
  ttl = 0;
  scale = s;
  options = true;
}

-- Counters keep their name and get a label; gauges are scaled by a negative number; observers are
-- not mapped. The mapper counts its answers.
abbrev by_type : GetMapping Signed Bool ℕ
by_type n counter_type m =
    some ((some (captured n none), (codes "job", codes "x") ∷ [], true), suc m)
by_type n gauge_type m = some ((some (captured n (some (true, 2))), [], true), suc m)
by_type n observer_type m = some ((none, [], false), suc m)

abbrev idle : Exporter ℕ Updates
idle = record {
  maps = [];
  mapper = 0;
  registry = [];
  dropped = 0;
  events_actions = [];
  events_unmapped = 0;
  error_event_stats = [];
  event_stats = [];
  conflicting_event_stats = [];
}

-- Events of one line, which share the map 0; the second is refused.
abbrev one_line : List (Event Signed ℕ)
one_line =
    counter_event (codes "a") (false, 1) 0
    ∷ counter_event (codes "a") (true, 1) 0
    ∷ observer_event (codes "a") (false, 2) 0
    ∷ []

abbrev updates : Option (Exporter ℕ Updates) → Option Updates
updates none = none
updates (some b) = some b.registry

-- The label of the counter's mapping is also on the observer, which is not mapped.
label_on_both :
    updates (handle_events no_defaults signed writing by_type one_line (some idle))
    ≡ some (
        (codes "a", (codes "job", codes "x") ∷ [])
        ∷ (codes "a", (codes "job", codes "x") ∷ [])
        ∷ [])
unfolding handle_events statsd_exporter.Escape.escape_metric_name
label_on_both = refl

abbrev AnyMapper : ℕ → Type 0
AnyMapper m = Unit {0}

abbrev AnyUpdates : Updates → Type 0
AnyUpdates w = Unit {0}

-- A batch, a tick, and a gauge that is scaled.
abbrev some_rounds : List (Round Signed)
some_rounds =
    received one_line ∷ ticked ∷ received (gauge_event (codes "a") (false, 2) false 0 ∷ []) ∷ []

lookup-merge_labels_example :
    lookup
      (codes "job")
      (merge_labels true ((codes "job", codes "x") ∷ []) ((codes "job", codes "y") ∷ []))
    ≡ some (codes "y")
unfolding lookup
lookup-merge_labels_example =
    lookup-merge_labels true ((codes "job", codes "x") ∷ []) ((codes "job", codes "y") ∷ [])
      (codes "job") (refl, tt)
