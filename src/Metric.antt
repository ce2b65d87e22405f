-- ===== src/Metric.antt =====
-- The kinds of metrics (pkg/mapper/metric_type.go) and the events of pkg/event/event.go.
use statsd_exporter.Base.{Bool, Option, none, some, Bytes, bytes_eq, codes, if◌then◌else◌}

pub data MetricType : Type 0 where
  counter_type gauge_type observer_type : MetricType

-- `MetricType.UnmarshalYAML`; `none` is the error. The deprecated "timer" is an observer.
unfoldable pub unmarshal_metric_type : Bytes → Option MetricType
unmarshal_metric_type v =
    if bytes_eq v (codes "counter")
    then some counter_type
    else if bytes_eq v (codes "gauge")
    then some gauge_type
    else if bytes_eq v (codes "observer")
    then some observer_type
    else if bytes_eq v (codes "timer")
    then some observer_type
    else none

-- Events, whose values have the type `F` of floating-point numbers and whose labels are a `L`: all
-- events of a line hold the same map, so `L` may be what identifies it.
pub data Event (F L : Type 0) : Type 0 where
  counter_event : Bytes → F → L → Event F L
  gauge_event : Bytes → F → Bool → L → Event F L
  observer_event : Bytes → F → L → Event F L

module _ {F L : Type 0} where
  abbrev pub metric_name : Event F L → Bytes
  metric_name (counter_event n v l) = n
  metric_name (gauge_event n v r l) = n
  metric_name (observer_event n v l) = n

  abbrev pub value : Event F L → F
  value (counter_event n v l) = v
  value (gauge_event n v r l) = v
  value (observer_event n v l) = v

  abbrev pub labels : Event F L → L
  labels (counter_event n v l) = l
  labels (gauge_event n v r l) = l
  labels (observer_event n v l) = l

  abbrev pub metric_type : Event F L → MetricType
  metric_type (counter_event n v l) = counter_type
  metric_type (gauge_event n v r l) = gauge_type
  metric_type (observer_event n v l) = observer_type
