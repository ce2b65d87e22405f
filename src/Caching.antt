-- ===== src/Caching.antt =====
-- pkg/mapper/mapper_cache.go: the interface of the mapping caches, and their keys.
use statsd_exporter.Base.{◌≡◌, ◌⊎◌, Option, some, ◌∷◌, ◌++◌, Bytes, codes}
use statsd_exporter.Metric.{MetricType, counter_type, gauge_type, observer_type}

-- `MetricMapperCache` on the state `C`. Looking a key up may change the state.
pub record MetricMapperCache (C V : Type 0) : Type 0 where
  pub get : Bytes → C → Option V × C
  pub add : Bytes → V → C → C
  pub reset : C → C

-- What a client relies on: `Holds c k v` says that the cache may answer `v` for `k`.
pub record CacheLaws {C V : Type 0} (cache : MetricMapperCache C V) (Holds : C → Bytes → V → Type 0)
    : Type 0 where
  pub get_holds : (k : Bytes) (v : V) (c : C) → (cache.get k c).0 ≡ some v → Holds c k v
  pub get_keeps : (j k : Bytes) (v : V) (c : C) → Holds (cache.get j c).1 k v → Holds c k v
  pub add_holds :
      (j k : Bytes) (u v : V) (c : C)
      → Holds (cache.add j u c) k v
      → ((j ≡ k) × (u ≡ v)) ⊎ Holds c k v
  pub reset_holds : (k : Bytes) (v : V) (c : C) → ¬ Holds (cache.reset c) k v

-- The text of a metric type.
abbrev pub type_name : MetricType → Bytes
type_name counter_type = codes "counter"
type_name gauge_type = codes "gauge"
type_name observer_type = codes "observer"

-- `formatKey`.
unfoldable pub format_key : Bytes → MetricType → Bytes
format_key metric_string metric_type = type_name metric_type ++ (b'.' ∷ metric_string)
