-- ===== src/Registry.antt =====
-- pkg/registry/registry.go and pkg/metrics/metrics.go: the metrics that the exporter has, by name and
-- labels. `none` stands for a panic, where the code reads a vector that is not in the map.
pub mod Lookup
pub mod Stale
pub mod Removal
pub mod Storing
pub mod Hashing
pub mod Getting
mod Tests
use statsd_exporter.Base.{
  ℕ, zero, suc, ◌+◌, ◌-◌, ◌*◌, ◌%◌, ◌^◌, Bool, true, false, not, ◌&&◌, ◌||◌, Option, none, some,
  List, [], ◌∷◌, ◌++◌, map, Bytes, codes, ltb, leb, ◌==◌, if◌then◌else◌, length, take, drop,
  bytes_eq, Dict, lookup, insert, delete, ℕ_eq, Bytes_eq,
}

pub data MetricType : Type 0 where
  counter gauge summary histogram : MetricType

abbrev pub same_type : MetricType → MetricType → Bool
same_type counter counter = true
same_type gauge gauge = true
same_type summary summary = true
same_type histogram histogram = true
same_type _ _ = false

-- Hashes over the label names, and over the names and values.
pub record LabelHash : Type 0 where
  pub names : ℕ
  pub values : ℕ

abbrev pub Labels : Type 0
Labels = Dict Bytes Bytes

-- `VH` and `MH` are the vectors and metrics of the client library; times and durations are in
-- nanoseconds. The labels of a metric are those at the call of `Store`; the source keeps the map itself,
-- which the exporter may write later.
pub record Vector (VH : Type 0) : Type 0 where
  pub holder : VH
  pub ref_count : ℕ

pub record RegisteredMetric (MH : Type 0) : Type 0 where
  pub last_registered_at : ℕ
  pub labels : Labels
  pub ttl : ℕ
  pub metric : MH
  pub vec_key : ℕ

pub record Metric (VH MH : Type 0) : Type 0 where
  pub metric_type : MetricType
  pub vectors : Dict ℕ (Vector VH)
  pub metrics : Dict ℕ (RegisteredMetric MH)

abbrev uint64 : ℕ
uint64 = 2 ^ 64

-- `Registry.Metrics`.
abbrev pub Registry : Type 0 → Type 0 → Type 0
Registry VH MH = Dict Bytes (Metric VH MH)

module _ {VH : Type 0} where
  abbrev pub or_vector : VH → Option (Vector VH) → Vector VH
  or_vector vh none = record { holder = vh; ref_count = 0 }
  or_vector vh (some v) = v

  abbrev pub found_vector : Option (Vector VH) → Option VH
  found_vector none = none
  found_vector (some v) = some v.holder

module _ {MH : Type 0} where
  abbrev pub is_stale : ℕ → RegisteredMetric MH → Bool
  is_stale now rm = not (rm.ttl == 0) && ltb (rm.last_registered_at + rm.ttl) now

abbrev pub has_suffix : Bytes → Bytes → Bool
has_suffix s suffix =
    leb (length suffix) (length s) && bytes_eq (drop (length s - length suffix) s) suffix

module _ {VH MH : Type 0} where
  abbrev pub conflicts_with : MetricType → Option (Metric VH MH) → Bool
  conflicts_with metric_type none = false
  conflicts_with metric_type (some vector) = not (same_type vector.metric_type metric_type)

  unfoldable pub metric_conflicts : Bytes → MetricType → Registry VH MH → Bool
  unfolding lookup
  metric_conflicts name metric_type r = conflicts_with metric_type (lookup name r)

  -- `r.Metrics[metricName]`, made if it is missing.
  abbrev pub or_new : MetricType → Option (Metric VH MH) → Metric VH MH
  or_new metric_type none = record { metric_type = metric_type; vectors = []; metrics = [] }
  or_new metric_type (some metric) = metric

  -- The end of `Store`, with the entry of the values' hash and the vector.
  abbrev pub store_metric :
      ℕ
      → LabelHash
      → Labels
      → MH
      → ℕ
      → Option (RegisteredMetric MH)
      → Vector VH
      → Metric VH MH
      → Metric VH MH
  store_metric now hash labels mh ttl none v m = record m {
    vectors = insert hash.names (record v { ref_count = (v.ref_count + 1) % uint64 }) m.vectors;
    metrics =
        insert hash.values
          (record {
            last_registered_at = now;
            labels = labels;
            ttl = ttl;
            metric = mh;
            vec_key = hash.names;
          })
          m.metrics;
  }
  store_metric now hash labels mh ttl (some rm) v m = record m {
    vectors = insert hash.names v m.vectors;
    metrics = insert hash.values (record rm { last_registered_at = now; ttl = ttl }) m.metrics;
  }

  abbrev pub store_in : ℕ → LabelHash → Labels → VH → MH → ℕ → Metric VH MH → Metric VH MH
  store_in now hash labels vh mh ttl m =
      store_metric now hash labels mh ttl (lookup hash.values m.metrics)
        (or_vector vh (lookup hash.names m.vectors)) m

  -- `Store` at the time `now`.
  unfoldable pub store :
      ℕ → Bytes → LabelHash → Labels → VH → MH → MetricType → ℕ → Registry VH MH → Registry VH MH
  unfolding lookup insert
  store now name hash labels vh mh metric_type ttl r =
      insert name (store_in now hash labels vh mh ttl (or_new metric_type (lookup name r))) r

  -- The parts of `Get`: a metric that is there, whose time is refreshed, and a vector without it.
  abbrev pub get_metric :
      ℕ
      → Bytes
      → LabelHash
      → Metric VH MH
      → RegisteredMetric MH
      → Option (Vector VH)
      → Registry VH MH
      → Option (Option VH × Option MH × Registry VH MH)
  get_metric now name hash m rm none r = none
  get_metric now name hash m rm (some v) r = some (
    some v.holder,
    some rm.metric,
    insert name
        (record m {
          metrics = insert hash.values (record rm { last_registered_at = now }) m.metrics;
        })
        r,
  )

  abbrev pub get_in :
      ℕ
      → Bytes
      → LabelHash
      → Metric VH MH
      → Option (RegisteredMetric MH)
      → Registry VH MH
      → Option (Option VH × Option MH × Registry VH MH)
  get_in now name hash m none r = some (found_vector (lookup hash.names m.vectors), none, r)
  get_in now name hash m (some rm) r = get_metric now name hash m rm (lookup hash.names m.vectors) r

  abbrev pub get_typed :
      ℕ
      → Bytes
      → LabelHash
      → MetricType
      → Option (Metric VH MH)
      → Registry VH MH
      → Option (Option VH × Option MH × Registry VH MH)
  get_typed now name hash metric_type none r = some (none, none, r)
  get_typed now name hash metric_type (some m) r =
      if not (same_type m.metric_type metric_type)
      then some (none, none, r)
      else get_in now name hash m (lookup hash.values m.metrics) r

  -- `Get` at the time `now`: the vector and the metric, and the registry behind it.
  unfoldable pub get :
      ℕ
      → Bytes
      → LabelHash
      → MetricType
      → Registry VH MH
      → Option (Option VH × Option MH × Registry VH MH)
  unfolding lookup insert
  get now name hash metric_type r = get_typed now name hash metric_type (lookup name r) r

  -- `checkHistogramNameCollision`; `true` is the error.
  unfoldable pub collides : Bytes → Registry VH MH → List Bytes → Bool
  unfolding metric_conflicts
  collides name r [] = false
  collides name r (suffix ∷ suffixes) =
      if has_suffix name suffix
        && metric_conflicts (take (length name - length suffix) name) counter r
      then true
      else collides name r suffixes

  unfoldable pub check_histogram_name_collision : Bytes → Registry VH MH → Bool
  unfolding collides
  check_histogram_name_collision name r =
      collides name r (codes "_bucket" ∷ codes "_count" ∷ codes "_sum" ∷ [])

  -- `RemoveStaleMetrics`. What is left of a metric, and the vectors and labels deleted in the client
  -- library.
  abbrev pub remove_metric :
      ℕ
      → RegisteredMetric MH
      → Option (Vector VH)
      → Metric VH MH × List (VH × Labels)
      → Option (Metric VH MH × List (VH × Labels))
  remove_metric hash rm none (m, gone) = none
  remove_metric hash rm (some v) (m, gone) = some (
    record m {
      vectors =
          insert rm.vec_key (record v { ref_count = (v.ref_count + (uint64 - 1)) % uint64 })
            m.vectors;
      metrics = delete hash m.metrics;
    },
    gone ++ (v.holder, rm.labels) ∷ [],
  )

  -- The loop over the metrics of one name.
  unfoldable pub remove_loop :
      ℕ
      → Dict ℕ (RegisteredMetric MH)
      → Option (Metric VH MH × List (VH × Labels))
      → Option (Metric VH MH × List (VH × Labels))
  unfolding lookup insert delete
  remove_loop now entries none = none
  remove_loop now [] (some s) = some s
  remove_loop now ((hash, rm) ∷ entries) (some s) =
      remove_loop now entries (
        if is_stale now rm then remove_metric hash rm (lookup rm.vec_key s.0.vectors) s else some s)

  abbrev pub with_rest :
      Bytes
      → Metric VH MH
      → Option (Registry VH MH × List (VH × Labels))
      → Option (Registry VH MH × List (VH × Labels))
  with_rest name m none = none
  with_rest name m (some (r, gone)) = some ((name, m) ∷ r, gone)

  abbrev pub remove_rest :
      Bytes
      → Option (Metric VH MH × List (VH × Labels))
      → (List (VH × Labels) → Option (Registry VH MH × List (VH × Labels)))
      → Option (Registry VH MH × List (VH × Labels))
  remove_rest name none rest = none
  remove_rest name (some (m, gone)) rest = with_rest name m (rest gone)

  -- The loop over the names, in some order.
  unfoldable pub remove_all :
      ℕ → Registry VH MH → List (VH × Labels) → Option (Registry VH MH × List (VH × Labels))
  unfolding remove_loop
  remove_all now [] gone = some ([], gone)
  remove_all now ((name, m) ∷ r) gone =
      remove_rest name (remove_loop now m.metrics (some (m, gone))) (remove_all now r)

  unfoldable pub remove_stale_metrics :
      ℕ → Registry VH MH → Option (Registry VH MH × List (VH × Labels))
  unfolding remove_all
  remove_stale_metrics now r = remove_all now r []
