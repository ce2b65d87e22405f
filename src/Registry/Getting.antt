-- ===== src/Registry/Getting.antt =====
-- `GetCounter`, `GetGauge`, `GetHistogram` and `GetSummary` of pkg/registry/registry.go, with the client
-- library and floating-point numbers as parameters. A metric or vector that is held under a type is of
-- that type.
pub mod Again
pub mod Typed
mod Tests
use statsd_exporter.Base.{
  ℕ, ◌+◌, Bool, true, false, not, ◌&&◌, ◌||◌, Option, none, some, List, [], ◌∷◌, ◌++◌, Bytes, codes,
  ltb, ◌==◌, if◌then◌else◌, Dict, lookup, insert, Eq, Bytes_eq,
}
use statsd_exporter.Config.{
  MetricObjective, SummaryOptions, HistogramOptions, MetricMapping, MapperConfigDefaults,
  slice_length,
}
use statsd_exporter.Registry.{
  MetricType, counter, gauge, summary, histogram, LabelHash, Labels, Registry, store, get,
  metric_conflicts, check_histogram_name_collision,
}
use statsd_exporter.Registry.Hashing.{hash_labels}

-- The options for a new vector: the name, the help and what the type has besides.
pub data VectorOptions (F : Type 0) : Type 0 where
  counter_options gauge_options : Bytes → Bytes → VectorOptions F
  histogram_options : Bytes → Bytes → Option (List F) → F → ℕ → VectorOptions F
  summary_options : Bytes → Bytes → Dict F F → ℕ → ℕ → ℕ → VectorOptions F

-- What the code uses of the client library, whose state is `C`: a new vector with its label names, its
-- registration, and the metric of a vector for labels. `none` is an error.
pub record Library (C F VH MH : Type 0) : Type 0 where
  pub new_vector : VectorOptions F → List Bytes → C → VH × C
  pub register : VH → C → Option C
  pub get_metric_with : VH → Labels → C → Option MH × C

-- The registry, the gauge of the metrics by type, and the client library.
pub record State (C VH MH : Type 0) : Type 0 where
  pub registry : Registry VH MH
  pub metrics_count : Dict Bytes ℕ
  pub library : C

pub data Outcome (C VH MH : Type 0) : Type 0 where
  got : MH → State C VH MH → Outcome C VH MH
  failed : State C VH MH → Outcome C VH MH
  panicked : Outcome C VH MH

abbrev pub count_of : Option ℕ → ℕ
count_of none = 0
count_of (some n) = n

-- `metricsCount.WithLabelValues(t).Inc()`.
unfoldable pub count_metric : Bytes → Dict Bytes ℕ → Dict Bytes ℕ
unfolding lookup insert
count_metric t counts = insert t (count_of (lookup t counts) + 1) counts

abbrev pub type_label : MetricType → Bytes
type_label counter = codes "counter"
type_label gauge = codes "gauge"
type_label histogram = codes "histogram"
type_label summary = codes "summary"

-- What one of the four functions is called with.
pub record Request (F : Type 0) : Type 0 where
  pub metric_name : Bytes
  pub hash : LabelHash
  pub label_names : List Bytes
  pub labels : Labels
  pub metric_type : MetricType
  pub options : VectorOptions F
  pub ttl : ℕ

module _ {C F VH MH : Type 0} (library : Library C F VH MH) where
  abbrev pub stored : ℕ → Request F → VH → State C VH MH → Option MH × C → Outcome C VH MH
  stored now q vh st (none, c) = failed (record st { library = c })
  stored now q vh st (some mh, c) = got mh (record st {
    registry = store now q.metric_name q.hash q.labels vh mh q.metric_type q.ttl st.registry;
    library = c;
  })

  -- `GetMetricWith` and the store.
  abbrev pub with_vector : ℕ → Request F → VH → State C VH MH → Outcome C VH MH
  with_vector now q vh st = stored now q vh st (library.get_metric_with vh q.labels st.library)

  abbrev pub registered : ℕ → Request F → VH → State C VH MH → C → Option C → Outcome C VH MH
  registered now q vh st c none = failed (record st { library = c })
  registered now q vh st c (some d) = with_vector now q vh (record st { library = d })

  abbrev pub made : ℕ → Request F → State C VH MH → VH × C → Outcome C VH MH
  made now q st (vh, c) = registered now q vh st c (library.register vh c)

  -- The vector that is there, or a new one, which is counted.
  abbrev pub vector_for : ℕ → Request F → State C VH MH → Option VH → Outcome C VH MH
  vector_for now q st (some vh) = with_vector now q vh st
  vector_for now q st none =
      made now q
        (record st { metrics_count = count_metric (type_label q.metric_type) st.metrics_count })
        (library.new_vector q.options q.label_names st.library)

  abbrev pub missing :
      ℕ → Request F → (Registry VH MH → Bool) → State C VH MH → Option VH → Outcome C VH MH
  missing now q collides st vh = if collides st.registry then failed st else vector_for now q st vh

  abbrev pub obtained :
      ℕ
      → Request F
      → (Registry VH MH → Bool)
      → State C VH MH
      → Option (Option VH × Option MH × Registry VH MH)
      → Outcome C VH MH
  obtained now q collides st none = panicked
  obtained now q collides st (some (vh, some mh, r)) = got mh (record st { registry = r })
  obtained now q collides st (some (vh, none, r)) =
      missing now q collides (record st { registry = r }) vh

  -- What the four functions share; `collides` is their check of other names.
  unfoldable pub obtain : ℕ → Request F → (Registry VH MH → Bool) → State C VH MH → Outcome C VH MH
  unfolding get store count_metric metric_conflicts
  obtain now q collides st =
      obtained now q (λ r. metric_conflicts q.metric_name q.metric_type r || collides r) st
        (get now q.metric_name q.hash q.metric_type st.registry)

-- The check of the names of the series that a histogram or a summary has besides its own.
abbrev pub any_conflict : {VH MH : Type 0} → Bytes → MetricType → List Bytes → Registry VH MH → Bool
any_conflict name t [] r = false
any_conflict name t (suffix ∷ suffixes) r =
    metric_conflicts (name ++ suffix) t r || any_conflict name t suffixes r

-- The comparison with zero, and the quantiles for a summary without any.
pub record Numbers (F : Type 0) : Type 0 where
  pub is_positive : F → Bool
  pub default_objectives : Dict F F

module _ {F : Type 0} ⦃e : Eq F⦄ where
  -- The loop over the quantiles.
  unfoldable pub objectives_of : List (MetricObjective F) → Dict F F → Dict F F
  unfolding insert
  objectives_of [] objectives = objectives
  objectives_of (q ∷ quantiles) objectives =
      objectives_of quantiles (insert q.quantile q.error objectives)

module _ {F : Type 0} where
  abbrev pub slice_or_empty : Option (List F) → List F
  slice_or_empty none = []
  slice_or_empty (some xs) = xs

  abbrev pub or_objectives : Dict F F → Dict F F → Dict F F
  or_objectives [] defaults = defaults
  or_objectives (o ∷ os) defaults = o ∷ os

  -- The options of a histogram, by the mapping and else by the defaults.
  abbrev pub histogram_options_of :
      Numbers F → Bytes → Bytes → HistogramOptions F → Option (HistogramOptions F) → VectorOptions F
  histogram_options_of numbers name help d none =
      histogram_options name help d.buckets d.native_histogram_bucket_factor
        d.native_histogram_max_buckets
  histogram_options_of numbers name help d (some h) =
      histogram_options name help (if ltb 0 (slice_length h.buckets) then h.buckets else d.buckets)
        (if numbers.is_positive h.native_histogram_bucket_factor
          then h.native_histogram_bucket_factor
          else d.native_histogram_bucket_factor)
        (if ltb 0 h.native_histogram_max_buckets
          then h.native_histogram_max_buckets
          else d.native_histogram_max_buckets)

module _ {F : Type 0} ⦃e : Eq F⦄ where
  -- The options of a summary: only the quantiles fall back to the defaults one by one.
  abbrev pub summary_options_of :
      Numbers F → Bytes → Bytes → SummaryOptions F → Option (SummaryOptions F) → VectorOptions F
  summary_options_of numbers name help d none =
      summary_options name help
        (or_objectives (objectives_of (slice_or_empty d.quantiles) []) numbers.default_objectives)
        d.max_age d.age_buckets d.buf_cap
  summary_options_of numbers name help d (some s) =
      summary_options name help
        (or_objectives
          (objectives_of
            (slice_or_empty (if ltb 0 (slice_length s.quantiles) then s.quantiles else d.quantiles))
            [])
          numbers.default_objectives)
        s.max_age s.age_buckets s.buf_cap

module _ {C F Re VH MH : Type 0} ⦃e : Eq F⦄ (library : Library C F VH MH) (sum64 : Bytes → ℕ)
    (numbers : Numbers F) (defaults : MapperConfigDefaults F) (now : ℕ) (metric_name : Bytes)
    (labels : Labels) (help : Bytes) (mapping : MetricMapping F Re) where
  abbrev pub request : MetricType → VectorOptions F → Request F
  request t options =
      let hashed = hash_labels sum64 labels in
      record {
        metric_name = metric_name;
        hash = hashed.0;
        label_names = hashed.1;
        labels = labels;
        metric_type = t;
        options = options;
        ttl = mapping.ttl;
      }

  unfoldable pub get_counter : State C VH MH → Outcome C VH MH
  unfolding obtain hash_labels check_histogram_name_collision
  get_counter =
      obtain library now (request counter (counter_options metric_name help))
        (check_histogram_name_collision metric_name)

  unfoldable pub get_gauge : State C VH MH → Outcome C VH MH
  unfolding obtain hash_labels check_histogram_name_collision
  get_gauge =
      obtain library now (request gauge (gauge_options metric_name help))
        (check_histogram_name_collision metric_name)

  unfoldable pub get_histogram : State C VH MH → Outcome C VH MH
  unfolding obtain hash_labels metric_conflicts
  get_histogram =
      obtain library now
        (request histogram (
          histogram_options_of numbers metric_name help defaults.histogram_options
            mapping.histogram_options))
        (any_conflict metric_name histogram (codes "_sum" ∷ codes "_count" ∷ codes "_bucket" ∷ []))

  unfoldable pub get_summary : State C VH MH → Outcome C VH MH
  unfolding obtain hash_labels metric_conflicts objectives_of
  get_summary =
      obtain library now
        (request summary (
          summary_options_of numbers metric_name help defaults.summary_options
            mapping.summary_options))
        (any_conflict metric_name summary (codes "_sum" ∷ codes "_count" ∷ []))
