-- ===== src/Registry/Lookup.antt =====
-- `Store` and `Get` of pkg/registry/registry.go together.
use statsd_exporter.Base.{
  ℕ, ◌≡◌, refl, ap, ◌∙◌, true, false, Option, none, some, [], ◌∷◌, Bytes, Dict, lookup, insert,
  lookup-insert, beq_refl, Eq, ℕ_eq, Bytes_eq, arith,
}
use statsd_exporter.Registry.{
  MetricType, counter, gauge, summary, histogram, same_type, LabelHash, Labels, Vector,
  RegisteredMetric, Metric, Registry, conflicts_with, metric_conflicts, or_new, or_vector,
  store_metric, store_in, store, get_in, get_typed, get,
}

module _ {ℓ κ} {K : Type ℓ} {V : Type κ} ⦃e : Eq K⦄ where
  pub lookup-insert_same : (k : K) (v : V) (m : Dict K V) → lookup k (insert k v m) ≡ some v
  lookup-insert_same k v m = lookup-insert k k v m ∙ rw (beq_refl k) refl

  insert-insert : (k : K) (v w : V) (m : Dict K V) → insert k v (insert k w m) ≡ insert k v m
  unfolding insert
  insert-insert k v w [] = rw (beq_refl k) refl
  insert-insert k v w ((j, u) ∷ m) = ground (arith, beq_refl k, insert-insert k v w m)

module _ {VH : Type 0} where
  abbrev pub holder_or : VH → Option (Vector VH) → VH
  holder_or vh none = vh
  holder_or vh (some v) = v.holder

module _ {MH : Type 0} where
  abbrev pub metric_or : MH → Option (RegisteredMetric MH) → MH
  metric_or mh none = mh
  metric_or mh (some rm) = rm.metric

module _ {VH MH : Type 0} where
  -- The vector and the metric that are known for a name and a hash.
  abbrev pub known_vector : LabelHash → Option (Metric VH MH) → Option (Vector VH)
  known_vector hash none = none
  known_vector hash (some m) = lookup hash.names m.vectors

  abbrev pub known_metric : LabelHash → Option (Metric VH MH) → Option (RegisteredMetric MH)
  known_metric hash none = none
  known_metric hash (some m) = lookup hash.values m.metrics

  module _ (now later : ℕ) (name : Bytes) (hash : LabelHash) (labels : Labels) (vh : VH) (mh : MH)
      (ttl : ℕ) where
    get_in-store_metric :
        (m : Metric VH MH) (v : Vector VH) (found : Option (RegisteredMetric MH))
        (r : Registry VH MH)
        → (let stored = store_metric now hash labels mh ttl found v m in
            get_in later name hash stored (lookup hash.values stored.metrics) r)
          ≡ some (
            some v.holder,
            some (metric_or mh found),
            insert name (store_metric later hash labels mh ttl found v m) r,
          )
    get_in-store_metric m v none r = rw (lookup-insert_same, lookup-insert_same, insert-insert) refl
    get_in-store_metric m v (some rm) r =
        rw (lookup-insert_same, lookup-insert_same, insert-insert) refl

    or_vector-holder : (v : Option (Vector VH)) → (or_vector vh v).holder ≡ holder_or vh v
    or_vector-holder none = refl
    or_vector-holder (some v) = refl

    same_type_refl : (t : MetricType) → same_type t t ≡ true
    same_type_refl counter = refl
    same_type_refl gauge = refl
    same_type_refl summary = refl
    same_type_refl histogram = refl

    -- The same for the entry of the name, whatever the type, if that is the entry's.
    get_typed-store_in :
        (m : Metric VH MH) (metric_type : MetricType) (r : Registry VH MH)
        → same_type m.metric_type metric_type ≡ true
        → get_typed later name hash metric_type (some (store_in now hash labels vh mh ttl m)) r
          ≡ some (
            some (holder_or vh (lookup hash.names m.vectors)),
            some (metric_or mh (lookup hash.values m.metrics)),
            insert name (store_in later hash labels vh mh ttl m) r,
          )
    get_typed-store_in m metric_type r same =
        typed (lookup hash.values m.metrics) (or_vector vh (lookup hash.names m.vectors))
        ∙ ap
            (λ h. some (
              some h,
              some (metric_or mh (lookup hash.values m.metrics)),
              insert name (store_in later hash labels vh mh ttl m) r,
            ))
            (or_vector-holder (lookup hash.names m.vectors))
      where
        typed :
            (found : Option (RegisteredMetric MH)) (v : Vector VH)
            → get_typed later name hash metric_type
                (some (store_metric now hash labels mh ttl found v m))
                r
              ≡ some (
                some v.holder,
                some (metric_or mh found),
                insert name (store_metric later hash labels mh ttl found v m) r,
              )
        typed none v = rw same (get_in-store_metric m v none r)
        typed (some rm) v = rw same (get_in-store_metric m v (some rm) r)

    -- If the name is free or has the type, then `Get` behind `Store` does not panic: it returns the
    -- vector and the metric that were there before, or else those that were stored, and leaves the
    -- registry that storing at the time of `Get` would have made.
    pub get-store :
        (metric_type : MetricType) (r : Registry VH MH)
        → metric_conflicts name metric_type r ≡ false
        → get later name hash metric_type (store now name hash labels vh mh metric_type ttl r)
          ≡ some (
            some (holder_or vh (known_vector hash (lookup name r))),
            some (metric_or mh (known_metric hash (lookup name r))),
            store later name hash labels vh mh metric_type ttl r,
          )
    unfolding get store metric_conflicts
    get-store metric_type r free = known (lookup name r) free
      where
        known :
            (found : Option (Metric VH MH))
            → conflicts_with metric_type found ≡ false
            → (let stored = store_in now hash labels vh mh ttl (or_new metric_type found) in
                get_typed later name hash metric_type
                  (lookup name (insert name stored r))
                  (insert name stored r))
              ≡ some (
                some (holder_or vh (known_vector hash found)),
                some (metric_or mh (known_metric hash found)),
                insert name (store_in later hash labels vh mh ttl (or_new metric_type found)) r,
              )
        known none h =
            rw
              (
                lookup-insert_same,
                get_typed-store_in (or_new metric_type none) metric_type _
                    (same_type_refl metric_type),
                insert-insert,
              )
              (unfold lookup in refl)
        known (some m) h =
            rw
              (lookup-insert_same, get_typed-store_in m metric_type _ (ground arith), insert-insert)
              refl
