-- ===== src/Registry/Getting/Again.antt =====
-- What was got once (pkg/registry/registry.go) is got again.
use statsd_exporter.Base.{
  ℕ, ◌≡◌, refl, subst, ◌∙◌, inl, inr, Bool, true, false, Bool-cases, ◌||◌, Option, none, some,
  Bytes, lookup, insert, ℕ_eq, Bytes_eq, arith,
}
use statsd_exporter.Registry.{
  MetricType, same_type, LabelHash, Vector, RegisteredMetric, Metric, Registry, conflicts_with,
  metric_conflicts, store, get_metric, get_in, get_typed, get,
}
use statsd_exporter.Registry.Lookup.{
  lookup-insert_same, known_metric, holder_or, known_vector, get-store,
}
use statsd_exporter.Registry.Getting.{
  count_metric, type_label, Request, Library, State, Outcome, got, failed, panicked, stored,
  registered, vector_for, missing, obtained, obtain,
}

module _ {VH MH : Type 0} where
  -- What a second `Get` finds.
  abbrev Finds : MH → Option (Option VH × Option MH × Registry VH MH) → Type 0
  Finds mh o = (vh : Option VH) × (r : Registry VH MH) × (o ≡ some (vh, some mh, r))

  abbrev FoundAgain :
      ℕ → Bytes → LabelHash → MetricType → Option (Option VH × Option MH × Registry VH MH) → Type 0
  FoundAgain later name hash t none = Unit {0}
  FoundAgain later name hash t (some (vh, none, r)) = Unit {0}
  FoundAgain later name hash t (some (vh, some mh, r)) = Finds mh (get later name hash t r)

  get_metric-again :
      (now later : ℕ) (name : Bytes) (hash : LabelHash) (t : MetricType) (m : Metric VH MH)
      (rm : RegisteredMetric MH) (o : Option (Vector VH)) (r : Registry VH MH)
      → same_type m.metric_type t ≡ true
      → lookup hash.names m.vectors ≡ o
      → FoundAgain later name hash t (get_metric now name hash m rm o r)
  unfolding get
  get_metric-again now later name hash t m rm none r same e = tt
  get_metric-again now later name hash t m rm (some v) r same e =
      let entry : Metric VH MH = record m {
        metrics = insert hash.values (record rm { last_registered_at = now }) m.metrics;
      } in
      let again : Metric VH MH = record entry {
        metrics = insert hash.values (record rm { last_registered_at = later }) entry.metrics;
      } in
      (
        some v.holder,
        insert name again (insert name entry r),
        rw (lookup-insert_same, same, lookup-insert_same, e) refl,
      )

  get_in-again :
      (now later : ℕ) (name : Bytes) (hash : LabelHash) (t : MetricType) (m : Metric VH MH)
      (o : Option (RegisteredMetric MH)) (r : Registry VH MH)
      → same_type m.metric_type t ≡ true
      → FoundAgain later name hash t (get_in now name hash m o r)
  get_in-again now later name hash t m none r same = tt
  get_in-again now later name hash t m (some rm) r same =
      get_metric-again now later name hash t m rm (lookup hash.names m.vectors) r same refl

  get_typed-again :
      (now later : ℕ) (name : Bytes) (hash : LabelHash) (t : MetricType) (o : Option (Metric VH MH))
      (r : Registry VH MH)
      → FoundAgain later name hash t (get_typed now name hash t o r)
  get_typed-again now later name hash t none r = tt
  get_typed-again now later name hash t (some m) r = elim (Bool-cases (same_type m.metric_type t)) [
    | inl same ↦
        rw same (get_in-again now later name hash t m (lookup hash.values m.metrics) r same)
    | inr other ↦ rw other tt
  ]

  get-again :
      (now later : ℕ) (name : Bytes) (hash : LabelHash) (t : MetricType) (r : Registry VH MH)
      → FoundAgain later name hash t (get now name hash t r)
  unfolding get
  get-again now later name hash t r = get_typed-again now later name hash t (lookup name r) r

  -- Where `Get` finds no metric, the registry stays as it is, and there is none under the type.
  abbrev Misses :
      LabelHash
      → MetricType
      → Registry VH MH
      → Option (Metric VH MH)
      → Option (Option VH × Option MH × Registry VH MH)
      → Type 0
  Misses hash t r o none = Unit {0}
  Misses hash t r o (some (vh, some mh, after)) = Unit {0}
  Misses hash t r o (some (vh, none, after)) =
      (after ≡ r) × (conflicts_with t o ≡ false → known_metric hash o ≡ none)

  get_typed-Misses :
      (now : ℕ) (name : Bytes) (hash : LabelHash) (t : MetricType) (o : Option (Metric VH MH))
      (r : Registry VH MH)
      → Misses hash t r o (get_typed now name hash t o r)
  get_typed-Misses now name hash t none r = (refl, λ free. refl)
  get_typed-Misses now name hash t (some m) r = elim (Bool-cases (same_type m.metric_type t)) [
    | inl same ↦ rw same (found (lookup hash.values m.metrics) refl)
    | inr other ↦ rw other (refl, λ free. absurd (ground arith))
  ]
    where
      found_metric :
          (rm : RegisteredMetric MH) (v : Option (Vector VH))
          → Misses hash t r (some m) (get_metric now name hash m rm v r)
      found_metric rm none = tt
      found_metric rm (some v) = tt

      found :
          (p : Option (RegisteredMetric MH))
          → lookup hash.values m.metrics ≡ p
          → Misses hash t r (some m) (get_in now name hash m p r)
      found none e = (refl, λ free. e)
      found (some rm) e = found_metric rm (lookup hash.names m.vectors)

module _ {C F VH MH : Type 0} (library : Library C F VH MH) (now later : ℕ) (q : Request F)
    (collides : Registry VH MH → Bool) where
  -- The check that the four functions make before they make a metric.
  abbrev checks : Registry VH MH → Bool
  checks r = metric_conflicts q.metric_name q.metric_type r || collides r

  abbrev GotAgain : Outcome C VH MH → Type 0
  GotAgain (failed st) = Unit {0}
  GotAgain panicked = Unit {0}
  GotAgain (got mh after) =
      (r : Registry VH MH) × (obtain library later q collides after
        ≡ got mh (record after { registry = r }))

  -- If `Get` finds the metric, then the library is left alone.
  got_found :
      (mh : MH) (st : State C VH MH)
      → Finds mh (get later q.metric_name q.hash q.metric_type st.registry)
      → (r : Registry VH MH) × (obtain library later q collides st
          ≡ got mh (record st { registry = r }))
  unfolding obtain
  got_found mh st (vh, r, e) = (r, rw e refl)

  stored-again :
      (vh : VH) (st : State C VH MH) (found : Option MH × C)
      → checks st.registry ≡ false
      → known_metric q.hash (lookup q.metric_name st.registry) ≡ none
      → GotAgain (stored library now q vh st found)
  stored-again vh st (none, c) free unknown = tt
  stored-again vh st (some mh, c) free unknown = got_found mh _ (
    some (holder_or vh (known_vector q.hash (lookup q.metric_name st.registry))),
    store later q.metric_name q.hash q.labels vh mh q.metric_type q.ttl st.registry,
    get-store now later q.metric_name q.hash q.labels vh mh q.ttl q.metric_type st.registry
          (ground arith)
        ∙ rw unknown refl,
  )

  registered-again :
      (vh : VH) (st : State C VH MH) (c : C) (o : Option C)
      → checks st.registry ≡ false
      → known_metric q.hash (lookup q.metric_name st.registry) ≡ none
      → GotAgain (registered library now q vh st c o)
  registered-again vh st c none free unknown = tt
  registered-again vh st c (some d) free unknown =
      stored-again vh (record st { library = d }) (library.get_metric_with vh q.labels d) free
        unknown

  vector_for-again :
      (vh : Option VH) (st : State C VH MH)
      → checks st.registry ≡ false
      → known_metric q.hash (lookup q.metric_name st.registry) ≡ none
      → GotAgain (vector_for library now q st vh)
  vector_for-again (some vh) st free unknown =
      stored-again vh st (library.get_metric_with vh q.labels st.library) free unknown
  vector_for-again none st free unknown =
      let new = library.new_vector q.options q.label_names st.library in
      registered-again new.0
        (record st { metrics_count = count_metric (type_label q.metric_type) st.metrics_count })
        new.1 (library.register new.0 new.1) free unknown

  no_conflict :
      (st : State C VH MH)
      → checks st.registry ≡ false
      → conflicts_with q.metric_type (lookup q.metric_name st.registry) ≡ false
  unfolding metric_conflicts
  no_conflict st free = ground arith

  missing-again :
      (vh : Option VH) (st : State C VH MH)
      → (conflicts_with q.metric_type (lookup q.metric_name st.registry) ≡ false
          → known_metric q.hash (lookup q.metric_name st.registry) ≡ none)
      → GotAgain (missing library now q checks st vh)
  missing-again vh st unknown = elim (Bool-cases (checks st.registry)) [
    | inl refused ↦ rw refused tt
    | inr free ↦ rw free (vector_for-again vh st free (unknown (no_conflict st free)))
  ]

  obtained-again :
      (st : State C VH MH) (o : Option (Option VH × Option MH × Registry VH MH))
      → Misses q.hash q.metric_type st.registry (lookup q.metric_name st.registry) o
      → FoundAgain later q.metric_name q.hash q.metric_type o
      → GotAgain (obtained library now q checks st o)
  obtained-again st none misses found = tt
  obtained-again st (some (vh, some mh, r)) misses found =
      got_found mh (record st { registry = r }) found
  obtained-again st (some (vh, none, r)) misses found = rw misses.0 (missing-again vh st misses.1)

-- Once a counter, gauge, histogram or summary was got for a name and labels, asking for it again, at
-- whatever time, returns the same metric, and leaves the client library and the gauge of the metrics
-- alone.
pub obtain-again :
    {C F VH MH : Type 0} (library : Library C F VH MH) (now later : ℕ) (q : Request F)
    (collides : Registry VH MH → Bool) (mh : MH) (st after : State C VH MH)
    → obtain library now q collides st ≡ got mh after
    → (r : Registry VH MH) × (obtain library later q collides after
        ≡ got mh (record after { registry = r }))
obtain-again library now later q collides mh st after e =
    subst (GotAgain library now later q collides) e (
      unfold obtain get in
      obtained-again library now later q collides st
        (get now q.metric_name q.hash q.metric_type st.registry)
        (get_typed-Misses now q.metric_name q.hash q.metric_type (lookup q.metric_name st.registry)
          st.registry)
        (get-again now later q.metric_name q.hash q.metric_type st.registry))
