-- ===== src/Registry/Getting/Typed.antt =====
-- A name keeps its type (pkg/registry/registry.go).
use statsd_exporter.Base.{
  ℕ, ◌≡◌, refl, sym, ap, ◌∙◌, inl, inr, Bool, true, false, Bool-cases, ◌||◌, Option, none, some,
  Bytes, bytes_eq, bytes_eq_iff, lookup, insert, lookup-insert, ℕ_eq, Bytes_eq, if◌then◌else◌,
  arith,
}
use statsd_exporter.Registry.{
  MetricType, counter, gauge, summary, histogram, same_type, LabelHash, Labels, Vector,
  RegisteredMetric, Metric, Registry, conflicts_with, metric_conflicts, or_new, or_vector,
  store_metric, store_in, store, get_metric, get_in, get_typed, get,
}
use statsd_exporter.Registry.Getting.{
  count_metric, type_label, Request, Library, State, Outcome, got, failed, panicked, stored,
  registered, vector_for, missing, obtained, obtain,
}

same_type_eq : (t u : MetricType) → same_type t u ≡ true → t ≡ u
same_type_eq counter counter e = refl
same_type_eq gauge gauge e = refl
same_type_eq summary summary e = refl
same_type_eq histogram histogram e = refl
same_type_eq counter gauge e = absurd (ground arith)
same_type_eq counter summary e = absurd (ground arith)
same_type_eq counter histogram e = absurd (ground arith)
same_type_eq gauge counter e = absurd (ground arith)
same_type_eq gauge summary e = absurd (ground arith)
same_type_eq gauge histogram e = absurd (ground arith)
same_type_eq summary counter e = absurd (ground arith)
same_type_eq summary gauge e = absurd (ground arith)
same_type_eq summary histogram e = absurd (ground arith)
same_type_eq histogram counter e = absurd (ground arith)
same_type_eq histogram gauge e = absurd (ground arith)
same_type_eq histogram summary e = absurd (ground arith)

module _ {VH MH : Type 0} where
  abbrev pub type_in : Option (Metric VH MH) → Option MetricType
  type_in none = none
  type_in (some m) = some m.metric_type

  -- The type that a name has.
  abbrev pub type_of : Bytes → Registry VH MH → Option MetricType
  type_of name r = type_in (lookup name r)

  -- Every name that has a type keeps it.
  abbrev pub KeepsTypes : Registry VH MH → Registry VH MH → Type 0
  KeepsTypes r after =
      (name : Bytes) (t : MetricType) → type_of name r ≡ some t → type_of name after ≡ some t

  type_of-insert :
      (name other : Bytes) (m : Metric VH MH) (r : Registry VH MH)
      → type_of other (insert name m r)
        ≡ (if bytes_eq name other then some m.metric_type else type_of other r)
  type_of-insert name other m r = elim (Bool-cases (bytes_eq name other)) [
    | inl same ↦ rw (lookup-insert name other m r, same) refl
    | inr differs ↦ rw (lookup-insert name other m r, differs) refl
  ]

  -- An entry put under a name that has no other type keeps all types.
  insert-KeepsTypes :
      (name : Bytes) (m : Metric VH MH) (r : Registry VH MH)
      → ((t : MetricType) → type_of name r ≡ some t → m.metric_type ≡ t)
      → KeepsTypes r (insert name m r)
  insert-KeepsTypes name m r agrees other t e = elim (Bool-cases (bytes_eq name other)) [
    | inl same ↦
        rw (type_of-insert name other m r, same)
          (ap some (agrees t (rw ((bytes_eq_iff name other).0 same) e)))
    | inr differs ↦ rw (type_of-insert name other m r, differs) e
  ]

  type-store_metric :
      (now : ℕ) (hash : LabelHash) (labels : Labels) (mh : MH) (ttl : ℕ)
      (o : Option (RegisteredMetric MH)) (v : Vector VH) (m : Metric VH MH)
      → (store_metric now hash labels mh ttl o v m).metric_type ≡ m.metric_type
  type-store_metric now hash labels mh ttl none v m = refl
  type-store_metric now hash labels mh ttl (some rm) v m = refl

  type-store_in :
      (now : ℕ) (hash : LabelHash) (labels : Labels) (vh : VH) (mh : MH) (ttl : ℕ)
      (m : Metric VH MH)
      → (store_in now hash labels vh mh ttl m).metric_type ≡ m.metric_type
  type-store_in now hash labels vh mh ttl m =
      type-store_metric now hash labels mh ttl (lookup hash.values m.metrics)
        (or_vector vh (lookup hash.names m.vectors)) m

  type-or_new :
      (t : MetricType) (o : Option (Metric VH MH))
      → conflicts_with t o ≡ false
      → (or_new t o).metric_type ≡ t
  type-or_new t none free = refl
  type-or_new t (some m) free = same_type_eq m.metric_type t (ground arith)

  type_in-or_new :
      (t u : MetricType) (o : Option (Metric VH MH))
      → type_in o ≡ some u
      → (or_new t o).metric_type ≡ u
  type_in-or_new t u none e = absurd (ground arith)
  type_in-or_new t u (some m) e = grind arith

  store-KeepsTypes :
      (now : ℕ) (name : Bytes) (hash : LabelHash) (labels : Labels) (vh : VH) (mh : MH)
      (t : MetricType) (ttl : ℕ) (r : Registry VH MH)
      → KeepsTypes r (store now name hash labels vh mh t ttl r)
  unfolding store
  store-KeepsTypes now name hash labels vh mh t ttl r =
      insert-KeepsTypes name (store_in now hash labels vh mh ttl (or_new t (lookup name r))) r
        (λ u e.
          type-store_in now hash labels vh mh ttl (or_new t (lookup name r))
          ∙ type_in-or_new t u (lookup name r) e)

  type_of-store :
      (now : ℕ) (name : Bytes) (hash : LabelHash) (labels : Labels) (vh : VH) (mh : MH)
      (t : MetricType) (ttl : ℕ) (r : Registry VH MH)
      → conflicts_with t (lookup name r) ≡ false
      → type_of name (store now name hash labels vh mh t ttl r) ≡ some t
  unfolding store
  type_of-store now name hash labels vh mh t ttl r free =
      type_of-insert name name (store_in now hash labels vh mh ttl (or_new t (lookup name r))) r
      ∙ rw ((bytes_eq_iff name name).1 refl) (
          ap some (
            type-store_in now hash labels vh mh ttl (or_new t (lookup name r))
            ∙ type-or_new t (lookup name r) free))

  -- What `Get` for a type leaves.
  abbrev Left :
      Bytes → MetricType → Registry VH MH → Option (Option VH × Option MH × Registry VH MH) → Type 0
  Left name t r none = Unit {0}
  Left name t r (some (vh, none, after)) = after ≡ r
  Left name t r (some (vh, some mh, after)) = KeepsTypes r after × (type_of name after ≡ some t)

  get_metric-Left :
      (now : ℕ) (name : Bytes) (hash : LabelHash) (t : MetricType) (m : Metric VH MH)
      (rm : RegisteredMetric MH) (o : Option (Vector VH)) (r : Registry VH MH)
      → lookup name r ≡ some m
      → m.metric_type ≡ t
      → Left name t r (get_metric now name hash m rm o r)
  get_metric-Left now name hash t m rm none r e same = tt
  get_metric-Left now name hash t m rm (some v) r e same =
      let entry : Metric VH MH = record m {
        metrics = insert hash.values (record rm { last_registered_at = now }) m.metrics;
      } in
      (
        insert-KeepsTypes name entry r (λ u k. some-injective (sym (ap type_in e) ∙ k)),
        type_of-insert name name entry r ∙ rw ((bytes_eq_iff name name).1 refl) (ap some same),
      )
    where
      some-injective : {u : MetricType} → some m.metric_type ≡ some u → m.metric_type ≡ u
      some-injective k = cc

  get_in-Left :
      (now : ℕ) (name : Bytes) (hash : LabelHash) (t : MetricType) (m : Metric VH MH)
      (o : Option (RegisteredMetric MH)) (r : Registry VH MH)
      → lookup name r ≡ some m
      → m.metric_type ≡ t
      → Left name t r (get_in now name hash m o r)
  get_in-Left now name hash t m none r e same = refl
  get_in-Left now name hash t m (some rm) r e same =
      get_metric-Left now name hash t m rm (lookup hash.names m.vectors) r e same

  get_typed-Left :
      (now : ℕ) (name : Bytes) (hash : LabelHash) (t : MetricType) (o : Option (Metric VH MH))
      (r : Registry VH MH)
      → lookup name r ≡ o
      → Left name t r (get_typed now name hash t o r)
  get_typed-Left now name hash t none r e = refl
  get_typed-Left now name hash t (some m) r e = elim (Bool-cases (same_type m.metric_type t)) [
    | inl same ↦ rw same (
        get_in-Left now name hash t m (lookup hash.values m.metrics) r e
          (same_type_eq m.metric_type t same))
    | inr other ↦ rw other refl
  ]

module _ {C F VH MH : Type 0} (library : Library C F VH MH) (now : ℕ) (q : Request F)
    (collides : Registry VH MH → Bool) where
  abbrev type_checks : Registry VH MH → Bool
  type_checks r = metric_conflicts q.metric_name q.metric_type r || collides r

  -- No name changes its type, and a metric that is got stands under a name of its type.
  abbrev pub KeepsTypesOf : Registry VH MH → Outcome C VH MH → Type 0
  KeepsTypesOf r panicked = Unit {0}
  KeepsTypesOf r (failed after) = KeepsTypes r after.registry
  KeepsTypesOf r (got mh after) =
      KeepsTypes r after.registry × (type_of q.metric_name after.registry ≡ some q.metric_type)

  stored-KeepsTypesOf :
      (vh : VH) (st : State C VH MH) (found : Option MH × C)
      → conflicts_with q.metric_type (lookup q.metric_name st.registry) ≡ false
      → KeepsTypesOf st.registry (stored library now q vh st found)
  stored-KeepsTypesOf vh st (none, c) free = λ name t e. e
  stored-KeepsTypesOf vh st (some mh, c) free = (
    store-KeepsTypes now q.metric_name q.hash q.labels vh mh q.metric_type q.ttl st.registry,
    type_of-store now q.metric_name q.hash q.labels vh mh q.metric_type q.ttl st.registry free,
  )

  registered-KeepsTypesOf :
      (vh : VH) (st : State C VH MH) (c : C) (o : Option C)
      → conflicts_with q.metric_type (lookup q.metric_name st.registry) ≡ false
      → KeepsTypesOf st.registry (registered library now q vh st c o)
  registered-KeepsTypesOf vh st c none free = λ name t e. e
  registered-KeepsTypesOf vh st c (some d) free =
      stored-KeepsTypesOf vh (record st { library = d }) (library.get_metric_with vh q.labels d)
        free

  vector_for-KeepsTypesOf :
      (vh : Option VH) (st : State C VH MH)
      → conflicts_with q.metric_type (lookup q.metric_name st.registry) ≡ false
      → KeepsTypesOf st.registry (vector_for library now q st vh)
  vector_for-KeepsTypesOf (some vh) st free =
      stored-KeepsTypesOf vh st (library.get_metric_with vh q.labels st.library) free
  vector_for-KeepsTypesOf none st free =
      let new = library.new_vector q.options q.label_names st.library in
      registered-KeepsTypesOf new.0
        (record st { metrics_count = count_metric (type_label q.metric_type) st.metrics_count })
        new.1 (library.register new.0 new.1) free

  missing-KeepsTypesOf :
      (vh : Option VH) (st : State C VH MH)
      → KeepsTypesOf st.registry (missing library now q type_checks st vh)
  unfolding metric_conflicts
  missing-KeepsTypesOf vh st = elim (Bool-cases (type_checks st.registry)) [
    | inl refused ↦ rw refused (λ name t e. e)
    | inr free ↦ rw free (vector_for-KeepsTypesOf vh st (ground arith))
  ]

  obtained-KeepsTypesOf :
      (st : State C VH MH) (o : Option (Option VH × Option MH × Registry VH MH))
      → Left q.metric_name q.metric_type st.registry o
      → KeepsTypesOf st.registry (obtained library now q type_checks st o)
  obtained-KeepsTypesOf st none left = tt
  obtained-KeepsTypesOf st (some (vh, some mh, r)) left = left
  obtained-KeepsTypesOf st (some (vh, none, r)) left = rw left (missing-KeepsTypesOf vh st)

-- Whatever counter, gauge, histogram or summary is asked for, and whether that fails or not: no name
-- in the registry changes its type, and a metric that is got stands under a name of the type that
-- was asked for. So a name that has another type is refused.
pub obtain-KeepsTypesOf :
    {C F VH MH : Type 0} (library : Library C F VH MH) (now : ℕ) (q : Request F)
    (collides : Registry VH MH → Bool) (st : State C VH MH)
    → KeepsTypesOf library now q collides st.registry (obtain library now q collides st)
unfolding obtain get
obtain-KeepsTypesOf library now q collides st =
    obtained-KeepsTypesOf library now q collides st
      (get now q.metric_name q.hash q.metric_type st.registry)
      (get_typed-Left now q.metric_name q.hash q.metric_type (lookup q.metric_name st.registry)
        st.registry refl)
