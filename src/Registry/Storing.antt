-- ===== src/Registry/Storing.antt =====
-- What `Store` of pkg/registry/registry.go keeps.
use statsd_exporter.Base.{
  ℕ, ◌≡◌, refl, ◌∙◌, subst, true, false, Bool-cases, inl, inr, Option, none, some, [], ◌∷◌, Bytes,
  Dict, lookup, insert, lookup-insert, Eq, ℕ_eq, Bytes_eq, arith, All, ◌==◌, ◌+◌, ◌%◌, ◌^◌,
}
use statsd_exporter.Registry.Stale.{IsMap, HasVector, HasVector-insert, All-HasVector-insert}
use statsd_exporter.Registry.Lookup.{lookup-insert_same}
use statsd_exporter.Registry.Removal.{IsTidy, IsTidyEntry}
use statsd_exporter.Registry.{
  MetricType, LabelHash, Labels, Vector, RegisteredMetric, Metric, Registry, or_new, store_metric,
  store_in, store,
}

module _ {V : Type 0} where
  lookup-insert_apart :
      (k j : ℕ) (v : V) (m : Dict ℕ V)
      → k == j ≡ false
      → lookup j m ≡ none
      → lookup j (insert k v m) ≡ none
  lookup-insert_apart k j v m apart h = lookup-insert k j v m ∙ rw apart h

  IsMap-insert : (k : ℕ) (v : V) (m : Dict ℕ V) → IsMap m → IsMap (insert k v m)
  unfolding insert
  IsMap-insert k v [] u = (unfold lookup in refl, tt)
  IsMap-insert k v ((j, w) ∷ m) (h, u) = elim (Bool-cases (j == k)) [
    | inl e ↦ rw e (subst (λ x. lookup x m ≡ none) (ground arith) h, u)
    | inr e ↦ rw e (lookup-insert_apart k j v m (ground arith) h, IsMap-insert k v m u)
  ]

module _ {K : Type 0} {V : Type 0} ⦃e : Eq K⦄ where
  entry : (P : K × V → Type 0) (j k : K) (w v : V) → e.beq j k ≡ true → w ≡ v → P (j, w) → P (k, v)
  entry P j k w v same eq q =
      subst (λ x. P (k, x)) eq (subst (λ x. P (x, w)) ((e.beq_iff j k).0 same) q)

  All-insert :
      (P : K × V → Type 0) (k : K) (v : V) (m : Dict K V)
      → P (k, v)
      → All P m
      → All P (insert k v m)
  unfolding insert
  All-insert P k v [] p ps = (p, tt)
  All-insert P k v ((j, w) ∷ m) p (q, qs) = elim (Bool-cases (e.beq j k)) [
    | inl same ↦ rw same (p, qs)
    | inr other ↦ rw other (q, All-insert P k v m p qs)
  ]

  All-lookup :
      (P : K × V → Type 0) (k : K) (m : Dict K V) (v : V) → All P m → lookup k m ≡ some v → P (k, v)
  unfolding lookup
  All-lookup P k [] v ps h = absurd (ground arith)
  All-lookup P k ((j, w) ∷ m) v (q, qs) h = elim (Bool-cases (e.beq j k)) [
    | inl same ↦ entry P j k w v same (ground arith) q
    | inr other ↦ All-lookup P k m v qs (ground arith)
  ]

module _ {VH MH : Type 0} (now : ℕ) (hash : LabelHash) (labels : Labels) (vh : VH) (mh : MH)
    (ttl : ℕ) where
  store_metric-IsTidy :
      (m : Metric VH MH) (v : Vector VH) (found : Option (RegisteredMetric MH))
      → lookup hash.values m.metrics ≡ found
      → IsTidy m
      → IsTidy (store_metric now hash labels mh ttl found v m)
  store_metric-IsTidy m v none e ok = record {
    unique = IsMap-insert hash.values _ m.metrics ok.unique;
    counted =
        All-insert (HasVector _) hash.values _ m.metrics
          (
            record v { ref_count = (v.ref_count + 1) % 2 ^ 64 },
            lookup-insert_same hash.names _ m.vectors,
          )
          (All-HasVector-insert m.vectors hash.names _ m.metrics ok.counted);
  }
  store_metric-IsTidy m v (some rm) e ok = record {
    unique = IsMap-insert hash.values _ m.metrics ok.unique;
    counted =
        All-insert (HasVector (insert hash.names v m.vectors)) hash.values _ m.metrics
          (HasVector-insert m.vectors hash.names v (hash.values, rm)
            (All-lookup (HasVector m.vectors) hash.values m.metrics rm ok.counted e))
          (All-HasVector-insert m.vectors hash.names v m.metrics ok.counted);
  }

  or_new-IsTidy :
      (metric_type : MetricType) (name : Bytes) (r : Registry VH MH) (found : Option (Metric VH MH))
      → lookup name r ≡ found
      → All IsTidyEntry r
      → IsTidy (or_new metric_type found)
  or_new-IsTidy metric_type name r none e tidy = record { unique = tt; counted = tt }
  or_new-IsTidy metric_type name r (some m) e tidy = All-lookup IsTidyEntry name r m tidy e

  -- Storing a metric keeps a registry tidy: under each name no hash stands twice, and the vector
  -- that counts a metric is there.
  pub store-IsTidy :
      (name : Bytes) (metric_type : MetricType) (r : Registry VH MH)
      → All IsTidyEntry r
      → All IsTidyEntry (store now name hash labels vh mh metric_type ttl r)
  unfolding store
  store-IsTidy name metric_type r tidy =
      let m = or_new metric_type (lookup name r) in
      All-insert IsTidyEntry name (store_in now hash labels vh mh ttl m) r
        (store_metric-IsTidy m _ (lookup hash.values m.metrics) refl
          (or_new-IsTidy metric_type name r (lookup name r) refl tidy))
        tidy
