-- ===== src/Registry/Removal.antt =====
-- `RemoveStaleMetrics` of pkg/registry/registry.go on a whole registry, and what `Store` keeps for it.
use statsd_exporter.Base.{
  ℕ, ◌≡◌, refl, sym, ap, ap₂, ◌∙◌, subst, Bool-cases, inl, inr, Option, none, some, List, [], ◌∷◌,
  ◌++◌, append_assoc, append-nil, Bytes, Dict, lookup, ℕ_eq, Bytes_eq, arith, All,
}
use statsd_exporter.Registry.Stale.{
  IsMap, live, stale_labels, gone_labels, HasVector, remove_loop-Removed,
}
use statsd_exporter.Registry.{
  MetricType, Labels, RegisteredMetric, Metric, Registry, is_stale, remove_loop, with_rest,
  remove_rest, remove_all, remove_stale_metrics,
}

module _ {MH : Type 0} where
  lookup-live :
      (now k : ℕ) (ms : Dict ℕ (RegisteredMetric MH))
      → lookup k ms ≡ none
      → lookup k (live now ms) ≡ none
  unfolding lookup
  lookup-live now k [] h = refl
  lookup-live now k ((j, rm) ∷ ms) h = ground (arith, lookup-live now k ms)

  IsMap-live : (now : ℕ) (ms : Dict ℕ (RegisteredMetric MH)) → IsMap ms → IsMap (live now ms)
  IsMap-live now [] u = tt
  IsMap-live now ((j, rm) ∷ ms) (h, u) = elim (Bool-cases (is_stale now rm)) [
    | inl old ↦ rw old (IsMap-live now ms u)
    | inr fresh ↦ rw fresh (lookup-live now j ms h, IsMap-live now ms u)
  ]

module _ {VH MH : Type 0} where
  -- The hashes of a name's metrics are different, and each has the vector that counts it.
  pub record IsTidy (m : Metric VH MH) : Type 0 where
    pub unique : IsMap m.metrics
    pub counted : All (HasVector m.vectors) m.metrics

  abbrev pub IsTidyEntry : Bytes × Metric VH MH → Type 0
  IsTidyEntry (name, m) = IsTidy m

  -- The names, the types and the metrics, without the vectors.
  abbrev pub metrics_of : Registry VH MH → List (Bytes × MetricType × Dict ℕ (RegisteredMetric MH))
  metrics_of [] = []
  metrics_of ((name, m) ∷ r) = (name, m.metric_type, m.metrics) ∷ metrics_of r

  abbrev pub live_metrics :
      ℕ → Registry VH MH → List (Bytes × MetricType × Dict ℕ (RegisteredMetric MH))
  live_metrics now [] = []
  live_metrics now ((name, m) ∷ r) = (name, m.metric_type, live now m.metrics) ∷ live_metrics now r

  abbrev pub all_stale_labels : ℕ → Registry VH MH → List Labels
  all_stale_labels now [] = []
  all_stale_labels now ((name, m) ∷ r) = stale_labels now m.metrics ++ all_stale_labels now r

  -- What `RemoveStaleMetrics` arrives at.
  pub record Swept (now : ℕ) (r : Registry VH MH) (gone : List (VH × Labels))
      (result : Option (Registry VH MH × List (VH × Labels))) : Type 0 where
    pub after : Registry VH MH
    pub deleted : List (VH × Labels)
    pub returns : result ≡ some (after, deleted)
    pub keeps_live : metrics_of after ≡ live_metrics now r
    pub keeps_tidy : All IsTidyEntry after
    pub deletes_stale : gone_labels deleted ≡ gone_labels gone ++ all_stale_labels now r

  remove_all-cons :
      (now : ℕ) (name : Bytes) (m : Metric VH MH) (r : Registry VH MH) (gone : List (VH × Labels))
      (after : Metric VH MH) (deleted : List (VH × Labels))
      → remove_loop now m.metrics (some (m, gone)) ≡ some (after, deleted)
      → remove_all now ((name, m) ∷ r) gone ≡ with_rest name after (remove_all now r deleted)
  remove_all-cons now name m r gone after deleted e =
      unfold remove_all in ap (λ o. remove_rest name o (remove_all now r)) e

  remove_all-Swept :
      (now : ℕ) (r : Registry VH MH) (gone : List (VH × Labels))
      → All IsTidyEntry r
      → Swept now r gone (remove_all now r gone)
  remove_all-Swept now [] gone tidy = record {
    after = [];
    deleted = gone;
    returns = unfold remove_all in refl;
    keeps_live = refl;
    keeps_tidy = tt;
    deletes_stale = sym (append-nil (gone_labels gone));
  }
  remove_all-Swept now ((name, m) ∷ r) gone (ok, tidy) =
      let s = remove_loop-Removed now [] m.metrics m gone refl ok.unique tt ok.counted in
      let rest = remove_all-Swept now r s.deleted tidy in
      record {
        after = (name, s.after) ∷ rest.after;
        deleted = rest.deleted;
        returns =
            remove_all-cons now name m r gone s.after s.deleted s.returns
            ∙ ap (with_rest name s.after) rest.returns;
        keeps_live =
            ap₂ (λ t ms. (name, t, ms) ∷ metrics_of rest.after) s.keeps_type s.keeps_live
            ∙ ap (λ z. (name, m.metric_type, live now m.metrics) ∷ z) rest.keeps_live;
        keeps_tidy = (
          record {
            unique = subst IsMap (sym s.keeps_live) (IsMap-live now m.metrics ok.unique);
            counted = s.counted;
          },
          rest.keeps_tidy,
        );
        deletes_stale =
            rest.deletes_stale
            ∙ ap (λ z. z ++ all_stale_labels now r) s.deletes_stale
            ∙ append_assoc (gone_labels gone) (stale_labels now m.metrics) (all_stale_labels now r);
      }

  -- In a tidy registry (no hash twice under a name, and each metric's vector there)
  -- `RemoveStaleMetrics` does not panic: it keeps the names with their types and just the metrics
  -- that are not stale, deletes just the labels of the stale ones in the client library, and leaves
  -- the registry tidy.
  pub remove_stale_metrics-Swept :
      (now : ℕ) (r : Registry VH MH)
      → All IsTidyEntry r
      → Swept now r [] (remove_stale_metrics now r)
  unfolding remove_stale_metrics
  remove_stale_metrics-Swept now r tidy = remove_all-Swept now r [] tidy
