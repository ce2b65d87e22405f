-- ===== src/RandomReplacement/Contract.antt =====
-- The cache of pkg/mappercache/randomreplacement/randomreplacement.go behind the interface of
-- pkg/mapper/mapper_cache.go.
use statsd_exporter.Base.{
  ℕ, ◌≡◌, ◌⊎◌, Bool-cases, inl, inr, Option, some, Bytes, Bytes_eq, bytes_eq, bytes_eq_iff,
  if◌then◌else◌, arith,
}
use statsd_exporter.Caching.{MetricMapperCache, CacheLaws}
use statsd_exporter.RandomReplacement.{MetricMapperRrCache, get, add, reset}
use statsd_exporter.RandomReplacement.Freshness.{add-items}

module _ {V : Type 0} (choose : MetricMapperRrCache V → ℕ) where
  -- `choose` picks the entry that the iteration over the map yields first.
  abbrev pub rr_cache : MetricMapperCache (MetricMapperRrCache V) V
  rr_cache = record {
    get = λ k c. (get k c, c);
    add = λ k v c. add (choose c) k v c;
    reset = reset;
  }

abbrev pub Has : {V : Type 0} → MetricMapperRrCache V → Bytes → V → Type 0
Has c k v = get k c ≡ some v

module _ {V : Type 0} where
  added_or_before :
      (j k : Bytes) (u v : V) (o : Option V)
      → (if bytes_eq j k then some u else o) ≡ some v
      → ((j ≡ k) × (u ≡ v)) ⊎ (o ≡ some v)
  added_or_before j k u v o h = elim (Bool-cases (bytes_eq j k)) [
    | inl same ↦ inl ((bytes_eq_iff j k).0 same, grind (arith, rw same at h))
    | inr other ↦ inr (rw other at h)
  ]

  none_held : (k : Bytes) (v : V) (c : MetricMapperRrCache V) → ¬ Has (reset c) k v
  unfolding get reset
  none_held k v c h = absurd (ground arith)

-- Whichever entries are evicted: what the cache returns for a key was added for it, and a reset
-- leaves nothing.
pub rr_cache-CacheLaws :
    {V : Type 0} (choose : MetricMapperRrCache V → ℕ) → CacheLaws (rr_cache choose) Has
rr_cache-CacheLaws choose = record {
  get_holds = λ k v c h. h;
  get_keeps = λ j k v c h. h;
  add_holds = λ j k u v c h. added_or_before j k u v (get k c) (add-items k (choose c) j u v c h);
  reset_holds = none_held;
}
