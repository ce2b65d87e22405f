-- ===== src/Lru.antt =====
-- pkg/mappercache/lru/lru.go: a cache of mapping results around the package
-- github.com/golang/groupcache/lru, with its metrics.
pub mod Contract
mod Tests
use statsd_exporter.Base.{
  ℕ, zero, suc, ◌+◌, ◌≡◌, ◌⊎◌, ◌≤◌, refl, inl, inr, Option, none, some, List, [], ◌∷◌, Bytes, arith,
}
use statsd_exporter.Caching.{MetricMapperCache, CacheLaws}

-- What the file uses of the package; looking a key up makes it the most recently used one.
pub record Groupcache (L V : Type 0) : Type 0 where
  pub new : ℕ → L
  pub get : Bytes → L → Option V × L
  pub add : Bytes → V → L → L
  pub len : L → ℕ
  pub clear : L → L

-- What its documentation says: a lookup finds what was added, and changes the order of the entries
-- only; an addition may evict others; nothing is there behind a clear.
pub record GroupcacheLaws {L V : Type 0} (groupcache : Groupcache L V)
    (contents : L → Bytes → Option V) : Type 0 where
  pub get_contents : (k : Bytes) (l : L) → (groupcache.get k l).0 ≡ contents l k
  pub get_same : (j k : Bytes) (l : L) → contents (groupcache.get j l).1 k ≡ contents l k
  pub add_contents :
      (j k : Bytes) (u v : V) (l : L)
      → contents (groupcache.add j u l) k ≡ some v
      → ((j ≡ k) × (u ≡ v)) ⊎ (contents l k ≡ some v)
  pub clear_contents : (k : Bytes) (l : L) → contents (groupcache.clear l) k ≡ none

-- The cache and the values of its metrics.
pub record MetricMapperLruCache (L : Type 0) : Type 0 where
  pub cache : L
  pub cache_length : ℕ
  pub cache_gets_total : ℕ
  pub cache_hits_total : ℕ

module _ {L V : Type 0} (groupcache : Groupcache L V) where
  -- `NewMetricMapperLRUCache`; there is no cache for a size that is not positive.
  abbrev pub new_metric_mapper_lru_cache : ℕ → Option (MetricMapperLruCache L)
  new_metric_mapper_lru_cache zero = none
  new_metric_mapper_lru_cache (suc size) = some (record {
    cache = groupcache.new (suc size);
    cache_length = 0;
    cache_gets_total = 0;
    cache_hits_total = 0;
  })

  abbrev counted : MetricMapperLruCache L → Option V × L → Option V × MetricMapperLruCache L
  counted m (some result, l) =
      (some result, record m { cache = l; cache_hits_total = m.cache_hits_total + 1 })
  counted m (none, l) = (none, record m { cache = l })

  -- `Get`, as one step, although the source holds only the read lock in it.
  unfoldable pub get : Bytes → MetricMapperLruCache L → Option V × MetricMapperLruCache L
  get key m =
      counted (record m { cache_gets_total = m.cache_gets_total + 1 }) (groupcache.get key m.cache)

  -- `Add`. `trackCacheLength` runs later, as a step of its own.
  unfoldable pub add : Bytes → V → MetricMapperLruCache L → MetricMapperLruCache L
  add key result m = record m { cache = groupcache.add key result m.cache }

  unfoldable pub track_cache_length : MetricMapperLruCache L → MetricMapperLruCache L
  track_cache_length m = record m { cache_length = groupcache.len m.cache }

  unfoldable pub reset : MetricMapperLruCache L → MetricMapperLruCache L
  reset m = record m { cache = groupcache.clear m.cache; cache_length = 0 }

  abbrev pub lru_cache : MetricMapperCache (MetricMapperLruCache L) V
  lru_cache = record { get = get; add = add; reset = reset }

-- The steps of callers and of the goroutines of `Add`.
pub data Step (V : Type 0) : Type 0 where
  looked_up : Bytes → Step V
  was_added : Bytes → V → Step V
  was_reset tracked : Step V

module _ {L V : Type 0} (groupcache : Groupcache L V) where
  unfoldable pub run : List (Step V) → MetricMapperLruCache L → MetricMapperLruCache L
  unfolding get add reset track_cache_length
  run [] m = m
  run (looked_up key ∷ steps) m = run steps (get groupcache key m).1
  run (was_added key result ∷ steps) m = run steps (add groupcache key result m)
  run (was_reset ∷ steps) m = run steps (reset groupcache m)
  run (tracked ∷ steps) m = run steps (track_cache_length groupcache m)
