-- ===== src/RandomReplacement.antt =====
-- pkg/mappercache/randomreplacement/randomreplacement.go: a cache of mapping results that evicts an
-- arbitrary entry when it is full.
pub mod Freshness
pub mod Contract
mod Tests
use statsd_exporter.Base.{
  ℕ, zero, suc, Bool, true, false, Option, none, some, List, [], ◌∷◌, Bytes, ltb, ◌==◌,
  if◌then◌else◌, length, Dict, lookup, insert, delete, Bytes_eq,
}

pub record MetricMapperRrCache (V : Type 0) : Type 0 where
  pub size : ℕ
  pub items : Dict Bytes V
  -- The gauge of the cache's metrics.
  pub cache_length : ℕ

module _ {V : Type 0} where
  -- The first key that `range` over a map yields is any of its keys: `n` chooses.
  abbrev pub key_at : ℕ → Dict Bytes V → Option Bytes
  key_at n [] = none
  key_at n ((k, v) ∷ []) = some k
  key_at zero ((k, v) ∷ x ∷ m) = some k
  key_at (suc n) ((k, v) ∷ x ∷ m) = key_at n (x ∷ m)

  -- `NewMetricMapperRRCache`; there is no cache for a size that is not positive.
  abbrev pub new_metric_mapper_rr_cache : ℕ → Option (MetricMapperRrCache V)
  new_metric_mapper_rr_cache zero = none
  new_metric_mapper_rr_cache (suc size) =
      some (record { size = suc size; items = []; cache_length = 0 })

  unfoldable pub get : Bytes → MetricMapperRrCache V → Option V
  unfolding lookup
  get key c = lookup key c.items

  abbrev pub evict : Option Bytes → Dict Bytes V → Dict Bytes V
  evict none m = m
  evict (some k) m = delete k m

  abbrev pub evict_if_needed : ℕ → ℕ → Dict Bytes V → Dict Bytes V
  evict_if_needed size n m = if ltb size (length m) then evict (key_at n m) m else m

  -- `Add`, where `n` chooses what is evicted. `trackCacheLength` runs later, as a step of its own.
  unfoldable pub add : ℕ → Bytes → V → MetricMapperRrCache V → MetricMapperRrCache V
  unfolding insert delete
  add n key result c = record c { items = evict_if_needed c.size n (insert key result c.items) }

  unfoldable pub reset : MetricMapperRrCache V → MetricMapperRrCache V
  reset c = record c { items = []; cache_length = 0 }

  unfoldable pub track_cache_length : MetricMapperRrCache V → MetricMapperRrCache V
  track_cache_length c = record c { cache_length = length c.items }

-- The steps of callers and of the goroutines of `Add`, each under the lock.
pub data Step (V : Type 0) : Type 0 where
  added : ℕ → Bytes → V → Step V
  was_reset tracked : Step V

module _ {V : Type 0} where
  unfoldable pub run : List (Step V) → MetricMapperRrCache V → MetricMapperRrCache V
  unfolding add reset track_cache_length
  run [] c = c
  run (added n key result ∷ steps) c = run steps (add n key result c)
  run (was_reset ∷ steps) c = run steps (reset c)
  run (tracked ∷ steps) c = run steps (track_cache_length c)
