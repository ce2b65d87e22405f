-- ===== src/Lru/Tests.antt =====
-- Runs of pkg/mappercache/lru/lru.go with a small cache in place of the package.
use statsd_exporter.Base.{
  ℕ, ◌+◌, ◌≡◌, refl, List, [], ◌∷◌, Bytes, codes, length, Dict, lookup, insert, Bytes_eq,
}
use statsd_exporter.Lru.{Groupcache, MetricMapperLruCache, Step, looked_up, was_added, tracked, run}
use statsd_exporter.Lru.Contract.{answers, found_count, run-counts}

-- A package that never evicts.
abbrev unbounded : Groupcache (Dict Bytes ℕ) ℕ
unbounded = record {
  new = λ n. [];
  get = λ k l. (lookup k l, l);
  add = insert;
  len = λ l. 0;
  clear = λ l. [];
}

abbrev at_start : MetricMapperLruCache (Dict Bytes ℕ)
at_start = record { cache = []; cache_length = 0; cache_gets_total = 0; cache_hits_total = 0 }

abbrev some_steps : List (Step ℕ)
some_steps = looked_up (codes "a") ∷ was_added (codes "a") 1 ∷ tracked ∷ looked_up (codes "a") ∷ []

one_hit : (run unbounded some_steps at_start).cache_hits_total ≡ 1
unfolding run lookup insert
one_hit = refl

run-counts_example :
    ((run unbounded some_steps at_start).cache_gets_total
      ≡ 0 + length (answers unbounded some_steps at_start))
    × ((run unbounded some_steps at_start).cache_hits_total
        ≡ 0 + found_count (answers unbounded some_steps at_start))
run-counts_example = run-counts unbounded some_steps at_start
