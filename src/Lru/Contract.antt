-- ===== src/Lru/Contract.antt =====
-- What the cache of pkg/mappercache/lru/lru.go promises, and what its metrics count.
use statsd_exporter.Base.{
  ℕ, ◌+◌, ◌≡◌, refl, sym, ap, ◌∙◌, Option, none, some, List, [], ◌∷◌, Bytes, length, arith,
}
use statsd_exporter.Caching.{CacheLaws}
use statsd_exporter.Lru.{
  Groupcache, GroupcacheLaws, MetricMapperLruCache, counted, get, add, track_cache_length, reset,
  lru_cache, Step, looked_up, was_added, was_reset, tracked, run,
}

-- How many of the answers are results.
abbrev pub found_count : {V : Type 0} → List (Option V) → ℕ
found_count [] = 0
found_count (none ∷ answers) = found_count answers
found_count (some result ∷ answers) = found_count answers + 1

module _ {L V : Type 0} (groupcache : Groupcache L V) where
  -- What the lookups among the steps return, in order.
  abbrev pub answers : List (Step V) → MetricMapperLruCache L → List (Option V)
  answers [] m = []
  answers (looked_up key ∷ steps) m =
      (get groupcache key m).0 ∷ answers steps (get groupcache key m).1
  answers (was_added key result ∷ steps) m = answers steps (add groupcache key result m)
  answers (was_reset ∷ steps) m = answers steps (reset groupcache m)
  answers (tracked ∷ steps) m = answers steps (track_cache_length groupcache m)

  counted-fields :
      (m : MetricMapperLruCache L) (got : Option V × L)
      → ((counted groupcache m got).0 ≡ got.0)
        × ((counted groupcache m got).1.cache ≡ got.1)
        × ((counted groupcache m got).1.cache_gets_total ≡ m.cache_gets_total)
        × ((counted groupcache m got).1.cache_hits_total
            ≡ m.cache_hits_total + found_count ((counted groupcache m got).0 ∷ []))
  counted-fields m (some result, l) = (refl, refl, refl, refl)
  counted-fields m (none, l) = (refl, refl, refl, omega arith)

  get-result :
      (k : Bytes) (m : MetricMapperLruCache L)
      → ((get groupcache k m).0 ≡ (groupcache.get k m.cache).0)
        × ((get groupcache k m).1.cache ≡ (groupcache.get k m.cache).1)
  unfolding get
  get-result k m =
      let fields =
        counted-fields (record m { cache_gets_total = m.cache_gets_total + 1 })
          (groupcache.get k m.cache) in
      (fields.0, fields.1)

  get-counts :
      (k : Bytes) (m : MetricMapperLruCache L)
      → ((get groupcache k m).1.cache_gets_total ≡ m.cache_gets_total + 1)
        × ((get groupcache k m).1.cache_hits_total
            ≡ m.cache_hits_total + found_count ((get groupcache k m).0 ∷ []))
  unfolding get
  get-counts k m =
      let fields =
        counted-fields (record m { cache_gets_total = m.cache_gets_total + 1 })
          (groupcache.get k m.cache) in
      (fields.2, fields.3)

  found_count-cons :
      (o : Option V) (os : List (Option V))
      → found_count (o ∷ os) ≡ found_count (o ∷ []) + found_count os
  found_count-cons none os = omega arith
  found_count-cons (some result) os = omega arith

  -- Over any calls the metric of gets grows by the number of lookups, and the metric of hits by the
  -- number of those that returned a result.
  pub run-counts :
      (steps : List (Step V)) (m : MetricMapperLruCache L)
      → ((run groupcache steps m).cache_gets_total ≡ m.cache_gets_total + length (answers steps m))
        × ((run groupcache steps m).cache_hits_total
            ≡ m.cache_hits_total + found_count (answers steps m))
  unfolding run add reset track_cache_length
  run-counts [] m = (omega arith, omega arith)
  run-counts (looked_up key ∷ steps) m =
      let one = get-counts key m in
      let more = run-counts steps (get groupcache key m).1 in
      (
        omega (arith, one.0, more.0),
        omega (
          arith,
          one.1,
          more.1,
          found_count-cons (get groupcache key m).0 (answers steps (get groupcache key m).1),
        ),
      )
  run-counts (was_added key result ∷ steps) m = run-counts steps (add groupcache key result m)
  run-counts (was_reset ∷ steps) m = run-counts steps (reset groupcache m)
  run-counts (tracked ∷ steps) m = run-counts steps (track_cache_length groupcache m)

module _ {L V : Type 0} (contents : L → Bytes → Option V) where
  abbrev pub Has : MetricMapperLruCache L → Bytes → V → Type 0
  Has m k v = contents m.cache k ≡ some v

module _ {L V : Type 0} (groupcache : Groupcache L V) (contents : L → Bytes → Option V) where
  -- With a package that keeps its promises, what the cache returns for a key was added for it, and a
  -- reset leaves nothing.
  pub lru_cache-CacheLaws :
      GroupcacheLaws groupcache contents → CacheLaws (lru_cache groupcache) (Has contents)
  unfolding add reset
  lru_cache-CacheLaws laws = record {
    get_holds =
        λ k v m h. sym (laws.get_contents k m.cache) ∙ (sym (get-result groupcache k m).0 ∙ h);
    get_keeps = λ j k v m h.
        sym (laws.get_same j k m.cache)
        ∙ (sym (ap (λ l. contents l k) (get-result groupcache j m).1) ∙ h);
    add_holds = λ j k u v m h. laws.add_contents j k u v m.cache h;
    reset_holds = λ k v m h. absurd (ground (arith, laws.clear_contents k m.cache));
  }
