-- ===== src/Mapper/Cached/Keys.antt =====
-- The keys of the cache, and what is answered behind it (pkg/mapper/mapper.go, mapper_cache.go).
use statsd_exporter.Base.{
  ℕ, ◌≡◌, refl, ap, inl, inr, Bool-cases, Option, none, some, List, [], ◌∷◌, Bytes, arith,
}
use statsd_exporter.Metric.{MetricType, counter_type, gauge_type, observer_type}
use statsd_exporter.Fsm.Search
use statsd_exporter.Caching.{type_name, format_key}
use statsd_exporter.Mapper.{
  Regexps, MetricMapper, final_result, after_glob, glob_matching, compute_mapping,
}

abbrev first : Bytes → ℕ
first [] = 0
first (c ∷ s) = c

-- A key belongs to one metric and one type.
pub format_key-injective :
    (a b : Bytes) (t u : MetricType) → format_key a t ≡ format_key b u → (a ≡ b) × (t ≡ u)
unfolding format_key
format_key-injective a b counter_type counter_type e = (cc, refl)
format_key-injective a b gauge_type gauge_type e = (cc, refl)
format_key-injective a b observer_type observer_type e = (cc, refl)
format_key-injective a b counter_type gauge_type e = absurd (omega (arith, ap first e))
format_key-injective a b counter_type observer_type e = absurd (omega (arith, ap first e))
format_key-injective a b gauge_type counter_type e = absurd (omega (arith, ap first e))
format_key-injective a b gauge_type observer_type e = absurd (omega (arith, ap first e))
format_key-injective a b observer_type counter_type e = absurd (omega (arith, ap first e))
format_key-injective a b observer_type gauge_type e = absurd (omega (arith, ap first e))

module _ {F Re Sub C : Type 0} (regexps : Regexps Re Sub) where
  same_result :
      (metric : Bytes) (t : MetricType) (m : MetricMapper F Re C) (c : Option C) (o : Option ℕ)
      (captures : List Bytes)
      → after_glob regexps metric t (record m { cache = c }) o captures
        ≡ after_glob regexps metric t m o captures
  same_result metric t m c none captures = refl
  same_result metric t m c (some i) captures = refl

  same_matching :
      (metric : Bytes) (t : MetricType) (m : MetricMapper F Re C) (c : Option C)
      (found : Search.Found ℕ)
      → glob_matching regexps metric t (record m { cache = c }) found
        ≡ glob_matching regexps metric t m found
  same_matching metric t m c (Search.found state captures) =
      same_result metric t m c (final_result state) captures
  same_matching metric t m c Search.panic = refl
  same_matching metric t m c Search.out_of_fuel = refl

  -- What is answered behind the cache does not depend on it.
  pub compute_mapping-cache :
      (metric : Bytes) (t : MetricType) (m : MetricMapper F Re C) (c : Option C)
      → compute_mapping regexps metric t (record m { cache = c })
        ≡ compute_mapping regexps metric t m
  unfolding compute_mapping
  compute_mapping-cache metric t m c = elim (Bool-cases m.do_fsm) [
    | inl globs ↦
        rw globs (same_matching metric t m c (Search.get_mapping m.fsm metric (type_name t)))
    | inr only_regex ↦ rw only_regex
  ]
