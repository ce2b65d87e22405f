-- ===== src/Mapper/Cached.antt =====
-- The cache behind `GetMapping` (pkg/mapper/mapper.go) never changes an answer.
pub mod Keys
use statsd_exporter.Base.{
  ℕ, map, ◌≡◌, refl, sym, ap, ◌∙◌, inl, inr, Bool-cases, Option, none, some, List, [], ◌∷◌, Bytes,
  arith,
}
use statsd_exporter.Metric.{MetricType, counter_type, gauge_type, observer_type}
use statsd_exporter.Fsm.Search
use statsd_exporter.Caching.{MetricMapperCache, CacheLaws, type_name, format_key}
use statsd_exporter.Mapper.Load.{
  Machine, ok, Constants, Yaml, complete_defaults, load_mappings, take_over, new_machine,
  reset_cache, load_config, init_from_yaml_string,
}
use statsd_exporter.Mapper.Load.Ensures.{Ensures, Ensures-then, Ensures-ok}
use statsd_exporter.Config.{
  MapperConfigDefaults, MapperConfigDefaultsAlias, MetricMapping, unmarshal_defaults,
  unmarshal_mapping,
}
use statsd_exporter.Mapper.{
  Regexps, Answer, MetricMapper, final_result, after_glob, glob_matching, compute_mapping, uncached,
  added, and_later, then_later, get_mappings, cached_answer, with_cache, get_mapping,
}
use statsd_exporter.Mapper.Cached.Keys.{format_key-injective, compute_mapping-cache}

module _ {F Re Sub C : Type 0} (regexps : Regexps Re Sub) where
  module _ (cache : MetricMapperCache C (Answer F Re)) (Holds : C → Bytes → Answer F Re → Type 0)
      (laws : CacheLaws cache Holds) where
    -- Whatever `c` holds is what `m` would compute.
    abbrev Agrees : MetricMapper F Re C → C → Type 0
    Agrees m c =
        (metric : Bytes) (t : MetricType) (a : Answer F Re)
        → Holds c (format_key metric t) a
        → compute_mapping regexps metric t m ≡ some a

    abbrev Agrees-option : MetricMapper F Re C → Option C → Type 0
    Agrees-option m none = Unit {0}
    Agrees-option m (some c) = Agrees m c

    -- Whatever the cache of `m` holds is what `m` would compute.
    abbrev pub IsFresh : MetricMapper F Re C → Type 0
    IsFresh m = Agrees-option m m.cache

    Agrees-get :
        (k : Bytes) (m : MetricMapper F Re C) (c : C) → Agrees m c → Agrees m (cache.get k c).1
    Agrees-get k m c agrees metric t a held =
        agrees metric t a (laws.get_keeps k (format_key metric t) a c held)

    Agrees-add :
        (metric : Bytes) (t : MetricType) (a : Answer F Re) (m : MetricMapper F Re C) (c : C)
        → compute_mapping regexps metric t m ≡ some a
        → Agrees m c
        → Agrees m (cache.add (format_key metric t) a c)
    Agrees-add metric t a m c e agrees other u b held =
        elim (laws.add_holds (format_key metric t) (format_key other u) a b c held) [
          | inl same ↦
              let key = format_key-injective metric other t u same.0 in
              rw (sym key.0, sym key.1, sym same.1, e)
          | inr before ↦ agrees other u b before
        ]

    Agrees-reset : (m : MetricMapper F Re C) (c : C) → Agrees m (cache.reset c)
    Agrees-reset m c metric t a held = absurd (laws.reset_holds (format_key metric t) a c held)

    Agrees-with :
        (m : MetricMapper F Re C) (c d : C) → Agrees m d → Agrees (record m { cache = some c }) d
    Agrees-with m c d agrees metric t a held =
        compute_mapping-cache regexps metric t m (some c) ∙ agrees metric t a held

    -- The answer, and that the mapper left behind differs in its cache only, which is fresh again.
    abbrev IsSame :
        MetricMapper F Re C
        → Option (Answer F Re)
        → Option (Answer F Re × MetricMapper F Re C)
        → Type 0
    IsSame m none none = Unit {0}
    IsSame m none (some got) = ⊥
    IsSame m (some a) none = ⊥
    IsSame m (some a) (some (b, after)) =
        (b ≡ a) × (after ≡ record m { cache = after.cache }) × IsFresh after

    uncached-IsSame :
        (m : MetricMapper F Re C) (o : Option (Answer F Re))
        → m.cache ≡ none
        → IsSame m o (uncached regexps cache m o)
    uncached-IsSame m none e = tt
    uncached-IsSame m (some a) e = (refl, refl, rw e tt)

    added-IsSame :
        (metric : Bytes) (t : MetricType) (m : MetricMapper F Re C) (c : C)
        (o : Option (Answer F Re))
        → Agrees m c
        → compute_mapping regexps metric t m ≡ o
        → IsSame m o (added regexps cache (format_key metric t) m c o)
    added-IsSame metric t m c none agrees e = tt
    added-IsSame metric t m c (some a) agrees e =
        let d = cache.add (format_key metric t) a c in
        (refl, refl, Agrees-with m d d (Agrees-add metric t a m c e agrees))

    cached_answer-IsSame :
        (metric : Bytes) (t : MetricType) (m : MetricMapper F Re C) (got : Option (Answer F Re) × C)
        → Agrees m got.1
        → ((a : Answer F Re) → got.0 ≡ some a → compute_mapping regexps metric t m ≡ some a)
        → IsSame m (compute_mapping regexps metric t m) (cached_answer regexps cache metric t m got)
    cached_answer-IsSame metric t m (some a, c) agrees hit =
        rw (hit a refl) (refl, refl, Agrees-with m c c agrees)
    cached_answer-IsSame metric t m (none, c) agrees hit =
        added-IsSame metric t m c (compute_mapping regexps metric t m) agrees refl

    with_cache-IsSame :
        (metric : Bytes) (t : MetricType) (m : MetricMapper F Re C) (o : Option C)
        → m.cache ≡ o
        → Agrees-option m o
        → IsSame m (compute_mapping regexps metric t m) (with_cache regexps cache metric t m o)
    with_cache-IsSame metric t m none e agrees =
        uncached-IsSame m (compute_mapping regexps metric t m) e
    with_cache-IsSame metric t m (some c) e agrees =
        cached_answer-IsSame metric t m (cache.get (format_key metric t) c)
          (Agrees-get (format_key metric t) m c agrees)
          (λ a hit. agrees metric t a (laws.get_holds (format_key metric t) a c hit))

    get_mapping-IsSame :
        (metric : Bytes) (t : MetricType) (m : MetricMapper F Re C)
        → IsFresh m
        → IsSame m (compute_mapping regexps metric t m) (get_mapping regexps cache metric t m)
    unfolding get_mapping
    get_mapping-IsSame metric t m fresh = with_cache-IsSame metric t m m.cache refl fresh

    abbrev pub computed_later :
        Option (List (Answer F Re)) → Option (Answer F Re) → Option (List (Answer F Re))
    computed_later later none = none
    computed_later later (some a) = and_later a later

    -- The answers of a mapper that has no cache.
    abbrev pub compute_mappings :
        List (Bytes × MetricType) → MetricMapper F Re C → Option (List (Answer F Re))
    compute_mappings [] m = some []
    compute_mappings ((metric, t) ∷ calls) m =
        computed_later (compute_mappings calls m) (compute_mapping regexps metric t m)

    IsSame-then_later :
        (m : MetricMapper F Re C) (o : Option (Answer F Re))
        (got : Option (Answer F Re × MetricMapper F Re C))
        (later : MetricMapper F Re C → Option (List (Answer F Re)))
        (answers : Option (List (Answer F Re)))
        → IsSame m o got
        → ((after : MetricMapper F Re C)
            → IsFresh after
            → after ≡ record m { cache = after.cache }
            → later after ≡ answers)
        → then_later regexps later got ≡ computed_later answers o
    IsSame-then_later m none none later answers same next = refl
    IsSame-then_later m (some a) (some (b, after)) later answers (e, kept, fresh) next =
        rw (e, next after fresh kept)
    IsSame-then_later m none (some got) later answers same next = absurd same
    IsSame-then_later m (some a) none later answers same next = absurd same

    -- If `n` computes the same as `m`, then calls on a fresh `m` answer what `n` computes.
    get_mappings-compute :
        (calls : List (Bytes × MetricType)) (m n : MetricMapper F Re C)
        → IsFresh m
        → ((metric : Bytes) (t : MetricType)
            → compute_mapping regexps metric t m ≡ compute_mapping regexps metric t n)
        → get_mappings regexps cache calls m ≡ compute_mappings calls n
    unfolding get_mappings
    get_mappings-compute [] m n fresh same = refl
    get_mappings-compute ((metric, t) ∷ calls) m n fresh same = rw (sym (same metric t)) (
        IsSame-then_later m (compute_mapping regexps metric t m)
          (get_mapping regexps cache metric t m) (get_mappings regexps cache calls)
          (compute_mappings calls n) (get_mapping-IsSame metric t m fresh)
          (λ after again kept. get_mappings-compute calls after n again (λ other u.
            ap (compute_mapping regexps other u) kept
            ∙ (compute_mapping-cache regexps other u m after.cache ∙ same other u))))

    -- Calls of a fresh mapper have the answers that they have without the cache.
    get_mappings-uncached :
        (calls : List (Bytes × MetricType)) (m : MetricMapper F Re C)
        → IsFresh m
        → get_mappings regexps cache calls m
          ≡ get_mappings regexps cache calls (record m { cache = none })
    get_mappings-uncached calls m fresh =
        get_mappings-compute calls m m fresh (λ metric t. refl)
        ∙ sym (
            get_mappings-compute calls (record m { cache = none }) m tt
              (λ metric t. compute_mapping-cache regexps metric t m none))

    reset_cache-Agrees :
        (constants : Constants F) (d : MapperConfigDefaults F) (m : MetricMapper F Re C)
        (o : Option C)
        → Agrees-option m (reset_cache constants regexps d cache o)
    reset_cache-Agrees constants d m none = tt
    reset_cache-Agrees constants d m (some c) = Agrees-reset m c

    take_over-IsFresh :
        (constants : Constants F) (d : MapperConfigDefaults F) (m : MetricMapper F Re C)
        (loaded : Machine × List (MetricMapping F Re))
        → IsFresh (take_over constants regexps d cache m loaded)
    unfolding take_over
    take_over-IsFresh constants d m loaded =
        reset_cache-Agrees constants d (take_over constants regexps d cache m loaded) m.cache

    load_config-IsFresh :
        (constants : Constants F) (yaml : Yaml F Re) (m : MetricMapper F Re C)
        (config : Option (MapperConfigDefaultsAlias F × List (MetricMapping F Re)))
        → Ensures IsFresh (load_config constants regexps cache yaml m config)
    load_config-IsFresh constants yaml m none = tt
    load_config-IsFresh constants yaml m (some (alias, raw)) =
        let d = complete_defaults constants (unmarshal_defaults constants.zero_float alias) in
        Ensures-then IsFresh
          (load_mappings constants regexps d m.has_logger 0 (map unmarshal_mapping raw)
            (new_machine constants regexps cache yaml d))
          (λ loaded. ok (take_over constants regexps d cache m loaded))
          (take_over-IsFresh constants d m)

    -- After `InitFromYAMLString` has taken a configuration over, whatever the cache held before, and
    -- however the cache evicts: any calls of `GetMapping` have the answers that they have without
    -- the cache.
    pub init_from_yaml_string-get_mappings :
        (constants : Constants F) (yaml : Yaml F Re) (file_contents : Bytes)
        (m after : MetricMapper F Re C) (calls : List (Bytes × MetricType))
        → init_from_yaml_string constants regexps cache yaml file_contents m ≡ ok after
        → get_mappings regexps cache calls after
          ≡ get_mappings regexps cache calls (record after { cache = none })
    init_from_yaml_string-get_mappings constants yaml file_contents m after calls e =
        get_mappings-uncached calls after (
          Ensures-ok IsFresh (init_from_yaml_string constants regexps cache yaml file_contents m)
            after
            (unfold init_from_yaml_string in
              load_config-IsFresh constants yaml m (yaml file_contents))
            e)
