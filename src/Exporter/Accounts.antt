-- ===== src/Exporter/Accounts.antt =====
-- `handleEvent` of pkg/exporter/exporter.go: every event is accounted for once, and nothing panics.
use statsd_exporter.Base.{ℕ, ◌+◌, ◌≡◌, Bool, true, false, Option, none, some, Bytes, length, ℕ_eq}
use statsd_exporter.Utf8.{valid_string}
use statsd_exporter.Metric.{MetricType}
use statsd_exporter.Exporter.{Labels, MetricMapping, GetMapping, Registry, Arithmetic, Exporter}

module _ {M W : Type 0} where
  -- The events that were dropped, or counted as an error, an update or a conflict.
  abbrev pub accounted : Exporter M W → ℕ
  accounted b =
      b.dropped
      + length b.error_event_stats
      + length b.event_stats
      + length b.conflicting_event_stats

module _ {F O : Type 0} where
  abbrev pub HasValidName : Option (MetricMapping F O) → Type 0
  HasValidName none = Unit {0}
  HasValidName (some mapping) = valid_string mapping.name ≡ true

module _ {F O M : Type 0} where
  -- The mapper returns, keeps its predicate, and names what it maps in valid UTF-8.
  abbrev pub Answered :
      (M → Type 0) → Option ((Option (MetricMapping F O) × Labels × Bool) × M) → Type 0
  Answered GoodMapper none = ⊥
  Answered GoodMapper (some ((mapping, ls, present), m)) = GoodMapper m × HasValidName mapping

module _ {H W : Type 0} where
  abbrev pub Got : (W → Type 0) → Option (Option H × W) → Type 0
  Got Good none = ⊥
  Got Good (some (h, w)) = Good w

abbrev pub Kept : {W : Type 0} → (W → Type 0) → Option W → Type 0
Kept Good none = ⊥
Kept Good (some w) = Good w

-- Predicates on the states of the mapper and of the registry that their operations keep, without a
-- panic: `GetMapping` for metrics in valid UTF-8, and `Add` of a counter for numbers that are not
-- negative.
pub record IsSound {F O H M W : Type 0} (arithmetic : Arithmetic F) (registry : Registry F O H W)
    (get_mapping : GetMapping F O M) (GoodMapper : M → Type 0) (Good : W → Type 0) : Type 0 where
  pub mapping_sound :
      (n : Bytes) (t : MetricType) (m : M)
      → valid_string n ≡ true
      → GoodMapper m
      → Answered GoodMapper (get_mapping n t m)
  pub counter_sound :
      (n : Bytes) (ls : Labels) (help : Bytes) (m : MetricMapping F O) (w : W)
      → Good w
      → Got Good (registry.get_counter n ls help m w)
  pub gauge_sound :
      (n : Bytes) (ls : Labels) (help : Bytes) (m : MetricMapping F O) (w : W)
      → Good w
      → Got Good (registry.get_gauge n ls help m w)
  pub histogram_sound :
      (n : Bytes) (ls : Labels) (help : Bytes) (m : MetricMapping F O) (w : W)
      → Good w
      → Got Good (registry.get_histogram n ls help m w)
  pub summary_sound :
      (n : Bytes) (ls : Labels) (help : Bytes) (m : MetricMapping F O) (w : W)
      → Good w
      → Got Good (registry.get_summary n ls help m w)
  pub stale_sound : (w : W) → Good w → Kept Good (registry.remove_stale_metrics w)
  pub add_sound :
      (h : H) (v : F) (w : W)
      → arithmetic.is_negative v ≡ false
      → Good w
      → Kept Good (registry.counter_add h v w)
  pub gauge_add_sound : (h : H) (v : F) (w : W) → Good w → Good (registry.gauge_add h v w)
  pub gauge_set_sound : (h : H) (v : F) (w : W) → Good w → Good (registry.gauge_set h v w)
  pub observe_sound : (h : H) (v : F) (w : W) → Good w → Good (registry.observe h v w)

module _ {M W : Type 0} (GoodMapper : M → Type 0) (Good : W → Type 0) where
  abbrev pub AreGood : Exporter M W → Type 0
  AreGood b = GoodMapper b.mapper × Good b.registry

  -- The code returns, accounts for so many events more, and leaves good states.
  abbrev pub Accounts : ℕ → Exporter M W → Option (Exporter M W) → Type 0
  Accounts n b result =
      (after : Exporter M W) × (result ≡ some after)
      × (accounted after ≡ accounted b + n)
      × AreGood after
