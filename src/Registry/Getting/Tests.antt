-- ===== src/Registry/Getting/Tests.antt =====
-- Runs of the functions of pkg/registry/registry.go that get metrics, with numbers for vectors and metrics.
use statsd_exporter.Base.{
  ℕ, ◌+◌, ◌≡◌, refl, Bool, true, false, none, some, [], ◌∷◌, Bytes, codes, length, ℕ_eq, Bytes_eq,
}
use statsd_exporter.Settings.{default_match, default_action, default_observer}
use statsd_exporter.Config.{MetricMapping, MapperConfigDefaults}
use statsd_exporter.Registry.{counter, Registry, Labels}
use statsd_exporter.Registry.Hashing.{hash_labels, hashed_values, label_names}
use statsd_exporter.Registry.Hashing.Separates.{label_values, hashed_values-injective}
use statsd_exporter.Registry.Getting.{
  counter_options, Library, State, Outcome, got, failed, panicked, Request, Numbers, obtain,
  request, get_counter, get_gauge,
}
use statsd_exporter.Registry.Getting.Again.{obtain-again}
use statsd_exporter.Registry.Getting.Typed.{KeepsTypesOf, obtain-KeepsTypesOf}

-- A library that numbers what it makes.
abbrev numbered : Library ℕ ℕ ℕ ℕ
numbered = record {
  new_vector = λ options names c. (c, c + 1);
  register = λ vh c. some c;
  get_metric_with = λ vh labels c. (some (100 + c), c + 1);
}

abbrev at_start : State ℕ ℕ ℕ
at_start = record { registry = []; metrics_count = []; library = 0 }

abbrev some_labels : Labels
some_labels = (codes "b", codes "2") ∷ (codes "a", codes "1") ∷ []

abbrev defaults : MapperConfigDefaults ℕ
defaults = record {
  observer_type = default_observer;
  match_type = default_match;
  glob_disable_ordering = false;
  ttl = 0;
  summary_options = record { quantiles = none; max_age = 7; age_buckets = 0; buf_cap = 0 };
  histogram_options = record {
    buckets = none;
    native_histogram_bucket_factor = 0;
    native_histogram_max_buckets = 0;
  };
}

abbrev mapping : MetricMapping ℕ Bytes
mapping = record {
  match = [];
  name = codes "m";
  name_formatter = none;
  regex = none;
  labels = [];
  honor_labels = false;
  label_keys = [];
  label_formatters = [];
  observer_type = default_observer;
  timer_type = default_observer;
  legacy_buckets = none;
  legacy_quantiles = none;
  match_type = default_match;
  help_text = [];
  action = default_action;
  match_metric_type = none;
  ttl = 5;
  summary_options = none;
  histogram_options = none;
  scale = none;
}

abbrev numbers : Numbers ℕ
numbers = record { is_positive = λ x. true; default_objectives = (5, 1) ∷ [] }

-- In place of the hash: the length.
abbrev a_request : Request ℕ
a_request =
    request numbered length numbers defaults 10 (codes "m") some_labels [] mapping counter
      (counter_options (codes "m") [])

abbrev no_check : Registry ℕ ℕ → Bool
no_check r = false

abbrev state_of : Outcome ℕ ℕ ℕ → State ℕ ℕ ℕ
state_of (got mh st) = st
state_of (failed st) = st
state_of panicked = at_start

first_time :
    obtain numbered 10 a_request no_check at_start
    ≡ got 101 (state_of (obtain numbered 10 a_request no_check at_start))
unfolding obtain hash_labels
first_time = refl

obtain-again_example :
    (r : Registry ℕ ℕ) × (obtain numbered 12 a_request no_check
        (state_of (obtain numbered 10 a_request no_check at_start))
      ≡ got 101
          (record (state_of (obtain numbered 10 a_request no_check at_start)) { registry = r }))
obtain-again_example =
    obtain-again numbered 10 12 a_request no_check 101 at_start
      (state_of (obtain numbered 10 a_request no_check at_start)) first_time

obtain-KeepsTypesOf_example :
    KeepsTypesOf numbered 10 a_request no_check [] (obtain numbered 10 a_request no_check at_start)
obtain-KeepsTypesOf_example = obtain-KeepsTypesOf numbered 10 a_request no_check at_start

abbrev is_failed : Outcome ℕ ℕ ℕ → Bool
is_failed (failed st) = true
is_failed (got mh st) = false
is_failed panicked = false

-- A gauge takes the names that a histogram of its name would have.
abbrev gauge_made : State ℕ ℕ ℕ
gauge_made =
    state_of (get_gauge numbered length numbers defaults 10 (codes "m") [] [] mapping at_start)

count_refused :
    is_failed
      (get_counter numbered length numbers defaults 11 (codes "m_count") [] [] mapping gauge_made)
    ≡ true
unfolding get_counter get_gauge
count_refused = refl

names_sorted : label_names some_labels ≡ codes "a" ∷ codes "b" ∷ []
unfolding hash_labels
names_sorted = refl

abbrev turned_labels : Labels
turned_labels = (codes "a", codes "1") ∷ (codes "b", codes "2") ∷ []

same_bytes : hashed_values some_labels ≡ hashed_values turned_labels
unfolding hashed_values
same_bytes = refl

hashed_values-injective_example :
    (label_names some_labels ≡ label_names turned_labels)
    × (label_values some_labels (label_names some_labels)
        ≡ label_values turned_labels (label_names turned_labels))
hashed_values-injective_example =
    hashed_values-injective some_labels turned_labels ((refl, refl), ((refl, refl), tt))
      ((refl, refl), ((refl, refl), tt)) same_bytes
