-- ===== src/Registry/Tests.antt =====
-- Runs of pkg/registry/registry.go with numbers for vectors and metrics.
use statsd_exporter.Base.{ℕ, ◌≡◌, refl, true, false, Option, none, some, List, [], ◌∷◌, codes, All}
use statsd_exporter.Registry.Lookup.{get-store}
use statsd_exporter.Registry.Removal.{IsTidyEntry, Swept, remove_stale_metrics-Swept}
use statsd_exporter.Registry.Storing.{store-IsTidy}
use statsd_exporter.Registry.{
  counter, gauge, LabelHash, Labels, Registry, metric_conflicts, store, get,
  check_histogram_name_collision, remove_stale_metrics,
}

abbrev first_hash : LabelHash
first_hash = record { names = 1; values = 2 }

abbrev second_hash : LabelHash
second_hash = record { names = 1; values = 3 }

abbrev nothing : Registry ℕ ℕ
nothing = []

-- A counter with a time to live of 4, and one without.
stored : Registry ℕ ℕ
stored =
    store 11 (codes "a") second_hash [] 8 30 counter 0
      (store 10 (codes "a") first_hash [] 7 20 counter 4 nothing)

abbrev removed_labels : Option (Registry ℕ ℕ × List (ℕ × Labels)) → Option (List (ℕ × Labels))
removed_labels none = none
removed_labels (some (r, gone)) = some gone

removes_first : removed_labels (remove_stale_metrics 15 stored) ≡ some ((7, []) ∷ [])
unfolding remove_stale_metrics stored store
removes_first = refl

removes_nothing : removed_labels (remove_stale_metrics 14 stored) ≡ some []
unfolding remove_stale_metrics stored store
removes_nothing = refl

gauge_conflicts : metric_conflicts (codes "a") gauge stored ≡ true
unfolding metric_conflicts stored store
gauge_conflicts = refl

no_collision : check_histogram_name_collision (codes "a_count") stored ≡ false
unfolding check_histogram_name_collision stored store
no_collision = refl

counter_free : metric_conflicts (codes "a") counter stored ≡ false
unfolding metric_conflicts stored store
counter_free = refl

get-store_example :
    get 13 (codes "a") first_hash counter (store 12 (codes "a") first_hash [] 9 40 counter 5 stored)
    ≡ some (some 7, some 20, store 13 (codes "a") first_hash [] 9 40 counter 5 stored)
unfolding stored store
get-store_example = get-store 12 13 (codes "a") first_hash [] 9 40 5 counter stored counter_free

stored_tidy : All IsTidyEntry stored
unfolding stored
stored_tidy =
    store-IsTidy 11 second_hash [] 8 30 0 (codes "a") counter
      (store 10 (codes "a") first_hash [] 7 20 counter 4 nothing)
      (store-IsTidy 10 first_hash [] 7 20 4 (codes "a") counter nothing tt)

store-IsTidy_example : All IsTidyEntry (store 12 (codes "b") first_hash [] 9 40 gauge 5 stored)
store-IsTidy_example = store-IsTidy 12 first_hash [] 9 40 5 (codes "b") gauge stored stored_tidy

remove_stale_metrics-Swept_example : Swept 15 stored [] (remove_stale_metrics 15 stored)
remove_stale_metrics-Swept_example = remove_stale_metrics-Swept 15 stored stored_tidy
