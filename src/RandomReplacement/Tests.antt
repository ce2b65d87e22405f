-- ===== src/RandomReplacement/Tests.antt =====
-- A run of pkg/mappercache/randomreplacement/randomreplacement.go.
use statsd_exporter.Base.{ℕ, ◌≤◌, ◌≡◌, refl, none, some, List, [], ◌∷◌, codes, length, arith}
use statsd_exporter.RandomReplacement.Freshness.{last_added, run-last_added, run-length}
use statsd_exporter.RandomReplacement.{MetricMapperRrCache, get, Step, added, tracked, run}

abbrev cache_of_one : MetricMapperRrCache ℕ
cache_of_one = record { size = 1; items = []; cache_length = 0 }

abbrev some_steps : List (Step ℕ)
some_steps = added 0 (codes "a") 1 ∷ added 0 (codes "b") 2 ∷ tracked ∷ added 1 (codes "b") 3 ∷ []

keeps_last : get (codes "b") (run some_steps cache_of_one) ≡ some 3
unfolding get run
keeps_last = refl

run-last_added_example : last_added (codes "b") some_steps none ≡ some 3
run-last_added_example = run-last_added 1 (codes "b") some_steps 3 keeps_last

run-length_example : length (run some_steps cache_of_one).items ≤ 1
run-length_example = run-length some_steps cache_of_one (omega arith)
