-- ===== src/Event/Tests.antt =====
-- Runs of the event queue, and its theorems at a concrete queue.
use statsd_exporter.Base.{ℕ, ◌≡◌, refl, List, [], ◌∷◌, ◌++◌, arith}
use statsd_exporter.Event.{
  new_event_queue, queue_event, queue, flush, Call, queue_call, flush_call, run, given,
}
use statsd_exporter.Event.Order.{
  delivered, run_in_order, IsBounded, new_event_queue-IsBounded, run-IsBounded,
}

abbrev calls : List (Call ℕ)
calls = queue_call (1 ∷ 2 ∷ 3 ∷ []) ∷ flush_call ∷ queue_call (4 ∷ []) ∷ []

batches_of_two : (run (new_event_queue [] 2) calls).c ≡ (1 ∷ 2 ∷ []) ∷ (3 ∷ []) ∷ []
unfolding run new_event_queue queue queue_event flush
batches_of_two = refl

run_in_order_example :
    delivered (run (new_event_queue [] 2) calls) ≡ delivered (new_event_queue [] 2) ++ given calls
run_in_order_example = run_in_order calls (new_event_queue [] 2)

run-IsBounded_example : IsBounded (run (new_event_queue [] 2) calls)
run-IsBounded_example =
    run-IsBounded calls (new_event_queue [] 2) (new_event_queue-IsBounded 2 (omega arith))
