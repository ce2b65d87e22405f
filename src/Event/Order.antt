-- ===== src/Event/Order.antt =====
-- The event queue of pkg/event/event.go keeps every event, in order, in batches of bounded size.
use statsd_exporter.Base.{
  ℕ, ◌≤◌, ◌<◌, ◌≡◌, refl, sym, ◌∙◌, Bool-cases, inl, inr, List, [], ◌∷◌, ◌++◌, append-nil,
  append_assoc, arith, leb, length, length-append, concat, concat-append, All, All-append,
}
use statsd_exporter.Event.{
  EventQueue, new_event_queue, flush_unlocked, queue_event, queue, flush, len, Call, queue_call,
  flush_call, run, given,
}

module _ {ℓ} {A : Type ℓ} where
  -- What the reader has got, then what still waits.
  abbrev pub delivered : EventQueue A → List A
  delivered eq = concat eq.c ++ eq.q

  delivered-flush_unlocked : (eq : EventQueue A) → delivered (flush_unlocked eq) ≡ delivered eq
  unfolding flush_unlocked
  delivered-flush_unlocked eq = simp (concat-append, append-nil)

  delivered-queue_event :
      (eq : EventQueue A) (e : A) → delivered (queue_event eq e) ≡ delivered eq ++ e ∷ []
  unfolding queue_event
  delivered-queue_event eq e =
      elim (Bool-cases (leb eq.flush_threshold (length (eq.q ++ e ∷ [])))) [
        | inl full ↦ rw full (simp (concat-append, append-nil, append_assoc))
        | inr room ↦ rw room (simp append_assoc)
      ]

  pub delivered-queue :
      (events : List A) (eq : EventQueue A) → delivered (queue eq events) ≡ delivered eq ++ events
  unfolding queue
  delivered-queue [] eq = sym (append-nil _)
  delivered-queue (e ∷ events) eq =
      delivered-queue events (queue_event eq e)
      ∙ rw (delivered-queue_event eq e) (append_assoc (delivered eq) (e ∷ []) events)

  -- Whatever calls are made in whatever order, the batches sent on the channel, followed by what is
  -- still queued, are exactly the events that were handed over before and by these calls, each
  -- once and in the order of the calls.
  pub run_in_order :
      (ks : List (Call A)) (eq : EventQueue A) → delivered (run eq ks) ≡ delivered eq ++ given ks
  unfolding run flush
  run_in_order [] eq = sym (append-nil _)
  run_in_order (queue_call events ∷ ks) eq =
      run_in_order ks (queue eq events)
      ∙ rw (delivered-queue events eq) (append_assoc (delivered eq) events (given ks))
  run_in_order (flush_call ∷ ks) eq =
      run_in_order ks (flush_unlocked eq) ∙ rw (delivered-flush_unlocked eq)

  -- The queue holds fewer events than the threshold, no batch is larger than the threshold, and the
  -- counter has counted the batches.
  pub record IsBounded (eq : EventQueue A) : Type ℓ where
    pub waiting : len eq < eq.flush_threshold
    pub batches : All (λ b. length b ≤ eq.flush_threshold) eq.c
    pub counted : eq.events_flushed ≡ length eq.c

  pub new_event_queue-IsBounded : (n : ℕ) → 0 < n → IsBounded (new_event_queue [] n)
  unfolding new_event_queue len
  new_event_queue-IsBounded n h = record { waiting = h; batches = tt; counted = refl }

  flush_unlocked-IsBounded :
      (eq : EventQueue A)
      → length eq.q ≤ eq.flush_threshold
      → 0 < eq.flush_threshold
      → All (λ b. length b ≤ eq.flush_threshold) eq.c
      → eq.events_flushed ≡ length eq.c
      → IsBounded (flush_unlocked eq)
  unfolding flush_unlocked len
  flush_unlocked-IsBounded eq h p b k = record {
    waiting = p;
    batches = All-append (λ x. length x ≤ eq.flush_threshold) eq.c (eq.q ∷ []) b (h, tt);
    counted = omega (arith, length-append eq.c (eq.q ∷ []));
  }

  queue_event-IsBounded : (eq : EventQueue A) (e : A) → IsBounded eq → IsBounded (queue_event eq e)
  unfolding queue_event len
  queue_event-IsBounded eq e v =
      let grown = length-append eq.q (e ∷ []) in
      elim (Bool-cases (leb eq.flush_threshold (length (eq.q ++ e ∷ [])))) [
        | inl full ↦ rw full (
            flush_unlocked-IsBounded (record eq { q = eq.q ++ e ∷ [] }) (omega arith) (omega arith)
              v.batches v.counted)
        | inr room ↦
            rw room (record { waiting = ground arith; batches = v.batches; counted = v.counted })
      ]

  queue-IsBounded :
      (events : List A) (eq : EventQueue A) → IsBounded eq → IsBounded (queue eq events)
  unfolding queue
  queue-IsBounded [] eq v = v
  queue-IsBounded (e ∷ events) eq v =
      queue-IsBounded events (queue_event eq e) (queue_event-IsBounded eq e v)

  -- If the queue holds fewer events than a threshold of at least one, then after any calls it still
  -- does, no batch sent is larger than the threshold, and the counter equals the number of batches.
  pub run-IsBounded :
      (ks : List (Call A)) (eq : EventQueue A) → IsBounded eq → IsBounded (run eq ks)
  unfolding run flush len
  run-IsBounded [] eq v = v
  run-IsBounded (queue_call events ∷ ks) eq v =
      run-IsBounded ks (queue eq events) (queue-IsBounded events eq v)
  run-IsBounded (flush_call ∷ ks) eq v =
      run-IsBounded ks (flush_unlocked eq)
        (flush_unlocked-IsBounded eq (omega arith) (omega arith) v.batches v.counted)
