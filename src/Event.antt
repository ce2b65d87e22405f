-- ===== src/Event.antt =====
-- pkg/event/event.go: events, the event queue and the unbuffered handler.
-- `A` stands for the type of events: the queue does not look at them. `C` is the channel, as the
-- sequence of batches sent on it; a send waits until the reader takes the batch. Each method holds
-- the mutex for its whole body, so a method call is one step.
pub mod Order
mod Tests
use statsd_exporter.Base.{ℕ, ◌+◌, Bool, true, List, [], ◌∷◌, ◌++◌, leb, if◌then◌else◌, length}

pub record EventQueue {ℓ} (A : Type ℓ) : Type ℓ where
  pub c : List (List A)
  pub q : List A
  pub flush_threshold : ℕ
  pub events_flushed : ℕ

module _ {ℓ} {A : Type ℓ} where
  unfoldable pub new_event_queue : List (List A) → ℕ → EventQueue A
  new_event_queue c flush_threshold = record {
    c = c;
    q = [];
    flush_threshold = flush_threshold;
    events_flushed = 0;
  }

  unfoldable pub flush_unlocked : EventQueue A → EventQueue A
  flush_unlocked eq = record eq {
    c = eq.c ++ eq.q ∷ [];
    q = [];
    events_flushed = eq.events_flushed + 1;
  }

  -- One round of the loop of `Queue`.
  unfoldable pub queue_event : EventQueue A → A → EventQueue A
  unfolding flush_unlocked
  queue_event eq e =
      let appended = record eq { q = eq.q ++ e ∷ [] } in
      if leb eq.flush_threshold (length appended.q) then flush_unlocked appended else appended

  unfoldable pub queue : EventQueue A → List A → EventQueue A
  queue eq [] = eq
  queue eq (e ∷ events) = queue (queue_event eq e) events

  -- The ticker's goroutine and every other caller of `Flush`.
  unfoldable pub flush : EventQueue A → EventQueue A
  flush eq = flush_unlocked eq

  unfoldable pub len : EventQueue A → ℕ
  len eq = length eq.q

  -- `UnbufferedEventHandler.Queue`.
  unfoldable pub queue_unbuffered : List (List A) → List A → List (List A)
  queue_unbuffered c events = c ++ events ∷ []

-- Calls of the queue's methods, in the order in which the mutex admits them.
pub data Call {ℓ} (A : Type ℓ) : Type ℓ where
  queue_call : List A → Call A
  flush_call : Call A

module _ {ℓ} {A : Type ℓ} where
  abbrev pub call : EventQueue A → Call A → EventQueue A
  call eq (queue_call events) = queue eq events
  call eq flush_call = flush eq

  unfoldable pub run : EventQueue A → List (Call A) → EventQueue A
  run eq [] = eq
  run eq (k ∷ ks) = run (call eq k) ks

  -- The events handed over by the calls, in order.
  abbrev pub given : List (Call A) → List A
  given [] = []
  given (queue_call events ∷ ks) = events ++ given ks
  given (flush_call ∷ ks) = given ks
