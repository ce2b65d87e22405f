-- ===== src/Fsm/Search.antt =====
-- `FSM.GetMapping` of pkg/mapper/fsm/fsm.go: a depth-first search with an explicit stack.
-- In place of the index `i` the model carries the fields that are left: a state and the fields
-- behind it stand for `state` and `matchFields[i+1:]`. A cursor keeps the fields behind its own.
use statsd_exporter.Base.{
  ℕ, zero, suc, ◌+◌, Bool, true, ◌||◌, Option, none, some, List, [], ◌∷◌, Bytes, split, ltb,
  if◌then◌else◌, length, set,
}
use statsd_exporter.Fsm.{
  MappingState, Transitions, transitions, min_remaining_length, max_remaining_length, result,
  result_priority, find, Fsm, star,
}

-- `fsmBacktrackStackCursor`; the linked list of cursors is a list with the top in front.
pub record Cursor (R : Type 0) : Type 0 where
  pub rest : List Bytes
  pub capture_index : ℕ
  pub current_capture : Bytes
  pub state : MappingState R

-- The variables of `GetMapping` that outlive one depth-only search.
pub record Search (R : Type 0) : Type 0 where
  pub captures : List Bytes
  pub capture_idx : ℕ
  pub backtrack : List (Cursor R)
  pub final_state : Option (MappingState R)
  pub final_captures : List Bytes

-- How a depth-only search ends: it returns from `GetMapping`, or breaks.
pub data Outcome (R : Type 0) : Type 0 where
  returned : MappingState R → List Bytes → Outcome R
  broke : Search R → Outcome R

-- What `GetMapping` does. `out_of_fuel` belongs to the model.
pub data Found (R : Type 0) : Type 0 where
  found : Option (MappingState R) → List Bytes → Found R
  panic : Found R
  out_of_fuel : Found R

-- `make([]string, n)`.
abbrev pub blanks : List Bytes → List Bytes
blanks [] = []
blanks (f ∷ fs) = [] ∷ blanks fs

abbrev pub power2 : List Bytes → ℕ
power2 [] = 1
power2 (f ∷ fs) = power2 fs + power2 fs

module _ {R : Type 0} where
  -- `!present || fieldsLeft > maxRemainingLength || fieldsLeft < minRemainingLength`, negated.
  unfoldable pub usable : ℕ → Option (MappingState R) → Option (MappingState R)
  usable fields_left none = none
  usable fields_left (some s) =
      if ltb (max_remaining_length s) fields_left || ltb fields_left (min_remaining_length s)
      then none
      else some s

  -- The `*` transition in place of the field's own.
  unfoldable pub take_star :
      Bytes → Option (MappingState R) → Search R → Option (MappingState R × Search R)
  take_star field none s = none
  take_star field (some state) s = some (
    state,
    record s { captures = set s.captures s.capture_idx field; capture_idx = s.capture_idx + 1 },
  )

  -- A cursor for the `*` transition beside the field's own.
  unfoldable pub push_star : Bytes → List Bytes → Option (MappingState R) → Search R → Search R
  push_star field rest none s = s
  push_star field rest (some state) s = record s {
    backtrack =
        record {
          rest = rest;
          capture_index = s.capture_idx;
          current_capture = field;
          state = state;
        }
        ∷ s.backtrack;
  }

  -- The branch on the field's own transition.
  unfoldable pub take_field :
      Bool
      → Bytes
      → List Bytes
      → Option (MappingState R)
      → Option (MappingState R)
      → Search R
      → Option (MappingState R × Search R)
  unfolding take_star push_star
  take_field backtracking field rest none alt s = take_star field alt s
  take_field backtracking field rest (some state) alt s =
      some (state, if backtracking then push_star field rest alt s else s)

  -- The body of the inner loop up to "backtrack will resume from here"; `none` is its `break`.
  unfoldable pub next_state :
      Bool → Bytes → List Bytes → Transitions R → Search R → Option (MappingState R × Search R)
  unfolding usable take_field find
  next_state backtracking field rest es s =
      take_field backtracking field rest (usable (length rest) (find field es))
        (usable (length rest) (find star es)) s

  unfoldable pub is_better : MappingState R → Option (MappingState R) → Bool
  is_better state none = true
  is_better state (some final) = ltb (result_priority state) (result_priority final)

  -- At the last field: a final state is returned or compared with the best one so far.
  unfoldable pub arrive_last : Bool → MappingState R → Option R → Search R → Outcome R
  unfolding is_better
  arrive_last ordering_disabled state none s = broke s
  arrive_last ordering_disabled state (some _) s =
      if ordering_disabled
      then returned state s.captures
      else if is_better state s.final_state
      then broke (record s { final_state = some state; final_captures = s.captures })
      else broke s

  -- The inner loop from "backtrack will resume from here". `onward` is the loop's next round.
  unfoldable pub arrive :
      Bool
      → (MappingState R → Search R → Outcome R)
      → List Bytes
      → MappingState R
      → Search R
      → Outcome R
  unfolding arrive_last
  arrive ordering_disabled onward [] state s = arrive_last ordering_disabled state (result state) s
  arrive ordering_disabled onward (f ∷ rest) state s = onward state s

  abbrev pub or_break :
      (MappingState R → Search R → Outcome R)
      → Search R
      → Option (MappingState R × Search R)
      → Outcome R
  or_break go s none = broke s
  or_break go s (some (state, s')) = go state s'

  -- One depth-only search from `current`, whose next field is the first of the list. The list is
  -- not empty where the code calls it.
  unfoldable pub descend : Bool → Bool → List Bytes → MappingState R → Search R → Outcome R
  unfolding next_state arrive
  descend ordering_disabled backtracking [] current s = broke s
  descend ordering_disabled backtracking (field ∷ rest) current s =
      or_break (arrive ordering_disabled (descend ordering_disabled backtracking rest) rest) s
        (next_state backtracking field rest (transitions current) s)

  -- A cursor popped: the capture is put back, and the search goes on behind its field.
  unfoldable pub resume : Bool → Bool → Cursor R → List (Cursor R) → Search R → Outcome R
  unfolding descend
  resume ordering_disabled backtracking c cs s =
      arrive ordering_disabled (descend ordering_disabled backtracking c.rest) c.rest c.state
        (record s {
          captures = set s.captures c.capture_index c.current_capture;
          capture_idx = c.capture_index + 1;
          backtrack = cs;
        })

  -- The loop for backtracking.
  unfoldable pub backtrack_loop : Bool → Bool → ℕ → Outcome R → Found R
  unfolding resume
  backtrack_loop ordering_disabled backtracking zero o = out_of_fuel
  backtrack_loop ordering_disabled backtracking (suc fuel) (returned state captures) =
      found (some state) captures
  backtrack_loop ordering_disabled backtracking (suc fuel) (broke s) = elim s.backtrack [
    | [] ↦ found s.final_state s.final_captures
    | c ∷ cs ↦
        backtrack_loop ordering_disabled backtracking fuel
          (resume ordering_disabled backtracking c cs s)
  ]

  -- The loops, from the state of the metric's type. Each field of the metric at most doubles the
  -- number of depth-only searches, which bounds the fuel.
  unfoldable pub search_from : Bool → Bool → List Bytes → MappingState R → Found R
  unfolding backtrack_loop
  search_from ordering_disabled backtracking fields t =
      backtrack_loop ordering_disabled backtracking (power2 fields + 1) (
        descend ordering_disabled backtracking fields t (record {
          captures = blanks fields;
          capture_idx = 0;
          backtrack = [];
          final_state = none;
          final_captures = blanks fields;
        }))

  -- A metric type that the root does not know is a nil pointer, whose use panics.
  unfoldable pub get_mapping : Fsm R → Bytes → Bytes → Found R
  unfolding search_from
  get_mapping f statsd_metric statsd_metric_type = elim (find statsd_metric_type f.root) [
    | none ↦ panic
    | some t ↦ search_from f.ordering_disabled f.backtracking_needed (split b'.' statsd_metric) t
  ]
