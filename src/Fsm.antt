-- ===== src/Fsm.antt =====
-- pkg/mapper/fsm/fsm.go: the trie of glob rules, and `AddState`.
-- `R` is the type of results. A state's transitions are a list of edges, and a pointer to a state
-- is the state itself: every state but the root has one parent, so a change through a pointer is a
-- change of one subtree. Lengths and counts are never negative.
pub mod Search
pub mod Routes
pub mod Bounded
pub mod Stack
pub mod Ordered
pub mod Values
pub mod Covers
pub mod Entries
pub mod Best
pub mod Rules
pub mod FirstRule
pub mod Shadow
pub mod Backtracking
mod Tests
use statsd_exporter.Base.{
  ℕ, zero, suc, ◌+◌, ◌≡◌, Bool, true, false, not, ◌&&◌, Option, none, some, List, [], ◌∷◌, ◌++◌,
  Bytes, bytes_eq, codes, split, ltb, if◌then◌else◌, length,
}

mutual
  pub data MappingState (R : Type 0) : Type 0 where
    -- transitions, minRemainingLength, maxRemainingLength, Result, ResultPriority
    mapping_state : Transitions R → ℕ → ℕ → Option R → ℕ → MappingState R

  pub data Transitions (R : Type 0) : Type 0 where
    nil : Transitions R
    edge : Bytes → MappingState R → Transitions R → Transitions R

-- pkg/mapper/fsm/minmax.go
unfoldable pub min : ℕ → ℕ → ℕ
min x y = if ltb x y then x else y

unfoldable pub max : ℕ → ℕ → ℕ
max x y = if ltb y x then x else y

module _ {R : Type 0} where
  abbrev pub transitions : MappingState R → Transitions R
  transitions (mapping_state es lo hi r p) = es

  abbrev pub min_remaining_length : MappingState R → ℕ
  min_remaining_length (mapping_state es lo hi r p) = lo

  abbrev pub max_remaining_length : MappingState R → ℕ
  max_remaining_length (mapping_state es lo hi r p) = hi

  abbrev pub result : MappingState R → Option R
  result (mapping_state es lo hi r p) = r

  abbrev pub result_priority : MappingState R → ℕ
  result_priority (mapping_state es lo hi r p) = p

  -- `transitions[field]`.
  unfoldable pub find : Bytes → Transitions R → Option (MappingState R)
  find f nil = none
  find f (edge g s es) = if bytes_eq g f then some s else find f es

  -- `transitions[field] = state`.
  unfoldable pub put : Bytes → MappingState R → Transitions R → Transitions R
  put f s nil = edge f s nil
  put f s (edge g t es) = if bytes_eq g f then edge f s es else edge g t (put f s es)

  abbrev pub leaf : MappingState R
  leaf = mapping_state nil 0 0 none 0

  -- The state behind a field, made or widened, when `rest` is what follows the field.
  unfoldable pub reach : Option (MappingState R) → R → List Bytes → MappingState R
  unfolding min max
  reach none res [] = mapping_state nil 0 0 (some res) 0
  reach none res (g ∷ rest) = mapping_state nil (length (g ∷ rest)) (length (g ∷ rest)) none 0
  reach (some (mapping_state es lo hi r p)) res rest =
      mapping_state es (min (length rest) lo) (max (length rest) hi) r p

  -- The inner loop of `AddState` over one root, and the final assignment of the priority.
  unfoldable pub add_fields : List Bytes → R → ℕ → MappingState R → MappingState R
  unfolding reach find put
  add_fields [] res priority (mapping_state es lo hi r p) = mapping_state es lo hi r priority
  add_fields (f ∷ rest) res priority (mapping_state es lo hi r p) =
      mapping_state (put f (add_fields rest res priority (reach (find f es) res rest)) es) lo hi r p

  -- The outer loop of `AddState`, over the metric types at which the rule starts. A type that the
  -- root does not know is a nil pointer, whose use panics.
  unfoldable pub add_roots :
      List Bytes → List Bytes → R → ℕ → Transitions R → Option (Transitions R)
  unfolding add_fields
  add_roots [] fields res priority root = some root
  add_roots (t ∷ ts) fields res priority root = elim (find t root) [
    | none ↦ none
    | some s ↦ add_roots ts fields res priority (put t (add_fields fields res priority s) root)
  ]

  -- `NewFSM`'s loop over the metric types.
  unfoldable pub new_roots : List Bytes → Transitions R → Transitions R
  unfolding put
  new_roots [] es = es
  new_roots (t ∷ ts) es = new_roots ts (put t leaf es)

-- `root` is the transitions of the root state, whose other fields are never read.
pub record Fsm (R : Type 0) : Type 0 where
  pub root : Transitions R
  pub metric_types : List Bytes
  pub states_count : ℕ
  pub backtracking_needed : Bool
  pub ordering_disabled : Bool

abbrev pub star : Bytes
star = codes "*"

-- How often `captureCount` goes up over the fields of one rule.
unfoldable pub count_captures : List Bytes → ℕ
count_captures [] = 0
count_captures (f ∷ fs) = if bytes_eq f star then suc (count_captures fs) else count_captures fs

-- The `captureCount` that is left after the loop over the metric types.
unfoldable pub last_count : List Bytes → List Bytes → ℕ
unfolding count_captures
last_count [] fields = 0
last_count (t ∷ ts) fields = count_captures fields

module _ {R : Type 0} where
  -- `maxPossibleTransitions` only sizes maps, and is left out.
  unfoldable pub new_fsm : List Bytes → Bool → Fsm R
  unfolding new_roots
  new_fsm metric_types ordering_disabled = record {
    root = new_roots metric_types nil;
    metric_types = metric_types;
    states_count = 0;
    backtracking_needed = false;
    ordering_disabled = ordering_disabled;
  }

  -- The states at which a rule starts: those of its metric type, or of all.
  unfoldable pub start_types : Fsm R → Bytes → List Bytes
  start_types f match_metric_type =
      if bytes_eq match_metric_type [] then f.metric_types else match_metric_type ∷ []

  abbrev pub with_root : Fsm R → ℕ → Option (Transitions R) → Option (Fsm R × ℕ)
  with_root f capture_count none = none
  with_root f capture_count (some root) =
      some (record f { root = root; states_count = f.states_count + 1 }, capture_count)

  -- The new machine and the capture count; `none` is a panic.
  unfoldable pub add_state : Fsm R → Bytes → Bytes → R → Option (Fsm R × ℕ)
  unfolding start_types add_roots last_count
  add_state f match match_metric_type res =
      let fields = split b'.' match in
      let types = start_types f match_metric_type in
      with_root f (last_count types fields) (add_roots types fields res f.states_count f.root)
