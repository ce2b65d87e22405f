-- ===== src/Fsm/Stack.antt =====
-- The stack of cursors of `FSM.GetMapping` (pkg/mapper/fsm/fsm.go): what it stands for, and why
-- the captures that it shares with the running search are not overwritten.
use statsd_exporter.Base.{
  ℕ, zero, suc, ◌+◌, ◌≤◌, ◌<◌, ◌≡◌, refl, ap, Option, none, some, List, [], ◌∷◌, ◌++◌, Bytes,
  length, take, set, arith,
}
use statsd_exporter.Fsm.{MappingState, transitions}
use statsd_exporter.Fsm.Search.{Cursor, Search, usable, power2}
use statsd_exporter.Fsm.Routes.{Hit, hits, follow}
use statsd_exporter.Fsm.Bounded.{Children, IsBounded, hits_outside}

module _ {ℓ} {A : Type ℓ} where
  pub length-set : (xs : List A) (i : ℕ) (v : A) → length (set xs i v) ≡ length xs
  length-set [] i v = refl
  length-set (x ∷ xs) zero v = refl
  length-set (x ∷ xs) (suc i) v = ap suc (length-set xs i v)

  take-set_later : (k i : ℕ) (xs : List A) (v : A) → k ≤ i → take k (set xs i v) ≡ take k xs
  take-set_later zero i xs v h = refl
  take-set_later (suc k) i [] v h = refl
  take-set_later (suc k) zero (x ∷ xs) v h = absurd (omega arith)
  take-set_later (suc k) (suc i) (x ∷ xs) v h =
      ap (λ t. x ∷ t) (take-set_later k i xs v (omega arith))

  take-suc-set :
      (i : ℕ) (xs : List A) (v : A)
      → i < length xs
      → take (suc i) (set xs i v) ≡ take i xs ++ v ∷ []
  take-suc-set i [] v h = absurd (omega arith)
  take-suc-set zero (x ∷ xs) v h = refl
  take-suc-set (suc i) (x ∷ xs) v h = ap (λ t. x ∷ t) (take-suc-set i xs v (omega arith))

  -- Writing at the capture index appends to the captures so far.
  pub take-set :
      (i : ℕ) (xs : List A) (v : A)
      → i < length xs
      → take (i + 1) (set xs i v) ≡ take i xs ++ v ∷ []
  take-set i xs v h = let e : i + 1 ≡ suc i = omega arith in rw e (take-suc-set i xs v h)

  pub take-length-take : (i : ℕ) (xs : List A) → take (length (take i xs)) xs ≡ take i xs
  take-length-take zero xs = refl
  take-length-take (suc i) [] = refl
  take-length-take (suc i) (x ∷ xs) = ap (λ t. x ∷ t) (take-length-take i xs)

module _ {R : Type 0} where
  -- The captures of the running search.
  abbrev pub current : Search R → List Bytes
  current s = take s.capture_idx s.captures

  -- The hits that the cursors still stand for.
  abbrev pub pending : List Bytes → List (Cursor R) → List (Hit R)
  pending captures [] = []
  pending captures (c ∷ cs) =
      hits c.rest c.state (take c.capture_index captures ++ c.current_capture ∷ [])
      ++ pending captures cs

  -- How many depth-only searches the cursors may still cause.
  abbrev pub weight : List (Cursor R) → ℕ
  weight [] = 0
  weight (c ∷ cs) = power2 c.rest + weight cs

  abbrev pub IsBelow : ℕ → List (Cursor R) → Type 0
  IsBelow i [] = Unit
  IsBelow i (c ∷ cs) = c.capture_index ≤ i

  pub IsBelow-le : {i j : ℕ} (cs : List (Cursor R)) → IsBelow i cs → i ≤ j → IsBelow j cs
  IsBelow-le [] b h = tt
  IsBelow-le (c ∷ cs) b h = omega arith

  -- Cursors with room for their captures; those further down capture no later.
  abbrev pub IsStacked : ℕ → List (Cursor R) → Type 0
  IsStacked n [] = Unit
  IsStacked n (c ∷ cs) =
      (c.capture_index + length c.rest < n)
      × Children IsBounded (transitions c.state)
      × IsBelow c.capture_index cs
      × IsStacked n cs

  -- A write at or after the running search's index changes no pending hit.
  pub pending-set :
      (n i : ℕ) (cs : List (Cursor R)) (captures : List Bytes) (v : Bytes)
      → IsBelow i cs
      → IsStacked n cs
      → pending (set captures i v) cs ≡ pending captures cs
  pending-set n i [] captures v h k = refl
  pending-set n i (c ∷ cs) captures v h (room, sound, lower, k) =
      rw (take-set_later c.capture_index i captures v h) (
        ap (λ t. hits c.rest c.state (take c.capture_index captures ++ c.current_capture ∷ []) ++ t)
          (pending-set n i cs captures v (IsBelow-le cs lower h) k))

  -- The lengths rule a transition out only if it leads to no hit.
  pub follow-usable :
      (o : Option (MappingState R)) (rest caps : List Bytes)
      → ((t : MappingState R) → o ≡ some t → IsBounded t)
      → follow o (λ t. hits rest t caps) ≡ follow (usable (length rest) o) (λ t. hits rest t caps)
  unfolding usable
  follow-usable none rest caps h = refl
  follow-usable (some t) rest caps h = ground (arith, hits_outside rest t caps (h t refl))

  pub usable-eq-some :
      (o : Option (MappingState R)) (n : ℕ) (t : MappingState R) → usable n o ≡ some t → o ≡ some t
  unfolding usable
  usable-eq-some none n t e = e
  usable-eq-some (some s) n t e = ground arith
