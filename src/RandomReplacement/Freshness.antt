-- ===== src/RandomReplacement/Freshness.antt =====
-- What the cache of pkg/mappercache/randomreplacement/randomreplacement.go holds.
use statsd_exporter.Base.{
  ℕ, zero, suc, ◌≤◌, ◌<◌, ◌≡◌, sym, ◌∙◌, Bool-cases, inl, inr, Option, none, some, List, [], ◌∷◌,
  Bytes, ltb, if◌then◌else◌, length, Dict, lookup, insert, delete, lookup-insert, lookup-delete,
  beq_refl, Bytes_eq, bytes_eq, arith,
}
use statsd_exporter.RandomReplacement.{
  MetricMapperRrCache, key_at, get, evict, evict_if_needed, add, reset, track_cache_length, Step,
  added, was_reset, tracked, run,
}

module _ {V : Type 0} where
  -- What was last added for a key since the last reset, starting from `before`.
  abbrev pub last_added : Bytes → List (Step V) → Option V → Option V
  last_added key [] before = before
  last_added key (added n k v ∷ steps) before =
      last_added key steps (if bytes_eq k key then some v else before)
  last_added key (was_reset ∷ steps) before = last_added key steps none
  last_added key (tracked ∷ steps) before = last_added key steps before

  length-insert : (k : Bytes) (v : V) (m : Dict Bytes V) → length (insert k v m) ≤ suc (length m)
  unfolding insert
  length-insert k v [] = omega arith
  length-insert k v ((j, w) ∷ m) = ground (arith, length-insert k v m)

  length-delete_le : (k : Bytes) (m : Dict Bytes V) → length (delete k m) ≤ length m
  unfolding delete
  length-delete_le k [] = omega arith
  length-delete_le k ((j, w) ∷ m) = ground (arith, length-delete_le k m)

  -- A key of the map is there to delete.
  length-evict :
      (n : ℕ) (m : Dict Bytes V) → 0 < length m → length (evict (key_at n m) m) < length m
  unfolding delete
  length-evict n [] h = absurd (omega arith)
  length-evict n ((k, v) ∷ []) h = ground (arith, beq_refl k)
  length-evict zero ((k, v) ∷ x ∷ m) h = ground (arith, beq_refl k, length-delete_le k (x ∷ m))
  length-evict (suc n) ((k, v) ∷ x ∷ m) h =
      kept (key_at n (x ∷ m)) (length-evict n (x ∷ m) (omega arith))
    where
      kept :
          (o : Option Bytes)
          → length (evict o (x ∷ m)) < length (x ∷ m)
          → length (evict o ((k, v) ∷ x ∷ m)) < length ((k, v) ∷ x ∷ m)
      kept none less = ground arith
      kept (some j) less = ground arith

  evict_if_needed-length :
      (size n : ℕ) (m : Dict Bytes V)
      → length m ≤ suc size
      → length (evict_if_needed size n m) ≤ size
  evict_if_needed-length size n m h = elim (Bool-cases (ltb size (length m))) [
    | inl full ↦ rw full (omega (arith, length-evict n m (ground arith)))
    | inr room ↦ rw room (ground arith)
  ]

  -- An eviction only forgets.
  lookup-evict :
      (size n : ℕ) (key : Bytes) (m : Dict Bytes V) (v : V)
      → lookup key (evict_if_needed size n m) ≡ some v
      → lookup key m ≡ some v
  lookup-evict size n key m v h = elim (Bool-cases (ltb size (length m))) [
    | inl full ↦ forgotten (key_at n m) (rw full at h)
    | inr room ↦ rw room at h
  ]
    where
      forgotten : (o : Option Bytes) → lookup key (evict o m) ≡ some v → lookup key m ≡ some v
      forgotten none e = e
      forgotten (some k) e = ground (arith, lookup-delete k key m)

  pub add-items :
      (key : Bytes) (n : ℕ) (k : Bytes) (r v : V) (c : MetricMapperRrCache V)
      → get key (add n k r c) ≡ some v
      → (if bytes_eq k key then some r else get key c) ≡ some v
  unfolding get add
  add-items key n k r v c h =
      sym (lookup-insert k key r c.items) ∙ lookup-evict c.size n key (insert k r c.items) v h

  added_known :
      (key k : Bytes) (r w : V) (c : MetricMapperRrCache V) (before : Option V)
      → ((u : V) → get key c ≡ some u → before ≡ some u)
      → (if bytes_eq k key then some r else get key c) ≡ some w
      → (if bytes_eq k key then some r else before) ≡ some w
  added_known key k r w c before known h = elim (Bool-cases (bytes_eq k key)) [
    | inl same ↦ rw same (rw same at h)
    | inr other ↦ rw other (known w (rw other at h))
  ]

  empty_unknown :
      (size : ℕ) (key : Bytes) (before : Option V) (w : V)
      → get key (record { size = size; items = []; cache_length = 0 }) ≡ some w
      → before ≡ some w
  unfolding get
  empty_unknown size key before w h = absurd (ground arith)

  run-before :
      (key : Bytes) (steps : List (Step V)) (c : MetricMapperRrCache V) (before : Option V)
      → ((w : V) → get key c ≡ some w → before ≡ some w)
      → (v : V) → get key (run steps c) ≡ some v
      → last_added key steps before ≡ some v
  unfolding run get
  run-before key [] c before known v h = known v h
  run-before key (added n k r ∷ steps) c before known v h =
      run-before key steps (add n k r c) (if bytes_eq k key then some r else before)
        (λ w e. added_known key k r w c before known (add-items key n k r w c e)) v h
  run-before key (was_reset ∷ steps) c before known v h =
      run-before key steps (reset c) none (λ w e. empty_unknown c.size key none w e) v h
  run-before key (tracked ∷ steps) c before known v h =
      run-before key steps (track_cache_length c) before known v h

  -- Whatever callers add, whichever entries are evicted, and wherever a reset comes: what the new
  -- cache returns for a key is the result that was last added for it since the last reset.
  pub run-last_added :
      (size : ℕ) (key : Bytes) (steps : List (Step V)) (v : V)
      → get key (run steps (record { size = size; items = []; cache_length = 0 })) ≡ some v
      → last_added key steps none ≡ some v
  run-last_added size key steps v h =
      run-before key steps (record { size = size; items = []; cache_length = 0 }) none
        (empty_unknown size key none) v h

  -- From a state within the size, the cache never holds more entries than its size, whatever callers
  -- add, whichever entries are evicted, and wherever a reset comes.
  pub run-length :
      (steps : List (Step V)) (c : MetricMapperRrCache V)
      → length c.items ≤ c.size
      → length (run steps c).items ≤ c.size
  unfolding run
  run-length [] c h = h
  run-length (added n k r ∷ steps) c h = run-length steps (add n k r c) (
      evict_if_needed-length c.size n (insert k r c.items)
        (omega (arith, length-insert k r c.items)))
  run-length (was_reset ∷ steps) c h = run-length steps (reset c) (omega arith)
  run-length (tracked ∷ steps) c h = run-length steps (track_cache_length c) h
