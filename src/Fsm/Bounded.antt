-- ===== src/Fsm/Bounded.antt =====
-- The remaining lengths in the trie of pkg/mapper/fsm/fsm.go: `AddState` keeps them right, and the
-- search loses nothing by looking at them first.
use statsd_exporter.Base.{
  ℕ, suc, ◌≤◌, ◌<◌, ◌≡◌, ◌⊎◌, inl, inr, refl, ap₂, subst, Bool-cases, Option, none, some, List, [],
  ◌∷◌, ◌++◌, Bytes, bytes_eq, bytes_eq_iff, if◌then◌else◌, length, arith,
}
use statsd_exporter.Fsm.{
  MappingState, mapping_state, Transitions, nil, edge, transitions, min_remaining_length,
  max_remaining_length, find, put, reach, add_fields, star,
}
use mathlib.Core.Option.{some-injective}
use statsd_exporter.Fsm.Routes.{Hit, hits, follow}

module _ {R : Type 0} where
  pub find-put :
      (f g : Bytes) (s : MappingState R) (es : Transitions R)
      → find g (put f s es) ≡ (if bytes_eq f g then some s else find g es)
  unfolding find put
  find-put f g s nil = refl
  find-put f g s (edge h t es) =
      ground (arith, bytes_eq_iff f g, bytes_eq_iff h f, bytes_eq_iff h g, find-put f g s es)

  -- Every state behind one transition has the property.
  abbrev pub Children {ℓ} : (MappingState R → Type ℓ) → Transitions R → Type ℓ
  Children P es = (f : Bytes) (t : MappingState R) → find f es ≡ some t → P t

  pub Children-put {ℓ} :
      (P : MappingState R → Type ℓ) (f : Bytes) (s : MappingState R) (es : Transitions R)
      → P s
      → Children P es
      → Children P (put f s es)
  Children-put P f s es h k g t e = elim (Bool-cases (bytes_eq f g)) [
    | inl same ↦
        let e' : some s ≡ some t = rw (find-put, same) at e in subst P (some-injective s t e') h
    | inr other ↦ k g t (rw (find-put, other) at e)
  ]

module _ {R : Type 0} where
  -- `minRemainingLength` and `maxRemainingLength` enclose what is left behind each state.
  pub data IsBounded : MappingState R → Type 0 where
    bounded :
        {es : Transitions R} {lo hi : ℕ} {r : Option R} {p : ℕ}
        → (r ≡ none) ⊎ (lo ≡ 0)
        → Children
            (λ t. (lo ≤ suc (min_remaining_length t)) × (suc (max_remaining_length t) ≤ hi))
            es
        → ((f : Bytes) (t : MappingState R) → find f es ≡ some t → IsBounded t)
        → IsBounded (mapping_state es lo hi r p)

  -- Fields of this number lie outside a state's lengths.
  abbrev pub IsOutside : MappingState R → ℕ → Type 0
  IsOutside s n = (max_remaining_length s < n) ⊎ (n < min_remaining_length s)

module _ {R : Type 0} where
  pub IsBounded-Children : (s : MappingState R) → IsBounded s → Children IsBounded (transitions s)
  IsBounded-Children (mapping_state es lo hi r p) (bounded e w k) = k

  follow_nil :
      (o : Option (MappingState R)) (go : MappingState R → List (Hit R))
      → ((t : MappingState R) → o ≡ some t → go t ≡ [])
      → follow o go ≡ []
  follow_nil none go h = refl
  follow_nil (some t) go h = h t refl

  -- No route is lost where the number of fields lies outside.
  pub hits_outside :
      (fs : List Bytes) (s : MappingState R) (caps : List Bytes)
      → IsBounded s
      → IsOutside s (length fs)
      → hits fs s caps ≡ []
  unfolding hits
  hits_outside [] (mapping_state es lo hi r p) caps (bounded e w k) h = ground arith
  hits_outside (f ∷ rest) (mapping_state es lo hi r p) caps (bounded e w k) h =
      ap₂ ◌++◌
        (follow_nil (find f es) _
          λ t q. hits_outside rest t caps (k f t q) (ground (arith, w f t q)))
        (follow_nil (find star es) _
          λ t q. hits_outside rest t (caps ++ f ∷ []) (k star t q) (ground (arith, w star t q)))

  reach_old-IsBounded :
      (s : MappingState R) (res : R) (rest : List Bytes)
      → IsBounded s
      → IsBounded (reach (some s) res rest)
        × (min_remaining_length (reach (some s) res rest) ≤ length rest)
        × (length rest ≤ max_remaining_length (reach (some s) res rest))
  unfolding reach
  reach_old-IsBounded (mapping_state es lo hi r p) res rest (bounded e w k) =
      (bounded (ground arith) (λ f t q. ground (arith, w f t q)) k, ground arith, ground arith)

  reach-IsBounded :
      (o : Option (MappingState R)) (res : R) (rest : List Bytes)
      → ((t : MappingState R) → o ≡ some t → IsBounded t)
      → IsBounded (reach o res rest)
        × (min_remaining_length (reach o res rest) ≤ length rest)
        × (length rest ≤ max_remaining_length (reach o res rest))
  unfolding reach find
  reach-IsBounded none res [] h =
      (bounded (inr refl) (λ f t e. cc) (λ f t e. cc), omega arith, omega arith)
  reach-IsBounded none res (g ∷ rest) h =
      (bounded (inl refl) (λ f t e. cc) (λ f t e. cc), omega arith, omega arith)
  reach-IsBounded (some s) res rest h = reach_old-IsBounded s res rest (h s refl)

  add_fields-lengths :
      (fs : List Bytes) (res : R) (n : ℕ) (s : MappingState R)
      → (min_remaining_length (add_fields fs res n s) ≡ min_remaining_length s)
        × (max_remaining_length (add_fields fs res n s) ≡ max_remaining_length s)
  unfolding add_fields
  add_fields-lengths [] res n (mapping_state es lo hi r p) = (refl, refl)
  add_fields-lengths (f ∷ rest) res n (mapping_state es lo hi r p) = (refl, refl)

  -- A state's lengths leave room for those of a state behind it.
  abbrev pub Encloses : ℕ → ℕ → MappingState R → Type 0
  Encloses lo hi t = (lo ≤ suc (min_remaining_length t)) × (suc (max_remaining_length t) ≤ hi)

  reach-Encloses :
      (o : Option (MappingState R)) (res : R) (rest : List Bytes) (lo hi : ℕ)
      → ((t : MappingState R) → o ≡ some t → Encloses lo hi t)
      → lo ≤ suc (length rest)
      → suc (length rest) ≤ hi
      → Encloses lo hi (reach o res rest)
  unfolding reach
  reach-Encloses none res [] lo hi h a b = (a, b)
  reach-Encloses none res (g ∷ rest) lo hi h a b = (a, b)
  reach-Encloses (some (mapping_state es l u r p)) res rest lo hi h a b =
      ground (arith, h (mapping_state es l u r p) refl)

  -- The state that `AddState` puts behind the field `f` of a state with transitions `es`.
  abbrev child : Bytes → List Bytes → R → ℕ → Transitions R → MappingState R
  child f rest res n es = add_fields rest res n (reach (find f es) res rest)

  -- `AddState` keeps the lengths right below a state that leaves room for the new rule.
  pub add_fields-IsBounded :
      (fs : List Bytes) (res : R) (n : ℕ) (s : MappingState R)
      → IsBounded s
      → min_remaining_length s ≤ length fs
      → length fs ≤ max_remaining_length s
      → IsBounded (add_fields fs res n s)
  unfolding add_fields
  add_fields-IsBounded [] res n (mapping_state es lo hi r p) (bounded e w k) a b = bounded e w k
  add_fields-IsBounded (f ∷ rest) res n (mapping_state es lo hi r p) (bounded e w k) a b =
      let old = reach (find f es) res rest in
      let (sound, least, most) = reach-IsBounded (find f es) res rest (k f) in
      bounded e
        (Children-put (Encloses lo hi) f (child f rest res n es) es
          (omega (
            arith,
            add_fields-lengths rest res n old,
            reach-Encloses (find f es) res rest lo hi (w f) a b,
          ))
          w)
        (Children-put IsBounded f (child f rest res n es) es
          (add_fields-IsBounded rest res n old sound least most) k)

  -- The same below the state of a metric type, whose own lengths are never looked at.
  pub add_fields-Children :
      (fs : List Bytes) (res : R) (n : ℕ) (s : MappingState R)
      → Children IsBounded (transitions s)
      → Children IsBounded (transitions (add_fields fs res n s))
  unfolding add_fields
  add_fields-Children [] res n (mapping_state es lo hi r p) k = k
  add_fields-Children (f ∷ rest) res n (mapping_state es lo hi r p) k =
      let (sound, least, most) = reach-IsBounded (find f es) res rest (k f) in
      Children-put IsBounded f (child f rest res n es) es
        (add_fields-IsBounded rest res n (reach (find f es) res rest) sound least most) k
