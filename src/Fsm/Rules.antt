-- ===== src/Fsm/Rules.antt =====
-- `NewFSM` and `AddState` for a list of rules (pkg/mapper/fsm/fsm.go), as seen from the state of one
-- metric type: the rules that apply to the type, numbered by their place among all rules.
use statsd_exporter.Base.{
  ℕ, suc, ◌+◌, ◌≤◌, ◌≡◌, ◌⊎◌, refl, sym, ap, ap₂, subst, ◌∙◌, Bool, true, false, ◌||◌, Bool-cases,
  Option-cases, inl, inr, Option, none, some, List, [], ◌∷◌, Bytes, bytes_eq, bytes_eq_iff, split,
  split-cons, if◌then◌else◌, arith, All,
}
use mathlib.Core.Option.{some-injective}
use statsd_exporter.Fsm.{
  MappingState, Transitions, transitions, find, put, leaf, add_fields, add_roots, new_roots, Fsm,
  start_types, last_count, with_root, add_state,
}
use statsd_exporter.Fsm.Bounded.{find-put, Children, IsBounded, add_fields-Children}
use statsd_exporter.Fsm.Values.{value}
use statsd_exporter.Fsm.Entries.{Entry, IsNumbered, add_entries, Holds}

-- The arguments of one call of `AddState`.
pub record Rule (R : Type 0) : Type 0 where
  pub match : Bytes
  pub match_metric_type : Bytes
  pub outcome : R

abbrev pub is_in : Bytes → List Bytes → Bool
is_in t [] = false
is_in t (u ∷ us) = bytes_eq u t || is_in t us

abbrev pub IsDistinct : List Bytes → Type 0
IsDistinct [] = Unit
IsDistinct (t ∷ ts) = (is_in t ts ≡ false) × IsDistinct ts

module _ {R : Type 0} where
  -- The loop of `InitFromYAMLString` over the glob mappings, as far as the machine goes.
  abbrev pub add_rules : List (Rule R) → Fsm R → Option (Fsm R)
  add_rules [] f = some f
  add_rules (r ∷ rs) f = elim (add_state f r.match r.match_metric_type r.outcome) [
    | none ↦ none
    | some (g, _) ↦ add_rules rs g
  ]

  -- Whether a rule is meant for a metric type.
  abbrev pub applies : Bytes → List Bytes → Rule R → Bool
  applies t types r =
      if bytes_eq r.match_metric_type [] then is_in t types else bytes_eq r.match_metric_type t

  -- The rules for one metric type, numbered by their place among all rules.
  abbrev pub entries : Bytes → List Bytes → ℕ → List (Rule R) → List (Entry R)
  entries t types n [] = []
  entries t types n (r ∷ rs) =
      let rest = entries t types (n + 1) rs in
      if applies t types r
      then record { number = n; fields = split b'.' r.match; outcome = r.outcome } ∷ rest
      else rest

  add_roots-find :
      (t : Bytes) (ts fields : List Bytes) (res : R) (n : ℕ) (root root' : Transitions R)
      (s : MappingState R)
      → IsDistinct ts
      → find t root ≡ some s
      → add_roots ts fields res n root ≡ some root'
      → find t root' ≡ some (if is_in t ts then add_fields fields res n s else s)
  unfolding add_roots
  add_roots-find t [] fields res n root root' s d e h = ground (arith, e)
  add_roots-find t (u ∷ us) fields res n root root' s d e h = elim (Option-cases (find u root)) [
    | inl q ↦ cc (rw (q, add_roots) at h)
    | inr (w, q) ↦
        let new = add_fields fields res n w in
        let h' : add_roots us fields res n (put u new root) ≡ some root' = rw (q, add_roots) at h in
        elim (Bool-cases (bytes_eq u t)) [
          | inl same ↦
              let u_is_t : u ≡ t = (bytes_eq_iff u t).0 same in
              let w_is_s : w ≡ s = some-injective w s (sym q ∙ ap (λ z. find z root) u_is_t ∙ e) in
              let absent : is_in t us ≡ false = rw u_is_t at d.0 in
              let made : find t (put u new root) ≡ some (add_fields fields res n s) =
                find-put u t new root
                ∙ rw same (ap (λ z. some (add_fields fields res n z)) w_is_s) in
              rw same
                (add_roots-find t us fields res n (put u new root) root' _ d.1 made h' ∙ rw absent)
          | inr other ↦
              let kept : find t (put u new root) ≡ some s = find-put u t new root ∙ rw other e in
              rw other (add_roots-find t us fields res n (put u new root) root' s d.1 kept h')
        ]
  ]

  add_state-with_root :
      (f : Fsm R) (match match_metric_type : Bytes) (res : R)
      → (c : ℕ) × (add_state f match match_metric_type res
          ≡ with_root f c (
              add_roots
                (start_types f match_metric_type)
                (split b'.' match)
                res
                f.states_count
                f.root))
  add_state-with_root f match match_metric_type res =
      (last_count (start_types f match_metric_type) (split b'.' match), unfold add_state in refl)

  start_types-applies :
      (t : Bytes) (f : Fsm R) (r : Rule R)
      → IsDistinct f.metric_types
      → IsDistinct (start_types f r.match_metric_type)
        × (is_in t (start_types f r.match_metric_type) ≡ applies t f.metric_types r)
  unfolding start_types
  start_types-applies t f r d = elim (Bool-cases (bytes_eq r.match_metric_type [])) [
    | inl e ↦ rw e (d, refl)
    | inr e ↦ rw e ((refl, tt), ground arith)
  ]

  with_root-eq-some :
      (f g : Fsm R) (c c' : ℕ) (o : Option (Transitions R))
      → with_root f c o ≡ some (g, c')
      → (root : Transitions R) × (o ≡ some root)
        × (g ≡ record f { root = root; states_count = f.states_count + 1 })
  with_root-eq-some f g c c' none h = cc
  with_root-eq-some f g c c' (some root) h = (root, refl, cc)

  -- One call of `AddState`, as seen from the state of one metric type.
  add_state-find :
      (t : Bytes) (f g : Fsm R) (r : Rule R) (c : ℕ) (s : MappingState R)
      → IsDistinct f.metric_types
      → find t f.root ≡ some s
      → add_state f r.match r.match_metric_type r.outcome ≡ some (g, c)
      → (find t g.root
          ≡ some (
              if applies t f.metric_types r
              then add_fields (split b'.' r.match) r.outcome f.states_count s
              else s))
        × (g.states_count ≡ f.states_count + 1)
        × (g.metric_types ≡ f.metric_types)
        × (g.ordering_disabled ≡ f.ordering_disabled)
  add_state-find t f g r c s d e h =
      let types = start_types f r.match_metric_type in
      let fields = split b'.' r.match in
      let (d', same) = start_types-applies t f r d in
      let (k, unfolded) = add_state-with_root f r.match r.match_metric_type r.outcome in
      let (root, q, g_is) = with_root-eq-some f g k c _ (sym unfolded ∙ h) in
      let new = add_roots-find t types fields r.outcome f.states_count f.root root s d' e q in
      (
        ap (λ z. find t z.root) g_is
            ∙ new
            ∙ ap (λ b. some (if b then add_fields fields r.outcome f.states_count s else s)) same,
        ap (λ z. z.states_count) g_is,
        ap (λ z. z.metric_types) g_is,
        ap (λ z. z.ordering_disabled) g_is,
      )

  pub entries-IsNumbered :
      (t : Bytes) (types : List Bytes) (n : ℕ) (rs : List (Rule R)) (m : ℕ)
      → m ≤ n
      → IsNumbered m (entries t types n rs)
  entries-IsNumbered t types n [] m h = tt
  entries-IsNumbered t types n (r ∷ rs) m h = elim (Bool-cases (applies t types r)) [
    | inl e ↦ rw e (h, entries-IsNumbered t types (n + 1) rs (suc n) (omega arith))
    | inr e ↦ rw e (entries-IsNumbered t types (n + 1) rs m (omega arith))
  ]

  pub entries_have_fields :
      (t : Bytes) (types : List Bytes) (n : ℕ) (rs : List (Rule R))
      → All (λ e. (f : Bytes) × (rest : List Bytes) × (e.fields ≡ f ∷ rest)) (entries t types n rs)
  entries_have_fields t types n [] = tt
  entries_have_fields t types n (r ∷ rs) = elim (Bool-cases (applies t types r)) [
    | inl e ↦ rw e (split-cons b'.' r.match, entries_have_fields t types (n + 1) rs)
    | inr e ↦ rw e (entries_have_fields t types (n + 1) rs)
  ]

  add_rules-cons :
      (r : Rule R) (rs : List (Rule R)) (f h : Fsm R)
      → add_rules (r ∷ rs) f ≡ some h
      → (g : Fsm R) × (c : ℕ) × (add_state f r.match r.match_metric_type r.outcome ≡ some (g, c))
        × (add_rules rs g ≡ some h)
  add_rules-cons r rs f h e =
      elim (Option-cases (add_state f r.match r.match_metric_type r.outcome)) [
        | inl q ↦ cc (rw (q, add_rules) at e)
        | inr ((g, c), q) ↦ (g, c, q, rw (q, add_rules) at e)
      ]

  add_entries-if :
      (b : Bool) (e : Entry R) (es : List (Entry R)) (s : MappingState R)
      → add_entries (if b then e ∷ es else es) s
        ≡ add_entries es (if b then add_fields e.fields e.outcome e.number s else s)
  add_entries-if true e es s = refl
  add_entries-if false e es s = refl

  -- The calls of `AddState`, as seen from the state of one metric type.
  pub add_rules-find :
      (t : Bytes) (rs : List (Rule R)) (f h : Fsm R) (s : MappingState R)
      → IsDistinct f.metric_types
      → find t f.root ≡ some s
      → add_rules rs f ≡ some h
      → (find t h.root ≡ some (add_entries (entries t f.metric_types f.states_count rs) s))
        × (h.ordering_disabled ≡ f.ordering_disabled)
  add_rules-find t [] f h s d e q =
      let same : f ≡ h = some-injective f h q in (rw (← same) e, rw (← same))
  add_rules-find t (r ∷ rs) f h s d e q =
      let (g, c, made, later) = add_rules-cons r rs f h q in
      let (at_t, count, types, ordering) = add_state-find t f g r c s d e made in
      let d' : IsDistinct g.metric_types = subst IsDistinct (sym types) d in
      let s' : MappingState R =
        if applies t f.metric_types r
        then add_fields (split b'.' r.match) r.outcome f.states_count s
        else s in
      let (end_t, ordering') = add_rules-find t rs g h s' d' at_t later in
      (
        end_t
            ∙ ap₂ (λ x n. some (add_entries (entries t x n rs) s')) types count
            ∙ ap some (sym (add_entries-if (applies t f.metric_types r) _ _ s)),
        ordering' ∙ ordering,
      )

  pub new_roots-find :
      (t : Bytes) (ts : List Bytes) (es : Transitions R)
      → (is_in t ts ≡ true) ⊎ (find t es ≡ some leaf)
      → find t (new_roots ts es) ≡ some leaf
  unfolding new_roots
  new_roots-find t [] es (inl h) = cc
  new_roots-find t [] es (inr h) = h
  new_roots-find t (u ∷ us) es h =
      new_roots-find t us (put u leaf es) (elim (Bool-cases (bytes_eq u t)) [
        | inl e ↦ inr (find-put u t leaf es ∙ rw e)
        | inr e ↦ elim h [
          | inl k ↦ inl (ground arith)
          | inr k ↦ inr (find-put u t leaf es ∙ rw e k)
        ]
      ])

  pub add_entries-Children :
      (es : List (Entry R)) (s : MappingState R)
      → Children IsBounded (transitions s)
      → Children IsBounded (transitions (add_entries es s))
  add_entries-Children [] s k = k
  add_entries-Children (e ∷ es) s k =
      add_entries-Children es (add_fields e.fields e.outcome e.number s)
        (add_fields-Children e.fields e.outcome e.number s k)

  pub leaf-Children : Children IsBounded (transitions {R = R} leaf)
  unfolding find
  leaf-Children f t e = cc

  pub leaf-Holds : Holds {R = R} [] leaf
  unfolding find
  leaf-Holds = record { only = λ q r n e. nothing q r n e; each = tt; paths = λ f q. refl }
    where
      nothing : (q : List Bytes) (r : R) (n : ℕ) → value {R = R} q leaf ≡ some (r, n) → ⊥
      nothing [] r n e = cc
      nothing (f ∷ q) r n e = cc
