-- ===== src/Fsm/Ordered.antt =====
-- `FSM.GetMapping` of pkg/mapper/fsm/fsm.go, with ordering: the search finds the best of all hits.
use statsd_exporter.Base.{
  ℕ, zero, suc, ◌+◌, ◌≤◌, ◌<◌, ◌≡◌, refl, sym, ap, ap₂, subst, ◌∙◌, true, false, Bool-cases, inl,
  inr, Option, none, some, List, [], ◌∷◌, ◌++◌, append_assoc, append-nil, Bytes, length, take, set,
  split, split-cons, if◌then◌else◌, arith,
}
use statsd_exporter.Fsm.{MappingState, transitions, find, star, result, Fsm}
use statsd_exporter.Fsm.Search.{
  Cursor, Search, Outcome, returned, broke, Found, found, usable, take_star, push_star, take_field,
  next_state, is_better, arrive_last, arrive, or_break, descend, resume, backtrack_loop, blanks,
  power2, search_from, get_mapping,
}
use statsd_exporter.Fsm.Routes.{Hit, hit, hits, follow, best}
use statsd_exporter.Fsm.Bounded.{Children, IsBounded, IsBounded-Children}
use statsd_exporter.Fsm.Stack.{
  length-set, take-set, take-length-take, current, pending, weight, IsBelow, IsBelow-le, IsStacked,
  pending-set, follow-usable, usable-eq-some,
}

module _ {R : Type 0} where
  -- A final state and its captures, against a hit. Behind the captures of the hit the array holds
  -- what other searches left there.
  abbrev pub Agrees : Option (MappingState R) → List Bytes → Option (Hit R) → Type 0
  Agrees state captures none = state ≡ none
  Agrees state captures (some (t, caps)) = (state ≡ some t) × (take (length caps) captures ≡ caps)

  -- A search that has found `b`, for a metric of `n` fields.
  record Paused (n : ℕ) (s : Search R) (b : Option (Hit R)) : Type 0 where
    size : length s.captures ≡ n
    agrees : Agrees s.final_state s.final_captures b
    stacked : IsStacked n s.backtrack

  -- A search ends by a `break`, with the hits still to come unchanged and fewer searches left.
  abbrev Ends : ℕ → Option (Hit R) → ℕ → Outcome R → Type 0
  Ends n goal w (returned _ _) = ⊥
  Ends n goal w (broke s) =
      (b : Option (Hit R)) × Paused n s b
      × (best b (pending s.captures s.backtrack) ≡ goal)
      × (weight s.backtrack < w)

  better-is_better :
      (t : MappingState R) (r : Option R) (caps : List Bytes) (s : Search R) (b : Option (Hit R))
      → Agrees s.final_state s.final_captures b
      → best b ((t, caps) ∷ []) ≡ (if is_better t s.final_state then some (t, caps) else b)
  unfolding is_better
  better-is_better t r caps s none a = rw a
  better-is_better t r caps s (some (u, cs)) (e, _) = rw (e, is_better) (ground arith)

  arrive_last-Ends :
      (n : ℕ) (t : MappingState R) (r : Option R) (s : Search R) (b : Option (Hit R))
      → Paused n s b
      → Ends n
          (best b (hit t (current s) r ++ pending s.captures s.backtrack))
          (weight s.backtrack + 1)
          (arrive_last false t r s)
  unfolding arrive_last
  arrive_last-Ends n t none s b v = (b, v, refl, omega arith)
  arrive_last-Ends n t (some x) s b v =
      let e = better-is_better t (some x) (current s) s b v.agrees in
      elim (Bool-cases (is_better t s.final_state)) [
        | inl yes_better ↦ rw yes_better (
          some (t, current s),
          record {
            size = v.size;
            agrees = (refl, take-length-take s.capture_idx s.captures);
            stacked = v.stacked;
          },
          ap (λ z. best z (pending s.captures s.backtrack)) (sym (rw yes_better at e)),
          omega arith,
        )
        | inr no_better ↦ rw no_better (
          b,
          v,
          ap (λ z. best z (pending s.captures s.backtrack)) (sym (rw no_better at e)),
          omega arith,
        )
      ]

module _ (R : Type 0) where
  -- What is to be shown of a search that has arrived at `t` with the fields `fs` left.
  abbrev Arrives : List Bytes → Type 0
  Arrives fs =
      (n : ℕ) (t : MappingState R) (s : Search R) (b : Option (Hit R))
      → Children IsBounded (transitions t)
      → Paused n s b
      → IsBelow s.capture_idx s.backtrack
      → s.capture_idx + length fs ≤ n
      → Ends n (best b (hits fs t (current s) ++ pending s.captures s.backtrack))
          (weight s.backtrack + power2 fs) (arrive false (descend false true fs) fs t s)

power2-pos : (fs : List Bytes) → 0 < power2 fs
power2-pos [] = omega arith
power2-pos (f ∷ fs) = omega (arith, power2-pos fs)

module _ {R : Type 0} where
  Ends-le :
      (n w w' : ℕ) (goal goal' : Option (Hit R)) (o : Outcome R)
      → Ends n goal w o
      → goal ≡ goal'
      → w ≤ w'
      → Ends n goal' w' o
  Ends-le n w w' goal goal' (returned t c) e g h = e
  Ends-le n w w' goal goal' (broke s) (b, v, e, k) g h = (b, v, e ∙ g, omega arith)

  -- One field: the four ways in which its two transitions may be usable.
  step_Ends :
      (f : Bytes) (rest : List Bytes)
      → Arrives R rest
      → (n : ℕ) (own alt : Option (MappingState R)) (s : Search R) (b : Option (Hit R))
      → ((u : MappingState R) → own ≡ some u → Children IsBounded (transitions u))
      → ((u : MappingState R) → alt ≡ some u → Children IsBounded (transitions u))
      → Paused n s b
      → IsBelow s.capture_idx s.backtrack
      → s.capture_idx + suc (length rest) ≤ n
      → Ends n
          (best b (
            (follow own (λ u. hits rest u (current s))
              ++ follow alt (λ u. hits rest u (current s ++ f ∷ [])))
            ++ pending s.captures s.backtrack))
          (weight s.backtrack + (power2 rest + power2 rest))
          (or_break
            (arrive false (descend false true rest) rest)
            s
            (take_field true f rest own alt s))
  unfolding take_field take_star push_star
  step_Ends f rest ih n none none s b ho ha v low room =
      (b, v, refl, omega (arith, power2-pos rest))
  step_Ends f rest ih n none (some u) s b ho ha v low room =
      let s' : Search R = record s {
        captures = set s.captures s.capture_idx f;
        capture_idx = s.capture_idx + 1;
      } in
      let inside : s.capture_idx < length s.captures = omega (arith, v.size) in
      Ends-le n _ _ _ _ (arrive false (descend false true rest) rest u s')
        (ih n u s' b (ha u refl)
          (record {
            size = length-set s.captures s.capture_idx f ∙ v.size;
            agrees = v.agrees;
            stacked = v.stacked;
          })
          (IsBelow-le s.backtrack low (omega arith)) (omega arith))
        (ap₂ (λ x y. best b (hits rest u x ++ y)) (take-set s.capture_idx s.captures f inside)
          (pending-set n s.capture_idx s.backtrack s.captures f low v.stacked))
        (omega arith)
  step_Ends f rest ih n (some t) none s b ho ha v low room =
      Ends-le n _ _ _ _ (arrive false (descend false true rest) rest t s)
        (ih n t s b (ho t refl) v low (omega arith))
        (ap (λ x. best b (x ++ pending s.captures s.backtrack))
          (sym (append-nil (hits rest t (current s)))))
        (omega arith)
  step_Ends f rest ih n (some t) (some u) s b ho ha v low room =
      let c : Cursor R = record {
        rest = rest;
        capture_index = s.capture_idx;
        current_capture = f;
        state = u;
      } in
      let s' : Search R = record s { backtrack = c ∷ s.backtrack } in
      Ends-le n _ _ _ _ (arrive false (descend false true rest) rest t s')
        (ih n t s' b (ho t refl)
          (record {
            size = v.size;
            agrees = v.agrees;
            stacked = (omega arith, ha u refl, low, v.stacked);
          })
          (omega arith) (omega arith))
        (ap (best b) (
          sym (
            append_assoc (hits rest t (current s)) (hits rest u (current s ++ f ∷ []))
              (pending s.captures s.backtrack))))
        (omega arith)

  Children-usable :
      (rest : List Bytes) (f : Bytes) (t : MappingState R)
      → Children IsBounded (transitions t)
      → (u : MappingState R) → usable (length rest) (find f (transitions t)) ≡ some u
      → Children IsBounded (transitions u)
  Children-usable rest f t k u e =
      IsBounded-Children u (k f u (usable-eq-some (find f (transitions t)) (length rest) u e))

  arrive-Ends : (fs : List Bytes) → Arrives R fs
  unfolding arrive descend next_state hits
  arrive-Ends [] n t s b k v low room = arrive_last-Ends n t (result t) s b v
  arrive-Ends (f ∷ rest) n t s b k v low room =
      Ends-le n _ _ _ _ _
        (step_Ends f rest (arrive-Ends rest) n (usable (length rest) (find f (transitions t)))
          (usable (length rest) (find star (transitions t))) s b (Children-usable rest f t k)
          (Children-usable rest star t k) v low room)
        (ap₂ (λ x y. best b ((x ++ y) ++ pending s.captures s.backtrack))
          (sym (follow-usable (find f (transitions t)) rest (current s) (k f)))
          (sym (follow-usable (find star (transitions t)) rest (current s ++ f ∷ []) (k star))))
        (omega arith)

module _ {R : Type 0} where
  -- The result of the search, with enough fuel, is the given hit.
  abbrev pub Finds : Found R → Option (Hit R) → Type 0
  Finds r b =
      (state : Option (MappingState R)) × (captures : List Bytes) × (r ≡ found state captures)
      × Agrees state captures b

  -- `go` is the claim for the loop with one search less to make.
  backtrack_round-Finds :
      (fuel n : ℕ) (s : Search R) (b : Option (Hit R)) (cs : List (Cursor R))
      → ((w : ℕ) (goal : Option (Hit R)) (o : Outcome R)
          → Ends n goal w o
          → w ≤ fuel
          → Finds (backtrack_loop false true fuel o) goal)
      → s.backtrack ≡ cs
      → Paused n s b
      → weight cs < suc fuel
      → Finds (backtrack_loop false true (suc fuel) (broke s)) (best b (pending s.captures cs))
  unfolding backtrack_loop resume
  backtrack_round-Finds fuel n s b [] go e v h =
      rw (e, backtrack_loop) (s.final_state, s.final_captures, refl, v.agrees)
  backtrack_round-Finds fuel n s b (c ∷ cs) go e v h =
      let stacked : IsStacked n (c ∷ cs) = rw e at v.stacked in
      let (room, sound, low, below) = stacked in
      let s' : Search R = record s {
        captures = set s.captures c.capture_index c.current_capture;
        capture_idx = c.capture_index + 1;
        backtrack = cs;
      } in
      let inside : c.capture_index < length s.captures = omega (arith, v.size) in
      let ends =
        arrive-Ends c.rest n c.state s' b sound
          (record {
            size = length-set s.captures c.capture_index c.current_capture ∙ v.size;
            agrees = v.agrees;
            stacked = below;
          })
          (IsBelow-le cs low (omega arith)) (omega arith) in
      rw (e, backtrack_loop)
        (go (power2 c.rest + weight cs) _ _
          (Ends-le n _ _ _ _ _ ends
            (ap₂ (λ x y. best b (hits c.rest c.state x ++ y))
              (take-set c.capture_index s.captures c.current_capture inside)
              (pending-set n c.capture_index cs s.captures c.current_capture low below))
            (omega arith))
          (omega arith))

  from_Ends :
      (fuel n w : ℕ) (goal : Option (Hit R)) (o : Outcome R)
      → Ends n goal w o
      → w ≤ fuel
      → Finds (backtrack_loop false true fuel o) goal
  from_Ends fuel n w goal (returned t c) e h = absurd e
  from_Ends zero n w goal (broke s) (b, v, e, k) h = absurd (omega arith)
  from_Ends (suc fuel) n w goal (broke s) (b, v, e, k) h =
      subst (Finds (backtrack_loop false true (suc fuel) (broke s))) e
        (backtrack_round-Finds fuel n s b s.backtrack (from_Ends fuel n) refl v (omega arith))

length-blanks : (fs : List Bytes) → length (blanks fs) ≡ length fs
length-blanks [] = refl
length-blanks (f ∷ fs) = ap suc (length-blanks fs)

module _ {R : Type 0} where
  search_from-Finds :
      (g : Bytes) (rest : List Bytes) (t : MappingState R)
      → Children IsBounded (transitions t)
      → Finds (search_from false true (g ∷ rest) t) (best none (hits (g ∷ rest) t []))
  search_from-Finds g rest t k =
      unfold search_from arrive in
      from_Ends (power2 (g ∷ rest) + 1) (suc (length rest)) (power2 (g ∷ rest))
        (best none (hits (g ∷ rest) t [])) _
        (Ends-le (suc (length rest)) _ _ _ _ _
          (arrive-Ends (g ∷ rest) (suc (length rest)) t
            (record {
              captures = blanks (g ∷ rest);
              capture_idx = 0;
              backtrack = [];
              final_state = none;
              final_captures = blanks (g ∷ rest);
            })
            none k (record { size = length-blanks (g ∷ rest); agrees = refl; stacked = tt }) tt
            (omega arith))
          (ap (best none) (append-nil (hits (g ∷ rest) t []))) (omega arith))
        (omega arith)

  get_mapping-search_from :
      (f : Fsm R) (metric metric_type : Bytes) (t : MappingState R)
      → find metric_type f.root ≡ some t
      → get_mapping f metric metric_type
        ≡ search_from f.ordering_disabled f.backtracking_needed (split b'.' metric) t
  get_mapping-search_from f metric metric_type t e = unfold get_mapping in rw (e, get_mapping)

  -- On a trie whose lengths are right, with ordering and backtracking, for a metric type that the
  -- root knows: `GetMapping` stops within its fuel, and its final state is the first of all hits
  -- with the least priority number, or none if there is no hit. The captures that it returns begin
  -- with the fields that the `*`s of that hit took.
  pub get_mapping-best :
      (f : Fsm R) (metric metric_type : Bytes) (t : MappingState R)
      → f.ordering_disabled ≡ false
      → f.backtracking_needed ≡ true
      → find metric_type f.root ≡ some t
      → Children IsBounded (transitions t)
      → Finds (get_mapping f metric metric_type) (best none (hits (split b'.' metric) t []))
  get_mapping-best f metric metric_type t od bn e k =
      let (g, rest, q) = split-cons b'.' metric in
      subst (λ fs. Finds (get_mapping f metric metric_type) (best none (hits fs t []))) (sym q)
        (subst (λ r. Finds r (best none (hits (g ∷ rest) t [])))
          (sym (
            get_mapping-search_from f metric metric_type t e
            ∙ ap₂ (λ x y. search_from x y (split b'.' metric) t) od bn
            ∙ ap (λ fs. search_from false true fs t) q))
          (search_from-Finds g rest t k))
