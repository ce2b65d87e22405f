-- ===== src/Fsm/Covers.antt =====
-- Which metrics a glob rule covers (README of pkg/mapper/fsm), and that the hits in a trie are
-- exactly the covering paths with a result.
use statsd_exporter.Base.{
  ℕ, ◌≡◌, refl, sym, ap, subst, ◌∙◌, Bool, true, false, not, ◌&&◌, ◌||◌, Bool-cases, inl, inr,
  Option, none, some, List, [], ◌∷◌, ◌++◌, append-nil, append_assoc, Bytes, bytes_eq, bytes_eq_iff,
  if◌then◌else◌, arith, All, All-append, All_weaken, Any, Any-append_left, Any-append_right,
}
use statsd_exporter.Fsm.{MappingState, transitions, result, result_priority, find, star}
use statsd_exporter.Fsm.Routes.{Hit, hit, hits, follow}
use statsd_exporter.Fsm.Values.{value, value_at}

-- `*` stands for one whole field, and any other field for itself.
abbrev pub covers : List Bytes → List Bytes → Bool
covers [] [] = true
covers [] (f ∷ fs) = false
covers (p ∷ ps) [] = false
covers (p ∷ ps) (f ∷ fs) = (bytes_eq p f || bytes_eq p star) && covers ps fs

-- The fields at the `*`s.
abbrev pub captured : List Bytes → List Bytes → List Bytes
captured [] fs = []
captured (p ∷ ps) [] = []
captured (p ∷ ps) (f ∷ fs) = if bytes_eq p star then f ∷ captured ps fs else captured ps fs

-- No field is itself the text `*`.
abbrev pub has_no_star : List Bytes → Bool
has_no_star [] = true
has_no_star (f ∷ fs) = not (bytes_eq f star) && has_no_star fs

module _ {R : Type 0} where
  -- The hit is the end of a path that covers the fields, with that path's result and priority, and
  -- carries the fields at the path's `*`s behind those captured before.
  pub record IsCovering (fs : List Bytes) (t : MappingState R) (caps : List Bytes) (h : Hit R)
      : Type 0 where
    pub path : List Bytes
    pub outcome : R
    pub covering : covers path fs ≡ true
    pub worth : value path t ≡ some (outcome, result_priority h.0)
    pub ends_in : result h.0 ≡ some outcome
    pub captures : has_no_star fs ≡ true → h.1 ≡ caps ++ captured path fs

  hit-IsCovering :
      (t : MappingState R) (caps : List Bytes) → All (IsCovering [] t caps) (hit t caps (result t))
  hit-IsCovering t caps = go (result t) refl
    where
      go : (r : Option R) → result t ≡ r → All (IsCovering [] t caps) (hit t caps r)
      go none e = tt
      go (some r) e = (
        record {
          path = [];
          outcome = r;
          covering = refl;
          worth = rw e;
          ends_in = e;
          captures = λ _. sym (append-nil caps);
        },
        tt,
      )

  behind_field :
      (f : Bytes) (rest : List Bytes) (t u : MappingState R) (caps : List Bytes) (h : Hit R)
      → find f (transitions t) ≡ some u
      → IsCovering rest u caps h
      → IsCovering (f ∷ rest) t caps h
  behind_field f rest t u caps h e v = record {
    path = f ∷ v.path;
    outcome = v.outcome;
    covering = ground (arith, bytes_eq_iff f f, v.covering);
    worth = ap (value_at v.path) e ∙ v.worth;
    ends_in = v.ends_in;
    captures = λ k. ground (arith, v.captures);
  }

  behind_star :
      (f : Bytes) (rest : List Bytes) (t u : MappingState R) (caps : List Bytes) (h : Hit R)
      → find star (transitions t) ≡ some u
      → IsCovering rest u (caps ++ f ∷ []) h
      → IsCovering (f ∷ rest) t caps h
  behind_star f rest t u caps h e v = record {
    path = star ∷ v.path;
    outcome = v.outcome;
    covering = ground (arith, v.covering);
    worth = ap (value_at v.path) e ∙ v.worth;
    ends_in = v.ends_in;
    captures = λ k. ground (arith, v.captures, append_assoc caps (f ∷ []) (captured v.path rest));
  }

  follow-All :
      (P : Hit R → Type 0) (o : Option (MappingState R)) (go : MappingState R → List (Hit R))
      → ((u : MappingState R) → o ≡ some u → All P (go u))
      → All P (follow o go)
  follow-All P none go h = tt
  follow-All P (some u) go h = h u refl

  -- Every hit is the end of a covering path.
  pub hits-IsCovering :
      (fs : List Bytes) (t : MappingState R) (caps : List Bytes)
      → All (IsCovering fs t caps) (hits fs t caps)
  unfolding hits
  hits-IsCovering [] t caps = hit-IsCovering t caps
  hits-IsCovering (f ∷ rest) t caps =
      All-append (IsCovering (f ∷ rest) t caps) (follow (find f (transitions t)) _) _
        (follow-All (IsCovering (f ∷ rest) t caps) (find f (transitions t)) _ λ u e.
          All_weaken (IsCovering rest u caps) (IsCovering (f ∷ rest) t caps)
            (λ h. behind_field f rest t u caps h e) _ (hits-IsCovering rest u caps))
        (follow-All (IsCovering (f ∷ rest) t caps) (find star (transitions t)) _ λ u e.
          All_weaken (IsCovering rest u (caps ++ f ∷ [])) (IsCovering (f ∷ rest) t caps)
            (λ h. behind_star f rest t u caps h e) _ (hits-IsCovering rest u (caps ++ f ∷ [])))

  -- A hit with this result and priority.
  abbrev pub Gives : R → ℕ → Hit R → Type 0
  Gives r n h = (result h.0 ≡ some r) × (result_priority h.0 ≡ n)

  hit-Any :
      (t : MappingState R) (caps : List Bytes) (r : R) (n : ℕ)
      → value [] t ≡ some (r, n)
      → Any (Gives r n) (hit t caps (result t))
  hit-Any t caps r n e = ground arith

  value_behind :
      (p : List Bytes) (o : Option (MappingState R)) (r : R) (n : ℕ)
      → value_at p o ≡ some (r, n)
      → (u : MappingState R) × (o ≡ some u) × (value p u ≡ some (r, n))
  value_behind p none r n e = cc
  value_behind p (some u) r n e = (u, refl, e)

  follow-Any :
      (P : Hit R → Type 0) (o : Option (MappingState R)) (go : MappingState R → List (Hit R))
      (u : MappingState R)
      → o ≡ some u
      → Any P (go u)
      → Any P (follow o go)
  follow-Any P o go u e h = subst (λ x. Any P (follow x go)) (sym e) h

  -- Every covering path with a result gives a hit.
  pub hits_complete :
      (p fs : List Bytes) (t : MappingState R) (caps : List Bytes) (r : R) (n : ℕ)
      → covers p fs ≡ true
      → value p t ≡ some (r, n)
      → Any (Gives r n) (hits fs t caps)
  unfolding hits
  hits_complete [] [] t caps r n c e = hit-Any t caps r n e
  hits_complete [] (f ∷ fs) t caps r n c e = cc
  hits_complete (p ∷ ps) [] t caps r n c e = cc
  hits_complete (p ∷ ps) (f ∷ fs) t caps r n c e =
      let (u, q, w) = value_behind ps (find p (transitions t)) r n e in
      let own = λ (x : MappingState R). hits fs x caps in
      let alt = λ (x : MappingState R). hits fs x (caps ++ f ∷ []) in
      elim (Bool-cases (bytes_eq p f)) [
        | inl same ↦
            let q' : find f (transitions t) ≡ some u =
              subst (λ z. find z (transitions t) ≡ some u) ((bytes_eq_iff p f).0 same) q in
            Any-append_left (Gives r n) (follow (find f (transitions t)) own)
              (follow (find star (transitions t)) alt)
              (follow-Any (Gives r n) _ own u q' (hits_complete ps fs u caps r n (ground arith) w))
        | inr other ↦
            let s : p ≡ star = ground (arith, bytes_eq_iff p star) in
            let q' : find star (transitions t) ≡ some u =
              subst (λ z. find z (transitions t) ≡ some u) s q in
            Any-append_right (Gives r n) (follow (find f (transitions t)) own)
              (follow (find star (transitions t)) alt)
              (follow-Any (Gives r n) _ alt u q'
                (hits_complete ps fs u (caps ++ f ∷ []) r n (ground arith) w))
      ]
