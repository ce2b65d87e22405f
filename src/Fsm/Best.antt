-- ===== src/Fsm/Best.antt =====
-- The best hit in a trie that holds numbered rules (pkg/mapper/fsm/fsm.go) is that of the first
-- rule which covers the metric.
use statsd_exporter.Base.{
  ℕ, suc, ◌≤◌, ◌<◌, ◌≡◌, ◌⊎◌, refl, sym, ap, ◌∙◌, true, Bool-cases, inl, inr, Option, none, some,
  List, [], ◌∷◌, Bytes, ltb, arith, All, Any,
}
use mathlib.Core.Option.{some-injective}
use statsd_exporter.Fsm.{MappingState, result, result_priority}
use statsd_exporter.Fsm.Routes.{Hit, hits, better, best}
use statsd_exporter.Fsm.Values.{value}
use statsd_exporter.Fsm.Covers.{
  covers, captured, has_no_star, IsCovering, hits-IsCovering, Gives, hits_complete,
}
use statsd_exporter.Fsm.Entries.{Entry, first_covering, IsNumbered, IsIn, Holds}

module _ {R : Type 0} where
  abbrev pub WhenSome : (Hit R → Type 0) → Option (Hit R) → Type 0
  WhenSome P none = Unit
  WhenSome P (some h) = P h

  pub best-All :
      (P : Hit R → Type 0) (b : Option (Hit R)) (hs : List (Hit R))
      → WhenSome P b
      → All P hs
      → WhenSome P (best b hs)
  best-All P b [] pb k = pb
  best-All P none (h ∷ hs) pb k = best-All P (some h) hs k.0 k.1
  best-All P (some g) (h ∷ hs) pb k =
      elim (Bool-cases (ltb (result_priority h.0) (result_priority g.0))) [
        | inl e ↦ rw e (best-All P (some h) hs k.0 k.1)
        | inr e ↦ rw e (best-All P (some g) hs pb k.1)
      ]

  abbrev AtMost : ℕ → Option (Hit R) → Type 0
  AtMost n none = ⊥
  AtMost n (some h) = result_priority h.0 ≤ n

  best-AtMost_keeps :
      (n : ℕ) (b : Option (Hit R)) (hs : List (Hit R)) → AtMost n b → AtMost n (best b hs)
  best-AtMost_keeps n none hs k = absurd k
  best-AtMost_keeps n (some g) [] k = k
  best-AtMost_keeps n (some g) (h ∷ hs) k =
      elim (Bool-cases (ltb (result_priority h.0) (result_priority g.0))) [
        | inl e ↦ rw e (best-AtMost_keeps n (some h) hs (ground arith))
        | inr e ↦ rw e (best-AtMost_keeps n (some g) hs k)
      ]

  best-AtMost :
      (r : R) (n : ℕ) (b : Option (Hit R)) (hs : List (Hit R))
      → Any (Gives r n) hs
      → AtMost n (best b hs)
  best-AtMost r n b [] k = absurd k
  best-AtMost r n none (h ∷ hs) (inl k) = best-AtMost_keeps n (some h) hs (omega arith)
  best-AtMost r n (some g) (h ∷ hs) (inl k) =
      elim (Bool-cases (ltb (result_priority h.0) (result_priority g.0))) [
        | inl e ↦ rw e (best-AtMost_keeps n (some h) hs (omega arith))
        | inr e ↦ rw e (best-AtMost_keeps n (some g) hs (ground arith))
      ]
  best-AtMost r n b (h ∷ hs) (inr k) = best-AtMost r n (better h b) hs k

  IsNumbered-le : {m n : ℕ} (es : List (Entry R)) → m ≤ n → IsNumbered n es → IsNumbered m es
  IsNumbered-le [] h k = tt
  IsNumbered-le (e ∷ es) h k = (omega arith, k.1)

  IsNumbered-lt :
      (n : ℕ) (es : List (Entry R)) (x : Entry R) → IsNumbered n es → IsIn x es → n ≤ x.number
  IsNumbered-lt n [] x k m = absurd m
  IsNumbered-lt n (e ∷ es) x k (inl q) = ground arith
  IsNumbered-lt n (e ∷ es) x k (inr m) = omega (arith, IsNumbered-lt (suc e.number) es x k.1 m)

  -- A covering rule of the list is the first one, or has a larger number.
  first_covering-le :
      (n : ℕ) (fs : List Bytes) (es : List (Entry R)) (x : Entry R)
      → IsNumbered n es
      → IsIn x es
      → covers x.fields fs ≡ true
      → (e : Entry R) × (first_covering fs es ≡ some e) × ((e ≡ x) ⊎ (e.number < x.number))
  first_covering-le n fs [] x k m c = absurd m
  first_covering-le n fs (e ∷ es) x k (inl q) c =
      let c' : covers e.fields fs ≡ true = rw q c in (e, rw c', inl q)
  first_covering-le n fs (e ∷ es) x k (inr m) c = elim (Bool-cases (covers e.fields fs)) [
    | inl here ↦ rw here (e, refl, inr (IsNumbered-lt (suc e.number) es x k.1 m))
    | inr later ↦ rw later (first_covering-le (suc e.number) fs es x k.1 m c)
  ]

  first_covering-worth :
      (fs : List Bytes) (es : List (Entry R)) (s : MappingState R) (e : Entry R)
      → All (λ x. value x.fields s ≡ some (x.outcome, x.number)) es
      → first_covering fs es ≡ some e
      → (covers e.fields fs ≡ true) × (value e.fields s ≡ some (e.outcome, e.number))
  first_covering-worth fs [] s e k q = cc
  first_covering-worth fs (x ∷ es) s e k q = ground (arith, k.0, first_covering-worth fs es s e k.1)

  -- The hit belongs to the rule: the rule's result, and the fields at its `*`s.
  abbrev pub Belongs : List Bytes → Option (Hit R) → Option (Entry R) → Type 0
  Belongs fs none none = Unit
  Belongs fs none (some e) = ⊥
  Belongs fs (some h) none = ⊥
  Belongs fs (some h) (some e) =
      (result h.0 ≡ some e.outcome) × (has_no_star fs ≡ true → h.1 ≡ captured e.fields fs)

  module _ (n : ℕ) (fs : List Bytes) (es : List (Entry R)) (s : MappingState R) where
    found_entry :
        (h : Hit R)
        → Holds es s
        → IsNumbered n es
        → (v : IsCovering fs s [] h)
        → (e : Entry R) × (first_covering fs es ≡ some e)
          × ((e ≡ record { number = result_priority h.0; fields = v.path; outcome = v.outcome })
              ⊎ (e.number < result_priority h.0))
    found_entry h k m v =
        first_covering-le n fs es
          (record { number = result_priority h.0; fields = v.path; outcome = v.outcome }) m
          (k.only v.path v.outcome (result_priority h.0) v.worth) v.covering

    belongs :
        (b : Option (Hit R)) (o : Option (Entry R))
        → first_covering fs es ≡ o
        → Holds es s
        → IsNumbered n es
        → WhenSome (IsCovering fs s []) b
        → ((e : Entry R) → o ≡ some e → AtMost e.number b)
        → Belongs fs b o
    belongs none none q k m v a = tt
    belongs none (some e) q k m v a = a e refl
    belongs (some h) none q k m v a = cc (q, (found_entry h k m v).1)
    belongs (some h) (some e) q k m v a =
        let (e', q', or) = found_entry h k m v in
        let same : e' ≡ e = some-injective e' e (sym q' ∙ q) in
        elim or [
          | inl x ↦
              let y : e ≡ _ = sym same ∙ x in
              (rw y v.ends_in, λ star_free. rw y (v.captures star_free))
          | inr x ↦ absurd (omega (arith, a e refl, ap (λ z. z.number) same))
        ]

    -- In a trie that holds rules numbered in their order, the best of all hits is the result of the
    -- first rule that covers the fields, and there is no hit if no rule does.
    pub best-first_covering :
        Holds es s → IsNumbered n es → Belongs fs (best none (hits fs s [])) (first_covering fs es)
    best-first_covering k m =
        belongs (best none (hits fs s [])) (first_covering fs es) refl k m
          (best-All (IsCovering fs s []) none (hits fs s []) tt (hits-IsCovering fs s []))
          λ e q.
            let (c, w) = first_covering-worth fs es s e k.each q in
            best-AtMost e.outcome e.number none (hits fs s [])
              (hits_complete e.fields fs s [] e.outcome e.number c w)
