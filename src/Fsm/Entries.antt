-- ===== src/Fsm/Entries.antt =====
-- The trie of pkg/mapper/fsm/fsm.go as a numbered list of rules, and which of them a hit is.
use statsd_exporter.Base.{
  ℕ, suc, ◌≤◌, ◌≡◌, ◌⊎◌, refl, sym, ap, subst, ◌∙◌, Bool, true, false, ◌||◌, Bool-cases, inl, inr,
  Option, none, some, List, [], ◌∷◌, ◌++◌, append-nil, append_assoc, Bytes, bytes_eq_iff,
  if◌then◌else◌, arith, All, All-append, Any, Any-append_left, Any-append_right,
}
use statsd_exporter.Fsm.{MappingState, add_fields}
use statsd_exporter.Fsm.Values.{
  value, has, fields_eq, fields_eq_iff, is_prefix, value-add_fields, has-add_fields,
}
use statsd_exporter.Fsm.Covers.{covers}

-- A rule as `AddState` sees it: its number, its fields and its result.
pub record Entry (R : Type 0) : Type 0 where
  pub number : ℕ
  pub fields : List Bytes
  pub outcome : R

is_prefix_refl : (q : List Bytes) → is_prefix q q ≡ true
is_prefix_refl [] = refl
is_prefix_refl (f ∷ q) = ground (arith, bytes_eq_iff f f, is_prefix_refl q)

fields_eq-is_prefix : (p q : List Bytes) → is_prefix p q ≡ false → fields_eq q p ≡ false
fields_eq-is_prefix p q h = elim (Bool-cases (fields_eq q p)) [
  | inl same ↦
      let e : q ≡ p = (fields_eq_iff q p).0 same in cc (is_prefix_refl p, ap (is_prefix p) e)
  | inr other ↦ other
]

module _ {R : Type 0} where
  abbrev pub is_seen : List Bytes → List (Entry R) → Bool
  is_seen q [] = false
  is_seen q (e ∷ es) = is_prefix q e.fields || is_seen q es

  -- The fields of no rule are those of an earlier rule or the beginning of them. `seen` are the
  -- rules before the list.
  abbrev pub IsOrderly : List (Entry R) → List (Entry R) → Type 0
  IsOrderly seen [] = Unit
  IsOrderly seen (e ∷ es) = (is_seen e.fields seen ≡ false) × IsOrderly (seen ++ e ∷ []) es

  abbrev pub IsNumbered : ℕ → List (Entry R) → Type 0
  IsNumbered n [] = Unit
  IsNumbered n (e ∷ es) = (n ≤ e.number) × IsNumbered (suc e.number) es

  -- The first rule that covers the fields.
  abbrev pub first_covering : List Bytes → List (Entry R) → Option (Entry R)
  first_covering fs [] = none
  first_covering fs (e ∷ es) = if covers e.fields fs then some e else first_covering fs es

  abbrev pub add_entries : List (Entry R) → MappingState R → MappingState R
  add_entries [] s = s
  add_entries (e ∷ es) s = add_entries es (add_fields e.fields e.outcome e.number s)

  abbrev pub IsIn : Entry R → List (Entry R) → Type 0
  IsIn e = Any (λ x. x ≡ e)

  -- The trie holds these rules and no others.
  pub record Holds (es : List (Entry R)) (s : MappingState R) : Type 0 where
    pub only :
        (q : List Bytes) (r : R) (n : ℕ)
        → value q s ≡ some (r, n)
        → IsIn (record { number = n; fields = q; outcome = r }) es
    pub each : All (λ e. value e.fields s ≡ some (e.outcome, e.number)) es
    pub paths : (f : Bytes) (q : List Bytes) → has (f ∷ q) s ≡ is_seen (f ∷ q) es

  is_seen-concat :
      (q : List Bytes) (es : List (Entry R)) (e : Entry R)
      → is_seen q (es ++ e ∷ []) ≡ (is_prefix q e.fields || is_seen q es)
  is_seen-concat q [] e = refl
  is_seen-concat q (x ∷ es) e = ground (arith, is_seen-concat q es e)

  -- A rule whose fields were not seen leaves the worth of those seen.
  each-add_fields :
      (es : List (Entry R)) (p : List Bytes) (r : R) (n : ℕ) (s : MappingState R)
      → is_seen p es ≡ false
      → All (λ e. value e.fields s ≡ some (e.outcome, e.number)) es
      → All (λ e. value e.fields (add_fields p r n s) ≡ some (e.outcome, e.number)) es
  each-add_fields [] p r n s h k = tt
  each-add_fields (e ∷ es) p r n s h k = (
    ground (arith, value-add_fields e.fields p r n s, fields_eq-is_prefix p e.fields),
    each-add_fields es p r n s (ground arith) k.1,
  )

  Holds-add_fields :
      (es : List (Entry R)) (e : Entry R) (f : Bytes) (rest : List Bytes) (s : MappingState R)
      → e.fields ≡ f ∷ rest
      → is_seen e.fields es ≡ false
      → Holds es s
      → Holds (es ++ e ∷ []) (add_fields e.fields e.outcome e.number s)
  Holds-add_fields es e f rest s q fresh h =
      let unseen : has e.fields s ≡ false = rw q (h.paths f rest ∙ rw q at fresh) in
      record {
        only = λ p r n k. only_after p r n (Bool-cases (fields_eq p e.fields)) unseen k;
        each =
            All-append (λ x. value x.fields s' ≡ some (x.outcome, x.number)) es (e ∷ [])
              (each-add_fields es e.fields e.outcome e.number s fresh h.each)
              (
                ground (
                  arith,
                  unseen,
                  value-add_fields e.fields e.fields e.outcome e.number s,
                  fields_eq_iff e.fields e.fields,
                ),
                tt,
              );
        paths = λ g p.
            has-add_fields (g ∷ p) e.fields e.outcome e.number s
            ∙ ap (λ z. is_prefix (g ∷ p) e.fields || z) (h.paths g p)
            ∙ sym (is_seen-concat (g ∷ p) es e);
      }
    where
      s' : MappingState R
      s' = add_fields e.fields e.outcome e.number s

      only_after :
          (p : List Bytes) (r : R) (n : ℕ)
          → (fields_eq p e.fields ≡ true) ⊎ (fields_eq p e.fields ≡ false)
          → has e.fields s ≡ false
          → value p s' ≡ some (r, n)
          → IsIn (record { number = n; fields = p; outcome = r }) (es ++ e ∷ [])
      only_after p r n (inl same) unseen k =
          Any-append_right (λ x. x ≡ record { number = n; fields = p; outcome = r }) es (e ∷ [])
            (inl ground (
              arith,
              k,
              unseen,
              value-add_fields p e.fields e.outcome e.number s,
              (fields_eq_iff p e.fields).0 same,
            ))
      only_after p r n (inr other) unseen k =
          Any-append_left (λ x. x ≡ record { number = n; fields = p; outcome = r }) es (e ∷ [])
            (h.only p r n ground (arith, k, value-add_fields p e.fields e.outcome e.number s))

  -- After all rules are added to a trie that holds the rules `seen`, it holds them all.
  pub add_entries-Holds :
      (seen es : List (Entry R)) (s : MappingState R)
      → All (λ e. (f : Bytes) × (rest : List Bytes) × (e.fields ≡ f ∷ rest)) es
      → IsOrderly seen es
      → Holds seen s
      → Holds (seen ++ es) (add_entries es s)
  add_entries-Holds seen [] s k o h = rw append-nil h
  add_entries-Holds seen (e ∷ es) s ((f, rest, q), k) (fresh, o) h =
      subst (λ z. Holds z (add_entries (e ∷ es) s)) (append_assoc seen (e ∷ []) es)
        (add_entries-Holds (seen ++ e ∷ []) es (add_fields e.fields e.outcome e.number s) k o
          (Holds-add_fields seen e f rest s q fresh h))
