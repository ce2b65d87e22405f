-- ===== src/Fsm/Shadow.antt =====
-- `AddState` (pkg/mapper/fsm/fsm.go) sets `Result` only on a state that it makes: a rule whose
-- fields begin an earlier rule is lost.
use statsd_exporter.Base.{
  suc, ◌+◌, ◌<◌, ◌≡◌, refl, ap, ◌∙◌, true, false, Bool-cases, inl, inr, Option, none, some, List,
  [], ◌∷◌, Bytes, length, split, arith,
}
use statsd_exporter.Fsm.{MappingState, nil, find, leaf, Fsm, new_fsm}
use statsd_exporter.Fsm.Search.{found, get_mapping}
use statsd_exporter.Fsm.Routes.{Hit, hits, best}
use statsd_exporter.Fsm.Ordered.{get_mapping-best}
use statsd_exporter.Fsm.Values.{
  value, fields_eq, fields_eq_iff, is_prefix, value-add_fields, has-add_fields,
}
use statsd_exporter.Fsm.Covers.{covers, IsCovering, hits-IsCovering}
use statsd_exporter.Fsm.Entries.{Entry, add_entries}
use statsd_exporter.Fsm.Best.{WhenSome, best-All}
use statsd_exporter.Fsm.Rules.{
  Rule, is_in, IsDistinct, add_rules, applies, entries, add_rules-find, new_roots-find,
  add_entries-Children, leaf-Children,
}

length-covers : (p fs : List Bytes) → covers p fs ≡ true → length p ≡ length fs
length-covers [] [] h = refl
length-covers [] (f ∷ fs) h = cc
length-covers (p ∷ ps) [] h = cc
length-covers (p ∷ ps) (f ∷ fs) h = ap suc (length-covers ps fs (ground arith))

module _ {R : Type 0} where
  value-leaf : (q : List Bytes) → value {R = R} q leaf ≡ none
  unfolding find
  value-leaf [] = refl
  value-leaf (f ∷ q) = refl

  -- Behind the fields of `b`, which begin those of `a`, the trie of `a` and then `b` has no result.
  value-two :
      (a b : Entry R) (q : List Bytes)
      → is_prefix b.fields a.fields ≡ true
      → fields_eq b.fields a.fields ≡ false
      → fields_eq q a.fields ≡ false
      → value q (add_entries (a ∷ b ∷ []) leaf) ≡ none
  value-two a b q pre ne other =
      let one = add_entries (a ∷ []) leaf in
      ground (
        arith,
        value-add_fields q b.fields b.outcome b.number one,
        has-add_fields b.fields a.fields a.outcome a.number leaf,
        value-add_fields b.fields a.fields a.outcome a.number leaf,
        value-add_fields q a.fields a.outcome a.number leaf,
        value-leaf q,
        value-leaf b.fields,
      )

  no_hit :
      (a b : Entry R) (fs : List Bytes)
      → is_prefix b.fields a.fields ≡ true
      → length b.fields < length a.fields
      → length fs ≡ length b.fields
      → best none (hits fs (add_entries (a ∷ b ∷ []) leaf) []) ≡ none
  no_hit a b fs pre shorter same =
      none_if (best none (hits fs s []))
        (best-All (IsCovering fs s []) none (hits fs s []) tt (hits-IsCovering fs s []))
    where
      s : MappingState R
      s = add_entries (a ∷ b ∷ []) leaf

      differs : (q : List Bytes) → length q ≡ length b.fields → fields_eq q a.fields ≡ false
      differs q e = elim (Bool-cases (fields_eq q a.fields)) [
        | inl k ↦ absurd (omega (arith, ap length ((fields_eq_iff q a.fields).0 k)))
        | inr k ↦ k
      ]

      impossible : (h : Hit R) → IsCovering fs s [] h → ⊥
      impossible h v =
          let l : length v.path ≡ length b.fields = length-covers v.path fs v.covering ∙ same in
          cc (v.worth, value-two a b v.path pre (differs b.fields refl) (differs v.path l))

      none_if : (o : Option (Hit R)) → WhenSome (IsCovering fs s []) o → o ≡ none
      none_if none k = refl
      none_if (some h) k = absurd (impossible h k)

  -- A machine with ordering to which two rules for the metric's type are added, the fields of the
  -- second a proper beginning of those of the first: `GetMapping` answers every metric that has as
  -- many fields as the second rule with nothing, also the metrics that the second rule covers.
  pub get_mapping-shadowed :
      (types : List Bytes) (a b : Rule R) (f : Fsm R) (metric t : Bytes)
      → IsDistinct types
      → is_in t types ≡ true
      → applies t types a ≡ true
      → applies t types b ≡ true
      → is_prefix (split b'.' b.match) (split b'.' a.match) ≡ true
      → length (split b'.' b.match) < length (split b'.' a.match)
      → length (split b'.' metric) ≡ length (split b'.' b.match)
      → add_rules (a ∷ b ∷ []) (new_fsm types false) ≡ some f
      → (captures : List Bytes) × (get_mapping (record f { backtracking_needed = true }) metric t
          ≡ found none captures)
  unfolding new_fsm
  get_mapping-shadowed types a b f metric t d known fa fb pre shorter same made =
      let es = entries t types 0 (a ∷ b ∷ []) in
      let ea : Entry R = record { number = 0; fields = split b'.' a.match; outcome = a.outcome } in
      let eb : Entry R = record {
        number = 0 + 1;
        fields = split b'.' b.match;
        outcome = b.outcome;
      } in
      let two : es ≡ ea ∷ eb ∷ [] = rw (fa, fb) in
      let root_t = new_roots-find t types nil (inl known) in
      let (at_t, ordering) =
        add_rules-find t (a ∷ b ∷ []) (new_fsm types false) f leaf d root_t made in
      let (state, captures, runs, agrees) =
        get_mapping-best (record f { backtracking_needed = true }) metric t (add_entries es leaf)
          ordering refl at_t (add_entries-Children es leaf leaf-Children) in
      let nothing : best none (hits (split b'.' metric) (add_entries es leaf) []) ≡ none =
        ap (λ z. best none (hits (split b'.' metric) (add_entries z leaf) [])) two
        ∙ no_hit ea eb (split b'.' metric) pre shorter same in
      let gone : state ≡ none = rw nothing at agrees in
      (captures, runs ∙ ap (λ z. found z captures) gone)
