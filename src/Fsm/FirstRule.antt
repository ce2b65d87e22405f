-- ===== src/Fsm/FirstRule.antt =====
-- `NewFSM`, `AddState` for a list of rules, then `GetMapping` (pkg/mapper/fsm/fsm.go): with
-- ordering, the first rule that matches the metric wins.
use statsd_exporter.Base.{
  ◌≡◌, refl, subst, true, false, inl, Option, none, some, List, [], Bytes, length, take, split,
  arith,
}
use statsd_exporter.Fsm.{MappingState, nil, result, leaf, Fsm, new_fsm}
use statsd_exporter.Fsm.Search.{found, get_mapping}
use statsd_exporter.Fsm.Routes.{Hit, hits, best}
use statsd_exporter.Fsm.Ordered.{Agrees, get_mapping-best}
use statsd_exporter.Fsm.Rules.{
  Rule, is_in, IsDistinct, add_rules, entries, entries-IsNumbered, entries_have_fields,
  add_rules-find, new_roots-find, add_entries-Children, leaf-Children, leaf-Holds,
}
use statsd_exporter.Fsm.Covers.{has_no_star, captured}
use statsd_exporter.Fsm.Entries.{Entry, IsOrderly, first_covering, add_entries, add_entries-Holds}
use statsd_exporter.Fsm.Best.{Belongs, best-first_covering}

module _ {R : Type 0} where
  -- What `GetMapping` returns, against the first rule that covers the fields of the metric: no state
  -- if there is no such rule, and else a state with the rule's result, and, unless a field of the
  -- metric is itself `*`, captures that begin with the fields at the rule's `*`s.
  abbrev pub Answers : List Bytes → Option (MappingState R) → List Bytes → Option (Entry R) → Type 0
  Answers fs state captures none = state ≡ none
  Answers fs state captures (some e) =
      (t : MappingState R) × (state ≡ some t)
      × (result t ≡ some e.outcome)
      × (has_no_star fs ≡ true
          → take (length (captured e.fields fs)) captures ≡ captured e.fields fs)

  Belongs-Answers :
      (fs : List Bytes) (state : Option (MappingState R)) (captures : List Bytes)
      (b : Option (Hit R)) (o : Option (Entry R))
      → Agrees state captures b
      → Belongs fs b o
      → Answers fs state captures o
  Belongs-Answers fs state captures none none a k = a
  Belongs-Answers fs state captures none (some e) a k = absurd k
  Belongs-Answers fs state captures (some h) none a k = absurd k
  Belongs-Answers fs state captures (some h) (some e) a k =
      (h.0, a.0, k.0, λ free. subst (λ c. take (length c) captures ≡ c) (k.1 free) a.1)

  -- A machine is made for distinct metric types, with ordering, and the rules are added to it in
  -- their order without a panic; backtracking is on, as it always is with ordering. The rules that
  -- apply to the metric's type are such that the fields of none are those of an earlier one or the
  -- beginning of them. Then `GetMapping` stops within its fuel and does not panic, and it answers
  -- with the first of those rules whose fields cover the metric's, field by field, or with nothing
  -- if no rule does.
  pub get_mapping-first_rule :
      (types : List Bytes) (rules : List (Rule R)) (f : Fsm R) (metric t : Bytes)
      → IsDistinct types
      → is_in t types ≡ true
      → add_rules rules (new_fsm types false) ≡ some f
      → IsOrderly [] (entries t types 0 rules)
      → (state : Option (MappingState R)) × (captures : List Bytes) × (get_mapping
            (record f { backtracking_needed = true })
            metric
            t
          ≡ found state captures)
        × Answers
            (split b'.' metric)
            state
            captures
            (first_covering (split b'.' metric) (entries t types 0 rules))
  unfolding new_fsm
  get_mapping-first_rule types rules f metric t d known made orderly =
      let es = entries t types 0 rules in
      let fs = split b'.' metric in
      let root_t = new_roots-find t types nil (inl known) in
      let (at_t, ordering) = add_rules-find t rules (new_fsm types false) f leaf d root_t made in
      let (state, captures, runs, agrees) =
        get_mapping-best (record f { backtracking_needed = true }) metric t (add_entries es leaf)
          ordering refl at_t (add_entries-Children es leaf leaf-Children) in
      let holds =
        add_entries-Holds [] es leaf (entries_have_fields t types 0 rules) orderly leaf-Holds in
      (
        state,
        captures,
        runs,
        Belongs-Answers fs state captures (best none (hits fs (add_entries es leaf) []))
            (first_covering fs es) agrees
            (best-first_covering 0 fs es (add_entries es leaf) holds
              (entries-IsNumbered t types 0 rules 0 (omega arith))),
      )
