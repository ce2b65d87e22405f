-- ===== src/Fsm/Tests.antt =====
-- Machines with a few rules, and the theorems on the search there.
use statsd_exporter.Base.{
  ℕ, ◌≡◌, refl, true, false, Option, none, some, List, [], ◌∷◌, Bytes, codes, split, arith,
}
use statsd_exporter.Fsm.{MappingState, result, find, leaf, Fsm, new_fsm, add_state, add_fields}
use statsd_exporter.Fsm.Search.{Found, found, get_mapping}
use statsd_exporter.Fsm.Routes.{hits, best}
use statsd_exporter.Fsm.Ordered.{Finds, get_mapping-best}
use statsd_exporter.Fsm.Values.{value, value-add_fields}
use statsd_exporter.Fsm.Entries.{first_covering, add_entries}
use statsd_exporter.Fsm.Rules.{Rule, add_rules, entries, add_entries-Children, leaf-Children}
use statsd_exporter.Fsm.FirstRule.{Answers, get_mapping-first_rule}
use statsd_exporter.Fsm.Covers.{covers}
use statsd_exporter.Fsm.Backtracking.{test_if_need_backtracking}
use statsd_exporter.Fsm.Backtracking.Missed.{
  machine as unordered_machine, two_rules, get_mapping-missed,
}
use statsd_exporter.Fsm.Shadow.{get_mapping-shadowed}

abbrev types : List Bytes
types = codes "counter" ∷ codes "gauge" ∷ codes "observer" ∷ []

abbrev rule : Bytes → ℕ → Rule ℕ
rule m n = record { match = m; match_metric_type = []; outcome = n }

abbrev rules : List (Rule ℕ)
rules = rule (codes "a.*.d") 10 ∷ rule (codes "a.b.*") 20 ∷ rule (codes "*.b") 30 ∷ []

abbrev machine : Option (Fsm ℕ)
machine = add_rules rules (new_fsm types false)

abbrev or_empty : Option (Fsm ℕ) → Fsm ℕ
or_empty none = new_fsm types false
or_empty (some f) = f

abbrev ready : Fsm ℕ → Fsm ℕ
ready f = record f { backtracking_needed = true }

abbrev outcome_of : Found ℕ → Option ℕ × List Bytes
outcome_of (found (some s) captures) = (result s, captures)
outcome_of _ = (none, [])

-- The star is tried after the field's own transition, and wins by its priority.
first_rule_wins :
    outcome_of (get_mapping (ready (or_empty machine)) (codes "a.b.d") (codes "gauge"))
    ≡ (some 10, codes "b" ∷ [] ∷ [] ∷ [])
unfolding get_mapping add_state new_fsm
first_rule_wins = refl

other_length :
    outcome_of (get_mapping (ready (or_empty machine)) (codes "x.b") (codes "counter"))
    ≡ (some 30, codes "x" ∷ [] ∷ [])
unfolding get_mapping add_state new_fsm
other_length = refl

machine_made : add_rules rules (new_fsm types false) ≡ some (or_empty machine)
unfolding add_state new_fsm
machine_made = refl

get_mapping-first_rule_example :
    (state : Option (MappingState ℕ)) × (captures : List Bytes) × (get_mapping
        (ready (or_empty machine))
        (codes "a.b.d")
        (codes "gauge")
      ≡ found state captures)
    × Answers
        (split b'.' (codes "a.b.d"))
        state
        captures
        (first_covering (split b'.' (codes "a.b.d")) (entries (codes "gauge") types 0 rules))
get_mapping-first_rule_example =
    get_mapping-first_rule types rules (or_empty machine) (codes "a.b.d") (codes "gauge")
      (refl, (refl, (refl, tt))) refl machine_made (refl, (refl, (refl, tt)))

abbrev trie : MappingState ℕ
trie = add_entries (entries (codes "gauge") types 0 rules) leaf

trie_found : find (codes "gauge") (or_empty machine).root ≡ some trie
unfolding add_state new_fsm
trie_found = refl

get_mapping-best_example :
    Finds
      (get_mapping (ready (or_empty machine)) (codes "a.b.d") (codes "gauge"))
      (best none (hits (split b'.' (codes "a.b.d")) trie []))
unfolding add_state new_fsm
get_mapping-best_example =
    get_mapping-best (ready (or_empty machine)) (codes "a.b.d") (codes "gauge") trie refl refl
      trie_found (add_entries-Children (entries (codes "gauge") types 0 rules) leaf leaf-Children)

abbrev longer_first : List (Rule ℕ)
longer_first = rule (codes "a.b.c") 1 ∷ rule (codes "a.b") 2 ∷ []

longer_first_made :
    add_rules longer_first (new_fsm types false)
    ≡ some (or_empty (add_rules longer_first (new_fsm types false)))
unfolding add_state new_fsm
longer_first_made = refl

get_mapping-shadowed_example :
    (captures : List Bytes) × (get_mapping
        (ready (or_empty (add_rules longer_first (new_fsm types false))))
        (codes "a.b")
        (codes "counter")
      ≡ found none captures)
get_mapping-shadowed_example =
    get_mapping-shadowed types (rule (codes "a.b.c") 1) (rule (codes "a.b") 2)
      (or_empty (add_rules longer_first (new_fsm types false))) (codes "a.b") (codes "counter")
      (refl, (refl, (refl, tt))) refl refl refl refl (omega arith) refl longer_first_made

value-add_fields_example :
    value (codes "a" ∷ []) (add_fields (codes "a" ∷ codes "b" ∷ []) 7 0 leaf)
    ≡ value {R = ℕ} (codes "a" ∷ []) leaf
value-add_fields_example = value-add_fields (codes "a" ∷ []) (codes "a" ∷ codes "b" ∷ []) 7 0 leaf

get_mapping-missed_example :
    (test_if_need_backtracking (codes "*.b.*" ∷ codes "a.b.c" ∷ []) true ≡ false)
    × (covers (codes "*" ∷ codes "b" ∷ codes "*" ∷ []) (codes "a" ∷ codes "b" ∷ codes "d" ∷ [])
        ≡ true)
    × (get_mapping (unordered_machine two_rules) (codes "a.b.d") (codes "counter")
        ≡ found none ([] ∷ [] ∷ [] ∷ []))
get_mapping-missed_example = get_mapping-missed (codes "d") refl refl
