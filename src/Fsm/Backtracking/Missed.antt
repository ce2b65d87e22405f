-- ===== src/Fsm/Backtracking/Missed.antt =====
-- Rules without ordering for which `TestIfNeedBacktracking` (pkg/mapper/fsm/fsm.go) says no, and
-- metrics that are not found without backtracking.
use statsd_exporter.Base.{
  ℕ, ◌≡◌, refl, ap, ◌∙◌, true, false, Option, none, some, List, [], ◌∷◌, ◌++◌, Bytes, bytes_eq,
  codes, split, contains, arith, split, split_whole, cons_head,
}
use statsd_exporter.Fsm.{MappingState, leaf, Fsm, new_fsm, add_state, add_fields}
use statsd_exporter.Fsm.Search.{found, get_mapping, search_from}
use statsd_exporter.Fsm.Rules.{Rule, add_rules}
use statsd_exporter.Fsm.Covers.{covers}
use statsd_exporter.Fsm.Backtracking.{test_if_need_backtracking}

abbrev pub types : List Bytes
types = codes "counter" ∷ []

abbrev pub rule : Bytes → Rule ℕ
rule m = record { match = m; match_metric_type = []; outcome = 0 }

abbrev pub or_empty : Option (Fsm ℕ) → Fsm ℕ
or_empty none = new_fsm types true
or_empty (some f) = f

-- The machine without ordering, for rules for which no backtracking is said to be needed.
abbrev pub machine : List (Rule ℕ) → Fsm ℕ
machine rules = or_empty (add_rules rules (new_fsm types true))

abbrev pub two_rules : List (Rule ℕ)
two_rules = rule (codes "*.b.*") ∷ rule (codes "a.b.c") ∷ []

two_rules_no : test_if_need_backtracking (codes "*.b.*" ∷ codes "a.b.c" ∷ []) true ≡ false
unfolding test_if_need_backtracking
two_rules_no = refl

split_a_b :
    (x : Bytes)
    → contains b'.' x ≡ false
    → split b'.' (codes "a.b." ++ x) ≡ codes "a" ∷ codes "b" ∷ x ∷ []
split_a_b x h = ap (λ z. cons_head b'a' ([] ∷ cons_head b'b' ([] ∷ z))) (split_whole b'.' x h)

abbrev pub counter_state : MappingState ℕ
counter_state =
    add_fields (codes "a" ∷ codes "b" ∷ codes "c" ∷ []) 0 1
      (add_fields (codes "*" ∷ codes "b" ∷ codes "*" ∷ []) 0 0 leaf)

get_mapping-search :
    (metric : Bytes)
    → get_mapping (machine two_rules) metric (codes "counter")
      ≡ search_from true false (split b'.' metric) counter_state
unfolding get_mapping add_state new_fsm
get_mapping-search metric = refl

search_a_b :
    (x : Bytes)
    → bytes_eq (codes "c") x ≡ false
    → search_from true false (codes "a" ∷ codes "b" ∷ x ∷ []) counter_state
      ≡ found none ([] ∷ [] ∷ [] ∷ [])
unfolding search_from add_fields
search_a_b x other = ground arith

-- Without ordering, for the rules `*.b.*` and `a.b.c`: `TestIfNeedBacktracking` says that no
-- backtracking is needed, but without it no metric `a.b.x` with a field `x` other than `c` is found,
-- though the first rule covers all of them.
pub get_mapping-missed :
    (x : Bytes)
    → contains b'.' x ≡ false
    → bytes_eq (codes "c") x ≡ false
    → (test_if_need_backtracking (codes "*.b.*" ∷ codes "a.b.c" ∷ []) true ≡ false)
      × (covers (codes "*" ∷ codes "b" ∷ codes "*" ∷ []) (codes "a" ∷ codes "b" ∷ x ∷ []) ≡ true)
      × (get_mapping (machine two_rules) (codes "a.b." ++ x) (codes "counter")
          ≡ found none ([] ∷ [] ∷ [] ∷ []))
get_mapping-missed x plain other = (
  two_rules_no,
  ground arith,
  get_mapping-search (codes "a.b." ++ x)
      ∙ ap (λ fs. search_from true false fs counter_state) (split_a_b x plain)
      ∙ search_a_b x other,
)

abbrev pub three_rules : List (Rule ℕ)
three_rules = rule (codes "a.*.c") ∷ rule (codes "a.b") ∷ rule (codes "a.b.c.d") ∷ []

three_rules_no :
    test_if_need_backtracking (codes "a.*.c" ∷ codes "a.b" ∷ codes "a.b.c.d" ∷ []) true ≡ false
unfolding test_if_need_backtracking
three_rules_no = refl

three_rules_example :
    get_mapping (machine three_rules) (codes "a.b.c") (codes "counter")
    ≡ found none ([] ∷ [] ∷ [] ∷ [])
unfolding get_mapping add_state new_fsm
three_rules_example = refl
