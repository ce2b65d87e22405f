-- ===== src/Fsm/Backtracking.antt =====
-- `TestIfNeedBacktracking` of pkg/mapper/fsm/fsm.go. Its regular expressions are written out for rules
-- as `InitFromYAMLString` lets them through: letters, digits, `_`, `-`, `.` and `*`. Such an expression
-- always compiles. Warnings are left out.
pub mod Missed
use statsd_exporter.Base.{
  ℕ, zero, suc, ◌+◌, ◌-◌, Bool, true, false, not, ◌&&◌, ◌||◌, Option, none, some, List, [], ◌∷◌,
  ◌++◌, Bytes, contains, split, has_prefix, ◌==◌, if◌then◌else◌, length, take, Dict, lookup, insert,
  ℕ_eq,
}

-- `([^.]*)` and what follows it: some suffix, with no `.` in front of it.
abbrev pub any_suffix : (Bytes → Bool) → Bytes → Bool
any_suffix rest [] = rest []
any_suffix rest (c ∷ s) = rest (c ∷ s) || not (c == b'.') && any_suffix rest s

abbrev pub next_is : ℕ → (Bytes → Bool) → Bytes → Bool
next_is p rest [] = false
next_is p rest (c ∷ s) = c == p && rest s

-- Whether the regular expression made from a rule matches a text.
unfoldable pub matches_rule : Bytes → Bytes → Bool
matches_rule [] [] = true
matches_rule [] (c ∷ s) = false
matches_rule (p ∷ rule) s =
    if p == b'*' then any_suffix (matches_rule rule) s else next_is p (matches_rule rule) s

abbrev pub any : (Bytes → Bool) → List Bytes → Bool
any test [] = false
any test (r ∷ rules) = test r || any test rules

-- Some other rule begins with the text in front of some `*` of the rule. `before` is that text.
unfoldable pub shares_prefix : Bytes → Bytes → List Bytes → Bool
shares_prefix before [] others = false
shares_prefix before (c ∷ rule) others =
    c == b'*' && any (λ r2. has_prefix r2 before) others
    || shares_prefix (before ++ c ∷ []) rule others

-- The body of the loop over the rules of one length.
unfoldable pub rule_needs : Bytes → List Bytes → Bool
unfolding shares_prefix matches_rule
rule_needs r1 others =
    contains b'*' r1
    && shares_prefix [] r1 others
    && not (any (λ r2. matches_rule r1 r2) others)
    && not (any (λ r2. matches_rule r2 r1) others)

-- The loop over the rules of one length; `earlier` are those in front.
unfoldable pub rules_need : List Bytes → List Bytes → Bool
unfolding rule_needs
rules_need earlier [] = false
rules_need earlier (r1 ∷ rules) =
    rule_needs r1 (earlier ++ rules) || rules_need (earlier ++ r1 ∷ []) rules

abbrev pub rules_at : Option (List Bytes) → List Bytes
rules_at none = []
rules_at (some rules) = rules

-- The first loop: the rules sorted by their length.
unfoldable pub rule_by_length : List Bytes → Dict ℕ (List Bytes) → Dict ℕ (List Bytes)
unfolding lookup insert
rule_by_length [] m = m
rule_by_length (mapping ∷ mappings) m = rule_by_length mappings (
    insert (length (split b'.' mapping))
      (rules_at (lookup (length (split b'.' mapping)) m) ++ mapping ∷ []) m)

unfoldable pub lengths_need : Dict ℕ (List Bytes) → Bool
unfolding rules_need
lengths_need [] = false
lengths_need ((l, rules) ∷ m) =
    (if length rules == 1 then false else rules_need [] rules) || lengths_need m

-- `TestIfNeedBacktracking`.
unfoldable pub test_if_need_backtracking : List Bytes → Bool → Bool
unfolding lengths_need rule_by_length
test_if_need_backtracking mappings ordering_disabled =
    not ordering_disabled || lengths_need (rule_by_length mappings [])
