-- ===== src/Fsm/Values.antt =====
-- What `AddState` of pkg/mapper/fsm/fsm.go changes: the result behind one path of fields, and
-- nothing behind any other.
use statsd_exporter.Base.{
  ℕ, ◌≡◌, ◌↔◌, refl, Bool, true, false, ◌&&◌, ◌||◌, Option, none, some, List, [], ◌∷◌, Bytes,
  bytes_eq, bytes_eq_iff, if◌then◌else◌, arith,
}
use statsd_exporter.Fsm.{
  MappingState, mapping_state, transitions, result, result_priority, find, reach, add_fields,
}
use statsd_exporter.Fsm.Bounded.{find-put}

-- Lists of fields, compared.
abbrev pub fields_eq : List Bytes → List Bytes → Bool
fields_eq [] [] = true
fields_eq [] (y ∷ ys) = false
fields_eq (x ∷ xs) [] = false
fields_eq (x ∷ xs) (y ∷ ys) = bytes_eq x y && fields_eq xs ys

pub fields_eq_iff : (a b : List Bytes) → (fields_eq a b ≡ true) ↔ (a ≡ b)
fields_eq_iff [] [] = ground arith
fields_eq_iff [] (y ∷ ys) = ground arith
fields_eq_iff (x ∷ xs) [] = ground arith
fields_eq_iff (x ∷ xs) (y ∷ ys) = ground (arith, bytes_eq_iff x y, fields_eq_iff xs ys)

bytes_eq_comm : (a b : Bytes) → bytes_eq a b ≡ bytes_eq b a
bytes_eq_comm a b = ground (arith, bytes_eq_iff a b, bytes_eq_iff b a)

abbrev pub is_prefix : List Bytes → List Bytes → Bool
is_prefix [] ys = true
is_prefix (x ∷ xs) [] = false
is_prefix (x ∷ xs) (y ∷ ys) = bytes_eq x y && is_prefix xs ys

module _ {R : Type 0} where
  abbrev with_priority : ℕ → Option R → Option (R × ℕ)
  with_priority p none = none
  with_priority p (some r) = some (r, p)

  -- The result behind a path of fields, with its priority. The option is the transition taken.
  abbrev pub value_at : List Bytes → Option (MappingState R) → Option (R × ℕ)
  value_at q none = none
  value_at [] (some s) = with_priority (result_priority s) (result s)
  value_at (f ∷ q) (some s) = value_at q (find f (transitions s))

  abbrev pub value : List Bytes → MappingState R → Option (R × ℕ)
  value q s = value_at q (some s)

  -- Whether there is a state behind a path of fields.
  abbrev pub has_at : List Bytes → Option (MappingState R) → Bool
  has_at q none = false
  has_at [] (some s) = true
  has_at (f ∷ q) (some s) = has_at q (find f (transitions s))

  abbrev pub has : List Bytes → MappingState R → Bool
  has q s = has_at q (some s)

  abbrev reprioritised : ℕ → Option (R × ℕ) → Option (R × ℕ)
  reprioritised n none = none
  reprioritised n (some (r, p)) = some (r, n)

  -- A path that is made anew ends in the new result.
  value-fresh :
      (q rest : List Bytes) (res : R) (n : ℕ)
      → value q (add_fields rest res n (reach none res rest))
        ≡ (if fields_eq q rest then some (res, n) else none)
  unfolding add_fields
  value-fresh [] [] res n = refl
  value-fresh (g ∷ q) [] res n = refl
  value-fresh [] (f ∷ rest) res n = refl
  value-fresh (g ∷ q) (f ∷ rest) res n = ground (arith, value-fresh q rest res n, bytes_eq_comm g f)

  has-fresh :
      (q rest : List Bytes) (res : R) (n : ℕ)
      → has q (add_fields rest res n (reach none res rest)) ≡ is_prefix q rest
  unfolding add_fields
  has-fresh [] [] res n = refl
  has-fresh (g ∷ q) [] res n = refl
  has-fresh [] (f ∷ rest) res n = refl
  has-fresh (g ∷ q) (f ∷ rest) res n = ground (arith, has-fresh q rest res n, bytes_eq_comm g f)

  value-reach :
      (q rest : List Bytes) (res : R) (u : MappingState R)
      → (value q (reach (some u) res rest) ≡ value q u)
        × (has q (reach (some u) res rest) ≡ has q u)
  unfolding reach
  value-reach [] rest res (mapping_state es lo hi r p) = (refl, refl)
  value-reach (f ∷ q) rest res (mapping_state es lo hi r p) = (refl, refl)

  -- What the path `p` is worth after a rule for it is added: a path that existed keeps its result,
  -- if it has one, under the new priority.
  abbrev pub added : R → ℕ → Bool → Option (R × ℕ) → Option (R × ℕ)
  added res n existed old = if existed then reprioritised n old else some (res, n)

  -- The claim below for the state behind the rule's first field.
  abbrev Behind : List Bytes → List Bytes → R → ℕ → Option (MappingState R) → Type 0
  Behind q rest res n o =
      value q (add_fields rest res n (reach o res rest))
      ≡ (if fields_eq q rest then added res n (has_at rest o) (value_at rest o) else value_at q o)

  -- After `AddState` has added the rule with fields `p`, result `res` and priority `n`, a path `q`
  -- other than `p` is worth what it was; and `p` is worth the new result if there was no state
  -- behind it, and else its old result, if it had one, under the new priority.
  pub value-add_fields :
      (q p : List Bytes) (res : R) (n : ℕ) (s : MappingState R)
      → value q (add_fields p res n s)
        ≡ (if fields_eq q p then added res n (has p s) (value p s) else value q s)
  unfolding add_fields
  value-add_fields [] [] res n (mapping_state es lo hi none p) = refl
  value-add_fields [] [] res n (mapping_state es lo hi (some r) p) = refl
  value-add_fields (g ∷ q) [] res n (mapping_state es lo hi r p) = refl
  value-add_fields [] (f ∷ rest) res n (mapping_state es lo hi r p) = refl
  value-add_fields (g ∷ q) (f ∷ rest) res n (mapping_state es lo hi r p) =
      let new = add_fields rest res n (reach (find f es) res rest) in
      let behind =
        under (find f es) (λ u. value-add_fields q rest res n (reach (some u) res rest)) in
      ground (arith, behind, find-put f g new es, bytes_eq_iff f g, bytes_eq_comm g f)
    where
      under :
          (o : Option (MappingState R))
          → ((u : MappingState R)
              → value q (add_fields rest res n (reach (some u) res rest)) ≡ (
                  if fields_eq q rest
                  then added res n
                      (has rest (reach (some u) res rest))
                      (value rest (reach (some u) res rest))
                  else value q (reach (some u) res rest)))
          → Behind q rest res n o
      under none ih = value-fresh q rest res n
      under (some u) ih =
          ground (arith, ih u, value-reach q rest res u, value-reach rest rest res u)

  abbrev HasBehind : List Bytes → List Bytes → R → ℕ → Option (MappingState R) → Type 0
  HasBehind q rest res n o =
      has q (add_fields rest res n (reach o res rest)) ≡ (is_prefix q rest || has_at q o)

  -- After `AddState` there is a state behind the prefixes of the new rule's fields, and behind the
  -- paths that had one.
  pub has-add_fields :
      (q p : List Bytes) (res : R) (n : ℕ) (s : MappingState R)
      → has q (add_fields p res n s) ≡ (is_prefix q p || has q s)
  unfolding add_fields
  has-add_fields [] [] res n (mapping_state es lo hi r p) = refl
  has-add_fields (g ∷ q) [] res n (mapping_state es lo hi r p) = refl
  has-add_fields [] (f ∷ rest) res n (mapping_state es lo hi r p) = refl
  has-add_fields (g ∷ q) (f ∷ rest) res n (mapping_state es lo hi r p) =
      let new = add_fields rest res n (reach (find f es) res rest) in
      let behind = under (find f es) (λ u. has-add_fields q rest res n (reach (some u) res rest)) in
      ground (arith, behind, find-put f g new es, bytes_eq_iff f g, bytes_eq_comm g f)
    where
      under :
          (o : Option (MappingState R))
          → ((u : MappingState R)
              → has q (add_fields rest res n (reach (some u) res rest))
                ≡ (is_prefix q rest || has q (reach (some u) res rest)))
          → HasBehind q rest res n o
      under none ih = ground (arith, has-fresh q rest res n)
      under (some u) ih = ground (arith, ih u, value-reach q rest res u)
