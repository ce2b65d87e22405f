-- ===== src/Template/Parts.antt =====
-- Templates printed from their parts (pkg/mapper/fsm/formatter.go): what the code finds in them, and
-- what replacing one reference does.
pub mod Meaning
pub mod Formats
use statsd_exporter.Base.{
  ℕ, zero, suc, ◌+◌, ◌≡◌, refl, sym, ap, ◌∙◌, Bool, true, false, ◌&&◌, Bool-cases, inl, inr, Option,
  none, some, List, [], ◌∷◌, ◌++◌, append_assoc, Bytes, bytes_eq, bytes_eq_iff, contains,
  has_prefix, ◌==◌, if◌then◌else◌, length, All, map, arith,
}
use statsd_exporter.Template.{
  is_reference_char, reference_name, behind_name, match_behind, find_all_from, replace_from,
}

-- Text, or a reference `${name}`.
pub data Part : Type 0 where
  literal reference : Bytes → Part

abbrev pub is_name : Bytes → Bool
is_name [] = true
is_name (c ∷ name) = is_reference_char c && is_name name

-- The text of a reference behind its `$`.
abbrev pub braces : Bytes → Bytes
braces name = b'{' ∷ (name ++ b'}' ∷ [])

abbrev pub print_part : Part → Bytes
print_part (literal l) = l
print_part (reference name) = b'$' ∷ braces name

abbrev pub print : List Part → Bytes
print [] = []
print (p ∷ ps) = print_part p ++ print ps

abbrev is_cons : Bytes → Bool
is_cons [] = false
is_cons (c ∷ s) = true

-- Text without a `$`, and references to a name that is not empty.
abbrev pub IsPart : Part → Type 0
IsPart (literal l) = contains b'$' l ≡ false
IsPart (reference name) = (is_name name ≡ true) × (is_cons name ≡ true)

abbrev pub matches_of : List Part → List (Bytes × Bytes)
matches_of [] = []
matches_of (literal l ∷ ps) = matches_of ps
matches_of (reference name ∷ ps) = (b'$' ∷ braces name, name) ∷ matches_of ps

braces-append : (name rest : Bytes) → braces name ++ rest ≡ b'{' ∷ (name ++ b'}' ∷ rest)
braces-append name rest = ap (λ z. b'{' ∷ z) (append_assoc name (b'}' ∷ []) rest)

reference_name-append :
    (name rest : Bytes) → is_name name ≡ true → reference_name (name ++ b'}' ∷ rest) ≡ name
reference_name-append [] rest h = refl
reference_name-append (c ∷ name) rest h = ground (arith, reference_name-append name rest)

behind_name-append :
    (name rest : Bytes) → is_name name ≡ true → behind_name (name ++ b'}' ∷ rest) ≡ b'}' ∷ rest
behind_name-append [] rest h = refl
behind_name-append (c ∷ name) rest h = ground (arith, behind_name-append name rest)

match_behind-braces :
    (name rest : Bytes)
    → is_name name ≡ true
    → is_cons name ≡ true
    → match_behind (b'{' ∷ (name ++ b'}' ∷ rest)) ≡ some (braces name, name)
unfolding match_behind
match_behind-braces [] rest h k = cc
match_behind-braces (c ∷ name) rest h k =
    rw (reference_name-append (c ∷ name) rest h, behind_name-append (c ∷ name) rest h) refl

find_all_from-skip : (xs ys : Bytes) → find_all_from (length xs) (xs ++ ys) ≡ find_all_from zero ys
unfolding find_all_from
find_all_from-skip [] ys = refl
find_all_from-skip (x ∷ xs) ys = find_all_from-skip xs ys

find_all_from-literal :
    (l rest : Bytes)
    → contains b'$' l ≡ false
    → find_all_from zero (l ++ rest) ≡ find_all_from zero rest
unfolding find_all_from
find_all_from-literal [] rest h = refl
find_all_from-literal (c ∷ l) rest h = ground (arith, find_all_from-literal l rest)

find_all_from-some :
    (s text name : Bytes)
    → match_behind s ≡ some (text, name)
    → find_all_from zero (b'$' ∷ s) ≡ (b'$' ∷ text, name) ∷ find_all_from (length text) s
unfolding find_all_from
find_all_from-some s text name e =
    ap
      (λ (o : Option (Bytes × Bytes)). elim o as (λ o. List (Bytes × Bytes)) [
        | none ↦ find_all_from zero s
        | some (text, name) ↦ (b'$' ∷ text, name) ∷ find_all_from (length text) s
      ])
      e

-- The regular expression finds the references, in order.
pub find_all_from-print :
    (ps : List Part) → All IsPart ps → find_all_from zero (print ps) ≡ matches_of ps
find_all_from-print [] h = unfold find_all_from in refl
find_all_from-print (literal l ∷ ps) (h, hs) =
    find_all_from-literal l (print ps) h ∙ find_all_from-print ps hs
find_all_from-print (reference name ∷ ps) (h, hs) =
    find_all_from-some (braces name ++ print ps) (braces name) name (
      ap match_behind (braces-append name (print ps)) ∙ match_behind-braces name (print ps) h.0 h.1)
    ∙ ap (λ z. (b'$' ∷ braces name, name) ∷ z)
        (find_all_from-skip (braces name) (print ps) ∙ find_all_from-print ps hs)

-- Replacing the reference `x` by `new` in every part.
abbrev pub fill : Bytes → Bytes → Part → Part
fill x new (literal l) = literal l
fill x new (reference name) = if bytes_eq name x then literal new else reference name

has_prefix-braces :
    (x y rest : Bytes)
    → is_name x ≡ true
    → is_name y ≡ true
    → has_prefix (y ++ b'}' ∷ rest) (x ++ b'}' ∷ []) ≡ bytes_eq y x
has_prefix-braces [] [] rest h k = refl
has_prefix-braces [] (d ∷ y) rest h k = ground arith
has_prefix-braces (c ∷ x) [] rest h k = ground arith
has_prefix-braces (c ∷ x) (d ∷ y) rest h k = ground (arith, has_prefix-braces x y rest)

replace_from-skip :
    (o : ℕ) (old new xs ys : Bytes)
    → replace_from (length xs) o old new (xs ++ ys) ≡ replace_from zero o old new ys
unfolding replace_from
replace_from-skip o old new [] ys = refl
replace_from-skip o old new (x ∷ xs) ys = replace_from-skip o old new xs ys

module _ (x new : Bytes) (named : is_name x ≡ true) where
  -- `strings.Replace` of the reference `x`.
  abbrev replaced : Bytes → Bytes
  replaced s = replace_from zero b'$' (braces x) new s

  replaced-literal :
      (l rest : Bytes) → contains b'$' l ≡ false → replaced (l ++ rest) ≡ l ++ replaced rest
  unfolding replace_from
  replaced-literal [] rest h = refl
  replaced-literal (c ∷ l) rest h = ground (arith, replaced-literal l rest)

  -- Within a name no reference begins, since a brace is not in a name.
  replaced-name :
      (name rest : Bytes)
      → is_name name ≡ true
      → replaced (name ++ b'}' ∷ rest) ≡ name ++ b'}' ∷ replaced rest
  unfolding replace_from
  replaced-name [] rest h = refl
  replaced-name (c ∷ []) rest h = ground (arith, replaced-name [] rest)
  replaced-name (c ∷ d ∷ name) rest h = ground (arith, replaced-name (d ∷ name) rest)

  replaced-found :
      (s : Bytes)
      → has_prefix s (braces x) ≡ true
      → replaced (b'$' ∷ s) ≡ new ++ replace_from (length (braces x)) b'$' (braces x) new s
  unfolding replace_from
  replaced-found s h = rw h refl

  replaced-passed :
      (s : Bytes)
      → has_prefix (b'{' ∷ s) (braces x) ≡ false
      → replaced (b'$' ∷ b'{' ∷ s) ≡ b'$' ∷ b'{' ∷ replaced s
  unfolding replace_from
  replaced-passed s h =
      ap
        (λ (b : Bool). elim b as (λ b. Bytes) [
          | true ↦ new ++ replace_from (length (braces x)) b'$' (braces x) new (b'{' ∷ s)
          | false ↦ b'$' ∷ b'{' ∷ replaced s
        ])
        h

  print_part-fill :
      (name : Bytes)
      → (if bytes_eq name x then new else b'$' ∷ braces name)
        ≡ print_part (fill x new (reference name))
  print_part-fill name = elim (Bool-cases (bytes_eq name x)) [
    | inl same ↦ rw same refl
    | inr other ↦ rw other refl
  ]

  prefix-braces :
      (name rest : Bytes)
      → is_name name ≡ true
      → has_prefix (b'{' ∷ (name ++ b'}' ∷ rest)) (braces x) ≡ bytes_eq name x
  prefix-braces name rest h = ground (arith, has_prefix-braces x name rest)

  replaced-reference :
      (name rest : Bytes)
      → is_name name ≡ true
      → replaced (b'$' ∷ (braces name ++ rest))
        ≡ (if bytes_eq name x then new else b'$' ∷ braces name) ++ replaced rest
  replaced-reference name rest h = elim (Bool-cases (bytes_eq name x)) [
    | inl same ↦
        let eq = (bytes_eq_iff name x).0 same in
        ap (λ s. replaced (b'$' ∷ s)) (braces-append name rest)
        ∙ replaced-found (b'{' ∷ (name ++ b'}' ∷ rest)) (prefix-braces name rest h ∙ same)
        ∙ ap (λ s. new ++ replace_from (length (braces x)) b'$' (braces x) new s)
            (sym (braces-append name rest) ∙ ap (λ n. braces n ++ rest) eq)
        ∙ ap (λ s. new ++ s) (replace_from-skip b'$' (braces x) new (braces x) rest)
        ∙ rw same refl
    | inr other ↦
        ap (λ s. replaced (b'$' ∷ s)) (braces-append name rest)
        ∙ replaced-passed (name ++ b'}' ∷ rest) (prefix-braces name rest h ∙ other)
        ∙ ap (λ s. b'$' ∷ b'{' ∷ s) (replaced-name name rest h)
        ∙ rw other (ap (λ s. b'$' ∷ s) (sym (braces-append name (replaced rest))))
  ]

  -- Replacing a reference in a printed template fills just the parts that are that reference.
  pub replaced-print :
      (ps : List Part) → All IsPart ps → replaced (print ps) ≡ print (map (fill x new) ps)
  replaced-print [] h = unfold replace_from in refl
  replaced-print (literal l ∷ ps) (h, hs) =
      replaced-literal l (print ps) h ∙ ap (λ s. l ++ s) (replaced-print ps hs)
  replaced-print (reference name ∷ ps) (h, hs) =
      replaced-reference name (print ps) h.0
      ∙ ap (λ s. (if bytes_eq name x then new else b'$' ∷ braces name) ++ s) (replaced-print ps hs)
      ∙ ap (λ s. s ++ print (map (fill x new) ps)) (print_part-fill name)
