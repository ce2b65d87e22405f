-- ===== src/Template/Parts/Formats.antt =====
-- `Format` on the formatter of a printed template (pkg/mapper/fsm/formatter.go).
use statsd_exporter.Base.{
  ℕ, zero, suc, ◌≤◌, ◌<◌, ◌≡◌, refl, sym, ap, ◌∙◌, Bool, true, false, ◌||◌, Bool-cases, inl, inr,
  Option, none, some, List, [], ◌∷◌, ◌++◌, append_assoc, Bytes, bytes_eq, bytes_eq_iff, codes,
  contains, ◌==◌, length, get_elem?, All, All_weaken, map, arith,
}
use statsd_exporter.Template.Parts.{
  Part, literal, reference, print, IsPart, matches_of, fill, find_all_from-print,
}
use statsd_exporter.Template.Parts.Meaning.{
  capture_at, slot, meaning, skeleton, indexes_of, fill_all, formatter_loop-print,
}
use statsd_exporter.Template.{
  Formatted, text, and_then, atoi, index_of, replacement, formatter_loop, formatter_of,
  formatter_from, new_template_formatter, sprintf, arguments, formatted, format,
}

-- No `%`, which `fmt.Sprintf` would read.
abbrev pub IsPlainPart : Part → Type 0
IsPlainPart (literal l) = contains b'%' l ≡ false
IsPlainPart (reference name) = Unit

abbrev is_among : Bytes → List Part → Bool
is_among y [] = false
is_among y (literal l ∷ qs) = is_among y qs
is_among y (reference x ∷ qs) = bytes_eq y x || is_among y qs

abbrev IsAmong : List Part → Part → Type 0
IsAmong qs (literal l) = Unit
IsAmong qs (reference y) = is_among y qs ≡ true

IsAmong-cons : (q : Part) (qs : List Part) (p : Part) → IsAmong qs p → IsAmong (q ∷ qs) p
IsAmong-cons (literal l) qs p h = h
IsAmong-cons (reference x) qs (literal l) h = h
IsAmong-cons (reference x) qs (reference y) h = ground arith

bytes_eq_refl : (x : Bytes) → bytes_eq x x ≡ true
bytes_eq_refl x = (bytes_eq_iff x x).1 refl

All-IsAmong : (ps : List Part) → All (IsAmong ps) ps
All-IsAmong [] = tt
All-IsAmong (literal l ∷ ps) = (tt, All-IsAmong ps)
All-IsAmong (reference x ∷ ps) = (
  ground (arith, bytes_eq_refl x),
  All_weaken (IsAmong ps) (IsAmong (reference x ∷ ps)) (IsAmong-cons (reference x) ps) ps
      (All-IsAmong ps),
)

module _ (capture_count : ℕ) where
  -- Filling a reference does not change what the template will be.
  skeleton-fill :
      (x : Bytes) (ps : List Part)
      → skeleton capture_count (map (fill x (replacement (slot capture_count x))) ps)
        ≡ skeleton capture_count ps
  skeleton-fill x [] = refl
  skeleton-fill x (literal l ∷ ps) = ap (λ z. l ++ z) (skeleton-fill x ps)
  skeleton-fill x (reference y ∷ ps) = elim (Bool-cases (bytes_eq y x)) [
    | inl same ↦ rw same (
        ap
          (λ z.
            replacement (slot capture_count z)
            ++ skeleton capture_count (map (fill x (replacement (slot capture_count x))) ps))
          (sym ((bytes_eq_iff y x).0 same))
        ∙ ap (λ z. replacement (slot capture_count y) ++ z) (skeleton-fill x ps))
    | inr other ↦ rw other (ap (λ z. replacement (slot capture_count y) ++ z) (skeleton-fill x ps))
  ]

  All-IsAmong-fill :
      (x new : Bytes) (qs ps : List Part)
      → All (IsAmong (reference x ∷ qs)) ps
      → All (IsAmong qs) (map (fill x new) ps)
  All-IsAmong-fill x new qs [] h = tt
  All-IsAmong-fill x new qs (literal l ∷ ps) (h, hs) = (tt, All-IsAmong-fill x new qs ps hs)
  All-IsAmong-fill x new qs (reference y ∷ ps) (h, hs) = elim (Bool-cases (bytes_eq y x)) [
    | inl same ↦ rw same (tt, All-IsAmong-fill x new qs ps hs)
    | inr other ↦ rw other (ground arith, All-IsAmong-fill x new qs ps hs)
  ]

  -- Once all its references are filled, a template is its skeleton.
  print-fill_all :
      (qs ps : List Part)
      → All (IsAmong qs) ps
      → print (fill_all capture_count qs ps) ≡ skeleton capture_count ps
  print-fill_all [] [] h = refl
  print-fill_all [] (literal l ∷ ps) (h, hs) = ap (λ z. l ++ z) (print-fill_all [] ps hs)
  print-fill_all [] (reference y ∷ ps) (h, hs) = cc
  print-fill_all (literal l ∷ qs) ps h = print-fill_all qs ps (without_literal ps h)
    where
      without_literal : (ps : List Part) → All (IsAmong (literal l ∷ qs)) ps → All (IsAmong qs) ps
      without_literal [] h = tt
      without_literal (literal k ∷ ps) (h, hs) = (tt, without_literal ps hs)
      without_literal (reference y ∷ ps) (h, hs) = (h, without_literal ps hs)
  print-fill_all (reference x ∷ qs) ps h =
      print-fill_all qs (map (fill x (replacement (slot capture_count x))) ps)
        (All-IsAmong-fill x (replacement (slot capture_count x)) qs ps h)
      ∙ skeleton-fill x ps

and_then-append : (a b : Bytes) (f : Formatted) → and_then a (and_then b f) ≡ and_then (a ++ b) f
and_then-append a b (text t) = ap text (sym (append_assoc a b t))
and_then-append a b Formatted.panicked = refl
and_then-append a b Formatted.other_verb = refl

and_then-nil : (f : Formatted) → and_then [] f ≡ f
and_then-nil (text t) = refl
and_then-nil Formatted.panicked = refl
and_then-nil Formatted.other_verb = refl

sprintf-cons :
    (c : ℕ) (s : Bytes) (vargs : List Bytes)
    → c == b'%' ≡ false
    → sprintf (c ∷ s) vargs ≡ and_then (c ∷ []) (sprintf s vargs)
unfolding sprintf
sprintf-cons c [] vargs h = rw h refl
sprintf-cons c (d ∷ s) vargs h = rw (h, sprintf) refl

sprintf-literal :
    (l s : Bytes) (vargs : List Bytes)
    → contains b'%' l ≡ false
    → sprintf (l ++ s) vargs ≡ and_then l (sprintf s vargs)
sprintf-literal [] s vargs h = sym (and_then-nil (sprintf s vargs))
sprintf-literal (c ∷ l) s vargs h =
    sprintf-cons c (l ++ s) vargs (ground arith)
    ∙ ap (and_then (c ∷ [])) (sprintf-literal l s vargs (ground arith))
    ∙ and_then-append (c ∷ []) l (sprintf s vargs)

module _ (capture_count : ℕ) (captures : List Bytes)
    (enough : capture_count ≤ length captures) where
  abbrev values_of : List Part → List Bytes
  values_of [] = []
  values_of (literal l ∷ ps) = values_of ps
  values_of (reference name ∷ ps) = elim (slot capture_count name) [
    | none ↦ values_of ps
    | some idx ↦ capture_at captures (some idx) ∷ values_of ps
  ]

  get_elem?-lt :
      (cs : List Bytes) (i : ℕ) → i < length cs → get_elem? cs i ≡ some (capture_at cs (some i))
  get_elem?-lt [] i h = absurd (omega arith)
  get_elem?-lt (c ∷ cs) zero h = refl
  get_elem?-lt (c ∷ cs) (suc i) h = get_elem?-lt cs i (omega arith)

  index_of-lt : (o : Option ℕ) (idx : ℕ) → index_of capture_count o ≡ some idx → idx < capture_count
  index_of-lt none idx h = cc
  index_of-lt (some n) idx h = ground arith

  arguments-cons :
      (idx : ℕ) (rest : List ℕ) (vargs : List Bytes)
      → idx < length captures
      → arguments rest captures ≡ some vargs
      → arguments (idx ∷ rest) captures ≡ some (capture_at captures (some idx) ∷ vargs)
  unfolding arguments
  arguments-cons idx rest vargs h e = rw (arguments, get_elem?-lt captures idx h, e) refl

  -- The captures that the references name are there.
  arguments-indexes_of :
      (ps : List Part) → arguments (indexes_of capture_count ps) captures ≡ some (values_of ps)
  arguments-indexes_of [] = unfold arguments in refl
  arguments-indexes_of (literal l ∷ ps) = arguments-indexes_of ps
  arguments-indexes_of (reference name ∷ ps) =
      slotted (slot capture_count name) (index_of-lt (atoi name)) (arguments-indexes_of ps)
    where
      slotted :
          (o : Option ℕ)
          → ((idx : ℕ) → o ≡ some idx → idx < capture_count)
          → arguments (indexes_of capture_count ps) captures ≡ some (values_of ps)
          → arguments
              (elim o [
                | none ↦ indexes_of capture_count ps
                | some idx ↦ idx ∷ indexes_of capture_count ps
              ])
              captures
            ≡ some (elim o [
              | none ↦ values_of ps
              | some idx ↦ capture_at captures (some idx) ∷ values_of ps
            ])
      slotted none below e = e
      slotted (some idx) below e =
          arguments-cons idx (indexes_of capture_count ps) (values_of ps)
            (omega (arith, below idx refl)) e

  sprintf-verb :
      (s a : Bytes) (vargs : List Bytes)
      → sprintf (codes "%s" ++ s) (a ∷ vargs) ≡ and_then a (sprintf s vargs)
  unfolding sprintf
  sprintf-verb s a vargs = refl

  sprintf-skeleton :
      (ps : List Part)
      → All IsPlainPart ps
      → sprintf (skeleton capture_count ps) (values_of ps)
        ≡ text (meaning capture_count captures ps)
  sprintf-skeleton [] h = unfold sprintf in refl
  sprintf-skeleton (literal l ∷ ps) (h, hs) =
      sprintf-literal l (skeleton capture_count ps) (values_of ps) h
      ∙ ap (and_then l) (sprintf-skeleton ps hs)
  sprintf-skeleton (reference name ∷ ps) (h, hs) =
      slotted (slot capture_count name) (sprintf-skeleton ps hs)
    where
      slotted :
          (o : Option ℕ)
          → sprintf (skeleton capture_count ps) (values_of ps)
            ≡ text (meaning capture_count captures ps)
          → sprintf (replacement o ++ skeleton capture_count ps) (elim o [
            | none ↦ values_of ps
            | some idx ↦ capture_at captures (some idx) ∷ values_of ps
          ])
            ≡ text (capture_at captures o ++ meaning capture_count captures ps)
      slotted none e = e
      slotted (some idx) e =
          sprintf-verb (skeleton capture_count ps) (capture_at captures (some idx)) (values_of ps)
          ∙ ap (and_then (capture_at captures (some idx))) e

  -- With no index there is nothing to put in.
  skeleton-meaning :
      (ps : List Part)
      → indexes_of capture_count ps ≡ []
      → skeleton capture_count ps ≡ meaning capture_count captures ps
  skeleton-meaning [] e = refl
  skeleton-meaning (literal l ∷ ps) e = ap (λ z. l ++ z) (skeleton-meaning ps e)
  skeleton-meaning (reference name ∷ ps) e =
      slotted (slot capture_count name) (skeleton-meaning ps) e
    where
      slotted :
          (o : Option ℕ)
          → (indexes_of capture_count ps ≡ []
              → skeleton capture_count ps ≡ meaning capture_count captures ps)
          → (elim o [
            | none ↦ indexes_of capture_count ps
            | some idx ↦ idx ∷ indexes_of capture_count ps
          ])
            ≡ []
          → replacement o ++ skeleton capture_count ps
            ≡ capture_at captures o ++ meaning capture_count captures ps
      slotted none f e = f e
      slotted (some idx) f e = cc

  formatted-meaning :
      (ps : List Part) (indexes : List ℕ)
      → All IsPlainPart ps
      → indexes ≡ indexes_of capture_count ps
      → format (formatter_of (indexes, skeleton capture_count ps)) captures
        ≡ text (meaning capture_count captures ps)
  unfolding format
  formatted-meaning ps [] plain e = ap text (skeleton-meaning ps (sym e))
  formatted-meaning ps (idx ∷ indexes) plain e =
      let nonzero : suc (length indexes) == 0 ≡ false = ground arith in
      rw nonzero (
        ap (λ z. formatted (skeleton capture_count ps) (arguments z captures)) e
        ∙ ap (formatted (skeleton capture_count ps)) (arguments-indexes_of ps)
        ∙ sprintf-skeleton ps plain)

  no_matches : (ps : List Part) → matches_of ps ≡ [] → print ps ≡ meaning capture_count captures ps
  no_matches [] e = refl
  no_matches (literal l ∷ ps) e = ap (λ z. l ++ z) (no_matches ps e)
  no_matches (reference name ∷ ps) e = cc

  new_template_formatter-print :
      (ps : List Part)
      → All IsPart ps
      → new_template_formatter (print ps) capture_count
        ≡ formatter_from (print ps) capture_count (matches_of ps)
  unfolding new_template_formatter
  new_template_formatter-print ps parts =
      ap (formatter_from (print ps) capture_count) (find_all_from-print ps parts)

  -- A template is its text, with the capture that a reference `${name}` names in place of it, and
  -- nothing in place of a reference that names none: a name is the number of a capture, from 1 to
  -- the count of captures, or names none. The texts have neither `$` nor `%`, the names consist of
  -- letters, digits, `_` and `$`, and there are as many captures as the formatter was made for.
  pub format-print :
      (ps : List Part)
      → All IsPart ps
      → All IsPlainPart ps
      → format (new_template_formatter (print ps) capture_count) captures
        ≡ text (meaning capture_count captures ps)
  format-print ps parts plain =
      ap (λ z. format z captures) (new_template_formatter-print ps parts)
      ∙ by_matches (matches_of ps) refl
    where
      by_matches :
          (matches : List (Bytes × Bytes))
          → matches ≡ matches_of ps
          → format (formatter_from (print ps) capture_count matches) captures
            ≡ text (meaning capture_count captures ps)
      by_matches [] e = unfold format in ap text (no_matches ps (sym e))
      by_matches (m ∷ matches) e =
          ap (λ z. format (formatter_of z) captures)
            (ap (λ z. formatter_loop capture_count z [] (print ps)) e
              ∙ formatter_loop-print capture_count ps ps [] parts parts
              ∙ ap (λ z. (indexes_of capture_count ps, z))
                  (print-fill_all capture_count ps ps (All-IsAmong ps)))
          ∙ formatted-meaning ps (indexes_of capture_count ps) plain refl
