-- ===== src/Template/Parts/Meaning.antt =====
-- What a template means: `NewTemplateFormatter` and `Format` (pkg/mapper/fsm/formatter.go) together.
use statsd_exporter.Base.{
  ℕ, ◌≡◌, refl, sym, ap, ◌∙◌, Bool, true, false, Option, none, some, List, [], ◌∷◌, ◌++◌,
  append_assoc, append-nil, Bytes, bytes_eq, contains, if◌then◌else◌, get_elem?, All, map,
}
use statsd_exporter.Template.Parts.{
  Part, literal, reference, is_name, braces, print, IsPart, matches_of, fill, replaced-print,
}
use statsd_exporter.Template.{atoi, index_of, replacement, add_index, formatter_loop}

-- The text of a capture, if there is one at the index.
abbrev pub capture_at : List Bytes → Option ℕ → Bytes
capture_at captures none = []
capture_at captures (some idx) = elim (get_elem? captures idx) [ none ↦ [] | some c ↦ c ]

module _ (capture_count : ℕ) where
  -- The index of the capture that a reference names, if it names one.
  abbrev pub slot : Bytes → Option ℕ
  slot name = index_of capture_count (atoi name)

  abbrev pub meaning : List Bytes → List Part → Bytes
  meaning captures [] = []
  meaning captures (literal l ∷ ps) = l ++ meaning captures ps
  meaning captures (reference name ∷ ps) = capture_at captures (slot name) ++ meaning captures ps

  abbrev pub skeleton : List Part → Bytes
  skeleton [] = []
  skeleton (literal l ∷ ps) = l ++ skeleton ps
  skeleton (reference name ∷ ps) = replacement (slot name) ++ skeleton ps

  abbrev pub indexes_of : List Part → List ℕ
  indexes_of [] = []
  indexes_of (literal l ∷ ps) = indexes_of ps
  indexes_of (reference name ∷ ps) = elim (slot name) [
    | none ↦ indexes_of ps
    | some idx ↦ idx ∷ indexes_of ps
  ]

  -- Filling the references of `qs`, one after the other.
  abbrev pub fill_all : List Part → List Part → List Part
  fill_all [] ps = ps
  fill_all (literal l ∷ qs) ps = fill_all qs ps
  fill_all (reference name ∷ qs) ps = fill_all qs (map (fill name (replacement (slot name))) ps)

  replacement-free : (o : Option ℕ) → contains b'$' (replacement o) ≡ false
  replacement-free none = refl
  replacement-free (some idx) = refl

  pub map-fill-IsPart :
      (x : Bytes) (o : Option ℕ) (ps : List Part)
      → All IsPart ps
      → All IsPart (map (fill x (replacement o)) ps)
  map-fill-IsPart x o [] h = tt
  map-fill-IsPart x o (literal l ∷ ps) (h, hs) = (h, map-fill-IsPart x o ps hs)
  map-fill-IsPart x o (reference name ∷ ps) (h, hs) =
      (filled (bytes_eq name x), map-fill-IsPart x o ps hs)
    where
      filled : (b : Bool) → IsPart (if b then literal (replacement o) else reference name)
      filled true = replacement-free o
      filled false = h

  add_index-append :
      (o : Option ℕ) (indexes more : List ℕ)
      → add_index o indexes ++ more ≡ indexes ++ (elim o [ none ↦ more | some idx ↦ idx ∷ more ])
  add_index-append none indexes more = refl
  add_index-append (some idx) indexes more = append_assoc indexes (idx ∷ []) more

  formatter_loop-step :
      (name : Bytes) (matches : List (Bytes × Bytes)) (ps : List Part) (indexes : List ℕ)
      → is_name name ≡ true
      → All IsPart ps
      → formatter_loop capture_count ((b'$' ∷ braces name, name) ∷ matches) indexes (print ps)
        ≡ formatter_loop capture_count matches
            (add_index (slot name) indexes)
            (print (map (fill name (replacement (slot name))) ps))
  formatter_loop-step name matches ps indexes h hp =
      unfold formatter_loop in
      ap (formatter_loop capture_count matches (add_index (slot name) indexes))
        (replaced-print name (replacement (slot name)) h ps hp)

  pub formatter_loop-print :
      (qs ps : List Part) (indexes : List ℕ)
      → All IsPart qs
      → All IsPart ps
      → formatter_loop capture_count (matches_of qs) indexes (print ps)
        ≡ (indexes ++ indexes_of qs, print (fill_all qs ps))
  formatter_loop-print [] ps indexes hq hp =
      unfold formatter_loop in ap (λ z. (z, print ps)) (sym (append-nil indexes))
  formatter_loop-print (literal l ∷ qs) ps indexes (h, hq) hp =
      formatter_loop-print qs ps indexes hq hp
  formatter_loop-print (reference name ∷ qs) ps indexes (h, hq) hp =
      formatter_loop-step name (matches_of qs) ps indexes h.0 hp
      ∙ formatter_loop-print qs (map (fill name (replacement (slot name))) ps)
          (add_index (slot name) indexes) hq (map-fill-IsPart name (slot name) ps hp)
      ∙ ap (λ z. (z, print (fill_all qs (map (fill name (replacement (slot name))) ps))))
          (add_index-append (slot name) indexes (indexes_of qs))
