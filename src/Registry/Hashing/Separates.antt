-- ===== src/Registry/Hashing/Separates.antt =====
-- What `HashLabels` (pkg/registry/registry.go) hashes tells different labels apart.
use statsd_exporter.Base.{
  ◌≡◌, refl, sym, ap, ◌∙◌, inl, inr, false, Bool-cases, List, [], ◌∷◌, ◌++◌, map, append_assoc, All,
  Bytes, contains, split, split-append, bytes_eq, lookup, Bytes_eq, arith,
}
use statsd_exporter.Registry.{Labels}
use statsd_exporter.Registry.Hashing.{
  separator_byte, bytes_leb, put_sorted, sort_strings, value_or_empty, name_buf, value_loop,
  value_buf, label_names, hashed_values,
}

-- Neither empty nor with the separator, and without the separator.
abbrev pub IsName : Bytes → Type 0
IsName [] = ⊥
IsName (c ∷ s) = contains separator_byte (c ∷ s) ≡ false

abbrev pub IsPlain : Bytes × Bytes → Type 0
IsPlain l = IsName l.0 × (contains separator_byte l.1 ≡ false)

-- The values in the order of the sorted names.
abbrev pub label_values : Labels → List Bytes → List Bytes
label_values labels names = map (λ n. value_or_empty (lookup n labels)) names

put_sorted-All :
    (n : Bytes) (names : List Bytes) → IsName n → All IsName names → All IsName (put_sorted n names)
put_sorted-All n [] p ps = (p, tt)
put_sorted-All n (m ∷ names) p (q, qs) = elim (Bool-cases (bytes_leb n m)) [
  | inl le ↦ rw le (p, (q, qs))
  | inr gt ↦ rw gt (q, put_sorted-All n names p qs)
]

sort_strings-All : (names : List Bytes) → All IsName names → All IsName (sort_strings names)
unfolding sort_strings
sort_strings-All [] ps = tt
sort_strings-All (n ∷ names) (p, ps) =
    put_sorted-All n (sort_strings names) p (sort_strings-All names ps)

label_names-All : (labels : Labels) → All IsPlain labels → All IsName (map (λ l. l.0) labels)
label_names-All [] ps = tt
label_names-All (l ∷ labels) (p, ps) = (p.0, label_names-All labels ps)

lookup-plain :
    (n : Bytes) (labels : Labels)
    → All IsPlain labels
    → contains separator_byte (value_or_empty (lookup n labels)) ≡ false
unfolding lookup
lookup-plain n [] ps = refl
lookup-plain n ((m, v) ∷ labels) (p, ps) = elim (Bool-cases (bytes_eq m n)) [
  | inl same ↦ rw same p.1
  | inr other ↦ rw other (lookup-plain n labels ps)
]

-- The parts between the separators.
split-name_buf :
    (names : List Bytes) (rest : Bytes)
    → All IsName names
    → split separator_byte (name_buf names ++ rest) ≡ names ++ split separator_byte rest
unfolding name_buf
split-name_buf [] rest ps = refl
split-name_buf ([] ∷ names) rest (p, ps) = absurd p
split-name_buf ((c ∷ n) ∷ names) rest (p, ps) =
    ap (split separator_byte) (append_assoc (c ∷ n) (separator_byte ∷ name_buf names) rest)
    ∙ (split-append separator_byte (c ∷ n) (name_buf names ++ rest) p
        ∙ ap (λ ss. (c ∷ n) ∷ ss) (split-name_buf names rest ps))

split-value_loop :
    (labels : Labels) (names : List Bytes)
    → All IsPlain labels
    → split separator_byte (value_loop labels names) ≡ label_values labels names ++ [] ∷ []
unfolding value_loop
split-value_loop labels [] ps = refl
split-value_loop labels (n ∷ names) ps =
    split-append separator_byte (value_or_empty (lookup n labels)) (value_loop labels names)
      (lookup-plain n labels ps)
    ∙ ap (λ ss. value_or_empty (lookup n labels) ∷ ss) (split-value_loop labels names ps)

split-hashed_values :
    (labels : Labels)
    → All IsPlain labels
    → split separator_byte (hashed_values labels)
      ≡ label_names labels ++ [] ∷ (label_values labels (label_names labels) ++ [] ∷ [])
unfolding hashed_values value_buf
split-hashed_values labels ps =
    split-name_buf (label_names labels) (value_buf labels (label_names labels))
      (sort_strings-All (map (λ l. l.0) labels) (label_names-All labels ps))
    ∙ ap (λ ss. label_names labels ++ [] ∷ ss) (split-value_loop labels (label_names labels) ps)

cons_same : (x y : Bytes) (xs ys a b : List Bytes) → x ∷ xs ≡ y ∷ ys → a ≡ b → x ∷ a ≡ y ∷ b
cons_same x y xs ys a b e same = cc

-- The first empty part ends the names.
names-apart :
    (a b : List Bytes) (x y : List Bytes)
    → All IsName a
    → All IsName b
    → a ++ [] ∷ x ≡ b ++ [] ∷ y
    → (a ≡ b) × (x ≡ y)
names-apart [] [] x y ps qs e = (refl, cc)
names-apart ([] ∷ a) b x y (p, ps) qs e = absurd p
names-apart a ([] ∷ b) x y ps (q, qs) e = absurd q
names-apart [] ((c ∷ n) ∷ b) x y ps qs e = absurd (ground arith)
names-apart ((c ∷ n) ∷ a) [] x y ps qs e = absurd (ground arith)
names-apart ((c ∷ n) ∷ a) ((d ∷ m) ∷ b) x y (p, ps) (q, qs) e =
    let rest = names-apart a b x y ps qs cc in
    (cons_same (c ∷ n) (d ∷ m) (a ++ [] ∷ x) (b ++ [] ∷ y) a b e rest.0, rest.1)

snoc-injective : (a b : List Bytes) → a ++ [] ∷ [] ≡ b ++ [] ∷ [] → a ≡ b
snoc-injective [] [] e = refl
snoc-injective [] (x ∷ []) e = absurd (ground arith)
snoc-injective [] (x ∷ y ∷ b) e = absurd (ground arith)
snoc-injective (x ∷ []) [] e = absurd (ground arith)
snoc-injective (x ∷ y ∷ a) [] e = absurd (ground arith)
snoc-injective (x ∷ a) (y ∷ b) e =
    cons_same x y (a ++ [] ∷ []) (b ++ [] ∷ []) a b e (snoc-injective a b cc)

-- For labels with names that are not empty and with no byte 255 in names and values: if the bytes that
-- are hashed are the same, then the sorted names are the same, and so are their values.
pub hashed_values-injective :
    (a b : Labels)
    → All IsPlain a
    → All IsPlain b
    → hashed_values a ≡ hashed_values b
    → (label_names a ≡ label_names b)
      × (label_values a (label_names a) ≡ label_values b (label_names b))
hashed_values-injective a b ps qs e =
    let apart =
      names-apart (label_names a) (label_names b) (label_values a (label_names a) ++ [] ∷ [])
        (label_values b (label_names b) ++ [] ∷ [])
        (sort_strings-All (map (λ l. l.0) a) (label_names-All a ps))
        (sort_strings-All (map (λ l. l.0) b) (label_names-All b qs))
        (sym (split-hashed_values a ps)
          ∙ (ap (split separator_byte) e ∙ split-hashed_values b qs)) in
    (apart.0, snoc-injective _ _ apart.1)
