-- ===== src/Line/Samples/Parts.antt =====
-- Taking a printed line apart: `strings.Cut` and `strings.Split` at a byte that is not in the first
-- part, and names without tags.
use statsd_exporter.Base.{
  ℕ, zero, suc, ◌+◌, ◌-◌, ◌<◌, ◌≡◌, refl, false, none, some, List, [], ◌∷◌, ◌++◌, Bytes, contains,
  arith,
}
use statsd_exporter.Utf8.{Position, decode_rune, decode_rune_ascii, range_from, range}
use statsd_exporter.Tags.{Parser, TagState, find_rune, index_byte, suffix_tags, parse_name_and_tags}
use statsd_exporter.Line.{cut, split_n}

pub cut-append : (c : ℕ) (x y : Bytes) → contains c x ≡ false → cut c (x ++ c ∷ y) ≡ some (x, y)
cut-append c [] y h = ground arith
cut-append c (b ∷ x) y h = ground (arith, cut-append c x y)

pub split_n-cut :
    (c n : ℕ) {x y : Bytes} (s : Bytes)
    → cut c s ≡ some (x, y)
    → split_n c (suc (suc n)) s ≡ x ∷ split_n c (suc n) y
split_n-cut c n s e = rw (e, split_n) refl

pub split_n-cons :
    (c : ℕ) (s : Bytes) → (x : Bytes) × (more : List Bytes) × (split_n c 2 s ≡ x ∷ more)
split_n-cons c s =
    elim (cut c s)
      as (λ o.
        (x : Bytes) × (more : List Bytes) × ((elim o [ none ↦ s ∷ [] | some (x, y) ↦ x ∷ y ∷ [] ])
          ≡ x ∷ more)) [ none ↦ (s, [], refl) | some (x, y) ↦ (x, y ∷ [], refl) ]

-- A loop over the runes of a string finds an ASCII rune only where the byte stands.
find_rune-none :
    (c skip i : ℕ) (s : Bytes)
    → c < 0x80
    → contains c s ≡ false
    → find_rune c (range_from skip i s) ≡ none
unfolding range_from
find_rune-none c skip i [] lt h = refl
find_rune-none c (suc skip) i (b ∷ s) lt h = find_rune-none c skip (i + 1) s lt (ground arith)
find_rune-none c zero i (b ∷ s) lt h =
    ground (arith, decode_rune_ascii b s, find_rune-none c ((decode_rune b s).1 - 1) (i + 1) s lt)

index_byte-none : (c : ℕ) (s : Bytes) → contains c s ≡ false → index_byte c s ≡ none
index_byte-none c [] h = refl
index_byte-none c (b ∷ s) h = ground (arith, index_byte-none c s)

suffix_tags-none :
    (p : Parser) (name : Bytes) (ps : List Position) (t : TagState)
    → find_rune b'#' ps ≡ none
    → find_rune b',' ps ≡ none
    → suffix_tags p name ps t ≡ some (name, t)
unfolding suffix_tags
suffix_tags-none p name [] t h k = refl
suffix_tags-none p name (q ∷ qs) t h k = ground (arith, suffix_tags-none p name qs t)

-- A name with none of the bytes that delimit tags.
pub record IsName (name : Bytes) : Type 0 where
  pub no_open : contains b'[' name ≡ false
  pub no_close : contains b']' name ≡ false
  pub no_hash : contains b'#' name ≡ false
  pub no_comma : contains b',' name ≡ false
  pub no_colon : contains b':' name ≡ false

pub parse_name_and_tags-plain :
    (p : Parser) (name : Bytes) (t : TagState)
    → IsName name
    → parse_name_and_tags p name t ≡ some (name, t)
unfolding parse_name_and_tags
parse_name_and_tags-plain p name t ok =
    let whole =
      suffix_tags-none p name (range name) t
        (unfold range in find_rune-none b'#' 0 0 name (omega arith) ok.no_hash)
        (unfold range in find_rune-none b',' 0 0 name (omega arith) ok.no_comma) in
    rw (index_byte-none b'[' name ok.no_open, index_byte-none b']' name ok.no_close, whole)
      (ground arith)
