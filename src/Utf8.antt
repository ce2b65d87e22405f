-- ===== src/Utf8.antt =====
-- UTF-8 as Go's `range` over a string and `unicode/utf8` read it: the language and its library, as
-- pkg/mapper/escape.go and pkg/line/line.go use them.
use statsd_exporter.Base.{
  ℕ, zero, suc, ◌+◌, ◌-◌, ◌*◌, ◌≡◌, Bool, true, false, not, ◌&&◌, List, [], ◌∷◌, Bytes, ltb, leb,
  ◌==◌, if◌then◌else◌, arith, length, ◌≤◌, ◌<◌,
}

abbrev pub rune_error : ℕ
rune_error = 0xFFFD

abbrev pub between : ℕ → ℕ → ℕ → Bool
between lo hi c = leb lo c && leb c hi

-- A byte that is no encoding counts as one `RuneError` of width 1.
abbrev invalid : ℕ × ℕ
invalid = (rune_error, 1)

abbrev two_bytes : ℕ → Bytes → ℕ × ℕ
two_bytes b [] = invalid
two_bytes b (c ∷ _) = if between 0x80 0xBF c then ((b - 0xC0) * 0x40 + (c - 0x80), 2) else invalid

abbrev three_bytes : ℕ → Bytes → ℕ × ℕ
three_bytes b [] = invalid
three_bytes b (c ∷ []) = invalid
three_bytes b (c ∷ d ∷ _) =
    if between (if b == 0xE0 then 0xA0 else 0x80) (if b == 0xED then 0x9F else 0xBF) c
      && between 0x80 0xBF d
    then ((b - 0xE0) * 0x1000 + (c - 0x80) * 0x40 + (d - 0x80), 3)
    else invalid

abbrev four_bytes : ℕ → Bytes → ℕ × ℕ
four_bytes b [] = invalid
four_bytes b (c ∷ []) = invalid
four_bytes b (c ∷ d ∷ []) = invalid
four_bytes b (c ∷ d ∷ e ∷ _) =
    if between (if b == 0xF0 then 0x90 else 0x80) (if b == 0xF4 then 0x8F else 0xBF) c
      && between 0x80 0xBF d
      && between 0x80 0xBF e
    then ((b - 0xF0) * 0x40000 + (c - 0x80) * 0x1000 + (d - 0x80) * 0x40 + (e - 0x80), 4)
    else invalid

-- The rune at a byte and the bytes behind it, with its width.
unfoldable pub decode_rune : ℕ → Bytes → ℕ × ℕ
decode_rune b s =
    if ltb b 0x80
    then (b, 1)
    else if between 0xC2 0xDF b
    then two_bytes b s
    else if between 0xE0 0xEF b
    then three_bytes b s
    else if between 0xF0 0xF4 b
    then four_bytes b s
    else invalid

-- `utf8.RuneLen`, for a rune that `range` yields.
unfoldable pub rune_len : ℕ → ℕ
rune_len c = if ltb c 0x80 then 1 else if ltb c 0x800 then 2 else if ltb c 0x10000 then 3 else 4

-- What `for i, c := range s` yields: the index, the rune and its width. The first argument counts
-- the bytes of the current rune that are left.
pub record Position : Type 0 where
  pub index : ℕ
  pub rune : ℕ
  pub width : ℕ

unfoldable pub range_from : ℕ → ℕ → Bytes → List Position
unfolding decode_rune
range_from skip i [] = []
range_from (suc skip) i (b ∷ s) = range_from skip (i + 1) s
range_from zero i (b ∷ s) =
    record { index = i; rune = (decode_rune b s).0; width = (decode_rune b s).1 }
    ∷ range_from ((decode_rune b s).1 - 1) (i + 1) s

unfoldable pub range : Bytes → List Position
unfolding range_from
range s = range_from 0 0 s

-- `utf8.ValidString`: no byte is invalid.
abbrev pub is_valid : Position → Bool
is_valid p = not (p.rune == rune_error && p.width == 1)

unfoldable pub all_valid : List Position → Bool
all_valid [] = true
all_valid (p ∷ ps) = is_valid p && all_valid ps

unfoldable pub valid_string : Bytes → Bool
unfolding all_valid range
valid_string s = all_valid (range s)

-- What a rune that is not invalid has for its width, and one of width 1 for its value.
pub decode_rune_width :
    (b : ℕ) (s : Bytes)
    → ((decode_rune b s).0 == rune_error && (decode_rune b s).1 == 1) ≡ false
    → rune_len (decode_rune b s).0 ≡ (decode_rune b s).1
unfolding decode_rune rune_len
decode_rune_width b [] h = ground arith
decode_rune_width b (c ∷ []) h = ground arith
decode_rune_width b (c ∷ d ∷ []) h = ground arith
decode_rune_width b (c ∷ d ∷ e ∷ s) h = ground arith

-- A rune takes at least one byte and no more than there are.
pub decode_rune_bounds :
    (b : ℕ) (s : Bytes) → (1 ≤ (decode_rune b s).1) × ((decode_rune b s).1 ≤ suc (length s))
unfolding decode_rune
decode_rune_bounds b [] = ground arith
decode_rune_bounds b (c ∷ []) = ground arith
decode_rune_bounds b (c ∷ d ∷ []) = ground arith
decode_rune_bounds b (c ∷ d ∷ e ∷ s) = ground arith

-- Only an ASCII byte has an ASCII rune, and it is that byte.
pub decode_rune_ascii :
    (b : ℕ) (s : Bytes)
    → (decode_rune b s).0 < 0x80
    → ((decode_rune b s).0 ≡ b) × ((decode_rune b s).1 ≡ 1)
unfolding decode_rune
decode_rune_ascii b [] h = ground arith
decode_rune_ascii b (c ∷ []) h = ground arith
decode_rune_ascii b (c ∷ d ∷ []) h = ground arith
decode_rune_ascii b (c ∷ d ∷ e ∷ s) h = ground arith
