-- ===== src/Escape/Result.antt =====
-- The result of `EscapeMetricName` (pkg/mapper/escape.go) is a name that Prometheus accepts.
use statsd_exporter.Base.{
  ℕ, ◌≡◌, refl, ap, ◌∙◌, true, false, ◌&&◌, Bool-cases, inl, inr, some, List, [], ◌∷◌, Bytes, ◌==◌,
  All, arith,
}
use statsd_exporter.Utf8.{Position, decode_rune, decode_rune_ascii, range, range_from, valid_string}
use statsd_exporter.Escape.Clean.{clean, cleaned}
use statsd_exporter.Escape.Loop.{name_char_bounds, escape_metric_name-cleaned}
use statsd_exporter.Escape.{is_name_char, starts_with_digit, escape_metric_name}

abbrev pub IsNameChar : ℕ → Type 0
IsNameChar c = is_name_char c ≡ true

underscore : is_name_char b'_' ≡ true
unfolding is_name_char
underscore = refl

clean-IsNameChar : (prev : ℕ) (ps : List Position) → All IsNameChar (clean prev ps)
clean-IsNameChar prev [] = tt
clean-IsNameChar prev (p ∷ ps) = elim (Bool-cases (is_name_char p.rune)) [
  | inl good ↦ rw good (good, clean-IsNameChar p.rune ps)
  | inr bad ↦ rw bad (elim (Bool-cases (p.rune == b'-' && prev == b'-')) [
    | inl dash ↦ rw dash (clean-IsNameChar prev ps)
    | inr other ↦ rw other (underscore, clean-IsNameChar p.rune ps)
  ])
]

-- The first rune of the name, if it stays, is the name's first byte.
clean-starts_with_digit :
    (c : ℕ) (s : Bytes)
    → starts_with_digit (c ∷ s) ≡ false
    → starts_with_digit (clean 0 (range (c ∷ s))) ≡ false
unfolding range range_from
clean-starts_with_digit c s h = elim (Bool-cases (is_name_char (decode_rune c s).0)) [
  | inl good ↦ rw good (ap (λ z. starts_with_digit (z ∷ [])) (kept good) ∙ h)
  | inr bad ↦ rw bad (ground arith)
]
  where
    kept : is_name_char (decode_rune c s).0 ≡ true → (decode_rune c s).0 ≡ c
    kept good = (decode_rune_ascii c s (name_char_bounds (decode_rune c s).0 good).0).0

cleaned-IsNameChar : (name : Bytes) → All IsNameChar (cleaned name)
cleaned-IsNameChar name = elim (Bool-cases (starts_with_digit name)) [
  | inl digit ↦ rw digit (underscore, clean-IsNameChar 0 (range name))
  | inr other ↦ rw other (clean-IsNameChar 0 (range name))
]

cleaned-starts_with_digit : (name : Bytes) → starts_with_digit (cleaned name) ≡ false
cleaned-starts_with_digit [] = unfold range_from in unfold range in refl
cleaned-starts_with_digit (c ∷ s) = elim (Bool-cases (starts_with_digit (c ∷ s))) [
  | inl digit ↦ rw digit refl
  | inr other ↦ rw other (clean-starts_with_digit c s other)
]

-- The result of `EscapeMetricName`, for a name that is valid UTF-8, consists of a-z, A-Z, 0-9 and _
-- only, and does not start with a digit.
pub escape_metric_name-IsNameChar :
    (name : Bytes)
    → valid_string name ≡ true
    → (result : Bytes) × (escape_metric_name name ≡ some result)
      × All IsNameChar result
      × (starts_with_digit result ≡ false)
escape_metric_name-IsNameChar name valid = (
  cleaned name,
  escape_metric_name-cleaned name valid,
  cleaned-IsNameChar name,
  cleaned-starts_with_digit name,
)
