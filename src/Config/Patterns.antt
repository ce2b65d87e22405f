-- ===== src/Config/Patterns.antt =====
-- The regular expressions of pkg/mapper/mapper.go for matches, names and labels.
use statsd_exporter.Base.{
  ℕ, Bool, true, false, ◌&&◌, ◌||◌, List, [], ◌∷◌, Bytes, split, ◌==◌, if◌then◌else◌, bytes_eq,
  codes,
}
use statsd_exporter.Utf8.{between}

abbrev pub is_letter : ℕ → Bool
is_letter c = between b'a' b'z' c || between b'A' b'Z' c || c == b'_'

abbrev pub is_digit : ℕ → Bool
is_digit c = between b'0' b'9' c

abbrev pub all_chars : (ℕ → Bool) → Bytes → Bool
all_chars test [] = true
all_chars test (c ∷ s) = test c && all_chars test s

abbrev pub first_and_rest : (ℕ → Bool) → (ℕ → Bool) → Bytes → Bool
first_and_rest first rest [] = false
first_and_rest first rest (c ∷ s) = first c && all_chars rest s

abbrev pub is_match_char : ℕ → Bool
is_match_char c = is_letter c || is_digit c || c == b'-'

abbrev pub all_segments : List Bytes → Bool
all_segments [] = true
all_segments (s ∷ ss) =
    (bytes_eq s (codes "*") || first_and_rest (λ c. is_letter c || is_digit c) is_match_char s)
    && all_segments ss

abbrev pub is_metric_segments : List Bytes → Bool
is_metric_segments [] = false
is_metric_segments (s ∷ ss) =
    (bytes_eq s (codes "*") || first_and_rest is_letter is_match_char s) && all_segments ss

-- `metricLineRE`, segment by segment: none of them has a dot.
unfoldable pub is_metric_line : Bytes → Bool
is_metric_line s = is_metric_segments (split b'.' s)

-- Where `metricNameRE` is in a name: behind a `$`, behind its brace, or in its digits.
pub data NameState : Type 0 where
  at_start inside dollar brace digits : NameState

-- One byte of `metricNameRE`, and whether it fits.
unfoldable pub name_step : NameState → ℕ → Bool × NameState
name_step at_start c =
    if c == b'$' then (true, dollar) else if is_letter c then (true, inside) else (false, inside)
name_step inside c =
    if c == b'$'
    then (true, dollar)
    else if is_letter c || is_digit c
    then (true, inside)
    else (false, inside)
name_step dollar c =
    if c == b'{' then (true, brace) else if is_digit c then (true, digits) else (false, inside)
name_step brace c = if is_digit c then (true, digits) else (false, inside)
name_step digits c =
    if is_digit c
    then (true, digits)
    else if c == b'}'
    then (true, inside)
    else if c == b'$'
    then (true, dollar)
    else if is_letter c
    then (true, inside)
    else (false, inside)

abbrev pub may_end : NameState → Bool
may_end inside = true
may_end digits = true
may_end _ = false

unfoldable pub name_from : NameState → Bytes → Bool
unfolding name_step
name_from st [] = may_end st
name_from st (c ∷ s) = (name_step st c).0 && name_from (name_step st c).1 s

-- `metricNameRE`.
unfoldable pub is_metric_name : Bytes → Bool
unfolding name_from
is_metric_name s = name_from at_start s

abbrev pub is_cons : Bytes → Bool
is_cons [] = false
is_cons (c ∷ s) = true

-- `labelNameRE`: two bytes at least.
unfoldable pub is_label_name : Bytes → Bool
is_label_name [] = false
is_label_name (c ∷ s) = is_letter c && is_cons s && all_chars (λ c. is_letter c || is_digit c) s
