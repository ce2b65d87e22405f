-- ===== src/Escape.antt =====
-- pkg/mapper/escape.go: `EscapeMetricName`.
pub mod Clean
pub mod Loop
pub mod Result
mod Tests
use statsd_exporter.Base.{
  ℕ, zero, suc, ◌+◌, ◌-◌, Bool, true, false, not, ◌&&◌, ◌||◌, Option, none, some, List, [], ◌∷◌,
  ◌++◌, Bytes, ltb, leb, ◌==◌, if◌then◌else◌, length, take, drop,
}
use statsd_exporter.Utf8.{Position, rune_len, range, between}

abbrev pub is_digit : ℕ → Bool
is_digit c = between b'0' b'9' c

-- a-z, A-Z, 0-9 and _.
unfoldable pub is_name_char : ℕ → Bool
is_name_char c = between b'a' b'z' c || between b'A' b'Z' c || between b'0' b'9' c || c == b'_'

-- `s[lo:hi]`, which panics unless `lo <= hi <= len(s)`.
unfoldable pub slice : Bytes → ℕ → ℕ → Option Bytes
slice s lo hi = if leb lo hi && leb hi (length s) then some (take (hi - lo) (drop lo s)) else none

-- The variables of the loop. `out` is what `sb` holds.
pub record Builder : Type 0 where
  pub escaped : Bool
  pub out : Bytes
  pub offset : ℕ
  pub prev_char : ℕ

-- `sb.WriteString(metricName[offset:i])`, and the rest of that branch.
abbrev pub replace : Builder → Position → Option Bytes → Option Builder
replace s p none = none
replace s p (some skipped) = some (record {
  escaped = true;
  out = s.out ++ (skipped ++ b'_' ∷ []);
  offset = p.index + rune_len p.rune;
  prev_char = p.rune;
})

-- One round of the loop; `none` is a panic.
unfoldable pub escape_step : Bytes → Builder → Position → Option Builder
unfolding is_name_char slice rune_len
escape_step name s p =
    if is_name_char p.rune
    then some (record s { prev_char = p.rune })
    else if p.rune == b'-' && s.prev_char == b'-'
    then some (record s { offset = p.index + rune_len p.rune })
    else replace s p (slice name s.offset p.index)

unfoldable pub escape_loop : Bytes → List Position → Option Builder → Option Builder
unfolding escape_step
escape_loop name ps none = none
escape_loop name [] (some s) = some s
escape_loop name (p ∷ ps) (some s) = escape_loop name ps (escape_step name s p)

-- What stands behind the loop.
unfoldable pub finish : Bytes → Option Builder → Option Bytes
finish name none = none
finish name (some s) =
    if not s.escaped
    then some name
    else if ltb s.offset (length name)
    then some (s.out ++ drop s.offset name)
    else some s.out

abbrev pub starts_with_digit : Bytes → Bool
starts_with_digit [] = false
starts_with_digit (c ∷ s) = is_digit c

abbrev pub start : Bytes → Builder
start name = record {
  escaped = starts_with_digit name;
  out = if starts_with_digit name then b'_' ∷ [] else [];
  offset = 0;
  prev_char = 0;
}

-- `EscapeMetricName`; `none` is a panic.
unfoldable pub escape_metric_name : Bytes → Option Bytes
unfolding escape_loop finish range
escape_metric_name [] = some []
escape_metric_name (c ∷ s) =
    finish (c ∷ s) (escape_loop (c ∷ s) (range (c ∷ s)) (some (start (c ∷ s))))
