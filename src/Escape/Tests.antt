-- ===== src/Escape/Tests.antt =====
-- Runs of pkg/mapper/escape.go, and the theorems at work on them.
use statsd_exporter.Base.{◌≡◌, refl, true, [], ◌∷◌, ◌++◌, some, none, Bytes, All, false, codes}
use statsd_exporter.Utf8.{valid_string}
use statsd_exporter.Escape.Clean.{cleaned}
use statsd_exporter.Escape.Loop.{escape_metric_name-cleaned}
use statsd_exporter.Escape.Result.{IsNameChar, escape_metric_name-IsNameChar}
use statsd_exporter.Escape.{starts_with_digit, escape_metric_name}

-- "1a--b.é-"
abbrev odd_name : Bytes
odd_name = codes "1a--b." ++ 0xC3 ∷ 0xA9 ∷ b'-' ∷ []

abbrev odd_result : Bytes
odd_result = codes "_1a_b___"

odd_run : escape_metric_name odd_name ≡ some odd_result
unfolding escape_metric_name
odd_run = refl

-- Two bytes that are no UTF-8: `RuneLen` is 3 where the loop advances by 1, and the slice panics.
panic_run : escape_metric_name (0xFF ∷ 0xFF ∷ []) ≡ none
unfolding escape_metric_name
panic_run = refl

odd_cleaned : cleaned odd_name ≡ odd_result
unfolding statsd_exporter.Utf8.range statsd_exporter.Escape.is_name_char
odd_cleaned = refl

odd_valid : valid_string odd_name ≡ true
unfolding valid_string
odd_valid = refl

escape_metric_name-cleaned_example : escape_metric_name odd_name ≡ some (cleaned odd_name)
escape_metric_name-cleaned_example = escape_metric_name-cleaned odd_name odd_valid

escape_metric_name-IsNameChar_example :
    (result : Bytes) × (escape_metric_name odd_name ≡ some result)
    × All IsNameChar result
    × (starts_with_digit result ≡ false)
escape_metric_name-IsNameChar_example = escape_metric_name-IsNameChar odd_name odd_valid
