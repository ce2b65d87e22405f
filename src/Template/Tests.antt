-- ===== src/Template/Tests.antt =====
-- Runs of pkg/mapper/fsm/formatter.go.
use statsd_exporter.Base.{◌≡◌, refl, List, [], ◌∷◌, Bytes, codes, arith}
use statsd_exporter.Template.Parts.{Part, literal, reference}
use statsd_exporter.Template.Parts.Formats.{format-print}
use statsd_exporter.Template.{atoi, text, other_verb, new_template_formatter, format}

abbrev two_captures : List Bytes
two_captures = codes "x" ∷ codes "y" ∷ []

braces_run :
    format (new_template_formatter (codes "a_${2}_${1}_${2}_${3}") 2) two_captures
    ≡ text (codes "a_y_x_y_")
unfolding format new_template_formatter
braces_run = refl

-- Without braces the name of a reference takes the underscore and what follows.
underscore_run : format (new_template_formatter (codes "$1_$2") 2) two_captures ≡ text []
unfolding format new_template_formatter
underscore_run = refl

-- A percent sign of the template is read as a verb.
percent_run : format (new_template_formatter (codes "100%_$1") 1) two_captures ≡ other_verb
unfolding format new_template_formatter
percent_run = refl

abbrev ten_captures : List Bytes
ten_captures =
    codes "a"
    ∷ codes "b"
    ∷ codes "c"
    ∷ codes "d"
    ∷ codes "e"
    ∷ codes "f"
    ∷ codes "g"
    ∷ codes "h"
    ∷ codes "i"
    ∷ codes "j"
    ∷ []

-- `$1` is replaced in `$10` as well.
prefix_run : format (new_template_formatter (codes "$1.$10") 10) ten_captures ≡ text (codes "a.j0")
unfolding format new_template_formatter
prefix_run = refl

-- "a_${2}_${9}"
abbrev some_parts : List Part
some_parts =
    literal (codes "a_") ∷ reference (codes "2") ∷ literal (codes "_") ∷ reference (codes "9") ∷ []

format-print_example :
    format (new_template_formatter (codes "a_${2}_${9}") 2) two_captures ≡ text (codes "a_y_")
unfolding atoi
format-print_example =
    format-print 2 two_captures (omega arith) some_parts
      (refl, ((refl, refl), (refl, ((refl, refl), tt)))) (refl, (tt, (refl, (tt, tt))))
