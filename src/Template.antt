-- ===== src/Template.antt =====
-- pkg/mapper/fsm/formatter.go: names and label values with references to captures. The regular
-- expression `\$\{?([a-zA-Z0-9_\$]+)\}?`, `strings.Replace`, `strconv.Atoi` and `fmt.Sprintf` are
-- written out for what the code passes to them.
pub mod Parts
mod Tests
use statsd_exporter.Base.{
  ℕ, zero, suc, ◌+◌, ◌-◌, ◌*◌, ◌^◌, Bool, true, false, not, ◌&&◌, ◌||◌, Option, none, some, List,
  [], ◌∷◌, ◌++◌, Bytes, codes, ltb, leb, ◌==◌, has_prefix, if◌then◌else◌, length, get_elem?,
}
use statsd_exporter.Utf8.{between}

-- The class of the regular expression.
abbrev pub is_reference_char : ℕ → Bool
is_reference_char c =
    between b'a' b'z' c || between b'A' b'Z' c || between b'0' b'9' c || c == b'_' || c == b'$'

-- The longest beginning in the class.
abbrev pub reference_name : Bytes → Bytes
reference_name [] = []
reference_name (c ∷ s) = if is_reference_char c then c ∷ reference_name s else []

abbrev pub behind_name : Bytes → Bytes
behind_name [] = []
behind_name (c ∷ s) = if is_reference_char c then behind_name s else c ∷ s

abbrev pub optional : ℕ → Bytes → Bytes
optional c [] = []
optional c (b ∷ s) = if b == c then c ∷ [] else []

abbrev pub behind_optional : ℕ → Bytes → Bytes
behind_optional c [] = []
behind_optional c (b ∷ s) = if b == c then s else b ∷ s

abbrev pub named_match : Bytes → Bytes → Bytes → Option (Bytes × Bytes)
named_match opening [] rest = none
named_match opening (c ∷ name) rest = some (opening ++ ((c ∷ name) ++ optional b'}' rest), c ∷ name)

-- The match behind a `$`: its text without the `$`, and the group.
unfoldable pub match_behind : Bytes → Option (Bytes × Bytes)
match_behind s =
    named_match (optional b'{' s) (reference_name (behind_optional b'{' s))
      (behind_name (behind_optional b'{' s))

-- `FindAllStringSubmatch`; the first argument counts the bytes of a match that are left.
unfoldable pub find_all_from : ℕ → Bytes → List (Bytes × Bytes)
unfolding match_behind
find_all_from skip [] = []
find_all_from (suc skip) (b ∷ s) = find_all_from skip s
find_all_from zero (b ∷ s) = elim (if b == b'$' then match_behind s else none) [
  | none ↦ find_all_from zero s
  | some (text, name) ↦ (b ∷ text, name) ∷ find_all_from (length text) s
]

-- `strings.Replace(s, old, new, -1)` for an `old` of one byte and more.
unfoldable pub replace_from : ℕ → ℕ → Bytes → Bytes → Bytes → Bytes
replace_from skip o old new [] = []
replace_from (suc skip) o old new (b ∷ s) = replace_from skip o old new s
replace_from zero o old new (b ∷ s) = elim (has_prefix (b ∷ s) (o ∷ old)) [
  | true ↦ new ++ replace_from (length old) o old new s
  | false ↦ b ∷ replace_from zero o old new s
]

abbrev pub replace_all : Bytes → Bytes → Bytes → Bytes
replace_all s [] new = s
replace_all s (o ∷ old) new = replace_from zero o old new s

abbrev pub max_int : ℕ
max_int = 2 ^ 63 - 1

abbrev pub decimal : ℕ → Bytes → Option ℕ
decimal n [] = some n
decimal n (c ∷ s) = if between b'0' b'9' c then decimal (n * 10 + (c - b'0')) s else none

abbrev pub in_int : Option ℕ → Option ℕ
in_int none = none
in_int (some n) = if leb n max_int then some n else none

-- `strconv.Atoi` for a text without a sign; `none` is the error.
unfoldable pub atoi : Bytes → Option ℕ
atoi [] = none
atoi (c ∷ s) = in_int (decimal 0 (c ∷ s))

pub record TemplateFormatter : Type 0 where
  pub capture_indexes : List ℕ
  pub capture_count : ℕ
  pub fmt_string : Bytes

-- The index of a reference, if it is a number from 1 to the count of captures.
abbrev pub index_of : ℕ → Option ℕ → Option ℕ
index_of capture_count none = none
index_of capture_count (some idx) =
    if ltb capture_count idx || ltb idx 1 then none else some (idx - 1)

abbrev pub replacement : Option ℕ → Bytes
replacement none = []
replacement (some idx) = codes "%s"

abbrev pub add_index : Option ℕ → List ℕ → List ℕ
add_index none indexes = indexes
add_index (some idx) indexes = indexes ++ idx ∷ []

-- The loop over the matches.
unfoldable pub formatter_loop : ℕ → List (Bytes × Bytes) → List ℕ → Bytes → List ℕ × Bytes
unfolding atoi replace_from
formatter_loop capture_count [] indexes value_formatter = (indexes, value_formatter)
formatter_loop capture_count ((text, name) ∷ matches) indexes value_formatter =
    formatter_loop capture_count matches (add_index (index_of capture_count (atoi name)) indexes)
      (replace_all value_formatter text (replacement (index_of capture_count (atoi name))))

abbrev pub formatter_of : List ℕ × Bytes → TemplateFormatter
formatter_of (indexes, value_formatter) = record {
  capture_indexes = indexes;
  capture_count = length indexes;
  fmt_string = value_formatter;
}

abbrev pub formatter_from : Bytes → ℕ → List (Bytes × Bytes) → TemplateFormatter
formatter_from template capture_count [] = record {
  capture_indexes = [];
  capture_count = 0;
  fmt_string = template;
}
formatter_from template capture_count (m ∷ matches) =
    formatter_of (formatter_loop capture_count (m ∷ matches) [] template)

-- `NewTemplateFormatter`.
unfoldable pub new_template_formatter : Bytes → ℕ → TemplateFormatter
unfolding formatter_loop find_all_from
new_template_formatter template capture_count =
    formatter_from template capture_count (find_all_from zero template)

-- What formatting yields; `other_verb` is the output of a verb that is neither `%s` nor `%%`.
pub data Formatted : Type 0 where
  text : Bytes → Formatted
  panicked other_verb : Formatted

abbrev pub and_then : Bytes → Formatted → Formatted
and_then s (text t) = text (s ++ t)
and_then s panicked = panicked
and_then s other_verb = other_verb

abbrev pub more_extra : List Bytes → Bytes
more_extra [] = codes ")"
more_extra (a ∷ vargs) = codes ", string=" ++ (a ++ more_extra vargs)

abbrev pub extra : List Bytes → Bytes
extra [] = []
extra (a ∷ vargs) = codes "%!(EXTRA string=" ++ (a ++ more_extra vargs)

-- `fmt.Sprintf` on strings.
unfoldable pub sprintf : Bytes → List Bytes → Formatted
sprintf [] vargs = text (extra vargs)
sprintf (c ∷ []) vargs =
    if c == b'%' then text (codes "%!(NOVERB)" ++ extra vargs) else text (c ∷ extra vargs)
sprintf (c ∷ d ∷ s) vargs = elim (c == b'%') [
  | false ↦ and_then (c ∷ []) (sprintf (d ∷ s) vargs)
  | true ↦ elim (d == b's') [
    | true ↦ elim vargs [
      | [] ↦ and_then (codes "%!s(MISSING)") (sprintf s [])
      | a ∷ more ↦ and_then a (sprintf s more)
    ]
    | false ↦ elim (d == b'%') [
      | true ↦ and_then (b'%' ∷ []) (sprintf s vargs)
      | false ↦ other_verb
    ]
  ]
]

-- `captures[idx]` for each index; `none` is a panic.
unfoldable pub arguments : List ℕ → List Bytes → Option (List Bytes)
arguments [] captures = some []
arguments (idx ∷ indexes) captures = elim (get_elem? captures idx) [
  | none ↦ none
  | some a ↦ elim (arguments indexes captures) [ none ↦ none | some vargs ↦ some (a ∷ vargs) ]
]

abbrev pub formatted : Bytes → Option (List Bytes) → Formatted
formatted fmt_string none = panicked
formatted fmt_string (some vargs) = sprintf fmt_string vargs

-- `TemplateFormatter.Format`.
unfoldable pub format : TemplateFormatter → List Bytes → Formatted
unfolding sprintf arguments
format formatter captures =
    if formatter.capture_count == 0
    then text formatter.fmt_string
    else formatted formatter.fmt_string (arguments formatter.capture_indexes captures)
