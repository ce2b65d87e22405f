-- ===== src/Tags.antt =====
-- The tags of a line: `Parser`, `parseTag`, `parseNameTags`, `trimLeftHash`, `ParseDogStatsDTags` and
-- `parseNameAndTags` of pkg/line/line.go. `none` is a panic.
use statsd_exporter.Base.{
  ℕ, ◌+◌, Bool, true, false, ◌&&◌, ◌||◌, Option, none, some, List, [], ◌∷◌, ◌++◌, Bytes, ltb, ◌==◌,
  if◌then◌else◌, length, take, drop, Dict, insert, Bytes_eq,
}
use statsd_exporter.Utf8.{Position, range}
use statsd_exporter.Escape.{slice, escape_metric_name}

pub record Parser : Type 0 where
  pub dogstatsd_tags_enabled : Bool
  pub influxdb_tags_enabled : Bool
  pub librato_tags_enabled : Bool
  pub signalfx_tags_enabled : Bool

abbrev pub new_parser : Parser
new_parser = record {
  dogstatsd_tags_enabled = false;
  influxdb_tags_enabled = false;
  librato_tags_enabled = false;
  signalfx_tags_enabled = false;
}

abbrev pub enable_dogstatsd_parsing : Parser → Parser
enable_dogstatsd_parsing p = record p { dogstatsd_tags_enabled = true }

abbrev pub enable_influxdb_parsing : Parser → Parser
enable_influxdb_parsing p = record p { influxdb_tags_enabled = true }

abbrev pub enable_librato_parsing : Parser → Parser
enable_librato_parsing p = record p { librato_tags_enabled = true }

abbrev pub enable_signalfx_parsing : Parser → Parser
enable_signalfx_parsing p = record p { signalfx_tags_enabled = true }

-- What parsing tags changes: the map `labels` of the line, and the counter `tagErrors`.
pub record TagState : Type 0 where
  pub labels : Dict Bytes Bytes
  pub tag_errors : ℕ

abbrev pub tag_error : TagState → TagState
tag_error t = record t { tag_errors = t.tag_errors + 1 }

abbrev pub is_empty : Bytes → Bool
is_empty [] = true
is_empty (c ∷ s) = false

-- The index of the first rune that is `c`, in a loop over a string.
abbrev pub find_rune : ℕ → List Position → Option ℕ
find_rune c [] = none
find_rune c (p ∷ ps) = if p.rune == c then some p.index else find_rune c ps

-- `labels[key] = v`, where escaping the key may panic.
abbrev pub set_label : Option Bytes → Bytes → TagState → Option TagState
set_label none v t = none
set_label (some key) v t = some (record t { labels = insert key v t.labels })

-- The part of `parseTag` behind a separator, at an index.
unfoldable pub parse_tag_at : Bytes → Option ℕ → TagState → Option TagState
unfolding insert
parse_tag_at tag none t = some (tag_error t)
parse_tag_at tag (some i) t =
    if is_empty (take i tag) || is_empty (drop (i + 1) tag)
    then some (tag_error t)
    else set_label (escape_metric_name (take i tag)) (drop (i + 1) tag) t

unfoldable pub parse_tag : Bytes → ℕ → TagState → Option TagState
unfolding parse_tag_at range
parse_tag tag separator t =
    if is_empty tag
    then some (tag_error t)
    else parse_tag_at tag (find_rune separator (range tag)) t

unfoldable pub trim_left_hash : Bytes → Bytes
trim_left_hash [] = []
trim_left_hash (c ∷ s) = if c == b'#' then s else c ∷ s

-- One tag of a list: a slice of it, trimmed.
abbrev pub parse_slice : (Bytes → Bytes) → ℕ → Option Bytes → Option TagState → Option TagState
parse_slice trim separator none t = none
parse_slice trim separator (some tag) none = none
parse_slice trim separator (some tag) (some t) = parse_tag (trim tag) separator t

-- The loop over a list of tags that `parseNameTags` and `ParseDogStatsDTags` share, with what stands
-- behind it; `last` is `lastTagEndIndex`.
unfoldable pub tags_loop :
    (Bytes → Bytes) → ℕ → Bytes → List Position → ℕ → Option TagState → Option TagState
unfolding slice parse_tag
tags_loop trim separator component [] last t =
    if ltb last (length component)
    then parse_slice trim separator (some (drop last component)) t
    else t
tags_loop trim separator component (p ∷ ps) last t =
    if p.rune == b','
    then tags_loop trim separator component ps (p.index + 1)
        (parse_slice trim separator (slice component last p.index) t)
    else tags_loop trim separator component ps last t

unfoldable pub parse_name_tags : Bytes → TagState → Option TagState
unfolding tags_loop range
parse_name_tags component t = tags_loop (λ tag. tag) b'=' component (range component) 0 (some t)

unfoldable pub parse_dogstatsd_tags : Parser → Bytes → TagState → Option TagState
unfolding tags_loop trim_left_hash range
parse_dogstatsd_tags p component t =
    if p.dogstatsd_tags_enabled
    then tags_loop trim_left_hash b':' component (range component) 0 (some t)
    else some t

-- `strings.IndexRune` for an ASCII rune: the first byte that is `c`.
abbrev pub index_byte : ℕ → Bytes → Option ℕ
index_byte c [] = none
index_byte c (b ∷ s) =
    if b == c then some 0 else (elim (index_byte c s) [ none ↦ none | some i ↦ some (i + 1) ])

abbrev pub with_name : Bytes → Option TagState → Option (Bytes × TagState)
with_name name none = none
with_name name (some t) = some (name, t)

-- The loop of `parseNameAndTags` that looks for the tags of Librato and InfluxDB.
unfoldable pub suffix_tags : Parser → Bytes → List Position → TagState → Option (Bytes × TagState)
unfolding parse_name_tags
suffix_tags p name [] t = some (name, t)
suffix_tags p name (q ∷ qs) t =
    if q.rune == b'#' && p.librato_tags_enabled || q.rune == b',' && p.influxdb_tags_enabled
    then with_name (take q.index name) (parse_name_tags (drop (q.index + 1) name) t)
    else suffix_tags p name qs t

abbrev pub bracket_tags : Option Bytes → TagState → Option TagState
bracket_tags none t = none
bracket_tags (some tags) t = parse_name_tags tags t

-- `parseNameAndTags`, with the indices of the brackets. The slice of the tags panics if the first
-- `]` stands before the first `[`.
abbrev pub name_and_tags :
    Parser → Bytes → Option ℕ → Option ℕ → TagState → Option (Bytes × TagState)
name_and_tags p name (some i) (some j) t =
    with_name (take i name ++ drop (j + 1) name) (bracket_tags (slice name (i + 1) j) t)
name_and_tags p name (some i) none t = some (name, tag_error t)
name_and_tags p name none (some j) t = some (name, tag_error t)
name_and_tags p name none none t = suffix_tags p name (range name) t

unfoldable pub parse_name_and_tags : Parser → Bytes → TagState → Option (Bytes × TagState)
unfolding suffix_tags parse_name_tags slice range
parse_name_and_tags p name t =
    if p.signalfx_tags_enabled
    then name_and_tags p name (index_byte b'[' name) (index_byte b']' name) t
    else suffix_tags p name (range name) t
