-- ===== src/Registry/Hashing.antt =====
-- `HashLabels` of pkg/registry/registry.go: the bytes that are hashed for the names and the values of
-- labels. The hash is a parameter.
pub mod Separates
use statsd_exporter.Base.{
  ℕ, Bool, true, false, List, [], ◌∷◌, ◌++◌, map, Bytes, ltb, ◌==◌, if◌then◌else◌, Option, none,
  some, Dict, lookup, Bytes_eq,
}
use statsd_exporter.Registry.{LabelHash, Labels}

-- `model.SeparatorByte`.
abbrev pub separator_byte : ℕ
separator_byte = 255

-- `a <= b` on strings.
abbrev pub bytes_leb : Bytes → Bytes → Bool
bytes_leb [] b = true
bytes_leb (x ∷ a) [] = false
bytes_leb (x ∷ a) (y ∷ b) = if x == y then bytes_leb a b else ltb x y

abbrev pub put_sorted : Bytes → List Bytes → List Bytes
put_sorted name [] = name ∷ []
put_sorted name (n ∷ names) =
    if bytes_leb name n then name ∷ n ∷ names else n ∷ put_sorted name names

-- `sort.Strings`.
unfoldable pub sort_strings : List Bytes → List Bytes
sort_strings [] = []
sort_strings (n ∷ names) = put_sorted n (sort_strings names)

-- `labels[labelName]`.
abbrev pub value_or_empty : Option Bytes → Bytes
value_or_empty none = []
value_or_empty (some v) = v

-- `NameBuf` and `ValueBuf` behind the loop over the sorted names.
unfoldable pub name_buf : List Bytes → Bytes
name_buf [] = []
name_buf (n ∷ names) = n ++ separator_byte ∷ name_buf names

unfoldable pub value_loop : Labels → List Bytes → Bytes
unfolding lookup
value_loop labels [] = []
value_loop labels (n ∷ names) =
    value_or_empty (lookup n labels) ++ separator_byte ∷ value_loop labels names

unfoldable pub value_buf : Labels → List Bytes → Bytes
unfolding value_loop
value_buf labels names = separator_byte ∷ value_loop labels names

abbrev pub label_names : Labels → List Bytes
label_names labels = sort_strings (map (λ l. l.0) labels)

-- What is written to the hasher for the values: the names' bytes come first.
unfoldable pub hashed_values : Labels → Bytes
unfolding name_buf value_buf sort_strings
hashed_values labels = name_buf (label_names labels) ++ value_buf labels (label_names labels)

module _ (sum64 : Bytes → ℕ) where
  -- `HashLabels`.
  unfoldable pub hash_labels : Labels → LabelHash × List Bytes
  unfolding hashed_values
  hash_labels labels = (
    record { names = sum64 (name_buf (label_names labels)); values = sum64 (hashed_values labels) },
    label_names labels,
  )
