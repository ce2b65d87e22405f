-- ===== src/Exporter/LabelsOf.antt =====
-- The labels of an event behind `handleEvent` of pkg/exporter/exporter.go.
use statsd_exporter.Base.{
  ◌≡◌, refl, subst, ◌∙◌, Bool, true, false, ◌&&◌, Bool-cases, inl, inr, Option, none, some, [], ◌∷◌,
  Bytes, bytes_eq, bytes_eq_iff, if◌then◌else◌, lookup, insert, lookup-insert, beq_refl, Bytes_eq,
  arith,
}
use statsd_exporter.Registry.Stale.{IsMap}
use statsd_exporter.Exporter.{Labels, is_there, merge_labels}

-- The first value that is there.
abbrev pub or_else : Option Bytes → Option Bytes → Option Bytes
or_else none o = o
or_else (some v) o = some v

lookup-cons :
    (label v key : Bytes) (more : Labels)
    → lookup key ((label, v) ∷ more) ≡ (if bytes_eq label key then some v else lookup key more)
unfolding lookup
lookup-cons label v key more = refl

honored :
    (label v key : Bytes) (more ls : Labels)
    → or_else
        (lookup key (if true && is_there (lookup label ls) then ls else insert label v ls))
        (lookup key more)
      ≡ or_else (lookup key ls) (lookup key ((label, v) ∷ more))
honored label v key more ls = elim (Bool-cases (bytes_eq label key)) [
  | inl e ↦
      subst
        (λ z.
          or_else (lookup z (if true && is_there (lookup label ls) then ls else insert label v ls))
            (lookup z more)
          ≡ or_else (lookup z ls) (lookup z ((label, v) ∷ more)))
        ((bytes_eq_iff label key).0 e)
        (ground
          (arith, lookup-cons label v label more, lookup-insert label label v ls, beq_refl label))
  | inr e ↦ ground (arith, lookup-cons label v key more, lookup-insert label key v ls)
]

-- Where the mapping's label is written over the event's, the event's other labels stay.
overridden :
    (label v key : Bytes) (more ls : Labels)
    → lookup label more ≡ none
    → or_else (lookup key more) (lookup key (insert label v ls))
      ≡ or_else (lookup key ((label, v) ∷ more)) (lookup key ls)
overridden label v key more ls h = elim (Bool-cases (bytes_eq label key)) [
  | inl e ↦
      subst
        (λ z.
          or_else (lookup z more) (lookup z (insert label v ls))
          ≡ or_else (lookup z ((label, v) ∷ more)) (lookup z ls))
        ((bytes_eq_iff label key).0 e)
        (ground
          (arith, lookup-cons label v label more, lookup-insert label label v ls, beq_refl label))
  | inr e ↦ ground (arith, lookup-cons label v key more, lookup-insert label key v ls)
]

-- With honor_labels the event's own labels stay and the mapping's others are added; without it the
-- mapping's labels replace those of the event. The mapping has no label twice.
pub lookup-merge_labels :
    (honor : Bool) (more ls : Labels) (key : Bytes)
    → IsMap more
    → lookup key (merge_labels honor more ls) ≡ (
        if honor
        then or_else (lookup key ls) (lookup key more)
        else or_else (lookup key more) (lookup key ls))
unfolding merge_labels
lookup-merge_labels true [] ls key u = none_added (lookup key ls)
  where
    none_added : (o : Option Bytes) → o ≡ or_else o none
    none_added none = refl
    none_added (some v) = refl
lookup-merge_labels false [] ls key u = refl
lookup-merge_labels true ((label, v) ∷ more) ls key (h, u) =
    lookup-merge_labels true more _ key u ∙ honored label v key more ls
lookup-merge_labels false ((label, v) ∷ more) ls key (h, u) =
    lookup-merge_labels false more _ key u ∙ overridden label v key more ls h
