-- ===== src/Fsm/Routes.antt =====
-- What a trie of pkg/mapper/fsm/fsm.go accepts, with no search order, no bound on lengths and no
-- stack: the independent description of `GetMapping`.
use statsd_exporter.Base.{Option, none, some, List, [], ◌∷◌, ◌++◌, Bytes, ltb, if◌then◌else◌}
use statsd_exporter.Fsm.{MappingState, transitions, result, result_priority, find, star}

-- A final state with the fields that the `*`s on the way took.
abbrev pub Hit : Type 0 → Type 0
Hit R = MappingState R × List Bytes

module _ {R : Type 0} where
  abbrev pub hit : MappingState R → List Bytes → Option R → List (Hit R)
  hit s caps none = []
  hit s caps (some _) = (s, caps) ∷ []

  abbrev pub follow : Option (MappingState R) → (MappingState R → List (Hit R)) → List (Hit R)
  follow none go = []
  follow (some s) go = go s

  -- All ways to take the fields from a state, by each field's own transition or by `*`, that end in
  -- a state with a result; those by the field's own transition first.
  unfoldable pub hits : List Bytes → MappingState R → List Bytes → List (Hit R)
  hits [] s caps = hit s caps (result s)
  hits (f ∷ rest) s caps =
      follow (find f (transitions s)) (λ t. hits rest t caps)
      ++ follow (find star (transitions s)) (λ t. hits rest t (caps ++ f ∷ []))

  -- The first of the hits with the least priority number, or the one found before.
  abbrev pub better : Hit R → Option (Hit R) → Option (Hit R)
  better h none = some h
  better h (some b) = if ltb (result_priority h.0) (result_priority b.0) then some h else some b

  abbrev pub best : Option (Hit R) → List (Hit R) → Option (Hit R)
  best b [] = b
  best b (h ∷ hs) = best (better h b) hs
