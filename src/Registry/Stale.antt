-- ===== src/Registry/Stale.antt =====
-- `RemoveStaleMetrics` of pkg/registry/registry.go.
use statsd_exporter.Base.{
  ℕ, ◌≡◌, refl, sym, ap, ◌∙◌, subst, true, false, Bool-cases, inl, inr, Option, none, some, List,
  [], ◌∷◌, ◌++◌, append_assoc, append-nil, map, map-append, if◌then◌else◌, Dict, lookup, insert,
  delete, lookup-insert, beq_refl, Eq, ℕ_eq, Bytes_eq, arith, All, All-append, ◌==◌, ◌+◌, ◌-◌, ◌%◌,
  ◌^◌,
}
use statsd_exporter.Registry.{
  Labels, Vector, RegisteredMetric, Metric, is_stale, remove_metric, remove_loop,
}

module _ {ℓ κ} {K : Type ℓ} {V : Type κ} ⦃e : Eq K⦄ where
  -- No key occurs twice.
  abbrev pub IsMap : Dict K V → Type κ
  IsMap [] = Unit
  IsMap ((k, v) ∷ m) = (lookup k m ≡ none) × IsMap m

  delete_absent : (k : K) (m : Dict K V) → lookup k m ≡ none → delete k m ≡ m
  unfolding lookup delete
  delete_absent k [] h = refl
  delete_absent k ((j, v) ∷ m) h = ground (arith, delete_absent k m)

  keys_apart :
      (j k : K) (v : V) (a b : Dict K V) → lookup j (a ++ (k, v) ∷ b) ≡ none → e.beq j k ≡ false
  unfolding lookup
  keys_apart j k v [] b h = ground (arith, e.beq_iff k j, e.beq_iff j k)
  keys_apart j k v ((i, u) ∷ a) b h = keys_apart j k v a b (ground arith)

  -- Deleting the key of an entry of a map leaves what stands around it.
  delete-append :
      (a b : Dict K V) (k : K) (v : V)
      → IsMap (a ++ (k, v) ∷ b)
      → delete k (a ++ (k, v) ∷ b) ≡ a ++ b
  unfolding delete
  delete-append [] b k v (h, u) = rw (beq_refl k) (delete_absent k b h)
  delete-append ((j, w) ∷ a) b k v (h, u) =
      rw (keys_apart j k v a b h) (ap (λ z. (j, w) ∷ z) (delete-append a b k v u))

  lookup-append_entry :
      (j : K) (a b : Dict K V) (k : K) (v : V)
      → lookup j (a ++ (k, v) ∷ b) ≡ none
      → lookup j (a ++ b) ≡ none
  unfolding lookup
  lookup-append_entry j [] b k v h = ground arith
  lookup-append_entry j ((i, u) ∷ a) b k v h = ground (arith, lookup-append_entry j a b k v)

  IsMap-append : (a b : Dict K V) (k : K) (v : V) → IsMap (a ++ (k, v) ∷ b) → IsMap (a ++ b)
  IsMap-append [] b k v (h, u) = u
  IsMap-append ((j, w) ∷ a) b k v (h, u) = (lookup-append_entry j a b k v h, IsMap-append a b k v u)

module _ {MH : Type 0} where
  -- The metrics that are not stale, and the labels of those that are.
  abbrev pub live : ℕ → Dict ℕ (RegisteredMetric MH) → Dict ℕ (RegisteredMetric MH)
  live now [] = []
  live now ((h, rm) ∷ ms) = if is_stale now rm then live now ms else (h, rm) ∷ live now ms

  abbrev pub stale_labels : ℕ → Dict ℕ (RegisteredMetric MH) → List Labels
  stale_labels now [] = []
  stale_labels now ((h, rm) ∷ ms) =
      if is_stale now rm then rm.labels ∷ stale_labels now ms else stale_labels now ms

module _ {VH : Type 0} where
  abbrev pub gone_labels : List (VH × Labels) → List Labels
  gone_labels gone = map (λ g. g.1) gone

module _ {VH MH : Type 0} where
  -- The vector that a metric counts in is there.
  abbrev pub HasVector : Dict ℕ (Vector VH) → ℕ × RegisteredMetric MH → Type 0
  HasVector vectors (h, rm) = (v : Vector VH) × (lookup rm.vec_key vectors ≡ some v)

  -- What the loop over the metrics of a name arrives at.
  pub record Removed (now : ℕ) (kept entries : Dict ℕ (RegisteredMetric MH)) (m : Metric VH MH)
      (gone : List (VH × Labels)) (start : Option (Metric VH MH × List (VH × Labels)))
      : Type 0 where
    pub after : Metric VH MH
    pub deleted : List (VH × Labels)
    pub returns : start ≡ some (after, deleted)
    pub keeps_type : after.metric_type ≡ m.metric_type
    pub keeps_live : after.metrics ≡ kept ++ live now entries
    pub counted : All (HasVector after.vectors) after.metrics
    pub deletes_stale : gone_labels deleted ≡ gone_labels gone ++ stale_labels now entries

  pub HasVector-insert :
      (vectors : Dict ℕ (Vector VH)) (k : ℕ) (v : Vector VH) (entry : ℕ × RegisteredMetric MH)
      → HasVector vectors entry
      → HasVector (insert k v vectors) entry
  HasVector-insert vectors k v (h, rm) (w, found) = elim (Bool-cases (k == rm.vec_key)) [
    | inl e ↦ (v, lookup-insert k rm.vec_key v vectors ∙ rw e refl)
    | inr e ↦ (w, lookup-insert k rm.vec_key v vectors ∙ rw e found)
  ]

  pub All-HasVector-insert :
      (vectors : Dict ℕ (Vector VH)) (k : ℕ) (v : Vector VH)
      (entries : Dict ℕ (RegisteredMetric MH))
      → All (HasVector vectors) entries
      → All (HasVector (insert k v vectors)) entries
  All-HasVector-insert vectors k v [] h = tt
  All-HasVector-insert vectors k v (x ∷ entries) (h, hs) =
      (HasVector-insert vectors k v x h, All-HasVector-insert vectors k v entries hs)

  -- The metric without a stale one, counted down in its vector.
  abbrev without : ℕ → RegisteredMetric MH → Vector VH → Metric VH MH → Metric VH MH
  without h rm v m = record m {
    vectors =
        insert rm.vec_key (record v { ref_count = (v.ref_count + (2 ^ 64 - 1)) % 2 ^ 64 })
          m.vectors;
    metrics = delete h m.metrics;
  }

  remove_loop-stale :
      (now h : ℕ) (rm : RegisteredMetric MH) (entries : Dict ℕ (RegisteredMetric MH))
      (m : Metric VH MH) (gone : List (VH × Labels)) (v : Vector VH)
      → is_stale now rm ≡ true
      → lookup rm.vec_key m.vectors ≡ some v
      → remove_loop now ((h, rm) ∷ entries) (some (m, gone))
        ≡ remove_loop now entries (some (without h rm v m, gone ++ (v.holder, rm.labels) ∷ []))
  remove_loop-stale now h rm entries m gone v old found =
      unfold remove_loop in
      ap
        (λ b. remove_loop now entries (
          if b then remove_metric h rm (lookup rm.vec_key m.vectors) (m, gone) else some (m, gone)))
        old
      ∙ ap (λ o. remove_loop now entries (remove_metric h rm o (m, gone))) found

  remove_loop-live :
      (now h : ℕ) (rm : RegisteredMetric MH) (entries : Dict ℕ (RegisteredMetric MH))
      (m : Metric VH MH) (gone : List (VH × Labels))
      → is_stale now rm ≡ false
      → remove_loop now ((h, rm) ∷ entries) (some (m, gone))
        ≡ remove_loop now entries (some (m, gone))
  remove_loop-live now h rm entries m gone fresh =
      unfold remove_loop in
      ap
        (λ b. remove_loop now entries (
          if b then remove_metric h rm (lookup rm.vec_key m.vectors) (m, gone) else some (m, gone)))
        fresh

  pub remove_loop-Removed :
      (now : ℕ) (kept entries : Dict ℕ (RegisteredMetric MH)) (m : Metric VH MH)
      (gone : List (VH × Labels))
      → m.metrics ≡ kept ++ entries
      → IsMap (kept ++ entries)
      → All (HasVector m.vectors) kept
      → All (HasVector m.vectors) entries
      → Removed now kept entries m gone (remove_loop now entries (some (m, gone)))
  unfolding remove_loop
  remove_loop-Removed now kept [] m gone e unique hk he = record {
    after = m;
    deleted = gone;
    returns = refl;
    keeps_type = refl;
    keeps_live = e;
    counted = subst (All (HasVector m.vectors)) (sym e ∙ refl) (rw (append-nil kept) hk);
    deletes_stale = sym (append-nil (gone_labels gone));
  }
  remove_loop-Removed now kept ((h, rm) ∷ entries) m gone e unique hk ((v, found), he) =
      elim (Bool-cases (is_stale now rm)) [
        | inl old ↦
            let s =
              remove_loop-Removed now kept entries (without h rm v m)
                (gone ++ (v.holder, rm.labels) ∷ [])
                (ap (delete h) e ∙ delete-append kept entries h rm unique)
                (IsMap-append kept entries h rm unique)
                (All-HasVector-insert m.vectors rm.vec_key _ kept hk)
                (All-HasVector-insert m.vectors rm.vec_key _ entries he) in
            record {
              after = s.after;
              deleted = s.deleted;
              returns = remove_loop-stale now h rm entries m gone v old found ∙ s.returns;
              keeps_type = s.keeps_type;
              keeps_live = rw old s.keeps_live;
              counted = s.counted;
              deletes_stale = rw old (
                  s.deletes_stale
                  ∙ ap (λ z. z ++ stale_labels now entries)
                      (map-append (λ g. g.1) gone ((v.holder, rm.labels) ∷ []))
                  ∙ append_assoc (gone_labels gone) (rm.labels ∷ []) (stale_labels now entries));
            }
        | inr fresh ↦
            let around = append_assoc kept ((h, rm) ∷ []) entries in
            let s =
              remove_loop-Removed now (kept ++ (h, rm) ∷ []) entries m gone (e ∙ sym around)
                (subst IsMap (sym around) unique)
                (All-append (HasVector m.vectors) kept ((h, rm) ∷ []) hk ((v, found), tt)) he in
            record {
              after = s.after;
              deleted = s.deleted;
              returns = remove_loop-live now h rm entries m gone fresh ∙ s.returns;
              keeps_type = s.keeps_type;
              keeps_live =
                  rw fresh (s.keeps_live ∙ append_assoc kept ((h, rm) ∷ []) (live now entries));
              counted = s.counted;
              deletes_stale = rw fresh s.deletes_stale;
            }
      ]
