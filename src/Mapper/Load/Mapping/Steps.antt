-- ===== src/Mapper/Load/Mapping/Steps.antt =====
-- The steps of the body of the loop over the mappings (pkg/mapper/mapper.go), each on its own.
use statsd_exporter.Base.{
  ℕ, ◌+◌, ◌≡◌, refl, sym, ap, ◌∙◌, Bool, true, false, not, ◌&&◌, ◌||◌, Bool-cases, inl, inr, Option,
  none, some, List, [], ◌∷◌, map, Bytes, bytes_eq, ◌==◌, split, arith,
}
use statsd_exporter.Settings.{ObserverType, default_observer, histogram_observer, summary_observer}
use statsd_exporter.Template.{new_template_formatter}
use statsd_exporter.Fsm.{
  Fsm, count_captures, Transitions, with_root, add_state, start_types, last_count, add_roots,
}
use statsd_exporter.Config.{MetricMapping, MapperConfigDefaults, slice_length}
use statsd_exporter.Config.Patterns.{is_metric_line}
use statsd_exporter.Mapper.{Regexps}
use statsd_exporter.Mapper.Load.{
  Result, ◌>>=◌, invalid_match, quantiles_twice, buckets_twice, histogram_with_summary_options,
  summary_with_histogram_options, Constants, is_there, or_default, or_slice, is_glob, compiled,
  or_no_histogram, or_no_summary, has_quantiles, has_buckets, check_legacy, warn_if, Machine,
  metric_types, complete_options, type_text, place_glob, place_regex, place_mapping,
}
use statsd_exporter.Mapper.Load.Rules.{Ensures-added}
use statsd_exporter.Mapper.Load.Ensures.{Ensures, Ensures-require, Ensures-then, Ensures-required}
use statsd_exporter.Mapper.Load.Mapping.{first_filled, Placed, Completed, HasLegacyOnce}

or_true : (b : Bool) → (b || true) ≡ true
or_true true = refl
or_true false = refl

or_false : (b : Bool) → (b || false) ≡ b
or_false true = refl
or_false false = refl

Ensures-compiled :
    {A B : Type 0} (P : B → Type 0) (o : Option A) (f : A → Result B)
    → ((a : A) → o ≡ some a → Ensures P (f a))
    → Ensures P (compiled o >>= f)
Ensures-compiled P none f k = tt
Ensures-compiled P (some a) f k = k a refl

or_slice-first_filled {ℓ} :
    {A : Type ℓ} (x y z : Option (List A))
    → or_slice (or_slice x y) z ≡ first_filled (x ∷ y ∷ z ∷ [])
or_slice-first_filled x y z = elim (Bool-cases (slice_length x == 0)) [
  | inl e ↦ rw e refl
  | inr e ↦ rw e (rw e refl)
]

with_root-some :
    (f g : Fsm ℕ) (k c : ℕ) (root : Option (Transitions ℕ))
    → with_root f k root ≡ some (g, c)
    → (c ≡ k) × (g.metric_types ≡ f.metric_types)
with_root-some f g k c none e = cc
with_root-some f g k c (some root) e =
    let p : ◌≡◌ {A = Fsm ℕ × ℕ} (record f { root = root; states_count = f.states_count + 1 }, k)
        (g, c) =
      cc in
    (sym (ap (λ x. x.1) p), sym (ap (λ x. x.0.metric_types) p))

last_count-start_types :
    (f : Fsm ℕ) (t : Bytes) (fields : List Bytes)
    → f.metric_types ≡ metric_types
    → last_count (start_types f t) fields ≡ count_captures fields
unfolding last_count start_types
last_count-start_types f t fields e = elim (Bool-cases (bytes_eq t [])) [
  | inl any ↦ rw any (rw e refl)
  | inr one ↦ rw one refl
]

-- The capture count of a rule, in a machine with metric types.
add_state-counts :
    (f g : Fsm ℕ) (match t : Bytes) (i c : ℕ)
    → f.metric_types ≡ metric_types
    → add_state f match t i ≡ some (g, c)
    → (c ≡ count_captures (split b'.' match)) × (g.metric_types ≡ metric_types)
unfolding add_state
add_state-counts f g match t i c h e =
    let (count, types) =
      with_root-some f g (last_count (start_types f t) (split b'.' match)) c
        (add_roots (start_types f t) (split b'.' match) i f.states_count f.root) e in
    (count ∙ last_count-start_types f t (split b'.' match) h, types ∙ h)

module _ {F Re Sub : Type 0} (constants : Constants F) (regexps : Regexps Re Sub)
    (d : MapperConfigDefaults F) where
  place_glob-Placed :
      (i : ℕ) (m : MetricMapping F Re) (machine : Machine)
      → machine.fsm.metric_types ≡ metric_types
      → is_glob m.match_type ≡ true
      → Ensures (Placed constants regexps d m machine) (place_glob constants regexps d i m machine)
  unfolding place_glob
  place_glob-Placed i m machine types glob =
      Ensures-require (Placed constants regexps d m machine) (is_metric_line m.match) invalid_match
        _
        (λ line.
          Ensures-added (Placed constants regexps d m machine)
            (add_state machine.fsm m.match (type_text m.match_metric_type) i) _
            (λ r e.
              let (count, same) =
                add_state-counts machine.fsm r.0 m.match (type_text m.match_metric_type) i r.1 types
                  e in
              (
                inl (
                  glob,
                  (
                    line,
                    ap (λ n. some (new_template_formatter m.name n)) count,
                    refl,
                    ap (λ n. map (λ l. new_template_formatter l.1 n) m.labels) count,
                  ),
                ),
                refl,
                (same, sym (ap (λ b. machine.do_fsm || b) glob ∙ or_true machine.do_fsm)),
              )))

  place_regex-Placed :
      (m : MetricMapping F Re) (machine : Machine)
      → machine.fsm.metric_types ≡ metric_types
      → is_glob m.match_type ≡ false
      → Ensures (Placed constants regexps d m machine) (place_regex constants regexps d m machine)
  unfolding place_regex
  place_regex-Placed m machine types other =
      Ensures-compiled (Placed constants regexps d m machine) (regexps.compile m.match) _ (λ re e. (
        inr (other, re, e, refl),
        refl,
        (types, sym (ap (λ b. machine.do_fsm || b) other ∙ or_false machine.do_fsm)),
      ))

  pub place_mapping-Placed :
      (i : ℕ) (m : MetricMapping F Re) (machine : Machine)
      → machine.fsm.metric_types ≡ metric_types
      → Ensures
          (Placed constants regexps d m machine)
          (place_mapping constants regexps d i m machine)
  place_mapping-Placed i m machine types = elim (Bool-cases (is_glob m.match_type)) [
    | inl glob ↦ unfold place_mapping in rw glob (place_glob-Placed i m machine types glob)
    | inr other ↦ unfold place_mapping in rw other (place_regex-Placed m machine types other)
  ]

  not-is_there : {A : Type 0} (o : Option A) → not (is_there o) ≡ true → is_there o ≡ false
  not-is_there o h = ground arith

  pub complete_options-Completed :
      (t : ObserverType) (m : MetricMapping F Re)
      → Ensures (Completed constants regexps d t m) (complete_options constants d t m)
  unfolding complete_options
  complete_options-Completed default_observer m = ((refl, refl), refl)
  complete_options-Completed histogram_observer m =
      Ensures-require (Completed constants regexps d histogram_observer m)
        (not (is_there m.summary_options)) histogram_with_summary_options _
        (λ free. (
          (
            not-is_there m.summary_options free,
            refl,
            ap (λ b. some (record (or_no_histogram constants m.histogram_options) { buckets = b }))
                (or_slice-first_filled m.legacy_buckets
                  (or_no_histogram constants m.histogram_options).buckets
                  d.histogram_options.buckets),
          ),
          refl,
        ))
  complete_options-Completed summary_observer m =
      Ensures-require (Completed constants regexps d summary_observer m)
        (not (is_there m.histogram_options)) summary_with_histogram_options _
        (λ free. (
          (
            not-is_there m.histogram_options free,
            refl,
            ap
                (λ q. some (record {
                  quantiles = q;
                  max_age =
                      or_default (or_no_summary m.summary_options).max_age
                        d.summary_options.max_age;
                  age_buckets =
                      or_default (or_no_summary m.summary_options).age_buckets
                        d.summary_options.age_buckets;
                  buf_cap =
                      or_default (or_no_summary m.summary_options).buf_cap
                        d.summary_options.buf_cap;
                }))
                (or_slice-first_filled m.legacy_quantiles
                  (or_no_summary m.summary_options).quantiles d.summary_options.quantiles),
          ),
          refl,
        ))

  not_both : (b : Bool) → not b ≡ true → b ≡ false
  not_both true h = cc
  not_both false h = refl

  pub check_legacy-HasLegacyOnce :
      (has_logger : Bool) (m : MetricMapping F Re)
      → Ensures (λ u. HasLegacyOnce constants regexps d m) (check_legacy has_logger m)
  unfolding check_legacy
  check_legacy-HasLegacyOnce has_logger m =
      Ensures-then (λ u. HasLegacyOnce constants regexps d m)
        (warn_if has_logger (
          is_there m.legacy_quantiles
          && (not (is_there m.summary_options) || has_quantiles m.summary_options)))
        _
        (λ _.
          Ensures-then (λ u. HasLegacyOnce constants regexps d m)
            (warn_if has_logger (
              is_there m.legacy_buckets
              && (not (is_there m.histogram_options) || has_buckets m.histogram_options)))
            _
            (λ _.
              Ensures-require (λ u. HasLegacyOnce constants regexps d m)
                (not (is_there m.legacy_quantiles && has_quantiles m.summary_options))
                quantiles_twice _
                (λ q.
                  Ensures-required (λ u. HasLegacyOnce constants regexps d m)
                    (not (is_there m.legacy_buckets && has_buckets m.histogram_options))
                    buckets_twice (λ b. (not_both _ q, not_both _ b)))))
