-- ===== src/Escape/Loop.antt =====
-- The loop of `EscapeMetricName` (pkg/mapper/escape.go), and what the function returns.
use statsd_exporter.Base.{
  ℕ, zero, suc, ◌+◌, ◌-◌, ◌<◌, ◌≡◌, ◌≢◌, refl, sym, ap, ◌∙◌, true, false, ◌&&◌, Bool-cases, inl,
  inr, some, List, [], ◌∷◌, ◌++◌, append_assoc, Bytes, ◌==◌, length, arith,
}
use statsd_exporter.Utf8.{
  Position, decode_rune, decode_rune_width, decode_rune_bounds, decode_rune_ascii, rune_len,
  range_from, range, is_valid, all_valid, valid_string,
}
use statsd_exporter.Escape.Clean.{
  clean, cleaned, slice_middle, Reading, finish-clean, skip-Reading, keep-Reading, drop-Reading,
}
use statsd_exporter.Escape.{
  is_name_char, slice, Builder, replace, escape_step, escape_loop, finish, start,
  escape_metric_name,
}

module _ (name : Bytes) (s : Builder) (p : Position) where
  escape_step-keep :
      is_name_char p.rune ≡ true → escape_step name s p ≡ some (record s { prev_char = p.rune })
  unfolding escape_step
  escape_step-keep h = unfold is_name_char in ground arith

  escape_step-dash :
      is_name_char p.rune ≡ false
      → (p.rune == b'-' && s.prev_char == b'-') ≡ true
      → escape_step name s p ≡ some (record s { offset = p.index + rune_len p.rune })
  unfolding escape_step
  escape_step-dash h k = ground arith

  escape_step-replace :
      (mid : Bytes)
      → is_name_char p.rune ≡ false
      → (p.rune == b'-' && s.prev_char == b'-') ≡ false
      → slice name s.offset p.index ≡ some mid
      → escape_step name s p ≡ replace s p (some mid)
  unfolding escape_step
  escape_step-replace mid h k e = ground (arith, e)

pub name_char_bounds : (c : ℕ) → is_name_char c ≡ true → (c < 0x80) × (c ≢ b'-')
unfolding is_name_char
name_char_bounds c h = (ground arith, λ e. ground arith)

not_dash : is_name_char b'-' ≡ false
unfolding is_name_char
not_dash = refl

escape_loop-cons :
    (name : Bytes) (p : Position) (ps : List Position) (s t : Builder)
    → escape_step name s p ≡ some t
    → escape_loop name (p ∷ ps) (some s) ≡ escape_loop name ps (some t)
escape_loop-cons name p ps s t e = unfold escape_loop in ap (escape_loop name ps) e

-- The claim for the bytes `rest`, at whatever state.
abbrev Cleans : Bytes → Type 0
Cleans rest =
    (name : Bytes) (skip i : ℕ) (s : Builder) (done mid : Bytes)
    → Reading name skip i s done mid rest
    → all_valid (range_from skip i rest) ≡ true
    → finish name (escape_loop name (range_from skip i rest) (some s))
      ≡ some (s.out ++ (mid ++ clean s.prev_char (range_from skip i rest)))

module _ (b : ℕ) (rest name : Bytes) (i : ℕ) (s : Builder) (done mid : Bytes) where
  abbrev here : Position
  here = record { index = i; rune = (decode_rune b rest).0; width = (decode_rune b rest).1 }

  abbrev later : List Position
  later = range_from ((decode_rune b rest).1 - 1) (i + 1) rest

  by_step :
      (t : Builder) (done' mid' tail : Bytes)
      → Cleans rest
      → all_valid later ≡ true
      → escape_step name s here ≡ some t
      → Reading name ((decode_rune b rest).1 - 1) (i + 1) t done' mid' rest
      → t.out ++ (mid' ++ clean t.prev_char later) ≡ tail
      → finish name (escape_loop name (here ∷ later) (some s)) ≡ some tail
  by_step t done' mid' tail ih more e v q =
      ap (finish name) (escape_loop-cons name here later s t e)
      ∙ ih name ((decode_rune b rest).1 - 1) (i + 1) t done' mid' v more
      ∙ ap some q

  keep-Cleans :
      Cleans rest
      → Reading name 0 i s done mid (b ∷ rest)
      → all_valid later ≡ true
      → is_name_char here.rune ≡ true
      → finish name (escape_loop name (here ∷ later) (some s))
        ≡ some (s.out ++ (mid ++ clean s.prev_char (here ∷ later)))
  keep-Cleans ih v more good =
      let (small, ne) = name_char_bounds here.rune good in
      let (same, one) = decode_rune_ascii b rest small in
      let none_left : (decode_rune b rest).1 - 1 ≡ 0 = omega arith in
      by_step (record s { prev_char = here.rune }) done (mid ++ b ∷ []) _ ih more
        (escape_step-keep name s here good)
        (rw (none_left, same) (keep-Reading name i s done mid b rest (λ e. ne (same ∙ e)) v))
        (ap (λ z. s.out ++ z)
          (append_assoc mid (b ∷ []) (clean here.rune later)
            ∙ ap (λ z. mid ++ z) (rw good (ap (λ z. z ∷ clean here.rune later) (sym same)))))

  dash-Cleans :
      Cleans rest
      → Reading name 0 i s done mid (b ∷ rest)
      → rune_len here.rune ≡ here.width
      → all_valid later ≡ true
      → is_name_char here.rune ≡ false
      → (here.rune == b'-' && s.prev_char == b'-') ≡ true
      → finish name (escape_loop name (here ∷ later) (some s))
        ≡ some (s.out ++ (mid ++ clean s.prev_char (here ∷ later)))
  dash-Cleans ih v wide more bad dash =
      let (lo, hi) = decode_rune_bounds b rest in
      let (esc, empty) = v.dashed (ground arith) in
      let t : Builder = record s { offset = i + rune_len here.rune } in
      let whole : t ≡ record {
        escaped = true;
        out = s.out;
        offset = i + here.width;
        prev_char = s.prev_char;
      } =
        ground (arith, esc, wide) in
      by_step t (done ++ (mid ++ b ∷ [])) [] _ ih more (escape_step-dash name s here bad dash)
        (rw whole (drop-Reading name i here.width s s.out s.prev_char done mid b rest lo hi v))
        (ap (λ z. s.out ++ z) (rw (empty, bad, dash)))

  replace-Cleans :
      Cleans rest
      → Reading name 0 i s done mid (b ∷ rest)
      → rune_len here.rune ≡ here.width
      → all_valid later ≡ true
      → is_name_char here.rune ≡ false
      → (here.rune == b'-' && s.prev_char == b'-') ≡ false
      → finish name (escape_loop name (here ∷ later) (some s))
        ≡ some (s.out ++ (mid ++ clean s.prev_char (here ∷ later)))
  replace-Cleans ih v wide more bad other =
      let (lo, hi) = decode_rune_bounds b rest in
      let from : s.offset ≡ length done = omega (arith, v.copied) in
      let middle : slice name s.offset i ≡ some mid =
        rw (v.splits, from, v.position) (slice_middle done mid (b ∷ rest)) in
      by_step
        (record {
          escaped = true;
          out = s.out ++ (mid ++ b'_' ∷ []);
          offset = i + rune_len here.rune;
          prev_char = here.rune;
        })
        (done ++ (mid ++ b ∷ [])) [] _ ih more
        (escape_step-replace name s here mid bad other middle)
        (rw wide (
          drop-Reading name i here.width s (s.out ++ (mid ++ b'_' ∷ [])) here.rune done mid b rest
            lo hi v))
        (append_assoc s.out (mid ++ b'_' ∷ []) (clean here.rune later)
          ∙ ap (λ z. s.out ++ z)
              (append_assoc mid (b'_' ∷ []) (clean here.rune later)
                ∙ ap (λ z. mid ++ z) (rw (bad, other))))

  -- One rune, in the three branches of the loop's body.
  rune-Cleans :
      Cleans rest
      → Reading name 0 i s done mid (b ∷ rest)
      → is_valid here ≡ true
      → all_valid later ≡ true
      → finish name (escape_loop name (here ∷ later) (some s))
        ≡ some (s.out ++ (mid ++ clean s.prev_char (here ∷ later)))
  rune-Cleans ih v ok more =
      let wide = decode_rune_width b rest (ground arith) in
      elim (Bool-cases (is_name_char here.rune)) [
        | inl good ↦ keep-Cleans ih v more good
        | inr bad ↦ elim (Bool-cases (here.rune == b'-' && s.prev_char == b'-')) [
          | inl dash ↦ dash-Cleans ih v wide more bad dash
          | inr other ↦ replace-Cleans ih v wide more bad other
        ]
      ]

all_valid-cons :
    (p : Position) (ps : List Position)
    → all_valid (p ∷ ps) ≡ true
    → (is_valid p ≡ true) × (all_valid ps ≡ true)
unfolding all_valid
all_valid-cons p ps h = ground arith

escape_loop-clean : (rest : Bytes) → Cleans rest
unfolding range_from
escape_loop-clean [] name zero i s done mid v ok =
    unfold escape_loop in finish-clean name i s done mid v
escape_loop-clean [] name (suc skip) i s done mid v ok = absurd (omega (arith, v.inside))
escape_loop-clean (b ∷ rest) name (suc skip) i s done mid v ok =
    let (esc, empty) = v.skipping (omega arith) in
    escape_loop-clean rest name skip (i + 1) s (done ++ b ∷ []) []
      (skip-Reading name skip i s done mid b rest v) ok
    ∙ ap (λ z. some (s.out ++ (z ++ clean s.prev_char (range_from skip (i + 1) rest)))) (sym empty)
escape_loop-clean (b ∷ rest) name zero i s done mid v ok =
    let (good, more) =
      all_valid-cons
        (record { index = i; rune = (decode_rune b rest).0; width = (decode_rune b rest).1 })
        (range_from ((decode_rune b rest).1 - 1) (i + 1) rest) ok in
    rune-Cleans b rest name i s done mid (escape_loop-clean rest) v good more

-- For a name that is valid UTF-8 `EscapeMetricName` does not panic, and its result is an underscore
-- if the name starts with a digit, then the runes one by one: a-z, A-Z, 0-9 and _ stay, a `-` right
-- behind another is left out, and any other rune is one underscore.
pub escape_metric_name-cleaned :
    (name : Bytes) → valid_string name ≡ true → escape_metric_name name ≡ some (cleaned name)
unfolding escape_metric_name valid_string range
escape_metric_name-cleaned [] ok = refl
escape_metric_name-cleaned (c ∷ name) ok =
    escape_loop-clean (c ∷ name) (c ∷ name) 0 0 (start (c ∷ name)) [] []
      (record {
        splits = refl;
        position = refl;
        copied = refl;
        inside = omega arith;
        skipping = λ h. absurd (omega arith);
        dashed = λ h. absurd (omega arith);
        lazy = λ h. (rw h, refl);
      })
      ok
