-- ===== src/Escape/Clean.antt =====
-- What `EscapeMetricName` (pkg/mapper/escape.go) returns for a valid name.
use statsd_exporter.Base.{
  ℕ, suc, ◌+◌, ◌-◌, ◌≤◌, ◌<◌, ◌≡◌, ◌≢◌, refl, sym, ap, ◌∙◌, true, false, ◌&&◌, Bool-cases, inl, inr,
  some, List, [], ◌∷◌, ◌++◌, append_assoc, append-nil, Bytes, ltb, ◌==◌, if◌then◌else◌, length,
  length-append, take, drop, arith,
}
use statsd_exporter.Utf8.{Position, range}
use statsd_exporter.Escape.{is_name_char, slice, Builder, finish, starts_with_digit}

-- The runes one by one: a name character stays, a `-` behind a `-` goes, and any other is a `_`.
abbrev pub clean : ℕ → List Position → Bytes
clean prev [] = []
clean prev (p ∷ ps) =
    if is_name_char p.rune
    then p.rune ∷ clean p.rune ps
    else if p.rune == b'-' && prev == b'-'
    then clean prev ps
    else b'_' ∷ clean p.rune ps

abbrev pub cleaned : Bytes → Bytes
cleaned name = (if starts_with_digit name then b'_' ∷ [] else []) ++ clean 0 (range name)

module _ {ℓ} {A : Type ℓ} where
  drop-length : (xs ys : List A) → drop (length xs) (xs ++ ys) ≡ ys
  drop-length [] ys = refl
  drop-length (x ∷ xs) ys = drop-length xs ys

  take-length : (xs ys : List A) → take (length xs) (xs ++ ys) ≡ xs
  take-length [] ys = refl
  take-length (x ∷ xs) ys = ap (λ t. x ∷ t) (take-length xs ys)

-- The middle of three parts is the slice between their borders.
pub slice_middle :
    (done mid rest : Bytes)
    → slice (done ++ (mid ++ rest)) (length done) (length done + length mid) ≡ some mid
unfolding slice
slice_middle done mid rest =
    let room : length (done ++ (mid ++ rest)) ≡ length done + (length mid + length rest) =
      omega (arith, length-append done (mid ++ rest), length-append mid rest) in
    let left : length done + length mid - length done ≡ length mid = omega arith in
    rw (drop-length, left, take-length) (ground arith)

-- The bytes read so far are `done`, which `out` stands for, and `mid`, which is still to be copied.
-- `skip` bytes of the current rune are left.
pub record Reading (name : Bytes) (skip i : ℕ) (s : Builder) (done mid rest : Bytes) : Type 0 where
  pub splits : name ≡ done ++ (mid ++ rest)
  pub position : i ≡ length done + length mid
  pub copied : s.offset ≡ length done + skip
  pub inside : skip ≤ length rest
  pub skipping : 0 < skip → (s.escaped ≡ true) × (mid ≡ [])
  pub dashed : s.prev_char ≡ b'-' → (s.escaped ≡ true) × (mid ≡ [])
  pub lazy : s.escaped ≡ false → (s.out ≡ []) × (done ≡ [])

finish_escaped :
    (name out done rest : Bytes) (offset : ℕ)
    → name ≡ done ++ rest
    → offset ≡ length done
    → (if ltb offset (length name) then some (out ++ drop offset name) else some out)
      ≡ some (out ++ rest)
finish_escaped name out done [] offset q o =
    let same : name ≡ done = q ∙ append-nil done in rw (append-nil out, same, o) (ground arith)
finish_escaped name out done (c ∷ rest) offset q o =
    rw (q, o, drop-length done (c ∷ rest)) (ground (arith, length-append done (c ∷ rest)))

pub finish-clean :
    (name : Bytes) (i : ℕ) (s : Builder) (done mid : Bytes)
    → Reading name 0 i s done mid []
    → finish name (some s) ≡ some (s.out ++ (mid ++ []))
unfolding finish
finish-clean name i s done mid v = elim (Bool-cases s.escaped) [
  | inl e ↦
      rw e (finish_escaped name s.out done (mid ++ []) s.offset v.splits (omega (arith, v.copied)))
  | inr e ↦ rw e (ap some (v.splits ∙ ap (λ z. z ++ (mid ++ [])) ((v.lazy e).1 ∙ sym (v.lazy e).0)))
]

-- The next byte of a rune that has been dealt with.
pub skip-Reading :
    (name : Bytes) (skip i : ℕ) (s : Builder) (done mid : Bytes) (b : ℕ) (rest : Bytes)
    → Reading name (suc skip) i s done mid (b ∷ rest)
    → Reading name skip (i + 1) s (done ++ b ∷ []) [] rest
skip-Reading name skip i s done mid b rest v =
    let (esc, empty) = v.skipping (omega arith) in
    let longer = length-append done (b ∷ []) in
    record {
      splits = v.splits ∙ rw empty (sym (append_assoc done (b ∷ []) rest));
      position = omega (arith, v.position, ap length empty);
      copied = omega (arith, v.copied);
      inside = omega (arith, v.inside);
      skipping = λ h. (esc, refl);
      dashed = λ h. (esc, refl);
      lazy = λ h. cc;
    }

-- A name character.
pub keep-Reading :
    (name : Bytes) (i : ℕ) (s : Builder) (done mid : Bytes) (b : ℕ) (rest : Bytes)
    → b ≢ b'-'
    → Reading name 0 i s done mid (b ∷ rest)
    → Reading name 0 (i + 1) (record s { prev_char = b }) done (mid ++ b ∷ []) rest
keep-Reading name i s done mid b rest ne v = record {
  splits = v.splits ∙ ap (λ z. done ++ z) (sym (append_assoc mid (b ∷ []) rest));
  position = omega (arith, v.position, length-append mid (b ∷ []));
  copied = v.copied;
  inside = omega arith;
  skipping = λ h. absurd (omega arith);
  dashed = λ h. absurd (ne h);
  lazy = v.lazy;
}

-- A rune of width `w` that has been left out or replaced: all up to its first byte is copied.
pub drop-Reading :
    (name : Bytes) (i w : ℕ) (s : Builder) (out : Bytes) (prev : ℕ) (done mid : Bytes) (b : ℕ)
    (rest : Bytes)
    → 1 ≤ w
    → w ≤ suc (length rest)
    → Reading name 0 i s done mid (b ∷ rest)
    → Reading name
        (w - 1)
        (i + 1)
        (record { escaped = true; out = out; offset = i + w; prev_char = prev })
        (done ++ (mid ++ b ∷ []))
        []
        rest
drop-Reading name i w s out prev done mid b rest lo hi v =
    let longer : length (done ++ (mid ++ b ∷ [])) ≡ i + 1 =
      omega (arith, v.position, length-append done (mid ++ b ∷ []), length-append mid (b ∷ [])) in
    record {
      splits =
          v.splits
          ∙ sym (
              append_assoc done (mid ++ b ∷ []) rest
              ∙ ap (λ z. done ++ z) (append_assoc mid (b ∷ []) rest));
      position = omega arith;
      copied = omega arith;
      inside = omega arith;
      skipping = λ h. (refl, refl);
      dashed = λ h. (refl, refl);
      lazy = λ h. cc;
    }
