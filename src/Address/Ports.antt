-- ===== src/Address/Ports.antt =====
-- The port in a listening address of pkg/address/address.go, written in decimal digits.
use statsd_exporter.Base.{
  ℕ, zero, suc, ◌+◌, ◌-◌, ◌*◌, ◌^◌, ◌<◌, ◌≡◌, ◌⊎◌, refl, sym, ap, ◌∙◌, inl, inr, Bool, true, false,
  some, List, [], ◌∷◌, map, Bytes, length, All, leb, if◌then◌else◌, arith,
}
use native.Mathlib.Numerals.{unary_clauses}
use statsd_exporter.Utf8.{between}
use statsd_exporter.Template.{decimal}
use statsd_exporter.Address.{
  Net, AddressError, bad_port, ℤ, pos, port_number, positive, negative, or_any, with_port, with_ip,
  with_host, ip_port_from_string,
}

-- The number with these digits, the first of which is the highest.
abbrev pub number : List ℕ → ℕ
number [] = 0
number (d ∷ ds) = d * 10 ^ length ds + number ds

abbrev pub text : List ℕ → Bytes
text ds = map (λ d. b'0' + d) ds

-- A number, below zero or not, as text.
abbrev pub signed_text : Bool → List ℕ → Bytes
signed_text true ds = b'-' ∷ text ds
signed_text false ds = text ds

IsDigit-between : (d : ℕ) → d < 10 → between b'0' b'9' (b'0' + d) ≡ true
IsDigit-between d h = ground arith

raise : (n d p q : ℕ) → (n * 10 + d) * p + q ≡ n * (10 * p) + (d * p + q)
raise n d p q = grind arith

ten_more : (k : ℕ) → 10 ^ suc k ≡ 10 * 10 ^ k
ten_more k = simp unary_clauses (omega arith)

digit_back : (d : ℕ) → (b'0' + d) - b'0' ≡ d
digit_back d = omega arith

decimal-text :
    (n : ℕ) (ds : List ℕ)
    → All (λ d. d < 10) ds
    → decimal n (text ds) ≡ some (n * 10 ^ length ds + number ds)
decimal-text n [] h = ap some (omega arith)
decimal-text n (d ∷ ds) (h, hs) = rw (IsDigit-between d h) (
    rw (digit_back d) (
      decimal-text (n * 10 + d) ds hs
      ∙ ap some (
          raise n d (10 ^ length ds) (number ds)
          ∙ ap (λ p. n * p + (d * 10 ^ length ds + number ds)) (sym (ten_more (length ds))))))

decimal-number : (ds : List ℕ) → All (λ d. d < 10) ds → decimal 0 (text ds) ≡ some (number ds)
decimal-number ds h = decimal-text 0 ds h ∙ ap some (omega arith)

-- A port from 0 to 65535, or an error, from the sign and the size of a number.
abbrev pub in_range : {I : Type 0} → I → Bool → ℕ → AddressError ⊎ (I × ℤ)
in_range ip false n = if leb n 65535 then inr (ip, pos n) else inl bad_port
in_range ip true zero = inr (ip, pos 0)
in_range ip true (suc n) = inl bad_port

module _ {I : Type 0} where
  with_port-positive : (ip : I) (n : ℕ) → with_port ip (positive (some n)) ≡ in_range ip false n
  with_port-positive ip n = ground arith

  with_port-negative : (ip : I) (n : ℕ) → with_port ip (negative (some n)) ≡ in_range ip true n
  with_port-negative ip zero = refl
  with_port-negative ip (suc n) = ground arith

  digit-unsigned :
      (ip : I) (d : ℕ) (s : Bytes)
      → d < 10
      → port_number ((b'0' + d) ∷ s) ≡ positive (decimal 0 ((b'0' + d) ∷ s))
  digit-unsigned ip d s h = ground arith

  with_port-signed_text :
      (ip : I) (below : Bool) (d : ℕ) (ds : List ℕ)
      → All (λ d. d < 10) (d ∷ ds)
      → with_port ip (port_number (signed_text below (d ∷ ds)))
        ≡ in_range ip below (number (d ∷ ds))
  with_port-signed_text ip true d ds h =
      ap (λ o. with_port ip (negative o)) (decimal-number (d ∷ ds) h)
      ∙ with_port-negative ip (number (d ∷ ds))
  with_port-signed_text ip false d ds h =
      ap (with_port ip) (digit-unsigned ip d (text ds) h.0)
      ∙ ap (λ o. with_port ip (positive o)) (decimal-number (d ∷ ds) h)
      ∙ with_port-positive ip (number (d ∷ ds))

  -- If the address splits into a host and a port that is written in decimal digits, perhaps behind a
  -- minus sign, and the host, or `0.0.0.0` for an empty one, resolves to an IP address: then
  -- `IPPortFromString` returns that address and the number if it is from 0 to 65535, however many
  -- digits there are, and refuses the port otherwise.
  pub ip_port_from_string-digits :
      (net : Net I) (addr host : Bytes) (ip : I) (below : Bool) (d : ℕ) (ds : List ℕ)
      → All (λ d. d < 10) (d ∷ ds)
      → net.split_host_port addr ≡ some (host, signed_text below (d ∷ ds))
      → net.resolve_ip_addr (or_any host) ≡ some ip
      → ip_port_from_string net addr ≡ in_range ip below (number (d ∷ ds))
  unfolding ip_port_from_string
  ip_port_from_string-digits net addr host ip below d ds h split resolved =
      ap (with_host net) split
      ∙ ap (with_ip (signed_text below (d ∷ ds))) resolved
      ∙ with_port-signed_text ip below d ds h
