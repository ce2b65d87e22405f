-- ===== src/Address.antt =====
-- pkg/address/address.go: listening addresses. Package net is a parameter.
pub mod Ports
mod Tests
use statsd_exporter.Base.{
  ℕ, zero, suc, ◌⊎◌, inl, inr, Bool, true, false, ◌||◌, Option, none, some, [], ◌∷◌, Bytes, codes,
  ltb, leb, ◌==◌, if◌then◌else◌,
}
use statsd_exporter.Template.{decimal, max_int}

-- `SplitHostPort` and `ResolveIPAddr`; `none` is an error.
pub record Net (I : Type 0) : Type 0 where
  pub split_host_port : Bytes → Option (Bytes × Bytes)
  pub resolve_ip_addr : Bytes → Option I

pub data AddressError : Type 0 where
  bad_listening_address unable_to_resolve bad_port : AddressError

-- An `int`; `negsuc n` is -(n + 1).
pub data ℤ : Type 0 where
  pos negsuc : ℕ → ℤ

abbrev pub negated : ℕ → ℤ
negated zero = pos zero
negated (suc n) = negsuc n

abbrev pub is_below : ℤ → ℕ → Bool
is_below (pos n) m = ltb n m
is_below (negsuc n) m = true

abbrev pub is_above : ℤ → ℕ → Bool
is_above (pos n) m = ltb m n
is_above (negsuc n) m = false

-- A number with its sign, up to the bound of an `int` on that side.
abbrev pub positive : Option ℕ → Option ℤ
positive none = none
positive (some n) = if leb n max_int then some (pos n) else none

abbrev pub negative : Option ℕ → Option ℤ
negative none = none
negative (some n) = if leb n (suc max_int) then some (negated n) else none

abbrev pub digits : Bytes → Option ℕ
digits [] = none
digits (c ∷ s) = decimal 0 (c ∷ s)

-- `strconv.Atoi`; `none` is an error.
abbrev pub port_number : Bytes → Option ℤ
port_number [] = none
port_number (c ∷ s) =
    if c == b'-'
    then negative (digits s)
    else if c == b'+'
    then positive (digits s)
    else positive (digits (c ∷ s))

abbrev pub or_any : Bytes → Bytes
or_any [] = codes "0.0.0.0"
or_any (c ∷ host) = c ∷ host

module _ {I : Type 0} where
  abbrev pub with_port : I → Option ℤ → AddressError ⊎ (I × ℤ)
  with_port ip none = inl bad_port
  with_port ip (some port) =
      if is_below port 0 || is_above port 65535 then inl bad_port else inr (ip, port)

  abbrev pub with_ip : Bytes → Option I → AddressError ⊎ (I × ℤ)
  with_ip port_str none = inl unable_to_resolve
  with_ip port_str (some ip) = with_port ip (port_number port_str)

  abbrev pub with_host : Net I → Option (Bytes × Bytes) → AddressError ⊎ (I × ℤ)
  with_host net none = inl bad_listening_address
  with_host net (some (host, port_str)) = with_ip port_str (net.resolve_ip_addr (or_any host))

  -- `IPPortFromString`; `UDPAddrFromString` and `TCPAddrFromString` put its results into a struct.
  unfoldable pub ip_port_from_string : Net I → Bytes → AddressError ⊎ (I × ℤ)
  ip_port_from_string net addr = with_host net (net.split_host_port addr)
