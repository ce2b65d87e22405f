-- ===== src/Address/Tests.antt =====
-- Runs of pkg/address/address.go with a package net that knows one host.
use statsd_exporter.Base.{◌≡◌, refl, inl, inr, false, some, Bytes, codes, [], ◌∷◌, arith}
use statsd_exporter.Address.Ports.{in_range, number, ip_port_from_string-digits}
use statsd_exporter.Address.{Net, pos, bad_port, ip_port_from_string}

abbrev one_host : Bytes → Net Bytes
one_host port = record { split_host_port = λ s. some (s, port); resolve_ip_addr = some }

any_host : ip_port_from_string (one_host (codes "9125")) [] ≡ inr (codes "0.0.0.0", pos 9125)
unfolding ip_port_from_string
any_host = refl

too_large : ip_port_from_string (one_host (codes "65536")) [] ≡ inl bad_port
unfolding ip_port_from_string
too_large = refl

too_small : ip_port_from_string (one_host (codes "-5")) [] ≡ inl bad_port
unfolding ip_port_from_string
too_small = refl

no_number : ip_port_from_string (one_host (codes "-")) [] ≡ inl bad_port
unfolding ip_port_from_string
no_number = refl

ip_port_from_string-digits_example :
    ip_port_from_string (one_host (codes "9125")) []
    ≡ in_range (codes "0.0.0.0") false (number (9 ∷ 1 ∷ 2 ∷ 5 ∷ []))
ip_port_from_string-digits_example =
    ip_port_from_string-digits (one_host (codes "9125")) [] [] (codes "0.0.0.0") false 9
      (1 ∷ 2 ∷ 5 ∷ []) (omega arith, (omega arith, (omega arith, (omega arith, tt)))) refl refl
