-- ===== src/Relay/Tests.antt =====
-- A run of the relay with packets of at most 6 bytes, and its theorems there.
use statsd_exporter.Base.{
  ℕ, ◌≤◌, ◌<◌, ◌≡◌, ◌↔◌, refl, false, true, List, [], ◌∷◌, Bytes, codes, length, concat, arith,
}
use statsd_exporter.Relay.{
  Relay, new_relay, is_too_long, relay_line, on_tick, on_line, Run, start, relayed, ticked,
  received,
}
use statsd_exporter.Relay.Packets.{IsSized, Run-IsSized}
use statsd_exporter.Relay.History.{stream, messages, relay_in_order, is_too_long_iff}

abbrev lines : List Bytes
lines = codes "a:1|c" ∷ codes "toolong" ∷ codes "b" ∷ []

abbrev queued : Relay
queued =
    relay_line (codes "b") (relay_line (codes "toolong") (relay_line (codes "a:1|c") (new_relay 6)))

abbrev once : Relay
once = on_line false (codes "a:1|c\n") (record queued { buffer_channel = codes "b\n" ∷ [] })

abbrev twice : Relay
twice = on_line false (codes "b\n") (record once { buffer_channel = [] })

abbrev final : Relay
final = on_tick false twice

final_sent : final.sent ≡ codes "a:1|c\n" ∷ codes "b\n" ∷ []
unfolding new_relay relay_line on_line on_tick
final_sent = refl

reaches_queued : Run (new_relay 6) lines queued
unfolding new_relay relay_line
reaches_queued =
    relayed (codes "b")
      (relayed (codes "toolong") (relayed (codes "a:1|c") start (omega arith) (omega arith))
        (omega arith) (omega arith))
      (omega arith) (omega arith)

reaches_final : Run (new_relay 6) lines final
unfolding new_relay relay_line on_line on_tick
reaches_final =
    ticked false
      (received false (codes "b\n") []
        (received false (codes "a:1|c\n") (codes "b\n" ∷ []) reaches_queued refl refl) refl refl)
      refl

final_going : final.stopped ≡ false
unfolding new_relay relay_line on_line on_tick
final_going = refl

Run-IsSized_example : IsSized final
Run-IsSized_example = Run-IsSized {n = 6} (omega arith) (omega arith) reaches_final

relay_in_order_example :
    (stream final ≡ concat (messages 6 lines))
    × (final.packets_total ≡ length final.sent)
    × (final.relayed_lines_total ≡ length (messages 6 lines))
relay_in_order_example = relay_in_order 6 reaches_final final_going

is_too_long_iff_example :
    (◌≡◌ {A = ℕ} 6 0 → is_too_long 6 (codes "toolong") ≡ false)
    × (0 < 6 → (is_too_long 6 (codes "toolong") ≡ true) ↔ (6 ≤ length (codes "toolong")))
is_too_long_iff_example = is_too_long_iff 6 (codes "toolong") (omega arith) (omega arith)
