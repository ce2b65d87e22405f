-- ===== src/Relay/Packets.antt =====
-- Sizes in the relay of pkg/relay/relay.go: lines, the buffer and packets against `packetLength`.
use statsd_exporter.Base.{
  ℕ, ◌+◌, ◌%◌, ◌^◌, ◌<◌, ◌≤◌, ◌≡◌, refl, ◌∙◌, Bool, true, false, List, [], ◌∷◌, Bytes, ltb, ◌==◌,
  length, length-append, All, All-append, arith, Bool-cases, inl, inr,
}
use statsd_exporter.Relay.{
  Relay, uint_mod, new_relay, with_newline, is_too_long, relay_line, send_packet, after_send,
  on_tick, on_line, Run, start, relayed, ticked, received,
}

-- A message or packet that is not empty and not longer than `n`.
abbrev pub Fits : ℕ → Bytes → Type 0
Fits n b = (0 < length b) × (length b ≤ n)

pub record IsSized (r : Relay) : Type 0 where
  pub queued : All (Fits r.packet_length) r.buffer_channel
  pub buffered : length r.buffer ≤ r.packet_length
  pub packets : All (Fits r.packet_length) r.sent

pub with_newline_bounds :
    (l : Bytes) → (length l ≤ length (with_newline l)) × (length (with_newline l) ≤ length l + 1)
unfolding with_newline
with_newline_bounds l = ground (arith, length-append l (b'\n' ∷ []))

pub not-is_too_long :
    (n : ℕ) (l : Bytes)
    → 0 < n
    → n < 2 ^ 63
    → length l < 2 ^ 63
    → is_too_long n l ≡ false
    → length l < n
unfolding is_too_long
not-is_too_long n l p h k e = ground arith

relay_line-IsSized :
    (l : Bytes) (r : Relay)
    → 0 < r.packet_length
    → r.packet_length < 2 ^ 63
    → length l < 2 ^ 63
    → IsSized r
    → IsSized (relay_line l r)
unfolding relay_line
relay_line-IsSized l r p h k v = elim (Bool-cases (length l % uint_mod == 0)) [
  | inl empty ↦ rw empty v
  | inr some_byte ↦ rw some_byte (elim (Bool-cases (is_too_long r.packet_length l)) [
    | inl long ↦ rw long (record { queued = v.queued; buffered = v.buffered; packets = v.packets })
    | inr short ↦
        let shorter = not-is_too_long r.packet_length l p h k short in
        rw short (record {
          queued =
              All-append (Fits r.packet_length) r.buffer_channel (with_newline l ∷ []) v.queued
                ((ground (arith, with_newline_bounds l), omega (arith, with_newline_bounds l)), tt);
          buffered = v.buffered;
          packets = v.packets;
        })
  ])
]

after_send-IsSized :
    (failed : Bool) (seed : Bytes) (r : Relay)
    → length seed ≤ r.packet_length
    → IsSized r
    → IsSized (after_send seed (send_packet failed r.buffer r))
unfolding after_send send_packet
after_send-IsSized failed seed r h v = go failed r.buffer v.buffered
  where
    go :
        (f : Bool) (buf : Bytes)
        → length buf ≤ r.packet_length
        → IsSized (after_send seed (send_packet f buf r))
    go f [] b = record { queued = v.queued; buffered = h; packets = v.packets }
    go true (c ∷ buf) b = record { queued = v.queued; buffered = v.buffered; packets = v.packets }
    go false (c ∷ buf) b = record {
      queued = v.queued;
      buffered = h;
      packets =
          All-append (Fits r.packet_length) r.sent ((c ∷ buf) ∷ []) v.packets
            ((omega arith, b), tt);
    }

on_tick-IsSized : (failed : Bool) (r : Relay) → IsSized r → IsSized (on_tick failed r)
unfolding on_tick
on_tick-IsSized failed r v = after_send-IsSized failed [] r (omega arith) v

on_line-IsSized :
    (failed : Bool) (b : Bytes) (r : Relay)
    → r.packet_length < 2 ^ 63
    → Fits r.packet_length b
    → IsSized r
    → IsSized (on_line failed b r)
unfolding on_line
on_line-IsSized failed b r h f v =
    elim (Bool-cases (ltb r.packet_length ((length b + length r.buffer) % uint_mod))) [
      | inl full ↦ rw full (after_send-IsSized failed b r f.1 v)
      | inr room ↦ rw room (
          let grown = length-append r.buffer b in
          let bounded = v.buffered in
          record { queued = v.queued; buffered = ground arith; packets = v.packets })
    ]

pub packet_length-after_send :
    (seed : Bytes) (failed : Bool) (buf : Bytes) (r : Relay)
    → (after_send seed (send_packet failed buf r)).packet_length ≡ r.packet_length
unfolding after_send send_packet
packet_length-after_send seed failed [] r = refl
packet_length-after_send seed true (c ∷ buf) r = refl
packet_length-after_send seed false (c ∷ buf) r = refl

-- No operation changes the packet length.
pub Run-packet_length :
    {n : ℕ} {ls : List Bytes} {t : Relay} → Run (new_relay n) ls t → t.packet_length ≡ n
unfolding new_relay relay_line on_tick on_line
Run-packet_length start = refl
Run-packet_length (relayed {t} l r h k) = ground (arith, Run-packet_length r)
Run-packet_length (ticked {t} failed r e) =
    packet_length-after_send [] failed t.buffer t ∙ Run-packet_length r
Run-packet_length (received {t} failed b rest r e c) = ground (
  arith,
  Run-packet_length r,
  packet_length-after_send b failed t.buffer (record t { buffer_channel = rest }),
)

-- In every state that a relay reaches from its start, whatever the order in which lines, ticks and
-- receives come and whichever writes fail, with a packet length of at least 1 and below 2 ^ 63:
-- every message in the channel and every packet sent has at least one byte and at most
-- `packetLength` bytes, and the buffer has at most `packetLength` bytes.
pub Run-IsSized :
    {n : ℕ} {ls : List Bytes} {t : Relay} → 0 < n → n < 2 ^ 63 → Run (new_relay n) ls t → IsSized t
unfolding new_relay
Run-IsSized p h start = record { queued = tt; buffered = omega arith; packets = tt }
Run-IsSized p h (relayed {t} l r k room) =
    let e = Run-packet_length r in
    relay_line-IsSized l t (omega arith) (omega arith) k (Run-IsSized p h r)
Run-IsSized p h (ticked {t} failed r e) = on_tick-IsSized failed t (Run-IsSized p h r)
Run-IsSized p h (received {t} failed b rest r e c) =
    let v = Run-IsSized p h r in
    let queue : All (Fits t.packet_length) (b ∷ rest) = rw c at v.queued in
    let e = Run-packet_length r in
    on_line-IsSized failed b (record t { buffer_channel = rest }) (omega arith) queue.0
      (record { queued = queue.1; buffered = v.buffered; packets = v.packets })
