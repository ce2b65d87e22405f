-- ===== src/Relay/History.antt =====
-- What the relay of pkg/relay/relay.go sends, against the lines that its callers passed.
use statsd_exporter.Base.{
  ℕ, ◌+◌, ◌%◌, ◌^◌, ◌<◌, ◌≤◌, ◌≡◌, ◌↔◌, refl, sym, ap, ◌∙◌, Bool, true, false, List, [], ◌∷◌, ◌++◌,
  Bytes, ltb, ◌==◌, if◌then◌else◌, length, length-append, concat, concat-append, append-nil,
  append_assoc, arith, Bool-cases, inl, inr,
}
use statsd_exporter.Relay.{
  Relay, uint_mod, new_relay, with_newline, is_too_long, relay_line, send_packet, after_send,
  on_tick, on_line, Run, start, relayed, ticked, received,
}
use statsd_exporter.Relay.Packets.{Run-packet_length}

-- The message that one line becomes, if any.
abbrev pub message : ℕ → Bytes → List Bytes
message n l =
    if length l % uint_mod == 0 then [] else if is_too_long n l then [] else with_newline l ∷ []

abbrev pub messages : ℕ → List Bytes → List Bytes
messages n [] = []
messages n (l ∷ ls) = message n l ++ messages n ls

messages-concat :
    (n : ℕ) (ls : List Bytes) (l : Bytes) → messages n (ls ++ l ∷ []) ≡ messages n ls ++ message n l
messages-concat n [] l = append-nil _
messages-concat n (k ∷ ls) l =
    ap (λ x. message n k ++ x) (messages-concat n ls l)
    ∙ sym (append_assoc (message n k) (messages n ls) (message n l))

-- Bytes that have left, then the buffer, then what is in the channel.
abbrev pub stream : Relay → Bytes
stream r = concat r.sent ++ (r.buffer ++ concat r.buffer_channel)

record History (n : ℕ) (ls : List Bytes) (r : Relay) : Type 0 where
  in_order : r.stopped ≡ false → stream r ≡ concat (messages n ls)
  packets : r.stopped ≡ false → r.packets_total ≡ length r.sent
  lines : r.relayed_lines_total ≡ length (messages n ls)

pub relay_line-stream :
    (l : Bytes) (r : Relay)
    → stream (relay_line l r) ≡ stream r ++ concat (message r.packet_length l)
unfolding relay_line
relay_line-stream l r = elim (Bool-cases (length l % uint_mod == 0)) [
  | inl empty ↦ rw empty (sym (append-nil _))
  | inr some_byte ↦ rw some_byte (elim (Bool-cases (is_too_long r.packet_length l)) [
    | inl long ↦ rw long (sym (append-nil _))
    | inr short ↦ rw short (simp (concat-append, append_assoc, append-nil))
  ])
]

-- A send that succeeds moves the buffer behind the packets, and leaves `seed` in its place.
stream-after_send :
    (seed : Bytes) (failed : Bool) (buf : Bytes) (r : Relay)
    → r.buffer ≡ buf
    → (after_send seed (send_packet failed buf r)).stopped ≡ false
    → stream (after_send seed (send_packet failed buf r))
      ≡ concat r.sent ++ (buf ++ (seed ++ concat r.buffer_channel))
unfolding after_send send_packet
stream-after_send seed failed [] r e h = refl
stream-after_send seed true (c ∷ buf) r e h = cc
stream-after_send seed false (c ∷ buf) r e h = simp (concat-append, append_assoc, append-nil)

counters-after_send :
    (seed : Bytes) (failed : Bool) (buf : Bytes) (r : Relay)
    → r.packets_total ≡ length r.sent
    → (after_send seed (send_packet failed buf r)).stopped ≡ false
    → (after_send seed (send_packet failed buf r)).packets_total
      ≡ length (after_send seed (send_packet failed buf r)).sent
unfolding after_send send_packet
counters-after_send seed failed [] r e h = e
counters-after_send seed true (c ∷ buf) r e h = cc
counters-after_send seed false (c ∷ buf) r e h =
    omega (arith, length-append r.sent ((c ∷ buf) ∷ []))

lines-after_send :
    (seed : Bytes) (failed : Bool) (buf : Bytes) (r : Relay)
    → (after_send seed (send_packet failed buf r)).relayed_lines_total ≡ r.relayed_lines_total
unfolding after_send send_packet
lines-after_send seed failed [] r = refl
lines-after_send seed true (c ∷ buf) r = refl
lines-after_send seed false (c ∷ buf) r = refl

on_line-stream :
    (failed : Bool) (b : Bytes) (r : Relay)
    → r.stopped ≡ false
    → (on_line failed b r).stopped ≡ false
    → (stream (on_line failed b r) ≡ concat r.sent ++ (r.buffer ++ (b ++ concat r.buffer_channel)))
      × (r.packets_total ≡ length r.sent
          → (on_line failed b r).packets_total ≡ length (on_line failed b r).sent)
unfolding on_line
on_line-stream failed b r s h =
    elim (Bool-cases (ltb r.packet_length ((length b + length r.buffer) % uint_mod))) [
      | inl full ↦ rw full (
          let h' : (after_send b (send_packet failed r.buffer r)).stopped ≡ false =
            rw (on_line, full) at h in
          (
            stream-after_send b failed r.buffer r refl h',
            λ k. counters-after_send b failed r.buffer r k h',
          ))
      | inr room ↦ rw room (simp append_assoc, λ k. k)
    ]

on_line-lines :
    (failed : Bool) (b : Bytes) (r : Relay)
    → (on_line failed b r).relayed_lines_total ≡ r.relayed_lines_total
unfolding on_line
on_line-lines failed b r = ground (arith, lines-after_send b failed r.buffer r)

relay_line-stopped : (l : Bytes) (r : Relay) → (relay_line l r).stopped ≡ r.stopped
unfolding relay_line
relay_line-stopped l r = ground arith

relay_line-counters :
    (l : Bytes) (r : Relay)
    → ((relay_line l r).packets_total ≡ r.packets_total)
      × ((relay_line l r).sent ≡ r.sent)
      × ((relay_line l r).relayed_lines_total
          ≡ r.relayed_lines_total + length (message r.packet_length l))
unfolding relay_line
relay_line-counters l r = ground arith

Run-History : {n : ℕ} {ls : List Bytes} {t : Relay} → Run (new_relay n) ls t → History n ls t
unfolding new_relay on_tick
Run-History start = record { in_order = λ _. refl; packets = λ _. refl; lines = refl }
Run-History {n} (relayed {ls} {t} l r k room) =
    let v = Run-History r in
    let (same_total, same_sent, one_more) = relay_line-counters l t in
    record {
      in_order = λ h.
          relay_line-stream l t
          ∙ rw (v.in_order (sym (relay_line-stopped l t) ∙ h), Run-packet_length r, messages-concat)
              (sym (concat-append (messages n ls) (message n l)));
      packets = λ h.
          same_total ∙ v.packets (sym (relay_line-stopped l t) ∙ h) ∙ ap length (sym same_sent);
      lines =
          one_more
          ∙ rw (v.lines, Run-packet_length r, messages-concat)
              (sym (length-append (messages n ls) (message n l)));
    }
Run-History (ticked {t} failed r e) =
    let v = Run-History r in
    record {
      in_order = λ h. stream-after_send [] failed t.buffer t refl h ∙ v.in_order e;
      packets = λ h. counters-after_send [] failed t.buffer t (v.packets e) h;
      lines = lines-after_send [] failed t.buffer t ∙ v.lines;
    }
Run-History (received {t} failed b rest r e c) =
    let v = Run-History r in
    let t' : Relay = record t { buffer_channel = rest } in
    let whole : stream t ≡ concat t.sent ++ (t.buffer ++ (b ++ concat rest)) = rw c in
    record {
      in_order = λ h. (on_line-stream failed b t' e h).0 ∙ sym whole ∙ v.in_order e;
      packets = λ h. (on_line-stream failed b t' e h).1 (v.packets e);
      lines = on_line-lines failed b t' ∙ v.lines;
    }

-- In every state that a relay reaches, as long as no write has failed: the packets sent, then the
-- buffer, then the messages in the channel, are together byte for byte the messages of the lines
-- passed to `RelayLine`, in the order of the calls; the packet counter equals the number of packets
-- sent, and the line counter the number of messages. The message of a line is nothing if the line
-- is empty or too long, and else the line with a newline at its end.
pub relay_in_order :
    (n : ℕ) {ls : List Bytes} {t : Relay}
    → Run (new_relay n) ls t
    → t.stopped ≡ false
    → (stream t ≡ concat (messages n ls))
      × (t.packets_total ≡ length t.sent)
      × (t.relayed_lines_total ≡ length (messages n ls))
relay_in_order n r h = let v = Run-History r in (v.in_order h, v.packets h, v.lines)

-- For every line of at least one byte: with a packet length of 0 it is never too long, since
-- `packetLength-1` wraps to the largest number; with one from 1 to 2 ^ 64 - 1 it is too long
-- exactly when it is at least as long as a packet.
pub is_too_long_iff :
    (n : ℕ) (l : Bytes)
    → n < uint_mod
    → length l < 2 ^ 63
    → (n ≡ 0 → is_too_long n l ≡ false) × (0 < n → (is_too_long n l ≡ true) ↔ (n ≤ length l))
unfolding is_too_long
is_too_long_iff n l h k = (λ e. ground arith, λ p. ground arith)
