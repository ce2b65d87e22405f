-- ===== src/Relay.antt =====
-- pkg/relay/relay.go: copies of raw lines, buffered into UDP packets.
-- `buffer` and `stopped` are the locals of the goroutine `relayOutput`; `sent` is what
-- `WriteToUDP` has taken. `uint` has 64 bits and its arithmetic wraps.
pub mod Packets
pub mod History
mod Tests
use statsd_exporter.Base.{
  ℕ, ◌+◌, ◌-◌, ◌%◌, ◌^◌, ◌<◌, ◌≡◌, Bool, true, false, List, [], ◌∷◌, ◌++◌, Bytes, ltb, ◌==◌,
  if◌then◌else◌, length,
}

pub record Relay : Type 0 where
  pub buffer_channel : List Bytes
  pub packet_length : ℕ
  pub packets_total : ℕ
  pub long_lines_total : ℕ
  pub relayed_lines_total : ℕ
  pub buffer : Bytes
  pub sent : List Bytes
  pub stopped : Bool

abbrev pub uint_mod : ℕ
uint_mod = 2 ^ 64

-- The state that `NewRelay` makes, once the address resolves and the socket is open.
unfoldable pub new_relay : ℕ → Relay
new_relay packet_length = record {
  buffer_channel = [];
  packet_length = packet_length;
  packets_total = 0;
  long_lines_total = 0;
  relayed_lines_total = 0;
  buffer = [];
  sent = [];
  stopped = false;
}

-- The capacity of `bufferChannel`.
abbrev pub channel_capacity : ℕ
channel_capacity = 100

-- `strings.HasSuffix(l, "\n")`.
unfoldable pub ends_in_newline : Bytes → Bool
ends_in_newline [] = false
ends_in_newline (c ∷ []) = c == b'\n'
ends_in_newline (c ∷ d ∷ s) = ends_in_newline (d ∷ s)

unfoldable pub with_newline : Bytes → Bytes
unfolding ends_in_newline
with_newline l = if ends_in_newline l then l else l ++ b'\n' ∷ []

-- `lineLength > r.packetLength-1`.
unfoldable pub is_too_long : ℕ → Bytes → Bool
is_too_long packet_length l = ltb ((packet_length + uint_mod - 1) % uint_mod) (length l % uint_mod)

-- `RelayLine`. The send on the channel is the last step; it waits while the channel is full.
unfoldable pub relay_line : Bytes → Relay → Relay
unfolding is_too_long with_newline
relay_line l r =
    if length l % uint_mod == 0
    then r
    else if is_too_long r.packet_length l
    then record r { long_lines_total = r.long_lines_total + 1 }
    else record r {
      relayed_lines_total = r.relayed_lines_total + 1;
      buffer_channel = r.buffer_channel ++ with_newline l ∷ [];
    }

-- `sendPacket`; `failed` says that `WriteToUDP` returns an error. The result is that error.
unfoldable pub send_packet : Bool → Bytes → Relay → Relay × Bool
send_packet failed [] r = (r, false)
send_packet failed (c ∷ buf) r = (
  record r {
    packets_total = r.packets_total + 1;
    sent = if failed then r.sent else r.sent ++ (c ∷ buf) ∷ [];
  },
  failed,
)

-- What `relayOutput` does after `sendPacket` returns: it ends, or resets the buffer to `seed`.
unfoldable pub after_send : Bytes → Relay × Bool → Relay
after_send seed (r, true) = record r { stopped = true }
after_send seed (r, false) = record r { buffer = seed }

-- `case <-relayInterval.C`.
unfoldable pub on_tick : Bool → Relay → Relay
unfolding send_packet after_send
on_tick failed r = after_send [] (send_packet failed r.buffer r)

-- `case b := <-r.bufferChannel`, after `b` has been received.
unfoldable pub on_line : Bool → Bytes → Relay → Relay
unfolding send_packet after_send
on_line failed b r =
    if ltb r.packet_length ((length b + length r.buffer) % uint_mod)
    then after_send b (send_packet failed r.buffer r)
    else record r { buffer = r.buffer ++ b }

-- A caller of `RelayLine`, the ticker and the channel move in any order. A Go string is shorter
-- than 2 ^ 63 bytes. The second index lists the lines that callers have passed.
pub data Run (s : Relay) : List Bytes → Relay → Type 0 where
  start : Run s [] s
  relayed :
      {ls : List Bytes} {t : Relay} (l : Bytes)
      → Run s ls t
      → length l < 2 ^ 63
      → length t.buffer_channel < channel_capacity
      → Run s (ls ++ l ∷ []) (relay_line l t)
  ticked :
      {ls : List Bytes} {t : Relay} (failed : Bool)
      → Run s ls t
      → t.stopped ≡ false
      → Run s ls (on_tick failed t)
  received :
      {ls : List Bytes} {t : Relay} (failed : Bool) (b : Bytes) (rest : List Bytes)
      → Run s ls t
      → t.stopped ≡ false
      → t.buffer_channel ≡ b ∷ rest
      → Run s ls (on_line failed b (record t { buffer_channel = rest }))
