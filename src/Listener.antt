-- ===== src/Listener.antt =====
-- pkg/listener/listener.go: what the three listeners do with packets and connections. The line parser is
-- a parameter, as is its interface `Parser` there; `none` is its panic. Sockets are the sequence of what
-- is read from them.
pub mod Lines
pub mod Udp
pub mod Tcp
mod Tests
use statsd_exporter.Base.{
  ℕ, zero, suc, ◌+◌, ◌-◌, Bool, true, false, Option, none, some, List, [], ◌∷◌, ◌++◌, Bytes, split,
  ltb, length, take, if◌then◌else◌,
}
use statsd_exporter.Event.{EventQueue, queue}
use statsd_exporter.Relay.{Relay, relay_line}

-- What the listeners have in common; `relay` is none if it is nil.
pub record LineHandler (A : Type 0) : Type 0 where
  pub event_handler : EventQueue A
  pub relay : Option Relay
  pub lines_received : ℕ

-- `udp_packet_capacity` is the capacity of the channel `UdpPacketQueue`, at least 1.
pub record StatsdUdpListener (A : Type 0) : Type 0 where
  pub handler : LineHandler A
  pub udp_packets : ℕ
  pub udp_packet_drops : ℕ
  pub udp_packet_queue : List Bytes
  pub udp_packet_capacity : ℕ

pub record StatsdTcpListener (A : Type 0) : Type 0 where
  pub handler : LineHandler A
  pub tcp_connections : ℕ
  pub tcp_errors : ℕ
  pub tcp_line_too_long : ℕ

pub record StatsdUnixgramListener (A : Type 0) : Type 0 where
  pub handler : LineHandler A
  pub unixgram_packets : ℕ

-- `SetEventHandler` of each listener.
unfoldable pub set_event_handler : {A : Type 0} → EventQueue A → LineHandler A → LineHandler A
set_event_handler eh h = record h { event_handler = eh }

-- `if l.Relay != nil && len(line) > 0`.
abbrev pub relay_to : Bytes → Option Relay → Option Relay
relay_to line none = none
relay_to [] (some r) = some r
relay_to (c ∷ line) (some r) = some (relay_line (c ∷ line) r)

-- The bytes that `copy` leaves in a new slice of `n` bytes.
abbrev pub zeros : ℕ → Bytes
zeros zero = []
zeros (suc n) = 0 ∷ zeros n

abbrev pub copied : ℕ → Bytes → Bytes
copied n packet = take n packet ++ zeros (n - length packet)

-- What `ReadLine` of a connection returns.
pub data ReadLine : Type 0 where
  whole prefix : Bytes → ReadLine
  eof error : ReadLine

module _ {A : Type 0} (line_to_events : Bytes → Option (List A)) where
  abbrev pub queued : Bytes → LineHandler A → Option (List A) → Option (LineHandler A)
  queued line h none = none
  queued line h (some events) = some (record {
    event_handler = queue h.event_handler events;
    relay = relay_to line h.relay;
    lines_received = h.lines_received + 1;
  })

  -- The body of the loops over the lines. The wait of `RelayLine` on a full channel is left out: this is
  -- what is left when its sends have gone through.
  unfoldable pub handle_line : Bytes → LineHandler A → Option (LineHandler A)
  unfolding queue relay_line
  handle_line line h = queued line h (line_to_events line)

  abbrev pub and_then :
      (LineHandler A → Option (LineHandler A)) → Option (LineHandler A) → Option (LineHandler A)
  and_then next none = none
  and_then next (some h) = next h

  unfoldable pub handle_lines : List Bytes → LineHandler A → Option (LineHandler A)
  unfolding handle_line
  handle_lines [] h = some h
  handle_lines (line ∷ lines) h = and_then (handle_lines lines) (handle_line line h)

  abbrev pub with_udp : StatsdUdpListener A → Option (LineHandler A) → Option (StatsdUdpListener A)
  with_udp l none = none
  with_udp l (some h) = some (record l { handler = h })

  -- `StatsDUDPListener.HandlePacket`.
  unfoldable pub handle_packet : Bytes → StatsdUdpListener A → Option (StatsdUdpListener A)
  unfolding handle_lines
  handle_packet packet l = with_udp l (handle_lines (split b'\n' packet) l.handler)

  -- `EnqueueUdpPacket`.
  unfoldable pub enqueue_udp_packet : Bytes → ℕ → StatsdUdpListener A → StatsdUdpListener A
  enqueue_udp_packet packet n l =
      let counted : StatsdUdpListener A = record l { udp_packets = l.udp_packets + 1 } in
      if ltb (length l.udp_packet_queue) l.udp_packet_capacity
      then record counted { udp_packet_queue = l.udp_packet_queue ++ copied n packet ∷ [] }
      else record counted { udp_packet_drops = l.udp_packet_drops + 1 }

  abbrev pub handle_first : StatsdUdpListener A → List Bytes → Option (StatsdUdpListener A)
  handle_first l [] = some l
  handle_first l (packet ∷ rest) = handle_packet packet (record l { udp_packet_queue = rest })

  -- One round of `ProcessUdpPacketQueue`; with no packet it waits.
  unfoldable pub process_udp_packet_queue : StatsdUdpListener A → Option (StatsdUdpListener A)
  unfolding handle_packet
  process_udp_packet_queue l = handle_first l l.udp_packet_queue

  abbrev pub with_unixgram :
      StatsdUnixgramListener A → Option (LineHandler A) → Option (StatsdUnixgramListener A)
  with_unixgram l none = none
  with_unixgram l (some h) =
      some (record { handler = h; unixgram_packets = l.unixgram_packets + 1 })

  -- `StatsDUnixgramListener.HandlePacket`.
  unfoldable pub handle_unixgram_packet :
      Bytes → StatsdUnixgramListener A → Option (StatsdUnixgramListener A)
  unfolding handle_lines
  handle_unixgram_packet packet l = with_unixgram l (handle_lines (split b'\n' packet) l.handler)

  abbrev pub with_tcp :
      (StatsdTcpListener A → Option (StatsdTcpListener A))
      → StatsdTcpListener A
      → Option (LineHandler A)
      → Option (StatsdTcpListener A)
  with_tcp next l none = none
  with_tcp next l (some h) = next (record l { handler = h })

  -- The loop of `HandleConn` over what is read.
  unfoldable pub read_loop : List ReadLine → StatsdTcpListener A → Option (StatsdTcpListener A)
  unfolding handle_line
  read_loop [] l = some l
  read_loop (eof ∷ reads) l = some l
  read_loop (error ∷ reads) l = some (record l { tcp_errors = l.tcp_errors + 1 })
  read_loop (prefix line ∷ reads) l =
      some (record l { tcp_line_too_long = l.tcp_line_too_long + 1 })
  read_loop (whole line ∷ reads) l = with_tcp (read_loop reads) l (handle_line line l.handler)

  -- `HandleConn`.
  unfoldable pub handle_conn : List ReadLine → StatsdTcpListener A → Option (StatsdTcpListener A)
  unfolding read_loop
  handle_conn reads l = read_loop reads (record l { tcp_connections = l.tcp_connections + 1 })
