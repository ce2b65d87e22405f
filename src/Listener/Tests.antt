-- ===== src/Listener/Tests.antt =====
-- Runs of pkg/listener/listener.go with a parser that makes one event of a line.
use statsd_exporter.Base.{
  ◌+◌, ◌≤◌, ◌≡◌, refl, Option, some, List, [], ◌∷◌, ◌++◌, Bytes, codes, length,
}
use statsd_exporter.Event.{new_event_queue}
use statsd_exporter.Event.Order.{delivered}
use statsd_exporter.Relay.{new_relay}
use statsd_exporter.Listener.{
  LineHandler, StatsdUdpListener, StatsdTcpListener, ReadLine, whole, prefix, handle_lines,
  handle_conn, enqueue_udp_packet,
}
use statsd_exporter.Listener.Lines.{Succeeds, handle_lines-handled}
use statsd_exporter.Listener.Tcp.{Serves, handle_conn-IsServed}
use statsd_exporter.Listener.Udp.{
  accepted, start, arrived, packet_events, Run-in_order, rounds, rounds-drain,
}

abbrev one_event : Bytes → List Bytes
one_event line = line ∷ []

abbrev parser : Bytes → Option (List Bytes)
parser line = some (one_event line)

abbrev handler : LineHandler Bytes
handler = record {
  event_handler = new_event_queue [] 2;
  relay = some (new_relay 100);
  lines_received = 0;
}

abbrev two_lines : List Bytes
two_lines = codes "a" ∷ codes "b" ∷ []

handle_lines-handled_example :
    Succeeds parser one_event two_lines handler (handle_lines parser two_lines handler)
handle_lines-handled_example =
    handle_lines-handled parser one_event two_lines handler (refl, (refl, tt))

abbrev some_reads : List ReadLine
some_reads = whole (codes "a") ∷ whole (codes "b") ∷ prefix (codes "c") ∷ whole (codes "d") ∷ []

abbrev tcp_listener : StatsdTcpListener Bytes
tcp_listener = record {
  handler = handler;
  tcp_connections = 0;
  tcp_errors = 0;
  tcp_line_too_long = 0;
}

handle_conn-IsServed_example :
    Serves parser one_event some_reads 1 tcp_listener (handle_conn parser some_reads tcp_listener)
handle_conn-IsServed_example =
    handle_conn-IsServed parser one_event some_reads tcp_listener (refl, (refl, tt))

abbrev udp_listener : StatsdUdpListener Bytes
udp_listener = record {
  handler = handler;
  udp_packets = 0;
  udp_packet_drops = 0;
  udp_packet_queue = [];
  udp_packet_capacity = 1;
}

abbrev packet : Bytes
packet = codes "a"

abbrev one_waits : StatsdUdpListener Bytes
one_waits = enqueue_udp_packet parser packet 1 udp_listener

abbrev one_dropped : StatsdUdpListener Bytes
one_dropped = enqueue_udp_packet parser packet 1 one_waits

was_dropped : one_dropped.udp_packet_drops ≡ 1
unfolding enqueue_udp_packet
was_dropped = refl

Run-in_order_example :
    (delivered one_dropped.handler.event_handler
        ++ packet_events parser one_event one_dropped.udp_packet_queue
      ≡ delivered udp_listener.handler.event_handler
        ++ packet_events parser one_event
            (([] ++ accepted packet 1 udp_listener) ++ accepted packet 1 one_waits))
    × (length one_dropped.udp_packet_queue ≤ one_dropped.udp_packet_capacity)
    × (one_dropped.udp_packets ≡ 0 + ((0 + 1) + 1))
    × (length (([] ++ accepted packet 1 udp_listener) ++ accepted packet 1 one_waits)
          + one_dropped.udp_packet_drops
        ≡ ((0 + 1) + 1) + 0)
Run-in_order_example =
    Run-in_order parser one_event udp_listener (λ line. refl) refl
      (arrived packet 1 (arrived packet 1 start))

rounds-drain_example :
    (u : StatsdUdpListener Bytes) × (rounds parser (length one_waits.udp_packet_queue) one_waits
      ≡ some u)
    × (u.udp_packet_queue ≡ [])
    × (delivered u.handler.event_handler
        ≡ delivered one_waits.handler.event_handler
          ++ packet_events parser one_event one_waits.udp_packet_queue)
rounds-drain_example = rounds-drain parser one_event one_waits (λ line. refl)
