-- ===== src/Listener/Tcp.antt =====
-- What becomes of a TCP connection (pkg/listener/listener.go).
use statsd_exporter.Base.{ℕ, ◌+◌, ◌≡◌, refl, Option, some, List, [], ◌∷◌, Bytes, All, arith}
use statsd_exporter.Listener.{
  StatsdTcpListener, ReadLine, whole, prefix, eof, error, read_loop, handle_conn,
}
use statsd_exporter.Listener.Lines.{
  Parses, IsHandled, handle_line-handled, IsHandled-trans, no_lines-IsHandled,
}

-- The whole lines that are read before the end, an error or a line that is too long.
abbrev pub lines_read : List ReadLine → List Bytes
lines_read [] = []
lines_read (whole line ∷ reads) = line ∷ lines_read reads
lines_read (prefix line ∷ reads) = []
lines_read (eof ∷ reads) = []
lines_read (error ∷ reads) = []

-- How many errors, and how many lines that are too long, end the connection: at most one.
abbrev pub errors_read : List ReadLine → ℕ
errors_read [] = 0
errors_read (whole line ∷ reads) = errors_read reads
errors_read (prefix line ∷ reads) = 0
errors_read (eof ∷ reads) = 0
errors_read (error ∷ reads) = 1

abbrev pub long_lines_read : List ReadLine → ℕ
long_lines_read [] = 0
long_lines_read (whole line ∷ reads) = long_lines_read reads
long_lines_read (prefix line ∷ reads) = 1
long_lines_read (eof ∷ reads) = 0
long_lines_read (error ∷ reads) = 0

module _ {A : Type 0} (line_to_events : Bytes → Option (List A)) (events : Bytes → List A) where
  pub record IsServed (reads : List ReadLine) (connections : ℕ) (l after : StatsdTcpListener A)
      : Type 0 where
    pub handled : IsHandled line_to_events events (lines_read reads) l.handler after.handler
    pub connections_counted : after.tcp_connections ≡ l.tcp_connections + connections
    pub errors_counted : after.tcp_errors ≡ l.tcp_errors + errors_read reads
    pub long_lines_counted : after.tcp_line_too_long ≡ l.tcp_line_too_long + long_lines_read reads

  abbrev pub Serves :
      List ReadLine → ℕ → StatsdTcpListener A → Option (StatsdTcpListener A) → Type 0
  Serves reads n l o = (after : StatsdTcpListener A) × (o ≡ some after) × IsServed reads n l after

  read_loop-IsServed :
      (reads : List ReadLine) (l : StatsdTcpListener A)
      → All (Parses line_to_events events) (lines_read reads)
      → Serves reads 0 l (read_loop line_to_events reads l)
  unfolding read_loop
  read_loop-IsServed [] l ps = (
    l,
    refl,
    record {
      handled = no_lines-IsHandled line_to_events events l.handler;
      connections_counted = omega arith;
      errors_counted = omega arith;
      long_lines_counted = omega arith;
    },
  )
  read_loop-IsServed (eof ∷ reads) l ps = (
    l,
    refl,
    record {
      handled = no_lines-IsHandled line_to_events events l.handler;
      connections_counted = omega arith;
      errors_counted = omega arith;
      long_lines_counted = omega arith;
    },
  )
  read_loop-IsServed (error ∷ reads) l ps = (
    record l { tcp_errors = l.tcp_errors + 1 },
    refl,
    record {
      handled = no_lines-IsHandled line_to_events events l.handler;
      connections_counted = omega arith;
      errors_counted = omega arith;
      long_lines_counted = omega arith;
    },
  )
  read_loop-IsServed (prefix line ∷ reads) l ps = (
    record l { tcp_line_too_long = l.tcp_line_too_long + 1 },
    refl,
    record {
      handled = no_lines-IsHandled line_to_events events l.handler;
      connections_counted = omega arith;
      errors_counted = omega arith;
      long_lines_counted = omega arith;
    },
  )
  read_loop-IsServed (whole line ∷ reads) l (p, ps) =
      let (h, e, one) = handle_line-handled line_to_events events line l.handler p in
      let (after, f, more) = read_loop-IsServed reads (record l { handler = h }) ps in
      (
        after,
        rw (e, f) refl,
        record {
          handled =
              IsHandled-trans line_to_events events line (lines_read reads) l.handler h
                after.handler one more.handled;
          connections_counted = more.connections_counted;
          errors_counted = more.errors_counted;
          long_lines_counted = more.long_lines_counted;
        },
      )

  -- If the parser has events for every whole line that is read before the end, an error or a line
  -- that is too long, then serving the connection does not panic: just those lines are handled, and
  -- the connection, the error and the line that is too long are counted.
  pub handle_conn-IsServed :
      (reads : List ReadLine) (l : StatsdTcpListener A)
      → All (Parses line_to_events events) (lines_read reads)
      → Serves reads 1 l (handle_conn line_to_events reads l)
  unfolding handle_conn
  handle_conn-IsServed reads l ps =
      let (after, e, served) =
        read_loop-IsServed reads (record l { tcp_connections = l.tcp_connections + 1 }) ps in
      (
        after,
        e,
        record {
          handled = served.handled;
          connections_counted = omega (arith, served.connections_counted);
          errors_counted = served.errors_counted;
          long_lines_counted = served.long_lines_counted;
        },
      )
