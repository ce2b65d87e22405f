-- ===== src/Listener/Udp.antt =====
-- The queue of UDP packets of pkg/listener/listener.go: no packet is lost but those that are counted as
-- dropped.
use statsd_exporter.Base.{
  ℕ, zero, suc, Bool, ◌+◌, ◌≤◌, ◌≡◌, refl, sym, ap, subst, ◌∙◌, inl, inr, Bool-cases, Option, none,
  some, List, [], ◌∷◌, ◌++◌, append-nil, append_assoc, Bytes, split, ltb, length, length-append,
  if◌then◌else◌, All, arith,
}
use statsd_exporter.Event.Order.{delivered}
use statsd_exporter.Listener.{
  LineHandler, StatsdUdpListener, copied, handle_packet, enqueue_udp_packet,
  process_udp_packet_queue, handle_first,
}
use statsd_exporter.Listener.Lines.{Parses, events_of, IsHandled, handle_lines-handled}

All_every : {A : Type 0} (P : A → Type 0) → ((x : A) → P x) → (xs : List A) → All P xs
All_every P every [] = tt
All_every P every (x ∷ xs) = (every x, All_every P every xs)

module _ {A : Type 0} where
  abbrev pub has_room : StatsdUdpListener A → Bool
  has_room l = ltb (length l.udp_packet_queue) l.udp_packet_capacity

  -- What `EnqueueUdpPacket` puts into the channel.
  abbrev pub accepted : Bytes → ℕ → StatsdUdpListener A → List Bytes
  accepted packet n l = if has_room l then copied n packet ∷ [] else []

module _ {A : Type 0} (line_to_events : Bytes → Option (List A)) where
  -- The reader of the socket and the goroutine of `ProcessUdpPacketQueue` move in any order. The first
  -- index lists what was accepted, the second counts the packets that were read.
  pub data Run (s : StatsdUdpListener A) : List Bytes → ℕ → StatsdUdpListener A → Type 0 where
    start : Run s [] 0 s
    arrived :
        {ps : List Bytes} {k : ℕ} {t : StatsdUdpListener A} (packet : Bytes) (n : ℕ)
        → Run s ps k t
        → Run s (ps ++ accepted packet n t) (k + 1) (enqueue_udp_packet line_to_events packet n t)
    processed :
        {ps : List Bytes} {k : ℕ} {t u : StatsdUdpListener A}
        → Run s ps k t
        → process_udp_packet_queue line_to_events t ≡ some u
        → Run s ps k u

module _ {A : Type 0} (line_to_events : Bytes → Option (List A)) (events : Bytes → List A) where
  -- The events of packets, in order.
  abbrev pub packet_events : List Bytes → List A
  packet_events [] = []
  packet_events (p ∷ ps) = events_of line_to_events events (split b'\n' p) ++ packet_events ps

  packet_events-append :
      (ps qs : List Bytes) → packet_events (ps ++ qs) ≡ packet_events ps ++ packet_events qs
  packet_events-append [] qs = refl
  packet_events-append (p ∷ ps) qs =
      rw (packet_events-append ps qs) (sym (append_assoc _ (packet_events ps) (packet_events qs)))

  record Inv (s : StatsdUdpListener A) (ps : List Bytes) (k : ℕ) (t : StatsdUdpListener A)
      : Type 0 where
    in_order :
        delivered t.handler.event_handler ++ packet_events t.udp_packet_queue
        ≡ delivered s.handler.event_handler ++ packet_events ps
    bounded : length t.udp_packet_queue ≤ t.udp_packet_capacity
    read : t.udp_packets ≡ s.udp_packets + k
    dropped : length ps + t.udp_packet_drops ≡ k + s.udp_packet_drops

  -- Packets that are accepted wait behind the others.
  grown :
      (d before : List A) (waiting ps qs : List Bytes)
      → d ++ packet_events waiting ≡ before ++ packet_events ps
      → d ++ packet_events (waiting ++ qs) ≡ before ++ packet_events (ps ++ qs)
  grown d before waiting ps qs e =
      ap (λ x. d ++ x) (packet_events-append waiting qs)
      ∙ (sym (append_assoc d (packet_events waiting) (packet_events qs))
          ∙ (ap (λ x. x ++ packet_events qs) e
              ∙ (append_assoc before (packet_events ps) (packet_events qs)
                  ∙ ap (λ x. before ++ x) (sym (packet_events-append ps qs)))))

  Inv-arrived :
      (s t : StatsdUdpListener A) (ps : List Bytes) (k : ℕ) (packet : Bytes) (n : ℕ)
      → Inv s ps k t
      → Inv s (ps ++ accepted packet n t) (k + 1) (enqueue_udp_packet line_to_events packet n t)
  unfolding enqueue_udp_packet
  Inv-arrived s t ps k packet n v = elim (Bool-cases (has_room t)) [
    | inl room ↦ rw room (record {
      in_order =
          grown (delivered t.handler.event_handler) (delivered s.handler.event_handler)
            t.udp_packet_queue ps (copied n packet ∷ []) v.in_order;
      bounded = ground (arith, length-append t.udp_packet_queue (copied n packet ∷ []), room);
      read = omega (arith, v.read);
      dropped = omega (arith, v.dropped, length-append ps (copied n packet ∷ []));
    })
    | inr full ↦ rw full (record {
      in_order =
          v.in_order
          ∙ ap (λ x. delivered s.handler.event_handler ++ packet_events x) (sym (append-nil ps));
      bounded = v.bounded;
      read = omega (arith, v.read);
      dropped = omega (arith, v.dropped, length-append ps []);
    })
  ]

  -- The first packet that waits is handled.
  Inv-handled :
      (s t : StatsdUdpListener A) (ps : List Bytes) (k : ℕ) (packet : Bytes) (rest : List Bytes)
      (h : LineHandler A)
      → t.udp_packet_queue ≡ packet ∷ rest
      → IsHandled line_to_events events (split b'\n' packet) t.handler h
      → Inv s ps k t
      → Inv s ps k (record t { handler = h; udp_packet_queue = rest })
  Inv-handled s t ps k packet rest h e handled v = record {
    in_order = rw handled.events_queued (
        append_assoc (delivered t.handler.event_handler)
          (events_of line_to_events events (split b'\n' packet)) (packet_events rest)
        ∙ rw e at v.in_order);
    bounded = omega (arith, v.bounded, ap length e);
    read = v.read;
    dropped = v.dropped;
  }

  -- What a round leaves, if it returns.
  abbrev Returns : StatsdUdpListener A → List Bytes → ℕ → Option (StatsdUdpListener A) → Type 0
  Returns s ps k none = ⊥
  Returns s ps k (some u) = Inv s ps k u

  Inv-processed :
      (s t : StatsdUdpListener A) (ps : List Bytes) (k : ℕ) (waiting : List Bytes)
      → ((line : Bytes) → Parses line_to_events events line)
      → t.udp_packet_queue ≡ waiting
      → Inv s ps k t
      → Returns s ps k (handle_first line_to_events t waiting)
  unfolding handle_packet
  Inv-processed s t ps k [] parses e v = v
  Inv-processed s t ps k (packet ∷ rest) parses e v =
      let (h, f, handled) =
        handle_lines-handled line_to_events events (split b'\n' packet) t.handler
          (All_every (Parses line_to_events events) parses (split b'\n' packet)) in
      rw f (Inv-handled s t ps k packet rest h e handled v)

  Inv-start : (s : StatsdUdpListener A) → s.udp_packet_queue ≡ [] → Inv s [] 0 s
  Inv-start s e = record {
    in_order = ap (λ q. delivered s.handler.event_handler ++ packet_events q) e;
    bounded = omega (arith, ap length e);
    read = omega arith;
    dropped = omega arith;
  }

  Run-Inv :
      (s : StatsdUdpListener A) {ps : List Bytes} {k : ℕ} {t : StatsdUdpListener A}
      → ((line : Bytes) → Parses line_to_events events line)
      → s.udp_packet_queue ≡ []
      → Run line_to_events s ps k t
      → Inv s ps k t
  unfolding process_udp_packet_queue
  Run-Inv s parses e start = Inv-start s e
  Run-Inv s parses e (arrived {ps} {k} {t} packet n r) =
      Inv-arrived s t ps k packet n (Run-Inv s parses e r)
  Run-Inv s parses e (processed {ps} {k} {t} {u} r f) =
      subst (Returns s ps k) f
        (Inv-processed s t ps k t.udp_packet_queue parses refl (Run-Inv s parses e r))

  -- With a parser that has events for every line, and from an empty channel, in whatever order packets
  -- arrive and are processed: the events of the packets that were accepted are, in order, those queued
  -- since, and then those of the packets that still wait, of which there are no more than the
  -- channel holds; and every packet that arrived was counted, and either accepted or counted as
  -- dropped.
  pub Run-in_order :
      (s : StatsdUdpListener A) {ps : List Bytes} {k : ℕ} {t : StatsdUdpListener A}
      → ((line : Bytes) → Parses line_to_events events line)
      → s.udp_packet_queue ≡ []
      → Run line_to_events s ps k t
      → (delivered t.handler.event_handler ++ packet_events t.udp_packet_queue
          ≡ delivered s.handler.event_handler ++ packet_events ps)
        × (length t.udp_packet_queue ≤ t.udp_packet_capacity)
        × (t.udp_packets ≡ s.udp_packets + k)
        × (length ps + t.udp_packet_drops ≡ k + s.udp_packet_drops)
  Run-in_order s parses e r =
      let v = Run-Inv s parses e r in (v.in_order, v.bounded, v.read, v.dropped)

module _ {A : Type 0} (line_to_events : Bytes → Option (List A)) where
  abbrev pub then_rounds :
      (StatsdUdpListener A → Option (StatsdUdpListener A))
      → Option (StatsdUdpListener A)
      → Option (StatsdUdpListener A)
  then_rounds next none = none
  then_rounds next (some l) = next l

  -- Rounds of `ProcessUdpPacketQueue` while no packet arrives.
  unfoldable pub rounds : ℕ → StatsdUdpListener A → Option (StatsdUdpListener A)
  unfolding process_udp_packet_queue
  rounds zero l = some l
  rounds (suc n) l = then_rounds (rounds n) (process_udp_packet_queue line_to_events l)

module _ {A : Type 0} (line_to_events : Bytes → Option (List A)) (events : Bytes → List A) where
  -- The waiting packets are gone, and their events are queued in order.
  abbrev IsDrained : StatsdUdpListener A → List Bytes → Option (StatsdUdpListener A) → Type 0
  IsDrained l waiting o =
      (u : StatsdUdpListener A) × (o ≡ some u)
      × (u.udp_packet_queue ≡ [])
      × (delivered u.handler.event_handler
          ≡ delivered l.handler.event_handler ++ packet_events line_to_events events waiting)

  drain_waiting :
      (waiting : List Bytes) (l : StatsdUdpListener A)
      → ((line : Bytes) → Parses line_to_events events line)
      → l.udp_packet_queue ≡ waiting
      → IsDrained l waiting (rounds line_to_events (length waiting) l)
  unfolding rounds handle_packet
  drain_waiting [] l parses e = (l, refl, e, sym (append-nil (delivered l.handler.event_handler)))
  drain_waiting (packet ∷ rest) l parses e =
      let (h, f, handled) =
        handle_lines-handled line_to_events events (split b'\n' packet) l.handler
          (All_every (Parses line_to_events events) parses (split b'\n' packet)) in
      let (u, g, empty, queued) =
        drain_waiting rest (record l { handler = h; udp_packet_queue = rest }) parses refl in
      (
        u,
        rw (e, f, g) refl,
        empty,
        queued
            ∙ rw handled.events_queued (
                append_assoc (delivered l.handler.event_handler)
                  (events_of line_to_events events (split b'\n' packet))
                  (packet_events line_to_events events rest)),
      )

  -- With a parser that has events for every line: as many rounds of the queue's goroutine as packets
  -- wait do not panic, leave the channel empty, and queue the events of all of those packets, in
  -- order.
  pub rounds-drain :
      (l : StatsdUdpListener A)
      → ((line : Bytes) → Parses line_to_events events line)
      → (u : StatsdUdpListener A) × (rounds line_to_events (length l.udp_packet_queue) l ≡ some u)
        × (u.udp_packet_queue ≡ [])
        × (delivered u.handler.event_handler
            ≡ delivered l.handler.event_handler
              ++ packet_events line_to_events events l.udp_packet_queue)
  rounds-drain l parses = drain_waiting l.udp_packet_queue l parses refl
