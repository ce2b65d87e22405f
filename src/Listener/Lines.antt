-- ===== src/Listener/Lines.antt =====
-- What becomes of the lines that a listener of pkg/listener/listener.go reads.
use statsd_exporter.Base.{
  ◌+◌, ◌≡◌, refl, sym, ap, subst, ◌∙◌, Option, none, some, List, [], ◌∷◌, ◌++◌, append-nil,
  append_assoc, Bytes, length, concat, concat-append, All, arith, Bool-cases, inl, inr, ◌==◌, ◌%◌,
}
use statsd_exporter.Event.{queue}
use statsd_exporter.Event.Order.{delivered, delivered-queue}
use statsd_exporter.Relay.{Relay, relay_line, uint_mod, is_too_long}
use statsd_exporter.Relay.History.{message, messages, stream, relay_line-stream}
use statsd_exporter.Listener.{LineHandler, relay_to, handle_line, handle_lines}

-- The stream of the relay, if there is one, grows by the messages of the lines.
abbrev pub Relays : List Bytes → Option Relay → Option Relay → Type 0
Relays lines none after = after ≡ none
Relays lines (some r) after =
    (s : Relay) × (after ≡ some s)
    × (stream s ≡ stream r ++ concat (messages r.packet_length lines))
    × (s.packet_length ≡ r.packet_length)

packet_length-relay_line :
    (l : Bytes) (r : Relay) → (relay_line l r).packet_length ≡ r.packet_length
unfolding relay_line
packet_length-relay_line l r = elim (Bool-cases (length l % uint_mod == 0)) [
  | inl empty ↦ rw empty refl
  | inr some_byte ↦ rw some_byte (elim (Bool-cases (is_too_long r.packet_length l)) [
    | inl long ↦ rw long refl
    | inr short ↦ rw short refl
  ])
]

Relays-relay_to : (line : Bytes) (o : Option Relay) → Relays (line ∷ []) o (relay_to line o)
Relays-relay_to line none = relayed_none line
  where
    relayed_none : (line : Bytes) → relay_to line none ≡ none
    relayed_none [] = refl
    relayed_none (c ∷ line) = refl
Relays-relay_to [] (some r) = (r, refl, sym (append-nil _), refl)
Relays-relay_to (c ∷ line) (some r) = (
  relay_line (c ∷ line) r,
  refl,
  relay_line-stream (c ∷ line) r
      ∙ ap (λ ms. stream r ++ concat ms) (sym (append-nil (message r.packet_length (c ∷ line)))),
  packet_length-relay_line (c ∷ line) r,
)

Relays-more :
    (line : Bytes) (lines : List Bytes) (r s : Relay) (q : Option Relay)
    → stream s ≡ stream r ++ concat (messages r.packet_length (line ∷ []))
    → s.packet_length ≡ r.packet_length
    → Relays lines (some s) q
    → Relays (line ∷ lines) (some r) q
Relays-more line lines r s q first same (u, e, more, kept) = (
  u,
  e,
  more
      ∙ (rw (first, same)
          (append_assoc (stream r) (concat (messages r.packet_length (line ∷ [])))
              (concat (messages r.packet_length lines))
            ∙ ap (λ x. stream r ++ x)
                (sym (
                    concat-append (messages r.packet_length (line ∷ []))
                      (messages r.packet_length lines))
                  ∙ ap concat (
                      append_assoc (message r.packet_length line) []
                        (messages r.packet_length lines))))),
  kept ∙ same,
)

Relays-trans :
    (line : Bytes) (lines : List Bytes) (o p q : Option Relay)
    → Relays (line ∷ []) o p
    → Relays lines p q
    → Relays (line ∷ lines) o q
Relays-trans line lines none p q e more = subst (λ x. Relays lines x q) e more
Relays-trans line lines (some r) p q (s, e, first, same) more =
    Relays-more line lines r s q first same (subst (λ x. Relays lines x q) e more)

module _ {A : Type 0} (line_to_events : Bytes → Option (List A)) (events : Bytes → List A) where
  abbrev pub Parses : Bytes → Type 0
  Parses line = line_to_events line ≡ some (events line)

  abbrev pub events_of : List Bytes → List A
  events_of [] = []
  events_of (line ∷ lines) = events line ++ events_of lines

  -- The events of the lines are queued in order, the lines are relayed in order, and counted.
  pub record IsHandled (lines : List Bytes) (h after : LineHandler A) : Type 0 where
    pub events_queued : delivered after.event_handler ≡ delivered h.event_handler ++ events_of lines
    pub relayed : Relays lines h.relay after.relay
    pub lines_counted : after.lines_received ≡ h.lines_received + length lines

  abbrev pub Succeeds : List Bytes → LineHandler A → Option (LineHandler A) → Type 0
  Succeeds lines h o = (after : LineHandler A) × (o ≡ some after) × IsHandled lines h after

  pub handle_line-handled :
      (line : Bytes) (h : LineHandler A)
      → Parses line
      → Succeeds (line ∷ []) h (handle_line line_to_events line h)
  unfolding handle_line
  handle_line-handled line h e = (
    record {
      event_handler = queue h.event_handler (events line);
      relay = relay_to line h.relay;
      lines_received = h.lines_received + 1;
    },
    rw e refl,
    record {
      events_queued =
          delivered-queue (events line) h.event_handler
          ∙ ap (λ es. delivered h.event_handler ++ es) (sym (append-nil (events line)));
      relayed = Relays-relay_to line h.relay;
      lines_counted = refl;
    },
  )

  pub IsHandled-trans :
      (line : Bytes) (lines : List Bytes) (h k l : LineHandler A)
      → IsHandled (line ∷ []) h k
      → IsHandled lines k l
      → IsHandled (line ∷ lines) h l
  IsHandled-trans line lines h k l one more = record {
    events_queued =
        more.events_queued
        ∙ (rw one.events_queued (
            append_assoc (delivered h.event_handler) (events line ++ []) (events_of lines)
            ∙ ap (λ es. delivered h.event_handler ++ es)
                (append_assoc (events line) [] (events_of lines))));
    relayed = Relays-trans line lines h.relay k.relay l.relay one.relayed more.relayed;
    lines_counted = omega (arith, one.lines_counted, more.lines_counted);
  }

  pub no_lines-IsHandled : (h : LineHandler A) → IsHandled [] h h
  no_lines-IsHandled h = record {
    events_queued = sym (append-nil (delivered h.event_handler));
    relayed = unchanged h.relay;
    lines_counted = omega arith;
  }
    where
      unchanged : (o : Option Relay) → Relays [] o o
      unchanged none = refl
      unchanged (some r) = (r, refl, sym (append-nil (stream r)), refl)

  -- If the parser has events for every one of the lines, then handling them does not panic: their
  -- events are queued behind the earlier ones, the messages of the lines are relayed behind the
  -- earlier ones, both in order, and the lines are counted.
  pub handle_lines-handled :
      (lines : List Bytes) (h : LineHandler A)
      → All Parses lines
      → Succeeds lines h (handle_lines line_to_events lines h)
  unfolding handle_lines
  handle_lines-handled [] h ps = (h, refl, no_lines-IsHandled h)
  handle_lines-handled (line ∷ lines) h (p, ps) =
      let (k, e, one) = handle_line-handled line h p in
      let (l, f, more) = handle_lines-handled lines k ps in
      (l, rw (e, f) refl, IsHandled-trans line lines h k l one more)
