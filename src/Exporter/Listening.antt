-- ===== src/Exporter/Listening.antt =====
-- `Listen` of pkg/exporter/exporter.go: batches of events between the ticks of its ticker.
use statsd_exporter.Base.{ℕ, ◌+◌, ◌≡◌, true, List, [], ◌∷◌, length, All, ℕ_eq}
use statsd_exporter.Utf8.{valid_string}
use statsd_exporter.Metric.{metric_name}
use statsd_exporter.Exporter.{Exporter, Round, ticked, received}
use statsd_exporter.Exporter.Accounts.{Accounts}

module _ {F : Type 0} where
  -- The number of events in the batches.
  abbrev pub events_count : List (Round F) → ℕ
  events_count [] = 0
  events_count (ticked ∷ rounds) = events_count rounds
  events_count (received es ∷ rounds) = length es + events_count rounds

  abbrev pub IsValidRound : Round F → Type 0
  IsValidRound ticked = Unit {0}
  IsValidRound (received es) = All (λ e. valid_string (metric_name e) ≡ true) es
