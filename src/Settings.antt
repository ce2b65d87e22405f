-- ===== src/Settings.antt =====
-- The enumerations of a mapping configuration: pkg/mapper/match.go, action.go and observer.go. `none`
-- is the error for an unknown word.
use statsd_exporter.Base.{◌||◌, Option, none, some, Bytes, bytes_eq, codes, if◌then◌else◌}

pub data MatchType : Type 0 where
  glob_match regex_match default_match : MatchType

-- `MatchType.UnmarshalYAML`.
unfoldable pub unmarshal_match_type : Bytes → Option MatchType
unmarshal_match_type v =
    if bytes_eq v (codes "regex")
    then some regex_match
    else if bytes_eq v (codes "glob") || bytes_eq v (codes "")
    then some glob_match
    else none

pub data ActionType : Type 0 where
  map_action drop_action default_action : ActionType

-- `ActionType.UnmarshalYAML`.
unfoldable pub unmarshal_action_type : Bytes → Option ActionType
unmarshal_action_type v =
    if bytes_eq v (codes "drop")
    then some drop_action
    else if bytes_eq v (codes "map") || bytes_eq v (codes "")
    then some map_action
    else none

pub data ObserverType : Type 0 where
  histogram_observer summary_observer default_observer : ObserverType

-- `ObserverType.UnmarshalYAML`.
unfoldable pub unmarshal_observer_type : Bytes → Option ObserverType
unmarshal_observer_type v =
    if bytes_eq v (codes "histogram")
    then some histogram_observer
    else if bytes_eq v (codes "summary") || bytes_eq v (codes "")
    then some summary_observer
    else none
