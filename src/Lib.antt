-- ===== src/Lib.antt =====
-- Verification of statsd_exporter, a bridge from StatsD lines to Prometheus metrics.
--
-- How the program runs: listeners (pkg/listener) take packets apart into lines, hand each line to the
-- relay (pkg/relay) and to the line parser (pkg/line), and queue the resulting events (pkg/event).
-- The exporter (pkg/exporter) takes batches of events from the queue, asks the mapper (pkg/mapper,
-- with the glob machine of pkg/mapper/fsm) for a name and labels, and updates the metrics of the
-- registry (pkg/registry).
--
-- Files and code:
--   Address: pkg/address/address.go, with package net as a parameter; Address.Ports is about
--     the port.
--   Base: lists, byte strings and maps that the others share. A Go string is a list of bytes.
--   Event: pkg/event/event.go, the event queue; Event.Order has its theorems.
--   Exporter: pkg/exporter/exporter.go, with the mapper, the registry and floating-point numbers as
--     parameters. The maps of labels stand in a store, since the events of a line share one.
--     Exporter.Accounts counts what becomes of the events of a batch, Exporter.Listening of those of
--     Listen between its ticks, and Exporter.LabelsOf is about the labels. The operations of the mapper
--     and of the registry may panic, as the models of both can.
--   Listener: pkg/listener/listener.go, with the line parser as a parameter. Listener.Lines is about the
--     lines, Listener.Udp about the queue of UDP packets, Listener.Tcp about connections.
--   RandomReplacement: pkg/mappercache/randomreplacement/randomreplacement.go, where a number chooses
--     the evicted entry; RandomReplacement.Freshness is about what the cache holds.
--   Settings: the enumerations of pkg/mapper/match.go, action.go and observer.go.
--   Metric: the events of pkg/event/event.go and the types of pkg/mapper/metric_type.go.
--   Utf8: Go's loops over the runes of a string, and utf8.ValidString.
--   Escape: pkg/mapper/escape.go. Escape.Clean describes a name rune by rune; Escape.Loop is
--     about the loop of EscapeMetricName, and Escape.Result about its result.
--   Tags: Parser and the functions for tags of pkg/line/line.go.
--   Line: buildEvent and LineToEvents of pkg/line/line.go; Line.Samples is about lines of samples, and
--     Line.Samples.Parts takes printed lines apart. Floating-point numbers and strconv.ParseFloat are
--     the parameter Floats. All events of a line hold one map of labels, so the labels stand once in
--     the result of a line.
--   Registry: pkg/registry/registry.go and pkg/metrics/metrics.go.
--     Registry.Lookup is about Store and Get, Registry.Stale and Registry.Removal about
--     RemoveStaleMetrics, and Registry.Storing about what Store keeps. The vectors and metrics of the
--     client library are type parameters; Delete on a vector is recorded in order. Registry.Hashing has
--     HashLabels, and Registry.Hashing.Separates tells what it tells apart; Registry.Getting has
--     GetCounter, GetGauge, GetHistogram and GetSummary, Registry.Getting.Again and
--     Registry.Getting.Typed are about them.
--   Relay: pkg/relay/relay.go; Relay.Packets bounds the sizes, Relay.History tells what is sent.
--   Caching: pkg/mapper/mapper_cache.go, the interface of the caches with the laws that the mapper
--     relies on. RandomReplacement.Contract and Lru.Contract fill it.
--   Lru: pkg/mappercache/lru/lru.go, with the package groupcache/lru as a parameter.
--   Config: the structs of pkg/mapper/mapping.go, mapper_defaults.go and mapper.go with their
--     UnmarshalYAML; Config.Patterns has the regular expressions for matches, names and labels.
--   Mapper: pkg/mapper/mapper.go. Mapper has GetMapping and UseCache, Mapper.Cached with its keys tells that
--     the cache changes no answer, Mapper.FirstMapping which mapping answers; Mapper.Load has
--     InitFromYAMLString, Mapper.Load.Ensures, Mapper.Load.Mapping with its steps and Mapper.Load.Checked
--     tell what it takes over, Mapper.Load.Rules what machine it makes. The YAML decoder, package regexp and
--     floating-point numbers are parameters. A call of GetMapping is one step: callers hold the read
--     lock together, and meet only in the cache.
--   Template: pkg/mapper/fsm/formatter.go; Template.Parts and Template.Parts.Formats are about the
--     templates of literals and references, Template.Parts.Meaning says what they mean.
--   Fsm: pkg/mapper/fsm/fsm.go and minmax.go. Fsm has the trie and AddState, Fsm.Backtracking
--     TestIfNeedBacktracking, Fsm.Search the loops of GetMapping, Fsm.Routes what a trie accepts with
--     no search order, Fsm.Bounded the remaining lengths, Fsm.Stack and Fsm.Ordered the search,
--     Fsm.Values, Fsm.Covers, Fsm.Entries, Fsm.Best, Fsm.Rules, Fsm.FirstRule and Fsm.Shadow the
--     meaning of a list of rules, Fsm.Backtracking.Missed what goes wrong without ordering.
--
-- Fuel: only the backtracking loop of GetMapping runs on fuel, 2 ^ n + 1 rounds for a metric of n
-- fields; each depth-only search leaves cursors for less than 2 ^ n further searches, so the fuel is
-- enough, which the theorems on GetMapping include.
--
-- A panic is `none`; times and durations are natural numbers, and RefCount wraps at 2 ^ 64.
--
-- Not modelled: main.go (flags, HTTP, signals), the Prometheus client library, sockets and timers
-- except as events that come in any order, logging, DumpFSM, InitFromFile, the metrics of
-- pkg/mappercache/metrics.go and pkg/clock.
pub mod Address
pub mod Base
pub mod Caching
pub mod Config
pub mod Escape
pub mod Event
pub mod Exporter
pub mod Fsm
pub mod Line
pub mod Listener
pub mod Lru
pub mod Mapper
pub mod Metric
pub mod RandomReplacement
pub mod Registry
pub mod Relay
pub mod Settings
pub mod Tags
pub mod Template
pub mod Utf8
