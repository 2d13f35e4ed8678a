-- ===== src/Lib.antt =====
-- prec: the audit log of executed commands, its query language and its daemon's rules.
--
-- The program has two halves. The daemon (cmd/precd) reads events from the kernel
-- (internal/collector), completes them from /proc (internal/events), drops those that its rules
-- refuse (internal/filter, with the settings of internal/config) and appends the rest to log files
-- as start and end records (internal/logger). The command line tool (cmd/prec, internal/cli) reads
-- the logs, joins start and end records into rows, keeps the rows that a query matches
-- (internal/query) and prints the newest of them.
--
-- Which file models which code:
--   Base                 numbers, lists, arrays and results that all parts share
--   Text                 Go strings as code points; what the code uses of strings, strconv and fmt
--   Event                internal/events/event.go: CommandEvent; internal/events/source.go: its constants
--   Event.Build          internal/events/event.go: BuildCommandEndEvent, BuildFileOpenEvent,
--                        BuildFileSaveEvent, BuildCollectorLossEvent
--   Event.Source         internal/events/source.go: classifyCommandSource, ClassifyFileEventSource
--   Query.Duration       internal/query/filter.go: ParseDurationValue, FormatDurationValue
--   Query.Operator       internal/query/filter.go: findOperator, compareInt64, compareTime, compareString
--   Query.Field          internal/query/filter.go: fieldTypeFor, numericValue, stringValue, timeValue
--   Query.Split          internal/query/filter.go: splitByDelimiter, splitByAndDelimiters
--   Query.Clause         internal/query/filter.go: parseClause and its five kinds of fields
--   Query.Filter         internal/query/filter.go: Build, Filter.Match, SpecHasKey
--   Join                 internal/cli/event_merge.go: mergeEventForStreaming, mergeEventsForList
--   Join.InPlace         internal/cli/event_merge.go: mergeEventsForList in the array that it reads
--   Window               internal/cli/event_collection.go: eventWindow
--   Collect              internal/cli/event_collection.go: collectFilteredEventsWithJoin behind its
--                        fast path, collectFilteredEventsStreaming, appendEventsFromLog
--   Capture              internal/collector/capture_filter_linux.go: compileCaptureFilter, parseCaptureClause
--   Collector            internal/collector/collector_linux.go: what Service keeps, and the loop of Run
--   Collector.Sample     internal/collector/collector_linux.go: parsePerfSample
--   Collector.Process    internal/collector/collector_linux.go: handleProcessExit, finalizeEvent
--   Collector.Open       internal/collector/collector_linux.go: buildFileOpenEvent, rememberDuplicatedFile
--   Collector.Written    internal/collector/collector_linux.go: buildRegularFileSaveEvent
--   Collector.Paths      internal/collector/collector_linux.go: shouldRecordFileEvent and its scopes
--   Collector.Saves      internal/collector/collector_linux.go: shouldSuppressDuplicateFileSave
--   Collector.Lost       internal/collector/collector_linux.go: handleLostSamples
--   Output.Fields        internal/cli/output_formatter.go: parseOutputFields
--   Output.Values        internal/cli/output_formatter.go: outputFieldValue, formatTimestamp
--   Output.Format        internal/cli/output_formatter.go: newOutputFormatter and the four formats
--   Output.Sanitize      internal/cli/output_formatter.go: sanitizeTerminalText
--   Output.Tree          internal/cli/output_formatter.go: renderEventTreeWithFormatter
--   App                  internal/cli/app.go: effectiveQuerySpecs, validateModeFlags
--   Logger               internal/logger/jsonl.go: JSONLWriter and its calls
--   Rules                internal/filter/filter.go: NewMatcher, compileRule, Matcher.Match
--   Config               internal/config/config.go: Default, the part of Load behind loadConfig
--   Tests                the theorems at concrete inputs
-- A function keeps its name in snake case. Modules below these hold proofs.
--
-- A Go error is a value of an error type with what its message quotes; a nil pointer is `none`; a
-- map is an association list. A Go string is a list of code points, so it is taken to be valid
-- UTF-8; every text that the code searches for is ASCII, and cutting by code points is then
-- cutting by bytes. `time.Parse` enters as `TimeParser`, and `unicode.ToLower` outside of ASCII as
-- `lower_rune`; nothing is assumed of either.
--
-- The loop of `Service.Run` takes a list of what the reader gives, each with a `World`: what /proc, the
-- clock and the writer answer while that one is handled. Nothing is assumed of these answers but where a
-- result names it: that what is built for a process counts no lost samples, which internal/events/event.go
-- sets in BuildCollectorLossEvent alone.
--
-- Loops are structural, with two on fuel. The loop of `splitByDelimiter` gets one more than the
-- length of the text, of which each round takes off the delimiter; running out would be the error
-- `out_of_fuel`, and `tokens`, with which it is compared, has no such error. The digits of n are
-- computed on fuel n + 1.
--
-- Not modelled: the eBPF programs of the collector and what `Run` sets up before its loop; files,
-- locks and signals (I/O); the error that a json.Encoder keeps once a write has failed, so that
-- what a later write answers is left open; the wrap-around of the window for repeated saves, which
-- Load bounds; the TOML, JSON, CSV, gzip and zstd encoders and decoders (third-party or standard;
-- they are parameters of Collect, Output.Format and Logger, where these use them); and as yet the
-- fast path for compressed logs, the eBPF instructions of the capture filter, configuration
-- includes, the parsers of /proc, the choice of the log files and follow mode.
pub mod Base
pub mod Text
pub mod Event
pub mod Query
pub mod Join
pub mod Window
pub mod Collect
pub mod Capture
pub mod Collector
pub mod Output
pub mod App
pub mod Logger
pub mod Rules
pub mod Config
pub mod Tests
