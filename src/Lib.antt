-- ===== src/Lib.antt =====
-- portwatch is a daemon that polls TCP ports and sends alerts when a port opens or closes. This
-- development models its decision logic and proves what makes each part correct.
--
-- The parts and how they interact. The poller dials the configured ports and the monitor
-- compares each answer with the last one for the same host and port; on a change the daemon runs the
-- actions of the port. The history of events with its HTTP API, and package alert, stand beside this:
-- no code of the repository connects them to the daemon. Package alert is a set of components that each decide about a
-- notification and then pass it to the next one: gates that drop what comes too often or at the
-- wrong time, logs that keep what passed or failed, combinators that choose the target or stop
-- after an error, and limits on the sends that run at the same time. They are composed by
-- wrapping: every component sends through something of the same shape. Here that shape is
-- `Dispatcher W`, a function of a notification and a state `W` that gives an optional error and
-- the next state; a component with a state of its own is a function from `Dispatcher W` to
-- `Dispatcher` of the pair of its state and `W`.
--
-- Which file models what (paths from the root of the repository):
--   - Base and its children: integers, lists, association lists for Go maps, text as bytes,
--     `%d` and `strconv.Atoi`, and what loops gather in any order.
--   - Config: internal/config/config.go. `validate`, `load`; `Valid` says what is accepted.
--   - History.Ring and History.Query: internal/history/history.go and query.go. `Record` is
--     `record_event`.
--   - History.Export: internal/history/export.go, with the writers as arguments; History.Export.Writer
--     is the CSV writer of the library, a buffer that remembers an error of the writer below it. Api: the handlers of internal/api and the
--     routes of its server.go; Api.Server: its `New`, over the multiplexer of net/http, and `Start`.
--   - Monitor: internal/monitor/monitor.go. Poller: internal/poller/poller.go. Action:
--     internal/action/action.go and script.go, and Action.Webhook webhook.go. Daemon:
--     internal/daemon/daemon.go, with the polling and the tracker as arguments; the multiplication
--     of its interval wraps round. Main: cmd/portwatch/main.go, which loads and starts these.
--   - Alert.Notification, Alert.Key: the notification, the errors and the map keys of
--     internal/alert/notify.go, channel.go, throttle.go, escalation_dispatcher.go.
--   - Alert.Limiter, Dedup, Throttle, Window, Circuit, Correlate, Escalation, Suppress,
--     Checkpoint, Filter, Router, Mux, Pipeline, Quorum, Fanout, LoadShed, Bulkhead, Priority,
--     Batch, Digest, Backoff, Observe, Tap, Audit, DeadLetter, Replay: the files of
--     internal/alert with these names and their dispatchers (alert.go for Limiter, routing.go
--     for Router, shedload.go for LoadShed, priorityqueue.go for Priority, pipeline.go and
--     fallback.go for Pipeline).
--   - Alert.Hedge, Retry, Shadow, Sampling, Jitter, Timeout, Channel, Cache, Cached
--     (cache_dispatcher.go) and RateLimit (ratelimit_dispatcher.go) likewise; `Do` of retry.go
--     is `do_request`.
--   - Alert.Metadata is the notification with labels of Alert.Label, Enrich and Transform
--     (label.go, enrich.go, transform.go): the labels are a reference into a store of maps, so
--     that what one holder of a map writes is seen by all.
--   - Alert.Gates puts a deduplicating dispatcher over a throttling one.
--   - Alert.Cooldown, Alert.Sliding, Alert.BoundedLog and Alert.PerKey are interfaces: what a
--     cooldown gate, a sliding window, a bounded log and a map of independent entries promise.
--     The components fill them.
--   - Tests: the theorems applied to concrete inputs.
-- A method keeps its name in snake case; `Record` is `record_event`, `record_notification`,
-- `record_entry` or `record_failure`, since `record` is a keyword.
--
-- How Go is read. A method that holds a mutex is one step, and what it reads from the clock is
-- an argument or comes from a `Clock W`. Where the steps of calls interleave (LoadShed,
-- Bulkhead) they are the constructors of a step relation; where one call waits for several
-- things (Hedge) it is a function of the next event, and its runs are a relation; where
-- goroutines report in any order (Quorum, Fanout, Poller, Shadow) the order is an argument. What
-- other calls do while `Replay` or `Drain` sends, without the mutex, is an effect of its sends. Two
-- gates in a row each read the clock, one after the other.
-- Times are integers, nanoseconds from Go's zero time, and `Sub` saturates as `time.Time.Sub`
-- does; a duration in a hypothesis `IsDuration` lies strictly inside that range. Counters and
-- indices are natural numbers or integers that do not wrap: each is bounded by the length of a
-- list in memory. The one product of durations, in the daemon, wraps round. A nil error is
-- `none`; an error has a constructor for each message of the code. Contexts are passed on unread
-- and are left out, but for the waits that their end cuts short. Logging is left out.
--
-- Fuel. `drain` takes a number of rounds. One more than the size of the queue and what is added to
-- it while it is drained is enough, since each round but the last takes one notification off; where
-- what is added has no bound, the loop of the code has none either. `digits_of` prints `n`
-- with fuel `n + 1`. The attempts of a retry count down from `MaxAttempts`. All other loops run
-- over lists.
--
-- Parameters: the HTTP call, the file system and the YAML reader, the TCP dial, the text of an
-- error, the clock, the power in the backoff, the floating-point numbers of the retry and of the
-- sampler, random numbers, the selects that wait, the CSV and JSON writers, RFC 3339, EqualFold
-- and TrimSpace, the cleaning of a path by the multiplexer of net/http, the commands and every downstream dispatcher are arguments of the definitions
-- that use them. So are functions that the code calls and that the repository does not have:
-- `history.Filter` and `history.Query` of a snapshot, `Update` of the tracker, the polling of
-- the daemon, the `Apply` of the transformer and the `Allow` of the rate limit dispatcher.
-- Records that the code reads with fields that the declared types lack (the actions of the
-- executor, the labelled notification) are declared with the fields that are read.
--
-- Damaged text. internal/alert/cache.go, channel_adapters.go and retry.go and
-- internal/action/webhook.go have lost some characters and do not parse. They are modelled where
-- what is left allows one reading; the TTL that `NewResponseCache` sets is an argument, and the
-- struct of retry.go is left out.
--
-- Not modelled: the listening and the shutdown of the HTTP server, the flags and the signals of
-- the command line, and the lines of the log, which are input and output around the parts above;
-- constructors that only store their arguments.
pub mod Base
pub mod Config
pub mod History
pub mod Api
pub mod Alert
pub mod Action
pub mod Daemon
pub mod Main
pub mod Monitor
pub mod Poller
pub mod Tests
