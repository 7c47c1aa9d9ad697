-- ===== src/Lib.antt =====
-- hamstercam: a daemon that watches a camera device for frames, and an exporter of ffmpeg's progress.
--
-- The daemon drives one capture device through its lifecycle. Its heart is the state machine
-- `CaptureStateMachine` (src/capture_state_machine.cpp), which opens the device, waits for a
-- producer, streams, and releases the device when frames stop or no longer fit the format. It calls
-- the device and the clocks through interfaces, counts into statistics, and emits events.
--
-- Base: shared names, Boolean tests, lists, bytes, machine words.
-- Double: `double` and the functions on it, as a parameter.
-- Backoff: include/hamstercam/backoff.hpp; Backoff.Growth is about the delays.
-- Histogram: include/hamstercam/histogram.hpp; Histogram.Counts is about the buckets.
-- Device: include/hamstercam/capture_device.hpp, src/capture_device.cpp and clock.hpp. The device and
--   the clock are records of operations over a world `W`, which they take and return. Device.Protocol
--   watches the order of calls, Device.Time states that the steady clock never goes back.
-- Stats, Event: include/hamstercam/stats.hpp, capture_state.hpp, error_reason.hpp and event.hpp.
-- Machine: src/capture_state_machine.cpp. Machine.State has the fields and what needs no device,
--   Machine.Actions the private actions, Machine `step` and its cases. Machine.Resting, Protocol,
--   Worlds, Moves (over Transitions), Log, Counters, Tally (over Tallied), Waits, Release, Recovery and
--   Arrivals hold the proofs; Mirror and Watchers are about devices that do alike.
-- Text: what the code takes from strings, split at a byte, and decimal numbers.
-- Progress: src/progress_parser.cpp. Progress.Lines is about chunks and lines, Keys about what a line
--   sets, Numbers about `parse_u64`, Overflow about chunks that are dropped. Progress.Server has
--   src/progress_socket_server.cpp, Connection is about the data of one connection, Lifetime about what
--   the server acquires and releases.
-- Json: src/json_logger.cpp, and Json.Stamp its times. Json.Escape is about `escape`, Levels about which
--   events are written, Read has a reader of lines, Log and Lines are about what it reads.
-- Metrics: src/metrics_primitives.cpp, src/metrics.cpp and src/exporter_metrics.cpp. Metrics.Buckets
--   is about the lines of a histogram, Read has a reader of pages, Pages, Samples and Scraped are about
--   what it reads.
-- Sockets: the system calls of the two servers, as parameters, and a ledger of what they acquire.
-- Http: src/http_server.cpp. Http.Server has the class; Response and Request are about what travels
--   over one connection, Lifetime about what the server acquires and releases.
-- V4l2: src/v4l2_capture_device.cpp, over a record of system calls (V4l2.System). V4l2.Ledger writes
--   down what the calls acquire and release, Leaks is about each operation, Daemon about the state
--   machine over this device, Tries about the loops whose end the kernel decides, Mirror about the
--   device without the ledger.
-- Cli: the command lines of src/main.cpp and src/exporter_main.cpp. Cli.Flags is about `parse_flags`
--   and `resolve`, Values about numbers and durations.
-- ProcessInfo: src/process_info.cpp; ProcessInfo.Status is about the status file.
-- Daemon: src/main.cpp, its settings, pages, sleep, loop and end. Daemon.Loop is about what the loop
--   keeps, Release about what is open behind it, Plain about `main` without what watches it.
--   Daemon.Main has `main` as a whole, Events is about the events of its loop, Ends about its exits.
-- Exporter: src/exporter_main.cpp. Exporter.Servers has the start and the end of its two servers, Ends
--   is about what they have open, Scrape about a page behind a connection, Help about `--help`.
--   Exporter.Main has `main` as a whole, Leaves is about its exits.
-- Tests: runs on concrete inputs and the theorems at them.
--
-- Time points are nanoseconds and durations milliseconds, both natural numbers: the code never
-- forms a negative one, but for differences that it only compares, which are written as sums.
-- Counters wrap at 64 bits, the frame count of the arrival window at 32. Events are a list, the last
-- one first. Atomics and mutexes are left out: each method is one step. A run is as many steps as a
-- list has poll timeouts, so it needs no fuel.
-- The loop of `ProgressParser::feed` has the length of its buffer as fuel, and each turn shortens the
-- buffer. `std::stod` and the printing of a `double` are parts of its parameter, and the text of the
-- current time is an argument of the logger, and `gmtime_r` one of that text. The loop of
-- `write_response` has the length of the response as fuel, and each turn sends a byte. An `ioctl` is
-- tried again, and formats are listed, as often as `patience` and `listing` say: V4l2.Tries says when
-- that is enough.
--
-- The loops of the servers run for as many turns as a number says, since only the stop flag ends them;
-- `read_request_line` has 8192 turns, each of which adds a byte.
--
-- Not modelled: threads and signal handlers, so `main` runs without the turns of its servers. The
-- flag that they set is a part of the world that the loops read.
pub mod Base
pub mod Double
pub mod Backoff
pub mod Histogram
pub mod Device
pub mod Stats
pub mod Event
pub mod Machine
pub mod Text
pub mod Progress
pub mod Json
pub mod Metrics
pub mod Sockets
pub mod Http
pub mod V4l2
pub mod Cli
pub mod ProcessInfo
pub mod Daemon
pub mod Exporter
pub mod Tests
