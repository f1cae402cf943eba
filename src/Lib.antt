-- ===== src/Lib.antt =====
-- A verification library for mavlink-router-rs, a router of MAVLink frames between serial, TCP and
-- UDP endpoints.
--
-- The program reads bytes from its endpoints, cuts them into frames, and hands each frame to one router
-- task, which decides for every other endpoint whether the frame goes into its transmit queue.
--
-- - Mavlink (src/mavlink): `Frame` and `Crc` hold the wire format of frame.rs, msgid_table.rs and
--   crc.rs; `Framer` is framer.rs: a buffer of bytes, two counters, and `try_next_frame`. The loop of
--   `try_next_frame` runs on fuel, one round more than the buffer has bytes; every round that does
--   not return takes a byte, so the fuel is enough. The table of msgids, which the build generates,
--   is the parameter `sorted`.
-- - Endpoint (src/endpoint): `Filters` is the evaluation of filters.rs and the record of
--   identity_flags.rs, `Stats` stats.rs, `TxQueue` tx_queue.rs, `SeqTracker` seq_tracker.rs,
--   `Session` the session of session.rs with its loop over what it takes, and `Backoff` the delays
--   of backoff.rs. `Reconnect` is the loops of tcp/client.rs and serial.rs: one function for each place
--   where a loop waits, and the runs of `Reconnect.Steps`, in which the router pushes and the session
--   pops in any order.
--   The bounded queue of the crate crossbeam-queue is the interface `TxQueue.ArrayQueue`, with the
--   behaviour that the crate documents; `TxQueue.Bounded` is an instance.
-- - Router (src/router): `Learn`, `Dedup`, `Group` and `Decide` are learn.rs, dedup.rs, group.rs and
--   decide.rs; `Registry` is the router task of mod.rs with the events of endpoint/events.rs: its `State`,
--   the handlers of `Events` and of `Frames`, and the `Task` that runs them.
--   The task's loop is a run over the events and frames in the order in which it takes them.
-- - Reporting (src/stats.rs): the mirror of the registry and the bounded queue of lines.
-- - UdpServer (src/endpoint/udp/server.rs): the table of peers of a `udps:` listener.
-- - UdpClient (src/endpoint/udp/client.rs): the latch of a `udpc:` endpoint on its peer, and the loop
--   over the events that it takes.
-- - Spec (src/endpoint/spec, with the parsers of src/endpoint/filters.rs and identity_flags.rs): from
--   the string of an endpoint to its `EndpointSpec`: `Error`, `Names`, `FilterLists`, `Address`, `Kinds`,
--   `Query`, `Body` and `Build`. A string is the list of its characters. The parser and the printer of
--   IP addresses and the distance of two keys are parameters.
-- - Config (src/config.rs, src/parsers): `Merge` merges the file and the command line and validates
--   the result, `Cli` converts argv, and `Toml` the tables of the file.
-- - Base: lists, words, keyed tables and vectors of entries that the modules share.
--
-- A point in time and a duration are numbers: nanoseconds where the source converts seconds or
-- milliseconds, and milliseconds in `Backoff` and `Reconnect`. Bytes and words are numbers, too: where
-- the source wraps around or saturates, the definitions say so. A hash map is an association list, whose order
-- stands for the iteration order. Counters and queues behind an `Arc` are reached by a handle into
-- a store. Channels, clocks and hashes are arguments.
--
-- Not modelled: sockets, timers, task creation and cancellation, the accepting of TCP
-- connections, logging and the texts of messages, the reading of argv and of TOML by their
-- crates, and the build scripts.
pub mod Base
pub mod Mavlink
pub mod Endpoint
pub mod Router
pub mod Reporting
pub mod UdpServer
pub mod UdpClient
pub mod Spec
pub mod Config
