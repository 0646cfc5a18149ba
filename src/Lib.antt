-- ===== src/Lib.antt =====
-- A model of atomic-queue, a small message queue between local processes: a daemon keeps a queue
-- of payloads for each channel in memory, and clients push to a channel or pop from a list of
-- them over a Unix socket.
--
-- The parts, and the files that model them:
--
-- Prelude, with Prelude/Tests, Lists, Places, Keys and Int: Boolean tests, list lemmas, what
-- stands at a place of a list, equality of byte strings, int64 as 64-bit patterns. Limits: the
-- constants of main.go and protocol.go. Fault: the errors, a constructor for each place that
-- makes one, and Fault/Text, what `Error()` gives for them.
--
-- Channel (main.go: validateChannel, validatePayload), with Channel/Pattern, the regular
-- expression `channelPattern` as an inductive predicate.
--
-- Broker (broker.go): Broker/Queues is the map of queues, Broker/Waiters the list of blocked
-- pops, and Broker/Ops the record Broker with a function for each stretch of code under the
-- mutex: push_turn (a round of the loop of push), pop_turn (the locked part of Pop), pop_queued
-- (popQueuedLocked), cancel_turn (the second locked part of Pop). Broker/Served and Valid hold
-- the invariant, Cases and PopCases what each operation does, Invariant that it keeps the
-- invariant, Fifo the abstract view, a queue for each channel; Sections runs the stretches in any
-- order, and InOrder says what order the messages have.
--
-- System (broker.go): any number of goroutines in push and Pop. A Phase says where a goroutine
-- stands, Move is what it does next, Step is a call, the end of a context, or a move of one
-- goroutine, and Reach is what can happen after NewBroker. System/Paths has several steps at
-- once; System/Grows and Invariant keep the broker valid, Weights and Conservation count
-- messages; Logs and Linear read the steps as a sequence of the broker's sections; Buffers,
-- Tickets and Replies follow a reply channel from the waiter to the sender and the receiver;
-- Handoff and Stall say what that means for a single push or pop, and Turns whose turn it is
-- among the waiters.
--
-- Protocol (protocol.go): Stream has readers and writers over explicit streams, Frames the fields
-- with a length, Request and Response the four functions readRequest, writeRequest, readResponse
-- and writeResponse. Fields, Wire and RoundTrip relate writers and readers, Local and Shrinks are
-- about what a reader does with its input.
--
-- Server (main.go: handleConn): a connection of the daemon over the two operations of the broker
-- that it calls, a record Calls. Server/Loop is about the loop, Server/Rpc models rpcClient and
-- sends a request through the daemon and back. Server/Live fills Calls with the broker itself:
-- PushOwned and Pop as the handler calls them. Server/Requests and Session have the lemmas on a
-- connection with many requests, and Server/Order puts the wire, the handler and the broker
-- together; Server/Gone is about a client that has hung up. Server/Possible and Runs compare the
-- calls of Live with the goroutines of System; Server/Expired is the simplest case of what others
-- can do.
--
-- Cli (main.go): Cli/Number reads options and numbers, Cli/Push, Pop and Serve the command lines
-- (parsePushArgs, parseArgs and parsePopArgs, parseServeArgs), Cli/Connect is newRPCClient with
-- ensureDaemon, Cli/Run has runPush and runPop with their exit codes, which Cli/Run/Pushed and
-- Codes follow through the daemon, Cli/Paths defaultSocketPath and its suggestions, Cli/Usage
-- printUsage, and Cli/Main the choice of the subcommand and runServe. Each Tests file evaluates
-- the definitions of its part on concrete input.
--
-- Notifier (main.go: newBlockNotifier): the calls of the notifier as steps of any number of
-- goroutines, with Notifier/Spacing about the clock they share and Notifier/Notices about their
-- notices.
--
-- Watcher (conn_watcher.go, and what handleConn does before and after its loop): register,
-- unregister and run as steps of any number of connections, of a kernel that reuses file
-- descriptors, and of its events. Watcher/Table is the map of cancel functions, Watcher/Owned,
-- with Moves and Events, the invariant that ties it to the connections, Watcher/Held the time
-- between the lookup of run and its call of cancel; Exact and Stale say whom an event cancels.
--
-- Daemon (main.go: removeStaleSocket, serve): what stands at the socket's path, and the processes
-- that start and stop there, with Daemon/Starts about one start and about two at a time, and
-- Daemon/Alone about starts and stops that do not overlap, and Daemon/Stops about a start during
-- a stop. Daemon/Serve is `serve` from its start to its end, with the accept loop, and
-- Daemon/Ends says how it ends.
--
-- Stress (stress.go): Stress/Csv is splitCSV, Stress/Config parseStressArgs, Stress/Counts the
-- numbers of workers, Stress/Payload makeStressPayload, Stress/Workers the warm-up, the
-- publishers and the consumers of runStress, each on a connection that lasts over many requests
-- (Stress/Workers/Stops), and Stress/Report runStress as a whole: the workers, the sum of their
-- counters and what is printed, with Stress/Totals about those numbers; Stress/Sums has the
-- counters of single workers and their sums.
--
-- Standalone (examples/go/standalone-client/main.go): a client for users to copy, with its own
-- writer and reader of the wire protocol; Standalone/Agrees compares it with Protocol and runs it
-- against the daemon. Standalone/Dial has Dial with ensureDaemon, Standalone/Paths the paths of
-- the socket and of the executable, Standalone/Main the program, and Standalone/Whole runs it
-- against the daemon with its broker.
--
-- Load (examples/go/stress/main.go): a load generator for users to copy, with its own splitCSV,
-- which Load/Csv compares with that of stress.go, and its workers in Load/Workers, which
-- Load/Runs is about. Its client, in Load/Client, is a copy of the standalone one, and uses the
-- definitions of Standalone. Load/Generator is the program from its flags to the numbers of its
-- report, which Load/Totals is about, and Load/Output what it prints.
--
-- Not modelled: connFD and the end of the watcher, which are calls of the operating system; the
-- umask at the creation of the socket; reading the flags of the load generator, which the package
-- flag does; messages on stderr; the clients in other languages. A Pop that waits forever is a
-- goroutine of System that stays in its wait; the handler of a connection is modelled for calls
-- that return.
--
-- Choices. A goroutine that waits for a mutex, a send, a receive or a signal is one whose Move is
-- not there yet; the scheduler is the choice of the next Step. A reply channel has a buffer of
-- one, and a send is possible only when it is empty. The contexts of pushes and pops end at any
-- time; deadlines are not measured. A write fails only at Flush, when the peer is gone. The int64
-- fields of the broker are 64-bit patterns; that the sum of its limits is below 2^63 is part of
-- IsValid. handle_conn runs on fuel: one round more than the client sends bytes is enough when
-- the calls of the broker return. Go's `%q`, `%d` and the texts of the operating system and
-- whether `make` can give a slice of some length (else it panics) are parameters, the fields of
-- Format; so are `time.ParseDuration`, `strings.TrimSpace`, the random numbers of stress.go, the
-- fields of Host (what dials before and after the start of the daemon, that start and the clock
-- come to) and the fields of Others (what other goroutines do to the broker before a call takes
-- the mutex and while it waits). The fields of Place and Program are what the environment and the
-- package filepath give, those of Answers what the operating system answers to `serve`, and those
-- of World what one run of the program gets from outside. A stress worker reads the clock in each
-- round, so it runs for a given number of rounds, in a Scene; the duration and the rates, numbers
-- with a fraction, are texts that are given, and so is what encoding/json writes.
pub mod Prelude
pub mod Broker
pub mod Channel
pub mod Cli
pub mod Daemon
pub mod Fault
pub mod Limits
pub mod Load
pub mod Notifier
pub mod Protocol
pub mod Server
pub mod Standalone
pub mod Stress
pub mod System
pub mod Watcher
