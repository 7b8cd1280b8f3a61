-- ===== src/Lib.antt =====
-- ConverGO is a collaborative editor of text files: every peer keeps a replica of each file, a
-- WOOT sequence of characters, and peers exchange the operations that were applied to it. This
-- library models the parts of the Go program that decide what a replica holds and how peers and
-- sessions are kept, and proves what they guarantee.
--
-- The parts, and the files that model them:
--   * Cvrdt/Clock (cvrdt/clock.go): vector clocks; `increment`, `update`, `copy`, `get`.
--   * Cvrdt/Character, Cvrdt/Sequence (cvrdt/character.go, cvrdt/string.go): identifiers, their
--     order and the special equality of the limiters; the sequence and its look-ups. A character
--     that Go reaches through a pointer is a `Ref`, its position together with its value.
--   * Cvrdt/Operation (cvrdt/operations.go): logical ids, causality, comparison, operations.
--   * Cvrdt/Site (cvrdt/site.go): one replica. `compute_op` applies an operation of a peer or
--     makes one of the user; `integrate_ins` is the recursion of WOOT; operations that cannot be
--     executed wait in `pending_ops`. The children Integrate, Woot, External, Pending, Edit and
--     Divergence hold the theorems, IsWoot being the invariant of the sequence.
--   * Cvrdt/State (cvrdt/state.go): the sorted state that peers exchange and the document, which
--     gives every new operation to its site and merges the results into its state.
--   * History/Dag (history/dag.go): the causal graph that is built from such a state.
--   * P2p/Message, P2p/Session (p2p/message.go, p2p/session.go): peers and their text form, the
--     sessions of the message broker on a heap of shared objects. The broker's methods are steps;
--     the two halves of `dispatchMessage` around its unlock are two steps.
--   * P2p/Stream (p2p/peer.go): the framing of messages on a connection, header and body.
--   * P2p/Peer (p2p/peer.go): the receive sessions of a connection. What runs under the peer's lock is
--     a step, and `run` takes any list of steps; Channels and Runs hold the theorems.
--   * P2p/Channel (utils/ch.go, utils/errors.go, the flag of p2p/communication.go) and P2p/Transport
--     (p2p/communication.go): the targets of a node with their peers on a heap, `Send`, `Broadcast`,
--     `Add`, `Remove`, `Shutdown`; Transport/Handling has the loop of `handlePeer` turn by turn, with
--     the case that its `select` takes as an argument, and any list of events of a transport.
--   * P2p/Handshake (p2p/hostexhanger.go, p2p/handshake.go): the exchange of infos over a new
--     connection, from one wait to the next, and two parties that take turns. In that exchange of two
--     a message waits until its reader calls `Receive`.
--   * Cluster/Nodes, Cluster/Peers (cluster/clusters.go, cluster/store.go): the node store of a
--     process and the peers that a cluster server has made for its clients.
--   * Cluster/Membership (cluster/cvrdtpeer.go), Cluster/Server (cluster/server.go), Cluster/Client
--     (cluster/client.go): how a replica aligns its connections with a list of peers, the server's
--     handlers, and a client that joins a cluster and diffuses its data over the transport.
--   * File/Registry (file/registry.go, file/context.go): the documents by path. What the file
--     system and the poller answer are arguments.
--   * File/Poller (file/polling.go): the turns of the poller that writes a document to its file.
--   * Command/Results, Command/Parser (command/command.go): the results of commands and how a line
--     of input finds its command; the expansion of variables and the split into fields are arguments.
--   * Command/Registry, Command/Loop (command/commandsA.go, command/loop.go): every command over the
--     node store, with the operations of the client as an interface `ClientOps`, and the loop over lines.
--   * Base: Go's strings as bytes, maps as association lists, `int` as ℤ, and calls that return,
--     panic or go on (`Outcome`).
--
-- Integers and bounds: the clocks' bound is written out, as is the 32-bit wrap-around of sequence
-- numbers (kept as their bit pattern) and the 64-bit one of peer numbers; `int` additions that
-- can wrap are written out in `add_one_int`.
--
-- Fuel: `integrate_ins` and the functions on top of it, and the binary search, recurse on fuel.
-- For the search the length of the state is enough, and for an insertion into a sequence with the
-- invariant its length is. Where no fuel is enough, a theorem says so.
--
-- Not modelled: sockets, deadlines and listening, the JSON codecs and envelopes (arguments of the
-- steps that use them), the handlers of a replica for PUSH and PEER_CONNECTION, the wiring of nodes
-- and goroutines, signals and the terminal, the poller's start and stop, its failing writes, the repository, configuration
-- and logging, and the printing of the causal graph. They are input and output around the parts
-- above, or work for a later extension.
pub mod Base
pub mod Cluster
pub mod Command
pub mod Cvrdt
pub mod File
pub mod History
pub mod P2p
