-- ===== src/Lib.antt =====
-- A verification library for swarm-p2p: a peer-to-peer node on libp2p (the crate core), and a server
-- that helps such nodes find one another (the crate bootstrap).
--
-- The program. A user holds a client, core/src/client, whose methods each make a command and await
-- its future. The command goes through a channel of 32 entries to the event loop,
-- core/src/runtime/event_loop.rs, which owns the libp2p swarm. The loop runs the command on the
-- swarm and keeps it active; every event of the swarm then goes through the active commands, and
-- each may consume it or hand it on. A command that is done finishes its handle, which wakes the
-- future. An event that no command consumes becomes an event for the user. Requests of other peers
-- leave a reply channel in a map with a time to live, core/src/pending_map.rs, from which the
-- user's answer takes it. Data channels, core/src/data_channel.rs, are streams with a quota for
-- each peer, direction and protocol.
--
-- The files.
--   Prelude: names of the library, Boolean tests, lists, maps by key, words of 64 bits.
--   Error, Event: core/src/error.rs and core/src/event.rs.
--   Swarm: what the program uses of libp2p. Types that the program never looks into are the
--     parameter Types. The swarm is the parameter Swarm: its answers are functions of the calls made
--     so far, which every operation here records, newest first. Nothing is assumed of these answers,
--     but where a theorem names a hypothesis.
--   DataChannel: the registry as try_acquire and drop_guard on its counters; Quota and Bounds relate
--     the counters to the guards that are alive; Open is the future of
--     core/src/client/data_channel_open.rs as poll_open, and OpenQuota its account of the quota.
--   PendingMap: insert_pending, take_pending, purge_expired; History runs them in any order, and
--     Cleaner puts them on one time line with the cleaner task.
--   Handle: ResultHandle of core/src/command/handler.rs and CommandFuture of
--     core/src/client/future.rs as poll_command, finish, cancel and drop_future.
--   Command: the interfaces of core/src/command/handler.rs; Peer, ReqResp, Kad and KadQueries have
--     run_ and on_event_ functions for the commands of core/src/command; KadStreams says what a
--     whole query comes to; Listing is the listing of addresses; Active puts commands of all kinds
--     in one list.
--   Chain: the loop of handle_swarm_event over the active commands, with swap_remove.
--   EventLoop: the state of the event loop, and its methods under their own names: Relay, Lan,
--     Convert (convert_to_node_event), Inbound, and Run (handle_command, handle_swarm_event, and a
--     turn of run).
--   Client: Client itself has send_response of core/src/client/req_resp.rs; Request has the options
--     of core/src/request.rs and a request with its timeout, as poll_request; Net has NetClient, its
--     methods and the event receiver; Call puts a method's future and the command's task at the event
--     loop together, over the handle that they share.
--   Node: the start of a node, in core/src/runtime/node.rs: start with the answers of the swarm's
--     builder, and start_node from the swarm on. Process is a whole node: the event loop,
--     the futures that open data channels and the channels that the user holds, over one registry and
--     one counter of ids, with the moves of each in any order; Quota, Ids, Lan and Relay
--     follow these through, and Replies adds the answers of clients and the cleaner.
--   Config: core/src/config.rs, and in Build the setters and what core/src/runtime/behaviour.rs
--     makes of a configuration.
--   Bootstrap: the crate bootstrap. Bootstrap itself is behaviour.rs, Identity util/identity.rs over a
--     file system that may fail, Serve lib.rs, Cli and Process main.rs, with main from the arguments to
--     the end of the server's loop.
--   Examples: a concrete network on which the theorems are applied.
--
-- Numbers. Counters that wrap have their 64 bits written out (word_add); identifiers that the code
-- only compares are numbers. Durations and times are numbers, the clock is an argument, and the
-- difference of two times stops at 0, as the code's does. Texts are strings, without Display of
-- third-party errors, which is the swarm's to give.
--
-- Fuel. Only the loop over the active commands has fuel, the number of commands at its start: each
-- turn looks at a command that no earlier turn has looked at, since it advances or removes one, and
-- the theorem on the loop covers every command.
--
-- The channel to the user is the list of the events put into it. A send that waits for room always
-- ends; the status of a LAN helper is dropped when the channel has no room.
--
-- Not modelled: the assembly of transports in core/src/runtime/node.rs, log lines of the crate core,
-- serialisation, Debug output and plain accessors, the parsing of a command line, and the tests.
pub mod Prelude
pub mod Error
pub mod DataChannel
pub mod PendingMap
pub mod Handle
pub mod Swarm
pub mod Command
pub mod Config
pub mod Chain
pub mod Event
pub mod EventLoop
pub mod Client
pub mod Node
pub mod Examples
pub mod Bootstrap
