-- ===== src/Lib.antt =====
-- codex-acp-v2: an agent for the Agent Client Protocol in front of the Codex app-server.
--
-- A client talks ACP over standard input and output; the agent keeps one app-server as a child
-- process, opens threads on it for the client's sessions, delivers the events of each session in
-- order, and turns the callbacks of the app-server into requests that the client can answer.
-- Extensions of the protocol are used only as far as the client has negotiated them.
--
-- The files and the code they model (paths from the root of the repository):
--
--   Common          helpers of Rust's standard library: options, results with `?`, lists, maps and
--                   sets of texts, formatted texts.
--   Json            documents of serde_json and the accessors that the code calls. A number is an
--                   integer of 64 bits without a sign, a negative one, or another number, which stays
--                   opaque.
--   Extensions      src/extensions.rs. Methods: the method tables. Negotiation: Negotiation::from_meta
--                   and from_initialize_meta, with a specification of the metadata. Policy: authorize
--                   and its checks of references.
--   Input           src/input.rs: the content of a prompt as input of the app-server.
--   AcpTransport    src/acp_transport.rs: bounded_line, the stream of lines and the sink. A reader is
--                   the list of the buffers it hands out.
--   Backend         src/backend/mod.rs, src/backend/transport.rs. Requests: the endpoint, request,
--                   notify, respond, send and the guard of a slot. Frames: dispatch of a decoded frame
--                   and what supervise leaves; Frames.Connection is the relation of the steps that
--                   requests, the reader, the server and the supervisor make in any order.
--   Server          src/server/mod.rs: the state of a connection with its sessions. A session is
--                   shared by reference, so the state holds a store of sessions by address.
--   Server.Ownership  src/server/ownership.rs: owner_for_thread. The lookup waits for the backend, and
--                   other tasks may change the state at each wait: `others` is that change.
--   Server.Delivery src/server/dispatch.rs: the queue of a session, its one task, and
--                   route_session_event. Delivery.Steps is the relation of the steps of a queue.
--   Server.Streams  src/server/resources.rs: the subscriptions to streams of MCP servers.
--   Server.Callbacks  src/server/events.rs, server_request with answer_callback, and
--                   Server::cancel_interactions of src/server/mod.rs: the admission, the answer and the
--                   end of a request of the app-server. At most 128 wait at once.
--   Server.Notifications  src/server/events.rs, notification: what a notification changes in its
--                   session and sends to the client.
--   Server.Pump     src/server/events.rs, event_pump, up to the routing of an event: the events that
--                   are held while a session is set up. Pump.Ordered is the relation of its rounds.
--   Server.Pages    src/server/mod.rs, models, with the loop over pages that it shares with the replay
--                   of a history.
--   Server.History  src/server/history.rs: the replay of a thread, its turns and its descendants, and
--                   the replacement of a history.
--   Server.Controls src/server/controls.rs: changes of the settings, the wait for their confirmation,
--                   and the cancellation of a turn.
--   Config          src/config.rs. Settings: from_response and the tests of whether settings agree.
--                   Options and Patch: the options shown and the patch of a chosen value. Metadata and
--                   Threads: the metadata of a session's requests and the parameters of its threads.
--   Interactions    src/interactions/. Callbacks: the choice between the others. Permission: approvals
--                   of commands, files and permissions. McpApproval: approvals of tool calls.
--                   Elicitation: questions, forms and links, with Elicitation.Schema for
--                   src/interactions/schema.rs, and the resolvers of all.
--
-- How the code is modelled. An error is a value of `Result` in a type of the component's own; a
-- message that no code reads is the name of the error. A task that is spawned, and a wait for a
-- channel or a timer, is a step of a relation or a parameter that tells what came of it. An integer
-- of the machine keeps its bound where the code checks it (checked_add of the frame position,
-- saturating_add of lengths, fetch_add of request ids, which the steps of a connection keep from
-- wrapping). The loop of owner_for_thread runs 32 times in the source, and the model takes the same 32
-- as its fuel, so that no fuel is added; the loops over
-- pages run the 100, 64 or max_replay_items rounds of the source and end in its error of too many
-- pages; the stream of lines runs on fuel, and the theorem about it holds for each fuel above the
-- number of lines.
--
-- Parameters stand for code that is not in the repository: the length of an encoded document, the
-- decoding of UTF-8, of base64 and of RPC errors, the printing of a document, the schema types of the
-- protocol, the order of floats, and the responses of the app-server and of the client. What other
-- tasks do while a handler waits is a parameter too: a wait for a change of a session is a list of the
-- wake-ups, and its end is the time-out. The projector, which makes updates of items, is a parameter of
-- the replay and of the notifications until it is modelled.
--
-- What is not modelled. The app-server process (spawn, kill, pipes), the HTTP server of client
-- MCP servers and the lookup of executables are input and output. In the event pump, the end of the
-- connection and the closing of channels are left out. The projection of items to updates, the
-- handlers of requests, teardown and the life cycle of sessions are components of their own, which
-- these files do not reach yet.
pub mod AcpTransport
pub mod Backend
pub mod Common
pub mod Config
pub mod Extensions
pub mod Input
pub mod Interactions
pub mod Json
pub mod Server
