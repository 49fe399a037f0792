-- ===== src/Lib.antt =====
-- A verification library for the Copilot SDK for C++: the JSON-RPC connection to the runtime, the
-- framing of its messages, and the parts of the client that stand on them.
--
-- Parts, and the files that model them:
--
-- Framing (include/copilot/transport.hpp, class MessageFramer). Framing.antt has the framer's
-- fields and its methods fill_buffer, read_line, read_exact and read_message as actions that may
-- throw; Framing/Header.antt has the header line, std::stoull and the frame of write_message. The
-- transport is a parameter (Framing/Input.antt): a read gives the next piece of a byte stream, of
-- any size, and an empty piece at its end only. Framing/Parser.antt is the specification, a parser
-- of the byte stream without a buffer; Framing/Refinement.antt compares the two, and
-- Framing/RoundTrip.antt and Framing/Soundness.antt draw the consequences.
--
-- Messages (include/copilot/jsonrpc.hpp). Rpc/Message.antt has requests, error objects and
-- responses and their to_json and from_json. nlohmann::json is a parameter with its documented
-- laws (Json.antt): values, objects built from members, at and contains.
--
-- The client (include/copilot/jsonrpc.hpp, class JsonRpcClient). Rpc/Pending.antt is the map of
-- pending requests, Rpc/Client.antt the critical sections of invoke, invoke_sync, handle_response,
-- timeout_loop, read_loop, start and stop, as functions of the client's state, in which a promise is
-- named by the id of its request. Rpc/Client/Steps.antt runs them in any order, as the threads may.
-- Rpc/Dispatch.antt is dispatch_message with what it calls; the user's handlers and whether a write
-- throws are parameters.
--
-- Launch (include/copilot/types.hpp, src/client.cpp, src/process_posix.cpp). Launch.antt has the options of a client and its
-- constructor up to the parse of the URL; Launch/CommandLine.antt is build_cli_command_args,
-- Launch/Environment.antt is build_cli_environment, and what a child process on POSIX makes of it. The
-- runtime's flags are read back by a reader of flags (Launch/CommandLine/Reading.antt), and the
-- environment, with what is inherited, is compared with a table of variables.
--
-- Inference (src/request_handler.cpp, class CopilotRequestHandlerBridge). Inference.antt is what
-- complete_http sends for the reply of the user's handler, with every send a chance to throw, before
-- its message went out or after, and the cancellation as it is seen at each of its three tests.
-- Inference/Exchanges.antt is handle, for the start and the chunks of a request, and cancel_all, over
-- a store of exchanges, where each call of a WebSocket handler may throw.
--
-- Quoting (src/process_win32.cpp). Quoting.antt is quote_argument and build_command_line over bytes;
-- Quoting/Splitting.antt reads a command line by the rules that Windows documents.
--
-- Timestamp (include/copilot/types.hpp, namespace detail). Timestamp.antt is parse_fixed_decimal and
-- parse_iso8601_timestamp up to the sum of the fields; Timestamp/RoundTrip.antt writes timestamps out.
--
-- Runtime (src/client.cpp, class Client). Runtime.antt is connect_to_server and what it calls, as
-- actions on the client's fields that may throw; the system calls, the runtime's answers and the port
-- that it announces are a parameter. Runtime/Protocol.antt is verify_protocol_version,
-- Runtime/Startup.antt is start, Runtime/Shutdown.antt is stop and force_stop.
--
-- Session (src/session.cpp, src/client.cpp). Session/Subscriptions.antt is on, the cancel of a
-- subscription and the loop of dispatch_event over the handlers, whose code is a parameter.
-- Session/Tasks.antt is the background tasks that dispatch_event starts, each on its own: the tool, the
-- permission and the user's input, and in Session/Tasks/Authorisation.antt the authorisation; the
-- handlers, the calls and the moments at which a cancellation is seen are parameters.
-- Session/Waiting.antt is send_and_wait, as a function of the events that its handler notes,
-- Session/Hooks.antt is handle_hooks_invoke, and Session/Modes.antt the wire names of the modes and of
-- the tiers of automatic routing. Session/Lifecycle.antt is on_lifecycle of the client, over a vector
-- whose elements have addresses; a buffer that is allocated later has another address.
--
-- Requests (src/client.cpp). Requests.antt has handle_tool_call, handle_permission_request,
-- handle_user_input_request, handle_hooks_invoke and the three handlers of one shape (elicitation, exit
-- of the plan mode, switch of the mode); Requests/Tokens.antt is handle_github_token_request, and
-- Requests/Routing.antt the request handler that connect_to_server sets. The read of an absent member
-- with operator[] of a constant value is undefined in C++; here it stops the handler with no_member.
--
-- Directory (src/client.cpp). Directory.antt is what create_session and resume_session do to the map of
-- the sessions; the runtime's response and the exceptions of the later steps are parameters.
-- Directory/Building.antt is append_session_config with its callers, where
-- Directory/Config.antt has the fields that are copied and the keys that they are copied to. Directory/Models.antt is
-- list_models and set_on_list_models as the critical sections of their locks.
--
-- Transports (include/copilot/transport_tcp.hpp, transport_stdio.hpp). Transports.antt has the calls of
-- the operating system as a parameter, and the loop of both writers; Transports/Tcp.antt is TcpTransport
-- with a history of its descriptors, Transports/Stdio.antt is StdioTransport and Transports/Pipes.antt is
-- PipeTransport. The branches for Windows and for POSIX are chosen by the platform of the system.
--
-- Tools (include/copilot/tool_builder.hpp). Tools.antt has the C++ types of a tool's parameters as
-- shapes, each with the type of its values, their schemas and extract_arg; Tools/Building.antt has the
-- fluent builder, whose parameter pack is an index, Tools/Structs.antt the struct builder and
-- Tools/Functions.antt make_tool. The tool's own function and nlohmann::json's get are parameters. A name that make_tool would
-- read past the end of its list is an error here; the check of the count keeps it from being read.
--
-- Url (src/client.cpp). Url.antt is parse_cli_url over bytes, with the one regular expression that it
-- compiles written out as a matcher.
--
-- Extensions (src/canvas.cpp, src/factory.cpp, src/session.cpp). Extensions.antt has a canvas, its
-- constructor and handlers, and the session's handle_canvas_request; Extensions/Factories.antt has
-- define_factory and the session's factories. The extension's own functions are parameters.
--
-- Events (include/copilot/events.hpp). Events.antt is parse_session_event, with the event types
-- (Events/Types.antt), their names (Events/Names.antt) and the struct that each type's data is read as
-- (Events/Payloads.antt); the structs and their from_json are a parameter.
--
-- Filters (include/copilot/types.hpp). Filters.antt is the class ToolSet, whose filters a session's
-- configuration takes.
--
-- Tests has the theorems at concrete inputs.
--
-- Fuel: the loops of read_line, read_message and fill_buffer have no bound in the source. One
-- unit of fuel for each byte of the stream, and one more, is enough for a whole call of
-- read_message; fill_buffer has fuel for its own argument, read_exact for the bytes that it asks
-- for, and the loop that writes has a unit for each byte to be written.
-- 64-bit and 32-bit integers have their bounds as hypotheses where a value is written and read back,
-- and std::stoull its 64-bit range and its wrap-around for a minus sign. The greatest size that the
-- allocation of a message grants is a parameter.
--
-- Not modelled: the transport of the in-process library, the spawning of a process, the waiting
-- of a future, condition variables and memory order, the generated protocol types and the field-
-- by-field codecs of event payloads, and the calls that only pass a request on.
pub mod Prelude
pub mod Framing
pub mod Json
pub mod Rpc
pub mod Directory
pub mod Events
pub mod Extensions
pub mod Filters
pub mod Inference
pub mod Launch
pub mod Quoting
pub mod Requests
pub mod Runtime
pub mod Session
pub mod Timestamp
pub mod Tools
pub mod Transports
pub mod Url
pub mod Tests
