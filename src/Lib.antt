-- ===== src/Lib.antt =====
-- tunnel-proxy: a reverse tunnel in C++. An agent behind a NAT connects to the server and stays
-- connected; the server opens sessions over that connection, for external clients and for the
-- Guacamole gateway, and frames carry the bytes of all sessions in both directions.
--
-- The parts, and the files that model them:
--   Protocol        src/tunnel_protocol.cpp: serialize, parse_header, parse_frame, the make_ functions
--                   and the two payload parsers, under their names. Types has the frame of
--                   include/core/tunnel_protocol.h; a message type is an enumerator or `unnamed`.
--   Socket          recv_exact, recv_frame and the loops around send, which src/tunnel_server.cpp
--                   and src/tunnel_agent.cpp have in the same form.
--   TunnelMetrics   src/tunnel_metrics.cpp: the counters, which wrap around at 2 ^ 64.
--   TunnelServer    src/tunnel_server.cpp. State is the object; handle_agent_connection is
--                   accept_agent, then handle_agent_frame for every frame, then unregister_agent;
--                   handle_external_connection and connect_via_tunnel are the steps of Clients, cut
--                   where their thread waits; watchdog_loop and stop are in Shutdown. Events
--                   interleaves the threads.
--   TunnelAgent     src/tunnel_agent.cpp. State is the object; connect_and_run is connect, then
--                   handle_frame for every frame, then cleanup_connection; target_reader is
--                   relay_to_server for every recv, then end_reader; heartbeat_loop is
--                   heartbeat_round for every second; run is run.
--   GuacParser      src/guac_parser.cpp: the parser byte by byte, and serialize.
--   GuacWebSocket   src/guac_websocket.cpp: read_ws_frame and ws_frame (what send_ws_frame writes);
--                   Handshake has do_ws_handshake, Routing the choice of a backend and the fetch
--                   through a tunnel, Serving the thread handle_connection as the list of calls that
--                   it makes: first_frame, then serve, the loop over the later frames.
--   GuacHttp        src/guac_http.cpp: the callbacks of libcurl, run_request and connect; run_request_fd
--                   is run_request with a socket of its own, FdOnce.
--   UdpProxy        src/udp_proxy.cpp: the two session tables and the handlers, under their names;
--                   Steps has the rounds of run, Spec what the proxy promises to a client.
--   EpollProxy      src/epoll_proxy.cpp: the table of pairs, accepting, events and the relay through
--                   pipes, under their names (relay and write_out are the two loops of
--                   forward_data); Steps has the rounds of run.
--   TlsProxy        src/tls_proxy.cpp: the table of pairs with their SSL objects and write buffers, the
--                   two directions of the relay and closing, under their names (write_all is the loop
--                   around write); Handshake has accepting and the choice in run, Steps its rounds,
--                   Destroy the destructor.
--   GuacWeb         src/guac_web.cpp: Cdp has cdp_send and cdp_recv, Input the events of mouse and keys,
--                   Delta the images of screenshots (part is the changed part of a frame, flush_frame
--                   flush_delta behind the decoding); Worker has drain_input_queue and turn, one turn of
--                   the loop in run_event_loop.
--   AccessPolicy    src/access_policy.cpp: rules, is_allowed, and the reading of a policy.
--   JwtVerifier     src/jwt_verifier.cpp: verify and what it calls, and extract_bearer_token;
--                   Accepted says what is to be accepted.
--   Json            The JSON library (nlohmann), a parameter.
--   Base            What the modules share. Tests: concrete runs.
--
-- How the code is rendered. Bytes and the unsigned integers are the native ℕ, with `% 2 ^ w` where
-- the code wraps around. A descriptor or time-out that is -1 for "none" is an option. An exception
-- is a value of `Outcome`; where it leaves a changed object behind, of `Effect`. What the code does
-- to descriptors is a list of actions in the state. Association lists stand for the hash maps.
--
-- What is a parameter: inet_pton and inet_ntop (Protocol/Inet, with the documented round trip),
-- the JSON library (Json, with the documented conversion of numbers), OpenSSL (in JwtVerifier,
-- the handshake of GuacWebSocket, GuacHttp, TlsProxy and GuacWeb, without hypotheses), the JPEG
-- library (in GuacWeb, without hypotheses), std::string::max_size, and the conversion to double
-- in error_rate. The kernel's answers to recv, send and splice are lists, with 0 bytes for an
-- error or the end on a stream; when a list is used up, all that is left is moved. Sockets, the
-- clock, what libcurl calls and the result of connect are arguments.
--
-- Fuel: `draw` has fuel 2, which is enough since one of two successive counter values is not 0;
-- the digits of `n` are written with fuel `n + 1`, more than it has digits; `serve` has fuel for
-- the frames, and one more than the stream has bytes is enough, as it is for `cdp_recv`;
-- `chunks` has the length of its text, of which each round takes something; in Worker it counts
-- messages, and the theorem there says how many. All other loops are structural recursion on the
-- bytes, the answers, or the tables.
--
-- Threads: an event of TunnelServer/Events is one function, or one section under a mutex of
-- unregister_agent, open_session, stop and handle_agent_connection, so events of other threads may
-- stand between the sections. The other theorems on these functions are about runs that nothing
-- interrupts. send_to_agent is one step everywhere; it changes no table. The shared pointer that
-- it holds over its unlocked part has no counterpart. In all other components one function is one
-- step. The bytes that wait in a write_buf of the TLS proxy are taken to be less than 2 ^ 31, so
-- the int that SSL_write is given is their number. Memory is not exhausted and threads can always
-- be started.
--
-- Not modelled: the listening sockets and accept loops, the basic TCP proxy, the start and end
-- of a web session, the Guacamole backends for SSH, RDP and VNC, configuration, logging, and the
-- two programs, which are input and output or calls of other libraries for the most part.
pub mod Base
pub mod Protocol
pub mod TunnelMetrics
pub mod Socket
pub mod TunnelServer
pub mod TunnelAgent
pub mod Json
pub mod GuacParser
pub mod GuacWebSocket
pub mod GuacHttp
pub mod UdpProxy
pub mod EpollProxy
pub mod TlsProxy
pub mod GuacWeb
pub mod AccessPolicy
pub mod JwtVerifier
mod Tests
