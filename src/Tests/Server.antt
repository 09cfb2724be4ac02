-- ===== src/Tests/Server.antt =====
-- A server with one agent and one session.
use tunnel_proxy.Base.Maps.{ℕ_key, Bytes_key, lookup, insert, erase, retain}
use tunnel_proxy.Base.{
  ℕ, ◌≡◌, refl, true, false, List, [], ◌∷◌, ◌++◌, none, some, arith, Bytes, codes, equal,
}
use tunnel_proxy.Protocol.Types.{TunnelFrame, hello, open_ack, new_frame}
use tunnel_proxy.Protocol.{serialize, make_data, parse_hello_payload, make_hello_ack}
use tunnel_proxy.Socket.Receive.{NoFailure}
use tunnel_proxy.Socket.{send_all}
use tunnel_proxy.Tests.Platform.{raw_inet}
use tunnel_proxy.TunnelMetrics
use tunnel_proxy.TunnelServer.Clients.{ready, external_waited}
use tunnel_proxy.TunnelServer.Events.{
  Event, targets, agent_connects, agent_sends, agent_leaves, client_connects, awaits, client_waited,
  client_sends, client_leaves, stops, agent_registered, agent_erased, sessions_erased,
  session_entered, frame_sent, step, run,
}
use tunnel_proxy.TunnelServer.Forwarding.{
  Delivered, data_forwarded, Waited, external_waited_outcomes,
}
use tunnel_proxy.TunnelServer.Invariant.{Inv}
use tunnel_proxy.TunnelServer.Opening.{Outcomes, open_session-Outcomes}
use tunnel_proxy.TunnelServer.Reconnect.{reconnect_removed}
use tunnel_proxy.TunnelServer.Safety.{run-started-Inv}
use tunnel_proxy.TunnelServer.Sending.{send_to_agent, send_on, transmit}
use tunnel_proxy.TunnelServer.Shutdown.{stop}
use tunnel_proxy.TunnelServer.State.{
  AgentConn, Session, TunnelServer, acknowledged, server_stopped, started, sent, closed,
}
use tunnel_proxy.TunnelServer.Stopping.{stop_wakes}
use tunnel_proxy.TunnelServer.{
  draw, generate_session_id, open_session, unregister_agent, accept_agent, accept_type, welcome,
  greet, register, replace, destroy, handle_agent_frame,
}

abbrev a1 : Bytes
a1 = codes "a1"

abbrev a2 : Bytes
a2 = codes "a2"

abbrev conn : AgentConn
conn = record { fd = some 4; agent_id = a1; last_heartbeat_ns = 0 }

abbrev session : Session
session = record { session_id = 7; agent_id = a1; external_fd = some 9 }

-- One agent with one session; the kernel takes one byte, then five.
abbrev busy : TunnelServer
busy = record {
  agent_timeout_s = 90;
  running = true;
  next_session_id = 8;
  agents = (a1, conn) ∷ [];
  sessions = (7, session) ∷ [];
  pending_open = (7, tt) ∷ [];
  signals = [];
  forward_target = none;
  metrics = TunnelMetrics.new;
  replies = 1 ∷ 5 ∷ [];
  actions = [];
}

abbrev ack : TunnelFrame
ack = record (make_data 7 []) { type = open_ack }

abbrev greeting : TunnelFrame
greeting = record (make_data 0 a1) { type = hello; payload = 2 ∷ a1; length = 3 }

abbrev schedule : List Event
schedule =
    targets a1 (codes "10") 22
    ∷ agent_connects 4 (some greeting) 0
    ∷ client_connects 5
    ∷ awaits 1
    ∷ agent_sends a1 ack 3
    ∷ client_waited 1 5 (ready acknowledged)
    ∷ client_sends a1 1 (codes "hi")
    ∷ client_leaves a1 1 5
    ∷ agent_leaves a1
    ∷ stops
    ∷ []

-- A session is entered after both sections of `unregister_agent`, by a thread that looked the agent up
-- before them: it stays without its agent.
abbrev race : List Event
race =
    agent_registered 4 a1 0
    ∷ agent_erased a1
    ∷ sessions_erased a1
    ∷ session_entered a1
    ∷ frame_sent a1 (make_data 1 [])
    ∷ []

orphan :
    ((run raw_inet race (started 90)).agents ≡ [])
    × (lookup 1 (run raw_inet race (started 90)).sessions
        ≡ some (record { session_id = 1; agent_id = a1; external_fd = none }))
unfolding run step register replace generate_session_id draw send_to_agent started lookup insert
    erase retain equal destroy
orphan = (refl, refl)

run-started-Inv_example : Inv (run raw_inet schedule (started 90))
run-started-Inv_example = run-started-Inv raw_inet 90 schedule

-- The counter is at its last value: the identifier is that value, and the next one is 0.
last_id : (generate_session_id (record busy { next_session_id = 0xffffffff })).1.next_session_id ≡ 0
unfolding generate_session_id draw
last_id = refl

after_zero : (generate_session_id (record busy { next_session_id = 0 })).0 ≡ 1
unfolding generate_session_id draw
after_zero = refl

open_session-Outcomes_example :
    Outcomes raw_inet a1
      (10 ∷ 0 ∷ 0 ∷ 5 ∷ [])
      22
      busy
      (open_session raw_inet a1 (10 ∷ 0 ∷ 0 ∷ 5 ∷ []) 22 busy)
open_session-Outcomes_example =
    open_session-Outcomes raw_inet a1 (10 ∷ 0 ∷ 0 ∷ 5 ∷ []) 22 busy (omega arith)

data_forwarded_example :
    (taken : Bytes) × (rest : Bytes) × ((handle_agent_frame a1
        (make_data 7 (codes "hello"))
        3
        busy).actions
      ≡ sent 9 taken ∷ [])
    × (taken ++ rest ≡ codes "hello")
    × Delivered 7
        (codes "hello")
        rest
        busy
        (handle_agent_frame a1 (make_data 7 (codes "hello")) 3 busy)
    × (NoFailure busy.replies → rest ≡ [])
unfolding make_data new_frame lookup
data_forwarded_example =
    data_forwarded a1 (make_data 7 (codes "hello")) 3 9 session busy refl refl refl

external_waited_outcomes_example :
    Waited 7 5 (ready acknowledged) busy (external_waited 7 5 (ready acknowledged) busy)
external_waited_outcomes_example = external_waited_outcomes 7 5 (ready acknowledged) busy

-- The kernel takes HELLO_ACK whole.
abbrev quick : TunnelServer
quick = record busy { replies = 16 ∷ [] }

accepted_again : (accept_agent 6 (some greeting) 3 quick).0 ≡ some a1
unfolding accept_agent accept_type welcome greet register replace make_data new_frame
    parse_hello_payload make_hello_ack lookup insert equal send_to_agent send_on transmit send_all
    serialize
accepted_again = refl

reconnect_removed_example :
    (lookup a1 (accept_agent 6 (some greeting) 3 quick).1.agents
      ≡ some (record { fd = some 6; agent_id = a1; last_heartbeat_ns = 3 }))
    × (lookup a1 (unregister_agent a1 (accept_agent 6 (some greeting) 3 quick).1).agents ≡ none)
    × ((unregister_agent a1 (accept_agent 6 (some greeting) 3 quick).1).actions
        ≡ (accept_agent 6 (some greeting) 3 quick).1.actions ++ (closed 6 ∷ []))
reconnect_removed_example = reconnect_removed 6 greeting a1 3 quick accepted_again

abbrev early : TunnelServer
early = record busy { pending_open = [] }

stop_wakes_example :
    ((stop busy).running ≡ false)
    × ((stop busy).agents ≡ [])
    × ((stop busy).sessions ≡ [])
    × ((stop busy).pending_open ≡ [])
    × ((sid : ℕ)
        → lookup sid busy.pending_open ≡ some tt
        → lookup sid (stop busy).signals ≡ some server_stopped)
    × ((sid : ℕ)
        → lookup sid busy.pending_open ≡ none
        → lookup sid (stop busy).signals ≡ lookup sid busy.signals)
    × (stop (stop busy) ≡ stop busy)
stop_wakes_example = stop_wakes busy refl
