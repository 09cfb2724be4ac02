-- ===== src/TunnelServer.antt =====
-- include/core/tunnel_server.h and src/tunnel_server.cpp: agents, sessions and the frames between
-- them. The threads share one state; each function below is what one thread does without letting
-- another in between. Logging is left out.
pub mod State
pub mod Sending
pub mod Shutdown
pub mod Clients
pub mod Events
pub mod Ids
pub mod Frames
pub mod Invariant
pub mod Opening
pub mod Reconnect
pub mod Safety
pub mod Acks
pub mod Forwarding
pub mod Stopping
use Sending.{Error, send_failed, transmit, send_to_agent}
use State.{
  AgentConn, Session, ForwardTarget, TunnelServer, sent, closed, shut_down, acknowledged,
  server_stopped, act, count,
}
use tunnel_proxy.Base.Maps.{ℕ_key, Bytes_key, lookup, insert, retain, erase}
use tunnel_proxy.Base.{
  ℕ, zero, suc, ◌+◌, ◌-◌, ◌*◌, ◌%◌, ◌^◌, Bool, true, false, not, List, [], ◌∷◌, ◌++◌, map, Option,
  none, some, ◌==◌, ltb, if◌then◌else◌, length, Bytes, equal, Outcome, ok, throw, Effect, done,
  raised, left,
}
use tunnel_proxy.Protocol.Inet.{Inet}
use tunnel_proxy.Protocol.Types.{
  TunnelFrame, TunnelMsgType, hello, hello_ack, open_msg, open_ack, data_msg, close, heartbeat,
  heartbeat_ack, error, unnamed,
}
use tunnel_proxy.Protocol.{
  serialize, parse_hello_payload, make_hello_ack, make_heartbeat_ack, make_open,
}
use tunnel_proxy.Socket.{send_all}
use tunnel_proxy.TunnelMetrics

unfoldable pub close_session : ℕ → TunnelServer → TunnelServer
close_session session_id s = record s { sessions = erase session_id s.sessions }

-- `close` on the descriptor of a connection that nothing refers to any more.
unfoldable pub destroy : Option AgentConn → TunnelServer → TunnelServer
destroy none s = s
destroy (some conn) s = elim conn.fd [ none ↦ s | some fd ↦ act (closed fd) s ]

-- The two sections of `unregister_agent`, under one mutex each: `agents_.erase`, by which the
-- connection is destroyed, and the sessions of the agent.
abbrev pub erase_agent : Bytes → TunnelServer → TunnelServer
erase_agent agent_id s =
    let s' = destroy (lookup agent_id s.agents) s in record s' { agents = erase agent_id s'.agents }

abbrev pub erase_sessions_of : Bytes → TunnelServer → TunnelServer
erase_sessions_of agent_id s = record s {
  sessions = retain (λ sid session. not (equal session.agent_id agent_id)) s.sessions;
}

unfoldable pub unregister_agent : Bytes → TunnelServer → TunnelServer
unfolding destroy
unregister_agent agent_id s = erase_sessions_of agent_id (erase_agent agent_id s)

-- A connection that the same agent had before is shut down and closed.
unfoldable pub replace : Option AgentConn → TunnelServer → TunnelServer
replace none s = s
replace (some conn) s = elim conn.fd [ none ↦ s | some fd ↦ act (closed fd) (act (shut_down fd) s) ]

-- `handle_agent_connection` up to its loop, on the first frame: the agent that is now served.
unfoldable pub register : ℕ → Bytes → ℕ → TunnelServer → TunnelServer
unfolding replace
register agent_fd agent_id now s =
    let s' = replace (lookup agent_id s.agents) (count TunnelMetrics.record_connection_attempt s) in
    record s' {
      agents =
          insert agent_id
            (record { fd = some agent_fd; agent_id = agent_id; last_heartbeat_ns = now }) s'.agents;
    }

unfoldable pub greet : Bytes → Effect Error TunnelServer → Option Bytes × TunnelServer
greet agent_id (done s) = (some agent_id, count TunnelMetrics.record_connection_success s)
greet agent_id (raised e s) = (
  none,
  unregister_agent agent_id
      (count TunnelMetrics.record_error (count TunnelMetrics.record_connection_failure s)),
)

unfoldable pub welcome :
    ℕ → Outcome tunnel_proxy.Protocol.Error Bytes → ℕ → TunnelServer → Option Bytes × TunnelServer
unfolding register greet
welcome agent_fd (throw e) now s = (none, act (closed agent_fd) s)
welcome agent_fd (ok agent_id) now s =
    greet agent_id (send_to_agent agent_id make_hello_ack (register agent_fd agent_id now s))

unfoldable pub accept_type :
    TunnelMsgType → ℕ → TunnelFrame → ℕ → TunnelServer → Option Bytes × TunnelServer
unfolding welcome
accept_type hello agent_fd frame now s = welcome agent_fd (parse_hello_payload frame.payload) now s
accept_type _ agent_fd frame now s = (none, act (closed agent_fd) s)

-- `none` is a connection that ended before a whole frame came.
unfoldable pub accept_agent :
    ℕ → Option TunnelFrame → ℕ → TunnelServer → Option Bytes × TunnelServer
unfolding accept_type
accept_agent agent_fd none now s = (none, act (closed agent_fd) s)
accept_agent agent_fd (some frame) now s = accept_type frame.type agent_fd frame now s

-- HEARTBEAT: the time is stored, and an acknowledgement is sent; a failure is only logged.
unfoldable pub touch : Bytes → ℕ → TunnelServer → TunnelServer
touch agent_id now s = elim (lookup agent_id s.agents) [
  | none ↦ s
  | some conn ↦ record s {
    agents = insert agent_id (record conn { last_heartbeat_ns = now }) s.agents;
  }
]

-- OPEN_ACK: the promise is kept and dropped.
unfoldable pub signal_open : ℕ → TunnelServer → TunnelServer
signal_open sid s = elim (lookup sid s.pending_open) [
  | none ↦ s
  | some promise ↦ record s {
    pending_open = erase sid s.pending_open;
    signals = insert sid acknowledged s.signals;
  }
]

-- DATA, once the external descriptor is known.
unfoldable pub forward : ℕ → ℕ → Bytes → TunnelServer → TunnelServer
forward sid fd payload s =
    let (s', all) = transmit fd payload s in
    if all
    then count (TunnelMetrics.record_bytes_received (length payload)) s'
    else close_session sid (count TunnelMetrics.record_error s')

unfoldable pub deliver : ℕ → Bytes → Option Session → TunnelServer → TunnelServer
unfolding forward
deliver sid payload none s = s
deliver sid payload (some session) s = elim session.external_fd [
  | none ↦ s
  | some fd ↦ forward sid fd payload s
]

unfoldable pub handle_type : TunnelMsgType → Bytes → TunnelFrame → ℕ → TunnelServer → TunnelServer
unfolding touch signal_open deliver
handle_type heartbeat agent_id frame now s =
    left (send_to_agent agent_id make_heartbeat_ack (touch agent_id now s))
handle_type open_ack agent_id frame now s = signal_open frame.session_id s
handle_type data_msg agent_id frame now s =
    deliver frame.session_id frame.payload (lookup frame.session_id s.sessions) s
handle_type close agent_id frame now s = close_session frame.session_id s
handle_type _ agent_id frame now s = s

unfoldable pub handle_agent_frame : Bytes → TunnelFrame → ℕ → TunnelServer → TunnelServer
unfolding handle_type
handle_agent_frame agent_id frame now s = handle_type frame.type agent_id frame now s

-- `do { id = next++; } while (id == 0);` The counter wraps at 2 ^ 32. Fuel 2 is enough; 0 is
-- returned where the fuel is used up.
unfoldable pub draw : ℕ → ℕ → ℕ × ℕ
draw zero n = (0, n)
draw (suc fuel) n =
    let again = draw fuel ((n + 1) % 2 ^ 32) in if n == 0 then again else (n, (n + 1) % 2 ^ 32)

unfoldable pub generate_session_id : TunnelServer → ℕ × TunnelServer
generate_session_id s =
    let (id, next) = draw 2 s.next_session_id in (id, record s { next_session_id = next })

-- The section of `open_session` that enters the session, with the identifier drawn for it.
abbrev pub enter_session : Bytes → TunnelServer → ℕ × TunnelServer
enter_session agent_id s =
    let (sid, s') = generate_session_id s in
    (
      sid,
      record s' {
        sessions =
            insert sid (record { session_id = sid; agent_id = agent_id; external_fd = none })
              s'.sessions;
      },
    )

unfoldable pub set_session_external_fd : ℕ → ℕ → TunnelServer → Bool × TunnelServer
set_session_external_fd sid external_fd s = elim (lookup sid s.sessions) [
  | none ↦ (false, s)
  | some session ↦ (
    true,
    record s {
      sessions = insert sid (record session { external_fd = some external_fd }) s.sessions;
    },
  )
]

unfoldable pub get_agent_count : TunnelServer → ℕ
get_agent_count s = length s.agents % 2 ^ 32

unfoldable pub get_session_count : TunnelServer → ℕ
get_session_count s = length s.sessions % 2 ^ 32

unfoldable pub get_agent_ids : TunnelServer → List Bytes
get_agent_ids s = map (λ e. e.0) s.agents

unfoldable pub set_forward_target : Bytes → Bytes → ℕ → TunnelServer → TunnelServer
set_forward_target agent_id target_ip target_port s = record s {
  forward_target =
      some (record { agent_id = agent_id; target_ip = target_ip; target_port = target_port });
}

module _ (inet : Inet) where
  -- The `try` block of `open_session`; an exception of `make_open` is caught as one of `send`.
  send_open :
      Bytes
      → Outcome tunnel_proxy.Protocol.Error TunnelFrame
      → TunnelServer
      → Effect Error TunnelServer
  send_open agent_id (throw e) s = raised send_failed s
  send_open agent_id (ok frame) s = send_to_agent agent_id frame s

  finish_open : ℕ → Effect Error TunnelServer → ℕ × TunnelServer
  finish_open sid (done s) = (sid, s)
  finish_open sid (raised e s) = (0, close_session sid s)

  unfoldable pub open_session : Bytes → Bytes → ℕ → TunnelServer → ℕ × TunnelServer
  unfolding send_open finish_open
  open_session agent_id target_ip target_port s = elim (lookup agent_id s.agents) [
    | none ↦ (0, s)
    | some conn ↦
        let (sid, s') = enter_session agent_id s in
        finish_open sid (send_open agent_id (make_open inet sid target_ip target_port) s')
  ]
