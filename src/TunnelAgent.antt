-- ===== src/TunnelAgent.antt =====
-- include/core/tunnel_agent.h and src/tunnel_agent.cpp: one connection to the server, the sessions
-- with their targets, and the loop that connects again. Logging is left out.
pub mod State
pub mod Running
pub mod Sessions
pub mod Retrying
use State.{
  Session, TunnelAgent, Error, no_socket, invalid_ip, not_connected, hello_not_made, no_hello_ack,
  send_failed, sent, closed, shut_down, joined, detached, act, count,
}
use tunnel_proxy.Base.Maps.{ℕ_key, lookup, insert, erase}
use tunnel_proxy.Base.{
  ℕ, ◌+◌, ◌-◌, ◌*◌, Bool, true, false, List, [], ◌∷◌, ◌++◌, Option, none, some, ◌&&◌, ltb,
  if◌then◌else◌, length, Bytes, Outcome, ok, throw, Effect, done, raised, left,
}
use tunnel_proxy.Protocol
use tunnel_proxy.Protocol.Inet.{Inet}
use tunnel_proxy.Protocol.Types.{
  TunnelFrame, TunnelMsgType, hello, hello_ack, open_msg, open_ack, data_msg, close, heartbeat,
  heartbeat_ack, error, unnamed,
}
use tunnel_proxy.Protocol.{
  serialize, make_hello, make_open_ack, make_data, make_close, make_heartbeat, parse_open_payload,
}
use tunnel_proxy.Socket.{send_all}
use tunnel_proxy.TunnelMetrics

-- `send_frame`; without a connection the descriptor is -1, and `send` fails.
unfoldable pub send_on : ℕ → TunnelFrame → TunnelAgent → Effect Error TunnelAgent
send_on fd frame s =
    let (replies, taken, all) = send_all s.replies (serialize frame) in
    let s' = act (sent fd taken) (record s { replies = replies }) in
    if all
    then done (elim frame.type [
      | data_msg ↦ count (TunnelMetrics.record_bytes_sent (length frame.payload)) s'
      | _ ↦ s'
    ])
    else raised send_failed (count TunnelMetrics.record_error s')

unfoldable pub send_frame : TunnelFrame → TunnelAgent → Effect Error TunnelAgent
send_frame frame s = elim s.server_fd [
  | none ↦ raised send_failed (count TunnelMetrics.record_error s)
  | some fd ↦ send_on fd frame s
]

-- `shutdown` and `close` of a target, unless its descriptor is -1.
unfoldable pub hang_up : Option ℕ → TunnelAgent → TunnelAgent
hang_up none s = s
hang_up (some fd) s = act (closed fd) (act (shut_down fd) s)

-- The thread that calls it waits until the reader of the session is done.
unfoldable pub close_session : ℕ → TunnelAgent → TunnelAgent
unfolding hang_up
close_session sid s = elim (lookup sid s.sessions) [
  | none ↦ s
  | some session ↦
      act (joined sid) (hang_up session.target_fd (record s { sessions = erase sid s.sessions }))
]

-- `~Session`
unfoldable pub destroy : Session → TunnelAgent → TunnelAgent
destroy session s = elim session.target_fd [ none ↦ s | some fd ↦ act (closed fd) s ]

-- `sessions_[sid] = std::move(session)`. A session that was there is destroyed while its reader
-- is joinable: `~thread` ends the process.
unfoldable pub enter : ℕ → ℕ → TunnelAgent → TunnelAgent
enter sid target_fd s = elim (lookup sid s.sessions) [
  | none ↦ record s { sessions = insert sid (record { target_fd = some target_fd }) s.sessions }
  | some old ↦ record (destroy old s) { terminated = true }
]

unfoldable pub acknowledge : ℕ → TunnelAgent → TunnelAgent
acknowledge sid s = if s.terminated then s else elim (send_frame (make_open_ack sid) s) [
  | done s' ↦ s'
  | raised e s' ↦ close_session sid s'
]

-- `socket` gives the descriptor, `up` is what `connect` reports.
module _ (inet : Inet) (socket : Option ℕ) (up : Bool) where
  -- `connect_to_server` and `connect_to_target`
  unfoldable pub connect_to : Bytes → TunnelAgent → Outcome Error ℕ × TunnelAgent
  connect_to ip s = elim socket [
    | none ↦ (throw no_socket, s)
    | some fd ↦ elim (inet.pton ip) [
      | none ↦ (throw invalid_ip, act (closed fd) s)
      | some addr ↦ if up then (ok fd, s) else (throw not_connected, act (closed fd) s)
    ]
  ]

  unfoldable pub open_target : ℕ → Outcome Error ℕ × TunnelAgent → TunnelAgent
  open_target sid (throw e, s) = left (send_frame (make_close sid) s)
  open_target sid (ok target_fd, s) = acknowledge sid (enter sid target_fd s)

  unfoldable pub handle_open : TunnelFrame → TunnelAgent → TunnelAgent
  handle_open frame s = elim (parse_open_payload inet frame.payload) [
    | throw e ↦ s
    | ok target ↦ open_target frame.session_id (connect_to target.0 s)
  ]

-- `handle_data`: the payload goes to the target, or the session is closed.
unfoldable pub write_target : ℕ → Option ℕ → Bytes → TunnelAgent → TunnelAgent
write_target sid none payload s = close_session sid (count TunnelMetrics.record_error s)
write_target sid (some fd) payload s =
    let (replies, taken, all) = send_all s.replies payload in
    let s' = act (sent fd taken) (record s { replies = replies }) in
    if all
    then count (TunnelMetrics.record_bytes_received (length payload)) s'
    else close_session sid (count TunnelMetrics.record_error s')

unfoldable pub handle_data : TunnelFrame → TunnelAgent → TunnelAgent
handle_data frame s = elim (lookup frame.session_id s.sessions) [
  | none ↦ s
  | some session ↦ write_target frame.session_id session.target_fd frame.payload s
]

unfoldable pub handle_close : TunnelFrame → TunnelAgent → TunnelAgent
handle_close frame s = close_session frame.session_id s

-- `target_reader`: one `recv` of its loop, and what comes after the loop.
unfoldable pub relay_to_server : ℕ → Bytes → TunnelAgent → Effect Error TunnelAgent
relay_to_server sid bytes s = send_frame (make_data sid bytes) s

unfoldable pub end_reader : ℕ → TunnelAgent → TunnelAgent
end_reader sid s =
    let s' = if s.running then left (send_frame (make_close sid) s) else s in
    elim (lookup sid s'.sessions) [
      | none ↦ s'
      | some session ↦
          destroy session (record (act (detached sid) s') { sessions = erase sid s'.sessions })
    ]
