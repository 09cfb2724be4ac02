-- ===== src/TunnelServer/Invariant.antt =====
-- What holds of the tables of the server whatever its threads do.
mod Tables
use mathlib.Core.Path.{subst₃}
use tunnel_proxy.Base.Maps.{ℕ_key, Bytes_key, lookup, insert, erase, retain, Every-lookup}
use tunnel_proxy.Base.{
  ℕ, ◌^◌, ◌<◌, ◌≡◌, refl, sym, ap, ◌∙◌, Bool, true, false, List, [], ◌∷◌, Option, none, some, arith,
  inl, inr, Bool-cases, Option-cases, if◌then◌else◌, Bytes, left, Effect, done, raised, ok, throw,
  Outcome, ltb, ◌-◌,
}
use tunnel_proxy.Protocol.Inet.{Inet}
use tunnel_proxy.Protocol
use tunnel_proxy.Protocol.{make_hello_ack, parse_hello_payload, make_heartbeat_ack}
use tunnel_proxy.TunnelMetrics
use tunnel_proxy.Protocol.Types.{
  TunnelFrame, TunnelMsgType, hello, hello_ack, open_msg, open_ack, data_msg, close, heartbeat,
  heartbeat_ack, error, unnamed,
}
use tunnel_proxy.TunnelServer.Frames.{SameTables, send_to_agent-SameTables, transmit-SameTables}
use tunnel_proxy.TunnelServer.State.{AgentConn, Session, TunnelServer, count}
use tunnel_proxy.TunnelServer.Sending.{Error, send_to_agent, transmit}
use tunnel_proxy.TunnelServer.{
  unregister_agent, erase_agent, erase_sessions_of, close_session, accept_agent, handle_agent_frame,
  handle_type, forward, deliver, touch, signal_open, register, replace, destroy, greet, welcome,
  accept_type,
}
pub use Tables.{InvOf-counter}
pub use Tables.{
  InvOf, InvOf-retain, InvOf-agent, InvOf-erase_agent, InvOf-session, InvOf-no_agents,
  InvOf-no_sessions,
}

-- Every session has its own identifier, which is a uint32_t other than 0; every connection stands
-- under its agent; the counter is a uint32_t.
abbrev pub Inv : TunnelServer → Type 0
Inv s = InvOf s.agents s.sessions s.next_session_id

pub SameTables-Inv : (s t : TunnelServer) → SameTables s t → Inv s → Inv t
SameTables-Inv s t same v =
    subst₃ InvOf (sym same.agents) (sym same.sessions) (sym same.next_session_id) v

pub send_to_agent-Inv :
    (id : Bytes) (frame : TunnelFrame) (s : TunnelServer)
    → Inv s
    → Inv (left (send_to_agent id frame s))
send_to_agent-Inv id frame s v = SameTables-Inv s _ (send_to_agent-SameTables id frame s) v

pub close_session-Inv : (sid : ℕ) (s : TunnelServer) → Inv s → Inv (close_session sid s)
unfolding close_session erase
close_session-Inv sid s v = InvOf-retain _ v

pub destroy-SameTables : (o : Option AgentConn) (s : TunnelServer) → SameTables s (destroy o s)
unfolding destroy
destroy-SameTables o s = ground arith

pub erase_agent-Inv : (id : Bytes) (s : TunnelServer) → Inv s → Inv (erase_agent id s)
erase_agent-Inv id s v =
    InvOf-erase_agent id (SameTables-Inv s _ (destroy-SameTables (lookup id s.agents) s) v)

pub erase_sessions_of-Inv : (id : Bytes) (s : TunnelServer) → Inv s → Inv (erase_sessions_of id s)
erase_sessions_of-Inv id s v = InvOf-retain _ v

pub unregister_agent-Inv : (id : Bytes) (s : TunnelServer) → Inv s → Inv (unregister_agent id s)
unfolding unregister_agent
unregister_agent-Inv id s v = erase_sessions_of-Inv id (erase_agent id s) (erase_agent-Inv id s v)

pub replace-SameTables : (o : Option AgentConn) (s : TunnelServer) → SameTables s (replace o s)
unfolding replace
replace-SameTables o s = ground arith

pub register-Inv :
    (fd : ℕ) (id : Bytes) (now : ℕ) (s : TunnelServer) → Inv s → Inv (register fd id now s)
unfolding register
register-Inv fd id now s v =
    let s' = count TunnelMetrics.record_connection_attempt s in
    InvOf-agent id _ refl (SameTables-Inv s' _ (replace-SameTables (lookup id s.agents) s') v)

greet-Inv : (id : Bytes) (r : Effect Error TunnelServer) → Inv (left r) → Inv (greet id r).1
unfolding greet
greet-Inv id (done s) v = v
greet-Inv id (raised e s) v = unregister_agent-Inv id _ v

welcome-Inv :
    (fd : ℕ) (o : Outcome Protocol.Error Bytes) (now : ℕ) (s : TunnelServer)
    → Inv s
    → Inv (welcome fd o now s).1
unfolding welcome
welcome-Inv fd (throw e) now s v = v
welcome-Inv fd (ok id) now s v =
    let s' = register fd id now s in
    greet-Inv id (send_to_agent id make_hello_ack s')
      (send_to_agent-Inv id make_hello_ack s' (register-Inv fd id now s v))

accept_type-Inv :
    (t : TunnelMsgType) (fd : ℕ) (frame : TunnelFrame) (now : ℕ) (s : TunnelServer)
    → Inv s
    → Inv (accept_type t fd frame now s).1
unfolding accept_type
accept_type-Inv hello fd frame now s v = welcome-Inv fd (parse_hello_payload frame.payload) now s v
accept_type-Inv _ fd frame now s v = v

pub accept_agent-Inv :
    (fd : ℕ) (o : Option TunnelFrame) (now : ℕ) (s : TunnelServer)
    → Inv s
    → Inv (accept_agent fd o now s).1
unfolding accept_agent
accept_agent-Inv fd none now s v = v
accept_agent-Inv fd (some frame) now s v = accept_type-Inv frame.type fd frame now s v

touch-Inv : (id : Bytes) (now : ℕ) (s : TunnelServer) → Inv s → Inv (touch id now s)
unfolding touch
touch-Inv id now s v = elim (Option-cases (lookup id s.agents)) [
  | inl e ↦ rw (e, touch) v
  | inr (conn, e) ↦ rw (e, touch) (InvOf-agent id _ (Every-lookup _ id s.agents conn v.names e) v)
]

signal_open-Inv : (sid : ℕ) (s : TunnelServer) → Inv s → Inv (signal_open sid s)
unfolding signal_open
signal_open-Inv sid s v = elim (Option-cases (lookup sid s.pending_open)) [
  | inl e ↦ rw (e, signal_open) v
  | inr (p, e) ↦ rw (e, signal_open) v
]

forward-Inv :
    (sid fd : ℕ) (payload : Bytes) (s : TunnelServer) → Inv s → Inv (forward sid fd payload s)
unfolding forward
forward-Inv sid fd payload s v =
    let v' = SameTables-Inv s _ (transmit-SameTables fd payload s) v in
    elim (Bool-cases (transmit fd payload s).1) [
      | inl e ↦ rw (e, forward) v'
      | inr e ↦ rw (e, forward) (close_session-Inv sid _ v')
    ]

deliver-Inv :
    (sid : ℕ) (payload : Bytes) (o : Option Session) (s : TunnelServer)
    → Inv s
    → Inv (deliver sid payload o s)
unfolding deliver
deliver-Inv sid payload none s v = v
deliver-Inv sid payload (some session) s v = elim (Option-cases session.external_fd) [
  | inl e ↦ rw (e, deliver) v
  | inr (fd, e) ↦ rw (e, deliver) (forward-Inv sid fd payload s v)
]

handle_type-Inv :
    (t : TunnelMsgType) (id : Bytes) (frame : TunnelFrame) (now : ℕ) (s : TunnelServer)
    → Inv s
    → Inv (handle_type t id frame now s)
unfolding handle_type
handle_type-Inv heartbeat id frame now s v =
    send_to_agent-Inv id make_heartbeat_ack (touch id now s) (touch-Inv id now s v)
handle_type-Inv open_ack id frame now s v = signal_open-Inv frame.session_id s v
handle_type-Inv data_msg id frame now s v =
    deliver-Inv frame.session_id frame.payload (lookup frame.session_id s.sessions) s v
handle_type-Inv close id frame now s v = close_session-Inv frame.session_id s v
handle_type-Inv _ id frame now s v = v

pub handle_agent_frame-Inv :
    (id : Bytes) (frame : TunnelFrame) (now : ℕ) (s : TunnelServer)
    → Inv s
    → Inv (handle_agent_frame id frame now s)
unfolding handle_agent_frame
handle_agent_frame-Inv id frame now s v = handle_type-Inv frame.type id frame now s v
