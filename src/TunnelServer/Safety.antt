-- ===== src/TunnelServer/Safety.antt =====
-- Every schedule of the server's threads keeps its tables in order.
use tunnel_proxy.Base.Maps.{ℕ_key, Bytes_key, lookup, Every-lookup}
use tunnel_proxy.Base.{
  ℕ, ◌-◌, ◌∙◌, inl, inr, Bool, Bool-cases, true, false, List, [], ◌∷◌, Option, none, some, arith,
  Option-cases, if◌then◌else◌, ◌==◌, ltb, Bytes,
}
use tunnel_proxy.Protocol.Inet.{Inet}
use tunnel_proxy.Protocol.{make_close, make_data}
use tunnel_proxy.TunnelServer.Clients.{
  Wait, timed_out, ready, await_ack, begin_session, begin_external, external_waited, tunnel_waited,
  relay_to_agent, end_session, attach, give_up, close_all,
}
use tunnel_proxy.TunnelServer.Events.{
  Event, answers, targets, agent_connects, agent_sends, agent_leaves, client_connects,
  tunnel_connects, awaits, client_waited, tunnel_waited_for, client_sends, client_leaves, watchdog,
  stops, agent_erased, sessions_erased, session_entered, agent_registered, frame_sent,
  session_dropped, pending_failed, agents_cleared, sessions_cleared, step, run,
}
use tunnel_proxy.TunnelServer.Frames.{SameTables}
use tunnel_proxy.TunnelServer.Invariant.{
  Inv, SameTables-Inv, accept_agent-Inv, handle_agent_frame-Inv, unregister_agent-Inv,
  erase_agent-Inv, erase_sessions_of-Inv, register-Inv, close_session-Inv, send_to_agent-Inv,
  InvOf-session, InvOf-no_agents, InvOf-no_sessions,
}
use tunnel_proxy.TunnelServer.Opening.{open_session-Inv, with_session-Inv}
use tunnel_proxy.TunnelServer.Shutdown.{
  watchdog_round, shut_silent, hang_up, stop, fail_pending, clear_agents,
}
use tunnel_proxy.TunnelServer.State.{
  AgentConn, ForwardTarget, TunnelServer, acknowledged, server_stopped, started, act, closed,
  shut_down,
}
use tunnel_proxy.TunnelServer.{
  open_session, close_session, set_session_external_fd, set_forward_target,
}

set_session_external_fd-Inv :
    (sid fd : ℕ) (s : TunnelServer) → Inv s → Inv (set_session_external_fd sid fd s).1
unfolding set_session_external_fd
set_session_external_fd-Inv sid fd s v = elim (Option-cases (lookup sid s.sessions)) [
  | inl e ↦ rw (e, set_session_external_fd) v
  | inr (session, e) ↦
      rw (e, set_session_external_fd)
        (InvOf-session sid _ (Every-lookup _ sid s.sessions session v.ids e) v)
]

close_all-Inv : (fds : List ℕ) (s : TunnelServer) → Inv s → Inv (close_all fds s)
close_all-Inv [] s v = v
close_all-Inv (fd ∷ fds) s v = close_all-Inv fds _ v

attach-Inv : (sid fd : ℕ) (fds : List ℕ) (s : TunnelServer) → Inv s → Inv (attach sid fd fds s).1
unfolding attach
attach-Inv sid fd fds s v =
    let v' = set_session_external_fd-Inv sid fd s v in
    elim (Bool-cases (set_session_external_fd sid fd s).0) [
      | inl e ↦ rw (e, attach) v'
      | inr e ↦ rw (e, attach) (close_all-Inv fds _ v')
    ]

give_up-Inv : (sid : ℕ) (fds : List ℕ) (s : TunnelServer) → Inv s → Inv (give_up sid fds s).1
unfolding give_up
give_up-Inv sid fds s v = close_all-Inv fds _ (close_session-Inv sid _ v)

external_waited-Inv :
    (sid fd : ℕ) (w : Wait) (s : TunnelServer) → Inv s → Inv (external_waited sid fd w s).1
unfolding external_waited
external_waited-Inv sid fd timed_out s v = give_up-Inv sid (fd ∷ []) s v
external_waited-Inv sid fd (ready server_stopped) s v = v
external_waited-Inv sid fd (ready acknowledged) s v = attach-Inv sid fd [] s v

tunnel_waited-Inv :
    (sid fd fd' : ℕ) (w : Wait) (s : TunnelServer) → Inv s → Inv (tunnel_waited sid fd fd' w s).1
unfolding tunnel_waited
tunnel_waited-Inv sid fd fd' timed_out s v = give_up-Inv sid (fd ∷ fd' ∷ []) s v
tunnel_waited-Inv sid fd fd' (ready server_stopped) s v =
    close_all-Inv (fd ∷ fd' ∷ []) (close_session sid s) (close_session-Inv sid s v)
tunnel_waited-Inv sid fd fd' (ready acknowledged) s v = attach-Inv sid fd (fd' ∷ []) s v

SameTables-trans : {s t u : TunnelServer} → SameTables s t → SameTables t u → SameTables s u
SameTables-trans p q = record {
  running = q.running ∙ p.running;
  next_session_id = q.next_session_id ∙ p.next_session_id;
  agents = q.agents ∙ p.agents;
  sessions = q.sessions ∙ p.sessions;
  pending_open = q.pending_open ∙ p.pending_open;
  signals = q.signals ∙ p.signals;
  forward_target = q.forward_target ∙ p.forward_target;
}

silent_one-SameTables :
    (b : Bool) (o : Option ℕ) (s : TunnelServer)
    → SameTables s (if b then elim o [ none ↦ s | some fd ↦ act (shut_down fd) s ] else s)
silent_one-SameTables b o s = ground arith

hang_one-SameTables :
    (o : Option ℕ) (s : TunnelServer)
    → SameTables s (elim o [ none ↦ s | some fd ↦ act (closed fd) (act (shut_down fd) s) ])
hang_one-SameTables o s = ground arith

shut_silent-SameTables :
    (timeout now : ℕ) (agents : List (Bytes × AgentConn)) (s : TunnelServer)
    → SameTables s (shut_silent timeout now agents s)
unfolding shut_silent
shut_silent-SameTables timeout now [] s = ground arith
shut_silent-SameTables timeout now ((id, conn) ∷ agents) s =
    SameTables-trans (silent_one-SameTables (ltb timeout (now - conn.last_heartbeat_ns)) conn.fd s)
      (shut_silent-SameTables timeout now agents _)

hang_up-SameTables :
    (agents : List (Bytes × AgentConn)) (s : TunnelServer) → SameTables s (hang_up agents s)
unfolding hang_up
hang_up-SameTables [] s = ground arith
hang_up-SameTables ((id, conn) ∷ agents) s =
    SameTables-trans (hang_one-SameTables conn.fd s) (hang_up-SameTables agents _)

if-Inv : (b : Bool) (s t : TunnelServer) → Inv s → Inv t → Inv (if b then s else t)
if-Inv true s t v w = v
if-Inv false s t v w = w

clear_agents-Inv : (s : TunnelServer) → Inv s → Inv (clear_agents s)
clear_agents-Inv s v =
    let t = record s { agents = [] } in
    SameTables-Inv t _ (hang_up-SameTables s.agents t) (InvOf-no_agents v)

stop-Inv : (s : TunnelServer) → Inv s → Inv (stop s)
unfolding stop
stop-Inv s v =
    if-Inv s.running _ s
      (InvOf-no_sessions (clear_agents-Inv (fail_pending (record s { running = false })) v)) v

module _ (inet : Inet) where
  begin_session-Inv :
      (fds : List ℕ) (t : ForwardTarget) (s : TunnelServer)
      → Inv s
      → Inv (begin_session inet fds t s).1
  unfolding begin_session
  begin_session-Inv fds t s v =
      let r = open_session inet t.agent_id t.target_ip t.target_port s in
      let v' = open_session-Inv inet t.agent_id t.target_ip t.target_port s v in
      elim (Bool-cases (r.0 == 0)) [
        | inl e ↦ rw (e, begin_session) (close_all-Inv fds r.1 v')
        | inr e ↦ rw (e, begin_session) v'
      ]

  begin_external-Inv : (fd : ℕ) (s : TunnelServer) → Inv s → Inv (begin_external inet fd s).1
  unfolding begin_external
  begin_external-Inv fd s v = elim (Option-cases s.forward_target) [
    | inl e ↦ rw (e, begin_external) v
    | inr (t, e) ↦ rw (e, begin_external) (begin_session-Inv (fd ∷ []) t s v)
  ]

  pub step-Inv : (e : Event) (s : TunnelServer) → Inv s → Inv (step inet e s)
  unfolding step set_forward_target await_ack watchdog_round relay_to_agent end_session
  step-Inv (answers rs) s v = v
  step-Inv (targets id ip port) s v = v
  step-Inv (agent_connects fd frame now) s v = accept_agent-Inv fd frame now s v
  step-Inv (agent_sends id frame now) s v = handle_agent_frame-Inv id frame now s v
  step-Inv (agent_leaves id) s v = unregister_agent-Inv id s v
  step-Inv (client_connects fd) s v = begin_external-Inv fd s v
  step-Inv (tunnel_connects fd fd' t) s v = begin_session-Inv (fd ∷ fd' ∷ []) t s v
  step-Inv (awaits sid) s v = v
  step-Inv (client_waited sid fd w) s v = external_waited-Inv sid fd w s v
  step-Inv (tunnel_waited_for sid fd fd' w) s v = tunnel_waited-Inv sid fd fd' w s v
  step-Inv (client_sends id sid bytes) s v = send_to_agent-Inv id (make_data sid bytes) s v
  step-Inv (client_leaves id sid fd) s v =
      close_session-Inv sid _ (send_to_agent-Inv id (make_close sid) s v)
  step-Inv (watchdog now) s v = SameTables-Inv s _ (shut_silent-SameTables _ now s.agents s) v
  step-Inv stops s v = stop-Inv s v
  step-Inv (agent_erased id) s v = erase_agent-Inv id s v
  step-Inv (sessions_erased id) s v = erase_sessions_of-Inv id s v
  step-Inv (session_entered id) s v = with_session-Inv id s v
  step-Inv (agent_registered fd id now) s v = register-Inv fd id now s v
  step-Inv (frame_sent id frame) s v = send_to_agent-Inv id frame s v
  step-Inv (session_dropped sid) s v = close_session-Inv sid s v
  step-Inv pending_failed s v = v
  step-Inv agents_cleared s v = clear_agents-Inv s v
  step-Inv sessions_cleared s v = InvOf-no_sessions v

  run-Inv : (es : List Event) (s : TunnelServer) → Inv s → Inv (run inet es s)
  unfolding run
  run-Inv [] s v = v
  run-Inv (e ∷ es) s v = run-Inv es _ (step-Inv e s v)

  -- After any list of events, the sections of the functions that release their mutexes among them,
  -- of a server that was just started: every session has its own identifier, a uint32_t other
  -- than 0; every connection stands under its agent's name; and the counter is a uint32_t.
  pub run-started-Inv : (timeout : ℕ) (es : List Event) → Inv (run inet es (started timeout))
  unfolding started
  run-started-Inv timeout es = run-Inv es _ (record { ids = tt; names = tt; counter = omega arith })
