-- ===== src/TunnelServer/Clients.antt =====
-- src/tunnel_server.cpp: `handle_external_connection` and `connect_via_tunnel`, cut where their
-- thread waits or lets another thread in. What the thread holds in local variables (session, agent,
-- descriptors) is an argument.
use tunnel_proxy.Base.Maps.{ℕ_key, insert, erase}
use tunnel_proxy.Base.{
  ℕ, Bool, true, false, List, [], ◌∷◌, Option, none, some, ◌==◌, if◌then◌else◌, Bytes, Effect, left,
}
use tunnel_proxy.Protocol.Inet.{Inet}
use tunnel_proxy.Protocol.{make_data, make_close}
use tunnel_proxy.TunnelServer.Sending.{Error, send_to_agent}
use tunnel_proxy.TunnelServer.State.{
  TunnelServer, ForwardTarget, Signal, acknowledged, server_stopped, closed, act,
}
use tunnel_proxy.TunnelServer.{open_session, close_session, set_session_external_fd}

abbrev pub close_all : List ℕ → TunnelServer → TunnelServer
close_all [] s = s
close_all (fd ∷ fds) s = close_all fds (act (closed fd) s)

-- `pending_open_[session_id] = std::move(ack_promise)`
unfoldable pub await_ack : ℕ → TunnelServer → TunnelServer
await_ack sid s = record s { pending_open = insert sid tt s.pending_open }

module _ (inet : Inet) where
  -- Up to `open_session`; on failure the descriptors of the thread are closed. The result is the
  -- session and its agent.
  unfoldable pub begin_session :
      List ℕ → ForwardTarget → TunnelServer → Option (ℕ × Bytes) × TunnelServer
  begin_session fds target s =
      let (sid, s') = open_session inet target.agent_id target.target_ip target.target_port s in
      if sid == 0 then (none, close_all fds s') else (some (sid, target.agent_id), s')

  -- `handle_external_connection` begins with the forward target.
  unfoldable pub begin_external : ℕ → TunnelServer → Option (ℕ × Bytes) × TunnelServer
  begin_external external_fd s = elim s.forward_target [
    | none ↦ (none, act (closed external_fd) s)
    | some target ↦ begin_session (external_fd ∷ []) target s
  ]

-- What `wait_for` reports, and then `get`.
pub data Wait : Type 0 where
  timed_out : Wait
  ready : Signal → Wait

-- The first descriptor becomes the session's; where the session is gone all are closed.
unfoldable pub attach : ℕ → ℕ → List ℕ → TunnelServer → Bool × TunnelServer
attach sid fd others s =
    let (found, s') = set_session_external_fd sid fd s in
    if found then (true, s') else (false, close_all (fd ∷ others) s')

unfoldable pub give_up : ℕ → List ℕ → TunnelServer → Bool × TunnelServer
give_up sid fds s = (
  false,
  close_all fds (close_session sid (record s { pending_open = erase sid s.pending_open })),
)

-- After the wait; the result is whether forwarding starts.
unfoldable pub external_waited : ℕ → ℕ → Wait → TunnelServer → Bool × TunnelServer
unfolding attach give_up
external_waited sid fd timed_out s = give_up sid (fd ∷ []) s
external_waited sid fd (ready server_stopped) s = (false, act (closed fd) s)
external_waited sid fd (ready acknowledged) s = attach sid fd [] s

-- The same in `connect_via_tunnel`, on the two ends of the socket pair.
unfoldable pub tunnel_waited : ℕ → ℕ → ℕ → Wait → TunnelServer → Bool × TunnelServer
unfolding attach give_up
tunnel_waited sid fd₀ fd₁ timed_out s = give_up sid (fd₀ ∷ fd₁ ∷ []) s
tunnel_waited sid fd₀ fd₁ (ready server_stopped) s =
    (false, close_all (fd₀ ∷ fd₁ ∷ []) (close_session sid s))
tunnel_waited sid fd₀ fd₁ (ready acknowledged) s = attach sid fd₀ (fd₁ ∷ []) s

-- One `recv` of the forwarding loop; an error ends the loop.
unfoldable pub relay_to_agent : Bytes → ℕ → Bytes → TunnelServer → Effect Error TunnelServer
relay_to_agent agent_id sid bytes s = send_to_agent agent_id (make_data sid bytes) s

-- After the forwarding loop: CLOSE to the agent, whether it arrives or not, and the clean-up.
unfoldable pub end_session : Bytes → ℕ → ℕ → TunnelServer → TunnelServer
end_session agent_id sid fd s =
    act (closed fd) (close_session sid (left (send_to_agent agent_id (make_close sid) s)))
