-- ===== src/TunnelServer/Events.antt =====
-- The threads of the server, interleaved: an event is one step of one thread, with the values that
-- the thread holds. `unregister_agent`, `open_session`, `stop` and `handle_agent_connection` release
-- their mutexes in between: for each of their sections there is an event, and events of other threads may
-- stand between them. A section may also come without the ones before it, so there are more lists
-- than schedules. `send_to_agent` is one step: between its look-up and its `send` it holds no mutex
-- of the tables and changes none.
use tunnel_proxy.Base.{ℕ, false, List, [], ◌∷◌, Option, Bytes, left}
use tunnel_proxy.Protocol.Inet.{Inet}
use tunnel_proxy.Protocol.Types.{TunnelFrame}
use tunnel_proxy.TunnelServer.Clients.{
  Wait, await_ack, begin_session, begin_external, external_waited, tunnel_waited, relay_to_agent,
  end_session,
}
use tunnel_proxy.TunnelServer.Shutdown.{
  watchdog_round, stop, fail_pending, clear_agents, clear_sessions,
}
use tunnel_proxy.TunnelServer.Sending.{send_to_agent}
use tunnel_proxy.TunnelServer.State.{TunnelServer, ForwardTarget}
use tunnel_proxy.TunnelServer.{
  accept_agent, handle_agent_frame, unregister_agent, set_forward_target, erase_agent,
  erase_sessions_of, enter_session, register, close_session,
}

-- `answers` is the kernel's choice for the calls of `send` to come.
pub data Event : Type 0 where
  answers : List ℕ → Event
  targets : Bytes → Bytes → ℕ → Event
  agent_connects : ℕ → Option TunnelFrame → ℕ → Event
  agent_sends : Bytes → TunnelFrame → ℕ → Event
  agent_leaves : Bytes → Event
  client_connects : ℕ → Event
  tunnel_connects : ℕ → ℕ → ForwardTarget → Event
  awaits : ℕ → Event
  client_waited : ℕ → ℕ → Wait → Event
  tunnel_waited_for : ℕ → ℕ → ℕ → Wait → Event
  client_sends : Bytes → ℕ → Bytes → Event
  client_leaves : Bytes → ℕ → ℕ → Event
  watchdog : ℕ → Event
  stops : Event
  -- The sections.
  agent_erased sessions_erased session_entered : Bytes → Event
  agent_registered : ℕ → Bytes → ℕ → Event
  frame_sent : Bytes → TunnelFrame → Event
  session_dropped : ℕ → Event
  pending_failed agents_cleared sessions_cleared : Event

module _ (inet : Inet) where
  unfoldable pub step : Event → TunnelServer → TunnelServer
  step (answers rs) s = record s { replies = rs }
  step (targets id ip port) s = set_forward_target id ip port s
  step (agent_connects fd frame now) s = (accept_agent fd frame now s).1
  step (agent_sends id frame now) s = handle_agent_frame id frame now s
  step (agent_leaves id) s = unregister_agent id s
  step (client_connects fd) s = (begin_external inet fd s).1
  step (tunnel_connects fd₀ fd₁ target) s = (begin_session inet (fd₀ ∷ fd₁ ∷ []) target s).1
  step (awaits sid) s = await_ack sid s
  step (client_waited sid fd wait) s = (external_waited sid fd wait s).1
  step (tunnel_waited_for sid fd₀ fd₁ wait) s = (tunnel_waited sid fd₀ fd₁ wait s).1
  step (client_sends id sid bytes) s = left (relay_to_agent id sid bytes s)
  step (client_leaves id sid fd) s = end_session id sid fd s
  step (watchdog now) s = watchdog_round now s
  step stops s = stop s
  step (agent_erased id) s = erase_agent id s
  step (sessions_erased id) s = erase_sessions_of id s
  step (session_entered id) s = (enter_session id s).1
  step (agent_registered fd id now) s = register fd id now s
  step (frame_sent id frame) s = left (send_to_agent id frame s)
  step (session_dropped sid) s = close_session sid s
  step pending_failed s = fail_pending (record s { running = false })
  step agents_cleared s = clear_agents s
  step sessions_cleared s = clear_sessions s

  unfoldable pub run : List Event → TunnelServer → TunnelServer
  run [] s = s
  run (e ∷ es) s = run es (step e s)
