-- ===== src/TunnelServer/Shutdown.antt =====
-- src/tunnel_server.cpp: `watchdog_loop` and `stop`.
use tunnel_proxy.Base.Maps.{ℕ_key, Bytes_key, insert}
use tunnel_proxy.Base.{ℕ, ◌-◌, ◌*◌, false, List, [], ◌∷◌, none, some, ltb, if◌then◌else◌, Bytes}
use tunnel_proxy.TunnelServer.State.{
  AgentConn, TunnelServer, Signal, server_stopped, closed, shut_down, act,
}

-- One round of `watchdog_loop`: the connections that are silent for too long are shut down. A
-- clock value that was stored after `now` was read is no timeout.
unfoldable pub shut_silent : ℕ → ℕ → List (Bytes × AgentConn) → TunnelServer → TunnelServer
shut_silent timeout_ns now [] s = s
shut_silent timeout_ns now ((id, conn) ∷ agents) s =
    let s' =
      if ltb timeout_ns (now - conn.last_heartbeat_ns)
      then elim conn.fd [ none ↦ s | some fd ↦ act (shut_down fd) s ]
      else s in
    shut_silent timeout_ns now agents s'

unfoldable pub watchdog_round : ℕ → TunnelServer → TunnelServer
watchdog_round now s = shut_silent (s.agent_timeout_s * 1_000_000_000) now s.agents s

unfoldable pub fail_all : List (ℕ × Unit {0}) → List (ℕ × Signal) → List (ℕ × Signal)
fail_all [] signals = signals
fail_all ((sid, promise) ∷ rest) signals = fail_all rest (insert sid server_stopped signals)

unfoldable pub hang_up : List (Bytes × AgentConn) → TunnelServer → TunnelServer
hang_up [] s = s
hang_up ((id, conn) ∷ agents) s =
    hang_up agents (elim conn.fd [ none ↦ s | some fd ↦ act (closed fd) (act (shut_down fd) s) ])

-- The sections of `stop`: the promises, the connections and the sessions, under one mutex each.
abbrev pub fail_pending : TunnelServer → TunnelServer
fail_pending s = record s { signals = fail_all s.pending_open s.signals; pending_open = [] }

abbrev pub clear_agents : TunnelServer → TunnelServer
clear_agents s = hang_up s.agents (record s { agents = [] })

abbrev pub clear_sessions : TunnelServer → TunnelServer
clear_sessions s = record s { sessions = [] }

-- The listening sockets and the joins of the two threads are left out.
unfoldable pub stop : TunnelServer → TunnelServer
stop s =
    if s.running
    then clear_sessions (clear_agents (fail_pending (record s { running = false })))
    else s
