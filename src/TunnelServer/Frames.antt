-- ===== src/TunnelServer/Frames.antt =====
-- What sending leaves alone.
use tunnel_proxy.Base.Maps.{ℕ_key, Bytes_key, lookup}
use tunnel_proxy.Base.{ℕ, ◌≡◌, arith, inl, inr, Option-cases, Bytes, left, done, Effect}
use tunnel_proxy.Protocol.Types.{TunnelFrame}
use tunnel_proxy.TunnelServer.Sending.{Error, transmit, send_to_agent, send_on}
use tunnel_proxy.TunnelServer.State.{TunnelServer}
use tunnel_proxy.Protocol.{serialize}

-- All but the metrics, the answers of the kernel and the actions.
pub record SameTables (s t : TunnelServer) : Type 0 where
  pub running : t.running ≡ s.running
  pub next_session_id : t.next_session_id ≡ s.next_session_id
  pub agents : t.agents ≡ s.agents
  pub sessions : t.sessions ≡ s.sessions
  pub pending_open : t.pending_open ≡ s.pending_open
  pub signals : t.signals ≡ s.signals
  pub forward_target : t.forward_target ≡ s.forward_target

pub transmit-SameTables :
    (fd : ℕ) (buf : Bytes) (s : TunnelServer) → SameTables s (transmit fd buf s).0
unfolding transmit
transmit-SameTables fd buf s = ground arith

pub send_on-SameTables :
    (fd : ℕ) (frame : TunnelFrame) (s : TunnelServer) → SameTables s (left (send_on fd frame s))
unfolding send_on
send_on-SameTables fd frame s = ground (arith, transmit-SameTables fd (serialize frame) s)

-- Either nothing is done, or the frame goes out on a connection.
pub send_to_agent_cases {ℓ} :
    (P : Effect Error TunnelServer → Type ℓ) (id : Bytes) (frame : TunnelFrame) (s : TunnelServer)
    → P (done s)
    → ((fd : ℕ) → P (send_on fd frame s))
    → P (send_to_agent id frame s)
unfolding send_to_agent
send_to_agent_cases P id frame s silent sends = elim (Option-cases (lookup id s.agents)) [
  | inl e ↦ rw (e, send_to_agent) silent
  | inr (conn, e) ↦
      rw (e, send_to_agent)
        (elim (Option-cases conn.fd) [ inl e' ↦ rw e' silent | inr (fd, e') ↦ rw e' (sends fd) ])
]

pub SameTables-refl : (s : TunnelServer) → SameTables s s
SameTables-refl s = ground arith

-- Sending changes no table of the server, also where it fails.
pub send_to_agent-SameTables :
    (id : Bytes) (frame : TunnelFrame) (s : TunnelServer)
    → SameTables s (left (send_to_agent id frame s))
send_to_agent-SameTables id frame s =
    send_to_agent_cases (λ r. SameTables s (left r)) id frame s (SameTables-refl s)
      (λ fd. send_on-SameTables fd frame s)
