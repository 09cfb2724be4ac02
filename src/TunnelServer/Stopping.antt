-- ===== src/TunnelServer/Stopping.antt =====
-- `stop` leaves nobody waiting.
use tunnel_proxy.Base.Maps.{ℕ_key, Bytes_key, lookup, insert, lookup-insert}
use tunnel_proxy.Base.{
  ℕ, ◌≡◌, refl, ap, ◌∙◌, inl, inr, Option-cases, Bytes, true, false, List, [], ◌∷◌, none, some,
  arith,
}
use tunnel_proxy.TunnelServer.Shutdown.{stop, fail_all, hang_up, fail_pending, clear_sessions}
use tunnel_proxy.TunnelServer.State.{
  AgentConn, Action, TunnelServer, Signal, server_stopped, act, closed, shut_down,
}

fail_all_lem :
    (k : ℕ) (m : List (ℕ × Unit {0})) (signals : List (ℕ × Signal))
    → lookup k (fail_all m signals)
      ≡ elim (lookup k m) [ none ↦ lookup k signals | some promise ↦ some server_stopped ]
unfolding fail_all lookup
fail_all_lem k [] signals = refl
fail_all_lem k ((j, p) ∷ m) signals = ground (
  arith,
  fail_all_lem k m (insert j server_stopped signals),
  lookup-insert j k server_stopped signals,
)

-- Hanging up adds actions, and does nothing else.
hang_up-actions :
    (agents : List (Bytes × AgentConn)) (s : TunnelServer)
    → hang_up agents s ≡ record s { actions = (hang_up agents s).actions }
unfolding hang_up
hang_up-actions [] s = refl
hang_up-actions ((id, conn) ∷ agents) s = elim (Option-cases conn.fd) [
  | inl e ↦ rw (e, hang_up) (hang_up-actions agents s)
  | inr (fd, e) ↦ rw (e, hang_up) (hang_up-actions agents (act (closed fd) (act (shut_down fd) s)))
]

-- The server that has stopped, but for its actions.
abbrev stopped : TunnelServer → List Action → TunnelServer
stopped s list = record s {
  running = false;
  agents = [];
  sessions = [];
  pending_open = [];
  signals = fail_all s.pending_open s.signals;
  actions = list;
}

stop-stopped :
    (s : TunnelServer) → s.running ≡ true → (list : List Action) × (stop s ≡ stopped s list)
unfolding stop
stop-stopped s h =
    let s' = record (fail_pending (record s { running = false })) { agents = [] } in
    ((hang_up s.agents s').actions, rw (h, stop) (ap clear_sessions (hang_up-actions s.agents s')))

stop_again : (s : TunnelServer) → s.running ≡ false → stop s ≡ s
unfolding stop
stop_again s h = rw (h, stop) refl

-- Stopping a server that runs empties its tables, tells every waiting thread that the server has
-- stopped, leaves the futures of all others as they are, and a second call changes nothing.
pub stop_wakes :
    (s : TunnelServer)
    → s.running ≡ true
    → ((stop s).running ≡ false)
      × ((stop s).agents ≡ [])
      × ((stop s).sessions ≡ [])
      × ((stop s).pending_open ≡ [])
      × ((sid : ℕ)
          → lookup sid s.pending_open ≡ some tt
          → lookup sid (stop s).signals ≡ some server_stopped)
      × ((sid : ℕ)
          → lookup sid s.pending_open ≡ none
          → lookup sid (stop s).signals ≡ lookup sid s.signals)
      × (stop (stop s) ≡ stop s)
stop_wakes s h =
    let (list, e) = stop-stopped s h in
    (
      ap (λ t. t.running) e,
      ap (λ t. t.agents) e,
      ap (λ t. t.sessions) e,
      ap (λ t. t.pending_open) e,
      λ sid i.
          ap (λ t. lookup sid t.signals) e
          ∙ ground (arith, fail_all_lem sid s.pending_open s.signals),
      λ sid i.
          ap (λ t. lookup sid t.signals) e
          ∙ ground (arith, fail_all_lem sid s.pending_open s.signals),
      stop_again (stop s) (ap (λ t. t.running) e),
    )
