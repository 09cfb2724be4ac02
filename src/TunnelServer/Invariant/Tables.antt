-- ===== src/TunnelServer/Invariant/Tables.antt =====
-- The invariant on the two tables and the counter, and what each kind of update asks for.
use tunnel_proxy.Base.Maps.{
  ℕ_key, Bytes_key, insert, erase, retain, Every, Every-insert, Every-retain,
}
use tunnel_proxy.Base.{ℕ, ◌^◌, ◌<◌, ◌≡◌, Bool, List, [], Bytes}
use tunnel_proxy.TunnelServer.State.{AgentConn, Session}

abbrev pub IsId : ℕ → Session → Type 0
IsId sid session = (session.session_id ≡ sid) × (0 < sid) × (sid < 2 ^ 32)

pub record InvOf (agents : List (Bytes × AgentConn)) (sessions : List (ℕ × Session)) (next : ℕ)
    : Type 0 where
  pub ids : Every IsId sessions
  pub names : Every (λ id conn. conn.agent_id ≡ id) agents
  pub counter : next < 2 ^ 32

module _ {agents : List (Bytes × AgentConn)} {sessions : List (ℕ × Session)} {next : ℕ} where
  pub InvOf-retain :
      (keep : ℕ → Session → Bool)
      → InvOf agents sessions next
      → InvOf agents (retain keep sessions) next
  InvOf-retain keep v = record {
    ids = Every-retain IsId keep sessions v.ids;
    names = v.names;
    counter = v.counter;
  }

  pub InvOf-agent :
      (id : Bytes) (conn : AgentConn)
      → conn.agent_id ≡ id
      → InvOf agents sessions next
      → InvOf (insert id conn agents) sessions next
  InvOf-agent id conn named v = record {
    ids = v.ids;
    names = Every-insert _ id conn agents named v.names;
    counter = v.counter;
  }

  pub InvOf-erase_agent :
      (id : Bytes) → InvOf agents sessions next → InvOf (erase id agents) sessions next
  unfolding erase
  InvOf-erase_agent id v = record {
    ids = v.ids;
    names = Every-retain _ _ agents v.names;
    counter = v.counter;
  }

  pub InvOf-session :
      (sid : ℕ) (session : Session)
      → IsId sid session
      → InvOf agents sessions next
      → InvOf agents (insert sid session sessions) next
  InvOf-session sid session named v = record {
    ids = Every-insert IsId sid session sessions named v.ids;
    names = v.names;
    counter = v.counter;
  }

  pub InvOf-counter : (n : ℕ) → n < 2 ^ 32 → InvOf agents sessions next → InvOf agents sessions n
  InvOf-counter n h v = record { ids = v.ids; names = v.names; counter = h }

  pub InvOf-no_agents : InvOf agents sessions next → InvOf [] sessions next
  InvOf-no_agents v = record { ids = v.ids; names = tt; counter = v.counter }

  pub InvOf-no_sessions : InvOf agents sessions next → InvOf agents [] next
  InvOf-no_sessions v = record { ids = tt; names = v.names; counter = v.counter }
