-- ===== src/TunnelServer/Reconnect.antt =====
-- What the end of an agent's connection removes, and what it removes when the agent is back already.
use tunnel_proxy.Base.Maps.{
  ℕ_key, Bytes_key, lookup, retain, lookup-erase, lookup-retain, lookup-insert_self, Every,
  Every-kept, Every-map,
}
use tunnel_proxy.Base.{
  ℕ, ◌≡◌, ◌≢◌, refl, ap, ◌∙◌, true, not, List, [], ◌∷◌, ◌++◌, none, some, arith, Bytes, equal,
  equal_iff, equal_refl, Outcome, ok, throw, Effect, done, raised, left,
}
use tunnel_proxy.Protocol.Types.{TunnelFrame, TunnelMsgType, hello}
use tunnel_proxy.Protocol
use tunnel_proxy.Protocol.{parse_hello_payload, make_hello_ack}
use tunnel_proxy.TunnelServer.Frames.{send_to_agent-SameTables}
use tunnel_proxy.TunnelServer.Invariant.{destroy-SameTables}
use tunnel_proxy.TunnelServer.Sending.{Error, send_to_agent}
use tunnel_proxy.TunnelServer.State.{AgentConn, Session, TunnelServer, closed}
use tunnel_proxy.TunnelServer.{
  unregister_agent, destroy, accept_agent, accept_type, welcome, greet, register,
}

differ : (a b : Bytes) → not (equal a b) ≡ true → a ≢ b
differ a b h e = absurd (ground (arith, equal_iff a b))

differing : (a b : Bytes) → a ≢ b → not (equal a b) ≡ true
differing a b ne = ground (arith, equal_iff a b)

Every-unit : (m : List (ℕ × Session)) → Every (λ _ _. Unit {0}) m
Every-unit [] = tt
Every-unit (e ∷ m) = (tt, Every-unit m)

-- When the connection of an agent ends: the agent is unknown and its sessions are gone; other
-- agents, and sessions of other agents, stay as they are.
pub unregister_agent_exact :
    (id : Bytes) (s : TunnelServer)
    → (lookup id (unregister_agent id s).agents ≡ none)
      × ((other : Bytes)
          → other ≢ id
          → lookup other (unregister_agent id s).agents ≡ lookup other s.agents)
      × Every (λ sid session. session.agent_id ≢ id) (unregister_agent id s).sessions
      × ((sid : ℕ) (session : Session)
          → lookup sid s.sessions ≡ some session
          → session.agent_id ≢ id
          → lookup sid (unregister_agent id s).sessions ≡ some session)
unfolding unregister_agent
unregister_agent_exact id s =
    let s' = destroy (lookup id s.agents) s in
    let same = destroy-SameTables (lookup id s.agents) s in
    (
      ground (arith, lookup-erase id id s'.agents, equal_refl id),
      λ other ne. ground (
        arith,
        lookup-erase id other s'.agents,
        equal_iff id other,
        ap (lookup other) same.agents,
      ),
      Every-map _ _ (retain (λ sid session. not (equal session.agent_id id)) s'.sessions)
          (λ sid session h e. differ session.agent_id id h.1 e)
          (Every-kept (λ _ _. Unit {0}) _ s'.sessions (Every-unit s'.sessions)),
      λ sid session e ne.
          lookup-retain _ sid session s'.sessions (ap (lookup sid) same.sessions ∙ e)
            (differing session.agent_id id ne),
    )

-- A connection that is up.
abbrev connected : ℕ → Bytes → ℕ → AgentConn
connected fd id now = record { fd = some fd; agent_id = id; last_heartbeat_ns = now }

closes :
    (id : Bytes) (conn : AgentConn) (fd : ℕ) (t : TunnelServer)
    → lookup id t.agents ≡ some conn
    → conn.fd ≡ some fd
    → (unregister_agent id t).actions ≡ t.actions ++ (closed fd ∷ [])
unfolding unregister_agent destroy
closes id conn fd t e e' = ground arith

greeted :
    (fd : ℕ) (id id' : Bytes) (now : ℕ) (r : Effect Error TunnelServer)
    → (greet id r).0 ≡ some id'
    → lookup id (left r).agents ≡ some (connected fd id now)
    → lookup id' (greet id r).1.agents ≡ some (connected fd id' now)
unfolding greet
greeted fd id id' now (done s) h e = ground arith
greeted fd id id' now (raised x s) h e = cc

welcomed :
    (fd : ℕ) (o : Outcome Protocol.Error Bytes) (id : Bytes) (now : ℕ) (s : TunnelServer)
    → (welcome fd o now s).0 ≡ some id
    → lookup id (welcome fd o now s).1.agents ≡ some (connected fd id now)
unfolding welcome register
welcomed fd (throw e) id now s h = cc
welcomed fd (ok id') id now s h =
    let s' = register fd id' now s in
    greeted fd id' id now (send_to_agent id' make_hello_ack s') h (
      ap (lookup id') (send_to_agent-SameTables id' make_hello_ack s').agents
      ∙ lookup-insert_self id' (connected fd id' now) _)

accepted_type :
    (t : TunnelMsgType) (fd : ℕ) (frame : TunnelFrame) (id : Bytes) (now : ℕ) (s : TunnelServer)
    → (accept_type t fd frame now s).0 ≡ some id
    → lookup id (accept_type t fd frame now s).1.agents ≡ some (connected fd id now)
unfolding accept_type
accepted_type hello fd frame id now s h = welcomed fd (parse_hello_payload frame.payload) id now s h
accepted_type _ fd frame id now s h = cc

accepted :
    (fd : ℕ) (frame : TunnelFrame) (id : Bytes) (now : ℕ) (s : TunnelServer)
    → (accept_agent fd (some frame) now s).0 ≡ some id
    → lookup id (accept_agent fd (some frame) now s).1.agents ≡ some (connected fd id now)
unfolding accept_agent
accepted fd frame id now s h = accepted_type frame.type fd frame id now s h

-- An agent that connects again is registered with its new connection. If the thread of the old
-- connection ends after that, it removes the new registration and closes the new descriptor.
pub reconnect_removed :
    (fd : ℕ) (frame : TunnelFrame) (id : Bytes) (now : ℕ) (s : TunnelServer)
    → (accept_agent fd (some frame) now s).0 ≡ some id
    → let t = (accept_agent fd (some frame) now s).1 in
      (lookup id t.agents ≡ some (connected fd id now))
      × (lookup id (unregister_agent id t).agents ≡ none)
      × ((unregister_agent id t).actions ≡ t.actions ++ (closed fd ∷ []))
reconnect_removed fd frame id now s h =
    let t = (accept_agent fd (some frame) now s).1 in
    let here = accepted fd frame id now s h in
    (here, (unregister_agent_exact id t).0, closes id (connected fd id now) fd t here refl)
