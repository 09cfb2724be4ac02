-- ===== src/TunnelServer/State.antt =====
-- include/core/tunnel_server.h: the state of the server. An `int` that is -1 for "none" is an
-- option; times are nanoseconds of the steady clock.
use tunnel_proxy.Base.{ℕ, Bool, List, [], ◌∷◌, ◌++◌, Option, none, Bytes}
use tunnel_proxy.TunnelMetrics
use tunnel_proxy.TunnelMetrics.{TunnelMetrics}

pub record AgentConn : Type 0 where
  pub fd : Option ℕ
  pub agent_id : Bytes
  pub last_heartbeat_ns : ℕ

pub record Session : Type 0 where
  pub session_id : ℕ
  pub agent_id : Bytes
  pub external_fd : Option ℕ

pub record ForwardTarget : Type 0 where
  pub agent_id : Bytes
  pub target_ip : Bytes
  pub target_port : ℕ

-- What the code does to file descriptors, oldest first.
pub data Action : Type 0 where
  sent : ℕ → Bytes → Action
  closed shut_down : ℕ → Action

-- What a waiting thread finds in its future.
pub data Signal : Type 0 where
  acknowledged server_stopped : Signal

-- `replies` are the kernel's answers to the next calls of `send`; `signals` are the futures of the
-- promises that were taken out of `pending_open`.
pub record TunnelServer : Type 0 where
  pub agent_timeout_s : ℕ
  pub running : Bool
  pub next_session_id : ℕ
  pub agents : List (Bytes × AgentConn)
  pub sessions : List (ℕ × Session)
  pub pending_open : List (ℕ × Unit {0})
  pub signals : List (ℕ × Signal)
  pub forward_target : Option ForwardTarget
  pub metrics : TunnelMetrics
  pub replies : List ℕ
  pub actions : List Action

-- The constructor, and `running_ = true` in `run`.
unfoldable pub started : ℕ → TunnelServer
started agent_timeout_s = record {
  agent_timeout_s = agent_timeout_s;
  running = Bool.true;
  next_session_id = 1;
  agents = [];
  sessions = [];
  pending_open = [];
  signals = [];
  forward_target = none;
  metrics = TunnelMetrics.new;
  replies = [];
  actions = [];
}

abbrev pub act : Action → TunnelServer → TunnelServer
act a s = record s { actions = s.actions ++ (a ∷ []) }

abbrev pub count : (TunnelMetrics → TunnelMetrics) → TunnelServer → TunnelServer
count f s = record s { metrics = f s.metrics }
