-- ===== src/TunnelAgent/State.antt =====
-- include/core/tunnel_agent.h: the state of the agent. An `int` that is -1 for "none" is an
-- option; times are nanoseconds of the steady clock.
use tunnel_proxy.Base.{ℕ, ◌*◌, Bool, List, [], ◌∷◌, ◌++◌, Option, none, if◌then◌else◌, ltb, Bytes}
use tunnel_proxy.TunnelMetrics
use tunnel_proxy.TunnelMetrics.{TunnelMetrics}

-- The reader of a session that is in the table is always joinable.
pub record Session : Type 0 where
  pub target_fd : Option ℕ

pub data Error : Type 0 where
  no_socket invalid_ip not_connected hello_not_made no_hello_ack send_failed : Error

-- What the code does to file descriptors and to the readers of sessions, oldest first.
pub data Action : Type 0 where
  sent : ℕ → Bytes → Action
  closed shut_down joined detached : ℕ → Action

-- `replies` are the kernel's answers to the next calls of `send`; `heartbeat_thread` says whether
-- the thread is joinable; `terminated` is that std::terminate was called.
pub record TunnelAgent : Type 0 where
  pub server_ip : Bytes
  pub agent_id : Bytes
  pub heartbeat_interval_s : ℕ
  pub heartbeat_timeout_s : ℕ
  pub running : Bool
  pub terminated : Bool
  pub server_fd : Option ℕ
  pub last_ack_ns : ℕ
  pub current_reconnect_delay : ℕ
  pub metrics : TunnelMetrics
  pub sessions : List (ℕ × Session)
  pub heartbeat_thread : Bool
  pub replies : List ℕ
  pub actions : List Action

-- The constructor.
unfoldable pub new : Bytes → Bytes → ℕ → ℕ → TunnelAgent
new server_ip agent_id heartbeat_interval_s heartbeat_timeout_s = record {
  server_ip = server_ip;
  agent_id = agent_id;
  heartbeat_interval_s = heartbeat_interval_s;
  heartbeat_timeout_s =
      if ltb 0 heartbeat_timeout_s then heartbeat_timeout_s else heartbeat_interval_s * 3;
  running = Bool.false;
  terminated = Bool.false;
  server_fd = none;
  last_ack_ns = 0;
  current_reconnect_delay = 0;
  metrics = TunnelMetrics.new;
  sessions = [];
  heartbeat_thread = Bool.false;
  replies = [];
  actions = [];
}

abbrev pub act : Action → TunnelAgent → TunnelAgent
act a s = record s { actions = s.actions ++ (a ∷ []) }

abbrev pub count : (TunnelMetrics → TunnelMetrics) → TunnelAgent → TunnelAgent
count f s = record s { metrics = f s.metrics }
