-- ===== src/UdpProxy.antt =====
-- include/core/udp_proxy.h and src/udp_proxy.cpp: the sessions of the UDP proxy, one per client
-- address, in two tables. Times are nanoseconds of the steady clock. The set-up of the listening
-- socket and `epoll` itself are left out; what the kernel answers is an argument.
pub mod Keys
pub mod Tables
pub mod Steps
pub mod Spec
pub mod Datagrams
mod Views
mod Cleanup
mod Settings
pub mod Refinement
use tunnel_proxy.Base.Maps.{ℕ_key, Bytes_key, lookup, insert, erase}
use tunnel_proxy.Base.{
  ℕ, ◌-◌, ◌*◌, Bool, true, false, List, [], ◌∷◌, ◌++◌, Option, none, some, leb, if◌then◌else◌,
  Bytes, to_string,
}
use tunnel_proxy.Protocol.Inet.{Inet}

-- `sockaddr_in`: the four bytes of the address, and the port.
pub record Address : Type 0 where
  pub addr : Bytes
  pub port : ℕ

pub record Session : Type 0 where
  pub target_fd : ℕ
  pub client_addr : Address
  pub last_activity : ℕ

-- What goes out, oldest first: datagrams to the target and to clients, and closed descriptors.
pub data Action : Type 0 where
  to_target : ℕ → Bytes → Action
  to_client : Address → Bytes → Action
  closed : ℕ → Action

pub record UdpProxy : Type 0 where
  pub running : Bool
  pub session_timeout_s : ℕ
  pub cleanup_interval_s : ℕ
  pub last_cleanup : ℕ
  pub sessions_by_client : List (Bytes × Session)
  pub sessions_by_target : List (ℕ × Bytes)
  pub actions : List Action

-- The constructor, and `running_ = true` in `run`.
unfoldable pub started : ℕ → ℕ → ℕ → UdpProxy
started session_timeout_s cleanup_interval_s now = record {
  running = true;
  session_timeout_s = session_timeout_s;
  cleanup_interval_s = cleanup_interval_s;
  last_cleanup = now;
  sessions_by_client = [];
  sessions_by_target = [];
  actions = [];
}

abbrev pub act : Action → UdpProxy → UdpProxy
act a s = record s { actions = s.actions ++ (a ∷ []) }

-- How the calls for a new socket end: `socket`, `connect`, `fcntl` and `epoll_ctl`.
pub data Setup : Type 0 where
  no_socket : Setup
  not_connected not_nonblocking not_registered ready : ℕ → Setup

-- A datagram of a client, with what the kernel answers while it is handled: whether `send`
-- succeeds, and the time at which a session is made and at which `send` returned.
pub record Datagram : Type 0 where
  pub client_addr : Address
  pub bytes : Bytes
  pub setup : Setup
  pub delivered : Bool
  pub created_at : ℕ
  pub sent_at : ℕ

-- What `recv` gives on the socket of a session: an error that is not EAGAIN, or a datagram, with
-- whether `sendto` succeeds and the time after it.
pub data Reply : Type 0 where
  failed : Reply
  received : Bytes → Bool → ℕ → Reply

unfoldable pub close_session : ℕ → UdpProxy → UdpProxy
close_session target_fd s = elim (lookup target_fd s.sessions_by_target) [
  | none ↦ s
  | some key ↦ record (act (closed target_fd) s) {
    sessions_by_client = erase key s.sessions_by_client;
    sessions_by_target = erase target_fd s.sessions_by_target;
  }
]

-- `last_activity = now` on a session of the table.
unfoldable pub touch : Bytes → ℕ → UdpProxy → UdpProxy
touch key now s = elim (lookup key s.sessions_by_client) [
  | none ↦ s
  | some session ↦ record s {
    sessions_by_client = insert key (record session { last_activity = now }) s.sessions_by_client;
  }
]

-- One datagram of the target, for the client of the session.
unfoldable pub forward_reply : Bytes → Address → Bytes → Bool → ℕ → UdpProxy → UdpProxy
unfolding touch
forward_reply key client_addr bytes delivered now s =
    if delivered then touch key now (act (to_client client_addr bytes) s) else s

-- The loop of `handle_target_data`; the list ends where `recv` gives EAGAIN.
unfoldable pub forward_replies : ℕ → Bytes → Address → List Reply → UdpProxy → UdpProxy
unfolding forward_reply
forward_replies target_fd key client_addr [] s = s
forward_replies target_fd key client_addr (failed ∷ replies) s = close_session target_fd s
forward_replies target_fd key client_addr (received [] delivered now ∷ replies) s =
    close_session target_fd s
forward_replies target_fd key client_addr (received (b ∷ bs) delivered now ∷ replies) s =
    forward_replies target_fd key client_addr replies
      (forward_reply key client_addr (b ∷ bs) delivered now s)

unfoldable pub handle_target_data : ℕ → List Reply → UdpProxy → UdpProxy
handle_target_data target_fd replies s = elim (lookup target_fd s.sessions_by_target) [
  | none ↦ close_session target_fd s
  | some key ↦ elim (lookup key s.sessions_by_client) [
    | none ↦ close_session target_fd s
    | some session ↦ forward_replies target_fd key session.client_addr replies s
  ]
]

-- The descriptors whose session is missing or has been idle for the time-out.
unfoldable pub expired_fds : ℕ → ℕ → List (Bytes × Session) → List (ℕ × Bytes) → List ℕ
expired_fds now timeout by_client [] = []
expired_fds now timeout by_client ((fd, key) ∷ rest) =
    let others = expired_fds now timeout by_client rest in
    elim (lookup key by_client) [
      | none ↦ fd ∷ others
      | some session ↦ if leb timeout (now - session.last_activity) then fd ∷ others else others
    ]

unfoldable pub close_sessions : List ℕ → UdpProxy → UdpProxy
close_sessions [] s = s
close_sessions (fd ∷ fds) s = close_sessions fds (close_session fd s)

abbrev pub timeout_ns : UdpProxy → ℕ
timeout_ns s = s.session_timeout_s * 1_000_000_000

unfoldable pub cleanup_expired_sessions : ℕ → UdpProxy → UdpProxy
cleanup_expired_sessions now s =
    close_sessions (expired_fds now (timeout_ns s) s.sessions_by_client s.sessions_by_target) s

-- The end of a round of `run`.
unfoldable pub tick : ℕ → UdpProxy → UdpProxy
tick now s =
    if leb (s.cleanup_interval_s * 1_000_000_000) (now - s.last_cleanup)
    then record (cleanup_expired_sessions now s) { last_cleanup = now }
    else s

unfoldable pub stop : UdpProxy → UdpProxy
stop s = record s { running = false }

module _ (inet : Inet) where
  -- `inet_ntop` does not fail on four bytes.
  unfoldable pub addr_to_key : Address → Bytes
  addr_to_key a = elim (inet.ntop a.addr) [ none ↦ [] | some ip ↦ ip ] ++ (b':' ∷ to_string a.port)

  unfoldable pub enter : ℕ → ℕ → Address → UdpProxy → Session × UdpProxy
  enter target_fd now client_addr s =
      let session : Session = record {
        target_fd = target_fd;
        client_addr = client_addr;
        last_activity = now;
      } in
      (
        session,
        record s {
          sessions_by_client = insert (addr_to_key client_addr) session s.sessions_by_client;
          sessions_by_target = insert target_fd (addr_to_key client_addr) s.sessions_by_target;
        },
      )

  unfoldable pub create_session : Setup → ℕ → Address → UdpProxy → Option Session × UdpProxy
  create_session no_socket now client_addr s = (none, s)
  create_session (not_connected fd) now client_addr s = (none, act (closed fd) s)
  create_session (not_nonblocking fd) now client_addr s = (none, act (closed fd) s)
  create_session (not_registered fd) now client_addr s = (none, act (closed fd) s)
  create_session (ready fd) now client_addr s =
      let (session, s') = enter fd now client_addr s in (some session, s')

  unfoldable pub get_or_create_session : Setup → ℕ → Address → UdpProxy → Option Session × UdpProxy
  get_or_create_session setup now client_addr s =
      elim (lookup (addr_to_key client_addr) s.sessions_by_client) [
        | none ↦ create_session setup now client_addr s
        | some session ↦ (some session, s)
      ]

  -- The rest of a round of `handle_client_data`.
  unfoldable pub forward_datagram : Datagram → Option Session × UdpProxy → UdpProxy
  unfolding touch
  forward_datagram d (none, s) = s
  forward_datagram d (some session, s) =
      if d.delivered
      then touch (addr_to_key d.client_addr) d.sent_at (act (to_target session.target_fd d.bytes) s)
      else s

  unfoldable pub handle_datagram : Datagram → UdpProxy → UdpProxy
  handle_datagram d s =
      forward_datagram d (get_or_create_session d.setup d.created_at d.client_addr s)

  -- The loop of `handle_client_data`; the list ends where `recvfrom` fails. An empty datagram
  -- ends it too.
  unfoldable pub handle_client_data : List Datagram → UdpProxy → UdpProxy
  handle_client_data [] s = s
  handle_client_data (d ∷ ds) s = elim d.bytes [
    | [] ↦ s
    | b ∷ bs ↦ handle_client_data ds (handle_datagram d s)
  ]
