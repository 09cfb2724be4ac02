-- ===== src/TlsProxy.antt =====
-- include/core/tls_proxy.h and src/tls_proxy.cpp: TLS connections of clients, relayed in plain to a
-- target, in one thread. The answers of the kernel and of OpenSSL are arguments; an `SSL*` is a
-- number. `epoll_ctl(MOD)` does not fail on a registered descriptor.
pub mod Closing
pub mod Destroy
pub mod Entering
pub mod Flush
pub mod Handshake
pub mod Keeping
pub mod Relay
pub mod Steps
pub mod Streams
pub mod Tables
use tunnel_proxy.Base.Maps.{ℕ_key, lookup, insert, erase}
use tunnel_proxy.Base.{
  ℕ, ◌-◌, min, Bool, true, false, List, [], ◌∷◌, ◌++◌, Option, none, some, ◌==◌, if◌then◌else◌,
  length, take, drop, is_empty, Bytes,
}

-- `ssl` is `none` for nullptr.
pub record ConnState : Type 0 where
  pub peer_fd : ℕ
  pub is_client : Bool
  pub ssl : Option ℕ
  pub write_buf : Bytes

-- What a descriptor is registered for, always with EPOLLET.
pub data Interest : Type 0 where
  epollin epollout epollin_epollout : Interest

-- What the proxy hands to the kernel and to OpenSSL.
pub data Action : Type 0 where
  wrote : (fd : ℕ) → Bytes → Action
  encrypted : (client_fd : ℕ) → Bytes → Action
  mod_epoll : (fd : ℕ) → Interest → Action
  shut_down freed : (ssl : ℕ) → Action
  closed : (fd : ℕ) → Action

-- `actions` has the last action at its head.
pub record TlsProxy : Type 0 where
  pub running : Bool
  pub pending_ssl : List (ℕ × ℕ)
  pub connections : List (ℕ × ConnState)
  pub actions : List Action

abbrev pub act : Action → TlsProxy → TlsProxy
act a s = record s { actions = a ∷ s.actions }

unfoldable pub stop : TlsProxy → TlsProxy
stop s = record s { running = false }

-- The SSL object of the pair, from either side.
unfoldable pub ssl_of : ConnState → List (ℕ × ConnState) → Option ℕ
ssl_of c connections =
    if c.is_client
    then c.ssl
    else elim (lookup c.peer_fd connections) [ none ↦ none | some peer ↦ peer.ssl ]

abbrev pub release : Option ℕ → TlsProxy → TlsProxy
release none s = s
release (some ssl) s = act (freed ssl) (act (shut_down ssl) s)

unfoldable pub close_connection : ℕ → TlsProxy → TlsProxy
unfolding ssl_of
close_connection fd s = elim (lookup fd s.connections) [
  | none ↦ s
  | some c ↦
      record (act (closed c.peer_fd) (act (closed fd) (release (ssl_of c s.connections) s))) {
        connections = erase c.peer_fd (erase fd s.connections);
      }
]

unfoldable pub close_pending : ℕ → TlsProxy → TlsProxy
close_pending fd s = elim (lookup fd s.pending_ssl) [
  | none ↦ s
  | some ssl ↦ record (act (closed fd) (act (freed ssl) s)) { pending_ssl = erase fd s.pending_ssl }
]

-- `write_buf` of `connections_[fd]` is extended, which makes an entry where there is none.
unfoldable pub keep : ℕ → Bytes → TlsProxy → TlsProxy
keep fd bytes s = elim (lookup fd s.connections) [
  | none ↦ record s {
    connections =
        insert fd (record { peer_fd = 0; is_client = false; ssl = none; write_buf = bytes })
          s.connections;
  }
  | some c ↦ record s {
    connections = insert fd (record c { write_buf = c.write_buf ++ bytes }) s.connections;
  }
]

-- An answer to `write`: a number of bytes, EAGAIN, or another error.
pub data Write : Type 0 where
  took : ℕ → Write
  would_block write_failed : Write

pub data End : Type 0 where
  all_written blocked broken : End

-- The loop around `write`: what went out, what is left, and how it ended. When the answers are used
-- up, the kernel takes the rest.
unfoldable pub write_all : List Write → Bytes → Bytes × Bytes × End
write_all ws [] = ([], [], all_written)
write_all [] (b ∷ bs) = (b ∷ bs, [], all_written)
write_all (took k ∷ ws) (b ∷ bs) =
    let n = min k (length (b ∷ bs)) in
    let more = write_all ws (drop n (b ∷ bs)) in
    if n == 0 then ([], b ∷ bs, broken) else (take n (b ∷ bs) ++ more.0, more.1, more.2)
write_all (would_block ∷ ws) (b ∷ bs) = ([], b ∷ bs, blocked)
write_all (write_failed ∷ ws) (b ∷ bs) = ([], b ∷ bs, broken)

-- An answer to `SSL_read`: bytes with the answers when they are written, SSL_ERROR_WANT_READ or
-- SSL_ERROR_WANT_WRITE, or the end or an error.
pub data SslRead : Type 0 where
  plain : Bytes → List Write → SslRead
  want_more ended : SslRead

-- One round of `forward_client_to_target` in which bytes were read, and then `more`.
abbrev pub after_write : Bytes × Bytes × End → ℕ → ℕ → TlsProxy → (TlsProxy → TlsProxy) → TlsProxy
after_write (out, rest, all_written) client_fd target_fd s more = more (act (wrote target_fd out) s)
after_write (out, rest, blocked) client_fd target_fd s more =
    act (mod_epoll target_fd epollin_epollout) (keep target_fd rest (act (wrote target_fd out) s))
after_write (out, rest, broken) client_fd target_fd s more =
    close_connection client_fd (act (wrote target_fd out) s)

unfoldable pub forward_client_to_target : List SslRead → ℕ → ℕ → TlsProxy → TlsProxy
forward_client_to_target [] client_fd target_fd s = s
forward_client_to_target (plain bytes ws ∷ reads) client_fd target_fd s =
    after_write (write_all ws bytes) client_fd target_fd s
      (forward_client_to_target reads client_fd target_fd)
forward_client_to_target (want_more ∷ reads) client_fd target_fd s = s
forward_client_to_target (ended ∷ reads) client_fd target_fd s = close_connection client_fd s

-- An answer to `SSL_write`, which takes all bytes or none.
pub data SslWrite : Type 0 where
  written want_write want_read ssl_failed : SslWrite

-- An answer to `read`: bytes, none at the end of the stream, with the answer when they are
-- encrypted; EAGAIN; or another error.
pub data TargetRead : Type 0 where
  got : Bytes → SslWrite → TargetRead
  nothing read_failed : TargetRead

unfoldable pub forward_target_to_client : List TargetRead → ℕ → ℕ → TlsProxy → TlsProxy
forward_target_to_client [] target_fd client_fd s = s
forward_target_to_client (got [] w ∷ reads) target_fd client_fd s = close_connection target_fd s
forward_target_to_client (got (b ∷ bs) written ∷ reads) target_fd client_fd s =
    forward_target_to_client reads target_fd client_fd (act (encrypted client_fd (b ∷ bs)) s)
forward_target_to_client (got (b ∷ bs) want_write ∷ reads) target_fd client_fd s =
    act (mod_epoll client_fd epollin_epollout) (keep client_fd (b ∷ bs) s)
forward_target_to_client (got (b ∷ bs) want_read ∷ reads) target_fd client_fd s = s
forward_target_to_client (got (b ∷ bs) ssl_failed ∷ reads) target_fd client_fd s =
    close_connection target_fd s
forward_target_to_client (nothing ∷ reads) target_fd client_fd s = s
forward_target_to_client (read_failed ∷ reads) target_fd client_fd s = close_connection target_fd s

abbrev pub set_buf : ℕ → ConnState → Bytes → TlsProxy → TlsProxy
set_buf fd c bytes s = record s {
  connections = insert fd (record c { write_buf = bytes }) s.connections;
}

-- `flush_write_buf` of a target, with its entry c.
unfoldable pub flush_plain : Bytes × Bytes × End → ℕ → ConnState → TlsProxy → TlsProxy
flush_plain (out, rest, all_written) fd c s =
    act (mod_epoll fd epollin) (set_buf fd c [] (act (wrote fd out) s))
flush_plain (out, rest, blocked) fd c s = set_buf fd c rest (act (wrote fd out) s)
flush_plain (out, rest, broken) fd c s = close_connection fd (act (wrote fd out) s)

-- `flush_write_buf` of a client.
unfoldable pub flush_tls : SslWrite → ℕ → ConnState → TlsProxy → TlsProxy
flush_tls written fd c s =
    act (mod_epoll fd epollin) (set_buf fd c [] (act (encrypted fd c.write_buf) s))
flush_tls want_write fd c s = s
flush_tls want_read fd c s = close_connection fd s
flush_tls ssl_failed fd c s = close_connection fd s

unfoldable pub flush_write_buf : List Write → SslWrite → ℕ → TlsProxy → TlsProxy
unfolding flush_plain flush_tls
flush_write_buf ws w fd s = elim (lookup fd s.connections) [
  | none ↦ s
  | some c ↦
      if is_empty c.write_buf
      then act (mod_epoll fd epollin) s
      else if c.is_client
      then flush_tls w fd c s
      else flush_plain (write_all ws c.write_buf) fd c s
]

-- The bits of the event, and the answers while it is handled.
pub record Event : Type 0 where
  pub hung_up : Bool
  pub writable : Bool
  pub readable : Bool
  pub flush_writes : List Write
  pub flush_ssl : SslWrite
  pub client_reads : List SslRead
  pub target_reads : List TargetRead

unfoldable pub read_event : Event → ℕ → TlsProxy → TlsProxy
unfolding forward_client_to_target forward_target_to_client
read_event e fd s = elim (lookup fd s.connections) [
  | none ↦ s
  | some c ↦
      if c.is_client
      then forward_client_to_target e.client_reads fd c.peer_fd s
      else elim (lookup c.peer_fd s.connections) [
        | none ↦ close_connection fd s
        | some client ↦ forward_target_to_client e.target_reads fd c.peer_fd s
      ]
]

unfoldable pub handle_event : Event → ℕ → TlsProxy → TlsProxy
unfolding read_event flush_write_buf
handle_event e fd s =
    if e.hung_up
    then close_connection fd s
    else let s' = if e.writable then flush_write_buf e.flush_writes e.flush_ssl fd s else s in
      if e.readable then read_event e fd s' else s'
