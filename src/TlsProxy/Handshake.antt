-- ===== src/TlsProxy/Handshake.antt =====
-- `accept_connection`, `continue_handshake` and the choice in `run` of src/tls_proxy.cpp.
use tunnel_proxy.Base.Maps.{ℕ_key, lookup, insert, erase}
use tunnel_proxy.Base.{ℕ, true, false, List, [], ◌∷◌, none, some, Effect, done, raised, then_do}
use tunnel_proxy.TlsProxy.{
  epollout, mod_epoll, closed, TlsProxy, act, close_pending, Event, handle_event,
}

-- The exceptions, which leave `run`.
pub data Error : Type 0 where
  set_nonblocking epoll_ctl : Error

-- `run` when the constructor is done.
unfoldable pub started : TlsProxy
started = record { running = true; pending_ssl = []; connections = []; actions = [] }

-- What `accept` gave, and how far the loop got with it.
pub data Accepted : Type 0 where
  client_blocks no_ssl : (client_fd : ℕ) → Accepted
  not_registered accepted : (client_fd ssl : ℕ) → Accepted

abbrev pub pend : ℕ → ℕ → TlsProxy → TlsProxy
pend client_fd ssl s = record s { pending_ssl = insert client_fd ssl s.pending_ssl }

unfoldable pub accept_one : Accepted → TlsProxy → Effect Error TlsProxy
accept_one (client_blocks client_fd) s = raised set_nonblocking s
accept_one (no_ssl client_fd) s = done (act (closed client_fd) s)
accept_one (not_registered client_fd ssl) s = raised epoll_ctl (pend client_fd ssl s)
accept_one (accepted client_fd ssl) s = done (pend client_fd ssl s)

unfoldable pub accept_connection : List Accepted → TlsProxy → Effect Error TlsProxy
accept_connection [] s = done s
accept_connection (a ∷ others) s = then_do (accept_one a s) (accept_connection others)

-- The result of `SSL_accept`, and of the connection to the target behind it.
pub data Handshake : Type 0 where
  connected target_not_registered : (target_fd : ℕ) → Handshake
  no_target wants_read wants_write refused : Handshake

unfoldable pub establish : ℕ → ℕ → ℕ → TlsProxy → TlsProxy
establish fd ssl target_fd s = record s {
  pending_ssl = erase fd s.pending_ssl;
  connections =
      insert target_fd (record { peer_fd = fd; is_client = false; ssl = none; write_buf = [] })
        (insert fd
          (record { peer_fd = target_fd; is_client = true; ssl = some ssl; write_buf = [] })
          s.connections);
}

unfoldable pub continue_handshake : Handshake → ℕ → ℕ → TlsProxy → Effect Error TlsProxy
continue_handshake (connected target_fd) fd ssl s = done (establish fd ssl target_fd s)
continue_handshake (target_not_registered target_fd) fd ssl s =
    raised epoll_ctl (establish fd ssl target_fd s)
continue_handshake no_target fd ssl s = done (close_pending fd s)
continue_handshake wants_read fd ssl s = done s
continue_handshake wants_write fd ssl s = done (act (mod_epoll fd epollout) s)
continue_handshake refused fd ssl s = done (close_pending fd s)

-- An event on a descriptor that is not the listening one.
unfoldable pub dispatch : Handshake → Event → ℕ → TlsProxy → Effect Error TlsProxy
unfolding continue_handshake
dispatch h e fd s = elim (lookup fd s.pending_ssl) [
  | some ssl ↦ continue_handshake h fd ssl s
  | none ↦ done (handle_event e fd s)
]
