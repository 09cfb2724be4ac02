-- ===== src/UdpProxy/Steps.antt =====
-- The rounds of the event loop, and what they keep.
use tunnel_proxy.Base.Maps.{ℕ_key, Bytes_key, lookup}
use tunnel_proxy.Base.{
  ℕ, ◌-◌, ◌*◌, ◌≡◌, inl, inr, Bool, true, false, List, [], ◌∷◌, Option, Option-cases, none, some,
  leb, if◌then◌else◌, Bytes,
}
use tunnel_proxy.Protocol.Inet.{Inet}
use tunnel_proxy.UdpProxy.Tables.{Inv, InvOf-enter, InvOf-erase, InvOf-touch}
use tunnel_proxy.UdpProxy.{
  Address, Session, UdpProxy, Setup, no_socket, not_connected, not_nonblocking, not_registered,
  ready, Datagram, Reply, failed, received, addr_to_key, started, close_session, close_sessions,
  touch, enter, create_session, get_or_create_session, forward_datagram, handle_datagram,
  handle_client_data, forward_reply, forward_replies, handle_target_data, cleanup_expired_sessions,
  tick, stop,
}

-- A new socket has a descriptor that no session has.
abbrev IsFresh : Setup → UdpProxy → Type 0
IsFresh (ready fd) s = lookup fd s.sessions_by_target ≡ none
IsFresh _ s = Unit {0}

module _ (inet : Inet) where
  abbrev AllFresh : List Datagram → UdpProxy → Type 0
  AllFresh [] s = Unit {0}
  AllFresh (d ∷ ds) s = IsFresh d.setup s × AllFresh ds (handle_datagram inet d s)

  -- One event, or the clean-up at the end of a round; the kernel chooses.
  pub data Step : UdpProxy → UdpProxy → Type 0 where
    client_data :
        (s : UdpProxy) (ds : List Datagram) → AllFresh ds s → Step s (handle_client_data inet ds s)
    target_data :
        (s : UdpProxy) (fd : ℕ) (replies : List Reply) → Step s (handle_target_data fd replies s)
    ticks : (s : UdpProxy) (now : ℕ) → Step s (tick now s)
    stops : (s : UdpProxy) → Step s (stop s)

  pub data Reach (s : UdpProxy) : UdpProxy → Type 0 where
    here : Reach s s
    next : {t u : UdpProxy} → Reach s t → Step t u → Reach s u

  pub touch-Inv : (key : Bytes) (now : ℕ) (s : UdpProxy) → Inv inet s → Inv inet (touch key now s)
  unfolding touch
  touch-Inv key now s v = elim (Option-cases (lookup key s.sessions_by_client)) [
    | inl e ↦ rw (e, touch) v
    | inr (session, e) ↦ rw (e, touch) (InvOf-touch inet _ _ key session now e v)
  ]

  pub close_session-Inv : (fd : ℕ) (s : UdpProxy) → Inv inet s → Inv inet (close_session fd s)
  unfolding close_session
  close_session-Inv fd s v = elim (Option-cases (lookup fd s.sessions_by_target)) [
    | inl e ↦ rw (e, close_session) v
    | inr (key, e) ↦ rw (e, close_session) (InvOf-erase inet _ _ fd key e v)
  ]

  pub close_sessions-Inv :
      (fds : List ℕ) (s : UdpProxy) → Inv inet s → Inv inet (close_sessions fds s)
  unfolding close_sessions
  close_sessions-Inv [] s v = v
  close_sessions-Inv (fd ∷ fds) s v = close_sessions-Inv fds _ (close_session-Inv fd s v)

  create_session-Inv :
      (setup : Setup) (now : ℕ) (a : Address) (s : UdpProxy)
      → IsFresh setup s
      → lookup (addr_to_key inet a) s.sessions_by_client ≡ none
      → Inv inet s
      → Inv inet (create_session inet setup now a s).1
  unfolding create_session enter
  create_session-Inv no_socket now a s f e v = v
  create_session-Inv (not_connected fd) now a s f e v = v
  create_session-Inv (not_nonblocking fd) now a s f e v = v
  create_session-Inv (not_registered fd) now a s f e v = v
  create_session-Inv (ready fd) now a s f e v =
      InvOf-enter inet _ _ (record { target_fd = fd; client_addr = a; last_activity = now }) e f v

  get_or_create_session-Inv :
      (setup : Setup) (now : ℕ) (a : Address) (s : UdpProxy)
      → IsFresh setup s
      → Inv inet s
      → Inv inet (get_or_create_session inet setup now a s).1
  unfolding get_or_create_session
  get_or_create_session-Inv setup now a s f v =
      elim (Option-cases (lookup (addr_to_key inet a) s.sessions_by_client)) [
        | inl e ↦ rw (e, get_or_create_session) (create_session-Inv setup now a s f e v)
        | inr (session, e) ↦ rw (e, get_or_create_session) v
      ]

  if-Inv : (b : Bool) (s t : UdpProxy) → Inv inet s → Inv inet t → Inv inet (if b then s else t)
  if-Inv true s t v w = v
  if-Inv false s t v w = w

  forward_datagram-Inv :
      (d : Datagram) (r : Option Session × UdpProxy)
      → Inv inet r.1
      → Inv inet (forward_datagram inet d r)
  unfolding forward_datagram
  forward_datagram-Inv d (none, s) v = v
  forward_datagram-Inv d (some session, s) v =
      if-Inv d.delivered _ s (touch-Inv (addr_to_key inet d.client_addr) d.sent_at _ v) v

  pub handle_datagram-Inv :
      (d : Datagram) (s : UdpProxy)
      → IsFresh d.setup s
      → Inv inet s
      → Inv inet (handle_datagram inet d s)
  unfolding handle_datagram
  handle_datagram-Inv d s f v =
      forward_datagram-Inv d _ (get_or_create_session-Inv d.setup d.created_at d.client_addr s f v)

  handle_client_data-Inv :
      (ds : List Datagram) (s : UdpProxy)
      → AllFresh ds s
      → Inv inet s
      → Inv inet (handle_client_data inet ds s)
  unfolding handle_client_data
  handle_client_data-Inv [] s f v = v
  handle_client_data-Inv (d ∷ ds) s f v =
      elim d.bytes
        as (λ bytes. Inv inet (elim bytes [
          | [] ↦ s
          | b ∷ bs ↦ handle_client_data inet ds (handle_datagram inet d s)
        ])) [ [] ↦ v | b ∷ bs ↦ handle_client_data-Inv ds _ f.1 (handle_datagram-Inv d s f.0 v) ]

  pub forward_replies-Inv :
      (fd : ℕ) (key : Bytes) (a : Address) (rs : List Reply) (s : UdpProxy)
      → Inv inet s
      → Inv inet (forward_replies fd key a rs s)
  unfolding forward_replies forward_reply
  forward_replies-Inv fd key a [] s v = v
  forward_replies-Inv fd key a (failed ∷ rs) s v = close_session-Inv fd s v
  forward_replies-Inv fd key a (received [] delivered now ∷ rs) s v = close_session-Inv fd s v
  forward_replies-Inv fd key a (received (b ∷ bs) delivered now ∷ rs) s v =
      forward_replies-Inv fd key a rs _ (if-Inv delivered _ s (touch-Inv key now _ v) v)

  handle_target_data-Inv :
      (fd : ℕ) (rs : List Reply) (s : UdpProxy) → Inv inet s → Inv inet (handle_target_data fd rs s)
  unfolding handle_target_data
  handle_target_data-Inv fd rs s v = elim (Option-cases (lookup fd s.sessions_by_target)) [
    | inl e ↦ rw (e, handle_target_data) (close_session-Inv fd s v)
    | inr (key, e) ↦ elim (Option-cases (lookup key s.sessions_by_client)) [
      | inl e' ↦ rw (e, handle_target_data) (rw (e', handle_target_data) (close_session-Inv fd s v))
      | inr (x, e') ↦
          rw (e, handle_target_data)
            (rw (e', handle_target_data) (forward_replies-Inv fd key x.client_addr rs s v))
    ]
  ]

  tick-Inv : (now : ℕ) (s : UdpProxy) → Inv inet s → Inv inet (tick now s)
  unfolding tick cleanup_expired_sessions
  tick-Inv now s v =
      if-Inv (leb (s.cleanup_interval_s * 1_000_000_000) (now - s.last_cleanup)) _ s
        (close_sessions-Inv _ s v) v

  pub Step-Inv : {s t : UdpProxy} → Step s t → Inv inet s → Inv inet t
  unfolding stop
  Step-Inv (client_data s ds f) v = handle_client_data-Inv ds s f v
  Step-Inv (target_data s fd rs) v = handle_target_data-Inv fd rs s v
  Step-Inv (ticks s now) v = tick-Inv now s v
  Step-Inv (stops s) v = v

  started-Inv : (timeout interval now : ℕ) → Inv inet (started timeout interval now)
  unfolding started lookup
  started-Inv timeout interval now = record {
    forth = λ k x h. cc;
    back = λ d k h. cc;
    distinct = tt;
  }

  -- In every state that a new proxy reaches, where new sockets have descriptors that no session
  -- has, the two tables are inverse to each other.
  pub Reach-Inv :
      (timeout interval now : ℕ) {s : UdpProxy}
      → Reach (started timeout interval now) s
      → Inv inet s
  Reach-Inv timeout interval now here = started-Inv timeout interval now
  Reach-Inv timeout interval now (next r step) = Step-Inv step (Reach-Inv timeout interval now r)
