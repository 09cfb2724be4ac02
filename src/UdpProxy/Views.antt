-- ===== src/UdpProxy/Views.antt =====
-- What each operation does to the sessions as clients see them.
use tunnel_proxy.Base.Maps.{ℕ_key, Bytes_key, lookup, lookup-insert, lookup-erase}
use tunnel_proxy.Base.{
  ℕ, ◌≡◌, refl, sym, ◌∙◌, inl, inr, true, Option, Option-cases, none, some, ◌==◌, ==_iff,
  if◌then◌else◌, Bytes, equal, equal_iff, arith,
}
use tunnel_proxy.Protocol.Inet.{Inet}
use tunnel_proxy.UdpProxy.Tables.{Inv}
use tunnel_proxy.UdpProxy.{
  Address, Session, UdpProxy, Setup, no_socket, not_connected, not_nonblocking, not_registered,
  ready, Datagram, addr_to_key, close_session, touch, enter, create_session, get_or_create_session,
  forward_datagram, handle_datagram, act, to_target,
}
use tunnel_proxy.UdpProxy.Spec.{view, update, used_at, spec_session, spec_datagram}

module _ (inet : Inet) where
  pub touch-view :
      (key : Bytes) (now : ℕ) (s : UdpProxy) (k : Bytes)
      → view (touch key now s) k ≡ update key (used_at now (view s key)) (view s) k
  unfolding touch
  touch-view key now s k = elim (Option-cases (lookup key s.sessions_by_client)) [
    | inl e ↦ rw (e, touch) (ground (arith, equal_iff key k))
    | inr (x, e) ↦
        rw (e, touch) (lookup-insert key k (record x { last_activity = now }) s.sessions_by_client)
  ]

  create-view :
      (setup : Setup) (now : ℕ) (a : Address) (s : UdpProxy) (k : Bytes)
      → view s (addr_to_key inet a) ≡ none
      → let r = create_session inet setup now a s in
        (r.0 ≡ spec_session setup now a none)
        × (view r.1 k ≡ update (addr_to_key inet a) (spec_session setup now a none) (view s) k)
  unfolding create_session enter
  create-view no_socket now a s k e = (refl, ground (arith, equal_iff (addr_to_key inet a) k))
  create-view (not_connected fd) now a s k e =
      (refl, ground (arith, equal_iff (addr_to_key inet a) k))
  create-view (not_nonblocking fd) now a s k e =
      (refl, ground (arith, equal_iff (addr_to_key inet a) k))
  create-view (not_registered fd) now a s k e =
      (refl, ground (arith, equal_iff (addr_to_key inet a) k))
  create-view (ready fd) now a s k e = (
    refl,
    lookup-insert (addr_to_key inet a) k
        (record { target_fd = fd; client_addr = a; last_activity = now }) s.sessions_by_client,
  )

  get_or_create-view :
      (setup : Setup) (now : ℕ) (a : Address) (s : UdpProxy) (k : Bytes)
      → let r = get_or_create_session inet setup now a s in
        let key = addr_to_key inet a in
        (r.0 ≡ spec_session setup now a (view s key))
        × (view r.1 k ≡ update key (spec_session setup now a (view s key)) (view s) k)
  unfolding get_or_create_session
  get_or_create-view setup now a s k =
      let key = addr_to_key inet a in
      elim (Option-cases (view s key)) [
        | inl e ↦ rw (e, get_or_create_session) (create-view setup now a s k e)
        | inr (x, e) ↦ rw (e, get_or_create_session) (refl, ground (arith, e, equal_iff key k))
      ]

  forward-view :
      (d : Datagram) (r : Option Session × UdpProxy) (k : Bytes)
      → let key = addr_to_key inet d.client_addr in
        r.0 ≡ view r.1 key
        → view (forward_datagram inet d r) k ≡ (
            if d.delivered
            then update key (used_at d.sent_at (view r.1 key)) (view r.1) k
            else view r.1 k)
  unfolding forward_datagram
  forward-view d (none, s) k e = ground (arith, equal_iff (addr_to_key inet d.client_addr) k)
  forward-view d (some x, s) k e = ground (
    arith,
    touch-view (addr_to_key inet d.client_addr) d.sent_at (act (to_target x.target_fd d.bytes) s) k,
  )

  pub datagram-view :
      (d : Datagram) (s : UdpProxy) (k : Bytes)
      → view (handle_datagram inet d s) k ≡ spec_datagram inet d (view s) k
  unfolding handle_datagram
  datagram-view d s k =
      let key = addr_to_key inet d.client_addr in
      let r = get_or_create_session inet d.setup d.created_at d.client_addr s in
      let (got, at_k) = get_or_create-view d.setup d.created_at d.client_addr s k in
      let at_key = (get_or_create-view d.setup d.created_at d.client_addr s key).1 in
      let same : equal key key ≡ true = (equal_iff key key).1 refl in
      let held : view r.1 key ≡ spec_session d.setup d.created_at d.client_addr (view s key) =
        at_key ∙ rw same refl in
      forward-view d r k (got ∙ sym held) ∙ ground (arith, held, at_k)

  pub close_session-view :
      (fd : ℕ) (s : UdpProxy) (k : Bytes)
      → Inv inet s
      → view (close_session fd s) k
        ≡ elim (view s k) [ none ↦ none | some x ↦ if fd == x.target_fd then none else some x ]
  unfolding close_session
  close_session-view fd s k v = elim (Option-cases (lookup fd s.sessions_by_target)) [
    | inl e ↦ elim (Option-cases (view s k)) [
      | inl gone ↦ rw (e, close_session) (rw gone refl)
      | inr (x, held) ↦
          let (its, named) = v.forth k x held in
          rw (e, close_session) (ground (arith, held, its, ==_iff fd x.target_fd))
    ]
    | inr (key, e) ↦ elim (Option-cases (view s k)) [
      | inl gone ↦
          rw (e, close_session) (ground (arith, gone, lookup-erase key k s.sessions_by_client))
      | inr (x, held) ↦
          let (its, named) = v.forth k x held in
          let (y, his, owns) = v.back fd key e in
          rw (e, close_session)
            (ground (
              arith,
              held,
              its,
              his,
              owns,
              lookup-erase key k s.sessions_by_client,
              equal_iff key k,
              ==_iff fd x.target_fd,
            ))
    ]
  ]
