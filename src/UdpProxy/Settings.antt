-- ===== src/UdpProxy/Settings.antt =====
-- Datagrams and answers change neither the settings nor the time of the last clean-up, and a
-- clean-up does not change the settings.
use tunnel_proxy.Base.Maps.{ℕ_key, Bytes_key, lookup}
use tunnel_proxy.Base.{
  ℕ, ◌≡◌, refl, ◌∙◌, inl, inr, Bool, true, false, List, [], ◌∷◌, Option, Option-cases, none, some,
  Bytes, arith,
}
use tunnel_proxy.Protocol.Inet.{Inet}
use tunnel_proxy.UdpProxy.{
  Address, Session, UdpProxy, Setup, Datagram, Reply, failed, received, close_session,
  close_sessions, touch, enter, create_session, get_or_create_session, forward_datagram,
  handle_datagram, handle_client_data, forward_reply, forward_replies, handle_target_data,
  cleanup_expired_sessions,
}

-- The settings, and the time of the last clean-up.
abbrev pub timers : UdpProxy → ℕ × ℕ × ℕ
timers s = (s.session_timeout_s, s.cleanup_interval_s, s.last_cleanup)

abbrev pub Same : UdpProxy → UdpProxy → Type 0
Same s t = timers t ≡ timers s

touch-Same : (key : Bytes) (now : ℕ) (s : UdpProxy) → Same s (touch key now s)
unfolding touch
touch-Same key now s = ground arith

close_session-Same : (fd : ℕ) (s : UdpProxy) → Same s (close_session fd s)
unfolding close_session
close_session-Same fd s = ground arith

close_sessions-Same : (fds : List ℕ) (s : UdpProxy) → Same s (close_sessions fds s)
unfolding close_sessions
close_sessions-Same [] s = refl
close_sessions-Same (fd ∷ fds) s = close_sessions-Same fds _ ∙ close_session-Same fd s

forward_reply-Same :
    (key : Bytes) (a : Address) (bytes : Bytes) (delivered : Bool) (now : ℕ) (s : UdpProxy)
    → Same s (forward_reply key a bytes delivered now s)
unfolding forward_reply
forward_reply-Same key a bytes true now s = touch-Same key now _
forward_reply-Same key a bytes false now s = refl

forward_replies-Same :
    (fd : ℕ) (key : Bytes) (a : Address) (rs : List Reply) (s : UdpProxy)
    → Same s (forward_replies fd key a rs s)
unfolding forward_replies
forward_replies-Same fd key a [] s = refl
forward_replies-Same fd key a (failed ∷ rs) s = close_session-Same fd s
forward_replies-Same fd key a (received [] delivered now ∷ rs) s = close_session-Same fd s
forward_replies-Same fd key a (received (b ∷ bs) delivered now ∷ rs) s =
    forward_replies-Same fd key a rs _ ∙ forward_reply-Same key a (b ∷ bs) delivered now s

pub handle_target_data-Same :
    (fd : ℕ) (rs : List Reply) (s : UdpProxy) → Same s (handle_target_data fd rs s)
unfolding handle_target_data
handle_target_data-Same fd rs s = elim (Option-cases (lookup fd s.sessions_by_target)) [
  | inl e ↦ rw (e, handle_target_data) (close_session-Same fd s)
  | inr (key, e) ↦ elim (Option-cases (lookup key s.sessions_by_client)) [
    | inl e' ↦ rw (e, handle_target_data) (rw (e', handle_target_data) (close_session-Same fd s))
    | inr (x, e') ↦
        rw (e, handle_target_data)
          (rw (e', handle_target_data) (forward_replies-Same fd key x.client_addr rs s))
  ]
]

module _ (inet : Inet) where
  create_session-Same :
      (setup : Setup) (now : ℕ) (a : Address) (s : UdpProxy)
      → Same s (create_session inet setup now a s).1
  unfolding create_session enter
  create_session-Same setup now a s = ground arith

  get_or_create_session-Same :
      (setup : Setup) (now : ℕ) (a : Address) (s : UdpProxy)
      → Same s (get_or_create_session inet setup now a s).1
  unfolding get_or_create_session
  get_or_create_session-Same setup now a s = ground (arith, create_session-Same setup now a s)

  forward_datagram-Same :
      (d : Datagram) (r : Option Session × UdpProxy) → Same r.1 (forward_datagram inet d r)
  unfolding forward_datagram touch
  forward_datagram-Same d (none, s) = refl
  forward_datagram-Same d (some x, s) = ground arith

  handle_datagram-Same : (d : Datagram) (s : UdpProxy) → Same s (handle_datagram inet d s)
  unfolding handle_datagram
  handle_datagram-Same d s =
      forward_datagram-Same d (get_or_create_session inet d.setup d.created_at d.client_addr s)
      ∙ get_or_create_session-Same d.setup d.created_at d.client_addr s

  pub handle_client_data-Same :
      (ds : List Datagram) (s : UdpProxy) → Same s (handle_client_data inet ds s)
  unfolding handle_client_data
  handle_client_data-Same [] s = refl
  handle_client_data-Same (d ∷ ds) s =
      let rest = handle_client_data-Same ds (handle_datagram inet d s) ∙ handle_datagram-Same d s in
      ground (arith, rest)

pub cleanup-Same : (now : ℕ) (s : UdpProxy) → Same s (cleanup_expired_sessions now s)
unfolding cleanup_expired_sessions
cleanup-Same now s = close_sessions-Same _ s
