-- ===== src/UdpProxy/Refinement.antt =====
-- Every run of the proxy is a run of its specification.
use mathlib.Core.Path.{fun_ext}
use tunnel_proxy.Base.Maps.{ℕ_key, Bytes_key, lookup, lookup-erase, lookup_apart}
use tunnel_proxy.Base.{
  ℕ, ◌-◌, ◌*◌, ◌≡◌, refl, sym, ap, ap₂, ◌∙◌, inl, inr, Bool, Bool-cases, true, false, List, [], ◌∷◌,
  Option, Option-cases, none, some, leb, ==_iff, equal, equal_iff, if◌then◌else◌, Bytes, arith,
}
use tunnel_proxy.Protocol.Inet.{Inet}
use tunnel_proxy.UdpProxy.Tables.{Inv}
use tunnel_proxy.UdpProxy.Steps.{
  Step, client_data, target_data, ticks, stops, Reach, here, next, Reach-Inv,
}
use tunnel_proxy.UdpProxy.{
  Address, Session, UdpProxy, Datagram, Reply, failed, received, started, close_session, touch,
  handle_datagram, handle_client_data, forward_reply, forward_replies, handle_target_data,
  timeout_ns, tick, stop, act, to_client,
}
use tunnel_proxy.UdpProxy.Spec.{
  View, view, used_at, spec_answers, spec_target_data, spec_datagram, spec_client_data, Event,
  clients_send, target_answers, round_ends, is_stopped, spec_event,
}
use tunnel_proxy.UdpProxy.Views.{touch-view, datagram-view}
use tunnel_proxy.UdpProxy.Settings.{handle_client_data-Same, handle_target_data-Same, cleanup-Same}
use tunnel_proxy.UdpProxy.Cleanup.{cleanup-view}

module _ (inet : Inet) where
  client_data-view :
      (ds : List Datagram) (s : UdpProxy)
      → view (handle_client_data inet ds s) ≡ spec_client_data inet ds (view s)
  unfolding handle_client_data
  client_data-view [] s = refl
  client_data-view (d ∷ ds) s =
      let rest =
        client_data-view ds (handle_datagram inet d s)
        ∙ ap (spec_client_data inet ds) (fun_ext λ k. datagram-view inet d s k) in
      elim d.bytes
        as (λ bytes.
          view
            (elim bytes [ [] ↦ s | b ∷ bs ↦ handle_client_data inet ds (handle_datagram inet d s) ])
          ≡ elim bytes [
            | [] ↦ view s
            | b ∷ bs ↦ spec_client_data inet ds (spec_datagram inet d (view s))
          ]) [ [] ↦ refl | b ∷ bs ↦ rest ]

  -- What becomes of one session while its answers are forwarded.
  abbrev one : Bytes → Option Session → View → View
  one key o f k = if equal key k then o else f k

  close_known-view :
      (fd : ℕ) (key k : Bytes) (s : UdpProxy)
      → lookup fd s.sessions_by_target ≡ some key
      → view (close_session fd s) k ≡ one key none (view s) k
  unfolding close_session
  close_known-view fd key k s h = rw (h, close_session) (lookup-erase key k s.sessions_by_client)

  touch-targets :
      (key : Bytes) (now : ℕ) (s : UdpProxy)
      → (touch key now s).sessions_by_target ≡ s.sessions_by_target
  unfolding touch
  touch-targets key now s = ground arith

  forward_reply-view :
      (key k : Bytes) (a : Address) (bytes : Bytes) (delivered : Bool) (now : ℕ) (s : UdpProxy)
      → (view (forward_reply key a bytes delivered now s) k
          ≡ one key (if delivered then used_at now (view s key) else view s key) (view s) k)
        × ((forward_reply key a bytes delivered now s).sessions_by_target ≡ s.sessions_by_target)
  unfolding forward_reply
  forward_reply-view key k a bytes true now s = (
    touch-view inet key now (act (to_client a bytes) s) k,
    touch-targets key now (act (to_client a bytes) s),
  )
  forward_reply-view key k a bytes false now s = (ground (arith, equal_iff key k), refl)

  forward_replies-view :
      (fd : ℕ) (key k : Bytes) (a : Address) (rs : List Reply) (s : UdpProxy)
      → lookup fd s.sessions_by_target ≡ some key
      → view (forward_replies fd key a rs s) k ≡ one key (spec_answers rs (view s key)) (view s) k
  unfolding forward_replies
  forward_replies-view fd key k a [] s h = ground (arith, equal_iff key k)
  forward_replies-view fd key k a (failed ∷ rs) s h = close_known-view fd key k s h
  forward_replies-view fd key k a (received [] delivered now ∷ rs) s h =
      close_known-view fd key k s h
  forward_replies-view fd key k a (received (b ∷ bs) delivered now ∷ rs) s h =
      let u = forward_reply key a (b ∷ bs) delivered now s in
      let (sees, keeps) = forward_reply-view key k a (b ∷ bs) delivered now s in
      let (own, _) = forward_reply-view key key a (b ∷ bs) delivered now s in
      let its : view u key ≡ (if delivered then used_at now (view s key) else view s key) =
        ground (arith, own, equal_iff key key) in
      forward_replies-view fd key k a rs u (ap (lookup fd) keeps ∙ h)
      ∙ ap (λ o. one key (spec_answers rs o) (view u) k) its
      ∙ ground (arith, sees)

  -- No session has the descriptor.
  unowned :
      (fd : ℕ) (rs : List Reply) (k : Bytes) (s : UdpProxy)
      → Inv inet s
      → lookup fd s.sessions_by_target ≡ none
      → view (close_session fd s) k ≡ spec_target_data fd rs (view s) k
  unfolding close_session
  unowned fd rs k s v e =
      rw (e, close_session)
        (elim (Option-cases (view s k)) [
          | inl gone ↦ rw (gone, spec_target_data) refl
          | inr (x, found) ↦
              let other =
                lookup_apart fd x.target_fd k s.sessions_by_target e (v.forth k x found).0 in
              rw (found, spec_target_data)
                (ground (arith, other, ==_iff fd x.target_fd, ==_iff x.target_fd fd))
        ])

  -- One session has it.
  owned :
      (fd : ℕ) (key : Bytes) (rs : List Reply) (k : Bytes) (x : Session) (s : UdpProxy)
      → Inv inet s
      → lookup fd s.sessions_by_target ≡ some key
      → view s key ≡ some x
      → x.target_fd ≡ fd
      → one key (spec_answers rs (view s key)) (view s) k ≡ spec_target_data fd rs (view s) k
  owned fd key rs k x s v e held owns = elim (Bool-cases (equal key k)) [
    | inl hit ↦
        let same : view s k ≡ some x = ap (view s) (sym ((equal_iff key k).0 hit)) ∙ held in
        rw hit (rw held (rw (same, spec_target_data) (ground (arith, owns, ==_iff x.target_fd fd))))
    | inr miss ↦ rw miss (elim (Option-cases (view s k)) [
      | inl gone ↦ rw (gone, spec_target_data) refl
      | inr (y, found) ↦
          rw (found, spec_target_data)
            (ground (arith, e, (v.forth k y found).0, equal_iff key k, ==_iff y.target_fd fd))
    ])
  ]

  handle_target_data-view :
      (fd : ℕ) (rs : List Reply) (k : Bytes) (s : UdpProxy)
      → Inv inet s
      → view (handle_target_data fd rs s) k ≡ spec_target_data fd rs (view s) k
  unfolding handle_target_data
  handle_target_data-view fd rs k s v = elim (Option-cases (lookup fd s.sessions_by_target)) [
    | inl e ↦ rw (e, handle_target_data) (unowned fd rs k s v e)
    | inr (key, e) ↦
        let (x, held, owns) = v.back fd key e in
        rw (e, handle_target_data)
          (rw (held, handle_target_data)
            (forward_replies-view fd key k x.client_addr rs s e
              ∙ owned fd key rs k x s v e held owns))
  ]

  tick-view :
      (now : ℕ) (s : UdpProxy)
      → Inv inet s
      → (view (tick now s), (tick now s).last_cleanup)
        ≡ spec_event inet
            (timeout_ns s)
            (s.cleanup_interval_s * 1_000_000_000)
            (round_ends now)
            (view s, s.last_cleanup)
  unfolding tick
  tick-view now s v =
      elim (Bool-cases (leb (s.cleanup_interval_s * 1_000_000_000) (now - s.last_cleanup))) [
        | inl e ↦ rw (e, tick) (ap (λ f. (f, now)) (fun_ext λ k. cleanup-view inet now s k v))
        | inr e ↦ rw (e, tick) refl
      ]

  -- The event of a step.
  abbrev pub event_of : {s t : UdpProxy} → Step inet s t → Event
  event_of (client_data s ds f) = clients_send ds
  event_of (target_data s fd rs) = target_answers fd rs
  event_of (ticks s now) = round_ends now
  event_of (stops s) = is_stopped

  Step-spec :
      {s t : UdpProxy} (step : Step inet s t)
      → Inv inet s
      → (view t, t.last_cleanup)
        ≡ spec_event inet
            (timeout_ns s)
            (s.cleanup_interval_s * 1_000_000_000)
            (event_of step)
            (view s, s.last_cleanup)
  unfolding stop
  Step-spec (client_data s ds f) v =
      ap₂ (λ f l. (f, l)) (client_data-view ds s)
        (ap (λ x. x.2) (handle_client_data-Same inet ds s))
  Step-spec (target_data s fd rs) v =
      ap₂ (λ f l. (f, l)) (fun_ext λ k. handle_target_data-view fd rs k s v)
        (ap (λ x. x.2) (handle_target_data-Same fd rs s))
  Step-spec (ticks s now) v = tick-view now s v
  Step-spec (stops s) v = refl

  Step-settings :
      {s t : UdpProxy}
      → Step inet s t
      → (t.session_timeout_s ≡ s.session_timeout_s) × (t.cleanup_interval_s ≡ s.cleanup_interval_s)
  unfolding stop tick
  Step-settings (client_data s ds f) =
      let e = handle_client_data-Same inet ds s in (ap (λ x. x.0) e, ap (λ x. x.1) e)
  Step-settings (target_data s fd rs) =
      let e = handle_target_data-Same fd rs s in (ap (λ x. x.0) e, ap (λ x. x.1) e)
  Step-settings (ticks s now) =
      let e = cleanup-Same now s in ground (arith, ap (λ x. x.0) e, ap (λ x. x.1) e)
  Step-settings (stops s) = (refl, refl)

  Reach-settings :
      (timeout interval now : ℕ) {s : UdpProxy}
      → Reach inet (started timeout interval now) s
      → (s.session_timeout_s ≡ timeout) × (s.cleanup_interval_s ≡ interval)
  unfolding started
  Reach-settings timeout interval now here = (refl, refl)
  Reach-settings timeout interval now (next r step) =
      let (a, b) = Step-settings step in
      let (c, d) = Reach-settings timeout interval now r in (a ∙ c, b ∙ d)

  -- The sessions that the events of a run ask for, from a proxy that has none, and the time of the
  -- last clean-up.
  abbrev pub promised :
      (timeout interval now : ℕ) {s : UdpProxy}
      → Reach inet (started timeout interval now) s
      → View × ℕ
  promised timeout interval now here = ((λ key. none), now)
  promised timeout interval now (next r step) =
      spec_event inet (timeout * 1_000_000_000) (interval * 1_000_000_000) (event_of step)
        (promised timeout interval now r)

  -- Whatever the clients, the target, the clock and the kernel do, the sessions of a new proxy are
  -- at every time those that the events so far ask for. A client that has no session gets one by a
  -- datagram if a socket is ready; every datagram that is delivered, in either direction, sets the
  -- time of its session; the session goes when its own socket fails or answers nothing, and at
  -- the end of a round in which a clean-up is due if it was idle for the time-out; else it stays.
  -- New sockets have descriptors that no session has.
  pub Reach-promised :
      (timeout interval now : ℕ) {s : UdpProxy} (r : Reach inet (started timeout interval now) s)
      → (view s, s.last_cleanup) ≡ promised timeout interval now r
  Reach-promised timeout interval now here = unfold started lookup in refl
  Reach-promised timeout interval now (next {t} {u} r step) =
      let (a, b) = Reach-settings timeout interval now r in
      Step-spec step (Reach-Inv inet timeout interval now r)
      ∙ ap₂
          (λ m n.
            spec_event inet (m * 1_000_000_000) (n * 1_000_000_000) (event_of step)
              (view t, t.last_cleanup))
          a b
      ∙ ap (spec_event inet (timeout * 1_000_000_000) (interval * 1_000_000_000) (event_of step))
          (Reach-promised timeout interval now r)
