-- ===== src/TunnelServer/Forwarding.antt =====
-- DATA to the external client, and the descriptors of the client threads.
use tunnel_proxy.Base.Maps.{ℕ_key, Bytes_key, lookup, lookup-insert_self, lookup-erase_self}
use tunnel_proxy.Base.{
  ℕ, ◌+◌, ◌%◌, ◌^◌, ◌≡◌, ◌≢◌, refl, ◌⊎◌, inl, inr, Bool, true, false, Bool-cases, [], ◌∷◌, ◌++◌,
  none, some, arith, Option-cases, length, Bytes,
}
use tunnel_proxy.Protocol.Types.{TunnelFrame, data_msg}
use tunnel_proxy.Socket.Receive.{NoFailure}
use tunnel_proxy.Socket.Delivery.{send_all_sound}
use tunnel_proxy.Socket.{send_all}
use tunnel_proxy.TunnelMetrics
use tunnel_proxy.TunnelServer.Clients.{Wait, timed_out, ready, external_waited, attach, give_up}
use tunnel_proxy.TunnelServer.Sending.{transmit}
use tunnel_proxy.TunnelServer.State.{
  Session, TunnelServer, acknowledged, server_stopped, sent, closed,
}
use tunnel_proxy.TunnelServer.{
  handle_agent_frame, handle_type, deliver, forward, close_session, set_session_external_fd,
}

-- What became of a payload: it went out whole, is counted, and the session goes on; or a part is
-- missing, the error is counted, and the session is closed.
abbrev pub Delivered : ℕ → Bytes → Bytes → TunnelServer → TunnelServer → Type 0
Delivered sid payload rest s t =
    ((rest ≡ [])
      × (t.sessions ≡ s.sessions)
      × (t.metrics.bytes_received ≡ (s.metrics.bytes_received + length payload) % 2 ^ 64)
      × (t.metrics.errors ≡ s.metrics.errors))
    ⊎ ((rest ≢ [])
        × (lookup sid t.sessions ≡ none)
        × (t.metrics.bytes_received ≡ s.metrics.bytes_received)
        × (t.metrics.errors ≡ (s.metrics.errors + 1) % 2 ^ 64))

forward-Delivered :
    (sid fd : ℕ) (payload : Bytes) (s : TunnelServer)
    → (taken : Bytes) × (rest : Bytes) × ((forward sid fd payload s).actions
        ≡ s.actions ++ (sent fd taken ∷ []))
      × (taken ++ rest ≡ payload)
      × Delivered sid payload rest s (forward sid fd payload s)
      × (NoFailure s.replies → rest ≡ [])
unfolding forward transmit close_session TunnelMetrics.record_bytes_received
    TunnelMetrics.record_error
forward-Delivered sid fd payload s =
    let ((rest, whole, all, part), fine) = send_all_sound s.replies payload in
    elim (Bool-cases (send_all s.replies payload).2) [
      | inl e ↦ (
        (send_all s.replies payload).1,
        rest,
        rw (e, forward) refl,
        whole,
        inl (all e, rw (e, forward) refl, rw (e, forward) refl, rw (e, forward) refl),
        λ h. all e,
      )
      | inr e ↦ (
        (send_all s.replies payload).1,
        rest,
        rw (e, forward) refl,
        whole,
        inr (
          part e,
          rw (e, forward) (lookup-erase_self sid s.sessions),
          rw (e, forward) refl,
          rw (e, forward) refl,
        ),
        λ h. all (fine h),
      )
    ]

-- A DATA frame for a session with an external client hands the kernel a first part of its payload
-- for that client and does nothing else to descriptors. If the part is the whole, the bytes are
-- counted and the session goes on; if not, an error is counted and the session is closed. It is
-- the whole if no `send` fails.
pub data_forwarded :
    (id : Bytes) (frame : TunnelFrame) (now fd : ℕ) (session : Session) (s : TunnelServer)
    → frame.type ≡ data_msg
    → lookup frame.session_id s.sessions ≡ some session
    → session.external_fd ≡ some fd
    → let t = handle_agent_frame id frame now s in
      (taken : Bytes) × (rest : Bytes) × (t.actions ≡ s.actions ++ (sent fd taken ∷ []))
      × (taken ++ rest ≡ frame.payload)
      × Delivered frame.session_id frame.payload rest s t
      × (NoFailure s.replies → rest ≡ [])
unfolding handle_agent_frame
data_forwarded id frame now fd session s e known open_fd =
    rw (e, handle_type)
      (rw (known, deliver)
        (rw (open_fd, deliver) (forward-Delivered frame.session_id fd frame.payload s)))

attach_outcomes :
    (sid fd : ℕ) (s : TunnelServer)
    → ((session : Session) × (lookup sid s.sessions ≡ some session)
        × ((attach sid fd [] s).0 ≡ true)
        × (lookup sid (attach sid fd [] s).1.sessions
            ≡ some (record session { external_fd = some fd }))
        × ((attach sid fd [] s).1.actions ≡ s.actions))
      ⊎ ((lookup sid s.sessions ≡ none)
          × ((attach sid fd [] s).0 ≡ false)
          × ((attach sid fd [] s).1.sessions ≡ s.sessions)
          × ((attach sid fd [] s).1.actions ≡ s.actions ++ (closed fd ∷ [])))
unfolding attach set_session_external_fd
attach_outcomes sid fd s = elim (Option-cases (lookup sid s.sessions)) [
  | inl e ↦ inr (e, ground arith, ground arith, ground arith)
  | inr (session, e) ↦ inl (
    session,
    e,
    ground arith,
    ground (arith, lookup-insert_self sid (record session { external_fd = some fd }) s.sessions),
    ground arith,
  )
]

-- What the wait `w` of the client on `fd` for session `sid` leaves, as `r`.
abbrev pub Waited : ℕ → ℕ → Wait → TunnelServer → Bool × TunnelServer → Type 0
Waited sid fd w s r =
    ((w ≡ ready acknowledged)
      × (session : Session) × (lookup sid s.sessions ≡ some session)
      × (r.0 ≡ true)
      × (lookup sid r.1.sessions ≡ some (record session { external_fd = some fd }))
      × (r.1.actions ≡ s.actions))
    ⊎ ((w ≡ ready acknowledged → lookup sid s.sessions ≡ none)
        × (r.0 ≡ false)
        × (r.1.actions ≡ s.actions ++ (closed fd ∷ []))
        × (w ≡ timed_out → (lookup sid r.1.sessions ≡ none) × (lookup sid r.1.pending_open ≡ none)))

-- If OPEN_ACK came and the session is still there, the thread of an external client starts to
-- forward after its wait; the client's descriptor is then the session's, and nothing is closed. In
-- every other case it does not start, the descriptor is closed, and after a timeout the session
-- and the promise are gone too.
pub external_waited_outcomes :
    (sid fd : ℕ) (w : Wait) (s : TunnelServer) → Waited sid fd w s (external_waited sid fd w s)
unfolding external_waited
external_waited_outcomes sid fd timed_out s = inr (
  λ e. cc,
  unfold give_up in refl,
  unfold give_up close_session in refl,
  λ e.
      unfold give_up close_session in
      (lookup-erase_self sid s.sessions, lookup-erase_self sid s.pending_open),
)
external_waited_outcomes sid fd (ready server_stopped) s = inr (λ e. cc, refl, refl, λ e. cc)
external_waited_outcomes sid fd (ready acknowledged) s = elim (attach_outcomes sid fd s) [
  | inl (session, e, found, now_his, same) ↦ inl (refl, session, e, found, now_his, same)
  | inr (e, missing, same, closes_it) ↦ inr (λ e'. e, missing, closes_it, λ e'. cc)
]
