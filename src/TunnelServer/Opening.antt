-- ===== src/TunnelServer/Opening.antt =====
-- What `open_session` does on each of its paths.
use tunnel_proxy.Base.Maps.{ℕ_key, Bytes_key, lookup, insert, lookup-insert, lookup-erase}
use tunnel_proxy.Base.{
  ℕ, ◌^◌, ◌<◌, ◌≡◌, refl, ap, sym, subst, ◌∙◌, ◌≢◌, ◌⊎◌, inl, inr, Bool-cases, [], ◌∷◌, ◌++◌,
  Option, none, some, arith, Option-cases, if◌then◌else◌, ◌==◌, Bytes, Outcome, ok, throw, Effect,
  done, raised, left,
}
use tunnel_proxy.Protocol
use tunnel_proxy.Protocol.Inet.{Inet}
use tunnel_proxy.Protocol.Types.{TunnelFrame}
use tunnel_proxy.Protocol.{make_open, serialize}
use tunnel_proxy.Socket.Delivery.{send_all_sound}
use tunnel_proxy.Socket.Receive.{NoFailure}
use tunnel_proxy.Socket.{send_all}
use tunnel_proxy.TunnelServer.Frames.{
  SameTables, SameTables-refl, send_on-SameTables, send_to_agent-SameTables,
}
use tunnel_proxy.TunnelServer.Ids.{generate_session_id-IsId}
use tunnel_proxy.TunnelServer.Invariant.{
  Inv, SameTables-Inv, close_session-Inv, InvOf-session, InvOf-counter,
}
use tunnel_proxy.TunnelServer.Sending.{Error, send_failed, transmit, send_on, send_to_agent}
use tunnel_proxy.TunnelServer.State.{AgentConn, Session, TunnelServer, sent}
use tunnel_proxy.TunnelServer.{
  open_session, enter_session, send_open, finish_open, generate_session_id, close_session,
}

-- The session as `open_session` enters it.
abbrev opened : ℕ → Bytes → Session
opened sid id = record { session_id = sid; agent_id = id; external_fd = none }

abbrev pub with_session : Bytes → TunnelServer → TunnelServer
with_session id s = (enter_session id s).1

generate-tables :
    (s : TunnelServer)
    → ((generate_session_id s).1.agents ≡ s.agents)
      × ((generate_session_id s).1.sessions ≡ s.sessions)
unfolding generate_session_id
generate-tables s = (refl, refl)

-- A first part of the frame went out, the whole exactly where nothing was thrown.
send_on-Sent :
    (fd : ℕ) (frame : TunnelFrame) (s : TunnelServer)
    → (taken : Bytes) × (rest : Bytes) × ((left (send_on fd frame s)).actions
        ≡ s.actions ++ (sent fd taken ∷ []))
      × (taken ++ rest ≡ serialize frame)
      × (((rest ≡ []) × (send_on fd frame s ≡ done (left (send_on fd frame s))))
          ⊎ ((rest ≢ []) × (send_on fd frame s ≡ raised send_failed (left (send_on fd frame s)))))
      × (NoFailure s.replies → rest ≡ [])
unfolding send_on transmit
send_on-Sent fd frame s =
    let ((rest, whole, all, part), fine) = send_all_sound s.replies (serialize frame) in
    elim (Bool-cases (send_all s.replies (serialize frame)).2) [
      | inl e ↦ (
        (send_all s.replies (serialize frame)).1,
        rest,
        ground arith,
        whole,
        inl (all e, rw (e, send_on) refl),
        λ h. all e,
      )
      | inr e ↦ (
        (send_all s.replies (serialize frame)).1,
        rest,
        ground arith,
        whole,
        inr (part e, rw (e, send_on) refl),
        λ h. all (fine h),
      )
    ]

pub with_session-Inv : (id : Bytes) (s : TunnelServer) → Inv s → Inv (with_session id s)
unfolding generate_session_id
with_session-Inv id s v =
    let (pos, fits, counter) = generate_session_id-IsId s v.counter in
    InvOf-session _ (opened _ id) (refl, pos, fits) (InvOf-counter _ counter v)

module _ (inet : Inet) where
  send_open-SameTables :
      (id : Bytes) (o : Outcome Protocol.Error TunnelFrame) (s : TunnelServer)
      → SameTables s (left (send_open inet id o s))
  unfolding send_open
  send_open-SameTables id (throw e) s = ground arith
  send_open-SameTables id (ok frame) s = send_to_agent-SameTables id frame s

  -- Without the agent nothing happens; with it, a session is entered and OPEN is sent.
  open_session_cases {ℓ} :
      (P : ℕ × TunnelServer → Type ℓ) (id ip : Bytes) (port : ℕ) (s : TunnelServer)
      → (lookup id s.agents ≡ none → P (0, s))
      → ((conn : AgentConn)
          → lookup id s.agents ≡ some conn
          → P (
              finish_open inet (generate_session_id s).0 (
                send_open inet id
                  (make_open inet (generate_session_id s).0 ip port)
                  (with_session id s))))
      → P (open_session inet id ip port s)
  unfolding open_session
  open_session_cases P id ip port s absent present = elim (Option-cases (lookup id s.agents)) [
    | inl e ↦ rw (e, open_session) (absent e)
    | inr (conn, e) ↦ rw (e, open_session) (present conn e)
  ]

  finish_open-Inv :
      (sid : ℕ) (r : Effect Error TunnelServer) → Inv (left r) → Inv (finish_open inet sid r).1
  unfolding finish_open
  finish_open-Inv sid (done s) v = v
  finish_open-Inv sid (raised e s) v = close_session-Inv sid s v

  pub open_session-Inv :
      (id ip : Bytes) (port : ℕ) (s : TunnelServer) → Inv s → Inv (open_session inet id ip port s).1
  open_session-Inv id ip port s v =
      open_session_cases (λ r. Inv r.1) id ip port s (λ e. v)
        λ conn e.
          let sid = (generate_session_id s).0 in
          let o = make_open inet sid ip port in
          let s' = with_session id s in
          finish_open-Inv sid (send_open inet id o s')
            (SameTables-Inv s' _ (send_open-SameTables id o s') (with_session-Inv id s v))

  -- The session that was drawn stands in the table, or does not; the others stand as before.
  abbrev pub Holds : Bytes → TunnelServer → Option Session → TunnelServer → Type 0
  Holds id s o t =
      (k : ℕ)
      → lookup k t.sessions ≡ (if (generate_session_id s).0 == k then o else lookup k s.sessions)

  -- 0 and no session, or the identifier that was drawn, which is not 0, and its new session.
  abbrev pub Refused : Bytes → TunnelServer → ℕ × TunnelServer → Type 0
  Refused id s r = (r.0 ≡ 0) × Holds id s none r.1

  abbrev pub Opened : Bytes → TunnelServer → ℕ × TunnelServer → Type 0
  Opened id s r =
      let sid = (generate_session_id s).0 in
      (r.0 ≡ sid) × (0 < sid) × Holds id s (some (opened sid id)) r.1

  -- A first part of the frame went to the agent on `fd`: the whole, or not.
  abbrev pub SentOn : ℕ → TunnelFrame → Bytes → TunnelServer → ℕ × TunnelServer → Type 0
  SentOn fd frame id s r =
      (taken : Bytes) × (rest : Bytes) × (r.1.actions ≡ s.actions ++ (sent fd taken ∷ []))
      × (taken ++ rest ≡ serialize frame)
      × (((rest ≡ []) × Opened id s r) ⊎ ((rest ≢ []) × Refused id s r))
      × (NoFailure s.replies → rest ≡ [])

  -- The outcomes where the agent is registered, by the frame and the connection.
  abbrev pub Asked :
      Outcome Protocol.Error TunnelFrame
      → AgentConn
      → Bytes
      → TunnelServer
      → ℕ × TunnelServer
      → Type 0
  Asked o conn id s r =
      ((e : Protocol.Error) × (o ≡ throw e) × (r.1.actions ≡ s.actions) × Refused id s r)
      ⊎ ((frame : TunnelFrame) × (o ≡ ok frame)
          × (((conn.fd ≡ none) × (r.1.actions ≡ s.actions) × Opened id s r)
              ⊎ ((fd : ℕ) × (conn.fd ≡ some fd) × SentOn fd frame id s r)))

  -- The outcomes of `open_session`, by its result `r` for agent `id` in state `s`.
  abbrev pub Outcomes : Bytes → Bytes → ℕ → TunnelServer → ℕ × TunnelServer → Type 0
  Outcomes id ip port s r =
      ((lookup id s.agents ≡ none) × (r ≡ (0, s)))
      ⊎ ((conn : AgentConn) × (lookup id s.agents ≡ some conn)
          × Asked (make_open inet (generate_session_id s).0 ip port) conn id s r)

  done-Opened :
      (id : Bytes) (s t : TunnelServer)
      → s.next_session_id < 2 ^ 32
      → SameTables (with_session id s) t
      → Opened id s (finish_open inet (generate_session_id s).0 (done t))
  unfolding finish_open
  done-Opened id s t h same =
      let sid = (generate_session_id s).0 in
      (
        refl,
        (generate_session_id-IsId s h).0,
        λ k.
            ap (lookup k) (same.sessions ∙ ap (insert sid (opened sid id)) (generate-tables s).1)
            ∙ lookup-insert sid k (opened sid id) s.sessions,
      )

  raised-Refused :
      (id : Bytes) (e : Error) (s t : TunnelServer)
      → SameTables (with_session id s) t
      → Refused id s (finish_open inet (generate_session_id s).0 (raised e t))
  unfolding finish_open close_session
  raised-Refused id e s t same =
      let sid = (generate_session_id s).0 in
      let m = same.sessions ∙ ap (insert sid (opened sid id)) (generate-tables s).1 in
      (
        refl,
        λ k. ground (
          arith,
          lookup-erase sid k t.sessions,
          ap (lookup k) m,
          lookup-insert sid k (opened sid id) s.sessions,
        ),
      )

  with_session-actions :
      (id : Bytes) (s : TunnelServer)
      → ((with_session id s).actions ≡ s.actions) × ((with_session id s).replies ≡ s.replies)
  unfolding generate_session_id
  with_session-actions id s = (refl, refl)

  finish_open-actions :
      (sid : ℕ) (r : Effect Error TunnelServer)
      → (finish_open inet sid r).1.actions ≡ (left r).actions
  unfolding finish_open close_session
  finish_open-actions sid (done t) = refl
  finish_open-actions sid (raised e t) = refl

  finish_open-SentOn :
      (fd : ℕ) (frame : TunnelFrame) (id : Bytes) (s : TunnelServer)
      → s.next_session_id < 2 ^ 32
      → SentOn fd frame id s
          (finish_open inet (generate_session_id s).0 (send_on fd frame (with_session id s)))
  finish_open-SentOn fd frame id s h =
      let s' = with_session id s in
      let sid = (generate_session_id s).0 in
      let (same_actions, same_replies) = with_session-actions id s in
      let same = send_on-SameTables fd frame s' in
      let (taken, rest, acts, whole, ends, fine) = send_on-Sent fd frame s' in
      (
        taken,
        rest,
        finish_open-actions sid (send_on fd frame s')
            ∙ acts
            ∙ ap (λ a. a ++ (sent fd taken ∷ [])) same_actions,
        whole,
        elim ends [
          | inl (e, is_done) ↦ inl (
            e,
            subst (λ r. Opened id s (finish_open inet sid r)) (sym is_done)
                (done-Opened id s (left (send_on fd frame s')) h same),
          )
          | inr (e, is_raised) ↦ inr (
            e,
            subst (λ r. Refused id s (finish_open inet sid r)) (sym is_raised)
                (raised-Refused id send_failed s (left (send_on fd frame s')) same),
          )
        ],
        λ f. fine (rw same_replies f),
      )

  send_open-Asked :
      (id : Bytes) (o : Outcome Protocol.Error TunnelFrame) (conn : AgentConn) (s : TunnelServer)
      → s.next_session_id < 2 ^ 32
      → lookup id s.agents ≡ some conn
      → Asked o conn id s
          (finish_open inet (generate_session_id s).0 (send_open inet id o (with_session id s)))
  unfolding send_open send_to_agent
  send_open-Asked id (throw e) conn s h known = inl (
    e,
    refl,
    finish_open-actions _ _ ∙ (with_session-actions id s).0,
    raised-Refused id send_failed s _ (SameTables-refl _),
  )
  send_open-Asked id (ok frame) conn s h known =
      rw (ap (lookup id) (generate-tables s).0 ∙ known, send_open, send_to_agent)
        (inr (
          frame,
          refl,
          elim (Option-cases conn.fd) [
            | inl e ↦ rw e (
                inl (
                  refl,
                  finish_open-actions _ _ ∙ (with_session-actions id s).0,
                  done-Opened id s _ h (SameTables-refl _),
                ))
            | inr (fd, e) ↦ rw e (inr (fd, refl, finish_open-SentOn fd frame id s h))
          ],
        ))

  -- If the agent is not registered, `open_session` gives 0 and changes nothing. If it is, then:
  -- where OPEN cannot be made, nothing is sent, the result is 0, and the session of the identifier
  -- that was drawn is not in the table; where the agent's connection is open, a first part of OPEN
  -- is handed over on it, and the result is the same unless that part is the whole, which it is if
  -- no `send` fails; where OPEN was handed over whole, or the agent's connection is closed, the
  -- identifier that was drawn is returned, it is not 0, and its session belongs to the agent and
  -- has no client yet. The sessions of other identifiers stay as they are.
  pub open_session-Outcomes :
      (id ip : Bytes) (port : ℕ) (s : TunnelServer)
      → s.next_session_id < 2 ^ 32
      → Outcomes id ip port s (open_session inet id ip port s)
  open_session-Outcomes id ip port s h =
      open_session_cases (Outcomes id ip port s) id ip port s (λ e. inl (e, refl))
        λ conn e. inr (
          conn,
          e,
          send_open-Asked id (make_open inet (generate_session_id s).0 ip port) conn s h e,
        )
