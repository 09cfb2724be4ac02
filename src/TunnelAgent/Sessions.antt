-- ===== src/TunnelAgent/Sessions.antt =====
-- What OPEN and `stop` do to the sessions of the agent.
use tunnel_proxy.Base.Maps.{ℕ_key, lookup, insert, lookup-insert_self, lookup-erase_self}
use tunnel_proxy.Base.{
  ℕ, ◌≡◌, ◌≢◌, ◌⊎◌, inl, inr, Bool-cases, Option-cases, done, raised, left, refl, ap, sym, subst,
  append-nil, append_assoc, ◌∙◌, true, false, List, [], ◌∷◌, ◌++◌, Option, none, some, arith, Bytes,
  ok,
}
use tunnel_proxy.Protocol.Inet.{Inet}
use tunnel_proxy.Protocol.Types.{TunnelFrame}
use tunnel_proxy.Protocol.{serialize, make_open_ack, parse_open_payload}
use tunnel_proxy.Socket.Delivery.{send_all_sound}
use tunnel_proxy.Socket.Receive.{NoFailure}
use tunnel_proxy.Socket.{send_all}
use tunnel_proxy.TunnelAgent.Running.{stop, cleanup_connection, drop_sessions, close_fd}
use tunnel_proxy.TunnelAgent.State.{
  Session, TunnelAgent, Action, send_failed, sent, closed, shut_down, joined, detached, act,
}
use tunnel_proxy.TunnelAgent.{
  send_frame, send_on, close_session, connect_to, open_target, handle_open, enter, acknowledge,
  destroy, hang_up,
}

destroy-replies :
    (o : Option ℕ) (s : TunnelAgent) → (destroy (record { target_fd = o }) s).replies ≡ s.replies
unfolding destroy
destroy-replies o s = ground arith

abbrev target : ℕ → Session
target fd = record { target_fd = some fd }

three :
    (xs : List Action) (a b c : Action) (ys : List Action)
    → (((xs ++ (a ∷ [])) ++ (b ∷ [])) ++ (c ∷ [])) ++ ys ≡ xs ++ (a ∷ b ∷ c ∷ ys)
three xs a b c ys =
    append_assoc _ (c ∷ []) ys
    ∙ append_assoc _ (b ∷ []) (c ∷ ys)
    ∙ append_assoc xs (a ∷ []) (b ∷ c ∷ ys)

send_on-sessions :
    (server : ℕ) (frame : TunnelFrame) (s : TunnelAgent)
    → (left (send_on server frame s)).sessions ≡ s.sessions
unfolding send_on
send_on-sessions server frame s = ground arith

abbrev hung_up : ℕ → ℕ → List Action
hung_up sid fd = shut_down fd ∷ closed fd ∷ joined sid ∷ []

-- The session stands with its target after the actions `first`; or its target was hung up then.
abbrev Stays : ℕ → ℕ → List Action → TunnelAgent → Type 0
Stays sid fd first t = (lookup sid t.sessions ≡ some (target fd)) × (t.actions ≡ first)

abbrev Hangs : ℕ → ℕ → List Action → TunnelAgent → Type 0
Hangs sid fd first t = (lookup sid t.sessions ≡ none) × (t.actions ≡ first ++ hung_up sid fd)

-- Without a connection the target is hung up. With one, a first part of OPEN_ACK went out on it,
-- and the session stays exactly if that part is the whole.
abbrev pub Entered : ℕ → ℕ → TunnelAgent → TunnelAgent → Type 0
Entered sid fd s t =
    ((s.server_fd ≡ none) × Hangs sid fd s.actions t)
    ⊎ ((server : ℕ) × (s.server_fd ≡ some server)
        × (taken : Bytes) × (rest : Bytes) × (taken ++ rest ≡ serialize (make_open_ack sid))
        × (((rest ≡ []) × Stays sid fd (s.actions ++ (sent server taken ∷ [])) t)
            ⊎ ((rest ≢ []) × Hangs sid fd (s.actions ++ (sent server taken ∷ [])) t))
        × (NoFailure s.replies → rest ≡ []))

close_session-Hangs :
    (sid fd : ℕ) (s : TunnelAgent)
    → lookup sid s.sessions ≡ some (target fd)
    → Hangs sid fd s.actions (close_session sid s)
unfolding close_session hang_up
close_session-Hangs sid fd s here =
    rw (here, close_session)
      (
        lookup-erase_self sid s.sessions,
        sym (append-nil _) ∙ three s.actions (shut_down fd) (closed fd) (joined sid) [],
      )

-- What became of the frame on the connection `server`.
send_on-Sent :
    (server : ℕ) (frame : TunnelFrame) (s : TunnelAgent)
    → (taken : Bytes) × (rest : Bytes) × ((left (send_on server frame s)).actions
        ≡ s.actions ++ (sent server taken ∷ []))
      × (taken ++ rest ≡ serialize frame)
      × (((rest ≡ []) × (send_on server frame s ≡ done (left (send_on server frame s))))
          ⊎ ((rest ≢ [])
              × (send_on server frame s ≡ raised send_failed (left (send_on server frame s)))))
      × (NoFailure s.replies → rest ≡ [])
unfolding send_on
send_on-Sent server frame s =
    let ((rest, whole, all, part), fine) = send_all_sound s.replies (serialize frame) in
    elim (Bool-cases (send_all s.replies (serialize frame)).2) [
      | inl e ↦ (
        (send_all s.replies (serialize frame)).1,
        rest,
        ground arith,
        whole,
        inl (all e, rw (e, send_on) refl),
        λ h. all e,
      )
      | inr e ↦ (
        (send_all s.replies (serialize frame)).1,
        rest,
        ground arith,
        whole,
        inr (part e, rw (e, send_on) refl),
        λ h. all (fine h),
      )
    ]

acknowledge-Entered :
    (sid fd : ℕ) (s : TunnelAgent)
    → s.terminated ≡ false
    → lookup sid s.sessions ≡ some (target fd)
    → Entered sid fd s (acknowledge sid s)
unfolding acknowledge send_frame
acknowledge-Entered sid fd s live here = elim (Option-cases s.server_fd) [
  | inl e ↦
      rw (live, acknowledge) (rw (e, send_frame) (inl (refl, close_session-Hangs sid fd _ here)))
  | inr (server, e) ↦
      let frame = make_open_ack sid in
      let (taken, rest, acts, whole, ends, fine) = send_on-Sent server frame s in
      let still = send_on-sessions server frame s in
      rw (live, acknowledge)
        (rw (e, send_frame)
          (inr (
            server,
            refl,
            taken,
            rest,
            whole,
            elim ends [
              | inl (all, is_done) ↦ inl (all, rw is_done (ap (lookup sid) still ∙ here, acts))
              | inr (part, is_raised) ↦ inr (
                part,
                rw is_raised (
                    subst (λ a. Hangs sid fd a (close_session sid (left (send_on server frame s))))
                      acts
                      (close_session-Hangs sid fd (left (send_on server frame s))
                        (ap (lookup sid) still ∙ here))),
              )
            ],
            fine,
          )))
]

module _ (inet : Inet) where
  -- OPEN for a new number, while the process lives, once the target is connected: a first part of
  -- OPEN_ACK is sent to the server. If it is the whole, which it is if no `send` fails, the session
  -- has the new descriptor, and nothing else is done; if it is not, or there is no connection to
  -- the server, there is no session, and what is done next and last is to shut down and close that
  -- descriptor and to wait for its reader.
  pub open_fresh :
      (fd port : ℕ) (ip addr : Bytes) (frame : TunnelFrame) (s : TunnelAgent)
      → parse_open_payload inet frame.payload ≡ ok (ip, port)
      → inet.pton ip ≡ some addr
      → lookup frame.session_id s.sessions ≡ none
      → s.terminated ≡ false
      → Entered frame.session_id fd s (handle_open inet (some fd) true frame s)
  unfolding handle_open open_target connect_to enter
  open_fresh fd port ip addr frame s parsed known new live =
      let sid = frame.session_id in
      rw (parsed, handle_open)
        (rw (known, connect_to)
          (rw (new, enter)
            (acknowledge-Entered sid fd (record s { sessions = insert sid (target fd) s.sessions })
              live (lookup-insert_self sid (target fd) s.sessions))))

  -- OPEN for the number of a session that the agent still has, once the target is connected, ends
  -- the process; no frame is sent.
  pub open_existing :
      (fd port : ℕ) (ip addr : Bytes) (frame : TunnelFrame) (old : Session) (s : TunnelAgent)
      → parse_open_payload inet frame.payload ≡ ok (ip, port)
      → inet.pton ip ≡ some addr
      → lookup frame.session_id s.sessions ≡ some old
      → let t = handle_open inet (some fd) true frame s in
        (t.terminated ≡ true) × (t.replies ≡ s.replies)
  unfolding handle_open open_target connect_to enter acknowledge destroy
  open_existing fd port ip addr frame old s parsed known there =
      rw (parsed, handle_open)
        (rw (known, connect_to) (rw (there, enter) (refl, destroy-replies old.target_fd s)))

-- The sessions hang up in their order.
abbrev pub hang_ups : List (ℕ × Session) → List Action
hang_ups [] = []
hang_ups ((sid, session) ∷ m) = elim session.target_fd [
  | none ↦ detached sid ∷ hang_ups m
  | some fd ↦ shut_down fd ∷ closed fd ∷ detached sid ∷ hang_ups m
]

abbrev pub on_server : Option ℕ → (ℕ → Action) → List Action
on_server none f = []
on_server (some fd) f = f fd ∷ []

abbrev extend : TunnelAgent → List Action → TunnelAgent
extend s list = record s { actions = list }

drop_one :
    (sid : ℕ) (o : Option ℕ) (m : List (ℕ × Session)) (s : TunnelAgent)
    → ((t : TunnelAgent) → drop_sessions m t ≡ extend t (t.actions ++ hang_ups m))
    → drop_sessions ((sid, record { target_fd = o }) ∷ m) s
      ≡ extend s (s.actions ++ hang_ups ((sid, record { target_fd = o }) ∷ m))
unfolding drop_sessions hang_up
drop_one sid none m s rest =
    rest _ ∙ ap (extend s) (append_assoc s.actions (detached sid ∷ []) (hang_ups m))
drop_one sid (some fd) m s rest =
    rest _ ∙ ap (extend s) (three s.actions (shut_down fd) (closed fd) (detached sid) (hang_ups m))

drop_sessions-actions :
    (m : List (ℕ × Session)) (s : TunnelAgent)
    → drop_sessions m s ≡ extend s (s.actions ++ hang_ups m)
unfolding drop_sessions
drop_sessions-actions [] s = ap (extend s) (sym (append-nil s.actions))
drop_sessions-actions ((sid, session) ∷ m) s =
    drop_one sid session.target_fd m s (drop_sessions-actions m)

-- A connection and its sessions are gone, and the list was done.
abbrev cleaned : List Action → TunnelAgent → TunnelAgent
cleaned list s = record s {
  sessions = [];
  heartbeat_thread = false;
  server_fd = none;
  actions = list;
}

close_fd-cleaned :
    (o : Option ℕ) (s : TunnelAgent)
    → record (close_fd o s) { heartbeat_thread = false; server_fd = none } ≡ record s {
      heartbeat_thread = false;
      server_fd = none;
      actions = s.actions ++ on_server o closed;
    }
close_fd-cleaned none s =
    ap (λ a. record s { heartbeat_thread = false; server_fd = none; actions = a })
      (sym (append-nil s.actions))
close_fd-cleaned (some fd) s = refl

cleanup_connection-cleaned :
    (s : TunnelAgent)
    → cleanup_connection s
      ≡ cleaned ((s.actions ++ hang_ups s.sessions) ++ on_server s.server_fd closed) s
unfolding cleanup_connection
cleanup_connection-cleaned s =
    ap (λ t. record (close_fd t.server_fd t) { heartbeat_thread = false; server_fd = none })
      (drop_sessions-actions s.sessions (record s { sessions = [] }))
    ∙ close_fd-cleaned s.server_fd _

shut_server : Option ℕ → TunnelAgent → TunnelAgent
shut_server o t = elim o [ none ↦ t | some fd ↦ act (shut_down fd) t ]

shut_server-cleaned :
    (o : Option ℕ) (s : TunnelAgent)
    → shut_server o s ≡ extend s (s.actions ++ on_server o shut_down)
unfolding shut_server
shut_server-cleaned none s = ap (extend s) (sym (append-nil s.actions))
shut_server-cleaned (some fd) s = refl

stopped : TunnelAgent → TunnelAgent
stopped s =
    cleaned
      (((s.actions ++ on_server s.server_fd shut_down) ++ hang_ups s.sessions)
        ++ on_server s.server_fd closed)
      (record s { running = false })

stop-stopped : (s : TunnelAgent) → s.running ≡ true → stop s ≡ stopped s
unfolding stop shut_server stopped
stop-stopped s h =
    rw (h, stop)
      (ap cleanup_connection (shut_server-cleaned s.server_fd (record s { running = false }))
        ∙ cleanup_connection-cleaned _)

stop_again : (s : TunnelAgent) → s.running ≡ false → stop s ≡ s
unfolding stop
stop_again s h = rw (h, stop) refl

-- Stopping an agent that runs leaves it without sessions, without a heartbeat thread and without
-- a connection. The connection is shut down first; then every target is shut down and closed, in
-- the order of the sessions; the connection is closed last. A second call changes nothing.
pub stop_cleans :
    (s : TunnelAgent)
    → s.running ≡ true
    → ((stop s).running ≡ false)
      × ((stop s).sessions ≡ [])
      × ((stop s).server_fd ≡ none)
      × ((stop s).heartbeat_thread ≡ false)
      × ((stop s).actions
          ≡ ((s.actions ++ on_server s.server_fd shut_down) ++ hang_ups s.sessions)
            ++ on_server s.server_fd closed)
      × (stop (stop s) ≡ stop s)
unfolding stopped
stop_cleans s h =
    let e = stop-stopped s h in
    (
      ap (λ t. t.running) e,
      ap (λ t. t.sessions) e,
      ap (λ t. t.server_fd) e,
      ap (λ t. t.heartbeat_thread) e,
      ap (λ t. t.actions) e,
      stop_again (stop s) (ap (λ t. t.running) e),
    )
