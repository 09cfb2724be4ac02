-- ===== src/UdpProxy/Spec.antt =====
-- What the proxy promises: steps on a function from keys to sessions.
use tunnel_proxy.Base.Maps.{ℕ_key, Bytes_key, lookup}
use tunnel_proxy.Base.{
  ℕ, ◌-◌, Bool, List, [], ◌∷◌, Option, none, some, leb, ◌==◌, if◌then◌else◌, Bytes, equal,
}
use tunnel_proxy.Protocol.Inet.{Inet}
use tunnel_proxy.UdpProxy.{
  Address, Session, UdpProxy, Setup, ready, Datagram, Reply, failed, received, addr_to_key,
}

-- The sessions as a client sees them.
abbrev pub View : Type 0
View = Bytes → Option Session

abbrev pub view : UdpProxy → View
view s key = lookup key s.sessions_by_client

abbrev pub update : Bytes → Option Session → View → View
update key v f k = if equal key k then v else f k

abbrev pub used_at : ℕ → Option Session → Option Session
used_at now o = elim o [ none ↦ none | some x ↦ some (record x { last_activity = now }) ]

-- A session of its own for every client: it is made by the first datagram, if a socket is ready,
-- and used by each that is delivered.
abbrev pub spec_session : Setup → ℕ → Address → Option Session → Option Session
spec_session setup now a o = elim o [
  | some x ↦ some x
  | none ↦ elim setup [
    | ready fd ↦ some (record { target_fd = fd; client_addr = a; last_activity = now })
    | _ ↦ none
  ]
]

abbrev pub is_idle : ℕ → ℕ → Session → Bool
is_idle timeout now x = leb timeout (now - x.last_activity)

abbrev pub unless_idle : ℕ → ℕ → Option Session → Option Session
unless_idle timeout now o = elim o [
  | none ↦ none
  | some x ↦ if is_idle timeout now x then none else some x
]

abbrev pub expire : ℕ → ℕ → View → View
expire timeout now f k = unless_idle timeout now (f k)

-- The answers of the target to the client of one session.
abbrev pub spec_answers : List Reply → Option Session → Option Session
spec_answers [] o = o
spec_answers (failed ∷ rs) o = none
spec_answers (received [] delivered now ∷ rs) o = none
spec_answers (received (b ∷ bs) delivered now ∷ rs) o =
    spec_answers rs (if delivered then used_at now o else o)

-- They concern the session that has the descriptor, and no other.
abbrev pub spec_target_data : ℕ → List Reply → View → View
spec_target_data fd rs f k = elim (f k) [
  | none ↦ none
  | some x ↦ if x.target_fd == fd then spec_answers rs (some x) else some x
]

-- What happens to a proxy.
pub data Event : Type 0 where
  clients_send : List Datagram → Event
  target_answers : ℕ → List Reply → Event
  round_ends : ℕ → Event
  is_stopped : Event

module _ (inet : Inet) where
  abbrev pub spec_datagram : Datagram → View → View
  spec_datagram d f =
      let key = addr_to_key inet d.client_addr in
      let session = spec_session d.setup d.created_at d.client_addr (f key) in
      update key (if d.delivered then used_at d.sent_at session else session) f

  abbrev pub spec_client_data : List Datagram → View → View
  spec_client_data [] f = f
  spec_client_data (d ∷ ds) f = elim d.bytes [
    | [] ↦ f
    | b ∷ bs ↦ spec_client_data ds (spec_datagram d f)
  ]

  -- The sessions, and the time of the last clean-up, after an event. At the end of a round at `now`
  -- the sessions that were idle for `timeout` go, if the last clean-up is `interval` ago.
  abbrev pub spec_event : (timeout interval : ℕ) → Event → View × ℕ → View × ℕ
  spec_event timeout interval (clients_send ds) (f, last) = (spec_client_data ds f, last)
  spec_event timeout interval (target_answers fd rs) (f, last) = (spec_target_data fd rs f, last)
  spec_event timeout interval (round_ends now) (f, last) =
      if leb interval (now - last) then (expire timeout now f, now) else (f, last)
  spec_event timeout interval is_stopped (f, last) = (f, last)
