-- ===== src/TlsProxy/Steps.antt =====
-- The rounds of `run` in src/tls_proxy.cpp, and what they keep.
use tunnel_proxy.Base.Maps.{ℕ_key, lookup}
use tunnel_proxy.Base.{
  ℕ, ◌≡◌, ◌≢◌, ◌⊎◌, refl, sym, ap, subst, ◌∙◌, inl, inr, List, [], ◌∷◌, none, some, Option-cases,
  arith, Effect, done, raised, then_do,
}
use tunnel_proxy.TlsProxy.Handshake.{
  Accepted, client_blocks, no_ssl, not_registered, accepted, accept_one, accept_connection,
  Handshake, connected, target_not_registered, no_target, wants_read, wants_write, refused,
  continue_handshake, dispatch, started, Error, establish,
}
use tunnel_proxy.TlsProxy.Tables.{Inv, InvOf, held}
use tunnel_proxy.TlsProxy.{TlsProxy, stop, Event, handle_event}
use tunnel_proxy.TlsProxy.Keeping.{close_pending-Inv, handle_event-Inv}
use tunnel_proxy.TlsProxy.Entering.{InvOf-pend, InvOf-establish}

-- A new descriptor is nowhere, and a new SSL object is not held.
abbrev Absent : ℕ → TlsProxy → Type 0
Absent fd s = (lookup fd s.pending_ssl ≡ none) × (lookup fd s.connections ≡ none)

abbrev FreshOne : Accepted → TlsProxy → Type 0
FreshOne (accepted fd ssl) s =
    Absent fd s × ((g : ℕ) → held s.pending_ssl s.connections g ≢ some ssl)
FreshOne _ s = Unit {0}

abbrev pub Fresh : List Accepted → TlsProxy → Type 0
Fresh [] s = Unit {0}
Fresh (a ∷ others) s = FreshOne a s × ((t : TlsProxy) → accept_one a s ≡ done t → Fresh others t)

abbrev pub FreshTarget : Handshake → TlsProxy → Type 0
FreshTarget (connected target_fd) s = Absent target_fd s
FreshTarget _ s = Unit {0}

-- One event of the loop, if nothing is thrown.
pub data Step : TlsProxy → TlsProxy → Type 0 where
  accepts :
      (s t : TlsProxy) (queue : List Accepted)
      → Fresh queue s
      → accept_connection queue s ≡ done t
      → Step s t
  event :
      (s t : TlsProxy) (h : Handshake) (e : Event) (fd : ℕ)
      → FreshTarget h s
      → dispatch h e fd s ≡ done t
      → Step s t
  stops : (s : TlsProxy) → Step s (stop s)

pub data Runs (s : TlsProxy) : TlsProxy → Type 0 where
  here : Runs s s
  next : {t u : TlsProxy} → Runs s t → Step t u → Runs s u

done-inj : {s t : TlsProxy} {r : Effect Error TlsProxy} → r ≡ done s → r ≡ done t → s ≡ t
done-inj g h = ground arith

Effect-cases :
    (r : Effect Error TlsProxy)
    → ((s : TlsProxy) × (r ≡ done s)) ⊎ ((e : Error) × (s : TlsProxy) × (r ≡ raised e s))
Effect-cases (done s) = inl (s, refl)
Effect-cases (raised e s) = inr (e, s, refl)

accept_one-Inv :
    (a : Accepted) (s t : TlsProxy) → FreshOne a s → accept_one a s ≡ done t → Inv s → Inv t
unfolding accept_one
accept_one-Inv (client_blocks fd) s t f h v = absurd (ground arith)
accept_one-Inv (no_ssl fd) s t f h v = subst Inv (done-inj refl h) v
accept_one-Inv (not_registered fd ssl) s t f h v = absurd (ground arith)
accept_one-Inv (accepted fd ssl) s t ((hp, hm), fresh) h v =
    subst Inv (done-inj refl h) (InvOf-pend s.pending_ssl s.connections v fd ssl hp hm fresh)

accept_connection-Inv :
    (queue : List Accepted) (s t : TlsProxy)
    → Fresh queue s
    → accept_connection queue s ≡ done t
    → Inv s
    → Inv t
unfolding accept_connection
accept_connection-Inv [] s t f h v = subst Inv (done-inj refl h) v
accept_connection-Inv (a ∷ others) s t f h v = elim (Effect-cases (accept_one a s)) [
  | inl (u, e) ↦
      accept_connection-Inv others u t (f.1 u e)
        (sym (ap (λ r. then_do r (accept_connection others)) e) ∙ h) (accept_one-Inv a s u f.0 e v)
  | inr (x, u, e) ↦ absurd (ground arith)
]

continue_handshake-Inv :
    (k : Handshake) (fd ssl : ℕ) (s t : TlsProxy)
    → FreshTarget k s
    → lookup fd s.pending_ssl ≡ some ssl
    → continue_handshake k fd ssl s ≡ done t
    → Inv s
    → Inv t
unfolding continue_handshake establish
continue_handshake-Inv (connected target_fd) fd ssl s t (tp, tm) l h v =
    subst Inv (done-inj refl h)
      (InvOf-establish s.pending_ssl s.connections v fd ssl target_fd l tp tm)
continue_handshake-Inv (target_not_registered target_fd) fd ssl s t f l h v = absurd (ground arith)
continue_handshake-Inv no_target fd ssl s t f l h v =
    subst Inv (done-inj refl h) (close_pending-Inv fd s v)
continue_handshake-Inv wants_read fd ssl s t f l h v = subst Inv (done-inj refl h) v
continue_handshake-Inv wants_write fd ssl s t f l h v = subst Inv (done-inj refl h) v
continue_handshake-Inv refused fd ssl s t f l h v =
    subst Inv (done-inj refl h) (close_pending-Inv fd s v)

dispatch-Inv :
    (k : Handshake) (e : Event) (fd : ℕ) (s t : TlsProxy)
    → FreshTarget k s
    → dispatch k e fd s ≡ done t
    → Inv s
    → Inv t
unfolding dispatch
dispatch-Inv k e fd s t f h v = elim (Option-cases (lookup fd s.pending_ssl)) [
  | inl l ↦
      let handled : dispatch k e fd s ≡ done (handle_event e fd s) = rw (l, dispatch) refl in
      subst Inv (done-inj handled h) (handle_event-Inv e fd s v)
  | inr (ssl, l) ↦ continue_handshake-Inv k fd ssl s t f l (rw (l, dispatch) at h) v
]

Step-Inv : {s t : TlsProxy} → Step s t → Inv s → Inv t
unfolding stop
Step-Inv (accepts s t queue f h) v = accept_connection-Inv queue s t f h v
Step-Inv (event s t k e fd f h) v = dispatch-Inv k e fd s t f h v
Step-Inv (stops s) v = v

started-Inv : Inv started
unfolding started lookup
started-Inv = record {
  pairs = record { peers = λ fd c h. absurd (ground arith); distinct = tt };
  single = tt;
  disjoint = λ fd ssl h. refl;
  once = λ fd g ssl h k. absurd (ground arith);
}

-- In every state that `run` of the TLS proxy reaches without an exception, where new descriptors are
-- in no table and new SSL objects are not held: every connection has its counterpart on the other
-- side, exactly the client's side has an SSL object, no descriptor stands twice or is both in a
-- handshake and in a connection, and no SSL object is held by two descriptors.
pub Runs-InvOf : {s : TlsProxy} → Runs started s → InvOf s.pending_ssl s.connections
Runs-InvOf here = started-Inv
Runs-InvOf (next r step) = Step-Inv step (Runs-InvOf r)
