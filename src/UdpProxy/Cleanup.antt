-- ===== src/UdpProxy/Cleanup.antt =====
-- The clean-up walks one table and drops exactly the idle sessions of the other.
use tunnel_proxy.Base.Maps.{ℕ_key, Bytes_key, lookup, Distinct}
use tunnel_proxy.Base.{
  ℕ, ◌≡◌, refl, ap, ◌∙◌, Bool, true, false, ◌||◌, List, [], ◌∷◌, Option, none, some, ◌==◌, ==_iff,
  if◌then◌else◌, Bytes, arith,
}
use tunnel_proxy.Protocol.Inet.{Inet}
use tunnel_proxy.UdpProxy.Tables.{Inv}
use tunnel_proxy.UdpProxy.Steps.{close_session-Inv}
use tunnel_proxy.UdpProxy.{
  Session, UdpProxy, close_session, close_sessions, expired_fds, timeout_ns,
  cleanup_expired_sessions,
}
use tunnel_proxy.UdpProxy.Spec.{view, is_idle, unless_idle, expire}
use tunnel_proxy.UdpProxy.Views.{close_session-view}

abbrev mem : ℕ → List ℕ → Bool
mem fd [] = false
mem fd (d ∷ ds) = (d == fd) || mem fd ds

abbrev is_stale : ℕ → ℕ → List (Bytes × Session) → Option Bytes → Bool
is_stale timeout now m o = elim o [
  | none ↦ false
  | some key ↦ elim (lookup key m) [ none ↦ true | some x ↦ is_idle timeout now x ]
]

mem-expired_fds :
    (timeout now : ℕ) (m : List (Bytes × Session)) (t : List (ℕ × Bytes)) (fd : ℕ)
    → Distinct t
    → mem fd (expired_fds now timeout m t) ≡ is_stale timeout now m (lookup fd t)
unfolding expired_fds lookup
mem-expired_fds timeout now m [] fd h = refl
mem-expired_fds timeout now m ((d, key) ∷ t) fd h =
    ground (arith, mem-expired_fds timeout now m t fd h.1, h.0, ==_iff d fd)

dropped :
    (timeout now : ℕ) (fds : List ℕ) (o : Option Session)
    → ((x : Session) → o ≡ some x → mem x.target_fd fds ≡ is_idle timeout now x)
    → elim o [ none ↦ none | some x ↦ if mem x.target_fd fds then none else some x ]
      ≡ unless_idle timeout now o
dropped timeout now fds none h = refl
dropped timeout now fds (some x) h = ground (arith, h x refl)

module _ (inet : Inet) where
  close_sessions-view :
      (fds : List ℕ) (s : UdpProxy) (k : Bytes)
      → Inv inet s
      → view (close_sessions fds s) k
        ≡ elim (view s k) [ none ↦ none | some x ↦ if mem x.target_fd fds then none else some x ]
  unfolding close_sessions
  close_sessions-view [] s k v = ground arith
  close_sessions-view (fd ∷ fds) s k v = ground (
    arith,
    close_sessions-view fds (close_session fd s) k (close_session-Inv inet fd s v),
    close_session-view inet fd s k v,
  )

  pub cleanup-view :
      (now : ℕ) (s : UdpProxy) (k : Bytes)
      → Inv inet s
      → view (cleanup_expired_sessions now s) k ≡ expire (timeout_ns s) now (view s) k
  unfolding cleanup_expired_sessions
  cleanup-view now s k v =
      let fds = expired_fds now (timeout_ns s) s.sessions_by_client s.sessions_by_target in
      close_sessions-view fds s k v
      ∙ dropped (timeout_ns s) now fds (view s k) λ x e.
        let (its, named) = v.forth k x e in
        let stale =
          mem-expired_fds (timeout_ns s) now s.sessions_by_client s.sessions_by_target x.target_fd
            v.distinct in
        stale ∙ ap (is_stale (timeout_ns s) now s.sessions_by_client) its ∙ rw (e, is_stale) refl
