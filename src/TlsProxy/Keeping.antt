-- ===== src/TlsProxy/Keeping.antt =====
-- The handlers of src/tls_proxy.cpp keep the tables.
use tunnel_proxy.Base.Maps.{ℕ_key, lookup, erase}
use tunnel_proxy.Base.{
  ℕ, ◌≡◌, refl, subst, inl, inr, Bool, true, false, List, [], ◌∷◌, Option, none, some, Option-cases,
  if◌then◌else◌, is_empty, Bytes,
}
use tunnel_proxy.TlsProxy.Tables.{Inv, InvOf, InvOf-update, InvOf-erase, InvOf-unpend}
use tunnel_proxy.TlsProxy.{
  ConnState, TlsProxy, Write, act, mod_epoll, epollin, wrote, encrypted, release, ssl_of,
  close_connection, close_pending, keep, End, all_written, blocked, broken, write_all, after_write,
  SslRead, plain, want_more, ended, forward_client_to_target, TargetRead, got, nothing, read_failed,
  SslWrite, written, want_write, want_read, ssl_failed, forward_target_to_client, flush_plain,
  flush_tls, flush_write_buf, Event, read_event, handle_event,
}

release-pending : (o : Option ℕ) (s : TlsProxy) → s.pending_ssl ≡ (release o s).pending_ssl
release-pending none s = refl
release-pending (some ssl) s = refl

if-Inv : (b : Bool) (s t : TlsProxy) → Inv s → Inv t → Inv (if b then s else t)
if-Inv true s t v w = v
if-Inv false s t v w = w

close_connection-Inv : (fd : ℕ) (s : TlsProxy) → Inv s → Inv (close_connection fd s)
unfolding close_connection
close_connection-Inv fd s v = elim (Option-cases (lookup fd s.connections)) [
  | inl e ↦ rw (e, close_connection) v
  | inr (c, e) ↦
      rw (e, close_connection)
        (subst (λ p. InvOf p (erase c.peer_fd (erase fd s.connections)))
          (release-pending (ssl_of c s.connections) s)
          (InvOf-erase s.pending_ssl s.connections v fd c e))
]

keep-Inv :
    (fd : ℕ) (bytes : Bytes) (c : ConnState) (s : TlsProxy)
    → lookup fd s.connections ≡ some c
    → Inv s
    → Inv (keep fd bytes s)
unfolding keep
keep-Inv fd bytes c s e v =
    rw (e, keep) (InvOf-update s.pending_ssl s.connections v fd c _ e (refl, refl, refl))

pub close_pending-Inv : (fd : ℕ) (s : TlsProxy) → Inv s → Inv (close_pending fd s)
unfolding close_pending
close_pending-Inv fd s v = elim (Option-cases (lookup fd s.pending_ssl)) [
  | inl e ↦ rw (e, close_pending) v
  | inr (c, e) ↦ rw (e, close_pending) (InvOf-unpend s.pending_ssl s.connections v fd)
]

after_write-Inv :
    (r : Bytes × Bytes × End) (client_fd target_fd : ℕ) (c : ConnState) (s : TlsProxy)
    (more : TlsProxy → TlsProxy)
    → lookup target_fd s.connections ≡ some c
    → Inv s
    → ((out : Bytes) → Inv s → Inv (more (act (wrote target_fd out) s)))
    → Inv (after_write r client_fd target_fd s more)
after_write-Inv (out, rest, all_written) client_fd target_fd c s more e v k = k out v
after_write-Inv (out, rest, blocked) client_fd target_fd c s more e v k =
    keep-Inv target_fd rest c (act (wrote target_fd out) s) e v
after_write-Inv (out, rest, broken) client_fd target_fd c s more e v k =
    close_connection-Inv client_fd (act (wrote target_fd out) s) v

forward_client_to_target-Inv :
    (reads : List SslRead) (client_fd target_fd : ℕ) (c : ConnState) (s : TlsProxy)
    → lookup target_fd s.connections ≡ some c
    → Inv s
    → Inv (forward_client_to_target reads client_fd target_fd s)
unfolding forward_client_to_target
forward_client_to_target-Inv [] client_fd target_fd c s e v = v
forward_client_to_target-Inv (plain bytes ws ∷ reads) client_fd target_fd c s e v =
    after_write-Inv (write_all ws bytes) client_fd target_fd c s
      (forward_client_to_target reads client_fd target_fd) e v
      (λ out.
        forward_client_to_target-Inv reads client_fd target_fd c (act (wrote target_fd out) s) e)
forward_client_to_target-Inv (want_more ∷ reads) client_fd target_fd c s e v = v
forward_client_to_target-Inv (ended ∷ reads) client_fd target_fd c s e v =
    close_connection-Inv client_fd s v

forward_target_to_client-Inv :
    (reads : List TargetRead) (target_fd client_fd : ℕ) (c : ConnState) (s : TlsProxy)
    → lookup client_fd s.connections ≡ some c
    → Inv s
    → Inv (forward_target_to_client reads target_fd client_fd s)
unfolding forward_target_to_client
forward_target_to_client-Inv [] target_fd client_fd c s e v = v
forward_target_to_client-Inv (got [] w ∷ reads) target_fd client_fd c s e v =
    close_connection-Inv target_fd s v
forward_target_to_client-Inv (got (b ∷ bs) written ∷ reads) target_fd client_fd c s e v =
    forward_target_to_client-Inv reads target_fd client_fd c (act (encrypted client_fd (b ∷ bs)) s)
      e v
forward_target_to_client-Inv (got (b ∷ bs) want_write ∷ reads) target_fd client_fd c s e v =
    keep-Inv client_fd (b ∷ bs) c s e v
forward_target_to_client-Inv (got (b ∷ bs) want_read ∷ reads) target_fd client_fd c s e v = v
forward_target_to_client-Inv (got (b ∷ bs) ssl_failed ∷ reads) target_fd client_fd c s e v =
    close_connection-Inv target_fd s v
forward_target_to_client-Inv (nothing ∷ reads) target_fd client_fd c s e v = v
forward_target_to_client-Inv (read_failed ∷ reads) target_fd client_fd c s e v =
    close_connection-Inv target_fd s v

flush_plain-Inv :
    (r : Bytes × Bytes × End) (fd : ℕ) (c : ConnState) (s : TlsProxy)
    → lookup fd s.connections ≡ some c
    → Inv s
    → Inv (flush_plain r fd c s)
unfolding flush_plain
flush_plain-Inv (out, rest, all_written) fd c s e v =
    InvOf-update s.pending_ssl s.connections v fd c _ e (refl, refl, refl)
flush_plain-Inv (out, rest, blocked) fd c s e v =
    InvOf-update s.pending_ssl s.connections v fd c _ e (refl, refl, refl)
flush_plain-Inv (out, rest, broken) fd c s e v = close_connection-Inv fd (act (wrote fd out) s) v

flush_tls-Inv :
    (w : SslWrite) (fd : ℕ) (c : ConnState) (s : TlsProxy)
    → lookup fd s.connections ≡ some c
    → Inv s
    → Inv (flush_tls w fd c s)
unfolding flush_tls
flush_tls-Inv written fd c s e v =
    InvOf-update s.pending_ssl s.connections v fd c _ e (refl, refl, refl)
flush_tls-Inv want_write fd c s e v = v
flush_tls-Inv want_read fd c s e v = close_connection-Inv fd s v
flush_tls-Inv ssl_failed fd c s e v = close_connection-Inv fd s v

flush_write_buf-Inv :
    (ws : List Write) (w : SslWrite) (fd : ℕ) (s : TlsProxy)
    → Inv s
    → Inv (flush_write_buf ws w fd s)
unfolding flush_write_buf
flush_write_buf-Inv ws w fd s v = elim (Option-cases (lookup fd s.connections)) [
  | inl e ↦ rw (e, flush_write_buf) v
  | inr (c, e) ↦
      rw (e, flush_write_buf)
        (if-Inv (is_empty c.write_buf) (act (mod_epoll fd epollin) s) _ v (
          if-Inv c.is_client (flush_tls w fd c s) (flush_plain (write_all ws c.write_buf) fd c s)
            (flush_tls-Inv w fd c s e v) (flush_plain-Inv (write_all ws c.write_buf) fd c s e v)))
]

read_event-Inv : (e : Event) (fd : ℕ) (s : TlsProxy) → Inv s → Inv (read_event e fd s)
unfolding read_event
read_event-Inv e fd s v = elim (Option-cases (lookup fd s.connections)) [
  | inl h ↦ rw (h, read_event) v
  | inr (c, h) ↦
      let (d, there, points, opposite, differs) = v.pairs.peers fd c h in
      rw (h, read_event, there)
        (if-Inv c.is_client (forward_client_to_target e.client_reads fd c.peer_fd s)
          (forward_target_to_client e.target_reads fd c.peer_fd s)
          (forward_client_to_target-Inv e.client_reads fd c.peer_fd d s there v)
          (forward_target_to_client-Inv e.target_reads fd c.peer_fd d s there v))
]

pub handle_event-Inv : (e : Event) (fd : ℕ) (s : TlsProxy) → Inv s → Inv (handle_event e fd s)
unfolding handle_event
handle_event-Inv e fd s v =
    let s' = if e.writable then flush_write_buf e.flush_writes e.flush_ssl fd s else s in
    let v' : Inv s' =
      if-Inv e.writable (flush_write_buf e.flush_writes e.flush_ssl fd s) s
        (flush_write_buf-Inv e.flush_writes e.flush_ssl fd s v) v in
    if-Inv e.hung_up (close_connection fd s) _ (close_connection-Inv fd s v)
      (if-Inv e.readable (read_event e fd s') s' (read_event-Inv e fd s' v') v')
