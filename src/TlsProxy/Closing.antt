-- ===== src/TlsProxy/Closing.antt =====
-- `close_connection` of src/tls_proxy.cpp, called from either side.
use tunnel_proxy.Base.Maps.{ℕ_key, lookup, erase, lookup-erase, lookup-erase_self, erase-erase}
use tunnel_proxy.Base.{
  ℕ, ◌≡◌, ◌≢◌, refl, sym, ap, ◌∙◌, inl, inr, not, ◌⊎◌, true, false, List, ◌∷◌, Option, none, some,
  Bool-cases, arith,
}
use tunnel_proxy.TlsProxy.{ConnState, TlsProxy, shut_down, freed, closed, ssl_of, close_connection}
use tunnel_proxy.TlsProxy.Tables.{
  Inv, is_some, of_connection, InvOf, held, held_by, pending_alone, erase_shrinks,
}

shared_ssl :
    (x : ℕ) (c d : ConnState) (m : List (ℕ × ConnState))
    → c.is_client ≡ true
    → d.is_client ≡ false
    → c.ssl ≡ some x
    → lookup d.peer_fd m ≡ some c
    → (ssl_of c m ≡ some x) × (ssl_of d m ≡ some x)
unfolding ssl_of
shared_ssl x c d m hc hd hx h = (rw (hc, ssl_of) hx, rw (hd, ssl_of, h) hx)

abbrev after_close : ℕ → ℕ → ℕ → TlsProxy → TlsProxy
after_close fd other_fd x s = record s {
  connections = erase other_fd (erase fd s.connections);
  actions = closed other_fd ∷ closed fd ∷ freed x ∷ shut_down x ∷ s.actions;
}

close_connection-after :
    (fd other_fd x : ℕ) (c : ConnState) (s : TlsProxy)
    → lookup fd s.connections ≡ some c
    → c.peer_fd ≡ other_fd
    → ssl_of c s.connections ≡ some x
    → close_connection fd s ≡ after_close fd other_fd x s
unfolding close_connection
close_connection-after fd other_fd x c s h p o =
    rw (close_connection, h, o) (ap (λ z. after_close fd z x s) p)

-- The descriptors of a pair, the client's first, and its SSL object.
pub record Pair (s : TlsProxy) (client_fd target_fd ssl : ℕ) : Type 0 where
  pub client : ConnState
  pub target : ConnState
  pub client_at : lookup client_fd s.connections ≡ some client
  pub target_at : lookup target_fd s.connections ≡ some target
  pub client_peer : client.peer_fd ≡ target_fd
  pub target_peer : target.peer_fd ≡ client_fd
  pub sides : (client.is_client ≡ true) × (target.is_client ≡ false)
  pub its_ssl : client.ssl ≡ some ssl

some_ssl :
    (c : ConnState) (o : Option ℕ) → c.ssl ≡ o → is_some o ≡ true → (x : ℕ) × (c.ssl ≡ some x)
some_ssl c none e h = absurd (ground arith)
some_ssl c (some x) e h = (x, e)

-- Every connection is one side of such a pair.
pub Pair-of :
    (fd : ℕ) (c : ConnState) (s : TlsProxy)
    → Inv s
    → lookup fd s.connections ≡ some c
    → (x : ℕ) × (((c.is_client ≡ true) × Pair s fd c.peer_fd x)
        ⊎ ((c.is_client ≡ false) × Pair s c.peer_fd fd x))
Pair-of fd c s v h =
    let (d, back, points, opposite, differs) = v.pairs.peers fd c h in
    let (c', back', points', opposite', differs') = v.pairs.peers c.peer_fd d back in
    elim (Bool-cases c.is_client) [
      | inl k ↦
          let (x, e) = some_ssl c c.ssl refl (opposite.1 ∙ k) in
          (
            x,
            inl (
              k,
              record {
                client = c;
                target = d;
                client_at = h;
                target_at = back;
                client_peer = refl;
                target_peer = points;
                sides = (k, opposite.0 ∙ ap not k);
                its_ssl = e;
              },
            ),
          )
      | inr k ↦
          let is_client : d.is_client ≡ true = opposite.0 ∙ ap not k in
          let (x, e) = some_ssl d d.ssl refl (opposite'.1 ∙ is_client) in
          (
            x,
            inr (
              k,
              record {
                client = d;
                target = c;
                client_at = back;
                target_at = h;
                client_peer = points;
                target_peer = refl;
                sides = (is_client, k);
                its_ssl = e;
              },
            ),
          )
    ]

client_gone :
    (fd other_fd : ℕ) (m : List (ℕ × ConnState)) → lookup fd (erase other_fd (erase fd m)) ≡ none
client_gone fd other_fd m =
    ground (arith, lookup-erase other_fd fd (erase fd m), lookup-erase_self fd m)

unheld :
    (client_fd target_fd x : ℕ) (c : ConnState) (s : TlsProxy)
    → Inv s
    → lookup client_fd s.connections ≡ some c
    → c.ssl ≡ some x
    → (g : ℕ) → held s.pending_ssl (erase target_fd (erase client_fd s.connections)) g ≢ some x
unheld client_fd target_fd x c s v h e g l =
    let p = s.pending_ssl in
    let m = s.connections in
    let alone = pending_alone p m v client_fd x (ap of_connection h ∙ e) in
    let before = erase_shrinks p m v client_fd target_fd g x l in
    let it_is : g ≡ client_fd =
      v.once g client_fd x before (held_by client_fd p m _ _ alone h ∙ e) in
    let nothing =
      held_by client_fd p (erase target_fd (erase client_fd m)) _ _ alone
        (client_gone client_fd target_fd m) in
    let no : none ≡ some x =
      sym nothing ∙ ap (held p (erase target_fd (erase client_fd m))) (sym it_is) ∙ l in
    ground arith

-- A pair is closed from either side in the same way: both descriptors leave the table, the SSL object
-- of the pair is shut down and freed once, both descriptors are closed, and nobody holds the SSL
-- object after that.
pub close_connection-Pair :
    (client_fd target_fd x : ℕ) (s : TlsProxy)
    → InvOf s.pending_ssl s.connections
    → Pair s client_fd target_fd x
    → let t = close_connection client_fd s in
      let u = close_connection target_fd s in
      (t.actions ≡ closed target_fd ∷ closed client_fd ∷ freed x ∷ shut_down x ∷ s.actions)
      × (u.actions ≡ closed client_fd ∷ closed target_fd ∷ freed x ∷ shut_down x ∷ s.actions)
      × (t.connections ≡ u.connections)
      × (lookup client_fd t.connections ≡ none)
      × (lookup target_fd t.connections ≡ none)
      × ((g : ℕ) → held t.pending_ssl t.connections g ≢ some x)
close_connection-Pair client_fd target_fd x s v p =
    let m = s.connections in
    let (by_client, by_target) =
      shared_ssl x p.client p.target m p.sides.0 p.sides.1 p.its_ssl
        (ap (λ z. lookup z m) p.target_peer ∙ p.client_at) in
    let t_is =
      close_connection-after client_fd target_fd x p.client s p.client_at p.client_peer by_client in
    let u_is =
      close_connection-after target_fd client_fd x p.target s p.target_at p.target_peer by_target in
    (
      ap (λ z. z.actions) t_is,
      ap (λ z. z.actions) u_is,
      ap (λ z. z.connections) t_is
          ∙ erase-erase target_fd client_fd m
          ∙ ap (λ z. z.connections) (sym u_is),
      ap (λ z. lookup client_fd z.connections) t_is ∙ client_gone client_fd target_fd m,
      ap (λ z. lookup target_fd z.connections) t_is
          ∙ lookup-erase_self target_fd (erase client_fd m),
      λ g l.
          unheld client_fd target_fd x p.client s v p.client_at p.its_ssl g
            (ap (λ z. held z.pending_ssl z.connections g) (sym t_is) ∙ l),
    )
