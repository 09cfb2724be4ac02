-- ===== src/TlsProxy/Tables.antt =====
-- The tables of the TLS proxy, and who holds an SSL object.
use tunnel_proxy.Base.Maps.{
  Distinct, Distinct-retain, ℕ_key, lookup, insert, erase, lookup-insert_self, lookup-insert_ne,
  lookup-erase_ne, lookup-erase-some, lookup-erase,
}
use tunnel_proxy.Base.Pairs
use tunnel_proxy.Base.{
  ℕ, ◌≡◌, refl, sym, ap, subst, ◌∙◌, inl, inr, Bool, true, false, not, Bool-cases, Option-cases,
  List, Option, none, some, arith, ◌==◌, ==_iff,
}
use tunnel_proxy.TlsProxy.{ConnState, TlsProxy}

abbrev pub peer : ConnState → ℕ
peer c = c.peer_fd

abbrev pub is_some : Option ℕ → Bool
is_some none = false
is_some (some x) = true

-- The other side; and the client, and only it, has an SSL object.
abbrev pub Opposite : ConnState → ConnState → Type 0
Opposite c d = (d.is_client ≡ not c.is_client) × (is_some c.ssl ≡ c.is_client)

abbrev pub Paired : List (ℕ × ConnState) → Type 0
Paired = Pairs.Paired peer Opposite

-- The SSL object that a descriptor holds, in a handshake or in a connection.
abbrev pub of_connection : Option ConnState → Option ℕ
of_connection none = none
of_connection (some c) = c.ssl

abbrev pub first_of : Option ℕ → Option ℕ → Option ℕ
first_of none o = o
first_of (some ssl) o = some ssl

abbrev pub held : List (ℕ × ℕ) → List (ℕ × ConnState) → ℕ → Option ℕ
held pending connections fd = first_of (lookup fd pending) (of_connection (lookup fd connections))

pub record InvOf (pending : List (ℕ × ℕ)) (connections : List (ℕ × ConnState)) : Type 0 where
  pub pairs : Paired connections
  pub single : Distinct pending
  -- A descriptor is in a handshake or in a connection.
  pub disjoint : (fd ssl : ℕ) → lookup fd pending ≡ some ssl → lookup fd connections ≡ none
  -- No SSL object is held twice.
  pub once :
      (fd g ssl : ℕ)
      → held pending connections fd ≡ some ssl
      → held pending connections g ≡ some ssl
      → fd ≡ g

abbrev pub Inv : TlsProxy → Type 0
Inv s = InvOf s.pending_ssl s.connections

-- Nobody holds more than before.
abbrev pub Shrinks :
    List (ℕ × ℕ) → List (ℕ × ConnState) → List (ℕ × ℕ) → List (ℕ × ConnState) → Type 0
Shrinks p m p' m' = (g x : ℕ) → held p' m' g ≡ some x → held p m g ≡ some x

same_ssl_held :
    (fd g : ℕ) (c c' : ConnState) (m : List (ℕ × ConnState))
    → lookup fd m ≡ some c
    → c'.ssl ≡ c.ssl
    → of_connection (lookup g (insert fd c' m)) ≡ of_connection (lookup g m)
same_ssl_held fd g c c' m h e = elim (Bool-cases (fd == g)) [
  | inl hit ↦
      let here : fd ≡ g = (==_iff fd g).0 hit in
      subst (λ k. of_connection (lookup k (insert fd c' m)) ≡ of_connection (lookup k m)) here
        (ap of_connection (lookup-insert_self fd c' m) ∙ e ∙ ap of_connection (sym h))
  | inr miss ↦ ap of_connection (lookup-insert_ne fd g c' m miss)
]

-- An entry that `erase` leaves was there.
erased_held :
    (fd g x : ℕ) (m : List (ℕ × ConnState))
    → of_connection (lookup g (erase fd m)) ≡ some x
    → of_connection (lookup g m) ≡ some x
erased_held fd g x m l = ground (arith, lookup-erase fd g m)

pub held_by :
    (g : ℕ) (p : List (ℕ × ℕ)) (m : List (ℕ × ConnState)) (o : Option ℕ) (r : Option ConnState)
    → lookup g p ≡ o
    → lookup g m ≡ r
    → held p m g ≡ first_of o (of_connection r)
held_by g p m o r hp hm = rw (hp, hm) refl

pub erased_none :
    {V : Type 0} (fd g : ℕ) (m : List (ℕ × V)) → lookup g m ≡ none → lookup g (erase fd m) ≡ none
erased_none fd g m l = ground (arith, lookup-erase fd g m)

lookup_found :
    (fd g : ℕ) (c : ConnState) (m : List (ℕ × ConnState))
    → lookup fd m ≡ some c
    → lookup g m ≡ none
    → (fd == g) ≡ false
lookup_found fd g c m h l = ground (arith, ==_iff fd g)

shrunk :
    (o a b : Option ℕ) (x : ℕ)
    → (a ≡ some x → b ≡ some x)
    → first_of o a ≡ some x
    → first_of o b ≡ some x
shrunk none a b x f h = f h
shrunk (some y) a b x f h = h

module _ (p : List (ℕ × ℕ)) (m : List (ℕ × ConnState)) (v : InvOf p m) where
  -- The buffer of an entry changes.
  pub InvOf-update :
      (fd : ℕ) (c c' : ConnState)
      → lookup fd m ≡ some c
      → (c'.peer_fd ≡ c.peer_fd) × (c'.is_client ≡ c.is_client) × (c'.ssl ≡ c.ssl)
      → InvOf p (insert fd c' m)
  InvOf-update fd c c' h (same_peer, same_side, same_ssl) =
      let same : (g : ℕ) → held p (insert fd c' m) g ≡ held p m g =
        λ g. ap (first_of (lookup g p)) (same_ssl_held fd g c c' m h same_ssl) in
      record {
        pairs =
            Pairs.Paired-update peer Opposite fd c c' m h same_peer
              (λ d o. (o.0 ∙ ap not (sym same_side), ap is_some same_ssl ∙ o.1 ∙ sym same_side))
              (λ d o. (same_side ∙ o.0, o.1)) v.pairs;
        single = v.single;
        disjoint = λ g x l.
            let absent = v.disjoint g x l in
            lookup-insert_ne fd g c' m (lookup_found fd g c m h absent) ∙ absent;
        once = λ g k x hg hk. v.once g k x (sym (same g) ∙ hg) (sym (same k) ∙ hk);
      }

  pub erase_shrinks :
      (fd other_fd g x : ℕ) → held p (erase other_fd (erase fd m)) g ≡ some x → held p m g ≡ some x
  erase_shrinks fd other_fd g x l =
      shrunk (lookup g p) _ _ x
        (λ h. erased_held fd g x m (erased_held other_fd g x (erase fd m) h)) l

  pub InvOf-erase :
      (fd : ℕ) (c : ConnState) → lookup fd m ≡ some c → InvOf p (erase c.peer_fd (erase fd m))
  InvOf-erase fd c h =
      let shrinks : Shrinks p m p (erase c.peer_fd (erase fd m)) =
        λ g x l. erase_shrinks fd c.peer_fd g x l in
      record {
        pairs = Pairs.Paired-erase peer Opposite fd c m h v.pairs;
        single = v.single;
        disjoint =
            λ g x l. erased_none c.peer_fd g (erase fd m) (erased_none fd g m (v.disjoint g x l));
        once = λ g k x hg hk. v.once g k x (shrinks g x hg) (shrinks k x hk);
      }

  pub pending_alone : (g x : ℕ) → of_connection (lookup g m) ≡ some x → lookup g p ≡ none
  pending_alone g x l = elim (Option-cases (lookup g p)) [
    | inl e ↦ e
    | inr (y, e) ↦
        let absent : none ≡ some x = ap of_connection (sym (v.disjoint g y e)) ∙ l in
        absurd (ground arith)
  ]

  unpend-Shrinks : (fd : ℕ) → Shrinks p m (erase fd p) m
  unpend-Shrinks fd g x l = elim (Bool-cases (fd == g)) [
    | inl hit ↦
        let gone : lookup g (erase fd p) ≡ none = ground (arith, lookup-erase fd g p) in
        let there : of_connection (lookup g m) ≡ some x = rw gone at l in
        rw (pending_alone g x there) there
    | inr miss ↦ rw (lookup-erase_ne fd g p miss) at l
  ]

  -- The handshake of a descriptor is over, and its SSL object is gone.
  pub InvOf-unpend : (fd : ℕ) → InvOf (erase fd p) m
  unfolding erase
  InvOf-unpend fd =
      let shrinks : Shrinks p m (erase fd p) m = λ g x l. unpend-Shrinks fd g x l in
      record {
        pairs = v.pairs;
        single = Distinct-retain _ p v.single;
        disjoint = λ g x l. v.disjoint g x (lookup-erase-some fd g x p l).1;
        once = λ g k x hg hk. v.once g k x (shrinks g x hg) (shrinks k x hk);
      }
