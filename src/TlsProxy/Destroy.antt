-- ===== src/TlsProxy/Destroy.antt =====
-- The destructor of src/tls_proxy.cpp, which frees what is left.
use tunnel_proxy.Base.Maps.{ℕ_key, lookup, Distinct}
use tunnel_proxy.Base.{
  ℕ, suc, ◌+◌, ◌≡◌, ◌≢◌, refl, sym, ap, subst, ◌∙◌, inl, inr, Bool, true, false, List, [], ◌∷◌,
  Option, none, some, some-inj, arith, ◌==◌, ==_iff, if◌then◌else◌, Bool-cases, Option-cases,
  not_true,
}
use tunnel_proxy.TlsProxy.{
  ConnState, TlsProxy, Action, wrote, encrypted, mod_epoll, shut_down, freed, closed, stop,
}
use tunnel_proxy.TlsProxy.Tables.{InvOf, held, held_by, of_connection, is_some, pending_alone}

unfoldable pub free_pending : List (ℕ × ℕ) → List Action → List Action
free_pending [] done = done
free_pending ((fd, ssl) ∷ m) done = free_pending m (closed fd ∷ freed ssl ∷ done)

-- `state.is_client && state.ssl`
abbrev pub client_ssl : ConnState → Option ℕ
client_ssl c = if c.is_client then c.ssl else none

abbrev pub free_some : Option ℕ → List Action → List Action
free_some none done = done
free_some (some ssl) done = freed ssl ∷ done

unfoldable pub free_connections : List (ℕ × ConnState) → List Action → List Action
free_connections [] done = done
free_connections ((fd, c) ∷ m) done = free_connections m (closed fd ∷ free_some (client_ssl c) done)

unfoldable pub destroy : TlsProxy → TlsProxy
unfolding stop free_pending free_connections
destroy s = record (stop s) {
  pending_ssl = [];
  connections = [];
  actions = free_connections s.connections (free_pending s.pending_ssl s.actions);
}

-- How often an SSL object was freed.
abbrev pub times_freed : ℕ → List Action → ℕ
times_freed x [] = 0
times_freed x (freed y ∷ before) =
    if y == x then suc (times_freed x before) else times_freed x before
times_freed x (shut_down y ∷ before) = times_freed x before
times_freed x (wrote fd bytes ∷ before) = times_freed x before
times_freed x (encrypted fd bytes ∷ before) = times_freed x before
times_freed x (mod_epoll fd interest ∷ before) = times_freed x before
times_freed x (closed fd ∷ before) = times_freed x before

abbrev one_if : Bool → ℕ
one_if true = 1
one_if false = 0

abbrev is_it : ℕ → Option ℕ → Bool
is_it x none = false
is_it x (some y) = y == x

lookup_head : {V : Type 0} (j : ℕ) (w : V) (m : List (ℕ × V)) → lookup j ((j, w) ∷ m) ≡ some w
unfolding lookup
lookup_head j w m = ground (arith, ==_iff j j)

lookup_tail :
    {V : Type 0} (j g : ℕ) (w v : V) (m : List (ℕ × V))
    → lookup j m ≡ none
    → lookup g m ≡ some v
    → lookup g ((j, w) ∷ m) ≡ some v
unfolding lookup
lookup_tail j g w v m alone l = ground (arith, ==_iff j g)

module _ {V : Type 0} (f : V → Option ℕ) (x : ℕ) where
  -- The entries with x.
  abbrev entries : List (ℕ × V) → ℕ
  entries [] = 0
  entries ((k, v) ∷ m) = one_if (is_it x (f v)) + entries m

  found_alone : (j : ℕ) (u : V) (m : List (ℕ × V)) → lookup j m ≡ none → lookup j m ≢ some u
  found_alone j u m a h = ground arith

  in_tail :
      (j k : ℕ) (w v : V) (m : List (ℕ × V))
      → lookup k ((j, w) ∷ m) ≡ some v
      → is_it x (f v) ≡ true
      → is_it x (f w) ≡ false
      → lookup k m ≡ some v
  unfolding lookup
  in_tail j k w v m h e other = elim (Bool-cases (j == k)) [
    | inl hit ↦
        let same : w ≡ v = some-inj (rw hit at h) in
        absurd (ground (arith, ap (λ z. is_it x (f z)) same))
    | inr miss ↦ rw miss at h
  ]

  entries_none :
      (m : List (ℕ × V))
      → Distinct m
      → ((g : ℕ) (v : V) → lookup g m ≡ some v → is_it x (f v) ≡ false)
      → entries m ≡ 0
  unfolding lookup
  entries_none [] d h = refl
  entries_none ((j, w) ∷ m) (alone, d) h =
      let head : is_it x (f w) ≡ false = h j w (lookup_head j w m) in
      let tail = entries_none m d (λ g v l. h g v (lookup_tail j g w v m alone l)) in
      rw (head, tail) refl

  entries_one :
      (k : ℕ) (v : V) (m : List (ℕ × V))
      → Distinct m
      → lookup k m ≡ some v
      → is_it x (f v) ≡ true
      → ((g : ℕ) (w : V) → lookup g m ≡ some w → is_it x (f w) ≡ true → g ≡ k)
      → entries m ≡ 1
  unfolding lookup
  entries_one k v [] d h e only = absurd (ground arith)
  entries_one k v ((j, w) ∷ m) (alone, d) h e only = elim (Bool-cases (is_it x (f w))) [
    | inl it ↦
        let here : j ≡ k = only j w (lookup_head j w m) it in
        let others : entries m ≡ 0 = entries_none m d (λ g u l. elim (Bool-cases (is_it x (f u))) [
          | inl again ↦
              let there : g ≡ j = only g u (lookup_tail j g w u m alone l) again ∙ sym here in
              absurd (found_alone j u m alone (ap (λ z. lookup z m) (sym there) ∙ l))
          | inr not ↦ not
        ]) in
        rw (it, others) refl
    | inr other ↦
        let rest : lookup k m ≡ some v = in_tail j k w v m h e other in
        let one = entries_one k v m d rest e (λ g u l. only g u (lookup_tail j g w u m alone l)) in
        rw other (omega (arith, one))
  ]

freed-pending :
    (x : ℕ) (m : List (ℕ × ℕ)) (done : List Action)
    → times_freed x (free_pending m done) ≡ entries (λ y. some y) x m + times_freed x done
unfolding free_pending
freed-pending x [] done = omega arith
freed-pending x ((fd, y) ∷ m) done = ground (arith, freed-pending x m (closed fd ∷ freed y ∷ done))

free_some-times :
    (x : ℕ) (o : Option ℕ) (done : List Action)
    → times_freed x (free_some o done) ≡ one_if (is_it x o) + times_freed x done
free_some-times x none done = omega arith
free_some-times x (some y) done = ground arith

freed-connections :
    (x : ℕ) (m : List (ℕ × ConnState)) (done : List Action)
    → times_freed x (free_connections m done) ≡ entries client_ssl x m + times_freed x done
unfolding free_connections
freed-connections x [] done = omega arith
freed-connections x ((fd, c) ∷ m) done = omega (
  arith,
  freed-connections x m (closed fd ∷ free_some (client_ssl c) done),
  free_some-times x (client_ssl c) done,
)

it_is : (x : ℕ) (b : Bool) (o : Option ℕ) → is_it x (if b then o else none) ≡ true → o ≡ some x
it_is x true none h = absurd (ground arith)
it_is x true (some y) h = ap some ((==_iff y x).0 h)
it_is x false o h = absurd (ground arith)

client_ssl-it : (x : ℕ) (c : ConnState) → is_it x (client_ssl c) ≡ true → c.ssl ≡ some x
client_ssl-it x c h = it_is x c.is_client c.ssl h

module _ (s : TlsProxy) (v : InvOf s.pending_ssl s.connections) where
  held_pending :
      (g y x : ℕ)
      → lookup g s.pending_ssl ≡ some y
      → (y == x) ≡ true
      → held s.pending_ssl s.connections g ≡ some x
  held_pending g y x l e =
      held_by g s.pending_ssl s.connections (some y) _ l refl ∙ ap some ((==_iff y x).0 e)

  held_connection :
      (g x : ℕ) (c : ConnState)
      → lookup g s.connections ≡ some c
      → c.ssl ≡ some x
      → held s.pending_ssl s.connections g ≡ some x
  held_connection g x c l e =
      held_by g s.pending_ssl s.connections none (some c)
        (pending_alone s.pending_ssl s.connections v g x (ap of_connection l ∙ e)) l
      ∙ e

  pending_once :
      (fd y x : ℕ)
      → lookup fd s.pending_ssl ≡ some y
      → held s.pending_ssl s.connections fd ≡ some x
      → (entries (λ z. some z) x s.pending_ssl ≡ 1) × (entries client_ssl x s.connections ≡ 0)
  pending_once fd y x l h =
      let it : y ≡ x =
        some-inj (sym (held_by fd s.pending_ssl s.connections (some y) _ l refl) ∙ h) in
      (
        entries_one (λ z. some z) x fd y s.pending_ssl v.single l ((==_iff y x).1 it)
            (λ g w k e. v.once g fd x (held_pending g w x k e) h),
        entries_none client_ssl x s.connections v.pairs.distinct (λ g c k.
            not_true (is_it x (client_ssl c)) (λ e.
              let same : g ≡ fd = v.once g fd x (held_connection g x c k (client_ssl-it x c e)) h in
              found_alone client_ssl x g c s.connections
                (subst (λ z. lookup z s.connections ≡ none) (sym same) (v.disjoint fd y l)) k)),
      )

  connected_once :
      (fd x : ℕ) (c : ConnState)
      → lookup fd s.pending_ssl ≡ none
      → lookup fd s.connections ≡ some c
      → c.ssl ≡ some x
      → (entries (λ z. some z) x s.pending_ssl ≡ 0) × (entries client_ssl x s.connections ≡ 1)
  connected_once fd x c alone l e =
      let (d, back, points, opposite, differs) = v.pairs.peers fd c l in
      let client : c.is_client ≡ true = sym opposite.1 ∙ ap is_some e in
      let h = held_connection fd x c l e in
      let it : is_it x (client_ssl c) ≡ true =
        ap (λ b. is_it x (if b then c.ssl else none)) client
        ∙ ap (is_it x) e
        ∙ (==_iff x x).1 refl in
      (
        entries_none (λ z. some z) x s.pending_ssl v.single
            (λ g y k. not_true (y == x) (λ q.
              let same : g ≡ fd = v.once g fd x (held_pending g y x k q) h in
              found_alone (λ z. some z) x g y s.pending_ssl
                (subst (λ z. lookup z s.pending_ssl ≡ none) (sym same) alone) k)),
        entries_one client_ssl x fd c s.connections v.pairs.distinct l it
            (λ g w k q. v.once g fd x (held_connection g x w k (client_ssl-it x w q)) h),
      )

  -- In a state with the invariants of `Runs-InvOf`, the destructor frees every SSL object that is held,
  -- in a handshake or in a connection, once more than it was freed before, and no other.
  pub destroy-frees :
      (x : ℕ)
      → ((fd : ℕ)
          → held s.pending_ssl s.connections fd ≡ some x
          → times_freed x (destroy s).actions ≡ suc (times_freed x s.actions))
        × (((g : ℕ) → held s.pending_ssl s.connections g ≢ some x)
            → times_freed x (destroy s).actions ≡ times_freed x s.actions)
  unfolding destroy
  destroy-frees x =
      let in_connections =
        freed-connections x s.connections (free_pending s.pending_ssl s.actions) in
      let in_pending = freed-pending x s.pending_ssl s.actions in
      (
        λ fd h. elim (Option-cases (lookup fd s.pending_ssl)) [
          | inl alone ↦
              let there = sym (held_by fd s.pending_ssl s.connections none _ alone refl) ∙ h in
              elim (Option-cases (lookup fd s.connections)) [
                | inl missing ↦ absurd (ground (arith, sym (ap of_connection missing) ∙ there))
                | inr (c, l) ↦
                    let (p, q) = connected_once fd x c alone l (sym (ap of_connection l) ∙ there) in
                    omega (arith, in_connections, in_pending, p, q)
              ]
          | inr (y, l) ↦
              let (p, q) = pending_once fd y x l h in
              omega (arith, in_connections, in_pending, p, q)
        ],
        λ none_held.
            let p : entries (λ y. some y) x s.pending_ssl ≡ 0 =
              entries_none (λ y. some y) x s.pending_ssl v.single
                (λ g y l. not_true (y == x) (λ e. none_held g (held_pending g y x l e))) in
            let c : entries client_ssl x s.connections ≡ 0 =
              entries_none client_ssl x s.connections v.pairs.distinct (λ g d l.
                not_true (is_it x (client_ssl d))
                  (λ e. none_held g (held_connection g x d l (client_ssl-it x d e)))) in
            omega (arith, in_connections, in_pending, p, c),
      )
