-- ===== src/TlsProxy/Entering.antt =====
-- New handshakes and new connections of src/tls_proxy.cpp in the tables.
use tunnel_proxy.Base.Maps.{
  Distinct-insert, Distinct-retain, ℕ_key, lookup, insert, erase, lookup-insert_self,
  lookup-insert_ne, lookup-erase_ne, lookup-erase_self, lookup-insert_cases, lookup-erase-some,
}
use tunnel_proxy.Base.Pairs
use tunnel_proxy.Base.{
  ℕ, [], ◌⊎◌, ◌≡◌, ◌≢◌, refl, sym, ap, subst, ◌∙◌, inl, inr, true, false, Bool-cases, List, none,
  some, some-inj, arith, ◌==◌, ==_iff,
}
use tunnel_proxy.TlsProxy.{ConnState}
use tunnel_proxy.TlsProxy.Tables.{peer, Opposite, InvOf, Shrinks, held, held_by, erased_none}

module _ (p : List (ℕ × ℕ)) (m : List (ℕ × ConnState)) (v : InvOf p m) where
  pend_held :
      (fd ssl g x : ℕ)
      → held (insert fd ssl p) m g ≡ some x
      → ((fd ≡ g) × (ssl ≡ x)) ⊎ (held p m g ≡ some x)
  pend_held fd ssl g x l = elim (Bool-cases (fd == g)) [
    | inl hit ↦
        let here : fd ≡ g = (==_iff fd g).0 hit in
        let found : lookup g (insert fd ssl p) ≡ some ssl =
          subst (λ k. lookup k (insert fd ssl p) ≡ some ssl) here (lookup-insert_self fd ssl p) in
        inl (here, some-inj (rw found at l))
    | inr miss ↦ inr (rw (lookup-insert_ne fd g ssl p miss) at l)
  ]

  -- A new handshake, of a descriptor that is nowhere, with an SSL object that nobody holds.
  pub InvOf-pend :
      (fd ssl : ℕ)
      → lookup fd p ≡ none
      → lookup fd m ≡ none
      → ((g : ℕ) → held p m g ≢ some ssl)
      → InvOf (insert fd ssl p) m
  InvOf-pend fd ssl hp hm fresh =
      let from : (g x : ℕ)
          → held (insert fd ssl p) m g ≡ some x
          → ((fd ≡ g) × (ssl ≡ x)) ⊎ (held p m g ≡ some x) =
        λ g x l. pend_held fd ssl g x l in
      record {
        pairs = v.pairs;
        single = Distinct-insert fd ssl p v.single;
        disjoint = λ g x l. elim (lookup-insert_cases fd g ssl x p l) [
          | inl (hit, same) ↦ subst (λ k. lookup k m ≡ none) hit hm
          | inr (miss, old) ↦ v.disjoint g x old
        ];
        once = λ g k x hg hk. elim (from g x hg) [
          | inl (hit, same) ↦ elim (from k x hk) [
            | inl (hit', same') ↦ sym hit ∙ hit'
            | inr old ↦ absurd (fresh k (old ∙ ap some (sym same)))
          ]
          | inr old ↦ elim (from k x hk) [
            | inl (hit', same') ↦ absurd (fresh g (old ∙ ap some (sym same')))
            | inr old' ↦ v.once g k x old old'
          ]
        ];
      }

  establish_shrinks :
      (fd ssl target_fd : ℕ) (c d : ConnState) (g x : ℕ)
      → c.ssl ≡ some ssl
      → d.ssl ≡ none
      → lookup fd p ≡ some ssl
      → lookup target_fd p ≡ none
      → held (erase fd p) (insert target_fd d (insert fd c m)) g ≡ some x
      → held p m g ≡ some x
  establish_shrinks fd ssl target_fd c d g x cs ds hp tp l = elim (Bool-cases (target_fd == g)) [
    | inl hit ↦
        let here : target_fd ≡ g = (==_iff target_fd g).0 hit in
        let alone : lookup g (erase fd p) ≡ none =
          erased_none fd g p (subst (λ k. lookup k p ≡ none) here tp) in
        let nothing : none ≡ some x =
          sym (
            held_by g _ _ none (some d) alone (
              subst (λ k. lookup k (insert target_fd d (insert fd c m)) ≡ some d) here
                (lookup-insert_self target_fd d (insert fd c m)))
            ∙ ds)
          ∙ l in
        absurd (ground arith)
    | inr miss ↦ elim (Bool-cases (fd == g)) [
      | inl hit ↦
          let here : fd ≡ g = (==_iff fd g).0 hit in
          let found : lookup g (insert target_fd d (insert fd c m)) ≡ some c =
            lookup-insert_ne target_fd g d (insert fd c m) miss
            ∙ subst (λ k. lookup k (insert fd c m) ≡ some c) here (lookup-insert_self fd c m) in
          let alone : lookup g (erase fd p) ≡ none =
            subst (λ k. lookup k (erase fd p) ≡ none) here (lookup-erase_self fd p) in
          let there : lookup g p ≡ some ssl = subst (λ k. lookup k p ≡ some ssl) here hp in
          let same : some ssl ≡ some x = sym (held_by g _ _ none (some c) alone found ∙ cs) ∙ l in
          held_by g p m (some ssl) (lookup g m) there refl ∙ same
      | inr miss' ↦
          rw
            (
              lookup-insert_ne target_fd g d (insert fd c m) miss,
              lookup-insert_ne fd g c m miss',
              lookup-erase_ne fd g p miss',
            )
            at l
    ]
  ]

  -- A handshake becomes a connection, with a target that is nowhere.
  pub InvOf-establish :
      (fd ssl target_fd : ℕ)
      → lookup fd p ≡ some ssl
      → lookup target_fd p ≡ none
      → lookup target_fd m ≡ none
      → InvOf (erase fd p) (
          insert target_fd
            (record { peer_fd = fd; is_client = false; ssl = none; write_buf = [] })
            (insert fd
              (record { peer_fd = target_fd; is_client = true; ssl = some ssl; write_buf = [] })
              m))
  unfolding erase
  InvOf-establish fd ssl target_fd hp tp tm =
      let c : ConnState = record {
        peer_fd = target_fd;
        is_client = true;
        ssl = some ssl;
        write_buf = [];
      } in
      let d : ConnState = record { peer_fd = fd; is_client = false; ssl = none; write_buf = [] } in
      let ne : (fd == target_fd) ≡ false = ground (arith, ==_iff fd target_fd) in
      let shrinks : Shrinks p m (erase fd p) (insert target_fd d (insert fd c m)) =
        λ g x l. establish_shrinks fd ssl target_fd c d g x refl refl hp tp l in
      record {
        pairs =
            Pairs.Paired-both peer Opposite fd target_fd c d m
              (refl, refl, (refl, refl), (refl, refl)) (v.disjoint fd ssl hp) tm ne v.pairs;
        single = Distinct-retain _ p v.single;
        disjoint = λ g x l.
            let (not_fd, old) = lookup-erase-some fd g x p l in
            let not_target : (target_fd == g) ≡ false = ground (arith, ==_iff target_fd g) in
            lookup-insert_ne target_fd g d (insert fd c m) not_target
            ∙ lookup-insert_ne fd g c m not_fd
            ∙ v.disjoint g x old;
        once = λ g k x hg hk. v.once g k x (shrinks g x hg) (shrinks k x hk);
      }
