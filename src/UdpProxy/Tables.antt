-- ===== src/UdpProxy/Tables.antt =====
-- The two tables are inverse to each other.
use tunnel_proxy.Base.Maps.{
  ℕ_key, Bytes_key, lookup, insert, erase, lookup-insert_self, lookup-insert_ne, lookup-erase_ne,
  lookup-insert_cases, lookup-erase-some, lookup_apart, Distinct, Distinct-insert, Distinct-retain,
}
use tunnel_proxy.Base.{
  ℕ, ◌≡◌, sym, ap, ◌∙◌, inl, inr, Bool-cases, false, List, none, some, some-inj, arith, ◌==◌,
  ==_iff, equal, equal_iff, Bytes,
}
use tunnel_proxy.Protocol.Inet.{Inet}
use tunnel_proxy.UdpProxy.{Session, UdpProxy, addr_to_key}

-- One descriptor has one key.
apart_fd :
    (fd d : ℕ) (key k : Bytes) (t : List (ℕ × Bytes))
    → lookup fd t ≡ some key
    → lookup d t ≡ some k
    → equal key k ≡ false
    → (fd == d) ≡ false
apart_fd fd d key k t h l ne = ground (arith, equal_iff key k, ==_iff fd d)

module _ (inet : Inet) where
  -- Every session stands under the key of its client and owns its descriptor, every descriptor
  -- belongs to the session of its key, and no descriptor stands twice.
  pub record InvOf (by_client : List (Bytes × Session)) (by_target : List (ℕ × Bytes))
      : Type 0 where
    pub forth :
        (key : Bytes) (session : Session)
        → lookup key by_client ≡ some session
        → (lookup session.target_fd by_target ≡ some key)
          × (addr_to_key inet session.client_addr ≡ key)
    pub back :
        (fd : ℕ) (key : Bytes)
        → lookup fd by_target ≡ some key
        → (session : Session) × (lookup key by_client ≡ some session) × (session.target_fd ≡ fd)
    pub distinct : Distinct by_target

  abbrev pub Inv : UdpProxy → Type 0
  Inv s = InvOf s.sessions_by_client s.sessions_by_target

  pub InvOf-enter :
      (m : List (Bytes × Session)) (t : List (ℕ × Bytes)) (session : Session)
      → lookup (addr_to_key inet session.client_addr) m ≡ none
      → lookup session.target_fd t ≡ none
      → InvOf m t
      → InvOf
          (insert (addr_to_key inet session.client_addr) session m)
          (insert session.target_fd (addr_to_key inet session.client_addr) t)
  InvOf-enter m t session absent fresh v =
      let k = addr_to_key inet session.client_addr in
      let fd = session.target_fd in
      record {
        forth = λ key x h. elim (lookup-insert_cases k key session x m h) [
          | inl (hit, same) ↦ (
            ap (λ (y : Session). lookup y.target_fd (insert fd k t)) (sym same)
                ∙ lookup-insert_self fd k t
                ∙ ap some hit,
            ap (λ (y : Session). addr_to_key inet y.client_addr) (sym same) ∙ hit,
          )
          | inr (miss, old) ↦
              let (its, named) = v.forth key x old in
              let other = lookup_apart fd x.target_fd key t fresh its in
              (lookup-insert_ne fd x.target_fd k t other ∙ its, named)
        ];
        back = λ d key h. elim (lookup-insert_cases fd d k key t h) [
          | inl (hit, same) ↦ (
            session,
            ap (λ q. lookup q (insert k session m)) (sym same) ∙ lookup-insert_self k session m,
            hit,
          )
          | inr (miss, old) ↦
              let (x, its, owns) = v.back d key old in
              (x, lookup-insert_ne k key session m (lookup_apart k key x m absent its) ∙ its, owns)
        ];
        distinct = Distinct-insert fd k t v.distinct;
      }

  -- One key has one session, which has one descriptor.
  apart_key :
      {m : List (Bytes × Session)} {t : List (ℕ × Bytes)}
      → InvOf m t
      → (fd d : ℕ) (key k : Bytes) → lookup fd t ≡ some key
      → lookup d t ≡ some k
      → (fd == d) ≡ false
      → equal key k ≡ false
  apart_key v fd d key k h l ne =
      let (x, its, owns) = v.back fd key h in
      let (y, its', owns') = v.back d k l in ground (arith, equal_iff key k)

  pub InvOf-erase :
      (m : List (Bytes × Session)) (t : List (ℕ × Bytes)) (fd : ℕ) (key : Bytes)
      → lookup fd t ≡ some key
      → InvOf m t
      → InvOf (erase key m) (erase fd t)
  InvOf-erase m t fd key here v = record {
    forth = λ k x h.
        let (miss, old) = lookup-erase-some key k x m h in
        let (its, named) = v.forth k x old in
        (
          lookup-erase_ne fd x.target_fd t (apart_fd fd x.target_fd key k t here its miss) ∙ its,
          named,
        );
    back = λ d k h.
        let (miss, old) = lookup-erase-some fd d k t h in
        let (x, its, owns) = v.back d k old in
        (x, lookup-erase_ne key k m (apart_key v fd d key k here old miss) ∙ its, owns);
    distinct = unfold erase in Distinct-retain _ t v.distinct;
  }

  pub InvOf-touch :
      (m : List (Bytes × Session)) (t : List (ℕ × Bytes)) (key : Bytes) (session : Session)
      (now : ℕ)
      → lookup key m ≡ some session
      → InvOf m t
      → InvOf (insert key (record session { last_activity = now }) m) t
  InvOf-touch m t key session now here v = record {
    forth = λ k x h.
        elim (lookup-insert_cases key k (record session { last_activity = now }) x m h) [
          | inl (hit, same) ↦
              let (its, named) = v.forth key session here in
              (
                ap (λ (y : Session). lookup y.target_fd t) (sym same) ∙ its ∙ ap some hit,
                ap (λ (y : Session). addr_to_key inet y.client_addr) (sym same) ∙ named ∙ hit,
              )
          | inr (miss, old) ↦ v.forth k x old
        ];
    back = λ d k h.
        let (x, its, owns) = v.back d k h in
        elim (Bool-cases (equal key k)) [
          | inl hit ↦
              let k_is : key ≡ k = (equal_iff key k).0 hit in
              let same : session ≡ x = some-inj (sym here ∙ ap (λ q. lookup q m) k_is ∙ its) in
              (
                record session { last_activity = now },
                ap (λ q. lookup q (insert key (record session { last_activity = now }) m))
                      (sym k_is)
                    ∙ lookup-insert_self key (record session { last_activity = now }) m,
                ap (λ (y : Session). y.target_fd) same ∙ owns,
              )
          | inr miss ↦ (
            x,
            lookup-insert_ne key k (record session { last_activity = now }) m miss ∙ its,
            owns,
          )
        ];
    distinct = v.distinct;
  }
