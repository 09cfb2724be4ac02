-- ===== src/Base/Pairs.antt =====
-- A table of connections in pairs: each of the two descriptors names the other as its peer.
use Prim.Native.Nat.{ℕ}
use mathlib.Core.Bool.{false}
use mathlib.Core.List.{List}
use mathlib.Core.Logic.{inl, inr}
use mathlib.Core.Option.{none, some}
use mathlib.Core.Path.{◌≡◌, sym, ap, ◌∙◌, subst, subst₂}
use native.Mathlib.Omega.{arith}
use tunnel_proxy.Base.Tests.{◌==◌, ==_iff, some-inj, Bool-cases}
use tunnel_proxy.Base.Maps.{
  ℕ_key, lookup, insert, erase, lookup-insert_self, lookup-insert_ne, lookup-erase_ne,
  lookup-insert_cases, lookup-erase-some, lookup_apart, Distinct, Distinct-insert, Distinct-retain,
}

apart : (a b : ℕ) → (a == b) ≡ false → (b == a) ≡ false
apart a b h = ground (arith, ==_iff b a, ==_iff a b)

module _ {V : Type 0} (peer : V → ℕ) (Opposite : V → V → Type 0) where
  -- The entry of the peer points back, and is of the other side.
  abbrev pub Peered : List (ℕ × V) → ℕ → V → Type 0
  Peered m fd c =
      (d : V) × (lookup (peer c) m ≡ some d)
      × (peer d ≡ fd)
      × Opposite c d
      × ((fd == peer c) ≡ false)

  -- Every entry has its counterpart, and no descriptor stands twice.
  pub record Paired (m : List (ℕ × V)) : Type 0 where
    pub peers : (fd : ℕ) (c : V) → lookup fd m ≡ some c → Peered m fd c
    pub distinct : Distinct m

  -- Entries with different peers stand under different descriptors.
  apart_held :
      (x y : ℕ) (a b : V) (m : List (ℕ × V))
      → lookup x m ≡ some a
      → lookup y m ≡ some b
      → (peer a == peer b) ≡ false
      → (x == y) ≡ false
  apart_held x y a b m h l ne = ground (arith, ==_iff x y, ==_iff (peer a) (peer b))

  pub Paired-both :
      (x y : ℕ) (c d : V) (m : List (ℕ × V))
      → (peer c ≡ y) × (peer d ≡ x) × Opposite c d × Opposite d c
      → lookup x m ≡ none
      → lookup y m ≡ none
      → (x == y) ≡ false
      → Paired m
      → Paired (insert y d (insert x c m))
  Paired-both x y c d m (pc, pd, o, o') hx hy ne v =
      let m₁ = insert x c m in
      let m₂ = insert y d m₁ in
      let at_x : lookup x m₂ ≡ some c =
        lookup-insert_ne y x d m₁ (apart x y ne) ∙ lookup-insert_self x c m in
      record {
        peers = λ fd a h. elim (lookup-insert_cases y fd d a m₁ h) [
          | inl (hit, same) ↦ subst₂ (Peered m₂) hit same (
            c,
            ap (λ z. lookup z m₂) pd ∙ at_x,
            pc,
            o',
            subst (λ z. (y == z) ≡ false) (sym pd) (apart x y ne),
          )
          | inr (miss, old) ↦ elim (lookup-insert_cases x fd c a m old) [
            | inl (hit, same) ↦ subst₂ (Peered m₂) hit same (
              d,
              ap (λ z. lookup z m₂) pc ∙ lookup-insert_self y d m₁,
              pd,
              o,
              subst (λ z. (x == z) ≡ false) (sym pc) ne,
            )
            | inr (miss', older) ↦
                let (b, back, points, opp, differs) = v.peers fd a older in
                (
                  b,
                  lookup-insert_ne y (peer a) d m₁ (lookup_apart y (peer a) b m hy back)
                      ∙ lookup-insert_ne x (peer a) c m (lookup_apart x (peer a) b m hx back)
                      ∙ back,
                  points,
                  opp,
                  differs,
                )
          ]
        ];
        distinct = Distinct-insert y d m₁ (Distinct-insert x c m v.distinct);
      }

  pub Paired-erase :
      (fd : ℕ) (c : V) (m : List (ℕ × V))
      → lookup fd m ≡ some c
      → Paired m
      → Paired (erase (peer c) (erase fd m))
  unfolding erase
  Paired-erase fd c m h v = record {
    peers = λ g a l.
        let (not_peer, l₁) = lookup-erase-some (peer c) g a (erase fd m) l in
        let (not_fd, l₂) = lookup-erase-some fd g a m l₁ in
        let (b, back, points, opp, differs) = v.peers g a l₂ in
        let (d, back_fd, points_fd, _, _) = v.peers fd c h in
        let far : (fd == peer a) ≡ false =
          apart_held fd (peer a) c b m h back
            (subst (λ z. (peer c == z) ≡ false) (sym points) not_peer) in
        let far' : (peer c == peer a) ≡ false =
          apart_held (peer c) (peer a) d b m back_fd back
            (subst₂ (λ y z. (y == z) ≡ false) (sym points_fd) (sym points) not_fd) in
        (
          b,
          lookup-erase_ne (peer c) (peer a) (erase fd m) far'
              ∙ lookup-erase_ne fd (peer a) m far
              ∙ back,
          points,
          opp,
          differs,
        );
    distinct = Distinct-retain _ (erase fd m) (Distinct-retain _ m v.distinct);
  }

  -- An entry may change in all but its peer and its side.
  pub Paired-update :
      (fd : ℕ) (c c' : V) (m : List (ℕ × V))
      → lookup fd m ≡ some c
      → peer c' ≡ peer c
      → ((d : V) → Opposite c d → Opposite c' d)
      → ((d : V) → Opposite d c → Opposite d c')
      → Paired m
      → Paired (insert fd c' m)
  Paired-update fd c c' m h p from to v = record {
    peers = λ g a l. elim (lookup-insert_cases fd g c' a m l) [
      | inl (hit, same) ↦
          let (d, back, points, opp, differs) = v.peers fd c h in
          subst₂ (Peered (insert fd c' m)) hit same (
            d,
            ap (λ z. lookup z (insert fd c' m)) p
                ∙ lookup-insert_ne fd (peer c) c' m differs
                ∙ back,
            points,
            from d opp,
            subst (λ z. (fd == z) ≡ false) (sym p) differs,
          )
      | inr (miss, old) ↦
          let (d, back, points, opp, differs) = v.peers g a old in
          elim (Bool-cases (fd == peer a)) [
            | inl hit ↦
                let here : fd ≡ peer a = (==_iff fd (peer a)).0 hit in
                let same : d ≡ c = some-inj (sym back ∙ ap (λ z. lookup z m) (sym here) ∙ h) in
                (
                  c',
                  ap (λ z. lookup z (insert fd c' m)) (sym here) ∙ lookup-insert_self fd c' m,
                  p ∙ ap peer (sym same) ∙ points,
                  to a (subst (Opposite a) same opp),
                  differs,
                )
            | inr away ↦ (d, lookup-insert_ne fd (peer a) c' m away ∙ back, points, opp, differs)
          ]
    ];
    distinct = Distinct-insert fd c' m v.distinct;
  }
