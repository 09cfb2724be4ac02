-- ===== src/Base/Maps.antt =====
-- std::unordered_map as an association list, over a key type with an equality test. `insert` is
-- `m[k] = v`; `erase` takes every entry of the key out.
use tunnel_proxy.Base.Tests.{◌==◌, ==_iff, if◌then◌else◌, Bool-cases, some-inj}
use tunnel_proxy.Base.Text.{Bytes, equal, equal_iff}
use Prim.Native.Nat.{ℕ, suc}
use tunnel_proxy.Base.Lists.{length}
use mathlib.Core.Bool.{Bool, true, false, not}
use mathlib.Core.List.{List, [], ◌∷◌}
use mathlib.Core.Logic.{◌↔◌, ◌⊎◌, inl, inr}
use mathlib.Core.Option.{Option, none, some}
use mathlib.Core.Path.{◌≡◌, refl, sym, ap, ◌∙◌, subst, subst₂}
use native.Mathlib.Omega.{arith}

pub record Key {ℓ} (K : Type ℓ) : Type ℓ where
  pub same : K → K → Bool
  pub same_iff : (a b : K) → (same a b ≡ true) ↔ (a ≡ b)

instance abbrev pub ℕ_key : Key ℕ
ℕ_key = record { same = ◌==◌; same_iff = ==_iff }

instance abbrev pub Bytes_key : Key Bytes
Bytes_key = record { same = equal; same_iff = equal_iff }

module _ {K V : Type 0} ⦃e : Key K⦄ where
  unfoldable pub lookup : K → List (K × V) → Option V
  lookup k [] = none
  lookup k ((j, v) ∷ m) = if e.same j k then some v else lookup k m

  unfoldable pub insert : K → V → List (K × V) → List (K × V)
  insert k v [] = (k, v) ∷ []
  insert k v ((j, w) ∷ m) = if e.same j k then (k, v) ∷ m else (j, w) ∷ insert k v m

  -- The entries that the test keeps.
  unfoldable pub retain : (K → V → Bool) → List (K × V) → List (K × V)
  retain keep [] = []
  retain keep ((j, v) ∷ m) = if keep j v then (j, v) ∷ retain keep m else retain keep m

  unfoldable pub erase : K → List (K × V) → List (K × V)
  unfolding retain
  erase k = retain (λ j v. not (e.same j k))

  pub lookup-insert :
      (new asked : K) (v : V) (m : List (K × V))
      → lookup asked (insert new v m) ≡ (if e.same new asked then some v else lookup asked m)
  unfolding lookup insert
  lookup-insert new asked v [] = refl
  lookup-insert new asked v ((old, w) ∷ rest) = ground (
    arith,
    lookup-insert new asked v rest,
    e.same_iff new asked,
    e.same_iff old new,
    e.same_iff old asked,
  )

  pub lookup-erase :
      (k j : K) (m : List (K × V))
      → lookup j (erase k m) ≡ (if e.same k j then none else lookup j m)
  unfolding lookup erase
  lookup-erase k j [] = ground arith
  lookup-erase k j ((i, w) ∷ m) =
      ground (arith, e.same_iff k j, e.same_iff i k, e.same_iff i j, lookup-erase k j m)

  pub lookup-insert_self : (k : K) (v : V) (m : List (K × V)) → lookup k (insert k v m) ≡ some v
  lookup-insert_self k v m = ground (arith, lookup-insert k k v m, (e.same_iff k k).1 refl)

  pub lookup-erase_self : (k : K) (m : List (K × V)) → lookup k (erase k m) ≡ none
  lookup-erase_self k m = ground (arith, lookup-erase k k m, (e.same_iff k k).1 refl)

  pub lookup-insert_ne :
      (k j : K) (v : V) (m : List (K × V))
      → e.same k j ≡ false
      → lookup j (insert k v m) ≡ lookup j m
  lookup-insert_ne k j v m miss = ground (arith, lookup-insert k j v m)

  pub lookup-erase_ne :
      (k j : K) (m : List (K × V)) → e.same k j ≡ false → lookup j (erase k m) ≡ lookup j m
  lookup-erase_ne k j m miss = ground (arith, lookup-erase k j m)

  -- What is found after `insert` was put in or was there.
  pub lookup-insert_cases :
      (k j : K) (v w : V) (m : List (K × V))
      → lookup j (insert k v m) ≡ some w
      → ((k ≡ j) × (v ≡ w)) ⊎ ((e.same k j ≡ false) × (lookup j m ≡ some w))
  lookup-insert_cases k j v w m h = elim (Bool-cases (e.same k j)) [
    | inl hit ↦ inl ((e.same_iff k j).0 hit, some-inj (sym (rw hit at (lookup-insert k j v m)) ∙ h))
    | inr miss ↦ inr (miss, sym (lookup-insert_ne k j v m miss) ∙ h)
  ]

  pub erase-erase : (k j : K) (m : List (K × V)) → erase k (erase j m) ≡ erase j (erase k m)
  unfolding erase
  erase-erase k j [] = refl
  erase-erase k j ((i, w) ∷ m) = ground (arith, erase-erase k j m)

  -- What is found after `erase` was there, under another key.
  pub lookup-erase-some :
      (k j : K) (w : V) (m : List (K × V))
      → lookup j (erase k m) ≡ some w
      → (e.same k j ≡ false) × (lookup j m ≡ some w)
  lookup-erase-some k j w m h = elim (Bool-cases (e.same k j)) [
    | inl hit ↦ absurd (ground (arith, lookup-erase k j m))
    | inr miss ↦ (miss, sym (lookup-erase_ne k j m miss) ∙ h)
  ]

  -- A key under which something else is found is another key.
  pub lookup_apart :
      (k j : K) (w : V) (m : List (K × V))
      → lookup k m ≡ none
      → lookup j m ≡ some w
      → e.same k j ≡ false
  lookup_apart k j w m h l = ground (arith, e.same_iff k j)

  -- `P` holds of every entry.
  abbrev pub Every : (K → V → Type 0) → List (K × V) → Type 0
  Every P [] = Unit {0}
  Every P ((j, v) ∷ m) = P j v × Every P m

  module _ (P : K → V → Type 0) where
    pub Every-insert :
        (k : K) (v : V) (m : List (K × V)) → P k v → Every P m → Every P (insert k v m)
    unfolding insert
    Every-insert k v [] p h = (p, tt)
    Every-insert k v ((j, w) ∷ m) p h = ground (arith, Every-insert k v m p h.1, p, h.0, h.1)

    pub Every-retain :
        (keep : K → V → Bool) (m : List (K × V)) → Every P m → Every P (retain keep m)
    unfolding retain
    Every-retain keep [] h = tt
    Every-retain keep ((j, w) ∷ m) h = ground (arith, Every-retain keep m h.1, h.0)

    pub Every-lookup : (k : K) (m : List (K × V)) (v : V) → Every P m → lookup k m ≡ some v → P k v
    unfolding lookup
    Every-lookup k [] v h l = cc
    Every-lookup k ((j, w) ∷ m) v h l = elim (Bool-cases (e.same j k)) [
      | inl hit ↦
          let here : w ≡ v = some-inj (rw hit at l) in subst₂ P ((e.same_iff j k).0 hit) here h.0
      | inr miss ↦ Every-lookup k m v h.1 (rw miss at l)
    ]

  pub Every-map :
      (P Q : K → V → Type 0) (m : List (K × V))
      → ((k : K) (v : V) → P k v → Q k v)
      → Every P m
      → Every Q m
  Every-map P Q [] f h = tt
  Every-map P Q ((j, v) ∷ m) f h = (f j v h.0, Every-map P Q m f h.1)

  -- What `retain` keeps passed its test.
  pub Every-kept :
      (P : K → V → Type 0) (keep : K → V → Bool) (m : List (K × V))
      → Every P m
      → Every (λ k v. P k v × (keep k v ≡ true)) (retain keep m)
  unfolding retain
  Every-kept P keep [] h = tt
  Every-kept P keep ((j, v) ∷ m) h = elim (Bool-cases (keep j v)) [
    | inl kept ↦ rw kept ((h.0, kept), Every-kept P keep m h.1)
    | inr dropped ↦ rw dropped (Every-kept P keep m h.1)
  ]

  -- `retain` looks at one entry at a time.
  pub lookup-retain :
      (keep : K → V → Bool) (k : K) (v : V) (m : List (K × V))
      → lookup k m ≡ some v
      → keep k v ≡ true
      → lookup k (retain keep m) ≡ some v
  unfolding lookup retain
  lookup-retain keep k v [] h t = h
  lookup-retain keep k v ((j, w) ∷ m) h t = elim (Bool-cases (e.same j k)) [
    | inl hit ↦
        let same_key : j ≡ k = (e.same_iff j k).0 hit in
        let same_value : w ≡ v = some-inj (rw hit at h) in
        let kept : keep j w ≡ true = rw (same_key, same_value) t in
        rw kept (rw hit (ap some same_value))
    | inr miss ↦ let ih = lookup-retain keep k v m (rw miss at h) t in ground (arith, ih, miss)
  ]

  -- No key stands twice.
  abbrev pub Distinct : List (K × V) → Type 0
  Distinct [] = Unit {0}
  Distinct ((k, v) ∷ m) = (lookup k m ≡ none) × Distinct m

  pub Distinct-insert : (k : K) (v : V) (m : List (K × V)) → Distinct m → Distinct (insert k v m)
  unfolding insert lookup
  Distinct-insert k v [] h = (refl, tt)
  Distinct-insert k v ((j, w) ∷ m) h = elim (Bool-cases (e.same j k)) [
    | inl hit ↦ let same_key : j ≡ k = (e.same_iff j k).0 hit in rw hit (ground arith, h.1)
    | inr miss ↦ rw miss (
      ground (arith, lookup-insert k j v m, e.same_iff j k, e.same_iff k j),
      Distinct-insert k v m h.1,
    )
  ]

  lookup-retain-none :
      (keep : K → V → Bool) (k : K) (m : List (K × V))
      → lookup k m ≡ none
      → lookup k (retain keep m) ≡ none
  unfolding lookup retain
  lookup-retain-none keep k [] h = refl
  lookup-retain-none keep k ((j, w) ∷ m) h = ground (arith, lookup-retain-none keep k m)

  pub Distinct-retain :
      (keep : K → V → Bool) (m : List (K × V)) → Distinct m → Distinct (retain keep m)
  unfolding retain
  Distinct-retain keep [] h = tt
  Distinct-retain keep ((j, w) ∷ m) h =
      ground (arith, lookup-retain-none keep j m h.0, Distinct-retain keep m h.1)

  pub length-insert :
      (k : K) (v : V) (m : List (K × V))
      → lookup k m ≡ none
      → length (insert k v m) ≡ suc (length m)
  unfolding lookup insert
  length-insert k v [] h = refl
  length-insert k v ((j, w) ∷ m) h = ground (arith, length-insert k v m)

  length-erase-none : (k : K) (m : List (K × V)) → lookup k m ≡ none → length (erase k m) ≡ length m
  unfolding lookup erase
  length-erase-none k [] h = refl
  length-erase-none k ((j, w) ∷ m) h = ground (arith, length-erase-none k m)

  pub length-erase :
      (k : K) (v : V) (m : List (K × V))
      → Distinct m
      → lookup k m ≡ some v
      → suc (length (erase k m)) ≡ length m
  unfolding lookup erase
  length-erase k v [] d h = absurd (ground arith)
  length-erase k v ((j, w) ∷ m) d h = elim (Bool-cases (e.same j k)) [
    | inl hit ↦
        let absent : lookup k m ≡ none =
          subst (λ i. lookup i m ≡ none) ((e.same_iff j k).0 hit) d.0 in
        rw hit (ap suc (length-erase-none k m absent))
    | inr miss ↦ rw miss (ap suc (length-erase k v m d.1 (rw miss at h)))
  ]
