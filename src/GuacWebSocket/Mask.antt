-- ===== src/GuacWebSocket/Mask.antt =====
-- The masking of src/guac_websocket.cpp undone.
use Prim.Native.Nat.{bit_xor}
use tunnel_proxy.Base.{
  false, inl, inr, Bool-cases, if◌then◌else◌, ℕ, zero, suc, ◌+◌, ◌%◌, ◌<◌, ◌≡◌, refl, ap, ap₂, ◌∙◌,
  Bool, true, [], ◌∷◌, arith, ◌==◌, ==_iff, length, get_or, Bytes, IsBytes,
}
use tunnel_proxy.GuacWebSocket.{apply_mask}

-- The key of a masked frame.
pub record Key : Type 0 where
  pub k0 : ℕ
  pub k1 : ℕ
  pub k2 : ℕ
  pub k3 : ℕ

abbrev pub key_bytes : Key → Bytes
key_bytes k = k.k0 ∷ k.k1 ∷ k.k2 ∷ k.k3 ∷ []

-- The four bytes of a key are taken in turn: the key rotates.
abbrev rotated : Key → Key
rotated k = record { k0 = k.k1; k1 = k.k2; k2 = k.k3; k3 = k.k0 }

abbrev pub veil : Key → Bytes → Bytes
veil k [] = []
veil k (c ∷ cs) = bit_xor c k.k0 ∷ veil (rotated k) cs

pub length-veil : (k : Key) (text : Bytes) → length (veil k text) ≡ length text
length-veil k [] = refl
length-veil k (c ∷ cs) = ap suc (length-veil (rotated k) cs)

-- A test on all numbers under a bound.
passes : (test : ℕ → Bool) (bound : ℕ) → Bool
passes test zero = true
passes test (suc b) = let under = passes test b in if test b then under else false

passes-lt : (test : ℕ → Bool) (bound v : ℕ) → v < bound → passes test bound ≡ true → test v ≡ true
unfolding passes
passes-lt test zero v small good = absurd (omega arith)
passes-lt test (suc b) v small good = elim (Bool-cases (v == b)) [
  | inl top ↦ ap test ((==_iff v b).0 top) ∙ ground arith
  | inr lower ↦ passes-lt test b v (ground arith) (ground arith)
]

-- By evaluation, for every byte and every byte of a key.
undone : passes (λ c. passes (λ k. bit_xor (bit_xor c k) k == c) 256) 256 ≡ true
unfolding passes
undone = refl

xor_twice : (c k : ℕ) → c < 256 → k < 256 → bit_xor (bit_xor c k) k ≡ c
xor_twice c k hc hk = (==_iff (bit_xor (bit_xor c k) k) c).0 (
    passes-lt (λ m. bit_xor (bit_xor c m) m == c) 256 k hk
      (passes-lt (λ d. passes (λ m. bit_xor (bit_xor d m) m == d) 256) 256 c hc undone))

abbrev pub IsKey : Key → Type 0
IsKey k = (k.k0 < 256) × (k.k1 < 256) × (k.k2 < 256) × (k.k3 < 256)

-- `k` is the key `key` as it stands in front of position i.
abbrev Turned : Key → ℕ → Key → Type 0
Turned key i k =
    (get_or (key_bytes key) (i % 4) 0 ≡ k.k0)
    × (get_or (key_bytes key) ((i + 1) % 4) 0 ≡ k.k1)
    × (get_or (key_bytes key) ((i + 2) % 4) 0 ≡ k.k2)
    × (get_or (key_bytes key) ((i + 3) % 4) 0 ≡ k.k3)

Turned-rotated : (key k : Key) (i : ℕ) → Turned key i k → Turned key (i + 1) (rotated k)
Turned-rotated key k i (a, b, c, d) =
    let at : (n m : ℕ) → n ≡ m → get_or (key_bytes key) n 0 ≡ get_or (key_bytes key) m 0 =
      λ n m e. ap (λ j. get_or (key_bytes key) j 0) e in
    (
      b,
      at ((i + 1 + 1) % 4) ((i + 2) % 4) (omega arith) ∙ c,
      at ((i + 1 + 2) % 4) ((i + 3) % 4) (omega arith) ∙ d,
      at ((i + 1 + 3) % 4) (i % 4) (omega arith) ∙ a,
    )

apply_mask-veil :
    (key k : Key) (i : ℕ) (text : Bytes)
    → IsBytes text
    → IsKey k
    → Turned key i k
    → apply_mask (key_bytes key) i (veil k text) ≡ text
unfolding apply_mask
apply_mask-veil key k i [] b v t = refl
apply_mask-veil key k i (c ∷ cs) b v t =
    ap₂ (λ x xs. x ∷ xs) (ap (bit_xor (bit_xor c k.k0)) t.0 ∙ xor_twice c k.k0 b.0 v.0)
      (apply_mask-veil key (rotated k) (i + 1) cs b.1 (v.1, v.2, v.3, v.0)
        (Turned-rotated key k i t))

veil-from :
    (key k : Key) (i : ℕ) (text : Bytes)
    → Turned key i k
    → apply_mask (key_bytes key) i text ≡ veil k text
unfolding apply_mask
veil-from key k i [] t = refl
veil-from key k i (c ∷ cs) t =
    ap₂ (λ x xs. x ∷ xs) (ap (bit_xor c) t.0)
      (veil-from key (rotated k) (i + 1) cs (Turned-rotated key k i t))

-- Masking is by the same function.
pub apply_mask-veiled :
    (key : Key) (text : Bytes) → apply_mask (key_bytes key) 0 text ≡ veil key text
apply_mask-veiled key text = veil-from key key 0 text (refl, refl, refl, refl)

pub unveiled :
    (key : Key) (text : Bytes)
    → IsBytes text
    → IsKey key
    → apply_mask (key_bytes key) 0 (veil key text) ≡ text
unveiled key text b v = apply_mask-veil key key 0 text b v (refl, refl, refl, refl)
