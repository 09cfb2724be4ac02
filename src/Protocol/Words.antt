-- ===== src/Protocol/Words.antt =====
-- Big-endian words: what `htonl` and `htons` write, `ntohl` and `ntohs` read back, and the buffer
-- seen as its first sixteen bytes.
use tunnel_proxy.Base.{
  ℕ, zero, suc, ◌+◌, ◌*◌, ◌^◌, ◌≤◌, ◌<◌, ◌≡◌, refl, sym, ap, ap₂, ◌∙◌, [], ◌∷◌, arith, length, take,
  Bytes, IsBytes,
}
use tunnel_proxy.Protocol.{be32, be16, at, read32, read16}

abbrev word32 : ℕ → ℕ → ℕ → ℕ → ℕ
word32 a b c d = a * 2 ^ 24 + b * 2 ^ 16 + c * 2 ^ 8 + d

cons4 :
    {a b c d a' b' c' d' : ℕ}
    → a ≡ a'
    → b ≡ b'
    → c ≡ c'
    → d ≡ d'
    → a ∷ b ∷ c ∷ d ∷ [] ≡ a' ∷ b' ∷ c' ∷ d' ∷ []
cons4 p q r s = λ i. p i ∷ q i ∷ r i ∷ s i ∷ []

be16-word16 : (a b : ℕ) → a < 256 → b < 256 → be16 (a * 2 ^ 8 + b) ≡ a ∷ b ∷ []
unfolding be16
be16-word16 a b ha hb = ap₂ (λ x y. x ∷ y ∷ []) (omega arith) (omega arith)

be32-word32 :
    (a b c d : ℕ)
    → a < 256
    → b < 256
    → c < 256
    → d < 256
    → be32 (word32 a b c d) ≡ a ∷ b ∷ c ∷ d ∷ []
unfolding be32
be32-word32 a b c d ha hb hc hd = cons4 (omega arith) (omega arith) (omega arith) (omega arith)

at-lt : (buf : Bytes) (i : ℕ) → IsBytes buf → at buf i < 256
at-lt [] i h = omega arith
at-lt (b ∷ buf) zero h = h.0
at-lt (b ∷ buf) (suc i) h = at-lt buf i h.1

pub be32-read32 :
    (buf : Bytes) (i : ℕ)
    → IsBytes buf
    → be32 (read32 buf i) ≡ at buf i ∷ at buf (i + 1) ∷ at buf (i + 2) ∷ at buf (i + 3) ∷ []
unfolding read32
be32-read32 buf i h =
    be32-word32 _ _ _ _ (at-lt buf i h) (at-lt buf (i + 1) h) (at-lt buf (i + 2) h)
      (at-lt buf (i + 3) h)

pub be16-read16 :
    (buf : Bytes) (i : ℕ) → IsBytes buf → be16 (read16 buf i) ≡ at buf i ∷ at buf (i + 1) ∷ []
unfolding read16
be16-read16 buf i h = be16-word16 _ _ (at-lt buf i h) (at-lt buf (i + 1) h)

-- `n` bytes from offset `i`, one read at a time.
abbrev pub window : ℕ → ℕ → Bytes → Bytes
window zero i buf = []
window (suc n) i buf = at buf i ∷ window n (suc i) buf

window-cons : (n i b : ℕ) (buf : Bytes) → window n (suc i) (b ∷ buf) ≡ window n i buf
window-cons zero i b buf = refl
window-cons (suc n) i b buf = ap (◌∷◌ (at buf i)) (window-cons n (suc i) b buf)

pub take-window : (n : ℕ) (buf : Bytes) → n ≤ length buf → take n buf ≡ window n 0 buf
take-window zero buf h = refl
take-window (suc n) [] h = absurd (omega arith)
take-window (suc n) (b ∷ buf) h =
    ap (◌∷◌ b) (take-window n buf (omega arith) ∙ sym (window-cons n 0 b buf))
