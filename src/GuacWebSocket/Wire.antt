-- ===== src/GuacWebSocket/Wire.antt =====
-- The frame format of RFC 6455, and the lengths of src/guac_websocket.cpp.
use tunnel_proxy.Base.{
  ℕ, zero, suc, ◌+◌, ◌/◌, ◌%◌, ◌^◌, ◌<◌, ◌≡◌, refl, [], ◌∷◌, ◌++◌, Option, none, some, arith, ltb,
  leb, if◌then◌else◌, ◌⊎◌, inl, inr, length, Bytes,
}
use tunnel_proxy.GuacWebSocket.Mask.{Key, key_bytes, veil, IsKey}
use tunnel_proxy.GuacWebSocket.{big_endian}

-- The k lowest bytes of n, the highest of them first.
abbrev pub be_bytes : ℕ → ℕ → Bytes
be_bytes zero n = []
be_bytes (suc k) n = (n / 256 ^ k % 256) ∷ be_bytes k n

-- The length of the payload: 7 bits, or 126 and 16 bits, or 127 and 64 bits.
abbrev pub code : ℕ → ℕ
code n = if ltb n 126 then n else if ltb n 65536 then 126 else 127

abbrev pub extension : ℕ → Bytes
extension n = if ltb n 126 then [] else if ltb n 65536 then be_bytes 2 n else be_bytes 8 n

-- The mask flag, the highest bit of the second byte.
abbrev pub flag : Option Key → ℕ
flag none = 0
flag (some key) = 128

abbrev pub body : Option Key → Bytes → Bytes
body none text = text
body (some key) text = key_bytes key ++ veil key text

-- A frame with the first byte op.
abbrev pub wire : ℕ → Option Key → Bytes → Bytes
wire op key text = op ∷ (flag key + code (length text)) ∷ (extension (length text) ++ body key text)

abbrev pub GoodKey : Option Key → Type 0
GoodKey none = Unit
GoodKey (some key) = IsKey key

flag_cases : (key : Option Key) → (flag key ≡ 0) ⊎ (flag key ≡ 128)
flag_cases none = inl refl
flag_cases (some key) = inr refl

pub announced :
    (key : Option Key) (c : ℕ)
    → c < 128
    → ((flag key + c) % 128 ≡ c) × (leb 128 (flag key + c) ≡ leb 128 (flag key))
announced key c h = (ground (arith, flag_cases key), ground (arith, flag_cases key))

pub big_endian-be8 : (n : ℕ) → n < 2 ^ 64 → big_endian 0 (be_bytes 8 n) ≡ n
big_endian-be8 n h = omega arith
