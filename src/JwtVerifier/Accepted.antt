-- ===== src/JwtVerifier/Accepted.antt =====
-- Which tokens the verifier of src/jwt_verifier.cpp is to accept, by what stands in them.
use tunnel_proxy.Base.{
  ℕ, ◌+◌, ◌%◌, ◌^◌, ◌≤◌, ◌≡◌, ◌≢◌, ◌⊎◌, true, false, [], ◌∷◌, ◌++◌, All, map, none, some, ◌==◌,
  if◌then◌else◌, length, Bytes, codes,
}
use tunnel_proxy.JwtVerifier.{OpenSsl, JwtVerifier, Claims, Algorithm, hs256, rs256}
use tunnel_proxy.Json.{Json}

abbrev pub NoDot : Bytes → Type 0
NoDot [] = Unit {0}
NoDot (c ∷ cs) = ((c == b'.') ≡ false) × NoDot cs

-- The letters of base64url for those of base64, and back.
abbrev pub to_url : ℕ → ℕ
to_url c = if c == b'+' then b'-' else if c == b'/' then b'_' else c

abbrev pub from_url : ℕ → ℕ
from_url c = if c == b'-' then b'+' else if c == b'_' then b'/' else c

-- The padding of a text of this length.
abbrev pub pad_of : ℕ → Bytes
pad_of n = if n % 4 == 2 then codes "==" else if n % 4 == 3 then codes "=" else []

abbrev pub AllPad : Bytes → Type 0
AllPad pad = All (λ c. c ≡ b'=') pad

abbrev pub NoPadEnd : Bytes → Type 0
NoPadEnd [] = Unit {0}
NoPadEnd (c ∷ []) = c ≢ b'='
NoPadEnd (c ∷ d ∷ ds) = NoPadEnd (d ∷ ds)

-- The time claim: 0 for none, or a signed 64-bit time that has not passed.
abbrev pub IsLive : ℕ → Claims → Type 0
IsLive now claims =
    (claims.expires ≡ 0) ⊎ ((now + 2 ^ 63) % 2 ^ 64 ≤ (claims.expires + 2 ^ 63) % 2 ^ 64)

abbrev pub alg_text : Algorithm → Bytes
alg_text hs256 = codes "HS256"
alg_text rs256 = codes "RS256"

module _ (ssl : OpenSsl) (json : Json) where
  abbrev pub Decodes : Bytes → Bytes → Type 0
  Decodes text bytes = ssl.base64_decode (map from_url text ++ pad_of (length text)) ≡ some bytes

  -- The text is the base64url of the bytes, without padding.
  abbrev pub Encodes : Bytes → Bytes → Type 0
  Encodes [] text = text ≡ []
  Encodes (b ∷ bs) text =
      (pad : Bytes) × (map to_url (ssl.base64_encode (b ∷ bs)) ≡ text ++ pad)
      × AllPad pad
      × NoPadEnd text

  -- A member that is a string, or the default where there is none.
  abbrev pub HasText : json.Value → Bytes → Bytes → Type 0
  HasText j key t =
      ((v : json.Value) × (json.member j key ≡ some v) × (json.string v ≡ some t))
      ⊎ ((t ≡ []) × ((v : json.Value) → json.member j key ≡ some v → json.string v ≡ none))

  abbrev pub HasNumber : json.Value → Bytes → ℕ → Type 0
  HasNumber j key n =
      ((v : json.Value) × (json.member j key ≡ some v) × (json.number v ≡ some n))
      ⊎ ((n ≡ 0) × ((v : json.Value) → json.member j key ≡ some v → json.number v ≡ none))

  -- The header is JSON whose "alg" is the verifier's algorithm.
  abbrev pub GoodHeader : JwtVerifier → Bytes → Type 0
  GoodHeader v header =
      (bytes : Bytes) × (j : json.Value) × (a : json.Value) × Decodes header bytes
      × (json.parse bytes ≡ some j)
      × (json.member j (codes "alg") ≡ some a)
      × (json.string a ≡ some (alg_text v.alg))

  -- The signature of the message: the HMAC, or one that the public key verifies.
  abbrev pub SignedBy : Algorithm → Bytes → Bytes → Bytes → Type 0
  SignedBy hs256 key_data message sig = Encodes (ssl.hmac_sha256 key_data message) sig
  SignedBy rs256 key_data message sig =
      (key : ssl.Key) × (bytes : Bytes) × (ssl.read_public_key key_data ≡ some key)
      × Decodes sig bytes
      × (ssl.digest_verify key message bytes ≡ true)

  -- The payload is JSON that states the claims.
  abbrev pub States : Bytes → Claims → Type 0
  States payload claims =
      (j : json.Value) × Decodes payload claims.raw_payload
      × (json.parse claims.raw_payload ≡ some j)
      × HasText j (codes "sub") claims.subject
      × HasText j (codes "iss") claims.issuer
      × HasNumber j (codes "iat") claims.issued_at
      × HasNumber j (codes "exp") claims.expires

  -- What is accepted at a time: a header, a payload and a signature with dots between them, where
  -- the signature is good for the header and payload as they stand in the token.
  abbrev pub Accepted : JwtVerifier → ℕ → Bytes → Claims → Type 0
  Accepted v now token claims =
      (header : Bytes) × (payload : Bytes) × (sig : Bytes) × (token
        ≡ header ++ (b'.' ∷ (payload ++ (b'.' ∷ sig))))
      × NoDot header
      × NoDot payload
      × GoodHeader v header
      × SignedBy v.alg v.key_data (header ++ (b'.' ∷ payload)) sig
      × States payload claims
      × IsLive now claims
