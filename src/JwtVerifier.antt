-- ===== src/JwtVerifier.antt =====
-- include/core/jwt_verifier.h and src/jwt_verifier.cpp: the check of a token. A token is a list
-- of bytes; an `int64_t` is its 64-bit pattern; the present time is an argument.
pub mod Accepted
pub mod Checks
pub mod Verify
use tunnel_proxy.Base.{
  ℕ, ◌+◌, ◌-◌, ◌*◌, ◌%◌, ◌^◌, ◌≡◌, Bool, true, false, not, ◌&&◌, ◌||◌, List, [], ◌∷◌, ◌++◌, map,
  Option, none, some, ◌==◌, ltb, if◌then◌else◌, length, take, drop, Bytes, codes, equal, Outcome,
  ok, throw, throw_if, ◌>>=◌,
}
use tunnel_proxy.Json.{Json}

pub data Algorithm : Type 0 where
  hs256 rs256 : Algorithm

pub record JwtVerifier : Type 0 where
  pub alg : Algorithm
  pub key_data : Bytes

pub record Claims : Type 0 where
  pub subject : Bytes
  pub issuer : Bytes
  pub issued_at : ℕ
  pub expires : ℕ
  pub raw_payload : Bytes

pub data Error : Type 0 where
  invalid_base64 missing_first_dot missing_second_dot header_not_json missing_alg
        algorithm_mismatch :
      Error
  signature_mismatch no_public_key verification_failed payload_not_json token_expired invalid_pem :
      Error

-- OpenSSL: base64 without line breaks, HMAC-SHA256, public keys in PEM, and the check of an
-- RSA-SHA256 signature (`true` where all three calls give 1).
pub record OpenSsl : Type 1 where
  pub Key : Type 0
  pub base64_encode : Bytes → Bytes
  -- `none` where `BIO_read` gives a negative number.
  pub base64_decode : Bytes → Option Bytes
  pub hmac_sha256 : Bytes → Bytes → Bytes
  pub read_public_key : Bytes → Option Key
  pub digest_verify : Key → Bytes → Bytes → Bool

-- `int64_t` comparison of two 64-bit patterns.
abbrev pub signed_gt : ℕ → ℕ → Bool
signed_gt a b = ltb ((b + 2 ^ 63) % 2 ^ 64) ((a + 2 ^ 63) % 2 ^ 64)

unfoldable pub is_expired : ℕ → Claims → Bool
is_expired now claims = if claims.expires == 0 then false else signed_gt now claims.expires

abbrev pub swap : ℕ → ℕ → ℕ → ℕ → ℕ → ℕ
swap a b a' b' c = if c == a then a' else if c == b then b' else c

-- `while (back() == '=') pop_back()`
unfoldable pub strip_padding : Bytes → Bytes
strip_padding [] = []
strip_padding (c ∷ cs) = elim (strip_padding cs) [
  | [] ↦ if c == b'=' then [] else c ∷ []
  | d ∷ ds ↦ c ∷ d ∷ ds
]

unfoldable pub padding : ℕ → Bytes
padding n = if n % 4 == 2 then codes "==" else if n % 4 == 3 then codes "=" else []

-- `token.find('.')`: what stands before the first dot and what stands behind it.
unfoldable pub split_dot : Bytes → Option (Bytes × Bytes)
split_dot [] = none
split_dot (c ∷ cs) =
    let rest = split_dot cs in
    if c == b'.' then some ([], cs) else elim rest [ none ↦ none | some p ↦ some (c ∷ p.0, p.1) ]

abbrev pub need {ℓ} : {A : Type ℓ} → Error → Option A → Outcome Error A
need e none = throw e
need e (some a) = ok a

unfoldable pub extract_bearer_token : Bytes → Bytes
extract_bearer_token auth_header =
    let prefix = codes "Bearer " in
    if not (ltb (length prefix) (length auth_header))
    then []
    else if not (equal (take (length prefix) auth_header) prefix)
    then []
    else drop (length prefix) auth_header

abbrev alg_name : Algorithm → Bytes
alg_name hs256 = codes "HS256"
alg_name rs256 = codes "RS256"

unfoldable pub create_hs256 : Bytes → JwtVerifier
create_hs256 secret = record { alg = hs256; key_data = secret }

module _ (ssl : OpenSsl) where
  unfoldable pub base64url_encode : Bytes → Bytes
  unfolding strip_padding
  base64url_encode [] = []
  base64url_encode (c ∷ cs) =
      strip_padding (map (swap b'+' b'/' b'-' b'_') (ssl.base64_encode (c ∷ cs)))

  unfoldable pub base64url_decode : Bytes → Outcome Error Bytes
  unfolding padding
  base64url_decode encoded =
      need invalid_base64
        (ssl.base64_decode (map (swap b'-' b'_' b'+' b'/') encoded ++ padding (length encoded)))

  unfoldable pub create_rs256 : Bytes → Outcome Error JwtVerifier
  create_rs256 pem = elim (ssl.read_public_key pem) [
    | none ↦ throw invalid_pem
    | some key ↦ ok (record { alg = rs256; key_data = pem })
  ]

  unfoldable pub verify_hs256 : Bytes → Bytes → Bytes → Outcome Error (Unit {0})
  unfolding base64url_encode
  verify_hs256 key_data message sig_b64 =
      if equal (base64url_encode (ssl.hmac_sha256 key_data message)) sig_b64
      then ok tt
      else throw signature_mismatch

  unfoldable pub verify_rs256 : Bytes → Bytes → Bytes → Outcome Error (Unit {0})
  unfolding base64url_decode
  verify_rs256 key_data message sig_b64 = do
    key ← need no_public_key (ssl.read_public_key key_data)
    sig ← base64url_decode sig_b64
    if ssl.digest_verify key message sig then ok tt else throw verification_failed

  unfoldable pub verify_signature : JwtVerifier → Bytes → Bytes → Outcome Error (Unit {0})
  unfolding verify_hs256 verify_rs256
  verify_signature v message sig_b64 = elim v.alg [
    | hs256 ↦ verify_hs256 v.key_data message sig_b64
    | rs256 ↦ verify_rs256 v.key_data message sig_b64
  ]

  module _ (json : Json) where
    -- A member that is a string, or a number, and the default where it is not.
    pub text_or_empty : json.Value → Bytes → Bytes
    text_or_empty j key = elim (json.member j key) [
      | none ↦ []
      | some v ↦ elim (json.string v) [ none ↦ [] | some t ↦ t ]
    ]

    pub number_or_zero : json.Value → Bytes → ℕ
    number_or_zero j key = elim (json.member j key) [
      | none ↦ 0
      | some v ↦ elim (json.number v) [ none ↦ 0 | some n ↦ n ]
    ]

    unfoldable pub parse_claims : Bytes → Outcome Error Claims
    unfolding text_or_empty number_or_zero
    parse_claims payload_b64 = do
      bytes ← base64url_decode payload_b64
      j ← need payload_not_json (json.parse bytes)
      ok (record {
        subject = text_or_empty j (codes "sub");
        issuer = text_or_empty j (codes "iss");
        issued_at = number_or_zero j (codes "iat");
        expires = number_or_zero j (codes "exp");
        raw_payload = bytes;
      })

    -- The `alg` of the header has to be the verifier's.
    unfoldable pub check_alg : JwtVerifier → Bytes → Outcome Error (Unit {0})
    check_alg v header_b64 = do
      bytes ← base64url_decode header_b64
      header ← need header_not_json (json.parse bytes)
      alg_str ←
          need missing_alg
            (elim (json.member header (codes "alg")) [ none ↦ none | some a ↦ json.string a ])
      if equal alg_str (alg_name v.alg) then ok tt else throw algorithm_mismatch

    unfoldable pub verify : JwtVerifier → ℕ → Bytes → Outcome Error Claims
    unfolding split_dot
    verify v now token = do
      first ← need missing_first_dot (split_dot token)
      second ← need missing_second_dot (split_dot first.1)
      unit₁ ← check_alg v first.0
      unit₂ ← verify_signature v (first.0 ++ (b'.' ∷ second.0)) second.1
      claims ← parse_claims second.0
      if is_expired now claims then throw token_expired else ok claims
