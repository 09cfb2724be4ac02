-- ===== src/JwtVerifier/Checks.antt =====
-- The single checks of `verify` in src/jwt_verifier.cpp against what they are to find.
use tunnel_proxy.Base.{
  ℕ, ◌≡◌, ◌↔◌, ◌⊎◌, inl, inr, refl, sym, ap, subst, ◌∙◌, some-inj, Bool, true, false, [], ◌∷◌, ◌++◌,
  map, Option, none, some, ◌==◌, ==_iff, equal_iff, if◌then◌else◌, Bytes, codes, ok, throw, Outcome,
  >>=-eq-ok, arith, Bool-cases, Option-cases,
}
use tunnel_proxy.JwtVerifier.Accepted.{
  AllPad, NoPadEnd, IsLive, Decodes, Encodes, HasText, HasNumber, GoodHeader, SignedBy, States,
  to_url, alg_text,
}
use tunnel_proxy.JwtVerifier.{
  OpenSsl, JwtVerifier, Claims, Error, Algorithm, hs256, rs256, need, invalid_base64,
  header_not_json, missing_alg, algorithm_mismatch, signature_mismatch, no_public_key,
  verification_failed, payload_not_json, strip_padding, padding, is_expired, base64url_encode,
  base64url_decode, check_alg, verify_signature, verify_hs256, verify_rs256, parse_claims,
  text_or_empty, number_or_zero,
}
use tunnel_proxy.Json.{Json}

pub need-eq-ok {ℓ} : {A : Type ℓ} (e : Error) (o : Option A) {a : A} → need e o ≡ ok a → o ≡ some a
need-eq-ok e none h = cc
need-eq-ok e (some a) h = cc

none-ne-some : {A : Type 0} {a : A} → ¬ (none ≡ some a)
none-ne-some h = cc

checked : (b : Bool) (e : Error) (u : Unit {0}) → (if b then ok tt else throw e) ≡ ok u → b ≡ true
checked true e u h = refl
checked false e u h = cc

abbrev the_outcome : Claims → Outcome Error Claims
the_outcome c = ok c

ok-inj : (c d : Claims) → the_outcome c ≡ ok d → c ≡ d
ok-inj c d h = cc

abbrev chained : {V A : Type 0} → Option V → (V → Option A) → Option A
chained o get = elim o [ none ↦ none | some v ↦ get v ]

chained-some :
    {V A : Type 0} (o : Option V) (get : V → Option A) (t : A)
    → chained o get ≡ some t
    → (v : V) × (o ≡ some v) × (get v ≡ some t)
chained-some none get t h = cc
chained-some (some v) get t h = (v, refl, h)

-- What is got from a value, or a default.
got_or :
    {V A : Type 0} (o : Option V) (get : V → Option A) (d t : A)
    → (elim o as (λ x. A) [ none ↦ d | some v ↦ elim (get v) [ none ↦ d | some a ↦ a ] ] ≡ t) ↔ (
        ((v : V) × (o ≡ some v) × (get v ≡ some t))
        ⊎ ((t ≡ d) × ((v : V) → o ≡ some v → get v ≡ none)))
got_or none get d t =
    (λ h. inr (sym h, λ v i. cc), λ h. elim h [ inl (v, i, s) ↦ cc | inr (i, others) ↦ sym i ])
got_or (some v) get d t = elim (Option-cases (get v)) [
  | inl e ↦ rw e (
    λ h. inr (sym h, λ w i. ap get (sym (some-inj i)) ∙ e),
    λ h. elim h [
      | inl (w, i, s) ↦ absurd (none-ne-some (sym e ∙ ap get (some-inj i) ∙ s))
      | inr (i, others) ↦ sym i
    ],
  )
  | inr (a, e) ↦ rw e (
    λ h. inl (v, refl, e ∙ ap some h),
    λ h. elim h [
      | inl (w, i, s) ↦ some-inj (sym e ∙ ap get (some-inj i) ∙ s)
      | inr (i, others) ↦ absurd (none-ne-some (sym (others v refl) ∙ e))
    ],
  )
]

strip_padding-AllPad : (pad : Bytes) → AllPad pad → strip_padding pad ≡ []
unfolding strip_padding
strip_padding-AllPad [] h = refl
strip_padding-AllPad (c ∷ cs) h =
    rw (strip_padding-AllPad cs h.1, strip_padding) (ground (arith, h.0, ==_iff c b'='))

strip_padding-append : (t pad : Bytes) → AllPad pad → NoPadEnd t → strip_padding (t ++ pad) ≡ t
unfolding strip_padding
strip_padding-append [] pad a e = strip_padding-AllPad pad a
strip_padding-append (c ∷ []) pad a e =
    rw (strip_padding-AllPad pad a, strip_padding) (ground (arith, e, ==_iff c b'='))
strip_padding-append (c ∷ d ∷ ds) pad a e = rw (strip_padding-append (d ∷ ds) pad a e) refl

stripped :
    (c : ℕ) (cs s pad : Bytes)
    → cs ≡ s ++ pad
    → AllPad pad
    → NoPadEnd s
    → let r : Bytes = elim s [ [] ↦ if c == b'=' then [] else c ∷ [] | d ∷ ds ↦ c ∷ d ∷ ds ] in
      (p : Bytes) × (c ∷ cs ≡ r ++ p) × AllPad p × NoPadEnd r
stripped c cs [] pad w a e = elim (Bool-cases (c == b'=')) [
  | inl h ↦ rw h (c ∷ pad, ap (λ z. c ∷ z) w, ((==_iff c b'=').0 h, a), tt)
  | inr h ↦ rw h (pad, ap (λ z. c ∷ z) w, a, λ i. ground (arith, i, ==_iff c b'='))
]
stripped c cs (d ∷ ds) pad w a e = (pad, ap (λ z. c ∷ z) w, a, e)

strip_padding-pad :
    (t : Bytes) → (p : Bytes) × (t ≡ strip_padding t ++ p) × AllPad p × NoPadEnd (strip_padding t)
unfolding strip_padding
strip_padding-pad [] = ([], refl, tt, tt)
strip_padding-pad (c ∷ cs) =
    let (p, w, a, e) = strip_padding-pad cs in stripped c cs (strip_padding cs) p w a e

pub is_expired-IsLive :
    (now : ℕ) (claims : Claims) → (is_expired now claims ≡ false) ↔ IsLive now claims
unfolding is_expired
is_expired-IsLive now claims = (
  λ h. elim (Bool-cases (claims.expires == 0)) [
    | inl none_given ↦ inl ((==_iff claims.expires 0).0 none_given)
    | inr given ↦ inr (ground arith)
  ],
  λ h. elim h [
    | inl none_given ↦ ground (arith, none_given, ==_iff claims.expires 0)
    | inr later ↦ ground arith
  ],
)

module _ (ssl : OpenSsl) (json : Json) where
  base64url_decode-Decodes :
      (text bytes : Bytes) → (base64url_decode ssl text ≡ ok bytes) ↔ Decodes ssl json text bytes
  unfolding base64url_decode padding
  base64url_decode-Decodes text bytes = (λ h. need-eq-ok invalid_base64 _ h, λ h. rw h refl)

  base64url_encode-Encodes :
      (mac text : Bytes) → (base64url_encode ssl mac ≡ text) ↔ Encodes ssl json mac text
  unfolding base64url_encode
  base64url_encode-Encodes [] text = (λ h. sym h, λ h. sym h)
  base64url_encode-Encodes (b ∷ bs) text = (
    λ h.
        let (p, w, a, e) = strip_padding-pad (map to_url (ssl.base64_encode (b ∷ bs))) in
        (p, w ∙ ap (λ z. z ++ p) h, a, subst NoPadEnd h e),
    λ (p, w, a, e). ap strip_padding w ∙ strip_padding-append text p a e,
  )

  text_or_empty-HasText :
      (j : json.Value) (key t : Bytes)
      → (text_or_empty ssl json j key ≡ t) ↔ HasText ssl json j key t
  unfolding text_or_empty
  text_or_empty-HasText j key t = got_or (json.member j key) json.string [] t

  number_or_zero-HasNumber :
      (j : json.Value) (key : Bytes) (n : ℕ)
      → (number_or_zero ssl json j key ≡ n) ↔ HasNumber ssl json j key n
  unfolding number_or_zero
  number_or_zero-HasNumber j key n = got_or (json.member j key) json.number 0 n

  pub check_alg-GoodHeader :
      (v : JwtVerifier) (header : Bytes) (u : Unit {0})
      → (check_alg ssl json v header ≡ ok u) ↔ GoodHeader ssl json v header
  unfolding check_alg
  check_alg-GoodHeader v header u = (
    λ h.
        let (bytes, dec, h₁) = >>=-eq-ok (base64url_decode ssl header) _ h in
        let (j, parsed, h₂) = >>=-eq-ok (need header_not_json (json.parse bytes)) _ h₁ in
        let (name, named, h₃) =
          >>=-eq-ok (need missing_alg (chained (json.member j (codes "alg")) json.string)) _ h₂ in
        let (a, member, str) = chained-some _ json.string name (need-eq-ok missing_alg _ named) in
        let same = (equal_iff name (alg_text v.alg)).0 (checked _ algorithm_mismatch u h₃) in
        (
          bytes,
          j,
          a,
          (base64url_decode-Decodes header bytes).0 dec,
          need-eq-ok header_not_json _ parsed,
          member,
          str ∙ ap some same,
        ),
    λ (bytes, j, a, dec, parsed, member, str).
        rw
          (
            check_alg,
            (base64url_decode-Decodes header bytes).1 dec,
            parsed,
            member,
            str,
            (equal_iff (alg_text v.alg) (alg_text v.alg)).1 refl,
          )
          refl,
  )

  signed_by :
      (a : Algorithm) (key_data message sig : Bytes) (u : Unit {0})
      → (verify_signature ssl (record { alg = a; key_data = key_data }) message sig ≡ ok u)
        ↔ SignedBy ssl json a key_data message sig
  unfolding verify_signature verify_hs256 verify_rs256
  signed_by hs256 key_data message sig u = (
    λ h.
        (base64url_encode-Encodes (ssl.hmac_sha256 key_data message) sig).0
          ((equal_iff _ sig).0 (checked _ signature_mismatch u h)),
    λ e.
        rw
          ((equal_iff _ sig).1
            ((base64url_encode-Encodes (ssl.hmac_sha256 key_data message) sig).1 e))
          refl,
  )
  signed_by rs256 key_data message sig u = (
    λ h.
        let (key, found, h₁) = >>=-eq-ok (need no_public_key (ssl.read_public_key key_data)) _ h in
        let (bytes, dec, h₂) = >>=-eq-ok (base64url_decode ssl sig) _ h₁ in
        (
          key,
          bytes,
          need-eq-ok no_public_key _ found,
          (base64url_decode-Decodes sig bytes).0 dec,
          checked _ verification_failed u h₂,
        ),
    λ (key, bytes, found, dec, good).
        rw (found, (base64url_decode-Decodes sig bytes).1 dec, good) refl,
  )

  pub verify_signature-SignedBy :
      (v : JwtVerifier) (message sig : Bytes) (u : Unit {0})
      → (verify_signature ssl v message sig ≡ ok u) ↔ SignedBy ssl json v.alg v.key_data message sig
  verify_signature-SignedBy v message sig u = signed_by v.alg v.key_data message sig u

  pub parse_claims-States :
      (payload : Bytes) (claims : Claims)
      → (parse_claims ssl json payload ≡ ok claims) ↔ States ssl json payload claims
  unfolding parse_claims
  parse_claims-States payload claims = (
    λ h.
        let (bytes, dec, h₁) = >>=-eq-ok (base64url_decode ssl payload) _ h in
        let (j, parsed, h₂) = >>=-eq-ok (need payload_not_json (json.parse bytes)) _ h₁ in
        subst (States ssl json payload) (ok-inj _ _ h₂) (
          j,
          (base64url_decode-Decodes payload bytes).0 dec,
          need-eq-ok payload_not_json _ parsed,
          (text_or_empty-HasText j _ _).0 refl,
          (text_or_empty-HasText j _ _).0 refl,
          (number_or_zero-HasNumber j _ _).0 refl,
          (number_or_zero-HasNumber j _ _).0 refl,
        ),
    λ (j, dec, parsed, sub, iss, iat, exp).
        rw
          (
            parse_claims,
            (base64url_decode-Decodes payload claims.raw_payload).1 dec,
            parsed,
            (text_or_empty-HasText j _ claims.subject).1 sub,
            (text_or_empty-HasText j _ claims.issuer).1 iss,
            (number_or_zero-HasNumber j _ claims.issued_at).1 iat,
            (number_or_zero-HasNumber j _ claims.expires).1 exp,
          )
          refl,
  )
