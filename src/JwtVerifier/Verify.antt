-- ===== src/JwtVerifier/Verify.antt =====
-- What a token that is accepted looks like.
use tunnel_proxy.Base.{
  ℕ, ◌≡◌, ◌↔◌, refl, sym, subst, some-inj, ap, ◌∙◌, Bool, true, false, [], ◌∷◌, ◌++◌, Option, none,
  some, ◌==◌, ==_iff, if◌then◌else◌, Bytes, ok, throw, >>=-eq-ok,
}
use tunnel_proxy.JwtVerifier.{
  missing_first_dot, missing_second_dot, token_expired, need, OpenSsl, JwtVerifier, Claims,
  split_dot, verify, check_alg, verify_signature, parse_claims, is_expired,
}
use tunnel_proxy.JwtVerifier.Accepted.{NoDot, IsLive, Accepted}
use tunnel_proxy.JwtVerifier.Checks.{
  need-eq-ok, is_expired-IsLive, check_alg-GoodHeader, verify_signature-SignedBy,
  parse_claims-States,
}
use tunnel_proxy.Json.{Json}

-- How a text is split, without computing it.
abbrev SplitAt : Bytes → Bytes × Bytes → Type 0
SplitAt t p = (t ≡ p.0 ++ (b'.' ∷ p.1)) × NoDot p.0

split_here :
    (c : ℕ) (cs : Bytes) (p : Bytes × Bytes)
    → (c == b'.') ≡ true
    → ([], cs) ≡ p
    → SplitAt (c ∷ cs) p
split_here c cs p e h = subst (SplitAt (c ∷ cs)) h (ap (λ d. d ∷ cs) ((==_iff c b'.').0 e), tt)

split_later :
    (c : ℕ) (cs : Bytes) (p q : Bytes × Bytes)
    → (c == b'.') ≡ false
    → SplitAt cs q
    → (c ∷ q.0, q.1) ≡ p
    → SplitAt (c ∷ cs) p
split_later c cs p q e (w, n) h = subst (SplitAt (c ∷ cs)) h (ap (λ ds. c ∷ ds) w, (e, n))

split_step :
    (c : ℕ) (cs : Bytes) (p : Bytes × Bytes) (b : Bool) (rest : Option (Bytes × Bytes))
    → (c == b'.') ≡ b
    → ((q : Bytes × Bytes) → rest ≡ some q → SplitAt cs q)
    → (if b then some ([], cs) else elim rest [ none ↦ none | some q ↦ some (c ∷ q.0, q.1) ])
      ≡ some p
    → SplitAt (c ∷ cs) p
split_step c cs p true rest e f h = split_here c cs p e (some-inj h)
split_step c cs p false none e f h = cc
split_step c cs p false (some q) e f h = split_later c cs p q e (f q refl) (some-inj h)

split_dot-SplitAt : (t : Bytes) (p : Bytes × Bytes) → split_dot t ≡ some p → SplitAt t p
unfolding split_dot
split_dot-SplitAt [] p h = cc
split_dot-SplitAt (c ∷ cs) p h =
    split_step c cs p (c == b'.') (split_dot cs) refl (split_dot-SplitAt cs) h

split_dot-append : (a b : Bytes) → NoDot a → split_dot (a ++ (b'.' ∷ b)) ≡ some (a, b)
unfolding split_dot
split_dot-append [] b h = refl
split_dot-append (c ∷ cs) b h = rw (h.0, split_dot) (rw (split_dot-append cs b h.1) refl)

still_valid :
    (b : Bool) (c c' : Claims)
    → (if b then throw token_expired else ok c) ≡ ok c'
    → (c ≡ c') × (b ≡ false)
still_valid true c c' h = cc
still_valid false c c' h = (cc, refl)

still-IsLive :
    (now : ℕ) (c c' : Claims)
    → (if is_expired now c then throw token_expired else ok c) ≡ ok c'
    → (c ≡ c') × IsLive now c'
still-IsLive now c c' h =
    let (same, live) = still_valid (is_expired now c) c c' h in
    (same, (is_expired-IsLive now c').0 (ap (is_expired now) (sym same) ∙ live))

module _ (ssl : OpenSsl) (json : Json) where
  -- `verify` gives claims exactly for these tokens: there are a header, a payload and a signature
  -- with dots between them; the header decodes to JSON whose "alg" is the verifier's algorithm; the
  -- signature is the base64url of the HMAC of header and payload as they stand in the token, or
  -- decodes to one that the public key verifies for them; the payload decodes to JSON that states
  -- the claims, with a default for what is missing or of another type; and the time of expiry is 0
  -- or, as a signed number, not before the time now.
  pub verify_iff :
      (v : JwtVerifier) (now : ℕ) (token : Bytes) (claims : Claims)
      → (verify ssl json v now token ≡ ok claims) ↔ Accepted ssl json v now token claims
  unfolding verify
  verify_iff v now token claims = (sound, complete)
    where
      sound : verify ssl json v now token ≡ ok claims → Accepted ssl json v now token claims
      sound h =
          let ((header, rest), split, h₁) =
            >>=-eq-ok (need missing_first_dot (split_dot token)) _ h in
          let ((payload, sig), split', h₂) =
            >>=-eq-ok (need missing_second_dot (split_dot rest)) _ h₁ in
          let (u, alg_ok, h₃) = >>=-eq-ok (check_alg ssl json v header) _ h₂ in
          let (u', sig_ok, h₄) =
            >>=-eq-ok (verify_signature ssl v (header ++ (b'.' ∷ payload)) sig) _ h₃ in
          let (claims', parsed, h₅) = >>=-eq-ok (parse_claims ssl json payload) _ h₄ in
          let (whole, plain) = split_dot-SplitAt token (header, rest) (need-eq-ok _ _ split) in
          let (whole', plain') = split_dot-SplitAt rest (payload, sig) (need-eq-ok _ _ split') in
          let (same, live) = still-IsLive now claims' claims h₅ in
          (
            header,
            payload,
            sig,
            whole ∙ ap (λ r. header ++ (b'.' ∷ r)) whole',
            plain,
            plain',
            (check_alg-GoodHeader ssl json v header u).0 alg_ok,
            (verify_signature-SignedBy ssl json v (header ++ (b'.' ∷ payload)) sig u').0 sig_ok,
            (parse_claims-States ssl json payload claims).0 (parsed ∙ ap ok same),
            live,
          )

      complete : Accepted ssl json v now token claims → verify ssl json v now token ≡ ok claims
      complete (header, payload, sig, whole, plain, plain', alg_ok, sig_ok, parsed, live) =
          rw
            (
              whole,
              split_dot-append header (payload ++ (b'.' ∷ sig)) plain,
              split_dot-append payload sig plain',
              (check_alg-GoodHeader ssl json v header tt).1 alg_ok,
              (verify_signature-SignedBy ssl json v (header ++ (b'.' ∷ payload)) sig tt).1 sig_ok,
              (parse_claims-States ssl json payload claims).1 parsed,
              (is_expired-IsLive now claims).1 live,
            )
            refl
