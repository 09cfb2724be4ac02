-- ===== src/Protocol/Payloads.antt =====
-- src/tunnel_protocol.cpp: the payloads of HELLO and OPEN, written and read back.
use tunnel_proxy.Base.{
  ℕ, ◌%◌, ◌^◌, ◌≤◌, ◌<◌, ◌≡◌, refl, ◌⊎◌, inl, inr, [], ◌∷◌, ◌++◌, some, arith, length,
  length-append, take-append, take_all, Bytes, ok, throw,
}
use native.Mathlib.Decide.{dec_le}
use tunnel_proxy.Protocol.Inet.{Inet, IsAddr}
use tunnel_proxy.Protocol.Types.{TunnelFrame, hello, open_msg, new_frame}
use tunnel_proxy.Protocol.TunnelFlags
use tunnel_proxy.Protocol.{
  id_too_long, be16, read16, make_hello, parse_hello_payload, make_open, parse_open_payload,
}

-- An agent id of at most 255 bytes makes a SYN frame for the control channel from which the same
-- id is read; a longer one is refused.
pub make_hello-parse :
    (id : Bytes)
    → ((length id ≤ 255)
        × (f : TunnelFrame) × (make_hello id ≡ ok f)
        × (f.session_id ≡ 0)
        × (f.flags ≡ TunnelFlags.syn)
        × (parse_hello_payload f.payload ≡ ok id))
      ⊎ ((255 < length id) × (make_hello id ≡ throw (id_too_long (length id))))
unfolding make_hello parse_hello_payload new_frame
make_hello-parse id = elim (dec_le (length id) 255) [
  | yes short ↦ inl (
    short,
    new_frame hello 0 ((length id % 2 ^ 8) ∷ id) TunnelFlags.syn,
    ground arith,
    refl,
    refl,
    ground (arith, take_all id (length id)),
  )
  | no long ↦ inr (omega arith, ground arith)
]

read16-behind : (a : Bytes) (n : ℕ) → length a ≡ 4 → n < 2 ^ 16 → read16 (a ++ be16 n) 4 ≡ n
unfolding read16 be16
read16-behind (a ∷ b ∷ c ∷ d ∷ []) n l h = omega arith
read16-behind _ n l h = absurd (omega arith)

length-be16 : (n : ℕ) → length (be16 n) ≡ 2
unfolding be16
length-be16 n = refl

module _ (inet : Inet) where
  -- The frame for a printable address carries the session, opens it (SYN), has a payload of six
  -- bytes, and the agent reads the same address and port from it.
  pub make_open-parse :
      (sid : ℕ) (a ip : Bytes) (port : ℕ)
      → IsAddr a
      → inet.ntop a ≡ some ip
      → port < 2 ^ 16
      → (f : TunnelFrame) × (make_open inet sid ip port ≡ ok f)
        × (f.session_id ≡ sid)
        × (f.type ≡ open_msg)
        × (f.flags ≡ TunnelFlags.syn)
        × (f.length ≡ 6)
        × (parse_open_payload inet f.payload ≡ ok (ip, port))
  unfolding make_open parse_open_payload new_frame
  make_open-parse sid a ip port addr printed fits =
      let (s, p, q) = inet.ntop-pton a addr in
      let parsed : inet.pton ip ≡ some a = ground arith in
      (
        new_frame open_msg sid (a ++ be16 port) TunnelFlags.syn,
        rw (parsed, make_open),
        refl,
        refl,
        refl,
        ground (arith, length-append a (be16 port), length-be16 port),
        ground (
          arith,
          length-append a (be16 port),
          length-be16 port,
          take-append a (be16 port) 4,
          read16-behind a port,
        ),
      )
