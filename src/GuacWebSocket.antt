-- ===== src/GuacWebSocket.antt =====
-- include/core/guac_websocket.h and src/guac_websocket.cpp: the WebSocket gateway. `recv_exact` of
-- that file differs from the tunnel's only in what it returns on failure, which its callers treat
-- alike. Bit masks of bytes are written as arithmetic.
pub mod Mask
pub mod Wire
pub mod Codec
pub mod Handshake
pub mod Routing
pub mod Serving
pub mod Delivery
pub mod Termination
pub mod BadPort
use Prim.Native.Nat.{bit_xor}
use tunnel_proxy.Base.{
  ℕ, suc, ◌+◌, ◌*◌, ◌/◌, ◌%◌, ◌^◌, Bool, true, false, List, [], ◌∷◌, ◌++◌, Option, none, some, ltb,
  leb, ◌==◌, if◌then◌else◌, length, get_or, Bytes,
}
use tunnel_proxy.Socket.{Incoming, recv_exact}

-- What `read_ws_frame` does: it returns a payload, it returns "" since the connection is over, or
-- the string constructor throws std::length_error.
pub data WsRead : Type 0 where
  payload : Bytes → Incoming → WsRead
  over too_long : WsRead

-- `n = (n << 8) | b` over the bytes of a length.
abbrev pub big_endian : ℕ → Bytes → ℕ
big_endian n [] = n
big_endian n (b ∷ bs) = big_endian (n * 256 + b) bs

-- `payload[i] ^= mask[i % 4]`
unfoldable pub apply_mask : Bytes → ℕ → Bytes → Bytes
apply_mask mask i [] = []
apply_mask mask i (c ∷ cs) = bit_xor c (get_or mask (i % 4) 0) ∷ apply_mask mask (i + 1) cs

-- The client's mask, if the frame has one.
abbrev pub unmask : Option Bytes → Bytes → Bytes
unmask none text = text
unmask (some mask) text = apply_mask mask 0 text

-- `max_size` is std::string::max_size(). Memory is not exhausted.
module _ (max_size : ℕ) where
  unfoldable pub read_payload : Option Bytes → ℕ → Incoming → WsRead
  unfolding apply_mask
  read_payload mask n i =
      if ltb max_size n
      then too_long
      else if n == 0
      then payload [] i
      else elim (recv_exact i n) [ none ↦ over | some (text, i') ↦ payload (unmask mask text) i' ]

  unfoldable pub read_mask : Bool → ℕ → Incoming → WsRead
  read_mask masked n i =
      if masked
      then elim (recv_exact i 4) [ none ↦ over | some (mask, i') ↦ read_payload (some mask) n i' ]
      else read_payload none n i

  unfoldable pub read_size : ℕ → Incoming → WsRead
  read_size b i =
      if b % 128 == 126
      then elim (recv_exact i 2) [
        | none ↦ over
        | some (ext, i') ↦ read_mask (leb 128 b) (big_endian 0 ext) i'
      ]
      else if b % 128 == 127
      then elim (recv_exact i 8) [
        | none ↦ over
        | some (ext, i') ↦ read_mask (leb 128 b) (big_endian 0 ext) i'
      ]
      else read_mask (leb 128 b) (b % 128) i

  unfoldable pub read_ws_frame : Incoming → WsRead
  read_ws_frame i = elim (recv_exact i 2) [
    | none ↦ over
    | some (hdr, i') ↦ if get_or hdr 0 0 % 16 == 8 then over else read_size (get_or hdr 1 0) i'
  ]

-- The length bytes of `send_ws_frame`.
unfoldable pub size_bytes : ℕ → Bytes
size_bytes len =
    if ltb len 126
    then (len % 2 ^ 8) ∷ []
    else if ltb len 65536
    then 126 ∷ (len / 2 ^ 8 % 256) ∷ (len % 256) ∷ []
    else 127
      ∷ (len / 2 ^ 56 % 256)
      ∷ (len / 2 ^ 48 % 256)
      ∷ (len / 2 ^ 40 % 256)
      ∷ (len / 2 ^ 32 % 256)
      ∷ (len / 2 ^ 24 % 256)
      ∷ (len / 2 ^ 16 % 256)
      ∷ (len / 2 ^ 8 % 256)
      ∷ (len % 256)
      ∷ []

-- What `send_ws_frame` hands to one call of `write`, whose result it does not look at.
unfoldable pub ws_frame : Bytes → Bytes
unfolding size_bytes
ws_frame text = 0x81 ∷ (size_bytes (length text) ++ text)
