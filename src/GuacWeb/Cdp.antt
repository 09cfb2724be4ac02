-- ===== src/GuacWeb/Cdp.antt =====
-- `cdp_send` and `cdp_recv` of src/guac_web.cpp. The reading of a length, a key and a payload has the
-- same text as in src/guac_websocket.cpp. The `send` of a Pong takes all bytes.
use tunnel_proxy.Base.{
  ℕ, zero, suc, ◌+◌, ◌/◌, ◌%◌, ◌^◌, Bool, false, min, take, List, [], ◌∷◌, ◌++◌, Option, none, some,
  ltb, ◌==◌, if◌then◌else◌, length, get_or, Bytes, codes, to_string,
}
use tunnel_proxy.Socket.{Incoming, recv_exact}
use tunnel_proxy.GuacWebSocket.{WsRead, payload, over, too_long, apply_mask, read_size}

unfoldable pub cdp_text : ℕ → Bytes → Bytes → Bytes
cdp_text id method params =
    codes "{\"id\":"
    ++ to_string id
    ++ codes ",\"method\":\""
    ++ method
    ++ codes "\",\"params\":"
    ++ params
    ++ codes "}"

unfoldable pub masked_size : ℕ → Bytes
masked_size len =
    if ltb len 126
    then (128 + len) ∷ []
    else if ltb len 65536
    then (128 + 126) ∷ (len / 2 ^ 8 % 256) ∷ (len % 256) ∷ []
    else (128 + 127)
      ∷ (len / 2 ^ 56 % 256)
      ∷ (len / 2 ^ 48 % 256)
      ∷ (len / 2 ^ 40 % 256)
      ∷ (len / 2 ^ 32 % 256)
      ∷ (len / 2 ^ 24 % 256)
      ∷ (len / 2 ^ 16 % 256)
      ∷ (len / 2 ^ 8 % 256)
      ∷ (len % 256)
      ∷ []

unfoldable pub masked_frame : Bytes → Bytes → Bytes
unfolding masked_size
masked_frame mask text = 0x81 ∷ (masked_size (length text) ++ (mask ++ apply_mask mask 0 text))

-- For what /dev/urandom gave, `none` if not four bytes, and for the number of bytes that the one
-- `send` takes at most, 0 if it fails: the bytes that went out, and the result.
unfoldable pub cdp_send : Option Bytes → ℕ → ℕ → Bytes → Bytes → Bytes × Bool
unfolding cdp_text masked_frame
cdp_send none reply id method params = ([], false)
cdp_send (some mask) reply id method params =
    let frame = masked_frame mask (cdp_text id method params) in
    let n = min reply (length frame) in (take n frame, ltb 0 n)

unfoldable pub pong : Bytes → Bytes
pong text = 0x8A ∷ (length text % 2 ^ 8) ∷ text

-- `pongs` are what was sent meanwhile. `broken` is the return value "", and `terminated` the exception of
-- a string that is too long, which ends the program.
pub data Received : Type 0 where
  message : (pongs : List Bytes) → Bytes → Incoming → Received
  broken terminated still_reading : Received

abbrev pub with_pong : Bytes → Received → Received
with_pong p (message ps text i) = message (p ∷ ps) text i
with_pong p r = r

abbrev pub take_frame : ℕ → WsRead → (Incoming → Received) → Received
take_frame opcode (payload text i) more =
    if opcode == 8
    then broken
    else if opcode == 9
    then with_pong (pong text) (more i)
    else message [] text i
take_frame opcode over more = broken
take_frame opcode too_long more = terminated

module _ (max_size : ℕ) where
  -- The fuel counts the frames that are read.
  unfoldable pub cdp_recv : ℕ → Incoming → Received
  unfolding pong
  cdp_recv zero i = still_reading
  cdp_recv (suc fuel) i = elim (recv_exact i 2) [
    | none ↦ broken
    | some (hdr, i') ↦
        take_frame (get_or hdr 0 0 % 16) (read_size max_size (get_or hdr 1 0) i') (cdp_recv fuel)
  ]
