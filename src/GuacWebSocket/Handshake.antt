-- ===== src/GuacWebSocket/Handshake.antt =====
-- `read_http_request` and `do_ws_handshake` of src/guac_websocket.cpp.
use tunnel_proxy.Base.{
  ℕ, zero, suc, ◌+◌, ◌-◌, Bool, true, false, ◌&&◌, [], ◌∷◌, ◌++◌, Option, none, some, ◌==◌, leb,
  if◌then◌else◌, length, take, drop, codes, equal, Bytes, find,
}
use tunnel_proxy.Socket.{Incoming, recv_exact}

abbrev crlf : Bytes
crlf = 13 ∷ 10 ∷ []

-- The request read so far ends the header.
complete : Bytes → Bool
complete req = leb 4 (length req) && equal (drop (length req - 4) req) (crlf ++ crlf)

-- One byte at a time: `room` of the 8192 bytes are free. `none` is "".
read_request_loop : ℕ → Bytes → Incoming → Option (Bytes × Incoming)
unfolding complete
read_request_loop zero req i = some (req, i)
read_request_loop (suc room) req i = elim (recv_exact i 1) [
  | none ↦ none
  | some (byte, i') ↦ elim (complete (req ++ byte)) [
    | true ↦ some (req ++ byte, i')
    | false ↦ read_request_loop room (req ++ byte) i'
  ]
]

unfoldable pub read_http_request : Incoming → Option (Bytes × Incoming)
unfolding read_request_loop
read_http_request i = read_request_loop 8192 [] i

skip_blanks : Bytes → Bytes
skip_blanks [] = []
skip_blanks (c ∷ cs) = let rest = skip_blanks cs in if c == b' ' then rest else c ∷ cs

-- The value of the first "Sec-WebSocket-Key:".
unfoldable pub key_of : Bytes → Option Bytes
unfolding skip_blanks
key_of req = elim (find (codes "Sec-WebSocket-Key:") req) [
  | none ↦ none
  | some pos ↦
      let from_key = skip_blanks (drop (pos + 18) req) in
      elim (find crlf from_key) [ none ↦ none | some end ↦ some (take end from_key) ]
]

abbrev pub guid : Bytes
guid = codes "258EAFA5-E914-47DA-95CA-C5AB0DC85B11"

-- `accept_of` is base64(SHA1(·)) as OpenSSL computes it.
module _ (accept_of : Bytes → Bytes) where
  unfoldable pub response : Bytes → Bytes
  response key =
      codes "HTTP/1.1 101 Switching Protocols"
      ++ crlf
      ++ (codes "Upgrade: websocket"
          ++ crlf
          ++ (codes "Connection: Upgrade"
              ++ crlf
              ++ (codes "Sec-WebSocket-Accept: " ++ (accept_of (key ++ guid) ++ (crlf ++ crlf)))))

  -- The response and what is left of the stream, or `none` for false without an answer.
  unfoldable pub do_ws_handshake : Incoming → Option (Bytes × Incoming)
  unfolding response
  do_ws_handshake i = elim (read_http_request i) [
    | none ↦ none
    | some (req, i') ↦ elim (key_of req) [ none ↦ none | some key ↦ some (response key, i') ]
  ]
