-- ===== src/Protocol.antt =====
-- include/core/tunnel_protocol.h and src/tunnel_protocol.cpp: frames as bytes. A thrown exception
-- is a value of `Error` with the numbers that its message prints.
pub mod TunnelFlags
pub mod Types
pub mod Inet
mod Words
pub mod Header
pub mod Payloads
use Types.{
  TunnelMsgType, hello, hello_ack, open_msg, open_ack, data_msg, close, heartbeat, heartbeat_ack,
  to_byte, of_byte, TunnelFrame, new_frame, tunnel_magic, tunnel_header_size, tunnel_max_payload,
}
use tunnel_proxy.Base.{
  ℕ, ◌+◌, ◌*◌, ◌/◌, ◌%◌, ◌^◌, Bool, List, [], ◌∷◌, ◌++◌, Option, none, some, ltb, ◌==◌, not,
  if◌then◌else◌, length, get_or, take, drop, Bytes, Outcome, ok, throw, throw_if, ◌>>=◌, ◌>>◌,
}

pub data Error : Type 0 where
  header_too_small payload_too_long id_too_long open_too_short : ℕ → Error
  invalid_magic : ℕ → Error
  payload_too_small hello_truncated : ℕ → ℕ → Error
  invalid_ip : Bytes → Error
  ip_not_printed hello_empty : Error

-- The four bytes that `htonl` and `memcpy` leave in a buffer, whatever the byte order of the host.
unfoldable pub be32 : ℕ → Bytes
be32 n = (n / 2 ^ 24 % 256) ∷ (n / 2 ^ 16 % 256) ∷ (n / 2 ^ 8 % 256) ∷ (n % 256) ∷ []

-- The same for `htons`.
unfoldable pub be16 : ℕ → Bytes
be16 n = (n / 2 ^ 8 % 256) ∷ (n % 256) ∷ []

-- A byte of a buffer. A read behind the buffer, which no caller makes, gives 0.
abbrev at : Bytes → ℕ → ℕ
at buf i = get_or buf i 0

-- `memcpy` of four bytes from offset `i`, and `ntohl`.
pub read32 : Bytes → ℕ → ℕ
read32 buf i = at buf i * 2 ^ 24 + at buf (i + 1) * 2 ^ 16 + at buf (i + 2) * 2 ^ 8 + at buf (i + 3)

-- `memcpy` of two bytes from offset `i`, and `ntohs`.
pub read16 : Bytes → ℕ → ℕ
read16 buf i = at buf i * 2 ^ 8 + at buf (i + 1)

-- The 16 bytes of the header.
unfoldable pub header_bytes : TunnelFrame → Bytes
unfolding be32 be16 to_byte
header_bytes f =
    be32 f.magic
    ++ ((to_byte f.type ∷ f.flags ∷ [])
        ++ (be16 f.reserved ++ (be32 f.session_id ++ be32 f.length)))

unfoldable pub serialize : TunnelFrame → Bytes
unfolding header_bytes
serialize f = header_bytes f ++ f.payload

-- `buf_len` is the size that the caller states, as in the source.
unfoldable pub parse_header : Bytes → ℕ → Outcome Error TunnelFrame
unfolding read32 read16
parse_header buf buf_len = do
  throw_if (ltb buf_len tunnel_header_size) (header_too_small buf_len)
  let magic = read32 buf 0
  throw_if (not (magic == tunnel_magic)) (invalid_magic magic)
  let length = read32 buf 12
  throw_if (ltb tunnel_max_payload length) (payload_too_long length)
  ok (record {
    magic = magic;
    type = of_byte (at buf 4);
    flags = at buf 5;
    reserved = read16 buf 6;
    session_id = read32 buf 8;
    length = length;
    payload = [];
  })

unfoldable pub parse_frame : Bytes → Bytes → ℕ → Outcome Error TunnelFrame
parse_frame header_buf payload_buf payload_len = do
  frame ← parse_header header_buf tunnel_header_size
  throw_if (ltb payload_len frame.length) (payload_too_small payload_len frame.length)
  ok (
      if ltb 0 frame.length
      then record frame { payload = take frame.length payload_buf }
      else frame)

unfoldable pub make_hello : Bytes → Outcome Error TunnelFrame
make_hello agent_id = do
  throw_if (ltb 255 (length agent_id)) (id_too_long (length agent_id))
  ok (new_frame hello 0 ((length agent_id % 2 ^ 8) ∷ agent_id) TunnelFlags.syn)

unfoldable pub make_hello_ack : TunnelFrame
make_hello_ack = new_frame hello_ack 0 [] TunnelFlags.ack

unfoldable pub make_open_ack : ℕ → TunnelFrame
make_open_ack session_id = new_frame open_ack session_id [] TunnelFlags.ack

unfoldable pub make_data : ℕ → Bytes → TunnelFrame
make_data session_id bytes = new_frame data_msg session_id bytes TunnelFlags.none

unfoldable pub make_close : ℕ → TunnelFrame
make_close session_id = new_frame close session_id [] TunnelFlags.fin

unfoldable pub make_heartbeat : TunnelFrame
make_heartbeat = new_frame heartbeat 0 [] TunnelFlags.none

unfoldable pub make_heartbeat_ack : TunnelFrame
make_heartbeat_ack = new_frame heartbeat_ack 0 [] TunnelFlags.ack

unfoldable pub parse_hello_payload : Bytes → Outcome Error Bytes
parse_hello_payload [] = throw hello_empty
parse_hello_payload (len ∷ rest) = do
  throw_if (ltb (1 + length rest) (1 + len)) (hello_truncated (1 + len) (1 + length rest))
  ok (take len rest)

-- `inet_pton` and `inet_ntop` belong to the platform.
module _ (inet : Inet.Inet) where
  unfoldable pub make_open : ℕ → Bytes → ℕ → Outcome Error TunnelFrame
  make_open session_id target_ip target_port = elim (inet.pton target_ip) [
    | none ↦ throw (invalid_ip target_ip)
    | some addr ↦ ok (new_frame open_msg session_id (addr ++ be16 target_port) TunnelFlags.syn)
  ]

  unfoldable pub parse_open_payload : Bytes → Outcome Error (Bytes × ℕ)
  unfolding read16
  parse_open_payload payload = do
    throw_if (ltb (length payload) 6) (open_too_short (length payload))
    elim (inet.ntop (take 4 payload)) [
      | none ↦ throw ip_not_printed
      | some ip ↦ ok (ip, read16 payload 4)
    ]
