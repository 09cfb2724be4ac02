-- ===== src/Protocol/Types.antt =====
-- include/core/tunnel_protocol.h: the constants, the message types and the frame.
use tunnel_proxy.Base.{ℕ, ◌<◌, ◌≤◌, ◌%◌, ◌^◌, ◌≡◌, ◌==◌, if◌then◌else◌, length, Bytes, IsBytes}

abbrev pub tunnel_magic : ℕ
tunnel_magic = 0x544E4C50

abbrev pub tunnel_header_size : ℕ
tunnel_header_size = 16

abbrev pub tunnel_max_payload : ℕ
tunnel_max_payload = 65536

-- `enum class TunnelMsgType : uint8_t` holds any byte: `unnamed` is a value with no enumerator.
pub data TunnelMsgType : Type 0 where
  hello hello_ack open_msg open_ack data_msg close heartbeat heartbeat_ack error : TunnelMsgType
  unnamed : ℕ → TunnelMsgType

-- `static_cast<uint8_t>(type)`
unfoldable pub to_byte : TunnelMsgType → ℕ
to_byte hello = 0x01
to_byte hello_ack = 0x02
to_byte open_msg = 0x03
to_byte open_ack = 0x04
to_byte data_msg = 0x05
to_byte close = 0x06
to_byte heartbeat = 0x07
to_byte heartbeat_ack = 0x08
to_byte error = 0x09
to_byte (unnamed b) = b

-- `static_cast<TunnelMsgType>(byte)`
unfoldable pub of_byte : ℕ → TunnelMsgType
of_byte b =
    if b == 0x01
    then hello
    else if b == 0x02
    then hello_ack
    else if b == 0x03
    then open_msg
    else if b == 0x04
    then open_ack
    else if b == 0x05
    then data_msg
    else if b == 0x06
    then close
    else if b == 0x07
    then heartbeat
    else if b == 0x08
    then heartbeat_ack
    else if b == 0x09
    then error
    else unnamed b

pub record TunnelFrame : Type 0 where
  pub magic : ℕ
  pub type : TunnelMsgType
  pub flags : ℕ
  pub reserved : ℕ
  pub session_id : ℕ
  pub length : ℕ
  pub payload : Bytes

-- The constructor `TunnelFrame(t, sid, pl, f)`.
unfoldable pub new_frame : TunnelMsgType → ℕ → Bytes → ℕ → TunnelFrame
new_frame t sid pl f = record {
  magic = tunnel_magic;
  type = t;
  flags = f;
  reserved = 0;
  session_id = sid;
  length = length pl % 2 ^ 32;
  payload = pl;
}

-- What the field types of the struct guarantee.
pub record IsRanged (f : TunnelFrame) : Type 0 where
  pub type_fits : to_byte f.type < 256
  pub type_named : of_byte (to_byte f.type) ≡ f.type
  pub flags_fit : f.flags < 2 ^ 8
  pub reserved_fits : f.reserved < 2 ^ 16
  pub session_id_fits : f.session_id < 2 ^ 32
  pub payload_fits : IsBytes f.payload

-- A frame that the peer accepts, with the length field that `serialize` expects.
pub record IsSendable (f : TunnelFrame) : Type 0 where
  pub ranged : IsRanged f
  pub magic_is : f.magic ≡ tunnel_magic
  pub length_is : f.length ≡ length f.payload
  pub bounded : f.length ≤ tunnel_max_payload
