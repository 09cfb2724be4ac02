-- ===== src/Protocol/Header.antt =====
-- src/tunnel_protocol.cpp: `parse_header` and `parse_frame` against `serialize`.
use tunnel_proxy.Base.{
  ℕ, ◌≤◌, ◌≡◌, sym, ap, ◌∙◌, [], ◌∷◌, ◌++◌, arith, length, take, drop, take-append, drop-append,
  take_all, Bytes, IsBytes, ok, append-nil,
}
use tunnel_proxy.Protocol.Types.{
  TunnelFrame, IsSendable, to_byte, of_byte, tunnel_magic, tunnel_header_size, tunnel_max_payload,
}
use tunnel_proxy.Protocol.Words.{be32-read32, be16-read16, window, take-window}
use tunnel_proxy.Protocol.{at, read32, read16, header_bytes, serialize, parse_header, parse_frame}

pub length-header_bytes : (f : TunnelFrame) → length (header_bytes f) ≡ 16
unfolding header_bytes
length-header_bytes f = omega arith

to_byte-of_byte : (b : ℕ) → to_byte (of_byte b) ≡ b
unfolding to_byte of_byte
to_byte-of_byte b = ground arith

-- Whatever bytes follow the header of a frame, it is read back without its payload.
pub parse_header-header_bytes :
    (f : TunnelFrame) (rest : Bytes) (n : ℕ)
    → IsSendable f
    → tunnel_header_size ≤ n
    → parse_header (header_bytes f ++ rest) n ≡ ok (record f { payload = [] })
unfolding parse_header header_bytes
parse_header-header_bytes f rest n v h = ground arith

-- A frame that `serialize` wrote and that is split behind its 16 header bytes is read back whole
-- by `parse_frame`.
pub parse_frame-serialize :
    (f : TunnelFrame)
    → IsSendable f
    → parse_frame
        (take tunnel_header_size (serialize f))
        (drop tunnel_header_size (serialize f))
        (length f.payload)
      ≡ ok f
unfolding parse_frame serialize
parse_frame-serialize f v =
    rw
      (
        take-append (header_bytes f) f.payload 16 (sym (length-header_bytes f)),
        drop-append (header_bytes f) f.payload 16 (sym (length-header_bytes f)),
        ← append-nil (header_bytes f),
        parse_header-header_bytes f [] 16 v (omega arith),
      )
      (ground (arith, take_all f.payload f.length))

-- What `parse_header` reads, its checks aside.
abbrev fields : Bytes → TunnelFrame
fields buf = record {
  magic = read32 buf 0;
  type = of_byte (at buf 4);
  flags = at buf 5;
  reserved = read16 buf 6;
  session_id = read32 buf 8;
  length = read32 buf 12;
  payload = [];
}

header_bytes-fields : (buf : Bytes) → IsBytes buf → header_bytes (fields buf) ≡ window 16 0 buf
unfolding header_bytes
header_bytes-fields buf h = λ i.
    be32-read32 buf 0 h i
    ++ ((to_byte-of_byte (at buf 4) i ∷ at buf 5 ∷ [])
        ++ (be16-read16 buf 6 h i ++ (be32-read32 buf 8 h i ++ be32-read32 buf 12 h i)))

-- `parse_header` accepts a buffer exactly as far as it describes a frame: its first 16 bytes are
-- then the header that `serialize` writes for the result, the magic number is right, the length
-- is within the limit and there is no payload yet.
pub parse_header_sound :
    (buf : Bytes) (n : ℕ) (f : TunnelFrame)
    → IsBytes buf
    → tunnel_header_size ≤ length buf
    → parse_header buf n ≡ ok f
    → (take tunnel_header_size buf ≡ header_bytes f)
      × (f.magic ≡ tunnel_magic)
      × (f.length ≤ tunnel_max_payload)
      × (f.payload ≡ [])
      × (tunnel_header_size ≤ n)
unfolding parse_header
parse_header_sound buf n f bytes long e =
    let same : f ≡ fields buf = ground arith in
    (
      take-window 16 buf long ∙ sym (header_bytes-fields buf bytes) ∙ ap header_bytes (sym same),
      ground arith,
      ground arith,
      ground arith,
      ground arith,
    )
