-- ===== src/Protocol/TunnelFlags.antt =====
-- include/core/tunnel_protocol.h: namespace TunnelFlags.
use tunnel_proxy.Base.{ℕ}

abbrev pub none : ℕ
none = 0x00

abbrev pub fin : ℕ
fin = 0x01

abbrev pub syn : ℕ
syn = 0x02

abbrev pub ack : ℕ
ack = 0x04
