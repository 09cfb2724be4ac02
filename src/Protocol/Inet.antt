-- ===== src/Protocol/Inet.antt =====
-- The platform's address conversions that src/tunnel_protocol.cpp calls, as a parameter. An
-- address is the four bytes of an `in_addr`, in network order.
use tunnel_proxy.Base.{◌≡◌, Option, some, length, Bytes, IsBytes}

abbrev pub IsAddr : Bytes → Type 0
IsAddr a = (length a ≡ 4) × IsBytes a

pub record Inet : Type 0 where
  -- `inet_pton(AF_INET, text, &addr)`; `none` where it does not return 1.
  pub pton : Bytes → Option Bytes
  -- `inet_ntop(AF_INET, &addr, …)`; `none` where it returns null.
  pub ntop : Bytes → Option Bytes
  -- A parsed address has four bytes.
  pub pton-IsAddr : (s a : Bytes) → pton s ≡ some a → IsAddr a
  -- Every address is printed, as a text that is read back.
  pub ntop-pton : (a : Bytes) → IsAddr a → (s : Bytes) × (ntop a ≡ some s) × (pton s ≡ some a)
