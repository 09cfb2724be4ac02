-- ===== src/Socket.antt =====
-- The socket calls of src/tunnel_server.cpp and src/tunnel_agent.cpp. The kernel decides how many
-- bytes one `send` or `recv` moves: its answers are lists that the model takes as they come. A
-- `recv` or `send` that returns 0 or less is treated alike by the code, so an answer 0 is both the
-- error and the end of the stream.
pub mod Receive
pub mod Delivery
use tunnel_proxy.Base.{
  ℕ, ◌+◌, ◌-◌, ◌≤◌, min, Bool, true, false, List, [], ◌∷◌, ◌++◌, Option, none, some, ◌==◌, ltb,
  if◌then◌else◌, length, take, drop, Bytes, Outcome, ok, throw,
}
use tunnel_proxy.Protocol.Types.{TunnelFrame, tunnel_header_size}
use tunnel_proxy.Protocol.{parse_header}

-- What arrives on a connection before it ends, and how many bytes each `recv` finds; when the list
-- is used up, all that is left has arrived.
pub record Incoming : Type 0 where
  pub bytes : Bytes
  pub arrivals : List ℕ

-- `recv_exact`: `wanted` bytes are missing and `got` are in the buffer. `none` is the return value
-- false.
unfoldable pub recv_loop : List ℕ → Bytes → ℕ → Bytes → Option (Bytes × Incoming)
recv_loop [] bytes wanted got =
    if ltb (length bytes) wanted
    then none
    else some (got ++ take wanted bytes, record { bytes = drop wanted bytes; arrivals = [] })
recv_loop (r ∷ rs) bytes wanted got =
    let n = min r (min wanted (length bytes)) in
    let more = recv_loop rs (drop n bytes) (wanted - n) (got ++ take n bytes) in
    if wanted == 0
    then some (got, record { bytes = bytes; arrivals = r ∷ rs })
    else if n == 0
    then none
    else more

unfoldable pub recv_exact : Incoming → ℕ → Option (Bytes × Incoming)
recv_exact i n = recv_loop i.arrivals i.bytes n []

unfoldable pub recv_payload : TunnelFrame → Incoming → Option (TunnelFrame × Incoming)
recv_payload frame i =
    if ltb 0 frame.length
    then elim (recv_exact i frame.length) [
      | none ↦ none
      | some (payload, i') ↦ some (record frame { payload = payload }, i')
    ]
    else some (frame, i)

-- `recv_frame`, the same in server and agent.
unfoldable pub recv_frame : Incoming → Option (TunnelFrame × Incoming)
recv_frame i = elim (recv_exact i tunnel_header_size) [
  | none ↦ none
  | some (header_buf, i') ↦ elim (parse_header header_buf tunnel_header_size) [
    | throw e ↦ none
    | ok frame ↦ recv_payload frame i'
  ]
]

-- The loop `while (sent < size)` around `send`: the answers that are left, the bytes that the
-- kernel took, and whether all went out. With no answer listed the kernel takes the rest.
unfoldable pub send_all : List ℕ → Bytes → List ℕ × Bytes × Bool
send_all rs [] = (rs, [], true)
send_all [] (b ∷ bs) = ([], b ∷ bs, true)
send_all (r ∷ rs) (b ∷ bs) =
    let n = min r (length (b ∷ bs)) in
    let more = send_all rs (drop n (b ∷ bs)) in
    if n == 0 then (rs, [], false) else (more.0, take n (b ∷ bs) ++ more.1, more.2)
