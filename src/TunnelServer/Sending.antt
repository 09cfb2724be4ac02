-- ===== src/TunnelServer/Sending.antt =====
-- src/tunnel_server.cpp: `send_to_agent`. It looks the connection up and sends in one step.
use tunnel_proxy.Base.Maps.{ℕ_key, Bytes_key, lookup}
use tunnel_proxy.Base.{ℕ, Bool, none, some, if◌then◌else◌, length, Bytes, Effect, done, raised}
use tunnel_proxy.TunnelServer.State.{TunnelServer, sent, act, count}
use tunnel_proxy.Protocol.Types.{TunnelFrame, data_msg}
use tunnel_proxy.Protocol.{serialize}
use tunnel_proxy.Socket.{send_all}
use tunnel_proxy.TunnelMetrics

pub data Error : Type 0 where
  send_failed : Error

-- `send` on a descriptor until all is out or a call fails, and whether all is out.
unfoldable pub transmit : ℕ → Bytes → TunnelServer → TunnelServer × Bool
transmit fd buf s =
    let (replies, taken, all) = send_all s.replies buf in
    (act (sent fd taken) (record s { replies = replies }), all)

-- The end of `send_to_agent`, where the connection is open.
unfoldable pub send_on : ℕ → TunnelFrame → TunnelServer → Effect Error TunnelServer
send_on fd frame s =
    let (s', all) = transmit fd (serialize frame) s in
    if all
    then done (elim frame.type [
      | data_msg ↦ count (TunnelMetrics.record_bytes_sent (length frame.payload)) s'
      | _ ↦ s'
    ])
    else raised send_failed (count TunnelMetrics.record_error s')

-- An agent that is not registered, or whose connection is closed, is passed over in silence.
unfoldable pub send_to_agent : Bytes → TunnelFrame → TunnelServer → Effect Error TunnelServer
send_to_agent agent_id frame s = elim (lookup agent_id s.agents) [
  | none ↦ done s
  | some conn ↦ elim conn.fd [ none ↦ done s | some fd ↦ send_on fd frame s ]
]
