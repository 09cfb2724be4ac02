-- ===== src/TunnelServer/Ids.antt =====
-- Session identifiers.
use tunnel_proxy.Base.{◌^◌, ◌<◌, arith}
use tunnel_proxy.TunnelServer.State.{TunnelServer}
use tunnel_proxy.TunnelServer.{draw, generate_session_id}

-- The loop of `generate_session_id` makes two rounds at most: its result is a uint32_t other than
-- 0, the identifier of the control channel, and the counter stays a uint32_t.
pub generate_session_id-IsId :
    (s : TunnelServer)
    → s.next_session_id < 2 ^ 32
    → (0 < (generate_session_id s).0)
      × ((generate_session_id s).0 < 2 ^ 32)
      × ((generate_session_id s).1.next_session_id < 2 ^ 32)
unfolding generate_session_id draw
generate_session_id-IsId s h = ground arith
