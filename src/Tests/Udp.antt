-- ===== src/Tests/Udp.antt =====
-- A UDP proxy with one client.
use tunnel_proxy.Base.{◌≡◌, refl, true, [], ◌∷◌, codes, equal, to_string}
use tunnel_proxy.Base.Maps.{ℕ_key, Bytes_key, lookup, insert}
use tunnel_proxy.Tests.Platform.{raw_inet}
use tunnel_proxy.UdpProxy.Refinement.{promised, Reach-promised}
use tunnel_proxy.UdpProxy.Spec.{view}
use tunnel_proxy.UdpProxy.Steps.{Reach, here, next, client_data, target_data, ticks, Reach-Inv}
use tunnel_proxy.UdpProxy.Tables.{Inv}
use tunnel_proxy.UdpProxy.{
  Address, Session, UdpProxy, Datagram, ready, received, addr_to_key, started, touch, enter,
  create_session, get_or_create_session, forward_datagram, handle_datagram, handle_client_data,
  handle_target_data, tick,
}

abbrev client : Address
client = record { addr = 10 ∷ 0 ∷ 0 ∷ 5 ∷ []; port = 5353 }

abbrev query : Datagram
query = record {
  client_addr = client;
  bytes = codes "who";
  setup = ready 9;
  delivered = true;
  created_at = 1;
  sent_at = 2;
}

abbrev probe : Datagram
probe = record query { bytes = [] }

abbrev idle : UdpProxy
idle = started 30 10 0

-- A query, its answer, and the clean-up after a minute.
abbrev after_query : UdpProxy
after_query = handle_client_data raw_inet (query ∷ []) idle

abbrev after_answer : UdpProxy
after_answer = handle_target_data 9 (received (codes "me") true 5 ∷ []) after_query

session_made :
    after_answer.sessions_by_client
    ≡ (
      addr_to_key raw_inet client,
      record { target_fd = 9; client_addr = client; last_activity = 5 },
    )
      ∷ []
unfolding handle_client_data handle_datagram get_or_create_session create_session enter
    forward_datagram touch handle_target_data tunnel_proxy.UdpProxy.forward_replies
    tunnel_proxy.UdpProxy.forward_reply started lookup insert addr_to_key equal to_string
session_made = refl

abbrev run : Reach raw_inet idle (tick 60000000000 after_answer)
run =
    next
      (next (next here (client_data idle (query ∷ []) (unfold started lookup in refl, tt)))
        (target_data after_query 9 (received (codes "me") true 5 ∷ [])))
      (ticks after_answer 60000000000)

Reach-Inv_example : Inv raw_inet (tick 60000000000 after_answer)
Reach-Inv_example = Reach-Inv raw_inet 30 10 0 run

abbrev at_last : UdpProxy
at_last = tick 60000000000 after_answer

Reach-promised_example : (view at_last, at_last.last_cleanup) ≡ promised raw_inet 30 10 0 run
Reach-promised_example = Reach-promised raw_inet 30 10 0 run
