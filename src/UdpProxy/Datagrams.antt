-- ===== src/UdpProxy/Datagrams.antt =====
-- Where the loop over the datagrams of the clients ends.
use tunnel_proxy.Base.{◌≡◌, ◌≢◌, refl, List, [], ◌∷◌, ◌++◌, All}
use tunnel_proxy.Protocol.Inet.{Inet}
use tunnel_proxy.UdpProxy.{Datagram, UdpProxy, handle_datagram, handle_client_data}

-- The datagrams one after the other, none of them skipped.
abbrev pub handle_each : Inet → List Datagram → UdpProxy → UdpProxy
handle_each inet [] s = s
handle_each inet (d ∷ ds) s = handle_each inet ds (handle_datagram inet d s)

-- The datagrams before the first empty one are handled, one after the other; it and those behind
-- it are not, though they have arrived.
pub handle_client_data-stops :
    (inet : Inet) (front rest : List Datagram) (d : Datagram) (s : UdpProxy)
    → All (λ (e : Datagram). e.bytes ≢ []) front
    → d.bytes ≡ []
    → handle_client_data inet (front ++ (d ∷ rest)) s ≡ handle_each inet front s
unfolding handle_client_data
handle_client_data-stops inet [] rest d s full empty = rw (empty, handle_client_data) refl
handle_client_data-stops inet (e ∷ front) rest d s full empty =
    elim e.bytes
        as (λ bytes.
          bytes ≢ []
          → elim bytes [
            | [] ↦ s
            | b ∷ bs ↦ handle_client_data inet (front ++ (d ∷ rest)) (handle_datagram inet e s)
          ]
            ≡ handle_each inet front (handle_datagram inet e s)) [
              | [] ↦ λ ne. absurd (ne refl)
              | b ∷ bs ↦ λ ne. handle_client_data-stops inet front rest d _ full.1 empty
            ]
      full.0
