-- ===== src/Tests/Epoll.antt =====
-- The epoll proxy.
use tunnel_proxy.Base.Maps.{ℕ_key, lookup, insert}
use tunnel_proxy.Base.{◌≡◌, refl, true, false, List, [], ◌∷◌, some, codes, done}
use tunnel_proxy.EpollProxy.{
  ConnState, Pipe, EpollProxy, started, accept_connection, accept_one, map_both, count, paired,
  handle_event, took, blocked, bytes_in, would_block,
}
use tunnel_proxy.EpollProxy.Relay.{Relayed}
use tunnel_proxy.EpollProxy.Steps.{Runs, here, next, accepts, Inv, Runs-Inv}
use tunnel_proxy.EpollProxy.Readable.{Runs-relays}

abbrev pipes : List Pipe
pipes = record { read_end = 5; write_end = 6; held = [] } ∷ []

abbrev client : ConnState
client = record { peer_fd = 8; is_client = true }

abbrev target : ConnState
target = record { peer_fd = 7; is_client = false }

-- One client that was connected.
abbrev connected : EpollProxy
connected = record {
  running = true;
  connections = (7, client) ∷ (8, target) ∷ [];
  total_connections = 1;
  active_connections = 1;
  pipe_pool = pipes;
  actions = [];
}

accepted : accept_connection (paired 7 8 ∷ []) (started pipes) ≡ done connected
unfolding accept_connection accept_one map_both count started insert
accepted = refl

run : Runs (started pipes) connected
unfolding started lookup
run =
    next here
      (accepts (started pipes) connected (paired 7 8 ∷ []) ((refl, refl, refl), λ t h. tt) accepted)

Runs-Inv_example : Inv connected
Runs-Inv_example = Runs-Inv pipes (refl, tt) run

found : lookup 7 connected.connections ≡ some client
unfolding lookup
found = refl

Runs-relays_example :
    (t : EpollProxy) × (handle_event false true
        (some (9, 10))
        (bytes_in (codes "abc") (took 1 ∷ blocked true ∷ []) ∷ would_block ∷ [])
        7
        connected
      ≡ done t)
    × Relayed 7 8 (codes "abc") connected t
Runs-relays_example =
    Runs-relays pipes connected (9, 10)
      (bytes_in (codes "abc") (took 1 ∷ blocked true ∷ []) ∷ would_block ∷ []) 7 client (refl, tt)
      run found
