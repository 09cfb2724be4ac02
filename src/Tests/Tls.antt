-- ===== src/Tests/Tls.antt =====
-- The TLS proxy.
use tunnel_proxy.Base.Maps.{ℕ_key, lookup, insert, erase}
use tunnel_proxy.Base.{
  List, suc, ℕ, ◌≡◌, ◌≢◌, ◌⊎◌, refl, true, false, [], ◌∷◌, some, none, codes, done, arith,
}
use tunnel_proxy.TlsProxy.{
  SslRead, TargetRead, ConnState, Event, TlsProxy, shut_down, freed, closed, close_connection, took,
  would_block, plain, want_more, got, written, want_write, nothing, forward_client_to_target,
  forward_target_to_client, flush_write_buf,
}
use tunnel_proxy.TlsProxy.Handshake.{
  started, accepted, accept_one, accept_connection, establish, continue_handshake, dispatch,
  connected,
}
use tunnel_proxy.TlsProxy.Tables.{InvOf, held}
use tunnel_proxy.TlsProxy.Steps.{Runs, here, next, accepts, event, Runs-InvOf}
use tunnel_proxy.TlsProxy.Streams.{
  Moved, received, arrived, client_fails, target_fails, renegotiates,
}
use tunnel_proxy.TlsProxy.Relay.{
  loses_none, forward_client_to_target-Moved, forward_target_to_client-Moved,
}
use tunnel_proxy.TlsProxy.Flush.{stream, flush_fails, flush_write_buf-stream}
use tunnel_proxy.TlsProxy.Destroy.{destroy, times_freed, destroy-frees}
use tunnel_proxy.TlsProxy.Closing.{Pair, close_connection-Pair}

abbrev waiting : TlsProxy
waiting = record { running = true; pending_ssl = (7, 1) ∷ []; connections = []; actions = [] }

abbrev client : ConnState
client = record { peer_fd = 8; is_client = true; ssl = some 1; write_buf = [] }

abbrev target : ConnState
target = record { peer_fd = 7; is_client = false; ssl = none; write_buf = [] }

-- One client after its handshake.
abbrev joined : TlsProxy
joined = record {
  running = true;
  pending_ssl = [];
  connections = (7, client) ∷ (8, target) ∷ [];
  actions = [];
}

abbrev quiet : Event
quiet = record {
  hung_up = false;
  writable = false;
  readable = true;
  flush_writes = [];
  flush_ssl = written;
  client_reads = [];
  target_reads = [];
}

first_client : accept_connection (accepted 7 1 ∷ []) started ≡ done waiting
unfolding accept_connection accept_one started insert
first_client = refl

handshake : dispatch (connected 8) quiet 7 waiting ≡ done joined
unfolding dispatch continue_handshake establish lookup insert erase
handshake = refl

run : Runs started joined
unfolding started lookup
run =
    next
      (next here (
        accepts started waiting (accepted 7 1 ∷ [])
          (((refl, refl), λ g h. absurd (ground arith)), λ t h. tt) first_client))
      (event waiting joined (connected 8) quiet 7 (refl, refl) handshake)

Runs-InvOf_example : InvOf joined.pending_ssl joined.connections
Runs-InvOf_example = Runs-InvOf run

pair : Pair joined 7 8 1
unfolding lookup
pair = record {
  client = client;
  target = target;
  client_at = refl;
  target_at = refl;
  client_peer = refl;
  target_peer = refl;
  sides = (refl, refl);
  its_ssl = refl;
}

close_connection-Pair_example :
    let t = close_connection 7 joined in
    let u = close_connection 8 joined in
    (t.actions ≡ closed 8 ∷ closed 7 ∷ freed 1 ∷ shut_down 1 ∷ [])
    × (u.actions ≡ closed 7 ∷ closed 8 ∷ freed 1 ∷ shut_down 1 ∷ [])
    × (t.connections ≡ u.connections)
    × (lookup 7 t.connections ≡ none)
    × (lookup 8 t.connections ≡ none)
    × ((g : ℕ) → held t.pending_ssl t.connections g ≢ some 1)
close_connection-Pair_example = close_connection-Pair 7 8 1 joined (Runs-InvOf run) pair

abbrev reads : List SslRead
reads = plain (codes "abc") (took 1 ∷ would_block ∷ []) ∷ plain (codes "d") [] ∷ want_more ∷ []

forward_client_to_target-Moved_example :
    Moved received client_fails loses_none reads 7 8 joined
      (forward_client_to_target reads 7 8 joined)
forward_client_to_target-Moved_example = forward_client_to_target-Moved reads 7 8 joined

abbrev answers : List TargetRead
answers = got (codes "ab") written ∷ got (codes "cd") want_write ∷ nothing ∷ []

forward_target_to_client-Moved_example :
    Moved arrived target_fails renegotiates answers 8 7 joined
      (forward_target_to_client answers 8 7 joined)
forward_target_to_client-Moved_example = forward_target_to_client-Moved answers 8 7 joined

-- Three bytes wait for the target.
abbrev backlog : TlsProxy
backlog = record joined {
  connections = (7, client) ∷ (8, record target { write_buf = codes "abc" }) ∷ [];
}

backlog_found : lookup 8 backlog.connections ≡ some (record target { write_buf = codes "abc" })
unfolding lookup
backlog_found = refl

flush_write_buf-stream_example :
    let t = flush_write_buf (took 2 ∷ would_block ∷ []) written 8 backlog in
    ((lookup 8 t.connections ≡ none)
      × (flush_fails false (took 2 ∷ would_block ∷ []) written ≡ true))
    ⊎ (stream 8 t ≡ stream 8 backlog)
flush_write_buf-stream_example =
    flush_write_buf-stream (took 2 ∷ would_block ∷ []) written 8
      (record target { write_buf = codes "abc" }) backlog backlog_found

destroy-frees_example :
    ((fd : ℕ)
      → held joined.pending_ssl joined.connections fd ≡ some 1
      → times_freed 1 (destroy joined).actions ≡ suc (times_freed 1 joined.actions))
    × (((g : ℕ) → held joined.pending_ssl joined.connections g ≢ some 1)
        → times_freed 1 (destroy joined).actions ≡ times_freed 1 joined.actions)
destroy-frees_example = destroy-frees joined (Runs-InvOf run) 1
