-- ===== src/EpollProxy/Readable.antt =====
-- A readable event of src/epoll_proxy.cpp, in a state that the proxy reaches.
use tunnel_proxy.Base.Maps.{ℕ_key, lookup}
use tunnel_proxy.Base.{ℕ, ◌≡◌, refl, true, false, List, [], ◌∷◌, some, arith, All, done}
use tunnel_proxy.EpollProxy.{
  ConnState, Pipe, EpollProxy, In, started, forward_data, handle_event, acquire_pipe, relay,
}
use tunnel_proxy.EpollProxy.Relay.{Relayed, read_of, forward_data-Relayed}
use tunnel_proxy.EpollProxy.Steps.{Runs, Runs-Inv}

acquire_pipe-some :
    (fds : ℕ × ℕ) (s : EpollProxy) (pool : List Pipe)
    → s.pipe_pool ≡ pool
    → (p : Pipe) × (s' : EpollProxy) × (acquire_pipe (some fds) s ≡ some (p, s'))
unfolding acquire_pipe
acquire_pipe-some fds s [] e =
    (record { read_end = fds.0; write_end = fds.1; held = [] }, s, rw e refl)
acquire_pipe-some fds s (p ∷ ps) e = (p, record s { pipe_pool = ps }, rw e refl)

forward_data-done :
    (fds : ℕ × ℕ) (ins : List In) (from_fd to_fd : ℕ) (s : EpollProxy)
    → (t : EpollProxy) × (forward_data (some fds) ins from_fd to_fd s ≡ done t)
unfolding forward_data
forward_data-done fds ins from_fd to_fd s =
    let (p, s', e) = acquire_pipe-some fds s s.pipe_pool refl in
    (relay ins p from_fd to_fd s', ground arith)

-- In every state that `run` reaches, and unless `pipe2` fails, a readable event on a connection hands
-- to the other side a front part of the bytes that are read, in order and nothing else; either these
-- are all, or the connection is closed.
pub Runs-relays :
    (pipes : List Pipe) (s : EpollProxy) (fds : ℕ × ℕ) (ins : List In) (fd : ℕ) (c : ConnState)
    → All (λ p. p.held ≡ []) pipes
    → Runs (started pipes) s
    → lookup fd s.connections ≡ some c
    → (t : EpollProxy) × (handle_event false true (some fds) ins fd s ≡ done t)
      × Relayed fd c.peer_fd (read_of ins) s t
unfolding handle_event
Runs-relays pipes s fds ins fd c empty r found =
    let (t, finished) = forward_data-done fds ins fd c.peer_fd s in
    let v = Runs-Inv pipes empty r in
    (t, rw found finished, forward_data-Relayed fd c.peer_fd (some fds) ins s t v.1 finished)
