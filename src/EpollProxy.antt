-- ===== src/EpollProxy.antt =====
-- include/core/epoll_proxy.h and src/epoll_proxy.cpp: TCP connections in pairs, relayed by splice
-- through a pool of pipes, in one thread. The kernel's answers are arguments.
pub mod WriteOut
pub mod Relay
pub mod Pairs
pub mod Steps
pub mod Readable
use tunnel_proxy.Base.Maps.{ℕ_key, lookup, insert, erase}
use tunnel_proxy.Base.{
  ℕ, ◌+◌, ◌-◌, ◌%◌, ◌^◌, min, Bool, true, false, List, [], ◌∷◌, ◌++◌, Option, none, some, ◌==◌,
  if◌then◌else◌, length, take, drop, Bytes, Effect, done, raised, then_do,
}

pub record ConnState : Type 0 where
  pub peer_fd : ℕ
  pub is_client : Bool

-- A pipe and the bytes that are in it.
pub record Pipe : Type 0 where
  pub read_end : ℕ
  pub write_end : ℕ
  pub held : Bytes

-- What the proxy hands to the kernel.
pub data Action : Type 0 where
  delivered : (to_fd : ℕ) → Bytes → Action
  closed : (fd : ℕ) → Action
  pipe_closed : Pipe → Action

-- `pipe_pool` has the back of the vector at its head, `actions` the last action.
pub record EpollProxy : Type 0 where
  pub running : Bool
  pub connections : List (ℕ × ConnState)
  pub total_connections : ℕ
  pub active_connections : ℕ
  pub pipe_pool : List Pipe
  pub actions : List Action

-- The exceptions, all of which leave `run`.
pub data Error : Type 0 where
  set_nonblocking epoll_ctl pipe2 : Error

abbrev pub act : Action → EpollProxy → EpollProxy
act a s = record s { actions = a ∷ s.actions }

-- `run` when the constructor has made the pipes.
unfoldable pub started : List Pipe → EpollProxy
started pipes = record {
  running = true;
  connections = [];
  total_connections = 0;
  active_connections = 0;
  pipe_pool = pipes;
  actions = [];
}

unfoldable pub stop : EpollProxy → EpollProxy
stop s = record s { running = false }

unfoldable pub close_connection : ℕ → EpollProxy → EpollProxy
close_connection fd s = elim (lookup fd s.connections) [
  | none ↦ s
  | some c ↦ record (act (closed c.peer_fd) (act (closed fd) s)) {
    connections = erase c.peer_fd (erase fd s.connections);
    active_connections = (s.active_connections + (2 ^ 64 - 1)) % 2 ^ 64;
  }
]

-- What `accept` gave, and how far the loop got with it: `set_nonblocking` threw for the client or
-- for the target, the target could not be connected, or one of the two was not registered.
pub data Accepted : Type 0 where
  client_blocks : (client_fd : ℕ) → Accepted
  no_target : (client_fd : ℕ) → Accepted
  target_blocks : (client_fd target_fd : ℕ) → Accepted
  not_registered : (client_fd target_fd : ℕ) → Accepted
  paired : (client_fd target_fd : ℕ) → Accepted

unfoldable pub map_both : ℕ → ℕ → EpollProxy → EpollProxy
map_both client_fd target_fd s = record s {
  connections =
      insert target_fd (record { peer_fd = client_fd; is_client = false })
        (insert client_fd (record { peer_fd = target_fd; is_client = true }) s.connections);
}

unfoldable pub count : EpollProxy → EpollProxy
count s = record s {
  total_connections = (s.total_connections + 1) % 2 ^ 64;
  active_connections = (s.active_connections + 1) % 2 ^ 64;
}

unfoldable pub accept_one : Accepted → EpollProxy → Effect Error EpollProxy
accept_one (client_blocks client_fd) s = raised set_nonblocking s
accept_one (no_target client_fd) s = done (act (closed client_fd) s)
accept_one (target_blocks client_fd target_fd) s = raised set_nonblocking s
accept_one (not_registered client_fd target_fd) s =
    raised epoll_ctl (map_both client_fd target_fd s)
accept_one (paired client_fd target_fd) s = done (count (map_both client_fd target_fd s))

-- Until `accept` fails.
unfoldable pub accept_connection : List Accepted → EpollProxy → Effect Error EpollProxy
accept_connection [] s = done s
accept_connection (a ∷ others) s = then_do (accept_one a s) (accept_connection others)

-- `created` is what `pipe2` makes when the pool is empty, `none` an error.
unfoldable pub acquire_pipe : Option (ℕ × ℕ) → EpollProxy → Option (Pipe × EpollProxy)
acquire_pipe created s = elim s.pipe_pool [
  | p ∷ ps ↦ some (p, record s { pipe_pool = ps })
  | [] ↦ elim created [
    | none ↦ none
    | some (read_end, write_end) ↦
        some (record { read_end = read_end; write_end = write_end; held = [] }, s)
  ]
]

unfoldable pub release_pipe : Pipe → EpollProxy → EpollProxy
release_pipe p s = record s { pipe_pool = p ∷ s.pipe_pool }

-- An answer to `splice` into a socket: a number of bytes, EAGAIN with what `poll` then says, or an
-- error.
pub data Out : Type 0 where
  took : ℕ → Out
  blocked : (writable : Bool) → Out
  out_failed : Out

-- The loop `while (written < n)`: `missing` bytes are to be written and the pipe holds `held`. What
-- is sent, what is left in the pipe, and whether all was written. When the answers are used up, the
-- kernel takes the rest.
unfoldable pub write_out : List Out → ℕ → Bytes → Bytes × Bytes × Bool
write_out [] missing held = (take missing held, drop missing held, true)
write_out (o ∷ os) missing held = if missing == 0 then ([], held, true) else elim o [
  | took k ↦
      let n = min k (min missing (length held)) in
      let more = write_out os (missing - n) (drop n held) in
      if n == 0 then ([], held, false) else (take n held ++ more.0, more.1, more.2)
  | blocked writable ↦
      let again = write_out os missing held in if writable then again else ([], held, false)
  | out_failed ↦ ([], held, false)
]

-- An answer to `splice` from a socket into the pipe: EAGAIN, an error, or bytes, none at the end of
-- the stream, and the answers when they are written out.
pub data In : Type 0 where
  would_block in_failed : In
  bytes_in : Bytes → List Out → In

unfoldable pub abandon : Pipe → ℕ → EpollProxy → EpollProxy
abandon p from_fd s = close_connection from_fd (act (pipe_closed p) s)

-- The loop of `forward_data` with the pipe p.
unfoldable pub relay : List In → Pipe → ℕ → ℕ → EpollProxy → EpollProxy
unfolding abandon
relay [] p from_fd to_fd s = release_pipe p s
relay (would_block ∷ rest) p from_fd to_fd s = release_pipe p s
relay (in_failed ∷ rest) p from_fd to_fd s = abandon p from_fd s
relay (bytes_in [] outs ∷ rest) p from_fd to_fd s = abandon p from_fd s
relay (bytes_in (b ∷ bs) outs ∷ rest) p from_fd to_fd s =
    let r = write_out outs (length (b ∷ bs)) (p.held ++ (b ∷ bs)) in
    let p' = record p { held = r.1 } in
    let s' = act (delivered to_fd r.0) s in
    let more = relay rest p' from_fd to_fd s' in if r.2 then more else abandon p' from_fd s'

unfoldable pub forward_data :
    Option (ℕ × ℕ) → List In → ℕ → ℕ → EpollProxy → Effect Error EpollProxy
unfolding relay
forward_data created ins from_fd to_fd s = elim (acquire_pipe created s) [
  | none ↦ raised pipe2 s
  | some (p, s') ↦ done (relay ins p from_fd to_fd s')
]

-- `hung_up`: EPOLLERR or EPOLLHUP is set; `readable`: EPOLLIN.
unfoldable pub handle_event :
    (hung_up readable : Bool) → Option (ℕ × ℕ) → List In → ℕ → EpollProxy → Effect Error EpollProxy
unfolding forward_data
handle_event hung_up readable created ins fd s =
    if hung_up
    then done (close_connection fd s)
    else if readable
    then elim (lookup fd s.connections) [
      | none ↦ done s
      | some c ↦ forward_data created ins fd c.peer_fd s
    ]
    else done s
