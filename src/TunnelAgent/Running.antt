-- ===== src/TunnelAgent/Running.antt =====
-- src/tunnel_agent.cpp: `connect_and_run` up to its loop and one round of it, the heartbeat
-- thread, `stop`, and the loop of `run`.
use tunnel_proxy.Base.{
  ℕ, ◌+◌, ◌-◌, ◌*◌, ◌/◌, ◌==◌, Bool, true, false, List, [], ◌∷◌, Option, none, some, ◌&&◌, ltb,
  if◌then◌else◌, Outcome, ok, throw, Effect, done, raised, left,
}
use tunnel_proxy.Protocol
use tunnel_proxy.Protocol.Inet.{Inet}
use tunnel_proxy.Protocol.Types.{TunnelFrame, hello_ack, open_msg, data_msg, close, heartbeat_ack}
use tunnel_proxy.Protocol.{make_hello, make_heartbeat}
use tunnel_proxy.TunnelAgent.State.{
  Session, TunnelAgent, Error, hello_not_made, no_hello_ack, closed, shut_down, detached, act,
  count,
}
use tunnel_proxy.TunnelAgent.{
  send_frame, connect_to, handle_open, handle_data, handle_close, hang_up,
}
use tunnel_proxy.TunnelMetrics

-- `close(server_fd_)`, unless it is -1.
abbrev pub close_fd : Option ℕ → TunnelAgent → TunnelAgent
close_fd none s = s
close_fd (some fd) s = act (closed fd) s

-- HELLO_ACK did not come: the connection is closed.
unfoldable pub refuse : TunnelAgent → Effect Error TunnelAgent
refuse s = raised no_hello_ack (
    count TunnelMetrics.record_connection_failure
      (record (close_fd s.server_fd s) { server_fd = none }))

-- The heartbeat thread starts.
unfoldable pub establish : ℕ → TunnelAgent → Effect Error TunnelAgent
establish now s = done (record (count TunnelMetrics.record_connection_success s) {
  last_ack_ns = now;
  heartbeat_thread = true;
})

-- `response` is the first frame of the server; `none` is a connection that ended before.
unfoldable pub await_hello_ack :
    Option TunnelFrame → ℕ → Effect Error TunnelAgent → Effect Error TunnelAgent
unfolding refuse establish
await_hello_ack response now (raised e s) = raised e s
await_hello_ack none now (done s) = refuse s
await_hello_ack (some frame) now (done s) = elim frame.type [
  | hello_ack ↦ establish now s
  | _ ↦ refuse s
]

unfoldable pub say_hello :
    Outcome Protocol.Error TunnelFrame → TunnelAgent → Effect Error TunnelAgent
say_hello (throw e) s = raised hello_not_made s
say_hello (ok frame) s = send_frame frame s

unfoldable pub exchange_hello :
    Option TunnelFrame → ℕ → Outcome Error ℕ × TunnelAgent → Effect Error TunnelAgent
unfolding await_hello_ack say_hello
exchange_hello response now (throw e, s) =
    raised e (count TunnelMetrics.record_connection_failure s)
exchange_hello response now (ok fd, s) =
    await_hello_ack response now
      (say_hello (make_hello s.agent_id) (record s { server_fd = some fd }))

module _ (inet : Inet) (socket : Option ℕ) (up : Bool) where
  -- `connect_and_run` up to its loop.
  unfoldable pub connect : Option TunnelFrame → ℕ → TunnelAgent → Effect Error TunnelAgent
  connect response now s =
      exchange_hello response now
        (connect_to inet socket up s.server_ip (count TunnelMetrics.record_connection_attempt s))

  -- One round of its loop.
  unfoldable pub handle_frame : TunnelFrame → ℕ → TunnelAgent → TunnelAgent
  handle_frame frame now s = elim frame.type [
    | open_msg ↦ handle_open inet socket up frame s
    | data_msg ↦ handle_data frame s
    | close ↦ handle_close frame s
    | heartbeat_ack ↦ record s { last_ack_ns = now }
    | _ ↦ s
  ]

-- The targets of all sessions are closed, their readers detached.
unfoldable pub drop_sessions : List (ℕ × Session) → TunnelAgent → TunnelAgent
unfolding hang_up
drop_sessions [] s = s
drop_sessions ((sid, session) ∷ m) s =
    drop_sessions m (act (detached sid) (hang_up session.target_fd s))

unfoldable pub cleanup_connection : TunnelAgent → TunnelAgent
unfolding drop_sessions
cleanup_connection s =
    let s' = drop_sessions s.sessions (record s { sessions = [] }) in
    record (close_fd s'.server_fd s') { heartbeat_thread = false; server_fd = none }

unfoldable pub stop : TunnelAgent → TunnelAgent
unfolding cleanup_connection
stop s =
    let t = record s { running = false } in
    if s.running
    then cleanup_connection (elim t.server_fd [ none ↦ t | some fd ↦ act (shut_down fd) t ])
    else s

unfoldable pub seconds_since_last_ack : ℕ → TunnelAgent → ℕ
seconds_since_last_ack now s = if s.last_ack_ns == 0 then 0 else (now - s.last_ack_ns) / 1000000000

-- One round of `heartbeat_loop` after its sleep: the next `elapsed`, or the end of the thread.
unfoldable pub beat : ℕ → TunnelAgent → Option ℕ × TunnelAgent
beat elapsed s =
    if ltb elapsed s.heartbeat_interval_s
    then (some (elapsed + 1), s)
    else elim (send_frame make_heartbeat s) [ done s' ↦ (some 1, s') | raised e s' ↦ (none, s') ]

unfoldable pub heartbeat_round : ℕ → ℕ → TunnelAgent → Option ℕ × TunnelAgent
unfolding beat
heartbeat_round elapsed now s =
    if ltb 0 s.last_ack_ns && ltb (s.heartbeat_timeout_s * 1000000000) (now - s.last_ack_ns)
    then (none, elim s.server_fd [ none ↦ s | some fd ↦ act (shut_down fd) s ])
    else beat elapsed s

abbrev pub max_reconnect_delay_s : ℕ
max_reconnect_delay_s = 60

abbrev pub min : ℕ → ℕ → ℕ
min a b = if ltb b a then b else a

-- What `run` does in one round: connect, live, and clean up, or throw.
abbrev pub Attempt : Type 0
Attempt = TunnelAgent → Effect Error TunnelAgent

-- The loop of `run` on its locals `first_attempt` and `delay_s`, with the `delay_s` it ends with.
unfoldable pub run_loop : List Attempt → Bool → ℕ → TunnelAgent → ℕ × TunnelAgent
run_loop [] first_attempt delay_s s = (delay_s, s)
run_loop (attempt ∷ attempts) first_attempt delay_s s =
    let s' = left (attempt (if first_attempt then s else count TunnelMetrics.record_reconnect s)) in
    let rest =
      run_loop attempts false (min (delay_s * 2) max_reconnect_delay_s)
        (record s' { current_reconnect_delay = delay_s }) in
    if s'.running then rest else (delay_s, record s' { current_reconnect_delay = 0 })

-- `run` while the attempts last.
unfoldable pub run : List Attempt → TunnelAgent → ℕ × TunnelAgent
unfolding run_loop
run attempts s = run_loop attempts true 1 (record s { running = true })
