-- ===== src/TunnelAgent/Retrying.antt =====
-- The delays of `run`, and a connection whose HELLO cannot be sent.
use tunnel_proxy.Base.{
  ℕ, zero, suc, ◌*◌, ◌^◌, ◌≤◌, ◌≡◌, refl, ap, ◌∙◌, Bool, true, false, List, [], ◌∷◌, ◌++◌, Option,
  some, ltb, if◌then◌else◌, arith, length, Bytes, ok, raised, left,
}
use tunnel_proxy.Protocol.Inet.{Inet}
use tunnel_proxy.Protocol.Types.{TunnelFrame}
use tunnel_proxy.Protocol.{make_hello, serialize}
use tunnel_proxy.Socket.{send_all}
use tunnel_proxy.TunnelAgent.Running.{
  Attempt, min, run, run_loop, connect, exchange_hello, say_hello, await_hello_ack,
}
use tunnel_proxy.TunnelAgent.State.{TunnelAgent, send_failed, sent, count}
use tunnel_proxy.TunnelMetrics
use tunnel_proxy.TunnelAgent.{connect_to, send_frame, send_on}

pow_pos : (n : ℕ) → 1 ≤ 2 ^ n
pow_pos zero = omega arith
pow_pos (suc n) = let h = pow_pos n in omega arith

doubled : (n : ℕ) → 2 * 2 ^ n ≡ 2 ^ suc n
doubled n = omega arith

capped : {a b : ℕ} → a ≡ b → min a 60 ≡ min b 60
capped e = ap (λ x. min x 60) e

grows :
    (d q : ℕ) (b : Bool)
    → ltb 60 (d * 2) ≡ b
    → min ((if b then 60 else d * 2) * suc q) 60 ≡ min (d * (2 * suc q)) 60
grows d q true e = grind arith
grows d q false e = capped {a = d * 2 * suc q} {b = d * (2 * suc q)} (grind arith)

grows_pos : (d p : ℕ) → 1 ≤ p → min (min (d * 2) 60 * p) 60 ≡ min (d * (2 * p)) 60
grows_pos d zero h = absurd (omega arith)
grows_pos d (suc q) h = grows d q (ltb 60 (d * 2)) refl

on_running :
    (n d : ℕ) (t : TunnelAgent) (rest : ℕ × TunnelAgent) (b : Bool)
    → t.running ≡ b
    → (rest.1.running ≡ true → rest.0 ≡ n)
    → (if b then rest else (d, t)).1.running ≡ true
    → (if b then rest else (d, t)).0 ≡ n
on_running n d t rest true e f h = f h
on_running n d t rest false e f h = cc

run_loop-delay :
    (attempts : List Attempt) (first : Bool) (d : ℕ) (s : TunnelAgent)
    → d ≤ 60
    → (run_loop attempts first d s).1.running ≡ true
    → (run_loop attempts first d s).0 ≡ min (d * 2 ^ length attempts) 60
unfolding run_loop
run_loop-delay [] first d s k h = ground arith
run_loop-delay (attempt ∷ attempts) first d s k h =
    let s' = left (attempt (if first then s else count TunnelMetrics.record_reconnect s)) in
    let double : 2 * 2 ^ length attempts ≡ 2 ^ length (attempt ∷ attempts) =
      doubled (length attempts) in
    let t = record s' { current_reconnect_delay = d } in
    on_running (min (d * 2 ^ length (attempt ∷ attempts)) 60) d
      (record s' { current_reconnect_delay = 0 }) (run_loop attempts false (min (d * 2) 60) t)
      s'.running refl
      (λ h'.
        run_loop-delay attempts false (min (d * 2) 60) t (ground arith) h'
        ∙ grows_pos d (2 ^ length attempts) (pow_pos (length attempts))
        ∙ ap (λ x. min (d * x) 60) double)
      h

-- If the agent still runs after some rounds of `run`, its next delay is two to the number of rounds,
-- at most 60 seconds, whatever the rounds did: a good connection does not bring it back to 1.
pub run-delay :
    (attempts : List Attempt) (s : TunnelAgent)
    → (run attempts s).1.running ≡ true
    → (run attempts s).0 ≡ min (2 ^ length attempts) 60
unfolding run
run-delay attempts s h =
    run_loop-delay attempts true 1 _ (omega arith) h
    ∙ capped {a = 1 * 2 ^ length attempts} {b = 2 ^ length attempts} (omega arith)

-- Where the address is valid, the connection is made and HELLO has a frame that cannot be sent, the
-- attempt fails; its descriptor is not closed and stays in the state.
pub unsent_hello_stays_open :
    (inet : Inet) (fd now : ℕ) (addr : Bytes) (response : Option TunnelFrame) (hello : TunnelFrame)
    (s : TunnelAgent)
    → inet.pton s.server_ip ≡ some addr
    → make_hello s.agent_id ≡ ok hello
    → (send_all s.replies (serialize hello)).2 ≡ false
    → let r = connect inet (some fd) true response now s in
      ((t : TunnelAgent) × (r ≡ raised send_failed t)
        × (t.server_fd ≡ some fd)
        × (t.actions ≡ s.actions ++ (sent fd (send_all s.replies (serialize hello)).1 ∷ [])))
unfolding connect exchange_hello connect_to say_hello send_frame send_on await_hello_ack
unsent_hello_stays_open inet fd now addr response hello s known made fails =
    rw (known, connect_to) (rw (made, say_hello) (rw (fails, send_on) (_, refl, refl, refl)))
