-- ===== src/GuacWebSocket/Termination.antt =====
-- The loop of `handle_connection` ends, whatever the client sends.
use tunnel_proxy.Base.{
  ℕ, zero, suc, ◌+◌, ◌%◌, ◌≤◌, ◌<◌, ◌≡◌, ◌≢◌, refl, sym, ap, ◌∙◌, Bool, List, [], ◌∷◌, Option, none,
  some, inl, inr, Option-cases, leb, arith, get_or, length, length-append, Bytes, Effect, done,
  raised,
}
use tunnel_proxy.Socket.{Incoming, recv_exact}
use tunnel_proxy.Socket.Receive.{recv_loop_sound}
use tunnel_proxy.GuacParser.{Error, GuacInstruction, GuacParser, reset, feed}
use tunnel_proxy.GuacWebSocket.{
  WsRead, payload, over, too_long, read_payload, read_mask, read_size, read_ws_frame, unmask,
  big_endian,
}
use tunnel_proxy.GuacWebSocket.Routing.{Backend}
use tunnel_proxy.GuacWebSocket.Serving.{
  Run, still_running, program_terminated, returned, dispatch, dispatch_all, serve,
}

pub recv_exact_size :
    (i i' : Incoming) (n : ℕ) (out : Bytes)
    → recv_exact i n ≡ some (out, i')
    → length i'.bytes + n ≡ length i.bytes
unfolding recv_exact
recv_exact_size i i' n out h =
    let (whole, size) = recv_loop_sound i.arrivals i.bytes n [] out i' h in
    omega (arith, ap length whole, length-append out i'.bytes)

-- What is left of the stream when a payload is returned.
abbrev pub remaining : WsRead → ℕ
remaining (payload text i) = length i.bytes
remaining over = 0
remaining too_long = 0

-- An exact read leaves less than n, and what follows leaves no more.
read_then :
    (i : Incoming) (k : ℕ) (f : Bytes → Incoming → WsRead)
    → ((out : Bytes) (i' : Incoming) → remaining (f out i') ≤ length i'.bytes)
    → remaining (elim (recv_exact i k) [ none ↦ over | some (out, i') ↦ f out i' ]) ≤ length i.bytes
read_then i k f h = elim (Option-cases (recv_exact i k)) [
  | inl e ↦ rw e (omega arith)
  | inr ((out, i'), e) ↦ rw e (omega (arith, h out i', recv_exact_size i i' k out e))
]

ends_early : program_terminated ≢ still_running
ends_early = ground arith

returns : returned ≢ still_running
returns = ground arith

module _ (max_size : ℕ) where
  read_payload-le :
      (mask : Option Bytes) (n : ℕ) (i : Incoming)
      → remaining (read_payload max_size mask n i) ≤ length i.bytes
  unfolding read_payload
  read_payload-le mask n i =
      ground
        (arith, read_then i n (λ text i'. payload (unmask mask text) i') (λ out i'. omega arith))

  read_mask-le :
      (masked : Bool) (n : ℕ) (i : Incoming)
      → remaining (read_mask max_size masked n i) ≤ length i.bytes
  unfolding read_mask
  read_mask-le masked n i = ground (
    arith,
    read_payload-le none n i,
    read_then i 4 (λ mask i'. read_payload max_size (some mask) n i')
        (λ mask i'. read_payload-le (some mask) n i'),
  )

  pub read_size-le : (b : ℕ) (i : Incoming) → remaining (read_size max_size b i) ≤ length i.bytes
  unfolding read_size
  read_size-le b i =
      let masked = leb 128 b in
      let after : (k : ℕ) → _ = λ k.
        read_then i k (λ ext i'. read_mask max_size masked (big_endian 0 ext) i')
          (λ ext i'. read_mask-le masked (big_endian 0 ext) i') in
      ground (arith, after 2, after 8, read_mask-le masked (b % 128) i)

  read_ws_frame-lt :
      (i i' : Incoming) (text : Bytes)
      → read_ws_frame max_size i ≡ payload text i'
      → length i'.bytes < length i.bytes
  read_ws_frame-lt i i' text h = elim (Option-cases (recv_exact i 2)) [
    | inl e ↦ absurd (unfold read_ws_frame in ground arith)
    | inr ((hdr, i₁), e) ↦
        let rest : payload text i' ≡ read_size max_size (get_or hdr 1 0) i₁ =
          sym h ∙ unfold read_ws_frame in ground arith in
        omega
          (arith, ap remaining rest, read_size-le (get_or hdr 1 0) i₁, recv_exact_size i i₁ 2 hdr e)
  ]

  abbrev Ends : Run → Type 0
  Ends r = r.1 ≢ still_running

  dispatch_all-Ends :
      (b : Backend) (cis : List GuacInstruction) (r : Run) → Ends r → Ends (dispatch_all b cis r)
  dispatch_all-Ends b [] r h = h
  dispatch_all-Ends b (ci ∷ cis) r h = elim (Option-cases (dispatch b ci)) [
    | inl e ↦ rw (dispatch_all, e) ends_early
    | inr (calls, e) ↦ rw (dispatch_all, e) (dispatch_all-Ends b cis r h)
  ]

  fed_Ends :
      (r : Effect Error GuacParser) (fuel : ℕ) (b : Backend) (i : Incoming)
      → ((q : GuacParser) → Ends (serve max_size fuel b q i))
      → Ends (elim r [
        | raised e q ↦ serve max_size fuel b (reset q) i
        | done q ↦ dispatch_all b q.ready (serve max_size fuel b (record q { ready = [] }) i)
      ])
  fed_Ends (raised e q) fuel b i h = h (reset q)
  fed_Ends (done q) fuel b i h = dispatch_all-Ends b q.ready _ (h (record q { ready = [] }))

  -- One turn of the loop, by what is read.
  read_Ends :
      (r : WsRead) (fuel : ℕ) (b : Backend) (p : GuacParser) (i : Incoming)
      → read_ws_frame max_size i ≡ r
      → ((q : GuacParser) (text : Bytes) (i' : Incoming)
          → r ≡ payload text i'
          → Ends (serve max_size fuel b q i'))
      → Ends (serve max_size (suc fuel) b p i)
  unfolding serve
  read_Ends over fuel b p i e h = rw (serve, e) returns
  read_Ends too_long fuel b p i e h = rw (serve, e) ends_early
  read_Ends (payload [] i') fuel b p i e h = rw (serve, e) returns
  read_Ends (payload (c ∷ cs) i') fuel b p i e h =
      rw (serve, e) (fed_Ends (feed max_size p (c ∷ cs)) fuel b i' (λ q. h q (c ∷ cs) i' refl))

  -- Whatever arrives, the loop over the frames ends within one round more than the stream has bytes.
  pub serve-ends :
      (fuel : ℕ) (b : Backend) (p : GuacParser) (i : Incoming)
      → length i.bytes < fuel
      → (serve max_size fuel b p i).1 ≢ still_running
  serve-ends zero b p i h = absurd (omega arith)
  serve-ends (suc fuel) b p i h =
      read_Ends (read_ws_frame max_size i) fuel b p i refl
        (λ q text i' e. serve-ends fuel b q i' (omega (arith, read_ws_frame-lt i i' text e)))
