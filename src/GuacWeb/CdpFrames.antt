-- ===== src/GuacWeb/CdpFrames.antt =====
-- `cdp_send` and `cdp_recv` of src/guac_web.cpp against the frame format of RFC 6455.
use tunnel_proxy.Base.{
  ℕ, zero, suc, ◌+◌, ◌%◌, ◌^◌, ◌≤◌, ◌<◌, ◌≡◌, ◌≢◌, refl, ap, ap₂, subst, Bool, true, false, min,
  take, take_all, ltb, inl, inr, Bool-cases, Option-cases, get_or, ◌∙◌, List, [], ◌∷◌, ◌++◌, none,
  some, map, arith, append_assoc, ◌==◌, length, All, Bytes, IsBytes,
}
use tunnel_proxy.Socket.{Incoming, recv_exact}
use tunnel_proxy.Socket.Receive.{NoFailure, recv_exact-prefix}
use tunnel_proxy.GuacWebSocket.Mask.{Key, key_bytes, apply_mask-veiled}
use tunnel_proxy.GuacWebSocket.Wire.{wire, body, flag, code, extension}
use tunnel_proxy.GuacWebSocket.Codec.{read_size-wire}
use tunnel_proxy.GuacWebSocket.Termination.{remaining, read_size-le, recv_exact_size}
use tunnel_proxy.GuacWebSocket.{WsRead, over, too_long, payload, read_size}
use tunnel_proxy.GuacWeb.Cdp.{
  cdp_text, masked_size, masked_frame, cdp_send, pong, Received, message, broken, terminated,
  still_reading, with_pong, take_frame, cdp_recv,
}

masked_frame-wire :
    (key : Key) (text : Bytes)
    → length text < 2 ^ 64
    → masked_frame (key_bytes key) text ≡ wire 0x81 (some key) text
unfolding masked_frame masked_size
masked_frame-wire key text h = ground (arith, apply_mask-veiled key text)

-- What went out of a frame, and the result, where `send` takes at most `reply` bytes.
abbrev pub Went : Bytes → ℕ → Bytes × Bool → Type 0
Went frame reply r =
    (length frame ≤ reply → r ≡ (frame, true))
    × (reply < length frame → r ≡ (take reply frame, ltb 0 reply))

frame-Went :
    (frame : Bytes) (reply : ℕ)
    → 0 < length frame
    → let n = min reply (length frame) in Went frame reply (take n frame, ltb 0 n)
frame-Went frame reply h = (
  λ more. ap₂ (λ t b. (t, b)) (take_all frame _ (omega arith)) (ground arith),
  λ less.
      let n : min reply (length frame) ≡ reply = omega arith in ap (λ m. (take m frame, ltb 0 m)) n,
)

-- For every message of less than 2 ^ 64 bytes, `cdp_send` hands `send` the text frame of RFC 6455 that
-- is masked with the four random bytes: it goes out whole, with the result true, if `send` takes all
-- of it, and else as far as `send` takes it, with the result true if that is any byte.
pub cdp_send-wire :
    (key : Key) (reply id : ℕ) (method params : Bytes)
    → length (cdp_text id method params) < 2 ^ 64
    → Went
        (wire 0x81 (some key) (cdp_text id method params))
        reply
        (cdp_send (some (key_bytes key)) reply id method params)
unfolding cdp_send
cdp_send-wire key reply id method params h =
    let m = masked_frame (key_bytes key) (cdp_text id method params) in
    subst (λ f. Went f reply (take (min reply (length m)) m, ltb 0 (min reply (length m))))
      (masked_frame-wire key (cdp_text id method params) h)
      (frame-Went m reply (unfold masked_frame in omega arith))

-- The Ping frames with these payloads, one behind the other.
abbrev pub pings : List Bytes → Bytes
pings [] = []
pings (p ∷ ps) = wire 0x89 none p ++ pings ps

pong-ends :
    (text : Bytes) (r : Received) → r ≢ still_reading → with_pong (pong text) r ≢ still_reading
pong-ends text (message ps m i) h e = ground arith
pong-ends text broken h e = ground arith
pong-ends text terminated h e = ground arith
pong-ends text still_reading h e = h refl

module _ (max_size : ℕ) where
  abbrev pub Fits : Bytes → Type 0
  Fits text = IsBytes text × (length text ≤ max_size) × (length text < 2 ^ 64)

  -- One frame is read, up to what is done with it.
  frame_read :
      (op fuel : ℕ) (text rest : Bytes) (i : Incoming)
      → Fits text
      → NoFailure i.arrivals
      → i.bytes ≡ wire op none text ++ rest
      → (i' : Incoming) × (cdp_recv max_size (suc fuel) i
          ≡ take_frame (op % 16) (payload text i') (cdp_recv max_size fuel))
        × (i'.bytes ≡ rest)
        × NoFailure i'.arrivals
  unfolding cdp_recv
  frame_read op fuel text rest i (bytes, fits, size) ok_all e =
      let n = length text in
      let (i₁, got, e₁, ok₁) =
        recv_exact-prefix i (op ∷ (flag none + code n) ∷ [])
          ((extension n ++ body none text) ++ rest) 2 ok_all e refl in
      let (i₂, read, e₂, ok₂) =
        read_size-wire max_size none text rest i₁ tt bytes fits size ok₁ e₁ in
      (
        i₂,
        rw (got, cdp_recv) (ap (λ r. take_frame (op % 16) r (cdp_recv max_size fuel)) read),
        e₂,
        ok₂,
      )

  -- Of unmasked frames whose payloads fit in a string, and if no recv fails, `cdp_recv` gives the
  -- payload of the first that is no Ping, if it is no Close either, however the stream is cut; it
  -- has answered every Ping before it, in order, and leaves the bytes behind the frame.
  pub cdp_recv-wire :
      (ps : List Bytes) (op fuel : ℕ) (text rest : Bytes) (i : Incoming)
      → All Fits ps
      → Fits text
      → op % 16 ≢ 8
      → op % 16 ≢ 9
      → length ps < fuel
      → NoFailure i.arrivals
      → i.bytes ≡ pings ps ++ (wire op none text ++ rest)
      → (i' : Incoming) × (cdp_recv max_size fuel i ≡ message (map pong ps) text i')
        × (i'.bytes ≡ rest)
        × NoFailure i'.arrivals
  cdp_recv-wire ps op zero text rest i fs f a b l ok_all e = absurd (omega arith)
  cdp_recv-wire [] op (suc fuel) text rest i fs f a b l ok_all e =
      let (i', read, e', ok') = frame_read op fuel text rest i f ok_all e in
      let not_8 : (op % 16 == 8) ≡ false = ground arith in
      let not_9 : (op % 16 == 9) ≡ false = ground arith in
      (i', read ∙ rw (not_8, not_9) refl, e', ok')
  cdp_recv-wire (p ∷ ps) op (suc fuel) text rest i (fp, fs) f a b l ok_all e =
      let (i₁, read, e₁, ok₁) =
        frame_read 0x89 fuel p (pings ps ++ (wire op none text ++ rest)) i fp ok_all
          (e ∙ append_assoc (wire 0x89 none p) (pings ps) (wire op none text ++ rest)) in
      let (i', got, e', ok') =
        cdp_recv-wire ps op fuel text rest i₁ fs f a b (omega arith) ok₁ e₁ in
      (i', read ∙ ap (with_pong (pong p)) got, e', ok')

  frame-ends :
      (op fuel : ℕ) (r : WsRead)
      → remaining r < fuel
      → ((i : Incoming) → length i.bytes < fuel → cdp_recv max_size fuel i ≢ still_reading)
      → take_frame op r (cdp_recv max_size fuel) ≢ still_reading
  frame-ends op fuel (payload text i) l h = elim (Bool-cases (op == 8)) [
    | inl close ↦ rw close (λ e. ground arith)
    | inr not_8 ↦ elim (Bool-cases (op == 9)) [
      | inl ping ↦ rw (not_8, ping) (pong-ends text (cdp_recv max_size fuel i) (h i l))
      | inr not_9 ↦ rw (not_8, not_9) (λ e. ground arith)
    ]
  ]
  frame-ends op fuel over l h = λ e. ground arith
  frame-ends op fuel too_long l h = λ e. ground arith

  -- Whatever Chrome sends, the loop of `cdp_recv` ends within one round more than the stream has bytes.
  pub cdp_recv-ends :
      (fuel : ℕ) (i : Incoming) → length i.bytes < fuel → cdp_recv max_size fuel i ≢ still_reading
  unfolding cdp_recv
  cdp_recv-ends zero i h = absurd (omega arith)
  cdp_recv-ends (suc fuel) i h = elim (Option-cases (recv_exact i 2)) [
    | inl e ↦ rw (e, cdp_recv) (λ b. ground arith)
    | inr ((hdr, i₁), e) ↦
        rw (e, cdp_recv)
          (frame-ends (get_or hdr 0 0 % 16) fuel (read_size max_size (get_or hdr 1 0) i₁)
            (omega (arith, read_size-le max_size (get_or hdr 1 0) i₁, recv_exact_size i i₁ 2 hdr e))
            (λ j l. cdp_recv-ends fuel j l))
  ]
