-- ===== src/GuacWebSocket/Delivery.antt =====
-- What arrives in frames reaches the backend.
use tunnel_proxy.Base.{
  ℕ, zero, suc, ◌%◌, ◌^◌, ◌<◌, ◌≤◌, ◌≡◌, ◌≢◌, refl, sym, ap, ◌∙◌, List, [], ◌∷◌, ◌++◌, Option, none,
  some, true, false, equal, equal_iff, codes, ℤ, stoi, if◌then◌else◌, inl, inr, Option-cases,
  append-nil, arith, All, length, Bytes, IsBytes, Effect, done, raised, then_do, ok,
}
use tunnel_proxy.Socket.{Incoming, recv_loop, recv_exact}
use tunnel_proxy.Socket.Receive.{NoFailure}
use tunnel_proxy.GuacParser.{Error, GuacInstruction, GuacParser, new, reset, feed}
use tunnel_proxy.GuacParser.Stream.{feed_packets, joined, feed_packets-joined}
use tunnel_proxy.GuacParser.Queue.{behind, map_effect, feed_packets-behind}
use tunnel_proxy.GuacParser.RoundTrip.{serialize_all, AllFit, feed_packets-serialize_all}
use tunnel_proxy.GuacWebSocket.{payload, over, read_ws_frame}
use tunnel_proxy.GuacWebSocket.Mask.{Key}
use tunnel_proxy.GuacWebSocket.Codec.{read_ws_frame-wire}
use tunnel_proxy.GuacWebSocket.Wire.{wire, GoodKey}
use tunnel_proxy.GuacWebSocket.Routing.{
  Backend, vnc, ssh, rdp, web, http, http_tunnel, chosen, Gateway, route,
}
use tunnel_proxy.GuacWebSocket.Serving.{
  Run, Call, Ending, returned, program_terminated, calling, dispatch, dispatch_all, finish, serve,
  connect, disconnect, close_fd, send_input, send_mouse, send_key, first_frame, first_instruction,
  routed,
}

-- A frame of the browser.
pub record Frame : Type 0 where
  pub op : ℕ
  pub key : Option Key
  pub text : Bytes

pub record IsSendable (max_size : ℕ) (f : Frame) : Type 0 where
  pub not_close : f.op % 16 ≢ 8
  pub good_key : GoodKey f.key
  pub not_empty : f.text ≢ []
  pub bytes : IsBytes f.text
  pub fits : length f.text ≤ max_size
  pub fits_64 : length f.text < 2 ^ 64

abbrev pub texts : List Frame → List Bytes
texts [] = []
texts (f ∷ fs) = f.text ∷ texts fs

-- The frames one behind the other.
abbrev pub stream : List Frame → Bytes
stream [] = []
stream (f ∷ fs) = wire f.op f.key f.text ++ stream fs

dispatch_all-append :
    (b : Backend) (xs ys : List GuacInstruction) (r : Run)
    → dispatch_all b (xs ++ ys) r ≡ dispatch_all b xs (dispatch_all b ys r)
dispatch_all-append b [] ys r = refl
dispatch_all-append b (x ∷ xs) ys r = elim (Option-cases (dispatch b x)) [
  | inl e ↦ rw (dispatch_all, e) refl
  | inr (calls, e) ↦ rw (dispatch_all, e) (ap (calling calls) (dispatch_all-append b xs ys r))
]

-- What an instruction asks of a backend; `none` where a number cannot be read.
abbrev pub ssh_key : List Bytes → Option (List Call)
ssh_key [] = some []
ssh_key (text ∷ more) = some (send_input text ∷ [])

abbrev pub web_mouse : List Bytes → Option (List Call)
web_mouse (x ∷ y ∷ mask ∷ more) = elim (stoi x) [
  | none ↦ none
  | some i ↦ elim (stoi y) [
    | none ↦ none
    | some j ↦ elim (stoi mask) [ none ↦ none | some k ↦ some (send_mouse i j k ∷ []) ]
  ]
]
web_mouse _ = some []

abbrev pub web_key : List Bytes → Option (List Call)
web_key (keysym ∷ pressed ∷ more) = elim (stoi keysym) [
  | none ↦ none
  | some n ↦ some (send_key n (equal pressed (codes "1")) ∷ [])
]
web_key _ = some []

abbrev pub meaning : Backend → GuacInstruction → Option (List Call)
meaning (ssh host port user password) ci =
    if equal ci.opcode (codes "key") then ssh_key ci.args else some []
meaning (web url width height) ci =
    if equal ci.opcode (codes "mouse")
    then web_mouse ci.args
    else if equal ci.opcode (codes "key")
    then web_key ci.args
    else some []
meaning _ ci = some []

-- The calls for a list of instructions, up to the end of the session.
pub data Acts (b : Backend) : List GuacInstruction → List Call → Ending → Type 0 where
  leaves : Acts b [] (disconnect b ∷ close_fd ∷ []) returned
  acts :
      (ci : GuacInstruction) (cis : List GuacInstruction) (calls more : List Call) (e : Ending)
      → meaning b ci ≡ some calls
      → Acts b cis more e
      → Acts b (ci ∷ cis) (calls ++ more) e
  throws :
      (ci : GuacInstruction) (cis : List GuacInstruction)
      → meaning b ci ≡ none
      → Acts b (ci ∷ cis) [] program_terminated

not_key : (op : Bytes) → equal op (codes "mouse") ≡ true → equal op (codes "key") ≡ false
unfolding equal
not_key op h = rw ((equal_iff op (codes "mouse")).0 h) refl

ssh-meaning :
    (host : Bytes) (port : ℕ) (user password op : Bytes) (args : List Bytes)
    → let ci : GuacInstruction = record { opcode = op; args = args } in
      dispatch (ssh host port user password) ci ≡ meaning (ssh host port user password) ci
unfolding dispatch
ssh-meaning host port user password op [] = ground arith
ssh-meaning host port user password op (a ∷ more) = ground arith

web-meaning :
    (url : Bytes) (width height : ℤ) (op : Bytes) (args : List Bytes)
    → let ci : GuacInstruction = record { opcode = op; args = args } in
      dispatch (web url width height) ci ≡ meaning (web url width height) ci
unfolding dispatch
web-meaning url width height op [] = ground arith
web-meaning url width height op (a ∷ []) = ground arith
web-meaning url width height op (a ∷ b ∷ []) = ground (arith, not_key op)
web-meaning url width height op (a ∷ b ∷ c ∷ more) = ground arith

dispatch-meaning : (b : Backend) (ci : GuacInstruction) → dispatch b ci ≡ meaning b ci
unfolding dispatch
dispatch-meaning (ssh host port user password) ci =
    ssh-meaning host port user password ci.opcode ci.args
dispatch-meaning (web url width height) ci = web-meaning url width height ci.opcode ci.args
dispatch-meaning (vnc host port password) ci = refl
dispatch-meaning (rdp host port user password) ci = refl
dispatch-meaning (http url) ci = refl
dispatch-meaning (http_tunnel url agent_id) ci = refl

dispatch_all-Acts :
    (b : Backend) (is : List GuacInstruction)
    → Acts b is (dispatch_all b is (finish b)).0 (dispatch_all b is (finish b)).1
dispatch_all-Acts b [] = leaves
dispatch_all-Acts b (ci ∷ cis) = elim (Option-cases (dispatch b ci)) [
  | inl e ↦ rw (dispatch_all, e) (throws ci cis (sym (dispatch-meaning b ci) ∙ e))
  | inr (calls, e) ↦
      rw (dispatch_all, e)
        (acts ci cis calls _ _ (sym (dispatch-meaning b ci) ∙ e) (dispatch_all-Acts b cis))
]

recv_loop-nil : (rs : List ℕ) → recv_loop rs [] 2 [] ≡ none
unfolding recv_loop
recv_loop-nil [] = refl
recv_loop-nil (r ∷ rs) = ground arith

module _ (max_size : ℕ) where
  -- `feed` after the queue was emptied.
  abbrev emptied : GuacParser → GuacParser
  emptied q = record q { ready = [] }

  behind_done :
      (is : List GuacInstruction) (r : Effect Error GuacParser) (q : GuacParser)
      → map_effect (behind is) r ≡ done q
      → (q₂ : GuacParser) × (r ≡ done q₂) × (q.ready ≡ is ++ q₂.ready)
  behind_done is (done q₂) q h = (q₂, refl, ground arith)
  behind_done is (raised e q₂) q h = absurd (ground arith)

  rest_of :
      (r : Effect Error GuacParser) (q : GuacParser) (ds : List Bytes)
      → then_do r (λ q₁. feed_packets max_size q₁ ds) ≡ done q
      → (q₁ q₂ : GuacParser) × (r ≡ done q₁)
        × (feed_packets max_size (emptied q₁) ds ≡ done q₂)
        × (q.ready ≡ q₁.ready ++ q₂.ready)
  rest_of (raised e q₁) q ds h = absurd (ground arith)
  rest_of (done q₁) q ds h =
      let whole : behind q₁.ready (emptied q₁) ≡ q₁ =
        ap (λ is. record q₁ { ready = is }) (append-nil q₁.ready) in
      let (q₂, read, r) = behind_done q₁.ready (feed_packets max_size (emptied q₁) ds) q (
        sym (feed_packets-behind max_size q₁.ready ds (emptied q₁))
        ∙ ap (λ p. feed_packets max_size p ds) whole
        ∙ h) in
      (q₁, q₂, refl, read, r)

  -- One frame of a session that parses.
  serve_step :
      (fuel : ℕ) (b : Backend) (p q : GuacParser) (text : Bytes) (i i' : Incoming)
      → text ≢ []
      → read_ws_frame max_size i ≡ payload text i'
      → feed max_size p text ≡ done q
      → serve max_size (suc fuel) b p i
        ≡ dispatch_all b q.ready (serve max_size fuel b (emptied q) i')
  unfolding serve
  serve_step fuel b p q [] i i' ne read fed = absurd (ne refl)
  serve_step fuel b p q (c ∷ cs) i i' ne read fed = rw (serve, read, fed) refl

  recv_exact-nil : (i : Incoming) → i.bytes ≡ [] → recv_exact i 2 ≡ none
  unfolding recv_exact
  recv_exact-nil i e = ground (arith, recv_loop-nil i.arrivals)

  read_ws_frame-nil : (i : Incoming) → i.bytes ≡ [] → read_ws_frame max_size i ≡ over
  unfolding read_ws_frame
  read_ws_frame-nil i e = ground (arith, recv_exact-nil i e)

  serve-nil :
      (fuel : ℕ) (b : Backend) (p : GuacParser) (i : Incoming)
      → i.bytes ≡ []
      → serve max_size (suc fuel) b p i ≡ finish b
  unfolding serve
  serve-nil fuel b p i e = rw (serve, read_ws_frame-nil i e) refl

  serve-stream :
      (fs : List Frame) (fuel : ℕ) (b : Backend) (p q : GuacParser) (i : Incoming)
      → All (IsSendable max_size) fs
      → length fs < fuel
      → feed_packets max_size p (texts fs) ≡ done q
      → p.ready ≡ []
      → NoFailure i.arrivals
      → i.bytes ≡ stream fs
      → serve max_size fuel b p i ≡ dispatch_all b q.ready (finish b)
  serve-stream [] zero b p q i good more fed idle ok_all e = absurd (omega arith)
  serve-stream [] (suc fuel) b p q i good more fed idle ok_all e =
      let none_left : [] ≡ q.ready = ground arith in
      serve-nil fuel b p i e ∙ ap (λ is. dispatch_all b is (finish b)) none_left
  serve-stream (f ∷ fs) zero b p q i good more fed idle ok_all e = absurd (omega arith)
  serve-stream (f ∷ fs) (suc fuel) b p q i good more fed idle ok_all e =
      let v = good.0 in
      let (q₁, q₂, first, rest, r) = rest_of (feed max_size p f.text) q (texts fs) fed in
      let (i', read, e', ok') =
        read_ws_frame-wire max_size f.op f.key f.text (stream fs) i v.not_close v.good_key v.bytes
          v.fits v.fits_64 ok_all e in
      serve_step fuel b p q₁ f.text i i' v.not_empty read first
      ∙ ap (dispatch_all b q₁.ready)
          (serve-stream fs fuel b (emptied q₁) q₂ i' good.1 (omega arith) rest refl ok' e')
      ∙ sym (dispatch_all-append b q₁.ready q₂.ready (finish b))
      ∙ ap (λ is. dispatch_all b is (finish b)) (sym r)

  first_read :
      (g : Gateway) (fuel : ℕ) (q : GuacParser) (c : GuacInstruction) (text : Bytes)
      (i i' : Incoming)
      → text ≢ []
      → read_ws_frame max_size i ≡ payload text i'
      → feed max_size new text ≡ done q
      → q.ready ≡ c ∷ []
      → first_frame max_size g fuel i ≡ routed max_size (route g c) fuel (emptied q) i'
  unfolding first_frame
  first_read g fuel q c [] i i' ne read fed r = absurd (ne refl)
  first_read g fuel q c (t ∷ ts) i i' ne read fed r =
      rw (first_frame, read, fed, first_instruction, r) refl

  -- The first frame, if it holds one instruction.
  pub first_step :
      (g : Gateway) (fuel : ℕ) (c : GuacInstruction) (rest : Bytes) (f : Frame) (i : Incoming)
      → IsSendable max_size f
      → serialize_all (c ∷ []) ≡ ok f.text
      → AllFit max_size (c ∷ [])
      → NoFailure i.arrivals
      → i.bytes ≡ wire f.op f.key f.text ++ rest
      → (q : GuacParser) × (i' : Incoming) × (first_frame max_size g fuel i
          ≡ routed max_size (route g c) fuel (emptied q) i')
        × (i'.bytes ≡ rest)
        × NoFailure i'.arrivals
  first_step g fuel c rest f i v wrote fit ok_all e =
      let (q, fed, idle, r) =
        feed_packets-serialize_all max_size (c ∷ []) (f.text ∷ [])
          (wrote ∙ ap ok (sym (append-nil f.text))) fit in
      let fed_first =
        ap (feed max_size new) (sym (append-nil f.text))
        ∙ sym (feed_packets-joined max_size new (f.text ∷ []))
        ∙ fed in
      let (i', read, e', ok') =
        read_ws_frame-wire max_size f.op f.key f.text rest i v.not_close v.good_key v.bytes v.fits
          v.fits_64 ok_all e in
      (q, i', first_read g fuel q c f.text i i' v.not_empty read fed_first r, e', ok')

  -- The first frame holds a `connect` that chooses the backend b, the later frames hold the
  -- instructions `is` cut anywhere, the elements of all have lengths that fit, the frames are
  -- neither empty nor Close frames, and no `recv` fails before the stream ends. Then b is connected
  -- and makes the calls that the instructions mean, in order; behind the last it is disconnected,
  -- the descriptor is closed and the thread returns; but at the first instruction whose number
  -- std::stoi cannot read the program ends.
  pub first_frame-delivers :
      (g : Gateway) (b : Backend) (c : GuacInstruction) (is : List GuacInstruction) (f : Frame)
      (fs : List Frame) (fuel : ℕ) (i : Incoming)
      → All (IsSendable max_size) (f ∷ fs)
      → length fs < fuel
      → serialize_all (c ∷ []) ≡ ok f.text
      → route g c ≡ chosen b
      → serialize_all is ≡ ok (joined max_size (texts fs))
      → AllFit max_size (c ∷ is)
      → NoFailure i.arrivals
      → i.bytes ≡ stream (f ∷ fs)
      → (calls : List Call) × (e : Ending) × (first_frame max_size g fuel i
          ≡ (connect b ∷ calls, e))
        × Acts b is calls e
  unfolding new reset routed
  first_frame-delivers g b c is f fs fuel i good more wrote chose wrote_all fit ok_all e =
      let (q₁, i', first, e', ok') =
        first_step g fuel c (stream fs) f i good.0 wrote (fit.0, tt) ok_all e in
      let (q, fed, idle, r) = feed_packets-serialize_all max_size is (texts fs) wrote_all fit.1 in
      let run = dispatch_all b is (finish b) in
      (
        run.0,
        run.1,
        first
            ∙ ap (λ ro. routed max_size ro fuel (emptied q₁) i') chose
            ∙ ap (calling (connect b ∷ [])) (
                serve-stream fs fuel b new q i' good.1 more fed refl ok' e'
                ∙ ap (λ xs. dispatch_all b xs (finish b)) r),
        dispatch_all-Acts b is,
      )
