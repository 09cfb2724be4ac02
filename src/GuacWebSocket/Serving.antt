-- ===== src/GuacWebSocket/Serving.antt =====
-- `handle_connection` of src/guac_websocket.cpp: the calls that it makes, in order.
use tunnel_proxy.Base.{
  ℕ, zero, suc, Bool, ◌&&◌, List, [], ◌∷◌, ◌++◌, Option, none, some, leb, ltb, if◌then◌else◌,
  length, get_or, codes, equal, Bytes, done, raised, ℤ, stoi,
}
use tunnel_proxy.Socket.{Incoming}
use tunnel_proxy.GuacParser.{GuacInstruction, GuacParser, new, reset, feed}
use tunnel_proxy.GuacWebSocket.{payload, over, too_long, read_ws_frame}
use tunnel_proxy.GuacWebSocket.Routing.{
  Backend, Route, ssh, web, chosen, refused, terminated, Gateway, route,
}
use tunnel_proxy.GuacWebSocket.Handshake.{do_ws_handshake}

pub data Call : Type 0 where
  -- The answer to the handshake, and a frame with an instruction.
  write_response : Bytes → Call
  send_instruction : GuacInstruction → Call
  connect disconnect : Backend → Call
  send_input : Bytes → Call
  send_mouse : (x y button_mask : ℤ) → Call
  send_key : (keysym : ℤ) (pressed : Bool) → Call
  close_fd : Call

-- The function returns, or an exception leaves the thread and the program ends; the last is the
-- model's own, out of fuel.
pub data Ending : Type 0 where
  returned program_terminated still_running : Ending

abbrev pub Run : Type 0
Run = List Call × Ending

abbrev pub calling : List Call → Run → Run
calling calls r = (calls ++ r.0, r.1)

-- `none` is an exception of std::stoi.
abbrev stoi_and : Bytes → (ℤ → Option (List Call)) → Option (List Call)
stoi_and text then_call = elim (stoi text) [ none ↦ none | some n ↦ then_call n ]

send_mouse_args : List Bytes → Option (List Call)
send_mouse_args args = stoi_and (get_or args 0 []) (λ x.
    stoi_and (get_or args 1 [])
      (λ y. stoi_and (get_or args 2 []) (λ button_mask. some (send_mouse x y button_mask ∷ []))))

send_key_args : List Bytes → Option (List Call)
send_key_args args =
    stoi_and (get_or args 0 [])
      (λ keysym. some (send_key keysym (equal (get_or args 1 []) (codes "1")) ∷ []))

-- One instruction of the browser.
unfoldable pub dispatch : Backend → GuacInstruction → Option (List Call)
unfolding send_mouse_args send_key_args
dispatch (ssh host port user password) ci =
    if equal ci.opcode (codes "key") && ltb 0 (length ci.args)
    then some (send_input (get_or ci.args 0 []) ∷ [])
    else some []
dispatch (web url width height) ci =
    if equal ci.opcode (codes "mouse") && leb 3 (length ci.args)
    then send_mouse_args ci.args
    else if equal ci.opcode (codes "key") && leb 2 (length ci.args)
    then send_key_args ci.args
    else some []
dispatch _ ci = some []

-- `while (parser.has_instruction())`, and then r.
abbrev pub dispatch_all : Backend → List GuacInstruction → Run → Run
dispatch_all b [] r = r
dispatch_all b (ci ∷ cis) r = elim (dispatch b ci) [
  | none ↦ ([], program_terminated)
  | some calls ↦ calling calls (dispatch_all b cis r)
]

-- Behind the loop.
abbrev pub finish : Backend → Run
finish b = (disconnect b ∷ close_fd ∷ [], returned)

module _ (max_size : ℕ) where
  -- A frame that cannot be parsed is dropped, and so is all that the parser held.
  unfoldable pub serve : ℕ → Backend → GuacParser → Incoming → Run
  serve zero b p i = ([], still_running)
  serve (suc fuel) b p i = elim (read_ws_frame max_size i) [
    | over ↦ finish b
    | too_long ↦ ([], program_terminated)
    | payload [] i' ↦ finish b
    | payload (c ∷ cs) i' ↦ elim (feed max_size p (c ∷ cs)) [
      | raised e q ↦ serve fuel b (reset q) i'
      | done q ↦ dispatch_all b q.ready (serve fuel b (record q { ready = [] }) i')
    ]
  ]

  -- The parser is reset, so what stands behind the first instruction is gone.
  unfoldable pub routed : Route → ℕ → GuacParser → Incoming → Run
  unfolding serve
  routed (chosen b) fuel p i = calling (connect b ∷ []) (serve fuel b (reset p) i)
  routed (refused err) fuel p i = (send_instruction err ∷ close_fd ∷ [], returned)
  routed terminated fuel p i = ([], program_terminated)

  unfoldable pub first_instruction : Gateway → ℕ → GuacParser → Incoming → Run
  unfolding routed
  first_instruction g fuel p i = elim p.ready [
    | [] ↦ (close_fd ∷ [], returned)
    | instr ∷ rest ↦ routed (route g instr) fuel (record p { ready = rest }) i
  ]

  unfoldable pub first_frame : Gateway → ℕ → Incoming → Run
  unfolding first_instruction
  first_frame g fuel i = elim (read_ws_frame max_size i) [
    | over ↦ (close_fd ∷ [], returned)
    | too_long ↦ ([], program_terminated)
    | payload [] i' ↦ (close_fd ∷ [], returned)
    | payload (c ∷ cs) i' ↦ elim (feed max_size new (c ∷ cs)) [
      | raised e q ↦ (close_fd ∷ [], returned)
      | done q ↦ first_instruction g fuel q i'
    ]
  ]

  -- `written`: the `write` of the response returned more than 0.
  unfoldable pub handle_connection :
      (accept_of : Bytes → Bytes) (written : Bool) → Gateway → ℕ → Incoming → Run
  unfolding first_frame
  handle_connection accept_of written g fuel i = elim (do_ws_handshake accept_of i) [
    | none ↦ (close_fd ∷ [], returned)
    | some (text, i') ↦
        if written
        then calling (write_response text ∷ []) (first_frame g fuel i')
        else (write_response text ∷ close_fd ∷ [], returned)
  ]
