-- ===== src/GuacWebSocket/BadPort.antt =====
-- A port that is no number.
use tunnel_proxy.Base.{
  ℕ, ◌≡◌, refl, ap, ◌∙◌, ◌⊎◌, inl, inr, List, [], ◌∷◌, ◌++◌, none, codes, Bytes, ok, stoi, equal,
}
use tunnel_proxy.Socket.{Incoming}
use tunnel_proxy.Socket.Receive.{NoFailure}
use tunnel_proxy.GuacParser.{GuacInstruction}
use tunnel_proxy.GuacParser.RoundTrip.{serialize_all, AllFit}
use tunnel_proxy.GuacWebSocket.Wire.{wire}
use tunnel_proxy.GuacWebSocket.Routing.{Gateway, route, terminated}
use tunnel_proxy.GuacWebSocket.Serving.{first_frame, routed, program_terminated}
use tunnel_proxy.GuacWebSocket.Delivery.{Frame, IsSendable, first_step}

abbrev pub connect_to : (protocol host port : Bytes) → List Bytes → GuacInstruction
connect_to protocol host port rest = record {
  opcode = codes "connect";
  args = protocol ∷ host ∷ port ∷ rest;
}

abbrev pub IsRemote : Bytes → Type 0
IsRemote protocol = (protocol ≡ codes "vnc") ⊎ (protocol ≡ codes "ssh") ⊎ (protocol ≡ codes "rdp")

module _ (g : Gateway) (host port : Bytes) (rest : List Bytes) (bad : stoi port ≡ none) where
  vnc_bad : route g (connect_to (codes "vnc") host port rest) ≡ terminated
  unfolding route equal stoi
  vnc_bad = rw bad refl

  ssh_bad : route g (connect_to (codes "ssh") host port rest) ≡ terminated
  unfolding route equal stoi
  ssh_bad = rw bad refl

  rdp_bad : route g (connect_to (codes "rdp") host port rest) ≡ terminated
  unfolding route equal stoi
  rdp_bad = rw bad refl

  route_bad :
      (protocol : Bytes)
      → IsRemote protocol
      → route g (connect_to protocol host port rest) ≡ terminated
  route_bad protocol (inl e) = ap (λ p. route g (connect_to p host port rest)) e ∙ vnc_bad
  route_bad protocol (inr (inl e)) = ap (λ p. route g (connect_to p host port rest)) e ∙ ssh_bad
  route_bad protocol (inr (inr e)) = ap (λ p. route g (connect_to p host port rest)) e ∙ rdp_bad

-- A first frame that holds a `connect` for vnc, ssh or rdp, with elements of lengths that fit and a
-- port that std::stoi refuses, ends the program.
pub first_frame-bad_port :
    (max_size fuel : ℕ) (g : Gateway) (protocol host port rest : Bytes) (args : List Bytes)
    (f : Frame) (i : Incoming)
    → IsRemote protocol
    → stoi port ≡ none
    → IsSendable max_size f
    → serialize_all (connect_to protocol host port args ∷ []) ≡ ok f.text
    → AllFit max_size (connect_to protocol host port args ∷ [])
    → NoFailure i.arrivals
    → i.bytes ≡ wire f.op f.key f.text ++ rest
    → first_frame max_size g fuel i ≡ ([], program_terminated)
unfolding routed
first_frame-bad_port max_size fuel g protocol host port rest args f i remote bad v wrote fit ok_all
      e =
    let (q, i', first, _, _) =
      first_step max_size g fuel (connect_to protocol host port args) rest f i v wrote fit ok_all
        e in
    first
    ∙ ap (λ ro. routed max_size ro fuel (record q { ready = [] }) i')
        (route_bad g host port args bad protocol remote)
