-- ===== src/Tests/WebSocket.antt =====
-- The WebSocket gateway.
use mathlib.Core.List.{cons-ne-nil}
use tunnel_proxy.Base.{
  ℕ, ◌≡◌, ◌≢◌, refl, false, inl, List, [], ◌∷◌, ◌++◌, none, some, arith, Bytes, IsBytes, ◌<◌, codes,
  length, to_string, stoi, negsuc, to_uint16, equal, find, starts_with,
}
use tunnel_proxy.Socket.{Incoming}
use tunnel_proxy.Socket.Receive.{NoFailure}
use tunnel_proxy.GuacParser.{GuacInstruction, new, serialize}
use tunnel_proxy.GuacWebSocket.{payload, read_ws_frame}
use tunnel_proxy.GuacWebSocket.Mask.{Key}
use tunnel_proxy.GuacWebSocket.Codec.{read_ws_frame-wire}
use tunnel_proxy.GuacWebSocket.Wire.{wire}
use tunnel_proxy.GuacWebSocket.Routing.{
  Backend, ssh, chosen, Gateway, route, parse_url_host_port, default_port,
}
use tunnel_proxy.GuacWebSocket.Handshake.{key_of}
use tunnel_proxy.GuacWebSocket.Serving.{
  Call, Ending, calling, send_input, connect, dispatch, dispatch_all, finish, serve, first_frame,
  program_terminated, still_running,
}
use tunnel_proxy.GuacWebSocket.Delivery.{Frame, IsSendable, stream, Acts, first_frame-delivers}
use tunnel_proxy.GuacWebSocket.Termination.{serve-ends}
use tunnel_proxy.GuacWebSocket.BadPort.{first_frame-bad_port}
use tunnel_proxy.Tests.Parser.{max_size}

abbrev key : Key
key = record { k0 = 0x37; k1 = 0xFA; k2 = 0x21; k3 = 0x3D }

-- The masked "Hello" of RFC 6455, section 5.7.
abbrev hello : Bytes
hello = 0x81 ∷ 0x85 ∷ 0x37 ∷ 0xFA ∷ 0x21 ∷ 0x3D ∷ 0x7F ∷ 0x9F ∷ 0x4D ∷ 0x51 ∷ 0x58 ∷ []

hello_is : wire 0x81 (some key) (codes "Hello") ≡ hello
hello_is = refl

read_ws_frame-wire_example :
    (i' : Incoming) × (read_ws_frame max_size
        (record { bytes = hello ++ (7 ∷ []); arrivals = 3 ∷ 1 ∷ [] })
      ≡ payload (codes "Hello") i')
    × (i'.bytes ≡ 7 ∷ [])
    × NoFailure i'.arrivals
read_ws_frame-wire_example =
    read_ws_frame-wire max_size 0x81 (some key) (codes "Hello") (7 ∷ [])
      (record { bytes = hello ++ (7 ∷ []); arrivals = 3 ∷ 1 ∷ [] }) (omega arith) (omega arith)
      (omega arith) (omega arith) (omega arith) (omega arith) refl

abbrev gateway : Gateway
gateway = record { web_renderer = codes "http"; has_tunnel_server = false }

abbrev host : Backend
host = ssh (codes "h") 22 [] []

abbrev connect_ssh : GuacInstruction
connect_ssh = record { opcode = codes "connect"; args = codes "ssh" ∷ codes "h" ∷ [] }

abbrev press : Bytes → GuacInstruction
press text = record { opcode = codes "key"; args = text ∷ [] }

abbrev frame : Bytes → Frame
frame text = record { op = 0x81; key = some key; text = text }

abbrev frames : List Frame
frames = frame (codes "3.key,1.a") ∷ frame (codes ";3.key,1.b;") ∷ []

abbrev session : Incoming
session = record { bytes = stream (frame (codes "7.connect,3.ssh,1.h;") ∷ frames); arrivals = [] }

route-ssh : route gateway connect_ssh ≡ chosen host
unfolding route equal stoi to_uint16
route-ssh = refl

text_IsSendable :
    (c : ℕ) (cs : Bytes)
    → IsBytes (c ∷ cs)
    → length (c ∷ cs) < 1000
    → IsSendable max_size (frame (c ∷ cs))
text_IsSendable c cs b h = record {
  not_close = omega arith;
  good_key = omega arith;
  not_empty = cons-ne-nil c cs;
  bytes = b;
  fits = omega (arith, h);
  fits_64 = omega (arith, h);
}

first_frame-delivers_example :
    (calls : List Call) × (e : Ending) × (first_frame max_size gateway 3 session
      ≡ (connect host ∷ calls, e))
    × Acts host (press (codes "a") ∷ press (codes "b") ∷ []) calls e
unfolding serialize to_string
first_frame-delivers_example =
    first_frame-delivers max_size gateway host connect_ssh
      (press (codes "a") ∷ press (codes "b") ∷ []) (frame (codes "7.connect,3.ssh,1.h;")) frames 3
      session
      (
        text_IsSendable _ _ (omega arith) (omega arith),
        (
          text_IsSendable _ _ (omega arith) (omega arith),
          (text_IsSendable _ _ (omega arith) (omega arith), tt),
        ),
      )
      (omega arith) refl route-ssh refl (omega arith) (omega arith) refl

input_delivered :
    dispatch_all host (press (codes "a") ∷ []) (finish host)
    ≡ calling (send_input (codes "a") ∷ []) (finish host)
unfolding dispatch equal
input_delivered = refl

serve-ends_example :
    (serve max_size 100 host new (record { bytes = hello; arrivals = 1 ∷ [] })).1 ≢ still_running
serve-ends_example =
    serve-ends max_size 100 host new (record { bytes = hello; arrivals = 1 ∷ [] }) (omega arith)

abbrev bad_text : Bytes
bad_text = codes "7.connect,3.vnc,1.h,1.x;"

first_frame-bad_port_example :
    first_frame max_size gateway 7 (record { bytes = stream (frame bad_text ∷ []); arrivals = [] })
    ≡ ([], program_terminated)
unfolding serialize to_string stoi
first_frame-bad_port_example =
    first_frame-bad_port max_size 7 gateway (codes "vnc") (codes "h") (codes "x") [] []
      (frame bad_text) (record { bytes = stream (frame bad_text ∷ []); arrivals = [] }) (inl refl)
      refl (text_IsSendable _ _ (omega arith) (omega arith)) refl (omega arith) (omega arith) refl

numbers :
    (stoi (codes " -17x") ≡ some (negsuc 16))
    × (stoi (codes "2147483648") ≡ none)
    × (stoi (codes "-2147483648") ≡ some (negsuc 2147483647))
    × (to_uint16 (negsuc 0) ≡ 65535)
unfolding stoi to_uint16
numbers = (refl, refl, refl, refl)

urls :
    (parse_url_host_port (codes "http://host:8080/path") ≡ (codes "host", 8080))
    × (parse_url_host_port (codes "https://host/path") ≡ (codes "host", 443))
    × (parse_url_host_port (codes "http://h:x") ≡ (codes "h:x", 80))
    × (parse_url_host_port (codes "host") ≡ ([], 80))
unfolding parse_url_host_port default_port find stoi to_uint16 starts_with
urls = (refl, refl, refl, refl)

key_found :
    key_of (
      codes "GET / HTTP/1.1"
      ++ (13 ∷ 10 ∷ [])
      ++ codes "Sec-WebSocket-Key:  abc"
      ++ (13 ∷ 10 ∷ 13 ∷ 10 ∷ []))
    ≡ some (codes "abc")
unfolding key_of find starts_with
key_found = refl
