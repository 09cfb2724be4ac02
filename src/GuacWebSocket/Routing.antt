-- ===== src/GuacWebSocket/Routing.antt =====
-- The part of `handle_connection` in src/guac_websocket.cpp that chooses the backend, and the
-- tunnelled fetch that it starts. The calls that the gateway makes on its client and on the backend
-- are listed as values.
use tunnel_proxy.Base.{
  ℕ, ◌+◌, Bool, not, ◌&&◌, ◌||◌, List, [], ◌∷◌, ◌++◌, Option, none, some, if◌then◌else◌, get_or,
  take, drop, codes, equal, Bytes, find, starts_with, ℤ, pos, stoi, to_uint16, is_empty,
}
use tunnel_proxy.GuacParser.{GuacInstruction}

-- The session with its one backend.
pub data Backend : Type 0 where
  vnc : (host : Bytes) (port : ℕ) (password : Bytes) → Backend
  ssh : (host : Bytes) (port : ℕ) (user password : Bytes) → Backend
  rdp : (host : Bytes) (port : ℕ) (user password : Bytes) → Backend
  web : (url : Bytes) (width height : ℤ) → Backend
  http : (url : Bytes) → Backend
  http_tunnel : (url agent_id : Bytes) → Backend

-- What becomes of the first instruction: a backend, an `error` instruction to the client, or an
-- exception of std::stoi that leaves the thread and ends the program.
pub data Route : Type 0 where
  chosen : Backend → Route
  refused : GuacInstruction → Route
  terminated : Route

abbrev pub error : Bytes → Bytes → GuacInstruction
error text status = record { opcode = codes "error"; args = text ∷ status ∷ [] }

pub record Gateway : Type 0 where
  pub web_renderer : Bytes
  -- `tunnel_server_` is not nullptr.
  pub has_tunnel_server : Bool

-- `static_cast<uint16_t>(std::stoi(text))` in front of the construction of a backend.
abbrev with_port : Bytes → (ℕ → Backend) → Route
with_port text make = elim (stoi text) [ none ↦ terminated | some n ↦ chosen (make (to_uint16 n)) ]

-- `arg2.empty() ? 1280 : std::stoi(arg2)`
abbrev width_of : Bytes → Option ℤ
width_of [] = some (pos 1280)
width_of (c ∷ cs) = stoi (c ∷ cs)

route_web : Gateway → List Bytes → Route
route_web g args =
    let url = get_or args 1 (codes "about:blank") in
    let arg2 = get_or args 2 [] in
    if equal g.web_renderer (codes "chromium")
    then elim (width_of arg2) [
      | none ↦ terminated
      | some w ↦ elim (stoi (get_or args 3 (codes "800"))) [
        | none ↦ terminated
        | some h ↦ chosen (web url w h)
      ]
    ]
    else if not (is_empty arg2) && g.has_tunnel_server
    then chosen (http_tunnel url arg2)
    else chosen (http url)

unfoldable pub route : Gateway → GuacInstruction → Route
unfolding route_web
route g instr =
    let args = instr.args in
    let protocol = get_or args 0 [] in
    let host = get_or args 1 (codes "localhost") in
    if not (equal instr.opcode (codes "connect")) || is_empty args
    then refused (error (codes "Expected connect instruction") (codes "1001"))
    else if equal protocol (codes "vnc")
    then with_port (get_or args 2 (codes "5900")) (λ port. vnc host port (get_or args 3 []))
    else if equal protocol (codes "ssh")
    then with_port (get_or args 2 (codes "22"))
        (λ port. ssh host port (get_or args 3 []) (get_or args 4 []))
    else if equal protocol (codes "rdp")
    then with_port (get_or args 2 (codes "3389"))
        (λ port. rdp host port (get_or args 3 []) (get_or args 4 []))
    else if equal protocol (codes "web")
    then route_web g args
    else refused (error (codes "Unknown protocol: " ++ protocol) (codes "1001"))

unfoldable pub default_port : Bytes → ℕ
default_port url = if starts_with (codes "https") url then 443 else 80

-- `host_port` split at its colon. Where std::stoi throws, the whole is the host.
split_port : Bytes → ℕ → Bytes × ℕ
split_port host_port fallback = elim (find (b':' ∷ []) host_port) [
  | none ↦ (host_port, fallback)
  | some colon ↦ elim (stoi (drop (colon + 1) host_port)) [
    | none ↦ (host_port, fallback)
    | some port ↦ (take colon host_port, to_uint16 port)
  ]
]

unfoldable pub parse_url_host_port : Bytes → Bytes × ℕ
unfolding split_port default_port
parse_url_host_port url = elim (find (codes "://") url) [
  | none ↦ ([], default_port url)
  | some scheme_end ↦
      let rest = drop (scheme_end + 3) url in
      elim (find (b'/' ∷ []) rest) [
        | none ↦ split_port rest (default_port url)
        | some n ↦ split_port (take n rest) (default_port url)
      ]
]

-- What the thread of a tunnelled fetch does: it sends an `error`, has the backend fetch through
-- the tunnel's socket, or closes that socket as the session is over.
pub data Fetch : Type 0 where
  failed : GuacInstruction → Fetch
  fetch : (pre_fd : ℕ) (url : Bytes) → Fetch
  dropped : (pre_fd : ℕ) → Fetch

-- `connect` is `TunnelServer::connect_via_tunnel`, with `none` for a negative result; `active`,
-- whether the session is active when it has returned.
unfoldable pub fetch_via_tunnel :
    (connect : Bytes → Bytes → ℕ → Option ℕ) (active : Bool) (url agent_id : Bytes) → Fetch
fetch_via_tunnel connect active url agent_id =
    let (host, port) = parse_url_host_port url in
    if is_empty host
    then failed (error (codes "Invalid URL for tunnel routing: " ++ url) (codes "400"))
    else elim (connect agent_id host port) [
      | none ↦ failed (error (codes "Tunnel connect failed: agent=" ++ agent_id) (codes "502"))
      | some pre_fd ↦ if active then fetch pre_fd url else dropped pre_fd
    ]
