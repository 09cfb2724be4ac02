-- ===== src/Tests/Web.antt =====
-- The web sessions.
use tunnel_proxy.Base.{
  ℕ, ◌^◌, ◌<◌, ◌≤◌, ◌≡◌, ◌≢◌, refl, List, [], ◌∷◌, ◌++◌, map, some, none, false, arith, codes,
  length, All, Bytes, pos, to_string,
}
use tunnel_proxy.Socket.{Incoming}
use tunnel_proxy.Socket.Receive.{NoFailure}
use tunnel_proxy.GuacWebSocket.Mask.{Key, key_bytes}
use tunnel_proxy.GuacWebSocket.Wire.{wire}
use tunnel_proxy.GuacWeb.{GuacWebClient}
use tunnel_proxy.GuacWeb.Delta.{
  Frame, Images, blob, img, end, send_guac_image, dirty_rect, same_bytes, scan_rows, scan_cols,
}
use tunnel_proxy.GuacWeb.Rect.{Answer, dirty_rect-Answer}
use tunnel_proxy.GuacWeb.Image.{join, send_guac_image-called}
use tunnel_proxy.GuacWeb.Cdp.{cdp_text, cdp_send, cdp_recv, message, pong, still_reading}
use tunnel_proxy.GuacWeb.CdpFrames.{pings, Went, cdp_send-wire, cdp_recv-wire, cdp_recv-ends}
use tunnel_proxy.GuacWeb.Input.{send_mouse}
use tunnel_proxy.GuacWeb.Mouse.{Moused, send_mouse-after}

abbrev pub fresh : GuacWebClient
fresh = record {
  stop = false;
  chrome_pid = none;
  cdp_ws_fd = none;
  cdp_port = 9222;
  next_stream_id = 1;
  input_queue = [];
  prev_button_mask = 0;
  prev_pixels = [];
  frame_width = 0;
  frame_height = 0;
  connected = false;
  has_worker = false;
  called = [];
}

abbrev pub images : Images
images = record {
  decode_block = λ b. some b;
  encode_block = λ b. b;
  load = λ b. none;
  write_jpg = λ w h b. b;
}

-- Two pixels side by side, over two others.
abbrev four : ℕ → Frame
four corner = record {
  w = 2;
  h = 2;
  pixels = 1 ∷ 1 ∷ 1 ∷ 2 ∷ 2 ∷ 2 ∷ 3 ∷ 3 ∷ 3 ∷ 4 ∷ 4 ∷ corner ∷ [];
}

-- Only the last pixel differs.
corner_rect :
    dirty_rect (four 4).pixels (four 5).pixels 2 2
    ≡ some (record { rx = 1; ry = 1; width = 1; height = 1 })
unfolding dirty_rect scan_rows scan_cols same_bytes
corner_rect = refl

dirty_rect-Answer_example :
    Answer (four 4).pixels (four 5).pixels 2 2 (dirty_rect (four 4).pixels (four 5).pixels 2 2)
dirty_rect-Answer_example = dirty_rect-Answer (four 4).pixels (four 5).pixels 2 2

send_guac_image-called_example :
    (bs : List Bytes) × (join bs ≡ codes "abcd")
    × All (λ b. (0 < length b) × (length b ≤ 8192)) bs
    × (send_guac_image 7 0 3 (codes "abcd") fresh
        ≡ record fresh { called = [] ++ (img 7 0 3 ∷ (map (blob 7) bs ++ (end 7 ∷ []))) })
send_guac_image-called_example = send_guac_image-called 7 0 3 (codes "abcd") fresh

abbrev key : Key
key = record { k0 = 1; k1 = 2; k2 = 3; k3 = 255 }

short : length (cdp_text 1 (codes "Page.enable") (codes "{}")) < 2 ^ 64
unfolding cdp_text to_string
short = omega arith

cdp_send-wire_example :
    Went
      (wire 0x81 (some key) (cdp_text 1 (codes "Page.enable") (codes "{}")))
      10
      (cdp_send (some (key_bytes key)) 10 1 (codes "Page.enable") (codes "{}"))
cdp_send-wire_example = cdp_send-wire key 10 1 (codes "Page.enable") (codes "{}") short

abbrev stream : Incoming
stream = record {
  bytes = pings (codes "hi" ∷ []) ++ (wire 0x81 none (codes "{}") ++ codes "rest");
  arrivals = 1 ∷ 3 ∷ [];
}

cdp_recv-wire_example :
    (i' : Incoming) × (cdp_recv 4294967296 2 stream
      ≡ message (map pong (codes "hi" ∷ [])) (codes "{}") i')
    × (i'.bytes ≡ codes "rest")
    × NoFailure i'.arrivals
cdp_recv-wire_example =
    cdp_recv-wire 4294967296 (codes "hi" ∷ []) 0x81 2 (codes "{}") (codes "rest") stream
      (((omega arith, (omega arith, tt)), omega arith, omega arith), tt)
      ((omega arith, (omega arith, tt)), omega arith, omega arith) (λ e. omega arith)
      (λ e. omega arith) (omega arith) (omega arith, (omega arith, tt)) refl

cdp_recv-ends_example : cdp_recv 4294967296 100 stream ≢ still_reading
cdp_recv-ends_example = cdp_recv-ends 4294967296 100 stream (omega arith)

send_mouse-after_example :
    Moused
      (pos 10)
      (pos 20)
      4
      (record fresh { prev_button_mask = 1 })
      (send_mouse (pos 10) (pos 20) 4 (record fresh { prev_button_mask = 1 }))
send_mouse-after_example =
    send_mouse-after (pos 10) (pos 20) 4 (record fresh { prev_button_mask = 1 })
