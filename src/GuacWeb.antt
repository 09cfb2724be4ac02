-- ===== src/GuacWeb.antt =====
-- include/core/guac_web.h and src/guac_web.cpp: a web page in a headless Chrome, which is spoken to
-- over its DevTools protocol (CDP), shown as images. Widths, heights and their products fit in an
-- int.
pub mod Cdp
pub mod CdpFrames
pub mod Columns
pub mod Delta
pub mod Input
pub mod Keys
pub mod Mouse
pub mod Rect
pub mod Worker
pub mod Answers
pub mod Image
use tunnel_proxy.Base.{ℕ, Bool, true, false, List, [], ◌∷◌, ◌++◌, Option, none, some, Bytes}
use tunnel_proxy.GuacParser.{GuacInstruction}

pub record InputEvent : Type 0 where
  pub method : Bytes
  pub params : Bytes

-- The client and its Impl; `chrome_pid` and `cdp_ws_fd` are `none` for -1, `has_worker`: the thread
-- is joinable; `called` has the instructions that were handed to the callback, the last at the end.
pub record GuacWebClient : Type 0 where
  pub stop : Bool
  pub chrome_pid : Option ℕ
  pub cdp_ws_fd : Option ℕ
  pub cdp_port : ℕ
  pub next_stream_id : ℕ
  pub input_queue : List InputEvent
  pub prev_button_mask : ℕ
  pub prev_pixels : Bytes
  pub frame_width : ℕ
  pub frame_height : ℕ
  pub connected : Bool
  pub has_worker : Bool
  pub called : List GuacInstruction

abbrev pub callback : GuacInstruction → GuacWebClient → GuacWebClient
callback i c = record c { called = c.called ++ (i ∷ []) }
