-- ===== src/GuacWeb/Delta.antt =====
-- `flush_delta` of src/guac_web.cpp and its helpers. EVP_DecodeBlock, EVP_EncodeBlock and the JPEG
-- library (stb) are parameters.
use tunnel_proxy.Base.{
  ℕ, zero, suc, ◌+◌, ◌-◌, ◌*◌, min, Bool, true, false, ◌&&◌, not, List, [], ◌∷◌, ◌++◌, Option, none,
  some, leb, ◌==◌, if◌then◌else◌, length, take, drop, get_or, Bytes, codes, is_empty, to_string,
}
use tunnel_proxy.GuacParser.{GuacInstruction}
use tunnel_proxy.GuacWeb.{GuacWebClient, callback}

-- `memcmp(prev + from, curr + from, n) == 0`
unfoldable pub same_bytes : Bytes → Bytes → ℕ → ℕ → Bool
same_bytes prev curr from zero = true
same_bytes prev curr from (suc n) =
    let others = same_bytes prev curr (from + 1) n in
    (get_or prev from 0 == get_or curr from 0) && others

-- The three bytes of the pixel at `from`.
abbrev pub pixel_differs : Bytes → Bytes → ℕ → Bool
pixel_differs prev curr from = not (
    (get_or prev from 0 == get_or curr from 0)
    && (get_or prev (from + 1) 0 == get_or curr (from + 1) 0)
    && (get_or prev (from + 2) 0 == get_or curr (from + 2) 0))

-- The variables of the scan; `row_end` and `col_end` are `max_row + 1` and `max_col + 1`.
pub record Scan : Type 0 where
  pub min_row : Option ℕ
  pub row_end : ℕ
  pub min_col : ℕ
  pub col_end : ℕ

abbrev pub max : ℕ → ℕ → ℕ
max a b = if leb a b then b else a

abbrev pub widen : ℕ → Scan → Scan
widen col d = record d { min_col = min d.min_col col; col_end = max d.col_end (col + 1) }

-- The n columns from col on of the row that starts at `start`.
unfoldable pub scan_cols : Bytes → Bytes → (start col n : ℕ) → Scan → Scan
scan_cols prev curr start col zero d = d
scan_cols prev curr start col (suc n) d =
    scan_cols prev curr start (col + 1) n
      (if pixel_differs prev curr (start + col * 3) then widen col d else d)

abbrev pub enter_row : ℕ → Scan → Scan
enter_row row d = record d {
  min_row = elim d.min_row [ none ↦ some row | some m ↦ some m ];
  row_end = row + 1;
}

-- The n rows from row on.
unfoldable pub scan_rows : Bytes → Bytes → (w row n : ℕ) → Scan → Scan
unfolding same_bytes scan_cols
scan_rows prev curr w row zero d = d
scan_rows prev curr w row (suc n) d = scan_rows prev curr w (row + 1) n (
    if same_bytes prev curr (row * w * 3) (w * 3)
    then d
    else scan_cols prev curr (row * w * 3) 0 w (enter_row row d))

-- `rw` and `rh` are spelled out.
pub record Rect : Type 0 where
  pub rx : ℕ
  pub ry : ℕ
  pub width : ℕ
  pub height : ℕ

abbrev pub rect_of : Scan → Option ℕ → Option Rect
rect_of d none = none
rect_of d (some min_row) = some (record {
  rx = d.min_col;
  ry = min_row;
  width = d.col_end - d.min_col;
  height = d.row_end - min_row;
})

-- The bounding rectangle of what changed; `none` if nothing did.
unfoldable pub dirty_rect : Bytes → Bytes → ℕ → ℕ → Option Rect
unfolding scan_rows
dirty_rect prev curr w h =
    let d =
      scan_rows prev curr w 0 h
        (record { min_row = none; row_end = 0; min_col = w; col_end = 0 }) in
    rect_of d d.min_row

abbrev pub whole : ℕ → ℕ → Rect
whole w h = record { rx = 0; ry = 0; width = w; height = h }

-- `use_full`, from 75% on.
abbrev pub enlarge : ℕ → ℕ → Rect → Rect
enlarge w h r = if leb (w * h * 3) (r.width * r.height * 4) then whole w h else r

abbrev pub enlarged : ℕ → ℕ → Option Rect → Option Rect
enlarged w h none = none
enlarged w h (some r) = some (enlarge w h r)

-- The n rows of the rectangle from row on.
unfoldable pub cut : Bytes → ℕ → Rect → (row n : ℕ) → Bytes
cut pixels full_w r row zero = []
cut pixels full_w r row (suc n) =
    take (r.width * 3) (drop ((row * full_w + r.rx) * 3) pixels) ++ cut pixels full_w r (row + 1) n

-- `substr(off, 8192)` for every multiple `off` of 8192 below the size; each chunk takes something, so
-- the size is enough fuel.
unfoldable pub chunks : ℕ → Bytes → List Bytes
chunks fuel [] = []
chunks zero (c ∷ cs) = []
chunks (suc fuel) (c ∷ cs) = take 8192 (c ∷ cs) ∷ chunks fuel (drop 8192 (c ∷ cs))

abbrev pub blob : ℕ → Bytes → GuacInstruction
blob stream_id text = record { opcode = codes "blob"; args = to_string stream_id ∷ text ∷ [] }

unfoldable pub blobs : ℕ → List Bytes → GuacWebClient → GuacWebClient
blobs stream_id [] c = c
blobs stream_id (text ∷ others) c = blobs stream_id others (callback (blob stream_id text) c)

abbrev pub img : (stream_id x y : ℕ) → GuacInstruction
img stream_id x y = record {
  opcode = codes "img";
  args =
      to_string stream_id
      ∷ codes "over"
      ∷ codes "0"
      ∷ codes "image/jpeg"
      ∷ to_string x
      ∷ to_string y
      ∷ [];
}

abbrev pub end : ℕ → GuacInstruction
end stream_id = record { opcode = codes "end"; args = to_string stream_id ∷ [] }

unfoldable pub send_guac_image : (stream_id x y : ℕ) → Bytes → GuacWebClient → GuacWebClient
unfolding chunks blobs
send_guac_image stream_id x y b64_jpeg c =
    callback (end stream_id)
      (blobs stream_id (chunks (length b64_jpeg) b64_jpeg) (callback (img stream_id x y) c))

-- A decoded image.
pub record Frame : Type 0 where
  pub w : ℕ
  pub h : ℕ
  pub pixels : Bytes

-- `decode_block` is EVP_DecodeBlock, `none` where it fails; `encode_block` is EVP_EncodeBlock; `load`
-- is stbi_load_from_memory for three bytes a pixel, `none` where it fails; `write_jpg` is what
-- stbi_write_jpg_to_func hands to its function for a width, a height and pixels.
pub record Images : Type 0 where
  pub decode_block : Bytes → Option Bytes
  pub encode_block : Bytes → Bytes
  pub load : Bytes → Option Frame
  pub write_jpg : ℕ → ℕ → Bytes → Bytes

abbrev last_is_pad : Bytes → Bool
last_is_pad [] = false
last_is_pad (c ∷ []) = c == b'='
last_is_pad (c ∷ d ∷ cs) = last_is_pad (d ∷ cs)

-- The second character from the end.
abbrev second_is_pad : Bytes → Bool
second_is_pad [] = false
second_is_pad (c ∷ []) = false
second_is_pad (c ∷ d ∷ []) = c == b'='
second_is_pad (c ∷ d ∷ e ∷ cs) = second_is_pad (d ∷ e ∷ cs)

abbrev one_if : Bool → ℕ
one_if true = 1
one_if false = 0

unfoldable pub base64_decode : Images → Bytes → Bytes
base64_decode im [] = []
base64_decode im (c ∷ cs) = elim (im.decode_block (c ∷ cs)) [
  | none ↦ []
  | some buf ↦
      let padding = one_if (last_is_pad (c ∷ cs)) + one_if (second_is_pad (c ∷ cs)) in
      take (length buf - padding) buf
]

unfoldable pub encode_rect_jpeg : Images → Bytes → Frame → Rect → Bytes
unfolding cut
encode_rect_jpeg im b64_full f r =
    if (r.rx == 0) && (r.ry == 0) && (r.width == f.w)
    then b64_full
    else let jpeg_out = im.write_jpg r.width r.height (cut f.pixels f.w r r.ry r.height) in
      if is_empty jpeg_out then b64_full else im.encode_block jpeg_out

abbrev pub has_prev : Frame → GuacWebClient → Bool
has_prev f c =
    (length c.prev_pixels == f.w * f.h * 3) && (c.frame_width == f.w) && (c.frame_height == f.h)

-- The part of the frame that is sent, `none` for no part.
unfoldable pub part : Frame → GuacWebClient → Option Rect
unfolding dirty_rect
part f c =
    if has_prev f c
    then enlarged f.w f.h (dirty_rect c.prev_pixels f.pixels f.w f.h)
    else some (enlarge f.w f.h (whole f.w f.h))

-- `pixels` are copied for their whole size, w * h * 3 bytes.
abbrev pub keep_frame : Frame → GuacWebClient → GuacWebClient
keep_frame f c = record c { prev_pixels = f.pixels; frame_width = f.w; frame_height = f.h }

unfoldable pub flush_frame : Images → Bytes → ℕ → Frame → GuacWebClient → GuacWebClient
unfolding part send_guac_image encode_rect_jpeg
flush_frame im b64_jpeg stream_id f c = elim (part f c) [
  | none ↦ c
  | some r ↦ send_guac_image stream_id r.rx r.ry (encode_rect_jpeg im b64_jpeg f r) (keep_frame f c)
]

unfoldable pub flush_delta : Images → Bytes → ℕ → GuacWebClient → GuacWebClient
unfolding base64_decode flush_frame send_guac_image
flush_delta im b64_jpeg stream_id c =
    let jpeg_bytes = base64_decode im b64_jpeg in
    if is_empty jpeg_bytes then c else elim (im.load jpeg_bytes) [
      | none ↦ send_guac_image stream_id 0 0 b64_jpeg c
      | some f ↦ flush_frame im b64_jpeg stream_id f c
    ]
