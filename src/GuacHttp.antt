-- ===== src/GuacHttp.antt =====
-- include/core/guac_http.h and src/guac_http.cpp: one HTTP GET with libcurl, answered by one
-- instruction. The calls that libcurl makes are arguments.
pub mod Answer
use tunnel_proxy.Base.{
  ℕ, ◌+◌, ◌%◌, ◌^◌, Bool, true, false, ◌&&◌, ◌||◌, List, [], ◌∷◌, ◌++◌, Option, none, some, leb,
  ◌==◌, if◌then◌else◌, map, length, drop, Bytes, codes, is_empty, starts_with, to_string,
}
use tunnel_proxy.GuacParser.{GuacInstruction}

-- `sent` has the instructions handed to the callback; `has_worker`: the thread is joinable.
pub record GuacHttpClient : Type 0 where
  pub body : Bytes
  pub content_type : Bytes
  pub status_code : ℕ
  pub connected : Bool
  pub abort : Bool
  pub has_worker : Bool
  pub sent : List GuacInstruction

-- `connect`; `none`: a thread is assigned to a joinable one, which ends the program.
unfoldable pub connect : GuacHttpClient → Option GuacHttpClient
connect c =
    if c.connected
    then some c
    else if c.has_worker
    then none
    else some (record c { abort = false; connected = true; has_worker = true })

unfoldable pub disconnect : GuacHttpClient → GuacHttpClient
disconnect c = record c { abort = true; connected = false; has_worker = false }

unfoldable pub write_body : Bytes → GuacHttpClient → GuacHttpClient
write_body part c = record c { body = c.body ++ part }

-- tolower of the C locale
pub to_lower : ℕ → ℕ
to_lower c = if leb 65 c && leb c 90 then c + 32 else c

pub skip_blanks : Bytes → Bytes
skip_blanks [] = []
skip_blanks (c ∷ cs) = let rest = skip_blanks cs in if c == 32 || c == 9 then rest else c ∷ cs

pub until_eol : Bytes → Bytes
until_eol [] = []
until_eol (c ∷ cs) = let rest = until_eol cs in if c == 13 || c == 10 then [] else c ∷ rest

unfoldable pub is_content_type : Bytes → Bool
unfolding to_lower
is_content_type line = starts_with (codes "content-type:") (map to_lower line)

unfoldable pub type_value : Bytes → Bytes
unfolding skip_blanks until_eol
type_value line = until_eol (skip_blanks (drop 13 line))

unfoldable pub write_header : Bytes → GuacHttpClient → GuacHttpClient
write_header line c =
    if is_content_type line then record c { content_type = type_value line } else c

-- A call of libcurl during `curl_easy_perform`.
pub data Piece : Type 0 where
  header body_part : Bytes → Piece

unfoldable pub perform : List Piece → GuacHttpClient → GuacHttpClient
perform [] c = c
perform (header line ∷ rest) c = perform rest (write_header line c)
perform (body_part part ∷ rest) c = perform rest (write_body part c)

-- CURLE_OK with the response code, or the text of the error.
pub data Result : Type 0 where
  curle_ok : (status_code : ℕ) → Result
  failed : Bytes → Result

abbrev pub error : Bytes → Bytes → GuacInstruction
error text status = record { opcode = codes "error"; args = text ∷ status ∷ [] }

abbrev callback : GuacInstruction → GuacHttpClient → GuacHttpClient
callback i c = record c { sent = c.sent ++ (i ∷ []) }

abbrev pub cleared : GuacHttpClient → GuacHttpClient
cleared c = record c { body = []; content_type = []; status_code = 0 }

-- The socket that libcurl is given, once.
pub record FdOnce : Type 0 where
  pub fd : ℕ
  pub used : Bool

unfoldable pub opensocket_cb : FdOnce → Option ℕ × FdOnce
opensocket_cb state =
    if state.used then (none, state) else (some state.fd, record state { used = true })

-- `encode_block` is EVP_EncodeBlock, on data and the 32-bit pattern of the `int` with their length.
module _ (encode_block : Bytes → ℕ → Bytes) where
  unfoldable pub base64_encode : Bytes → Bytes
  base64_encode data_bytes =
      if is_empty data_bytes then [] else encode_block data_bytes (length data_bytes % 2 ^ 32)

  abbrev pub response : ℕ → Bytes → Bytes → GuacInstruction
  response status content_type body =
      let ct = if is_empty content_type then codes "application/octet-stream" else content_type in
      record { opcode = codes "response"; args = to_string status ∷ ct ∷ base64_encode body ∷ [] }

  -- Behind `curl_easy_perform`; `aborted` is what `abort_` holds then.
  unfoldable pub answer : (aborted : Bool) → Result → GuacHttpClient → GuacHttpClient
  answer true result c = c
  answer false (curle_ok status) c =
      callback (response status c.content_type c.body) (record c { status_code = status })
  answer false (failed text) c = callback (error text (codes "502")) c

  -- `run_request`; `run_request_fd` does the same and, where `curl_easy_init` fails, closes the
  -- descriptor that it was given.
  unfoldable pub run_request :
      (initialized : Bool)
      → List Piece
      → Result
      → (aborted : Bool) → GuacHttpClient
      → GuacHttpClient
  unfolding answer
  run_request false pieces result aborted c =
      record (callback (error (codes "curl_easy_init failed") (codes "500")) (cleared c)) {
        connected = false;
      }
  run_request true pieces result aborted c =
      record (answer aborted result (perform pieces (cleared c))) { connected = false }
