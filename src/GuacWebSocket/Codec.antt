-- ===== src/GuacWebSocket/Codec.antt =====
-- `read_ws_frame` and `send_ws_frame` against the frame format of RFC 6455.
use tunnel_proxy.Base.{
  ℕ, ◌+◌, ◌%◌, ◌^◌, ◌≤◌, ◌<◌, ◌≡◌, ◌≢◌, refl, sym, ap, ◌∙◌, false, [], ◌∷◌, ◌++◌, Option, none,
  some, arith, append_assoc, ltb, leb, ◌==◌, Bool-cases, inl, inr, length, Bytes, IsBytes,
}
use tunnel_proxy.Socket.{Incoming, recv_exact}
use tunnel_proxy.Socket.Receive.{nothing, NoFailure, recv_exact-prefix}
use tunnel_proxy.GuacWebSocket.Mask.{Key, key_bytes, veil, length-veil, unveiled}
use tunnel_proxy.GuacWebSocket.{
  WsRead, payload, big_endian, read_payload, read_mask, read_size, read_ws_frame, apply_mask,
  size_bytes, unmask, ws_frame,
}
use tunnel_proxy.GuacWebSocket.Wire.{
  be_bytes, code, extension, flag, body, wire, GoodKey, announced, big_endian-be8,
}

-- The payload is read, and what is left of the stream.
abbrev pub Reads : WsRead → Bytes → Bytes → Type 0
Reads r text rest =
    (i' : Incoming) × (r ≡ payload text i') × (i'.bytes ≡ rest) × NoFailure i'.arrivals

unmask-nil : (mask : Option Bytes) → unmask mask [] ≡ []
unfolding apply_mask
unmask-nil none = refl
unmask-nil (some mask) = refl

module _ (max_size : ℕ) where
  read_payload-whole :
      (mask : Option Bytes) (n : ℕ) (i : Incoming) (seen rest text : Bytes)
      → n ≤ max_size
      → NoFailure i.arrivals
      → i.bytes ≡ seen ++ rest
      → n ≡ length seen
      → unmask mask seen ≡ text
      → Reads (read_payload max_size mask n i) text rest
  unfolding read_payload
  read_payload-whole mask n i seen rest text fits ok_all e size clear =
      let small : ltb max_size n ≡ false = ground arith in
      elim (Bool-cases (n == 0)) [
        | inl empty ↦
            let none_seen : seen ≡ [] = nothing seen (ground arith) in
            let no_text : text ≡ [] = sym clear ∙ ap (unmask mask) none_seen ∙ unmask-nil mask in
            (
              i,
              rw (small, empty) (ap (λ t. payload t i) (sym no_text)),
              e ∙ ap (λ t. t ++ rest) none_seen,
              ok_all,
            )
        | inr more ↦
            let (i', got, left_over, ok') = recv_exact-prefix i seen rest n ok_all e size in
            (i', rw (small, more, got) (ap (λ t. payload t i') clear), left_over, ok')
      ]

  read_mask-body :
      (key : Option Key) (text rest : Bytes) (i : Incoming)
      → GoodKey key
      → IsBytes text
      → length text ≤ max_size
      → NoFailure i.arrivals
      → i.bytes ≡ body key text ++ rest
      → Reads (read_mask max_size (leb 128 (flag key)) (length text) i) text rest
  unfolding read_mask
  read_mask-body none text rest i good bytes fits ok_all e =
      read_payload-whole none (length text) i text rest text fits ok_all e refl refl
  read_mask-body (some key) text rest i good bytes fits ok_all e =
      let (i', got, e', ok') =
        recv_exact-prefix i (key_bytes key) (veil key text ++ rest) 4 ok_all e refl in
      rw got (
        read_payload-whole (some (key_bytes key)) (length text) i' (veil key text) rest text fits
          ok' e' (sym (length-veil key text)) (unveiled key text bytes good))

  read_size-7 :
      (key : Option Key) (n : ℕ) (i : Incoming)
      → n < 126
      → read_size max_size (flag key + n) i ≡ read_mask max_size (leb 128 (flag key)) n i
  unfolding read_size
  read_size-7 key n i h =
      let (same, mask) = announced key n (omega arith) in
      let plain : (n == 126) ≡ false = ground arith in
      let plain' : (n == 127) ≡ false = ground arith in rw (same, plain, plain', mask) refl

  read_size-16 :
      (key : Option Key) (i i' : Incoming) (ext : Bytes)
      → recv_exact i 2 ≡ some (ext, i')
      → read_size max_size (flag key + 126) i
        ≡ read_mask max_size (leb 128 (flag key)) (big_endian 0 ext) i'
  unfolding read_size
  read_size-16 key i i' ext got =
      let (same, mask) = announced key 126 (omega arith) in
      rw (same, got) (ap (λ m. read_mask max_size m (big_endian 0 ext) i') mask)

  read_size-64 :
      (key : Option Key) (i i' : Incoming) (ext : Bytes)
      → recv_exact i 8 ≡ some (ext, i')
      → read_size max_size (flag key + 127) i
        ≡ read_mask max_size (leb 128 (flag key)) (big_endian 0 ext) i'
  unfolding read_size
  read_size-64 key i i' ext got =
      let (same, mask) = announced key 127 (omega arith) in
      rw (same, got) (ap (λ m. read_mask max_size m (big_endian 0 ext) i') mask)

  -- Behind the second byte.
  read_size-extension :
      (key : Option Key) (n : ℕ) (rest : Bytes) (i : Incoming)
      → n < 2 ^ 64
      → NoFailure i.arrivals
      → i.bytes ≡ extension n ++ rest
      → (i' : Incoming) × (read_size max_size (flag key + code n) i
          ≡ read_mask max_size (leb 128 (flag key)) n i')
        × (i'.bytes ≡ rest)
        × NoFailure i'.arrivals
  read_size-extension key n rest i h ok_all e =
      let with_code : (c : ℕ)
          → code n ≡ c
          → read_size max_size (flag key + code n) i ≡ read_size max_size (flag key + c) i =
        λ c q. ap (λ c'. read_size max_size (flag key + c') i) q in
      let with_size : (m : ℕ) (i' : Incoming)
          → m ≡ n
          → read_mask max_size (leb 128 (flag key)) m i'
            ≡ read_mask max_size (leb 128 (flag key)) n i' =
        λ m i' q. ap (λ m'. read_mask max_size (leb 128 (flag key)) m' i') q in
      elim (Bool-cases (ltb n 126)) [
        | inl short ↦ (
          i,
          with_code n (ground arith) ∙ read_size-7 key n i (ground arith),
          e ∙ rw short refl,
          ok_all,
        )
        | inr long ↦ elim (Bool-cases (ltb n 65536)) [
          | inl two ↦
              let (i', got, left_over, ok') =
                recv_exact-prefix i (be_bytes 2 n) rest 2 ok_all (e ∙ rw (long, two) refl) refl in
              (
                i',
                with_code 126 (ground arith)
                    ∙ read_size-16 key i i' (be_bytes 2 n) got
                    ∙ with_size (big_endian 0 (be_bytes 2 n)) i' (ground arith),
                left_over,
                ok',
              )
          | inr eight ↦
              let (i', got, left_over, ok') =
                recv_exact-prefix i (be_bytes 8 n) rest 8 ok_all (e ∙ rw (long, eight) refl) refl in
              (
                i',
                with_code 127 (ground arith)
                    ∙ read_size-64 key i i' (be_bytes 8 n) got
                    ∙ with_size (big_endian 0 (be_bytes 8 n)) i' (big_endian-be8 n h),
                left_over,
                ok',
              )
        ]
      ]

  read_ws_frame_step :
      (i i' : Incoming) (op b : ℕ)
      → recv_exact i 2 ≡ some (op ∷ b ∷ [], i')
      → op % 16 ≢ 8
      → read_ws_frame max_size i ≡ read_size max_size b i'
  unfolding read_ws_frame
  read_ws_frame_step i i' op b got not_8 =
      let not_close : (op % 16 == 8) ≡ false = ground arith in ground arith

  -- Behind the first two bytes of a frame.
  pub read_size-wire :
      (key : Option Key) (text rest : Bytes) (i : Incoming)
      → GoodKey key
      → IsBytes text
      → length text ≤ max_size
      → length text < 2 ^ 64
      → NoFailure i.arrivals
      → i.bytes ≡ (extension (length text) ++ body key text) ++ rest
      → Reads (read_size max_size (flag key + code (length text)) i) text rest
  read_size-wire key text rest i good bytes fits size ok_all e =
      let n = length text in
      let (i₂, sized, e₂, ok₂) =
        read_size-extension key n (body key text ++ rest) i size ok_all
          (e ∙ append_assoc (extension n) (body key text) rest) in
      let (i₃, read, e₃, ok₃) = read_mask-body key text rest i₂ good bytes fits ok₂ e₂ in
      (i₃, sized ∙ read, e₃, ok₃)

  -- A frame whose opcode is not Close, masked or not, with a payload of bytes that fits in a string
  -- and in 64 bits, is read as its payload, however the stream is cut, if no `recv` fails, and the
  -- bytes behind the frame are left.
  pub read_ws_frame-wire :
      (op : ℕ) (key : Option Key) (text rest : Bytes) (i : Incoming)
      → op % 16 ≢ 8
      → GoodKey key
      → IsBytes text
      → length text ≤ max_size
      → length text < 2 ^ 64
      → NoFailure i.arrivals
      → i.bytes ≡ wire op key text ++ rest
      → Reads (read_ws_frame max_size i) text rest
  read_ws_frame-wire op key text rest i not_8 good bytes fits size ok_all e =
      let n = length text in
      let b = flag key + code n in
      let (i₁, got, e₁, ok₁) =
        recv_exact-prefix i (op ∷ b ∷ []) ((extension n ++ body key text) ++ rest) 2 ok_all e
          refl in
      let (i₃, read, e₃, ok₃) = read_size-wire key text rest i₁ good bytes fits size ok₁ e₁ in
      (i₃, read_ws_frame_step i i₁ op b got not_8 ∙ read, e₃, ok₃)

-- What `send_ws_frame` writes is the unmasked text frame of RFC 6455, for every text of less than
-- 2 ^ 64 bytes.
pub ws_frame-wire : (text : Bytes) → length text < 2 ^ 64 → ws_frame text ≡ wire 0x81 none text
unfolding ws_frame size_bytes
ws_frame-wire text h = ground arith
