-- ===== src/Socket/Receive.antt =====
-- Whatever the kernel answers, `recv_exact` and `recv_frame` keep the stream whole.
use tunnel_proxy.Base.{
  ℕ, ◌+◌, ◌-◌, ◌≤◌, ◌<◌, min, ◌≡◌, refl, sym, ap, ◌∙◌, false, List, [], ◌∷◌, ◌++◌, some,
  Option-cases, Outcome-cases, ◌==◌, ltb, Bool-cases, inl, inr, arith, append-nil, append_assoc,
  length, length-append, length-take, length-drop, take, drop, take-append, drop-append,
  take-append-drop, take_all, subst, All, All-append_left, Bytes, IsBytes, ok,
}
use tunnel_proxy.Protocol.Header.{
  length-header_bytes, parse_header-header_bytes, parse_header_sound,
}
use tunnel_proxy.Protocol.Types.{
  TunnelFrame, IsSendable, tunnel_magic, tunnel_header_size, tunnel_max_payload,
}
use tunnel_proxy.Protocol.{header_bytes, serialize, parse_header}
use tunnel_proxy.Socket.{Incoming, recv_loop, recv_exact, recv_payload, recv_frame}

pub recv_loop_sound :
    (rs : List ℕ) (bytes : Bytes) (wanted : ℕ) (got out : Bytes) (i : Incoming)
    → recv_loop rs bytes wanted got ≡ some (out, i)
    → (out ++ i.bytes ≡ got ++ bytes) × (length out ≡ length got + wanted)
unfolding recv_loop
recv_loop_sound [] bytes wanted got out i h = ground (
  arith,
  append_assoc got (take wanted bytes) (drop wanted bytes),
  take-append-drop wanted bytes,
  length-append got (take wanted bytes),
  length-take wanted bytes,
)
recv_loop_sound (r ∷ rs) bytes wanted got out i h =
    let n = min r (min wanted (length bytes)) in
    ground (
      arith,
      recv_loop_sound rs (drop n bytes) (wanted - n) (got ++ take n bytes) out i,
      append_assoc got (take n bytes) (drop n bytes),
      take-append-drop n bytes,
      length-append got (take n bytes),
      length-take n bytes,
    )

-- No `recv` or `send` fails.
abbrev pub NoFailure : List ℕ → Type 0
NoFailure = All (λ r. 0 < r)

recv_loop_complete :
    (rs : List ℕ) (bytes : Bytes) (wanted : ℕ) (got : Bytes)
    → NoFailure rs
    → wanted ≤ length bytes
    → (out : Bytes) × (i : Incoming) × (recv_loop rs bytes wanted got ≡ some (out, i))
      × NoFailure i.arrivals
unfolding recv_loop
recv_loop_complete [] bytes wanted got h l = (
  got ++ take wanted bytes,
  record { bytes = drop wanted bytes; arrivals = [] },
  ground arith,
  tt,
)
recv_loop_complete (r ∷ rs) bytes wanted got h l = elim (Bool-cases (wanted == 0)) [
  | inl all ↦ (got, record { bytes = bytes; arrivals = r ∷ rs }, rw all, h)
  | inr some_left ↦
      let n = min r (min wanted (length bytes)) in
      let (out, i, e, h') =
        recv_loop_complete rs (drop n bytes) (wanted - n) (got ++ take n bytes) h.1
          (omega (arith, length-drop n bytes)) in
      let moved : (n == 0) ≡ false = ground (arith, h.0) in (out, i, rw (some_left, moved) e, h')
]

pub nothing : (bs : Bytes) → length bs ≡ 0 → bs ≡ []
nothing [] h = refl
nothing (b ∷ bs) h = absurd (omega arith)

pub append-inj : (a b c d : Bytes) → a ++ b ≡ c ++ d → length a ≡ length c → (a ≡ c) × (b ≡ d)
append-inj a b c d e l = (
  sym (take-append a b (length a) refl) ∙ ap (take (length a)) e ∙ take-append c d (length a) l,
  sym (drop-append a b (length a) refl) ∙ ap (drop (length a)) e ∙ drop-append c d (length a) l,
)

-- An exact read of a known prefix.
pub recv_exact-prefix :
    (i : Incoming) (front rest : Bytes) (n : ℕ)
    → NoFailure i.arrivals
    → i.bytes ≡ front ++ rest
    → n ≡ length front
    → (i' : Incoming) × (recv_exact i n ≡ some (front, i'))
      × (i'.bytes ≡ rest)
      × NoFailure i'.arrivals
unfolding recv_exact
recv_exact-prefix i front rest n ok_all e l =
    let (out, i', got, ok') =
      recv_loop_complete i.arrivals i.bytes n [] ok_all
        (omega (arith, ap length e, length-append front rest)) in
    let (whole, size) = recv_loop_sound i.arrivals i.bytes n [] out i' got in
    let (same, left_over) = append-inj out i'.bytes front rest (whole ∙ e) (omega arith) in
    (i', got ∙ ap (λ o. some (o, i')) same, left_over, ok')

recv_payload-prefix :
    (f : TunnelFrame) (i : Incoming) (rest : Bytes)
    → IsSendable f
    → NoFailure i.arrivals
    → i.bytes ≡ f.payload ++ rest
    → (i' : Incoming) × (recv_payload (record f { payload = [] }) i ≡ some (f, i'))
      × (i'.bytes ≡ rest)
      × NoFailure i'.arrivals
unfolding recv_payload
recv_payload-prefix f i rest v ok_all e = elim (Bool-cases (ltb 0 f.length)) [
  | inl more ↦
      let (i', got, left_over, ok') =
        recv_exact-prefix i f.payload rest f.length ok_all e v.length_is in
      (i', rw (more, got), left_over, ok')
  | inr empty ↦
      let none_sent : f.payload ≡ [] = nothing f.payload (ground arith) in
      (
        i,
        rw empty (ap (λ p. some (record f { payload = p }, i)) (sym none_sent)),
        e ∙ ap (λ p. p ++ rest) none_sent,
        ok_all,
      )
]

recv_frame_step :
    (i i' : Incoming) (hdr : Bytes) (f : TunnelFrame)
    → recv_exact i tunnel_header_size ≡ some (hdr, i')
    → parse_header hdr tunnel_header_size ≡ ok f
    → recv_frame i ≡ recv_payload f i'
unfolding recv_frame
recv_frame_step i i' hdr f got parsed = ground arith

-- However the kernel cuts the stream, as long as no `recv` fails before, `recv_frame` reads the
-- frame that was sent and leaves exactly the bytes behind it.
pub recv_frame-serialize :
    (f : TunnelFrame) (i : Incoming) (rest : Bytes)
    → IsSendable f
    → NoFailure i.arrivals
    → i.bytes ≡ serialize f ++ rest
    → (i' : Incoming) × (recv_frame i ≡ some (f, i')) × (i'.bytes ≡ rest) × NoFailure i'.arrivals
recv_frame-serialize f i rest v ok_all e =
    let (i', got, e', ok') =
      recv_exact-prefix i (header_bytes f) (f.payload ++ rest) 16 ok_all
        (e ∙ unfold serialize in append_assoc (header_bytes f) f.payload rest)
        (sym (length-header_bytes f)) in
    let parsed =
      ap (λ b. parse_header b 16) (sym (append-nil (header_bytes f)))
      ∙ parse_header-header_bytes f [] 16 v (omega arith) in
    let (i'', got', e'', ok'') = recv_payload-prefix f i' rest v ok' e' in
    (
      i'',
      recv_frame_step i i' (header_bytes f) (record f { payload = [] }) got parsed ∙ got',
      e'',
      ok'',
    )

recv_frame_cases :
    (i i' : Incoming) (f : TunnelFrame)
    → recv_frame i ≡ some (f, i')
    → (hdr : Bytes) × (i₁ : Incoming) × (f₀ : TunnelFrame) × (recv_exact i tunnel_header_size
        ≡ some (hdr, i₁))
      × (parse_header hdr tunnel_header_size ≡ ok f₀)
      × (recv_payload f₀ i₁ ≡ some (f, i'))
recv_frame_cases i i' f h = elim (Option-cases (recv_exact i tunnel_header_size)) [
  | inl e ↦ absurd (unfold recv_frame in ground arith)
  | inr ((hdr, i₁), e) ↦ elim (Outcome-cases (parse_header hdr tunnel_header_size)) [
    | inl (f₀, parsed) ↦ (hdr, i₁, f₀, e, parsed, sym (recv_frame_step i i₁ hdr f₀ e parsed) ∙ h)
    | inr (error, refused) ↦ absurd (unfold recv_frame in ground arith)
  ]
]

recv_payload_sound :
    (f₀ f : TunnelFrame) (i i' : Incoming)
    → f₀.payload ≡ []
    → recv_payload f₀ i ≡ some (f, i')
    → (f ≡ record f₀ { payload = f.payload })
      × (f.payload ++ i'.bytes ≡ i.bytes)
      × (f₀.length ≡ length f.payload)
unfolding recv_payload recv_exact
recv_payload_sound f₀ f i i' e h =
    ground (arith, recv_loop_sound i.arrivals i.bytes f₀.length [] f.payload i')

header_bytes-payload :
    (f : TunnelFrame) (p : Bytes) → header_bytes (record f { payload = p }) ≡ header_bytes f
unfolding header_bytes
header_bytes-payload f p = refl

-- Whenever `recv_frame` returns a frame, also between failures, the stream began with exactly its
-- wire form, the magic number is right, and the length is that of the payload and in its bound.
pub recv_frame_sound :
    (i i' : Incoming) (f : TunnelFrame)
    → IsBytes i.bytes
    → recv_frame i ≡ some (f, i')
    → (i.bytes ≡ serialize f ++ i'.bytes)
      × (f.magic ≡ tunnel_magic)
      × (f.length ≡ length f.payload)
      × (f.length ≤ tunnel_max_payload)
unfolding recv_exact serialize
recv_frame_sound i i' f bytes h =
    let (hdr, i₁, f₀, got, parsed, more) = recv_frame_cases i i' f h in
    let (whole, size) = recv_loop_sound i.arrivals i.bytes 16 [] hdr i₁ got in
    let hdr_bytes : IsBytes hdr =
      All-append_left (λ b. b < 256) hdr i₁.bytes (subst IsBytes (sym whole) bytes) in
    let (shape, magic, bound, no_payload, _) =
      parse_header_sound hdr 16 f₀ hdr_bytes (omega arith) parsed in
    let (same, rest, len) = recv_payload_sound f₀ f i₁ i' no_payload more in
    let head : header_bytes f ≡ hdr =
      ap header_bytes same
      ∙ header_bytes-payload f₀ f.payload
      ∙ sym shape
      ∙ take_all hdr 16 (omega arith) in
    let len' : f.length ≡ f₀.length = ap (λ (g : TunnelFrame). g.length) same in
    (
      sym whole
          ∙ ap (λ t. hdr ++ t) (sym rest)
          ∙ sym (append_assoc hdr f.payload i'.bytes)
          ∙ ap (λ t. (t ++ f.payload) ++ i'.bytes) (sym head),
      ap (λ (g : TunnelFrame). g.magic) same ∙ magic,
      len' ∙ len,
      omega arith,
    )
