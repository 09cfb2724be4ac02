-- ===== src/Tests/Frames.antt =====
-- Frames, payloads and the stream.
use tunnel_proxy.Base.{
  ◌≤◌, ◌≡◌, refl, Bool, [], ◌∷◌, ◌++◌, some, arith, length, Bytes, codes, throw,
}
use tunnel_proxy.Protocol.Types.{
  TunnelFrame, IsSendable, new_frame, to_byte, of_byte, unnamed, tunnel_magic, tunnel_max_payload,
}
use tunnel_proxy.Protocol.{invalid_magic, serialize, parse_header, make_data}
use tunnel_proxy.Socket.Receive.{recv_frame-serialize, recv_frame_sound, NoFailure}
use tunnel_proxy.Socket.Delivery.{send_all_sound}
use tunnel_proxy.Socket.{Incoming, recv_loop, recv_exact, recv_payload, recv_frame, send_all}

abbrev hi : TunnelFrame
hi = make_data 7 (codes "hi")

serialize-hi :
    serialize hi
    ≡ 0x54 ∷ 0x4E ∷ 0x4C ∷ 0x50 ∷ 5 ∷ 0 ∷ 0 ∷ 0 ∷ 0 ∷ 0 ∷ 0 ∷ 7 ∷ 0 ∷ 0 ∷ 0 ∷ 2 ∷ b'h' ∷ b'i' ∷ []
unfolding serialize make_data new_frame
serialize-hi = refl

unknown_type : of_byte 0x2a ≡ unnamed 0x2a
unfolding of_byte
unknown_type = refl

hi-IsSendable : IsSendable hi
unfolding make_data new_frame to_byte of_byte
hi-IsSendable = record {
  ranged = record {
    type_fits = omega arith;
    type_named = refl;
    flags_fit = omega arith;
    reserved_fits = omega arith;
    session_id_fits = omega arith;
    payload_fits = omega arith;
  };
  magic_is = refl;
  length_is = refl;
  bounded = omega arith;
}

-- The frame arrives in three pieces, with one more byte behind it.
abbrev pieces : Incoming
pieces = record { bytes = serialize hi ++ (1 ∷ []); arrivals = 3 ∷ 13 ∷ 1 ∷ [] }

recv_pieces : recv_frame pieces ≡ some (hi, record { bytes = 1 ∷ []; arrivals = [] })
unfolding recv_frame recv_payload recv_exact recv_loop serialize make_data new_frame parse_header
    of_byte
recv_pieces = refl

recv_frame-serialize_example :
    (i' : Incoming) × (recv_frame pieces ≡ some (hi, i'))
    × (i'.bytes ≡ 1 ∷ [])
    × NoFailure i'.arrivals
recv_frame-serialize_example =
    recv_frame-serialize hi pieces (1 ∷ []) hi-IsSendable (omega arith) refl

recv_frame_sound_example :
    (pieces.bytes ≡ serialize hi ++ (1 ∷ []))
    × (hi.magic ≡ tunnel_magic)
    × (hi.length ≡ length hi.payload)
    × (hi.length ≤ tunnel_max_payload)
unfolding serialize make_data new_frame
recv_frame_sound_example =
    recv_frame_sound pieces (record { bytes = 1 ∷ []; arrivals = [] }) hi (omega arith) recv_pieces

bad_magic : parse_header (serialize (record hi { magic = 1 })) 16 ≡ throw (invalid_magic 1)
unfolding parse_header serialize make_data new_frame
bad_magic = refl

abbrev address : Bytes
address = 10 ∷ 0 ∷ 0 ∷ 5 ∷ []

-- The second `send` fails.
send_part : send_all (1 ∷ 0 ∷ []) (codes "hi") ≡ ([], codes "h", Bool.false)
unfolding send_all
send_part = refl

send_all_sound_example :
    ((rest : Bytes) × ((send_all (1 ∷ 0 ∷ []) (codes "hi")).1 ++ rest ≡ codes "hi")
      × (((send_all (1 ∷ 0 ∷ []) (codes "hi")).2 ≡ Bool.true) → rest ≡ [])
      × ((send_all (1 ∷ 0 ∷ []) (codes "hi")).2 ≡ Bool.false → ¬ (rest ≡ [])))
    × (NoFailure (1 ∷ 0 ∷ []) → (send_all (1 ∷ 0 ∷ []) (codes "hi")).2 ≡ Bool.true)
send_all_sound_example = send_all_sound (1 ∷ 0 ∷ []) (codes "hi")
