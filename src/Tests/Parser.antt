-- ===== src/Tests/Parser.antt =====
-- The Guacamole parser.
use tunnel_proxy.Base.{
  ℕ, ◌≡◌, refl, List, [], ◌∷◌, arith, Bytes, codes, ok, done, raised, left, to_string,
}
use tunnel_proxy.GuacParser.Invariant.{IsValid, feed-IsValid}
use tunnel_proxy.GuacParser.RoundTrip.{IsIdle, feed_packets-serialize_all}
use tunnel_proxy.GuacParser.Stream.{feed_packets}
use tunnel_proxy.GuacParser.{
  GuacInstruction, GuacParser, new, feed, process_byte, serialize, unexpected_char,
}

abbrev draw : GuacInstruction
draw = record { opcode = codes "draw"; args = codes "0" ∷ codes "100" ∷ codes "" ∷ [] }

abbrev sync : GuacInstruction
sync = record { opcode = codes "sync"; args = codes "a;b" ∷ [] }

-- The limit of std::string on a 64-bit machine.
abbrev pub max_size : ℕ
max_size = 0x7FFFFFFFFFFFFFFF

serialize-draw : serialize draw ≡ ok (codes "4.draw,1.0,3.100,0.;")
unfolding serialize to_string
serialize-draw = refl

abbrev packets : List Bytes
packets = codes "4.dr" ∷ codes "aw,1.0,3.100" ∷ codes "" ∷ codes ",0.;4.sync,3.a;b;" ∷ []

feed_packets-serialize_all_example :
    (q : GuacParser) × (feed_packets max_size new packets ≡ done q)
    × IsIdle q
    × (q.ready ≡ draw ∷ sync ∷ [])
unfolding serialize to_string
feed_packets-serialize_all_example =
    feed_packets-serialize_all max_size (draw ∷ sync ∷ []) packets refl (omega arith)

bad_length : (p : GuacParser) × (feed max_size new (codes "4x") ≡ raised (unexpected_char b'x') p)
unfolding feed process_byte new
bad_length = (record new { len_buf = codes "4" }, refl)

new-IsValid : IsValid max_size new
unfolding new
new-IsValid = record {
  named = tt;
  digits = tt;
  within = omega arith;
  short = λ e. cc;
  whole = λ e. cc;
  reserved = λ ne. absurd (ne refl);
}

feed-IsValid_example : IsValid max_size (left (feed max_size new (codes "4.draw,1.0;0.;")))
feed-IsValid_example = feed-IsValid max_size new (codes "4.draw,1.0;0.;") new-IsValid
