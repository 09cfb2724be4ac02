-- ===== src/GuacParser/RoundTrip.antt =====
-- What `serialize` writes, the parser reads.
use mathlib.Core.List.{cons-ne-nil}
use tunnel_proxy.Base.{
  ℕ, ◌≡◌, ◌≢◌, refl, sym, ap, ◌∙◌, List, [], ◌∷◌, ◌++◌, arith, length, append-nil, append_assoc,
  All, Bytes, Outcome, ok, ◌>>=◌, >>=-eq-ok, done,
}
use tunnel_proxy.GuacParser.Stream.{joined, feed_packets, feed_packets-joined}
use tunnel_proxy.GuacParser.{
  Error, GuacInstruction, empty_instruction, GuacParser, reading_length, reading_sep, new,
  store_element, feed, element, elements, serialize,
}
use tunnel_proxy.GuacParser.Elements.{Fits, feed-element, feed-elements, feed-semicolon}

-- Between two instructions.
pub record IsIdle (p : GuacParser) : Type 0 where
  pub at_length : p.state ≡ reading_length
  pub no_digits : p.len_buf ≡ []
  pub nothing_yet : p.current ≡ empty_instruction

-- The wire forms of several instructions, one behind the other.
abbrev pub serialize_all : List GuacInstruction → Outcome Error Bytes
serialize_all [] = ok []
serialize_all (i ∷ is) = do wire ← serialize i; rest ← serialize_all is; ok (wire ++ rest)

module _ (max_size : ℕ) where
  gathered-first :
      (i : GuacInstruction) (v : Bytes)
      → i ≡ empty_instruction
      → store_element v i ≡ record { opcode = v; args = [] }
  unfolding store_element
  gathered-first i v e = ground arith

  serialize_cases :
      (i : GuacInstruction) (o wire : Bytes)
      → i.opcode ≡ o
      → serialize i ≡ ok wire
      → (i.opcode ≢ []) × (wire ≡ (element i.opcode ++ elements i.args) ++ (b';' ∷ []))
  unfolding serialize
  serialize_cases i [] wire e h = absurd (ground arith)
  serialize_cases i (c ∷ cs) wire e h = (ground (arith, cons-ne-nil c cs), ground arith)

  -- A parser between two instructions that is fed the wire form of an instruction, whose elements
  -- have lengths that fit, is again between two instructions when it reaches what follows, and
  -- has added exactly that instruction at the end of its queue.
  pub feed-serialize :
      (p : GuacParser) (i : GuacInstruction) (wire rest : Bytes)
      → IsIdle p
      → serialize i ≡ ok wire
      → Fits max_size i.opcode
      → All (Fits max_size) i.args
      → (q : GuacParser) × (feed max_size p (wire ++ rest) ≡ feed max_size q rest)
        × IsIdle q
        × (q.ready ≡ p.ready ++ (i ∷ []))
  feed-serialize p i wire rest idle wrote fits all_fit =
      let (ne, shape) = serialize_cases i i.opcode wire refl wrote in
      let opened = record p {
        len_buf = [];
        elem_buf = i.opcode;
        current_len = length i.opcode;
        state = reading_sep;
      } in
      let (q, read, m, l, g, r) =
        feed-elements max_size i.args (b';' ∷ rest) opened i.opcode [] refl refl
          (gathered-first p.current i.opcode idle.nothing_yet) ne all_fit in
      (
        record q {
          current = empty_instruction;
          elem_buf = [];
          state = reading_length;
          ready = q.ready ++ (i ∷ []);
        },
        ap (feed max_size p) (
              ap (λ t. t ++ rest) shape
              ∙ append_assoc (element i.opcode ++ elements i.args) (b';' ∷ []) rest
              ∙ append_assoc (element i.opcode) (elements i.args) (b';' ∷ rest))
            ∙ feed-element max_size i.opcode (elements i.args ++ (b';' ∷ rest)) p idle.at_length
                idle.no_digits fits
            ∙ read
            ∙ feed-semicolon max_size q rest i.opcode i.args m g ne,
        record { at_length = refl; no_digits = l; nothing_yet = refl },
        ap (λ x. x ++ (i ∷ [])) r,
      )

  abbrev pub AllFit : List GuacInstruction → Type 0
  AllFit = All (λ i. Fits max_size i.opcode × All (Fits max_size) i.args)

  feed-serialize_all :
      (is : List GuacInstruction) (p : GuacParser) (wire : Bytes)
      → IsIdle p
      → serialize_all is ≡ ok wire
      → AllFit is
      → (q : GuacParser) × (feed max_size p wire ≡ done q) × IsIdle q × (q.ready ≡ p.ready ++ is)
  unfolding feed
  feed-serialize_all [] p wire idle wrote fit = (p, ground arith, idle, sym (append-nil p.ready))
  feed-serialize_all (i ∷ is) p wire idle wrote fit =
      let (w, wrote_one, more) = >>=-eq-ok (serialize i) _ wrote in
      let (ws, wrote_rest, all_of) = >>=-eq-ok (serialize_all is) _ more in
      let (q, read, idle', r) = feed-serialize p i w ws idle wrote_one fit.0.0 fit.0.1 in
      let (q', read', idle'', r') = feed-serialize_all is q ws idle' wrote_rest fit.1 in
      (
        q',
        ap (feed max_size p) (ground arith) ∙ read ∙ read',
        idle'',
        r' ∙ ap (λ x. x ++ is) r ∙ append_assoc p.ready (i ∷ []) is,
      )

  -- A new parser that receives the wire forms of some instructions, whose elements have lengths
  -- that fit, cut into packets anywhere, has exactly these instructions in its queue, in order,
  -- and throws nothing.
  pub feed_packets-serialize_all :
      (is : List GuacInstruction) (packets : List Bytes)
      → serialize_all is ≡ ok (joined max_size packets)
      → AllFit is
      → (q : GuacParser) × (feed_packets max_size new packets ≡ done q) × IsIdle q × (q.ready ≡ is)
  unfolding new
  feed_packets-serialize_all is packets wrote fit =
      let fresh : IsIdle new = record { at_length = refl; no_digits = refl; nothing_yet = refl } in
      let (q, read, idle, r) =
        feed-serialize_all is new (joined max_size packets) fresh wrote fit in
      (q, feed_packets-joined max_size new packets ∙ read, idle, r)
