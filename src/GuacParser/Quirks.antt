-- ===== src/GuacParser/Quirks.antt =====
-- An empty first element is not refused: whether an element is the opcode is decided by whether
-- the opcode is still empty.
use tunnel_proxy.Base.{
  ℕ, ◌≡◌, ◌≢◌, refl, sym, ap, ◌∙◌, List, [], ◌∷◌, ◌++◌, arith, append_assoc, All, Bytes, throw,
  to_string, stoul, some,
}
use tunnel_proxy.GuacParser.Elements.{Fits}
use tunnel_proxy.GuacParser.RoundTrip.{IsIdle, feed-serialize}
use tunnel_proxy.GuacParser.{
  GuacInstruction, empty_instruction, GuacParser, reading_length, empty_opcode, process_byte, feed,
  element, elements, serialize,
}

stoul_zero : stoul (b'0' ∷ []) ≡ some 0
unfolding stoul
stoul_zero = refl

module _ (max_size : ℕ) where
  feed-empty_element :
      (p : GuacParser) (rest : Bytes)
      → IsIdle p
      → feed max_size p (element [] ++ (b',' ∷ rest))
        ≡ feed max_size
            (record p {
              elem_buf = [];
              current_len = 0;
              len_buf = [];
              state = reading_length;
              current = empty_instruction;
            })
            rest
  unfolding feed process_byte to_string
  feed-empty_element p rest idle =
      ground (arith, idle.at_length, idle.no_digits, idle.nothing_yet, stoul_zero)

  -- `serialize` refuses an empty opcode, but the parser does not: from a well-formed wire form
  -- with an empty first element it makes an instruction whose opcode is the first argument.
  pub feed_empty_opcode :
      (p : GuacParser) (v : Bytes) (vs : List Bytes) (rest : Bytes)
      → IsIdle p
      → v ≢ []
      → Fits max_size v
      → All (Fits max_size) vs
      → (serialize (record { opcode = []; args = v ∷ vs }) ≡ throw empty_opcode)
        × (q : GuacParser) × (feed max_size p (element [] ++ (elements (v ∷ vs) ++ (b';' ∷ rest)))
            ≡ feed max_size q rest)
        × IsIdle q
        × (q.ready ≡ p.ready ++ (record { opcode = v; args = vs } ∷ []))
  unfolding serialize
  feed_empty_opcode p [] vs rest idle ne fits all_fit = absurd (ne refl)
  feed_empty_opcode p (c ∷ cs) vs rest idle ne fits all_fit =
      let i : GuacInstruction = record { opcode = c ∷ cs; args = vs } in
      let emptied = record p {
        elem_buf = [];
        current_len = 0;
        len_buf = [];
        state = reading_length;
        current = empty_instruction;
      } in
      let wire = (element (c ∷ cs) ++ elements vs) ++ (b';' ∷ []) in
      let idle' : IsIdle emptied = record {
        at_length = refl;
        no_digits = refl;
        nothing_yet = refl;
      } in
      let (q, read, idle'', r) =
        feed-serialize max_size emptied i wire rest idle' refl fits all_fit in
      (
        refl,
        q,
        feed-empty_element p ((element (c ∷ cs) ++ elements vs) ++ (b';' ∷ rest)) idle
            ∙ ap (feed max_size emptied)
                (sym (append_assoc (element (c ∷ cs) ++ elements vs) (b';' ∷ []) rest))
            ∙ read,
        idle'',
        r,
      )
