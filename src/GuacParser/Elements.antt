-- ===== src/GuacParser/Elements.antt =====
-- How the parser reads the wire form of elements.
use mathlib.Core.List.{cons-ne-nil}
use tunnel_proxy.Base.{
  ℕ, ◌+◌, ◌≤◌, ◌<◌, ◌^◌, ◌≡◌, ◌≢◌, refl, ap, ◌∙◌, List, [], ◌∷◌, ◌++◌, arith, length, length-append,
  append-nil, append_assoc, All, Bytes, done, IsDigits, stoul, to_string, value-to_string,
  to_string-IsDigits, to_string-ne-nil, some, if◌then◌else◌, ◌==◌,
}
use tunnel_proxy.GuacParser.{
  GuacInstruction, empty_instruction, GuacParser, reading_length, reading_element, reading_sep,
  store_element, process_byte, feed, element, elements,
}

-- The instruction as it is once the element that was read is stored.
abbrev pub gathered : GuacParser → GuacInstruction
gathered p = store_element p.elem_buf p.current

stoul-to_string : (n : ℕ) → n < 2 ^ 64 → stoul (to_string n) ≡ some n
unfolding stoul
stoul-to_string n h = ground (arith, value-to_string n)

store_element-args :
    (i : GuacInstruction) (o : Bytes) (xs : List Bytes) (v : Bytes)
    → i ≡ record { opcode = o; args = xs }
    → o ≢ []
    → store_element v i ≡ record { opcode = o; args = xs ++ (v ∷ []) }
unfolding store_element
store_element-args i [] xs v e ne = absurd (ne refl)
store_element-args i (c ∷ cs) xs v e ne = ground arith

module _ (max_size : ℕ) where
  -- The length is one that `stoul` and `reserve` accept.
  abbrev pub Fits : Bytes → Type 0
  Fits v = (length v ≤ max_size) × (length v < 2 ^ 64)

  feed-digits :
      (ds rest : Bytes) (p : GuacParser)
      → p.state ≡ reading_length
      → IsDigits ds
      → feed max_size p (ds ++ rest) ≡ feed max_size (record p { len_buf = p.len_buf ++ ds }) rest
  unfolding feed process_byte
  feed-digits [] rest p m h = rw append-nil
  feed-digits (d ∷ ds) rest p m h = ground (
    arith,
    feed-digits ds rest (record p { len_buf = p.len_buf ++ (d ∷ []) }) m h.1,
    append_assoc p.len_buf (d ∷ []) ds,
  )

  feed-content :
      (v rest : Bytes) (p : GuacParser)
      → p.state ≡ reading_element
      → v ≢ []
      → length p.elem_buf + length v ≡ p.current_len
      → feed max_size p (v ++ rest)
        ≡ feed max_size (record p { elem_buf = p.elem_buf ++ v; state = reading_sep }) rest
  unfolding feed process_byte
  feed-content [] rest p m ne l = absurd (ne refl)
  feed-content (c ∷ []) rest p m ne l = ground (arith, length-append p.elem_buf (c ∷ []))
  feed-content (c ∷ d ∷ ds) rest p m ne l = ground (
    arith,
    length-append p.elem_buf (c ∷ []),
    feed-content (d ∷ ds) rest
        (record p { elem_buf = p.elem_buf ++ (c ∷ []); state = reading_element }) refl
        (cons-ne-nil d ds),
    append_assoc p.elem_buf (c ∷ []) (d ∷ ds),
  )

  process_byte-dot :
      (p : GuacParser) (n : ℕ)
      → p.state ≡ reading_length
      → p.len_buf ≡ to_string n
      → n ≤ max_size
      → n < 2 ^ 64
      → process_byte max_size p b'.'
        ≡ done (record p {
          len_buf = [];
          elem_buf = [];
          current_len = n;
          state = if n == 0 then reading_sep else reading_element;
        })
  unfolding process_byte
  process_byte-dot p n m l small fits = ground (arith, stoul-to_string n fits, to_string-ne-nil n)

  feed-dot :
      (v rest : Bytes) (p : GuacParser)
      → p.state ≡ reading_length
      → p.len_buf ≡ to_string (length v)
      → Fits v
      → feed max_size p (b'.' ∷ (v ++ rest))
        ≡ feed max_size
            (record p { len_buf = []; elem_buf = v; current_len = length v; state = reading_sep })
            rest
  unfolding feed
  feed-dot [] rest p m l h = rw (process_byte-dot p 0 m l h.0 h.1)
  feed-dot (c ∷ v) rest p m l h =
      let q = record p {
        current_len = length (c ∷ v);
        len_buf = [];
        elem_buf = [];
        state = reading_element;
      } in
      let read = feed-content (c ∷ v) rest q refl (cons-ne-nil c v) (omega arith) in
      ground (arith, process_byte-dot p (length (c ∷ v)) m l h.0 h.1, read)

  pub feed-element :
      (v rest : Bytes) (p : GuacParser)
      → p.state ≡ reading_length
      → p.len_buf ≡ []
      → Fits v
      → feed max_size p (element v ++ rest)
        ≡ feed max_size
            (record p { len_buf = []; elem_buf = v; current_len = length v; state = reading_sep })
            rest
  feed-element v rest p m l h =
      let q = record p { len_buf = to_string (length v) } in
      rw append_assoc (
        feed-digits (to_string (length v)) (b'.' ∷ (v ++ rest)) p m (to_string-IsDigits (length v))
        ∙ rw l (feed-dot v rest q m refl h))

  feed-comma :
      (p : GuacParser) (rest : Bytes)
      → p.state ≡ reading_sep
      → feed max_size p (b',' ∷ rest)
        ≡ feed max_size
            (record p { current = gathered p; elem_buf = []; state = reading_length })
            rest
  unfolding feed process_byte
  feed-comma p rest m = ground arith

  pub feed-elements :
      (vs : List Bytes) (rest : Bytes) (p : GuacParser) (o : Bytes) (xs : List Bytes)
      → p.state ≡ reading_sep
      → p.len_buf ≡ []
      → gathered p ≡ record { opcode = o; args = xs }
      → o ≢ []
      → All Fits vs
      → (q : GuacParser) × (feed max_size p (elements vs ++ rest) ≡ feed max_size q rest)
        × (q.state ≡ reading_sep)
        × (q.len_buf ≡ [])
        × (gathered q ≡ record { opcode = o; args = xs ++ vs })
        × (q.ready ≡ p.ready)
  feed-elements [] rest p o xs m l g ne h = (p, refl, m, l, rw append-nil g, refl)
  feed-elements (v ∷ vs) rest p o xs m l g ne h =
      let at_length = record p { current = gathered p; elem_buf = []; state = reading_length } in
      let at_sep = record at_length {
        len_buf = [];
        elem_buf = v;
        current_len = length v;
        state = reading_sep;
      } in
      let (q, read, m', l', g', r') =
        feed-elements vs rest at_sep o (xs ++ (v ∷ [])) refl refl (store_element-args _ o xs v g ne)
          ne h.1 in
      (
        q,
        ap (λ t. feed max_size p (b',' ∷ t)) (append_assoc (element v) (elements vs) rest)
            ∙ feed-comma p (element v ++ (elements vs ++ rest)) m
            ∙ feed-element v (elements vs ++ rest) at_length refl l h.0
            ∙ read,
        m',
        l',
        g' ∙ ap (λ ys. record { opcode = o; args = ys }) (append_assoc xs (v ∷ []) vs),
        r',
      )

  -- At `;`, with an instruction gathered.
  pub feed-semicolon :
      (p : GuacParser) (rest o : Bytes) (xs : List Bytes)
      → p.state ≡ reading_sep
      → gathered p ≡ record { opcode = o; args = xs }
      → o ≢ []
      → feed max_size p (b';' ∷ rest)
        ≡ feed max_size
            (record p {
              current = empty_instruction;
              elem_buf = [];
              state = reading_length;
              ready = p.ready ++ (record { opcode = o; args = xs } ∷ []);
            })
            rest
  unfolding feed process_byte
  feed-semicolon p rest [] xs m g ne = absurd (ne refl)
  feed-semicolon p rest (c ∷ cs) xs m g ne = ground arith
