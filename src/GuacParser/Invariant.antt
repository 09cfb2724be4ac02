-- ===== src/GuacParser/Invariant.antt =====
-- What holds of the parser after any input, errors included.
use tunnel_proxy.Base.{
  ℕ, ◌≤◌, ◌<◌, ◌≡◌, ◌≢◌, refl, [], ◌∷◌, arith, length, length-append, All, All-append, Bytes,
  Effect, done, raised, then_do, left, Bool, true, false, is_digit, IsDigits,
}
use tunnel_proxy.GuacParser.{
  Error, GuacInstruction, State, reading_length, reading_element, reading_sep, GuacParser,
  process_byte, process_in, feed, store_element,
}

abbrev has_opcode : GuacInstruction → Bool
has_opcode i = elim i.opcode [ [] ↦ false | c ∷ cs ↦ true ]

-- The opcode is not empty.
abbrev pub Named : GuacInstruction → Type 0
Named i = has_opcode i ≡ true

pub record IsValid (max_size : ℕ) (p : GuacParser) : Type 0 where
  -- Every instruction in the queue has an opcode.
  pub named : All Named p.ready
  -- The length field holds digits only.
  pub digits : IsDigits p.len_buf
  -- The element never outgrows its length, and a length that is being read fits in a string.
  pub within : length p.elem_buf ≤ p.current_len
  pub short : p.state ≡ reading_element → length p.elem_buf < p.current_len
  pub whole : p.state ≡ reading_sep → length p.elem_buf ≡ p.current_len
  pub reserved : p.state ≢ reading_length → p.current_len ≤ max_size

stored_name : (elem : Bytes) (i : GuacInstruction) → (store_element elem i).opcode ≡ [] → elem ≡ []
unfolding store_element
stored_name elem i h = ground arith

module _ (max_size : ℕ) where
  abbrev Keeps : Effect Error GuacParser → Type 0
  Keeps r = IsValid max_size (left r)

  process_in-IsValid :
      (s : State) (p : GuacParser) (c : ℕ)
      → p.state ≡ s
      → IsValid max_size p
      → Keeps (process_in max_size s p c)
  unfolding process_in
  process_in-IsValid reading_length p c e v = ground (
    arith,
    v.digits,
    λ (h : is_digit c ≡ true).
        All-append (λ d. is_digit d ≡ true) p.len_buf (c ∷ []) v.digits (h, tt),
  )
  process_in-IsValid reading_element p c e v =
      ground (arith, length-append p.elem_buf (c ∷ []), v.short e, v.reserved)
  process_in-IsValid reading_sep p c e v =
      let i = store_element p.elem_buf p.current in
      ground (
        arith,
        v.whole e,
        v.reserved,
        stored_name p.elem_buf p.current,
        λ (h : Named i). All-append Named p.ready (i ∷ []) v.named (h, tt),
      )

  process_byte-IsValid :
      (p : GuacParser) (c : ℕ) → IsValid max_size p → Keeps (process_byte max_size p c)
  unfolding process_byte
  process_byte-IsValid p c v = process_in-IsValid p.state p c refl v

  then_do-Keeps :
      (r : Effect Error GuacParser) (cs : Bytes)
      → Keeps r
      → ((q : GuacParser) → IsValid max_size q → Keeps (feed max_size q cs))
      → Keeps (then_do r (λ q. feed max_size q cs))
  then_do-Keeps (done q) cs v h = h q v
  then_do-Keeps (raised e q) cs v h = v

  -- Whatever bytes arrive, and also where `feed` throws: every instruction in the queue has an
  -- opcode, the length field holds digits only, and the element that is being read never outgrows
  -- the length that was announced for it.
  pub feed-IsValid : (p : GuacParser) (cs : Bytes) → IsValid max_size p → Keeps (feed max_size p cs)
  unfolding feed
  feed-IsValid p [] v = v
  feed-IsValid p (c ∷ cs) v =
      then_do-Keeps (process_byte max_size p c) cs (process_byte-IsValid p c v)
        (λ q w. feed-IsValid q cs w)
