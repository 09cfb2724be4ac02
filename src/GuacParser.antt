-- ===== src/GuacParser.antt =====
-- include/core/guac_parser.h and src/guac_parser.cpp: the streaming parser of Guacamole
-- instructions, one byte at a time, and the serializer. A method that throws leaves the object
-- that it had reached: `raised error parser`.
pub mod Invariant
pub mod Elements
pub mod RoundTrip
pub mod Stream
pub mod Queue
pub mod Quirks
use tunnel_proxy.Base.{
  ℕ, ◌≡◌, Bool, true, false, ◌||◌, List, [], ◌∷◌, ◌++◌, Option, none, some, ltb, leb, ◌==◌,
  if◌then◌else◌, length, Bytes, Outcome, ok, throw, Effect, done, raised, then_do, is_digit, stoul,
  to_string,
}

pub record GuacInstruction : Type 0 where
  pub opcode : Bytes
  pub args : List Bytes

pub data State : Type 0 where
  reading_length reading_element reading_sep : State

pub data Error : Type 0 where
  empty_length length_out_of_range length_error empty_opcode no_instruction : Error
  unexpected_char expected_separator : ℕ → Error

-- `ready` has the front of the queue at its head.
pub record GuacParser : Type 0 where
  pub state : State
  pub len_buf : Bytes
  pub elem_buf : Bytes
  pub current_len : ℕ
  pub current : GuacInstruction
  pub ready : List GuacInstruction

abbrev pub empty_instruction : GuacInstruction
empty_instruction = record { opcode = []; args = [] }

unfoldable pub new : GuacParser
new = record {
  state = reading_length;
  len_buf = [];
  elem_buf = [];
  current_len = 0;
  current = empty_instruction;
  ready = [];
}

unfoldable pub reset : GuacParser → GuacParser
reset p = record p {
  state = reading_length;
  current_len = 0;
  len_buf = [];
  elem_buf = [];
  current = empty_instruction;
  ready = [];
}

unfoldable pub has_instruction : GuacParser → Bool
has_instruction p = elim p.ready [ [] ↦ false | i ∷ is ↦ true ]

unfoldable pub next_instruction : GuacParser → Outcome Error (GuacInstruction × GuacParser)
next_instruction p = elim p.ready [
  | [] ↦ throw no_instruction
  | i ∷ is ↦ ok (i, record p { ready = is })
]

-- The first element is the opcode and the later ones are arguments: told apart by whether there
-- is an opcode yet.
unfoldable pub store_element : Bytes → GuacInstruction → GuacInstruction
store_element elem i = elim i.opcode [
  | [] ↦ record i { opcode = elem }
  | c ∷ cs ↦ record i { args = i.args ++ (elem ∷ []) }
]

-- At `;`, with the last element stored.
complete : GuacParser → Bytes → Effect Error GuacParser
complete p [] = raised empty_opcode p
complete p (c ∷ cs) = done (record p {
  ready = p.ready ++ (p.current ∷ []);
  current = empty_instruction;
  state = reading_length;
})

read_sep : GuacParser → ℕ → Effect Error GuacParser
unfolding store_element complete
read_sep p c =
    let q = record p { current = store_element p.elem_buf p.current; elem_buf = [] } in
    if c == b',' || c == b';'
    then if c == b','
      then done (record q { state = reading_length })
      else complete q q.current.opcode
    else raised (expected_separator c) p

read_element : GuacParser → ℕ → Effect Error GuacParser
read_element p c =
    let elem = p.elem_buf ++ (c ∷ []) in
    done (record p {
      elem_buf = elem;
      state = if length elem == p.current_len then reading_sep else reading_element;
    })

-- `max_size` is std::string::max_size(), above which `reserve` throws. Memory is not exhausted.
module _ (max_size : ℕ) where
  -- At `.`, on the digits read so far.
  start_element : GuacParser → Bytes → Effect Error GuacParser
  start_element p [] = raised empty_length p
  start_element p (d ∷ ds) = elim (stoul (d ∷ ds)) [
    | none ↦ raised length_out_of_range p
    | some n ↦
        let q = record p { current_len = n; len_buf = []; elem_buf = [] } in
        if ltb max_size n
        then raised length_error q
        else done (record q { state = if n == 0 then reading_sep else reading_element })
  ]

  read_length : GuacParser → ℕ → Effect Error GuacParser
  unfolding start_element
  read_length p c =
      if is_digit c
      then done (record p { len_buf = p.len_buf ++ (c ∷ []) })
      else if c == b'.'
      then start_element p p.len_buf
      else raised (unexpected_char c) p

  process_in : State → GuacParser → ℕ → Effect Error GuacParser
  unfolding read_length read_element read_sep
  process_in reading_length p c = read_length p c
  process_in reading_element p c = read_element p c
  process_in reading_sep p c = read_sep p c

  unfoldable pub process_byte : GuacParser → ℕ → Effect Error GuacParser
  unfolding process_in
  process_byte p c = process_in p.state p c

  unfoldable pub feed : GuacParser → Bytes → Effect Error GuacParser
  feed p [] = done p
  feed p (c ∷ cs) = then_do (process_byte p c) (λ q. feed q cs)

-- `LENGTH.VALUE`
abbrev pub element : Bytes → Bytes
element v = to_string (length v) ++ (b'.' ∷ v)

abbrev pub elements : List Bytes → Bytes
elements [] = []
elements (v ∷ vs) = b',' ∷ (element v ++ elements vs)

serialize_from : GuacInstruction → Bytes → Outcome Error Bytes
serialize_from i [] = throw empty_opcode
serialize_from i (c ∷ cs) = ok ((element i.opcode ++ elements i.args) ++ (b';' ∷ []))

unfoldable pub serialize : GuacInstruction → Outcome Error Bytes
unfolding serialize_from
serialize i = serialize_from i i.opcode
