-- ===== src/GuacWeb/Keys.antt =====
-- The strings that `escape` of src/guac_web.cpp makes, read as JSON strings.
use tunnel_proxy.Base.{
  ℕ, ◌≤◌, ◌≡◌, refl, sym, ap, ◌⊎◌, false, inl, inr, [], ◌∷◌, ◌++◌, Option, none, some, arith, ltb,
  ◌==◌, ==_iff, if◌then◌else◌, Bool-cases, All, Bytes,
}
use tunnel_proxy.GuacWeb.Input.{escape}

-- What an escape sequence of RFC 8259 stands for; `\u` is left out.
abbrev escaped : ℕ → Option ℕ
escaped c =
    if c == b'"'
    then some b'"'
    else if c == b'\\'
    then some b'\\'
    else if c == b'/'
    then some b'/'
    else if c == b'r'
    then some 13
    else if c == b'n'
    then some 10
    else if c == b't'
    then some 9
    else none

abbrev consed : Option ℕ → Option (Bytes × Bytes) → Option (Bytes × Bytes)
consed (some c) (some (text, rest)) = some (c ∷ text, rest)
consed _ _ = none

-- A JSON string behind its opening quote: its text, and what stands behind its closing quote. A
-- control character is not allowed.
abbrev pub read_string : Bytes → Option (Bytes × Bytes)
read_string [] = none
read_string (c ∷ []) = if c == b'"' then some ([], []) else none
read_string (c ∷ d ∷ cs) =
    let behind_pair = read_string cs in
    let behind = read_string (d ∷ cs) in
    if c == b'"'
    then some ([], d ∷ cs)
    else if c == b'\\'
    then consed (escaped d) behind_pair
    else if ltb c 32
    then none
    else consed (some c) behind

-- A text without control characters but the carriage return.
abbrev pub IsPlain : Bytes → Type 0
IsPlain = All (λ c. (32 ≤ c) ⊎ (c ≡ 13))

-- A character that is read as it stands.
read_next :
    (c : ℕ) (cs : Bytes) (text rest : Bytes)
    → 32 ≤ c
    → (c == b'"') ≡ false
    → (c == b'\\') ≡ false
    → read_string cs ≡ some (text, rest)
    → read_string (c ∷ cs) ≡ some (c ∷ text, rest)
read_next c [] text rest h a b e = absurd (ground arith)
read_next c (d ∷ cs) text rest h a b e =
    let small : ltb c 32 ≡ false = ground arith in rw (a, b, small, e) refl

-- A plain text that is escaped, and a closing quote behind it, are read as that text by the grammar of
-- JSON strings, and what stands behind the quote is left.
pub read_string-escape :
    (text rest : Bytes)
    → IsPlain text
    → read_string (escape text ++ (b'"' ∷ rest)) ≡ some (text, rest)
unfolding escape
read_string-escape [] [] h = refl
read_string-escape [] (d ∷ rest) h = refl
read_string-escape (c ∷ cs) rest (h, hs) =
    let ih = read_string-escape cs rest hs in
    elim (Bool-cases (c == b'"')) [
      | inl quote ↦ rw (quote, ih) (ap (λ z. some (z ∷ cs, rest)) (sym ((==_iff c b'"').0 quote)))
      | inr not_quote ↦ elim (Bool-cases (c == b'\\')) [
        | inl slash ↦
            rw (not_quote, slash, ih)
              (ap (λ z. some (z ∷ cs, rest)) (sym ((==_iff c b'\\').0 slash)))
        | inr not_slash ↦ elim (Bool-cases (c == 13)) [
          | inl return ↦
              rw (not_quote, not_slash, return, ih)
                (ap (λ z. some (z ∷ cs, rest)) (sym ((==_iff c 13).0 return)))
          | inr not_return ↦
              rw (not_quote, not_slash, not_return)
                (read_next c (escape cs ++ (b'"' ∷ rest)) cs rest (ground arith) not_quote not_slash
                  ih)
        ]
      ]
    ]
