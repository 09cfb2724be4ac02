-- ===== src/GuacHttp/Answer.antt =====
-- What a request answers.
use mathlib.Core.Path.{fun_ext}
use tunnel_proxy.Base.{
  ℕ, ◌+◌, ◌^◌, ◌<◌, ◌≡◌, ◌≢◌, ◌⊎◌, refl, sym, ap, ap₂, subst, ◌∙◌, Bool, true, false, ◌&&◌, ◌||◌,
  leb, ◌==◌, ==_iff, All, map, length, drop, codes, to_string, is_empty, starts_with, List, [], ◌∷◌,
  ◌++◌, append-nil, append_assoc, none, some, if◌then◌else◌, Bool-cases, inl, inr, arith, Bytes,
}
use tunnel_proxy.GuacParser.{GuacInstruction}
use tunnel_proxy.GuacHttp.{
  base64_encode, to_lower, skip_blanks, until_eol, GuacHttpClient, Piece, header, body_part,
  write_header, write_body, is_content_type, type_value, perform, Result, curle_ok, failed, answer,
  response, run_request, cleared, connect,
}

-- The body, however it was cut.
abbrev pub body_of : List Piece → Bytes
body_of [] = []
body_of (header line ∷ rest) = body_of rest
body_of (body_part part ∷ rest) = part ++ body_of rest

-- The value of the last Content-Type header, or `before`.
abbrev pub type_of : Bytes → List Piece → Bytes
type_of before [] = before
type_of before (header line ∷ rest) =
    type_of (if is_content_type line then type_value line else before) rest
type_of before (body_part part ∷ rest) = type_of before rest

-- A header changes the content type only.
write_header_lem :
    (line : Bytes) (c : GuacHttpClient)
    → write_header line c
      ≡ record c { content_type = if is_content_type line then type_value line else c.content_type }
unfolding write_header
write_header_lem line c = elim (Bool-cases (is_content_type line)) [
  | inl e ↦ rw e refl
  | inr e ↦ rw e refl
]

perform-body : (ps : List Piece) (c : GuacHttpClient) → (perform ps c).body ≡ c.body ++ body_of ps
unfolding perform write_header write_body
perform-body [] c = sym (append-nil c.body)
perform-body (header line ∷ rest) c =
    perform-body rest (write_header line c)
    ∙ ap (λ (d : GuacHttpClient). d.body ++ body_of rest) (write_header_lem line c)
perform-body (body_part part ∷ rest) c =
    perform-body rest (write_body part c) ∙ append_assoc c.body part (body_of rest)

perform-type :
    (ps : List Piece) (c : GuacHttpClient) → (perform ps c).content_type ≡ type_of c.content_type ps
unfolding perform write_header write_body
perform-type [] c = refl
perform-type (header line ∷ rest) c =
    perform-type rest (write_header line c)
    ∙ ap (λ (d : GuacHttpClient). type_of d.content_type rest) (write_header_lem line c)
perform-type (body_part part ∷ rest) c = perform-type rest (write_body part c)

perform-sent : (ps : List Piece) (c : GuacHttpClient) → (perform ps c).sent ≡ c.sent
unfolding perform write_header write_body
perform-sent [] c = refl
perform-sent (header line ∷ rest) c =
    perform-sent rest (write_header line c)
    ∙ ap (λ (d : GuacHttpClient). d.sent) (write_header_lem line c)
perform-sent (body_part part ∷ rest) c = perform-sent rest (write_body part c)

perform-worker : (ps : List Piece) (c : GuacHttpClient) → (perform ps c).has_worker ≡ c.has_worker
unfolding perform write_body
perform-worker [] c = refl
perform-worker (header line ∷ rest) c =
    perform-worker rest (write_header line c)
    ∙ ap (λ (d : GuacHttpClient). d.has_worker) (write_header_lem line c)
perform-worker (body_part part ∷ rest) c = perform-worker rest (write_body part c)

-- A header line for the content type, in letters of any case: its name, then blanks, then the value,
-- which does not start with a blank, up to a CR or a LF or the end.
abbrev lower : ℕ → ℕ
lower c = if leb b'A' c && leb c b'Z' then c + 32 else c

abbrev IsBlank : ℕ → Type 0
IsBlank c = (c ≡ b' ') ⊎ (c ≡ b'\t')

abbrev IsEol : ℕ → Type 0
IsEol c = (c ≡ b'\r') ⊎ (c ≡ b'\n')

abbrev StartsPlain : Bytes → Type 0
StartsPlain [] = Unit {0}
StartsPlain (c ∷ cs) = ¬ IsBlank c

abbrev EndsLine : Bytes → Type 0
EndsLine [] = Unit {0}
EndsLine (c ∷ cs) = IsEol c

pub record TypeLine (line value : Bytes) : Type 0 where
  pub name : Bytes
  pub blanks : Bytes
  pub more : Bytes
  pub whole : line ≡ name ++ (blanks ++ (value ++ more))
  pub named : map lower name ≡ codes "content-type:"
  pub are_blank : All IsBlank blanks
  pub starts : StartsPlain (value ++ more)
  pub one_line : All (λ c. ¬ IsEol c) value
  pub ends : EndsLine more

-- The content type after the headers of an answer, from the one before.
pub data Typed : Bytes → List Piece → Bytes → Type 0 where
  kept : (before : Bytes) → Typed before [] before
  found :
      (before line value after : Bytes) (ps : List Piece)
      → TypeLine line value
      → Typed value ps after
      → Typed before (header line ∷ ps) after
  other :
      (before line after : Bytes) (ps : List Piece)
      → ((value : Bytes) → ¬ TypeLine line value)
      → Typed before ps after
      → Typed before (header line ∷ ps) after
  passed :
      (before part after : Bytes) (ps : List Piece)
      → Typed before ps after
      → Typed before (body_part part ∷ ps) after

starts_with-append : (p t : Bytes) → starts_with p (p ++ t) ≡ true
unfolding starts_with
starts_with-append [] t = refl
starts_with-append (c ∷ cs) t = ground (arith, starts_with-append cs t, ==_iff c c)

-- A prefix of the image is the image of a prefix.
starts_with-map :
    (f : ℕ → ℕ) (p t : Bytes)
    → starts_with p (map f t) ≡ true
    → (front : Bytes) × (t ≡ front ++ drop (length p) t) × (map f front ≡ p)
unfolding starts_with
starts_with-map f [] t h = ([], refl, refl)
starts_with-map f (c ∷ cs) [] h = cc
starts_with-map f (c ∷ cs) (d ∷ ds) h =
    let (first, rest) : ((c == f d) ≡ true) × (starts_with cs (map f ds) ≡ true) =
      (ground arith, ground arith) in
    let (front, whole, image) = starts_with-map f cs ds rest in
    (d ∷ front, ap (λ z. d ∷ z) whole, ap₂ (λ z zs. z ∷ zs) (sym ((==_iff c (f d)).0 first)) image)

map-append : (f : ℕ → ℕ) (xs ys : Bytes) → map f (xs ++ ys) ≡ map f xs ++ map f ys
map-append f [] ys = refl
map-append f (x ∷ xs) ys = ap (λ z. f x ∷ z) (map-append f xs ys)

to_lower-lower : (c : ℕ) → to_lower c ≡ lower c
unfolding to_lower
to_lower-lower c = refl

skip_blanks-blanks :
    (t : Bytes)
    → (blanks : Bytes) × (t ≡ blanks ++ skip_blanks t)
      × All IsBlank blanks
      × StartsPlain (skip_blanks t)
unfolding skip_blanks
skip_blanks-blanks [] = ([], refl, tt, tt)
skip_blanks-blanks (c ∷ cs) =
    let (blanks, whole, good, plain) = skip_blanks-blanks cs in
    elim (Bool-cases ((c == 32) || (c == 9))) [
      | inl e ↦
          rw (e, skip_blanks)
            (
              c ∷ blanks,
              ap (λ z. c ∷ z) whole,
              (ground (arith, ==_iff c 32, ==_iff c 9), good),
              plain,
            )
      | inr e ↦ rw (e, skip_blanks) ([], refl, tt, λ b. ground (arith, b, ==_iff c 32, ==_iff c 9))
    ]

until_eol-line :
    (t : Bytes)
    → (more : Bytes) × (t ≡ until_eol t ++ more)
      × All (λ c. ¬ IsEol c) (until_eol t)
      × EndsLine more
unfolding until_eol
until_eol-line [] = ([], refl, tt, tt)
until_eol-line (c ∷ cs) =
    let (more, whole, good, ends) = until_eol-line cs in
    elim (Bool-cases ((c == 13) || (c == 10))) [
      | inl e ↦ rw (e, until_eol) (c ∷ cs, refl, tt, ground (arith, ==_iff c 13, ==_iff c 10))
      | inr e ↦
          rw (e, until_eol)
            (
              more,
              ap (λ z. c ∷ z) whole,
              (λ b. ground (arith, b, ==_iff c 13, ==_iff c 10), good),
              ends,
            )
    ]

is_content_type-TypeLine :
    (line : Bytes) → is_content_type line ≡ true → TypeLine line (type_value line)
unfolding is_content_type type_value
is_content_type-TypeLine line h =
    let (name, whole, named) = starts_with-map to_lower (codes "content-type:") line h in
    let (blanks, after_name, good, plain) = skip_blanks-blanks (drop 13 line) in
    let (more, after_blanks, one_line, ends) = until_eol-line (skip_blanks (drop 13 line)) in
    record {
      name = name;
      blanks = blanks;
      more = more;
      whole = whole ∙ ap (λ z. name ++ z) after_name ∙ ap (λ z. name ++ (blanks ++ z)) after_blanks;
      named = ap (λ f. map f name) (fun_ext λ c. sym (to_lower-lower c)) ∙ named;
      are_blank = good;
      starts = subst StartsPlain after_blanks plain;
      one_line = one_line;
      ends = ends;
    }

TypeLine-is_content_type : (line value : Bytes) → TypeLine line value → is_content_type line ≡ true
unfolding is_content_type
TypeLine-is_content_type line value v =
    let after : Bytes = v.blanks ++ (value ++ v.more) in
    ap (λ z. starts_with (codes "content-type:") (map to_lower z)) v.whole
    ∙ ap (starts_with (codes "content-type:")) (
        map-append to_lower v.name after
        ∙ ap (λ z. z ++ map to_lower after)
            (ap (λ f. map f v.name) (fun_ext λ c. to_lower-lower c) ∙ v.named))
    ∙ starts_with-append (codes "content-type:") (map to_lower after)

type_of-Typed : (before : Bytes) (ps : List Piece) → Typed before ps (type_of before ps)
type_of-Typed before [] = kept before
type_of-Typed before (header line ∷ ps) = elim (Bool-cases (is_content_type line)) [
  | inl e ↦
      rw (type_of, e)
        (found before line (type_value line) _ ps (is_content_type-TypeLine line e)
          (type_of-Typed (type_value line) ps))
  | inr e ↦
      rw (type_of, e)
        (other before line _ ps
          (λ value v. absurd (ground (arith, e, TypeLine-is_content_type line value v)))
          (type_of-Typed before ps))
]
type_of-Typed before (body_part part ∷ ps) =
    passed before part (type_of before ps) ps (type_of-Typed before ps)

-- The instruction for a request with this answer.
pub record Answered (encode_block : Bytes → ℕ → Bytes) (ps : List Piece) (status : ℕ)
    (i : GuacInstruction) : Type 0 where
  pub type : Bytes
  pub typed : Typed [] ps type
  pub shown : Bytes
  pub text : Bytes
  pub whole : i ≡ record { opcode = codes "response"; args = to_string status ∷ shown ∷ text ∷ [] }
  pub default : type ≡ [] → shown ≡ codes "application/octet-stream"
  pub given : type ≢ [] → shown ≡ type
  pub nothing : body_of ps ≡ [] → text ≡ []
  pub encoded : body_of ps ≢ [] → text ≡ encode_block (body_of ps) (length (body_of ps))

non_empty :
    {A : Type 0} (bytes : Bytes) (x y : A) → bytes ≢ [] → (if is_empty bytes then x else y) ≡ y
non_empty [] x y h = absurd (h refl)
non_empty (c ∷ cs) x y h = refl

response-Answered :
    (encode_block : Bytes → ℕ → Bytes) (ps : List Piece) (status : ℕ)
    → length (body_of ps) < 2 ^ 31
    → Answered encode_block ps status (response encode_block status (type_of [] ps) (body_of ps))
unfolding base64_encode
response-Answered encode_block ps status h = record {
  type = type_of [] ps;
  typed = type_of-Typed [] ps;
  shown = if is_empty (type_of [] ps) then codes "application/octet-stream" else type_of [] ps;
  text = base64_encode encode_block (body_of ps);
  whole = refl;
  default = λ e. rw e refl;
  given = λ ne. non_empty (type_of [] ps) _ _ ne;
  nothing = λ e. rw e refl;
  encoded = λ ne. non_empty (body_of ps) _ _ ne ∙ ap (encode_block (body_of ps)) (omega (arith, h));
}

-- A request that libcurl ends well, that is not aborted, and whose body has less than 2 ^ 31 bytes,
-- hands one instruction to the callback, with the response code; the value of the last header
-- line for the content type in the answer, without the blanks before it and the end of the line,
-- or the default type where there is none or it is empty; and nothing for an empty body, and else
-- what EVP_EncodeBlock makes of the whole body and its length, however it was cut into parts.
pub run_request-response :
    (encode_block : Bytes → ℕ → Bytes) (ps : List Piece) (status : ℕ) (c : GuacHttpClient)
    → length (body_of ps) < 2 ^ 31
    → (i : GuacInstruction) × ((run_request encode_block true ps (curle_ok status) false c).sent
        ≡ c.sent ++ (i ∷ []))
      × Answered encode_block ps status i
unfolding run_request answer
run_request-response encode_block ps status c h = (
  response encode_block status (type_of [] ps) (body_of ps),
  ap₂ (λ is i. is ++ (i ∷ [])) (perform-sent ps (cleared c))
      (ap₂ (response encode_block status) (perform-type ps (cleared c))
        (perform-body ps (cleared c))),
  response-Answered encode_block ps status h,
)

answer-worker :
    (encode_block : Bytes → ℕ → Bytes) (aborted : Bool) (result : Result) (c : GuacHttpClient)
    → (answer encode_block aborted result c).has_worker ≡ c.has_worker
unfolding answer
answer-worker encode_block true result c = refl
answer-worker encode_block false (curle_ok status) c = refl
answer-worker encode_block false (failed text) c = refl

run_request-worker :
    (encode_block : Bytes → ℕ → Bytes) (initialized aborted : Bool) (ps : List Piece)
    (result : Result) (c : GuacHttpClient)
    → (run_request encode_block initialized ps result aborted c).has_worker ≡ c.has_worker
unfolding run_request
run_request-worker encode_block false aborted ps result c = refl
run_request-worker encode_block true aborted ps result c =
    answer-worker encode_block aborted result (perform ps (cleared c))
    ∙ perform-worker ps (cleared c)

run_request-connected :
    (encode_block : Bytes → ℕ → Bytes) (initialized aborted : Bool) (ps : List Piece)
    (result : Result) (c : GuacHttpClient)
    → (run_request encode_block initialized ps result aborted c).connected ≡ false
unfolding run_request
run_request-connected encode_block false aborted ps result c = refl
run_request-connected encode_block true aborted ps result c = refl

-- However the request of a client ends, another `connect` without `disconnect` before it ends the
-- program.
pub connect_again :
    (encode_block : Bytes → ℕ → Bytes) (initialized aborted : Bool) (ps : List Piece)
    (result : Result) (c d : GuacHttpClient)
    → c.connected ≡ false
    → connect c ≡ some d
    → connect (run_request encode_block initialized ps result aborted d) ≡ none
unfolding connect
connect_again encode_block initialized aborted ps result c d h e =
    let free : (run_request encode_block initialized ps result aborted d).connected ≡ false =
      run_request-connected encode_block initialized aborted ps result d in
    let joinable : d.has_worker ≡ true = ground arith in
    let kept = run_request-worker encode_block initialized aborted ps result d ∙ joinable in
    rw (free, kept) refl
