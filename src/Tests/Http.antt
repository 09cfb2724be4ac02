-- ===== src/Tests/Http.antt =====
-- The HTTP client of the gateway.
use tunnel_proxy.Base.{
  ℕ, ◌≡◌, arith, refl, true, false, List, [], ◌∷◌, ◌++◌, some, Bytes, codes, to_string, starts_with,
}
use tunnel_proxy.GuacParser.{GuacInstruction}
use tunnel_proxy.GuacHttp.{
  GuacHttpClient, Piece, header, body_part, curle_ok, run_request, response, is_content_type,
  type_value, connect, base64_encode,
}
use tunnel_proxy.GuacHttp.Answer.{type_of, body_of, Answered, run_request-response}

abbrev fresh : GuacHttpClient
fresh = record {
  body = [];
  content_type = [];
  status_code = 0;
  connected = false;
  abort = false;
  has_worker = false;
  sent = [];
}

-- Stands for EVP_EncodeBlock.
abbrev reversed : Bytes → ℕ → Bytes
reversed [] n = []
reversed (c ∷ cs) n = reversed cs n ++ (c ∷ [])

abbrev pieces : List Piece
pieces =
    header (codes "HTTP/1.1 200 OK")
    ∷ header (codes "Content-TYPE: \ttext/html" ++ (13 ∷ 10 ∷ []))
    ∷ body_part (codes "ab")
    ∷ body_part (codes "c")
    ∷ []

run_request-response_example :
    (i : GuacInstruction) × ((run_request reversed true pieces (curle_ok 200) false fresh).sent
      ≡ [] ++ (i ∷ []))
    × Answered reversed pieces 200 i
run_request-response_example = run_request-response reversed pieces 200 fresh (omega arith)

answered : response reversed 200 (type_of [] pieces) (body_of pieces) ≡ record {
  opcode = codes "response";
  args = codes "200" ∷ codes "text/html" ∷ codes "cba" ∷ [];
}
unfolding is_content_type type_value base64_encode to_string starts_with
answered = refl

abbrev started : GuacHttpClient
started = record fresh { connected = true; has_worker = true }

connected : connect fresh ≡ some started
unfolding connect
connected = refl
