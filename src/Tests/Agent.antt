-- ===== src/Tests/Agent.antt =====
-- An agent, and a token verifier on toy cryptography.
use tunnel_proxy.Base.{
  ◌≡◌, ◌↔◌, refl, true, false, List, [], ◌∷◌, ◌++◌, none, some, Bytes, codes, equal, ok, done,
  raised,
}
use tunnel_proxy.Base.Maps.{ℕ_key, lookup}
use tunnel_proxy.JwtVerifier.Accepted.{Accepted}
use tunnel_proxy.JwtVerifier.Verify.{verify_iff}
use tunnel_proxy.JwtVerifier.{OpenSsl, Claims, create_hs256, verify, extract_bearer_token}
use tunnel_proxy.Protocol.TunnelFlags
use tunnel_proxy.Protocol.Types.{TunnelFrame, hello, open_msg, new_frame}
use tunnel_proxy.Protocol.{make_data, parse_open_payload}
use tunnel_proxy.Tests.Platform.{raw_inet, Doc, text, object, item, end, toy_json}
use tunnel_proxy.TunnelAgent.Retrying.{run-delay}
use tunnel_proxy.TunnelAgent.Running.{Attempt, run, run_loop, stop}
use tunnel_proxy.TunnelAgent.Sessions.{Entered, open_fresh, stop_cleans, hang_ups, on_server}
use tunnel_proxy.TunnelAgent.State
use tunnel_proxy.TunnelAgent.State.{
  Session, TunnelAgent, Error, Action, send_failed, sent, closed, shut_down,
}
use tunnel_proxy.TunnelAgent.{handle_open}

abbrev address : Bytes
address = 10 ∷ 0 ∷ 0 ∷ 5 ∷ []

abbrev session : Session
session = record { target_fd = some 8 }

abbrev agent : TunnelAgent
agent = record (State.new address (codes "a1") 30 0) {
  running = true;
  server_fd = some 4;
  sessions = (7, session) ∷ [];
}

abbrev again : TunnelFrame
again = record (make_data 7 (10 ∷ 0 ∷ 0 ∷ 5 ∷ 0 ∷ 22 ∷ [])) { type = open_msg }

abbrev fresh : TunnelFrame
fresh = record again { session_id = 8 }

open_fresh_example : Entered 8 9 agent (handle_open raw_inet (some 9) true fresh agent)
unfolding make_data new_frame parse_open_payload State.new lookup
open_fresh_example = open_fresh raw_inet 9 22 address address fresh agent refl refl refl refl

stop_cleans_example :
    ((stop agent).running ≡ false)
    × ((stop agent).sessions ≡ [])
    × ((stop agent).server_fd ≡ none)
    × ((stop agent).heartbeat_thread ≡ false)
    × ((stop agent).actions
        ≡ ((agent.actions ++ on_server agent.server_fd shut_down) ++ hang_ups agent.sessions)
          ++ on_server agent.server_fd closed)
    × (stop (stop agent) ≡ stop agent)
stop_cleans_example = stop_cleans agent refl

-- The second of three connections is good.
abbrev attempts : List Attempt
attempts = (λ s. raised send_failed s) ∷ (λ s. done s) ∷ (λ s. raised send_failed s) ∷ []

run-delay_example : (run attempts agent).0 ≡ 8
unfolding run run_loop
run-delay_example = run-delay attempts agent refl

abbrev greeting : TunnelFrame
greeting = new_frame hello 0 (2 ∷ codes "a1") TunnelFlags.syn

-- `send` fails at once.
abbrev stuck : TunnelAgent
stuck = record agent { replies = 0 ∷ [] }

-- Base64 and HMAC that leave their texts as they are.
abbrev plain_ssl : OpenSsl
plain_ssl = record {
  Key = Bytes;
  base64_encode = λ t. t;
  base64_decode = λ t. some t;
  hmac_sha256 = λ key message. key;
  read_public_key = λ t. none;
  digest_verify = λ key message sig. false;
}

abbrev head_doc : Doc
head_doc =
    object (item (codes "alg") (text (codes "HS256")) (item (codes "sub") (text (codes "bob")) end))

abbrev bob : Claims
bob = record {
  subject = codes "bob";
  issuer = [];
  issued_at = 0;
  expires = 0;
  raw_payload = codes "head";
}

verify_iff_example :
    (verify plain_ssl
        (toy_json (codes "head") head_doc)
        (create_hs256 (codes "key"))
        5
        (codes "head.head.key")
      ≡ ok bob)
    ↔ Accepted plain_ssl
        (toy_json (codes "head") head_doc)
        (create_hs256 (codes "key"))
        5
        (codes "head.head.key")
        bob
verify_iff_example =
    verify_iff plain_ssl (toy_json (codes "head") head_doc) (create_hs256 (codes "key")) 5
      (codes "head.head.key") bob

bearer : extract_bearer_token (codes "Bearer abc") ≡ codes "abc"
unfolding extract_bearer_token equal
bearer = refl

-- No token is left after the prefix.
no_bearer : extract_bearer_token (codes "Bearer ") ≡ []
unfolding extract_bearer_token
no_bearer = refl
