-- ===== src/GuacWeb/Answers.antt =====
-- The worker of src/guac_web.cpp with a Chrome that answers its requests.
use tunnel_proxy.Base.{
  ℕ, ◌+◌, ◌<◌, ◌≡◌, Bool, true, false, List, [], ◌∷◌, ◌++◌, Option, none, some, length, All, Bytes,
  is_empty,
}
use tunnel_proxy.Json.{Json}
use tunnel_proxy.Socket.{Incoming}
use tunnel_proxy.GuacWebSocket.Wire.{wire}
use tunnel_proxy.GuacWeb.{InputEvent}
use tunnel_proxy.GuacWeb.Cdp.{cdp_send}
use tunnel_proxy.GuacWeb.CdpFrames.{Fits}
use tunnel_proxy.GuacWeb.Worker.{Drained, drained, is_answer}

-- What Chrome sends for one request: other messages, and then the answer.
pub record Exchange : Type 0 where
  pub before : List Bytes
  pub answer : Bytes

abbrev pub messages : List Bytes → Bytes
messages [] = []
messages (m ∷ ms) = wire 0x81 none m ++ messages ms

abbrev pub exchange_bytes : Exchange → Bytes
exchange_bytes x = messages x.before ++ wire 0x81 none x.answer

abbrev pub conversation : List Exchange → Bytes
conversation [] = []
conversation (x ∷ xs) = exchange_bytes x ++ conversation xs

abbrev with_count : List Bytes → Incoming → ℕ → List Bytes × Drained
with_count frames i n = (frames, drained n i)

module _ (json : Json) (same_id : json.Value → ℕ → Option Bool) (max_size : ℕ) where
  abbrev pub Message : Bytes → Type 0
  Message m = Fits max_size m × (is_empty m ≡ false)

  -- The messages of an exchange fit, and only the last one has the id of the request.
  abbrev pub Answers : ℕ → ℕ → Exchange → Type 0
  Answers fuel id x =
      All (λ m. Message m × (is_answer json same_id id m ≡ some false)) x.before
      × Message x.answer
      × (is_answer json same_id id x.answer ≡ some true)
      × (length x.before < fuel)

  module _ (masks : ℕ → Option Bytes) (replies : ℕ → ℕ) where
    -- What goes out of the requests of the events, with ids in sequence.
    abbrev pub requests : ℕ → List InputEvent → List Bytes
    requests id [] = []
    requests id (e ∷ es) =
        (cdp_send (masks id) (replies id) id e.method e.params).0 ∷ requests (id + 1) es

    -- Each event has its exchange.
    abbrev pub AllAnswer : ℕ → ℕ → List InputEvent → List Exchange → Type 0
    AllAnswer fuel id [] [] = Unit {0}
    AllAnswer fuel id (e ∷ es) (x ∷ xs) = Answers fuel id x × AllAnswer fuel (id + 1) es xs
    AllAnswer fuel id _ _ = ⊥
