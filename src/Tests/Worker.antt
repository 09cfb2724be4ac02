-- ===== src/Tests/Worker.antt =====
-- The worker of a web session, with a Chrome that answers.
use tunnel_proxy.Base.{
  ℕ, [], ◌∷◌, ◌++◌, Option, some, none, codes, Bytes, equal, ◌==◌, if◌then◌else◌, Bool,
}
use tunnel_proxy.Json.{Json}
use tunnel_proxy.Socket.{Incoming}
use tunnel_proxy.GuacWeb.{GuacWebClient}
use tunnel_proxy.GuacWeb.Answers.{Exchange, exchange_bytes, conversation, Answers}
use tunnel_proxy.Tests.Platform.{Doc, number, object, end, item, toy_json}
use tunnel_proxy.Tests.Web.{fresh}

abbrev with_id : ℕ → Doc
with_id n = object (item (codes "id") (number n) end)

-- Short texts for the answers with the ids 3 and 4.
abbrev known : Bytes → Option Doc
known t =
    if equal t (codes "3")
    then some (with_id 3)
    else if equal t (codes "4")
    then some (with_id 4)
    else none

abbrev chrome : Json
chrome = record (toy_json [] (with_id 0)) { parse = known }

abbrev same_id : Doc → ℕ → Option Bool
same_id d id = elim d [ number n ↦ some (n == id) | _ ↦ none ]

abbrev masks : ℕ → Option Bytes
masks n = some (n ∷ 1 ∷ 2 ∷ 3 ∷ [])

abbrev waiting : GuacWebClient
waiting = record fresh {
  input_queue = record { method = codes "Input.dispatchKeyEvent"; params = codes "{}" } ∷ [];
}

-- An event of the page stands before the answer.
abbrev first : Exchange
first = record { before = codes "x" ∷ []; answer = codes "3" }

abbrev last : Exchange
last = record { before = []; answer = codes "4" }

abbrev stream : Incoming
stream = record {
  bytes = conversation (first ∷ []) ++ (exchange_bytes last ++ codes "rest");
  arrivals = 3 ∷ 1 ∷ [];
}
