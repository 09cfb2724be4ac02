-- ===== src/Tests/Platform.antt =====
-- Concrete instances of the parameters: an address conversion that prints the four bytes as they
-- are, and a JSON library for documents that are given in advance.
use tunnel_proxy.Base.{
  ℕ, ◌%◌, ◌^◌, ◌≡◌, refl, ◌&&◌, List, [], ◌∷◌, Option, none, some, ltb, if◌then◌else◌, arith, Bytes,
  equal,
}
use tunnel_proxy.Json.{Json}
use tunnel_proxy.Protocol.Inet.{Inet, IsAddr}

abbrev pub raw_pton : Bytes → Option Bytes
raw_pton (a ∷ b ∷ c ∷ d ∷ []) =
    if ltb a 256 && (ltb b 256 && (ltb c 256 && ltb d 256)) then some (a ∷ b ∷ c ∷ d ∷ []) else none
raw_pton _ = none

pub raw_pton-IsAddr : (s a : Bytes) → raw_pton s ≡ some a → IsAddr a
raw_pton-IsAddr (a ∷ b ∷ c ∷ d ∷ []) x h = ground arith
raw_pton-IsAddr _ x h = cc

pub raw_pton-some : (a : Bytes) → IsAddr a → raw_pton a ≡ some a
raw_pton-some (a ∷ b ∷ c ∷ d ∷ []) h = ground arith
raw_pton-some _ h = absurd (omega arith)

abbrev pub raw_inet : Inet
raw_inet = record {
  pton = raw_pton;
  ntop = λ a. some a;
  pton-IsAddr = raw_pton-IsAddr;
  ntop-pton = λ a h. (a, refl, raw_pton-some a h);
}

mutual
  pub data Doc : Type 0 where
    text : Bytes → Doc
    number : ℕ → Doc
    array : Docs → Doc
    object : Docs → Doc

  pub data Docs : Type 0 where
    end : Docs
    item : Bytes → Doc → Docs → Docs

abbrev find_member : Docs → Bytes → Option Doc
find_member end key = none
find_member (item k d ds) key = if equal k key then some d else find_member ds key

abbrev to_list : Docs → List Doc
to_list end = []
to_list (item k d ds) = d ∷ to_list ds

abbrev stored : Doc → Option ℕ
stored d = elim d [ number n ↦ some n | _ ↦ none ]

abbrev converted : Doc → ℕ
converted d = elim d [ number n ↦ n % 2 ^ 16 | _ ↦ 0 ]

pub converted-stored : (d : Doc) (n : ℕ) → stored d ≡ some n → converted d ≡ n % 2 ^ 16
converted-stored d n h = ground arith

-- `known` is the one text that parses, with its value.
abbrev pub toy_json : Bytes → Doc → Json
toy_json known doc = record {
  Value = Doc;
  parse = λ t. if equal t known then some doc else none;
  member = λ d key. elim d [ object ds ↦ find_member ds key | _ ↦ none ];
  elements = λ d. elim d [ array ds ↦ some (to_list ds) | _ ↦ none ];
  string = λ d. elim d [ text t ↦ some t | _ ↦ none ];
  unsigned = stored;
  get_uint16 = converted;
  get_uint16-unsigned = converted-stored;
  number = stored;
}
