-- ===== src/Json.antt =====
-- The JSON library (nlohmann) that src/access_policy.cpp and src/jwt_verifier.cpp call, as a
-- parameter: its values, and the queries that the code makes.
use tunnel_proxy.Base.{ℕ, ◌%◌, ◌^◌, ◌≡◌, Option, some, List, Bytes}

pub record Json : Type 1 where
  pub Value : Type 0
  -- `json::parse`; `none` is the exception parse_error.
  pub parse : Bytes → Option Value
  -- `v.contains(key)` and `v[key]`.
  pub member : Value → Bytes → Option Value
  -- `v.is_array()` and the iteration over `v`.
  pub elements : Value → Option (List Value)
  -- `v.is_string()` and `v.get<std::string>()`.
  pub string : Value → Option Bytes
  -- `v.is_number_unsigned()`, with the number that is stored.
  pub unsigned : Value → Option ℕ
  -- `v.get<uint16_t>()`
  pub get_uint16 : Value → ℕ
  -- The conversion of a stored unsigned number is a static_cast.
  pub get_uint16-unsigned : (v : Value) (n : ℕ) → unsigned v ≡ some n → get_uint16 v ≡ n % 2 ^ 16
  -- `v.is_number()`, with `v.get<int64_t>()` as its 64-bit pattern.
  pub number : Value → Option ℕ
