-- ===== src/AccessPolicy.antt =====
-- include/core/access_policy.h and src/access_policy.cpp: the rules, their JSON form, and the
-- decision. Strings are byte lists; a port is below 2 ^ 16.
pub mod Decision
pub mod Loading
use tunnel_proxy.Base.{
  ℕ, Bool, true, false, not, ◌&&◌, List, [], ◌∷◌, ◌++◌, Option, none, some, ◌==◌, if◌then◌else◌,
  length, Bytes, codes, equal, Outcome, ok, throw, throw_if, ◌>>=◌, ◌>>◌,
}
use tunnel_proxy.Json.{Json}

pub record Rule : Type 0 where
  pub subject : Bytes
  pub tunnel_id : Bytes
  pub target_ip : Bytes
  pub target_port : ℕ

-- The four arguments of `is_allowed`.
pub record Request : Type 0 where
  pub subject : Bytes
  pub tunnel_id : Bytes
  pub target_ip : Bytes
  pub target_port : ℕ

pub record AccessPolicy : Type 0 where
  pub rules : List Rule

pub data Error : Type 0 where
  parse_error missing_rules missing_subject missing_tunnel_id missing_target_ip : Error
  missing_target_port cannot_open : Error

unfoldable pub new : AccessPolicy
new = record { rules = [] }

unfoldable pub add_rule : Rule → AccessPolicy → AccessPolicy
add_rule rule p = record p { rules = p.rules ++ (rule ∷ []) }

unfoldable pub rule_count : AccessPolicy → ℕ
rule_count p = length p.rules

abbrev pub star : Bytes
star = codes "*"

unfoldable pub matches : Rule → Request → Bool
matches rule q =
    if not (equal rule.subject star) && not (equal rule.subject q.subject)
    then false
    else if not (equal rule.tunnel_id star) && not (equal rule.tunnel_id q.tunnel_id)
    then false
    else if not (equal rule.target_ip star) && not (equal rule.target_ip q.target_ip)
    then false
    else if not (rule.target_port == 0) && not (rule.target_port == q.target_port)
    then false
    else true

-- The loop over the rules.
allowed_by : List Rule → Request → Bool
allowed_by [] q = false
allowed_by (rule ∷ rules) q = if matches rule q then true else allowed_by rules q

unfoldable pub is_allowed : AccessPolicy → Request → Bool
unfolding allowed_by
is_allowed p q = allowed_by p.rules q

-- `!r.contains(key) || !is…` with the value that is read if not.
abbrev need {ℓ} : {A : Type ℓ} → Error → Option A → Outcome Error A
need e none = throw e
need e (some a) = ok a

abbrev and_then {ℓ κ} : {A : Type ℓ} {B : Type κ} → Option A → (A → Option B) → Option B
and_then none f = none
and_then (some a) f = f a

module _ (json : Json) where
  open json use {Value, parse, member, elements, string, unsigned, get_uint16}

  -- A string field of a rule.
  abbrev text_of : Value → Bytes → Option Bytes
  text_of r key = and_then (member r key) string

  -- A port field of a rule, converted.
  abbrev port_of : Value → Bytes → Option ℕ
  port_of r key = and_then (member r key) (λ v. and_then (unsigned v) (λ _. some (get_uint16 v)))

  unfoldable pub parse_rule : Value → Outcome Error Rule
  parse_rule r = do
    subject ← need missing_subject (text_of r (codes "subject"))
    tunnel_id ← need missing_tunnel_id (text_of r (codes "tunnel_id"))
    target_ip ← need missing_target_ip (text_of r (codes "target_ip"))
    target_port ← need missing_target_port (port_of r (codes "target_port"))
    ok (record {
      subject = subject;
      tunnel_id = tunnel_id;
      target_ip = target_ip;
      target_port = target_port;
    })

  -- The loop over the array, on the policy built so far.
  unfoldable pub parse_rules : List Value → AccessPolicy → Outcome Error AccessPolicy
  parse_rules [] p = ok p
  parse_rules (r ∷ rs) p = do
    rule ← parse_rule r
    parse_rules rs (record p { rules = p.rules ++ (rule ∷ []) })

  unfoldable pub parse_json : Bytes → Outcome Error AccessPolicy
  parse_json json_str = do
    j ← need parse_error (parse json_str)
    rs ← need missing_rules (and_then (member j (codes "rules")) elements)
    parse_rules rs new

  unfoldable pub load_from_string : Bytes → Outcome Error AccessPolicy
  load_from_string = parse_json

  -- `contents` is what the file holds, if it can be opened.
  unfoldable pub load_from_file : Option Bytes → Outcome Error AccessPolicy
  load_from_file contents = do json_str ← need cannot_open contents; parse_json json_str
