-- ===== src/Tests/Policy.antt =====
-- Access policies.
use tunnel_proxy.AccessPolicy.Decision.{Permits, Any, is_allowed_iff}
use tunnel_proxy.AccessPolicy.Loading.{Loads, load_from_string_iff}
use tunnel_proxy.AccessPolicy.{
  Rule, Request, AccessPolicy, matches, is_allowed, add_rule, load_from_string, parse_json,
  parse_rules, parse_rule, star,
}
use tunnel_proxy.Base.{ℕ, ◌≡◌, ◌↔◌, refl, true, false, [], ◌∷◌, codes, equal, ok}
use tunnel_proxy.Tests.Platform.{Doc, text, number, array, object, end, item, toy_json}

abbrev alice : Rule
alice = record {
  subject = codes "alice";
  tunnel_id = codes "agent-1";
  target_ip = codes "10.0.0.5";
  target_port = 22;
}

abbrev anyone : Rule
anyone = record { subject = star; tunnel_id = codes "agent-2"; target_ip = star; target_port = 0 }

abbrev policy : AccessPolicy
policy = record { rules = alice ∷ anyone ∷ [] }

abbrev request : Request
request = record {
  subject = codes "bob";
  tunnel_id = codes "agent-2";
  target_ip = codes "10.0.0.9";
  target_port = 443;
}

bob_allowed : is_allowed policy request ≡ true
unfolding is_allowed matches equal
bob_allowed = refl

bob_denied : is_allowed policy (record request { tunnel_id = codes "agent-1" }) ≡ false
unfolding is_allowed matches equal
bob_denied = refl

is_allowed_iff_example : (is_allowed policy request ≡ true) ↔ Any (Permits request) policy.rules
is_allowed_iff_example = is_allowed_iff policy request

abbrev rule_doc : ℕ → Doc
rule_doc port = object (
    item (codes "subject") (text (codes "alice")) (
      item (codes "tunnel_id") (text (codes "agent-1")) (
        item (codes "target_ip") (text (codes "10.0.0.5"))
          (item (codes "target_port") (number port) end))))

abbrev policy_doc : Doc
policy_doc = object (item (codes "rules") (array (item [] (rule_doc 22) end)) end)

load_alice :
    load_from_string (toy_json (codes "P") policy_doc) (codes "P")
    ≡ ok (record { rules = alice ∷ [] })
unfolding load_from_string parse_json parse_rules parse_rule tunnel_proxy.AccessPolicy.new equal
load_alice = refl

load_from_string_iff_example :
    (load_from_string (toy_json (codes "P") policy_doc) (codes "P")
      ≡ ok (record { rules = alice ∷ [] }))
    ↔ Loads (toy_json (codes "P") policy_doc) (codes "P") (record { rules = alice ∷ [] })
load_from_string_iff_example =
    load_from_string_iff (toy_json (codes "P") policy_doc) (codes "P")
      (record { rules = alice ∷ [] })
