-- ===== src/AccessPolicy/Loading.antt =====
-- What a policy that was loaded from JSON holds.
use tunnel_proxy.Base.{
  ℕ, ◌%◌, ◌^◌, ◌≡◌, inl, refl, sym, ◌∙◌, ap, subst, ◌↔◌, true, List, [], ◌∷◌, ◌++◌, Option, none,
  some, arith, Bytes, codes, ok, >>=-eq-ok, some-inj, append_assoc, append-nil,
}
use tunnel_proxy.AccessPolicy.Decision.{Admits, Permits-matches}
use tunnel_proxy.AccessPolicy.{
  missing_subject, missing_tunnel_id, missing_target_ip, missing_target_port, Rule, Request,
  AccessPolicy, Error, new, matches, need, and_then, text_of, port_of, parse_rule, parse_rules,
  parse_json, load_from_string, missing_rules, parse_error,
}
use tunnel_proxy.Json.{Json}

need-eq-ok {ℓ} : {A : Type ℓ} (e : Error) (o : Option A) {a : A} → need e o ≡ ok a → o ≡ some a
need-eq-ok e none h = cc
need-eq-ok e (some b) h = cc

and_then-eq-some {ℓ κ} :
    {A : Type ℓ} {B : Type κ} (o : Option A) (f : A → Option B) {b : B}
    → and_then o f ≡ some b
    → (a : A) × (o ≡ some a) × (f a ≡ some b)
and_then-eq-some none f h = cc
and_then-eq-some (some a) f h = (a, refl, h)

module _ (json : Json) where
  open json use {Value, parse, member, elements, string, unsigned, get_uint16, get_uint16-unsigned}

  -- The JSON value states the rule: its texts are the rule's, and its port is the rule's up to the
  -- conversion to 16 bits.
  pub record States (v : Value) (rule : Rule) : Type 0 where
    pub subject_is : text_of json v (codes "subject") ≡ some rule.subject
    pub tunnel_is : text_of json v (codes "tunnel_id") ≡ some rule.tunnel_id
    pub ip_is : text_of json v (codes "target_ip") ≡ some rule.target_ip
    pub port_is :
        (w : Value) × (n : ℕ) × (member v (codes "target_port") ≡ some w)
        × (unsigned w ≡ some n)
        × (rule.target_port ≡ n % 2 ^ 16)

  abbrev pub StatesAll : List Value → List Rule → Type 0
  StatesAll [] [] = Unit {0}
  StatesAll [] (rule ∷ rules) = ⊥
  StatesAll (v ∷ vs) [] = ⊥
  StatesAll (v ∷ vs) (rule ∷ rules) = States v rule × StatesAll vs rules

  port_of-eq-some :
      (v : Value) (key : Bytes) {port : ℕ}
      → port_of json v key ≡ some port
      → (w : Value) × (n : ℕ) × (member v key ≡ some w)
        × (unsigned w ≡ some n)
        × (port ≡ n % 2 ^ 16)
  port_of-eq-some v key h =
      let (w, found, converted) = and_then-eq-some (member v key) _ h in
      let (n, stored, same) = and_then-eq-some (unsigned w) _ converted in
      (w, n, found, stored, sym (some-inj same) ∙ get_uint16-unsigned w n stored)

  parse_rule-States : (v : Value) (rule : Rule) → parse_rule json v ≡ ok rule → States v rule
  unfolding parse_rule
  parse_rule-States v rule h =
      let (a, ha, h₁) = >>=-eq-ok (need missing_subject (text_of json v (codes "subject"))) _ h in
      let (b, hb, h₂) =
        >>=-eq-ok (need missing_tunnel_id (text_of json v (codes "tunnel_id"))) _ h₁ in
      let (c, hc, h₃) =
        >>=-eq-ok (need missing_target_ip (text_of json v (codes "target_ip"))) _ h₂ in
      let (d, hd, h₄) =
        >>=-eq-ok (need missing_target_port (port_of json v (codes "target_port"))) _ h₃ in
      let (w, n, found, stored, port) = port_of-eq-some v _ (need-eq-ok _ _ hd) in
      record {
        subject_is = need-eq-ok _ _ ha ∙ ap some (ground arith);
        tunnel_is = need-eq-ok _ _ hb ∙ ap some (ground arith);
        ip_is = need-eq-ok _ _ hc ∙ ap some (ground arith);
        port_is = (w, n, found, stored, ground arith);
      }

  parse_rules-StatesAll :
      (vs : List Value) (p p' : AccessPolicy)
      → parse_rules json vs p ≡ ok p'
      → (rules : List Rule) × (p'.rules ≡ p.rules ++ rules) × StatesAll vs rules
  unfolding parse_rules
  parse_rules-StatesAll [] p p' h = ([], ground (arith, append-nil p.rules), tt)
  parse_rules-StatesAll (v ∷ vs) p p' h =
      let (rule, one, more) = >>=-eq-ok (parse_rule json v) _ h in
      let (rules, e, stated) = parse_rules-StatesAll vs _ p' more in
      (
        rule ∷ rules,
        e ∙ append_assoc p.rules (rule ∷ []) rules,
        (parse_rule-States v rule one, stated),
      )

  States-parse_rule : (v : Value) (rule : Rule) → States v rule → parse_rule json v ≡ ok rule
  unfolding parse_rule
  States-parse_rule v rule h =
      let (w, n, found, stored, port) = h.port_is in
      let port' : port_of json v (codes "target_port") ≡ some rule.target_port =
        rw (found, stored) (ap some (get_uint16-unsigned w n stored ∙ sym port)) in
      rw (h.subject_is, h.tunnel_is, h.ip_is, port')

  StatesAll-parse_rules :
      (vs : List Value) (p : AccessPolicy) (rules : List Rule)
      → StatesAll vs rules
      → parse_rules json vs p ≡ ok (record { rules = p.rules ++ rules })
  unfolding parse_rules
  StatesAll-parse_rules [] p [] h = rw (append-nil p.rules)
  StatesAll-parse_rules [] p (rule ∷ rules) h = absurd h
  StatesAll-parse_rules (v ∷ vs) p [] h = absurd h
  StatesAll-parse_rules (v ∷ vs) p (rule ∷ rules) h = rw (States-parse_rule v rule h.0) (
      StatesAll-parse_rules vs _ rules h.1
      ∙ ap (λ rs. ok (record { rules = rs })) (append_assoc p.rules (rule ∷ []) rules))

  -- The text is a JSON document with an array `rules` that states the rules one by one.
  abbrev pub Loads : Bytes → AccessPolicy → Type 0
  Loads text p =
      (j : Value) × (a : Value) × (vs : List Value) × (parse text ≡ some j)
      × (member j (codes "rules") ≡ some a)
      × (elements a ≡ some vs)
      × StatesAll vs p.rules

  -- A text is accepted exactly if it is a JSON document whose array `rules` states every rule in
  -- full, and the policy then has these rules in the order of the array.
  pub load_from_string_iff :
      (text : Bytes) (p : AccessPolicy) → (load_from_string json text ≡ ok p) ↔ Loads text p
  unfolding load_from_string parse_json new
  load_from_string_iff text p = (sound, complete)
    where
      sound : load_from_string json text ≡ ok p → Loads text p
      sound h =
          let (j, parsed, h₁) = >>=-eq-ok (need parse_error (parse text)) _ h in
          let (vs, found, h₂) =
            >>=-eq-ok (need missing_rules (and_then (member j (codes "rules")) elements)) _ h₁ in
          let (a, is_member, is_array) = and_then-eq-some _ elements (need-eq-ok _ _ found) in
          let (rules, e, stated) = parse_rules-StatesAll vs new p h₂ in
          (
            j,
            a,
            vs,
            need-eq-ok _ _ parsed,
            is_member,
            is_array,
            subst (StatesAll vs) (sym e) stated,
          )

      complete : Loads text p → load_from_string json text ≡ ok p
      complete (j, a, vs, parsed, is_member, is_array, stated) =
          rw (parsed, is_member, is_array) (StatesAll-parse_rules vs new p.rules stated)

  -- A port number that is a multiple of 2 ^ 16 is not refused: the rule then admits every port.
  pub parse_rule_wide_port :
      (v w : Value) (rule : Rule) (n : ℕ) (q : Request)
      → parse_rule json v ≡ ok rule
      → member v (codes "target_port") ≡ some w
      → unsigned w ≡ some n
      → n % 2 ^ 16 ≡ 0
      → Admits rule.subject q.subject
      → Admits rule.tunnel_id q.tunnel_id
      → Admits rule.target_ip q.target_ip
      → matches rule q ≡ true
  parse_rule_wide_port v w rule n q parsed found stored wide s t i =
      let (w', n', found', stored', port) = (parse_rule-States v rule parsed).port_is in
      let same : w' ≡ w = some-inj (sym found' ∙ found) in
      let same_n : n' ≡ n = some-inj (sym stored' ∙ ap unsigned same ∙ stored) in
      Permits-matches rule q
        (record { subject_fits = s; tunnel_fits = t; ip_fits = i; port_fits = inl (omega arith) })
