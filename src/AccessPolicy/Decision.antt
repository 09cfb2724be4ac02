-- ===== src/AccessPolicy/Decision.antt =====
-- When `is_allowed` allows.
use mathlib.Core.List.{Perm, Permᴰ}
use mathlib.Core.Logic.{∥∥₁_elim}
use mathlib.Core.Bool.{Bool-set}
use tunnel_proxy.Base.{
  ◌≡◌, ◌↔◌, ◌⊎◌, inl, inr, refl, ◌∙◌, Bool, true, false, not, ◌&&◌, ◌||◌, List, [], ◌∷◌, ◌++◌,
  arith, Bytes, equal, equal_iff, Bool-cases,
}
use tunnel_proxy.AccessPolicy.{
  Rule, Request, AccessPolicy, star, matches, allowed_by, is_allowed, add_rule,
}

-- A field of a rule admits a value: it is the wildcard or the value itself.
abbrev pub Admits : Bytes → Bytes → Type 0
Admits field value = (field ≡ star) ⊎ (field ≡ value)

-- What the policy format promises: all four fields admit the request; port 0 admits every port.
pub record Permits (q : Request) (rule : Rule) : Type 0 where
  pub subject_fits : Admits rule.subject q.subject
  pub tunnel_fits : Admits rule.tunnel_id q.tunnel_id
  pub ip_fits : Admits rule.target_ip q.target_ip
  pub port_fits : (rule.target_port ≡ 0) ⊎ (rule.target_port ≡ q.target_port)

-- Some entry, the first one first.
abbrev pub Any {ℓ} : {A : Type ℓ} → (A → Type 0) → List A → Type 0
Any P [] = ⊥
Any P (x ∷ xs) = P x ⊎ Any P xs

-- The test that the source makes on a text field.
abbrev refused : Bytes → Bytes → Bool
refused field value = not (equal field star) && not (equal field value)

admits : (field value : Bytes) → refused field value ≡ false → Admits field value
admits field value h = ground (arith, equal_iff field star, equal_iff field value)

admitted : (field value : Bytes) → Admits field value → refused field value ≡ false
admitted field value h = ground (arith, equal_iff field star, equal_iff field value)

matches-Permits : (rule : Rule) (q : Request) → matches rule q ≡ true → Permits q rule
unfolding matches
matches-Permits rule q h = record {
  subject_fits = admits rule.subject q.subject (ground arith);
  tunnel_fits = admits rule.tunnel_id q.tunnel_id (ground arith);
  ip_fits = admits rule.target_ip q.target_ip (ground arith);
  port_fits = ground arith;
}

pub Permits-matches : (rule : Rule) (q : Request) → Permits q rule → matches rule q ≡ true
unfolding matches
Permits-matches rule q h = ground (
  arith,
  admitted rule.subject q.subject h.subject_fits,
  admitted rule.tunnel_id q.tunnel_id h.tunnel_fits,
  admitted rule.target_ip q.target_ip h.ip_fits,
  h.port_fits,
)

matches_iff : (rule : Rule) (q : Request) → (matches rule q ≡ true) ↔ Permits q rule
unfolding matches
matches_iff rule q = (λ h. matches-Permits rule q h, λ h. Permits-matches rule q h)

allowed_by_iff :
    (rules : List Rule) (q : Request) → (allowed_by rules q ≡ true) ↔ Any (Permits q) rules
unfolding allowed_by
allowed_by_iff [] q = (λ h. cc, λ h. absurd h)
allowed_by_iff (rule ∷ rules) q = (
  λ h. elim (Bool-cases (matches rule q)) [
    | inl hit ↦ inl ((matches_iff rule q).0 hit)
    | inr miss ↦ inr ((allowed_by_iff rules q).0 (rw miss at h))
  ],
  λ h. elim h [
    | inl here ↦ rw ((matches_iff rule q).1 here)
    | inr later ↦ ground (arith, (allowed_by_iff rules q).1 later)
  ],
)

-- A request is allowed exactly if some rule permits it; with no such rule it is denied.
pub is_allowed_iff :
    (p : AccessPolicy) (q : Request) → (is_allowed p q ≡ true) ↔ Any (Permits q) p.rules
unfolding is_allowed
is_allowed_iff p q = allowed_by_iff p.rules q

allowed_by-append :
    (xs ys : List Rule) (q : Request)
    → allowed_by (xs ++ ys) q ≡ (allowed_by xs q || allowed_by ys q)
unfolding allowed_by
allowed_by-append [] ys q = refl
allowed_by-append (x ∷ xs) ys q = ground (arith, allowed_by-append xs ys q)

-- A rule that is added allows what it matches, and takes nothing away.
pub is_allowed-add_rule :
    (rule : Rule) (p : AccessPolicy) (q : Request)
    → is_allowed (add_rule rule p) q ≡ (is_allowed p q || matches rule q)
unfolding is_allowed add_rule
is_allowed-add_rule rule p q = ground (arith, allowed_by-append p.rules (rule ∷ []) q)

allowed_by-Permᴰ :
    {xs ys : List Rule} (q : Request) → Permᴰ xs ys → allowed_by xs q ≡ allowed_by ys q
unfolding allowed_by
allowed_by-Permᴰ q Permᴰ.nil = refl
allowed_by-Permᴰ q (Permᴰ.cons e d) = ground (arith, allowed_by-Permᴰ q d)
allowed_by-Permᴰ q (Permᴰ.swap e f) = ground arith
allowed_by-Permᴰ q (Permᴰ.trans d d') = allowed_by-Permᴰ q d ∙ allowed_by-Permᴰ q d'

-- The order of the rules does not matter, although they are tried first to last.
pub is_allowed-perm :
    (p p' : AccessPolicy) (q : Request) → Perm p.rules p'.rules → is_allowed p q ≡ is_allowed p' q
unfolding is_allowed
is_allowed-perm p p' q d = ∥∥₁_elim d (Bool-set _ _) (allowed_by-Permᴰ q)
