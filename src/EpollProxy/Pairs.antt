-- ===== src/EpollProxy/Pairs.antt =====
-- The connections stand in pairs, a client and a target, and are counted.
use tunnel_proxy.Base.Maps.{
  ℕ_key, lookup, insert, erase, lookup-insert_ne, lookup-erase_ne, Distinct-retain, length-insert,
  length-erase,
}
use tunnel_proxy.Base.Pairs
use tunnel_proxy.Base.{
  ℕ, suc, ◌+◌, ◌-◌, ◌%◌, ◌^◌, ◌≡◌, ◌∙◌, false, not, List, none, some, arith, ◌==◌, length,
}
use tunnel_proxy.EpollProxy.{ConnState}

abbrev pub peer : ConnState → ℕ
peer c = c.peer_fd

abbrev pub Opposite : ConnState → ConnState → Type 0
Opposite c d = d.is_client ≡ not c.is_client

abbrev pub Paired : List (ℕ × ConnState) → Type 0
Paired = Pairs.Paired peer Opposite

-- As many connections as there are pairs, counted modulo 2 ^ 64.
pub record Counted (m : List (ℕ × ConnState)) (active : ℕ) : Type 0 where
  pub pairs : ℕ
  pub two_each : length m ≡ pairs + pairs
  pub counted : active ≡ pairs % 2 ^ 64

pub Counted-both :
    (client target : ℕ) (c d : ConnState) (m : List (ℕ × ConnState)) (active : ℕ)
    → lookup client m ≡ none
    → lookup target m ≡ none
    → (client == target) ≡ false
    → Counted m active
    → Counted (insert target d (insert client c m)) ((active + 1) % 2 ^ 64)
Counted-both client target c d m active hc ht ne v = record {
  pairs = v.pairs + 1;
  two_each = omega (
    arith,
    length-insert target d (insert client c m) (lookup-insert_ne client target c m ne ∙ ht),
    length-insert client c m hc,
    v.two_each,
  );
  counted = omega (arith, v.counted);
}

pub Counted-erase :
    (fd : ℕ) (c : ConnState) (m : List (ℕ × ConnState)) (active : ℕ)
    → lookup fd m ≡ some c
    → Paired m
    → Counted m active
    → Counted (erase c.peer_fd (erase fd m)) ((active + (2 ^ 64 - 1)) % 2 ^ 64)
unfolding erase
Counted-erase fd c m active h p v =
    let (d, back, points, opposite, differs) = p.peers fd c h in
    let one : suc (length (erase fd m)) ≡ length m = length-erase fd c m p.distinct h in
    let two : suc (length (erase c.peer_fd (erase fd m))) ≡ length (erase fd m) =
      length-erase c.peer_fd d (erase fd m) (Distinct-retain _ m p.distinct)
        (lookup-erase_ne fd c.peer_fd m differs ∙ back) in
    record {
      pairs = v.pairs - 1;
      two_each = omega (arith, one, two, v.two_each);
      counted = omega (arith, one, two, v.two_each, v.counted);
    }
