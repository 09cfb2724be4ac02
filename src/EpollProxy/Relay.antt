-- ===== src/EpollProxy/Relay.antt =====
-- What `forward_data` moves.
use tunnel_proxy.Base.Maps.{ℕ_key, lookup, erase, lookup-erase, lookup-erase_self}
use tunnel_proxy.Base.{
  ℕ, ◌≡◌, refl, sym, ap, subst, ◌∙◌, ◌⊎◌, inl, inr, true, List, [], ◌∷◌, ◌++◌, Option, none, some,
  ◌==◌, ==_iff, if◌then◌else◌, Bool-cases, Option-cases, arith, append-nil, append_assoc, length,
  All, Bytes, done,
}
use tunnel_proxy.EpollProxy.{
  Pipe, EpollProxy, Action, delivered, closed, pipe_closed, act, close_connection, acquire_pipe,
  release_pipe, write_out, In, would_block, in_failed, bytes_in, abandon, relay, forward_data,
}
use tunnel_proxy.EpollProxy.WriteOut.{write_out-whole}

-- The bytes that were handed to a descriptor, in order.
abbrev pub sent_to : ℕ → List Action → Bytes
sent_to fd [] = []
sent_to fd (delivered to_fd bytes ∷ before) =
    if to_fd == fd then sent_to fd before ++ bytes else sent_to fd before
sent_to fd (closed d ∷ before) = sent_to fd before
sent_to fd (pipe_closed p ∷ before) = sent_to fd before

-- The bytes that `splice` took from the socket before it gave none.
abbrev pub read_of : List In → Bytes
read_of [] = []
read_of (would_block ∷ rest) = []
read_of (in_failed ∷ rest) = []
read_of (bytes_in [] outs ∷ rest) = []
read_of (bytes_in (b ∷ bs) outs ∷ rest) = (b ∷ bs) ++ read_of rest

abbrev pub IsClean : EpollProxy → Type 0
IsClean s = All (λ p. p.held ≡ []) s.pipe_pool

-- A front part of `bytes` went to `to_fd`; if not the whole, the connection of `from_fd` is closed.
pub record Relayed (from_fd to_fd : ℕ) (bytes : Bytes) (s t : EpollProxy) : Type 0 where
  pub out : Bytes
  pub lost : Bytes
  pub sent : sent_to to_fd t.actions ≡ sent_to to_fd s.actions ++ out
  pub whole : out ++ lost ≡ bytes
  pub closed_or_all : (lookup from_fd t.connections ≡ none) ⊎ (lost ≡ [])
  pub clean : IsClean t

close_connection-sent :
    (fd d : ℕ) (s : EpollProxy) → sent_to d (close_connection fd s).actions ≡ sent_to d s.actions
unfolding close_connection
close_connection-sent fd d s = ground arith

close_connection-gone :
    (fd : ℕ) (s : EpollProxy) → lookup fd (close_connection fd s).connections ≡ none
unfolding close_connection
close_connection-gone fd s = elim (Option-cases (lookup fd s.connections)) [
  | inl e ↦ rw (e, close_connection) e
  | inr (c, e) ↦
      rw (e, close_connection)
        (ground (
          arith,
          lookup-erase c.peer_fd fd (erase fd s.connections),
          lookup-erase_self fd s.connections,
        ))
]

pub close_connection-pool :
    (fd : ℕ) (s : EpollProxy) → (close_connection fd s).pipe_pool ≡ s.pipe_pool
unfolding close_connection
close_connection-pool fd s = ground arith

acquired :
    (created : Option (ℕ × ℕ)) (s s' : EpollProxy) (p : Pipe) (pool : List Pipe)
    → s.pipe_pool ≡ pool
    → All (λ q. q.held ≡ []) pool
    → acquire_pipe created s ≡ some (p, s')
    → (p.held ≡ []) × IsClean s' × (s'.actions ≡ s.actions)
unfolding acquire_pipe
acquired none s s' p [] e c h = absurd (ground arith)
acquired (some fds) s s' p [] e c h =
    let same : s ≡ s' = ground arith in
    (ground arith, subst IsClean same (subst (All (λ q. q.held ≡ [])) (sym e) tt), ground arith)
acquired created s s' p (q ∷ qs) e c h =
    let first : q ≡ p = ground arith in
    let rest : record s { pipe_pool = qs } ≡ s' = ground arith in
    (
      ap (λ (x : Pipe). x.held) (sym first) ∙ c.0,
      subst IsClean rest c.1,
      ap (λ (x : EpollProxy). x.actions) (sym rest),
    )

module _ (from_fd to_fd : ℕ) where
  abandon-Relayed :
      (p : Pipe) (s : EpollProxy) (bytes : Bytes)
      → IsClean s
      → Relayed from_fd to_fd bytes s (abandon p from_fd s)
  unfolding abandon
  abandon-Relayed p s bytes c = record {
    out = [];
    lost = bytes;
    sent = close_connection-sent from_fd to_fd (act (pipe_closed p) s) ∙ sym (append-nil _);
    whole = refl;
    closed_or_all = inl (close_connection-gone from_fd (act (pipe_closed p) s));
    clean =
        subst (All (λ q. q.held ≡ [])) (sym (close_connection-pool from_fd (act (pipe_closed p) s)))
          c;
  }

  release-Relayed :
      (p : Pipe) (s : EpollProxy)
      → IsClean s
      → p.held ≡ []
      → Relayed from_fd to_fd [] s (release_pipe p s)
  unfolding release_pipe
  release-Relayed p s c empty = record {
    out = [];
    lost = [];
    sent = sym (append-nil _);
    whole = refl;
    closed_or_all = inr refl;
    clean = (empty, c);
  }

  -- One piece, and then the rest.
  after :
      (bytes more : Bytes) (s t : EpollProxy)
      → Relayed from_fd to_fd more (act (delivered to_fd bytes) s) t
      → Relayed from_fd to_fd (bytes ++ more) s t
  after bytes more s t v = record {
    out = bytes ++ v.out;
    lost = v.lost;
    sent =
        v.sent
        ∙ (let same : (to_fd == to_fd) ≡ true = (==_iff to_fd to_fd).1 refl in
            rw same (append_assoc (sent_to to_fd s.actions) bytes v.out));
    whole = append_assoc bytes v.out v.lost ∙ ap (λ x. bytes ++ x) v.whole;
    closed_or_all = v.closed_or_all;
    clean = v.clean;
  }

  -- A front part of one piece, and nothing more.
  cut_off :
      (out lost : Bytes) (p : Pipe) (more : Bytes) (s : EpollProxy)
      → IsClean s
      → Relayed from_fd to_fd
          ((out ++ lost) ++ more)
          s
          (abandon p from_fd (act (delivered to_fd out) s))
  cut_off out lost p more s c =
      let v =
        after out (lost ++ more) s _
          (abandon-Relayed p (act (delivered to_fd out) s) (lost ++ more) c) in
      subst (λ b. Relayed from_fd to_fd b s (abandon p from_fd (act (delivered to_fd out) s)))
        (sym (append_assoc out lost more)) v

  relay-Relayed :
      (ins : List In) (p : Pipe) (s : EpollProxy)
      → IsClean s
      → p.held ≡ []
      → Relayed from_fd to_fd (read_of ins) s (relay ins p from_fd to_fd s)
  unfolding relay
  relay-Relayed [] p s c empty = release-Relayed p s c empty
  relay-Relayed (would_block ∷ rest) p s c empty = release-Relayed p s c empty
  relay-Relayed (in_failed ∷ rest) p s c empty = abandon-Relayed p s [] c
  relay-Relayed (bytes_in [] outs ∷ rest) p s c empty = abandon-Relayed p s [] c
  relay-Relayed (bytes_in (b ∷ bs) outs ∷ rest) p s c empty =
      let r = write_out outs (length (b ∷ bs)) (p.held ++ (b ∷ bs)) in
      let p' = record p { held = r.1 } in
      let s' = act (delivered to_fd r.0) s in
      let (parts, all_out) = write_out-whole outs p.held (b ∷ bs) empty in
      elim (Bool-cases r.2) [
        | inl ok ↦
            let (same, emptied) = all_out ok in
            let v = after r.0 (read_of rest) s _ (relay-Relayed rest p' s' c emptied) in
            rw ok (
              subst
                (λ piece.
                  Relayed from_fd to_fd (piece ++ read_of rest) s (relay rest p' from_fd to_fd s'))
                same v)
        | inr failed ↦ rw failed (
            subst (λ piece. Relayed from_fd to_fd (piece ++ read_of rest) s (abandon p' from_fd s'))
              parts (cut_off r.0 r.1 p' (read_of rest) s c))
      ]

  resumed :
      (bytes : Bytes) (s s' t : EpollProxy)
      → s'.actions ≡ s.actions
      → Relayed from_fd to_fd bytes s' t
      → Relayed from_fd to_fd bytes s t
  resumed bytes s s' t e v = record {
    out = v.out;
    lost = v.lost;
    sent = v.sent ∙ ap (λ a. sent_to to_fd a ++ v.out) e;
    whole = v.whole;
    closed_or_all = v.closed_or_all;
    clean = v.clean;
  }

  -- From a clean pool, when no pipe is missing, `forward_data` hands to the other side a front part
  -- of the bytes that it read, in order and nothing else; either these are all, or the connection
  -- is closed. The pool stays clean.
  pub forward_data-Relayed :
      (created : Option (ℕ × ℕ)) (ins : List In) (s t : EpollProxy)
      → IsClean s
      → forward_data created ins from_fd to_fd s ≡ done t
      → Relayed from_fd to_fd (read_of ins) s t
  unfolding forward_data
  forward_data-Relayed created ins s t c h = elim (Option-cases (acquire_pipe created s)) [
    | inl e ↦ absurd (ground arith)
    | inr ((p, s'), e) ↦
        let (empty, c', same) = acquired created s s' p s.pipe_pool refl c e in
        let is_t : relay ins p from_fd to_fd s' ≡ t = ground arith in
        resumed (read_of ins) s s' t same
          (subst (Relayed from_fd to_fd (read_of ins) s') is_t (relay-Relayed ins p s' c' empty))
  ]
