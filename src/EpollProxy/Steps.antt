-- ===== src/EpollProxy/Steps.antt =====
-- The rounds of `run` in src/epoll_proxy.cpp, and what they keep.
use tunnel_proxy.Base.Maps.{ℕ_key, lookup}
use tunnel_proxy.Base.{
  ℕ, ◌≡◌, refl, sym, ap, subst, subst₂, ◌∙◌, Bool-cases, length, ◌++◌, inl, inr, Bool, true, false,
  List, [], ◌∷◌, Option, none, some, Option-cases, arith, ◌⊎◌, ◌==◌, All, Effect, done, raised,
  then_do,
}
use tunnel_proxy.EpollProxy.{
  Pipe, EpollProxy, Error, Accepted, client_blocks, no_target, target_blocks, not_registered,
  paired, In, started, stop, close_connection, map_both, count, accept_one, accept_connection,
  forward_data, handle_event, acquire_pipe, abandon, relay, release_pipe, act, pipe_closed,
  delivered, write_out, would_block, in_failed, bytes_in,
}
use tunnel_proxy.EpollProxy.Relay.{IsClean, close_connection-pool, forward_data-Relayed}
use tunnel_proxy.Base.Pairs
use tunnel_proxy.EpollProxy.Pairs.{peer, Opposite, Paired, Counted, Counted-both, Counted-erase}

-- The connections stand in pairs, and are counted.
pub record Tables (s : EpollProxy) : Type 0 where
  pub pairs : Paired s.connections
  pub count_is : Counted s.connections s.active_connections

abbrev pub Inv : EpollProxy → Type 0
Inv s = Tables s × IsClean s

-- New descriptors are two, and none of them is in the table.
abbrev FreshOne : Accepted → EpollProxy → Type 0
FreshOne (paired client_fd target_fd) s =
    (lookup client_fd s.connections ≡ none)
    × (lookup target_fd s.connections ≡ none)
    × ((client_fd == target_fd) ≡ false)
FreshOne _ s = Unit {0}

abbrev pub Fresh : List Accepted → EpollProxy → Type 0
Fresh [] s = Unit {0}
Fresh (a ∷ others) s = FreshOne a s × ((t : EpollProxy) → accept_one a s ≡ done t → Fresh others t)

-- One event of the loop, if nothing is thrown.
pub data Step : EpollProxy → EpollProxy → Type 0 where
  accepts :
      (s t : EpollProxy) (queue : List Accepted)
      → Fresh queue s
      → accept_connection queue s ≡ done t
      → Step s t
  event :
      (s t : EpollProxy) (hung_up readable : Bool) (created : Option (ℕ × ℕ)) (ins : List In)
      (fd : ℕ)
      → handle_event hung_up readable created ins fd s ≡ done t
      → Step s t
  stops : (s : EpollProxy) → Step s (stop s)

pub data Runs (s : EpollProxy) : EpollProxy → Type 0 where
  here : Runs s s
  next : {t u : EpollProxy} → Runs s t → Step t u → Runs s u

done-inj : {s t : EpollProxy} {r : Effect Error EpollProxy} → r ≡ done s → r ≡ done t → s ≡ t
done-inj g h = ground arith

Effect-cases :
    (r : Effect Error EpollProxy)
    → ((s : EpollProxy) × (r ≡ done s)) ⊎ ((e : Error) × (s : EpollProxy) × (r ≡ raised e s))
Effect-cases (done s) = inl (s, refl)
Effect-cases (raised e s) = inr (e, s, refl)

Tables-ext :
    {s t : EpollProxy}
    → Tables s
    → s.connections ≡ t.connections
    → s.active_connections ≡ t.active_connections
    → Tables t
Tables-ext v e a = record {
  pairs = subst Paired e v.pairs;
  count_is = subst₂ Counted e a v.count_is;
}

close_connection-Tables : (fd : ℕ) (s : EpollProxy) → Tables s → Tables (close_connection fd s)
unfolding close_connection
close_connection-Tables fd s v = elim (Option-cases (lookup fd s.connections)) [
  | inl e ↦ rw (e, close_connection) v
  | inr (c, e) ↦
      rw (e, close_connection)
        (record {
          pairs = Pairs.Paired-erase peer Opposite fd c s.connections e v.pairs;
          count_is = Counted-erase fd c s.connections s.active_connections e v.pairs v.count_is;
        })
]

accept_one-Inv :
    (a : Accepted) (s t : EpollProxy) → FreshOne a s → accept_one a s ≡ done t → Inv s → Inv t
unfolding accept_one map_both count
accept_one-Inv (client_blocks fd) s t f h v = absurd (ground arith)
accept_one-Inv (no_target fd) s t f h v =
    subst Inv (done-inj refl h) (Tables-ext v.0 refl refl, v.1)
accept_one-Inv (target_blocks fd d) s t f h v = absurd (ground arith)
accept_one-Inv (not_registered fd d) s t f h v = absurd (ground arith)
accept_one-Inv (paired fd d) s t (hc, ht, ne) h v = subst Inv (done-inj refl h) (
  record {
    pairs =
        Pairs.Paired-both peer Opposite fd d _ _ s.connections (refl, refl, refl, refl) hc ht ne
          v.0.pairs;
    count_is = Counted-both fd d _ _ s.connections s.active_connections hc ht ne v.0.count_is;
  },
  v.1,
)

accept_connection-Inv :
    (queue : List Accepted) (s t : EpollProxy)
    → Fresh queue s
    → accept_connection queue s ≡ done t
    → Inv s
    → Inv t
unfolding accept_connection
accept_connection-Inv [] s t f h v = subst Inv (done-inj refl h) v
accept_connection-Inv (a ∷ others) s t f h v = elim (Effect-cases (accept_one a s)) [
  | inl (u, e) ↦
      accept_connection-Inv others u t (f.1 u e)
        (sym (ap (λ r. then_do r (accept_connection others)) e) ∙ h) (accept_one-Inv a s u f.0 e v)
  | inr (x, u, e) ↦ absurd (ground arith)
]

abandon-Tables : (p : Pipe) (fd : ℕ) (s : EpollProxy) → Tables s → Tables (abandon p fd s)
unfolding abandon
abandon-Tables p fd s v =
    close_connection-Tables fd (act (pipe_closed p) s) (Tables-ext v refl refl)

relay-Tables :
    (ins : List In) (p : Pipe) (from_fd to_fd : ℕ) (s : EpollProxy)
    → Tables s
    → Tables (relay ins p from_fd to_fd s)
unfolding relay release_pipe abandon
relay-Tables [] p from_fd to_fd s v = Tables-ext v refl refl
relay-Tables (would_block ∷ rest) p from_fd to_fd s v = Tables-ext v refl refl
relay-Tables (in_failed ∷ rest) p from_fd to_fd s v = abandon-Tables p from_fd s v
relay-Tables (bytes_in [] outs ∷ rest) p from_fd to_fd s v = abandon-Tables p from_fd s v
relay-Tables (bytes_in (b ∷ bs) outs ∷ rest) p from_fd to_fd s v =
    let r = write_out outs (length (b ∷ bs)) (p.held ++ (b ∷ bs)) in
    let p' = record p { held = r.1 } in
    let s' = act (delivered to_fd r.0) s in
    elim (Bool-cases r.2) [
      | inl all ↦ rw all (relay-Tables rest p' from_fd to_fd s' (Tables-ext v refl refl))
      | inr cut ↦ rw cut (abandon-Tables p' from_fd s' (Tables-ext v refl refl))
    ]

acquire_pipe-Tables :
    (created : Option (ℕ × ℕ)) (s s' : EpollProxy) (p : Pipe) (pool : List Pipe)
    → s.pipe_pool ≡ pool
    → acquire_pipe created s ≡ some (p, s')
    → Tables s
    → Tables s'
unfolding acquire_pipe
acquire_pipe-Tables none s s' p [] e h v = absurd (ground arith)
acquire_pipe-Tables (some fds) s s' p [] e h v = subst Tables (ground arith) v
acquire_pipe-Tables created s s' p (q ∷ qs) e h v =
    let rest : record s { pipe_pool = qs } ≡ s' = ground arith in
    subst Tables rest (Tables-ext v refl refl)

forward_data-Inv :
    (created : Option (ℕ × ℕ)) (ins : List In) (from_fd to_fd : ℕ) (s t : EpollProxy)
    → forward_data created ins from_fd to_fd s ≡ done t
    → Inv s
    → Inv t
unfolding forward_data
forward_data-Inv created ins from_fd to_fd s t h v = elim (Option-cases (acquire_pipe created s)) [
  | inl e ↦ absurd (ground arith)
  | inr ((p, s'), e) ↦
      let is_t : relay ins p from_fd to_fd s' ≡ t = ground arith in
      let moved = forward_data-Relayed from_fd to_fd created ins s t v.1 h in
      (
        subst Tables is_t (
            relay-Tables ins p from_fd to_fd s'
              (acquire_pipe-Tables created s s' p s.pipe_pool refl e v.0)),
        moved.clean,
      )
]

handle_event-Inv :
    (hung_up readable : Bool) (created : Option (ℕ × ℕ)) (ins : List In) (fd : ℕ) (s t : EpollProxy)
    → handle_event hung_up readable created ins fd s ≡ done t
    → Inv s
    → Inv t
unfolding handle_event
handle_event-Inv true readable created ins fd s t h v = subst Inv (done-inj refl h) (
  close_connection-Tables fd s v.0,
  subst (All (λ p. p.held ≡ [])) (sym (close_connection-pool fd s)) v.1,
)
handle_event-Inv false false created ins fd s t h v = subst Inv (done-inj refl h) v
handle_event-Inv false true created ins fd s t h v = elim (Option-cases (lookup fd s.connections)) [
  | inl e ↦ subst Inv (ground arith) v
  | inr (c, e) ↦ forward_data-Inv created ins fd c.peer_fd s t (ground arith) v
]

Step-Inv : {s t : EpollProxy} → Step s t → Inv s → Inv t
unfolding stop
Step-Inv (accepts s t queue f h) v = accept_connection-Inv queue s t f h v
Step-Inv (event s t hung_up readable created ins fd h) v =
    handle_event-Inv hung_up readable created ins fd s t h v
Step-Inv (stops s) v = (Tables-ext v.0 refl refl, v.1)

started-Inv : (pipes : List Pipe) → All (λ p. p.held ≡ []) pipes → Inv (started pipes)
unfolding started lookup
started-Inv pipes empty = (
  record {
    pairs = record { peers = λ fd c h. absurd (ground arith); distinct = tt };
    count_is = record { pairs = 0; two_each = refl; counted = refl };
  },
  empty,
)

-- In every state that `run` reaches without an exception, from empty pipes and where new descriptors
-- are not in the table: every connection has its counterpart on the other side, no descriptor stands
-- twice, the active connections are the pairs modulo 2 ^ 64, and every pipe in the pool is empty.
pub Runs-Inv :
    (pipes : List Pipe) {s : EpollProxy}
    → All (λ p. p.held ≡ []) pipes
    → Runs (started pipes) s
    → Inv s
Runs-Inv pipes empty here = started-Inv pipes empty
Runs-Inv pipes empty (next r step) = Step-Inv step (Runs-Inv pipes empty r)
