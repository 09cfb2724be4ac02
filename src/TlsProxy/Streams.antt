-- ===== src/TlsProxy/Streams.antt =====
-- Where the bytes go that the TLS proxy reads.
use tunnel_proxy.Base.Maps.{
  ℕ_key, lookup, erase, lookup-erase, lookup-erase_self, lookup-insert_self,
}
use tunnel_proxy.Base.{
  ℕ, ◌≡◌, refl, ap, ◌∙◌, ◌⊎◌, inl, inr, Bool, true, false, List, [], ◌∷◌, ◌++◌, Option, none, some,
  ◌==◌, ==_iff, if◌then◌else◌, Bool-cases, Option-cases, arith, append-nil, append_assoc, length,
  min, take, drop, take-append-drop, Bytes, is_empty,
}
use tunnel_proxy.TlsProxy.{
  ConnState, TlsProxy, Action, wrote, encrypted, mod_epoll, shut_down, freed, closed, release,
  ssl_of, close_connection, keep, Write, took, would_block, write_failed, End, all_written, blocked,
  broken, write_all, SslRead, plain, want_more, ended, SslWrite, want_read, ssl_failed, TargetRead,
  got, nothing, read_failed,
}

-- The bytes that were handed to a descriptor, in order: in plain, or to be encrypted.
abbrev pub sent : ℕ → List Action → Bytes
sent fd [] = []
sent fd (wrote d bytes ∷ before) = if d == fd then sent fd before ++ bytes else sent fd before
sent fd (encrypted d bytes ∷ before) = if d == fd then sent fd before ++ bytes else sent fd before
sent fd (mod_epoll d interest ∷ before) = sent fd before
sent fd (shut_down ssl ∷ before) = sent fd before
sent fd (freed ssl ∷ before) = sent fd before
sent fd (closed d ∷ before) = sent fd before

abbrev pub buf_of : Option ConnState → Bytes
buf_of none = []
buf_of (some c) = c.write_buf

-- The bytes that wait for a descriptor.
abbrev pub buffered : ℕ → TlsProxy → Bytes
buffered fd s = buf_of (lookup fd s.connections)

-- The bytes of `SSL_read` before it gave none, and of `read` before it gave none.
abbrev pub received : List SslRead → Bytes
received [] = []
received (plain bytes ws ∷ reads) = bytes ++ received reads
received (want_more ∷ reads) = []
received (ended ∷ reads) = []

abbrev pub arrived : List TargetRead → Bytes
arrived [] = []
arrived (got [] w ∷ reads) = []
arrived (got (b ∷ bs) w ∷ reads) = (b ∷ bs) ++ arrived reads
arrived (nothing ∷ reads) = []
arrived (read_failed ∷ reads) = []

abbrev pub or : Bool → Bool → Bool
or true b = true
or false b = b

-- Some answer ends the connection.
abbrev pub write_fails : List Write → Bool
write_fails [] = false
write_fails (took n ∷ ws) = or (n == 0) (write_fails ws)
write_fails (would_block ∷ ws) = write_fails ws
write_fails (write_failed ∷ ws) = true

abbrev pub client_fails : List SslRead → Bool
client_fails [] = false
client_fails (plain bytes ws ∷ reads) = or (write_fails ws) (client_fails reads)
client_fails (want_more ∷ reads) = client_fails reads
client_fails (ended ∷ reads) = true

abbrev ssl_fails : SslWrite → Bool
ssl_fails ssl_failed = true
ssl_fails _ = false

abbrev pub target_fails : List TargetRead → Bool
target_fails [] = false
target_fails (got [] w ∷ reads) = true
target_fails (got (b ∷ bs) w ∷ reads) = or (ssl_fails w) (target_fails reads)
target_fails (nothing ∷ reads) = target_fails reads
target_fails (read_failed ∷ reads) = true

-- Some `SSL_write` wants to read.
abbrev wants : SslWrite → Bool
wants want_read = true
wants _ = false

abbrev pub renegotiates : List TargetRead → Bool
renegotiates [] = false
renegotiates (got bytes w ∷ reads) = or (wants w) (renegotiates reads)
renegotiates (nothing ∷ reads) = renegotiates reads
renegotiates (read_failed ∷ reads) = renegotiates reads

-- Of the answers `reads` for `from_fd`, the first ones were asked for, `before`, and gave
-- `out ++ (rest ++ lost)`; the others were not, `later`. `out` was handed to `to_fd`, `rest` was put
-- behind what waits for it, and `lost` is nowhere.
pub record Moved {R : Type 0} (bytes_of : List R → Bytes) (fails loses : List R → Bool)
    (reads : List R) (from_fd to_fd : ℕ) (s t : TlsProxy) : Type 0 where
  pub before : List R
  pub later : List R
  pub split : before ++ later ≡ reads
  pub out : Bytes
  pub rest : Bytes
  pub lost : Bytes
  pub whole : out ++ (rest ++ lost) ≡ bytes_of before
  pub sent_is : sent to_fd t.actions ≡ sent to_fd s.actions ++ out
  -- The connection is closed for a failure, and nothing more is put behind what waits; or it is
  -- kept, bytes are lost only where an answer loses them, and the next answer is asked for unless
  -- it gives no bytes, or bytes wait or are lost.
  pub closed_or_kept :
      ((lookup from_fd t.connections ≡ none) × (rest ≡ []) × (fails before ≡ true))
      ⊎ ((buffered to_fd t ≡ buffered to_fd s ++ rest)
          × ((lost ≡ []) ⊎ ((rest ≡ []) × (loses before ≡ true)))
          × (rest ++ lost ≡ [] → bytes_of later ≡ []))

-- What `write_all` makes of the answers.
abbrev pub Fate : End → Bytes → List Write → Type 0
Fate all_written rest ws = rest ≡ []
Fate blocked rest ws = is_empty rest ≡ false
Fate broken rest ws = write_fails ws ≡ true

pub or-true : (a b : Bool) → b ≡ true → or a b ≡ true
or-true true b h = refl
or-true false b h = h

Fate-later :
    (e : End) (rest : Bytes) (k : ℕ) (ws : List Write) → Fate e rest ws → Fate e rest (took k ∷ ws)
Fate-later all_written rest k ws h = h
Fate-later blocked rest k ws h = h
Fate-later broken rest k ws h = or-true (k == 0) (write_fails ws) h

pub write_all-whole :
    (ws : List Write) (bytes : Bytes)
    → let r = write_all ws bytes in (r.0 ++ r.1 ≡ bytes) × Fate r.2 r.1 ws
unfolding write_all
write_all-whole ws [] = (refl, refl)
write_all-whole [] (b ∷ bs) = (append-nil (b ∷ bs), refl)
write_all-whole (took k ∷ ws) (b ∷ bs) =
    let n = min k (length (b ∷ bs)) in
    let more = write_all ws (drop n (b ∷ bs)) in
    let (whole, fate) = write_all-whole ws (drop n (b ∷ bs)) in
    elim (Bool-cases (n == 0)) [
      | inl h ↦
          let zero : (k == 0) ≡ true = ground (arith, ==_iff n 0, ==_iff k 0) in
          rw (write_all, h) (refl, ap (λ z. or z (write_fails ws)) zero)
      | inr h ↦
          rw (write_all, h)
            (
              append_assoc (take n (b ∷ bs)) more.0 more.1
                  ∙ ap (λ z. take n (b ∷ bs) ++ z) whole
                  ∙ take-append-drop n (b ∷ bs),
              Fate-later more.2 more.1 k ws fate,
            )
    ]
write_all-whole (would_block ∷ ws) (b ∷ bs) = (refl, refl)
write_all-whole (write_failed ∷ ws) (b ∷ bs) = (refl, refl)

released-sent :
    (o : Option ℕ) (fd : ℕ) (s : TlsProxy) → sent fd (release o s).actions ≡ sent fd s.actions
released-sent none fd s = refl
released-sent (some ssl) fd s = refl

pub close_connection-sent :
    (fd d : ℕ) (s : TlsProxy) → sent d (close_connection fd s).actions ≡ sent d s.actions
unfolding close_connection
close_connection-sent fd d s = elim (Option-cases (lookup fd s.connections)) [
  | inl e ↦ rw (e, close_connection) refl
  | inr (c, e) ↦ rw (e, close_connection) (released-sent (ssl_of c s.connections) d s)
]

pub close_connection-gone :
    (fd : ℕ) (s : TlsProxy) → lookup fd (close_connection fd s).connections ≡ none
unfolding close_connection
close_connection-gone fd s = elim (Option-cases (lookup fd s.connections)) [
  | inl e ↦ rw (e, close_connection) e
  | inr (c, e) ↦
      rw (e, close_connection)
        (ground (
          arith,
          lookup-erase c.peer_fd fd (erase fd s.connections),
          lookup-erase_self fd s.connections,
        ))
]

pub keep-sent :
    (fd d : ℕ) (bytes : Bytes) (s : TlsProxy) → sent d (keep fd bytes s).actions ≡ sent d s.actions
unfolding keep
keep-sent fd d bytes s = elim (Option-cases (lookup fd s.connections)) [
  | inl e ↦ rw (e, keep) refl
  | inr (c, e) ↦ rw (e, keep) refl
]

pub keep-buffered :
    (fd : ℕ) (bytes : Bytes) (s : TlsProxy) → buffered fd (keep fd bytes s) ≡ buffered fd s ++ bytes
unfolding keep
keep-buffered fd bytes s = elim (Option-cases (lookup fd s.connections)) [
  | inl e ↦ rw (e, keep) (ap buf_of (lookup-insert_self fd _ s.connections))
  | inr (c, e) ↦ rw (e, keep) (ap buf_of (lookup-insert_self fd _ s.connections))
]

pub wrote-sent :
    (fd : ℕ) (bytes : Bytes) (before : List Action)
    → sent fd (wrote fd bytes ∷ before) ≡ sent fd before ++ bytes
wrote-sent fd bytes before = ground (arith, ==_iff fd fd)

pub encrypted-sent :
    (fd : ℕ) (bytes : Bytes) (before : List Action)
    → sent fd (encrypted fd bytes ∷ before) ≡ sent fd before ++ bytes
encrypted-sent fd bytes before = ground (arith, ==_iff fd fd)
