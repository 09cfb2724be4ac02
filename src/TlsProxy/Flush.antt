-- ===== src/TlsProxy/Flush.antt =====
-- `flush_write_buf` of src/tls_proxy.cpp hands over what waits.
use tunnel_proxy.Base.Maps.{ℕ_key, lookup, insert, lookup-insert_self}
use tunnel_proxy.Base.{
  ℕ, ◌≡◌, refl, sym, ap, subst, ◌∙◌, ◌⊎◌, inl, inr, Bool, true, false, List, [], ◌++◌, none, some,
  if◌then◌else◌, Bool-cases, append-nil, append_assoc, Bytes, is_empty,
}
use tunnel_proxy.TlsProxy.{
  ConnState, TlsProxy, wrote, act, Write, End, all_written, blocked, broken, write_all, SslWrite,
  written, want_write, want_read, ssl_failed, flush_plain, flush_tls, flush_write_buf,
}
use tunnel_proxy.TlsProxy.Streams.{
  sent, buffered, buf_of, write_fails, wrote-sent, encrypted-sent, write_all-whole, Fate,
  close_connection-gone,
}

-- What a descriptor has got, and then what waits for it.
abbrev pub stream : ℕ → TlsProxy → Bytes
stream fd s = sent fd s.actions ++ buffered fd s

-- The answer ends the connection.
abbrev pub closes : SslWrite → Bool
closes written = false
closes want_write = false
closes want_read = true
closes ssl_failed = true

abbrev pub flush_fails : Bool → List Write → SslWrite → Bool
flush_fails true ws w = closes w
flush_fails false ws w = write_fails ws

-- The connection is closed for a failure, or the stream is as before.
abbrev Flushed : ℕ → Bool → TlsProxy → TlsProxy → Type 0
Flushed fd fails s t =
    ((lookup fd t.connections ≡ none) × (fails ≡ true)) ⊎ (stream fd t ≡ stream fd s)

-- Some of what waited was handed over, and the others wait.
kept :
    (fd : ℕ) (c c' : ConnState) (out rest now : Bytes) (s : TlsProxy)
    → now ≡ sent fd s.actions ++ out
    → c'.write_buf ≡ rest
    → out ++ rest ≡ c.write_buf
    → lookup fd s.connections ≡ some c
    → now ++ buf_of (lookup fd (insert fd c' s.connections)) ≡ stream fd s
kept fd c c' out rest now s h r w e =
    ap (λ z. z ++ buf_of (lookup fd (insert fd c' s.connections))) h
    ∙ ap (λ z. (sent fd s.actions ++ out) ++ buf_of z) (lookup-insert_self fd c' s.connections)
    ∙ ap (λ z. (sent fd s.actions ++ out) ++ z) r
    ∙ append_assoc (sent fd s.actions) out rest
    ∙ ap (λ z. sent fd s.actions ++ z) (w ∙ ap buf_of (sym e))

flush_tls-Flushed :
    (w : SslWrite) (fd : ℕ) (c : ConnState) (s : TlsProxy)
    → lookup fd s.connections ≡ some c
    → Flushed fd (closes w) s (flush_tls w fd c s)
unfolding flush_tls
flush_tls-Flushed written fd c s e = inr (
    kept fd c (record c { write_buf = [] }) c.write_buf [] _ s
      (encrypted-sent fd c.write_buf s.actions) refl (append-nil c.write_buf) e)
flush_tls-Flushed want_write fd c s e = inr refl
flush_tls-Flushed want_read fd c s e = inl (close_connection-gone fd s, refl)
flush_tls-Flushed ssl_failed fd c s e = inl (close_connection-gone fd s, refl)

flush_plain-Flushed :
    (r : Bytes × Bytes × End) (ws : List Write) (fd : ℕ) (c : ConnState) (s : TlsProxy)
    → (r.0 ++ r.1 ≡ c.write_buf) × Fate r.2 r.1 ws
    → lookup fd s.connections ≡ some c
    → Flushed fd (write_fails ws) s (flush_plain r fd c s)
unfolding flush_plain
flush_plain-Flushed (out, rest, all_written) ws fd c s (w, f) e =
    inr (
      kept fd c (record c { write_buf = [] }) out rest _ s (wrote-sent fd out s.actions) (sym f) w
        e)
flush_plain-Flushed (out, rest, blocked) ws fd c s (w, f) e =
    inr (
      kept fd c (record c { write_buf = rest }) out rest _ s (wrote-sent fd out s.actions) refl w e)
flush_plain-Flushed (out, rest, broken) ws fd c s (w, f) e =
    inl (close_connection-gone fd (act (wrote fd out) s), f)

filled-Flushed :
    (side : Bool) (ws : List Write) (w : SslWrite) (fd : ℕ) (c : ConnState) (s : TlsProxy)
    → lookup fd s.connections ≡ some c
    → Flushed fd
        (flush_fails side ws w)
        s
        (if side then flush_tls w fd c s else flush_plain (write_all ws c.write_buf) fd c s)
filled-Flushed true ws w fd c s e = flush_tls-Flushed w fd c s e
filled-Flushed false ws w fd c s e =
    flush_plain-Flushed (write_all ws c.write_buf) ws fd c s (write_all-whole ws c.write_buf) e

-- Of a registered descriptor, `flush_write_buf` keeps the sequence of what was handed over and what
-- waits, or closes the connection, after an answer that fails.
pub flush_write_buf-stream :
    (ws : List Write) (w : SslWrite) (fd : ℕ) (c : ConnState) (s : TlsProxy)
    → lookup fd s.connections ≡ some c
    → let t = flush_write_buf ws w fd s in
      ((lookup fd t.connections ≡ none) × (flush_fails c.is_client ws w ≡ true))
      ⊎ (stream fd t ≡ stream fd s)
unfolding flush_write_buf
flush_write_buf-stream ws w fd c s e = elim (Bool-cases (is_empty c.write_buf)) [
  | inl h ↦ rw (e, flush_write_buf, h) (inr (ap (λ z. sent fd s.actions ++ buf_of z) e))
  | inr h ↦
      let it_is : flush_write_buf ws w fd s ≡ (
          if c.is_client
          then flush_tls w fd c s
          else flush_plain (write_all ws c.write_buf) fd c s) =
        rw (e, flush_write_buf, h) refl in
      subst (Flushed fd (flush_fails c.is_client ws w) s) (sym it_is)
        (filled-Flushed c.is_client ws w fd c s e)
]
