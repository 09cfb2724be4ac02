-- ===== src/TlsProxy/Relay.antt =====
-- What the two directions of the relay of src/tls_proxy.cpp move.
use tunnel_proxy.Base.Maps.{ℕ_key}
use tunnel_proxy.Base.{
  ℕ, ◌≡◌, refl, sym, ap, ◌∙◌, inl, inr, Bool, true, false, List, [], ◌∷◌, ◌++◌, arith, append-nil,
  append_assoc, Bytes, is_empty,
}
use tunnel_proxy.TlsProxy.{
  TlsProxy, wrote, encrypted, mod_epoll, act, close_connection, keep, Write, End, all_written,
  blocked, broken, write_all, SslRead, plain, want_more, ended, after_write,
  forward_client_to_target, written, want_write, want_read, ssl_failed, TargetRead, got, nothing,
  read_failed, forward_target_to_client, epollin_epollout,
}
use tunnel_proxy.TlsProxy.Streams.{
  sent, buffered, received, arrived, or, or-true, write_fails, client_fails, target_fails,
  renegotiates, Moved, Fate, write_all-whole, close_connection-sent, close_connection-gone,
  keep-sent, keep-buffered, wrote-sent, encrypted-sent,
}

not_empty : {P : Type 0} (bytes : Bytes) → is_empty bytes ≡ false → bytes ++ [] ≡ [] → P
not_empty bytes h e = ground (arith, append-nil bytes)

module _ {R : Type 0} (bytes_of : List R → Bytes) (fails loses : List R → Bool)
    (from_fd to_fd : ℕ) where
  -- The next answer gives no bytes.
  Moved-stay :
      (reads : List R) (s : TlsProxy)
      → bytes_of [] ≡ []
      → bytes_of reads ≡ []
      → Moved bytes_of fails loses reads from_fd to_fd s s
  Moved-stay reads s h e = record {
    before = [];
    later = reads;
    split = refl;
    out = [];
    rest = [];
    lost = [];
    whole = sym h;
    sent_is = sym (append-nil (sent to_fd s.actions));
    closed_or_kept = inr (sym (append-nil (buffered to_fd s)), inl refl, λ h. e);
  }

  -- The bytes of an answer were handed over, and then more.
  Moved-after :
      (r : R) (reads : List R) (bytes : Bytes) (s u t : TlsProxy)
      → sent to_fd u.actions ≡ sent to_fd s.actions ++ bytes
      → buffered to_fd u ≡ buffered to_fd s
      → ((l : List R) → bytes ++ bytes_of l ≡ bytes_of (r ∷ l))
      → ((l : List R) → fails l ≡ true → fails (r ∷ l) ≡ true)
      → ((l : List R) → loses l ≡ true → loses (r ∷ l) ≡ true)
      → Moved bytes_of fails loses reads from_fd to_fd u t
      → Moved bytes_of fails loses (r ∷ reads) from_fd to_fd s t
  Moved-after r reads bytes s u t h b more ff ll v = record {
    before = r ∷ v.before;
    later = v.later;
    split = ap (λ l. r ∷ l) v.split;
    out = bytes ++ v.out;
    rest = v.rest;
    lost = v.lost;
    whole =
        append_assoc bytes v.out (v.rest ++ v.lost) ∙ ap (λ z. bytes ++ z) v.whole ∙ more v.before;
    sent_is = v.sent_is ∙ ap (λ z. z ++ v.out) h ∙ append_assoc (sent to_fd s.actions) bytes v.out;
    closed_or_kept = elim v.closed_or_kept [
      | inl (gone, none_kept, e) ↦ inl (gone, none_kept, ff v.before e)
      | inr (kept, why, e) ↦ inr (
        kept ∙ ap (λ z. z ++ v.rest) b,
        elim why [ inl none_lost ↦ inl none_lost | inr (d, l) ↦ inr (d, ll v.before l) ],
        e,
      )
    ];
  }

  -- Of the bytes of an answer `out` was handed over, and then the connection was closed.
  Moved-close :
      (r : R) (reads : List R) (out lost : Bytes) (s u : TlsProxy)
      → sent to_fd u.actions ≡ sent to_fd s.actions ++ out
      → out ++ lost ≡ bytes_of (r ∷ [])
      → fails (r ∷ []) ≡ true
      → Moved bytes_of fails loses (r ∷ reads) from_fd to_fd s (close_connection from_fd u)
  Moved-close r reads out lost s u h w e = record {
    before = r ∷ [];
    later = reads;
    split = refl;
    out = out;
    rest = [];
    lost = lost;
    whole = w;
    sent_is = close_connection-sent from_fd to_fd u ∙ h;
    closed_or_kept = inl (close_connection-gone from_fd u, refl, e);
  }

  -- Of the bytes of an answer `out` was handed over, and what was left was kept.
  Moved-keep :
      (r : R) (reads : List R) (out rest : Bytes) (s u : TlsProxy)
      → sent to_fd u.actions ≡ sent to_fd s.actions ++ out
      → buffered to_fd u ≡ buffered to_fd s
      → out ++ rest ≡ bytes_of (r ∷ [])
      → is_empty rest ≡ false
      → Moved bytes_of fails loses
          (r ∷ reads)
          from_fd
          to_fd
          s
          (act (mod_epoll to_fd epollin_epollout) (keep to_fd rest u))
  Moved-keep r reads out rest s u h b w e = record {
    before = r ∷ [];
    later = reads;
    split = refl;
    out = out;
    rest = rest;
    lost = [];
    whole = ap (λ z. out ++ z) (append-nil rest) ∙ w;
    sent_is = keep-sent to_fd to_fd rest u ∙ h;
    closed_or_kept = inr (
      keep-buffered to_fd rest u ∙ ap (λ z. z ++ rest) b,
      inl refl,
      λ none_left. not_empty rest e none_left,
    );
  }

-- The forwarding to the target loses no bytes while the connection is kept.
abbrev pub loses_none : List SslRead → Bool
loses_none reads = false

after_write-Moved :
    (r : Bytes × Bytes × End) (client_fd target_fd : ℕ) (bytes : Bytes) (ws : List Write)
    (reads : List SslRead) (s : TlsProxy) (more : TlsProxy → TlsProxy)
    → (r.0 ++ r.1 ≡ bytes) × Fate r.2 r.1 ws
    → ((u : TlsProxy) → Moved received client_fails loses_none reads client_fd target_fd u (more u))
    → Moved received client_fails loses_none
        (plain bytes ws ∷ reads)
        client_fd
        target_fd
        s
        (after_write r client_fd target_fd s more)
after_write-Moved (out, rest, all_written) client_fd target_fd bytes ws reads s more (w, e) k =
    let all : out ≡ bytes = sym (append-nil out) ∙ ap (λ z. out ++ z) (sym e) ∙ w in
    Moved-after received client_fails loses_none client_fd target_fd (plain bytes ws) reads bytes s
      (act (wrote target_fd out) s) (more (act (wrote target_fd out) s))
      (wrote-sent target_fd out s.actions ∙ ap (λ z. sent target_fd s.actions ++ z) all) refl
      (λ l. refl) (λ l. or-true (write_fails ws) (client_fails l)) (λ l h. h)
      (k (act (wrote target_fd out) s))
after_write-Moved (out, rest, blocked) client_fd target_fd bytes ws reads s more (w, e) k =
    Moved-keep received client_fails loses_none client_fd target_fd (plain bytes ws) reads out rest
      s (act (wrote target_fd out) s) (wrote-sent target_fd out s.actions) refl
      (w ∙ sym (append-nil bytes)) e
after_write-Moved (out, rest, broken) client_fd target_fd bytes ws reads s more (w, e) k =
    Moved-close received client_fails loses_none client_fd target_fd (plain bytes ws) reads out rest
      s (act (wrote target_fd out) s) (wrote-sent target_fd out s.actions)
      (w ∙ sym (append-nil bytes)) (ap (λ z. or z false) e)

-- The forwarding to the target asks for the first ones of the answers of `SSL_read`. Of their bytes
-- it hands over a front part. Then either the connection of the client is closed, after an answer
-- that fails or ends it, and the other bytes of the answers are dropped; or all other bytes of
-- these answers are put behind what waits for the target, and no answer that gives bytes is left
-- that was not asked for, unless some bytes were put there.
pub forward_client_to_target-Moved :
    (reads : List SslRead) (client_fd target_fd : ℕ) (s : TlsProxy)
    → Moved received client_fails loses_none reads client_fd target_fd s
        (forward_client_to_target reads client_fd target_fd s)
unfolding forward_client_to_target
forward_client_to_target-Moved [] client_fd target_fd s =
    Moved-stay received client_fails loses_none client_fd target_fd [] s refl refl
forward_client_to_target-Moved (plain bytes ws ∷ reads) client_fd target_fd s =
    after_write-Moved (write_all ws bytes) client_fd target_fd bytes ws reads s
      (forward_client_to_target reads client_fd target_fd) (write_all-whole ws bytes)
      (forward_client_to_target-Moved reads client_fd target_fd)
forward_client_to_target-Moved (want_more ∷ reads) client_fd target_fd s =
    Moved-stay received client_fails loses_none client_fd target_fd (want_more ∷ reads) s refl refl
forward_client_to_target-Moved (ended ∷ reads) client_fd target_fd s =
    Moved-close received client_fails loses_none client_fd target_fd ended reads [] [] s s
      (sym (append-nil _)) refl refl

-- The forwarding to the client asks for the first ones of the answers of `read`. Of their bytes it
-- hands over a front part. Then either the connection of the target is closed, after the end or an
-- answer that fails, and the other bytes of the answers are dropped; or the other bytes of these
-- answers are all put behind what waits for the client, or, only where an `SSL_write` wants to read,
-- they are all lost. No answer that gives bytes is left that was not asked for, unless some bytes
-- were put there or lost, or the connection is closed.
pub forward_target_to_client-Moved :
    (reads : List TargetRead) (target_fd client_fd : ℕ) (s : TlsProxy)
    → Moved arrived target_fails renegotiates reads target_fd client_fd s
        (forward_target_to_client reads target_fd client_fd s)
unfolding forward_target_to_client
forward_target_to_client-Moved [] target_fd client_fd s =
    Moved-stay arrived target_fails renegotiates target_fd client_fd [] s refl refl
forward_target_to_client-Moved (got [] w ∷ reads) target_fd client_fd s =
    Moved-close arrived target_fails renegotiates target_fd client_fd (got [] w) reads [] [] s s
      (sym (append-nil _)) refl refl
forward_target_to_client-Moved (got (b ∷ bs) written ∷ reads) target_fd client_fd s =
    Moved-after arrived target_fails renegotiates target_fd client_fd (got (b ∷ bs) written) reads
      (b ∷ bs) s (act (encrypted client_fd (b ∷ bs)) s)
      (forward_target_to_client reads target_fd client_fd (act (encrypted client_fd (b ∷ bs)) s))
      (encrypted-sent client_fd (b ∷ bs) s.actions) refl (λ l. refl) (λ l h. h) (λ l h. h)
      (forward_target_to_client-Moved reads target_fd client_fd _)
forward_target_to_client-Moved (got (b ∷ bs) want_write ∷ reads) target_fd client_fd s =
    Moved-keep arrived target_fails renegotiates target_fd client_fd (got (b ∷ bs) want_write) reads
      [] (b ∷ bs) s s (sym (append-nil _)) refl (sym (append-nil (b ∷ bs))) refl
forward_target_to_client-Moved (got (b ∷ bs) want_read ∷ reads) target_fd client_fd s = record {
  before = got (b ∷ bs) want_read ∷ [];
  later = reads;
  split = refl;
  out = [];
  rest = [];
  lost = b ∷ bs;
  whole = sym (append-nil (b ∷ bs));
  sent_is = sym (append-nil _);
  closed_or_kept = inr (sym (append-nil _), inr (refl, refl), λ h. absurd (ground arith));
}
forward_target_to_client-Moved (got (b ∷ bs) ssl_failed ∷ reads) target_fd client_fd s =
    Moved-close arrived target_fails renegotiates target_fd client_fd (got (b ∷ bs) ssl_failed)
      reads [] (b ∷ bs) s s (sym (append-nil _)) (sym (append-nil (b ∷ bs))) refl
forward_target_to_client-Moved (nothing ∷ reads) target_fd client_fd s =
    Moved-stay arrived target_fails renegotiates target_fd client_fd (nothing ∷ reads) s refl refl
forward_target_to_client-Moved (read_failed ∷ reads) target_fd client_fd s =
    Moved-close arrived target_fails renegotiates target_fd client_fd read_failed reads [] [] s s
      (sym (append-nil _)) refl refl
