-- ===== src/UdpProxy/Keys.antt =====
-- The keys of client addresses.
use tunnel_proxy.Base.{
  ◌≡◌, ◌≢◌, sym, ap, ◌∙◌, [], ◌∷◌, ◌++◌, arith, Bytes, IsDigits, to_string, to_string-IsDigits,
  value-to_string, some-inj, value,
}
use tunnel_proxy.Protocol.Inet.{Inet, IsAddr}
use tunnel_proxy.UdpProxy.{Address, addr_to_key}

-- The digits of a port have no colon, so what stands before them can be found again.
colon_ends : (front ds es : Bytes) → IsDigits ds → ds ≢ front ++ (b':' ∷ es)
colon_ends [] [] es h e = cc
colon_ends [] (d ∷ ds) es h e = ground arith
colon_ends (x ∷ front) [] es h e = cc
colon_ends (x ∷ front) (d ∷ ds) es h e = colon_ends front ds es h.1 (ground arith)

append-colon-inj :
    (a b ds es : Bytes)
    → IsDigits ds
    → IsDigits es
    → a ++ (b':' ∷ ds) ≡ b ++ (b':' ∷ es)
    → (a ≡ b) × (ds ≡ es)
append-colon-inj [] [] ds es hd he e = ground arith
append-colon-inj [] (y ∷ b) ds es hd he e = absurd (colon_ends b ds es hd (ground arith))
append-colon-inj (x ∷ a) [] ds es hd he e = absurd (colon_ends a es ds he (ground arith))
append-colon-inj (x ∷ a) (y ∷ b) ds es hd he e =
    let (same, digits) = append-colon-inj a b ds es hd he (ground arith) in (ground arith, digits)

module _ (inet : Inet) where
  -- Two clients have the same key only if their addresses and their ports are the same.
  pub addr_to_key-inj :
      (a b : Address)
      → IsAddr a.addr
      → IsAddr b.addr
      → addr_to_key inet a ≡ addr_to_key inet b
      → a ≡ b
  unfolding addr_to_key
  addr_to_key-inj a b ha hb e =
      let (s, printed, read) = inet.ntop-pton a.addr ha in
      let (s', printed', read') = inet.ntop-pton b.addr hb in
      let (same_ip, same_port) =
        append-colon-inj s s' (to_string a.port) (to_string b.port) (to_string-IsDigits a.port)
          (to_string-IsDigits b.port) (rw (printed, printed') at e) in
      let addr_is : a.addr ≡ b.addr = some-inj (sym read ∙ ap inet.pton same_ip ∙ read') in
      let port_is : a.port ≡ b.port =
        sym (value-to_string a.port) ∙ ap (value 0) same_port ∙ value-to_string b.port in
      rw (addr_is, port_is)
