-- ===== src/GuacParser/Stream.antt =====
-- `feed` does not see where the packets of the stream end.
use tunnel_proxy.Base.{
  ℕ, ◌≡◌, refl, List, [], ◌∷◌, ◌++◌, Bytes, Effect, done, raised, then_do, then_do-ext,
}
use tunnel_proxy.GuacParser.{Error, GuacParser, process_byte, feed}

module _ (max_size : ℕ) where
  then_do-feed :
      (r : Effect Error GuacParser) (xs ys : Bytes)
      → ((q : GuacParser)
          → feed max_size q (xs ++ ys) ≡ then_do (feed max_size q xs) (λ s. feed max_size s ys))
      → then_do r (λ q. feed max_size q (xs ++ ys))
        ≡ then_do (then_do r (λ q. feed max_size q xs)) (λ s. feed max_size s ys)
  then_do-feed (done q) xs ys h = h q
  then_do-feed (raised e q) xs ys h = refl

  pub feed-append :
      (xs ys : Bytes) (p : GuacParser)
      → feed max_size p (xs ++ ys) ≡ then_do (feed max_size p xs) (λ q. feed max_size q ys)
  unfolding feed
  feed-append [] ys p = refl
  feed-append (c ∷ cs) ys p =
      then_do-feed (process_byte max_size p c) cs ys (λ q. feed-append cs ys q)

  -- The calls of `feed` for the packets as they arrive.
  abbrev pub feed_packets : GuacParser → List Bytes → Effect Error GuacParser
  feed_packets p [] = done p
  feed_packets p (d ∷ ds) = then_do (feed max_size p d) (λ q. feed_packets q ds)

  abbrev pub joined : List Bytes → Bytes
  joined [] = []
  joined (d ∷ ds) = d ++ joined ds

  -- However a stream is cut into packets, the parser ends in the same state with the same
  -- instructions, or throws the same error in the same state.
  pub feed_packets-joined :
      (p : GuacParser) (ds : List Bytes) → feed_packets p ds ≡ feed max_size p (joined ds)
  unfolding feed
  feed_packets-joined p [] = refl
  feed_packets-joined p (d ∷ ds) =
      rw (feed-append d (joined ds) p)
        (then_do-ext (feed max_size p d) _ _ (λ q. feed_packets-joined q ds))
