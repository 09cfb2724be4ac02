-- ===== src/GuacParser/Queue.antt =====
-- The parser does not look at its queue: it may be emptied between two calls of `feed`.
use tunnel_proxy.Base.{
  ℕ, ◌≡◌, refl, ap, ◌∙◌, List, [], ◌∷◌, ◌++◌, append_assoc, arith, Bytes, Effect, done, raised,
  then_do,
}
use tunnel_proxy.GuacParser.{
  Error, GuacInstruction, State, reading_length, reading_element, reading_sep, GuacParser,
  process_byte, process_in, store_element, feed,
}
use tunnel_proxy.GuacParser.Stream.{feed_packets}

-- With instructions that stand in front of those of the parser.
abbrev pub behind : List GuacInstruction → GuacParser → GuacParser
behind is p = record p { ready = is ++ p.ready }

abbrev pub map_effect :
    (GuacParser → GuacParser) → Effect Error GuacParser → Effect Error GuacParser
map_effect f (done q) = done (f q)
map_effect f (raised e q) = raised e (f q)

module _ (max_size : ℕ) (is : List GuacInstruction) where
  process_in-behind :
      (s : State) (p : GuacParser) (c : ℕ)
      → process_in max_size s (behind is p) c ≡ map_effect (behind is) (process_in max_size s p c)
  unfolding process_in
  process_in-behind reading_length p c = ground arith
  process_in-behind reading_element p c = refl
  process_in-behind reading_sep p c =
      ground (arith, append_assoc is p.ready (store_element p.elem_buf p.current ∷ []))

  process_byte-behind :
      (p : GuacParser) (c : ℕ)
      → process_byte max_size (behind is p) c ≡ map_effect (behind is) (process_byte max_size p c)
  unfolding process_byte
  process_byte-behind p c = process_in-behind p.state p c

  then_do-behind :
      (r : Effect Error GuacParser) (f g : GuacParser → Effect Error GuacParser)
      → ((q : GuacParser) → f (behind is q) ≡ map_effect (behind is) (g q))
      → then_do (map_effect (behind is) r) f ≡ map_effect (behind is) (then_do r g)
  then_do-behind (done q) f g h = h q
  then_do-behind (raised e q) f g h = refl

  feed-behind :
      (text : Bytes) (p : GuacParser)
      → feed max_size (behind is p) text ≡ map_effect (behind is) (feed max_size p text)
  unfolding feed
  feed-behind [] p = refl
  feed-behind (c ∷ cs) p =
      ap (λ r. then_do r (λ q. feed max_size q cs)) (process_byte-behind p c)
      ∙ then_do-behind (process_byte max_size p c) _ _ (λ q. feed-behind cs q)

  pub feed_packets-behind :
      (packets : List Bytes) (p : GuacParser)
      → feed_packets max_size (behind is p) packets
        ≡ map_effect (behind is) (feed_packets max_size p packets)
  feed_packets-behind [] p = refl
  feed_packets-behind (d ∷ ds) p =
      ap (λ r. then_do r (λ q. feed_packets max_size q ds)) (feed-behind d p)
      ∙ then_do-behind (feed max_size p d) _ _ (λ q. feed_packets-behind ds q)
