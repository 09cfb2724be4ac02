-- ===== src/GuacWeb/Image.antt =====
-- The instructions of `send_guac_image` of src/guac_web.cpp.
use tunnel_proxy.Base.{
  ℕ, zero, suc, ◌≤◌, ◌<◌, ◌≡◌, refl, sym, ap, ◌∙◌, List, [], ◌∷◌, ◌++◌, map, arith, append-nil,
  append_assoc, length, take, drop, length-take, length-drop, take-append-drop, All, Bytes,
}
use tunnel_proxy.GuacWeb.{GuacWebClient, callback}
use tunnel_proxy.GuacWeb.Delta.{chunks, blob, blobs, img, end, send_guac_image}

abbrev pub join : List Bytes → Bytes
join [] = []
join (b ∷ bs) = b ++ join bs

chunks-join : (fuel : ℕ) (text : Bytes) → length text ≤ fuel → join (chunks fuel text) ≡ text
unfolding chunks
chunks-join fuel [] h = refl
chunks-join zero (c ∷ cs) h = absurd (omega arith)
chunks-join (suc fuel) (c ∷ cs) h =
    ap (λ z. take 8192 (c ∷ cs) ++ z)
      (chunks-join fuel (drop 8192 (c ∷ cs)) (omega (arith, length-drop 8192 (c ∷ cs))))
    ∙ take-append-drop 8192 (c ∷ cs)

chunks-size :
    (fuel : ℕ) (text : Bytes) → All (λ b. (0 < length b) × (length b ≤ 8192)) (chunks fuel text)
unfolding chunks
chunks-size fuel [] = tt
chunks-size zero (c ∷ cs) = tt
chunks-size (suc fuel) (c ∷ cs) =
    let n = length-take 8192 (c ∷ cs) in
    ((omega (arith, n), omega (arith, n)), chunks-size fuel (drop 8192 (c ∷ cs)))

blobs-called :
    (stream_id : ℕ) (bs : List Bytes) (c : GuacWebClient)
    → blobs stream_id bs c ≡ record c { called = c.called ++ map (blob stream_id) bs }
unfolding blobs
blobs-called stream_id [] c = ap (λ z. record c { called = z }) (sym (append-nil c.called))
blobs-called stream_id (b ∷ bs) c =
    blobs-called stream_id bs (callback (blob stream_id b) c)
    ∙ ap (λ z. record c { called = z })
        (append_assoc c.called (blob stream_id b ∷ []) (map (blob stream_id) bs))

-- An image is handed to the callback as an img instruction with its place, blob instructions of at
-- most 8192 characters whose texts are the image when they are put together, and an end instruction,
-- all of one stream, and nothing else changes.
pub send_guac_image-called :
    (stream_id x y : ℕ) (b64_jpeg : Bytes) (c : GuacWebClient)
    → (bs : List Bytes) × (join bs ≡ b64_jpeg)
      × All (λ b. (0 < length b) × (length b ≤ 8192)) bs
      × (send_guac_image stream_id x y b64_jpeg c ≡ record c {
        called =
            c.called ++ (img stream_id x y ∷ (map (blob stream_id) bs ++ (end stream_id ∷ [])));
      })
unfolding send_guac_image
send_guac_image-called stream_id x y b64_jpeg c =
    let bs = chunks (length b64_jpeg) b64_jpeg in
    (
      bs,
      chunks-join (length b64_jpeg) b64_jpeg (omega arith),
      chunks-size (length b64_jpeg) b64_jpeg,
      ap (callback (end stream_id)) (blobs-called stream_id bs (callback (img stream_id x y) c))
          ∙ ap (λ z. record c { called = z })
              (append_assoc (c.called ++ (img stream_id x y ∷ [])) (map (blob stream_id) bs)
                  (end stream_id ∷ [])
                ∙ append_assoc c.called (img stream_id x y ∷ [])
                    (map (blob stream_id) bs ++ (end stream_id ∷ []))),
    )
