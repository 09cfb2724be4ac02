-- ===== src/Socket/Delivery.antt =====
-- What the `send` loop hands the kernel.
use mathlib.Core.List.{cons-ne-nil}
use mathlib.Core.Bool.{false≢true}
use tunnel_proxy.Base.{
  ℕ, min, ◌≡◌, ◌≢◌, refl, ap, ◌∙◌, true, false, List, [], ◌∷◌, ◌++◌, ◌==◌, Bool-cases, inl, inr,
  arith, append-nil, append_assoc, length, take, drop, take-append-drop, Bytes,
}
use tunnel_proxy.Socket.{send_all}
use tunnel_proxy.Socket.Receive.{NoFailure}

-- The `send` loop hands the kernel a prefix, the whole exactly if it reports success; and it
-- succeeds if no `send` fails.
pub send_all_sound :
    (rs : List ℕ) (bs : Bytes)
    → ((rest : Bytes) × ((send_all rs bs).1 ++ rest ≡ bs)
        × (((send_all rs bs).2 ≡ true) → rest ≡ [])
        × ((send_all rs bs).2 ≡ false → rest ≢ []))
      × (NoFailure rs → (send_all rs bs).2 ≡ true)
unfolding send_all
send_all_sound [] [] = (([], refl, λ h. refl, λ h. cc), λ h. refl)
send_all_sound (r ∷ rs) [] = (([], refl, λ h. refl, λ h. cc), λ h. refl)
send_all_sound [] (b ∷ bs) = (([], append-nil (b ∷ bs), λ h. refl, λ h. cc), λ h. refl)
send_all_sound (r ∷ rs) (b ∷ bs) =
    let n = min r (length (b ∷ bs)) in
    let ((rest, whole, all, part), fine) = send_all_sound rs (drop n (b ∷ bs)) in
    elim (Bool-cases (n == 0)) [
      | inl stop ↦ rw stop (
        (b ∷ bs, refl, λ h. absurd (false≢true h), λ h. cons-ne-nil b bs),
        λ h. absurd (ground (arith, h.0)),
      )
      | inr goes ↦ rw goes (
        (
          rest,
          append_assoc (take n (b ∷ bs)) (send_all rs (drop n (b ∷ bs))).1 rest
              ∙ ap (λ t. take n (b ∷ bs) ++ t) whole
              ∙ take-append-drop n (b ∷ bs),
          all,
          part,
        ),
        λ h. fine h.1,
      )
    ]
