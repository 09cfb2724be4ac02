-- ===== src/EpollProxy/WriteOut.antt =====
-- The loop of `forward_data` that empties the pipe.
use tunnel_proxy.Base.Maps.{ℕ_key}
use tunnel_proxy.Base.{
  ℕ, ◌-◌, ◌≤◌, min, ◌≡◌, sym, ap, ◌∙◌, true, List, [], ◌∷◌, ◌++◌, arith, append-nil, append_assoc,
  length, length-append, length-take, length-drop, take, drop, take-append-drop, Bytes,
}
use tunnel_proxy.Socket.Receive.{append-inj}
use tunnel_proxy.EpollProxy.{Out, took, blocked, out_failed, write_out}

-- The loop takes a front part out of the pipe.
write_out_sound :
    (os : List Out) (missing : ℕ) (held : Bytes)
    → missing ≤ length held
    → let r = write_out os missing held in (r.0 ++ r.1 ≡ held) × (r.2 ≡ true → length r.0 ≡ missing)
unfolding write_out
write_out_sound [] missing held h =
    (take-append-drop missing held, λ e. omega (arith, length-take missing held))
write_out_sound (took k ∷ os) missing held h =
    let n = min k (min missing (length held)) in
    let (whole, size) =
      write_out_sound os (missing - n) (drop n held) (omega (arith, length-drop n held)) in
    ground (
      arith,
      whole,
      size,
      take-append-drop n held,
      append_assoc (take n held) (write_out os (missing - n) (drop n held)).0
          (write_out os (missing - n) (drop n held)).1,
      length-append (take n held) (write_out os (missing - n) (drop n held)).0,
      length-take n held,
    )
write_out_sound (blocked writable ∷ os) missing held h =
    let (whole, size) = write_out_sound os missing held h in ground (arith, whole, size)
write_out_sound (out_failed ∷ os) missing held h = ground arith

-- From an empty pipe, all that was put in, or a front part of it.
pub write_out-whole :
    (os : List Out) (held bytes : Bytes)
    → held ≡ []
    → let r = write_out os (length bytes) (held ++ bytes) in
      (r.0 ++ r.1 ≡ bytes) × (r.2 ≡ true → (r.0 ≡ bytes) × (r.1 ≡ []))
write_out-whole os held bytes e =
    let (whole, size) =
      write_out_sound os (length bytes) (held ++ bytes) (omega (arith, length-append held bytes)) in
    let plain : held ++ bytes ≡ bytes = ap (λ h. h ++ bytes) e in
    (
      whole ∙ plain,
      λ ok. append-inj _ _ bytes [] (whole ∙ plain ∙ sym (append-nil bytes)) (size ok),
    )
