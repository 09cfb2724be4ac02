-- ===== src/Base/Decimal.antt =====
-- std::to_string and std::stoul on unsigned numbers.
use Prim.Native.Nat.{ℕ, zero, suc, ◌+◌, ◌-◌, ◌*◌, ◌/◌, ◌%◌, ◌^◌, ◌≤◌, ◌<◌}
use mathlib.Core.Bool.{Bool, true, ◌&&◌}
use mathlib.Core.List.{[], ◌∷◌}
use mathlib.Core.Option.{Option, none, some}
use mathlib.Core.Logic.{◌≢◌}
use mathlib.Core.Path.{◌≡◌}
use native.Mathlib.Omega.{arith}
use tunnel_proxy.Base.Lists.{All, length}
use tunnel_proxy.Base.Tests.{◌==◌, leb, ltb, if◌then◌else◌}
use tunnel_proxy.Base.Text.{Bytes}

-- The decimal digits, written from the right; each round divides `n` by ten, so `n` rounds are
-- more than enough.
unfoldable pub write_digits : ℕ → ℕ → Bytes → Bytes
write_digits zero n out = out
write_digits (suc fuel) n out =
    let out' = (b'0' + n % 10) ∷ out in
    let more = write_digits fuel (n / 10) out' in if n / 10 == 0 then out' else more

unfoldable pub to_string : ℕ → Bytes
unfolding write_digits
to_string n = write_digits (suc n) n []

abbrev pub is_digit : ℕ → Bool
is_digit c = leb b'0' c && leb c b'9'

-- The number that digits spell behind `n`, with no bound.
abbrev pub value : ℕ → Bytes → ℕ
value n [] = n
value n (c ∷ cs) = value (n * 10 + (c - b'0')) cs

-- `std::stoul` on a text of digits: `none` is the exception std::out_of_range.
unfoldable pub stoul : Bytes → Option ℕ
stoul s = if ltb (value 0 s) (2 ^ 64) then some (value 0 s) else none

write_digits-value :
    (fuel n : ℕ) (out : Bytes) → n < fuel → value 0 (write_digits fuel n out) ≡ value n out
unfolding write_digits
write_digits-value zero n out h = absurd (omega arith)
write_digits-value (suc fuel) n out h =
    ground (arith, write_digits-value fuel (n / 10) ((b'0' + n % 10) ∷ out))

-- The digits of `n` spell `n`.
pub value-to_string : (n : ℕ) → value 0 (to_string n) ≡ n
unfolding to_string
value-to_string n = write_digits-value (suc n) n [] (omega arith)

abbrev pub IsDigits : Bytes → Type 0
IsDigits = All (λ c. is_digit c ≡ true)

write_digits-IsDigits :
    (fuel n : ℕ) (out : Bytes) → IsDigits out → IsDigits (write_digits fuel n out)
unfolding write_digits
write_digits-IsDigits zero n out h = h
write_digits-IsDigits (suc fuel) n out h =
    let here : is_digit (b'0' + n % 10) ≡ true = ground arith in
    ground (arith, here, write_digits-IsDigits fuel (n / 10) ((b'0' + n % 10) ∷ out) (here, h))

pub to_string-IsDigits : (n : ℕ) → IsDigits (to_string n)
unfolding to_string
to_string-IsDigits n = write_digits-IsDigits (suc n) n [] tt

write_digits-length : (fuel n : ℕ) (out : Bytes) → length out ≤ length (write_digits fuel n out)
unfolding write_digits
write_digits-length zero n out = omega arith
write_digits-length (suc fuel) n out =
    ground (arith, write_digits-length fuel (n / 10) ((b'0' + n % 10) ∷ out))

-- There is at least one digit.
pub to_string-ne-nil : (n : ℕ) → to_string n ≢ []
unfolding to_string
to_string-ne-nil n = ground (arith, write_digits-length n (n / 10) ((b'0' + n % 10) ∷ []))
