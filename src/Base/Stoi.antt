-- ===== src/Base/Stoi.antt =====
-- std::stoi and the conversion of an int to uint16_t.
use Prim.Native.Nat.{ℕ, zero, suc, ◌-◌, ◌%◌, ◌^◌}
use mathlib.Core.Bool.{Bool, true, false, ◌&&◌, ◌||◌}
use mathlib.Core.List.{[], ◌∷◌}
use mathlib.Core.Option.{Option, none, some}
use tunnel_proxy.Base.Tests.{◌==◌, ltb, leb, if◌then◌else◌}
use tunnel_proxy.Base.Text.{Bytes}
use tunnel_proxy.Base.Decimal.{is_digit, value}

pub data ℤ : Type 0 where
  pos : ℕ → ℤ
  negsuc : ℕ → ℤ

-- isspace of the C locale
skip_space : Bytes → Bytes
skip_space [] = []
skip_space (c ∷ cs) =
    let rest = skip_space cs in if c == 32 || (leb 9 c && leb c 13) then rest else c ∷ cs

leading_digits : Bytes → Bytes
leading_digits [] = []
leading_digits (c ∷ cs) = let rest = leading_digits cs in if is_digit c then c ∷ rest else []

negate : ℕ → ℤ
negate zero = pos 0
negate (suc n) = negsuc n

-- The digits behind the sign; `none` is an exception, std::invalid_argument where there are none,
-- std::out_of_range where the value is no int.
ranged : Bool → Bytes → Option ℤ
unfolding negate
ranged minus [] = none
ranged true (d ∷ ds) =
    if leb (value 0 (d ∷ ds)) (2 ^ 31) then some (negate (value 0 (d ∷ ds))) else none
ranged false (d ∷ ds) =
    if ltb (value 0 (d ∷ ds)) (2 ^ 31) then some (pos (value 0 (d ∷ ds))) else none

signed : Bytes → Option ℤ
unfolding leading_digits ranged
signed [] = none
signed (c ∷ cs) =
    if c == b'-'
    then ranged true (leading_digits cs)
    else if c == b'+'
    then ranged false (leading_digits cs)
    else ranged false (leading_digits (c ∷ cs))

unfoldable pub stoi : Bytes → Option ℤ
unfolding signed skip_space
stoi text = signed (skip_space text)

unfoldable pub to_uint16 : ℤ → ℕ
to_uint16 (pos n) = n % 2 ^ 16
to_uint16 (negsuc n) = 2 ^ 16 - 1 - n % 2 ^ 16
