-- ===== src/Base/Search.antt =====
-- std::string::find and the like.
use Prim.Native.Nat.{ℕ, suc, ◌+◌}
use mathlib.Core.Bool.{Bool, true, false, ◌&&◌}
use mathlib.Core.List.{[], ◌∷◌}
use mathlib.Core.Option.{Option, none, some}
use tunnel_proxy.Base.Lists.{drop}
use tunnel_proxy.Base.Tests.{◌==◌, if◌then◌else◌}
use tunnel_proxy.Base.Text.{Bytes}

unfoldable pub starts_with : Bytes → Bytes → Bool
starts_with [] text = true
starts_with (c ∷ cs) [] = false
starts_with (c ∷ cs) (d ∷ ds) = c == d && starts_with cs ds

-- `text.find(needle)` for a needle that is not empty; `none` is npos.
unfoldable pub find : Bytes → Bytes → Option ℕ
find needle [] = none
find needle (c ∷ cs) =
    let later : Option ℕ = elim (find needle cs) [ none ↦ none | some n ↦ some (suc n) ] in
    if starts_with needle (c ∷ cs) then some 0 else later

-- `text.find(needle, from)`
abbrev pub find_from : Bytes → Bytes → ℕ → Option ℕ
find_from needle text from = elim (find needle (drop from text)) [
  | none ↦ none
  | some n ↦ some (from + n)
]
