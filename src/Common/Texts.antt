-- ===== src/Common/Texts.antt =====
-- Texts as lists of code points.
use Prim.Native.Nat.{ℕ}
use Prim.Native.String.{String}
use Prim.Native.Char.{code}
use mathlib.Core.Bool.{Bool, true, false, ◌&&◌, ◌||◌}
use mathlib.Core.List.{List, [], ◌∷◌}
use openclaw_manager.Common.Tests.{◌==◌, nat_eq}

abbrev pub codes : String → List ℕ
codes String.[] = []
codes (String.◌∷◌ c s) = code c ∷ codes s

abbrev pub starts_with : List ℕ → List ℕ → Bool
starts_with [] cs = true
starts_with (a ∷ as') [] = false
starts_with (a ∷ as') (b ∷ bs) = a == b && starts_with as' bs

abbrev pub has_part : List ℕ → List ℕ → Bool
has_part part [] = starts_with part []
has_part part (c ∷ cs) = starts_with part (c ∷ cs) || has_part part cs

-- Python's `part in whole`
abbrev pub contains : String → String → Bool
contains part whole = has_part (codes part) (codes whole)

abbrev pub has_end : List ℕ → List ℕ → Bool
has_end part [] = starts_with part []
has_end part (c ∷ cs) = (starts_with part (c ∷ cs) && starts_with (c ∷ cs) part) || has_end part cs

-- `whole.endswith(part)`
abbrev pub ends_with : String → String → Bool
ends_with part whole = has_end (codes part) (codes whole)
