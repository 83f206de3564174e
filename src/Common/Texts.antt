-- ===== src/Common/Texts.antt =====
-- C strings as lists of bytes, without the NUL at their end.
use Prim.Native.Nat.{ℕ, ◌<◌}
use mathlib.Core.Path.{◌≡◌, refl}
use mathlib.Core.Bool.{Bool, true, false, ◌&&◌}
use mathlib.Core.List.{List, [], ◌∷◌}
use ecse.Common.Tests.{◌==◌, eqb_of_eq}
use ecse.Common.Lists.{All}

abbrev pub Text : Type 0
Text = List ℕ

-- `strcmp(a, b) == 0`
unfoldable pub text_eq : Text → Text → Bool
text_eq [] [] = true
text_eq [] (c ∷ cs) = false
text_eq (b ∷ bs) [] = false
text_eq (b ∷ bs) (c ∷ cs) = (b == c) && text_eq bs cs

pub text_eq_refl : (name : Text) → text_eq name name ≡ true
unfolding text_eq
text_eq_refl [] = refl
text_eq_refl (c ∷ cs) = rw (eqb_of_eq c c refl, text_eq_refl cs) refl

-- The bytes of a C string: none of them is the NUL.
abbrev pub IsText : Text → Type 0
IsText = All (λ c. (0 < c) × (c < 256))
