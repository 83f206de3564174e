-- ===== src/Common/Calls.antt =====
-- What a C call comes to. State is passed explicitly: an operation takes the state before and its
-- value holds the state after.
use mathlib.Core.Path.{◌≡◌}

-- `undefined` is undefined behaviour, such as an access out of bounds; `diverged` means that the
-- rounds given to a loop ran out; `exited` that the process ended itself, by `exit` or by an
-- assertion that failed.
pub data Outcome (A : Type 0) : Type 0 where
  done : A → Outcome A
  undefined : Outcome A
  diverged : Outcome A
  exited : Outcome A

infixl 5 ◌>>=◌
abbrev pub ◌>>=◌ : {A B : Type 0} → Outcome A → (A → Outcome B) → Outcome B
done a >>= f = f a
undefined >>= f = undefined
diverged >>= f = diverged
exited >>= f = exited

-- The result of a call that ended without undefined behaviour.
pub done-injective : {A : Type 0} (a b : A) → done a ≡ done b → a ≡ b
done-injective a b h = cc
