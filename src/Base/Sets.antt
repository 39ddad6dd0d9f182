-- ===== src/Base/Sets.antt =====
-- Python's `set`: a list without repetitions, in an order that Python does not promise. Statements
-- about sets are about membership.
use mathlib.Core.Path.{◌≡◌}
use mathlib.Core.Bool.{not, ◌&&◌, ◌||◌}
use mathlib.Core.List.{List, [], ◌∷◌}
use native.Mathlib.Omega.{arith}
use cobalto.Base.Tests.{DecEq, ◌==◌, if◌then◌else◌}
use cobalto.Base.Lists.{contains}

module _ {ℓ} {A : Type ℓ} ⦃e : DecEq A⦄ where
  -- s.add(x)
  unfoldable pub add : A → List A → List A
  add x s = if contains x s then s else x ∷ s

  -- s.discard(x)
  unfoldable pub discard : A → List A → List A
  discard x [] = []
  discard x (y ∷ s) = let rest = discard x s in if x == y then rest else y ∷ rest

  pub contains-add : (x y : A) (s : List A) → contains y (add x s) ≡ (y == x || contains y s)
  unfolding add
  contains-add x y s = ground (arith, e.same_iff y x, e.same_iff x y)

  pub contains-discard :
      (x y : A) (s : List A) → contains y (discard x s) ≡ (not (x == y) && contains y s)
  unfolding discard
  contains-discard x y [] = ground arith
  contains-discard x y (z ∷ s) =
      ground (arith, e.same_iff y z, e.same_iff x y, e.same_iff x z, contains-discard x y s)
